-- ===== src/Tunnel.antt =====
-- cli/tunnel/tunnel.go and wsnet.go: the client side of a tunnel. `Hold` is a machine over the
-- events that its goroutine waits for; a websocket is the messages that are still to come.
pub mod Backoff
pub mod Bytestream
use Prim.Native.Nat.{min}
use roxey.Base.{
  ℕ, ◌+◌, ◌*◌, Bool, true, false, List, [], ◌∷◌, ◌++◌, Option, none, some, Bytes, codes, cut,
  contains_byte, cut_prefix, is_empty, trim_prefix, if◌then◌else◌, take, drop,
}

-- `ParseTarget`
unfoldable pub parse_target : Bytes → Bytes
parse_target target =
    let bare = trim_prefix (trim_prefix target (codes "http://")) (codes "https://") in
    let (address, _, _) = cut b'/' bare in
    if contains_byte b':' address then address else codes "localhost:" ++ address

-- the greeting that `Dial` reads, with the host that the relay assigns
unfoldable pub assigned_host : Bytes → Option Bytes
assigned_host greeting = elim (cut_prefix greeting (codes "host:")) [
  | none ↦ none
  | some host ↦ if is_empty host then none else some host
]

-- what `setRouteQuery` sets, in turn
unfoldable pub route_query : Bytes → Bytes → Bytes → Bytes → List (Bytes × Bytes)
route_query service path protect gate_group =
    (codes "service", service)
    ∷ (codes "path", path)
    ∷ ((if is_empty protect then [] else (codes "protect", protect) ∷ [])
        ++ (if is_empty gate_group then [] else (codes "gate_group", gate_group) ∷ []))

-- the goroutine of `Hold`: behind a connection, in the wait before a new one, or finished; times
-- are in milliseconds.
pub data Hold : Type 0 where
  connected : ℕ → Hold
  waiting : ℕ → Hold
  finished : Hold

pub data HoldEvent : Type 0 where
  -- the context ends
  cancelled : HoldEvent
  -- the tunnel drops
  dropped : HoldEvent
  -- the wait is over, and `Dial` succeeds or not
  dialled : Bool → HoldEvent

abbrev pub second : ℕ
second = 1000

abbrev pub longest_wait : ℕ
longest_wait = 30 * 1000

-- `Hold`, behind the first connection
abbrev pub hold : Hold
hold = connected second

unfoldable pub hold_step : Hold → HoldEvent → Hold
hold_step finished e = finished
hold_step (connected b) cancelled = finished
hold_step (connected b) dropped = waiting b
hold_step (connected b) (dialled ok) = connected b
hold_step (waiting b) cancelled = finished
hold_step (waiting b) dropped = waiting b
hold_step (waiting b) (dialled true) = connected second
hold_step (waiting b) (dialled false) = waiting (min (b * 2) longest_wait)

unfoldable pub hold_run : Hold → List HoldEvent → Hold
unfolding hold_step
hold_run h [] = h
hold_run h (e ∷ es) = hold_run (hold_step h e) es

-- `wsNetConn`: the rest of the message that is being read, if there is one, and the messages behind
-- it. `NextReader` fails when there is none left.
pub record WsConn : Type 0 where
  pub reader : Option Bytes
  pub messages : List Bytes

-- What a reader does for a buffer of some size, with these bytes left: how many it gives, and
-- whether it says that the message ends with them.
pub record Reader : Type 0 where
  pub gives : ℕ → Bytes → ℕ
  pub ends : ℕ → Bytes → Bool

abbrev pub pending : Option Bytes → List Bytes
pending none = []
pending (some rest) = rest ∷ []

module _ (r : Reader) where
  -- one round of the loop of `Read` with a reader; `none` is another round.
  unfoldable pub read_some : ℕ → Bytes → List Bytes → Option (Bytes × WsConn)
  read_some size rest messages =
      let n = r.gives size rest in
      let given = take n rest in
      if r.ends size rest
      then (if is_empty given
          then none
          else some (given, record { reader = none; messages = messages }))
      else some (given, record { reader = some (drop n rest); messages = messages })

  -- the loop of `Read`
  unfoldable pub read_messages : ℕ → List Bytes → Option (Bytes × WsConn)
  unfolding read_some
  read_messages size [] = none
  read_messages size (m ∷ ms) =
      let later = read_messages size ms in
      elim (read_some size m ms) [ some answer ↦ some answer | none ↦ later ]

  -- `Read`; `none` is the error of `NextReader`. A reader that is there is read first, as the one
  -- of a next message would be.
  unfoldable pub read : ℕ → WsConn → Option (Bytes × WsConn)
  unfolding read_messages
  read size w = read_messages size (pending w.reader ++ w.messages)

-- `Write`: each call is one message.
abbrev pub write : List Bytes → Bytes → List Bytes
write sent p = sent ++ (p ∷ [])
