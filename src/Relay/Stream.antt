-- ===== src/Relay/Stream.antt =====
-- backend/relay/relay.go: `OpenStream` on a pending entry waits for `Ready`, for at most
-- `ReadyTimeout`. Service names.
use roxey.Base.{
  ℕ, ◌≡◌, Bool, true, false, Option, none, some, ltb, if◌then◌else◌, arith, ◌<◌, inl, inr, ◌⊎◌,
  refl,
}
use roxey.Relay.{Entry, make_ready}

-- What the yamux session answers to `IsClosed` and `Open`: `none` is an error of `Open`.
pub record Session : Type 0 where
  pub closed : Bool
  pub opened : Option ℕ

pub data OpenResult : Type 0 where
  stream : ℕ → OpenResult
  not_ready tunnel_closed open_failed : OpenResult

-- in milliseconds
abbrev pub ready_timeout : ℕ
ready_timeout = 10_000

abbrev dial : Session → OpenResult
dial s =
    if s.closed then tunnel_closed else elim s.opened [ none ↦ open_failed | some c ↦ stream c ]

-- `released` is how long after the call another goroutine calls `Ready`, if it ever does.
unfoldable pub open_stream : Session → Entry → Option ℕ → OpenResult
open_stream s e released = if e.ready then dial s else elim released [
  | none ↦ not_ready
  | some d ↦ if ltb d ready_timeout then dial s else not_ready
]

-- No stream reaches the CLI through a pending entry unless `Ready` comes within the timeout, and
-- none through a closed session.
pub open_stream_gate :
    (s : Session) (e : Entry) (released : Option ℕ) (c : ℕ)
    → open_stream s e released ≡ stream c
    → (s.closed ≡ false)
      × (s.opened ≡ some c)
      × ((e.ready ≡ true) ⊎ ((d : ℕ) × (released ≡ some d) × (d < ready_timeout)))
unfolding open_stream make_ready
open_stream_gate s e none c h = ground arith
open_stream_gate s e (some d) c h = (ground arith, ground arith, stream_ready e.ready refl h)
  where
    stream_ready :
        (b : Bool)
        → e.ready ≡ b
        → open_stream s e (some d) ≡ stream c
        → (e.ready ≡ true) ⊎ ((d' : ℕ) × (some d ≡ some d') × (d' < ready_timeout))
    stream_ready true q h = inl q
    stream_ready false q h = inr (d, refl, ground arith)

-- Once the entry is ready, a call on an open session answers as the session does, however long it
-- would have waited.
pub open_stream-make_ready :
    (s : Session) (e : Entry) (released : Option ℕ)
    → s.closed ≡ false
    → open_stream s (make_ready e) released
      ≡ elim s.opened [ none ↦ open_failed | some c ↦ stream c ]
unfolding open_stream make_ready
open_stream-make_ready s e released h = ground arith
