-- ===== src/Auth/ClientIp.antt =====
-- backend/internal/auth/limiter.go: `ClientIP`, by which the limiters are keyed.
use roxey.Base.{
  ℕ, ◌≡◌, refl, Bool, true, false, ◌||◌, not, [], ◌∷◌, ◌++◌, Option, none, some, arith, Bytes,
  is_empty, cut, cut-append, trim_left, trim_right, contains_byte, ◌==◌, if◌then◌else◌,
}

-- The headers and the address that `ClientIP` reads; a missing header is the empty text.
pub record Peer : Type 0 where
  pub cf_connecting_ip : Bytes
  pub x_forwarded_for : Bytes
  pub remote_addr : Bytes

abbrev is_blank : ℕ → Bool
is_blank c = c == b' ' || c == b'\t'

-- `trimSpace`
unfoldable pub trim_space : Bytes → Bytes
unfolding trim_left trim_right
trim_space s = trim_right is_blank (trim_left is_blank s)

-- the text in front of the last `b`: `host[:j]` at `j = lastIndexByte(host, b)`
unfoldable pub before_last : ℕ → Bytes → Option Bytes
before_last b [] = none
before_last b (c ∷ s) = elim (before_last b s) [
  | some front ↦ some (c ∷ front)
  | none ↦ if c == b then some [] else none
]

unfoldable pub ends_with_bracket : Bytes → Bool
ends_with_bracket [] = true
ends_with_bracket (c ∷ []) = c == b']'
ends_with_bracket (c ∷ d ∷ s) = ends_with_bracket (d ∷ s)

-- the address without its port; the empty text has no last byte to test
unfoldable pub strip_port : Bytes → Bytes
unfolding before_last ends_with_bracket
strip_port host =
    if ends_with_bracket host
    then host
    else elim (before_last b':' host) [ none ↦ host | some front ↦ front ]

-- `ClientIP`
unfoldable pub client_ip : Peer → Bytes
unfolding trim_space strip_port
client_ip p =
    if not (is_empty p.cf_connecting_ip)
    then p.cf_connecting_ip
    else if not (is_empty p.x_forwarded_for)
    then trim_space (cut b',' p.x_forwarded_for).0
    else strip_port p.remote_addr

before_last-none : (b : ℕ) (s : Bytes) → contains_byte b s ≡ false → before_last b s ≡ none
unfolding before_last contains_byte
before_last-none b [] h = refl
before_last-none b (c ∷ s) h = ground (arith, before_last-none b s)

before_last-append :
    (b : ℕ) (front back : Bytes)
    → contains_byte b back ≡ false
    → before_last b (front ++ (b ∷ back)) ≡ some front
unfolding before_last
before_last-append b [] back h = ground (arith, before_last-none b back h)
before_last-append b (c ∷ front) back h = ground (arith, before_last-append b front back h)

ends_with_bracket-append :
    (front : Bytes) (c : ℕ) (back : Bytes)
    → ends_with_bracket (front ++ (c ∷ back)) ≡ ends_with_bracket (c ∷ back)
unfolding ends_with_bracket
ends_with_bracket-append [] c back = refl
ends_with_bracket-append (d ∷ []) c back = refl
ends_with_bracket-append (d ∷ e ∷ front) c back = ends_with_bracket-append (e ∷ front) c back

-- With no proxy header, `host:port` gives the host whatever colons it holds (an IPv6 address in
-- brackets included), for a port with no colon that does not end in `]`.
pub client_ip-remote :
    (host port : Bytes) (p : Peer)
    → p.cf_connecting_ip ≡ []
    → p.x_forwarded_for ≡ []
    → p.remote_addr ≡ host ++ (b':' ∷ port)
    → contains_byte b':' port ≡ false
    → ends_with_bracket (b':' ∷ port) ≡ false
    → client_ip p ≡ host
unfolding client_ip
client_ip-remote host port p no_cf no_xff e plain no_bracket =
    rw (no_cf, no_xff, e)
      (rw (ends_with_bracket-append host b':' port)
        (rw no_bracket (rw (before_last-append b':' host port plain))))

-- The first hop of a forwarding header decides, trimmed of blanks, and nothing behind its comma
-- does; Cloudflare's header comes before both.
pub client_ip-forwarded :
    (first rest : Bytes) (p : Peer)
    → contains_byte b',' first ≡ false
    → p.x_forwarded_for ≡ first ++ (b',' ∷ rest)
    → client_ip p ≡ (if is_empty p.cf_connecting_ip then trim_space first else p.cf_connecting_ip)
unfolding client_ip
client_ip-forwarded first rest p h e =
    rw e (rw (cut-append b',' first rest h) (ground (arith, present first)))
  where
    present : (f : Bytes) → is_empty (f ++ (b',' ∷ rest)) ≡ false
    present [] = refl
    present (c ∷ f) = refl
