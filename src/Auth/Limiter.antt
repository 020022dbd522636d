-- ===== src/Auth/Limiter.antt =====
-- backend/internal/auth/limiter.go: the sliding-window rate limiter. Times are nanoseconds since
-- some start, and the clock's reading is an argument of each call.
pub mod Window
pub mod Bound
use roxey.Base.{
  ℕ, suc, ◌+◌, ◌*◌, Bool, true, false, not, List, [], ◌∷◌, ◌++◌, Option, none, some, Bytes, Dict,
  lookup, insert, delete, length, select, ltb, leb, if◌then◌else◌,
}

pub record Limiter : Type 0 where
  pub window : ℕ
  pub max : ℕ
  pub hits : Dict (List ℕ)
  pub last_gc : ℕ

unfoldable pub new_limiter : ℕ → ℕ → ℕ → Limiter
new_limiter window max now = record { window = window; max = max; hits = []; last_gc = now }

-- a clock that is read in whole seconds
abbrev pub nanoseconds : ℕ → ℕ
nanoseconds now = now * 1_000_000_000

-- `time.Minute`
abbrev pub minute : ℕ
minute = 60_000_000_000

-- `h.After(now.Add(-window))`, with the window on the other side
abbrev pub is_recent : ℕ → ℕ → ℕ → Bool
is_recent window now h = ltb now (h + window)

abbrev pub recent : ℕ → ℕ → List ℕ → List ℕ
recent window now = select (is_recent window now)

abbrev is_nil : List ℕ → Bool
is_nil [] = true
is_nil (h ∷ hs) = false

-- the pass over all keys
unfoldable pub collect : ℕ → ℕ → Dict (List ℕ) → Dict (List ℕ)
collect window now [] = []
collect window now ((k, hs) ∷ m) =
    let rest = collect window now m in
    let kept = recent window now hs in if is_nil kept then delete k rest else (k, kept) ∷ rest

abbrev pub hits_at : Bytes → Dict (List ℕ) → List ℕ
hits_at k m = elim (lookup k m) [ none ↦ [] | some hs ↦ hs ]

unfoldable pub occasional_gc : Limiter → ℕ → Limiter
unfolding collect
occasional_gc l now =
    if ltb (l.last_gc + minute) now
    then record l { hits = collect l.window now l.hits; last_gc = now }
    else l

unfoldable pub record_attempt : Limiter → Bytes → ℕ → Limiter × Bool
record_attempt l key now =
    let kept = recent l.window now (hits_at key l.hits) in
    if leb l.max (length kept)
    then (record l { hits = insert key kept l.hits }, false)
    else (record l { hits = insert key (kept ++ (now ∷ [])) l.hits }, true)

-- `Limiter.Allow`
unfoldable pub allow : Limiter → Bytes → ℕ → Limiter × Bool
unfolding occasional_gc record_attempt
allow l key now = record_attempt (occasional_gc l now) key now
