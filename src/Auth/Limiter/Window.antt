-- ===== src/Auth/Limiter/Window.antt =====
-- backend/internal/auth/limiter.go against a limiter that forgets nothing: every accepted attempt
-- is kept for good, and the decision counts those of the key that lie in the window.
use roxey.Base.{
  ℕ, ◌≤◌, ◌≡◌, refl, sym, ◌∙◌, ap, Bool, true, false, not, List, [], ◌∷◌, ◌++◌, inl, inr, Bytes,
  Dict, lookup, insert, delete, lookup-insert, lookup-delete, equal, equal_iff, length, ltb, leb,
  if◌then◌else◌, arith, Bool-cases,
}
use mathlib.Core.List.{append-nil}
use roxey.Auth.Limiter.{
  Limiter, new_limiter, recent, collect, hits_at, occasional_gc, record_attempt, allow,
}

pub recent-recent :
    (w now later : ℕ) (hs : List ℕ)
    → now ≤ later
    → recent w later (recent w now hs) ≡ recent w later hs
recent-recent w now later [] h = refl
recent-recent w now later (x ∷ hs) h = ground (arith, recent-recent w now later hs)

pub recent-append :
    (w now : ℕ) (xs ys : List ℕ) → recent w now (xs ++ ys) ≡ recent w now xs ++ recent w now ys
recent-append w now [] ys = refl
recent-append w now (x ∷ xs) ys = ground (arith, recent-append w now xs ys)

hits_at-insert :
    (k j : Bytes) (hs : List ℕ) (m : Dict (List ℕ))
    → hits_at j (insert k hs m) ≡ (if equal k j then hs else hits_at j m)
hits_at-insert k j hs m = ground (arith, lookup-insert k j hs m)

hits_at-delete :
    (k j : Bytes) (m : Dict (List ℕ))
    → hits_at j (delete k m) ≡ (if equal k j then [] else hits_at j m)
hits_at-delete k j m = ground (arith, lookup-delete k j m)

hits_at-collect :
    (w now : ℕ) (j : Bytes) (m : Dict (List ℕ))
    → hits_at j (collect w now m) ≡ recent w now (hits_at j m)
unfolding collect lookup
hits_at-collect w now j [] = refl
hits_at-collect w now j ((k, hs) ∷ m) =
    ground (arith, hits_at-collect w now j m, hits_at-delete k j (collect w now m))

-- Garbage collection cannot be seen through the window.
recent-occasional_gc :
    (l : Limiter) (now later : ℕ) (j : Bytes)
    → now ≤ later
    → recent l.window later (hits_at j (occasional_gc l now).hits)
      ≡ recent l.window later (hits_at j l.hits)
unfolding occasional_gc
recent-occasional_gc l now later j h = ground (
  arith,
  hits_at-collect l.window now j l.hits,
  recent-recent l.window now later (hits_at j l.hits),
)

occasional_gc_rest :
    (l : Limiter) (now : ℕ)
    → ((occasional_gc l now).window ≡ l.window) × ((occasional_gc l now).max ≡ l.max)
unfolding occasional_gc
occasional_gc_rest l now = ground arith

-- The specification: all accepted attempts, oldest first.
pub record History : Type 0 where
  pub window : ℕ
  pub max : ℕ
  pub accepted : List (Bytes × ℕ)

abbrev pub times : Bytes → List (Bytes × ℕ) → List ℕ
times key [] = []
times key ((k, t) ∷ rest) = if equal k key then t ∷ times key rest else times key rest

abbrev pub spec_allow : History → Bytes → ℕ → History × Bool
spec_allow s key now =
    if ltb (length (recent s.window now (times key s.accepted))) s.max
    then (record s { accepted = s.accepted ++ ((key, now) ∷ []) }, true)
    else (s, false)

-- From `last` on, the limiter sees the same attempts in the window as the full history.
pub record Agrees (last : ℕ) (l : Limiter) (s : History) : Type 0 where
  pub window_eq : l.window ≡ s.window
  pub max_eq : l.max ≡ s.max
  pub seen :
      (key : Bytes) (now : ℕ)
      → last ≤ now
      → recent l.window now (hits_at key l.hits) ≡ recent l.window now (times key s.accepted)

pub times-append :
    (key k : Bytes) (t : ℕ) (hist : List (Bytes × ℕ))
    → times key (hist ++ ((k, t) ∷ [])) ≡ times key hist ++ (if equal k key then t ∷ [] else [])
times-append key k t [] = ground arith
times-append key k t ((j, u) ∷ hist) = ground (arith, times-append key k t hist)

Agrees-occasional_gc :
    (last now : ℕ) (l : Limiter) (s : History)
    → last ≤ now
    → Agrees last l s
    → Agrees now (occasional_gc l now) s
Agrees-occasional_gc last now l s h a = record {
  window_eq = (occasional_gc_rest l now).0 ∙ a.window_eq;
  max_eq = (occasional_gc_rest l now).1 ∙ a.max_eq;
  seen = λ key later le.
      rw (occasional_gc_rest l now).0
        (recent-occasional_gc l now later key le ∙ a.seen key later (omega arith));
}

-- What the limiter and the history hold of a key after an attempt, seen later.
seen-insert :
    (w now later : ℕ) (key j : Bytes) (extra : List ℕ) (m : Dict (List ℕ)) (hist : List ℕ)
    → now ≤ later
    → recent w later (hits_at j m) ≡ recent w later hist
    → recent w later (hits_at j (insert key (recent w now (hits_at key m) ++ extra) m))
      ≡ recent w later (hist ++ (if equal key j then extra else []))
seen-insert w now later key j extra m hist le h = elim (Bool-cases (equal key j)) [
  | inl same ↦
      rw (hits_at-insert key j (recent w now (hits_at key m) ++ extra) m, same)
        (recent-append w later (recent w now (hits_at key m)) extra
          ∙ ap (λ xs. xs ++ recent w later extra)
              (recent-recent w now later (hits_at key m) le
                ∙ ap (λ k. recent w later (hits_at k m)) ((equal_iff key j).0 same)
                ∙ h)
          ∙ sym (recent-append w later hist extra))
  | inr other ↦
      rw (hits_at-insert key j (recent w now (hits_at key m) ++ extra) m, other) (rw append-nil h)
]

seen-kept :
    (w now later : ℕ) (key j : Bytes) (m : Dict (List ℕ)) (hist : List ℕ)
    → now ≤ later
    → recent w later (hits_at j m) ≡ recent w later hist
    → recent w later (hits_at j (insert key (recent w now (hits_at key m)) m)) ≡ recent w later hist
seen-kept w now later key j m hist le h =
    ap (λ hs. recent w later (hits_at j (insert key hs m)))
      (sym (append-nil (recent w now (hits_at key m))))
    ∙ seen-insert w now later key j [] m hist le h
    ∙ ap (recent w later) (no_extra (equal key j))
  where
    no_extra : (b : Bool) → hist ++ (if b then [] else []) ≡ hist
    no_extra true = append-nil hist
    no_extra false = append-nil hist

Agrees-record_attempt :
    (now : ℕ) (l : Limiter) (s : History) (key : Bytes)
    → Agrees now l s
    → ((record_attempt l key now).1 ≡ (spec_allow s key now).1)
      × Agrees now (record_attempt l key now).0 (spec_allow s key now).0
unfolding record_attempt
Agrees-record_attempt now l s key a =
    let same_count = ap length (a.seen key now (omega arith)) in
    let test : leb l.max (length (recent l.window now (hits_at key l.hits)))
        ≡ not (ltb (length (recent s.window now (times key s.accepted))) s.max) =
      ground (arith, same_count, a.window_eq, a.max_eq) in
    elim (Bool-cases (ltb (length (recent s.window now (times key s.accepted))) s.max)) [
      | inl fits ↦
          rw (test, fits, record_attempt)
            (
              refl,
              record {
                window_eq = a.window_eq;
                max_eq = a.max_eq;
                seen = λ j later le.
                    seen-insert l.window now later key j (now ∷ []) l.hits _ le (a.seen j later le)
                    ∙ ap (recent l.window later) (sym (times-append j key now s.accepted));
              },
            )
      | inr full ↦
          rw (test, full, record_attempt)
            (
              refl,
              record {
                window_eq = a.window_eq;
                max_eq = a.max_eq;
                seen = λ j later le.
                    seen-kept l.window now later key j l.hits _ le (a.seen j later le);
              },
            )
    ]

-- An attempt later than all before it is decided as the full history decides it, and leaves the
-- limiter in agreement with that history.
pub allow-Agrees :
    (last now : ℕ) (l : Limiter) (s : History) (key : Bytes)
    → last ≤ now
    → Agrees last l s
    → ((allow l key now).1 ≡ (spec_allow s key now).1)
      × Agrees now (allow l key now).0 (spec_allow s key now).0
unfolding allow
allow-Agrees last now l s key h a =
    Agrees-record_attempt now (occasional_gc l now) s key (Agrees-occasional_gc last now l s h a)

-- Each call's key and time, in order.
abbrev pub Attempts : Type 0
Attempts = List (Bytes × ℕ)

pub decisions : Limiter → Attempts → List Bool
decisions l [] = []
decisions l ((key, now) ∷ rest) = (allow l key now).1 ∷ decisions (allow l key now).0 rest

pub spec_decisions : History → Attempts → List Bool
spec_decisions s [] = []
spec_decisions s ((key, now) ∷ rest) =
    (spec_allow s key now).1 ∷ spec_decisions (spec_allow s key now).0 rest

-- The clock does not run backwards.
abbrev pub InTime : ℕ → Attempts → Type 0
InTime last [] = Unit {0}
InTime last ((key, now) ∷ rest) = (last ≤ now) × InTime now rest

decisions-Agrees :
    (last : ℕ) (l : Limiter) (s : History) (calls : Attempts)
    → InTime last calls
    → Agrees last l s
    → decisions l calls ≡ spec_decisions s calls
unfolding decisions spec_decisions
decisions-Agrees last l s [] t a = refl
decisions-Agrees last l s ((key, now) ∷ rest) t a =
    let (same, next) = allow-Agrees last now l s key t.0 a in
    rw same (
      ap (◌∷◌ (spec_allow s key now).1)
        (decisions-Agrees now (allow l key now).0 (spec_allow s key now).0 rest t.1 next))

-- From a new limiter, every sequence of calls in time order gets the answers of the limiter that
-- keeps all accepted attempts for good: neither the garbage collection nor the trimming on each
-- call ever changes a decision.
pub allow-refines_history :
    (window max start : ℕ) (calls : Attempts)
    → InTime start calls
    → decisions (new_limiter window max start) calls
      ≡ spec_decisions (record { window = window; max = max; accepted = [] }) calls
unfolding new_limiter lookup
allow-refines_history window max start calls t =
    decisions-Agrees start _ _ calls t
      (record { window_eq = refl; max_eq = refl; seen = λ key now le. refl })
