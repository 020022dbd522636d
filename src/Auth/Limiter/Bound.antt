-- ===== src/Auth/Limiter/Bound.antt =====
-- backend/internal/auth/limiter.go: how many attempts `Allow` lets through.
use roxey.Base.{
  ℕ, ◌≤◌, ◌≡◌, refl, ap, Bool, true, false, [], ◌∷◌, ◌++◌, inl, inr, Bytes, lookup, equal,
  equal_iff, length, length-append, length-select, ltb→lt, ltb, if◌then◌else◌, arith, ◌⊎◌,
  Bool-cases,
}
use mathlib.Core.List.{append-nil, append_assoc}
use roxey.Auth.Limiter.{Limiter, new_limiter, is_recent, recent, allow}
use roxey.Auth.Limiter.Window.{
  Attempts, allow-Agrees, Agrees, recent-recent, times-append, recent-append, spec_allow, times,
  History,
}

-- In the full history no window ever holds more accepted attempts of one key than the limit.
abbrev pub IsBounded : History → ℕ → Type 0
IsBounded s now = (key : Bytes) → length (recent s.window now (times key s.accepted)) ≤ s.max

spec_allow-IsBounded :
    (s : History) (key : Bytes) (now : ℕ) → IsBounded s now → IsBounded (spec_allow s key now).0 now
spec_allow-IsBounded s key now b j =
    elim (Bool-cases (ltb (length (recent s.window now (times key s.accepted))) s.max)) [
      | inl fits ↦ rw fits (
          rw (times-append j key now s.accepted) (
            rw
              (recent-append s.window now (times j s.accepted)
                (if equal key j then now ∷ [] else []))
              (one_more (Bool-cases (equal key j)) fits)))
      | inr full ↦ rw full (b j)
    ]
  where
    length_extra : (b : Bool) → length (if b then now ∷ [] else []) ≤ 1
    length_extra true = omega arith
    length_extra false = omega arith

    one_more :
        (equal key j ≡ true) ⊎ (equal key j ≡ false)
        → ltb (length (recent s.window now (times key s.accepted))) s.max ≡ true
        → length (
            recent s.window now (times j s.accepted)
            ++ recent s.window now (if equal key j then now ∷ [] else []))
          ≤ s.max
    one_more (inl same) fits = omega (
      arith,
      length-append {0} (recent s.window now (times j s.accepted))
          (recent s.window now (if equal key j then now ∷ [] else [])),
      length-select {0} (is_recent s.window now) (if equal key j then now ∷ [] else []),
      length_extra (equal key j),
      ltb→lt _ _ fits,
      ap (λ k. length (recent s.window now (times k s.accepted))) ((equal_iff key j).0 same),
    )
    one_more (inr other) fits = rw other (rw append-nil (b j))

IsBounded-later : (s : History) (last now : ℕ) → last ≤ now → IsBounded s last → IsBounded s now
IsBounded-later s last now h b key = omega (
  arith,
  b key,
  ap length (recent-recent s.window last now (times key s.accepted) h),
  length-select {0} (is_recent s.window now) (recent s.window last (times key s.accepted)),
)

-- The calls that the limiter lets through.
pub accepted_by : Limiter → Attempts → Attempts
accepted_by l [] = []
accepted_by l ((key, now) ∷ rest) =
    let later = accepted_by (allow l key now).0 rest in
    if (allow l key now).1 then (key, now) ∷ later else later

-- The clock does not run backwards, and reads `now` at the end.
abbrev pub EndsBy : ℕ → ℕ → Attempts → Type 0
EndsBy last now [] = last ≤ now
EndsBy last now ((key, t) ∷ rest) = (last ≤ t) × EndsBy t now rest

accepted-spec_allow :
    (s : History) (key : Bytes) (now : ℕ) (later : Attempts)
    → (spec_allow s key now).0.accepted ++ later
      ≡ s.accepted ++ (if (spec_allow s key now).1 then (key, now) ∷ later else later)
accepted-spec_allow s key now later =
    elim (Bool-cases (ltb (length (recent s.window now (times key s.accepted))) s.max)) [
      | inl fits ↦ rw fits (append_assoc s.accepted ((key, now) ∷ []) later)
      | inr full ↦ rw full refl
    ]

spec_allow_rest :
    (s : History) (key : Bytes) (now : ℕ)
    → ((spec_allow s key now).0.window ≡ s.window) × ((spec_allow s key now).0.max ≡ s.max)
spec_allow_rest s key now = ground arith

accepted_by-IsBounded :
    (last now : ℕ) (l : Limiter) (s : History) (calls : Attempts) (key : Bytes)
    → EndsBy last now calls
    → Agrees last l s
    → IsBounded s last
    → length (recent s.window now (times key (s.accepted ++ accepted_by l calls))) ≤ s.max
unfolding accepted_by
accepted_by-IsBounded last now l s [] key t a b = rw append-nil (IsBounded-later s last now t b key)
accepted_by-IsBounded last now l s ((k, at) ∷ rest) key t a b =
    let (same, next) = allow-Agrees last at l s k t.0 a in
    let s' = (spec_allow s k at).0 in
    let later = accepted_by (allow l k at).0 rest in
    let bound : length (recent s'.window now (times key (s'.accepted ++ later))) ≤ s'.max =
      accepted_by-IsBounded at now (allow l k at).0 s' rest key t.1 next
        (spec_allow-IsBounded s k at (IsBounded-later s last at t.0 b)) in
    rw same (
      omega (
        arith,
        bound,
        (spec_allow_rest s k at).1,
        ap (λ w. length (recent w now (times key (s'.accepted ++ later))))
            (spec_allow_rest s k at).0,
        ap (λ xs. length (recent s.window now (times key xs))) (accepted-spec_allow s k at later),
      ))

-- From a new limiter and for calls in time order, no window of the given length that
-- ends at the last call or later holds more accepted attempts of one key than the limit.
pub allow_bounded :
    (window max start now : ℕ) (calls : Attempts) (key : Bytes)
    → EndsBy start now calls
    → length (recent window now (times key (accepted_by (new_limiter window max start) calls)))
      ≤ max
unfolding new_limiter lookup
allow_bounded window max start now calls key t =
    accepted_by-IsBounded start now _ (record { window = window; max = max; accepted = [] }) calls
      key t (record { window_eq = refl; max_eq = refl; seen = λ k later le. refl })
      (λ k. omega arith)
