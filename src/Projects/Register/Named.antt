-- ===== src/Projects/Register/Named.antt =====
-- cli/internal/projects/projects.go: the search for a name comes to an end.
use roxey.Base.{
  ℕ, zero, suc, ◌+◌, ◌≤◌, ◌<◌, ◌≡◌, refl, sym, ap, true, false, [], ◌∷◌, ◌++◌, Option, none, some,
  inl, inr, arith, Bytes, Dict, lookup, insert, delete, lookup-delete, length, length-append, equal,
  equal_iff, is_some, Bool-cases, Option-cases,
}
use mathlib.Core.Path.{subst}
use roxey.Std.Decimal.{format_nat, format_nat-injective}
use roxey.Std.Path.{clean, base_of}
use roxey.Projects.{Project}
use roxey.Projects.Register.{
  candidate, is_free, free_name, name_of, put, Registration, new_project, register_project,
}

append_cancel : (a x y : Bytes) → a ++ x ≡ a ++ y → x ≡ y
append_cancel [] x y e = e
append_cancel (c ∷ a) x y e = append_cancel a x y (let tails : a ++ x ≡ a ++ y = cc in tails)

no_longer : (a s : Bytes) (c : ℕ) → a ≡ a ++ (c ∷ s) → ⊥
no_longer a s c e = absurd (omega (arith, ap length e, length-append a (c ∷ s)))

candidate-injective : (base : Bytes) (m n : ℕ) → candidate base m ≡ candidate base n → m ≡ n
unfolding candidate
candidate-injective base zero zero e = refl
candidate-injective base zero (suc n) e = absurd (no_longer base _ _ e)
candidate-injective base (suc m) zero e = absurd (no_longer base _ _ (sym e))
candidate-injective base (suc m) (suc n) e =
    let after = append_cancel base _ _ e in
    let printed : format_nat (m + 2) ≡ format_nat (n + 2) = cc in
    let same = format_nat-injective (m + 2) (n + 2) printed in omega (arith, same)

-- From the one number on, so many candidates are names of projects.
abbrev AreTaken : Bytes → Dict Project → ℕ → ℕ → Type 0
AreTaken base registry n zero = Unit {0}
AreTaken base registry n (suc k) =
    (is_some (lookup (candidate base n) registry) ≡ true) × AreTaken base registry (suc n) k

length-delete : (k : Bytes) (m : Dict Project) → length (delete k m) ≤ length m
unfolding delete
length-delete k [] = omega arith
length-delete k ((j, p) ∷ m) = ground (arith, length-delete k m)

length-delete_present :
    (k : Bytes) (m : Dict Project)
    → is_some (lookup k m) ≡ true
    → length (delete k m) + 1 ≤ length m
unfolding delete lookup
length-delete_present k [] h = absurd (ground arith)
length-delete_present k ((j, p) ∷ m) h = elim (Bool-cases (equal j k)) [
  | inl same ↦ rw (same, delete) (omega (arith, length-delete k m))
  | inr other ↦
      rw (other, delete) (omega (arith, length-delete_present k m (rw (other, lookup) at h)))
]

candidate-apart :
    (base : Bytes) (m n : ℕ) → m < n → equal (candidate base m) (candidate base n) ≡ false
candidate-apart base m n l = elim (Bool-cases (equal (candidate base m) (candidate base n))) [
  | inr other ↦ other
  | inl same ↦
      let e =
        candidate-injective base m n ((equal_iff (candidate base m) (candidate base n)).0 same) in
      absurd (omega (arith, e, l))
]

AreTaken-delete :
    (base : Bytes) (registry : Dict Project) (m n k : ℕ)
    → m < n
    → AreTaken base registry n k
    → AreTaken base (delete (candidate base m) registry) n k
AreTaken-delete base registry m n zero l h = tt
AreTaken-delete base registry m n (suc k) l h =
    let apart : equal (candidate base m) (candidate base n) ≡ false = candidate-apart base m n l in
    (
      rw (lookup-delete (candidate base m) (candidate base n) registry, apart) h.0,
      AreTaken-delete base registry m (suc n) k (omega (arith, l)) h.1,
    )

-- There are no more taken candidates than projects.
AreTaken-length :
    (base : Bytes) (registry : Dict Project) (n k : ℕ)
    → AreTaken base registry n k
    → k ≤ length registry
AreTaken-length base registry n zero h = omega arith
AreTaken-length base registry n (suc k) h =
    let fewer = length-delete_present (candidate base n) registry h.0 in
    let rest =
      AreTaken-length base (delete (candidate base n) registry) (suc n) k
        (AreTaken-delete base registry n (suc n) k (omega arith) h.1) in
    omega (arith, fewer, rest)

not_free_some : (dir : Bytes) (o : Option Project) → is_free dir o ≡ false → is_some o ≡ true
not_free_some dir none h = absurd (ground arith)
not_free_some dir (some p) h = refl

free_name-AreTaken :
    (base dir : Bytes) (registry : Dict Project) (fuel n : ℕ)
    → free_name base dir registry fuel n ≡ none
    → AreTaken base registry n fuel
unfolding free_name
free_name-AreTaken base dir registry zero n h = tt
free_name-AreTaken base dir registry (suc fuel) n h =
    elim (Bool-cases (is_free dir (lookup (candidate base n) registry))) [
      | inl free ↦ let bad : some (candidate base n) ≡ none = rw free at h in cc
      | inr taken ↦ (
        not_free_some dir (lookup (candidate base n) registry) taken,
        free_name-AreTaken base dir registry fuel (suc n) (rw taken at h),
      )
    ]

free_name-is_free :
    (base dir : Bytes) (registry : Dict Project) (fuel n : ℕ) {name : Bytes}
    → free_name base dir registry fuel n ≡ some name
    → is_free dir (lookup name registry) ≡ true
unfolding free_name
free_name-is_free base dir registry zero n {name} h = cc
free_name-is_free base dir registry (suc fuel) n {name} h =
    elim (Bool-cases (is_free dir (lookup (candidate base n) registry))) [
      | inl free ↦
          let same : some (candidate base n) ≡ some name = rw free at h in
          let e : candidate base n ≡ name = cc in
          subst (λ k. is_free dir (lookup k registry) ≡ true) e free
      | inr taken ↦ free_name-is_free base dir registry fuel (suc n) (rw taken at h)
    ]

-- The search always finds a name, whatever projects there are.
name_of-some :
    (registry : Dict Project) (r : Registration) → (name : Bytes) × (name_of registry r ≡ some name)
name_of-some registry r = elim (Option-cases (name_of registry r)) [
  | inr found ↦ found
  | inl none_free ↦
      let base = base_of (clean r.dir_path) in
      let taken =
        free_name-AreTaken base (clean r.dir_path) registry (suc (length registry)) 0 none_free in
      absurd (omega (arith, AreTaken-length base registry 0 (suc (length registry)) taken))
]

-- `Register` ends for every registry and every directory: one round of its loop for each project and
-- one more are enough. The name that it ends with had no project, or one in the same directory, so a
-- project of another directory is never replaced.
pub register_project-is_free :
    (registry : Dict Project) (r : Registration)
    → (name : Bytes) × (register_project registry r
        ≡ some (insert name (new_project r name) registry, name))
      × (is_free (clean r.dir_path) (lookup name registry) ≡ true)
unfolding register_project
register_project-is_free registry r =
    let (name, found) = name_of-some registry r in
    (
      name,
      ap (put registry r) found,
      free_name-is_free (base_of (clean r.dir_path)) (clean r.dir_path) registry
          (suc (length registry)) 0 found,
    )
