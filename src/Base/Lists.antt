-- ===== src/Base/Lists.antt =====
-- Lists measured by native numbers, and predicates and filters by Boolean tests.
use Prim.Native.Nat.{ℕ, zero, suc, ◌+◌, ◌≤◌, min}
use mathlib.Core.Path.{◌≡◌, refl, sym, ap, subst, ◌∙◌}
use mathlib.Core.Logic.{◌⊎◌, inl, inr}
use mathlib.Core.Bool.{Bool, true, false, ◌&&◌, ◌||◌}
use mathlib.Core.Option.{Option, none, some}
use mathlib.Core.List.{List, [], ◌∷◌, ◌++◌, append-nil, append_assoc}
use native.Mathlib.Omega.{arith}
use roxey.Base.Tests.{if◌then◌else◌}

module _ {ℓ} {A : Type ℓ} where
  abbrev pub length : List A → ℕ
  length [] = 0
  length (x ∷ xs) = suc (length xs)

  abbrev pub take : ℕ → List A → List A
  take zero xs = []
  take (suc n) [] = []
  take (suc n) (x ∷ xs) = x ∷ take n xs

  abbrev pub drop : ℕ → List A → List A
  drop zero xs = xs
  drop (suc n) [] = []
  drop (suc n) (x ∷ xs) = drop n xs

  abbrev pub get_elem? : List A → ℕ → Option A
  get_elem? [] i = none
  get_elem? (x ∷ xs) zero = some x
  get_elem? (x ∷ xs) (suc i) = get_elem? xs i

  -- The list without the element at this place.
  abbrev pub remove_at : List A → ℕ → List A
  remove_at [] i = []
  remove_at (x ∷ xs) zero = xs
  remove_at (x ∷ xs) (suc i) = x ∷ remove_at xs i

  -- The elements that pass a Boolean test, in order.
  abbrev pub select : (A → Bool) → List A → List A
  select p [] = []
  select p (x ∷ xs) = if p x then x ∷ select p xs else select p xs

  abbrev pub all : (A → Bool) → List A → Bool
  all p [] = true
  all p (x ∷ xs) = p x && all p xs

  abbrev pub any : (A → Bool) → List A → Bool
  any p [] = false
  any p (x ∷ xs) = p x || any p xs

  -- Removing an element that does not pass the test leaves one that does.
  pub any-remove_at :
      (p : A → Bool) (xs : List A) (i : ℕ) (x : A)
      → get_elem? xs i ≡ some x
      → p x ≡ false
      → any p (remove_at xs i) ≡ any p xs
  any-remove_at p [] i x g h = cc
  any-remove_at p (y ∷ ys) zero x g h = ground arith
  any-remove_at p (y ∷ ys) (suc i) x g h = ground (arith, any-remove_at p ys i x g h)

  pub length-append : (xs ys : List A) → length (xs ++ ys) ≡ length xs + length ys
  length-append [] ys = omega arith
  length-append (x ∷ xs) ys = omega (arith, length-append xs ys)

  pub length-take : (n : ℕ) (xs : List A) → length (take n xs) ≡ min n (length xs)
  length-take zero xs = omega arith
  length-take (suc n) [] = omega arith
  length-take (suc n) (x ∷ xs) = omega (arith, length-take n xs)

  pub length-select : (p : A → Bool) (xs : List A) → length (select p xs) ≤ length xs
  length-select p [] = omega arith
  length-select p (x ∷ xs) = ground (arith, length-select p xs)

-- A predicate at every element, by recursion.
abbrev pub All {ℓ κ} : {A : Type ℓ} → (A → Type κ) → List A → Type κ
All P [] = Unit
All P (x ∷ xs) = P x × All P xs

pub All-map {ℓ κ μ} :
    {A : Type ℓ} (P : A → Type κ) (Q : A → Type μ)
    → ((a : A) → P a → Q a)
    → (xs : List A) → All P xs
    → All Q xs
All-map P Q f [] h = tt
All-map P Q f (x ∷ xs) h = (f x h.0, All-map P Q f xs h.1)

pub All-append {ℓ κ} :
    {A : Type ℓ} (P : A → Type κ) (xs ys : List A) → All P xs → All P ys → All P (xs ++ ys)
All-append P [] ys h k = k
All-append P (x ∷ xs) ys h k = (h.0, All-append P xs ys h.1 k)

-- Membership in a list of plain data, by recursion.
abbrev pub Member : {A : Type 0} → A → List A → Type 0
Member a [] = ⊥
Member a (x ∷ xs) = (x ≡ a) ⊎ Member a xs

pub All-Member : {A : Type 0} (P : A → Type 0) {a : A} (xs : List A) → All P xs → Member a xs → P a
All-Member P [] h m = absurd m
All-Member P (x ∷ xs) h (inl e) = subst P e h.0
All-Member P (x ∷ xs) h (inr m) = All-Member P xs h.1 m

pub All-select {ℓ κ} :
    {A : Type ℓ} (P : A → Type κ) (keep : A → Bool) (xs : List A)
    → All P xs
    → All P (select keep xs)
All-select P keep [] h = tt
All-select P keep (x ∷ xs) h = ground (arith, All-select P keep xs h.1)

-- What passes a test passes it.
pub All-kept {ℓ} :
    {A : Type ℓ} (keep : A → Bool) (xs : List A) → All (λ x. keep x ≡ true) (select keep xs)
All-kept keep [] = tt
All-kept keep (x ∷ xs) = ground (arith, All-kept keep xs)

All-middle {ℓ κ} :
    {A : Type ℓ} (P : A → Type κ) (xs : List A) (x : A) (ys : List A) → All P (xs ++ (x ∷ ys)) → P x
All-middle P [] x ys h = h.0
All-middle P (y ∷ xs) x ys h = All-middle P xs x ys h.1

-- `sort.Slice` by a strict order, as the insertion sort that it runs on short slices.
module _ {ℓ} {A : Type ℓ} (less : A → A → Bool) where
  unfoldable pub insert_by : A → List A → List A
  insert_by x [] = x ∷ []
  insert_by x (y ∷ ys) = let rest = insert_by x ys in if less x y then x ∷ y ∷ ys else y ∷ rest

  unfoldable pub sort_onto : List A → List A → List A
  sort_onto sorted [] = sorted
  sort_onto sorted (x ∷ xs) = sort_onto (insert_by x sorted) xs

  abbrev pub sort_by : List A → List A
  sort_by = sort_onto []

  -- Sorting keeps a property of all elements, and the number of elements.
  pub All-insert_by {κ} :
      (P : A → Type κ) (x : A) (ys : List A) → P x → All P ys → All P (insert_by x ys)
  unfolding insert_by
  All-insert_by P x [] p h = (p, tt)
  All-insert_by P x (y ∷ ys) p h = ground (arith, All-insert_by P x ys p h.1)

  pub length-insert_by : (x : A) (ys : List A) → length (insert_by x ys) ≡ length ys + 1
  unfolding insert_by
  length-insert_by x [] = omega arith
  length-insert_by x (y ∷ ys) = ground (arith, length-insert_by x ys)

  pub length-sort_onto : (ys xs : List A) → length (sort_onto ys xs) ≡ length ys + length xs
  unfolding sort_onto
  length-sort_onto ys [] = omega arith
  length-sort_onto ys (x ∷ xs) =
      omega (arith, length-sort_onto (insert_by x ys) xs, length-insert_by x ys)

  -- Sorting a list that is in order already, with one element behind it, inserts that element.
  abbrev pub InOrder : List A → Type 0
  InOrder [] = Unit {0}
  InOrder (x ∷ xs) = All (λ y. less y x ≡ false) xs × InOrder xs

  insert_by-last :
      (xs : List A) (x : A) → All (λ y. less x y ≡ false) xs → insert_by x xs ≡ xs ++ (x ∷ [])
  unfolding insert_by
  insert_by-last [] x h = refl
  insert_by-last (y ∷ ys) x h = rw h.0 (ap (◌∷◌ y) (insert_by-last ys x h.1))

  InOrder-last :
      (xs : List A) (x : A) (ys : List A)
      → InOrder (xs ++ (x ∷ ys))
      → All (λ y. less x y ≡ false) xs
  InOrder-last [] x ys h = tt
  InOrder-last (y ∷ xs) x ys h =
      (All-middle (λ z. less z y ≡ false) xs x ys h.0, InOrder-last xs x ys h.1)

  pub sort_onto-InOrder :
      (acc xs : List A) (z : A)
      → InOrder (acc ++ xs)
      → sort_onto acc (xs ++ (z ∷ [])) ≡ insert_by z (acc ++ xs)
  unfolding sort_onto
  sort_onto-InOrder acc [] z h = rw append-nil
  sort_onto-InOrder acc (x ∷ xs) z h =
      let e : acc ++ (x ∷ []) ++ xs ≡ acc ++ (x ∷ xs) = append_assoc acc (x ∷ []) xs in
      rw (insert_by-last acc x (InOrder-last acc x xs h), sort_onto)
        (sort_onto-InOrder (acc ++ (x ∷ [])) xs z (subst InOrder (sym e) h) ∙ ap (insert_by z) e)
