-- ===== src/Base/Maps.antt =====
-- Go maps keyed by strings, as association lists.
use mathlib.Core.Path.{◌≡◌, refl, subst, ap}
use mathlib.Core.List.{List, [], ◌∷◌}
use mathlib.Core.Option.{Option, none, some}
use mathlib.Core.Bool.{Bool, true}
use mathlib.Core.Logic.{inl, inr}
use native.Mathlib.Omega.{arith}
use roxey.Base.Tests.{if◌then◌else◌, Bool-cases}
use roxey.Base.Lists.{All, select}
use roxey.Base.Text.{Bytes, equal, equal_iff, equal_refl}

abbrev pub Dict {ℓ} : Type ℓ → Type ℓ
Dict V = List (Bytes × V)

module _ {ℓ} {V : Type ℓ} where
  -- `m[k]`, with whether the key is there
  unfoldable pub lookup : Bytes → Dict V → Option V
  unfolding equal
  lookup k [] = none
  lookup k ((j, v) ∷ m) = if equal j k then some v else lookup k m

  -- `m[k] = v`
  unfoldable pub insert : Bytes → V → Dict V → Dict V
  unfolding equal
  insert k v [] = (k, v) ∷ []
  insert k v ((j, w) ∷ m) = if equal j k then (k, v) ∷ m else (j, w) ∷ insert k v m

  -- `delete(m, k)`
  unfoldable pub delete : Bytes → Dict V → Dict V
  unfolding equal
  delete k [] = []
  delete k ((j, w) ∷ m) = let rest = delete k m in if equal j k then rest else (j, w) ∷ rest

  pub lookup-insert :
      (k j : Bytes) (v : V) (m : Dict V)
      → lookup j (insert k v m) ≡ (if equal k j then some v else lookup j m)
  unfolding lookup insert
  lookup-insert k j v [] = refl
  lookup-insert k j v ((i, w) ∷ m) =
      ground (arith, equal_iff k j, equal_iff i k, equal_iff i j, lookup-insert k j v m)

  pub lookup-delete :
      (k j : Bytes) (m : Dict V) → lookup j (delete k m) ≡ (if equal k j then none else lookup j m)
  unfolding lookup delete
  lookup-delete k j [] = ground arith
  lookup-delete k j ((i, w) ∷ m) =
      ground (arith, equal_iff k j, equal_iff i k, equal_iff i j, lookup-delete k j m)

  -- A predicate on the entries survives writes of values that meet it, and deletions.
  pub All-insert {κ} :
      (P : Bytes × V → Type κ) (k : Bytes) (v : V) (m : Dict V)
      → P (k, v)
      → All P m
      → All P (insert k v m)
  unfolding insert
  All-insert P k v [] p h = (p, tt)
  All-insert P k v ((j, w) ∷ m) p h = ground (arith, All-insert P k v m p h.1)

  pub All-delete {κ} :
      (P : Bytes × V → Type κ) (k : Bytes) (m : Dict V) → All P m → All P (delete k m)
  unfolding delete
  All-delete P k [] h = tt
  All-delete P k ((j, w) ∷ m) h = ground (arith, All-delete P k m h.1)

  pub All-lookup {κ} :
      (P : Bytes × V → Type κ) (k : Bytes) (m : Dict V) {v : V}
      → All P m
      → lookup k m ≡ some v
      → P (k, v)
  unfolding lookup
  All-lookup P k [] h e = cc
  All-lookup P k ((j, w) ∷ m) {v} h e = elim (Bool-cases (equal j k)) [
    | inl same ↦ subst P (cc ((equal_iff j k).0 same, rw (same, lookup) at e)) h.0
    | inr other ↦ All-lookup P k m h.1 (ground arith)
  ]

  -- Writing an entry back undoes a write, and deleting it undoes its insertion.
  pub insert-insert :
      (k : Bytes) (v w : V) (m : Dict V) → lookup k m ≡ some v → insert k v (insert k w m) ≡ m
  unfolding lookup insert
  insert-insert k v w [] h = cc
  insert-insert k v w ((j, u) ∷ m) h = elim (Bool-cases (equal j k)) [
    | inl same ↦
        rw (same, insert)
          (rw (equal_refl k, insert)
            (let e : some u ≡ some v = rw (same, lookup) at h in cc ((equal_iff j k).0 same, e)))
    | inr other ↦
        rw (other, insert)
          (rw (other, insert) (ap (◌∷◌ (j, u)) (insert-insert k v w m (rw (other, lookup) at h))))
  ]

  pub delete-insert :
      (k : Bytes) (w : V) (m : Dict V) → lookup k m ≡ none → delete k (insert k w m) ≡ m
  unfolding lookup insert delete
  delete-insert k w [] h = rw (equal_refl k)
  delete-insert k w ((j, u) ∷ m) h = elim (Bool-cases (equal j k)) [
    | inl same ↦ absurd (ground arith)
    | inr other ↦
        rw (other, insert)
          (rw (other, delete) (ap (◌∷◌ (j, u)) (delete-insert k w m (rw (other, lookup) at h))))
  ]

  -- An entry that passes the test is found among those that do.
  pub lookup-select :
      (p : Bytes × V → Bool) (k : Bytes) (v : V) (m : Dict V)
      → lookup k m ≡ some v
      → p (k, v) ≡ true
      → lookup k (select p m) ≡ some v
  unfolding lookup
  lookup-select p k v [] g h = g
  lookup-select p k v ((j, w) ∷ m) g h = elim (Bool-cases (equal j k)) [
    | inl same ↦
        let here : some w ≡ some v = rw (same, lookup) at g in
        let first : p (j, w) ≡ true = rw ((equal_iff j k).0 same, (let x : w ≡ v = cc in x)) h in
        rw first (rw (same, lookup) here)
    | inr other ↦
        let later = lookup-select p k v m (rw (other, lookup) at g) h in
        elim (Bool-cases (p (j, w))) [
          | inl t ↦ rw t (rw (other, lookup) later)
          | inr f ↦ rw f later
        ]
  ]
