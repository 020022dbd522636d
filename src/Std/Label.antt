-- ===== src/Std/Label.antt =====
-- The anchored regular expressions `^[a-z0-9]([mid]{0,k}[a-z0-9])?$` and
-- `^[a-z0-9]([mid]*[a-z0-9])?$`, which check labels and host names all over the program.
use mathlib.Core.Bool.{false≢true}
use roxey.Base.{
  ℕ, zero, suc, ◌+◌, ◌≤◌, ◌≡◌, refl, Bool, true, false, ◌&&◌, ◌||◌, [], ◌∷◌, arith, Bytes, leb,
  ◌==◌, length, contains_byte, inl, inr, ◌⊎◌, sym, ◌∙◌, ==_iff, Bool-cases,
}

abbrev pub alnum : ℕ → Bool
alnum c = (leb b'a' c && leb c b'z') || (leb b'0' c && leb c b'9')

-- `[a-z0-9-]` and `[a-z0-9.-]`
abbrev pub dashed : ℕ → Bool
dashed c = alnum c || c == b'-'

abbrev pub dotted : ℕ → Bool
dotted c = alnum c || c == b'.' || c == b'-'

-- `[mid]{0,k}[a-z0-9]` up to the end
unfoldable pub matches_tail : (ℕ → Bool) → ℕ → Bytes → Bool
matches_tail mid k [] = false
matches_tail mid k (c ∷ []) = alnum c
matches_tail mid zero (c ∷ d ∷ s) = false
matches_tail mid (suc k) (c ∷ d ∷ s) = mid c && matches_tail mid k (d ∷ s)

-- `[mid]*[a-z0-9]` up to the end
unfoldable pub matches_star : (ℕ → Bool) → Bytes → Bool
matches_star mid [] = false
matches_star mid (c ∷ []) = alnum c
matches_star mid (c ∷ d ∷ s) = mid c && matches_star mid (d ∷ s)

abbrev is_nil : Bytes → Bool
is_nil [] = true
is_nil (c ∷ s) = false

unfoldable pub label_matches : (ℕ → Bool) → ℕ → Bytes → Bool
unfolding matches_tail
label_matches mid k [] = false
label_matches mid k (c ∷ s) = alnum c && (is_nil s || matches_tail mid k s)

unfoldable pub label_matches_star : (ℕ → Bool) → Bytes → Bool
unfolding matches_star
label_matches_star mid [] = false
label_matches_star mid (c ∷ s) = alnum c && (is_nil s || matches_star mid s)

matches_tail-length :
    (mid : ℕ → Bool) (k : ℕ) (s : Bytes) → matches_tail mid k s ≡ true → length s ≤ k + 1
unfolding matches_tail
matches_tail-length mid k [] h = omega arith
matches_tail-length mid k (c ∷ []) h = omega arith
matches_tail-length mid zero (c ∷ d ∷ s) h = absurd (ground arith)
matches_tail-length mid (suc k) (c ∷ d ∷ s) h = ground (arith, matches_tail-length mid k (d ∷ s))

pub label_matches-length :
    (mid : ℕ → Bool) (k : ℕ) (s : Bytes) → label_matches mid k s ≡ true → length s ≤ k + 2
unfolding label_matches
label_matches-length mid k [] h = omega arith
label_matches-length mid k (c ∷ []) h = omega arith
label_matches-length mid k (c ∷ d ∷ s) h = ground (arith, matches_tail-length mid k (d ∷ s))

-- A byte that is neither a letter, a digit nor one of the middle bytes is nowhere in a label.
module _ (mid : ℕ → Bool) (b : ℕ) (not_alnum : alnum b ≡ false) (not_mid : mid b ≡ false) where
  other_byte : (c : ℕ) → (alnum c ≡ true) ⊎ (mid c ≡ true) → (c == b) ≡ false
  other_byte c h = elim (Bool-cases (c == b)) [
    | inr other ↦ other
    | inl same ↦ absurd (clash (rw ((==_iff c b).0 same) at h))
  ]
    where
      clash : (alnum b ≡ true) ⊎ (mid b ≡ true) → ⊥
      clash (inl p) = false≢true (sym not_alnum ∙ p)
      clash (inr p) = false≢true (sym not_mid ∙ p)

  matches_tail-free : (k : ℕ) (s : Bytes) → matches_tail mid k s ≡ true → contains_byte b s ≡ false
  unfolding matches_tail contains_byte
  matches_tail-free k [] h = refl
  matches_tail-free k (c ∷ []) h = rw (other_byte c (inl h))
  matches_tail-free zero (c ∷ d ∷ s) h = absurd (ground arith)
  matches_tail-free (suc k) (c ∷ d ∷ s) h =
      rw (other_byte c (inr (ground arith))) (matches_tail-free k (d ∷ s) (ground arith))

  matches_star-free : (s : Bytes) → matches_star mid s ≡ true → contains_byte b s ≡ false
  unfolding matches_star contains_byte
  matches_star-free [] h = refl
  matches_star-free (c ∷ []) h = rw (other_byte c (inl h))
  matches_star-free (c ∷ d ∷ s) h =
      rw (other_byte c (inr (ground arith))) (matches_star-free (d ∷ s) (ground arith))

  pub label_matches-free :
      (k : ℕ) (s : Bytes) → label_matches mid k s ≡ true → contains_byte b s ≡ false
  unfolding label_matches contains_byte
  label_matches-free k [] h = refl
  label_matches-free k (c ∷ []) h = rw (other_byte c (inl (ground arith)))
  label_matches-free k (c ∷ d ∷ s) h =
      rw (other_byte c (inl (ground arith))) (matches_tail-free k (d ∷ s) (ground arith))

  pub label_matches_star-free :
      (s : Bytes) → label_matches_star mid s ≡ true → contains_byte b s ≡ false
  unfolding label_matches_star contains_byte
  label_matches_star-free [] h = refl
  label_matches_star-free (c ∷ []) h = rw (other_byte c (inl (ground arith)))
  label_matches_star-free (c ∷ d ∷ s) h =
      rw (other_byte c (inl (ground arith))) (matches_star-free (d ∷ s) (ground arith))
