-- ===== src/Preview/Slug/Label.antt =====
-- cli/preview/preview.go: a slug is a label of a host name.
use roxey.Base.{
  ℕ, zero, suc, ◌+◌, ◌≤◌, ◌<◌, ◌≡◌, refl, ◌∙◌, Bool, true, false, not, ◌&&◌, [], ◌∷◌, ◌++◌, inl,
  inr, arith, Bytes, codes, is_empty, trim_left, trim_right, length, length-append, length-take,
  take, ltb, All, All-map, All-append, Bool-cases,
}
use roxey.Std.Hex.{hex_encode, is_hex, hex_encode-is_hex}
use roxey.Std.Label.{alnum, dashed, label_matches, matches_tail}
use roxey.Preview.Slug.{slug_chars, is_dash, trim_dashes, or_preview, shortened, slugify}

abbrev AreDashed : Bytes → Type 0
AreDashed s = All (λ c. dashed c ≡ true) s

abbrev starts : Bytes → Bool
starts [] = true
starts (c ∷ s) = alnum c

abbrev ends : Bytes → Bool
ends [] = true
ends (c ∷ []) = alnum c
ends (c ∷ d ∷ s) = ends (d ∷ s)

matches_tail-ends :
    (k : ℕ) (c : ℕ) (s : Bytes)
    → AreDashed (c ∷ s)
    → ends (c ∷ s) ≡ true
    → length (c ∷ s) ≤ k + 1
    → matches_tail dashed k (c ∷ s) ≡ true
unfolding matches_tail
matches_tail-ends k c [] a e l = e
matches_tail-ends zero c (d ∷ s) a e l = absurd (omega (arith, l))
matches_tail-ends (suc k) c (d ∷ s) a e l =
    rw (a.0, matches_tail) (matches_tail-ends k d s a.1 e (omega (arith, l)))

label_matches-ends :
    (c : ℕ) (s : Bytes)
    → AreDashed (c ∷ s)
    → starts (c ∷ s) ≡ true
    → ends (c ∷ s) ≡ true
    → length (c ∷ s) ≤ 63
    → label_matches dashed 61 (c ∷ s) ≡ true
unfolding label_matches
label_matches-ends c [] a b e l = rw b refl
label_matches-ends c (d ∷ s) a b e l =
    rw (b, matches_tail-ends 61 d s a.1 e (omega (arith, l))) refl

slug_chars-AreDashed : (last started : Bool) (s : Bytes) → AreDashed (slug_chars last started s)
unfolding slug_chars
slug_chars-AreDashed last started [] = tt
slug_chars-AreDashed last started (c ∷ s) =
    let letter = slug_chars-AreDashed false true s in
    let dash = slug_chars-AreDashed true true s in
    let skipped = slug_chars-AreDashed last started s in
    elim (Bool-cases (alnum c)) [
      | inl a ↦ rw (a, slug_chars) (rw a refl, letter)
      | inr a ↦ elim (Bool-cases (not last && started)) [
        | inl d ↦ rw (a, d, slug_chars) (refl, dash)
        | inr d ↦ rw (a, d, slug_chars) skipped
      ]
    ]

-- Trimmed of dashes, the text starts and ends with a letter or a digit.
trim_left-AreDashed :
    (s : Bytes)
    → AreDashed s
    → AreDashed (trim_left is_dash s) × (starts (trim_left is_dash s) ≡ true)
unfolding trim_left
trim_left-AreDashed [] h = (tt, refl)
trim_left-AreDashed (c ∷ s) h = elim (Bool-cases (is_dash c)) [
  | inl d ↦ rw (d, trim_left) (trim_left-AreDashed s h.1)
  | inr d ↦ rw (d, trim_left) (h, ground (arith, h.0))
]

ends-cons :
    (c : ℕ) (t : Bytes)
    → dashed c ≡ true
    → (is_empty t && is_dash c) ≡ false
    → ends t ≡ true
    → ends (c ∷ t) ≡ true
ends-cons c [] a d e = ground arith
ends-cons c (x ∷ t) a d e = e

trim_right-AreDashed :
    (s : Bytes)
    → AreDashed s
    → AreDashed (trim_right is_dash s) × (ends (trim_right is_dash s) ≡ true)
unfolding trim_right
trim_right-AreDashed [] h = (tt, refl)
trim_right-AreDashed (c ∷ s) h =
    let (kept, last) = trim_right-AreDashed s h.1 in
    elim (Bool-cases (is_empty (trim_right is_dash s) && is_dash c)) [
      | inl d ↦ rw (d, trim_right) (tt, refl)
      | inr d ↦ rw (d, trim_right) ((h.0, kept), ends-cons c (trim_right is_dash s) h.0 d last)
    ]

starts-trim_right : (s : Bytes) → starts s ≡ true → starts (trim_right is_dash s) ≡ true
unfolding trim_right
starts-trim_right [] h = refl
starts-trim_right (c ∷ s) h = elim (Bool-cases (is_empty (trim_right is_dash s) && is_dash c)) [
  | inl d ↦ rw (d, trim_right) refl
  | inr d ↦ rw (d, trim_right) h
]

-- What a label is made of.
record IsBody (s : Bytes) : Type 0 where
  pub dashes : AreDashed s
  pub first : starts s ≡ true
  pub last : ends s ≡ true

trim_dashes-IsBody : (s : Bytes) → AreDashed s → IsBody (trim_dashes s)
trim_dashes-IsBody s h =
    let (kept, first) = trim_left-AreDashed s h in
    let (both, last) = trim_right-AreDashed (trim_left is_dash s) kept in
    record { dashes = both; first = starts-trim_right (trim_left is_dash s) first; last = last }

ends-append : (xs : Bytes) (y : ℕ) (ys : Bytes) → ends (xs ++ (y ∷ ys)) ≡ ends (y ∷ ys)
ends-append [] y ys = refl
ends-append (x ∷ []) y ys = refl
ends-append (x ∷ z ∷ xs) y ys = ends-append (z ∷ xs) y ys

ends-All : (s : Bytes) → All (λ c. alnum c ≡ true) s → ends s ≡ true
ends-All [] h = refl
ends-All (c ∷ []) h = h.0
ends-All (c ∷ d ∷ s) h = ends-All (d ∷ s) h.1

All-take : (P : ℕ → Type 0) (n : ℕ) (s : Bytes) → All P s → All P (take n s)
All-take P zero s h = tt
All-take P (suc n) [] h = tt
All-take P (suc n) (c ∷ s) h = (h.0, All-take P n s h.1)

alnum-is_hex : (c : ℕ) → is_hex c ≡ true → alnum c ≡ true
alnum-is_hex c h = ground arith

dashed-alnum : (c : ℕ) → alnum c ≡ true → dashed c ≡ true
dashed-alnum c h = rw h refl

-- A long text keeps its first 40 bytes and gets six digits of the digest.
long_label :
    (c : ℕ) (s : Bytes) (d : ℕ) (tail : Bytes)
    → IsBody (c ∷ s)
    → All (λ x. alnum x ≡ true) (d ∷ tail)
    → length (d ∷ tail) ≤ 6
    → label_matches dashed 61 (take 40 (c ∷ s) ++ (b'-' ∷ d ∷ tail)) ≡ true
long_label c s d tail body digits short =
    let front = take 39 s in
    label_matches-ends c (front ++ (b'-' ∷ d ∷ tail))
      (
        body.dashes.0,
        All-append _ front (b'-' ∷ d ∷ tail) (All-take _ 39 s body.dashes.1)
            (refl, All-map _ _ dashed-alnum (d ∷ tail) digits),
      )
      body.first (ends-append (c ∷ front) b'-' (d ∷ tail) ∙ ends-All (d ∷ tail) digits)
      (omega (arith, length-append front (b'-' ∷ d ∷ tail), length-take 39 s, short))

shortened-label :
    (c : ℕ) (s : Bytes) (v : ℕ) (sum : Bytes)
    → IsBody (c ∷ s)
    → All (λ x. x < 256) (v ∷ sum)
    → label_matches dashed 61 (shortened (c ∷ s) (v ∷ sum)) ≡ true
unfolding hex_encode
shortened-label c s v sum body bytes = elim (Bool-cases (ltb 40 (length (c ∷ s)))) [
  | inr short ↦ rw short (label_matches-ends c s body.dashes body.first body.last (ground arith))
  | inl long ↦
      let digits =
        All-take _ 6 (hex_encode (v ∷ sum))
          (All-map _ _ alnum-is_hex (hex_encode (v ∷ sum)) (hex_encode-is_hex (v ∷ sum) bytes)) in
      rw long (long_label c s _ _ body digits (omega (arith, length-take 6 (hex_encode (v ∷ sum)))))
]

slug_label :
    (out sum : Bytes)
    → IsBody out
    → All (λ x. x < 256) sum
    → 0 < length sum
    → label_matches dashed 61 (shortened (or_preview out) sum) ≡ true
slug_label out [] body bytes n = absurd (omega (arith, n))
slug_label [] (v ∷ sum) body bytes n =
    shortened-label b'p' (codes "review") v sum
      (record {
        dashes = (refl, (refl, (refl, (refl, (refl, (refl, (refl, tt)))))));
        first = refl;
        last = refl;
      })
      bytes
slug_label (c ∷ s) (v ∷ sum) body bytes n = shortened-label c s v sum body bytes

-- The slug of any branch or text, an empty or a very long one too, and whatever `strings.ToLower`
-- makes of its letters, is a label of a host name: at most 63 letters, digits and dashes, with no dash
-- at either end. A digest is a list of bytes that is not empty.
pub slugify-label :
    (sum256 to_lower : Bytes → Bytes) (s : Bytes)
    → All (λ x. x < 256) (sum256 s)
    → 0 < length (sum256 s)
    → label_matches dashed 61 (slugify sum256 to_lower s) ≡ true
unfolding slugify
slugify-label sum256 to_lower s bytes n =
    let chars = slug_chars false false (to_lower s) in
    slug_label (trim_dashes chars) (sum256 s)
      (trim_dashes-IsBody chars (slug_chars-AreDashed false false (to_lower s))) bytes n
