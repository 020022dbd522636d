-- ===== src/Std/Decimal.antt =====
-- `strconv.FormatInt`, `strconv.Itoa` and `strconv.ParseInt` in base 10 at 64 bits.
use roxey.Base.{
  ℕ, zero, suc, ◌+◌, ◌-◌, ◌*◌, ◌/◌, ◌%◌, ◌<◌, ◌≤◌, ◌≡◌, sym, ap, ◌∙◌, Bool, true, ◌&&◌, [], ◌∷◌,
  Option, none, some, arith, inl, inr, Bytes, ltb, leb, ◌==◌, if◌then◌else◌, All, Bool-cases,
}

-- A Go `int`: `negsuc n` is -(n + 1).
pub data ℤ : Type 0 where
  pos : ℕ → ℤ
  negsuc : ℕ → ℤ

-- 2 ^ 63
abbrev pub int64_limit : ℕ
int64_limit = 9_223_372_036_854_775_808

abbrev pub is_digit : ℕ → Bool
is_digit c = leb b'0' c && leb c b'9'

-- The digits of `n` in front of `rest`; `n` itself bounds the rounds.
format_onto : ℕ → ℕ → Bytes → Bytes
format_onto zero n rest = rest
format_onto (suc f) n rest =
    let more = format_onto f (n / 10) ((n % 10 + b'0') ∷ rest) in
    if ltb n 10 then (n + b'0') ∷ rest else more

unfoldable pub format_nat : ℕ → Bytes
unfolding format_onto
format_nat n = format_onto (suc n) n []

unfoldable pub parse_digits : ℕ → Bytes → Option ℕ
parse_digits acc [] = some acc
parse_digits acc (c ∷ s) =
    let rest = parse_digits (acc * 10 + (c - b'0')) s in if is_digit c then rest else none

abbrev parse_unsigned : Bytes → Option ℕ
parse_unsigned [] = none
parse_unsigned (c ∷ s) = parse_digits 0 (c ∷ s)

abbrev positive : Option ℕ → Option ℤ
positive none = none
positive (some n) = if ltb n int64_limit then some (pos n) else none

abbrev negative : Option ℕ → Option ℤ
negative none = none
negative (some n) =
    if n == 0 then some (pos 0) else if leb n int64_limit then some (negsuc (n - 1)) else none

-- `strconv.ParseInt(s, 10, 64)`; `none` is an error.
unfoldable pub parse_int : Bytes → Option ℤ
unfolding parse_digits
parse_int [] = none
parse_int (c ∷ s) =
    if c == b'-'
    then negative (parse_unsigned s)
    else if c == b'+'
    then positive (parse_unsigned s)
    else positive (parse_digits 0 (c ∷ s))

parse_digits-format_onto :
    (f n : ℕ) (rest : Bytes) → n < f → parse_digits 0 (format_onto f n rest) ≡ parse_digits n rest
unfolding parse_digits format_onto
parse_digits-format_onto zero n rest h = absurd (omega arith)
parse_digits-format_onto (suc f) n rest h = elim (Bool-cases (ltb n 10)) [
  | inl small ↦
      rw small (let e : 0 * 10 + (n + b'0' - b'0') ≡ n = omega arith in rw e (ground arith))
  | inr large ↦ rw large (
      parse_digits-format_onto f (n / 10) ((n % 10 + b'0') ∷ rest) (ground arith)
      ∙ (let e : n / 10 * 10 + (n % 10 + b'0' - b'0') ≡ n = omega arith in rw e (ground arith)))
]

-- The first byte of a printed number is a digit.
format_onto-head :
    (f n : ℕ) (rest : Bytes)
    → n < f
    → (c : ℕ) × (s : Bytes) × (format_onto f n rest ≡ c ∷ s) × (b'0' ≤ c)
unfolding format_onto
format_onto-head zero n rest h = absurd (omega arith)
format_onto-head (suc f) n rest h = elim (Bool-cases (ltb n 10)) [
  | inl small ↦ (n + b'0', rest, rw small, omega arith)
  | inr large ↦
      let (c, s, e, d) = format_onto-head f (n / 10) ((n % 10 + b'0') ∷ rest) (ground arith) in
      (c, s, rw large e, d)
]

-- Parsing a printed number gives it back, below 2 ^ 63.
pub parse_int-format_nat : (n : ℕ) → n < int64_limit → parse_int (format_nat n) ≡ some (pos n)
unfolding parse_int format_nat
parse_int-format_nat n h =
    let (c, s, e, d) = format_onto-head (suc n) n [] (omega arith) in
    let parsed = parse_digits-format_onto (suc n) n [] (omega arith) in
    rw e (ground (arith, rw e at parsed))

-- A printed number holds digits only.
format_onto-digits :
    (f n : ℕ) (rest : Bytes)
    → All (λ c. is_digit c ≡ true) rest
    → All (λ c. is_digit c ≡ true) (format_onto f n rest)
unfolding format_onto
format_onto-digits zero n rest h = h
format_onto-digits (suc f) n rest h = elim (Bool-cases (ltb n 10)) [
  | inl small ↦ rw small (ground arith, h)
  | inr large ↦ rw large (format_onto-digits f (n / 10) _ (ground arith, h))
]

pub format_nat-digits : (n : ℕ) → All (λ c. is_digit c ≡ true) (format_nat n)
unfolding format_nat
format_nat-digits n = format_onto-digits (suc n) n [] tt

-- Different numbers are printed differently.
pub format_nat-injective : (m n : ℕ) → format_nat m ≡ format_nat n → m ≡ n
unfolding format_nat parse_digits
format_nat-injective m n e =
    let one : parse_digits 0 (format_nat m) ≡ some m =
      parse_digits-format_onto (suc m) m [] (omega arith) in
    let other : parse_digits 0 (format_nat n) ≡ some n =
      parse_digits-format_onto (suc n) n [] (omega arith) in
    let same : some m ≡ some n = sym one ∙ ap (parse_digits 0) e ∙ other in cc
