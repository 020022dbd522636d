-- ===== src/Std/Base64.antt =====
-- `base64.RawURLEncoding`: six-bit digits of the URL alphabet, no padding. Decoding skips line
-- breaks and ignores the spare bits of the last digit, as Go's does.
use mathlib.Core.Path.{ap₂}
use roxey.Base.{
  ℕ, ◌+◌, ◌-◌, ◌*◌, ◌/◌, ◌%◌, ◌<◌, ◌≡◌, refl, ap, Bool, true, false, not, ◌&&◌, ◌||◌, [], ◌∷◌,
  Option, none, some, arith, Bytes, ltb, leb, ◌==◌, if◌then◌else◌, select, All, contains_byte,
}

digit : ℕ → ℕ
digit n =
    if ltb n 26
    then n + 65
    else if ltb n 52
    then n + 71
    else if ltb n 62
    then n - 4
    else if n == 62
    then b'-'
    else b'_'

value : ℕ → Option ℕ
value c =
    if leb b'A' c && leb c b'Z'
    then some (c - 65)
    else if leb b'a' c && leb c b'z'
    then some (c - 71)
    else if leb b'0' c && leb c b'9'
    then some (c + 4)
    else if c == b'-'
    then some 62
    else if c == b'_'
    then some 63
    else none

unfoldable pub encode : Bytes → Bytes
unfolding digit
encode [] = []
encode (a ∷ []) = digit (a / 4) ∷ digit (a % 4 * 16) ∷ []
encode (a ∷ b ∷ []) = digit (a / 4) ∷ digit (a % 4 * 16 + b / 16) ∷ digit (b % 16 * 4) ∷ []
encode (a ∷ b ∷ c ∷ s) =
    digit (a / 4)
    ∷ digit (a % 4 * 16 + b / 16)
    ∷ digit (b % 16 * 4 + c / 64)
    ∷ digit (c % 64)
    ∷ encode s

abbrev two : Option ℕ → Option ℕ → Option Bytes
two (some w) (some x) = some ((w * 4 + x / 16) ∷ [])
two _ _ = none

abbrev three : Option ℕ → Option ℕ → Option ℕ → Option Bytes
three (some w) (some x) (some y) = some ((w * 4 + x / 16) ∷ (x % 16 * 16 + y / 4) ∷ [])
three _ _ _ = none

abbrev four : Option ℕ → Option ℕ → Option ℕ → Option ℕ → Option Bytes → Option Bytes
four (some w) (some x) (some y) (some z) (some s) =
    some ((w * 4 + x / 16) ∷ (x % 16 * 16 + y / 4) ∷ (y % 4 * 64 + z) ∷ s)
four _ _ _ _ _ = none

decode_digits : Bytes → Option Bytes
unfolding value
decode_digits [] = some []
decode_digits (w ∷ []) = none
decode_digits (w ∷ x ∷ []) = two (value w) (value x)
decode_digits (w ∷ x ∷ y ∷ []) = three (value w) (value x) (value y)
decode_digits (w ∷ x ∷ y ∷ z ∷ s) = four (value w) (value x) (value y) (value z) (decode_digits s)

abbrev is_text : ℕ → Bool
is_text c = not (c == b'\n' || c == b'\r')

unfoldable pub decode : Bytes → Option Bytes
unfolding decode_digits
decode s = decode_digits (select is_text s)

value-digit : (n : ℕ) → n < 64 → value (digit n) ≡ some n
unfolding value digit
value-digit n h = ground arith

digit_plain : (n : ℕ) → (is_text (digit n) ≡ true) × ((digit n == b'.') ≡ false)
unfolding digit
digit_plain n = ground arith

-- A byte is below 256.
abbrev pub AreBytes : Bytes → Type 0
AreBytes = All (λ c. c < 256)

select-encode : (s : Bytes) → select is_text (encode s) ≡ encode s
unfolding encode
select-encode [] = refl
select-encode (a ∷ []) = rw ((digit_plain (a / 4)).0, (digit_plain (a % 4 * 16)).0)
select-encode (a ∷ b ∷ []) =
    rw
      ((digit_plain (a / 4)).0, (digit_plain (a % 4 * 16 + b / 16)).0, (digit_plain (b % 16 * 4)).0)
select-encode (a ∷ b ∷ c ∷ s) = rw (
  (digit_plain (a / 4)).0,
  (digit_plain (a % 4 * 16 + b / 16)).0,
  (digit_plain (b % 16 * 4 + c / 64)).0,
  (digit_plain (c % 64)).0,
  select-encode s,
)

byte_parts :
    (w x y z a b c : ℕ)
    → a < 256
    → b < 256
    → c < 256
    → w ≡ a / 4
    → x ≡ a % 4 * 16 + b / 16
    → y ≡ b % 16 * 4 + c / 64
    → z ≡ c % 64
    → (w * 4 + x / 16 ≡ a) × (x % 16 * 16 + y / 4 ≡ b) × (y % 4 * 64 + z ≡ c)
byte_parts w x y z a b c ha hb hc hw hx hy hz = omega arith

decode_digits-encode : (s : Bytes) → AreBytes s → decode_digits (encode s) ≡ some s
unfolding decode_digits encode
decode_digits-encode [] h = refl
decode_digits-encode (a ∷ []) h =
    rw (value-digit (a / 4) (omega arith), value-digit (a % 4 * 16) (omega arith))
      (ap (λ k. some (k ∷ [])) (omega arith))
decode_digits-encode (a ∷ b ∷ []) h =
    rw
      (
        value-digit (a / 4) (omega arith),
        value-digit (a % 4 * 16 + b / 16) (omega arith),
        value-digit (b % 16 * 4) (omega arith),
      )
      (ap₂ (λ k l. some (k ∷ l ∷ [])) (omega arith) (omega arith))
decode_digits-encode (a ∷ b ∷ c ∷ s) h =
    let p = byte_parts _ _ _ _ a b c h.0 h.1.0 h.1.1.0 refl refl refl refl in
    rw
      (
        value-digit (a / 4) (omega arith),
        value-digit (a % 4 * 16 + b / 16) (omega arith),
        value-digit (b % 16 * 4 + c / 64) (omega arith),
        value-digit (c % 64) (omega arith),
        decode_digits-encode s h.1.1.1,
      )
      (cc (p.0, p.1, p.2))

-- Decoding gives back what was encoded.
pub decode-encode : (s : Bytes) → AreBytes s → decode (encode s) ≡ some s
unfolding decode
decode-encode s h = rw (select-encode s) (decode_digits-encode s h)

-- An encoded text holds no full stop.
pub encode_no_dot : (s : Bytes) → contains_byte b'.' (encode s) ≡ false
unfolding encode contains_byte
encode_no_dot [] = refl
encode_no_dot (a ∷ []) = ground (arith, digit_plain (a / 4), digit_plain (a % 4 * 16))
encode_no_dot (a ∷ b ∷ []) =
    ground (arith, digit_plain (a / 4), digit_plain (a % 4 * 16 + b / 16), digit_plain (b % 16 * 4))
encode_no_dot (a ∷ b ∷ c ∷ s) =
    rw
      (
        (digit_plain (a / 4)).1,
        (digit_plain (a % 4 * 16 + b / 16)).1,
        (digit_plain (b % 16 * 4 + c / 64)).1,
        (digit_plain (c % 64)).1,
      )
      (encode_no_dot s)
