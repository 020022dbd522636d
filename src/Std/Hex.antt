-- ===== src/Std/Hex.antt =====
-- `hex.EncodeToString`
use roxey.Base.{
  ℕ, ◌+◌, ◌*◌, ◌/◌, ◌%◌, ◌<◌, ◌≡◌, Bool, true, ◌&&◌, ◌||◌, [], ◌∷◌, arith, Bytes, ltb, leb,
  if◌then◌else◌, All, length,
}

unfoldable pub hex_digit : ℕ → ℕ
hex_digit n = if ltb n 10 then n + b'0' else n + 87

unfoldable pub hex_encode : Bytes → Bytes
unfolding hex_digit
hex_encode [] = []
hex_encode (v ∷ s) = hex_digit (v / 16) ∷ hex_digit (v % 16) ∷ hex_encode s

abbrev pub is_hex : ℕ → Bool
is_hex c = (leb b'0' c && leb c b'9') || (leb b'a' c && leb c b'f')

hex_digit-is_hex : (n : ℕ) → n < 16 → is_hex (hex_digit n) ≡ true
unfolding hex_digit
hex_digit-is_hex n h = ground arith

pub hex_encode-is_hex :
    (s : Bytes) → All (λ c. c < 256) s → All (λ c. is_hex c ≡ true) (hex_encode s)
unfolding hex_encode
hex_encode-is_hex [] h = tt
hex_encode-is_hex (v ∷ s) h = (
  hex_digit-is_hex (v / 16) (omega arith),
  (hex_digit-is_hex (v % 16) (omega arith), hex_encode-is_hex s h.1),
)

pub length-hex_encode : (s : Bytes) → length (hex_encode s) ≡ length s * 2
unfolding hex_encode
length-hex_encode [] = omega arith
length-hex_encode (v ∷ s) = omega (arith, length-hex_encode s)
