-- ===== src/Std/Space.antt =====
-- Go's `strings.TrimSpace`: the white space of Unicode, in UTF-8, at both ends of a text.
use roxey.Base.{
  ℕ, ◌≡◌, refl, sym, ◌∙◌, ap, Bool, true, false, ◌&&◌, ◌||◌, [], ◌∷◌, ◌++◌, inl, inr, arith, Bytes,
  is_empty, leb, ◌==◌, if◌then◌else◌, Bool-cases, contains_byte,
}

-- ASCII white space
abbrev pub is_space : ℕ → Bool
is_space c = c == b' ' || (leb 9 c && leb c 13)

-- U+0085 and U+00A0
abbrev is_space2 : ℕ → ℕ → Bool
is_space2 c d = c == 194 && (d == 133 || d == 160)

-- U+1680, U+2000 to U+200A, U+2028, U+2029, U+202F, U+205F and U+3000
abbrev is_space3 : ℕ → ℕ → ℕ → Bool
is_space3 c d e =
    (c == 225 && d == 154 && e == 128)
    || (c == 226 && d == 128 && ((leb 128 e && leb e 138) || e == 168 || e == 169 || e == 175))
    || (c == 226 && d == 129 && e == 159)
    || (c == 227 && d == 128 && e == 128)

-- the text behind the white space at its start
unfoldable pub skip : Bytes → Bytes
skip [] = []
skip (c ∷ []) = if is_space c then [] else c ∷ []
skip (c ∷ d ∷ []) =
    let one = skip (d ∷ []) in if is_space c then one else if is_space2 c d then [] else c ∷ d ∷ []
skip (c ∷ d ∷ e ∷ s) =
    let one = skip (d ∷ e ∷ s) in
    let two = skip (e ∷ s) in
    let three = skip s in
    if is_space c
    then one
    else if is_space2 c d
    then two
    else if is_space3 c d e
    then three
    else c ∷ d ∷ e ∷ s

-- the text before the white space at its end
unfoldable pub trim_end : Bytes → Bytes
unfolding skip
trim_end [] = []
trim_end (c ∷ s) = let rest = trim_end s in if is_empty (skip (c ∷ s)) then [] else c ∷ rest

unfoldable pub trim_space : Bytes → Bytes
unfolding skip trim_end
trim_space s = trim_end (skip s)

-- Whether a text starts with white space.
starts : Bytes → Bool
starts [] = false
starts (c ∷ []) = is_space c
starts (c ∷ d ∷ []) = is_space c || is_space2 c d
starts (c ∷ d ∷ e ∷ s) = is_space c || is_space2 c d || is_space3 c d e

starts-skip : (s : Bytes) → starts (skip s) ≡ false
unfolding skip starts
starts-skip [] = refl
starts-skip (c ∷ []) = ground arith
starts-skip (c ∷ d ∷ []) = ground (arith, starts-skip (d ∷ []))
starts-skip (c ∷ d ∷ e ∷ s) =
    ground (arith, starts-skip (d ∷ e ∷ s), starts-skip (e ∷ s), starts-skip s)

skip-starts : (s : Bytes) → starts s ≡ false → skip s ≡ s
unfolding skip starts
skip-starts [] h = refl
skip-starts (c ∷ []) h = ground arith
skip-starts (c ∷ d ∷ []) h = ground arith
skip-starts (c ∷ d ∷ e ∷ s) h = ground arith

starts-append : (p t : Bytes) → starts (p ++ t) ≡ false → starts p ≡ false
unfolding starts
starts-append [] t h = refl
starts-append (c ∷ []) [] h = h
starts-append (c ∷ []) (d ∷ []) h = ground arith
starts-append (c ∷ []) (d ∷ e ∷ t) h = ground arith
starts-append (c ∷ d ∷ []) [] h = h
starts-append (c ∷ d ∷ []) (e ∷ t) h = ground arith
starts-append (c ∷ d ∷ e ∷ p) t h = h

skip_space : (c : ℕ) (s : Bytes) → is_space c ≡ true → skip (c ∷ s) ≡ skip s
unfolding skip
skip_space c [] h = rw h refl
skip_space c (d ∷ []) h = rw h refl
skip_space c (d ∷ e ∷ s) h = rw h refl

skip_space2 :
    (c d : ℕ) (s : Bytes) → is_space c ≡ false → is_space2 c d ≡ true → skip (c ∷ d ∷ s) ≡ skip s
unfolding skip
skip_space2 c d [] h k = rw (h, k) refl
skip_space2 c d (e ∷ s) h k = rw (h, k) refl

skip_space3 :
    (c d e : ℕ) (s : Bytes)
    → is_space c ≡ false
    → is_space2 c d ≡ false
    → is_space3 c d e ≡ true
    → skip (c ∷ d ∷ e ∷ s) ≡ skip s
unfolding skip
skip_space3 c d e s h k l = rw (h, k, l) refl

-- A text of white space only.
abbrev IsBlank : Bytes → Type 0
IsBlank s = is_empty (skip s) ≡ true

append-IsBlank : (a b : Bytes) → IsBlank a → IsBlank b → IsBlank (a ++ b)
unfolding skip
append-IsBlank [] b h k = k
append-IsBlank (c ∷ []) b h k = elim (Bool-cases (is_space c)) [
  | inl w ↦ ap is_empty (skip_space c b w) ∙ k
  | inr w ↦ let bad : false ≡ true = rw w at h in cc
]
append-IsBlank (c ∷ d ∷ []) b h k = elim (Bool-cases (is_space c)) [
  | inl w ↦
      ap is_empty (skip_space c (d ∷ b) w)
      ∙ append-IsBlank (d ∷ []) b (sym (ap is_empty (skip_space c (d ∷ []) w)) ∙ h) k
  | inr w ↦ elim (Bool-cases (is_space2 c d)) [
    | inl v ↦ ap is_empty (skip_space2 c d b w v) ∙ k
    | inr v ↦ let bad : false ≡ true = rw (w, v) at h in cc
  ]
]
append-IsBlank (c ∷ d ∷ e ∷ a) b h k = elim (Bool-cases (is_space c)) [
  | inl w ↦
      ap is_empty (skip_space c (d ∷ e ∷ (a ++ b)) w)
      ∙ append-IsBlank (d ∷ e ∷ a) b (sym (ap is_empty (skip_space c (d ∷ e ∷ a) w)) ∙ h) k
  | inr w ↦ elim (Bool-cases (is_space2 c d)) [
    | inl v ↦
        ap is_empty (skip_space2 c d (e ∷ (a ++ b)) w v)
        ∙ append-IsBlank (e ∷ a) b (sym (ap is_empty (skip_space2 c d (e ∷ a) w v)) ∙ h) k
    | inr v ↦ elim (Bool-cases (is_space3 c d e)) [
      | inl u ↦
          ap is_empty (skip_space3 c d e (a ++ b) w v u)
          ∙ append-IsBlank a b (sym (ap is_empty (skip_space3 c d e a w v u)) ∙ h) k
      | inr u ↦ let bad : false ≡ true = rw (w, v, u) at h in cc
    ]
  ]
]

-- What the trimming at the end takes off is blank.
trim_end-append : (s : Bytes) → (t : Bytes) × (s ≡ trim_end s ++ t) × IsBlank t
unfolding trim_end
trim_end-append [] = ([], refl, refl)
trim_end-append (c ∷ s) = elim (Bool-cases (is_empty (skip (c ∷ s)))) [
  | inl blank ↦ rw (blank, trim_end) (c ∷ s, refl, blank)
  | inr text ↦ let (t, e, b) = trim_end-append s in rw (text, trim_end) (t, ap (◌∷◌ c) e, b)
]

trim_end_idem : (s : Bytes) → trim_end (trim_end s) ≡ trim_end s
unfolding trim_end
trim_end_idem [] = refl
trim_end_idem (c ∷ s) = elim (Bool-cases (is_empty (skip (c ∷ s)))) [
  | inl blank ↦ rw (blank, trim_end) refl
  | inr text ↦
      let (t, e, b) = trim_end-append s in
      elim (Bool-cases (is_empty (skip (c ∷ trim_end s)))) [
        | inl all_blank ↦
            let whole : is_empty (skip (c ∷ s)) ≡ true =
              ap (λ r. is_empty (skip (c ∷ r))) e ∙ append-IsBlank (c ∷ trim_end s) t all_blank b in
            let bad : false ≡ true = sym text ∙ whole in cc
        | inr kept ↦ rw (text, kept, trim_end) (ap (◌∷◌ c) (trim_end_idem s))
      ]
]

starts-trim_end : (s : Bytes) → starts s ≡ false → starts (trim_end s) ≡ false
starts-trim_end s h =
    let (t, e, b) = trim_end-append s in starts-append (trim_end s) t (sym (ap starts e) ∙ h)

pub trim_space_idem : (s : Bytes) → trim_space (trim_space s) ≡ trim_space s
unfolding trim_space
trim_space_idem s =
    ap trim_end (skip-starts (trim_end (skip s)) (starts-trim_end (skip s) (starts-skip s)))
    ∙ trim_end_idem (skip s)

pub trim_space_blank : (s : Bytes) → trim_space (b' ' ∷ s) ≡ trim_space s
unfolding trim_space
trim_space_blank s = ap trim_end (skip_space b' ' s refl)

contains_byte-skip :
    (b : ℕ) (s : Bytes) → contains_byte b s ≡ false → contains_byte b (skip s) ≡ false
unfolding skip contains_byte
contains_byte-skip b [] h = refl
contains_byte-skip b (c ∷ []) h = ground arith
contains_byte-skip b (c ∷ d ∷ []) h = ground (arith, contains_byte-skip b (d ∷ []))
contains_byte-skip b (c ∷ d ∷ e ∷ s) h =
    ground (
      arith,
      contains_byte-skip b (d ∷ e ∷ s),
      contains_byte-skip b (e ∷ s),
      contains_byte-skip b s,
    )

contains_byte-trim_end :
    (b : ℕ) (s : Bytes) → contains_byte b s ≡ false → contains_byte b (trim_end s) ≡ false
unfolding trim_end contains_byte
contains_byte-trim_end b [] h = refl
contains_byte-trim_end b (c ∷ s) h = elim (Bool-cases (is_empty (skip (c ∷ s)))) [
  | inl blank ↦ rw (blank, trim_end) refl
  | inr text ↦ rw (text, trim_end) (ground (arith, contains_byte-trim_end b s))
]

pub contains_byte-trim_space :
    (b : ℕ) (s : Bytes) → contains_byte b s ≡ false → contains_byte b (trim_space s) ≡ false
unfolding trim_space
contains_byte-trim_space b s h = contains_byte-trim_end b (skip s) (contains_byte-skip b s h)
