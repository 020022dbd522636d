-- ===== src/Runner/Quoted.antt =====
-- cli/runner/runner.go: quoted words arrive as they are.
use roxey.Base.{
  ℕ, ◌≡◌, refl, ap, sym, ◌∙◌, true, false, List, [], ◌∷◌, ◌++◌, map, none, some, arith, Bytes,
  contains_byte, join, All, Bool-cases, ◌==◌, ==_iff, inl, inr,
}
use mathlib.Core.List.{append_assoc, append-nil}
use roxey.Runner.{finish, words, is_quote, split_onto, split_command}

-- a word with the quote to put around it, which it does not hold
abbrev pub IsQuotable : ℕ × Bytes → Type 0
IsQuotable (q, w) = (is_quote q ≡ true) × (contains_byte q w ≡ false)

abbrev pub quoted : ℕ × Bytes → Bytes
quoted (q, w) = q ∷ (w ++ (q ∷ []))

abbrev pub word_of : ℕ × Bytes → Bytes
word_of (q, w) = w

same_byte : (q : ℕ) → (q == q) ≡ true
same_byte q = (==_iff q q).1 refl

split_onto-inside :
    (q : ℕ) (out : List Bytes) (cur w s : Bytes)
    → contains_byte q w ≡ false
    → split_onto out cur true (some q) (w ++ (q ∷ s)) ≡ split_onto out (cur ++ w) true none s
unfolding split_onto contains_byte
split_onto-inside q out cur [] s h = rw (same_byte q, append-nil) refl
split_onto-inside q out cur (c ∷ w) s h = elim (Bool-cases (c == q)) [
  | inl e ↦ absurd (ground arith)
  | inr e ↦
      rw (e, split_onto)
        (split_onto-inside q out (cur ++ (c ∷ [])) w s (ground arith)
          ∙ ap (λ t. split_onto out t true none s) (append_assoc cur (c ∷ []) w))
]

split_onto-quoted :
    (q : ℕ) (w : Bytes) (out : List Bytes) (s : Bytes)
    → IsQuotable (q, w)
    → split_onto out [] false none (quoted (q, w) ++ s) ≡ split_onto out w true none s
unfolding split_onto
split_onto-quoted q w out s h =
    rw (h.0, split_onto)
      (ap (split_onto out [] true (some q)) (append_assoc w (q ∷ []) s)
        ∙ split_onto-inside q out [] w s h.1)

finish-append : (out : List Bytes) (w : Bytes) → finish (out ++ (w ∷ [])) ≡ words (out ++ (w ∷ []))
finish-append [] w = refl
finish-append (v ∷ out) w = refl

split_onto-join :
    (out : List Bytes) (p : ℕ × Bytes) (ps : List (ℕ × Bytes))
    → IsQuotable p
    → All IsQuotable ps
    → split_onto out [] false none (join (32 ∷ []) (map quoted (p ∷ ps)))
      ≡ words (out ++ map word_of (p ∷ ps))
unfolding split_onto join
split_onto-join out (q, w) [] h k =
    ap (split_onto out [] false none) (sym (append-nil (quoted (q, w))))
    ∙ split_onto-quoted q w out [] h
    ∙ finish-append out w
split_onto-join out (q, w) (r ∷ ps) h k =
    split_onto-quoted q w out (32 ∷ join (32 ∷ []) (map quoted (r ∷ ps))) h
    ∙ split_onto-join (out ++ (w ∷ [])) r ps k.0 k.1
    ∙ ap words (append_assoc out (w ∷ []) (map word_of (r ∷ ps)))

-- A command line of quoted words, each between quotes of a kind that it does not hold itself, with
-- single spaces between them, is split into just these words: with their spaces, empty words, and
-- quotes of the other kind.
pub split_command-join :
    (p : ℕ × Bytes) (ps : List (ℕ × Bytes))
    → All IsQuotable (p ∷ ps)
    → split_command (join (32 ∷ []) (map quoted (p ∷ ps))) ≡ words (map word_of (p ∷ ps))
unfolding split_command
split_command-join p ps h = split_onto-join [] p ps h.0 h.1
