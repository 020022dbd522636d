-- ===== src/Base/Split.antt =====
-- `strings.Split` and `strings.Join` undo one another.
use Prim.Native.Nat.{ℕ}
use mathlib.Core.Path.{◌≡◌, refl, sym, ap, ◌∙◌}
use mathlib.Core.Logic.{inl, inr}
use mathlib.Core.Bool.{false}
use mathlib.Core.List.{List, [], ◌∷◌, ◌++◌, map, append_assoc}
use native.Mathlib.Omega.{arith}
use roxey.Base.Tests.{◌==◌, Bool-cases}
use roxey.Base.Lists.{All}
use roxey.Base.Text.{Bytes, cons_head, split, join, contains_byte}

-- No line holds the separator.
abbrev pub AreFree : ℕ → List Bytes → Type 0
AreFree sep = All (λ l. contains_byte sep l ≡ false)

cons_head-AreFree :
    (sep c : ℕ) (ls : List Bytes)
    → (c == sep) ≡ false
    → AreFree sep ls
    → AreFree sep (cons_head c ls)
unfolding contains_byte
cons_head-AreFree sep c [] h f = (ground arith, tt)
cons_head-AreFree sep c (l ∷ ls) h f = (ground arith, f.1)

pub split-AreFree : (sep : ℕ) (s : Bytes) → AreFree sep (split sep s)
unfolding split contains_byte
split-AreFree sep [] = (refl, tt)
split-AreFree sep (c ∷ s) = elim (Bool-cases (c == sep)) [
  | inl hit ↦ rw hit (refl, split-AreFree sep s)
  | inr miss ↦ rw miss (cons_head-AreFree sep c (split sep s) miss (split-AreFree sep s))
]

split-line : (sep : ℕ) (l : Bytes) → contains_byte sep l ≡ false → split sep l ≡ l ∷ []
unfolding split contains_byte
split-line sep [] h = refl
split-line sep (c ∷ l) h = ground (arith, split-line sep l)

pub split-append :
    (sep : ℕ) (l s : Bytes)
    → contains_byte sep l ≡ false
    → split sep (l ++ (sep ∷ s)) ≡ l ∷ split sep s
unfolding split contains_byte
split-append sep [] s h = ground arith
split-append sep (c ∷ l) s h = ground (arith, split-append sep l s)

contains_byte-append :
    (b : ℕ) (s t : Bytes)
    → contains_byte b s ≡ false
    → contains_byte b t ≡ false
    → contains_byte b (s ++ t) ≡ false
unfolding contains_byte
contains_byte-append b [] t h k = k
contains_byte-append b (c ∷ s) t h k = ground (arith, contains_byte-append b s t)

-- What splitting a joined text gives, where the join puts `pad` behind each separator.
abbrev pub padded : Bytes → List Bytes → List Bytes
padded pad [] = [] ∷ []
padded pad (l ∷ ls) = l ∷ map (λ k. pad ++ k) ls

split-join_onto :
    (sep : ℕ) (pad front l : Bytes) (ls : List Bytes)
    → contains_byte sep (front ++ l) ≡ false
    → contains_byte sep pad ≡ false
    → AreFree sep ls
    → split sep (front ++ join (sep ∷ pad) (l ∷ ls)) ≡ (front ++ l) ∷ map (λ k. pad ++ k) ls
unfolding join
split-join_onto sep pad front l [] h p f = split-line sep (front ++ l) h
split-join_onto sep pad front l (k ∷ ks) h p f =
    ap (split sep) (sym (append_assoc front l (sep ∷ (pad ++ join (sep ∷ pad) (k ∷ ks)))))
    ∙ split-append sep (front ++ l) (pad ++ join (sep ∷ pad) (k ∷ ks)) h
    ∙ ap (◌∷◌ (front ++ l))
        (split-join_onto sep pad pad k ks (contains_byte-append sep pad k p f.0) p f.1)

-- Splitting a joined list of lines without the separator gives the lines back, the later ones
-- behind the padding.
pub split-join :
    (sep : ℕ) (pad : Bytes) (ls : List Bytes)
    → contains_byte sep pad ≡ false
    → AreFree sep ls
    → split sep (join (sep ∷ pad) ls) ≡ padded pad ls
unfolding join split
split-join sep pad [] p f = refl
split-join sep pad (l ∷ ls) p f = split-join_onto sep pad [] l ls f.0 p f.1
