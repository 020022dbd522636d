-- ===== src/Hosts/Block.antt =====
-- cli/internal/localrelay/hosts.go: the managed block of /etc/hosts takes the place of the last one.
use mathlib.Core.Path.{subst}
use mathlib.Core.List.{append_assoc}
use roxey.Base.{
  ℕ, ◌≡◌, refl, sym, ap, ◌∙◌, Bool, true, false, ◌&&◌, List, [], ◌∷◌, ◌++◌, inl, inr, arith, Bytes,
  equal, is_empty, split, join, has_suffix, has_suffix-eq, trim_right, contains_byte, split-AreFree,
  split-append, split-join, AreFree, All, Bool-cases, ◌==◌, map, ==_iff, equal_refl, ◌⊎◌,
}
use roxey.Hosts.{
  hosts_begin, hosts_end, fresh_entries, host_line, lines_of, render_block, kept_lines, spaced,
  merge_hosts_block, is_newline, newline, render_lines,
}

-- A line that is no mark of the block.
abbrev IsForeign : Bytes → Type 0
IsForeign l = (equal l hosts_begin ≡ false) × (equal l hosts_end ≡ false)

-- Splitting at any separator of the text.
split_nonempty : (s : Bytes) → (l : Bytes) × (ls : List Bytes) × (split b'\n' s ≡ l ∷ ls)
unfolding split
split_nonempty [] = ([], [], refl)
split_nonempty (c ∷ s) = elim (Bool-cases (c == b'\n')) [
  | inl e ↦ ([], split b'\n' s, rw e refl)
  | inr e ↦ let (l, ls, h) = split_nonempty s in (c ∷ l, ls, rw (e, h) refl)
]

split-concat : (a b : Bytes) → split b'\n' (a ++ (b'\n' ∷ b)) ≡ split b'\n' a ++ split b'\n' b
unfolding split
split-concat [] b = refl
split-concat (c ∷ a) b = elim (Bool-cases (c == b'\n')) [
  | inl e ↦ rw (e, split) (ap (◌∷◌ []) (split-concat a b))
  | inr e ↦ let (l, ls, h) = split_nonempty a in rw (e, split) (rw (split-concat a b, h) refl)
]

join-cons_head :
    (c : ℕ) (k : Bytes) (ks : List Bytes) (l : Bytes) (ls : List Bytes)
    → join newline ((c ∷ k) ∷ (ks ++ (l ∷ ls))) ≡ c ∷ join newline (k ∷ (ks ++ (l ∷ ls)))
unfolding join
join-cons_head c k [] l ls = refl
join-cons_head c k (x ∷ ks) l ls = refl

join-split :
    (a l : Bytes) (ls : List Bytes)
    → join newline (split b'\n' a ++ (l ∷ ls)) ≡ a ++ (b'\n' ∷ join newline (l ∷ ls))
unfolding join split
join-split [] l ls = refl
join-split (c ∷ a) l ls =
    let (k, ks, h) = split_nonempty a in
    let rest : join newline (k ∷ (ks ++ (l ∷ ls))) ≡ a ++ (b'\n' ∷ join newline (l ∷ ls)) =
      rw h at (join-split a l ls) in
    elim (Bool-cases (c == b'\n')) [
      | inl e ↦
          let same : b'\n' ≡ c = sym ((==_iff c b'\n').0 e) in
          rw (e, split, h)
            (ap (◌∷◌ b'\n') rest ∙ ap (λ d. d ∷ (a ++ (b'\n' ∷ join newline (l ∷ ls)))) same)
      | inr e ↦ rw (e, split, h) (join-cons_head c k ks l ls ∙ ap (◌∷◌ c) rest)
    ]

kept_lines-append :
    (xs ys : List Bytes)
    → All IsForeign xs
    → kept_lines false (xs ++ ys) ≡ xs ++ kept_lines false ys
unfolding kept_lines
kept_lines-append [] ys h = refl
kept_lines-append (x ∷ xs) ys h =
    rw (h.0.0, h.0.1, kept_lines) (ap (◌∷◌ x) (kept_lines-append xs ys h.1))

kept_line :
    (b : Bool) (ls : List Bytes) (l : Bytes)
    → IsForeign l
    → All IsForeign (kept_lines false ls)
    → All IsForeign (kept_lines true ls)
    → All IsForeign (kept_lines b (l ∷ ls))
unfolding kept_lines
kept_line true ls l f h k = rw (f.0, f.1, kept_lines) k
kept_line false ls l f h k = rw (f.0, f.1, kept_lines) (f, h)

kept_lines-IsForeign : (b : Bool) (ls : List Bytes) → All IsForeign (kept_lines b ls)
unfolding kept_lines
kept_lines-IsForeign b [] = tt
kept_lines-IsForeign b (l ∷ ls) =
    let begun = kept_lines-IsForeign true ls in
    let over = kept_lines-IsForeign false ls in
    elim (Bool-cases (equal l hosts_begin)) [
      | inl x ↦ rw (x, kept_lines) begun
      | inr x ↦ elim (Bool-cases (equal l hosts_end)) [
        | inl y ↦ rw (x, y, kept_lines) over
        | inr y ↦ kept_line b ls l (x, y) over begun
      ]
    ]

kept_lines-AreFree :
    (b : Bool) (ls : List Bytes) → AreFree b'\n' ls → AreFree b'\n' (kept_lines b ls)
unfolding kept_lines
kept_lines-AreFree b [] h = tt
kept_lines-AreFree true (l ∷ ls) h =
    ground (arith, kept_lines-AreFree true ls h.1, kept_lines-AreFree false ls h.1)
kept_lines-AreFree false (l ∷ ls) h =
    ground (arith, kept_lines-AreFree true ls h.1, kept_lines-AreFree false ls h.1)

All-front : (P : Bytes → Type 0) (xs ys : List Bytes) → All P (xs ++ ys) → All P xs
All-front P [] ys h = tt
All-front P (x ∷ xs) ys h = (h.0, All-front P xs ys h.1)

-- What stands before a line break has its lines.
IsForeign-front :
    (a b : Bytes) → All IsForeign (split b'\n' (a ++ (b'\n' ∷ b))) → All IsForeign (split b'\n' a)
IsForeign-front a b h =
    All-front IsForeign (split b'\n' a) (split b'\n' b) (rw (split-concat a b) at h)

-- `TrimRight` takes off line breaks only.
trim_right_cases :
    (s : Bytes)
    → (trim_right is_newline s ≡ s) ⊎ ((w : Bytes) × (s ≡ trim_right is_newline s ++ (b'\n' ∷ w)))
unfolding trim_right
trim_right_cases [] = inl refl
trim_right_cases (c ∷ s) = elim (Bool-cases (is_empty (trim_right is_newline s) && is_newline c)) [
  | inl dropped ↦
      let is_break : (c == b'\n') ≡ true = ground arith in
      inr (s, rw (dropped, trim_right) (ap (λ d. d ∷ s) ((==_iff c b'\n').0 is_break)))
  | inr kept ↦ elim (trim_right_cases s) [
    | inl whole ↦ inl (rw (kept, trim_right) (ap (◌∷◌ c) whole))
    | inr (w, e) ↦ inr (w, rw (kept, trim_right) (ap (◌∷◌ c) e))
  ]
]

abbrev gap : Bytes
gap = b'\n' ∷ b'\n' ∷ []

-- What goes before the block is empty, or lines that are no marks with a gap behind them.
abbrev IsFront : Bytes → Type 0
IsFront x = (x ≡ []) ⊎ ((z : Bytes) × (x ≡ z ++ gap) × All IsForeign (split b'\n' z))

spaced-IsFront : (s : Bytes) → All IsForeign (split b'\n' s) → IsFront (spaced s)
spaced-IsFront [] h = inl refl
spaced-IsFront (c ∷ s) h = elim (Bool-cases (has_suffix (c ∷ s) gap)) [
  | inl ends ↦
      let (r, e) = has_suffix-eq (c ∷ s) gap ends in
      inr (r, rw ends e, IsForeign-front r (b'\n' ∷ []) (rw e at h))
  | inr open_end ↦ inr (
    trim_right is_newline (c ∷ s),
    rw open_end refl,
    elim (trim_right_cases (c ∷ s)) [
      | inl whole ↦ rw whole h
      | inr (w, e) ↦ IsForeign-front (trim_right is_newline (c ∷ s)) w (rw e at h)
    ],
  )
]

has_suffix-append : (z x : Bytes) → has_suffix (z ++ x) x ≡ true
unfolding has_suffix
has_suffix-append [] [] = ground arith
has_suffix-append [] (c ∷ x) = rw (equal_refl (c ∷ x), has_suffix) refl
has_suffix-append (d ∷ z) x = ground (arith, has_suffix-append z x)

spaced-gap : (z : Bytes) → spaced (z ++ gap) ≡ z ++ gap
spaced-gap z = rw (has_suffix-append z gap) (ground arith)

-- The lines of a block are dropped, up to the empty one behind its last line break.
kept_lines-entries :
    (es : List Bytes)
    → All (λ e. contains_byte b'\n' e ≡ false) es
    → kept_lines true (split b'\n' (lines_of es ++ (hosts_end ++ newline))) ≡ [] ∷ []
unfolding kept_lines lines_of split equal contains_byte
kept_lines-entries [] h = refl
kept_lines-entries (e ∷ es) h =
    let tail = hosts_end ++ newline in
    let text : lines_of (e ∷ es) ++ tail ≡ host_line e ++ (b'\n' ∷ (lines_of es ++ tail)) =
      append_assoc (host_line e) (b'\n' ∷ lines_of es) tail in
    ap (λ t. kept_lines true (split b'\n' t)) text
    ∙ ap (kept_lines true) (split-append b'\n' (host_line e) (lines_of es ++ tail) h.0)
    ∙ kept_lines-entries es h.1

kept_lines-render_lines :
    (es : List Bytes)
    → AreFree b'\n' es
    → kept_lines false (split b'\n' (render_lines es)) ≡ [] ∷ []
unfolding kept_lines split equal contains_byte
kept_lines-render_lines [] h = refl
kept_lines-render_lines (e ∷ es) h =
    ap (kept_lines false)
      (split-append b'\n' hosts_begin (lines_of (e ∷ es) ++ (hosts_end ++ newline)) refl)
    ∙ kept_lines-entries (e ∷ es) h

fresh_entries-AreFree :
    (seen es : List Bytes) → AreFree b'\n' es → AreFree b'\n' (fresh_entries seen es)
unfolding fresh_entries
fresh_entries-AreFree seen [] h = tt
fresh_entries-AreFree seen (e ∷ es) h =
    ground (arith, fresh_entries-AreFree seen es h.1, fresh_entries-AreFree (e ∷ seen) es h.1)

-- Once the lines of the block are gone, what is in front of it is as it was.
spaced-again :
    (x block : Bytes)
    → IsFront x
    → kept_lines false (split b'\n' block) ≡ [] ∷ []
    → spaced (join newline (kept_lines false (split b'\n' (x ++ block)))) ≡ x
unfolding join split kept_lines equal
spaced-again x block (inl e) k = rw (e, k) refl
spaced-again x block (inr (z, e, h)) k =
    let text : x ++ block ≡ z ++ (b'\n' ∷ b'\n' ∷ block) =
      ap (λ y. y ++ block) e ∙ append_assoc z gap block in
    let lines : kept_lines false (split b'\n' (x ++ block)) ≡ split b'\n' z ++ ([] ∷ [] ∷ []) =
      ap (λ t. kept_lines false (split b'\n' t)) text
      ∙ ap (kept_lines false) (split-concat z (b'\n' ∷ block))
      ∙ kept_lines-append (split b'\n' z) ([] ∷ split b'\n' block) h
      ∙ ap (λ ls. split b'\n' z ++ ([] ∷ ls)) k in
    ap (λ ls. spaced (join newline ls)) lines
    ∙ ap spaced (join-split z [] ([] ∷ []))
    ∙ spaced-gap z
    ∙ sym e

All-padded : (ls : List Bytes) → All IsForeign ls → All IsForeign (map (λ l. [] ++ l) ls)
All-padded [] h = tt
All-padded (l ∷ ls) h = (h.0, All-padded ls h.1)

join-IsForeign :
    (ls : List Bytes)
    → All IsForeign ls
    → AreFree b'\n' ls
    → All IsForeign (split b'\n' (join newline ls))
unfolding join split equal contains_byte
join-IsForeign [] h f = ((refl, refl), tt)
join-IsForeign (l ∷ ls) h f =
    subst (All IsForeign) (sym (split-join b'\n' [] (l ∷ ls) refl f)) (h.0, All-padded ls h.1)

-- The block takes the place of the one that is there: to merge one block after another of names
-- without line breaks is to merge the last one. So a repeated sync changes nothing, the file does
-- not grow, and to merge no block gives the file without one.
pub merge_hosts_block-again :
    (existing block : Bytes) (entries : List Bytes)
    → AreFree b'\n' entries
    → merge_hosts_block (merge_hosts_block existing (render_block entries)) block
      ≡ merge_hosts_block existing block
unfolding merge_hosts_block render_block
merge_hosts_block-again existing block entries h =
    let kept = kept_lines false (split b'\n' existing) in
    let front = spaced-IsFront (join newline kept) (
      join-IsForeign kept (kept_lines-IsForeign false (split b'\n' existing))
        (kept_lines-AreFree false (split b'\n' existing) (split-AreFree b'\n' existing))) in
    ap (λ x. x ++ block)
      (spaced-again (spaced (join newline kept)) (render_block entries) front
        (kept_lines-render_lines (fresh_entries [] entries) (fresh_entries-AreFree [] entries h)))
