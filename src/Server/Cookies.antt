-- ===== src/Server/Cookies.antt =====
-- backend/main.go: the `Cookie` header, as `net/http` reads it and as `stripGateCookies` filters it.
use roxey.Base.{
  ℕ, ◌≡◌, refl, sym, ◌∙◌, ap, Bool, true, false, not, ◌&&◌, ◌||◌, List, [], ◌∷◌, ◌++◌, map, Option,
  none, some, arith, Bytes, equal, is_empty, cut, split, join, contains_byte, select, leb, ltb,
  ◌==◌, if◌then◌else◌, AreFree, split-AreFree, split-join, padded, All, All-select, trim_left,
  trim_right, all,
}
use roxey.Std.Space.{trim_space, trim_space_idem, trim_space_blank, contains_byte-trim_space}
use roxey.Auth.Sessions.{is_gate_cookie_name}

-- `textproto.TrimString`, by which `net/http` reads cookies
abbrev is_cookie_space : ℕ → Bool
is_cookie_space c = c == b' ' || c == 9 || c == 10 || c == 13

unfoldable pub trim : Bytes → Bytes
trim s = trim_right is_cookie_space (trim_left is_cookie_space s)

-- whether a trimmed part is a `name=value` with the name of a gate cookie
unfoldable pub is_gate_part : Bytes → Bool
is_gate_part part = let (name, _, ok) = cut b'=' part in ok && is_gate_cookie_name (trim_space name)

-- the inner loop, over one header line
abbrev pub keeps : Bytes → Bool
keeps part = not (is_gate_part part) && not (is_empty part)

abbrev pub kept_of : Bytes → List Bytes
kept_of line = select keeps (map trim_space (split b';' line))

abbrev add_line : List Bytes → List Bytes → List Bytes
add_line [] lines = lines
add_line (part ∷ parts) lines = join (b';' ∷ b' ' ∷ []) (part ∷ parts) ∷ lines

-- `stripGateCookies`, from the values of the header to its new values
unfoldable pub strip_gate_cookies : List Bytes → List Bytes
strip_gate_cookies [] = []
strip_gate_cookies (line ∷ lines) = add_line (kept_of line) (strip_gate_cookies lines)

-- The parts of all lines, trimmed by `strings.TrimSpace`, without the empty ones.
abbrev pub is_part : Bytes → Bool
is_part part = not (is_empty part)

pub parts_of : List Bytes → List Bytes
parts_of [] = []
parts_of (line ∷ lines) = select is_part (map trim_space (split b';' line)) ++ parts_of lines

AreFree-trim : (ls : List Bytes) → AreFree b';' ls → AreFree b';' (map trim_space ls)
AreFree-trim [] f = tt
AreFree-trim (l ∷ ls) f = (contains_byte-trim_space b';' l f.0, AreFree-trim ls f.1)

-- A part that trimming leaves as it is.
abbrev IsTrimmed : Bytes → Type 0
IsTrimmed part = trim_space part ≡ part

map-trim-IsTrimmed : (ls : List Bytes) → All IsTrimmed (map trim_space ls)
map-trim-IsTrimmed [] = tt
map-trim-IsTrimmed (l ∷ ls) = (trim_space_idem l, map-trim-IsTrimmed ls)

map-trim_spaced :
    (ls : List Bytes) → All IsTrimmed ls → map trim_space (map (λ k. (b' ' ∷ []) ++ k) ls) ≡ ls
map-trim_spaced [] t = refl
map-trim_spaced (k ∷ ks) t = rw (trim_space_blank k, t.0) (ap (◌∷◌ k) (map-trim_spaced ks t.1))

map-trim-padded :
    (l : Bytes) (ls : List Bytes)
    → All IsTrimmed (l ∷ ls)
    → map trim_space (padded (b' ' ∷ []) (l ∷ ls)) ≡ l ∷ ls
map-trim-padded l ls t = rw t.0 (ap (◌∷◌ l) (map-trim_spaced ls t.1))

select-All :
    (test : Bytes → Bool) (ls : List Bytes) → All (λ l. test l ≡ true) ls → select test ls ≡ ls
select-All test [] h = refl
select-All test (l ∷ ls) h = ground (arith, select-All test ls h.1)

All-keeps : (ls : List Bytes) → All (λ l. is_part l ≡ true) (select keeps ls)
All-keeps [] = tt
All-keeps (l ∷ ls) = ground (arith, All-keeps ls)

-- Reading a line that was joined from clean parts gives the parts.
parts-join :
    (l : Bytes) (ls : List Bytes)
    → AreFree b';' (l ∷ ls)
    → All IsTrimmed (l ∷ ls)
    → All (λ k. is_part k ≡ true) (l ∷ ls)
    → select is_part (map trim_space (split b';' (join (b';' ∷ b' ' ∷ []) (l ∷ ls)))) ≡ l ∷ ls
unfolding contains_byte
parts-join l ls f t k =
    ap (λ parts. select is_part (map trim_space parts))
      (split-join b';' (b' ' ∷ []) (l ∷ ls) refl f)
    ∙ ap (select is_part) (map-trim-padded l ls t)
    ∙ select-All is_part (l ∷ ls) k

parts-add_line :
    (ls : List Bytes) (lines : List Bytes)
    → AreFree b';' ls
    → All IsTrimmed ls
    → All (λ k. is_part k ≡ true) ls
    → parts_of (add_line ls lines) ≡ ls ++ parts_of lines
unfolding parts_of
parts-add_line [] lines f t k = refl
parts-add_line (l ∷ ls) lines f t k = ap (λ ps. ps ++ parts_of lines) (parts-join l ls f t k)

abbrev pub is_other : Bytes → Bool
is_other part = not (is_gate_part part)

select-keeps : (ls : List Bytes) → select is_other (select is_part ls) ≡ select keeps ls
select-keeps [] = refl
select-keeps (l ∷ ls) = ground (arith, select-keeps ls)

select-append :
    (test : Bytes → Bool) (xs ys : List Bytes)
    → select test (xs ++ ys) ≡ select test xs ++ select test ys
select-append test [] ys = refl
select-append test (x ∷ xs) ys = ground (arith, select-append test xs ys)

pub strip_gate_cookies-parts :
    (lines : List Bytes) → parts_of (strip_gate_cookies lines) ≡ select is_other (parts_of lines)
unfolding strip_gate_cookies parts_of
strip_gate_cookies-parts [] = refl
strip_gate_cookies-parts (line ∷ lines) =
    let trimmed = map trim_space (split b';' line) in
    parts-add_line (kept_of line) (strip_gate_cookies lines)
      (All-select (λ l. contains_byte b';' l ≡ false) keeps trimmed
        (AreFree-trim (split b';' line) (split-AreFree b';' line)))
      (All-select IsTrimmed keeps trimmed (map-trim-IsTrimmed (split b';' line)))
      (All-keeps trimmed)
    ∙ ap (λ ps. kept_of line ++ ps) (strip_gate_cookies-parts lines)
    ∙ sym (
        select-append is_other (select is_part trimmed) (parts_of lines)
        ∙ ap (λ ps. ps ++ select is_other (parts_of lines)) (select-keeps trimmed))

-- `http.Request.Cookie`: the value of the first part with this name whose value is well formed.
abbrev is_value_byte : ℕ → Bool
is_value_byte c = leb 32 c && ltb c 127 && not (c == b'"') && not (c == b';') && not (c == b'\\')

pub drop_last : Bytes → Bytes
drop_last [] = []
drop_last (c ∷ []) = []
drop_last (c ∷ d ∷ s) = c ∷ drop_last (d ∷ s)

pub ends_in_quote : Bytes → Bool
ends_in_quote [] = false
ends_in_quote (c ∷ []) = c == b'"'
ends_in_quote (c ∷ d ∷ s) = ends_in_quote (d ∷ s)

unquote : Bytes → Bytes
unfolding drop_last ends_in_quote
unquote [] = []
unquote (c ∷ s) = if c == b'"' && ends_in_quote s then drop_last s else c ∷ s

-- the parts that `net/http` reads
cookie_parts : List Bytes → List Bytes
cookie_parts [] = []
cookie_parts (line ∷ lines) = select is_part (map trim (split b';' line)) ++ cookie_parts lines

unfoldable pub cookie_in : Bytes → List Bytes → Option Bytes
unfolding unquote
cookie_in name [] = none
cookie_in name (part ∷ parts) =
    let rest = cookie_in name parts in
    let (key, raw, _) = cut b'=' part in
    if equal (trim key) name && all is_value_byte (unquote raw) then some (unquote raw) else rest

unfoldable pub read_cookie : List Bytes → Bytes → Option Bytes
unfolding cookie_parts cookie_in
read_cookie lines name = cookie_in name (cookie_parts lines)
