-- ===== src/Server/Query.antt =====
-- backend/main.go: query parameters, as `net/url` reads them and as `removeQueryParam` drops one.
use mathlib.Core.Path.{subst}
use roxey.Base.{
  ℕ, ◌+◌, ◌-◌, ◌*◌, ◌≡◌, refl, ◌∙◌, ap, Bool, true, false, not, ◌&&◌, List, [], ◌∷◌, ◌++◌, map, inl,
  inr, Option, none, some, arith, Bytes, equal, equal_iff, cut, split, join, contains_byte, select,
  leb, ◌==◌, if◌then◌else◌, Bool-cases, split-AreFree, split-join, padded, All-select, is_empty,
}

abbrev hex_value : ℕ → Option ℕ
hex_value c =
    if leb b'0' c && leb c b'9'
    then some (c - 48)
    else if leb b'a' c && leb c b'f'
    then some (c - 87)
    else if leb b'A' c && leb c b'F'
    then some (c - 55)
    else none

abbrev plus_space : ℕ → ℕ
plus_space c = if c == b'+' then b' ' else c

abbrev cons_some : ℕ → Option Bytes → Option Bytes
cons_some c none = none
cons_some c (some s) = some (c ∷ s)

abbrev escaped : Option ℕ → Option ℕ → Option Bytes → Option Bytes
escaped (some h) (some l) (some s) = some ((h * 16 + l) ∷ s)
escaped _ _ _ = none

-- `url.QueryUnescape`
unfoldable pub query_unescape : Bytes → Option Bytes
query_unescape [] = some []
query_unescape (c ∷ []) = if c == b'%' then none else some (plus_space c ∷ [])
query_unescape (c ∷ a ∷ []) =
    let rest = query_unescape (a ∷ []) in if c == b'%' then none else cons_some (plus_space c) rest
query_unescape (c ∷ a ∷ b ∷ s) =
    let skipped = query_unescape s in
    let rest = query_unescape (a ∷ b ∷ s) in
    if c == b'%' then escaped (hex_value a) (hex_value b) skipped else cons_some (plus_space c) rest

abbrev is_key : Bytes → Option Bytes → Bool
is_key target none = false
is_key target (some k) = equal k target

-- whether the key of one `key=value` part is `target`
abbrev pub names : Bytes → Bytes → Bool
names target part = is_key target (query_unescape (cut b'=' part).0)

abbrev cons_value : Option Bytes → List Bytes → List Bytes
cons_value none later = later
cons_value (some v) later = v ∷ later

-- `Query()[target]`: all values under the key, in order. An empty part, and one that holds a
-- semicolon or cannot be unescaped, is passed over.
pub values_in : Bytes → List Bytes → List Bytes
values_in target [] = []
values_in target (part ∷ parts) =
    let later = values_in target parts in
    if names target part && not (contains_byte b';' part) && not (is_empty part)
    then cons_value (query_unescape (cut b'=' part).1) later
    else later

unfoldable pub query_values : Bytes → Bytes → List Bytes
unfolding values_in
query_values raw target = values_in target (split b'&' raw)

abbrev first_or_empty : List Bytes → Bytes
first_or_empty [] = []
first_or_empty (v ∷ vs) = v

-- `Query().Get(target)`: the first value under the key, or the empty text
unfoldable pub query_get : Bytes → Bytes → Bytes
unfolding query_values
query_get raw target = first_or_empty (query_values raw target)

-- `removeQueryParam`
unfoldable pub remove_query_param : Bytes → Bytes → Bytes
remove_query_param raw target =
    join (b'&' ∷ []) (select (λ part. not (names target part)) (split b'&' raw))

values_in-removed :
    (target : Bytes) (parts : List Bytes)
    → values_in target (select (λ part. not (names target part)) parts) ≡ []
unfolding values_in
values_in-removed target [] = refl
values_in-removed target (p ∷ parts) = ground (arith, values_in-removed target parts)

names_other :
    (target other part : Bytes)
    → equal target other ≡ false
    → names target part ≡ true
    → names other part ≡ false
names_other target other part apart h = other_key (query_unescape (cut b'=' part).0) h
  where
    other_key : (k : Option Bytes) → is_key target k ≡ true → is_key other k ≡ false
    other_key none g = refl
    other_key (some k) g =
        ground (arith, equal_iff k target, equal_iff k other, equal_iff target other)

values_in-kept :
    (target other : Bytes) (parts : List Bytes)
    → equal target other ≡ false
    → values_in other (select (λ part. not (names target part)) parts) ≡ values_in other parts
unfolding values_in
values_in-kept target other [] apart = refl
values_in-kept target other (p ∷ parts) apart =
    ground (arith, names_other target other p apart, values_in-kept target other parts apart)

map-empty : (parts : List Bytes) → map (λ k. ◌++◌ {A = ℕ} [] k) parts ≡ parts
map-empty [] = refl
map-empty (p ∷ parts) = ap (◌∷◌ p) (map-empty parts)

values_in-padded :
    (key : Bytes) (parts : List Bytes) → values_in key (padded [] parts) ≡ values_in key parts
unfolding values_in
values_in-padded key [] = ground arith
values_in-padded key (p ∷ parts) = rw (map-empty parts)

query_values-remove :
    (raw target key : Bytes)
    → query_values (remove_query_param raw target) key
      ≡ values_in key (select (λ part. not (names target part)) (split b'&' raw))
unfolding query_values remove_query_param contains_byte
query_values-remove raw target key =
    let kept = select (λ part. not (names target part)) (split b'&' raw) in
    ap (values_in key) (
      split-join b'&' [] kept refl (
        All-select (λ l. contains_byte b'&' l ≡ false) (λ part. not (names target part)) _
          (split-AreFree b'&' raw)))
    ∙ values_in-padded key kept

-- After `removeQueryParam` the query has no value at all under the removed key, however the key was
-- escaped and however often it occurred, and under every other key it has the same values in the
-- same order.
pub remove_query_param-values :
    (raw target other : Bytes)
    → query_values (remove_query_param raw target) other
      ≡ (if equal target other then [] else query_values raw other)
unfolding query_values
remove_query_param-values raw target other = elim (Bool-cases (equal target other)) [
  | inl same ↦ rw same (
      query_values-remove raw target other
      ∙ subst (λ k. values_in k (select (λ s. not (names target s)) (split b'&' raw)) ≡ [])
          ((equal_iff target other).0 same) (values_in-removed target (split b'&' raw)))
  | inr apart ↦
      rw apart
        (query_values-remove raw target other ∙ values_in-kept target other (split b'&' raw) apart)
]
