-- ===== src/Preview/Slug.antt =====
-- cli/preview/preview.go: `Slugify`. SHA-256 and `strings.ToLower` are parameters.
pub mod Label
use roxey.Base.{
  ℕ, Bool, true, false, not, ◌&&◌, List, [], ◌∷◌, ◌++◌, Bytes, codes, is_empty, trim_left,
  trim_right, length, take, ltb, ◌==◌, if◌then◌else◌,
}
use roxey.Std.Hex.{hex_encode}
use roxey.Std.Label.{alnum}

-- the loop of `Slugify`, byte by byte: a rune of several bytes is no letter here, and what follows its
-- first byte is passed over, as the dash is out by then; with `lastDash` and whether the builder holds something
unfoldable pub slug_chars : Bool → Bool → Bytes → Bytes
slug_chars last_dash started [] = []
slug_chars last_dash started (c ∷ s) =
    let letter = slug_chars false true s in
    let dash = slug_chars true true s in
    let skipped = slug_chars last_dash started s in
    if alnum c then c ∷ letter else if not last_dash && started then b'-' ∷ dash else skipped

abbrev pub is_dash : ℕ → Bool
is_dash c = c == b'-'

-- `strings.Trim(…, "-")`
abbrev pub trim_dashes : Bytes → Bytes
trim_dashes s = trim_right is_dash (trim_left is_dash s)

abbrev pub or_preview : Bytes → Bytes
or_preview out = if is_empty out then codes "preview" else out

abbrev pub shortened : Bytes → Bytes → Bytes
shortened out sum =
    if ltb 40 (length out) then take 40 out ++ (b'-' ∷ take 6 (hex_encode sum)) else out

-- `Slugify`
unfoldable pub slugify : (Bytes → Bytes) → (Bytes → Bytes) → Bytes → Bytes
unfolding slug_chars hex_encode
slugify sum256 to_lower s =
    shortened (or_preview (trim_dashes (slug_chars false false (to_lower s)))) (sum256 s)
