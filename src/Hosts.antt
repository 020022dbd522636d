-- ===== src/Hosts.antt =====
-- cli/internal/localrelay/hosts.go and cli/internal/helper/validate.go: the managed block of
-- /etc/hosts, and the check of the names that may go into it.
pub mod Allowed
pub mod Block
use roxey.Base.{
  ℕ, ◌+◌, Bool, true, false, not, ◌&&◌, ◌||◌, List, [], ◌∷◌, ◌++◌, map, Option, none, some, Bytes,
  codes, equal, is_empty, split, join, has_suffix, trim_suffix, trim_right, contains_byte, length,
  ltb, leb, ◌==◌, if◌then◌else◌, any, all,
}
use roxey.Std.Label.{dashed, label_matches}

abbrev pub hosts_begin : Bytes
hosts_begin = codes "# BEGIN roxey (managed by `roxey up`; do not edit)"

abbrev pub hosts_end : Bytes
hosts_end = codes "# END roxey"

-- `seen[e]`
unfoldable pub seen_in : Bytes → List Bytes → Bool
seen_in e [] = false
seen_in e (x ∷ xs) = equal x e || seen_in e xs

-- The entries that get a line: not empty, and not seen before.
unfoldable pub fresh_entries : List Bytes → List Bytes → List Bytes
unfolding seen_in
fresh_entries seen [] = []
fresh_entries seen (e ∷ es) =
    let skipped = fresh_entries seen es in
    let taken = e ∷ fresh_entries (e ∷ seen) es in
    if is_empty e || seen_in e seen then skipped else taken

abbrev pub host_line : Bytes → Bytes
host_line e = codes "127.0.0.1 " ++ e

abbrev pub newline : Bytes
newline = b'\n' ∷ []

unfoldable pub lines_of : List Bytes → Bytes
lines_of [] = []
lines_of (e ∷ es) = host_line e ++ (b'\n' ∷ lines_of es)

abbrev pub render_lines : List Bytes → Bytes
render_lines [] = []
render_lines (e ∷ es) = hosts_begin ++ (b'\n' ∷ (lines_of (e ∷ es) ++ (hosts_end ++ newline)))

-- `RenderBlock`
unfoldable pub render_block : List Bytes → Bytes
unfolding lines_of fresh_entries
render_block entries = render_lines (fresh_entries [] entries)

-- the loop of `mergeHostsBlock`, with its flag `inBlock`
unfoldable pub kept_lines : Bool → List Bytes → List Bytes
kept_lines in_block [] = []
kept_lines in_block (l ∷ ls) =
    let after_begin = kept_lines true ls in
    let after_end = kept_lines false ls in
    if equal l hosts_begin
    then after_begin
    else if equal l hosts_end
    then after_end
    else if in_block
    then after_begin
    else l ∷ after_end

abbrev pub is_newline : ℕ → Bool
is_newline c = c == b'\n'

abbrev pub spaced : Bytes → Bytes
spaced content =
    if not (is_empty content) && not (has_suffix content (b'\n' ∷ b'\n' ∷ []))
    then trim_right is_newline content ++ (b'\n' ∷ b'\n' ∷ [])
    else content

-- `mergeHostsBlock`
unfoldable pub merge_hosts_block : Bytes → Bytes → Bytes
unfolding kept_lines
merge_hosts_block existing new_block =
    spaced (join newline (kept_lines false (split b'\n' existing))) ++ new_block

-- `hostLabelRE`
abbrev pub host_label : Bytes → Bool
host_label label = label_matches dashed 61 label

-- `ValidHostname`
unfoldable pub valid_hostname : Bytes → Bool
valid_hostname h = if is_empty h || ltb 253 (length h) then false else all host_label (split b'.' h)

abbrev pub under : Bytes → Bytes → Bool
under h tld = equal h tld || has_suffix h (b'.' ∷ tld)

-- `hostMatchesAnyTLD`; the order in which the map is walked makes no difference.
abbrev pub matches_any_tld : Bytes → List Bytes → Bool
matches_any_tld h tlds = any (under h) tlds

pub data HostError : Type 0 where
  too_many empty_entry : HostError
  invalid_entry foreign_entry : Bytes → HostError

abbrev pub max_hosts : ℕ
max_hosts = 5000

abbrev localhost : Bytes
localhost = codes "localhost"

-- what one entry that was not seen before gives
unfoldable pub check_entry : List Bytes → Bytes → Option HostError
unfolding seen_in valid_hostname
check_entry tlds e =
    if equal e localhost && seen_in localhost tlds
    then none
    else if not (valid_hostname e)
    then some (invalid_entry e)
    else if not (matches_any_tld e tlds)
    then some (foreign_entry e)
    else none

-- the loop of `ValidateHosts`; `none` is no error.
unfoldable pub check_entries : List Bytes → List Bytes → List Bytes → Option HostError
unfolding seen_in check_entry
check_entries tlds seen [] = none
check_entries tlds seen (e ∷ es) =
    let skipped = check_entries tlds seen es in
    let next = check_entries tlds (e ∷ seen) es in
    if is_empty e
    then some empty_entry
    else if seen_in e seen
    then skipped
    else elim (check_entry tlds e) [ some why ↦ some why | none ↦ next ]

-- `ValidateHosts`
unfoldable pub validate_hosts : List Bytes → List Bytes → Option HostError
unfolding check_entries
validate_hosts entries tlds =
    if ltb max_hosts (length entries) then some too_many else check_entries tlds [] entries
