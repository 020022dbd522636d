-- ===== src/Std/Path.antt =====
-- The lexical functions of `path/filepath` on Unix, as the program calls them.
use roxey.Base.{
  ℕ, Bool, true, false, not, List, [], ◌∷◌, ◌++◌, Bytes, codes, equal, is_empty, split, join,
  trim_right, ◌==◌, if◌then◌else◌,
}

-- `..` drops the directory before it, if there is one; at the root it is dropped itself.
unfoldable pub go_up : Bool → List Bytes → List Bytes
go_up true [] = []
go_up false [] = codes ".." ∷ []
go_up rooted (d ∷ ds) = if equal d (codes "..") then codes ".." ∷ d ∷ ds else ds

-- the directories of a path, the last one first
unfoldable pub clean_onto : Bool → List Bytes → List Bytes → List Bytes
unfolding go_up
clean_onto rooted ds [] = ds
clean_onto rooted ds (p ∷ ps) =
    let skipped = clean_onto rooted ds ps in
    let up = clean_onto rooted (go_up rooted ds) ps in
    let down = clean_onto rooted (p ∷ ds) ps in
    if is_empty p
    then skipped
    else if equal p (codes ".")
    then skipped
    else if equal p (codes "..")
    then up
    else down

unfoldable pub backwards : List Bytes → List Bytes → List Bytes
backwards acc [] = acc
backwards acc (x ∷ xs) = backwards (x ∷ acc) xs

abbrev slash : Bytes
slash = b'/' ∷ []

abbrev is_rooted : Bytes → Bool
is_rooted [] = false
is_rooted (c ∷ s) = c == b'/'

-- `filepath.Clean`
unfoldable pub clean : Bytes → Bytes
unfolding clean_onto backwards
clean s =
    let rooted = is_rooted s in
    let inner = join slash (backwards [] (clean_onto rooted [] (split b'/' s))) in
    if rooted then b'/' ∷ inner else if is_empty inner then codes "." else inner

abbrev is_slash : ℕ → Bool
is_slash c = c == b'/'

-- the part behind the last slash, and the part up to it
unfoldable pub last_part : Bytes → Bytes → Bytes
last_part acc [] = acc
last_part acc (c ∷ s) =
    let fresh = last_part [] s in
    let longer = last_part (acc ++ (c ∷ [])) s in if is_slash c then fresh else longer

abbrev not_slash : ℕ → Bool
not_slash c = not (c == b'/')

-- `filepath.Dir`
unfoldable pub dir_of : Bytes → Bytes
unfolding clean
dir_of s = clean (trim_right not_slash s)

-- `filepath.Base`
unfoldable pub base_of : Bytes → Bytes
unfolding last_part
base_of s =
    let name = last_part [] (trim_right is_slash s) in
    if is_empty s then codes "." else if is_empty name then slash else name

-- `projects.SameDir`
unfoldable pub same_dir : Bytes → Bytes → Bool
unfolding clean
same_dir a b = equal (clean a) (clean b)
