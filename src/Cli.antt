-- ===== src/Cli.antt =====
-- cli/main.go: how the commands read their arguments.
pub mod Options
pub mod Render
use roxey.Base.{ℕ, Bool, true, false, List, [], ◌∷◌, Option, none, some, Bytes}

-- What one argument does, with the argument behind it, if there is one: an error, a new state, or a
-- new state that takes the next argument too.
pub data Step (S E : Type 0) : Type 0 where
  failed : E → Step S E
  one two : S → Step S E

pub data Scanned (S E : Type 0) : Type 0 where
  invalid : E → Scanned S E
  scanned : S → Scanned S E

-- the loop `for i := 0; i < len(args); i++`, whose body may advance `i` itself
module _ {S E : Type 0} (step : S → Bytes → Option Bytes → Step S E) where
  unfoldable pub scan : S → List Bytes → Scanned S E
  scan s [] = scanned s
  scan s (a ∷ []) = elim (step s a none) [
    | failed e ↦ invalid e
    | one t ↦ scanned t
    | two t ↦ scanned t
  ]
  scan s (a ∷ b ∷ rest) = elim (step s a (some b)) [
    | failed e ↦ invalid e
    | one t ↦ scan t (b ∷ rest)
    | two t ↦ scan t rest
  ]
