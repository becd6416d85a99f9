-- ===== src/Storage/Glob.antt =====
-- internal/teststore/store.go: `matchGlob`, which makes a regular expression of a pattern. The dot of a
-- regular expression stands for no line feed. Patterns and keys are ASCII.
pub mod Prefix
use titip.Prelude.{ℕ, Bool, true, false, not, ◌&&◌, ◌||◌, List, [], ◌∷◌, if◌then◌else◌, ◌==◌}
use titip.Text.{Text}

-- A piece of the expression: a byte for itself, any byte, or any text.
pub data Piece : Type 0 where
  byte : ℕ → Piece
  any_byte any_text : Piece

abbrev plain_piece : ℕ → Piece
plain_piece c = if c == b'*' then any_text else if c == b'?' then any_byte else byte c

-- The pieces of a pattern: a backslash takes the next byte for itself, and itself at the end. The flag
-- says that a backslash stands before the pattern.
pieces_of : Bool → Text → List Piece
pieces_of false [] = []
pieces_of true [] = byte 92 ∷ []
pieces_of true (c ∷ cs) = byte c ∷ pieces_of false cs
pieces_of false (c ∷ cs) =
    let escaped = pieces_of true cs in
    let rest = pieces_of false cs in if c == 92 then escaped else plain_piece c ∷ rest

-- Does the whole text match the pieces?
unfoldable pub matches : List Piece → Text → Bool
matches [] [] = true
matches [] (c ∷ cs) = false
matches (byte b ∷ ps) [] = false
matches (byte b ∷ ps) (c ∷ cs) = b == c && matches ps cs
matches (any_byte ∷ ps) [] = false
matches (any_byte ∷ ps) (c ∷ cs) = not (c == b'\n') && matches ps cs
matches (any_text ∷ ps) [] = matches ps []
matches (any_text ∷ ps) (c ∷ cs) =
    let here = matches ps (c ∷ cs) in
    let on = matches (any_text ∷ ps) cs in here || (not (c == b'\n') && on)

-- `matchGlob`
unfoldable pub match_glob : Text → Text → Bool
unfolding pieces_of matches
match_glob pattern s = matches (pieces_of false pattern) s
