-- ===== src/Sweep/Like.antt =====
-- The `LIKE` of PostgreSQL: `%` stands for any run, `_` for any one unit, and a backslash takes
-- the next unit as it is.
use cixtech.Prelude.{ℕ, Text, ◌==◌, if◌then◌else◌, ◌&&◌, ◌||◌, Bool, true, false, List, [], ◌∷◌}

pub data Token : Type 0 where
  any_run any_one : Token
  unit : ℕ → Token

abbrev token_of : ℕ → Token
token_of c = if c == b'%' then Token.any_run else if c == b'_' then Token.any_one else Token.unit c

abbrev backslash : ℕ
backslash = 92

unfoldable pub tokens : Text → List Token
tokens [] = []
tokens (c ∷ []) = token_of c ∷ []
tokens (c ∷ d ∷ s) =
    let escaped = Token.unit d ∷ tokens s in
    let plain = token_of c ∷ tokens (d ∷ s) in if c == backslash then escaped else plain

-- Whether a test holds of some end of the text.
some_end : (Text → Bool) → Text → Bool
some_end f [] = f []
some_end f (c ∷ s) = f (c ∷ s) || some_end f s

unfoldable pub matches : List Token → Text → Bool
unfolding some_end
matches [] [] = true
matches [] (c ∷ s) = false
matches (Token.unit u ∷ p) [] = false
matches (Token.unit u ∷ p) (c ∷ s) = (c == u) && matches p s
matches (Token.any_one ∷ p) [] = false
matches (Token.any_one ∷ p) (c ∷ s) = matches p s
matches (Token.any_run ∷ p) s = some_end (matches p) s

unfoldable pub like : Text → Text → Bool
unfolding tokens matches
like pattern s = matches (tokens pattern) s
