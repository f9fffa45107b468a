-- ===== src/Python/Tests.antt =====
-- Runs of the lexer of src/python.cpp.
use stdromano.Prelude.{ℕ, ◌≤◌, ◌≡◌, ◌≢◌, refl, List, [], ◌∷◌, map, some, arith}
use stdromano.Json.Value.{Bytes}
use stdromano.Json.Parser.{c_str}
use stdromano.Char.{is_digit, is_letter}
use stdromano.Python.Tables.{operator_map}
use stdromano.Python.Token.{
  Token, Kind, identifier, keyword, literal, operator, delimiter, newline, indent, dedent,
  of_operator, Operator, addition,
}
use stdromano.Python.Cursor.{Lexer, new_lexer}
use stdromano.Python.Words.{lex_operator, lex_fixed}
use stdromano.Python.Lexer.{Lexed, tokens, failed, out_of_fuel, tokenize}
use stdromano.Python.Suffix.{Found}
use stdromano.Python.Sound.{level}
use stdromano.Python.Rounds.{tokenize-level, tokenize-Found, tokenize-terminates}
use stdromano.Python.Longest.{operator_at, lex_operator-TakesLongest}

abbrev token_list : Lexed → List Token
token_list (tokens ts) = ts
token_list failed = []
token_list out_of_fuel = []

abbrev kinds : Lexed → List (Kind × Bytes)
kinds lexed = map (λ t. (t.kind, t.value)) (token_list lexed)

-- `if x:`, a line with `y**='a'` further right, and `z` in the first column
abbrev program : Bytes
program =
    b'i' ∷ b'f' ∷ b' ' ∷ b'x' ∷ b':' ∷ 10 ∷ b' ' ∷ b' ' ∷ b'y' ∷ b'*' ∷ b'*' ∷ b'=' ∷ b'\'' ∷ b'a'
    ∷ b'\'' ∷ 10 ∷ b'z' ∷ []

abbrev unclosed : Bytes
unclosed = b'\'' ∷ b'a' ∷ []

tokenize-program :
    kinds (tokenize program)
    ≡ (keyword, b'i' ∷ b'f' ∷ [])
      ∷ (identifier, b'x' ∷ [])
      ∷ (delimiter, b':' ∷ [])
      ∷ (newline, [])
      ∷ (indent, [])
      ∷ (identifier, b'y' ∷ [])
      ∷ (operator, b'*' ∷ b'*' ∷ b'=' ∷ [])
      ∷ (literal, b'a' ∷ [])
      ∷ (newline, [])
      ∷ (dedent, [])
      ∷ (identifier, b'z' ∷ [])
      ∷ []
unfolding tokenize is_digit is_letter
tokenize-program = refl

tokenize-unclosed : tokenize unclosed ≡ failed
unfolding tokenize
tokenize-unclosed = refl

program_lexed : tokenize program ≡ tokens (token_list (tokenize program))
unfolding tokenize is_digit is_letter
program_lexed = refl

tokenize-level_example : level (token_list (tokenize program)) 0 ≡ some 0
tokenize-level_example = tokenize-level program (token_list (tokenize program)) program_lexed

tokenize-Found_example : Found (c_str program) (token_list (tokenize program)) []
tokenize-Found_example = tokenize-Found program (token_list (tokenize program)) program_lexed

tokenize-terminates_example : tokenize unclosed ≢ out_of_fuel
tokenize-terminates_example = tokenize-terminates unclosed

-- the bytes `+=1`
abbrev at_plus : Lexer
at_plus = new_lexer (b'+' ∷ b'=' ∷ b'1' ∷ [])

plus_found : operator_at at_plus 1 ≡ some addition
unfolding operator_map
plus_found = refl

lex_operator-TakesLongest_example :
    (k : ℕ) × (longest : Operator) × (1 ≤ k)
    × (k ≤ 3)
    × (operator_at at_plus k ≡ some longest)
    × (lex_operator at_plus ≡ some (lex_fixed at_plus k operator (of_operator longest)))
lex_operator-TakesLongest_example =
    lex_operator-TakesLongest at_plus 1 addition (omega arith) (omega arith) (omega arith)
      plus_found
