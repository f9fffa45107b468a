-- ===== src/Python/Words.antt =====
-- src/python.cpp: identifiers with keywords, delimiters, and operators.
use stdromano.Prelude.{
  ℕ, zero, suc, ◌-◌, ◌==◌, Bool, false, leb, if◌then◌else◌, ◌&&◌, ◌||◌, not, [], ◌∷◌, Option, none,
  some, length, take,
}
use stdromano.Json.Value.{Bytes}
use stdromano.Python.Token.{
  Token, Kind, TokenType, identifier, keyword, operator, delimiter, no_type, of_keyword,
  of_operator, of_delimiter, Delimiter, left_paren, right_paren, left_bracket, right_bracket,
  left_brace, right_brace, right_arrow, walrus_assign, bang,
}
use stdromano.Python.Tables.{keyword_map, delimiter_map, operator_map, find_word}
use stdromano.Python.Cursor.{
  Lexer, Place, peek, advance, advance_n, text_between, to_unsigned, incr, is_id_continue,
  is_unicode_id_start, is_unicode_id_continue, place_of, goto_place, emplace,
}

-- the loop of `lex_identifier`; the flag says that it is in the inner loop
unfoldable pub name_loop : Bool → ℕ → ℕ → Bytes → Place
unfolding is_id_continue is_unicode_id_start is_unicode_id_continue
name_loop inner line column [] = record { cursor = []; line = line; column = column }
name_loop inner line column (c ∷ cs) =
    let u = to_unsigned c in
    let plain = is_id_continue u in
    let passes = (inner && is_unicode_id_continue u) || plain || is_unicode_id_start u in
    let now_inner = (inner && is_unicode_id_continue u) || (not plain && is_unicode_id_start u) in
    let rest = name_loop now_inner line (incr column) cs in
    if passes then rest else record { cursor = c ∷ cs; line = line; column = column }

-- the kind and the type of a word
unfoldable pub classify_word : Bytes → Kind × TokenType
unfolding keyword_map operator_map
classify_word word = elim (find_word keyword_map word) [
  | some kw ↦ (keyword, of_keyword kw)
  | none ↦ elim (find_word operator_map word) [
    | some op ↦ (operator, of_operator op)
    | none ↦ (identifier, no_type)
  ]
]

abbrev pub token_at : Lexer → Place → Kind → TokenType → Token
token_at l stop kind type = record {
  value = text_between l.cursor stop.cursor;
  kind = kind;
  type = type;
  column = l.column;
  line = stop.line;
}

unfoldable pub lex_identifier : Lexer → Lexer
unfolding name_loop classify_word advance
lex_identifier l =
    let first = advance (place_of l) in
    let stop = name_loop false first.line first.column first.cursor in
    let class = classify_word (text_between l.cursor stop.cursor) in
    emplace (goto_place l stop) (token_at l stop class.0 class.1)

-- the `switch` over a delimiter
abbrev pub new_depth : Delimiter → ℕ → ℕ
new_depth left_paren depth = incr depth
new_depth left_bracket depth = incr depth
new_depth left_brace depth = incr depth
new_depth right_paren depth = depth - 1
new_depth right_bracket depth = depth - 1
new_depth right_brace depth = depth - 1
new_depth other depth = depth

-- a token of a number of bytes
abbrev pub lex_fixed : Lexer → ℕ → Kind → TokenType → Lexer
lex_fixed l n kind type =
    let stop = advance_n n (place_of l) in emplace (goto_place l stop) (token_at l stop kind type)

-- the result `none` is that nothing was passed
unfoldable pub lex_delimiter : Lexer → Option Lexer
unfolding delimiter_map advance_n
lex_delimiter l =
    if peek l.cursor 0 == b'-' && peek l.cursor 1 == b'>'
    then some (lex_fixed l 2 delimiter (of_delimiter right_arrow))
    else if peek l.cursor 0 == b':' && peek l.cursor 1 == b'='
    then some (lex_fixed l 2 operator (of_operator walrus_assign))
    else elim (find_word delimiter_map (take 1 l.cursor)) [
      | none ↦ none
      | some d ↦ some (record (lex_fixed l 1 delimiter (of_delimiter d)) {
        bracket_depth = new_depth d l.bracket_depth;
      })
    ]

-- the loop of `lex_operator`, from a length down to 1
unfoldable pub try_operator : Lexer → ℕ → Option Lexer
unfolding operator_map advance_n
try_operator l zero = none
try_operator l (suc n) =
    let shorter = try_operator l n in
    if leb (suc n) (length l.cursor)
    then elim (find_word operator_map (take (suc n) l.cursor)) [
      | none ↦ shorter
      | some op ↦ some (lex_fixed l (suc n) operator (of_operator op))
    ]
    else shorter

unfoldable pub lex_operator : Lexer → Option Lexer
unfolding try_operator
lex_operator l = elim (try_operator l 3) [
  | some next ↦ some next
  | none ↦
      let mark = peek l.cursor 1 in
      if peek l.cursor 0 == b'!' && (mark == b'r' || mark == b's' || mark == b'a')
      then some (lex_fixed l 1 operator (of_operator bang))
      else none
]
