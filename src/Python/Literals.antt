-- ===== src/Python/Literals.antt =====
-- src/python.cpp: the literals of numbers and strings.
use stdromano.Prelude.{
  ℕ, zero, suc, ◌+◌, ◌-◌, ◌==◌, Bool, true, false, ltb, if◌then◌else◌, ◌&&◌, ◌||◌, [], ◌∷◌, Option,
  none, some, ◌>>=◌, length, take,
}
use stdromano.Json.Value.{Bytes}
use stdromano.Char.{is_digit}
use stdromano.Python.Token.{
  Token, literal, of_literal, Literal, string_literal, unicode_string_literal, raw_string_literal,
  formatted_string_literal, bytes_literal, integer_literal, float_literal, complex_literal,
}
use stdromano.Python.Cursor.{
  Lexer, Place, peek, advance, advance_n, advance_while, text_between, to_unsigned, incr, is_hex,
  is_oct, is_bin, is_newline, place_of, goto_place, emplace,
}

-- `classify_string_prefix`: whether a letter stands in the prefix, in either case
abbrev pub has_letter : ℕ → ℕ → Bytes → Bool
has_letter lower upper [] = false
has_letter lower upper (c ∷ cs) = c == lower || c == upper || has_letter lower upper cs

unfoldable pub classify_string_prefix : Bytes → Literal
classify_string_prefix prefix =
    if has_letter b'f' b'F' prefix || has_letter b't' b'T' prefix
    then formatted_string_literal
    else if has_letter b'b' b'B' prefix
    then bytes_literal
    else if has_letter b'r' b'R' prefix
    then raw_string_literal
    else if has_letter b'u' b'U' prefix
    then unicode_string_literal
    else string_literal

-- what a round of the loop of `consume_string_body` does at a byte: it returns behind that byte and
-- some more, or goes on behind it and some more with a depth, a line and a column
pub data Round : Type 0 where
  closed : ℕ → Round
  broken : Round
  passed : ℕ → ℕ → ℕ → ℕ → Round

unfoldable pub body_round : ℕ → Bool → Bool → ℕ → ℕ → ℕ → ℕ → Bytes → Round
unfolding is_newline
body_round quote triple formatted depth line column c cs =
    if c == b'\\'
    then elim cs [
      | [] ↦ passed 0 depth line (incr column)
      | d ∷ ds ↦ passed 1 depth line (incr (incr column))
    ]
    else if c == quote && triple
    then if peek cs 0 == quote && peek cs 1 == quote && depth == 0
      then closed 2
      else passed 0 depth line (incr column)
    else if c == quote && depth == 0
    then closed 0
    else if c == 13
    then passed (if peek cs 0 == 10 then 1 else 0) depth (incr line) 1
    else if c == 10
    then passed 0 depth (incr line) 1
    else if c == b'{' && formatted
    then passed 0 (incr depth) line (incr column)
    else if c == b'}' && formatted
    then if depth == 0 then broken else passed 0 (depth - 1) line (incr column)
    else passed 0 depth line (incr column)

-- the loop; the first number is how many bytes were passed ahead. The end of the source is an error.
unfoldable pub body_loop : ℕ → Bool → Bool → ℕ → ℕ → ℕ → ℕ → Bytes → Option Place
unfolding body_round advance_n
body_loop quote triple formatted k depth line column [] = none
body_loop quote triple formatted (suc k) depth line column (c ∷ cs) =
    body_loop quote triple formatted k depth line column cs
body_loop quote triple formatted zero depth line column (c ∷ cs) =
    elim (body_round quote triple formatted depth line column c cs) [
      | closed n ↦
          some (advance_n (suc n) (record { cursor = c ∷ cs; line = line; column = column }))
      | broken ↦ none
      | passed k d l col ↦ body_loop quote triple formatted k d l col cs
    ]

unfoldable pub consume_string_body : ℕ → Bool → Literal → Place → Option Place
unfolding body_loop
consume_string_body quote triple type p =
    body_loop quote triple (elim type [ formatted_string_literal ↦ true | _ ↦ false ]) 0 0 p.line
      p.column p.cursor

abbrev pub is_str_prefix : ℕ → Bool
is_str_prefix c =
    c == b'r'
    || c == b'R'
    || c == b'u'
    || c == b'U'
    || c == b'f'
    || c == b'F'
    || c == b'b'
    || c == b'B'

-- the loop over the prefix
unfoldable pub prefix_length : Bytes → ℕ
prefix_length [] = 0
prefix_length (c ∷ cs) = let rest = prefix_length cs in if is_str_prefix c then rest + 1 else 0

abbrev pub string_token : Bytes → ℕ → Bool → Literal → ℕ → Place → Token
string_token body_start closing triple type column stop = record {
  value = take (length body_start - length stop.cursor - closing) body_start;
  kind = literal;
  type = of_literal type;
  column = column;
  line = stop.line;
}

-- `lex_string` behind the opening quote or quotes
unfoldable pub lex_body : Lexer → ℕ → Bool → Literal → Place → Option Lexer
unfolding consume_string_body
lex_body l quote triple type start = do
  stop ← consume_string_body quote triple type start
  some (
      emplace (goto_place l stop)
        (string_token start.cursor (if triple then 3 else 1) triple type l.column stop))

unfoldable pub lex_string : Lexer → Option Lexer
unfolding prefix_length classify_string_prefix advance_n lex_body
lex_string l =
    let n = prefix_length l.cursor in
    let quote = peek l.cursor n in
    let open_quote = advance_n n (place_of l) in
    let triple =
      peek open_quote.cursor 0 == quote
      && peek open_quote.cursor 1 == quote
      && peek open_quote.cursor 2 == quote in
    if quote == b'"' || quote == b'\''
    then lex_body l quote triple (classify_string_prefix (take n l.cursor))
        (advance_n (if triple then 3 else 1) open_quote)
    else none

-- `consume_digits`, which gives how many bytes it has passed
unfoldable pub consume_digits : (ℕ → Bool) → Place → Place × ℕ
unfolding advance_while
consume_digits pred p =
    let stop = advance_while (λ c. pred (to_unsigned c) || c == b'_') p.line p.column p.cursor in
    (stop, length p.cursor - length stop.cursor)

-- `consume_exponent`
unfoldable pub consume_exponent : Place → Place × ℕ
unfolding consume_digits advance
consume_exponent p =
    let c = peek p.cursor 0 in
    let letter = advance p in
    let sign = peek letter.cursor 0 == b'+' || peek letter.cursor 0 == b'-' in
    let digits = consume_digits is_digit (if sign then advance letter else letter) in
    if c == b'e' || c == b'E' then (digits.0, (if sign then 2 else 1) + digits.1) else (p, 0)

-- the digits behind `0x`, `0o` or `0b`
abbrev pub lex_radix : (ℕ → Bool) → Place → Option (Place × Literal)
lex_radix pred p =
    let digits = consume_digits pred (advance_n 2 p) in
    if digits.1 == 0 then none else some (digits.0, integer_literal)

-- the fraction, if one stands behind the integer part
abbrev pub lex_fraction : Place → Place → Place × Bool
lex_fraction start p =
    let next = peek p.cursor 1 in
    if peek p.cursor 0 == b'.'
      && (is_digit (to_unsigned next)
          || next == b'e'
          || next == b'E'
          || next == b'j'
          || next == b'J'
          || is_newline (to_unsigned next)
          || length p.cursor == length start.cursor)
    then ((consume_digits is_digit (advance p)).0, true)
    else (p, false)

-- the block for decimal numbers, and the test of a `j` behind it
abbrev pub lex_decimal : Place → Place × Literal
lex_decimal p =
    let whole = (consume_digits is_digit p).0 in
    let fraction = lex_fraction p whole in
    let exponent = consume_exponent fraction.0 in
    let type = if fraction.1 || ltb 0 exponent.1 then float_literal else integer_literal in
    let last = peek exponent.0.cursor 0 in
    if last == b'j' || last == b'J'
    then (advance exponent.0, complex_literal)
    else (exponent.0, type)

-- what `lex_number` passes and the literal it finds
unfoldable pub number_at : Place → Option (Place × Literal)
unfolding consume_digits consume_exponent advance_n
number_at p =
    let next = peek p.cursor 1 in
    if peek p.cursor 0 == b'0' && (next == b'x' || next == b'X')
    then lex_radix is_hex p
    else if peek p.cursor 0 == b'0' && (next == b'o' || next == b'O')
    then lex_radix is_oct p
    else if peek p.cursor 0 == b'0' && (next == b'b' || next == b'B')
    then lex_radix is_bin p
    else some (lex_decimal p)

unfoldable pub lex_number : Lexer → Option Lexer
unfolding number_at
lex_number l = do
  found ← number_at (place_of l)
  if length l.cursor == length found.0.cursor
      then none
      else some (
          emplace (goto_place l found.0) (record {
            value = text_between l.cursor found.0.cursor;
            kind = literal;
            type = of_literal found.1;
            column = l.column;
            line = l.line;
          }))
