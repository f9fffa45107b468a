-- ===== src/Python/Lexer.antt =====
-- src/python.cpp: `tokenize`.
use stdromano.Prelude.{
  ℕ, zero, suc, ◌+◌, ◌==◌, Bool, if◌then◌else◌, ◌&&◌, ◌||◌, List, [], ◌∷◌, ◌++◌, Option, none, some,
  length,
}
use stdromano.Json.Value.{Bytes}
use stdromano.Json.Parser.{c_str}
use stdromano.Char.{is_digit}
use stdromano.Python.Token.{Token, dedent}
use stdromano.Python.Cursor.{
  Lexer, Place, new_lexer, peek, to_unsigned, incr, advance, is_newline, is_id_start,
  is_unicode_id_start, skip_comment, place_of, goto_place,
}
use stdromano.Python.Literals.{is_str_prefix, lex_string, lex_number}
use stdromano.Python.Words.{lex_identifier, lex_delimiter, lex_operator}
use stdromano.Python.Lines.{lex_newline_indent, indentation_token}

-- The loop behind a backslash; the first number is how many bytes were passed ahead. At a space the
-- column grows by two, once in `advance` and once behind it.
unfoldable pub join_loop : ℕ → ℕ → ℕ → Bytes → Place
unfolding is_newline
join_loop k line column [] = record { cursor = []; line = line; column = column }
join_loop (suc k) line column (c ∷ cs) = join_loop k line column cs
join_loop zero line column (c ∷ cs) =
    let broken = join_loop (if c == 13 && peek cs 0 == 10 then 1 else 0) (incr line) 1 cs in
    let blank = join_loop zero line (incr (incr column)) cs in
    if is_newline (to_unsigned c)
    then broken
    else if c == b' '
    then blank
    else record { cursor = c ∷ cs; line = line; column = column }

abbrev pub is_quote : ℕ → Bool
is_quote c = c == b'"' || c == b'\''

abbrev pub might_be_string : Bytes → Bool
might_be_string cursor =
    let n1 = peek cursor 1 in
    is_quote (peek cursor 0)
    || (is_str_prefix (peek cursor 0)
        && (is_quote n1 || (is_str_prefix n1 && is_quote (peek cursor 2))))

-- a round of the loop at a byte, which may stop with an error
unfoldable pub round : ℕ → Lexer → Option Lexer
unfolding advance join_loop skip_comment lex_newline_indent lex_string lex_number lex_identifier
    lex_delimiter lex_operator is_newline is_id_start is_unicode_id_start
round c l =
    let next = advance (place_of l) in
    let u = to_unsigned c in
    if c == b' ' || c == 9
    then some (goto_place l next)
    else if c == b'\\'
    then some (goto_place l (join_loop zero next.line next.column next.cursor))
    else if c == b'#'
    then some (goto_place l (skip_comment (place_of l)))
    else if is_newline u
    then lex_newline_indent l
    else if might_be_string l.cursor
    then lex_string l
    else if is_digit u || (c == b'.' && is_digit (to_unsigned (peek l.cursor 1)))
    then lex_number l
    else if is_id_start u || is_unicode_id_start u
    then some (lex_identifier l)
    else elim (lex_delimiter l) [
      | some m ↦ some m
      | none ↦ elim (lex_operator l) [ some m ↦ some m | none ↦ some (goto_place l next) ]
    ]

-- the tokens that close the levels at the end
unfoldable pub close_all : List ℕ → ℕ → ℕ → List Token
close_all [] column line = []
close_all (a ∷ []) column line = []
close_all (a ∷ b ∷ stack) column line =
    indentation_token dedent b column line ∷ close_all (b ∷ stack) column line

pub data Lexed : Type 0 where
  tokens : List Token → Lexed
  failed out_of_fuel : Lexed

unfoldable pub run : ℕ → Lexer → Lexed
unfolding round close_all
run zero l = out_of_fuel
run (suc n) l = elim l.cursor [
  | [] ↦ tokens (l.out ++ close_all l.indent_stack l.column l.line)
  | c ∷ cs ↦ elim (round c l) [ none ↦ failed | some next ↦ run n next ]
]

-- the tokens of a source, which ends at its first zero
unfoldable pub tokenize : Bytes → Lexed
unfolding run c_str
tokenize source = let text = c_str source in run (length text + 1) (new_lexer text)
