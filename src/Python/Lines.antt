-- ===== src/Python/Lines.antt =====
-- src/python.cpp: ends of lines, and the indentation behind them.
use stdromano.Prelude.{
  ℕ, zero, suc, ◌+◌, ◌==◌, ltb, if◌then◌else◌, ◌&&◌, ◌||◌, List, [], ◌∷◌, ◌++◌, Option, none, some,
  replicate,
}
use stdromano.Json.Value.{Bytes}
use stdromano.Python.Token.{Token, Kind, newline, indent, dedent, no_type, of_spaces}
use stdromano.Python.Cursor.{
  Lexer, Place, peek, to_unsigned, incr, is_newline, goto_place, emplace, indent_undefined,
}

-- the bytes behind the first one, and behind a line feed if that is a carriage return
unfoldable pub skip_break : Bytes → Bytes
skip_break [] = []
skip_break (c ∷ []) = []
skip_break (c ∷ d ∷ ds) = if c == 13 && d == 10 then ds else d ∷ ds

-- the loop within brackets; the first number is how many bytes were passed ahead
unfoldable pub blank_loop : ℕ → ℕ → ℕ → Bytes → Place
unfolding is_newline
blank_loop k line column [] = record { cursor = []; line = line; column = column }
blank_loop (suc k) line column (c ∷ cs) = blank_loop k line column cs
blank_loop zero line column (c ∷ cs) =
    let blank = blank_loop zero line (incr column) cs in
    let broken = blank_loop (if c == 13 && peek cs 0 == 10 then 1 else 0) (incr line) 1 cs in
    if c == b' ' || c == 9
    then blank
    else if is_newline (to_unsigned c)
    then broken
    else record { cursor = c ∷ cs; line = line; column = column }

abbrev pub newline_token : ℕ → ℕ → Token
newline_token column line = record {
  value = [];
  kind = newline;
  type = no_type;
  column = column;
  line = line;
}

-- the loop over empty lines, with the tokens it adds
unfoldable pub empty_lines : ℕ → ℕ → Bytes → (Bytes × ℕ) × List Token
unfolding is_newline
empty_lines k line [] = (([], line), [])
empty_lines (suc k) line (c ∷ cs) = empty_lines k line cs
empty_lines zero line (c ∷ cs) =
    let rest = empty_lines (if c == 13 && peek cs 0 == 10 then 1 else 0) (incr line) cs in
    if is_newline (to_unsigned c)
    then (rest.0, newline_token 1 line ∷ rest.1)
    else ((c ∷ cs, line), [])

-- the loop over spaces, with their number
unfoldable pub count_spaces : Bytes → Bytes × ℕ
count_spaces [] = ([], 0)
count_spaces (c ∷ cs) =
    let rest = count_spaces cs in if c == b' ' then (rest.0, incr rest.1) else (c ∷ cs, 0)

abbrev pub indentation_token : Kind → ℕ → ℕ → ℕ → Token
indentation_token kind spaces column line = record {
  value = [];
  kind = kind;
  type = of_spaces spaces;
  column = column;
  line = line;
}

-- `indent_stack.back()`
abbrev pub back : List ℕ → ℕ
back [] = 0
back (a ∷ rest) = a

-- the loop that closes levels: the stack, and how many were closed
unfoldable pub close_levels : ℕ → List ℕ → List ℕ × ℕ
close_levels spaces [] = ([], 0)
close_levels spaces (a ∷ []) = (a ∷ [], 0)
close_levels spaces (a ∷ b ∷ stack) =
    let rest = close_levels spaces (b ∷ stack) in
    if ltb spaces a then (rest.0, rest.1 + 1) else (a ∷ b ∷ stack, 0)

unfoldable pub emit_indentation : ℕ → Lexer → Option Lexer
unfolding close_levels
emit_indentation spaces l₀ =
    let l = record l₀ {
      indent_size =
          if l₀.indent_size == indent_undefined || l₀.indent_size == 0
          then spaces
          else l₀.indent_size;
    } in
    let top = back l.indent_stack in
    let levels = close_levels spaces l.indent_stack in
    let tokens = replicate levels.1 (indentation_token dedent spaces l.column l.line) in
    if ltb top spaces
    then some (
        emplace (record l { indent_stack = spaces ∷ l.indent_stack })
          (indentation_token indent spaces l.column l.line))
    else if ltb spaces top
    then if back levels.0 == spaces
      then some (record l { indent_stack = levels.0; out = l.out ++ tokens })
      else none
    else some l

-- `lex_newline_indent` within brackets
unfoldable pub lex_joined : Lexer → Lexer
unfolding blank_loop skip_break
lex_joined l = goto_place l (blank_loop zero (incr l.line) 1 (skip_break l.cursor))

-- `lex_newline_indent` outside of brackets, up to the first byte that is no space
unfoldable pub lex_broken : Lexer → Option Lexer
unfolding empty_lines count_spaces emit_indentation skip_break
lex_broken l =
    let lines = empty_lines zero (incr l.line) (skip_break l.cursor) in
    let spaces = count_spaces lines.0.0 in
    let next = record l {
      cursor = spaces.0;
      line = lines.0.1;
      column = 1;
      out = l.out ++ (newline_token l.column l.line ∷ lines.1);
    } in
    elim spaces.0 [
      | [] ↦ some next
      | c ∷ cs ↦
          if is_newline (to_unsigned c)
          then some next
          else emit_indentation spaces.1 (record next { column = incr spaces.1 })
    ]

unfoldable pub lex_newline_indent : Lexer → Option Lexer
unfolding lex_joined lex_broken
lex_newline_indent l = if ltb 0 l.bracket_depth then some (lex_joined l) else lex_broken l
