-- ===== src/Python/Rounds.antt =====
-- src/python.cpp: what the loop of `tokenize` keeps from its start to its end.
use stdromano.Prelude.{
  ℕ, zero, suc, ◌+◌, ◌-◌, ◌<◌, ◌==◌, ◌≡◌, ◌≢◌, refl, sym, ap, ◌∙◌, true, if◌then◌else◌, ◌&&◌, ◌||◌,
  List, [], ◌∷◌, ◌++◌, Option, none, some, length, arith, Bool-cases, Option-cases, inl, inr,
}
use stdromano.Json.Value.{Bytes}
use stdromano.Json.Parser.{c_str}
use stdromano.Char.{is_digit}
use stdromano.Python.Token.{Token}
use stdromano.Python.Cursor.{
  Lexer, goto_place, place_of, advance, skip_comment, is_newline, incr, to_unsigned, peek,
  is_id_start, is_unicode_id_start, new_lexer,
}
use stdromano.Python.Literals.{lex_string, lex_number}
use stdromano.Python.Words.{lex_identifier, lex_delimiter, lex_operator}
use stdromano.Python.Lines.{lex_newline_indent}
use stdromano.Python.Lexer.{
  join_loop, might_be_string, round, close_all, Lexed, tokens, failed, out_of_fuel, run, tokenize,
}
use stdromano.Python.Suffix.{
  Suffix, same, Suffix_trans, length-Suffix, AreEmpty, Found, start, Found-AreEmpty,
}
use stdromano.Python.Sound.{
  Sound, Sounds, Sounds-if, Sound-skip, IsLevelled, IsStack, level, level-append,
}
use stdromano.Python.Passes.{join_loop-Suffix, advance_while-Suffix}
use stdromano.Python.Texts.{
  lex_identifier-Sound, lex_string-Sounds, lex_number-Sounds, lex_delimiter-Sounds,
  lex_operator-Sounds,
}
use stdromano.Python.Levels.{lex_newline_indent-Sounds}

module _ (l : Lexer) {c : ℕ} {cs : Bytes} (here : l.cursor ≡ c ∷ cs) where
  advance-behind : Suffix (advance (place_of l)).cursor cs
  unfolding advance
  advance-behind = rw here same

  skip_comment-behind : (c == b'#') ≡ true → Suffix (skip_comment (place_of l)).cursor cs
  unfolding skip_comment
  skip_comment-behind e =
      let mark : c ≡ 35 = ground (arith, e) in
      rw (here, mark) (advance_while-Suffix _ l.line (incr l.column) cs)

  operator-Sounds : Sounds cs l (elim (lex_operator l) [
    | some m ↦ some m
    | none ↦ some (goto_place l (advance (place_of l)))
  ])
  operator-Sounds = behind_operator (lex_operator l) (lex_operator-Sounds l here)
    where
      behind_operator :
          (o : Option Lexer)
          → Sounds cs l o
          → Sounds cs l
              (elim o [ some m ↦ some m | none ↦ some (goto_place l (advance (place_of l))) ])
      behind_operator none h = Sound-skip l here (advance (place_of l)) advance-behind
      behind_operator (some m) h = h

  mark-Sounds : Sounds cs l (elim (lex_delimiter l) [
    | some m ↦ some m
    | none ↦ elim (lex_operator l) [
      | some m ↦ some m
      | none ↦ some (goto_place l (advance (place_of l)))
    ]
  ])
  mark-Sounds = behind_delimiter (lex_delimiter l) (lex_delimiter-Sounds l here)
    where
      behind_delimiter :
          (o : Option Lexer)
          → Sounds cs l o
          → Sounds cs l (elim o [
            | some m ↦ some m
            | none ↦ elim (lex_operator l) [
              | some m ↦ some m
              | none ↦ some (goto_place l (advance (place_of l)))
            ]
          ])
      behind_delimiter none h = operator-Sounds
      behind_delimiter (some m) h = h

  round-Sounds : Sounds cs l (round c l)
  unfolding round
  round-Sounds =
      let next = advance (place_of l) in
      let u = to_unsigned c in
      let joined = join_loop zero next.line next.column next.cursor in
      let mark = elim (lex_delimiter l) as (λ _. Option Lexer) [
        | some m ↦ some m
        | none ↦ elim (lex_operator l) as (λ _. Option Lexer) [
          | some m ↦ some m
          | none ↦ some (goto_place l next)
        ]
      ] in
      let word = if is_id_start u || is_unicode_id_start u then some (lex_identifier l) else mark in
      let number =
        if is_digit u || (c == b'.' && is_digit (to_unsigned (peek l.cursor 1)))
        then lex_number l
        else word in
      let text = if might_be_string l.cursor then lex_string l else number in
      let broken = if is_newline u then lex_newline_indent l else text in
      let comment = if c == b'#' then some (goto_place l (skip_comment (place_of l))) else broken in
      let behind_comment =
        Sounds-if (is_newline u) (lex_newline_indent l) text cs l (lex_newline_indent-Sounds l here)
          (Sounds-if (might_be_string l.cursor) (lex_string l) number cs l
            (lex_string-Sounds l here)
            (Sounds-if (is_digit u || (c == b'.' && is_digit (to_unsigned (peek l.cursor 1))))
              (lex_number l) word cs l (lex_number-Sounds l here)
              (Sounds-if (is_id_start u || is_unicode_id_start u) (some (lex_identifier l)) mark cs
                l (lex_identifier-Sound l here) mark-Sounds))) in
      let at_comment = elim (Bool-cases (c == b'#')) as (λ _. Sounds cs l comment) [
        | inl e ↦ rw e (Sound-skip l here (skip_comment (place_of l)) (skip_comment-behind e))
        | inr e ↦ rw e behind_comment
      ] in
      Sounds-if (c == b' ' || c == 9) (some (goto_place l next))
        (if c == b'\\' then some (goto_place l joined) else comment) cs l
        (Sound-skip l here next advance-behind)
        (Sounds-if (c == b'\\') (some (goto_place l joined)) comment cs l
          (Sound-skip l here joined
            (Suffix_trans (join_loop-Suffix zero next.line next.column next.cursor) advance-behind))
          at_comment)

-- what the loop does first
data Turn (n : ℕ) (l : Lexer) : Type 0 where
  ends :
      l.cursor ≡ []
      → run (suc n) l ≡ tokens (l.out ++ close_all l.indent_stack l.column l.line)
      → Turn n l
  stops : run (suc n) l ≡ failed → Turn n l
  goes :
      (c : ℕ) (cs : Bytes) (next : Lexer)
      → l.cursor ≡ c ∷ cs
      → Sound cs l next
      → run (suc n) l ≡ run n next
      → Turn n l

turn : (n : ℕ) (l : Lexer) → Turn n l
unfolding run
turn n l = at_cursor l.cursor refl refl
  where
    last : Lexed
    last = tokens (l.out ++ close_all l.indent_stack l.column l.line)

    at_cursor :
        (bs : Bytes)
        → l.cursor ≡ bs
        → run (suc n) l ≡ elim bs [
          | [] ↦ last
          | c ∷ cs ↦ elim (round c l) [ none ↦ failed | some next ↦ run n next ]
        ]
        → Turn n l
    at_cursor [] here e = ends here e
    at_cursor (c ∷ cs) here e = elim (Option-cases (round c l)) [
      | inl none_left ↦ stops (e ∙ rw none_left refl)
      | inr (next, found) ↦
          goes c cs next here (rw found at (round-Sounds l here)) (e ∙ rw found refl)
    ]

run-terminates : (n : ℕ) (l : Lexer) → length l.cursor < n → run n l ≢ out_of_fuel
run-terminates zero l h e = absurd (omega (arith, h))
run-terminates (suc n) l h e = elim (turn n l) [
  | ends here f ↦ absurd (ground (arith, f, e))
  | stops f ↦ absurd (ground (arith, f, e))
  | goes c cs next here s f ↦
      run-terminates n next (omega (arith, h, length-Suffix s.shorter, ap length here)) (sym f ∙ e)
]

run-zero : (l : Lexer) → run 0 l ≡ out_of_fuel
unfolding run
run-zero l = refl

-- the last lexer of a run that ends with tokens, and what every round has kept
run-tokens :
    (P : Lexer → Type 0) (n : ℕ) (l : Lexer) (ts : List Token)
    → ((c : ℕ) (cs : Bytes) (m next : Lexer) → m.cursor ≡ c ∷ cs → Sound cs m next → P m → P next)
    → P l
    → run n l ≡ tokens ts
    → (last : Lexer) × P last
      × (last.cursor ≡ [])
      × (ts ≡ last.out ++ close_all last.indent_stack last.column last.line)
run-tokens P zero l ts keeps p e = absurd (ground (arith, e, run-zero l))
run-tokens P (suc n) l ts keeps p e = elim (turn n l) [
  | ends here f ↦ (l, p, here, cc)
  | stops f ↦ absurd (ground (arith, f, e))
  | goes c cs next here s f ↦ run-tokens P n next ts keeps (keeps c cs l next here s p) (sym f ∙ e)
]

level-close_all :
    (stack : List ℕ) (column line : ℕ)
    → IsStack stack
    → level (close_all stack column line) (length stack - 1) ≡ some 0
unfolding close_all
level-close_all [] column line s = absurd (omega (arith, s))
level-close_all (a ∷ []) column line s = refl
level-close_all (a ∷ b ∷ stack) column line (lower, s) =
    let less : length (a ∷ b ∷ stack) - 1 ≡ suc (length (b ∷ stack) - 1) = omega arith in
    rw less (level-close_all (b ∷ stack) column line s)

close_all-AreEmpty : (stack : List ℕ) (column line : ℕ) → AreEmpty (close_all stack column line)
unfolding close_all
close_all-AreEmpty [] column line = tt
close_all-AreEmpty (a ∷ []) column line = tt
close_all-AreEmpty (a ∷ b ∷ stack) column line = (refl, close_all-AreEmpty (b ∷ stack) column line)

-- `tokenize` returns for every source: the rounds are enough.
pub tokenize-terminates : (source : Bytes) → tokenize source ≢ out_of_fuel
unfolding tokenize
tokenize-terminates source =
    run-terminates (length (c_str source) + 1) (new_lexer (c_str source)) (omega arith)

-- Every Dedent token closes a level that an Indent token in front of it has opened, and the tokens
-- close all levels up to the end.
pub tokenize-level :
    (source : Bytes) (ts : List Token) → tokenize source ≡ tokens ts → level ts 0 ≡ some 0
unfolding tokenize
tokenize-level source ts e =
    let text = c_str source in
    let (last, (stack, opened), at_end, all) =
      run-tokens (λ m. IsLevelled m.indent_stack m.out) (length text + 1) (new_lexer text) ts
        (λ c cs m next here s h. s.levels h) (refl, refl) e in
    rw all (
      level-append last.out (close_all last.indent_stack last.column last.line) 0
      ∙ rw opened (level-close_all last.indent_stack last.column last.line stack))

-- The texts of the tokens stand in the source, in front of its first zero, in the order of the tokens
-- and one behind the other.
pub tokenize-Found :
    (source : Bytes) (ts : List Token) → tokenize source ≡ tokens ts → Found (c_str source) ts []
unfolding tokenize
tokenize-Found source ts e =
    let text = c_str source in
    let (last, found, at_end, all) =
      run-tokens (λ m. Found text m.out m.cursor) (length text + 1) (new_lexer text) ts
        (λ c cs m next here s h. s.found text h) start e in
    rw all (
      Found-AreEmpty (close_all last.indent_stack last.column last.line)
        (close_all-AreEmpty last.indent_stack last.column last.line) (rw at_end at found))
