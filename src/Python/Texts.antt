-- ===== src/Python/Texts.antt =====
-- src/python.cpp: the rounds that find a token with a text.
use stdromano.Prelude.{
  ℕ, zero, suc, ◌-◌, ◌==◌, ◌≡◌, refl, sym, Bool, true, false, leb, if◌then◌else◌, ◌&&◌, ◌||◌, [],
  ◌∷◌, ◌++◌, Option, none, some, ◌>>=◌, length, take, drop, Bool-cases, inl, inr, take-append-drop,
}
use stdromano.Json.Value.{Bytes}
use stdromano.Python.Token.{
  Kind, TokenType, identifier, keyword, literal, operator, delimiter, Literal, Delimiter, Keyword,
  of_keyword, no_type, of_delimiter, of_operator, right_arrow, walrus_assign, bang, Operator,
  of_literal,
}
use stdromano.Python.Tables.{find_word, keyword_map, delimiter_map, operator_map}
use stdromano.Python.Cursor.{
  Lexer, Place, goto_place, place_of, emplace, advance, advance_n, text_between, peek,
}
use stdromano.Python.Literals.{
  lex_body, lex_string, lex_number, number_at, string_token, prefix_length, consume_string_body,
  classify_string_prefix,
}
use stdromano.Python.Words.{
  name_loop, classify_word, token_at, lex_identifier, new_depth, lex_fixed, lex_delimiter,
  try_operator, lex_operator,
}
use stdromano.Python.Suffix.{
  Suffix, same, behind, Suffix_trans, Suffix-drop, text_between-Suffix, Suffix-drop_less,
  Suffix-drop-drop, Suffix_strict,
}
use stdromano.Python.Sound.{Sound, Sounds, Sounds-if, Sound-token, quiet}
use stdromano.Python.Passes.{
  advance_n-drop, name_loop-Suffix, Later, consume_string_body-Later, LaterWith,
  number_at-LaterWith,
}

classify_word-quiet : (word : Bytes) → quiet (classify_word word).0 ≡ true
unfolding classify_word
classify_word-quiet word = as_keyword (find_word keyword_map word) (find_word operator_map word)
  where
    as_keyword :
        (o : Option Keyword) (p : Option Operator)
        → quiet
            (elim o as (λ _. Kind × TokenType) [
              | some kw ↦ (keyword, of_keyword kw)
              | none ↦ elim p [
                | some op ↦ (operator, of_operator op)
                | none ↦ (identifier, no_type)
              ]
            ]).0
          ≡ true
    as_keyword (some kw) p = refl
    as_keyword none (some op) = refl
    as_keyword none none = refl

module _ (l : Lexer) {c : ℕ} {cs : Bytes} (here : l.cursor ≡ c ∷ cs) where
  -- a token whose text is all that is passed
  Sound-token_at :
      (stop : Place) (next : Lexer) (kind : Kind) (type : TokenType) (line : ℕ)
      → quiet kind ≡ true
      → Suffix stop.cursor cs
      → next.cursor ≡ stop.cursor
      → next.indent_stack ≡ l.indent_stack
      → next.out ≡ l.out ++ (record (token_at l stop kind type) { line = line } ∷ [])
      → Sound cs l next
  Sound-token_at stop next kind type line q s cursor stack out =
      Sound-token l here (record (token_at l stop kind type) { line = line }) next l.cursor
        stop.cursor q out stack same (text_between-Suffix (rw here (behind s))) (rw cursor same)
        (rw cursor s)

  advance_n-behind : (n : ℕ) → Suffix (advance_n (suc n) (place_of l)).cursor cs
  advance_n-behind n = rw (advance_n-drop (suc n) (place_of l), here) (Suffix-drop n cs)

  lex_fixed-Sound :
      (n : ℕ) (kind : Kind) (type : TokenType)
      → quiet kind ≡ true
      → Sound cs l (lex_fixed l (suc n) kind type)
  lex_fixed-Sound n kind type q =
      Sound-token_at (advance_n (suc n) (place_of l)) (lex_fixed l (suc n) kind type) kind type _ q
        (advance_n-behind n) refl refl refl

  first-Suffix : Suffix (advance (place_of l)).cursor cs
  unfolding advance
  first-Suffix = rw here same

  pub lex_identifier-Sound : Sound cs l (lex_identifier l)
  unfolding lex_identifier
  lex_identifier-Sound =
      let first = advance (place_of l) in
      let stop = name_loop false first.line first.column first.cursor in
      let class = classify_word (text_between l.cursor stop.cursor) in
      Sound-token_at stop (lex_identifier l) class.0 class.1 _
        (classify_word-quiet (text_between l.cursor stop.cursor))
        (Suffix_trans (name_loop-Suffix first.line first.column false first.cursor) first-Suffix)
        refl refl refl

  lex_body-Sounds :
      (quote : ℕ) (triple : Bool) (type : Literal) (begin : Place)
      → Suffix begin.cursor cs
      → Sounds cs l (lex_body l quote triple type begin)
  unfolding lex_body
  lex_body-Sounds quote triple type begin s =
      behind_body (consume_string_body quote triple type begin)
        (consume_string_body-Later quote triple type begin)
    where
      closing : ℕ
      closing = if triple then 3 else 1

      behind_body :
          (o : Option Place)
          → Later o begin.cursor
          → Sounds cs l (
              o >>= λ stop. some (
                emplace
                  (goto_place l stop)
                  (string_token begin.cursor closing triple type l.column stop)))
      behind_body none h = tt
      behind_body (some stop) h =
          let shown = length begin.cursor - length stop.cursor - closing in
          Sound-token l here (string_token begin.cursor closing triple type l.column stop)
            (emplace (goto_place l stop)
              (string_token begin.cursor closing triple type l.column stop))
            begin.cursor (drop shown begin.cursor) refl refl refl (rw here (behind s))
            (sym (take-append-drop shown begin.cursor)) (Suffix-drop_less closing h)
            (Suffix_trans h s)

  behind_quote :
      (n : ℕ) (triple : Bool)
      → Suffix (advance_n (if triple then 3 else 1) (advance_n n (place_of l))).cursor cs
  behind_quote n true =
      rw (advance_n-drop 3 (advance_n n (place_of l)), advance_n-drop n (place_of l), here)
        (Suffix-drop-drop n 2 c cs)
  behind_quote n false =
      rw (advance_n-drop 1 (advance_n n (place_of l)), advance_n-drop n (place_of l), here)
        (Suffix-drop-drop n 0 c cs)

  pub lex_string-Sounds : Sounds cs l (lex_string l)
  unfolding lex_string
  lex_string-Sounds =
      let n = prefix_length l.cursor in
      let quote = peek l.cursor n in
      let open_quote = advance_n n (place_of l) in
      let triple =
        peek open_quote.cursor 0 == quote
        && peek open_quote.cursor 1 == quote
        && peek open_quote.cursor 2 == quote in
      let begin = advance_n (if triple then 3 else 1) open_quote in
      Sounds-if (quote == b'"' || quote == b'\'')
        (lex_body l quote triple (classify_string_prefix (take n l.cursor)) begin) none cs l
        (lex_body-Sounds quote triple (classify_string_prefix (take n l.cursor)) begin
          (behind_quote n triple))
        tt

  passed_one :
      (p : Place)
      → (length l.cursor == length p.cursor) ≡ false
      → Suffix p.cursor l.cursor
      → Suffix p.cursor cs
  passed_one p e s = Suffix_strict (rw here at e) (rw here at s)

  pub lex_number-Sounds : Sounds cs l (lex_number l)
  unfolding lex_number
  lex_number-Sounds = behind_number (number_at (place_of l)) (number_at-LaterWith (place_of l))
    where
      behind_number :
          (o : Option (Place × Literal))
          → LaterWith o l.cursor
          → Sounds cs l (do
            found ← o
            if length l.cursor == length found.0.cursor
                then none
                else some (
                    emplace (goto_place l found.0) (record {
                      value = text_between l.cursor found.0.cursor;
                      kind = literal;
                      type = of_literal found.1;
                      column = l.column;
                      line = l.line;
                    })))
      behind_number none h = tt
      behind_number (some (p, type)) h = elim (Bool-cases (length l.cursor == length p.cursor)) [
        | inl e ↦ rw e tt
        | inr e ↦ rw e (
            Sound-token_at p
              (emplace (goto_place l p)
                (record (token_at l p literal (of_literal type)) { line = l.line }))
              literal (of_literal type) l.line refl (passed_one p e h) refl refl refl)
      ]

  try_operator-Sounds : (n : ℕ) → Sounds cs l (try_operator l n)
  unfolding try_operator
  try_operator-Sounds zero = tt
  try_operator-Sounds (suc n) =
      let ih = try_operator-Sounds n in
      Sounds-if (leb (suc n) (length l.cursor))
        (at_word (find_word operator_map (take (suc n) l.cursor))) (try_operator l n) cs l
        (at_word-Sounds (find_word operator_map (take (suc n) l.cursor)) ih) ih
    where
      at_word : Option Operator → Option Lexer
      at_word o = elim o [
        | none ↦ try_operator l n
        | some op ↦ some (lex_fixed l (suc n) operator (of_operator op))
      ]

      at_word-Sounds :
          (o : Option Operator) → Sounds cs l (try_operator l n) → Sounds cs l (at_word o)
      at_word-Sounds none ih = ih
      at_word-Sounds (some op) ih = lex_fixed-Sound n operator (of_operator op) refl

  pub lex_operator-Sounds : Sounds cs l (lex_operator l)
  unfolding lex_operator
  lex_operator-Sounds = behind_words (try_operator l 3) (try_operator-Sounds 3)
    where
      mark : ℕ
      mark = peek l.cursor 1

      bang_alone : Option Lexer
      bang_alone =
          if peek l.cursor 0 == b'!' && (mark == b'r' || mark == b's' || mark == b'a')
          then some (lex_fixed l 1 operator (of_operator bang))
          else none

      behind_words :
          (o : Option Lexer)
          → Sounds cs l o
          → Sounds cs l (elim o [ some next ↦ some next | none ↦ bang_alone ])
      behind_words (some next) h = h
      behind_words none h =
          Sounds-if (peek l.cursor 0 == b'!' && (mark == b'r' || mark == b's' || mark == b'a'))
            (some (lex_fixed l 1 operator (of_operator bang))) none cs l
            (lex_fixed-Sound 0 operator (of_operator bang) refl) tt

  lex_one-Sound :
      (d : Delimiter)
      → Sound cs l (record (lex_fixed l 1 delimiter (of_delimiter d)) {
        bracket_depth = new_depth d l.bracket_depth;
      })
  lex_one-Sound d =
      Sound-token_at (advance_n 1 (place_of l))
        (record (lex_fixed l 1 delimiter (of_delimiter d)) {
          bracket_depth = new_depth d l.bracket_depth;
        })
        delimiter (of_delimiter d) _ refl (advance_n-behind 0) refl refl refl

  pub lex_delimiter-Sounds : Sounds cs l (lex_delimiter l)
  unfolding lex_delimiter
  lex_delimiter-Sounds =
      let one = at_one (find_word delimiter_map (take 1 l.cursor)) in
      let walrus = peek l.cursor 0 == b':' && peek l.cursor 1 == b'=' in
      let assigned = some (lex_fixed l 2 operator (of_operator walrus_assign)) in
      Sounds-if (peek l.cursor 0 == b'-' && peek l.cursor 1 == b'>')
        (some (lex_fixed l 2 delimiter (of_delimiter right_arrow)))
        (if walrus then assigned else one) cs l
        (lex_fixed-Sound 1 delimiter (of_delimiter right_arrow) refl)
        (Sounds-if walrus assigned one cs l
          (lex_fixed-Sound 1 operator (of_operator walrus_assign) refl)
          (at_one-Sounds (find_word delimiter_map (take 1 l.cursor))))
    where
      at_one : Option Delimiter → Option Lexer
      at_one o = elim o [
        | none ↦ none
        | some d ↦ some (record (lex_fixed l 1 delimiter (of_delimiter d)) {
          bracket_depth = new_depth d l.bracket_depth;
        })
      ]

      at_one-Sounds : (o : Option Delimiter) → Sounds cs l (at_one o)
      at_one-Sounds none = tt
      at_one-Sounds (some d) = lex_one-Sound d
