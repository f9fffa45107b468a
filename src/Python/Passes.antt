-- ===== src/Python/Passes.antt =====
-- src/python.cpp: the loops over characters stop at a later place of the source.
use stdromano.Prelude.{
  ℕ, zero, suc, ◌==◌, ◌≡◌, refl, ap, ◌∙◌, Bool, true, false, if◌then◌else◌, ◌&&◌, ◌||◌, [], ◌∷◌,
  Option, none, some, drop, Bool-cases, inl, inr,
}
use stdromano.Json.Value.{Bytes}
use stdromano.Char.{is_digit}
use stdromano.Python.Token.{Literal}
use stdromano.Python.Cursor.{
  Place, peek, advance, advance_in, advance_n, advance_while, to_unsigned, incr, is_newline, is_hex,
  is_oct, is_bin,
}
use stdromano.Python.Literals.{
  Round, closed, broken, passed, body_round, body_loop, consume_string_body, consume_digits,
  consume_exponent, lex_radix, lex_fraction, lex_decimal, number_at,
}
use stdromano.Python.Words.{name_loop}
use stdromano.Python.Lines.{skip_break, blank_loop, empty_lines, count_spaces}
use stdromano.Python.Lexer.{join_loop}
use stdromano.Python.Suffix.{Suffix, same, behind, Suffix_trans, Suffix-drop}

-- which of two places is reached, when both are further on
Suffix-if :
    (b : Bool) (p q : Place) {cs : Bytes}
    → Suffix p.cursor cs
    → Suffix q.cursor cs
    → Suffix (if b then p else q).cursor cs
Suffix-if true p q s t = s
Suffix-if false p q s t = t

pub advance_while-Suffix :
    (test : ℕ → Bool) (line column : ℕ) (cs : Bytes)
    → Suffix (advance_while test line column cs).cursor cs
unfolding advance_while
advance_while-Suffix test line column [] = same
advance_while-Suffix test line column (c ∷ cs) =
    Suffix-if (test c) _ _ (behind (advance_while-Suffix test line (incr column) cs)) same

drop-drop : (n : ℕ) (cs : Bytes) → drop n (drop 1 cs) ≡ drop (suc n) cs
drop-drop zero [] = refl
drop-drop (suc n) [] = refl
drop-drop n (c ∷ cs) = refl

advance_in-drop : (p : Place) (cs : Bytes) → p.cursor ≡ cs → (advance_in p cs).cursor ≡ drop 1 cs
unfolding advance_in advance
advance_in-drop p [] e = e
advance_in-drop p (c ∷ cs) e = rw e refl

pub advance_n-drop : (n : ℕ) (p : Place) → (advance_n n p).cursor ≡ drop n p.cursor
unfolding advance_n
advance_n-drop zero p = refl
advance_n-drop (suc n) p =
    advance_n-drop n (advance_in p p.cursor)
    ∙ ap (drop n) (advance_in-drop p p.cursor refl)
    ∙ drop-drop n p.cursor

pub name_loop-Suffix :
    (line column : ℕ) (inner : Bool) (cs : Bytes)
    → Suffix (name_loop inner line column cs).cursor cs
unfolding name_loop
name_loop-Suffix line column inner [] = same
name_loop-Suffix line column inner (c ∷ cs) =
    Suffix-if _ _ _ (behind (name_loop-Suffix line (incr column) _ cs)) same

pub join_loop-Suffix :
    (k line column : ℕ) (cs : Bytes) → Suffix (join_loop k line column cs).cursor cs
unfolding join_loop
join_loop-Suffix k line column [] = same
join_loop-Suffix (suc k) line column (c ∷ cs) = behind (join_loop-Suffix k line column cs)
join_loop-Suffix zero line column (c ∷ cs) =
    Suffix-if (is_newline (to_unsigned c)) _ _ (behind (join_loop-Suffix _ (incr line) 1 cs))
      (Suffix-if (c == b' ') _ _ (behind (join_loop-Suffix zero line (incr (incr column)) cs)) same)

pub blank_loop-Suffix :
    (k line column : ℕ) (cs : Bytes) → Suffix (blank_loop k line column cs).cursor cs
unfolding blank_loop
blank_loop-Suffix k line column [] = same
blank_loop-Suffix (suc k) line column (c ∷ cs) = behind (blank_loop-Suffix k line column cs)
blank_loop-Suffix zero line column (c ∷ cs) =
    Suffix-if (c == b' ' || c == 9) _ _ (behind (blank_loop-Suffix zero line (incr column) cs)) (
      Suffix-if (is_newline (to_unsigned c)) _ _ (behind (blank_loop-Suffix _ (incr line) 1 cs))
        same)

pub skip_break-Suffix : (c : ℕ) (cs : Bytes) → Suffix (skip_break (c ∷ cs)) cs
unfolding skip_break
skip_break-Suffix c [] = same
skip_break-Suffix c (d ∷ ds) = elim (Bool-cases (c == 13 && d == 10)) [
  | inl e ↦ rw e (behind same)
  | inr e ↦ rw e same
]

pub empty_lines-Suffix : (k line : ℕ) (cs : Bytes) → Suffix (empty_lines k line cs).0.0 cs
unfolding empty_lines
empty_lines-Suffix k line [] = same
empty_lines-Suffix (suc k) line (c ∷ cs) = behind (empty_lines-Suffix k line cs)
empty_lines-Suffix zero line (c ∷ cs) = elim (Bool-cases (is_newline (to_unsigned c))) [
  | inl e ↦ rw e (behind (empty_lines-Suffix _ (incr line) cs))
  | inr e ↦ rw e same
]

pub count_spaces-Suffix : (cs : Bytes) → Suffix (count_spaces cs).0 cs
unfolding count_spaces
count_spaces-Suffix [] = same
count_spaces-Suffix (c ∷ cs) = elim (Bool-cases (c == b' ')) [
  | inl e ↦ rw e (behind (count_spaces-Suffix cs))
  | inr e ↦ rw e same
]

-- a place further on, if one is reached
abbrev pub Later : Option Place → Bytes → Type 0
Later none cs = Unit
Later (some p) cs = Suffix p.cursor cs

Later-behind : (o : Option Place) (c : ℕ) (cs : Bytes) → Later o cs → Later o (c ∷ cs)
Later-behind none c cs h = tt
Later-behind (some p) c cs h = behind h

pub advance_n-Suffix : (n : ℕ) (p : Place) → Suffix (advance_n n p).cursor p.cursor
advance_n-Suffix n p = rw (advance_n-drop n p) (Suffix-drop n p.cursor)

body_loop-Later :
    (quote : ℕ) (triple formatted : Bool) (k depth line column : ℕ) (cs : Bytes)
    → Later (body_loop quote triple formatted k depth line column cs) cs
unfolding body_loop
body_loop-Later quote triple formatted k depth line column [] = tt
body_loop-Later quote triple formatted (suc k) depth line column (c ∷ cs) =
    Later-behind (body_loop quote triple formatted k depth line column cs) c cs
      (body_loop-Later quote triple formatted k depth line column cs)
body_loop-Later quote triple formatted zero depth line column (c ∷ cs) =
    after_round (body_round quote triple formatted depth line column c cs)
      (λ k d l col. body_loop-Later quote triple formatted k d l col cs)
  where
    after_round :
        (r : Round)
        → ((k d l col : ℕ) → Later (body_loop quote triple formatted k d l col cs) cs)
        → Later
            (elim r [
              | closed n ↦
                  some
                    (advance_n (suc n) (record { cursor = c ∷ cs; line = line; column = column }))
              | broken ↦ none
              | passed k d l col ↦ body_loop quote triple formatted k d l col cs
            ])
            (c ∷ cs)
    after_round (closed n) ih =
        advance_n-Suffix (suc n) (record { cursor = c ∷ cs; line = line; column = column })
    after_round broken ih = tt
    after_round (passed k d l col) ih =
        Later-behind (body_loop quote triple formatted k d l col cs) c cs (ih k d l col)

pub consume_string_body-Later :
    (quote : ℕ) (triple : Bool) (type : Literal) (p : Place)
    → Later (consume_string_body quote triple type p) p.cursor
unfolding consume_string_body
consume_string_body-Later quote triple type p =
    body_loop-Later quote triple _ 0 0 p.line p.column p.cursor

pub consume_digits-Suffix :
    (pred : ℕ → Bool) (p : Place) → Suffix (consume_digits pred p).0.cursor p.cursor
unfolding consume_digits
consume_digits-Suffix pred p = advance_while-Suffix _ p.line p.column p.cursor

advance-Suffix : (p : Place) → Suffix (advance p).cursor p.cursor
unfolding advance
advance-Suffix p = Suffix-drop 1 p.cursor

consume_exponent-Suffix : (p : Place) → Suffix (consume_exponent p).0.cursor p.cursor
unfolding consume_exponent
consume_exponent-Suffix p =
    let letter = advance p in
    let sign = peek letter.cursor 0 == b'+' || peek letter.cursor 0 == b'-' in
    let behind_sign : Suffix (if sign then advance letter else letter).cursor p.cursor =
      Suffix_trans (Suffix-if sign (advance letter) letter (advance-Suffix letter) same)
        (advance-Suffix p) in
    elim (Bool-cases (peek p.cursor 0 == b'e' || peek p.cursor 0 == b'E')) [
      | inl e ↦ rw e (
          Suffix_trans (consume_digits-Suffix is_digit (if sign then advance letter else letter))
            behind_sign)
      | inr e ↦ rw e same
    ]

-- what is reached with a literal, if anything is
abbrev pub LaterWith : Option (Place × Literal) → Bytes → Type 0
LaterWith none cs = Unit
LaterWith (some (p, type)) cs = Suffix p.cursor cs

LaterWith-if :
    (b : Bool) (x y : Option (Place × Literal)) (cs : Bytes)
    → LaterWith x cs
    → LaterWith y cs
    → LaterWith (if b then x else y) cs
LaterWith-if true x y cs h g = h
LaterWith-if false x y cs h g = g

lex_radix-LaterWith : (pred : ℕ → Bool) (p : Place) → LaterWith (lex_radix pred p) p.cursor
unfolding number_at
lex_radix-LaterWith pred p =
    LaterWith-if ((consume_digits pred (advance_n 2 p)).1 == 0) none _ p.cursor tt
      (Suffix_trans (consume_digits-Suffix pred (advance_n 2 p)) (advance_n-Suffix 2 p))

Suffix-if_place :
    (b : Bool) (x y : Place) (cs : Bytes)
    → Suffix x.cursor cs
    → Suffix y.cursor cs
    → Suffix (if◌then◌else◌ {A = Place × Bool} b (x, true) (y, false)).0.cursor cs
Suffix-if_place true x y cs h g = h
Suffix-if_place false x y cs h g = g

lex_fraction-Suffix : (start p : Place) → Suffix (lex_fraction start p).0.cursor p.cursor
lex_fraction-Suffix start p =
    Suffix-if_place _ (consume_digits is_digit (advance p)).0 p p.cursor
      (Suffix_trans (consume_digits-Suffix is_digit (advance p)) (advance-Suffix p)) same

lex_decimal-Suffix : (p : Place) → Suffix (lex_decimal p).0.cursor p.cursor
lex_decimal-Suffix p =
    let whole = (consume_digits is_digit p).0 in
    let fraction = lex_fraction p whole in
    let exponent = consume_exponent fraction.0 in
    let last = peek exponent.0.cursor 0 in
    let reached =
      Suffix_trans (consume_exponent-Suffix fraction.0)
        (Suffix_trans (lex_fraction-Suffix p whole) (consume_digits-Suffix is_digit p)) in
    elim (Bool-cases (last == b'j' || last == b'J')) [
      | inl e ↦ rw e (Suffix_trans (advance-Suffix exponent.0) reached)
      | inr e ↦ rw e reached
    ]

pub number_at-LaterWith : (p : Place) → LaterWith (number_at p) p.cursor
unfolding number_at
number_at-LaterWith p =
    let zero = peek p.cursor 0 == b'0' in
    let next = peek p.cursor 1 in
    let bin =
      if zero && (next == b'b' || next == b'B') then lex_radix is_bin p else some (lex_decimal p) in
    let oct = if zero && (next == b'o' || next == b'O') then lex_radix is_oct p else bin in
    LaterWith-if (zero && (next == b'x' || next == b'X')) (lex_radix is_hex p) oct p.cursor
      (lex_radix-LaterWith is_hex p)
      (LaterWith-if (zero && (next == b'o' || next == b'O')) (lex_radix is_oct p) bin p.cursor
        (lex_radix-LaterWith is_oct p)
        (LaterWith-if (zero && (next == b'b' || next == b'B')) (lex_radix is_bin p)
          (some (lex_decimal p)) p.cursor (lex_radix-LaterWith is_bin p) (lex_decimal-Suffix p)))
