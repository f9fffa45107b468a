-- ===== src/Python/Longest.antt =====
-- src/python.cpp: which operator `lex_operator` takes.
use stdromano.Prelude.{
  ℕ, zero, suc, ◌≤◌, ◌<◌, ◌==◌, ◌≡◌, refl, sym, ap, ◌∙◌, ◌&&◌, ◌||◌, ◌⊎◌, leb, true, false,
  if◌then◌else◌, Option, none, some, length, take, arith, Bool-cases, Option-cases, inl, inr,
}
use stdromano.Python.Token.{operator, bang, of_operator, Operator}
use stdromano.Python.Tables.{find_word, operator_map}
use stdromano.Python.Cursor.{Lexer, peek}
use stdromano.Python.Words.{lex_fixed, try_operator, lex_operator}

-- the operator that the bytes up to a length are
abbrev pub operator_at : Lexer → ℕ → Option Operator
operator_at l n = find_word operator_map (take n l.cursor)

try_operator-found :
    (l : Lexer) (n : ℕ) (op : Operator)
    → suc n ≤ length l.cursor
    → operator_at l (suc n) ≡ some op
    → try_operator l (suc n) ≡ some (lex_fixed l (suc n) operator (of_operator op))
unfolding try_operator
try_operator-found l n op fits found =
    let enough : leb (suc n) (length l.cursor) ≡ true = ground arith in rw (enough, found) refl

try_operator-missed :
    (l : Lexer) (n : ℕ) → operator_at l (suc n) ≡ none → try_operator l (suc n) ≡ try_operator l n
unfolding try_operator
try_operator-missed l n missed = elim (Bool-cases (leb (suc n) (length l.cursor))) [
  | inl e ↦ rw (e, missed) refl
  | inr e ↦ rw e refl
]

try_operator-short :
    (l : Lexer) (n : ℕ) → length l.cursor < suc n → try_operator l (suc n) ≡ try_operator l n
unfolding try_operator
try_operator-short l n short =
    let less : leb (suc n) (length l.cursor) ≡ false = ground arith in rw less refl

-- `try_operator` from a length on takes an operator that is not shorter than another one at the cursor.
abbrev pub TakesLongest : Lexer → ℕ → ℕ → Type 0
TakesLongest l n m =
    (k : ℕ) × (longest : Operator) × (m ≤ k)
    × (k ≤ length l.cursor)
    × (operator_at l k ≡ some longest)
    × (try_operator l n ≡ some (lex_fixed l k operator (of_operator longest)))

TakesLongest-suc :
    (l : Lexer) (n m : ℕ)
    → try_operator l (suc n) ≡ try_operator l n
    → TakesLongest l n m
    → TakesLongest l (suc n) m
TakesLongest-suc l n m e (k, longest, least, fits, found, taken) =
    (k, longest, least, fits, found, e ∙ taken)

try_operator-TakesLongest :
    (l : Lexer) (n m : ℕ) (op : Operator)
    → 1 ≤ m
    → m ≤ n
    → m ≤ length l.cursor
    → operator_at l m ≡ some op
    → TakesLongest l n m
try_operator-TakesLongest l zero m op pos short fits found = absurd (omega arith)
try_operator-TakesLongest l (suc n) m op pos short fits found =
    elim (Bool-cases (leb (suc n) (length l.cursor))) [
      | inl e ↦ elim (Option-cases (operator_at l (suc n))) [
        | inl missed ↦ TakesLongest-suc l n m (try_operator-missed l n missed) (
            try_operator-TakesLongest l n m op pos (shorter missed (Bool-cases (m == suc n))) fits
              found)
        | inr (longest, f) ↦ (
          suc n,
          longest,
          short,
          ground (arith, e),
          f,
          try_operator-found l n longest (ground (arith, e)) f,
        )
      ]
      | inr e ↦
          TakesLongest-suc l n m (try_operator-short l n (ground (arith, e)))
            (try_operator-TakesLongest l n m op pos (ground (arith, e, fits)) fits found)
    ]
  where
    shorter : operator_at l (suc n) ≡ none → ((m == suc n) ≡ true) ⊎ ((m == suc n) ≡ false) → m ≤ n
    shorter missed (inl same) =
        let equal : m ≡ suc n = ground (arith, same) in
        let missing : operator_at l m ≡ none = rw equal missed in
        absurd (ground (arith, sym found ∙ missing))
    shorter missed (inr other) = ground (arith, other, short)

-- Where an operator of 1 to 3 bytes stands at the cursor, `lex_operator` finds a token, and its operator
-- is the longest of those that stand there.
pub lex_operator-TakesLongest :
    (l : Lexer) (m : ℕ) (op : Operator)
    → 1 ≤ m
    → m ≤ 3
    → m ≤ length l.cursor
    → operator_at l m ≡ some op
    → (k : ℕ) × (longest : Operator) × (m ≤ k)
      × (k ≤ length l.cursor)
      × (operator_at l k ≡ some longest)
      × (lex_operator l ≡ some (lex_fixed l k operator (of_operator longest)))
unfolding lex_operator
lex_operator-TakesLongest l m op pos short fits found =
    let t = try_operator-TakesLongest l 3 m op pos short fits found in
    (
      t.0,
      t.1,
      t.2,
      t.3,
      t.4,
      ap
          (λ o. elim o as (λ _. Option Lexer) [
            | some next ↦ some next
            | none ↦
                let mark = peek l.cursor 1 in
                if peek l.cursor 0 == b'!' && (mark == b'r' || mark == b's' || mark == b'a')
                then some (lex_fixed l 1 operator (of_operator bang))
                else none
          ])
          t.5,
    )
