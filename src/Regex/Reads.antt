-- ===== src/Regex/Reads.antt =====
-- src/regex.cpp: the grammar that `RegexCompiler` reads, as a relation between a stretch of the
-- pattern and a tree, without the compiler's state, its fuel and its bytecode.
-- A negated class is read as the compiler means it to run: a class of negated tests.
use stdromano.Prelude.{
  ℕ, ◌+◌, ◌%◌, ◌^◌, ◌≡◌, ◌≢◌, List, [], ◌∷◌, Option, none, some, Bool, true, false, not, ◌||◌, ◌==◌,
  get_elem?, if◌then◌else◌,
}
use stdromano.Regex.Opcode.{Bytes}
use stdromano.Regex.Syntax.{
  CharTest, any, digit, word, whitespace, single, Fragment, empty, test, group, opt, star, plus,
}
use stdromano.Regex.Compiler.{RangePair}
use stdromano.Regex.Emit.{join, class_fragment}

-- what is read: one primary, one with its quantifier, a concatenation that may be empty, and the
-- items of a concatenation (`true`) or of an alternation (`false`)
pub data Sort : Type 0 where
  primary quantified concatenation : Sort
  items : Bool → Sort

abbrev pub item : Bool → Sort
item true = quantified
item false = concatenation

-- no further item follows at this byte, or at the end
abbrev pub stops : Bool → Option ℕ → Bool
stops true none = true
stops true (some c) = c == b')' || c == b'|'
stops false none = true
stops false (some c) = not (c == b'|')

-- where the next item begins; a `|` stands in front of an alternative
abbrev pub item_start : Bool → ℕ → ℕ
item_start true q = q
item_start false q = q + 1

abbrev pub is_quantifier : Option ℕ → Bool
is_quantifier none = false
is_quantifier (some c) = c == b'*' || c == b'+' || c == b'?'

-- a byte that does not stand for itself
abbrev pub is_special : ℕ → Bool
is_special c =
    c == b'('
    || c == b'['
    || c == b'.'
    || c == b'\\'
    || c == b'*'
    || c == b'+'
    || c == b'?'
    || c == b')'
    || c == b']'
    || c == b'|'

abbrev pub ends_ranges : Option ℕ → Bool
ends_ranges none = true
ends_ranges (some c) = c == b']'

abbrev pub escape_test : ℕ → CharTest
escape_test esc =
    if esc == b'd'
    then digit
    else if esc == b'w'
    then word
    else if esc == b's'
    then whitespace
    else single esc

-- the byte at a position, or the end
abbrev pub Shows : Bytes → ℕ → ℕ → Type 0
Shows pattern p b = get_elem? pattern p ≡ some b

-- The inside of a class between two positions.
pub data ReadsRanges (pattern : Bytes) : ℕ → List RangePair → ℕ → Type 0 where
  no_ranges : {p : ℕ} → ends_ranges (get_elem? pattern p) ≡ true → ReadsRanges pattern p [] p
  one_byte :
      {p q lo : ℕ} {rs : List RangePair}
      → Shows pattern p lo
      → (lo == b']') ≡ false
      → get_elem? pattern (p + 1) ≢ some b'-'
      → ReadsRanges pattern (p + 1) rs q
      → ReadsRanges pattern p (record { lo = lo; hi = lo } ∷ rs) q
  last_dash :
      {p q lo : ℕ} {rs : List RangePair}
      → Shows pattern p lo
      → (lo == b']') ≡ false
      → Shows pattern (p + 1) b'-'
      → ends_ranges (get_elem? pattern (p + 2)) ≡ true
      → ReadsRanges pattern (p + 2) rs q
      → ReadsRanges pattern p (record { lo = lo; hi = lo } ∷ record { lo = b'-'; hi = b'-' } ∷ rs) q
  two_bytes :
      {p q lo hi : ℕ} {rs : List RangePair}
      → Shows pattern p lo
      → (lo == b']') ≡ false
      → Shows pattern (p + 1) b'-'
      → Shows pattern (p + 2) hi
      → (hi == b']') ≡ false
      → ReadsRanges pattern (p + 3) rs q
      → ReadsRanges pattern p (record { lo = lo; hi = hi } ∷ rs) q

-- `Reads pattern s p i f q j`: from the position `p`, with `i` the number of the next group, the
-- pattern reads as the tree `f`, up to the position `q` and the number `j`.
pub data Reads (pattern : Bytes) : Sort → ℕ → ℕ → Fragment → ℕ → ℕ → Type 0 where
  dot : {p i : ℕ} → Shows pattern p b'.' → Reads pattern primary p i (test any) (p + 1) i
  escaped :
      {p i e : ℕ}
      → Shows pattern p b'\\'
      → Shows pattern (p + 1) e
      → Reads pattern primary p i (test (escape_test e)) (p + 2) i
  literal :
      {p i b : ℕ}
      → Shows pattern p b
      → is_special b ≡ false
      → Reads pattern primary p i (test (single b)) (p + 1) i
  bracketed :
      {p q i : ℕ} {rs : List RangePair}
      → Shows pattern p b'['
      → get_elem? pattern (p + 1) ≢ some b'^'
      → ReadsRanges pattern (p + 1) rs q
      → Shows pattern q b']'
      → Reads pattern primary p i (class_fragment false rs) (q + 1) i
  negated :
      {p q i : ℕ} {rs : List RangePair}
      → Shows pattern p b'['
      → Shows pattern (p + 1) b'^'
      → ReadsRanges pattern (p + 2) rs q
      → Shows pattern q b']'
      → Reads pattern primary p i (class_fragment true rs) (q + 1) i
  grouped :
      {p q i j : ℕ} {f : Fragment}
      → Shows pattern p b'('
      → Reads pattern (items false) (p + 1) ((i + 1) % 2 ^ 32) f q j
      → Shows pattern q b')'
      → Reads pattern primary p i (group (i % 256) f) (q + 1) j
  once :
      {p q i j : ℕ} {f : Fragment}
      → Reads pattern primary p i f q j
      → is_quantifier (get_elem? pattern q) ≡ false
      → Reads pattern quantified p i f q j
  starred :
      {p q i j : ℕ} {f : Fragment}
      → Reads pattern primary p i f q j
      → Shows pattern q b'*'
      → Reads pattern quantified p i (star f) (q + 1) j
  repeated :
      {p q i j : ℕ} {f : Fragment}
      → Reads pattern primary p i f q j
      → Shows pattern q b'+'
      → Reads pattern quantified p i (plus f) (q + 1) j
  optional :
      {p q i j : ℕ} {f : Fragment}
      → Reads pattern primary p i f q j
      → Shows pattern q b'?'
      → Reads pattern quantified p i (opt f) (q + 1) j
  no_items :
      {p i : ℕ}
      → stops true (get_elem? pattern p) ≡ true
      → Reads pattern concatenation p i empty p i
  some_items :
      {p q i j : ℕ} {f : Fragment}
      → Reads pattern (items true) p i f q j
      → Reads pattern concatenation p i f q j
  last :
      {b : Bool} {p q i j : ℕ} {f : Fragment}
      → Reads pattern (item b) p i f q j
      → stops b (get_elem? pattern q) ≡ true
      → Reads pattern (items b) p i f q j
  more :
      {b : Bool} {p q r i j k : ℕ} {f g : Fragment}
      → Reads pattern (item b) p i f q j
      → stops b (get_elem? pattern q) ≡ false
      → Reads pattern (items b) (item_start b q) j g r k
      → Reads pattern (items b) p i (join b f g) r k
