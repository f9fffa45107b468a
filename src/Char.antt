-- ===== src/Char.antt =====
-- include/stdromano/char.hpp: the classes of a character, an `unsigned int` of 32 bits, and its case.
mod Tests
use stdromano.Prelude.{
  ℕ, ◌+◌, ◌-◌, ◌*◌, ◌/◌, ◌%◌, ◌^◌, ◌<◌, ◌==◌, ◌≡◌, refl, Bool, true, false, ltb, leb, if◌then◌else◌,
  ◌&&◌, ◌||◌, arith, Bool-cases, inl, inr,
}

abbrev pub word : ℕ
word = 4294967296

-- `c - n`, which wraps
abbrev pub minus : ℕ → ℕ → ℕ
minus c n = (c + (word - n)) % word

-- `c & ~0x20`
abbrev without_case : ℕ → ℕ
without_case c = c - c / 32 % 2 * 32

-- `c | 0x60`
abbrev with_case : ℕ → ℕ
with_case c = c + (1 - c / 32 % 2) * 32 + (1 - c / 64 % 2) * 64

unfoldable pub is_digit : ℕ → Bool
is_digit c = ltb (minus c 48) 10

unfoldable pub is_letter : ℕ → Bool
is_letter c = ltb (minus (without_case c) 65) 26

-- `|` of two tests
unfoldable pub is_alnum : ℕ → Bool
is_alnum c = ltb (minus c 48) 10 || ltb (minus (without_case c) 65) 26

unfoldable pub is_letter_upper : ℕ → Bool
is_letter_upper c = ltb (minus c 65) 26

unfoldable pub is_letter_lower : ℕ → Bool
is_letter_lower c = ltb (minus c 97) 26

-- the results are bytes, the patterns of a `char`
unfoldable pub to_lower : ℕ → ℕ
unfolding is_letter
to_lower c = if is_letter c then with_case c % 256 else c % 256

unfoldable pub to_upper : ℕ → ℕ
unfolding is_letter
to_upper c = if is_letter c then without_case c % 256 else c % 256

-- the ranges of the characters, as the standard gives them
abbrev between : ℕ → ℕ → ℕ → Bool
between a b c = leb a c && leb c b

-- The tests are those of the ranges of ASCII, on every character of 32 bits.
pub classes_lem :
    (c : ℕ)
    → c < word
    → (is_digit c ≡ between 48 57 c)
      × (is_letter c ≡ (between 65 90 c || between 97 122 c))
      × (is_alnum c ≡ (between 48 57 c || (between 65 90 c || between 97 122 c)))
      × (is_letter_upper c ≡ between 65 90 c)
      × (is_letter_lower c ≡ between 97 122 c)
unfolding is_digit is_letter is_alnum is_letter_upper is_letter_lower
classes_lem c small =
    let digit : ltb (minus c 48) 10 ≡ between 48 57 c = ground arith in
    let letter : ltb (minus (without_case c) 65) 26 ≡ (between 65 90 c || between 97 122 c) =
      ground arith in
    (digit, letter, rw (digit, letter) refl, ground arith, ground arith)

-- A letter of upper case is lowered to the letter 32 behind it, one of lower case raised to the letter
-- 32 in front of it, and no other byte is changed.
pub case_lem :
    (c : ℕ)
    → c < 256
    → (to_lower c ≡ (if between 65 90 c then c + 32 else c))
      × (to_upper c ≡ (if between 97 122 c then c - 32 else c))
unfolding to_lower to_upper
case_lem c small = elim (Bool-cases (between 65 90 c)) [
  | inl e ↦ (ground (arith, e), ground (arith, e))
  | inr e ↦ elim (Bool-cases (between 97 122 c)) [
    | inl f ↦ (ground (arith, e, f), ground (arith, e, f))
    | inr f ↦ (ground (arith, e, f), ground (arith, e, f))
  ]
]
