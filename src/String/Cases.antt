-- ===== src/String/Cases.antt =====
-- include/stdromano/string.hpp, src/string.cpp: strings with other bytes, and comparisons.
use stdromano.Prelude.{
  ℕ, zero, suc, ◌+◌, ◌-◌, ◌%◌, ◌==◌, Bool, true, false, ltb, leb, if◌then◌else◌, ◌&&◌, [], ◌∷◌,
  Option, some, ◌>>=◌, drop, replicate,
}
use stdromano.Json.Value.{Bytes}
use stdromano.Char.{is_letter, to_lower, to_upper}
use stdromano.String.Storage.{
  Cells, String, load, store, bits31, mem_cpy, reallocate, make_ref, copy, new_string,
}
use stdromano.String.Views.{bytes_in}

-- a `char`, which is signed, as an `unsigned int`
abbrev pub as_unsigned : ℕ → ℕ
as_unsigned c = if ltb c 128 then c else c + 4294967040

abbrev pub upper_byte : ℕ → ℕ
upper_byte c = if is_letter (as_unsigned c) then to_upper (as_unsigned c) else c

abbrev pub lower_letter : ℕ → ℕ
lower_letter c = if is_letter (as_unsigned c) then to_lower (as_unsigned c) else c

-- the scalar kernel of `tolower`
abbrev pub lower_byte : ℕ → ℕ
lower_byte c = to_lower (as_unsigned c)

abbrev pub replaced : ℕ → ℕ → ℕ → ℕ
replaced occurence replacement c = if c == occurence then replacement else c

-- a loop over the bytes from an index on that writes each one anew
unfoldable pub byte_loop : (ℕ → ℕ) → ℕ → ℕ → Cells → Option Cells
byte_loop f zero i cells = some cells
byte_loop f (suc n) i cells = do
  c ← load cells i
  put ← store cells i (f c)
  byte_loop f n (suc i) put

module _ (local_capacity : ℕ) where
  -- the copy with every byte written anew
  abbrev pub with_bytes : (ℕ → ℕ) → String → Option String
  with_bytes f s = do
    result ← copy local_capacity s
    cells ← byte_loop f result.size 0 result.cells
    some (record result { cells = cells })

  unfoldable pub upper : String → Option String
  unfolding copy byte_loop
  upper s = if s.size == 0 then some (new_string local_capacity) else with_bytes upper_byte s

  -- with the scalar kernel
  unfoldable pub lower : String → Option String
  unfolding copy byte_loop
  lower s = if s.size == 0 then some (new_string local_capacity) else with_bytes lower_byte s

  unfoldable pub replace : String → ℕ → ℕ → Option String
  unfolding copy byte_loop
  replace s occurence replacement = with_bytes (replaced occurence replacement) s

  unfoldable pub capitalize : String → Option String
  unfolding copy byte_loop
  capitalize s = if s.size == 0 then some (new_string local_capacity) else (do
    result ← copy local_capacity s
    first ← byte_loop upper_byte 1 0 result.cells
    cells ← byte_loop lower_letter (result.size - 1) 1 first
    some (record result { cells = cells }))

  unfoldable pub zfill : String → ℕ → Option String
  unfolding reallocate mem_cpy make_ref
  zfill s total_width =
      let num_zeros = total_width - s.size in
      if leb total_width s.size then make_ref s.cells s.size else (do
        result ← reallocate (new_string local_capacity) total_width
        zeros ← mem_cpy result.cells 0 (replicate num_zeros (some b'0')) num_zeros
        filled ← mem_cpy zeros num_zeros s.cells s.size
        ended ← store filled (bits31 total_width) 0
        some (record result { cells = ended; size = bits31 total_width }))

-- `std::strncmp` with 0 for equal, up to a number of bytes or a zero in both
unfoldable pub same_front : ℕ → Cells → Cells → Option Bool
same_front zero a b = some true
same_front (suc n) a b = do
  x ← load a 0
  y ← load b 0
  let rest = same_front n (drop 1 a) (drop 1 b) in
      if x == y then (if x == 0 then some true else rest) else some false

unfoldable pub startswith : String → String → Option Bool
unfolding same_front
startswith s prefix =
    if ltb s.size prefix.size then some false else same_front prefix.size s.cells prefix.cells

unfoldable pub endswith : String → String → Option Bool
unfolding same_front
endswith s suffix =
    if ltb s.size suffix.size
    then some false
    else same_front suffix.size (drop (s.size - suffix.size) s.cells) suffix.cells

-- `<` of two `char`, which are signed, as that of numbers 128 higher
abbrev pub case_sensitive_less : ℕ → ℕ → Bool
case_sensitive_less a b = ltb ((a + 128) % 256) ((b + 128) % 256)

abbrev pub case_insensitive_less : ℕ → ℕ → Bool
case_insensitive_less a b =
    case_sensitive_less (to_lower (as_unsigned a)) (to_lower (as_unsigned b))

-- `std::lexicographical_compare`
unfoldable pub lexicographical_compare : (ℕ → ℕ → Bool) → Bytes → Bytes → Bool
lexicographical_compare less xs [] = false
lexicographical_compare less [] (y ∷ ys) = true
lexicographical_compare less (x ∷ xs) (y ∷ ys) =
    let rest = lexicographical_compare less xs ys in
    if less x y then true else if less y x then false else rest

-- `strcmp`: whether the result is -1; it is 1 otherwise
unfoldable pub strcmp : String → String → Bool → Option Bool
unfolding lexicographical_compare bytes_in
strcmp lhs rhs case_sensitive = do
  xs ← bytes_in lhs.size lhs.cells
  ys ← bytes_in rhs.size rhs.cells
  some (
      lexicographical_compare
        (λ a b. if case_sensitive then case_sensitive_less a b else case_insensitive_less a b) xs
        ys)

-- whether these bytes are a word, in either case
abbrev pub same_word : Bytes → Bytes → Bool
same_word [] [] = true
same_word [] (y ∷ ys) = false
same_word (x ∷ xs) [] = false
same_word (x ∷ xs) (y ∷ ys) = to_lower (as_unsigned x) == y && same_word xs ys

unfoldable pub to_bool : String → Option Bool
unfolding bytes_in
to_bool s = do
  xs ← bytes_in s.size s.cells
  some (elim xs [
    | [] ↦ false
    | c ∷ [] ↦ c == b'1'
    | c ∷ d ∷ cs ↦ same_word (c ∷ d ∷ cs) (b't' ∷ b'r' ∷ b'u' ∷ b'e' ∷ [])
  ])
