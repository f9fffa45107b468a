-- ===== src/Json/Parser/Numbers.antt =====
-- src/json.cpp: `parse_number`.
use stdromano.Prelude.{
  ℕ, zero, suc, ◌+◌, ◌-◌, ◌*◌, ◌%◌, ◌^◌, ◌==◌, Bool, true, false, ltb, leb, if◌then◌else◌, ◌&&◌,
  ◌||◌, [], ◌∷◌,
}
use stdromano.Json.Value.{Bytes, Int64, pos, negsuc, Value, u64, i64, f64, Floats}
use stdromano.Json.Parser.Text.{Parser, ◌>>=◌, ◌>>◌, pure, ok, failed, undefined}

abbrev pub is_digit : ℕ → Bool
is_digit c = leb 48 c && leb c 57

abbrev pub max_i64 : ℕ
max_i64 = 2 ^ 63 - 1

abbrev pub max_int : ℕ
max_int = 2 ^ 31 - 1

-- `if(pos >= len || !is_digit(str[pos])) return nullptr`
abbrev pub need_digit : Parser (Unit {0})
need_digit [] = failed
need_digit (c ∷ cs) = if is_digit c then ok tt (c ∷ cs) else failed

-- a byte that may stand at the position, and is passed then
abbrev pub optional : (ℕ → Bool) → Parser Bool
optional test [] = ok false []
optional test (c ∷ cs) = if test c then ok true cs else ok false (c ∷ cs)

-- the loop over the digits of the exponent
unfoldable pub exponent_loop : ℕ → Parser ℕ
exponent_loop e [] = ok e []
exponent_loop e (c ∷ cs) =
    let next = exponent_loop (e * 10 + (c - 48)) cs in
    if is_digit c
    then if leb (e * 10 + (c - 48)) max_int then next else undefined
    else ok e (c ∷ cs)

-- the exponent behind its letter: whether it is negative, and its digits
unfoldable pub exponent_tail : Parser (Bool × (Bool × ℕ))
unfolding exponent_loop
exponent_tail = do
  exp_negative ← optional (λ c. c == b'-')
  plus ← if exp_negative then pure false else optional (λ c. c == b'+')
  need_digit
  e ← exponent_loop 0
  pure (true, (exp_negative, e))

-- whether an exponent stands at the position, and the exponent
unfoldable pub parse_exponent : Parser (Bool × (Bool × ℕ))
unfolding exponent_tail
parse_exponent = do
  found ← optional (λ c. c == b'e' || c == b'E')
  if found then exponent_tail else pure (false, (false, 0))

-- the loop over the digits of the fraction, 20 at most: their number and their value in 64 bits
unfoldable pub fraction_loop : ℕ → ℕ → Parser (ℕ × ℕ)
fraction_loop frac_digits frac_int [] = ok (frac_digits, frac_int) []
fraction_loop frac_digits frac_int (c ∷ cs) =
    let next = fraction_loop (frac_digits + 1) ((frac_int * 10 + (c - 48)) % 2 ^ 64) cs in
    if is_digit c && ltb frac_digits 20 then next else ok (frac_digits, frac_int) (c ∷ cs)

unfoldable pub skip_digits : Bytes → Bytes
skip_digits [] = []
skip_digits (c ∷ cs) = let rest = skip_digits cs in if is_digit c then rest else c ∷ cs

module _ {F : Type 0} (floats : Floats F) where
  -- `x * 10.0 + d`
  abbrev pub float_digit : F → ℕ → F
  float_digit x d = floats.add (floats.mul x (floats.of_nat 10)) (floats.of_nat d)

  -- the loop over the digits of the integer part
  unfoldable pub integer_loop : ℕ → F → Parser (ℕ × F)
  integer_loop int_val float_val [] = ok (int_val, float_val) []
  integer_loop int_val float_val (c ∷ cs) =
      let next = integer_loop (int_val * 10 + (c - 48)) (float_digit float_val (c - 48)) cs in
      if is_digit c
      then if leb (int_val * 10 + (c - 48)) max_i64 then next else undefined
      else ok (int_val, float_val) (c ∷ cs)

  abbrev pub add_fraction : F → ℕ × ℕ → F
  add_fraction x frac =
      if ltb 0 frac.0
      then floats.add x (floats.div (floats.of_nat frac.1) (floats.of_nat (10 ^ frac.0)))
      else x

  -- the fraction behind its point, added to the value
  unfoldable pub fraction_tail : F → Parser (Bool × F)
  unfolding fraction_loop skip_digits
  fraction_tail float_val = do
    need_digit
    frac ← fraction_loop 0 0
    λ rest. ok tt (skip_digits rest)
    pure (true, add_fraction float_val frac)

  -- whether a fraction stands at the position, and the value with it
  unfoldable pub parse_fraction : F → Parser (Bool × F)
  unfolding fraction_tail
  parse_fraction float_val = do
    found ← optional (λ c. c == b'.')
    if found then fraction_tail float_val else pure (false, float_val)

  -- The value times a power of ten. The table has the powers up to 22, and the test of a negative
  -- exponent lets 23 through.
  unfoldable pub scale : Bool → ℕ → F → Parser F
  scale exp_negative e x =
      if exp_negative && ltb 0 e
      then if leb e 22
        then pure (floats.div x (floats.of_nat (10 ^ e)))
        else if e == 23
        then (λ input. undefined)
        else pure (floats.mul x (floats.pow10 true e))
      else if ltb e 23
      then pure (floats.mul x (floats.of_nat (10 ^ e)))
      else pure (floats.mul x (floats.pow10 false e))

  -- `make_i64(-int_val)`
  abbrev pub negated : ℕ → Int64
  negated zero = pos 0
  negated (suc n) = negsuc n

  -- the number behind its integer part
  unfoldable pub finish_number : Bool → ℕ × F → Parser (Value F)
  unfolding parse_fraction parse_exponent scale
  finish_number is_negative whole = do
    frac ← parse_fraction whole.1
    exponent ← parse_exponent
    if frac.0 || exponent.0
        then (do
          x ← scale exponent.1.0 exponent.1.1 frac.1
          pure (f64 (if is_negative then floats.neg x else x)))
        else pure (if is_negative then i64 (negated whole.0) else u64 whole.0)

  unfoldable pub parse_number : Parser (Value F)
  unfolding integer_loop finish_number
  parse_number = do
    is_negative ← optional (λ c. c == b'-')
    whole ← need_digit >> integer_loop 0 (floats.of_nat 0)
    finish_number is_negative whole
