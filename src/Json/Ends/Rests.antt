-- ===== src/Json/Ends/Rests.antt =====
-- src/json.cpp: what a parser leaves of its input, and what the parsers of strings and exponents leave.
use stdromano.Prelude.{
  ℕ, zero, suc, ◌+◌, ◌-◌, ◌*◌, ◌%◌, ◌^◌, ◌==◌, ◌≤◌, ◌<◌, ◌≢◌, Bool, true, false, ltb, leb,
  if◌then◌else◌, ◌&&◌, [], ◌∷◌, length, arith,
}
use stdromano.Json.Value.{Bytes}
use stdromano.Json.Parser.{
  Parsed, Parser, ok, failed, undefined, out_of_fuel, bind, skip_whitespace, skip, expect, scan,
  Scanned, push, parse_string, need_digit, optional, exponent_loop, parse_exponent, fraction_loop,
  skip_digits, pure, ◌>>=◌, exponent_tail, max_int, is_digit, next_round,
}

-- a run that keeps within its fuel, and leaves a rest of a bounded length if it reads something
pub data Leaves {A : Type 0} (k : ℕ) : Parsed A → Type 0 where
  left : {a : A} {rest : Bytes} → length rest ≤ k → Leaves k (ok a rest)
  gave_up : Leaves k failed
  left_open : Leaves k undefined

module _ {A : Type 0} where
  pub Leaves-if :
      {k : ℕ} (b : Bool) {x y : Parsed A} → Leaves k x → Leaves k y → Leaves k (if b then x else y)
  Leaves-if true h g = h
  Leaves-if false h g = g

  pub Leaves-le : {k j : ℕ} {r : Parsed A} → Leaves k r → k ≤ j → Leaves j r
  Leaves-le (left h) g = left (omega arith)
  Leaves-le gave_up g = gave_up
  Leaves-le left_open g = left_open

  pub Leaves-out_of_fuel : {k : ℕ} {r : Parsed A} → Leaves k r → r ≢ out_of_fuel
  Leaves-out_of_fuel (left h) = cc
  Leaves-out_of_fuel gave_up = cc
  Leaves-out_of_fuel left_open = cc

  -- what does not lengthen its input, and what shortens it
  abbrev pub Keeps : Parser A → Type 0
  Keeps p = (k : ℕ) (input : Bytes) → length input ≤ k → Leaves k (p input)

  abbrev pub Takes : Parser A → Type 0
  Takes p = (k : ℕ) (input : Bytes) → length input ≤ suc k → Leaves k (p input)

  -- the same below a length
  abbrev pub TakesBelow : ℕ → Parser A → Type 0
  TakesBelow m p = (k : ℕ) (input : Bytes) → length input ≤ suc k → k < m → Leaves k (p input)

module _ {A B : Type 0} where
  pub Leaves-bind :
      {k j : ℕ} {r : Parsed A} (f : A → Parser B)
      → Leaves k r
      → ((a : A) (rest : Bytes) → length rest ≤ k → Leaves j (f a rest))
      → Leaves j (bind r f)
  Leaves-bind f (left {a} {rest} h) g = g a rest h
  Leaves-bind f gave_up g = gave_up
  Leaves-bind f left_open g = left_open

  pub Leaves-map :
      {k : ℕ} {r : Parsed A} (f : A → B) → Leaves k r → Leaves k (bind r (λ a. pure (f a)))
  Leaves-map f (left h) = left h
  Leaves-map f gave_up = gave_up
  Leaves-map f left_open = left_open

pub length-skip_whitespace : (input : Bytes) → length (skip_whitespace input) ≤ length input
unfolding skip_whitespace
length-skip_whitespace [] = omega arith
length-skip_whitespace (c ∷ cs) = ground (arith, length-skip_whitespace cs)

pub length-skip_digits : (input : Bytes) → length (skip_digits input) ≤ length input
unfolding skip_digits
length-skip_digits [] = omega arith
length-skip_digits (c ∷ cs) = ground (arith, length-skip_digits cs)

pub skip_digits-Keeps : Keeps (λ input. ok tt (skip_digits input))
skip_digits-Keeps k input h = left (omega (arith, length-skip_digits input))

pub skip-Keeps : Keeps skip
skip-Keeps k input h = left (omega (arith, length-skip_whitespace input))

pub expect-Takes : (b : ℕ) → Takes (expect b)
expect-Takes b k [] h = gave_up
expect-Takes b k (c ∷ cs) h = Leaves-if (c == b) (left (omega arith)) gave_up

pub need_digit-Keeps : Keeps need_digit
need_digit-Keeps k [] h = gave_up
need_digit-Keeps k (c ∷ cs) h = Leaves-if (is_digit c) (left h) gave_up

pub optional-Keeps : (test : ℕ → Bool) → Keeps (optional test)
optional-Keeps test k [] h = left (omega arith)
optional-Keeps test k (c ∷ cs) h = Leaves-if (test c) (left (omega arith)) (left h)

pub push-Keeps :
    (k : ℕ) (chunk : Bytes) (n : ℕ) (b : Bool) {r : Parsed Scanned}
    → Leaves k r
    → Leaves k (push chunk n b r)
push-Keeps k chunk n b h = Leaves-bind _ h (λ s rest g. left g)

pub scan-Keeps : (n : ℕ) → Keeps (scan n)
unfolding scan
scan-Keeps zero k [] h = gave_up
scan-Keeps (suc n) k [] h = gave_up
scan-Keeps (suc n) k (c ∷ cs) h = push-Keeps k (c ∷ []) 0 false (scan-Keeps n k cs (omega arith))
scan-Keeps zero k (c ∷ []) h = Leaves-if (c == b'"') (left h) gave_up
scan-Keeps zero k (c ∷ d ∷ ds) h = Leaves-if (c == b'"') (left h) (
    Leaves-if (c == b'\\')
      (Leaves-if (d == b'u') (push-Keeps k (c ∷ d ∷ []) 1 true (scan-Keeps 4 k ds (omega arith)))
        (push-Keeps k (c ∷ d ∷ []) 1 true (scan-Keeps 0 k ds (omega arith))))
      (Leaves-if (ltb c 32) gave_up
        (push-Keeps k (c ∷ []) 1 false (scan-Keeps 0 k (d ∷ ds) (omega arith)))))

pub parse_string-Takes : Takes parse_string
unfolding parse_string
parse_string-Takes k input h = Leaves-bind _ (expect-Takes b'"' k input h) (λ u rest h.
    Leaves-bind _ (scan-Keeps 0 k rest h)
      (λ s rest h. Leaves-bind _ (expect-Takes b'"' k rest (omega arith)) (λ u rest h. left h)))

pub exponent_loop-Keeps : (e : ℕ) → Keeps (exponent_loop e)
unfolding exponent_loop
exponent_loop-Keeps e k [] h = left h
exponent_loop-Keeps e k (c ∷ cs) h =
    Leaves-if (is_digit c)
      (Leaves-if (leb (e * 10 + (c - 48)) max_int)
        (exponent_loop-Keeps (e * 10 + (c - 48)) k cs (omega arith)) left_open)
      (left h)

pub fraction_loop-Keeps : (d n : ℕ) → Keeps (fraction_loop d n)
unfolding fraction_loop
fraction_loop-Keeps d n k [] h = left h
fraction_loop-Keeps d n k (c ∷ cs) h =
    Leaves-if (is_digit c && ltb d 20)
      (fraction_loop-Keeps (d + 1) ((n * 10 + (c - 48)) % 2 ^ 64) k cs (omega arith)) (left h)

module _ {A : Type 0} where
  pub pure-Keeps : (a : A) → Keeps (pure a)
  pure-Keeps a k input h = left h

  pub Keeps-if : (b : Bool) {p q : Parser A} → Keeps p → Keeps q → Keeps (if b then p else q)
  Keeps-if true h g = h
  Keeps-if false h g = g

module _ {A B : Type 0} {p : Parser A} {f : A → Parser B} where
  pub Keeps-bind : Keeps p → ((a : A) → Keeps (f a)) → Keeps (p >>= f)
  Keeps-bind h g k input e = Leaves-bind f (h k input e) (λ a rest e. g a k rest e)

  pub Takes-bind : Takes p → ((a : A) → Keeps (f a)) → Takes (p >>= f)
  Takes-bind h g k input e = Leaves-bind f (h k input e) (λ a rest e. g a k rest e)

pub exponent_tail-Keeps : Keeps exponent_tail
unfolding exponent_tail
exponent_tail-Keeps = Keeps-bind (optional-Keeps _) (λ negative.
    Keeps-bind (Keeps-if negative (pure-Keeps false) (optional-Keeps _)) (λ plus.
      Keeps-bind need_digit-Keeps (λ u. Keeps-bind (exponent_loop-Keeps 0) (λ e. pure-Keeps _))))

pub parse_exponent-Keeps : Keeps parse_exponent
unfolding parse_exponent
parse_exponent-Keeps =
    Keeps-bind (optional-Keeps _) (λ found. Keeps-if found exponent_tail-Keeps (pure-Keeps _))

pub next_round-Leaves :
    {A : Type 0} (close : ℕ) (more : Parser A) (last : A) (k : ℕ) (input : Bytes)
    → length input ≤ k
    → ((ds : Bytes) → length ds ≤ k → Leaves k (more ds))
    → Leaves (suc k) (next_round close more last input)
unfolding next_round
next_round-Leaves close more last k [] h g = gave_up
next_round-Leaves close more last k (d ∷ ds) h g =
    Leaves-if (d == b',')
      (Leaves-le (g (skip_whitespace ds) (omega (arith, length-skip_whitespace ds))) (omega arith))
      (Leaves-if (d == close) (left (omega arith)) gave_up)
