-- ===== src/Json/Ends.antt =====
-- src/json.cpp: the fuel of `loads` and what the parsers of values leave of their input.
mod Rests
use stdromano.Prelude.{
  ℕ, zero, suc, ◌+◌, ◌-◌, ◌*◌, ◌%◌, ◌^◌, ◌==◌, ◌≤◌, ◌<◌, ◌≢◌, Bool, true, false, ltb, leb,
  if◌then◌else◌, ◌&&◌, ◌||◌, [], ◌∷◌, length, arith, Bool-cases, inl, inr, length-drop,
}
use stdromano.Json.Value.{
  Bytes, Value, Floats, item, member, no_items, no_members, array, dict, str,
}
use stdromano.Json.Parser.{
  Parsed, Parser, ok, failed, undefined, out_of_fuel, bind, skip_whitespace, skip, expect, scan,
  Scanned, push, parse_string, need_digit, optional, exponent_loop, parse_exponent, fraction_loop,
  skip_digits, integer_loop, parse_fraction, scale, parse_number, finish_number, array_loop,
  parse_array, parse_member, dict_loop, parse_dict, pure, ◌>>=◌, exponent_tail, fraction_tail,
  float_digit, add_fraction, parse_literal, max_i64, max_int, dispatch, parse_value, loads,
  is_digit, is_prefix, next_round, c_str, array_items, dict_members,
}
use stdromano.Json.Ends.Rests.{
  Leaves, Leaves-if, Leaves-le, Leaves-out_of_fuel, Keeps, Takes, TakesBelow, Leaves-bind,
  Leaves-map, length-skip_whitespace, length-skip_digits, skip_digits-Keeps, skip-Keeps,
  expect-Takes, need_digit-Keeps, optional-Keeps, push-Keeps, scan-Keeps, parse_string-Takes,
  exponent_loop-Keeps, fraction_loop-Keeps, pure-Keeps, Keeps-if, Keeps-bind, Takes-bind,
  exponent_tail-Keeps, parse_exponent-Keeps, next_round-Leaves, left, gave_up, left_open,
}

module _ {F : Type 0} (floats : Floats F) where
  integer_loop-Keeps : (n : ℕ) (x : F) → Keeps (integer_loop floats n x)
  unfolding integer_loop
  integer_loop-Keeps n x k [] h = left h
  integer_loop-Keeps n x k (c ∷ cs) h =
      Leaves-if (is_digit c)
        (Leaves-if (leb (n * 10 + (c - 48)) max_i64)
          (integer_loop-Keeps (n * 10 + (c - 48)) (float_digit floats x (c - 48)) k cs
            (omega arith))
          left_open)
        (left h)

  -- a digit that is there is read
  integer-Takes : Takes (need_digit >>= λ u. integer_loop floats 0 (floats.of_nat 0))
  unfolding integer_loop
  integer-Takes k [] h = gave_up
  integer-Takes k (c ∷ cs) h = elim (Bool-cases (is_digit c)) [
    | inl here ↦ rw here (
        rw (here, integer_loop)
          (Leaves-if (leb (0 * 10 + (c - 48)) max_i64)
            (integer_loop-Keeps (0 * 10 + (c - 48)) (float_digit floats (floats.of_nat 0) (c - 48))
              k cs (omega arith))
            left_open))
    | inr other ↦ rw other gave_up
  ]

  fraction_tail-Keeps : (x : F) → Keeps (fraction_tail floats x)
  unfolding fraction_tail
  fraction_tail-Keeps x = Keeps-bind need_digit-Keeps (λ u.
      Keeps-bind (fraction_loop-Keeps 0 0)
        (λ frac. Keeps-bind skip_digits-Keeps (λ u. pure-Keeps (true, add_fraction floats x frac))))

  parse_fraction-Keeps : (x : F) → Keeps (parse_fraction floats x)
  unfolding parse_fraction
  parse_fraction-Keeps x =
      Keeps-bind (optional-Keeps _) (λ found. Keeps-if found (fraction_tail-Keeps x) (pure-Keeps _))

  scale-Keeps : (b : Bool) (e : ℕ) (x : F) → Keeps (scale floats b e x)
  unfolding scale
  scale-Keeps b e x =
      Keeps-if (b && ltb 0 e)
        (Keeps-if (leb e 22) (pure-Keeps _)
          (Keeps-if (e == 23) (λ k input h. left_open) (pure-Keeps _)))
        (Keeps-if (ltb e 23) (pure-Keeps _) (pure-Keeps _))

  finish_number-Keeps :
      (negative : Bool) (whole : ℕ × F) → Keeps (finish_number floats negative whole)
  unfolding finish_number
  finish_number-Keeps negative whole = Keeps-bind (parse_fraction-Keeps whole.1) (λ frac.
      Keeps-bind parse_exponent-Keeps (λ exponent.
        Keeps-if (frac.0 || exponent.0)
          (Keeps-bind (scale-Keeps exponent.1.0 exponent.1.1 frac.1) (λ x. pure-Keeps _))
          (pure-Keeps _)))

  parse_number-Takes : Takes (parse_number floats)
  unfolding parse_number
  parse_number-Takes k input h =
      Leaves-bind _ (optional-Keeps (λ c. c == b'-') (suc k) input h) (λ negative rest h.
        Leaves-bind _ (integer-Takes k rest h)
          (λ whole rest h. finish_number-Keeps negative whole k rest h))

  parse_literal-Takes : Takes (parse_literal floats)
  unfolding parse_literal
  parse_literal-Takes k input h =
      Leaves-if (is_prefix (b'n' ∷ b'u' ∷ b'l' ∷ b'l' ∷ []) input)
        (left (omega (arith, length-drop 4 input)))
        (Leaves-if (is_prefix (b't' ∷ b'r' ∷ b'u' ∷ b'e' ∷ []) input)
          (left (omega (arith, length-drop 4 input)))
          (Leaves-if (is_prefix (b'f' ∷ b'a' ∷ b'l' ∷ b's' ∷ b'e' ∷ []) input)
            (left (omega (arith, length-drop 5 input))) gave_up))

  module _ (m : ℕ) (value : Parser (Value F)) (sound : TakesBelow m value) where
    array_loop-Leaves :
        (n k : ℕ) (input : Bytes)
        → length input ≤ k
        → k < n
        → k ≤ m
        → Leaves k (array_loop floats value n input)
    unfolding array_loop
    array_loop-Leaves zero k input h g e = absurd (omega arith)
    array_loop-Leaves (suc n) k [] h g e = gave_up
    array_loop-Leaves (suc n) zero (c ∷ cs) h g e = absurd (omega arith)
    array_loop-Leaves (suc n) (suc k) (c ∷ cs) h g e =
        Leaves-bind _ (sound k (c ∷ cs) h (omega arith)) (λ v rest h.
          next_round-Leaves b']'
            (λ ds. bind (array_loop floats value n ds) (λ vs. pure (item v vs))) (item v no_items) k
            (skip_whitespace rest) (omega (arith, length-skip_whitespace rest))
            (λ ds h. Leaves-map (item v) (array_loop-Leaves n k ds h (omega arith) (omega arith))))

    parse_array-Takes : TakesBelow (suc m) (parse_array floats value)
    unfolding parse_array array_items
    parse_array-Takes k input h e = Leaves-bind _ (expect-Takes b'[' k input h) (λ u rest h.
        Leaves-bind _ (skip-Keeps k rest h) (λ u rest h.
          Leaves-bind _ (optional-Keeps (λ c. c == b']') k rest h)
            (λ empty rest h. items k rest h e empty)))
      where
        items :
            (k : ℕ) (input : Bytes)
            → length input ≤ k
            → k < suc m
            → (empty : Bool)
            → Leaves k (
                (if empty then pure (array no_items) else (λ input.
                    bind
                      (array_loop floats value (length input + 1) input)
                      (λ vs. pure (array vs))))
                  input)
        items k input h e true = left h
        items k input h e false =
            Leaves-le
              (Leaves-map array (
                array_loop-Leaves (length input + 1) (length input) input (omega arith)
                  (omega arith) (omega arith)))
              h

    parse_member-Takes : TakesBelow m (parse_member floats value)
    unfolding parse_member
    parse_member-Takes k input h e = Leaves-bind _ (skip-Keeps (suc k) input h) (λ u rest h.
        Leaves-bind _ (parse_string-Takes k rest h) (λ key rest h.
          Leaves-bind _ (skip-Keeps k rest h) (λ u rest h.
            Leaves-bind _ (expect-Takes b':' k rest (omega arith)) (λ u rest h.
              Leaves-bind _ (skip-Keeps k rest h) (λ u rest h.
                Leaves-bind _ (sound k rest (omega arith) e) (λ v rest h.
                  Leaves-bind _ (skip-Keeps k rest h)
                    (λ u rest h. left {a = (c_str key, v)} h)))))))

    dict_loop-Leaves :
        (n k : ℕ) (input : Bytes)
        → length input ≤ k
        → k < n
        → k ≤ m
        → Leaves k (dict_loop floats value n input)
    unfolding dict_loop
    dict_loop-Leaves zero k input h g e = absurd (omega arith)
    dict_loop-Leaves (suc n) k [] h g e = gave_up
    dict_loop-Leaves (suc n) zero (c ∷ cs) h g e = absurd (omega arith)
    dict_loop-Leaves (suc n) (suc k) (c ∷ cs) h g e =
        Leaves-bind _ (parse_member-Takes k (c ∷ cs) h (omega arith)) (λ kv rest h.
          next_round-Leaves b'}'
            (λ ds. bind (dict_loop floats value n ds) (λ ms. pure (member kv.0 kv.1 ms)))
            (member kv.0 kv.1 no_members) k rest h
            (λ ds h.
              Leaves-map (member kv.0 kv.1)
                (dict_loop-Leaves n k ds h (omega arith) (omega arith))))

    parse_dict-Takes : TakesBelow (suc m) (parse_dict floats value)
    unfolding parse_dict dict_members
    parse_dict-Takes k input h e = Leaves-bind _ (expect-Takes b'{' k input h) (λ u rest h.
        Leaves-bind _ (skip-Keeps k rest h) (λ u rest h.
          Leaves-bind _ (optional-Keeps (λ c. c == b'}') k rest h)
            (λ empty rest h. members k rest h e empty)))
      where
        members :
            (k : ℕ) (input : Bytes)
            → length input ≤ k
            → k < suc m
            → (empty : Bool)
            → Leaves k (
                (if empty then pure (dict no_members) else (λ input.
                    bind (dict_loop floats value (length input + 1) input) (λ ms. pure (dict ms))))
                  input)
        members k input h e true = left h
        members k input h e false =
            Leaves-le
              (Leaves-map dict (
                dict_loop-Leaves (length input + 1) (length input) input (omega arith) (omega arith)
                  (omega arith)))
              h

    dispatch-Takes : TakesBelow (suc m) (dispatch floats value)
    unfolding dispatch
    dispatch-Takes k [] h e = gave_up
    dispatch-Takes k (c ∷ cs) h e =
        Leaves-if (c == b'"') (Leaves-map str (parse_string-Takes k (c ∷ cs) h)) (
          Leaves-if (c == b'{') (parse_dict-Takes k (c ∷ cs) h e) (
            Leaves-if (c == b'[') (parse_array-Takes k (c ∷ cs) h e) (
              Leaves-if (c == b'-' || is_digit c) (parse_number-Takes k (c ∷ cs) h) (
                Leaves-if (c == b't' || c == b'f' || c == b'n') (parse_literal-Takes k (c ∷ cs) h)
                  gave_up))))

  parse_value-Takes : (n : ℕ) → TakesBelow n (parse_value floats n)
  unfolding parse_value
  parse_value-Takes zero k input h e = absurd (omega arith)
  parse_value-Takes (suc n) k input h e =
      dispatch-Takes n (parse_value floats n) (parse_value-Takes n) k (skip_whitespace input)
        (omega (arith, length-skip_whitespace input)) e

  -- `loads` has enough fuel for every text: it reads a value, gives up, or does what the language
  -- leaves open.
  pub loads-total : (input : Bytes) → loads floats input ≢ out_of_fuel
  unfolding loads
  loads-total [] = cc
  loads-total (c ∷ cs) = Leaves-out_of_fuel {k = length cs} (
      Leaves-bind _
        (parse_value-Takes (length cs + 2) (length cs) (c ∷ cs) (omega arith) (omega arith))
        (λ v rest h. whole v (skip_whitespace rest)))
    where
      whole :
          (v : Value F) (rest : Bytes)
          → Leaves (length cs) (elim rest [ [] ↦ ok v [] | _ ∷ _ ↦ failed ])
      whole v [] = left (omega arith)
      whole v (d ∷ ds) = gave_up
