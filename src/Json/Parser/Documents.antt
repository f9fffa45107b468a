-- ===== src/Json/Parser/Documents.antt =====
-- src/json.cpp: arrays, dicts and values, and `loads`.
use stdromano.Prelude.{
  ℕ, zero, suc, ◌+◌, ◌==◌, Bool, true, false, if◌then◌else◌, ◌&&◌, ◌||◌, [], ◌∷◌, length, drop,
}
use stdromano.Json.Value.{
  Bytes, Value, Items, Members, null, bool, str, array, dict, no_items, item, no_members, member,
  Floats,
}
use stdromano.Json.Parser.Text.{
  Parsed, Parser, bind, ◌>>=◌, ◌>>◌, pure, skip_whitespace, skip, expect, parse_string, c_str, ok,
  failed, out_of_fuel,
}
use stdromano.Json.Parser.Numbers.{is_digit, optional, parse_number}

-- behind an element: a comma and the next round, or the closing byte
unfoldable pub next_round : {A : Type 0} → ℕ → Parser A → A → Parser A
unfolding skip_whitespace
next_round close more last [] = failed
next_round close more last (d ∷ ds) =
    if d == b',' then more (skip_whitespace ds) else if d == close then ok last ds else failed

abbrev pub is_prefix : Bytes → Bytes → Bool
is_prefix [] bs = true
is_prefix (a ∷ cs) [] = false
is_prefix (a ∷ cs) (b ∷ bs) = (a == b) && is_prefix cs bs

module _ {F : Type 0} (floats : Floats F) where
  -- The loop of `parse_array` behind the bracket, for a number of rounds. The elements that are
  -- read go to the array in order.
  unfoldable pub array_loop : Parser (Value F) → ℕ → Parser (Items F)
  unfolding skip_whitespace next_round
  array_loop value zero input = out_of_fuel
  array_loop value (suc n) [] = failed
  array_loop value (suc n) (c ∷ cs) = bind (value (c ∷ cs)) (λ v rest.
      next_round b']' (λ ds. bind (array_loop value n ds) (λ vs. pure (item v vs)))
        (item v no_items) (skip_whitespace rest))

  -- what stands behind the opening byte and space
  unfoldable pub array_items : Parser (Value F) → Parser (Value F)
  unfolding array_loop
  array_items value = do
    empty ← optional (λ c. c == b']')
    if empty
        then pure (array no_items)
        else (λ input. bind (array_loop value (length input + 1) input) (λ vs. pure (array vs)))

  unfoldable pub parse_array : Parser (Value F) → Parser (Value F)
  unfolding array_items skip_whitespace
  parse_array value = do expect b'['; skip; array_items value

  -- one member of a dict: a key, a colon, a value
  unfoldable pub parse_member : Parser (Value F) → Parser (Bytes × Value F)
  unfolding parse_string c_str
  parse_member value = do
    skip
    key ← parse_string
    skip
    expect b':'
    skip
    v ← value
    skip
    pure (c_str key, v)

  -- the loop of `parse_dict` behind the brace, for a number of rounds
  unfoldable pub dict_loop : Parser (Value F) → ℕ → Parser (Members F)
  unfolding skip_whitespace parse_member next_round
  dict_loop value zero input = out_of_fuel
  dict_loop value (suc n) [] = failed
  dict_loop value (suc n) (c ∷ cs) = bind (parse_member value (c ∷ cs)) (λ kv rest.
      next_round b'}' (λ ds. bind (dict_loop value n ds) (λ ms. pure (member kv.0 kv.1 ms)))
        (member kv.0 kv.1 no_members) rest)

  -- what stands behind the opening byte and space
  unfoldable pub dict_members : Parser (Value F) → Parser (Value F)
  unfolding dict_loop
  dict_members value = do
    empty ← optional (λ c. c == b'}')
    if empty
        then pure (dict no_members)
        else (λ input. bind (dict_loop value (length input + 1) input) (λ ms. pure (dict ms)))

  unfoldable pub parse_dict : Parser (Value F) → Parser (Value F)
  unfolding dict_members skip_whitespace
  parse_dict value = do expect b'{'; skip; dict_members value

  unfoldable pub parse_literal : Parser (Value F)
  parse_literal input =
      if is_prefix (b'n' ∷ b'u' ∷ b'l' ∷ b'l' ∷ []) input
      then ok null (drop 4 input)
      else if is_prefix (b't' ∷ b'r' ∷ b'u' ∷ b'e' ∷ []) input
      then ok (bool true) (drop 4 input)
      else if is_prefix (b'f' ∷ b'a' ∷ b'l' ∷ b's' ∷ b'e' ∷ []) input
      then ok (bool false) (drop 5 input)
      else failed

  -- `parse_value`, with the calls of itself as a parameter
  unfoldable pub dispatch : Parser (Value F) → Parser (Value F)
  unfolding parse_string parse_dict parse_array parse_number parse_literal
  dispatch value [] = failed
  dispatch value (c ∷ cs) =
      if c == b'"'
      then bind (parse_string (c ∷ cs)) (λ s. pure (str s))
      else if c == b'{'
      then parse_dict value (c ∷ cs)
      else if c == b'['
      then parse_array value (c ∷ cs)
      else if c == b'-' || is_digit c
      then parse_number floats (c ∷ cs)
      else if c == b't' || c == b'f' || c == b'n'
      then parse_literal (c ∷ cs)
      else failed

  -- the depth of the calls is bounded by the first argument
  unfoldable pub parse_value : ℕ → Parser (Value F)
  unfolding dispatch skip_whitespace
  parse_value zero input = out_of_fuel
  parse_value (suc n) input = dispatch (parse_value n) (skip_whitespace input)

  -- `loads`: the new root, if the text is a value with nothing behind it
  unfoldable pub loads : Bytes → Parsed (Value F)
  unfolding parse_value skip_whitespace
  loads [] = failed
  loads (c ∷ cs) =
      bind (parse_value (length cs + 2) (c ∷ cs))
        (λ root rest. elim (skip_whitespace rest) [ [] ↦ ok root [] | _ ∷ _ ↦ failed ])
