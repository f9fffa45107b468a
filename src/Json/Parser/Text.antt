-- ===== src/Json/Parser/Text.antt =====
-- src/json.cpp: parsers, and those of `JsonParser_` for space and strings.
use stdromano.Prelude.{
  ℕ, zero, suc, ◌+◌, ◌==◌, Bool, true, false, ltb, leb, if◌then◌else◌, ◌&&◌, ◌||◌, [], ◌∷◌, ◌++◌,
  take,
}
use stdromano.Json.Value.{Bytes}

-- `failed` is `nullptr`. `undefined` is behaviour that the language leaves open: an overflow of a
-- signed integer or a read behind a table.
pub data Parsed (A : Type 0) : Type 0 where
  ok : A → Bytes → Parsed A
  failed undefined out_of_fuel : Parsed A

abbrev pub Parser : Type 0 → Type 0
Parser A = Bytes → Parsed A

module _ {A B : Type 0} where
  abbrev pub bind : Parsed A → (A → Parser B) → Parsed B
  bind (ok a rest) f = f a rest
  bind failed f = failed
  bind undefined f = undefined
  bind out_of_fuel f = out_of_fuel

  infixl 1 ◌>>=◌ ◌>>◌
  abbrev pub ◌>>=◌ : Parser A → (A → Parser B) → Parser B
  p >>= f = λ input. bind (p input) f

  abbrev pub ◌>>◌ : Parser A → Parser B → Parser B
  p >> q = p >>= λ _. q

abbrev pub pure : {A : Type 0} → A → Parser A
pure a input = ok a input

abbrev pub is_space : ℕ → Bool
is_space c = (leb 9 c && leb c 13) || c == 32

unfoldable pub skip_whitespace : Bytes → Bytes
skip_whitespace [] = []
skip_whitespace (c ∷ cs) = let rest = skip_whitespace cs in if is_space c then rest else c ∷ cs

abbrev pub skip : Parser (Unit {0})
skip input = ok tt (skip_whitespace input)

-- a byte that must stand at the position, which the parser passes
abbrev pub expect : ℕ → Parser (Unit {0})
expect b [] = failed
expect b (c ∷ cs) = if c == b then ok tt cs else failed

-- what the first loop of `parse_string` has passed: the bytes, and the values of two variables
pub record Scanned : Type 0 where
  pub raw : Bytes
  pub slen : ℕ
  pub has_escape : Bool

abbrev pub push : Bytes → ℕ → Bool → Parsed Scanned → Parsed Scanned
push chunk counts escape r = bind r (λ s.
    pure (record {
      raw = chunk ++ s.raw;
      slen = counts + s.slen;
      has_escape = escape || s.has_escape;
    }))

-- The loop; the first argument is how many bytes a `\u` still passes unseen.
unfoldable pub scan : ℕ → Parser Scanned
scan zero [] = failed
scan (suc k) [] = failed
scan (suc k) (c ∷ cs) = push (c ∷ []) 0 false (scan k cs)
scan zero (c ∷ []) =
    if c == b'"' then ok (record { raw = []; slen = 0; has_escape = false }) (c ∷ []) else failed
scan zero (c ∷ d ∷ ds) =
    let code_point = push (c ∷ d ∷ []) 1 true (scan 4 ds) in
    let escaped = push (c ∷ d ∷ []) 1 true (scan 0 ds) in
    let plain = push (c ∷ []) 1 false (scan 0 (d ∷ ds)) in
    if c == b'"'
    then ok (record { raw = []; slen = 0; has_escape = false }) (c ∷ d ∷ ds)
    else if c == b'\\'
    then if d == b'u' then code_point else escaped
    else if ltb c 32
    then failed
    else plain

-- the `switch` over the byte behind a backslash
abbrev pub unescape : ℕ → ℕ
unescape d =
    if d == b'b'
    then 8
    else if d == b'f'
    then 12
    else if d == b'n'
    then 10
    else if d == b'r'
    then 13
    else if d == b't'
    then 9
    else d

-- The second loop, over the bytes that the first one has passed. A backslash is never the last of
-- them; the byte behind would be the closing quote.
unfoldable pub decode : ℕ → Bytes → Bytes
decode zero [] = []
decode (suc k) [] = []
decode (suc k) (c ∷ cs) = decode k cs
decode zero (c ∷ []) = if c == b'\\' then b'"' ∷ [] else c ∷ []
decode zero (c ∷ d ∷ ds) =
    let code_point = b'?' ∷ decode 4 ds in
    let escaped = unescape d ∷ decode 0 ds in
    let plain = c ∷ decode 0 (d ∷ ds) in
    if c == b'\\' then if d == b'u' then code_point else escaped else plain

unfoldable pub parse_string : Parser Bytes
unfolding scan decode
parse_string = do
  expect b'"'
  s ← scan 0
  expect b'"'
  pure (if s.has_escape then decode 0 s.raw else take s.slen s.raw)

-- the bytes of a text up to the first zero, which is where a C string ends
unfoldable pub c_str : Bytes → Bytes
c_str [] = []
c_str (c ∷ cs) = let rest = c_str cs in if c == 0 then [] else c ∷ rest
