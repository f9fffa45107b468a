-- ===== src/CommandLine/Values.antt =====
-- src/command_line_parser.cpp: the ways of giving a value to an argument.
use stdromano.Prelude.{
  ℕ, ◌==◌, ◌≡◌, refl, ap, ◌∙◌, Bool, true, false, ◌||◌, List, [], ◌∷◌, ◌++◌, Option, none, some,
}
use stdromano.CommandLine.Parser.{
  Text, lookup, CommandLineParser, CommandLineArg, store, skip_dashes, split_key, inline_value,
  round, parse_words, parse, put, assign, next, next_two,
}

-- a byte that ends a key
abbrev pub is_separator : ℕ → Bool
is_separator c = c == b':' || c == b'='

-- no byte of the text ends a key
abbrev pub IsKey : Text → Type 0
IsKey [] = Unit
IsKey (c ∷ cs) = (is_separator c ≡ false) × IsKey cs

split_key-key : (key : Text) → IsKey key → split_key key ≡ (key, none)
unfolding split_key
split_key-key [] h = refl
split_key-key (c ∷ cs) h = rw (split_key-key cs h.1, h.0) refl

split_key-append :
    (key : Text) (sep : ℕ) (value : Text)
    → IsKey key
    → is_separator sep ≡ true
    → split_key (key ++ (sep ∷ value)) ≡ (key, some value)
unfolding split_key
split_key-append [] sep value h k = rw k refl
split_key-append (c ∷ cs) sep value h k = rw (split_key-append cs sep value h.1 k, h.0) refl

-- the text that starts with a byte and is a value without quotes
abbrev pub is_quote : ℕ → Bool
is_quote c = c == b'"' || c == b'\''

module _ (p : CommandLineParser) (a : ℕ) (name : Text) (arg : CommandLineArg)
    (dash : (a == b'-') ≡ false) (key : IsKey (a ∷ name))
    (declared : lookup p.args (a ∷ name) ≡ some arg) (stores : arg.mode ≡ store) where
  skip_dashes-key : (rest : Text) → skip_dashes (b'-' ∷ b'-' ∷ a ∷ rest) ≡ a ∷ rest
  unfolding skip_dashes
  skip_dashes-key rest = rw (dash, skip_dashes) refl

  round-inline :
      (following : Option Text) (sep b : ℕ) (value : Text)
      → is_separator sep ≡ true
      → is_quote b ≡ false
      → round (b'-' ∷ b'-' ∷ a ∷ (name ++ (sep ∷ b ∷ value))) following p
        ≡ next (put p (a ∷ name) (b ∷ value))
  unfolding round assign inline_value
  round-inline following sep b value separates plain =
      let e =
        ap split_key (skip_dashes-key (name ++ (sep ∷ b ∷ value)))
        ∙ split_key-append (a ∷ name) sep (b ∷ value) key separates in
      ap (λ kv. assign kv.0 kv.1 following p) e
      ∙ rw (declared, stores, assign) (rw (plain, inline_value) refl)

  round-spaced :
      (value : Text)
      → round (b'-' ∷ b'-' ∷ a ∷ name) (some value) p ≡ next_two (put p (a ∷ name) value)
  unfolding round assign
  round-spaced value =
      let e = ap split_key (skip_dashes-key name) ∙ split_key-key (a ∷ name) key in
      ap (λ kv. assign kv.0 kv.1 (some value) p) e ∙ rw (declared, stores, assign) refl

-- A value without quotes that stands behind `=` or `:` in the word of an argument is stored as the
-- value is that stands in the next word, for a declared argument that stores its value, whose name
-- does not start with a dash and has no `:` and no `=`.
pub parse-inline_value :
    (p : CommandLineParser) (a : ℕ) (name : Text) (sep b : ℕ) (value : Text) (ws : List Text)
    {arg : CommandLineArg}
    → (a == b'-') ≡ false
    → IsKey (a ∷ name)
    → is_separator sep ≡ true
    → is_quote b ≡ false
    → lookup p.args (a ∷ name) ≡ some arg
    → arg.mode ≡ store
    → parse ((b'-' ∷ b'-' ∷ a ∷ (name ++ (sep ∷ b ∷ value))) ∷ ws) p
      ≡ parse ((b'-' ∷ b'-' ∷ a ∷ name) ∷ (b ∷ value) ∷ ws) p
unfolding parse parse_words
parse-inline_value p a name sep b value [] {arg} dash key separates plain declared stores =
    rw
      (
        round-inline p a name arg dash key declared stores none sep b value separates plain,
        round-spaced p a name arg dash key declared stores (b ∷ value),
        parse,
        parse_words,
      )
      refl
parse-inline_value p a name sep b value (w ∷ ws) {arg} dash key separates plain declared stores =
    rw
      (
        round-inline p a name arg dash key declared stores (some w) sep b value separates plain,
        round-spaced p a name arg dash key declared stores (b ∷ value),
        parse,
        parse_words,
      )
      refl
