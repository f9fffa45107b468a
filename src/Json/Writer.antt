-- ===== src/Json/Writer.antt =====
-- src/json.cpp: `JsonWriter_` and `dumps`. A function gives the text that it appends. An object
-- without a type, which is not written, is no value.
use stdromano.Prelude.{ℕ, ◌+◌, ◌==◌, Bool, true, false, ltb, if◌then◌else◌, ◌||◌, [], ◌∷◌, ◌++◌}
use stdromano.Json.Value.{
  Bytes, Value, Items, Members, null, bool, u64, i64, f64, str, array, dict, no_items, item,
  no_members, member, Format,
}

abbrev pub char_needs_escape : ℕ → Bool
char_needs_escape c = c == b'"' || c == b'\\' || c == 8 || c == 12 || c == 10 || c == 13 || c == 9

abbrev pub escape_char : ℕ → ℕ
escape_char c =
    if c == 8
    then b'b'
    else if c == 12
    then b'f'
    else if c == 10
    then b'n'
    else if c == 13
    then b'r'
    else if c == 9
    then b't'
    else c

-- the loop, with the segment that is not appended yet
unfoldable pub write_segments : Bytes → Bytes → Bytes
write_segments segment [] = segment
write_segments segment (c ∷ cs) = elim (c == 0) [
  | true ↦ segment
  | false ↦ elim (char_needs_escape c) [
    | true ↦ segment ++ (b'\\' ∷ escape_char c ∷ write_segments [] cs)
    | false ↦ write_segments (segment ++ (c ∷ [])) cs
  ]
]

unfoldable pub write_str : Bytes → Bytes
unfolding write_segments
write_str s = b'"' ∷ (write_segments [] s ++ (b'"' ∷ []))

module _ {F : Type 0} (format : Format F) (indent_size : ℕ) where
  -- a new line and the indent, if there is one
  unfoldable pub newline : ℕ → Bytes
  newline indent = if ltb 0 indent_size then 10 ∷ format.pad indent else []

  abbrev pub comma : Bool → Bytes
  comma first = if first then [] else b',' ∷ []

  unfoldable mutual
    unfolding write_str newline

    pub write_value : ℕ → Value F → Bytes
    write_value indent null = b'n' ∷ b'u' ∷ b'l' ∷ b'l' ∷ []
    write_value indent (bool true) = b't' ∷ b'r' ∷ b'u' ∷ b'e' ∷ []
    write_value indent (bool false) = b'f' ∷ b'a' ∷ b'l' ∷ b's' ∷ b'e' ∷ []
    write_value indent (u64 n) = format.of_u64 n
    write_value indent (i64 z) = format.of_i64 z
    write_value indent (f64 x) = format.of_f64 x
    write_value indent (str s) = write_str s
    write_value indent (array vs) =
        b'[' ∷ (write_items (indent + indent_size) true vs ++ (newline indent ++ (b']' ∷ [])))
    write_value indent (dict ms) =
        b'{' ∷ (write_members (indent + indent_size) true ms ++ (newline indent ++ (b'}' ∷ [])))

    -- the loop of `write_array`
    pub write_items : ℕ → Bool → Items F → Bytes
    write_items indent first no_items = []
    write_items indent first (item v vs) =
        comma first ++ (newline indent ++ (write_value indent v ++ write_items indent false vs))

    -- the loop of `write_dict`
    pub write_members : ℕ → Bool → Members F → Bytes
    write_members indent first no_members = []
    write_members indent first (member key v ms) =
        comma first
        ++ (newline indent
            ++ (write_str key
                ++ (b':' ∷ 32 ∷ (write_value indent v ++ write_members indent false ms))))

-- `dumps` of a document with a root
unfoldable pub dumps : {F : Type 0} → Format F → ℕ → Value F → Bytes
unfolding write_value
dumps format indent_size root = write_value format indent_size 0 root
