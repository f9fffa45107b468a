-- ===== src/Json/RoundTrip.antt =====
-- src/json.cpp: a document that `dumps` writes is read back by `loads`, with any indent.
use stdromano.Prelude.{
  ℕ, zero, suc, ◌+◌, ◌≡◌, refl, ◌∙◌, Bool, true, false, [], ◌∷◌, ◌++◌, length, arith, append-nil,
}
use stdromano.Json.Value.{
  Bytes, pos, negsuc, Value, Items, Members, null, bool, u64, i64, f64, str, array, dict, no_items,
  item, no_members, member, Floats, Format,
}
use stdromano.Json.Parser.{
  Parser, ok, failed, bind, skip_whitespace, parse_number, parse_literal, dispatch, parse_value,
  loads,
}
use stdromano.Json.Writer.{write_str, write_value, dumps}
use stdromano.Json.Strings.{parse_string-write_str}
use stdromano.Json.Numbers.{
  decimal, StartsDigit, emit-StartsDigit, parse_number-decimal, parse_number-negative,
}
use stdromano.Json.Printable.{
  IsFormat, IsPrintable, Begins, skip_whitespace-Begins, write_value-Begins, StartsDigit-Begins,
}
use stdromano.Json.Arrays.{
  ReadsValue, HeadItems, TailItems, HeadItems-item, TailItems-no_items, TailItems-item,
  ReadsValue-array,
}
use stdromano.Json.Dicts.{
  HeadMembers, TailMembers, HeadMembers-member, TailMembers-no_members, TailMembers-member,
  ReadsValue-dict,
}

module _ {F : Type 0} (floats : Floats F) (format : Format F) (laws : IsFormat format)
    (indent_size : ℕ) where
  abbrev ReadsItems : Items F → Type 0
  ReadsItems vs =
      HeadItems floats format laws indent_size vs × TailItems floats format laws indent_size vs

  abbrev ReadsMembers : Members F → Type 0
  ReadsMembers ms =
      HeadMembers floats format laws indent_size ms × TailMembers floats format laws indent_size ms

  ReadsValue-null : ReadsValue floats format laws indent_size null
  unfolding write_value parse_value dispatch parse_literal skip_whitespace
  ReadsValue-null indent zero rest h stop e = absurd (omega arith)
  ReadsValue-null indent (suc f) rest h stop e = refl

  ReadsValue-bool : (b : Bool) → ReadsValue floats format laws indent_size (bool b)
  unfolding write_value parse_value dispatch parse_literal skip_whitespace
  ReadsValue-bool b indent zero rest h stop e = absurd (omega arith)
  ReadsValue-bool true indent (suc f) rest h stop e = refl
  ReadsValue-bool false indent (suc f) rest h stop e = refl

  ReadsValue-str : (s : Bytes) → ReadsValue floats format laws indent_size (str s)
  unfolding write_value parse_value dispatch write_str skip_whitespace
  ReadsValue-str s indent zero rest h stop e = absurd (omega arith)
  ReadsValue-str s indent (suc f) rest h stop e = rw (parse_string-write_str s rest h) refl

  -- a text that starts with a digit is a number
  dispatch-StartsDigit :
      (value : Parser (Value F)) (bs : Bytes)
      → StartsDigit bs
      → dispatch floats value (skip_whitespace bs) ≡ parse_number floats bs
  unfolding dispatch
  dispatch-StartsDigit value [] h = absurd (omega (arith, h tt))
  dispatch-StartsDigit value (c ∷ cs) h =
      rw (skip_whitespace-Begins (c ∷ cs) (StartsDigit-Begins (c ∷ cs) h)) (ground arith)

  StartsDigit-append : (bs rest : Bytes) → StartsDigit bs → StartsDigit (bs ++ rest)
  StartsDigit-append [] rest h = absurd (omega (arith, h tt))
  StartsDigit-append (c ∷ cs) rest h = h

  ReadsValue-u64 : (n : ℕ) → ReadsValue floats format laws indent_size (u64 n)
  unfolding write_value parse_value
  ReadsValue-u64 n indent zero rest h stop e = absurd (omega arith)
  ReadsValue-u64 n indent (suc f) rest h stop e =
      let start = StartsDigit-append (decimal n) rest (emit-StartsDigit 19 n []) in
      rw (laws.of_u64 n (omega arith)) (
        dispatch-StartsDigit (parse_value floats f) (decimal n ++ rest) start
        ∙ parse_number-decimal floats n rest h stop)

  ReadsValue-negative : (n : ℕ) → ReadsValue floats format laws indent_size (i64 (negsuc n))
  unfolding write_value parse_value dispatch skip_whitespace
  ReadsValue-negative n indent zero rest h stop e = absurd (omega arith)
  ReadsValue-negative n indent (suc f) rest h stop e =
      rw (laws.of_i64 n (omega arith)) (parse_number-negative floats n rest h stop)

  reads : (v : Value F) → ReadsValue floats format laws indent_size v
  reads v = elim v as (ReadsValue floats format laws indent_size) ReadsItems ReadsMembers [
    | null ↦ ReadsValue-null
    | bool b ↦ ReadsValue-bool b
    | u64 n ↦ ReadsValue-u64 n
    | i64 (pos n) ↦ λ indent f rest h. absurd (omega arith)
    | i64 (negsuc n) ↦ ReadsValue-negative n
    | f64 x ↦ λ indent f rest h. absurd (omega arith)
    | str s ↦ ReadsValue-str s
    | array (vs → ih) ↦ ReadsValue-array floats format laws indent_size vs ih.0
    | dict (ms → ih) ↦ ReadsValue-dict floats format laws indent_size ms ih.0
    | no_items ↦ (tt, TailItems-no_items floats format laws indent_size)
    | item (w → ih) (ws → ihs) ↦
        let head = HeadItems-item floats format laws indent_size w ws ih ihs.1 in
        (head, TailItems-item floats format laws indent_size w ws head)
    | no_members ↦ (tt, TailMembers-no_members floats format laws indent_size)
    | member k (w → ih) (ms → ihs) ↦
        let head = HeadMembers-member floats format laws indent_size k w ms ih ihs.1 in
        (head, TailMembers-member floats format laws indent_size k w ms head)
  ]

  loads_step :
      (text : Bytes)
      → Begins text
      → loads floats text
        ≡ bind
            (parse_value floats (length text + 1) text)
            (λ root rest. elim (skip_whitespace rest) [ [] ↦ ok root [] | _ ∷ _ ↦ failed ])
  unfolding loads
  loads_step [] h = absurd (omega arith)
  loads_step (c ∷ cs) h =
      let more : length cs + 2 ≡ suc (length cs) + 1 = omega arith in rw more refl

  -- If the formatting library writes integers in decimal and pads with spaces, then a document whose
  -- integers are below 2 ^ 63, the signed ones negative and above - 2 ^ 63, without floating-point
  -- numbers, and with texts of bytes that are printable or have an escape of their own, is read back
  -- from what `dumps` writes with any indent.
  pub loads-dumps :
      (v : Value F) → IsPrintable v → loads floats (dumps format indent_size v) ≡ ok v []
  unfolding dumps skip_whitespace
  loads-dumps v h =
      let text = write_value format indent_size 0 v in
      let whole = reads v 0 (length text + 1) [] h tt (omega arith) in
      loads_step text (write_value-Begins format laws indent_size 0 v h)
      ∙ rw (rw (append-nil text) at whole) refl
