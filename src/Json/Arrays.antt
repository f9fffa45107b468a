-- ===== src/Json/Arrays.antt =====
-- src/json.cpp: a written array is read back, if its elements are.
use stdromano.Prelude.{
  ℕ, zero, suc, ◌+◌, ◌<◌, ◌≡◌, refl, ap, ◌∙◌, false, [], ◌∷◌, ◌++◌, length, arith, append_assoc,
  length-append,
}
use stdromano.Json.Value.{Bytes, Value, Items, array, no_items, item, Floats, Format}
use stdromano.Json.Parser.{
  Parser, ok, bind, pure, skip_whitespace, next_round, array_loop, parse_array, array_items,
  dispatch, parse_value,
}
use stdromano.Json.Writer.{newline, write_value, write_items}
use stdromano.Json.Numbers.{Stops}
use stdromano.Json.Printable.{
  IsFormat, IsPrintable, ArePrintable, Begins, Begins-append, optional-Begins, length_of_Begins,
  skip_whitespace-newline, write_value-Begins, Stops-items, skip_to-Begins, skip_to-close,
}

module _ {F : Type 0} (floats : Floats F) (format : Format F) (laws : IsFormat format)
    (indent_size : ℕ) where
  abbrev pub ReadsValue : Value F → Type 0
  ReadsValue v =
      (indent f : ℕ) (rest : Bytes)
      → IsPrintable v
      → Stops rest
      → length (write_value format indent_size indent v) < f
      → parse_value floats f (write_value format indent_size indent v ++ rest) ≡ ok v rest

  -- what is read behind an element, up to the bracket
  abbrev pub TailItems : Items F → Type 0
  TailItems vs =
      (v : Value F) (indent close f n : ℕ) (rest : Bytes)
      → ArePrintable vs
      → length (write_items format indent_size indent false vs) < f
      → length (write_items format indent_size indent false vs) < n
      → next_round b']'
          (λ ds. bind (array_loop floats (parse_value floats f) n ds) (λ ws. pure (item v ws)))
          (item v no_items)
          (skip_whitespace (
            write_items format indent_size indent false vs
            ++ (newline format indent_size close ++ (b']' ∷ rest))))
        ≡ ok (item v vs) rest

  -- what is read from an element on
  abbrev pub HeadItems : Items F → Type 0
  HeadItems no_items = Unit
  HeadItems (item w ws) =
      (indent close f n : ℕ) (rest : Bytes)
      → IsPrintable w × ArePrintable ws
      → length (write_value format indent_size indent w)
          + length (write_items format indent_size indent false ws)
        < f
      → length (write_value format indent_size indent w)
          + length (write_items format indent_size indent false ws)
        < n
      → array_loop floats (parse_value floats f) n (
          write_value format indent_size indent w
          ++ (write_items format indent_size indent false ws
              ++ (newline format indent_size close ++ (b']' ∷ rest))))
        ≡ ok (item w ws) rest

  array_loop_step :
      (value : Parser (Value F)) (n : ℕ) (input : Bytes)
      → Begins input
      → array_loop floats value (suc n) input
        ≡ bind (value input) (λ v rest.
          next_round b']'
            (λ ds. bind (array_loop floats value n ds) (λ vs. pure (item v vs)))
            (item v no_items)
            (skip_whitespace rest))
  unfolding array_loop
  array_loop_step value n [] h = absurd (omega arith)
  array_loop_step value n (c ∷ cs) h = refl

  pub HeadItems-item :
      (w : Value F) (ws : Items F) → ReadsValue w → TailItems ws → HeadItems (item w ws)
  HeadItems-item w ws ih ihs indent close f zero rest h e g = absurd (omega arith)
  HeadItems-item w ws ih ihs indent close f (suc n) rest h e g =
      let start = write_value-Begins format laws indent_size indent w h.0 in
      let some_text = length_of_Begins (write_value format indent_size indent w) start in
      array_loop_step (parse_value floats f) n _
        (Begins-append (write_value format indent_size indent w) _ start)
      ∙ rw
          (ih indent f
            (write_items format indent_size indent false ws
              ++ (newline format indent_size close ++ (b']' ∷ rest)))
            h.0 (Stops-items format laws indent_size indent close ws rest) (omega arith))
          (ihs w indent close f n rest h.1 (omega arith) (omega arith))

  pub TailItems-no_items : TailItems no_items
  unfolding write_items next_round skip_whitespace
  TailItems-no_items v indent close f n rest h e g =
      rw (skip_whitespace-newline format laws indent_size close (b']' ∷ rest)) refl

  pub TailItems-item : (w : Value F) (ws : Items F) → HeadItems (item w ws) → TailItems (item w ws)
  unfolding write_items next_round
  TailItems-item w ws head v indent close f n rest h e g =
      let text = write_value format indent_size indent w in
      let more = write_items format indent_size indent false ws in
      let end = newline format indent_size close ++ (b']' ∷ rest) in
      let sizes = length-append (newline format indent_size indent) (text ++ more) in
      let size = length-append text more in
      ap (λ ds. bind (array_loop floats (parse_value floats f) n ds) (λ ws. pure (item v ws)))
        (skip_to-Begins format laws indent_size indent text more end
          (write_value-Begins format laws indent_size indent w h.0))
      ∙ rw (head indent close f n rest h (omega (arith, size, sizes)) (omega (arith, size, sizes)))
          refl

  -- the elements from the first one to behind the bracket
  array_items-read :
      (indent f : ℕ) (w : Value F) (ws : Items F) (rest : Bytes)
      → HeadItems (item w ws)
      → IsPrintable w × ArePrintable ws
      → length (write_value format indent_size (indent + indent_size) w)
          + length (write_items format indent_size (indent + indent_size) false ws)
        < f
      → array_items floats (parse_value floats f) (
          write_value format indent_size (indent + indent_size) w
          ++ (write_items format indent_size (indent + indent_size) false ws
              ++ (newline format indent_size indent ++ (b']' ∷ rest))))
        ≡ ok (array (item w ws)) rest
  unfolding array_items
  array_items-read indent f w ws rest head h e =
      let text = write_value format indent_size (indent + indent_size) w in
      let more = write_items format indent_size (indent + indent_size) false ws in
      let end = newline format indent_size indent ++ (b']' ∷ rest) in
      let start = write_value-Begins format laws indent_size (indent + indent_size) w h.0 in
      let sizes = length-append text (more ++ end) in
      let size = length-append more end in
      rw
        (optional-Begins b']' (text ++ (more ++ end)) refl (Begins-append text (more ++ end) start))
        (rw
          (head (indent + indent_size) indent f (length (text ++ (more ++ end)) + 1) rest h e
            (omega (arith, size, sizes)))
          refl)

  -- an array, from the elements in it
  pub ReadsValue-array : (vs : Items F) → HeadItems vs → ReadsValue (array vs)
  unfolding write_value write_items parse_value dispatch parse_array
  ReadsValue-array vs head indent zero rest h stop e = absurd (omega arith)
  ReadsValue-array no_items head indent (suc f) rest h stop e =
      ap (array_items floats (parse_value floats f))
        (skip_to-close format laws indent_size indent b']' rest refl refl)
  ReadsValue-array (item w ws) head indent (suc f) rest h stop e =
      let text = write_value format indent_size (indent + indent_size) w in
      let more = write_items format indent_size (indent + indent_size) false ws in
      let close = newline format indent_size indent ++ (b']' ∷ []) in
      let inner = newline format indent_size (indent + indent_size) ++ (text ++ more) in
      ap (λ ds. array_items floats (parse_value floats f) (skip_whitespace ds))
        (append_assoc inner close rest)
      ∙ ap (array_items floats (parse_value floats f)) (
          skip_to-Begins format laws indent_size (indent + indent_size) text more (close ++ rest)
            (write_value-Begins format laws indent_size (indent + indent_size) w h.0)
          ∙ ap (λ ds. text ++ (more ++ ds))
              (append_assoc (newline format indent_size indent) (b']' ∷ []) rest))
      ∙ array_items-read indent f w ws rest head h (
          omega (
            arith,
            length-append inner close,
            length-append (newline format indent_size (indent + indent_size)) (text ++ more),
            length-append text more,
          ))
