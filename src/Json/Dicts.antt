-- ===== src/Json/Dicts.antt =====
-- src/json.cpp: a written dict is read back, if its keys and values are.
use stdromano.Prelude.{
  ℕ, zero, suc, ◌+◌, ◌<◌, ◌≡◌, refl, ap, ◌∙◌, false, [], ◌∷◌, ◌++◌, length, arith, append_assoc,
  length-append,
}
use stdromano.Json.Value.{Bytes, Value, Members, dict, no_members, member, Floats, Format}
use stdromano.Json.Parser.{
  Parser, ok, bind, pure, skip_whitespace, next_round, parse_member, dict_loop, dict_members,
  parse_dict, dispatch, parse_value,
}
use stdromano.Json.Writer.{write_str, newline, write_value, write_members}
use stdromano.Json.Strings.{IsText, parse_string-write_str}
use stdromano.Json.Numbers.{Stops}
use stdromano.Json.Printable.{
  IsFormat, IsPrintable, MembersPrintable, c_str-IsText, write_str-Begins, Begins, Begins-append,
  skip_whitespace-Begins, optional-Begins, length_of_Begins, skip_whitespace-newline,
  write_value-Begins, Stops-members, skip_to-Begins, skip_to-close,
}
use stdromano.Json.Arrays.{ReadsValue}

module _ {F : Type 0} (floats : Floats F) (format : Format F) (laws : IsFormat format)
    (indent_size : ℕ) where
  abbrev pub TailMembers : Members F → Type 0
  TailMembers ms =
      (key : Bytes) (v : Value F) (indent close f n : ℕ) (rest : Bytes)
      → MembersPrintable ms
      → length (write_members format indent_size indent false ms) < f
      → length (write_members format indent_size indent false ms) < n
      → next_round b'}'
          (λ ds. bind (dict_loop floats (parse_value floats f) n ds) (λ ws. pure (member key v ws)))
          (member key v no_members)
          (skip_whitespace (
            write_members format indent_size indent false ms
            ++ (newline format indent_size close ++ (b'}' ∷ rest))))
        ≡ ok (member key v ms) rest

  -- what is read from a key on
  abbrev pub HeadMembers : Members F → Type 0
  HeadMembers no_members = Unit
  HeadMembers (member key w ms) =
      (indent close f n : ℕ) (rest : Bytes)
      → IsText key × (IsPrintable w × MembersPrintable ms)
      → length (write_value format indent_size indent w)
          + length (write_members format indent_size indent false ms)
        < f
      → length (write_value format indent_size indent w)
          + length (write_members format indent_size indent false ms)
        < n
      → dict_loop floats (parse_value floats f) n (
          write_str key
          ++ (b':'
              ∷ 32
              ∷ (write_value format indent_size indent w
                  ++ (write_members format indent_size indent false ms
                      ++ (newline format indent_size close ++ (b'}' ∷ rest))))))
        ≡ ok (member key w ms) rest

  parse_member-read :
      (key : Bytes) (w : Value F) (indent f : ℕ) (rest : Bytes)
      → ReadsValue floats format laws indent_size w
      → IsText key
      → IsPrintable w
      → Stops rest
      → length (write_value format indent_size indent w) < f
      → parse_member floats
          (parse_value floats f)
          (write_str key ++ (b':' ∷ 32 ∷ (write_value format indent_size indent w ++ rest)))
        ≡ ok (key, w) (skip_whitespace rest)
  unfolding parse_member skip_whitespace
  parse_member-read key w indent f rest ih text h stop e =
      let written = write_value format indent_size indent w in
      let start = write_value-Begins format laws indent_size indent w h in
      rw
        (skip_whitespace-Begins (write_str key ++ (b':' ∷ 32 ∷ (written ++ rest)))
          (Begins-append (write_str key) (b':' ∷ 32 ∷ (written ++ rest)) (write_str-Begins key)))
        (rw (parse_string-write_str key (b':' ∷ 32 ∷ (written ++ rest)) text) (
          rw (skip_whitespace-Begins (written ++ rest) (Begins-append written rest start))
            (rw (ih indent f rest h stop e) (rw (c_str-IsText key text) refl))))

  dict_loop_step :
      (value : Parser (Value F)) (n : ℕ) (input : Bytes)
      → Begins input
      → dict_loop floats value (suc n) input
        ≡ bind (parse_member floats value input) (λ kv rest.
          next_round b'}'
            (λ ds. bind (dict_loop floats value n ds) (λ ms. pure (member kv.0 kv.1 ms)))
            (member kv.0 kv.1 no_members)
            rest)
  unfolding dict_loop
  dict_loop_step value n [] h = absurd (omega arith)
  dict_loop_step value n (c ∷ cs) h = refl

  pub HeadMembers-member :
      (key : Bytes) (w : Value F) (ms : Members F)
      → ReadsValue floats format laws indent_size w
      → TailMembers ms
      → HeadMembers (member key w ms)
  HeadMembers-member key w ms ih ihs indent close f zero rest h e g = absurd (omega arith)
  HeadMembers-member key w ms ih ihs indent close f (suc n) rest h e g =
      let written = write_value format indent_size indent w in
      let start = write_value-Begins format laws indent_size indent w h.1.0 in
      let some_text = length_of_Begins written start in
      let end =
        write_members format indent_size indent false ms
        ++ (newline format indent_size close ++ (b'}' ∷ rest)) in
      dict_loop_step (parse_value floats f) n _
        (Begins-append (write_str key) (b':' ∷ 32 ∷ (written ++ end)) (write_str-Begins key))
      ∙ rw
          (parse_member-read key w indent f end ih h.0 h.1.0
            (Stops-members format laws indent_size indent close ms rest) (omega arith))
          (ihs key w indent close f n rest h.1.1 (omega arith) (omega arith))

  pub TailMembers-no_members : TailMembers no_members
  unfolding write_members next_round skip_whitespace
  TailMembers-no_members key v indent close f n rest h e g =
      rw (skip_whitespace-newline format laws indent_size close (b'}' ∷ rest)) refl

  pub TailMembers-member :
      (k : Bytes) (w : Value F) (ms : Members F)
      → HeadMembers (member k w ms)
      → TailMembers (member k w ms)
  unfolding write_members next_round
  TailMembers-member k w ms head key v indent close f n rest h e g =
      let text = write_value format indent_size indent w in
      let more = write_members format indent_size indent false ms in
      let end = newline format indent_size close ++ (b'}' ∷ rest) in
      let behind = b':' ∷ 32 ∷ (text ++ more) in
      let sizes = length-append (newline format indent_size indent) (write_str k ++ behind) in
      let parts = length-append (write_str k) behind in
      let size = length-append text more in
      ap (λ ds. bind (dict_loop floats (parse_value floats f) n ds) (λ ws. pure (member key v ws)))
        (skip_to-Begins format laws indent_size indent (write_str k) behind end (write_str-Begins k)
          ∙ ap (λ ds. write_str k ++ (b':' ∷ 32 ∷ ds)) (append_assoc text more end))
      ∙ rw
          (head indent close f n rest h (omega (arith, size, parts, sizes))
            (omega (arith, size, parts, sizes)))
          refl

  -- the members from the first key to behind the brace
  dict_members-read :
      (indent f : ℕ) (k : Bytes) (w : Value F) (ms : Members F) (rest : Bytes)
      → HeadMembers (member k w ms)
      → IsText k × (IsPrintable w × MembersPrintable ms)
      → length (write_value format indent_size (indent + indent_size) w)
          + length (write_members format indent_size (indent + indent_size) false ms)
        < f
      → dict_members floats (parse_value floats f) (
          write_str k
          ++ (b':'
              ∷ 32
              ∷ (write_value format indent_size (indent + indent_size) w
                  ++ (write_members format indent_size (indent + indent_size) false ms
                      ++ (newline format indent_size indent ++ (b'}' ∷ rest))))))
        ≡ ok (dict (member k w ms)) rest
  unfolding dict_members
  dict_members-read indent f k w ms rest head h e =
      let text = write_value format indent_size (indent + indent_size) w in
      let more = write_members format indent_size (indent + indent_size) false ms in
      let end = newline format indent_size indent ++ (b'}' ∷ rest) in
      let behind = b':' ∷ 32 ∷ (text ++ (more ++ end)) in
      let sizes = length-append (write_str k) behind in
      let parts = length-append text (more ++ end) in
      let size = length-append more end in
      rw
        (optional-Begins b'}' (write_str k ++ behind) refl
          (Begins-append (write_str k) behind (write_str-Begins k)))
        (rw
          (head (indent + indent_size) indent f (length (write_str k ++ behind) + 1) rest h e
            (omega (arith, size, parts, sizes)))
          refl)

  -- a dict, from the members in it
  pub ReadsValue-dict :
      (ms : Members F) → HeadMembers ms → ReadsValue floats format laws indent_size (dict ms)
  unfolding write_value write_members parse_value dispatch parse_dict
  ReadsValue-dict ms head indent zero rest h stop e = absurd (omega arith)
  ReadsValue-dict no_members head indent (suc f) rest h stop e =
      ap (dict_members floats (parse_value floats f))
        (skip_to-close format laws indent_size indent b'}' rest refl refl)
  ReadsValue-dict (member k w ms) head indent (suc f) rest h stop e =
      let text = write_value format indent_size (indent + indent_size) w in
      let more = write_members format indent_size (indent + indent_size) false ms in
      let behind = b':' ∷ 32 ∷ (text ++ more) in
      let close = newline format indent_size indent ++ (b'}' ∷ []) in
      let inner = newline format indent_size (indent + indent_size) ++ (write_str k ++ behind) in
      let items = dict_members floats (parse_value floats f) in
      ap (λ ds. items (skip_whitespace ds)) (append_assoc inner close rest)
      ∙ ap items (
          skip_to-Begins format laws indent_size (indent + indent_size) (write_str k) behind
            (close ++ rest) (write_str-Begins k)
          ∙ ap (λ ds. write_str k ++ (b':' ∷ 32 ∷ ds)) (append_assoc text more (close ++ rest))
          ∙ ap (λ ds. write_str k ++ (b':' ∷ 32 ∷ (text ++ (more ++ ds))))
              (append_assoc (newline format indent_size indent) (b'}' ∷ []) rest))
      ∙ dict_members-read indent f k w ms rest head h (
          omega (
            arith,
            length-append inner close,
            length-append (newline format indent_size (indent + indent_size))
                (write_str k ++ behind),
            length-append (write_str k) behind,
            length-append text more,
          ))
