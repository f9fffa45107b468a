-- ===== src/Python/Levels.antt =====
-- src/python.cpp: the rounds at the end of a line, and the levels of indentation they open and close.
use stdromano.Prelude.{
  ℕ, zero, suc, ◌+◌, ◌-◌, ◌≤◌, ◌<◌, ◌==◌, ◌≡◌, refl, sym, ap, ◌∙◌, ltb, if◌then◌else◌, ◌||◌, List,
  [], ◌∷◌, ◌++◌, none, some, length, arith, replicate, append-nil, Bool-cases, inl, inr,
}
use stdromano.Json.Value.{Bytes}
use stdromano.Python.Token.{Token, indent, dedent}
use stdromano.Python.Cursor.{Lexer, emplace, indent_undefined, is_newline, to_unsigned, incr}
use stdromano.Python.Lines.{
  skip_break, blank_loop, newline_token, empty_lines, count_spaces, indentation_token, back,
  close_levels, emit_indentation, lex_joined, lex_broken, lex_newline_indent,
}
use stdromano.Python.Suffix.{Suffix, same, Suffix_trans, AreEmpty, Found-AreEmpty, Found-Suffix}
use stdromano.Python.Sound.{
  Sound, Sounds, Sounds-if, Sound-skip, Suffix-here, Sounds-trans, AreQuiet, IsStack, IsLevelled,
  IsLevelled-quiet, level, level-append,
}
use stdromano.Python.Passes.{
  skip_break-Suffix, blank_loop-Suffix, empty_lines-Suffix, count_spaces-Suffix,
}

-- `close_levels` pops the columns that are above the new one, and counts them.
pub record Closed (stack rest : List ℕ) (popped : ℕ) : Type 0 where
  pub sorted : IsStack rest
  pub some_left : 1 ≤ length rest
  pub counted : length stack ≡ length rest + popped

close_levels-Closed :
    (spaces : ℕ) (stack : List ℕ)
    → IsStack stack
    → Closed stack (close_levels spaces stack).0 (close_levels spaces stack).1
unfolding close_levels
close_levels-Closed spaces [] s = absurd (omega (arith, s))
close_levels-Closed spaces (a ∷ []) s = record {
  sorted = s;
  some_left = omega arith;
  counted = omega arith;
}
close_levels-Closed spaces (a ∷ b ∷ stack) (lower, s) =
    let ih = close_levels-Closed spaces (b ∷ stack) s in
    elim (Bool-cases (ltb spaces a)) [
      | inl e ↦ rw e (record {
        sorted = ih.sorted;
        some_left = ih.some_left;
        counted = omega (arith, ih.counted);
      })
      | inr e ↦
          rw e (record { sorted = (lower, s); some_left = omega arith; counted = omega arith })
    ]

level-replicate :
    (n k spaces column line : ℕ)
    → level (replicate k (indentation_token dedent spaces column line)) (n + k) ≡ some n
level-replicate n zero spaces column line = ap some (omega arith)
level-replicate n (suc k) spaces column line =
    let one : n + suc k ≡ suc (n + k) = omega arith in
    rw one (level-replicate n k spaces column line)

replicate-AreEmpty :
    (k spaces column line : ℕ)
    → AreEmpty (replicate k (indentation_token dedent spaces column line))
replicate-AreEmpty zero spaces column line = tt
replicate-AreEmpty (suc k) spaces column line = (refl, replicate-AreEmpty k spaces column line)

IsStack-length : (stack : List ℕ) → IsStack stack → 1 ≤ length stack
IsStack-length [] s = absurd (omega (arith, s))
IsStack-length (a ∷ stack) s = omega arith

IsLevelled-indent :
    (spaces column line : ℕ) (stack : List ℕ) (out : List Token)
    → back stack < spaces
    → IsLevelled stack out
    → IsLevelled (spaces ∷ stack) (out ++ (indentation_token indent spaces column line ∷ []))
IsLevelled-indent spaces column line [] out h (s, e) = absurd (omega (arith, s))
IsLevelled-indent spaces column line (a ∷ stack) out h (s, e) = (
  (h, s),
  level-append out (indentation_token indent spaces column line ∷ []) 0
      ∙ rw e (ap some (omega arith)),
)

IsLevelled-dedent :
    (spaces column line : ℕ) (stack : List ℕ) (out : List Token)
    → IsLevelled stack out
    → IsLevelled (close_levels spaces stack).0 (
        out
        ++ replicate (close_levels spaces stack).1 (indentation_token dedent spaces column line))
IsLevelled-dedent spaces column line stack out (s, e) =
    let c = close_levels-Closed spaces stack s in
    let levels = close_levels spaces stack in
    let split : length stack - 1 ≡ (length levels.0 - 1) + levels.1 =
      omega (arith, c.counted, c.some_left) in
    (
      c.sorted,
      level-append out (replicate levels.1 (indentation_token dedent spaces column line)) 0
          ∙ rw (e, split) (level-replicate (length levels.0 - 1) levels.1 spaces column line),
    )

-- tokens without a text behind a place that stays
Sound-empty :
    (l next : Lexer) (ts : List Token)
    → AreEmpty ts
    → next.cursor ≡ l.cursor
    → next.out ≡ l.out ++ ts
    → (IsLevelled l.indent_stack l.out → IsLevelled next.indent_stack (l.out ++ ts))
    → Sound l.cursor l next
Sound-empty l next ts empty cursor out h = record {
  shorter = rw cursor same;
  found = λ source f. rw (cursor, out) (Found-AreEmpty ts empty f);
  levels = λ k. rw out (h k);
}

emit_indentation-Sounds : (spaces : ℕ) (l : Lexer) → Sounds l.cursor l (emit_indentation spaces l)
unfolding emit_indentation
emit_indentation-Sounds spaces l₀ =
    let l = record l₀ {
      indent_size =
          if l₀.indent_size == indent_undefined || l₀.indent_size == 0
          then spaces
          else l₀.indent_size;
    } in
    let levels = close_levels spaces l.indent_stack in
    let mark = indentation_token indent spaces l.column l.line in
    let marks = replicate levels.1 (indentation_token dedent spaces l.column l.line) in
    let opened = emplace (record l { indent_stack = spaces ∷ l.indent_stack }) mark in
    let popped = record l { indent_stack = levels.0; out = l.out ++ marks } in
    let kept =
      Sound-empty l₀ l [] tt refl (sym (append-nil l.out)) (λ h. rw (append-nil l.out) h) in
    let closes =
      Sound-empty l₀ popped marks (replicate-AreEmpty levels.1 spaces l.column l.line) refl refl
        (λ h. IsLevelled-dedent spaces l.column l.line l.indent_stack l.out h) in
    let lower =
      if ltb spaces (back l.indent_stack)
      then if back levels.0 == spaces then some popped else none
      else some l in
    let lower-Sounds =
      Sounds-if (ltb spaces (back l.indent_stack))
        (if back levels.0 == spaces then some popped else none) (some l) l.cursor l₀
        (Sounds-if (back levels.0 == spaces) (some popped) none l.cursor l₀ closes tt) kept in
    elim (Bool-cases (ltb (back l.indent_stack) spaces)) [
      | inl e ↦ rw e (
          Sound-empty l₀ opened (mark ∷ []) (refl, tt) refl refl
            (λ h.
              IsLevelled-indent spaces l.column l.line l.indent_stack l.out (ground (arith, e)) h))
      | inr e ↦ rw e lower-Sounds
    ]

empty_lines-AreQuiet : (k line : ℕ) (cs : Bytes) → AreQuiet (empty_lines k line cs).1
unfolding empty_lines
empty_lines-AreQuiet k line [] = tt
empty_lines-AreQuiet (suc k) line (c ∷ cs) = empty_lines-AreQuiet k line cs
empty_lines-AreQuiet zero line (c ∷ cs) = elim (Bool-cases (is_newline (to_unsigned c))) [
  | inl e ↦ rw e (refl, empty_lines-AreQuiet _ (incr line) cs)
  | inr e ↦ rw e tt
]

empty_lines-AreEmpty : (k line : ℕ) (cs : Bytes) → AreEmpty (empty_lines k line cs).1
unfolding empty_lines
empty_lines-AreEmpty k line [] = tt
empty_lines-AreEmpty (suc k) line (c ∷ cs) = empty_lines-AreEmpty k line cs
empty_lines-AreEmpty zero line (c ∷ cs) = elim (Bool-cases (is_newline (to_unsigned c))) [
  | inl e ↦ rw e (refl, empty_lines-AreEmpty _ (incr line) cs)
  | inr e ↦ rw e tt
]

module _ (l : Lexer) {c : ℕ} {cs : Bytes} (here : l.cursor ≡ c ∷ cs) where
  skip_break-behind : Suffix (skip_break l.cursor) cs
  skip_break-behind = rw here (skip_break-Suffix c cs)

  lex_joined-Sound : Sound cs l (lex_joined l)
  unfolding lex_joined
  lex_joined-Sound = Sound-skip l here (blank_loop zero (incr l.line) 1 (skip_break l.cursor)) (
      Suffix_trans (blank_loop-Suffix zero (incr l.line) 1 (skip_break l.cursor)) skip_break-behind)

  -- the tokens of the lines, up to the first byte that is no space
  lines-Sound :
      (column : ℕ)
      → (let lines = empty_lines zero (incr l.line) (skip_break l.cursor) in
          Sound cs l (record l {
            cursor = (count_spaces lines.0.0).0;
            line = lines.0.1;
            column = column;
            out = l.out ++ (newline_token l.column l.line ∷ lines.1);
          }))
  lines-Sound column =
      let begin = skip_break l.cursor in
      let lines = empty_lines zero (incr l.line) begin in
      let ts = newline_token l.column l.line ∷ lines.1 in
      let short =
        Suffix_trans (count_spaces-Suffix lines.0.0)
          (Suffix_trans (empty_lines-Suffix zero (incr l.line) begin) skip_break-behind) in
      record {
        shorter = short;
        found = λ source f.
            Found-AreEmpty ts (refl, empty_lines-AreEmpty zero (incr l.line) begin)
              (Found-Suffix (Suffix-here l here short) f);
        levels = λ h.
            IsLevelled-quiet l.indent_stack l.out ts
              (refl, empty_lines-AreQuiet zero (incr l.line) begin) h;
      }

  lex_broken-Sounds : Sounds cs l (lex_broken l)
  unfolding lex_broken
  lex_broken-Sounds = behind_spaces (count_spaces lines.0.0).0
    where
      lines : (Bytes × ℕ) × List Token
      lines = empty_lines zero (incr l.line) (skip_break l.cursor)

      spaces : ℕ
      spaces = (count_spaces lines.0.0).1

      next : ℕ → Lexer
      next column = record l {
        cursor = (count_spaces lines.0.0).0;
        line = lines.0.1;
        column = column;
        out = l.out ++ (newline_token l.column l.line ∷ lines.1);
      }

      behind_spaces :
          (bs : Bytes)
          → Sounds cs l (elim bs [
            | [] ↦ some (next 1)
            | c ∷ cs ↦
                if is_newline (to_unsigned c)
                then some (next 1)
                else emit_indentation spaces (next (incr spaces))
          ])
      behind_spaces [] = lines-Sound 1
      behind_spaces (d ∷ ds) =
          Sounds-if (is_newline (to_unsigned d)) (some (next 1))
            (emit_indentation spaces (next (incr spaces))) cs l (lines-Sound 1)
            (Sounds-trans cs l (next (incr spaces)) (emit_indentation spaces (next (incr spaces)))
              (lines-Sound (incr spaces)) (emit_indentation-Sounds spaces (next (incr spaces))))

  pub lex_newline_indent-Sounds : Sounds cs l (lex_newline_indent l)
  unfolding lex_newline_indent
  lex_newline_indent-Sounds =
      Sounds-if (ltb 0 l.bracket_depth) (some (lex_joined l)) (lex_broken l) cs l lex_joined-Sound
        lex_broken-Sounds
