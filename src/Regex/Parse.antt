-- ===== src/Regex/Parse.antt =====
-- src/regex.cpp: `compile_primary` and `compile_quantified` read the grammar and append its code.
use stdromano.Prelude.{
  ℕ, ◌+◌, ◌%◌, ◌^◌, ◌≡◌, refl, sym, ◌∙◌, [], ◌∷◌, ◌++◌, none, some, true, false, not, ◌&&◌, ◌||◌,
  arith, length, get_elem?, ◌≢◌, append_assoc, ◌==◌,
}
use mathlib.Core.Path.{subst}
use stdromano.Regex.Opcode.{Bytes, byte, group_start, inc_pos_eq}
use stdromano.Regex.Syntax.{
  CharTest, test_bytes, Fragment, test, any, digit, word, whitespace, single, group, opt, star,
  plus, code,
}
use stdromano.Regex.Compiler.{
  Compiler, Compiled, ok, advance, peek, at_end, compile_class, compile_escape, compile_literal,
  close_group, compile_group, compile_primary, quantify, compile_quantified,
}
use stdromano.Regex.Emit.{star_instrs-code, plus_instrs-code}
use stdromano.Regex.Reads.{
  primary, quantified, items, is_special, escape_test, Shows, Reads, dot, escaped, literal,
  bracketed, negated, grouped, once, starred, repeated, optional,
}
use stdromano.Regex.Scannable.{IsScannable, IsScannableTest, IsScannableTest-if}
use stdromano.Regex.Appends.{
  Appends, appended, gave_up, Appends-if, Reads-at, Appends-bind, Appends-from,
}
use stdromano.Regex.Cursor.{
  IsPlain, bytecode-advance, next_group_id-advance, pos-advance, peek-Shows, at_end-none, not_shown,
  shown,
}
use stdromano.Regex.Ranges.{compile_ranges-Appends}

module _ (pattern : Bytes) where
  compile_class-Appends :
      IsPlain pattern
      → (n : ℕ) (c : Compiler) (p : ℕ) → p + 1 ≡ c.pos
      → Shows pattern p b'['
      → Appends pattern primary p c.next_group_id c.bytecode (compile_class pattern n c)
  unfolding compile_class
  compile_class-Appends plain n c p e opening =
      let next = advance pattern c in
      Appends-if (not (at_end pattern c) && peek pattern c == b'^') _ _
        (λ caret.
          let inside : at_end pattern c ≡ false = ground arith in
          let p₁ : next.pos ≡ p + 2 = pos-advance pattern c inside ∙ omega arith in
          let mark : Shows pattern (p + 1) b'^' = rw e (shown pattern c b'^' caret) in
          Appends-from (next_group_id-advance pattern c) (bytecode-advance pattern c) (
            compile_ranges-Appends pattern plain n true next p
              (λ rs q d closed. negated opening mark (rw p₁ at d) closed)))
        (λ plain_class.
          let no_mark : get_elem? pattern (p + 1) ≢ some b'^' =
            rw e (not_shown pattern c b'^' plain_class) in
          compile_ranges-Appends pattern plain n false c p
            (λ rs q d closed. bracketed opening no_mark (rw (sym e) at d) closed))

  -- a test and its `IncPosEq`
  test-Appends :
      (p i : ℕ) (pre : Bytes) (c : Compiler) (t : CharTest)
      → Reads pattern primary p i (test t) c.pos c.next_group_id
      → IsScannableTest t
      → c.bytecode ≡ pre ++ (test_bytes t ++ byte inc_pos_eq ∷ [])
      → Appends pattern primary p i pre (ok c)
  unfolding code
  test-Appends p i pre c t d s e = appended (test t) d s e

  escape_test-IsScannable : (esc : ℕ) → IsScannableTest (escape_test esc)
  escape_test-IsScannable esc =
      let space = IsScannableTest-if (esc == b's') whitespace (single esc) tt tt in
      let letter = IsScannableTest-if (esc == b'w') word _ tt space in
      IsScannableTest-if (esc == b'd') digit _ tt letter

  compile_escape-Appends :
      (c : Compiler) (p : ℕ)
      → p + 1 ≡ c.pos
      → Shows pattern p b'\\'
      → Appends pattern primary p c.next_group_id c.bytecode (compile_escape pattern c)
  unfolding compile_escape
  compile_escape-Appends c p e backslash =
      let esc = peek pattern c in
      Appends-if (at_end pattern c) _ _ (λ q. gave_up)
        (λ inside.
          let p₁ : p + 2 ≡ (advance pattern c).pos = omega (arith, pos-advance pattern c inside) in
          let here : Shows pattern (p + 1) esc =
            subst (λ p. Shows pattern p esc) (sym e) (peek-Shows pattern c inside) in
          test-Appends p c.next_group_id c.bytecode _ (escape_test esc)
            (Reads-at refl refl p₁ (sym (next_group_id-advance pattern c)) (escaped backslash here))
            (escape_test-IsScannable esc) (rw (bytecode-advance pattern c) (ground arith)))

  compile_literal-Appends :
      (c : Compiler)
      → at_end pattern c ≡ false
      → (peek pattern c == b'(') ≡ false
      → (peek pattern c == b'[') ≡ false
      → (peek pattern c == b'.') ≡ false
      → (peek pattern c == b'\\') ≡ false
      → Appends pattern primary c.pos c.next_group_id c.bytecode (compile_literal pattern c)
  unfolding compile_literal
  compile_literal-Appends c inside h₁ h₂ h₃ h₄ =
      let ch = peek pattern c in
      Appends-if (ch == b'*' || ch == b'+' || ch == b'?' || ch == b')' || ch == b']' || ch == b'|')
        _ _ (λ q. gave_up)
        (λ other.
          let plain_byte : is_special ch ≡ false = rw (h₁, h₂, h₃, h₄) other in
          test-Appends c.pos c.next_group_id c.bytecode _ (single ch)
            (Reads-at refl refl (sym (pos-advance pattern c inside))
              (sym (next_group_id-advance pattern c))
              (literal (peek-Shows pattern c inside) plain_byte))
            tt (rw (bytecode-advance pattern c)))

  module _ (plain : IsPlain pattern) (n : ℕ) (alternation : Compiler → Compiled)
      (sound : (c : Compiler)
        → Appends pattern (items false) c.pos c.next_group_id c.bytecode (alternation c)) where
    close_group-Appends :
        (pre : Bytes) (p id : ℕ) (c : Compiler) (f : Fragment)
        → Shows pattern p b'('
        → Reads pattern (items false) (p + 1) ((id + 1) % 2 ^ 32) f c.pos c.next_group_id
        → IsScannable f
        → c.bytecode ≡ (pre ++ byte group_start ∷ (id % 256) ∷ []) ++ code f none
        → Appends pattern primary p id pre (close_group pattern id c)
    unfolding close_group code
    close_group-Appends pre p id c f opening d i e =
        Appends-if (at_end pattern c || not (peek pattern c == b')')) _ _ (λ q. gave_up)
          (λ closed.
            let inside : at_end pattern c ≡ false = ground arith in
            let paren : Shows pattern c.pos b')' = shown pattern c b')' (ground arith) in
            appended (group (id % 256) f)
              (Reads-at refl refl (sym (pos-advance pattern c inside))
                (sym (next_group_id-advance pattern c)) (grouped opening d paren))
              i (rw (bytecode-advance pattern c, e) (simp append_assoc)))

    compile_group-Appends :
        (c : Compiler) (p : ℕ)
        → p + 1 ≡ c.pos
        → Shows pattern p b'('
        → Appends pattern primary p c.next_group_id c.bytecode (compile_group pattern alternation c)
    unfolding compile_group
    compile_group-Appends c p e opening =
        Appends-bind (alternation _) (close_group pattern c.next_group_id) (sound _) (λ c' f d i q.
          close_group-Appends c.bytecode p c.next_group_id c' f opening
            (Reads-at (sym e) refl refl refl d) i q)

    compile_primary-Appends :
        (c : Compiler)
        → Appends pattern primary c.pos c.next_group_id c.bytecode
            (compile_primary pattern n alternation c)
    unfolding compile_primary
    compile_primary-Appends c =
        let next = advance pattern c in
        let ch = peek pattern c in
        let same = bytecode-advance pattern c in
        let number = next_group_id-advance pattern c in
        Appends-if (at_end pattern c) _ _ (λ q. gave_up)
          (λ inside.
            let e : c.pos + 1 ≡ next.pos = sym (pos-advance pattern c inside) in
            let shows : (b : ℕ) → (ch == b) ≡ true → Shows pattern c.pos b =
              λ b q. shown pattern c b (rw (inside, q)) in
            Appends-if (ch == b'(') _ _
              (λ q. Appends-from number same (compile_group-Appends next c.pos e (shows b'(' q)))
              (λ q₁.
                Appends-if (ch == b'[') _ _
                  (λ q.
                    Appends-from number same
                      (compile_class-Appends plain n next c.pos e (shows b'[' q)))
                  (λ q₂.
                    Appends-if (ch == b'.') _ _
                      (λ q.
                        test-Appends c.pos c.next_group_id c.bytecode _ any
                          (Reads-at refl refl e (sym number) (dot (shows b'.' q))) tt (rw same))
                      (λ q₃.
                        Appends-if (ch == b'\\') _ _
                          (λ q.
                            Appends-from number same
                              (compile_escape-Appends next c.pos e (shows b'\\' q)))
                          (λ q₄. compile_literal-Appends c inside q₁ q₂ q₃ q₄)))))

    quantify-Appends :
        (p i₀ : ℕ) (pre : Bytes) (c : Compiler) (f : Fragment)
        → Reads pattern primary p i₀ f c.pos c.next_group_id
        → IsScannable f
        → c.bytecode ≡ pre ++ code f none
        → Appends pattern quantified p i₀ pre (quantify pattern (length pre) c)
    unfolding quantify code
    quantify-Appends p i₀ pre c f d i e =
        let next = advance pattern c in
        let ch = peek pattern c in
        let number = sym (next_group_id-advance pattern c) in
        Appends-if (at_end pattern c) _ _
          (λ q. appended f (once d (rw (at_end-none pattern c q))) i e)
          (λ inside.
            let e₁ : c.pos + 1 ≡ next.pos = sym (pos-advance pattern c inside) in
            let shows : (b : ℕ) → (ch == b) ≡ true → Shows pattern c.pos b =
              λ b q. shown pattern c b (rw (inside, q)) in
            Appends-if (ch == b'*') _ _
              (λ q.
                appended (star f) (Reads-at refl refl e₁ number (starred d (shows b'*' q))) i
                  (rw e (star_instrs-code f pre)))
              (λ q₁.
                Appends-if (ch == b'+') _ _
                  (λ q.
                    appended (plus f) (Reads-at refl refl e₁ number (repeated d (shows b'+' q))) i
                      (rw e (plus_instrs-code f pre)))
                  (λ q₂.
                    Appends-if (ch == b'?') _ _
                      (λ q.
                        appended (opt f) (Reads-at refl refl e₁ number (optional d (shows b'?' q)))
                          i (rw (bytecode-advance pattern c, e) (append_assoc pre (code f none) _)))
                      (λ q₃.
                        appended f (once d (rw (peek-Shows pattern c inside) (rw (q₁, q₂, q₃)))) i
                          e))))

    pub compile_quantified-Appends :
        (c : Compiler)
        → Appends pattern quantified c.pos c.next_group_id c.bytecode
            (compile_quantified pattern n alternation c)
    unfolding compile_quantified
    compile_quantified-Appends c =
        Appends-bind (compile_primary pattern n alternation c) _ (compile_primary-Appends c)
          (quantify-Appends c.pos c.next_group_id c.bytecode)
