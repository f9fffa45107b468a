-- ===== src/Regex/Grammar.antt =====
-- src/regex.cpp: the loops of `compile_concatenation` and `compile_alternation`.
use stdromano.Prelude.{
  ℕ, zero, suc, ◌≡◌, refl, sym, List, [], Bool, true, false, append-nil, not, ◌&&◌, ◌==◌, get_elem?,
  Bool-cases, inl, inr, arith, ◌+◌,
}
use stdromano.Regex.Opcode.{Bytes}
use stdromano.Regex.Syntax.{empty, code}
use stdromano.Regex.Compiler.{
  at_end, peek, Compiler, Compiled, advance, compile_quantified, concatenation_loop,
  compile_concatenation, alternation_loop, compile_alternation, patch_jumps,
}
use stdromano.Regex.Reads.{Sort, items, item, stops, concatenation, no_items}
use stdromano.Regex.Appends.{
  Appends, appended, starved, Appends-bind, Pending, resolve-Appends, link-Pending, Pending-first,
  Appends-some_items, Reads-at,
}
use stdromano.Regex.Cursor.{
  IsPlain, bytecode-advance, next_group_id-advance, pos-advance, peek-Shows, at_end-none,
}
use stdromano.Regex.Parse.{compile_quantified-Appends}

Appends-elim :
    {pattern : Bytes} {s : Sort} {p i : ℕ} {pre : Bytes} (b : Bool) (x y : Compiled)
    → (b ≡ false → Appends pattern s p i pre x)
    → (b ≡ true → Appends pattern s p i pre y)
    → Appends pattern s p i pre (elim b [ false ↦ x | true ↦ y ])
Appends-elim true x y h k = k refl
Appends-elim false x y h k = h refl

module _ (pattern : Bytes) where
  -- the test of the loop of a concatenation
  concatenation_stops :
      (c : Compiler) {b : Bool}
      → (not (at_end pattern c) && not (peek pattern c == b')') && not (peek pattern c == b'|')) ≡ b
      → stops true (get_elem? pattern c.pos) ≡ not b
  concatenation_stops c e = elim (Bool-cases (at_end pattern c)) [
    | inl q ↦ rw (at_end-none pattern c q) (ground arith)
    | inr q ↦ rw (peek-Shows pattern c q) (ground arith)
  ]

  -- the test of the loop of an alternation
  alternation_stops :
      (c : Compiler) {b : Bool}
      → (not (at_end pattern c) && peek pattern c == b'|') ≡ b
      → stops false (get_elem? pattern c.pos) ≡ not b
  alternation_stops c e = elim (Bool-cases (at_end pattern c)) [
    | inl q ↦ rw (at_end-none pattern c q) (ground arith)
    | inr q ↦ rw (peek-Shows pattern c q) (ground arith)
  ]

  module _ (quantified : Compiler → Compiled)
      (sound : (c : Compiler)
        → Appends pattern (item true) c.pos c.next_group_id c.bytecode (quantified c)) where
    concatenation_loop-Appends :
        (n p i : ℕ) (pre : Bytes) (jumps : List ℕ) (c : Compiler)
        → Pending pattern true p i pre jumps c
        → Appends pattern
            (items true)
            p
            i
            pre
            (concatenation_loop pattern n quantified false jumps c)
    unfolding concatenation_loop
    concatenation_loop-Appends zero p i pre jumps c h = starved
    concatenation_loop-Appends (suc n) p i pre jumps c h =
        Appends-elim _ _ _ (λ e. resolve-Appends true pre jumps c h (concatenation_stops c e))
          (λ e. Appends-bind (quantified _) _ (sound _) (λ c' g d s q.
            concatenation_loop-Appends n p i pre _ c'
              (link-Pending true pre jumps c c c' g refl h (concatenation_stops c e) d s q)))

    concatenation-Appends :
        (n : ℕ) (c : Compiler)
        → Appends pattern concatenation c.pos c.next_group_id c.bytecode
            (concatenation_loop pattern n quantified true [] c)
    unfolding concatenation_loop patch_jumps code
    concatenation-Appends zero c = starved
    concatenation-Appends (suc n) c =
        Appends-elim _ _ _
          (λ e.
            appended empty (no_items (concatenation_stops c e)) tt (sym (append-nil c.bytecode)))
          (λ e. Appends-some_items (
            Appends-bind (quantified c) _ (sound c) (λ c' g d s q.
              concatenation_loop-Appends n c.pos c.next_group_id c.bytecode [] c'
                (Pending-first true c.bytecode c' g d s q))))

  module _ (concatenated : Compiler → Compiled)
      (sound : (c : Compiler)
        → Appends pattern (item false) c.pos c.next_group_id c.bytecode (concatenated c)) where
    alternation_loop-Appends :
        (n p i : ℕ) (pre : Bytes) (jumps : List ℕ) (c : Compiler)
        → Pending pattern false p i pre jumps c
        → Appends pattern (items false) p i pre (alternation_loop pattern n concatenated jumps c)
    unfolding alternation_loop
    alternation_loop-Appends zero p i pre jumps c h = starved
    alternation_loop-Appends (suc n) p i pre jumps c h =
        let next = advance pattern c in
        Appends-elim _ _ _ (λ e. resolve-Appends false pre jumps c h (alternation_stops c e))
          (λ e.
            let here : next.pos ≡ c.pos + 1 = pos-advance pattern c (ground arith) in
            Appends-bind (concatenated _) _ (sound _) (λ c' g d s q.
              alternation_loop-Appends n p i pre _ c' (
                link-Pending false pre jumps c next c' g (bytecode-advance pattern c) h
                  (alternation_stops c e)
                  (Reads-at here (next_group_id-advance pattern c) refl refl d) s q)))

  -- For a pattern without a byte that the scan reads as an instruction with an operand, a
  -- compilation that succeeds, from any state of the compiler and with any fuel, has read a stretch
  -- of the pattern as a tree by the grammar, from the position and the group number that it was
  -- given to those that it leaves, and has appended the code of that tree to the bytecode.
  pub compile_alternation-Appends :
      IsPlain pattern
      → (depth n : ℕ) (c : Compiler)
      → Appends pattern
          (items false)
          c.pos
          c.next_group_id
          c.bytecode
          (compile_alternation pattern depth n c)
  unfolding compile_alternation compile_concatenation
  compile_alternation-Appends plain zero n c = starved
  compile_alternation-Appends plain (suc depth) n c =
      let concatenated = compile_concatenation pattern n (compile_alternation pattern depth n) in
      let sound : (c : Compiler)
          → Appends pattern concatenation c.pos c.next_group_id c.bytecode (concatenated c) =
        concatenation-Appends (compile_quantified pattern n (compile_alternation pattern depth n))
          (compile_quantified-Appends pattern plain n (compile_alternation pattern depth n)
            (compile_alternation-Appends plain depth n))
          n in
      Appends-bind (concatenated c) _ (sound c) (λ c' f d s q.
        alternation_loop-Appends concatenated sound n c.pos c.next_group_id c.bytecode [] c'
          (Pending-first false c.bytecode c' f d s q))
