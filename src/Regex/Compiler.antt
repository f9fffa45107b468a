-- ===== src/Regex/Compiler.antt =====
-- src/regex.cpp: `RegexCompiler`, the single-pass compiler from a pattern to bytecode.
-- A method returns the compiler that it leaves; the recursion of the grammar and its loops run on
-- fuel. `int` offsets are 32-bit patterns.
use stdromano.Prelude.{
  ℕ, zero, suc, ◌+◌, ◌-◌, ◌%◌, ◌^◌, List, [], ◌∷◌, ◌++◌, Option, none, some, Bool, true, false, not,
  ◌&&◌, ◌||◌, leb, ◌==◌, if◌then◌else◌, length, get_or, take, drop,
}
use stdromano.Regex.Opcode.{
  Bytes, OpCode, byte, emit_jump, emit_fail_jump, patch_jump, test_single, test_negated_single,
  test_range, test_negated_range, test_any, test_digit, test_word, test_whitespace, test_lower_case,
  test_upper_case, jump_eq, jump_neq, group_start, group_end, inc_pos_eq, set_flag,
}

pub record Compiler : Type 0 where
  pub pos : ℕ
  pub next_group_id : ℕ
  pub bytecode : Bytes
  pub has_error : Bool

abbrev pub new_compiler : Compiler
new_compiler = record { pos = 0; next_group_id = 1; bytecode = []; has_error = false }

-- `true`, `false`, or the model's fuel used up
pub data Compiled : Type 0 where
  ok failed : Compiler → Compiled
  out_of_fuel : Compiled

infixl 5 ◌>>=◌
abbrev pub ◌>>=◌ : Compiled → (Compiler → Compiled) → Compiled
ok c >>= f = f c
failed c >>= f = failed c
out_of_fuel >>= f = out_of_fuel

abbrev pub error : Compiler → Compiled
error c = failed (record c { has_error = true })

abbrev pub push : Compiler → Bytes → Compiler
push c bs = record c { bytecode = c.bytecode ++ bs }

-- `static_cast<int>(label - (jump + 4))` for each jump
unfoldable pub patch_jumps : List ℕ → ℕ → Bytes → Bytes
patch_jumps [] label code = code
patch_jumps (jump ∷ jumps) label code =
    patch_jumps jumps label (patch_jump code jump ((label + 2 ^ 64 - (jump + 4)) % 2 ^ 32))

-- `static_cast<int>(start) - static_cast<int>(loop_jump + 4)`
abbrev pub offset_back : ℕ → ℕ → ℕ
offset_back start loop_jump = (start % 2 ^ 32 + 2 ^ 32 - (loop_jump + 4) % 2 ^ 32) % 2 ^ 32

-- `emit_range_instrs`, the bytes that it appends
unfoldable pub range_instrs : ℕ → ℕ → Bool → Bool → Bytes
range_instrs lo hi add_inc_pos_eq negated =
    (if negated
      then byte test_negated_range ∷ lo ∷ hi ∷ []
      else if lo == b'0' && hi == b'9'
      then byte test_digit ∷ []
      else if lo == b'a' && hi == b'z'
      then byte test_lower_case ∷ []
      else if lo == b'A' && hi == b'Z'
      then byte test_upper_case ∷ []
      else byte test_range ∷ lo ∷ hi ∷ [])
    ++ (if add_inc_pos_eq then byte inc_pos_eq ∷ [] else [])

pub record RangePair : Type 0 where
  pub lo : ℕ
  pub hi : ℕ

abbrev pub is_range : RangePair → Bool
is_range r = not (r.lo == r.hi)

-- the test of one range of a class
unfoldable pub class_test : Bool → RangePair → Bytes
unfolding range_instrs
class_test negated r =
    if is_range r
    then range_instrs r.lo r.hi false negated
    else (if negated then byte test_negated_single else byte test_single) ∷ r.lo ∷ []

-- the loop over the ranges, which collects `success_jumps`
unfoldable pub class_tests : Bool → List RangePair → List ℕ → Bytes → Bytes × List ℕ
unfolding class_test
class_tests negated [] jumps code = (code, jumps)
class_tests negated (r ∷ rs) jumps code =
    let (code', jump_pos) = emit_jump (code ++ class_test negated r) jump_eq in
    class_tests negated rs (jumps ++ (jump_pos ∷ [])) code'

-- the instructions of a class
unfoldable pub class_instrs : Bool → List RangePair → Bytes → Bytes
unfolding class_tests
class_instrs negated ranges code =
    let (tests, success_jumps) = class_tests negated ranges [] code in
    let flagged = tests ++ (byte set_flag ∷ 0 ∷ []) in
    patch_jumps success_jumps (length flagged) flagged ++ (byte inc_pos_eq ∷ [])

unfoldable pub emit_class : Bool → List RangePair → Bytes → Bytes
unfolding class_instrs range_instrs
emit_class false (r ∷ []) code =
    if is_range r
    then code ++ range_instrs r.lo r.hi true false
    else code ++ (byte test_single ∷ r.lo ∷ byte inc_pos_eq ∷ [])
emit_class negated ranges code = class_instrs negated ranges code

-- the loop `*` behind a primary that starts at `start`
unfoldable pub star_instrs : ℕ → Bytes → Bytes
star_instrs start code =
    let (code', loop_jump) = emit_jump code jump_eq in
    patch_jump code' loop_jump (offset_back start loop_jump) ++ (byte set_flag ∷ 1 ∷ [])

-- the copy of the primary and the loop of `+`
unfoldable pub plus_instrs : ℕ → Bytes → Bytes
plus_instrs primary_start code =
    let primary_end = length code in
    let checked = emit_fail_jump code jump_neq in
    let loop_start = length checked in
    let primary_copy = take (primary_end - primary_start) (drop primary_start checked) in
    let (exit_code, exit_loop_jump) = emit_jump (checked ++ primary_copy) jump_neq in
    let (loop_code, loop_jump) = emit_jump exit_code jump_eq in
    let looped = patch_jump loop_code loop_jump (offset_back loop_start loop_jump) in
    patch_jump looped exit_loop_jump ((length looped + 2 ^ 64 - (exit_loop_jump + 4)) % 2 ^ 32)
    ++ (byte set_flag ∷ 1 ∷ [])

-- the jump in front of every item but the first
abbrev pub link : Bool → OpCode → List ℕ → Compiler → Compiler × List ℕ
link true op jumps c = (c, jumps)
link false op jumps c =
    let (code, jump) = emit_jump c.bytecode op in
    (record c { bytecode = code }, jumps ++ (jump ∷ []))

abbrev pub resolve : List ℕ → Compiler → Compiler
resolve jumps c = record c { bytecode = patch_jumps jumps (length c.bytecode) c.bytecode }

module _ (pattern : Bytes) where
  unfoldable pub peek : Compiler → ℕ
  peek c = get_or pattern c.pos 0

  unfoldable pub at_end : Compiler → Bool
  at_end c = leb (length pattern) c.pos

  -- `advance` after the character was read by `peek`
  unfoldable pub advance : Compiler → Compiler
  unfolding at_end
  advance c = if at_end c then c else record c { pos = c.pos + 1 }

  -- one range of a class
  unfoldable pub read_range : Compiler → List RangePair × Compiler
  unfolding peek advance
  read_range c =
      let lo = peek c in
      let c₁ = advance c in
      if not (at_end c₁) && peek c₁ == b'-'
      then (let c₂ = advance c₁ in
          if at_end c₂ || peek c₂ == b']'
          then (record { lo = lo; hi = lo } ∷ record { lo = b'-'; hi = b'-' } ∷ [], c₂)
          else (record { lo = lo; hi = peek c₂ } ∷ [], advance c₂))
      else (record { lo = lo; hi = lo } ∷ [], c₁)

  -- `none` when the fuel is used up
  unfoldable pub read_ranges : ℕ → List RangePair → Compiler → Option (List RangePair × Compiler)
  unfolding read_range
  read_ranges zero ranges c = none
  read_ranges (suc n) ranges c = elim (not (at_end c) && not (peek c == b']')) [
    | false ↦ some (ranges, c)
    | true ↦ let (rs, c') = read_range c in read_ranges n (ranges ++ rs) c'
  ]

  -- the rest of a class, after `^` was read or not
  unfoldable pub compile_ranges : ℕ → Bool → Compiler → Compiled
  unfolding read_ranges emit_class
  compile_ranges n negated c = if at_end c then error c else elim (read_ranges n [] c) [
    | none ↦ out_of_fuel
    | some (ranges, c') ↦
        if at_end c'
        then error c'
        else ok (record (advance c') { bytecode = emit_class negated ranges c'.bytecode })
  ]

  unfoldable pub compile_class : ℕ → Compiler → Compiled
  unfolding compile_ranges
  compile_class n c =
      if not (at_end c) && peek c == b'^'
      then compile_ranges n true (advance c)
      else compile_ranges n false c

  unfoldable pub compile_escape : Compiler → Compiled
  compile_escape c =
      if at_end c
      then error c
      else let esc = peek c in
        ok (
          push (advance c) (
            (if esc == b'd'
              then byte test_digit ∷ []
              else if esc == b'w'
              then byte test_word ∷ []
              else if esc == b's'
              then byte test_whitespace ∷ []
              else byte test_single ∷ esc ∷ [])
            ++ (byte inc_pos_eq ∷ [])))

  unfoldable pub compile_literal : Compiler → Compiled
  compile_literal c =
      let ch = peek c in
      if ch == b'*' || ch == b'+' || ch == b'?' || ch == b')' || ch == b']' || ch == b'|'
      then error c
      else ok (push (advance c) (byte test_single ∷ ch ∷ byte inc_pos_eq ∷ []))

  -- after the alternation of a group
  unfoldable pub close_group : ℕ → Compiler → Compiled
  close_group group_id c =
      if at_end c || not (peek c == b')')
      then error c
      else ok (push (advance c) (byte group_end ∷ (group_id % 256) ∷ []))

  unfoldable pub compile_group : (Compiler → Compiled) → Compiler → Compiled
  unfolding close_group
  compile_group alternation c =
      let group_id = c.next_group_id in
      alternation (record c {
        next_group_id = (group_id + 1) % 2 ^ 32;
        bytecode = c.bytecode ++ (byte group_start ∷ (group_id % 256) ∷ []);
      })
      >>= close_group group_id

  unfoldable pub compile_primary : ℕ → (Compiler → Compiled) → Compiler → Compiled
  unfolding compile_group compile_class compile_escape compile_literal
  compile_primary n alternation c =
      if at_end c
      then error c
      else if peek c == b'('
      then compile_group alternation (advance c)
      else if peek c == b'['
      then compile_class n (advance c)
      else if peek c == b'.'
      then ok (push (advance c) (byte test_any ∷ byte inc_pos_eq ∷ []))
      else if peek c == b'\\'
      then compile_escape (advance c)
      else compile_literal c

  unfoldable pub quantify : ℕ → Compiler → Compiled
  unfolding star_instrs plus_instrs
  quantify primary_start c =
      if at_end c
      then ok c
      else if peek c == b'*'
      then ok (record (advance c) { bytecode = star_instrs primary_start c.bytecode })
      else if peek c == b'+'
      then ok (record (advance c) { bytecode = plus_instrs primary_start c.bytecode })
      else if peek c == b'?'
      then ok (push (advance c) (byte set_flag ∷ 1 ∷ []))
      else ok c

  unfoldable pub compile_quantified : ℕ → (Compiler → Compiled) → Compiler → Compiled
  unfolding compile_primary quantify
  compile_quantified n alternation c =
      compile_primary n alternation c >>= quantify (length c.bytecode)

  unfoldable pub concatenation_loop :
      ℕ → (Compiler → Compiled) → Bool → List ℕ → Compiler → Compiled
  concatenation_loop zero quantified first jumps c = out_of_fuel
  concatenation_loop (suc n) quantified first jumps c =
      elim (not (at_end c) && not (peek c == b')') && not (peek c == b'|')) [
        | false ↦ ok (resolve jumps c)
        | true ↦
            let (c', jumps') = link first jump_neq jumps c in
            quantified c' >>= concatenation_loop n quantified false jumps'
      ]

  unfoldable pub compile_concatenation : ℕ → (Compiler → Compiled) → Compiler → Compiled
  unfolding concatenation_loop compile_quantified
  compile_concatenation n alternation c =
      concatenation_loop n (compile_quantified n alternation) true [] c

  unfoldable pub alternation_loop : ℕ → (Compiler → Compiled) → List ℕ → Compiler → Compiled
  alternation_loop zero concatenation jumps c = out_of_fuel
  alternation_loop (suc n) concatenation jumps c = elim (not (at_end c) && peek c == b'|') [
    | false ↦ ok (resolve jumps c)
    | true ↦
        let (c', jumps') = link false jump_eq jumps (advance c) in
        concatenation c' >>= alternation_loop n concatenation jumps'
  ]

  -- `n` bounds the rounds of the loops, the first argument the depth of the groups
  unfoldable pub compile_alternation : ℕ → ℕ → Compiler → Compiled
  unfolding compile_concatenation alternation_loop
  compile_alternation zero n c = out_of_fuel
  compile_alternation (suc depth) n c =
      let concatenation = compile_concatenation n (compile_alternation depth n) in
      concatenation c >>= alternation_loop n concatenation []
