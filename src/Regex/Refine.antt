-- ===== src/Regex/Refine.antt =====
-- src/regex.cpp: `Regex::compile`, from the pattern to the answers of the machine.
use stdromano.Prelude.{
  ℕ, zero, suc, ◌+◌, ◌-◌, ◌%◌, ◌^◌, ◌<◌, ◌≤◌, ◌≡◌, refl, sym, ap, ◌∙◌, [], ◌∷◌, ◌++◌, Option, none,
  some, true, false, arith, length, length-append, length-set, get_elem?, if◌then◌else◌, Bool-cases,
  inl, inr,
}
use mathlib.Core.Path.{subst}
use stdromano.Regex.Opcode.{
  Bytes, byte, opcode, jump_neq, accept, fail, jump_bytes, jump_fail, emit_fail_jump,
  encode_jump_at,
}
use stdromano.Regex.Syntax.{Fragment, size, code, program, length-code, length-program}
use stdromano.Regex.Semantics.{eval}
use stdromano.Regex.Compiler.{
  Compiled, ok, failed, out_of_fuel, new_compiler, compile_alternation, at_end,
}
use stdromano.Regex.Finalize.{is_jump, resolve_jump, resolve_fail_jumps, finalize_bytecode}
use stdromano.Regex.Reads.{Reads, items}
use stdromano.Regex.Appends.{Appends, appended, Reads-at}
use stdromano.Regex.Cursor.{IsPlain}
use stdromano.Regex.Grammar.{compile_alternation-Appends}
use stdromano.Regex.Resolve.{finalize_bytecode-code}
use stdromano.Regex.Correct.{Answers, start_state, run-program}
use stdromano.Regex.Api.{Regex, compile}

length-encode_jump_at : (c : Bytes) (p v : ℕ) → length (encode_jump_at c p v) ≡ length c
unfolding encode_jump_at
length-encode_jump_at c p v = simp length-set

length-resolve_jump :
    (fl i : ℕ) (c c' : Bytes) → resolve_jump fl i c ≡ some c' → length c' ≡ length c
unfolding resolve_jump
length-resolve_jump fl i c c' h =
    ground (arith, length-encode_jump_at c (i + 1) ((fl + 2 ^ 64 - (i + 5)) % 2 ^ 32))

length-resolve_round :
    (fl i b : ℕ) (c c' : Bytes)
    → (if is_jump (opcode b) then resolve_jump fl i c else some c) ≡ some c'
    → length c' ≡ length c
length-resolve_round fl i b c c' h = elim (Bool-cases (is_jump (opcode b))) [
  | inl jumps ↦ length-resolve_jump fl i c c' (rw jumps at h)
  | inr plain ↦ ground arith
]

length-resolve_fail_jumps :
    (n fl i : ℕ) (c : Bytes) {c' : Bytes}
    → resolve_fail_jumps n fl i c ≡ some c'
    → length c' ≡ length c
unfolding resolve_fail_jumps
length-resolve_fail_jumps zero fl i c h = cc
length-resolve_fail_jumps (suc n) fl i c {c'} h =
    at_byte (get_elem? c i) refl (λ j d q. length-resolve_fail_jumps n fl j d q)
  where
    Rest : Type 0
    Rest = (j : ℕ) (d : Bytes) → resolve_fail_jumps n fl j d ≡ some c' → length c' ≡ length d

    at_round :
        (b : ℕ) (o : Option Bytes)
        → get_elem? c i ≡ some b
        → (if is_jump (opcode b) then resolve_jump fl i c else some c) ≡ o
        → Rest
        → length c' ≡ length c
    at_round b none e r ih = cc (rw (e, r, resolve_fail_jumps) at h)
    at_round b (some d) e r ih =
        ih _ d (rw (e, r, resolve_fail_jumps) at h) ∙ length-resolve_round fl i b c d r

    at_byte : (o : Option ℕ) → get_elem? c i ≡ o → Rest → length c' ≡ length c
    at_byte none e ih = ground arith
    at_byte (some b) e ih = at_round b _ e refl ih

length-finalize_bytecode :
    (f : Fragment) {c' : Bytes} → finalize_bytecode (code f none) ≡ some c' → length c' ≡ size f + 7
unfolding finalize_bytecode emit_fail_jump jump_bytes
length-finalize_bytecode f h =
    let cf = code f none in
    let marked = cf ++ (byte jump_neq ∷ jump_bytes jump_fail) in
    let whole = marked ++ (byte accept ∷ byte fail ∷ []) in
    length-resolve_fail_jumps (length whole + 1) (length whole - 1) 0 whole h
    ∙ omega (
      arith,
      length-append marked (byte accept ∷ byte fail ∷ []),
      length-append cf (byte jump_neq ∷ jump_bytes jump_fail),
      length-code f none,
    )

-- The whole pattern reads as a tree by the grammar, and the groups in it are numbered from 1 up to
-- a count.
abbrev pub Denotes : Bytes → ℕ → Fragment → Type 0
Denotes pattern count f = (q : ℕ) × Reads pattern (items false) 0 1 f q count × (length pattern ≤ q)

-- A pattern that compiles reads as a tree by the grammar, with the group count of the regex, and
-- the bytecode of the regex is the program of that tree, when no byte of the pattern is one that the
-- scan reads as an instruction with an operand and the bytecode is no longer than the mark of a jump
-- to `Fail`.
pub compile-program :
    (pattern : Bytes) {re : Regex}
    → IsPlain pattern
    → compile pattern ≡ some (true, re)
    → length re.bytecode ≤ jump_fail
    → (f : Fragment) × Denotes pattern re.group_count f × (re.bytecode ≡ program f)
unfolding compile at_end
compile-program pattern {re} plain h small =
    go (compile_alternation pattern (length pattern + 1) (length pattern + 1) new_compiler) refl (
      compile_alternation-Appends pattern plain (length pattern + 1) (length pattern + 1)
        new_compiler)
  where
    go :
        (r : Compiled)
        → compile_alternation pattern (length pattern + 1) (length pattern + 1) new_compiler ≡ r
        → Appends pattern (items false) 0 1 [] r
        → (f : Fragment) × Denotes pattern re.group_count f × (re.bytecode ≡ program f)
    go out_of_fuel e a = cc (rw (e, compile) at h)
    go (failed c) e a = cc (rw (e, compile) at h)
    go (ok c) e (appended f d i q) =
        let final : finalize_bytecode c.bytecode ≡ some re.bytecode = ground arith in
        let final' = rw q at final in
        let bound = length-finalize_bytecode f final' in
        let whole = finalize_bytecode-code f i (omega arith) in
        let count : c.next_group_id ≡ re.group_count = ground arith in
        let consumed : length pattern ≤ c.pos = ground arith in
        (f, (c.pos, Reads-at refl refl refl count d, consumed), ground arith)

-- For a pattern without a byte that the scan reads as an instruction with an operand, and that
-- compiles to at least 5 bytes less than the mark of a jump to `Fail`, there is a tree as which the
-- whole pattern reads by the grammar, and on every text the machine halts with the flag, the
-- position and the groups that the evaluation of that tree gives, for every bound on its loops with
-- which the evaluation finishes or gives up.
pub compile-Answers :
    (pattern : Bytes) {re : Regex}
    → IsPlain pattern
    → compile pattern ≡ some (true, re)
    → length re.bytecode + 5 ≤ jump_fail
    → (f : Fragment) × Denotes pattern re.group_count f
      × ((str : Bytes) (n : ℕ) → Answers re.bytecode str (eval str n f start_state))
compile-Answers pattern plain h small =
    let (f, d, e) = compile-program pattern plain h (omega arith) in
    let long : size f + 11 < 2 ^ 31 = omega (arith, length-program f, ap length e) in
    (
      f,
      d,
      λ str n.
          subst (λ b. Answers b str (eval str n f start_state)) (sym e) (run-program f str n long),
    )
