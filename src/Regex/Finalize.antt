-- ===== src/Regex/Finalize.antt =====
-- src/regex.cpp: `finalize_bytecode`, which appends the last instructions and resolves the jumps
-- to `Fail`. `none` is a read of the bytecode out of bounds.
use stdromano.Prelude.{
  ℕ, zero, suc, ◌+◌, ◌-◌, ◌%◌, ◌^◌, [], ◌∷◌, ◌++◌, Option, none, some, Bool, true, false, ◌==◌,
  if◌then◌else◌, length, get_elem?,
}
use stdromano.Regex.Opcode.{
  Bytes, OpCode, opcode, byte, decode_jump, encode_jump_at, emit_fail_jump, jump_fail, test_single,
  test_range, test_negated_range, jump, jump_eq, jump_neq, accept, fail, group_start, group_end,
  set_flag,
}

-- how far the scan goes on behind an instruction, by the cases of its `switch`
unfoldable pub scan_size : Option OpCode → ℕ
scan_size (some jump) = 5
scan_size (some jump_eq) = 5
scan_size (some jump_neq) = 5
scan_size (some test_single) = 2
scan_size (some set_flag) = 2
scan_size (some group_start) = 2
scan_size (some group_end) = 2
scan_size (some test_range) = 3
scan_size (some test_negated_range) = 3
scan_size _ = 1

-- a jump whose offset is the mark is resolved
unfoldable pub resolve_jump : ℕ → ℕ → Bytes → Option Bytes
resolve_jump fail_addr i code = elim (decode_jump code (i + 1)) [
  | none ↦ none
  | some offset ↦
      if offset == jump_fail
      then some (encode_jump_at code (i + 1) ((fail_addr + 2 ^ 64 - (i + 5)) % 2 ^ 32))
      else some code
]

abbrev pub is_jump : Option OpCode → Bool
is_jump (some jump) = true
is_jump (some jump_eq) = true
is_jump (some jump_neq) = true
is_jump _ = false

-- the loop; the fuel bounds its rounds, and each one goes on by a byte at least
unfoldable pub resolve_fail_jumps : ℕ → ℕ → ℕ → Bytes → Option Bytes
unfolding resolve_jump scan_size
resolve_fail_jumps zero fail_addr i code = none
resolve_fail_jumps (suc n) fail_addr i code = elim (get_elem? code i) [
  | none ↦ some code
  | some b ↦ elim (if is_jump (opcode b) then resolve_jump fail_addr i code else some code) [
    | none ↦ none
    | some code' ↦ resolve_fail_jumps n fail_addr (i + scan_size (opcode b)) code'
  ]
]

unfoldable pub finalize_bytecode : Bytes → Option Bytes
unfolding resolve_fail_jumps
finalize_bytecode code =
    let whole = emit_fail_jump code jump_neq ++ (byte accept ∷ byte fail ∷ []) in
    resolve_fail_jumps (length whole + 1) (length whole - 1) 0 whole
