-- ===== src/Regex/Vm.antt =====
-- src/regex.cpp: `RegexVM` and `regex_exec`. `char` is signed, as on the x64 targets.
-- A step that reads the bytecode out of bounds, or whose jump overflows an `int`, is a fault.
-- A position stays below the size of an object in memory, so `++` on it cannot wrap.
use stdromano.Prelude.{
  ℕ, zero, suc, ◌+◌, ◌-◌, ◌%◌, ◌^◌, List, Option, none, some, Bool, true, false, not, ◌&&◌, ◌||◌,
  ltb, leb, ◌==◌, if◌then◌else◌, set, get_elem?, replicate, ◌>>=◌,
}
use stdromano.Regex.Opcode.{
  Bytes, OpCode, opcode, decode_jump, test_single, test_negated_single, test_range,
  test_negated_range, test_any, test_digit, test_word, test_whitespace, test_lower_case,
  test_upper_case, jump, jump_eq, jump_neq, accept, fail, group_start, group_end, inc_pos,
  inc_pos_eq, set_flag,
}

pub record RegexGroup : Type 0 where
  pub start : ℕ
  pub end : ℕ

abbrev pub no_group : RegexGroup
no_group = record { start = 0; end = 0 }

unfoldable pub matched : RegexGroup → Bool
matched g = not (g.start == g.end)

abbrev pub regex_max_groups : ℕ
regex_max_groups = 16

-- the fields of `RegexVM` that change; the bytecode and the text are parameters
pub record Machine : Type 0 where
  pub sp : ℕ
  pub pc : ℕ
  pub status_flag : Bool
  pub groups : List RegexGroup

unfoldable pub new_machine : Machine
new_machine = record {
  sp = 0;
  pc = 0;
  status_flag = false;
  groups = replicate regex_max_groups no_group;
}

pub data Outcome : Type 0 where
  running : Machine → Outcome
  halted : Bool → Machine → Outcome
  fault : Outcome

-- the order of `char` on bytes
abbrev pub char_le : ℕ → ℕ → Bool
char_le a b = leb ((a + 128) % 256) ((b + 128) % 256)

-- the classes of <cctype> in the C locale
unfoldable pub is_digit : ℕ → Bool
is_digit c = leb b'0' c && leb c b'9'

unfoldable pub is_lower : ℕ → Bool
is_lower c = leb b'a' c && leb c b'z'

unfoldable pub is_upper : ℕ → Bool
is_upper c = leb b'A' c && leb c b'Z'

unfoldable pub is_space : ℕ → Bool
is_space c = c == 32 || leb 9 c && leb c 13

unfoldable pub is_word : ℕ → Bool
is_word c = is_digit c || is_lower c || is_upper c || c == b'_'

-- `(int)pc + 5 + jmp` as a `size_t`; `none` where the sum is no `int`
unfoldable pub jump_target : ℕ → ℕ → Option ℕ
jump_target pc jmp =
    if ltb jmp (2 ^ 31)
    then if ltb (pc + 5 + jmp) (2 ^ 31) then some (pc + 5 + jmp) else none
    else if ltb (pc + 5) (2 ^ 31)
    then if leb (2 ^ 32 - jmp) (pc + 5)
      then some (pc + 5 + jmp - 2 ^ 32)
      else some (2 ^ 64 + pc + 5 + jmp - 2 ^ 32)
    else none

abbrev pub set_start : List RegexGroup → ℕ → ℕ → List RegexGroup
set_start groups gid sp = elim (get_elem? groups gid) [
  | none ↦ groups
  | some g ↦ set groups gid (record g { start = sp })
]

abbrev pub set_end : List RegexGroup → ℕ → ℕ → List RegexGroup
set_end groups gid sp = elim (get_elem? groups gid) [
  | none ↦ groups
  | some g ↦ set groups gid (record g { end = sp })
]

module _ (code str : Bytes) where
  -- a test of the character at `sp`, which fails at the end of the text
  unfoldable pub test_char : ℕ → (ℕ → Option Bool) → Machine → Outcome
  test_char size test m = elim (get_elem? str m.sp) [
    | none ↦ running (record m { status_flag = false; pc = m.pc + size })
    | some c ↦ elim (test c) [
      | none ↦ fault
      | some b ↦ running (record m { status_flag = b; pc = m.pc + size })
    ]
  ]

  unfoldable pub operand : Machine → ℕ → Option ℕ
  operand m k = get_elem? code (m.pc + k)

  unfoldable pub take_jump : Machine → Outcome
  take_jump m = elim (decode_jump code (m.pc + 1) >>= jump_target m.pc) [
    | none ↦ fault
    | some target ↦ running (record m { pc = target })
  ]

  abbrev pub with_operand : Machine → (ℕ → Machine) → Outcome
  with_operand m next = elim (get_elem? code (m.pc + 1)) [
    | none ↦ fault
    | some b ↦ running (next b)
  ]

  -- the cases of the `switch`
  unfoldable pub execute : OpCode → Machine → Outcome
  unfolding test_char operand take_jump is_digit is_lower is_upper is_space is_word
  execute test_single m = test_char 2 (λ c. do b ← operand m 1; some (c == b)) m
  execute test_negated_single m = test_char 2 (λ c. do b ← operand m 1; some (not (c == b))) m
  execute test_range m =
      test_char 3
        (λ c. do
          lo ← operand m 1
          if char_le lo c then (do hi ← operand m 2; some (char_le c hi)) else some false)
        m
  execute test_negated_range m =
      test_char 3
        (λ c. do
          lo ← operand m 1
          if char_le lo c then (do hi ← operand m 2; some (not (char_le c hi))) else some true)
        m
  execute test_any m = test_char 1 (λ c. some (not (c == 10))) m
  execute test_digit m = test_char 1 (λ c. some (is_digit c)) m
  execute test_word m = test_char 1 (λ c. some (is_word c)) m
  execute test_whitespace m = test_char 1 (λ c. some (is_space c)) m
  execute test_lower_case m = test_char 1 (λ c. some (is_lower c)) m
  execute test_upper_case m = test_char 1 (λ c. some (is_upper c)) m
  execute jump m = take_jump m
  execute jump_eq m = if m.status_flag then take_jump m else running (record m { pc = m.pc + 5 })
  execute jump_neq m = if m.status_flag then running (record m { pc = m.pc + 5 }) else take_jump m
  execute accept m = halted true m
  execute fail m = halted false m
  execute group_start m =
      with_operand m (λ gid. record m { groups = set_start m.groups gid m.sp; pc = m.pc + 2 })
  execute group_end m =
      with_operand m (λ gid. record m { groups = set_end m.groups gid m.sp; pc = m.pc + 2 })
  execute inc_pos m = running (record m { sp = m.sp + 1; pc = m.pc + 1 })
  execute inc_pos_eq m =
      running (record m { sp = if m.status_flag then m.sp + 1 else m.sp; pc = m.pc + 1 })
  execute set_flag m = with_operand m (λ b. record m { status_flag = not (b == 0); pc = m.pc + 2 })

  -- one round of the loop of `regex_exec`
  unfoldable pub step : Machine → Outcome
  step m = elim (get_elem? code m.pc) [
    | none ↦ halted m.status_flag m
    | some b ↦ elim (opcode b) [ none ↦ halted false m | some op ↦ execute op m ]
  ]

  -- the loop for a number of rounds; still running if they are used up
  unfoldable pub run : ℕ → Machine → Outcome
  run zero m = running m
  run (suc n) m = elim (step m) [
    | running m' ↦ run n m'
    | halted b m' ↦ halted b m'
    | fault ↦ fault
  ]
