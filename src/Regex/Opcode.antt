-- ===== src/Regex/Opcode.antt =====
-- src/regex.cpp: the instruction set and the encoding of jumps.
-- A byte is a number below 256, and an `int` is its 32-bit pattern.
use stdromano.Prelude.{
  ℕ, zero, suc, ◌∙◌, ◌≤◌, ◌+◌, ◌-◌, ◌*◌, ◌/◌, ◌%◌, ◌^◌, ◌<◌, ◌≡◌, List, [], ◌∷◌, ◌++◌, Option, some,
  arith, length, set, get_elem?, ◌>>=◌,
}

abbrev pub Bytes : Type 0
Bytes = List ℕ

pub data OpCode : Type 0 where
  test_single test_negated_single test_range test_negated_range test_any : OpCode
  test_digit test_word test_whitespace test_lower_case test_upper_case : OpCode
  jump jump_eq jump_neq accept fail group_start group_end inc_pos inc_pos_eq set_flag : OpCode

-- `BYTE(op)`, by the order of the enumeration
abbrev pub byte : OpCode → ℕ
byte test_single = 0
byte test_negated_single = 1
byte test_range = 2
byte test_negated_range = 3
byte test_any = 4
byte test_digit = 5
byte test_word = 6
byte test_whitespace = 7
byte test_lower_case = 8
byte test_upper_case = 9
byte jump = 10
byte jump_eq = 11
byte jump_neq = 12
byte accept = 13
byte fail = 14
byte group_start = 15
byte group_end = 16
byte inc_pos = 17
byte inc_pos_eq = 18
byte set_flag = 19

abbrev pub opcodes : List OpCode
opcodes =
    test_single ∷ test_negated_single ∷ test_range ∷ test_negated_range ∷ test_any ∷ test_digit
    ∷ test_word ∷ test_whitespace ∷ test_lower_case ∷ test_upper_case ∷ jump ∷ jump_eq ∷ jump_neq
    ∷ accept ∷ fail ∷ group_start ∷ group_end ∷ inc_pos ∷ inc_pos_eq ∷ set_flag ∷ []

-- the label of a `switch` that a byte selects; `none` is `default`
abbrev pub opcode : ℕ → Option OpCode
opcode b = get_elem? opcodes b

abbrev pub jump_fail : ℕ
jump_fail = 2 ^ 31 - 1

-- the four bytes that `encode_jump_at` writes
unfoldable pub jump_bytes : ℕ → Bytes
jump_bytes w = (w / 2 ^ 24 % 256) ∷ (w / 2 ^ 16 % 256) ∷ (w / 2 ^ 8 % 256) ∷ (w % 256) ∷ []

unfoldable pub encode_jump_at : Bytes → ℕ → ℕ → Bytes
encode_jump_at code pos value =
    set
      (set (set (set code pos (value / 2 ^ 24 % 256)) (pos + 1) (value / 2 ^ 16 % 256)) (pos + 2)
        (value / 2 ^ 8 % 256))
      (pos + 3) (value % 256)

-- `none` is a read out of bounds
unfoldable pub decode_jump : Bytes → ℕ → Option ℕ
decode_jump code pos = do
  b₀ ← get_elem? code pos
  b₁ ← get_elem? code (pos + 1)
  b₂ ← get_elem? code (pos + 2)
  b₃ ← get_elem? code (pos + 3)
  some (b₀ * 2 ^ 24 + b₁ * 2 ^ 16 + b₂ * 2 ^ 8 + b₃)

-- the code with the instruction at its end, and the position of the offset
unfoldable pub emit_jump : Bytes → OpCode → Bytes × ℕ
emit_jump code op = (code ++ (byte op ∷ 0 ∷ 0 ∷ 0 ∷ 0 ∷ []), length code + 1)

unfoldable pub emit_fail_jump : Bytes → OpCode → Bytes
unfolding jump_bytes
emit_fail_jump code op = code ++ (byte op ∷ jump_bytes jump_fail)

unfoldable pub patch_jump : Bytes → ℕ → ℕ → Bytes
patch_jump code jump_pos offset = encode_jump_at code jump_pos offset

encode_jump_at-suc :
    (code : Bytes) (x p w : ℕ) → encode_jump_at (x ∷ code) (suc p) w ≡ x ∷ encode_jump_at code p w
unfolding encode_jump_at
encode_jump_at-suc code x p w =
    let e₁ : suc p + 1 ≡ suc (p + 1) = omega arith in
    let e₂ : suc p + 2 ≡ suc (p + 2) = omega arith in
    let e₃ : suc p + 3 ≡ suc (p + 3) = omega arith in rw (e₁, e₂, e₃)

decode_jump-suc : (code : Bytes) (x p : ℕ) → decode_jump (x ∷ code) (suc p) ≡ decode_jump code p
unfolding decode_jump
decode_jump-suc code x p =
    let e₁ : suc p + 1 ≡ suc (p + 1) = omega arith in
    let e₂ : suc p + 2 ≡ suc (p + 2) = omega arith in
    let e₃ : suc p + 3 ≡ suc (p + 3) = omega arith in rw (e₁, e₂, e₃)

-- A 32-bit operand that is written into four bytes of the code is read back from there.
pub decode_jump-encode_jump_at :
    (code : Bytes) (p w : ℕ)
    → p + 4 ≤ length code
    → w < 2 ^ 32
    → decode_jump (encode_jump_at code p w) p ≡ some w
unfolding decode_jump encode_jump_at
decode_jump-encode_jump_at [] p w h k = absurd (omega arith)
decode_jump-encode_jump_at (x ∷ code) (suc p) w h k = rw (encode_jump_at-suc code x p w) (
    decode_jump-suc (encode_jump_at code p w) x p
    ∙ decode_jump-encode_jump_at code p w (omega arith) k)
decode_jump-encode_jump_at (a ∷ []) zero w h k = absurd (omega arith)
decode_jump-encode_jump_at (a ∷ b ∷ []) zero w h k = absurd (omega arith)
decode_jump-encode_jump_at (a ∷ b ∷ c ∷ []) zero w h k = absurd (omega arith)
decode_jump-encode_jump_at (a ∷ b ∷ c ∷ d ∷ code) zero w h k = ground arith
