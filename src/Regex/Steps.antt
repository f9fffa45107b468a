-- ===== src/Regex/Steps.antt =====
-- src/regex.cpp: what single instructions of `regex_exec` do, where they stand in the bytecode.
use stdromano.Prelude.{
  ℕ, suc, ◌+◌, ◌-◌, ◌^◌, ◌≤◌, ◌<◌, ◌≡◌, [], ◌∷◌, ◌++◌, none, some, Bool, false, not, arith, ◌==◌,
  if◌then◌else◌, length, length-append, append_assoc, refl, get_elem?,
}
use stdromano.Regex.Opcode.{
  Bytes, byte, decode_jump, jump_bytes, jump_eq, jump_neq, set_flag, inc_pos_eq, group_start,
  group_end,
}
use stdromano.Regex.Vm.{Machine, running, step, execute, jump_target, set_start, set_end}
use stdromano.Regex.Syntax.{
  CharTest, single, negated_single, range, negated_range, test_bytes, test_size, jump_code, back,
}
use stdromano.Regex.Semantics.{State, machine_at, accepts}

-- the bytes stand in the code from a position on
abbrev pub At : Bytes → ℕ → Bytes → Type 0
At code pc [] = Unit
At code pc (b ∷ bs) = (get_elem? code pc ≡ some b) × At code (pc + 1) bs

pub At-append :
    (code : Bytes) (pc : ℕ) (xs ys : Bytes)
    → At code pc (xs ++ ys)
    → At code pc xs × At code (pc + length xs) ys
At-append code pc [] ys h = (tt, let e : pc ≡ pc + 0 = omega arith in rw (← e) h)
At-append code pc (x ∷ xs) ys h =
    let (l, r) = At-append code (pc + 1) xs ys h.1 in
    let e : pc + 1 + length xs ≡ pc + suc (length xs) = omega arith in ((h.0, l), rw e at r)

get_elem?-middle : (pre xs : Bytes) (x : ℕ) → get_elem? (pre ++ x ∷ xs) (length pre) ≡ some x
get_elem?-middle [] xs x = refl
get_elem?-middle (y ∷ pre) xs x = get_elem?-middle pre xs x

pub At-middle : (pre xs : Bytes) → At (pre ++ xs) (length pre) xs
At-middle pre [] = tt
At-middle pre (x ∷ xs) =
    let e : length (pre ++ x ∷ []) ≡ length pre + 1 = length-append pre (x ∷ []) in
    (
      get_elem?-middle pre xs x,
      rw (append_assoc pre (x ∷ []) xs, e) at (At-middle (pre ++ x ∷ []) xs),
    )

pub At-self : (code : Bytes) → At code 0 code
At-self code = At-middle [] code

module _ (code str : Bytes) where
  pub data Steps : Machine → Machine → Type 0 where
    here : {m : Machine} → Steps m m
    next : {m n o : Machine} → step code str m ≡ running n → Steps n o → Steps m o

pub decode_jump-At :
    (code : Bytes) (pc w : ℕ)
    → w < 2 ^ 32
    → At code pc (jump_bytes w)
    → decode_jump code pc ≡ some w
unfolding decode_jump jump_bytes
decode_jump-At code pc w h a = ground arith

-- the flag after a test
abbrev pub test_flag : Bytes → (ℕ → Bool) → State → Bool
test_flag str pass s = elim (get_elem? str s.sp) [ none ↦ false | some c ↦ pass c ]

module _ (code str : Bytes) (pc : ℕ) (s : State) where
  pub step-test :
      (t : CharTest)
      → At code pc (test_bytes t)
      → step code str (machine_at pc s)
        ≡ running
            (machine_at (pc + test_size t) (record s { status_flag = test_flag str (accepts t) s }))
  unfolding step execute accepts
  step-test (single c) h = ground arith
  step-test (negated_single c) h = ground arith
  step-test (range lo hi) h = ground arith
  step-test (negated_range lo hi) h = ground arith
  step-test _ h = ground arith

  module _ (b : Bool) (flagged : s.status_flag ≡ b) where
    -- a conditional jump that is taken
    pub step-jump_taken :
        (op w target : ℕ)
        → op ≡ (if b then byte jump_eq else byte jump_neq)
        → w < 2 ^ 32
        → jump_target pc w ≡ some target
        → At code pc (jump_code op w)
        → step code str (machine_at pc s) ≡ running (machine_at target s)
    unfolding step execute
    step-jump_taken op w target e h t a = ground (arith, decode_jump-At code (pc + 1) w h a.1)

    -- and one that is passed over
    pub step-jump_passed :
        (op w : ℕ)
        → op ≡ (if b then byte jump_neq else byte jump_eq)
        → At code pc (jump_code op w)
        → step code str (machine_at pc s) ≡ running (machine_at (pc + 5) s)
    unfolding step execute
    step-jump_passed op w e a = ground arith

  pub step-set_flag :
      (v : ℕ)
      → At code pc (byte set_flag ∷ v ∷ [])
      → step code str (machine_at pc s)
        ≡ running (machine_at (pc + 2) (record s { status_flag = not (v == 0) }))
  unfolding step execute
  step-set_flag v a = ground arith

  pub step-inc_pos_eq :
      At code pc (byte inc_pos_eq ∷ [])
      → step code str (machine_at pc s)
        ≡ running (machine_at (pc + 1) (record s { sp = if s.status_flag then s.sp + 1 else s.sp }))
  unfolding step execute
  step-inc_pos_eq a = ground arith

  pub step-group_start :
      (id : ℕ)
      → At code pc (byte group_start ∷ id ∷ [])
      → step code str (machine_at pc s)
        ≡ running (machine_at (pc + 2) (record s { groups = set_start s.groups id s.sp }))
  unfolding step execute
  step-group_start id a = ground arith

  pub step-group_end :
      (id : ℕ)
      → At code pc (byte group_end ∷ id ∷ [])
      → step code str (machine_at pc s)
        ≡ running (machine_at (pc + 2) (record s { groups = set_end s.groups id s.sp }))
  unfolding step execute
  step-group_end id a = ground arith

-- `jump_target` of a forward and of a backward offset
pub jump_target-forward : (pc w : ℕ) → pc + 5 + w < 2 ^ 31 → jump_target pc w ≡ some (pc + 5 + w)
unfolding jump_target
jump_target-forward pc w h = ground arith

pub jump_target-back :
    (pc n : ℕ) → pc + 5 < 2 ^ 31 → n ≤ pc + 5 → 0 < n → jump_target pc (back n) ≡ some (pc + 5 - n)
unfolding jump_target
jump_target-back pc n h k p = ground arith
