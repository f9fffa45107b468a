-- ===== src/Regex/Semantics.antt =====
-- What a fragment does to the position, the flag and the groups: the reference that `regex_exec`
-- is compared with. Matching is possessive: nothing is given back after a failure.
use stdromano.Prelude.{
  ℕ, zero, suc, ◌+◌, List, [], ◌∷◌, none, some, Bool, true, false, not, ◌&&◌, ◌||◌, ◌==◌,
  if◌then◌else◌, get_elem?,
}
use stdromano.Regex.Opcode.{Bytes}
use stdromano.Regex.Vm.{
  RegexGroup, Machine, char_le, is_digit, is_lower, is_upper, is_space, is_word, set_start, set_end,
}
use stdromano.Regex.Syntax.{
  CharTest, single, negated_single, range, negated_range, any, digit, word, whitespace, lower,
  upper, Fragment, empty, test, class, group, seq, alt, opt, star, plus,
}

pub record State : Type 0 where
  pub sp : ℕ
  pub status_flag : Bool
  pub groups : List RegexGroup

abbrev pub machine_at : ℕ → State → Machine
machine_at pc s = record { sp = s.sp; pc = pc; status_flag = s.status_flag; groups = s.groups }

-- `abort` fails the whole match; `unfinished` means that a loop used up its rounds.
pub data Result : Type 0 where
  done abort : State → Result
  unfinished : Result

abbrev pub and_then : Result → (State → Result) → Result
and_then (done s) k = k s
and_then (abort s) k = abort s
and_then unfinished k = unfinished

unfoldable pub accepts : CharTest → ℕ → Bool
accepts (single c) x = x == c
accepts (negated_single c) x = not (x == c)
accepts (range lo hi) x = char_le lo x && char_le x hi
accepts (negated_range lo hi) x = not (char_le lo x && char_le x hi)
accepts any x = not (x == 10)
accepts digit x = is_digit x
accepts word x = is_word x
accepts whitespace x = is_space x
accepts lower x = is_lower x
accepts upper x = is_upper x

unfoldable pub accepts_one : List CharTest → ℕ → Bool
unfolding accepts
accepts_one [] x = false
accepts_one (t ∷ ts) x = accepts t x || accepts_one ts x

-- repeat while the flag is set
unfoldable pub repeat : ℕ → (State → Result) → State → Result
repeat zero body s = unfinished
repeat (suc n) body s = and_then (body s) (λ s'. elim s'.status_flag [
  | true ↦ repeat n body s'
  | false ↦ done (record s' { status_flag = true })
])

module _ (str : Bytes) where
  -- consume one character if it passes, and tell by the flag
  unfoldable pub consume : (ℕ → Bool) → State → State
  consume pass s = elim (get_elem? str s.sp) [
    | none ↦ record s { status_flag = false }
    | some c ↦
        if pass c
        then record s { sp = s.sp + 1; status_flag = true }
        else record s { status_flag = false }
  ]

  -- `n` bounds the rounds of each loop
  unfoldable pub eval : ℕ → Fragment → State → Result
  unfolding consume repeat accepts_one
  eval n empty s = done s
  eval n (test t) s = done (consume (accepts t) s)
  eval n (class ts) s = done (consume (accepts_one ts) s)
  eval n (group id f) s =
      and_then (eval n f (record s { groups = set_start s.groups id s.sp }))
        (λ s'. done (record s' { groups = set_end s'.groups id s'.sp }))
  eval n (seq f g) s =
      and_then (eval n f s) (λ s'. elim s'.status_flag [ true ↦ eval n g s' | false ↦ done s' ])
  eval n (alt f g) s =
      and_then (eval n f s) (λ s'. elim s'.status_flag [ true ↦ done s' | false ↦ eval n g s' ])
  eval n (opt f) s = and_then (eval n f s) (λ s'. done (record s' { status_flag = true }))
  eval n (star f) s = repeat n (eval n f) s
  eval n (plus f) s =
      and_then (eval n f s)
        (λ s'. elim s'.status_flag [ true ↦ repeat n (eval n f) s' | false ↦ abort s' ])
