-- ===== src/Regex/Api.antt =====
-- include/stdromano/regex.hpp and src/regex.cpp: `RegexMatch` and the public methods of `Regex`.
-- A method that runs the machine takes the number of rounds that each run may use. `none` is a run
-- without an answer: its rounds used up, or a read out of bounds. The results of `replace_iter` tell
-- these apart from a read behind the text in its own loop.
use Prim.Native.Nat.{min}
use stdromano.Prelude.{
  ℕ, zero, suc, ◌+◌, ◌-◌, List, [], ◌∷◌, ◌++◌, Option, none, some, Bool, true, false, ltb, leb,
  ◌==◌, if◌then◌else◌, ◌&&◌, length, get_elem?, set, take, drop, replicate, ◌>>=◌, not, ◌||◌,
}
use stdromano.Regex.Opcode.{Bytes}
use stdromano.Regex.Vm.{
  RegexGroup, no_group, matched, regex_max_groups, new_machine, running, halted, fault, run,
}
use stdromano.Regex.Compiler.{ok, failed, out_of_fuel, compile_alternation, new_compiler, at_end}
use stdromano.Regex.Finalize.{finalize_bytecode}

pub record Regex : Type 0 where
  pub bytecode : Bytes
  pub group_count : ℕ

abbrev pub invalid : Regex
invalid = record { bytecode = []; group_count = 0 }

-- `Regex::compile`: its result and the object that it leaves
unfoldable pub compile : Bytes → Option (Bool × Regex)
unfolding finalize_bytecode compile_alternation
compile pattern =
    elim (compile_alternation pattern (length pattern + 1) (length pattern + 1) new_compiler) [
      | out_of_fuel ↦ none
      | failed c ↦ some (false, invalid)
      | ok c ↦
          if at_end pattern c
          then (do
            bytecode ← finalize_bytecode c.bytecode
            some (true, record { bytecode = bytecode; group_count = c.next_group_id }))
          else some (false, invalid)
    ]

unfoldable pub valid : Regex → Bool
valid re = elim re.bytecode [ [] ↦ false | _ ∷ _ ↦ true ]

pub record RegexMatch : Type 0 where
  pub source : Bytes
  pub groups : List RegexGroup
  pub group_count : ℕ
  pub is_match : Bool

abbrev pub no_groups : List RegexGroup
no_groups = replicate regex_max_groups no_group

abbrev pub no_match : RegexMatch
no_match = record { source = []; groups = no_groups; group_count = 0; is_match = false }

-- the loop of the constructor, over the slots from `i` on
unfoldable pub copy_groups : ℕ → ℕ → List RegexGroup → List RegexGroup
copy_groups i count [] = []
copy_groups i count (g ∷ gs) = (if ltb i count then g else no_group) ∷ copy_groups (i + 1) count gs

unfoldable pub new_match : Bytes → Bool → List RegexGroup → ℕ → RegexMatch
unfolding copy_groups
new_match source is_match groups count = record {
  source = source;
  groups = copy_groups 0 count groups;
  group_count = count;
  is_match = is_match;
}

-- `group`; `none` is a read behind the array
unfoldable pub group_at : RegexMatch → ℕ → Option RegexGroup
group_at m i = if ltb i m.group_count then get_elem? m.groups i else some no_group

-- `group_str`
unfoldable pub group_str : RegexMatch → ℕ → Option Bytes
group_str m i =
    if ltb i m.group_count
    then (do
      g ← get_elem? m.groups i
      if matched g then some (take (g.end - g.start) (drop g.start m.source)) else some [])
    else some []

module _ (re : Regex) (rounds : ℕ) (str : Bytes) where
  -- the loop over the groups from `g` on
  unfoldable pub shift_groups : ℕ → ℕ → List RegexGroup → List RegexGroup → List RegexGroup
  shift_groups start g [] groups = groups
  shift_groups start g (v ∷ vs) groups = shift_groups start (g + 1) vs (
      if not (g == 0) && ltb g re.group_count && matched v
      then set groups g (record { start = start + v.start; end = start + v.end })
      else groups)

  -- `exec_at` with an array: `some none` is `false`
  unfoldable pub exec_at : ℕ → List RegexGroup → Option (Option (List RegexGroup))
  unfolding shift_groups
  exec_at start groups = elim (run re.bytecode (drop start str) rounds new_machine) [
    | running m ↦ none
    | fault ↦ none
    | halted false m ↦ some none
    | halted true m ↦
        let whole : RegexGroup = record { start = start; end = min (start + m.sp) (length str) } in
        some (some (shift_groups start 0 m.groups (set groups 0 whole)))
  ]

-- The loops take the call of `exec_at` on a fresh array as `exec`.
abbrev pub Exec : Type 0
Exec = ℕ → Option (Option (List RegexGroup))

abbrev pub first_group : List RegexGroup → RegexGroup
first_group [] = no_group
first_group (g ∷ gs) = g

-- The result of `replace_iter`: the text, a read of the character behind the text, a run without an
-- answer, or the rounds of its loop used up.
pub data Replaced : Type 0 where
  replaced : Bytes → Replaced
  overrun : Replaced
  unanswered : Replaced
  unended : Replaced

-- a text in front of what the rest of the loop gives
unfoldable pub append_front : Bytes → Replaced → Replaced
append_front text (replaced rest) = replaced (text ++ rest)
append_front text overrun = overrun
append_front text unanswered = unanswered
append_front text unended = unended

-- the character at a position, if there is one, and what the rest of the loop gives
unfoldable pub keep_char : Option ℕ → Replaced → Replaced
unfolding append_front
keep_char none rest = overrun
keep_char (some c) rest = append_front (c ∷ []) rest

module _ (exec : Exec) (str : Bytes) (count : ℕ) where
  unfoldable pub match_with : Option RegexMatch
  unfolding new_match
  match_with = do
    r ← exec 0
    some (elim r [ none ↦ no_match | some groups ↦ new_match str true groups count ])

  -- `search`, from `start` on for `n` positions
  unfoldable pub search_loop : ℕ → ℕ → Option RegexMatch
  unfolding new_match
  search_loop zero start = some no_match
  search_loop (suc n) start =
      let rest = search_loop n (start + 1) in
      elim (exec start) [
        | none ↦ none
        | some none ↦ rest
        | some (some groups) ↦
            let g = first_group groups in
            if ltb g.start g.end || start == length str
            then some (new_match str true groups count)
            else rest
      ]

  unfoldable pub search_with : Option RegexMatch
  unfolding search_loop
  search_with = search_loop (length str + 1) 0

  -- `match_iter`: the matches that the callback gets, in order
  unfoldable pub match_loop : ℕ → ℕ → Option (List RegexMatch)
  unfolding new_match
  match_loop zero start = none
  match_loop (suc n) start =
      let next = match_loop n (start + 1) in
      if leb start (length str)
      then elim (exec start) [
        | none ↦ none
        | some none ↦ next
        | some (some groups) ↦
            let match_end = (first_group groups).end in
            let rest = match_loop n match_end in
            if leb match_end start
            then next
            else (do ms ← rest; some (new_match str true groups count ∷ ms))
      ]
      else some []

  unfoldable pub match_all_with : Option (List RegexMatch)
  unfolding match_loop
  match_all_with = match_loop (length str + 2) 0

  -- `replace_iter`; `str[search_start]` is also read at the end of the text
  unfoldable pub replace_loop : (RegexMatch → Bytes) → ℕ → ℕ → Replaced
  unfolding new_match keep_char append_front
  replace_loop callback zero start = unended
  replace_loop callback (suc n) start =
      let next = replace_loop callback n (start + 1) in
      let keep = keep_char (get_elem? str start) next in
      if leb start (length str)
      then elim (exec start) [
        | none ↦ unanswered
        | some none ↦ if ltb start (length str) then keep else replaced []
        | some (some groups) ↦
            let match_end = (first_group groups).end in
            let rest = replace_loop callback n match_end in
            if leb match_end start
            then keep
            else append_front (callback (new_match str true groups count)) rest
      ]
      else replaced []

  unfoldable pub replace_with : (RegexMatch → Bytes) → Replaced
  unfolding replace_loop
  replace_with callback = replace_loop callback (length str + 2) 0

module _ (re : Regex) (rounds : ℕ) (str : Bytes) where
  abbrev pub exec_fresh : Exec
  exec_fresh start = exec_at re rounds str start no_groups

  unfoldable pub match : Option RegexMatch
  unfolding match_with exec_at
  match = if valid re then match_with exec_fresh str re.group_count else some no_match

  unfoldable pub search : Option RegexMatch
  unfolding search_with exec_at
  search = if valid re then search_with exec_fresh str re.group_count else some no_match

  unfoldable pub match_all : Option (List RegexMatch)
  unfolding match_all_with exec_at
  match_all = if valid re then match_all_with exec_fresh str re.group_count else some []

  unfoldable pub replace_iter : (RegexMatch → Bytes) → Replaced
  unfolding replace_with exec_at
  replace_iter callback =
      if valid re then replace_with exec_fresh str re.group_count callback else replaced []

  unfoldable pub replace_all : Bytes → Replaced
  unfolding replace_iter
  replace_all text = replace_iter (λ _. text)
