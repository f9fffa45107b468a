-- ===== src/Regex/OwnGroups.antt =====
-- src/regex.cpp: the groups that `exec_at` leaves in a fresh array, and that `RegexMatch` copies.
use Prim.Native.Nat.{min}
use stdromano.Prelude.{
  ℕ, zero, suc, ◌+◌, ◌≤◌, ◌<◌, ◌≡◌, refl, sym, ap, ◌∙◌, List, [], ◌∷◌, ◌++◌, some, true, false,
  arith, length, drop, ltb, not, ◌&&◌, ◌==◌, if◌then◌else◌, Bool-cases, inl, inr, set, replicate,
  append_assoc, append-nil, length-append,
}
use mathlib.Core.Path.{subst}
use stdromano.Regex.Opcode.{Bytes}
use stdromano.Regex.Vm.{
  RegexGroup, Machine, Outcome, running, halted, fault, run, new_machine, no_group, matched,
}
use stdromano.Regex.Api.{
  Regex, RegexMatch, new_match, shift_groups, copy_groups, exec_at, exec_fresh, no_groups,
}

-- `n` slots from the group `g` on: a group of a run that matched, moved to where the run began, and
-- nothing for the others and from `count` on
abbrev pub own_groups : ℕ → ℕ → ℕ → List RegexGroup → ℕ → List RegexGroup
own_groups start count g vs zero = []
own_groups start count g [] (suc n) = no_group ∷ own_groups start count (g + 1) [] n
own_groups start count g (v ∷ vs) (suc n) =
    (if ltb g count && matched v
      then record { start = start + v.start; end = start + v.end }
      else no_group)
    ∷ own_groups start count (g + 1) vs n

abbrev pub behind_first : List RegexGroup → List RegexGroup
behind_first [] = []
behind_first (g ∷ gs) = gs

-- the array of a run from `start` on: the whole match, and the 15 groups behind it
abbrev pub array_of : Bytes → ℕ → ℕ → Machine → List RegexGroup
array_of str count start vm =
    record { start = start; end = min (start + vm.sp) (length str) }
    ∷ own_groups start count 1 (behind_first vm.groups) 15

own_groups-nil : (start count g n : ℕ) → own_groups start count g [] n ≡ replicate n no_group
own_groups-nil start count g zero = refl
own_groups-nil start count g (suc n) = rw (own_groups-nil start count (g + 1) n)

set-at :
    (pre xs : List RegexGroup) (x w : RegexGroup) (g : ℕ)
    → g ≡ length pre
    → set (pre ++ x ∷ xs) g w ≡ pre ++ w ∷ xs
set-at [] xs x w g e = rw e
set-at (y ∷ pre) xs x w g e = rw e (ap (λ ys. y ∷ ys) (set-at pre xs x w (length pre) refl))

set-past : (pre : List RegexGroup) (w : RegexGroup) (g : ℕ) → length pre ≤ g → set pre g w ≡ pre
set-past [] w g h = refl
set-past (y ∷ pre) w zero h = absurd (omega arith)
set-past (y ∷ pre) w (suc g) h = ap (λ ys. y ∷ ys) (set-past pre w g (omega arith))

copy_groups-own_groups :
    (start count g n : ℕ) (vs : List RegexGroup)
    → copy_groups g count (own_groups start count g vs n) ≡ own_groups start count g vs n
unfolding copy_groups
copy_groups-own_groups start count g zero vs = refl
copy_groups-own_groups start count g (suc n) [] =
    rw (copy_groups-own_groups start count (g + 1) n []) (ground arith)
copy_groups-own_groups start count g (suc n) (v ∷ vs) =
    rw (copy_groups-own_groups start count (g + 1) n vs) (ground arith)

module _ (re : Regex) (rounds : ℕ) (str : Bytes) where
  shift_groups-past :
      (start g : ℕ) (vs pre : List RegexGroup)
      → length pre ≤ g
      → shift_groups re rounds str start g vs pre ≡ pre
  unfolding shift_groups
  shift_groups-past start g [] pre h = refl
  shift_groups-past start g (v ∷ vs) pre h =
      let w : RegexGroup = record { start = start + v.start; end = start + v.end } in
      let same = set-past pre w g h in
      let rest = shift_groups-past start (g + 1) vs pre (omega arith) in
      elim (Bool-cases (not (g == 0) && ltb g re.group_count && matched v)) [
        | inl on ↦ rw (on, same) rest
        | inr off ↦ rw off rest
      ]

  shift_groups-own_groups :
      (start g n : ℕ) (vs pre : List RegexGroup)
      → g ≡ length pre
      → 0 < g
      → shift_groups re rounds str start g vs (pre ++ replicate n no_group)
        ≡ pre ++ own_groups start re.group_count g vs n
  unfolding shift_groups
  shift_groups-own_groups start g n [] pre e pos = rw (own_groups-nil start re.group_count g n)
  shift_groups-own_groups start g zero (v ∷ vs) pre e pos =
      rw (append-nil pre) (shift_groups-past start g (v ∷ vs) pre (omega arith))
  shift_groups-own_groups start g (suc n) (v ∷ vs) pre e pos =
      let w : RegexGroup = record { start = start + v.start; end = start + v.end } in
      let ih : (x : RegexGroup)
          → shift_groups re rounds str start (g + 1) vs (pre ++ x ∷ replicate n no_group)
            ≡ pre ++ x ∷ own_groups start re.group_count (g + 1) vs n =
        λ x.
          subst
            (λ ys.
              shift_groups re rounds str start (g + 1) vs ys
              ≡ pre ++ x ∷ own_groups start re.group_count (g + 1) vs n)
            (append_assoc pre (x ∷ []) (replicate n no_group))
            (shift_groups-own_groups start (g + 1) n vs (pre ++ x ∷ [])
                (omega (arith, length-append pre (x ∷ []))) (omega arith)
              ∙ append_assoc pre (x ∷ []) (own_groups start re.group_count (g + 1) vs n)) in
      elim (Bool-cases (not (g == 0) && ltb g re.group_count && matched v)) [
        | inl on ↦
            let slot : (ltb g re.group_count && matched v) ≡ true = ground arith in
            rw (on, slot, set-at pre (replicate n no_group) no_group w g e) (ih w)
        | inr off ↦
            let slot : (ltb g re.group_count && matched v) ≡ false = ground arith in
            rw (off, slot) (ih no_group)
      ]

  -- The match has the groups of a run that halts with a match, from where the match starts.
  abbrev pub IsOwn : RegexGroup → RegexMatch → Type 0
  IsOwn w m =
      (vm : Machine) × (run re.bytecode (drop w.start str) rounds new_machine ≡ halted true vm)
      × (m.groups ≡ array_of str re.group_count w.start vm)
      × (m.source ≡ str)
      × (m.group_count ≡ re.group_count)

  array_of-shift_groups :
      (start : ℕ) (vm : Machine)
      → shift_groups re rounds str start 0 vm.groups
          (set no_groups 0 (record { start = start; end = min (start + vm.sp) (length str) }))
        ≡ array_of str re.group_count start vm
  unfolding shift_groups
  array_of-shift_groups start vm = go vm.groups
    where
      whole : RegexGroup
      whole = record { start = start; end = min (start + vm.sp) (length str) }

      go :
          (vs : List RegexGroup)
          → shift_groups re rounds str start 0 vs (set no_groups 0 whole)
            ≡ whole ∷ own_groups start re.group_count 1 (behind_first vs) 15
      go [] = refl
      go (v ∷ vs) = shift_groups-own_groups start 1 15 vs (whole ∷ []) refl (omega arith)

  pub exec_fresh-IsOwn :
      (start : ℕ) (gs : List RegexGroup)
      → 0 < re.group_count
      → exec_fresh re rounds str start ≡ some (some gs)
      → (w : RegexGroup) → w.start ≡ start
      → IsOwn w (new_match str true gs re.group_count)
  unfolding exec_at new_match copy_groups
  exec_fresh-IsOwn start gs pos h w at_start =
      go (run re.bytecode (drop start str) rounds new_machine) refl
    where
      go :
          (o : Outcome)
          → run re.bytecode (drop start str) rounds new_machine ≡ o
          → IsOwn w (new_match str true gs re.group_count)
      go (running m) e = cc (rw (e, exec_at) at h)
      go fault e = cc (rw (e, exec_at) at h)
      go (halted false m) e = cc (rw (e, exec_at) at h)
      go (halted true m) e =
          let array : array_of str re.group_count start m ≡ gs =
            sym (array_of-shift_groups start m) ∙ ground arith in
          let copied = copy_groups-own_groups start re.group_count 1 15 (behind_first m.groups) in
          let all : copy_groups 0 re.group_count gs ≡ array_of str re.group_count start m =
            rw (sym array) (rw copied (ground arith)) in
          (m, rw at_start e, rw at_start all, refl, refl)
