-- ===== src/Regex/Matches.antt =====
-- src/regex.cpp: the matches that `match_iter` reports, their order and their groups.
use Prim.Native.Nat.{min}
use stdromano.Prelude.{
  ℕ, zero, suc, ◌+◌, ◌≤◌, ◌<◌, ◌≡◌, ◌≢◌, refl, ap, ◌∙◌, List, [], ◌∷◌, Option, none, some, true,
  false, arith, length, drop, leb, Bool-cases, inl, inr, set,
}
use mathlib.Core.Path.{subst}
use stdromano.Regex.Opcode.{Bytes}
use stdromano.Regex.Vm.{RegexGroup, Outcome, running, halted, fault, run, new_machine}
use stdromano.Regex.OwnGroups.{IsOwn, exec_fresh-IsOwn}
use stdromano.Regex.Api.{
  Regex, RegexMatch, new_match, shift_groups, exec_at, exec_fresh, Exec, first_group, match_loop,
  match_all_with, match_all, no_groups, valid,
}

-- the interval of the whole match
abbrev pub span : RegexMatch → RegexGroup
span m = first_group m.groups

-- Every match has a property, and the spans are not empty, do not overlap, go up, and lie between
-- two positions.
abbrev pub InOrder : (RegexMatch → Type 0) → ℕ → ℕ → List RegexMatch → Type 0
InOrder P lo hi [] = Unit
InOrder P lo hi (m ∷ ms) =
    P m
    × (lo ≤ (span m).start)
    × ((span m).start < (span m).end)
    × ((span m).end ≤ hi)
    × InOrder P (span m).end hi ms

-- the match that is reported has the groups of the run from where it starts
abbrev pub HasOwnGroups : Regex → ℕ → Bytes → RegexMatch → Type 0
HasOwnGroups re rounds str m = IsOwn re rounds str (span m) m

InOrder-le :
    (P : RegexMatch → Type 0) (lo lo' hi : ℕ) (ms : List RegexMatch)
    → lo ≤ lo'
    → InOrder P lo' hi ms
    → InOrder P lo hi ms
InOrder-le P lo lo' hi [] h i = tt
InOrder-le P lo lo' hi (m ∷ ms) h (p, a, b, c, d) = (p, omega arith, b, c, d)

first_group-set :
    (gs : List RegexGroup) (g : ℕ) (w : RegexGroup)
    → g ≢ 0
    → first_group (set gs g w) ≡ first_group gs
first_group-set [] g w h = refl
first_group-set (x ∷ gs) zero w h = absurd (h refl)
first_group-set (x ∷ gs) (suc g) w h = refl

module _ (re : Regex) (rounds : ℕ) (str : Bytes) where
  -- the slot of the whole match is left alone by the loop over the groups
  first_group-shift_groups :
      (start g : ℕ) (vs groups : List RegexGroup)
      → first_group (shift_groups re rounds str start g vs groups) ≡ first_group groups
  unfolding shift_groups
  first_group-shift_groups start g [] groups = refl
  first_group-shift_groups start g (v ∷ vs) groups =
      first_group-shift_groups start (g + 1) vs _
      ∙ ground (
        arith,
        first_group-set groups g (record { start = start + v.start; end = start + v.end }),
      )

  -- the whole match starts where it was looked for, and ends in the text
  pub exec_fresh-ranged :
      (start : ℕ) (gs : List RegexGroup)
      → exec_fresh re rounds str start ≡ some (some gs)
      → ((first_group gs).start ≡ start) × ((first_group gs).end ≤ length str)
  unfolding exec_at
  exec_fresh-ranged start gs h = go (run re.bytecode (drop start str) rounds new_machine) refl
    where
      go :
          (o : Outcome)
          → run re.bytecode (drop start str) rounds new_machine ≡ o
          → ((first_group gs).start ≡ start) × ((first_group gs).end ≤ length str)
      go (running m) e = cc (rw (e, exec_at) at h)
      go fault e = cc (rw (e, exec_at) at h)
      go (halted false m) e = cc (rw (e, exec_at) at h)
      go (halted true m) e =
          let whole : RegexGroup = record {
            start = start;
            end = min (start + m.sp) (length str);
          } in
          let same = first_group-shift_groups start 0 m.groups (set no_groups 0 whole) in
          ground (arith, same)

-- what the loops rely on
abbrev pub IsRanged : Exec → Bytes → Type 0
IsRanged exec str =
    (start : ℕ) (gs : List RegexGroup)
    → exec start ≡ some (some gs)
    → ((first_group gs).start ≡ start) × ((first_group gs).end ≤ length str)

span-new_match :
    (str : Bytes) (gs : List RegexGroup) (count : ℕ)
    → 0 < count
    → span (new_match str true gs count) ≡ first_group gs
unfolding new_match
span-new_match str [] count h = refl
span-new_match str (g ∷ gs) count h = ground arith

module _ (exec : Exec) (str : Bytes) (count : ℕ) (ranged : IsRanged exec str) (pos : 0 < count)
    (P : RegexMatch → Type 0)
    (own : (start : ℕ) (gs : List RegexGroup)
      → exec start ≡ some (some gs)
      → P (new_match str true gs count)) where
  match_loop-InOrder :
      (n start : ℕ) {ms : List RegexMatch}
      → match_loop exec str count n start ≡ some ms
      → InOrder P start (length str) ms
  unfolding match_loop
  match_loop-InOrder zero start h = cc
  match_loop-InOrder (suc n) start {ms} h = elim (Bool-cases (leb start (length str))) [
    | inr past ↦ let same : [] ≡ ms = ground arith in subst (InOrder P start (length str)) same tt
    | inl within ↦ at_exec within (exec start) refl (λ j ks q. match_loop-InOrder n j {ms = ks} q)
  ]
    where
      Rest : Type 0
      Rest =
          (j : ℕ) (ks : List RegexMatch)
          → match_loop exec str count n j ≡ some ks
          → InOrder P j (length str) ks

      at_rest :
          (gs : List RegexGroup) (o : Option (List RegexMatch))
          → leb start (length str) ≡ true
          → exec start ≡ some (some gs)
          → leb (first_group gs).end start ≡ false
          → match_loop exec str count n (first_group gs).end ≡ o
          → Rest
          → InOrder P start (length str) ms
      at_rest gs none w e f r ih = cc (rw (w, e, f, r, match_loop) at h)
      at_rest gs (some ks) w e f r ih =
          let same : new_match str true gs count ∷ ks ≡ ms = ground arith in
          let s = span-new_match str gs count pos in
          let bounds = ranged start gs e in
          let here : InOrder P start (length str) (new_match str true gs count ∷ ks) =
            rw s (own start gs e, ground arith, ground arith, ground arith, ih _ ks r) in
          subst (InOrder P start (length str)) same here

      at_exec :
          leb start (length str) ≡ true
          → (o : Option (Option (List RegexGroup))) → exec start ≡ o
          → Rest
          → InOrder P start (length str) ms
      at_exec w none e ih = cc (rw (w, e, match_loop) at h)
      at_exec w (some none) e ih =
          InOrder-le P start (start + 1) (length str) ms (omega arith)
            (ih (start + 1) ms (rw (w, e, match_loop) at h))
      at_exec w (some (some gs)) e ih = elim (Bool-cases (leb (first_group gs).end start)) [
        | inl empty ↦
            InOrder-le P start (start + 1) (length str) ms (omega arith)
              (ih (start + 1) ms (rw (w, e, empty, match_loop) at h))
        | inr full ↦ at_rest gs (match_loop exec str count n (first_group gs).end) w e full refl ih
      ]

own_groups_of :
    (re : Regex) (rounds : ℕ) (str : Bytes)
    → 0 < re.group_count
    → (start : ℕ) (gs : List RegexGroup) → exec_fresh re rounds str start ≡ some (some gs)
    → HasOwnGroups re rounds str (new_match str true gs re.group_count)
own_groups_of re rounds str pos start gs e =
    exec_fresh-IsOwn re rounds str start gs pos e (span (new_match str true gs re.group_count)) (
      ap (λ g. g.start) (span-new_match str gs re.group_count pos)
      ∙ (exec_fresh-ranged re rounds str start gs e).0)

-- For a regex with a group and any number of rounds for a run, the matches that `match_all` reports
-- when it returns are not empty, in order and apart, within the text. Each holds the text and the
-- groups of a run of the machine that halts with a match from the start of its span: the span, then
-- the groups that matched, moved by that start, and no group in the slots that did not match.
pub match_all-InOrder :
    (re : Regex) (rounds : ℕ) (str : Bytes) {ms : List RegexMatch}
    → 0 < re.group_count
    → match_all re rounds str ≡ some ms
    → InOrder (HasOwnGroups re rounds str) 0 (length str) ms
unfolding match_all match_all_with
match_all-InOrder re rounds str {ms} pos h = elim (Bool-cases (valid re)) [
  | inl ok ↦
      match_loop-InOrder (exec_fresh re rounds str) str re.group_count
        (exec_fresh-ranged re rounds str) pos (HasOwnGroups re rounds str)
        (own_groups_of re rounds str pos) (length str + 2) 0 (rw (ok, match_all) at h)
  | inr bad ↦
      let same : [] ≡ ms = ground arith in
      subst (InOrder (HasOwnGroups re rounds str) 0 (length str)) same tt
]
