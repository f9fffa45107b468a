-- ===== src/Regex/Replace.antt =====
-- src/regex.cpp: `replace_iter`, and that the loops over a text end.
use stdromano.Prelude.{
  ℕ, zero, suc, ◌+◌, ◌-◌, ◌≤◌, ◌<◌, ◌≡◌, ◌≢◌, refl, ap, List, [], ◌∷◌, ◌++◌, Option, none, some,
  true, arith, length, get_elem?, take, drop, ltb, leb, Bool-cases, inl, inr,
}
use stdromano.Regex.Opcode.{Bytes}
use stdromano.Regex.Vm.{RegexGroup}
use stdromano.Regex.Api.{
  Regex, RegexMatch, new_match, exec_fresh, Exec, first_group, match_loop, match_all_with,
  match_all, replace_loop, replace_with, replace_iter, valid, replaced, overrun, append_front,
  keep_char,
}
use stdromano.Regex.Matches.{IsRanged, exec_fresh-ranged}

-- every position of the text gets an answer
abbrev pub HasAnswers : Exec → Bytes → Type 0
HasAnswers exec str = (start : ℕ) → start ≤ length str → exec start ≢ none

drop-get_elem? :
    (str : Bytes) (i c : ℕ) → get_elem? str i ≡ some c → drop i str ≡ c ∷ drop (i + 1) str
drop-get_elem? [] i c h = cc
drop-get_elem? (x ∷ xs) zero c h = ground arith
drop-get_elem? (x ∷ xs) (suc i) c h =
    let e : suc i + 1 ≡ suc (i + 1) = omega arith in rw e (drop-get_elem? xs i c h)

get_elem?-lt : (str : Bytes) (i : ℕ) → i < length str → (c : ℕ) × (get_elem? str i ≡ some c)
get_elem?-lt [] i h = absurd (omega arith)
get_elem?-lt (x ∷ xs) zero h = (x, refl)
get_elem?-lt (x ∷ xs) (suc i) h = get_elem?-lt xs i (omega arith)

get_elem?-end : (str : Bytes) → get_elem? str (length str) ≡ none
get_elem?-end [] = refl
get_elem?-end (x ∷ xs) = get_elem?-end xs

drop-end : (str : Bytes) (i : ℕ) → length str ≤ i → drop i str ≡ []
drop-end [] zero h = refl
drop-end [] (suc i) h = refl
drop-end (x ∷ xs) zero h = absurd (omega arith)
drop-end (x ∷ xs) (suc i) h = drop-end xs i (omega arith)

drop-nil : (i : ℕ) → drop {A = ℕ} i [] ≡ []
drop-nil zero = refl
drop-nil (suc i) = refl

take-nil : (i : ℕ) → take {A = ℕ} i [] ≡ []
take-nil zero = refl
take-nil (suc i) = refl

-- a slice and what follows it
slice-drop : (str : Bytes) (i j : ℕ) → i ≤ j → take (j - i) (drop i str) ++ drop j str ≡ drop i str
slice-drop [] i j h = rw (drop-nil i, drop-nil j, take-nil (j - i))
slice-drop (x ∷ xs) zero zero h = refl
slice-drop (x ∷ xs) zero (suc j) h =
    let e : suc j - 0 ≡ suc (j - 0) = omega arith in
    rw e (ap (λ ys. x ∷ ys) (slice-drop xs 0 j (omega arith)))
slice-drop (x ∷ xs) (suc i) zero h = absurd (omega arith)
slice-drop (x ∷ xs) (suc i) (suc j) h =
    let e : suc j - suc i ≡ j - i = omega arith in rw e (slice-drop xs i j (omega arith))

module _ (exec : Exec) (str : Bytes) (count : ℕ) (ranged : IsRanged exec str) where
  match_loop-total :
      HasAnswers exec str
      → (n start : ℕ) → start ≤ length str + 1
      → length str + 2 ≤ start + n
      → match_loop exec str count n start ≢ none
  unfolding match_loop
  match_loop-total answers zero start h k = absurd (omega arith)
  match_loop-total answers (suc n) start h k =
      at_exec (exec start) refl (match_loop-total answers n)
    where
      at_exec :
          (o : Option (Option (List RegexGroup)))
          → exec start ≡ o
          → ((j : ℕ)
              → j ≤ length str + 1
              → length str + 2 ≤ j + n
              → match_loop exec str count n j ≢ none)
          → match_loop exec str count (suc n) start ≢ none
      at_exec none e ih = ground (arith, answers start)
      at_exec (some none) e ih = ground (arith, ih (start + 1))
      at_exec (some (some gs)) e ih =
          ground (arith, ranged start gs e, ih (start + 1), ih (first_group gs).end)

  module _ (callback : RegexMatch → Bytes) where
    -- A match at the end of the text makes the loop read behind the text.
    replace_loop-overrun :
        HasAnswers exec str
        → (gs : List RegexGroup) → exec (length str) ≡ some (some gs)
        → (n start : ℕ) → start ≤ length str
        → length str + 1 ≤ start + n
        → replace_loop exec str count callback n start ≡ overrun
    unfolding replace_loop keep_char append_front
    replace_loop-overrun answers gs e zero start h k = absurd (omega arith)
    replace_loop-overrun answers gs e (suc n) start h k =
        at_exec (exec start) refl (replace_loop-overrun answers gs e n)
      where
        Rest : Type 0
        Rest =
            (j : ℕ)
            → j ≤ length str
            → length str + 1 ≤ j + n
            → replace_loop exec str count callback n j ≡ overrun

        at_keep :
            Rest
            → keep_char (get_elem? str start) (replace_loop exec str count callback n (start + 1))
              ≡ overrun
        at_keep ih = elim (Bool-cases (ltb start (length str))) [
          | inl lt ↦
              let (c, q) = get_elem?-lt str start (ground arith) in
              rw (q, ih (start + 1) (ground arith) (omega arith)) refl
          | inr ge ↦
              let same : start ≡ length str = ground arith in rw (same, get_elem?-end str) refl
        ]

        at_exec :
            (o : Option (Option (List RegexGroup)))
            → exec start ≡ o
            → Rest
            → replace_loop exec str count callback (suc n) start ≡ overrun
        at_exec none q ih = absurd (answers start h q)
        at_exec (some none) q ih =
            let lt : start < length str = ground (arith, e, q) in ground (arith, at_keep ih)
        at_exec (some (some hs)) q ih =
            ground (arith, ranged start hs q, at_keep ih, ih (first_group hs).end)

    replace_loop-identity :
        HasAnswers exec str
        → exec (length str) ≡ some none
        → ((gs : List RegexGroup)
            → callback (new_match str true gs count)
              ≡ take
                  ((first_group gs).end - (first_group gs).start)
                  (drop (first_group gs).start str))
        → (n start : ℕ) → start ≤ length str
        → length str + 1 ≤ start + n
        → replace_loop exec str count callback n start ≡ replaced (drop start str)
    unfolding replace_loop keep_char append_front
    replace_loop-identity answers last same zero start h k = absurd (omega arith)
    replace_loop-identity answers last same (suc n) start h k =
        at_exec (exec start) refl (replace_loop-identity answers last same n)
      where
        Rest : Type 0
        Rest =
            (j : ℕ)
            → j ≤ length str
            → length str + 1 ≤ j + n
            → replace_loop exec str count callback n j ≡ replaced (drop j str)

        at_char :
            (c : ℕ)
            → get_elem? str start ≡ some c
            → start < length str
            → Rest
            → keep_char (get_elem? str start) (replace_loop exec str count callback n (start + 1))
              ≡ replaced (drop start str)
        at_char c e lt ih =
            rw (e, ih (start + 1) (omega arith) (omega arith), drop-get_elem? str start c e)

        at_exec :
            (o : Option (Option (List RegexGroup)))
            → exec start ≡ o
            → Rest
            → replace_loop exec str count callback (suc n) start ≡ replaced (drop start str)
        at_exec none q ih = absurd (answers start h q)
        at_exec (some none) q ih = elim (Bool-cases (ltb start (length str))) [
          | inl lt ↦
              let (c, e) = get_elem?-lt str start (ground arith) in
              ground (arith, at_char c e (ground arith) ih)
          | inr ge ↦ ground (arith, drop-end str start)
        ]
        at_exec (some (some gs)) q ih =
            let lt : start < length str = ground arith in
            let (c, e) = get_elem?-lt str start lt in
            let (at, bound) = ranged start gs q in
            let j = (first_group gs).end in
            elim (Bool-cases (leb j start)) [
              | inl empty ↦ ground (arith, at_char c e lt ih)
              | inr full ↦
                  ground (
                    arith,
                    same gs,
                    ih j bound (ground arith),
                    slice-drop str start j (ground arith),
                  )
            ]

module _ (re : Regex) (rounds : ℕ) (str : Bytes)
    (answers : HasAnswers (exec_fresh re rounds str) str) where
  -- `match_all` returns when every run of the machine in it gets an answer.
  pub match_all-total : match_all re rounds str ≢ none
  unfolding match_all match_all_with
  match_all-total = ground (
    arith,
    match_loop-total (exec_fresh re rounds str) str re.group_count (exec_fresh-ranged re rounds str)
        answers (length str + 2) 0,
  )

-- For a regex that compiled, whose runs on the text all get an answer and that does not match at
-- the end of the text, a callback that gives back the text of the match makes `replace_iter` give
-- back the text.
pub replace_iter-identity :
    (re : Regex) (rounds : ℕ) (str : Bytes) (callback : RegexMatch → Bytes)
    → valid re ≡ true
    → HasAnswers (exec_fresh re rounds str) str
    → exec_fresh re rounds str (length str) ≡ some none
    → ((gs : List RegexGroup)
        → callback (new_match str true gs re.group_count)
          ≡ take ((first_group gs).end - (first_group gs).start) (drop (first_group gs).start str))
    → replace_iter re rounds str callback ≡ replaced str
unfolding replace_iter replace_with
replace_iter-identity re rounds str callback ok answers last same = rw ok (
    replace_loop-identity (exec_fresh re rounds str) str re.group_count
      (exec_fresh-ranged re rounds str) callback answers last same (length str + 2) 0 (omega arith)
      (omega arith))

-- If a regex that compiled matches at the end of the text, and its runs on the text all get an
-- answer, then `replace_iter` reads the character behind the text, whatever its callback gives.
pub replace_iter-overrun :
    (re : Regex) (rounds : ℕ) (str : Bytes) (callback : RegexMatch → Bytes) {gs : List RegexGroup}
    → valid re ≡ true
    → HasAnswers (exec_fresh re rounds str) str
    → exec_fresh re rounds str (length str) ≡ some (some gs)
    → replace_iter re rounds str callback ≡ overrun
unfolding replace_iter replace_with
replace_iter-overrun re rounds str callback {gs} ok answers e = rw ok (
    replace_loop-overrun (exec_fresh re rounds str) str re.group_count
      (exec_fresh-ranged re rounds str) callback answers gs e (length str + 2) 0 (omega arith)
      (omega arith))
