-- ===== src/Json/Chain.antt =====
-- src/json.cpp: the linked lists of the elements of an array and the members of a dict, in an arena
-- that only grows. An address is an index of the arena; `none` is a null pointer, and as a result the
-- use of one.
pub mod Listed
pub mod Append
pub mod Pop
use stdromano.Prelude.{
  ℕ, zero, suc, ◌+◌, ◌-◌, ◌==◌, ◌≤◌, ◌<◌, ◌≡◌, ◌≢◌, refl, sym, ap, ◌∙◌, Bool, true, false, ltb, leb,
  if◌then◌else◌, List, [], ◌∷◌, ◌++◌, Option, none, some, ◌>>=◌, length, get_elem?, set, arith,
  Bool-cases, inl, inr, length-append, length-set, get_elem?-set_self, get_elem?-set_ne,
}

-- `JsonArrayElement`, or `JsonDictElement` with a key and a value
pub record Node (P : Type 0) : Type 0 where
  pub value : P
  pub next : Option ℕ

-- `JsonArrayInfo` and `JsonDictInfo`
pub record Info : Type 0 where
  pub head : Option ℕ
  pub tail : Option ℕ

abbrev pub empty_info : Info
empty_info = record { head = none; tail = none }

module _ {P : Type 0} where
  abbrev pub node : P → Option ℕ → Node P
  node v q = record { value = v; next = q }

  -- a new element behind the tail
  unfoldable pub append : List (Node P) → Info → P → Option (List (Node P) × Info)
  append arena info v =
      let element = length arena in
      let grown = arena ++ (node v none ∷ []) in
      elim info.head [
        | none ↦ some (grown, record { head = some element; tail = some element })
        | some h ↦ (do
          t ← info.tail
          n ← get_elem? grown t
          some (set grown t (node n.value (some element)), record info { tail = some element }))
      ]

  -- `previous = previous->next`, for a number of rounds
  unfoldable pub walk : List (Node P) → ℕ → ℕ → Option ℕ
  walk arena zero p = some p
  walk arena (suc k) p = do n ← get_elem? arena p; q ← n.next; walk arena k q

  -- what `array_pop` and `dict_pop` do once they know the element and the one in front of it
  unfoldable pub unlink : List (Node P) → Info → Option ℕ → ℕ → Option (List (Node P) × Info)
  unlink arena info none target = do
    n ← get_elem? arena target
    some (
      arena,
      elim n.next [
        | none ↦ record { head = none; tail = none }
        | some q ↦ record info { head = some q }
      ],
    )
  unlink arena info (some previous) target = do
    p ← get_elem? arena previous
    n ← get_elem? arena target
    t ← info.tail
    some (
      set arena previous (node p.value n.next),
      if target == t then record info { tail = some previous } else info,
    )

  -- `array_pop` behind the test of the index
  unfoldable pub pop_at : List (Node P) → Info → ℕ → Option (List (Node P) × Info)
  unfolding walk unlink
  pop_at arena info zero = do h ← info.head; unlink arena info none h
  pop_at arena info (suc k) = do
    h ← info.head
    previous ← walk arena k h
    n ← get_elem? arena previous
    target ← n.next
    unlink arena info (some previous) target
