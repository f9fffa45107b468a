-- ===== src/Json/Containers/Find.antt =====
-- src/json.cpp: what the loops of `dict_pop` and `dict_find` find.
use stdromano.Prelude.{
  ℕ, zero, suc, ◌<◌, ◌≤◌, ◌≡◌, refl, ap, ◌∙◌, ◌⊎◌, not, if◌then◌else◌, List, [], ◌∷◌, Option, none,
  some, ◌>>=◌, length, get_elem?, remove_at, Bool-cases, inl, inr, arith, length-remove_at,
}
use stdromano.Json.Value.{Bytes}
use stdromano.Json.Parser.{c_str, is_prefix}
use stdromano.Json.Tags.{dict_tag, tag_decr_sz, tag_get_sz-tag_decr_sz, has_tag-tag_decr_sz}
use stdromano.Json.Chain.{Node, Info, node, walk, unlink, pop_at}
use stdromano.Json.Chain.Listed.{Listed, Holds, last, more, Listed-length}
use stdromano.Json.Chain.Pop.{unlinked, pop_at-Holds}
use stdromano.Json.Document.{Json, KeyValue}
use stdromano.Json.Containers.{same_text, search, find_loop, dict_pop, dict_find}
use stdromano.Json.Containers.DictProofs.{IsDict, changed, changed-IsDict}

-- the list without the first member that has the key
abbrev pub remove_key : Bytes → List KeyValue → List KeyValue
remove_key key [] = []
remove_key key (x ∷ xs) =
    let rest = remove_key key xs in if same_text x.key key then xs else x ∷ rest

abbrev next_index : Option ℕ → Option ℕ
next_index none = none
next_index (some i) = some (suc i)

abbrev first_index : Bytes → List KeyValue → Option ℕ
first_index key [] = none
first_index key (x ∷ xs) =
    let rest = first_index key xs in if same_text x.key key then some 0 else next_index rest

-- the value of the first member whose key does not begin with the key
abbrev pub first_other : Bytes → List KeyValue → Option ℕ
first_other key [] = none
first_other key (x ∷ xs) =
    let rest = first_other key xs in if not (is_prefix key x.key) then some x.value else rest

abbrev Place : Type 0
Place = Option (Option (Option ℕ × ℕ))

-- the element at an index of the list from `a` on, and the one in front of it
abbrev located : List (Node KeyValue) → Option ℕ → ℕ → Option ℕ → Place
located arena previous a none = some none
located arena previous a (some zero) = some (some (previous, a))
located arena previous a (some (suc k)) = do
  p ← walk arena k a
  n ← get_elem? arena p
  q ← n.next
  some (some (some p, q))

located-next_index :
    (arena : List (Node KeyValue)) (previous : Option ℕ) (a b : ℕ) (v : KeyValue) (i : Option ℕ)
    → get_elem? arena a ≡ some (node v (some b))
    → located arena (some a) b i ≡ located arena previous a (next_index i)
unfolding walk
located-next_index arena previous a b v none e = refl
located-next_index arena previous a b v (some zero) e = rw e refl
located-next_index arena previous a b v (some (suc k)) e = rw e refl

search-Listed :
    {arena : List (Node KeyValue)} {lo a z : ℕ} {xs : List KeyValue} (key : Bytes)
    → Listed arena lo a z xs
    → (rounds : ℕ) (previous : Option ℕ) → length xs ≤ rounds
    → search arena key rounds previous (some a) ≡ located arena previous a (first_index key xs)
unfolding search
search-Listed key (last h e) zero previous small = absurd (omega arith)
search-Listed key (more h e rest) zero previous small = absurd (omega arith)
search-Listed key (last {v = v} h e) (suc rounds) previous small =
    elim (Bool-cases (same_text v.key key)) [ inl q ↦ rw (e, q) refl | inr q ↦ rw (e, q) refl ]
search-Listed {arena = arena} {a = a} key (more {b = b} {v = v} {xs = xs} h e rest) (suc rounds)
      previous small =
    elim (Bool-cases (same_text v.key key)) [
      | inl q ↦ rw (e, q) refl
      | inr q ↦
          rw (e, q, search-Listed key rest rounds (some a) (omega arith))
            (located-next_index arena previous a b v (first_index key xs) e)
    ]

-- removing by key is removing at the first index of the key
abbrev Removed : Bytes → List KeyValue → Type 0
Removed key xs =
    ((first_index key xs ≡ none) × (remove_key key xs ≡ xs))
    ⊎ ((i : ℕ) × (first_index key xs ≡ some i)
        × (remove_key key xs ≡ remove_at i xs)
        × (i < length xs))

removed : (key : Bytes) (xs : List KeyValue) → Removed key xs
removed key [] = inl (refl, refl)
removed key (x ∷ xs) = elim (Bool-cases (same_text x.key key)) [
  | inl q ↦ inr (0, rw q refl, rw q refl, omega arith)
  | inr q ↦ elim (removed key xs) [
    | inl h ↦ inl (rw (q, h.0) refl, rw (q, h.1) refl)
    | inr h ↦ inr (suc h.0, rw (q, h.1) refl, rw (q, h.2) refl, omega (arith, h.3))
  ]
]

search-Holds :
    (arena : List (Node KeyValue)) (info : Info) (xs : List KeyValue) (key : Bytes)
    → Holds arena info xs
    → first_index key xs ≡ none
    → search arena key (length arena) none info.head ≡ some none
unfolding search
search-Holds arena info [] key (h, t) e = rw h refl
search-Holds arena info (x ∷ xs) key (a, z, h, t, chain) e = rw h (
    search-Listed key chain (length arena) none (omega (arith, Listed-length chain))
    ∙ ap (located arena none a) e)

-- what `dict_pop` finds is what the list operation takes out
Taken : List (Node KeyValue) → Info → Bytes → ℕ → Type 0
Taken arena info key i =
    (place : Option ℕ × ℕ) × (search arena key (length arena) none info.head ≡ some (some place))
    × (unlink arena info place.0 place.1 ≡ pop_at arena info i)

taken :
    (arena : List (Node KeyValue)) (info : Info) (xs : List KeyValue) (key : Bytes) (i : ℕ)
    → Holds arena info xs
    → first_index key xs ≡ some i
    → i < length xs
    → Taken arena info key i
unfolding search Taken pop_at
taken arena info [] key i held e small = absurd (omega arith)
taken arena info (x ∷ xs) key zero (a, z, h, t, chain) e small =
    let found = search-Listed key chain (length arena) none (omega (arith, Listed-length chain)) in
    ((none, a), rw (h, found, e) refl, rw h refl)
taken arena info (x ∷ xs) key (suc k) (a, z, h, t, chain) e small =
    let found = search-Listed key chain (length arena) none (omega (arith, Listed-length chain)) in
    let u = unlinked k chain small in
    (
      (some u.previous, u.target),
      rw (h, found, e, u.found, u.entry) refl,
      rw (h, u.found, u.entry) refl,
    )

module _ {F : Type 0} where
  -- Popping a key of a dict removes the first member that has the key, and changes nothing when no
  -- member has it.
  pub dict_pop-IsDict :
      (json : Json F) (a : ℕ) (xs : List KeyValue) (key : Bytes)
      → IsDict json a xs
      → (json' : Json F) × (dict_pop json a key ≡ some json')
        × IsDict json' a (remove_key (c_str key) xs)
  unfolding dict_pop Taken
  dict_pop-IsDict json a xs key before = elim (removed (c_str key) xs) [
    | inl h ↦ (
      json,
      rw
          (
            before.found,
            before.ends,
            search-Holds json.members before.info xs (c_str key) before.held h.0,
          )
          refl,
      rw h.1 before,
    )
    | inr h ↦
        let i = h.0 in
        let t = taken json.members before.info xs (c_str key) i before.held h.1 h.3 in
        let chain = pop_at-Holds json.members before.info i xs before.held h.3 in
        (
          changed json before json.objects chain.0 chain.1 (tag_decr_sz before.tags),
          rw (before.found, before.ends, t.1, t.2, chain.2, before.found) refl,
          rw h.2 (
              changed-IsDict before json.objects chain.0 chain.1 (tag_decr_sz before.tags)
                (remove_at i xs) before.found chain.3
                (has_tag-tag_decr_sz before.tags dict_tag ∙ before.tagged)
                (omega (
                  arith,
                  tag_get_sz-tag_decr_sz before.tags,
                  before.size,
                  length-remove_at i xs h.3,
                  h.3,
                ))),
        )
  ]

find_loop-Listed :
    {arena : List (Node KeyValue)} {lo a z : ℕ} {xs : List KeyValue} (key : Bytes)
    → Listed arena lo a z xs
    → (rounds : ℕ) → length xs ≤ rounds
    → find_loop arena key rounds (some a) ≡ some (first_other key xs)
unfolding find_loop
find_loop-Listed key (last h e) zero small = absurd (omega arith)
find_loop-Listed key (more h e rest) zero small = absurd (omega arith)
find_loop-Listed key (last {v = v} h e) (suc rounds) small =
    elim (Bool-cases (is_prefix key v.key)) [ inl q ↦ rw (e, q) refl | inr q ↦ rw (e, q) refl ]
find_loop-Listed key (more {v = v} h e rest) (suc rounds) small =
    elim (Bool-cases (is_prefix key v.key)) [
      | inl q ↦ rw (e, q) (find_loop-Listed key rest rounds (omega arith))
      | inr q ↦ rw (e, q) refl
    ]

find_loop-Holds :
    (arena : List (Node KeyValue)) (info : Info) (xs : List KeyValue) (key : Bytes)
    → Holds arena info xs
    → find_loop arena key (length arena) info.head ≡ some (first_other key xs)
unfolding find_loop
find_loop-Holds arena info [] key (h, t) = rw h refl
find_loop-Holds arena info (x ∷ xs) key (a, z, h, t, chain) =
    rw h (find_loop-Listed key chain (length arena) (omega (arith, Listed-length chain)))

module _ {F : Type 0} where
  -- `dict_find` returns the object of the first member whose key does not begin with the key that is
  -- sought, and the null pointer when all keys begin with it.
  pub dict_find-IsDict :
      (json : Json F) (a : ℕ) (xs : List KeyValue) (key : Bytes)
      → IsDict json a xs
      → dict_find json a key ≡ some (first_other (c_str key) xs)
  unfolding dict_find
  dict_find-IsDict json a xs key before =
      rw (before.found, before.tagged, before.ends)
        (find_loop-Holds json.members before.info xs (c_str key) before.held)
