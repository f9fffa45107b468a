-- ===== src/HashContainer/Map.antt =====
-- include/stdromano/hashmap.hpp and hashset.hpp: the map and the set over the container.
use stdromano.Prelude.{
  ℕ, ◌==◌, Bool, true, false, ltb, if◌then◌else◌, List, [], ◌∷◌, Option, none, some, length,
}
use stdromano.HashContainer.Bits.{bit_ceil}
use stdromano.HashContainer.Table.{Keys, Table, size, grow, insert_internal}
use stdromano.HashContainer.Access.{construct, make_room, emplace, find, contains, erase_at}

-- `detail::PairKeySelect` and `detail::IdentityKeySelect`
abbrev pub pair_keys : {K V : Type 0} → (K → ℕ) → (K → K → Bool) → Keys (K × V) K
pair_keys hash_func same = record { key_of = λ kv. kv.0; hash_func = hash_func; same = same }

abbrev pub identity_keys : {K : Type 0} → (K → ℕ) → (K → K → Bool) → Keys K K
identity_keys hash_func same = record { key_of = λ k. k; hash_func = hash_func; same = same }

module _ {A K : Type 0} (keys : Keys A K) where
  -- `for(const auto& item : init) emplace(item)`
  unfoldable pub emplace_all : ℕ → Table A → List A → Option (Table A)
  unfolding emplace
  emplace_all n t [] = some t
  emplace_all n t (v ∷ vs) = elim (emplace keys n t v) [
    | none ↦ none
    | some (t', r) ↦ emplace_all n t' vs
  ]

  -- the constructor from a list; what `std::ceil` gives for a number of items is a parameter
  unfoldable pub from_list : (ℕ → ℕ) → ℕ → ℕ → ℕ → List A → Option (Table A)
  unfolding emplace_all grow construct
  from_list required n initial_capacity hash_key init =
      let t = construct initial_capacity hash_key in
      let capacity = bit_ceil (required (length init)) in
      if length init == 0
      then some t
      else elim (if ltb (size t) capacity then grow keys n t capacity none else some t) [
        | none ↦ none
        | some t' ↦ emplace_all n t' init
      ]

  -- `HashMap::insert`
  unfoldable pub insert : ℕ → Table A → A → Option (Table A)
  unfolding make_room insert_internal
  insert n t value = elim (make_room keys n t) [
    | none ↦ none
    | some t' ↦ insert_internal keys n t' value
  ]

module _ {K V : Type 0} (hash_func : K → ℕ) (same : K → K → Bool) where
  -- `HashMap::operator[]`: the table, and the index of the pair whose value it refers to
  unfoldable pub subscript : ℕ → Table (K × V) → K → V → Option (Table (K × V) × ℕ)
  unfolding find emplace
  subscript n t key fresh_value = elim (find (pair_keys hash_func same) n t key) [
    | none ↦ none
    | some (some index) ↦ some (t, index)
    | some none ↦ elim (emplace (pair_keys hash_func same) n t (key, fresh_value)) [
      | none ↦ none
      | some (t', (index, inserted)) ↦ some (t', index)
    ]
  ]

module _ {K : Type 0} (hash_func : K → ℕ) (same : K → K → Bool) where
  -- `HashSet::insert`
  unfoldable pub insert_key : ℕ → Table K → K → Option (Table K × (ℕ × Bool))
  unfolding emplace
  insert_key n t key = emplace (identity_keys hash_func same) n t key

  -- `HashSet::count`
  unfoldable pub count : ℕ → Table K → K → Option ℕ
  unfolding contains
  count n t key = elim (contains (identity_keys hash_func same) n t key) [
    | none ↦ none
    | some true ↦ some 1
    | some false ↦ some 0
  ]

  -- `HashSet::erase(key)`, with the number of values that it has removed
  unfoldable pub erase_key : ℕ → Table K → K → Option (Table K × ℕ)
  unfolding find erase_at
  erase_key n t key = elim (find (identity_keys hash_func same) n t key) [
    | none ↦ none
    | some none ↦ some (t, 0)
    | some (some index) ↦ elim (erase_at n t index) [ none ↦ none | some t' ↦ some (t', 1) ]
  ]
