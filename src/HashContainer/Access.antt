-- ===== src/HashContainer/Access.antt =====
-- include/stdromano/hashcontainer.hpp: emplacement, lookup, removal, iteration, construction.
use stdromano.Prelude.{
  ℕ, zero, suc, ◌+◌, ◌-◌, ◌==◌, Bool, true, false, leb, ltb, if◌then◌else◌, ◌&&◌, ◌||◌, List, [],
  ◌∷◌, Option, none, some, get_elem?, set, map,
}
use stdromano.HashContainer.Bits.{bit_ceil}
use stdromano.HashContainer.Table.{
  Keys, Slot, Bucket, Table, size, get_index, get_next_index, get_new_capacity, needs_grow,
  new_table, get_hash, carry, displace, fill, further, grow,
}

-- the constructor, for a hash key that was generated
unfoldable pub construct : {A : Type 0} → ℕ → ℕ → Table A
unfolding new_table
construct initial_capacity hash_key =
    new_table (if initial_capacity == 0 then 8 else bit_ceil (initial_capacity + 1)) hash_key

module _ {A : Type 0} where
  -- `advance` of an iterator, over the buckets from its index on
  unfoldable pub advance_over : List (Bucket A) → ℕ → ℕ
  advance_over [] index = index
  advance_over (none ∷ bs) index = advance_over bs (index + 1)
  advance_over (some s ∷ bs) index = index

  -- the buckets from an index on
  abbrev pub from : List (Bucket A) → ℕ → List (Bucket A)
  from [] index = []
  from (b ∷ bs) zero = b ∷ bs
  from (b ∷ bs) (suc index) = from bs index

  -- an iterator at a table that does not change is its index
  unfoldable pub iterator : Table A → ℕ → ℕ
  unfolding advance_over
  iterator t index = advance_over (from t.buckets index) index

  -- `clear`
  unfoldable pub clear : Table A → Table A
  clear t = record t { buckets = map (λ b. none) t.buckets; items_count = 0 }

  unfoldable pub empty : Table A → Bool
  empty t = t.items_count == 0

  -- the loop of `erase`, which moves the following values back
  unfoldable pub shift_back : ℕ → Table A → ℕ → ℕ → Option (Table A)
  unfolding get_next_index
  shift_back zero t index next_index = none
  shift_back (suc n) t index next_index = elim (get_elem? t.buckets next_index) [
    | none ↦ none
    | some none ↦ some t
    | some (some slot) ↦ elim slot.probe_length [
      | zero ↦ some t
      | suc probe_length ↦
          let moved = set t.buckets index (some (record slot { probe_length = probe_length })) in
          shift_back n (record t { buckets = set moved next_index none }) next_index
            (get_next_index t next_index)
    ]
  ]

  -- `erase(iterator)`
  unfoldable pub erase_at : ℕ → Table A → ℕ → Option (Table A)
  unfolding shift_back get_next_index
  erase_at n t pos = if pos == size t then some t else elim (get_elem? t.buckets pos) [
    | none ↦ none
    | some b ↦
        shift_back n
          (record t { buckets = set t.buckets pos none; items_count = t.items_count - 1 }) pos
          (get_next_index t pos)
  ]

module _ {A K : Type 0} (keys : Keys A K) where
  -- `emplace_internal`, with the index of its iterator and whether it has inserted
  unfoldable pub emplace_loop : ℕ → Table A → Slot A → ℕ → Option (Table A × (ℕ × Bool))
  unfolding displace grow carry get_index get_next_index get_new_capacity
  emplace_loop zero t carried index = none
  emplace_loop (suc n) t carried index = elim (get_elem? t.buckets index) [
    | none ↦ none
    | some none ↦ some (fill keys t index carried, (index, true))
    | some (some slot) ↦
        elim (slot.hash == carried.hash
          && keys.same (keys.key_of slot.value) (keys.key_of carried.value)) [
            | true ↦ some (t, (index, false))
            | false ↦
                let (t₁, displaced) = displace keys t index slot carried in
                elim (leb t.max_probes (displaced.probe_length + 1)) [
                  | false ↦ emplace_loop n t₁ (further keys displaced) (get_next_index t index)
                  | true ↦ elim (grow keys n t₁ (get_new_capacity t₁) none) [
                    | none ↦ none
                    | some t₂ ↦
                        let c = carry keys t₂ displaced.value in
                        emplace_loop n t₂ c (get_index t₂ c.hash)
                  ]
                ]
          ]
  ]

  unfoldable pub emplace_internal : ℕ → Table A → A → Option (Table A × (ℕ × Bool))
  unfolding emplace_loop carry get_index
  emplace_internal n t value = let c = carry keys t value in emplace_loop n t c (get_index t c.hash)

  -- `if(needs_grow()) grow(get_new_capacity(), false)`
  unfoldable pub make_room : ℕ → Table A → Option (Table A)
  unfolding grow get_new_capacity needs_grow
  make_room n t = if needs_grow t then grow keys n t (get_new_capacity t) none else some t

  unfoldable pub emplace : ℕ → Table A → A → Option (Table A × (ℕ × Bool))
  unfolding make_room emplace_internal
  emplace n t value = elim (make_room n t) [ none ↦ none | some t' ↦ emplace_internal n t' value ]

  -- `find`; `some none` is `end()`
  unfoldable pub find_loop : ℕ → Table A → K → ℕ → ℕ → ℕ → Option (Option ℕ)
  unfolding get_next_index
  find_loop zero t key hash index probe_length = none
  find_loop (suc n) t key hash index probe_length = elim (get_elem? t.buckets index) [
    | none ↦ none
    | some none ↦ some none
    | some (some slot) ↦ elim (ltb slot.probe_length probe_length) [
      | true ↦ some none
      | false ↦ elim (slot.hash == hash && keys.same (keys.key_of slot.value) key) [
        | true ↦ some (some index)
        | false ↦ find_loop n t key hash (get_next_index t index) (probe_length + 1)
      ]
    ]
  ]

  unfoldable pub find : ℕ → Table A → K → Option (Option ℕ)
  unfolding find_loop get_hash get_index
  find n t key = let hash = get_hash keys t key in find_loop n t key hash (get_index t hash) 0

  unfoldable pub contains : ℕ → Table A → K → Option Bool
  unfolding find
  contains n t key = elim (find n t key) [
    | none ↦ none
    | some none ↦ some false
    | some (some index) ↦ some true
  ]

  -- `erase(key)`
  unfoldable pub erase : ℕ → Table A → K → Option (Table A)
  unfolding find erase_at
  erase n t key = elim (find n t key) [
    | none ↦ none
    | some none ↦ some t
    | some (some index) ↦ erase_at n t index
  ]

  -- `reserve`; the number of buckets that `std::ceil` gives for a capacity is a parameter
  unfoldable pub reserve : (ℕ → ℕ) → ℕ → Table A → ℕ → Option (Table A)
  unfolding grow
  reserve required n t new_capacity =
      if new_capacity == 0 || leb (required new_capacity) (size t)
      then some t
      else grow keys n t (bit_ceil (required new_capacity)) none
