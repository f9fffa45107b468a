-- ===== src/HashContainer/Table.antt =====
-- include/stdromano/hashcontainer.hpp: the buckets, their indices, insertion and growth.
-- A bucket whose probe length is -1 is `none`. An access of the buckets out of bounds, and fuel used
-- up, give `none`. The hash of a key, the selection of the key and the comparison of keys are
-- parameters of the class.
use Prim.Native.Nat.{bit_and, bit_xor}
use stdromano.Prelude.{
  ℕ, zero, suc, ◌+◌, ◌-◌, ◌*◌, ◌/◌, ◌%◌, ◌^◌, ◌==◌, Bool, true, false, leb, ltb, if◌then◌else◌,
  ◌&&◌, List, [], ◌∷◌, Option, none, some, length, get_elem?, set, replicate,
}
use stdromano.HashContainer.Bits.{bit_ceil}

pub record Keys (A K : Type 0) : Type 0 where
  pub key_of : A → K
  pub hash_func : K → ℕ
  pub same : K → K → Bool

pub record Slot (A : Type 0) : Type 0 where
  pub hash : ℕ
  pub probe_length : ℕ
  pub value : A

abbrev pub Bucket : Type 0 → Type 0
Bucket A = Option (Slot A)

pub record Table (A : Type 0) : Type 0 where
  pub buckets : List (Bucket A)
  pub items_count : ℕ
  pub grow_threshold : ℕ
  pub hash_key : ℕ
  pub max_probes : ℕ

-- `h ^= h >> 33`
abbrev pub mix : ℕ → ℕ
mix h = bit_xor h (h / 2 ^ 33)

module _ {A : Type 0} where
  abbrev pub size : Table A → ℕ
  size t = length t.buckets

  unfoldable pub get_index : Table A → ℕ → ℕ
  get_index t hash = bit_and hash (size t - 1)

  unfoldable pub get_next_index : Table A → ℕ → ℕ
  get_next_index t index = bit_and (index + 1) (size t - 1)

  unfoldable pub get_new_capacity : Table A → ℕ
  unfolding bit_ceil
  get_new_capacity t = bit_ceil (size t + 1)

  unfoldable pub needs_grow : Table A → Bool
  needs_grow t = leb t.grow_threshold t.items_count

-- the logarithm of a power of two, which `std::log2` gives exactly
unfoldable pub log2 : ℕ → ℕ → ℕ
log2 zero n = 0
log2 (suc fuel) n = let rest = log2 fuel (n / 2) in if n / 2 == 0 then 0 else rest + 1

-- the product of a power of two by the `float` 0.9f, which is exact
unfoldable pub threshold : ℕ → ℕ
threshold capacity = capacity * 15099494 / 2 ^ 24

-- the table of a capacity, with empty buckets
unfoldable pub new_table : {A : Type 0} → ℕ → ℕ → Table A
unfolding log2 threshold
new_table capacity hash_key = record {
  buckets = replicate capacity none;
  items_count = 0;
  grow_threshold = threshold capacity;
  hash_key = hash_key;
  max_probes = log2 64 capacity;
}

module _ {A K : Type 0} (keys : Keys A K) where
  unfoldable pub get_hash : Table A → K → ℕ
  get_hash t key =
      let h₁ = mix (bit_xor (keys.hash_func key) t.hash_key) in
      let h₂ = mix (h₁ * 0xff51afd7ed558ccd % 2 ^ 64) in
      mix (h₂ * 0xc4ceb9fe1a85ec53 % 2 ^ 64) % 2 ^ 32

  -- what a loop carries at its first round, and where it starts
  unfoldable pub carry : Table A → A → Slot A
  unfolding get_hash
  carry t value = record { hash = get_hash t (keys.key_of value); probe_length = 0; value = value }

  -- `swap_bucket_content`, if the value that is carried has come further
  unfoldable pub displace : Table A → ℕ → Slot A → Slot A → Table A × Slot A
  displace t index slot carried =
      if ltb slot.probe_length carried.probe_length
      then (record t { buckets = set t.buckets index (some carried) }, slot)
      else (t, carried)

  abbrev pub fill : Table A → ℕ → Slot A → Table A
  fill t index carried = record t {
    buckets = set t.buckets index (some carried);
    items_count = t.items_count + 1;
  }

  abbrev pub further : Slot A → Slot A
  further carried = record carried { probe_length = carried.probe_length + 1 }

  -- the loop of `grow` over the old buckets, with the insertion as a parameter
  unfoldable pub refill :
      (Table A → A → Option (Table A)) → Table A → List (Bucket A) → Option (Table A)
  refill ins t [] = some t
  refill ins t (none ∷ bs) = refill ins t bs
  refill ins t (some s ∷ bs) = elim (ins t s.value) [ none ↦ none | some t' ↦ refill ins t' bs ]

  -- `grow`; `rehash` is the number that a new hash key is made with, if any
  unfoldable pub grow_with :
      (Table A → A → Option (Table A)) → Table A → ℕ → Option ℕ → Option (Table A)
  unfolding refill new_table
  grow_with ins t capacity rehash =
      refill ins
        (new_table capacity (elim rehash [ none ↦ t.hash_key | some key ↦ bit_xor t.hash_key key ]))
        t.buckets

  unfoldable pub insert_loop : ℕ → Table A → Slot A → ℕ → Option (Table A)
  unfolding displace grow_with carry get_index get_next_index get_new_capacity
  insert_loop zero t carried index = none
  insert_loop (suc n) t carried index = elim (get_elem? t.buckets index) [
    | none ↦ none
    | some none ↦ some (fill t index carried)
    | some (some slot) ↦
        elim (slot.hash == carried.hash
          && keys.same (keys.key_of slot.value) (keys.key_of carried.value)) [
            | true ↦ some t
            | false ↦
                let (t₁, displaced) = displace t index slot carried in
                elim (leb t.max_probes (displaced.probe_length + 1)) [
                  | false ↦ insert_loop n t₁ (further displaced) (get_next_index t index)
                  | true ↦
                      elim (grow_with
                        (λ u v. let c = carry u v in insert_loop n u c (get_index u c.hash)) t₁
                        (get_new_capacity t₁) none) [
                          | none ↦ none
                          | some t₂ ↦
                              let c = carry t₂ displaced.value in
                              insert_loop n t₂ c (get_index t₂ c.hash)
                        ]
                ]
          ]
  ]

  unfoldable pub insert_internal : ℕ → Table A → A → Option (Table A)
  unfolding insert_loop carry get_index
  insert_internal n t value = let c = carry t value in insert_loop n t c (get_index t c.hash)

  unfoldable pub grow : ℕ → Table A → ℕ → Option ℕ → Option (Table A)
  unfolding grow_with insert_internal
  grow n t capacity rehash = grow_with (insert_internal n) t capacity rehash
