-- ===== src/HashContainer/Tests.antt =====
-- Runs of the hash container at concrete tables of numbers.
use stdromano.Prelude.{
  ℕ, ◌==◌, ◌≤◌, ◌<◌, ◌≡◌, ◌≢◌, refl, Bool, true, Option, none, some, arith, List, [], ◌∷◌, ◌^◌, ◌*◌,
  get_elem?, set,
}
use stdromano.HashContainer.Bits.{bit_ceil, bit_ceil-bounds}
use stdromano.HashContainer.Table.{Keys, Table}
use stdromano.HashContainer.Access.{construct, emplace_internal, find, erase}
use stdromano.HashContainer.Map.{identity_keys, insert}
use stdromano.HashContainer.Insert.{IsFresh, Gains}
use stdromano.HashContainer.Emplace.{insert-Gains}
use stdromano.HashContainer.Erase.{Erased, erase-Erased}
use stdromano.HashContainer.Ends.{IsBelow, find-total, erase-total}

abbrev numbers : Keys ℕ ℕ
numbers = identity_keys (λ k. k) (λ a b. a == b)

bit_ceil-bounds_example :
    (21 ≤ bit_ceil 21) × (bit_ceil 21 < 2 * 21) × ((k : ℕ) × (bit_ceil 21 ≡ 2 ^ k))
bit_ceil-bounds_example = bit_ceil-bounds 21 (omega arith) (omega arith)

-- what the insertions of 4, 3, 2, 1 and 0 leave
abbrev five : Table ℕ
five = record {
  buckets =
      some (record { hash = 167303374; probe_length = 2; value = 4 })
      ∷ none
      ∷ none
      ∷ some (record { hash = 3346810227; probe_length = 0; value = 1 })
      ∷ none
      ∷ some (record { hash = 3832074717; probe_length = 0; value = 0 })
      ∷ some (record { hash = 3578549621; probe_length = 1; value = 2 })
      ∷ some (record { hash = 2834307189; probe_length = 2; value = 3 })
      ∷ [];
  items_count = 5;
  grow_threshold = 7;
  hash_key = 7;
  max_probes = 3;
}

insert_all : List ℕ → Table ℕ → Option (Table ℕ)
unfolding insert
insert_all [] t = some t
insert_all (v ∷ vs) t = elim (insert numbers 60 t v) [ none ↦ none | some u ↦ insert_all vs u ]

inserts_five : insert_all (0 ∷ 1 ∷ 2 ∷ 3 ∷ 4 ∷ []) (construct 0 7) ≡ some five
unfolding insert_all construct
inserts_five = refl

five-IsFresh : IsFresh numbers five 5
five-IsFresh k = ground arith

numbers_refl : (k : ℕ) → numbers.same k k ≡ true
numbers_refl k = ground arith

abbrev six : Table ℕ
six = record five {
  buckets = set five.buckets 1 (some (record { hash = 1694925799; probe_length = 2; value = 5 }));
  items_count = 6;
}

insert-Gains_example : Gains numbers five 5 six
unfolding insert
insert-Gains_example = insert-Gains numbers numbers_refl 60 five 5 {t' = six} five-IsFresh refl

-- the values behind 2 move back
abbrev four : Table ℕ
four = record five {
  buckets =
      none
      ∷ none
      ∷ none
      ∷ some (record { hash = 3346810227; probe_length = 0; value = 1 })
      ∷ none
      ∷ some (record { hash = 3832074717; probe_length = 0; value = 0 })
      ∷ some (record { hash = 2834307189; probe_length = 1; value = 3 })
      ∷ some (record { hash = 167303374; probe_length = 1; value = 4 })
      ∷ [];
  items_count = 4;
}

erase-Erased_example : Erased numbers five four 2
unfolding erase
erase-Erased_example = erase-Erased numbers 60 five 2 {t' = four} refl

five-IsBelow : IsBelow 3 five.buckets
five-IsBelow = (omega arith, (omega arith, (omega arith, (omega arith, (omega arith, tt)))))

find-total_example : find numbers 4 five 7 ≢ none
find-total_example = find-total numbers 4 five 7 3 (omega arith) five-IsBelow (omega arith)

erase-total_example : erase numbers 10 five 7 ≢ none
erase-total_example =
    erase-total numbers 10 five 7 3 (omega arith) five-IsBelow (omega arith) (omega arith)

pointed : Option (Table ℕ × (ℕ × Bool)) → Option ℕ
pointed none = none
pointed (some (t, (j, inserted))) = elim (get_elem? t.buckets j) [
  | some (some s) ↦ some s.value
  | _ ↦ none
]

-- the value 8 displaces 4, and the iterator that comes back is that of 4
emplace_points_elsewhere : pointed (emplace_internal numbers 60 five 8) ≡ some 4
unfolding pointed emplace_internal
emplace_points_elsewhere = refl
