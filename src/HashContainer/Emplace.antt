-- ===== src/HashContainer/Emplace.antt =====
-- include/stdromano/hashcontainer.hpp, hashmap.hpp: emplacement and `HashMap::insert` against one
-- another, and what they do to the values.
use stdromano.Prelude.{
  ℕ, zero, suc, ◌+◌, ◌==◌, ◌≡◌, refl, Bool, true, Option, none, some, arith, get_elem?, leb,
  Bool-cases, Option-cases, inl, inr, ◌&&◌,
}
use mathlib.Core.Path.{subst}
use stdromano.HashContainer.Table.{
  Keys, Slot, Table, get_next_index, get_new_capacity, needs_grow, carry, displace, grow,
  insert_loop, insert_internal, further,
}
use stdromano.HashContainer.Access.{emplace_loop, emplace_internal, make_room}
use stdromano.HashContainer.Map.{insert}
use stdromano.HashContainer.Weight.{weigh, has, IsCounted}
use stdromano.HashContainer.Insert.{IsFresh, Gains, Inserts, insert_loop-Gains, grow_with-keeps}

-- the table without the iterator and the flag
abbrev pub table_of : {A : Type 0} → Option (Table A × (ℕ × Bool)) → Option (Table A)
table_of none = none
table_of (some r) = some r.0

module _ {A K : Type 0} (keys : Keys A K) where
  emplace_loop-insert_loop :
      (n : ℕ) (t : Table A) (c : Slot A) (i : ℕ)
      → table_of (emplace_loop keys n t c i) ≡ insert_loop keys n t c i
  unfolding emplace_loop insert_loop grow insert_internal carry
  emplace_loop-insert_loop zero t c i = refl
  emplace_loop-insert_loop (suc n) t c i =
      let ih = emplace_loop-insert_loop n in
      elim (Option-cases (get_elem? t.buckets i)) [
        | inl q ↦ rw (q, emplace_loop, insert_loop)
        | inr (none, q) ↦ rw (q, emplace_loop, insert_loop)
        | inr (some s, q) ↦
            elim (Bool-cases
              (s.hash == c.hash && keys.same (keys.key_of s.value) (keys.key_of c.value))) [
                | inl equal ↦ rw (q, equal, emplace_loop, insert_loop)
                | inr other ↦
                    let d = displace keys t i s c in
                    elim (Bool-cases (leb t.max_probes (d.1.probe_length + 1))) [
                      | inr goes ↦
                          rw (q, other, goes, emplace_loop, insert_loop)
                            (ih d.0 (further keys d.1) (get_next_index t i))
                      | inl full ↦
                          elim (Option-cases (grow keys n d.0 (get_new_capacity d.0) none)) [
                            | inl starved ↦ rw (q, other, full, starved, emplace_loop, insert_loop)
                            | inr (t₂, grown) ↦
                                rw (q, other, full, grown, emplace_loop, insert_loop)
                                  (ih t₂ (carry keys t₂ d.1.value) _)
                          ]
                    ]
              ]
      ]

  -- `emplace_internal` leaves the table that `insert_internal` leaves, with any fuel.
  pub emplace_internal-insert_internal :
      (n : ℕ) (t : Table A) (v : A)
      → table_of (emplace_internal keys n t v) ≡ insert_internal keys n t v
  unfolding emplace_internal insert_internal carry
  emplace_internal-insert_internal n t v = emplace_loop-insert_loop n t (carry keys t v) _

  module _ (same_refl : (k : K) → keys.same k k ≡ true) where
    insert_internal-Inserts : (n : ℕ) → Inserts keys (insert_internal keys n)
    unfolding insert_internal carry
    insert_internal-Inserts n t v t' fresh h =
        insert_loop-Gains keys same_refl n t (carry keys t v) _ t' fresh h

    make_room-keeps :
        (n : ℕ) (t t' : Table A) (v : A)
        → IsFresh keys t v
        → make_room keys n t ≡ some t'
        → ((w : A → ℕ) → weigh w t'.buckets ≡ weigh w t.buckets) × (IsCounted t → IsCounted t')
    unfolding make_room grow
    make_room-keeps n t t' v fresh h = elim (Bool-cases (needs_grow t)) [
      | inl full ↦
          let grown =
            grow_with-keeps keys (insert_internal keys n) (insert_internal-Inserts n) t _ none
              {t' = t'} (λ k. omega (arith, fresh k)) (rw (full, make_room) at h) in
          (grown.0, λ c. grown.1)
      | inr roomy ↦
          let same : t ≡ t' = ground arith in (λ w. rw same refl, λ c. subst IsCounted same c)
    ]

    -- If `HashMap::insert` of a value returns, where no two values have the same key, the new one
    -- counted, then the table has its values and the new one, each as often as before, and still
    -- counts them; growth in between included.
    pub insert-Gains :
        (n : ℕ) (t : Table A) (v : A) {t' : Table A}
        → IsFresh keys t v
        → insert keys n t v ≡ some t'
        → Gains keys t v t'
    unfolding insert
    insert-Gains n t v {t'} fresh h = elim (Option-cases (make_room keys n t)) [
      | inl q ↦ ground arith
      | inr (t₁, q) ↦
          let kept = make_room-keeps n t t₁ v fresh q in
          let gains =
            insert_internal-Inserts n t₁ v t' (λ k. omega (arith, fresh k, kept.0 (has keys k)))
              (rw (q, insert) at h) in
          (λ w. omega (arith, kept.0 w, gains.0 w), λ c. gains.1 (kept.1 c))
    ]
