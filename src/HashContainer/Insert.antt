-- ===== src/HashContainer/Insert.antt =====
-- include/stdromano/hashcontainer.hpp: what insertion and growth do to the values of a table.
use stdromano.Prelude.{
  ℕ, zero, suc, ◌+◌, ◌==◌, ◌≤◌, ◌≡◌, ◌≢◌, refl, true, List, [], ◌∷◌, Option, none, some, arith,
  get_elem?, leb, ltb, Bool-cases, Option-cases, inl, inr, ◌&&◌, replicate,
}
use mathlib.Core.Path.{subst}
use stdromano.HashContainer.Table.{
  Keys, Slot, Bucket, Table, get_index, get_next_index, get_new_capacity, carry, displace, fill,
  further, refill, grow_with, insert_loop, new_table,
}
use stdromano.HashContainer.Weight.{
  weigh, weigh-set, weigh-get_elem?, weigh-replicate, has, one, IsCounted,
}

module _ {A K : Type 0} (keys : Keys A K) where
  -- no two values have the same key, the new one counted
  abbrev pub IsFresh : Table A → A → Type 0
  IsFresh t v = (k : K) → weigh (has keys k) t.buckets + has keys k v ≤ 1

  -- the new value comes in, no other value comes or goes, and the count follows
  abbrev pub Gains : Table A → A → Table A → Type 0
  Gains t v t' =
      ((w : A → ℕ) → weigh w t'.buckets ≡ weigh w t.buckets + w v) × (IsCounted t → IsCounted t')

  abbrev pub Inserts : (Table A → A → Option (Table A)) → Type 0
  Inserts ins =
      (t : Table A) (v : A) (t' : Table A) → IsFresh t v → ins t v ≡ some t' → Gains t v t'

  refill-Gains :
      (ins : Table A → A → Option (Table A))
      → Inserts ins
      → (bs : List (Bucket A)) (t : Table A) {t' : Table A}
      → ((k : K) → weigh (has keys k) t.buckets + weigh (has keys k) bs ≤ 1)
      → refill keys ins t bs ≡ some t'
      → ((w : A → ℕ) → weigh w t'.buckets ≡ weigh w t.buckets + weigh w bs)
        × (IsCounted t → IsCounted t')
  unfolding refill
  refill-Gains ins sound [] t {t'} fresh h =
      let same : t ≡ t' = ground arith in (λ w. rw same (omega arith), λ c. ground arith)
  refill-Gains ins sound (none ∷ bs) t {t'} fresh h =
      let rest = refill-Gains ins sound bs t {t' = t'} (λ k. omega (arith, fresh k)) h in
      (λ w. omega (arith, rest.0 w), rest.1)
  refill-Gains ins sound (some s ∷ bs) t {t'} fresh h = elim (Option-cases (ins t s.value)) [
    | inl q ↦ ground arith
    | inr (t₁, q) ↦
        let first = sound t s.value t₁ (λ k. omega (arith, fresh k)) q in
        let rest =
          refill-Gains ins sound bs t₁ {t' = t'} (λ k. omega (arith, fresh k, first.0 (has keys k)))
            (rw (q, refill) at h) in
        (λ w. omega (arith, first.0 w, rest.0 w), λ c. rest.1 (first.1 c))
  ]

  -- growing keeps the values, and counts them
  pub grow_with-keeps :
      (ins : Table A → A → Option (Table A))
      → Inserts ins
      → (t : Table A) (capacity : ℕ) (rehash : Option ℕ) {t' : Table A}
      → ((k : K) → weigh (has keys k) t.buckets ≤ 1)
      → grow_with keys ins t capacity rehash ≡ some t'
      → ((w : A → ℕ) → weigh w t'.buckets ≡ weigh w t.buckets) × IsCounted t'
  unfolding grow_with new_table
  grow_with-keeps ins sound t capacity rehash {t'} fresh h =
      let void : (w : A → ℕ) → weigh w (replicate capacity none) ≡ 0 =
        λ w. weigh-replicate w capacity in
      let rest =
        refill-Gains ins sound t.buckets _ {t' = t'}
          (λ k. omega (arith, fresh k, void (has keys k))) h in
      (λ w. omega (arith, rest.0 w, void w), rest.1 (omega (arith, void one)))

  abbrev Displaces : Table A → Slot A → Table A × Slot A → Type 0
  Displaces t c d =
      ((w : A → ℕ) → weigh w d.0.buckets + w d.1.value ≡ weigh w t.buckets + w c.value)
      × (d.0.items_count ≡ t.items_count)

  displace-Displaces :
      (t : Table A) (i : ℕ) (s c : Slot A)
      → get_elem? t.buckets i ≡ some (some s)
      → Displaces t c (displace keys t i s c)
  unfolding displace
  displace-Displaces t i s c e = elim (Bool-cases (ltb s.probe_length c.probe_length)) [
    | inl swapped ↦ (λ w. rw swapped (weigh-set w t.buckets i (some s) (some c) e), rw swapped refl)
    | inr stays ↦ (λ w. rw stays refl, rw stays refl)
  ]

  Gains-displaced :
      (t : Table A) (c : Slot A) (d : Table A × Slot A) (t' : Table A)
      → Displaces t c d
      → Gains d.0 d.1.value t'
      → Gains t c.value t'
  Gains-displaced t c d t' moves gains = (
    λ w. omega (arith, moves.0 w, gains.0 w),
    λ n. gains.1 (omega (arith, n, moves.1, moves.0 one)),
  )

  Gains-grown :
      (t t₂ : Table A) (v : A) (t' : Table A)
      → ((w : A → ℕ) → weigh w t₂.buckets ≡ weigh w t.buckets) × IsCounted t₂
      → Gains t₂ v t'
      → Gains t v t'
  Gains-grown t t₂ v t' keeps gains =
      (λ w. omega (arith, keeps.0 w, gains.0 w), λ n. gains.1 keeps.1)

  module _ (same_refl : (k : K) → keys.same k k ≡ true) where
    fill-Gains :
        (t : Table A) (i : ℕ) (c : Slot A)
        → get_elem? t.buckets i ≡ some none
        → Gains t c.value (fill keys t i c)
    fill-Gains t i c e =
        let put : (w : A → ℕ) → _ = λ w. weigh-set w t.buckets i none (some c) e in
        (λ w. omega (arith, put w), λ n. omega (arith, put one))

    -- a value with the key of the one that is carried would make two
    IsFresh-absurd :
        (t : Table A) (i : ℕ) (s : Slot A) (v : A)
        → IsFresh t v
        → get_elem? t.buckets i ≡ some (some s)
        → keys.same (keys.key_of s.value) (keys.key_of v) ≢ true
    IsFresh-absurd t i s v fresh e same =
        let k = keys.key_of v in
        let there = weigh-get_elem? (has keys k) t.buckets i (some s) e in
        let old : has keys k s.value ≡ 1 = rw same refl in
        let new : has keys k v ≡ 1 = rw (same_refl k) refl in
        omega (arith, fresh k, there, old, new)

    pub insert_loop-Gains :
        (n : ℕ) (t : Table A) (c : Slot A) (i : ℕ) (t' : Table A)
        → IsFresh t c.value
        → insert_loop keys n t c i ≡ some t'
        → Gains t c.value t'
    unfolding insert_loop carry
    insert_loop-Gains zero t c i t' fresh h = ground arith
    insert_loop-Gains (suc n) t c i t' fresh h = elim (Option-cases (get_elem? t.buckets i)) [
      | inl q ↦ ground arith
      | inr (none, q) ↦
          let same : fill keys t i c ≡ t' = ground arith in
          subst (Gains t c.value) same (fill-Gains t i c q)
      | inr (some s, q) ↦
          elim (Bool-cases
            (s.hash == c.hash && keys.same (keys.key_of s.value) (keys.key_of c.value))) [
              | inl equal ↦ absurd (IsFresh-absurd t i s c.value fresh q (ground arith))
              | inr other ↦
                  let d = displace keys t i s c in
                  let moves = displace-Displaces t i s c q in
                  let left : IsFresh d.0 d.1.value =
                    λ k. omega (arith, fresh k, moves.0 (has keys k)) in
                  elim (Bool-cases (leb t.max_probes (d.1.probe_length + 1))) [
                    | inr goes ↦ Gains-displaced t c d t' moves (
                        insert_loop-Gains n d.0 (further keys d.1) (get_next_index t i) t' left
                          (rw (q, other, goes, insert_loop) at h))
                    | inl full ↦
                        let ins : Table A → A → Option (Table A) = λ u v.
                          insert_loop keys n u (carry keys u v)
                            (get_index u (carry keys u v).hash) in
                        let sound : Inserts ins =
                          λ u v u' f e. insert_loop-Gains n u (carry keys u v) _ u' f e in
                        elim (Option-cases (grow_with keys ins d.0 (get_new_capacity d.0) none)) [
                          | inl starved ↦
                              let bad = rw (q, other, full, starved, insert_loop) at h in
                              ground arith
                          | inr (t₂, grown) ↦
                              let keeps =
                                grow_with-keeps ins sound d.0 _ none {t' = t₂}
                                  (λ k. omega (arith, left k)) grown in
                              Gains-displaced t c d t' moves (
                                Gains-grown d.0 t₂ d.1.value t' keeps (
                                  insert_loop-Gains n t₂ (carry keys t₂ d.1.value) _ t'
                                    (λ k. omega (arith, left k, keeps.0 (has keys k)))
                                    (rw (q, other, full, grown, insert_loop) at h)))
                        ]
                  ]
            ]
    ]
