-- ===== src/HashContainer/Erase.antt =====
-- include/stdromano/hashcontainer.hpp: what `erase` and `find` do to the values of a table.
use stdromano.Prelude.{
  ℕ, zero, suc, ◌+◌, ◌-◌, ◌==◌, ◌≡◌, ◌≢◌, refl, true, Option, none, some, arith, get_elem?, set,
  Bool-cases, Option-cases, inl, inr, ◌&&◌, ltb, get_elem?-set_ne, get_elem?-set_self, ◌∙◌,
}
use stdromano.HashContainer.Table.{Keys, Slot, Bucket, Table, get_next_index, get_hash, get_index}
use stdromano.HashContainer.Access.{shift_back, erase_at, find_loop, find, erase}
use stdromano.HashContainer.Weight.{get_elem?-bound, weigh, weigh-set, one, IsCounted}

module _ {A : Type 0} where
  abbrev SameValues : (A → ℕ) → Table A → Table A → Type 0
  SameValues w t t' = (weigh w t'.buckets ≡ weigh w t.buckets) × (t'.items_count ≡ t.items_count)

  abbrev Shifts : (A → ℕ) → ℕ → Table A → Type 0
  Shifts w n t' =
      (u : Table A) (p q : ℕ)
      → get_elem? u.buckets p ≡ some none
      → shift_back n u p q ≡ some t'
      → SameValues w u t'

  -- the values stay, as long as the bucket in front is empty
  pub shift_back-weigh :
      (w : A → ℕ) (n : ℕ) (t : Table A) (i j : ℕ) {t' : Table A}
      → get_elem? t.buckets i ≡ some none
      → shift_back n t i j ≡ some t'
      → SameValues w t t'
  unfolding shift_back
  shift_back-weigh w zero t i j {t'} e h = cc
  shift_back-weigh w (suc n) t i j {t'} e h =
      at_bucket (get_elem? t.buckets j) refl (λ u p q x y. shift_back-weigh w n u p q x y)
    where
      at_slot :
          (s : Slot A) (p : ℕ)
          → get_elem? t.buckets j ≡ some (some s)
          → s.probe_length ≡ p
          → Shifts w n t'
          → SameValues w t t'
      at_slot s zero q r ih = let same : t ≡ t' = ground arith in ground arith
      at_slot s (suc p) q r ih =
          let apart : i ≢ j = ground arith in
          let slot : Slot A = record s { probe_length = p } in
          let moved = set t.buckets i (some slot) in
          let there : get_elem? moved j ≡ some (some s) =
            get_elem?-set_ne t.buckets (some slot) apart ∙ q in
          let gone = get_elem?-set_self moved j none (get_elem?-bound moved j (some s) there) in
          let first = weigh-set w t.buckets i none (some slot) e in
          let second = weigh-set w moved j (some s) none there in
          let rest =
            ih (record t { buckets = set moved j none }) j (get_next_index t j) gone
              (rw (q, r, shift_back) at h) in
          (omega (arith, first, second, rest.0), rest.1)

      at_bucket :
          (o : Option (Bucket A)) → get_elem? t.buckets j ≡ o → Shifts w n t' → SameValues w t t'
      at_bucket none q ih = ground arith
      at_bucket (some none) q ih = let same : t ≡ t' = ground arith in ground arith
      at_bucket (some (some s)) q ih = at_slot s s.probe_length q refl ih

  -- the value at the position goes and no other, and the count follows
  pub erase_at-weigh :
      (n : ℕ) (t : Table A) (pos : ℕ) (s : Slot A) {t' : Table A}
      → get_elem? t.buckets pos ≡ some (some s)
      → erase_at n t pos ≡ some t'
      → ((w : A → ℕ) → weigh w t'.buckets + w s.value ≡ weigh w t.buckets)
        × (IsCounted t → IsCounted t')
  unfolding erase_at
  erase_at-weigh n t pos s {t'} e h =
      let bound = get_elem?-bound t.buckets pos (some s) e in
      let gone = get_elem?-set_self t.buckets pos none bound in
      let cleared : Table A = record t {
        buckets = set t.buckets pos none;
        items_count = t.items_count - 1;
      } in
      let rest : shift_back n cleared pos (get_next_index t pos) ≡ some t' = ground arith in
      let kept : (w : A → ℕ) → SameValues w cleared t' =
        λ w. shift_back-weigh w n cleared pos (get_next_index t pos) gone rest in
      let less : (w : A → ℕ)
          → weigh w (set t.buckets pos none) + w s.value ≡ weigh w t.buckets + 0 =
        λ w. weigh-set w t.buckets pos (some s) none e in
      (
        λ w. omega (arith, less w, (kept w).0),
        λ c. omega (arith, less one, (kept one).0, (kept one).1),
      )

module _ {A K : Type 0} (keys : Keys A K) where
  pub find_loop-found :
      (n : ℕ) (t : Table A) (key : K) (hash i p : ℕ) {j : ℕ}
      → find_loop keys n t key hash i p ≡ some (some j)
      → (s : Slot A) × (get_elem? t.buckets j ≡ some (some s))
        × (s.hash ≡ hash)
        × (keys.same (keys.key_of s.value) key ≡ true)
  unfolding find_loop
  find_loop-found zero t key hash i p h = ground arith
  find_loop-found (suc n) t key hash i p {j} h =
      let ih = find_loop-found n t key hash (get_next_index t i) (p + 1) {j = j} in
      elim (Option-cases (get_elem? t.buckets i)) [
        | inl q ↦ ground arith
        | inr (none, q) ↦ ground arith
        | inr (some s, q) ↦ elim (Bool-cases (ltb s.probe_length p)) [
          | inl far ↦ ground arith
          | inr near ↦ elim (Bool-cases (s.hash == hash && keys.same (keys.key_of s.value) key)) [
            | inl equal ↦
                let here : i ≡ j = ground arith in (s, ground arith, ground arith, ground arith)
            | inr other ↦ ih (rw (q, near, other, find_loop) at h)
          ]
        ]
      ]

  -- what `erase` of a key may leave
  pub data Erased (t t' : Table A) (key : K) : Type 0 where
    kept : t ≡ t' → Erased t t' key
    removed :
        (s : Slot A)
        → keys.same (keys.key_of s.value) key ≡ true
        → ((w : A → ℕ) → weigh w t'.buckets + w s.value ≡ weigh w t.buckets)
        → (IsCounted t → IsCounted t')
        → Erased t t' key

  -- If `erase` of a key returns, the table is as it was, or one value with the key is gone, every
  -- other one is kept as often as it was, and the count follows.
  pub erase-Erased :
      (n : ℕ) (t : Table A) (key : K) {t' : Table A}
      → erase keys n t key ≡ some t'
      → Erased t t' key
  unfolding erase find
  erase-Erased n t key {t'} h = elim (Option-cases (find keys n t key)) [
    | inl q ↦ ground arith
    | inr (none, q) ↦ kept (ground arith)
    | inr (some j, q) ↦
        let hash = get_hash keys t key in
        let (s, e, _, same) = find_loop-found n t key hash (get_index t hash) 0 {j = j} q in
        let there = erase_at-weigh n t j s {t' = t'} e (rw (q, erase) at h) in
        removed s same there.0 there.1
  ]
