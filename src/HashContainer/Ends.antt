-- ===== src/HashContainer/Ends.antt =====
-- include/stdromano/hashcontainer.hpp: how long the loops of `find` and `erase` run.
use stdromano.Prelude.{
  ℕ, zero, suc, ◌+◌, ◌-◌, ◌==◌, ◌≤◌, ◌<◌, ◌≡◌, ◌≢◌, ◌∙◌, refl, List, [], ◌∷◌, Option, none, some,
  arith, length, get_elem?, set, ltb, Bool-cases, Option-cases, inl, inr, ◌&&◌, get_elem?-set_ne,
  get_elem?-set_self, length-set,
}
use mathlib.Core.Path.{subst}
use stdromano.HashContainer.Bits.{bit_and-bound}
use stdromano.HashContainer.Table.{
  Keys, Slot, Bucket, Table, size, get_index, get_next_index, get_hash,
}
use stdromano.HashContainer.Access.{find_loop, find, shift_back, erase_at, erase}
use stdromano.HashContainer.Weight.{total, total-set, get_elem?-bound}
use stdromano.HashContainer.Erase.{find_loop-found}

get_elem?-in_range : {A : Type 0} (xs : List A) (i : ℕ) → i < length xs → get_elem? xs i ≢ none
get_elem?-in_range [] i h = absurd (omega arith)
get_elem?-in_range (x ∷ xs) zero h = λ e. ground arith
get_elem?-in_range (x ∷ xs) (suc i) h = get_elem?-in_range xs i (omega arith)

module _ {A : Type 0} where
  get_next_index-bound : (t : Table A) (i : ℕ) → 0 < size t → get_next_index t i < size t
  unfolding get_next_index
  get_next_index-bound t i h = omega (arith, bit_and-bound (i + 1) (size t - 1))

  get_index-bound : (t : Table A) (hash : ℕ) → 0 < size t → get_index t hash < size t
  unfolding get_index
  get_index-bound t hash h = omega (arith, bit_and-bound hash (size t - 1))

  -- every probe length is below a bound
  abbrev pub IsBelow : ℕ → List (Bucket A) → Type 0
  IsBelow b [] = Unit
  IsBelow b (none ∷ bs) = IsBelow b bs
  IsBelow b (some s ∷ bs) = (s.probe_length < b) × IsBelow b bs

  IsBelow-get_elem? :
      (b : ℕ) (bs : List (Bucket A)) (j : ℕ) (s : Slot A)
      → IsBelow b bs
      → get_elem? bs j ≡ some (some s)
      → s.probe_length < b
  IsBelow-get_elem? b [] j s below h = ground arith
  IsBelow-get_elem? b (none ∷ bs) zero s below h = ground arith
  IsBelow-get_elem? b (none ∷ bs) (suc j) s below h = IsBelow-get_elem? b bs j s below h
  IsBelow-get_elem? b (some x ∷ bs) zero s below h =
      let same : x ≡ s = ground arith in subst (λ y. y.probe_length < b) same below.0
  IsBelow-get_elem? b (some x ∷ bs) (suc j) s below h = IsBelow-get_elem? b bs j s below.1 h

  abbrev pub probes : List (Bucket A) → ℕ
  probes bs = total (λ s. s.probe_length) bs

module _ (A : Type 0) where
  abbrev Ends : ℕ → Type 0
  Ends n =
      (t : Table A) (i j : ℕ)
      → 0 < size t
      → j < size t
      → get_elem? t.buckets i ≡ some none
      → probes t.buckets < n
      → shift_back n t i j ≢ none

  -- a round takes one off the probe lengths
  shift_back-total : (n : ℕ) → Ends n
  unfolding shift_back
  shift_back-total zero t i j some_buckets inside e enough = absurd (omega arith)
  shift_back-total (suc n) t i j some_buckets inside e enough =
      at_bucket (get_elem? t.buckets j) refl (shift_back-total n)
    where
      at_slot :
          (s : Slot A) (p : ℕ)
          → get_elem? t.buckets j ≡ some (some s)
          → s.probe_length ≡ p
          → Ends n
          → shift_back (suc n) t i j ≢ none
      at_slot s zero q r ih = λ h. ground arith
      at_slot s (suc p) q r ih = λ h.
          let apart : i ≢ j = ground arith in
          let slot : Slot A = record s { probe_length = p } in
          let moved = set t.buckets i (some slot) in
          let there : get_elem? moved j ≡ some (some s) =
            get_elem?-set_ne t.buckets (some slot) apart ∙ q in
          let gone = get_elem?-set_self moved j none (get_elem?-bound moved j (some s) there) in
          let u : Table A = record t { buckets = set moved j none } in
          let same : size u ≡ size t =
            length-set moved j none ∙ length-set t.buckets i (some slot) in
          let first = total-set (λ s. s.probe_length) t.buckets i none (some slot) e in
          let second = total-set (λ s. s.probe_length) moved j (some s) none there in
          ih u j (get_next_index t j) (omega arith)
            (omega (arith, get_next_index-bound t j some_buckets)) gone (omega arith)
            (rw (q, r, shift_back) at h)

      at_bucket :
          (o : Option (Bucket A))
          → get_elem? t.buckets j ≡ o
          → Ends n
          → shift_back (suc n) t i j ≢ none
      at_bucket none q ih = absurd (get_elem?-in_range t.buckets j inside q)
      at_bucket (some none) q ih = λ h. ground arith
      at_bucket (some (some s)) q ih = at_slot s s.probe_length q refl ih

module _ {A : Type 0} where
  erase_at-total :
      (n : ℕ) (t : Table A) (pos : ℕ) (s : Slot A)
      → get_elem? t.buckets pos ≡ some (some s)
      → probes t.buckets < n
      → erase_at n t pos ≢ none
  unfolding erase_at
  erase_at-total n t pos s e enough = λ h.
      let bound = get_elem?-bound t.buckets pos (some s) e in
      let cleared : Table A = record t {
        buckets = set t.buckets pos none;
        items_count = t.items_count - 1;
      } in
      let same : size cleared ≡ size t = length-set t.buckets pos none in
      let less = total-set (λ s. s.probe_length) t.buckets pos (some s) none e in
      shift_back-total A n cleared pos (get_next_index t pos) (omega arith)
        (omega (arith, get_next_index-bound t pos (omega arith)))
        (get_elem?-set_self t.buckets pos none bound) (omega arith) (ground arith)

module _ {A K : Type 0} (keys : Keys A K) where
  find_loop-total :
      (n : ℕ) (t : Table A) (key : K) (hash i p b : ℕ)
      → 0 < size t
      → i < size t
      → IsBelow b t.buckets
      → p ≤ b
      → b < p + n
      → find_loop keys n t key hash i p ≢ none
  unfolding find_loop
  find_loop-total zero t key hash i p b some_buckets inside below low enough = absurd (omega arith)
  find_loop-total (suc n) t key hash i p b some_buckets inside below low enough =
      let ih =
        find_loop-total n t key hash (get_next_index t i) (p + 1) b some_buckets
          (get_next_index-bound t i some_buckets) below in
      elim (Option-cases (get_elem? t.buckets i)) [
        | inl q ↦ absurd (get_elem?-in_range t.buckets i inside q)
        | inr (none, q) ↦ λ e. ground arith
        | inr (some s, q) ↦ elim (Bool-cases (ltb s.probe_length p)) [
          | inl far ↦ λ e. ground arith
          | inr near ↦ elim (Bool-cases (s.hash == hash && keys.same (keys.key_of s.value) key)) [
            | inl equal ↦ λ e. ground arith
            | inr other ↦
                let small = IsBelow-get_elem? b t.buckets i s below q in
                λ e. ih (ground arith) (omega arith) (rw (q, near, other, find_loop) at e)
          ]
        ]
      ]

  -- On a table with buckets, `find` returns within more rounds than a bound of the probe lengths.
  pub find-total :
      (n : ℕ) (t : Table A) (key : K) (b : ℕ)
      → 0 < size t
      → IsBelow b t.buckets
      → b < n
      → find keys n t key ≢ none
  unfolding find
  find-total n t key b some_buckets below enough =
      find_loop-total n t key (get_hash keys t key) (get_index t (get_hash keys t key)) 0 b
        some_buckets (get_index-bound t _ some_buckets) below (omega arith) (omega arith)

  -- On a table with buckets, `erase` of a key returns within more rounds than a bound of the probe
  -- lengths and than their sum.
  pub erase-total :
      (n : ℕ) (t : Table A) (key : K) (b : ℕ)
      → 0 < size t
      → IsBelow b t.buckets
      → b < n
      → probes t.buckets < n
      → erase keys n t key ≢ none
  unfolding erase find
  erase-total n t key b some_buckets below enough moves = elim (Option-cases (find keys n t key)) [
    | inl q ↦ absurd (find-total n t key b some_buckets below enough q)
    | inr (none, q) ↦ λ e. ground arith
    | inr (some j, q) ↦
        let hash = get_hash keys t key in
        let (s, there, _, same) =
          find_loop-found keys n t key hash (get_index t hash) 0 {j = j} q in
        λ e. erase_at-total n t j s there moves (rw (q, erase) at e)
  ]
