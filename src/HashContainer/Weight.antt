-- ===== src/HashContainer/Weight.antt =====
-- include/stdromano/hashcontainer.hpp: sums over the values of a table, which tell what an operation
-- keeps: two tables with the same sums for every weight hold the same values, each as often.
use stdromano.Prelude.{
  ℕ, zero, suc, ◌+◌, ◌≤◌, ◌<◌, ◌≡◌, List, [], ◌∷◌, none, some, arith, length, get_elem?, set,
  replicate, if◌then◌else◌, refl,
}
use stdromano.HashContainer.Table.{Keys, Slot, Bucket, Table}

pub get_elem?-bound :
    {A : Type 0} (xs : List A) (i : ℕ) (a : A) → get_elem? xs i ≡ some a → i < length xs
get_elem?-bound [] i a h = ground arith
get_elem?-bound (x ∷ xs) zero a h = omega arith
get_elem?-bound (x ∷ xs) (suc i) a h = omega (arith, get_elem?-bound xs i a h)

-- the sum of a weight of the slots
module _ {A : Type 0} (w : Slot A → ℕ) where
  abbrev pub weight : Bucket A → ℕ
  weight none = 0
  weight (some s) = w s

  abbrev pub total : List (Bucket A) → ℕ
  total [] = 0
  total (b ∷ bs) = weight b + total bs

  pub total-set :
      (bs : List (Bucket A)) (i : ℕ) (b b' : Bucket A)
      → get_elem? bs i ≡ some b
      → total (set bs i b') + weight b ≡ total bs + weight b'
  total-set [] i b b' h = ground arith
  total-set (x ∷ bs) zero b b' h = ground arith
  total-set (x ∷ bs) (suc i) b b' h = omega (arith, total-set bs i b b' h)

  pub total-get_elem? :
      (bs : List (Bucket A)) (i : ℕ) (b : Bucket A) → get_elem? bs i ≡ some b → weight b ≤ total bs
  total-get_elem? [] i b h = ground arith
  total-get_elem? (x ∷ bs) zero b h = ground arith
  total-get_elem? (x ∷ bs) (suc i) b h = omega (arith, total-get_elem? bs i b h)

  pub total-replicate : (n : ℕ) → total (replicate n none) ≡ 0
  total-replicate zero = refl
  total-replicate (suc n) = omega (arith, total-replicate n)

-- the sum of a weight of the values
module _ {A : Type 0} (w : A → ℕ) where
  abbrev pub weigh : List (Bucket A) → ℕ
  weigh bs = total (λ s. w s.value) bs

  pub weigh-set :
      (bs : List (Bucket A)) (i : ℕ) (b b' : Bucket A)
      → get_elem? bs i ≡ some b
      → weigh (set bs i b') + weight (λ s. w s.value) b ≡ weigh bs + weight (λ s. w s.value) b'
  weigh-set = total-set (λ s. w s.value)

  pub weigh-get_elem? :
      (bs : List (Bucket A)) (i : ℕ) (b : Bucket A)
      → get_elem? bs i ≡ some b
      → weight (λ s. w s.value) b ≤ weigh bs
  weigh-get_elem? = total-get_elem? (λ s. w s.value)

  pub weigh-replicate : (n : ℕ) → weigh (replicate n none) ≡ 0
  weigh-replicate = total-replicate (λ s. w s.value)

-- how many values have a key
module _ {A K : Type 0} (keys : Keys A K) where
  abbrev pub has : K → A → ℕ
  has k v = if keys.same (keys.key_of v) k then 1 else 0

-- the number of items is what the table says
abbrev pub one : {A : Type 0} → A → ℕ
one v = 1

abbrev pub IsCounted : {A : Type 0} → Table A → Type 0
IsCounted t = t.items_count ≡ weigh one t.buckets
