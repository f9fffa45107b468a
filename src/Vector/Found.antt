-- ===== src/Vector/Found.antt =====
-- include/stdromano/vector.hpp: reading elements of a vector, and two operations on its memory that do
-- not do what they are for.
use stdromano.Prelude.{
  ℕ, zero, suc, ◌+◌, ◌==◌, ◌≤◌, ◌<◌, ◌≡◌, refl, sym, ap, ◌∙◌, Bool, true, false, ltb, leb,
  if◌then◌else◌, List, [], ◌∷◌, ◌++◌, Option, none, some, length, get_elem?, arith, append_assoc,
  get_elem?-append_at, length-append, Bool-cases, inl, inr,
}
use stdromano.Vector.Storage.{Vector, is_null, read, next_capacity, grow, shrink_to_fit, resize}
use stdromano.Vector.Elements.{get, find, find_loop, push_back}
use stdromano.Vector.Grown.{IsVector, slots_with}

module _ {T : Type 0} where
  read-slots_with :
      (xs : List T) (left : List (Option T)) (i : ℕ)
      → i < length xs
      → read (slots_with xs left) i ≡ get_elem? xs i
  read-slots_with [] left i h = absurd (omega (arith, h))
  read-slots_with (x ∷ xs) left zero h = refl
  read-slots_with (x ∷ xs) left (suc i) h = read-slots_with xs left i (omega (arith, h))

  get_elem?-outside : (xs : List T) (i : ℕ) → length xs ≤ i → get_elem? xs i ≡ none
  get_elem?-outside [] i h = refl
  get_elem?-outside (x ∷ xs) zero h = absurd (omega (arith, h))
  get_elem?-outside (x ∷ xs) (suc i) h = get_elem?-outside xs i (omega (arith, h))

  -- The subscript reads the element of the list at an index, and its assertion fails at the others.
  pub get-IsVector : (v : Vector T) (xs : List T) (i : ℕ) → IsVector v xs → get v i ≡ get_elem? xs i
  unfolding get
  get-IsVector v xs i before = elim (Bool-cases (ltb i (length xs))) [
    | inl e ↦
        rw (before.size, e, before.slots) (read-slots_with xs before.left i (ground (arith, e)))
    | inr e ↦ rw (before.size, e) (sym (get_elem?-outside xs i (ground (arith, e))))
  ]

  -- the index of the first element that passes a test, or the length
  abbrev pub first_where : (T → Bool) → List T → ℕ
  first_where f [] = 0
  first_where f (x ∷ xs) = let rest = first_where f xs in if f x then 0 else suc rest

  find_loop-first_where :
      (f : T → Bool) (v : Vector T) (xs ys zs : List T) (i : ℕ)
      → IsVector v xs
      → xs ≡ ys ++ zs
      → i ≡ length ys
      → find_loop f (length zs) i v ≡ some (i + first_where f zs)
  unfolding find_loop
  find_loop-first_where f v xs ys [] i before e h =
      ap some (omega (arith, before.size, ap length e, length-append ys [], h))
  find_loop-first_where f v xs ys (z ∷ zs) i before e h =
      let here : get v i ≡ some z =
        get-IsVector v xs i before ∙ ap (λ l. get_elem? l i) e ∙ get_elem?-append_at ys z zs i h in
      let one = z ∷ [] in
      let next =
        find_loop-first_where f v xs (ys ++ one) zs (suc i) before
          (e ∙ sym (append_assoc ys one zs)) (omega (arith, h, length-append ys one)) in
      elim (Bool-cases (f z)) [
        | inl q ↦ rw (here, q) (ap some (omega arith))
        | inr q ↦ rw (here, q, next) (ap some (omega arith))
      ]

  -- `find` gives the index of the first element that passes the test, and `end()` when none does.
  pub find-IsVector :
      (f : T → Bool) (v : Vector T) (xs : List T)
      → IsVector v xs
      → find f v ≡ some (first_where f xs)
  unfolding find
  find-IsVector f v xs before =
      ap (λ k. find_loop f k 0 v) before.size
      ∙ find_loop-first_where f v xs [] xs 0 before refl refl
      ∙ ap some (omega arith)

module _ {T : Type 0} (scaled : ℕ → ℕ) (allocates : ℕ → Bool) where
  resize-same :
      (v : Vector T) (n : ℕ) → leb n v.capacity ≡ true → resize scaled allocates v n ≡ some v
  unfolding resize
  resize-same v n h = rw h refl

  -- `shrink_to_fit` changes nothing.
  pub shrink_to_fit-IsVector :
      (v : Vector T) (xs : List T) → IsVector v xs → shrink_to_fit scaled allocates v ≡ some v
  unfolding shrink_to_fit resize
  shrink_to_fit-IsVector v xs before =
      let small : leb v.size v.capacity ≡ true = ground (arith, before.size, before.capacity) in
      elim (Bool-cases (v.size == 0)) [
        | inl e ↦ rw e refl
        | inr e ↦ elim (Bool-cases (ltb v.size v.capacity)) [
          | inl f ↦ rw (e, f, small) refl
          | inr f ↦ rw (e, f) refl
        ]
      ]

  -- A push on a full vector of capacity 1 writes behind its memory, since the product of 1 with the
  -- growth rate is cut to 1.
  pub push_back-capacity_one :
      (v : Vector T) (x y : T)
      → scaled 1 ≡ 1
      → IsVector v (x ∷ [])
      → v.capacity ≡ 1
      → push_back scaled allocates v y ≡ none
  unfolding push_back grow
  push_back-capacity_one v x y one before capacity =
      let full : (v.size == v.capacity) ≡ true = ground (arith, before.size, capacity) in
      let solid : is_null v.data_ ≡ false = rw before.slots refl in
      let same : next_capacity {T = T} scaled allocates v ≡ 1 =
        rw solid (ap scaled capacity ∙ one) in
      let stays =
        resize-same v (next_capacity {T = T} scaled allocates v) (ground (arith, same, capacity)) in
      let behind : ltb v.size (length v.data_) ≡ false =
        ground (arith, before.size, before.capacity, capacity, ap length before.slots) in
      rw (full, stays, behind) refl
