-- ===== src/Vector/Grown.antt =====
-- include/stdromano/vector.hpp: the contents of a vector, and a new block keeps them.
use Prim.Native.Nat.{min}
use stdromano.Prelude.{
  ℕ, zero, suc, ◌+◌, ◌==◌, ◌≤◌, ◌<◌, ◌≡◌, refl, Bool, true, false, ltb, leb, if◌then◌else◌, List,
  [], ◌∷◌, ◌++◌, Option, none, some, length, drop, map, replicate, arith, append_assoc,
  get_elem?-append_at, set-append_at, length-append, length-map, length-replicate, length-drop,
  Bool-cases, inl, inr,
}
use stdromano.Vector.Storage.{Vector, is_null, move_loop, resize, next_capacity, grow}

module _ {T : Type 0} where
  -- The slots hold the values of the list, and after them what was left there.
  abbrev pub slots_with : List T → List (Option T) → List (Option T)
  slots_with xs left = map some xs ++ left

  pub record IsVector (v : Vector T) (xs : List T) : Type 0 where
    pub left : List (Option T)
    pub slots : v.data_ ≡ slots_with xs left
    pub size : v.size ≡ length xs
    pub capacity : v.capacity ≡ length xs + length left

  pub length-slots_with :
      (xs : List T) (left : List (Option T)) → length (slots_with xs left) ≡ length xs + length left
  length-slots_with xs left =
      omega (arith, length-append (map some xs) left, length-map xs (λ x. some x))

  move_loop-slots_with :
      (zs : List T) (olds news left fresh : List (Option T)) (i : ℕ)
      → i ≡ length olds
      → i ≡ length news
      → length zs ≤ length fresh
      → move_loop (length zs) i (olds ++ slots_with zs left) (news ++ fresh)
        ≡ some (news ++ slots_with zs (drop (length zs) fresh))
  unfolding move_loop
  move_loop-slots_with [] olds news left fresh i e f small = refl
  move_loop-slots_with (z ∷ zs) olds news left [] i e f small = absurd (omega (arith, small))
  move_loop-slots_with (z ∷ zs) olds news left (g ∷ fresh) i e f small =
      let room : ltb i (length (news ++ (g ∷ fresh))) ≡ true =
        ground (arith, length-append news (g ∷ fresh), f) in
      let one = some z ∷ [] in
      let rest =
        move_loop-slots_with zs (olds ++ one) (news ++ one) left fresh (suc i)
          (omega (arith, e, length-append olds one)) (omega (arith, f, length-append news one))
          (omega (arith, small)) in
      rw
        (
          get_elem?-append_at olds (some z) (slots_with zs left) i e,
          room,
          set-append_at news g (some z) fresh i f,
        )
        (rw
          (
            append_assoc olds one (slots_with zs left),
            append_assoc news one fresh,
            append_assoc news one (slots_with zs (drop (length zs) fresh)),
          )
          at rest)

  moved-slots_with :
      (xs : List T) (slots left fresh : List (Option T))
      → slots ≡ slots_with xs left
      → length xs ≤ length fresh
      → (if is_null slots then some fresh else move_loop (length xs) 0 slots fresh)
        ≡ some (slots_with xs (drop (length xs) fresh))
  unfolding move_loop
  moved-slots_with [] slots left fresh e small = elim (Bool-cases (is_null slots)) [
    | inl h ↦ rw h refl
    | inr h ↦ rw h refl
  ]
  moved-slots_with (x ∷ xs) slots left fresh e small =
      rw e (move_loop-slots_with (x ∷ xs) [] [] left fresh 0 refl refl small)

is_null-replicate : {A : Type 0} (n : ℕ) (a : A) → 0 < n → is_null (replicate n a) ≡ false
is_null-replicate zero a h = absurd (omega (arith, h))
is_null-replicate (suc n) a h = refl

module _ {T : Type 0} (scaled : ℕ → ℕ) (allocates : ℕ → Bool) where
  -- a vector with the same contents and a larger capacity
  pub record Larger (result : Option (Vector T)) (xs : List T) (capacity : ℕ) : Type 0 where
    pub vector : Vector T
    pub returns : result ≡ some vector
    pub contents : IsVector vector xs
    pub larger : vector.capacity ≡ capacity

  pub resize-Larger :
      (v : Vector T) (xs : List T) (n : ℕ)
      → IsVector v xs
      → v.capacity < n
      → allocates n ≡ true
      → Larger (resize scaled allocates v n) xs n
  unfolding resize
  resize-Larger v xs n before small got =
      let tests : leb n v.capacity ≡ false = ground (arith, small) in
      let positive : (n == 0) ≡ false = ground (arith, small) in
      let least : min v.size n ≡ length xs = omega (arith, before.size, before.capacity, small) in
      let block = replicate {A = Option T} n none in
      let solid = is_null-replicate {A = Option T} n none (omega (arith, small)) in
      let enough : length xs ≤ length block =
        omega (arith, length-replicate {A = Option T} n none, before.capacity, small) in
      let moved = moved-slots_with xs v.data_ before.left block before.slots enough in
      record {
        vector = record {
          data_ = slots_with xs (drop (length xs) block);
          capacity = n;
          size = length xs;
        };
        returns = rw (tests, positive, got, solid, least, moved) refl;
        contents = record {
          left = drop (length xs) block;
          slots = refl;
          size = refl;
          capacity = omega (
            arith,
            length-drop (length xs) block,
            length-replicate {A = Option T} n none,
            enough,
          );
        };
        larger = refl;
      }

  -- A full vector grows when the memory is got and the product with the growth rate is larger.
  pub grow-Larger :
      (v : Vector T) (xs : List T)
      → IsVector v xs
      → v.capacity < next_capacity {T = T} scaled allocates v
      → allocates (next_capacity {T = T} scaled allocates v) ≡ true
      → Larger (grow scaled allocates v) xs (next_capacity {T = T} scaled allocates v)
  unfolding grow
  grow-Larger v xs before small got =
      resize-Larger v xs (next_capacity {T = T} scaled allocates v) before small got
