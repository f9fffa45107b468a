-- ===== src/Vector/Storage.antt =====
-- include/stdromano/vector.hpp: the memory of a `Vector`, for values that can be copied byte by byte.
-- A slot is `none` where no value was constructed. The result `none` is an assertion that fails or a
-- use of memory that the vector does not have.
use Prim.Native.Nat.{min}
use stdromano.Prelude.{
  ℕ, zero, suc, ◌+◌, ◌==◌, Bool, true, false, ltb, leb, if◌then◌else◌, not, ◌&&◌, List, [], ◌∷◌,
  ◌++◌, Option, none, some, ◌>>=◌, length, get_elem?, set, take, drop, replicate,
}

-- The block is `data`; no slots stand for the null pointer, as no block of that size is allocated.
pub record Vector (T : Type 0) : Type 0 where
  pub data_ : List (Option T)
  pub capacity : ℕ
  pub size : ℕ

abbrev pub min_size : ℕ
min_size = 128

abbrev pub is_null : {A : Type 0} → List A → Bool
is_null [] = true
is_null (x ∷ xs) = false

module _ {T : Type 0} where
  -- `Vector()`
  abbrev pub new_vector : Vector T
  new_vector = record { data_ = []; capacity = 0; size = 0 }

  -- a value constructed or assigned in a slot
  abbrev pub put : List (Option T) → ℕ → T → Option (List (Option T))
  put slots i x = if ltb i (length slots) then some (set slots i (some x)) else none

  -- the value in a slot
  abbrev pub read : List (Option T) → ℕ → Option T
  read slots i = do s ← get_elem? slots i; s

  -- `std::memmove` of a number of slots
  unfoldable pub memmove : List (Option T) → ℕ → ℕ → ℕ → Option (List (Option T))
  memmove slots dst src n =
      if leb (src + n) (length slots) && leb (dst + n) (length slots)
      then some (take dst slots ++ (take n (drop src slots) ++ drop (dst + n) slots))
      else none

  -- the loop of `resize` that moves the values to the new block, for the rounds that are left
  unfoldable pub move_loop : ℕ → ℕ → List (Option T) → List (Option T) → Option (List (Option T))
  move_loop zero i old new = some new
  move_loop (suc k) i old new = do
    x ← read old i
    moved ← put new i x
    move_loop k (suc i) old moved

-- `scaled` is the product of a capacity with the growth rate as floating-point numbers, cut to an
-- integer, and `allocates` whether the memory for a capacity is got.
module _ {T : Type 0} (scaled : ℕ → ℕ) (allocates : ℕ → Bool) where
  abbrev pub allocate : ℕ → List (Option T)
  allocate capacity =
      if not (capacity == 0) && allocates capacity then replicate capacity none else []

  unfoldable pub resize : Vector T → ℕ → Option (Vector T)
  unfolding move_loop
  resize v new_capacity =
      let new_data = allocate new_capacity in
      let new_size = min v.size new_capacity in
      if leb new_capacity v.capacity then some v else if is_null new_data then some v else (do
        moved ← if is_null v.data_ then some new_data else move_loop new_size 0 v.data_ new_data
        some (record { data_ = moved; capacity = new_capacity; size = new_size }))

  abbrev pub next_capacity : Vector T → ℕ
  next_capacity v = if is_null v.data_ then min_size else scaled v.capacity

  unfoldable pub grow : Vector T → Option (Vector T)
  unfolding resize
  grow v = resize v (next_capacity v)

  unfoldable pub reserve : Vector T → ℕ → Option (Vector T)
  unfolding resize
  reserve v new_capacity = resize v (v.capacity + new_capacity + 1)

  unfoldable pub shrink_to_fit : Vector T → Option (Vector T)
  unfolding resize
  shrink_to_fit v =
      if v.size == 0 then some v else if ltb v.size v.capacity then resize v v.size else some v
