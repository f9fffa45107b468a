-- ===== src/Vector/Elements.antt =====
-- include/stdromano/vector.hpp: the operations of `Vector` on its elements.
use stdromano.Prelude.{
  ℕ, zero, suc, ◌+◌, ◌-◌, ◌==◌, Bool, ltb, leb, if◌then◌else◌, List, [], ◌∷◌, Option, none, some,
  ◌>>=◌, set,
}
use stdromano.Vector.Storage.{Vector, put, read, memmove, grow}

module _ {T : Type 0} where
  -- `operator[]`, with the assertion of `at`
  unfoldable pub get : Vector T → ℕ → Option T
  get v i = if ltb i v.size then read v.data_ i else none

  unfoldable pub pop_back : Vector T → Option (Vector T × T)
  unfolding get
  pop_back v =
      if ltb 0 v.size
      then (do
        object ← get v (v.size - 1)
        some (record v { data_ = set v.data_ (v.size - 1) none; size = v.size - 1 }, object))
      else none

  -- `erase` of one position
  unfoldable pub erase : Vector T → ℕ → Option (Vector T × ℕ)
  unfolding memmove
  erase v position =
      if ltb position v.size
      then (do
        slots ← memmove v.data_ position (position + 1) (v.size - position - 1)
        some (record v { data_ = slots; size = v.size - 1 }, position))
      else none

  -- `erase` of a range; the result is `end()` where it is none
  unfoldable pub erase_range : Vector T → ℕ → ℕ → Option (Vector T × ℕ)
  unfolding memmove
  erase_range v first last =
      if ltb first v.size
      then if leb first last
        then if leb last v.size
          then if first == last then some (v, first) else (do
            slots ← memmove v.data_ first (first + (last - first)) (v.size - first - (last - first))
            some (record v { data_ = slots; size = v.size - (last - first) }, first))
          else some (v, v.size)
        else some (v, v.size)
      else some (v, v.size)

  -- the loop of `find` from an index on, for the rounds that are left
  unfoldable pub find_loop : (T → Bool) → ℕ → ℕ → Vector T → Option ℕ
  find_loop f zero i v = some v.size
  find_loop f (suc k) i v = do
    x ← get v i
    let rest = find_loop f k (suc i) v
    if f x then some i else rest

  -- `find`, with the test of an element; `size()` is the index of `end()`
  unfoldable pub find : (T → Bool) → Vector T → Option ℕ
  unfolding find_loop
  find f v = find_loop f v.size 0 v

  -- the destructors of the elements, from the first slot on
  unfoldable pub destroy : ℕ → List (Option T) → List (Option T)
  destroy zero slots = slots
  destroy (suc k) [] = []
  destroy (suc k) (s ∷ slots) = none ∷ destroy k slots

  unfoldable pub clear : Vector T → Vector T
  unfolding destroy
  clear v = record v { data_ = destroy v.size v.data_; size = 0 }

module _ {T : Type 0} (scaled : ℕ → ℕ) (allocates : ℕ → Bool) where
  abbrev pub make_room : Vector T → Option (Vector T)
  make_room v = if v.size == v.capacity then grow scaled allocates v else some v

  unfoldable pub push_back : Vector T → T → Option (Vector T)
  unfolding grow
  push_back v x = do
    w ← make_room v
    slots ← put w.data_ w.size x
    some (record w { data_ = slots; size = w.size + 1 })

  -- `insert` of one element
  unfoldable pub insert : Vector T → T → ℕ → Option (Vector T)
  unfolding grow push_back memmove
  insert v x position =
      if leb position v.size
      then (do
        w ← make_room v
        if position == w.size then push_back w x else (do
          slots ← memmove w.data_ (position + 1) position (w.size - position)
          placed ← put slots position x
          some (record w { data_ = placed; size = w.size + 1 })))
      else none
