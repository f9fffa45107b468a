-- ===== src/String/Storage.antt =====
-- include/stdromano/string.hpp: the memory of a `String`, and the operations that change it. A cell is
-- `none` where nothing was written. The result `none` is an assertion that fails or a use of memory
-- that the string does not have.
use Prim.Native.Nat.{max, min}
use stdromano.Prelude.{
  ℕ, ◌+◌, ◌-◌, ◌%◌, ◌^◌, ◌==◌, Bool, true, false, ltb, leb, if◌then◌else◌, ◌&&◌, ◌||◌, List, [],
  ◌∷◌, ◌++◌, Option, none, some, ◌>>=◌, length, get_elem?, set, take, drop, replicate,
}

-- the bytes from a pointer on
abbrev pub Cells : Type 0
Cells = List (Option ℕ)

-- `cells` is what `data()` points to: the local buffer, a block, or the bytes of another object
pub record String : Type 0 where
  pub cells : Cells
  pub size : ℕ
  pub capacity : ℕ
  pub is_local : Bool
  pub is_ref : Bool

abbrev pub npos : ℕ
npos = 18446744073709551615

abbrev pub load : Cells → ℕ → Option ℕ
load cells i = do c ← get_elem? cells i; c

abbrev pub store : Cells → ℕ → ℕ → Option Cells
store cells i c = if ltb i (length cells) then some (set cells i (some c)) else none

-- `mem_cpy` of a number of bytes to an index of a block
unfoldable pub mem_cpy : Cells → ℕ → Cells → ℕ → Option Cells
mem_cpy cells dst source n =
    if leb n (length source) && leb (dst + n) (length cells)
    then some (take dst cells ++ (take n source ++ drop (dst + n) cells))
    else none

-- `mem_move` within a block
abbrev pub mem_move : Cells → ℕ → ℕ → ℕ → Option Cells
mem_move cells dst src n = mem_cpy cells dst (drop src cells) n

-- `str_len`
unfoldable pub str_len : Cells → Option ℕ
str_len [] = none
str_len (none ∷ cells) = none
str_len (some c ∷ cells) =
    let rest = str_len cells in if c == 0 then some 0 else (do n ← rest; some (n + 1))

-- in the fields of 31 bits
abbrev pub bits31 : ℕ → ℕ
bits31 n = n % 2 ^ 31

unfoldable pub reallocate : String → ℕ → Option String
unfolding mem_cpy
reallocate s new_capacity =
    let copy_size = min s.size ((new_capacity + npos) % 2 ^ 64) in
    let block = replicate (new_capacity + 1) none in
    if s.is_ref then none else (do
      copied ← if ltb 0 s.size then mem_cpy block 0 s.cells copy_size else some block
      ended ← store copied copy_size 0
      some (record s {
        cells = ended;
        size = bits31 copy_size;
        capacity = bits31 new_capacity;
        is_local = false;
      }))

unfoldable pub clear : String → Option String
clear s =
    if s.is_ref
    then none
    else (do ended ← store s.cells 0 0; some (record s { cells = ended; size = 0 }))

unfoldable pub shrink_to_fit : String → ℕ → Option String
unfolding reallocate
shrink_to_fit s size = reallocate s (min size s.size + 1)

-- how many bytes are removed
abbrev pub actual_length : String → ℕ → ℕ → ℕ
actual_length s start length_ =
    if length_ == npos || ltb s.size ((start + length_) % 2 ^ 64) then s.size - start else length_

unfoldable pub erase : String → ℕ → ℕ → Option String
unfolding mem_cpy
erase s start length_ =
    let n = actual_length s start length_ in
    let tail_start = (start + n) % 2 ^ 64 in
    let tail_size = (s.size + 2 ^ 64 - tail_start + 1) % 2 ^ 64 in
    if s.is_ref
    then none
    else if length_ == 0 || s.size == 0 || leb s.size start
    then some s
    else if n == 0
    then some s
    else (do
      moved ← mem_move s.cells start tail_start tail_size
      some (record s { cells = moved; size = bits31 (s.size + 2 ^ 32 - n % 2 ^ 32) }))

-- `scaled` is the product of a capacity with the growth rate as floating-point numbers, cut to an
-- integer; memory is always got, as the code takes it to be.
module _ (scaled : ℕ → ℕ) where
  -- the first lines of the operations that make a string longer
  abbrev pub make_room : String → ℕ → Option String
  make_room s required =
      if ltb s.capacity required then reallocate s (max required (scaled s.capacity)) else some s

  unfoldable pub push_back : String → ℕ → Option String
  unfolding reallocate
  push_back s c =
      let next = scaled s.capacity in
      if s.is_ref then none else (do
        room ←
            if leb s.capacity s.size
            then reallocate s (if leb next s.size then s.size + 1 else next)
            else some s
        put ← store room.cells room.size c
        ended ← store put (bits31 (room.size + 1)) 0
        some (record room { cells = ended; size = bits31 (room.size + 1) }))

  -- the bytes put behind the contents
  abbrev pub append_bytes : String → Cells → ℕ → Option String
  append_bytes s c n = do
    room ← make_room s (s.size + n)
    put ← mem_cpy room.cells room.size c n
    ended ← store put (bits31 (s.size + n)) 0
    some (record room { cells = ended; size = bits31 (s.size + n) })

  -- the bytes put in front of those from a position on
  abbrev pub insert_bytes : String → ℕ → Cells → ℕ → Option String
  insert_bytes s position c n = do
    room ← make_room s (s.size + n)
    moved ← mem_move room.cells (position + n) position (room.size - position + 1)
    put ← mem_cpy moved position c n
    some (record room { cells = put; size = bits31 (s.size + n) })

  -- how many bytes of a pointer are meant, which is none for the null pointer or an empty text
  abbrev pub bytes_of : Option Cells → ℕ → Option (Cells × ℕ)
  unfolding str_len
  bytes_of none n = some ([], 0)
  bytes_of (some c) n = do
    first ← load c 0
    all ← if first == 0 then some 0 else if n == 0 then str_len c else some n
    some (c, all)

  unfoldable pub appends : String → String → Option String
  unfolding reallocate mem_cpy
  appends s other =
      if s.is_ref
      then none
      else if other.size == 0
      then some s
      else append_bytes s other.cells other.size

  unfoldable pub prepends : String → String → Option String
  unfolding reallocate mem_cpy
  prepends s other =
      if s.is_ref
      then none
      else if other.size == 0
      then some s
      else insert_bytes s 0 other.cells other.size

  unfoldable pub inserts : String → ℕ → String → Option String
  unfolding reallocate mem_cpy
  inserts s position other =
      let at_most = if ltb s.size position then s.size else position in
      if s.is_ref
      then none
      else if other.size == 0
      then some s
      else insert_bytes s at_most other.cells other.size

  unfoldable pub appendc : String → Option Cells → ℕ → Option String
  unfolding reallocate mem_cpy str_len
  appendc s c n = if s.is_ref then none else (do
    found ← bytes_of c n
    if found.1 == 0 then some s else append_bytes s found.0 found.1)

  unfoldable pub prependc : String → Option Cells → ℕ → Option String
  unfolding reallocate mem_cpy str_len
  prependc s c n = if s.is_ref then none else (do
    found ← bytes_of c n
    if found.1 == 0 then some s else insert_bytes s 0 found.0 found.1)

  -- the null pointer is an assertion that fails here
  unfoldable pub insertc : String → ℕ → Option Cells → ℕ → Option String
  unfolding reallocate mem_cpy str_len
  insertc s position none n = none
  insertc s position (some c) n =
      let at_most = if ltb s.size position then s.size else position in
      if s.is_ref then none else (do
        found ← bytes_of (some c) n
        if found.1 == 0 then some s else insert_bytes s at_most found.0 found.1)

-- `LocalCapacity` is a parameter of the type
module _ (local_capacity : ℕ) where
  abbrev pub new_string : String
  new_string = record {
    cells = some 0 ∷ replicate local_capacity none;
    size = 0;
    capacity = local_capacity;
    is_local = true;
    is_ref = false;
  }

  -- `make_from_c_str`; the constructor of the same arguments does the same. One byte more than the size
  -- is read.
  unfoldable pub make_from_c_str : Option Cells → ℕ → Option String
  unfolding reallocate mem_cpy str_len
  make_from_c_str none len = some new_string
  make_from_c_str (some str) len = do
    size ← if len == npos then str_len str else some len
    if size == 0 then some new_string else (do
      room ← if ltb local_capacity size then reallocate new_string size else some new_string
      put ← mem_cpy room.cells 0 str (size + 1)
      ended ← store put (bits31 size) 0
      some (record room { cells = ended; size = bits31 size }))

  -- the constructor that copies
  unfoldable pub copy_of : String → Option String
  unfolding mem_cpy
  copy_of other =
      if other.is_ref
      then some (record other { is_local = false })
      else if leb other.size local_capacity
      then (do
        put ← mem_cpy new_string.cells 0 other.cells (other.size + 1)
        some (record {
          cells = put;
          size = other.size;
          capacity = local_capacity;
          is_local = true;
          is_ref = false;
        }))
      else (do
        put ← mem_cpy (replicate (other.capacity + 1) none) 0 other.cells (other.size + 1)
        some (record {
          cells = put;
          size = other.size;
          capacity = other.capacity;
          is_local = false;
          is_ref = false;
        }))

  unfoldable pub copy : String → Option String
  unfolding make_from_c_str copy_of
  copy s = if s.is_ref then make_from_c_str (some s.cells) s.size else copy_of s

-- `make_ref` of a pointer that is not null
unfoldable pub make_ref : Cells → ℕ → Option String
unfolding str_len
make_ref str size_param = do
  size ← if size_param == npos then str_len str else some size_param
  some (record {
    cells = str;
    size = bits31 size;
    capacity = bits31 size;
    is_local = false;
    is_ref = true;
  })
