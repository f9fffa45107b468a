-- ===== src/String/Views.antt =====
-- include/stdromano/string.hpp, src/string.cpp: the parts of a string, searches, and tests. A part is a
-- string that refers to the memory of the whole; what stands behind it there can be read.
use stdromano.Prelude.{
  ℕ, zero, suc, ◌+◌, ◌-◌, ◌%◌, ◌^◌, ◌==◌, Bool, true, false, ltb, leb, if◌then◌else◌, ◌&&◌, [], ◌∷◌,
  Option, none, some, ◌>>=◌, length, drop,
}
use stdromano.Json.Value.{Bytes}
use stdromano.String.Storage.{Cells, String, load, make_ref, new_string}

-- a subtraction of two `size_t`
abbrev pub minus64 : ℕ → ℕ → ℕ
minus64 a b = (a + (2 ^ 64 - b)) % 2 ^ 64

-- the loop of `lstrip`, over what is left in front of the end
unfoldable pub skip_front : ℕ → ℕ → Cells → Option (Cells × ℕ)
skip_front c zero cells = some (cells, 0)
skip_front c (suc n) cells = do
  first ← load cells 0
  let rest = skip_front c n (drop 1 cells) in if first == c then rest else some (cells, suc n)

-- the loop of `rstrip`
unfoldable pub skip_back : ℕ → ℕ → Cells → Option ℕ
skip_back c zero cells = some 0
skip_back c (suc n) cells = do
  last ← load cells n
  let rest = skip_back c n cells in if last == c then rest else some (suc n)

unfoldable pub lstrip : String → ℕ → Option String
unfolding skip_front make_ref
lstrip s c =
    if s.size == 0
    then make_ref s.cells 0
    else (do front ← skip_front c s.size s.cells; make_ref front.0 front.1)

unfoldable pub rstrip : String → ℕ → Option String
unfolding skip_back make_ref
rstrip s c =
    if s.size == 0
    then make_ref s.cells 0
    else (do n ← skip_back c s.size s.cells; make_ref s.cells n)

unfoldable pub strip : String → ℕ → Option String
unfolding skip_front skip_back make_ref
strip s c = if s.size == 0 then make_ref s.cells 0 else (do
  front ← skip_front c s.size s.cells
  if front.1 == 0
      then make_ref front.0 0
      else (do n ← skip_back c front.1 front.0; make_ref front.0 n))

-- `substr` of a position
unfoldable pub substr_from : String → ℕ → Option String
unfolding make_ref
substr_from s position =
    if ltb s.size position
    then none
    else if leb s.size position
    then make_ref (drop s.size s.cells) 0
    else make_ref (drop position s.cells) (s.size - position)

-- `substr` of a position and a length; their sum wraps
unfoldable pub substr : String → ℕ → ℕ → Option String
unfolding make_ref
substr s start_pos length_ =
    let actual =
      if ltb s.size ((start_pos + length_) % 2 ^ 64) then s.size - start_pos else length_ in
    if ltb s.size start_pos
    then none
    else if leb s.size start_pos
    then make_ref (drop s.size s.cells) 0
    else make_ref (drop start_pos s.cells) actual

-- whether these bytes stand at a pointer, which is read as far as they do
unfoldable pub stands_at : Bytes → Cells → Option Bool
stands_at [] cells = some true
stands_at (c ∷ cs) cells = do
  first ← load cells 0
  let rest = stands_at cs (drop 1 cells) in if first == c then rest else some false

-- the bytes in front of the zero that ends a text
unfoldable pub c_text : Cells → Option Bytes
c_text [] = none
c_text (none ∷ cells) = none
c_text (some c ∷ cells) =
    let rest = c_text cells in if c == 0 then some [] else (do cs ← rest; some (c ∷ cs))

-- `std::strstr` with the text of the needle read: the offset, if it is found
unfoldable pub strstr : Bytes → Cells → Option (Option ℕ)
unfolding stands_at
strstr needle [] = do found ← stands_at needle []; if found then some (some 0) else none
strstr needle (cell ∷ cells) = do
  found ← stands_at needle (cell ∷ cells)
  c ← cell
  let rest = strstr needle cells in
      if found
      then some (some 0)
      else if c == 0
      then some none
      else (do offset ← rest; some (do i ← offset; some (suc i)))

-- the result -1 is `none`
unfoldable pub find : String → String → Option (Option ℕ)
unfolding strstr c_text
find s substring =
    if substring.size == 0
    then some (some 0)
    else if ltb s.size substring.size
    then some none
    else (do needle ← c_text substring.cells; strstr needle s.cells)

-- `split`: whether there was a part, the iterator, and the part
unfoldable pub split : String → String → ℕ → Option (Bool × ℕ × String)
unfolding strstr c_text make_ref
split s sep it =
    if sep.size == 0
    then (do out ← make_ref s.cells s.size; some (false, s.size, out))
    else if leb s.size it
    then some (false, it, new_string 7)
    else (do
      needle ← c_text sep.cells
      found ← strstr needle (drop it s.cells)
      elim found [
        | some i ↦ do out ← make_ref (drop it s.cells) i; some (true, it + i + sep.size, out)
        | none ↦ do out ← make_ref (drop it s.cells) (s.size - it); some (true, s.size, out)
      ])

-- `lsplit`: the part in front of the first separator, and the part behind it
unfoldable pub lsplit : String → String → Option (String × String)
unfolding strstr c_text make_ref
lsplit s sep = do
  whole ← make_ref s.cells s.size
  nothing ← make_ref (drop s.size s.cells) 0
  if sep.size == 0 then some (whole, nothing) else (do
    needle ← c_text sep.cells
    found ← strstr needle s.cells
    elim found [
      | some i ↦ do
        behind ← make_ref (drop (i + sep.size) s.cells) (minus64 s.size (i + sep.size))
        left ← make_ref s.cells i
        some (left, behind)
      | none ↦ some (whole, nothing)
    ])

-- the loop of `strrstr`, with the offset it is at and the last one found
unfoldable pub last_loop : Bytes → ℕ → ℕ → Option ℕ → Cells → Option (Option ℕ)
unfolding strstr
last_loop needle zero at_ last cells = none
last_loop needle (suc fuel) at_ last cells = do
  found ← strstr needle cells
  elim found [
    | some i ↦ last_loop needle fuel (at_ + i + 1) (some (at_ + i)) (drop (i + 1) cells)
    | none ↦ some last
  ]

unfoldable pub strrstr : Cells → Bytes → Option (Option ℕ)
unfolding last_loop
strrstr cells [] = some (some 0)
strrstr cells (c ∷ cs) = last_loop (c ∷ cs) (length cells + 1) 0 none cells

-- `rsplit`: the part behind the last separator, and the part in front of it
unfoldable pub rsplit : String → String → Option (String × String)
unfolding strrstr c_text make_ref
rsplit s sep = do
  whole ← make_ref s.cells s.size
  nothing ← make_ref s.cells 0
  if sep.size == 0 then some (whole, nothing) else (do
    needle ← c_text sep.cells
    found ← strrstr s.cells needle
    elim found [
      | some i ↦ do
        right ← make_ref (drop (i + sep.size) s.cells) (minus64 s.size (i + sep.size))
        front ← make_ref s.cells i
        some (right, front)
      | none ↦ some (whole, nothing)
    ])

-- the bytes of a string
unfoldable pub bytes_in : ℕ → Cells → Option Bytes
bytes_in zero cells = some []
bytes_in (suc n) cells = do c ← load cells 0; cs ← bytes_in n (drop 1 cells); some (c ∷ cs)

-- `static_cast<int>(c - 48) > 9` for a `char`, which is signed
abbrev pub is_above : ℕ → Bool
is_above c = ltb 57 c && ltb c 128

unfoldable pub is_digit_loop : Bytes → Bool
is_digit_loop [] = true
is_digit_loop (c ∷ cs) = let rest = is_digit_loop cs in if is_above c then false else rest

unfoldable pub is_digit : String → Option Bool
unfolding bytes_in is_digit_loop
is_digit s = do cs ← bytes_in s.size s.cells; some (is_digit_loop cs)
