-- ===== src/String/Contents.antt =====
-- include/stdromano/string.hpp: the contents of a string, and a new block keeps them.
use Prim.Native.Nat.{max, min}
use stdromano.Prelude.{
  ℕ, zero, suc, ◌+◌, ◌%◌, ◌^◌, ◌≤◌, ◌<◌, ◌≡◌, refl, sym, ap, ◌∙◌, Bool, true, false, ltb, leb,
  if◌then◌else◌, List, [], ◌∷◌, ◌++◌, Option, none, some, length, drop, map, replicate, arith,
  append_assoc, length-append, length-map, length-replicate, take-append, drop-append,
  set-append_at, Bool-cases, inl, inr,
}
use stdromano.Json.Value.{Bytes}
use stdromano.String.Storage.{
  Cells, String, npos, bits31, mem_cpy, store, reallocate, make_room, shrink_to_fit,
}

abbrev pub cells_of : Bytes → Cells
cells_of xs = map some xs

-- The cells hold the bytes of the list and a zero behind them, in memory of the string's own.
pub record IsString (s : String) (xs : Bytes) : Type 0 where
  pub left : Cells
  pub cells : s.cells ≡ cells_of xs ++ (some 0 ∷ left)
  pub size : s.size ≡ length xs
  pub capacity : s.capacity ≡ length xs + length left
  pub small : s.capacity < 2 ^ 31
  pub owned : s.is_ref ≡ false

abbrev pub HoldsText : Option String → Bytes → Type 0
HoldsText result xs = (t : String) × (result ≡ some t) × IsString t xs

pub if_not : {A : Type 0} (b : Bool) (x y : A) → b ≡ false → (if b then x else y) ≡ y
if_not b x y e = rw e refl

pub if_so : {A : Type 0} (b : Bool) (x y : A) → b ≡ true → (if b then x else y) ≡ x
if_so b x y e = rw e refl

-- bytes in the midst of a block, taken from the front of another
pub mem_cpy-over :
    (front mid back new rest : Cells) (at_ n : ℕ)
    → at_ ≡ length front
    → n ≡ length new
    → length mid ≡ length new
    → mem_cpy (front ++ (mid ++ back)) at_ (new ++ rest) n ≡ some (front ++ (new ++ back))
unfolding mem_cpy
mem_cpy-over front mid back new rest at_ n ea en same =
    let cells = front ++ (mid ++ back) in
    let source : leb n (length (new ++ rest)) ≡ true = ground (arith, length-append new rest, en) in
    let target : leb (at_ + n) (length cells) ≡ true =
      ground (arith, length-append front (mid ++ back), length-append mid back, ea, en, same) in
    let behind : drop (at_ + n) cells ≡ back = rw (append_assoc front mid back) at (
      drop-append (front ++ mid) back (at_ + n)
        (omega (arith, length-append front mid, ea, en, same))) in
    rw (source, target, take-append front (mid ++ back) at_ ea, take-append new rest n en, behind)
      refl

-- a list in two parts, the first of a length
pub record TwoParts {A : Type 0} (xs : List A) (n : ℕ) : Type 0 where
  pub front : List A
  pub back : List A
  pub whole : xs ≡ front ++ back
  pub count : length front ≡ n

pub cut_list : {A : Type 0} (n : ℕ) (xs : List A) → n ≤ length xs → TwoParts xs n
cut_list zero xs h = record { front = []; back = xs; whole = refl; count = refl }
cut_list (suc n) [] h = absurd (omega (arith, h))
cut_list (suc n) (x ∷ xs) h =
    let s = cut_list n xs (omega (arith, h)) in
    record {
      front = x ∷ s.front;
      back = s.back;
      whole = ap (λ l. x ∷ l) s.whole;
      count = omega (arith, s.count);
    }

pub uncons :
    {A : Type 0} (xs : List A) → 0 < length xs → (x : A) × (rest : List A) × (xs ≡ x ∷ rest)
uncons [] h = absurd (omega (arith, h))
uncons (x ∷ xs) h = (x, xs, refl)

pub length-cells_of : (xs : Bytes) → length (cells_of xs) ≡ length xs
length-cells_of xs = length-map xs (λ x. some x)

pub store-over :
    (xs : Bytes) (cell : Option ℕ) (left : Cells) (c at_ : ℕ)
    → at_ ≡ length xs
    → store (cells_of xs ++ (cell ∷ left)) at_ c ≡ some (cells_of xs ++ (some c ∷ left))
store-over xs cell left c at_ e =
    let inside : ltb at_ (length (cells_of xs ++ (cell ∷ left))) ≡ true =
      ground (arith, length-append (cells_of xs) (cell ∷ left), length-cells_of xs, e) in
    let placed =
      set-append_at (cells_of xs) cell (some c) left at_ (omega (arith, e, length-cells_of xs)) in
    rw (inside, placed) refl

copied-over :
    (xs : Bytes) (size : ℕ) (rest block front back : Cells)
    → length xs ≤ size
    → block ≡ front ++ back
    → length front ≡ length xs
    → (if ltb 0 size then mem_cpy block 0 (cells_of xs ++ rest) (length xs) else some block)
      ≡ some (cells_of xs ++ back)
copied-over xs size rest block front back e whole count = elim (Bool-cases (ltb 0 size)) [
  | inl positive ↦
      rw (positive, whole)
        (mem_cpy-over [] front back (cells_of xs) rest 0 (length xs) refl (sym (length-cells_of xs))
          (omega (arith, count, length-cells_of xs)))
  | inr zero_size ↦
      let nothing : length xs ≡ 0 = ground (arith, zero_size, e) in
      rw (zero_size, whole)
        (ap some (
          ap (λ l. l ++ back)
            (empties front (cells_of xs) (omega (arith, count, nothing))
              (omega (arith, nothing, length-cells_of xs)))))
]
  where
    empties : (a b : Cells) → length a ≡ 0 → length b ≡ 0 → a ≡ b
    empties [] [] h g = refl
    empties [] (b ∷ bs) h g = absurd (omega (arith, g))
    empties (a ∷ as_) b h g = absurd (omega (arith, h))

-- a string with the same contents and room for more
pub record Room (result : Option String) (xs : Bytes) (required : ℕ) : Type 0 where
  pub string : String
  pub returns : result ≡ some string
  pub contents : IsString string xs
  pub room : required ≤ string.capacity

reallocate-over :
    (s : String) (xs : Bytes) (n : ℕ) (rest front left : Cells) (cell : Option ℕ)
    → s.is_ref ≡ false
    → s.cells ≡ cells_of xs ++ rest
    → length xs ≤ s.size
    → min s.size ((n + npos) % 2 ^ 64) ≡ length xs
    → length xs < 2 ^ 31
    → n < 2 ^ 31
    → replicate (n + 1) none ≡ front ++ (cell ∷ left)
    → length front ≡ length xs
    → reallocate s n
      ≡ some (record s {
        cells = cells_of xs ++ (some 0 ∷ left);
        size = length xs;
        capacity = n;
        is_local = false;
      })
unfolding reallocate
reallocate-over s xs n rest front left cell owned held size least text_small small whole count =
    let copied =
      copied-over xs s.size rest (replicate (n + 1) none) front (cell ∷ left) size whole count in
    let same_size : bits31 (length xs) ≡ length xs = omega (arith, text_small) in
    let same_capacity : bits31 n ≡ n = omega (arith, small) in
    rw
      (
        owned,
        least,
        held,
        copied,
        store-over xs cell left 0 (length xs) refl,
        same_size,
        same_capacity,
      )
      refl

reallocate-front :
    (s : String) (xs : Bytes) (n : ℕ) (rest : Cells)
    → s.is_ref ≡ false
    → s.cells ≡ cells_of xs ++ rest
    → length xs ≤ s.size
    → min s.size ((n + npos) % 2 ^ 64) ≡ length xs
    → length xs < n
    → n < 2 ^ 31
    → Room (reallocate s n) xs n
reallocate-front s xs n rest owned held size least more small =
    let block = replicate {A = Option ℕ} (n + 1) none in
    let total = length-replicate {A = Option ℕ} (n + 1) none in
    let parts = cut_list (length xs) block (omega (arith, total, more)) in
    let behind : length block ≡ length xs + length parts.back =
      omega (arith, ap length parts.whole, length-append parts.front parts.back, parts.count) in
    let (cell, left, e) = uncons parts.back (omega (arith, behind, total, more)) in
    record {
      string = record s {
        cells = cells_of xs ++ (some 0 ∷ left);
        size = length xs;
        capacity = n;
        is_local = false;
      };
      returns =
          reallocate-over s xs n rest parts.front left cell owned held size least
            (omega (arith, more, small)) small (parts.whole ∙ ap (λ l. parts.front ++ l) e)
            parts.count;
      contents = record {
        left = left;
        cells = refl;
        size = refl;
        capacity = omega (arith, behind, total, ap length e);
        small = small;
        owned = owned;
      };
      room = omega arith;
    }

pub reallocate-Room :
    (s : String) (xs : Bytes) (n : ℕ)
    → IsString s xs
    → length xs < n
    → n < 2 ^ 31
    → Room (reallocate s n) xs n
reallocate-Room s xs n before more small =
    reallocate-front s xs n (some 0 ∷ before.left) before.owned before.cells
      (omega (arith, before.size)) (omega (arith, before.size, more, small)) more small

-- The capacity that a growing string gets fits its field.
pub make_room-Room :
    (scaled : ℕ → ℕ) (s : String) (xs : Bytes) (required : ℕ)
    → IsString s xs
    → length xs < required
    → max required (scaled s.capacity) < 2 ^ 31
    → Room (make_room scaled s required) xs required
make_room-Room scaled s xs required before more fits = elim (Bool-cases (ltb s.capacity required)) [
  | inl e ↦
      let r =
        reallocate-Room s xs (max required (scaled s.capacity)) before (omega (arith, more)) fits in
      record {
        string = r.string;
        returns = rw e r.returns;
        contents = r.contents;
        room = omega (arith, r.room);
      }
  | inr e ↦ record { string = s; returns = rw e refl; contents = before; room = ground (arith, e) }
]

-- The bytes from a pointer on that a string has or refers to, whatever stands behind them.
pub record IsText (s : String) (xs : Bytes) : Type 0 where
  pub rest : Cells
  pub cells : s.cells ≡ cells_of xs ++ rest
  pub size : s.size ≡ length xs

pub cells_of-append :
    (xs ys : Bytes) (left : Cells)
    → cells_of (xs ++ ys) ++ left ≡ cells_of xs ++ (cells_of ys ++ left)
cells_of-append [] ys left = refl
cells_of-append (x ∷ xs) ys left = ap (λ l. some x ∷ l) (cells_of-append xs ys left)

-- a cell behind a number of others
pub record Around (cells : Cells) (n : ℕ) : Type 0 where
  pub front : Cells
  pub cell : Option ℕ
  pub back : Cells
  pub whole : cells ≡ front ++ (cell ∷ back)
  pub count : length front ≡ n

pub cut_cell : (n : ℕ) (cells : Cells) → n < length cells → Around cells n
cut_cell zero [] h = absurd (omega (arith, h))
cut_cell zero (c ∷ cells) h = record {
  front = [];
  cell = c;
  back = cells;
  whole = refl;
  count = refl;
}
cut_cell (suc n) [] h = absurd (omega (arith, h))
cut_cell (suc n) (c ∷ cells) h =
    let g = cut_cell n cells (omega (arith, h)) in
    record {
      front = c ∷ g.front;
      cell = g.cell;
      back = g.back;
      whole = ap (λ l. c ∷ l) g.whole;
      count = omega (arith, g.count);
    }

-- shrink_to_fit cuts the text to a size, and to no less than it has where the size is larger.
pub shrink_to_fit-IsString :
    (s : String) (xs ys : Bytes) (n : ℕ)
    → IsString s (xs ++ ys)
    → min n (length (xs ++ ys)) ≡ length xs
    → length xs + 1 < 2 ^ 31
    → HoldsText (shrink_to_fit s n) xs
unfolding shrink_to_fit
shrink_to_fit-IsString s xs ys n before cut small =
    let size : min n s.size + 1 ≡ length xs + 1 = omega (arith, cut, before.size) in
    let r =
      reallocate-front s xs (length xs + 1) (cells_of ys ++ (some 0 ∷ before.left)) before.owned
        (before.cells ∙ cells_of-append xs ys (some 0 ∷ before.left))
        (omega (arith, before.size, length-append xs ys))
        (omega (arith, before.size, length-append xs ys, small)) (omega arith) small in
    (r.string, ap (reallocate s) size ∙ r.returns, r.contents)
