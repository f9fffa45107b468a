-- ===== src/Vector/Removed.antt =====
-- include/stdromano/vector.hpp: removing elements of a vector removes them from its list.
use stdromano.Prelude.{
  ℕ, zero, suc, ◌+◌, ◌-◌, ◌==◌, ◌<◌, ◌≡◌, refl, sym, ap, ◌∙◌, true, false, ltb, leb, List, [], ◌∷◌,
  ◌++◌, Option, none, some, length, drop, map, arith, get_elem?-append_at, set-append_at,
  length-append, length-map, length-drop,
}
use stdromano.Vector.Storage.{Vector, memmove}
use stdromano.Vector.Elements.{get, pop_back, erase, erase_range, destroy, clear}
use stdromano.Vector.Grown.{IsVector, slots_with, length-slots_with}
use stdromano.Vector.Contents.{slots_with-append, memmove-down}

module _ {T : Type 0} where
  -- the slots that are left when a range has been closed
  pub record Closed (data_ : List (Option T)) (ys ms zs : List T) (total : ℕ) : Type 0 where
    pub left : List (Option T)
    pub moved :
        memmove data_ (length ys) (length ys + length ms) (length zs)
        ≡ some (slots_with (ys ++ zs) left)
    pub count : total ≡ length ys + length zs + length left

  closed :
      (data_ : List (Option T)) (ys ms zs : List T) (left : List (Option T)) (total : ℕ)
      → data_ ≡ slots_with (ys ++ (ms ++ zs)) left
      → total ≡ length (ys ++ (ms ++ zs)) + length left
      → Closed data_ ys ms zs total
  closed data_ ys ms zs left total slots capacity =
      let some_of : List T → List (Option T) = λ xs. map (λ y. some y) xs in
      let rest = some_of ys ++ (some_of ms ++ (some_of zs ++ left)) in
      let split : slots_with (ys ++ (ms ++ zs)) left ≡ rest =
        slots_with-append ys (ms ++ zs) left
        ∙ ap (λ s. some_of ys ++ s) (slots_with-append ms zs left) in
      let down =
        memmove-down (some_of ys) (some_of ms) (some_of zs) left (length ys) (length ys + length ms)
          (length zs) (omega (arith, length-map ys (λ y. some y)))
          (omega (arith, length-map ys (λ y. some y), length-map ms (λ y. some y)))
          (omega (arith, length-map zs (λ y. some y))) in
      let behind = drop (length ys + length zs) rest in
      record {
        left = behind;
        moved = rw (slots, split) (down ∙ ap some (sym (slots_with-append ys zs behind)));
        count = omega (
          arith,
          capacity,
          length-drop (length ys + length zs) rest,
          ap length split,
          length-slots_with (ys ++ (ms ++ zs)) left,
          length-append ys (ms ++ zs),
          length-append ms zs,
        );
      }

  -- a vector with these contents, and a result beside it
  abbrev pub HoldsWith : {A : Type 0} → Option (Vector T × A) → List T → A → Type 0
  HoldsWith result xs a = (w : Vector T) × (result ≡ some (w, a)) × IsVector w xs

  -- Erasing a position removes the element there, and the result is that position.
  pub erase-IsVector :
      (v : Vector T) (ys zs : List T) (x : T)
      → IsVector v (ys ++ (x ∷ zs))
      → HoldsWith (erase v (length ys)) (ys ++ zs) (length ys)
  unfolding erase
  erase-IsVector v ys zs x before =
      let c = closed v.data_ ys (x ∷ []) zs before.left v.capacity before.slots before.capacity in
      let inside : ltb (length ys) v.size ≡ true =
        ground (arith, before.size, length-append ys (x ∷ zs)) in
      let count : v.size - length ys - 1 ≡ length zs =
        omega (arith, before.size, length-append ys (x ∷ zs)) in
      (
        record v { data_ = slots_with (ys ++ zs) c.left; size = v.size - 1 },
        rw (inside, count, c.moved) refl,
        record {
          left = c.left;
          slots = refl;
          size = omega (arith, before.size, length-append ys (x ∷ zs), length-append ys zs);
          capacity = omega (arith, c.count, length-append ys zs);
        },
      )

  -- Erasing a range that begins at an element removes the elements in it, none when it is empty, and
  -- the result is its first position.
  pub erase_range-IsVector :
      (v : Vector T) (ys ms zs : List T)
      → IsVector v (ys ++ (ms ++ zs))
      → 0 < length ms + length zs
      → HoldsWith (erase_range v (length ys) (length ys + length ms)) (ys ++ zs) (length ys)
  unfolding erase_range
  erase_range-IsVector v ys [] zs before some_left =
      let start : ltb (length ys) v.size ≡ true =
        ground (arith, before.size, length-append ys zs, some_left) in
      let order : leb (length ys) (length ys + 0) ≡ true = ground arith in
      let end_ : leb (length ys + 0) v.size ≡ true =
        ground (arith, before.size, length-append ys zs) in
      let same : (length ys == length ys + 0) ≡ true = ground arith in
      (v, rw (start, order, end_, same) refl, before)
  erase_range-IsVector v ys (m ∷ ms) zs before some_left =
      let whole = length-append ys (m ∷ (ms ++ zs)) in
      let parts = length-append ms zs in
      let last = length ys + suc (length ms) in
      let c = closed v.data_ ys (m ∷ ms) zs before.left v.capacity before.slots before.capacity in
      let start : ltb (length ys) v.size ≡ true = ground (arith, before.size, whole) in
      let order : leb (length ys) last ≡ true = ground arith in
      let end_ : leb last v.size ≡ true = ground (arith, before.size, whole, parts) in
      let other : (length ys == last) ≡ false = ground arith in
      let gap : last - length ys ≡ suc (length ms) = omega arith in
      let tail : v.size - length ys - suc (length ms) ≡ length zs =
        omega (arith, before.size, whole, parts) in
      (
        record v { data_ = slots_with (ys ++ zs) c.left; size = v.size - suc (length ms) },
        rw (start, order, end_, other, gap, tail, c.moved) refl,
        record {
          left = c.left;
          slots = refl;
          size = omega (arith, before.size, whole, parts, length-append ys zs);
          capacity = omega (arith, c.count, length-append ys zs);
        },
      )

  -- Popping gives the last element and leaves the others.
  pub pop_back-IsVector :
      (v : Vector T) (xs : List T) (x : T)
      → IsVector v (xs ++ (x ∷ []))
      → HoldsWith (pop_back v) xs x
  unfolding pop_back get
  pop_back-IsVector v xs x before =
      let n = sym (length-map xs (λ y. some y)) in
      let inside : ltb 0 v.size ≡ true = ground (arith, before.size, length-append xs (x ∷ [])) in
      let last : v.size - 1 ≡ length xs = omega (arith, before.size, length-append xs (x ∷ [])) in
      let below : ltb (length xs) v.size ≡ true =
        ground (arith, before.size, length-append xs (x ∷ [])) in
      let found = get_elem?-append_at (map some xs) (some x) before.left (length xs) n in
      let gone = set-append_at (map some xs) (some x) none before.left (length xs) n in
      (
        record v { data_ = slots_with xs (none ∷ before.left); size = length xs },
        rw
            (
              inside,
              last,
              below,
              before.slots,
              slots_with-append xs (x ∷ []) before.left,
              found,
              gone,
            )
            refl,
        record {
          left = none ∷ before.left;
          slots = refl;
          size = refl;
          capacity = omega (arith, before.capacity, length-append xs (x ∷ []));
        },
      )

  length-destroy : (n : ℕ) (slots : List (Option T)) → length (destroy n slots) ≡ length slots
  unfolding destroy
  length-destroy zero slots = refl
  length-destroy (suc n) [] = refl
  length-destroy (suc n) (s ∷ slots) = ap suc (length-destroy n slots)

  -- Clearing leaves no element, and the capacity as it was.
  pub clear-IsVector :
      (v : Vector T) (xs : List T)
      → IsVector v xs
      → IsVector (clear v) [] × ((clear v).capacity ≡ v.capacity)
  unfolding clear
  clear-IsVector v xs before = (
    record {
      left = destroy v.size v.data_;
      slots = refl;
      size = refl;
      capacity = omega (
        arith,
        before.capacity,
        length-destroy v.size v.data_,
        ap length before.slots,
        length-slots_with xs before.left,
      );
    },
    refl,
  )
