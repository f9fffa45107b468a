-- ===== src/Vector/Contents.antt =====
-- include/stdromano/vector.hpp: the operations of a vector are those of a list.
use stdromano.Prelude.{
  ℕ, suc, ◌+◌, ◌-◌, ◌==◌, ◌<◌, ◌≡◌, ◌≢◌, refl, sym, ap, Bool, true, false, ltb, leb, List, [], ◌∷◌,
  ◌++◌, Option, some, ◌>>=◌, length, take, drop, map, arith, append_assoc, append-nil,
  set-append_at, take-append, drop-append, length-append, length-map, Bool-cases, inl, inr,
}
use stdromano.Vector.Storage.{Vector, put, memmove, next_capacity}
use stdromano.Vector.Elements.{make_room, push_back, insert}
use stdromano.Vector.Grown.{IsVector, slots_with, length-slots_with, grow-Larger}

module _ {T : Type 0} where
  -- a vector with these contents
  abbrev pub Holds : Option (Vector T) → List T → Type 0
  Holds result xs = (w : Vector T) × (result ≡ some w) × IsVector w xs

  pub slots_with-append :
      (xs ys : List T) (left : List (Option T))
      → slots_with (xs ++ ys) left ≡ slots_with xs (slots_with ys left)
  slots_with-append [] ys left = refl
  slots_with-append (x ∷ xs) ys left = ap (λ s. some x ∷ s) (slots_with-append xs ys left)

  -- the slots from a position on, moved by one
  memmove-up :
      (front back left : List (Option T)) (b l : Option T) (p q n : ℕ)
      → p ≡ suc (length front)
      → q ≡ length front
      → n ≡ suc (length back)
      → memmove (front ++ (b ∷ (back ++ (l ∷ left)))) p q n
        ≡ some (front ++ (b ∷ b ∷ (back ++ left)))
  unfolding memmove
  memmove-up front back left b l p q n ep eq en =
      let slots = front ++ (b ∷ (back ++ (l ∷ left))) in
      let one = b ∷ [] in
      let whole : length slots ≡ length front + (length back + length left) + 2 =
        omega
          (arith, length-append front (b ∷ (back ++ (l ∷ left))), length-append back (l ∷ left)) in
      let source : leb (q + n) (length slots) ≡ true = ground (arith, whole, eq, en) in
      let target : leb (p + n) (length slots) ≡ true = ground (arith, whole, ep, en) in
      let before : take p slots ≡ front ++ one =
        rw (append_assoc front one (back ++ (l ∷ left))) at (
          take-append (front ++ one) (back ++ (l ∷ left)) p
            (omega (arith, ep, length-append front one))) in
      let moved = take-append (b ∷ back) (l ∷ left) n (omega (arith, en)) in
      let gone = front ++ (b ∷ (back ++ (l ∷ []))) in
      let count : p + n ≡ length gone = omega (
        arith,
        ep,
        en,
        length-append front (b ∷ (back ++ (l ∷ []))),
        length-append back (l ∷ []),
      ) in
      let behind : drop (p + n) slots ≡ left =
        rw (append_assoc front (b ∷ (back ++ (l ∷ []))) left, append_assoc back (l ∷ []) left) at
          (drop-append gone left (p + n) count) in
      rw (source, target, before, behind)
        (rw (drop-append front (b ∷ (back ++ (l ∷ left))) q eq)
          (rw moved (ap some (append_assoc front one (b ∷ (back ++ left))))))

  -- the slots behind a gap, moved into it
  pub memmove-down :
      (front gap back left : List (Option T)) (p q n : ℕ)
      → p ≡ length front
      → q ≡ length front + length gap
      → n ≡ length back
      → memmove (front ++ (gap ++ (back ++ left))) p q n
        ≡ some (front ++ (back ++ drop (p + n) (front ++ (gap ++ (back ++ left)))))
  unfolding memmove
  memmove-down front gap back left p q n ep eq en =
      let slots = front ++ (gap ++ (back ++ left)) in
      let whole : length slots ≡ length front + (length gap + (length back + length left)) = omega (
        arith,
        length-append front (gap ++ (back ++ left)),
        length-append gap (back ++ left),
        length-append back left,
      ) in
      let source : leb (q + n) (length slots) ≡ true = ground (arith, whole, eq, en) in
      let target : leb (p + n) (length slots) ≡ true = ground (arith, whole, ep, en) in
      let behind : drop q slots ≡ back ++ left = rw (append_assoc front gap (back ++ left)) at (
        drop-append (front ++ gap) (back ++ left) q (omega (arith, eq, length-append front gap))) in
      rw (source, target, take-append front (gap ++ (back ++ left)) p ep)
        (rw (behind, take-append back left n en) refl)

module _ {T : Type 0} (scaled : ℕ → ℕ) (allocates : ℕ → Bool) where
  -- when it is full, the memory is got for a larger capacity
  abbrev pub CanGrow : Vector T → Type 0
  CanGrow v =
      v.size ≡ v.capacity
      → (v.capacity < next_capacity {T = T} scaled allocates v)
        × (allocates (next_capacity {T = T} scaled allocates v) ≡ true)

  -- a vector with these contents and a slot behind them
  record Room (result : Option (Vector T)) (xs : List T) : Type 0 where
    vector : Vector T
    returns : result ≡ some vector
    contents : IsVector vector xs
    room : length xs < vector.capacity

  make_room-Room :
      (v : Vector T) (xs : List T)
      → IsVector v xs
      → CanGrow v
      → Room (make_room scaled allocates v) xs
  make_room-Room v xs before can = elim (Bool-cases (v.size == v.capacity)) [
    | inl e ↦
        let full : v.size ≡ v.capacity = ground (arith, e) in
        let g = grow-Larger scaled allocates v xs before (can full).0 (can full).1 in
        record {
          vector = g.vector;
          returns = rw e g.returns;
          contents = g.contents;
          room = omega (arith, g.larger, (can full).0, full, before.size);
        }
    | inr e ↦
        let other : v.size ≢ v.capacity = λ q. ground (arith, q, e) in
        record {
          vector = v;
          returns = rw e refl;
          contents = before;
          room = omega (arith, other, before.size, before.capacity);
        }
  ]

  pushed : Vector T → T → Option (Vector T)
  pushed w x = do slots ← put w.data_ w.size x; some (record w { data_ = slots; size = w.size + 1 })

  pushed-Holds :
      (w : Vector T) (xs : List T) (x : T) (left : List (Option T))
      → w.data_ ≡ slots_with xs left
      → w.size ≡ length xs
      → w.capacity ≡ length xs + length left
      → length xs < w.capacity
      → Holds (pushed w x) (xs ++ (x ∷ []))
  unfolding pushed
  pushed-Holds w xs x [] slots size capacity room = absurd (omega (arith, capacity, room))
  pushed-Holds w xs x (l ∷ left) slots size capacity room =
      let inside : ltb (length xs) (length (slots_with xs (l ∷ left))) ≡ true =
        ground (arith, length-slots_with xs (l ∷ left)) in
      let placed =
        set-append_at (map some xs) l (some x) left (length xs)
          (sym (length-map xs (λ y. some y))) in
      (
        record w { data_ = slots_with xs (some x ∷ left); size = length xs + 1 },
        rw (slots, size, inside, placed) refl,
        record {
          left = left;
          slots = sym (slots_with-append xs (x ∷ []) left);
          size = omega (arith, length-append xs (x ∷ []));
          capacity = omega (arith, capacity, length-append xs (x ∷ []));
        },
      )

  -- Pushing a value puts it behind the contents, when the vector is not full or its memory can grow.
  pub push_back-IsVector :
      (v : Vector T) (xs : List T) (x : T)
      → IsVector v xs
      → CanGrow v
      → Holds (push_back scaled allocates v x) (xs ++ (x ∷ []))
  unfolding push_back pushed
  push_back-IsVector v xs x before can =
      let r = make_room-Room v xs before can in
      let c = r.contents in
      let p = pushed-Holds r.vector xs x c.left c.slots c.size c.capacity r.room in
      (p.0, rw r.returns p.1, p.2)

  inserted : Vector T → T → ℕ → Option (Vector T)
  inserted w x position = do
    slots ← memmove w.data_ (position + 1) position (w.size - position)
    placed ← put slots position x
    some (record w { data_ = placed; size = w.size + 1 })

  inserted-Holds :
      (w : Vector T) (ys zs : List T) (x z : T) (left : List (Option T))
      → w.data_ ≡ slots_with (ys ++ (z ∷ zs)) left
      → w.size ≡ length (ys ++ (z ∷ zs))
      → w.capacity ≡ length (ys ++ (z ∷ zs)) + length left
      → length (ys ++ (z ∷ zs)) < w.capacity
      → Holds (inserted w x (length ys)) (ys ++ (x ∷ z ∷ zs))
  unfolding inserted
  inserted-Holds w ys zs x z [] slots size capacity room = absurd (omega (arith, capacity, room))
  inserted-Holds w ys zs x z (l ∷ left) slots size capacity room =
      let n = sym (length-map ys (λ y. some y)) in
      let count : length (ys ++ (z ∷ zs)) - length ys
          ≡ suc (length (map {B = Option T} (λ y. some y) zs)) =
        omega (arith, length-append ys (z ∷ zs), length-map zs (λ y. some y)) in
      let up =
        memmove-up (map some ys) (map some zs) left (some z) l (length ys + 1) (length ys)
          (length (ys ++ (z ∷ zs)) - length ys) (omega (arith, n)) n count in
      let after = slots_with ys (some z ∷ some z ∷ slots_with zs left) in
      let inside : ltb (length ys) (length after) ≡ true =
        ground (arith, length-slots_with ys (some z ∷ some z ∷ slots_with zs left)) in
      let placed =
        set-append_at (map some ys) (some z) (some x) (some z ∷ slots_with zs left) (length ys) n in
      (
        record w {
          data_ = slots_with ys (some x ∷ some z ∷ slots_with zs left);
          size = length (ys ++ (z ∷ zs)) + 1;
        },
        rw (slots, size, slots_with-append ys (z ∷ zs) (l ∷ left), up, inside, placed) refl,
        record {
          left = left;
          slots = sym (slots_with-append ys (x ∷ z ∷ zs) left);
          size = omega (arith, length-append ys (x ∷ z ∷ zs), length-append ys (z ∷ zs));
          capacity =
              omega (arith, capacity, length-append ys (x ∷ z ∷ zs), length-append ys (z ∷ zs));
        },
      )

  -- Inserting a value puts it in front of the contents from the position on, when the vector is not
  -- full or its memory can grow.
  pub insert-IsVector :
      (v : Vector T) (ys zs : List T) (x : T)
      → IsVector v (ys ++ zs)
      → CanGrow v
      → Holds (insert scaled allocates v x (length ys)) (ys ++ (x ∷ zs))
  unfolding insert inserted
  insert-IsVector v ys [] x before can =
      let r = make_room-Room v ys (rw (append-nil ys) at before) can in
      let inside : leb (length ys) v.size ≡ true =
        ground (arith, before.size, length-append ys []) in
      let here : (length ys == r.vector.size) ≡ true = ground (arith, r.contents.size) in
      let full : r.vector.size ≢ r.vector.capacity =
        λ q. omega (arith, q, r.room, r.contents.size) in
      let p = push_back-IsVector r.vector ys x r.contents (λ q. absurd (full q)) in
      (p.0, rw (inside, r.returns, here) p.1, p.2)
  insert-IsVector v ys (z ∷ zs) x before can =
      let r = make_room-Room v (ys ++ (z ∷ zs)) before can in
      let c = r.contents in
      let inside : leb (length ys) v.size ≡ true =
        ground (arith, before.size, length-append ys (z ∷ zs)) in
      let here : (length ys == r.vector.size) ≡ false =
        ground (arith, c.size, length-append ys (z ∷ zs)) in
      let p = inserted-Holds r.vector ys zs x z c.left c.slots c.size c.capacity r.room in
      (p.0, rw (inside, r.returns, here) p.1, p.2)
