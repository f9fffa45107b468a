-- ===== src/String/Appended.antt =====
-- include/stdromano/string.hpp: what is put behind the contents of a string.
use Prim.Native.Nat.{max}
use stdromano.Prelude.{
  ℕ, ◌+◌, ◌^◌, ◌==◌, ◌≤◌, ◌<◌, ◌≡◌, refl, sym, ap, ◌∙◌, true, false, leb, if◌then◌else◌, [], ◌∷◌,
  ◌++◌, Option, none, some, ◌>>=◌, length, arith, append-nil, length-append, Bool-cases, inl, inr,
}
use stdromano.Json.Value.{Bytes}
use stdromano.String.Storage.{
  Cells, String, bits31, mem_cpy, store, append_bytes, push_back, appends,
}
use stdromano.String.Contents.{
  cells_of, length-cells_of, IsString, HoldsText, if_not, if_so, mem_cpy-over, store-over, uncons,
  make_room-Room, reallocate-Room, IsText, cells_of-append, cut_cell,
}

module _ (scaled : ℕ → ℕ) where
  -- what `append_bytes` does in the room it has
  appended : String → ℕ → Cells → ℕ → Option String
  appended room size c n = do
    put ← mem_cpy room.cells room.size c n
    ended ← store put (bits31 (size + n)) 0
    some (record room { cells = ended; size = bits31 (size + n) })

  appended-run :
      (w : String) (size n : ℕ) (c put ended : Cells)
      → mem_cpy w.cells w.size c n ≡ some put
      → store put (bits31 (size + n)) 0 ≡ some ended
      → appended w size c n ≡ some (record w { cells = ended; size = bits31 (size + n) })
  unfolding appended
  appended-run w size n c put ended e f = rw (e, f) refl

  appended-Holds :
      (w : String) (xs ys : Bytes) (rest : Cells) (size n : ℕ)
      → (before : IsString w xs) → size ≡ length xs
      → n ≡ length ys
      → size + n ≤ w.capacity
      → HoldsText (appended w size (cells_of ys ++ rest) n) (xs ++ ys)
  appended-Holds w xs ys rest size n before es en room =
      let behind = some 0 ∷ before.left in
      let g = cut_cell (length ys) behind (omega (arith, room, before.capacity, es, en)) in
      let fits : bits31 (size + n) ≡ length (xs ++ ys) =
        omega (arith, length-append xs ys, es, en, room, before.small) in
      let split : w.cells ≡ cells_of xs ++ (g.front ++ (g.cell ∷ g.back)) =
        before.cells ∙ ap (λ l. cells_of xs ++ l) g.whole in
      let text = cells_of ys ++ rest in
      let copied : mem_cpy w.cells w.size text n ≡ some (cells_of (xs ++ ys) ++ (g.cell ∷ g.back)) =
        ap (λ l. mem_cpy l w.size text n) split
        ∙ mem_cpy-over (cells_of xs) g.front (g.cell ∷ g.back) (cells_of ys) rest w.size n
            (omega (arith, before.size, length-cells_of xs)) (omega (arith, en, length-cells_of ys))
            (omega (arith, g.count, length-cells_of ys))
        ∙ ap some (sym (cells_of-append xs ys (g.cell ∷ g.back))) in
      let stored = store-over (xs ++ ys) g.cell g.back 0 (bits31 (size + n)) fits in
      (
        record w { cells = cells_of (xs ++ ys) ++ (some 0 ∷ g.back); size = bits31 (size + n) },
        appended-run w size n text (cells_of (xs ++ ys) ++ (g.cell ∷ g.back))
            (cells_of (xs ++ ys) ++ (some 0 ∷ g.back)) copied stored,
        record {
          left = g.back;
          cells = refl;
          size = fits;
          capacity = omega (
            arith,
            before.capacity,
            length-append xs ys,
            ap length g.whole,
            length-append g.front (g.cell ∷ g.back),
            g.count,
          );
          small = before.small;
          owned = before.owned;
        },
      )

  append_bytes-IsString :
      (s : String) (xs ys : Bytes) (c rest : Cells) (n : ℕ)
      → IsString s xs
      → c ≡ cells_of ys ++ rest
      → n ≡ length ys
      → 0 < n
      → max (s.size + n) (scaled s.capacity) < 2 ^ 31
      → HoldsText (append_bytes scaled s c n) (xs ++ ys)
  unfolding appended
  append_bytes-IsString s xs ys c rest n before ec en positive fits =
      let r =
        make_room-Room scaled s xs (s.size + n) before (omega (arith, before.size, positive))
          fits in
      let (t, run, text) =
        appended-Holds r.string xs ys rest s.size n r.contents before.size en r.room in
      (t, rw (r.returns, ec) run, text)

  -- appends puts the text of another string, which may refer to other memory, behind the contents, where
  -- the capacity for both fits its field.
  pub appends-IsString :
      (s other : String) (xs ys : Bytes)
      → IsString s xs
      → IsText other ys
      → max (s.size + other.size) (scaled s.capacity) < 2 ^ 31
      → HoldsText (appends scaled s other) (xs ++ ys)
  unfolding appends
  appends-IsString s other xs [] before text fits =
      let nothing : (other.size == 0) ≡ true = ground (arith, text.size) in
      (
        s,
        if_not s.is_ref none _ before.owned
            ∙ if_so (other.size == 0) (some s) (append_bytes scaled s other.cells other.size)
                nothing,
        rw (append-nil xs) before,
      )
  appends-IsString s other xs (y ∷ ys) before text fits =
      let more : (other.size == 0) ≡ false = ground (arith, text.size) in
      let (t, run, result) =
        append_bytes-IsString s xs (y ∷ ys) other.cells text.rest other.size before text.cells
          text.size (omega (arith, text.size)) fits in
      (
        t,
        if_not s.is_ref none _ before.owned
            ∙ if_not (other.size == 0) (some s) (append_bytes scaled s other.cells other.size) more
            ∙ run,
        result,
      )

  -- what `push_back` does in the room it has
  pushed : String → ℕ → Option String
  pushed room c = do
    put ← store room.cells room.size c
    ended ← store put (bits31 (room.size + 1)) 0
    some (record room { cells = ended; size = bits31 (room.size + 1) })

  pushed-run :
      (w : String) (c : ℕ) (put ended : Cells)
      → store w.cells w.size c ≡ some put
      → store put (bits31 (w.size + 1)) 0 ≡ some ended
      → pushed w c ≡ some (record w { cells = ended; size = bits31 (w.size + 1) })
  unfolding pushed
  pushed-run w c put ended e f = rw (e, f) refl

  pushed-Holds :
      (w : String) (xs : Bytes) (c : ℕ)
      → IsString w xs
      → length xs + 1 ≤ w.capacity
      → HoldsText (pushed w c) (xs ++ (c ∷ []))
  pushed-Holds w xs c before room =
      let (cell, left, e) = uncons before.left (omega (arith, room, before.capacity)) in
      let all = xs ++ (c ∷ []) in
      let put : store w.cells w.size c ≡ some (cells_of all ++ (cell ∷ left)) =
        ap (λ l. store l w.size c) before.cells
        ∙ store-over xs (some 0) before.left c w.size before.size
        ∙ ap some (
            ap (λ l. cells_of xs ++ (some c ∷ l)) e
            ∙ sym (cells_of-append xs (c ∷ []) (cell ∷ left))) in
      let fits : bits31 (w.size + 1) ≡ length all =
        omega (arith, before.size, room, before.small, length-append xs (c ∷ [])) in
      (
        record w { cells = cells_of all ++ (some 0 ∷ left); size = bits31 (w.size + 1) },
        pushed-run w c (cells_of all ++ (cell ∷ left)) (cells_of all ++ (some 0 ∷ left)) put
            (store-over all cell left 0 (bits31 (w.size + 1)) fits),
        record {
          left = left;
          cells = refl;
          size = fits;
          capacity = omega (arith, before.capacity, ap length e, length-append xs (c ∷ []));
          small = before.small;
          owned = before.owned;
        },
      )

  -- push_back puts a byte behind the contents, where the capacity for it fits its field.
  pub push_back-IsString :
      (s : String) (xs : Bytes) (c : ℕ)
      → IsString s xs
      → max (s.size + 1) (scaled s.capacity) < 2 ^ 31
      → HoldsText (push_back scaled s c) (xs ++ (c ∷ []))
  unfolding push_back pushed
  push_back-IsString s xs c before fits = elim (Bool-cases (leb s.capacity s.size)) [
    | inl e ↦
        let next = scaled s.capacity in
        let larger : length xs < (if leb next s.size then s.size + 1 else next) =
          ground (arith, before.size) in
        let small : (if leb next s.size then s.size + 1 else next) < 2 ^ 31 =
          ground (arith, fits) in
        let r =
          reallocate-Room s xs (if leb next s.size then s.size + 1 else next) before larger small in
        let (t, run, text) =
          pushed-Holds r.string xs c r.contents (omega (arith, r.room, larger)) in
        (t, if_not s.is_ref none _ before.owned ∙ rw (e, r.returns) run, text)
    | inr e ↦
        let (t, run, text) = pushed-Holds s xs c before (ground (arith, e, before.size)) in
        (t, if_not s.is_ref none _ before.owned ∙ rw e run, text)
  ]
