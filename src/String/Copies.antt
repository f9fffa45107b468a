-- ===== src/String/Copies.antt =====
-- include/stdromano/string.hpp: new strings and copies.
use stdromano.Prelude.{
  ℕ, ◌+◌, ◌^◌, ◌==◌, ◌≤◌, ◌<◌, ◌≡◌, refl, sym, ap, ◌∙◌, true, false, ltb, leb, if◌then◌else◌, [],
  ◌∷◌, ◌++◌, Option, none, some, ◌>>=◌, length, arith, append_assoc, replicate, length-replicate,
  length-append, Bool-cases, ◌⊎◌, inl, inr,
}
use stdromano.Json.Value.{Bytes}
use stdromano.String.Storage.{
  Cells, String, npos, bits31, mem_cpy, store, reallocate, str_len, new_string, make_from_c_str,
  copy_of, copy,
}
use stdromano.String.Contents.{
  cells_of, length-cells_of, IsString, HoldsText, Room, reallocate-Room, mem_cpy-over, cut_list,
  store-over, if_not, if_so,
}

-- a text copied with the cell behind it to the start of a block
record Filled (block : Cells) (xs : Bytes) (cell : Option ℕ) (rest : Cells) : Type 0 where
  back : Cells
  copied :
      mem_cpy block 0 (cells_of xs ++ (cell ∷ rest)) (length xs + 1)
      ≡ some (cells_of xs ++ (cell ∷ back))
  count : length block ≡ length xs + 1 + length back

fill-Filled :
    (block : Cells) (xs : Bytes) (cell : Option ℕ) (rest : Cells)
    → length xs < length block
    → Filled block xs cell rest
fill-Filled block xs cell rest room =
    let parts = cut_list (length xs + 1) block (omega (arith, room)) in
    let text = cells_of xs ++ (cell ∷ []) in
    let counted : length xs + 1 ≡ length text =
      omega (arith, length-append (cells_of xs) (cell ∷ []), length-cells_of xs) in
    record {
      back = parts.back;
      copied =
          ap (λ l. mem_cpy block 0 l (length xs + 1))
            (sym (append_assoc (cells_of xs) (cell ∷ []) rest))
          ∙ ap (λ l. mem_cpy l 0 (text ++ rest) (length xs + 1)) parts.whole
          ∙ mem_cpy-over [] parts.front parts.back text rest 0 (length xs + 1) refl counted
              (omega (arith, parts.count, counted))
          ∙ ap some (append_assoc (cells_of xs) (cell ∷ []) parts.back);
      count =
          omega (arith, ap length parts.whole, length-append parts.front parts.back, parts.count);
    }

-- a string that refers to a text in memory that goes on behind it
pub record RefersWithin (s : String) (xs : Bytes) : Type 0 where
  pub cell : Option ℕ
  pub rest : Cells
  pub cells : s.cells ≡ cells_of xs ++ (cell ∷ rest)
  pub size : s.size ≡ length xs
  pub refers : s.is_ref ≡ true

module _ (local_capacity : ℕ) where
  pub new_string-IsString : local_capacity < 2 ^ 31 → IsString (new_string local_capacity) []
  new_string-IsString small = record {
    left = replicate local_capacity none;
    cells = refl;
    size = refl;
    capacity = omega (arith, length-replicate {A = Option ℕ} local_capacity none);
    small = small;
    owned = refl;
  }

  -- an empty string with room
  new_string-Room :
      (n : ℕ)
      → 0 < n
      → n < 2 ^ 31
      → local_capacity < 2 ^ 31
      → Room
          (if ltb local_capacity n
            then reallocate (new_string local_capacity) n
            else some (new_string local_capacity))
          []
          n
  new_string-Room n positive small fits = elim (Bool-cases (ltb local_capacity n)) [
    | inl e ↦
        let r =
          reallocate-Room (new_string local_capacity) [] n (new_string-IsString fits) positive
            small in
        record {
          string = r.string;
          returns = if_so (ltb local_capacity n) _ _ e ∙ r.returns;
          contents = r.contents;
          room = r.room;
        }
    | inr e ↦ record {
      string = new_string local_capacity;
      returns = if_not (ltb local_capacity n) _ _ e;
      contents = new_string-IsString fits;
      room = ground (arith, e);
    }
  ]

  -- what `make_from_c_str` does in the room it has
  filled_with : String → Cells → ℕ → Option String
  filled_with room str size = do
    put ← mem_cpy room.cells 0 str (size + 1)
    ended ← store put (bits31 size) 0
    some (record room { cells = ended; size = bits31 size })

  filled_with-run :
      (w : String) (str put ended : Cells) (size : ℕ)
      → mem_cpy w.cells 0 str (size + 1) ≡ some put
      → store put (bits31 size) 0 ≡ some ended
      → filled_with w str size ≡ some (record w { cells = ended; size = bits31 size })
  unfolding filled_with
  filled_with-run w str put ended size e f = rw (e, f) refl

  filled_with-Holds :
      (w : String) (xs : Bytes) (cell : Option ℕ) (rest : Cells)
      → IsString w []
      → length xs ≤ w.capacity
      → HoldsText (filled_with w (cells_of xs ++ (cell ∷ rest)) (length xs)) xs
  filled_with-Holds w xs cell rest before room =
      let f =
        fill-Filled w.cells xs cell rest
          (omega (arith, ap length before.cells, before.capacity, room)) in
      let fits : bits31 (length xs) ≡ length xs = omega (arith, room, before.small) in
      (
        record w { cells = cells_of xs ++ (some 0 ∷ f.back); size = bits31 (length xs) },
        filled_with-run w (cells_of xs ++ (cell ∷ rest)) (cells_of xs ++ (cell ∷ f.back))
            (cells_of xs ++ (some 0 ∷ f.back)) (length xs) f.copied
            (store-over xs cell f.back 0 (bits31 (length xs)) fits),
        record {
          left = f.back;
          cells = refl;
          size = fits;
          capacity = omega (arith, before.capacity, ap length before.cells, f.count);
          small = before.small;
          owned = before.owned;
        },
      )

  make_from_c_str-IsString :
      (xs : Bytes) (cell : Option ℕ) (rest : Cells)
      → length xs < 2 ^ 31
      → local_capacity < 2 ^ 31
      → HoldsText
          (make_from_c_str local_capacity (some (cells_of xs ++ (cell ∷ rest))) (length xs))
          xs
  unfolding make_from_c_str filled_with
  make_from_c_str-IsString [] cell rest small fits =
      (new_string local_capacity, refl, new_string-IsString fits)
  make_from_c_str-IsString (x ∷ xs) cell rest small fits =
      let str = cells_of (x ∷ xs) ++ (cell ∷ rest) in
      let n = length (x ∷ xs) in
      let given : (n == npos) ≡ false = ground (arith, small) in
      let some_left : (n == 0) ≡ false = ground arith in
      let r = new_string-Room n (omega arith) small fits in
      let (t, run, text) = filled_with-Holds r.string (x ∷ xs) cell rest r.contents r.room in
      (
        t,
        ap
              (λ o. do
                size ← o
                if size == 0 then some (new_string local_capacity) else (do
                  room ←
                      if ltb local_capacity size
                      then reallocate (new_string local_capacity) size
                      else some (new_string local_capacity)
                  filled_with room str size))
              (if_not (n == npos) (str_len str) (some n) given)
            ∙ if_not (n == 0) _ _ some_left
            ∙ ap (λ o. do room ← o; filled_with room str n) r.returns
            ∙ run,
        text,
      )

  copy_of-IsString :
      (other : String) (xs : Bytes)
      → IsString other xs
      → local_capacity < 2 ^ 31
      → HoldsText (copy_of local_capacity other) xs
  unfolding copy_of
  copy_of-IsString other xs before fits = elim (Bool-cases (leb other.size local_capacity)) [
    | inl e ↦
        let total = length-replicate {A = Option ℕ} local_capacity none in
        let f =
          fill-Filled (new_string local_capacity).cells xs (some 0) before.left
            (ground (arith, total, e, before.size)) in
        let put = cells_of xs ++ (some 0 ∷ f.back) in
        let source : mem_cpy (new_string local_capacity).cells 0 other.cells (other.size + 1)
            ≡ some put =
          ap (λ n. mem_cpy (new_string local_capacity).cells 0 other.cells (n + 1)) before.size
          ∙ ap (λ l. mem_cpy (new_string local_capacity).cells 0 l (length xs + 1)) before.cells
          ∙ f.copied in
        (
          record {
            cells = put;
            size = other.size;
            capacity = local_capacity;
            is_local = true;
            is_ref = false;
          },
          if_not other.is_ref _ _ before.owned
              ∙ if_so (leb other.size local_capacity) _ _ e
              ∙ ap
                  (λ o. do
                    put ← o
                    some (record {
                      cells = put;
                      size = other.size;
                      capacity = local_capacity;
                      is_local = true;
                      is_ref = false;
                    }))
                  source,
          record {
            left = f.back;
            cells = refl;
            size = before.size;
            capacity = omega (arith, f.count, total);
            small = fits;
            owned = refl;
          },
        )
    | inr e ↦
        let total = length-replicate {A = Option ℕ} (other.capacity + 1) none in
        let block = replicate {A = Option ℕ} (other.capacity + 1) none in
        let f = fill-Filled block xs (some 0) before.left (omega (arith, total, before.capacity)) in
        let put = cells_of xs ++ (some 0 ∷ f.back) in
        let source : mem_cpy block 0 other.cells (other.size + 1) ≡ some put =
          ap (λ n. mem_cpy block 0 other.cells (n + 1)) before.size
          ∙ ap (λ l. mem_cpy block 0 l (length xs + 1)) before.cells
          ∙ f.copied in
        (
          record {
            cells = put;
            size = other.size;
            capacity = other.capacity;
            is_local = false;
            is_ref = false;
          },
          if_not other.is_ref _ _ before.owned
              ∙ if_not (leb other.size local_capacity) _ _ e
              ∙ ap
                  (λ o. do
                    put ← o
                    some (record {
                      cells = put;
                      size = other.size;
                      capacity = other.capacity;
                      is_local = false;
                      is_ref = false;
                    }))
                  source,
          record {
            left = f.back;
            cells = refl;
            size = before.size;
            capacity = omega (arith, f.count, total);
            small = before.small;
            owned = refl;
          },
        )
  ]

  -- A copy of a string has the text in memory of its own, whether the string has it itself or refers to
  -- other memory, which goes on behind the text.
  pub copy-IsString :
      (s : String) (xs : Bytes)
      → IsString s xs ⊎ RefersWithin s xs
      → length xs < 2 ^ 31
      → local_capacity < 2 ^ 31
      → HoldsText (copy local_capacity s) xs
  unfolding copy
  copy-IsString s xs (inl text) small fits =
      let (t, run, result) = copy_of-IsString s xs text fits in
      (t, if_not s.is_ref _ _ text.owned ∙ run, result)
  copy-IsString s xs (inr source) small fits =
      let str = cells_of xs ++ (source.cell ∷ source.rest) in
      let (t, run, text) = make_from_c_str-IsString xs source.cell source.rest small fits in
      (
        t,
        if_so s.is_ref _ _ source.refers
            ∙ ap (λ l. make_from_c_str local_capacity (some l) s.size) source.cells
            ∙ ap (λ n. make_from_c_str local_capacity (some str) n) source.size
            ∙ run,
        text,
      )
