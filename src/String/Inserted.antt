-- ===== src/String/Inserted.antt =====
-- include/stdromano/string.hpp: what is put in front of bytes of a string.
use Prim.Native.Nat.{max}
use stdromano.Prelude.{
  ℕ, ◌+◌, ◌-◌, ◌^◌, ◌==◌, ◌≤◌, ◌<◌, ◌≡◌, refl, sym, ap, ◌∙◌, true, false, ltb, [], ◌∷◌, ◌++◌,
  Option, none, some, ◌>>=◌, length, drop, arith, append_assoc, length-append, drop-append,
}
use stdromano.Json.Value.{Bytes}
use stdromano.String.Storage.{
  Cells, String, bits31, mem_cpy, mem_move, insert_bytes, prepends, inserts,
}
use stdromano.String.Contents.{
  cells_of, length-cells_of, IsString, HoldsText, if_not, if_so, mem_cpy-over, cut_list,
  make_room-Room, IsText, cells_of-append,
}

module _ (scaled : ℕ → ℕ) where
  -- what `insert_bytes` does in the room it has
  inserted : String → ℕ → ℕ → Cells → ℕ → Option String
  inserted room size position c n = do
    moved ← mem_move room.cells (position + n) position (room.size - position + 1)
    put ← mem_cpy moved position c n
    some (record room { cells = put; size = bits31 (size + n) })

  inserted-run :
      (w : String) (size position n : ℕ) (c moved put : Cells)
      → mem_move w.cells (position + n) position (w.size - position + 1) ≡ some moved
      → mem_cpy moved position c n ≡ some put
      → inserted w size position c n ≡ some (record w { cells = put; size = bits31 (size + n) })
  unfolding inserted
  inserted-run w size position n c moved put e f = rw (e, f) refl

  inserted-Holds :
      (w : String) (ys zs new : Bytes) (rest : Cells) (size n : ℕ)
      → (before : IsString w (ys ++ zs)) → size ≡ length (ys ++ zs)
      → n ≡ length new
      → size + n ≤ w.capacity
      → HoldsText (inserted w size (length ys) (cells_of new ++ rest) n) (ys ++ (new ++ zs))
  inserted-Holds w ys zs new rest size n before es en room =
      let tail = cells_of zs ++ (some 0 ∷ []) in
      let behind = tail ++ before.left in
      let count : length tail ≡ length zs + 1 =
        omega (arith, length-append (cells_of zs) (some 0 ∷ []), length-cells_of zs) in
      let gap =
        cut_list n behind
          (omega (arith, room, before.capacity, es, length-append tail before.left)) in
      let over = cut_list (length zs + 1) gap.back (
        omega (
          arith,
          room,
          before.capacity,
          es,
          length-append tail before.left,
          length-append ys zs,
          count,
          gap.count,
          ap length gap.whole,
          length-append gap.front gap.back,
        )) in
      let front = cells_of ys ++ gap.front in
      let start : w.cells ≡ cells_of ys ++ behind =
        before.cells
        ∙ cells_of-append ys zs (some 0 ∷ before.left)
        ∙ ap (λ l. cells_of ys ++ l) (sym (append_assoc (cells_of zs) (some 0 ∷ []) before.left)) in
      let whole : w.cells ≡ front ++ (over.front ++ over.back) =
        start
        ∙ ap (λ l. cells_of ys ++ l) (gap.whole ∙ ap (λ l. gap.front ++ l) over.whole)
        ∙ sym (append_assoc (cells_of ys) gap.front (over.front ++ over.back)) in
      let source : drop (length ys) w.cells ≡ behind =
        ap (drop (length ys)) start
        ∙ drop-append (cells_of ys) behind (length ys) (sym (length-cells_of ys)) in
      let moved = cells_of ys ++ (gap.front ++ (tail ++ over.back)) in
      let length_ = w.size - length ys + 1 in
      let move : mem_move w.cells (length ys + n) (length ys) length_ ≡ some moved =
        ap (λ l. mem_cpy w.cells (length ys + n) l length_) source
        ∙ ap (λ l. mem_cpy l (length ys + n) behind length_) whole
        ∙ mem_cpy-over front over.front over.back tail before.left (length ys + n) length_
            (omega (arith, length-append (cells_of ys) gap.front, length-cells_of ys, gap.count))
            (omega (arith, before.size, length-append ys zs, count))
            (omega (arith, over.count, count))
        ∙ ap some (append_assoc (cells_of ys) gap.front (tail ++ over.back)) in
      let put = cells_of ys ++ (cells_of new ++ (tail ++ over.back)) in
      let copied : mem_cpy moved (length ys) (cells_of new ++ rest) n ≡ some put =
        mem_cpy-over (cells_of ys) gap.front (tail ++ over.back) (cells_of new) rest (length ys) n
          (sym (length-cells_of ys)) (omega (arith, en, length-cells_of new))
          (omega (arith, gap.count, en, length-cells_of new)) in
      (
        record w { cells = put; size = bits31 (size + n) },
        inserted-run w size (length ys) n (cells_of new ++ rest) moved put move copied,
        record {
          left = over.back;
          cells =
              ap (λ l. cells_of ys ++ (cells_of new ++ l))
                (append_assoc (cells_of zs) (some 0 ∷ []) over.back)
              ∙ ap (λ l. cells_of ys ++ l) (sym (cells_of-append new zs (some 0 ∷ over.back)))
              ∙ sym (cells_of-append ys (new ++ zs) (some 0 ∷ over.back));
          size = omega (
            arith,
            es,
            en,
            length-append ys zs,
            length-append ys (new ++ zs),
            length-append new zs,
            room,
            before.small,
          );
          capacity = omega (
            arith,
            before.capacity,
            length-append ys zs,
            length-append ys (new ++ zs),
            length-append new zs,
            length-append tail before.left,
            count,
            gap.count,
            ap length gap.whole,
            length-append gap.front gap.back,
            over.count,
            ap length over.whole,
            length-append over.front over.back,
            en,
          );
          small = before.small;
          owned = before.owned;
        },
      )

  insert_bytes-IsString :
      (s : String) (ys zs new : Bytes) (c rest : Cells) (n : ℕ)
      → IsString s (ys ++ zs)
      → c ≡ cells_of new ++ rest
      → n ≡ length new
      → 0 < n
      → max (s.size + n) (scaled s.capacity) < 2 ^ 31
      → HoldsText (insert_bytes scaled s (length ys) c n) (ys ++ (new ++ zs))
  unfolding inserted
  insert_bytes-IsString s ys zs new c rest n before ec en positive fits =
      let r =
        make_room-Room scaled s (ys ++ zs) (s.size + n) before
          (omega (arith, before.size, positive)) fits in
      let (t, run, text) =
        inserted-Holds r.string ys zs new rest s.size n r.contents before.size en r.room in
      (t, rw (r.returns, ec) run, text)

  -- inserts puts the text of another string in front of the contents from the position on, where the
  -- capacity for both fits its field.
  pub inserts-IsString :
      (s other : String) (ys zs new : Bytes)
      → IsString s (ys ++ zs)
      → IsText other new
      → max (s.size + other.size) (scaled s.capacity) < 2 ^ 31
      → HoldsText (inserts scaled s (length ys) other) (ys ++ (new ++ zs))
  unfolding inserts
  inserts-IsString s other ys zs [] before text fits =
      let nothing : (other.size == 0) ≡ true = ground (arith, text.size) in
      (s, if_not s.is_ref none _ before.owned ∙ if_so (other.size == 0) (some s) _ nothing, before)
  inserts-IsString s other ys zs (x ∷ new) before text fits =
      let more : (other.size == 0) ≡ false = ground (arith, text.size) in
      let inside : ltb s.size (length ys) ≡ false =
        ground (arith, before.size, length-append ys zs) in
      let (t, run, result) =
        insert_bytes-IsString s ys zs (x ∷ new) other.cells text.rest other.size before text.cells
          text.size (omega (arith, text.size)) fits in
      (
        t,
        if_not s.is_ref none _ before.owned
            ∙ if_not (other.size == 0) (some s) _ more
            ∙ ap (λ p. insert_bytes scaled s p other.cells other.size)
                (if_not (ltb s.size (length ys)) s.size (length ys) inside)
            ∙ run,
        result,
      )

  pub prepends-IsString :
      (s other : String) (xs new : Bytes)
      → IsString s xs
      → IsText other new
      → max (s.size + other.size) (scaled s.capacity) < 2 ^ 31
      → HoldsText (prepends scaled s other) (new ++ xs)
  unfolding prepends
  prepends-IsString s other xs [] before text fits =
      let nothing : (other.size == 0) ≡ true = ground (arith, text.size) in
      (s, if_not s.is_ref none _ before.owned ∙ if_so (other.size == 0) (some s) _ nothing, before)
  prepends-IsString s other xs (x ∷ new) before text fits =
      let more : (other.size == 0) ≡ false = ground (arith, text.size) in
      let (t, run, result) =
        insert_bytes-IsString s [] xs (x ∷ new) other.cells text.rest other.size before text.cells
          text.size (omega (arith, text.size)) fits in
      (
        t,
        if_not s.is_ref none _ before.owned ∙ if_not (other.size == 0) (some s) _ more ∙ run,
        result,
      )
