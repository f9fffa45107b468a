-- ===== src/String/Mapped.antt =====
-- include/stdromano/string.hpp: the text of a string with other bytes.
use stdromano.Prelude.{
  ℕ, suc, ◌^◌, ◌==◌, ◌<◌, ◌≡◌, refl, sym, ap, ◌∙◌, if◌then◌else◌, [], ◌∷◌, ◌++◌, some, ◌>>=◌,
  length, map, arith, length-map, get_elem?-append_at, length-append, Bool-cases, ◌⊎◌, inl, inr,
}
use stdromano.Json.Value.{Bytes}
use stdromano.String.Storage.{Cells, new_string, String}
use stdromano.String.Contents.{
  cells_of, length-cells_of, IsString, HoldsText, store-over, cells_of-append, if_not, if_so,
}
use stdromano.String.Copies.{RefersWithin, copy-IsString, new_string-IsString}
use stdromano.String.Cases.{
  upper_byte, lower_byte, replaced, byte_loop, with_bytes, upper, lower, replace,
}

byte_loop-map :
    (f : ℕ → ℕ) (done xs : Bytes) (rest : Cells) (i : ℕ)
    → i ≡ length done
    → byte_loop f (length xs) i (cells_of done ++ (cells_of xs ++ rest))
      ≡ some (cells_of done ++ (cells_of (map f xs) ++ rest))
unfolding byte_loop
byte_loop-map f done [] rest i e = refl
byte_loop-map f done (x ∷ xs) rest i e =
    let read =
      get_elem?-append_at (cells_of done) (some x) (cells_of xs ++ rest) i
        (omega (arith, e, length-cells_of done)) in
    let written = store-over done (some x) (cells_of xs ++ rest) (f x) i e in
    let more : Bytes = done ++ (f x ∷ []) in
    let next =
      byte_loop-map f more xs rest (suc i) (omega (arith, e, length-append done (f x ∷ []))) in
    rw (read, written)
      (ap (byte_loop f (length xs) (suc i))
          (sym (cells_of-append done (f x ∷ []) (cells_of xs ++ rest)))
        ∙ next
        ∙ ap some (cells_of-append done (f x ∷ []) (cells_of (map f xs) ++ rest)))

module _ (local_capacity : ℕ) (s : String) (xs : Bytes) where
  -- The bytes of a copy are each the image of the one in the text.
  with_bytes-map :
      (f : ℕ → ℕ)
      → IsString s xs ⊎ RefersWithin s xs
      → length xs < 2 ^ 31
      → local_capacity < 2 ^ 31
      → HoldsText (with_bytes local_capacity f s) (map f xs)
  with_bytes-map f text small fits =
      let (t, run, copied) = copy-IsString local_capacity s xs text small fits in
      let cells = cells_of (map f xs) ++ (some 0 ∷ copied.left) in
      let looped : byte_loop f t.size 0 t.cells ≡ some cells =
        ap (λ n. byte_loop f n 0 t.cells) copied.size
        ∙ ap (byte_loop f (length xs) 0) copied.cells
        ∙ byte_loop-map f [] xs (some 0 ∷ copied.left) 0 refl in
      (
        record t { cells = cells },
        ap
              (λ o. do
                result ← o
                changed ← byte_loop f result.size 0 result.cells
                some (record result { cells = changed }))
              run
            ∙ ap (λ o. do changed ← o; some (record t { cells = changed })) looped,
        record {
          left = copied.left;
          cells = refl;
          size = copied.size ∙ sym (length-map xs f);
          capacity = omega (arith, copied.capacity, length-map xs f);
          small = copied.small;
          owned = copied.owned;
        },
      )

  -- Upper case and lower case, which leave an empty text without a copy.
  changed-map :
      (f : ℕ → ℕ)
      → IsString s xs ⊎ RefersWithin s xs
      → s.size ≡ length xs
      → length xs < 2 ^ 31
      → local_capacity < 2 ^ 31
      → HoldsText
          (if s.size == 0 then some (new_string local_capacity) else with_bytes local_capacity f s)
          (map f xs)
  changed-map f text size small fits = elim (Bool-cases (s.size == 0)) [
    | inl e ↦
        let nothing : [] ≡ map f xs = empty_map xs (ground (arith, e, size)) in
        (
          new_string local_capacity,
          if_so (s.size == 0) _ _ e,
          rw nothing at (new_string-IsString local_capacity fits),
        )
    | inr e ↦
        let (t, run, result) = with_bytes-map f text small fits in
        (t, if_not (s.size == 0) _ _ e ∙ run, result)
  ]
    where
      empty_map : (ys : Bytes) → length ys ≡ 0 → [] ≡ map f ys
      empty_map [] h = refl
      empty_map (y ∷ ys) h = absurd (omega (arith, h))

  -- upper, lower and replace give the text with each byte changed on its own, in memory of its own.
  pub mapped_lem :
      (occurence replacement : ℕ)
      → IsString s xs ⊎ RefersWithin s xs
      → length xs < 2 ^ 31
      → local_capacity < 2 ^ 31
      → HoldsText (upper local_capacity s) (map upper_byte xs)
        × HoldsText (lower local_capacity s) (map lower_byte xs)
        × HoldsText
            (replace local_capacity s occurence replacement)
            (map (replaced occurence replacement) xs)
  unfolding upper lower replace
  mapped_lem occurence replacement text small fits = (
    changed-map upper_byte text (size_of text) small fits,
    changed-map lower_byte text (size_of text) small fits,
    with_bytes-map (replaced occurence replacement) text small fits,
  )
    where
      size_of : IsString s xs ⊎ RefersWithin s xs → s.size ≡ length xs
      size_of (inl owned) = owned.size
      size_of (inr source) = source.size
