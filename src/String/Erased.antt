-- ===== src/String/Erased.antt =====
-- include/stdromano/string.hpp: what is removed from a string.
use Prim.Native.Nat.{min}
use stdromano.Prelude.{
  ℕ, ◌+◌, ◌-◌, ◌%◌, ◌^◌, ◌==◌, ◌<◌, ◌≡◌, refl, sym, ap, ◌∙◌, Bool, true, false, ltb, leb,
  if◌then◌else◌, [], ◌∷◌, ◌++◌, Option, none, some, ◌>>=◌, length, drop, arith, append_assoc,
  length-append, drop-append, Bool-cases, inl, inr, ◌⊎◌, ◌||◌,
}
use stdromano.Json.Value.{Bytes}
use stdromano.String.Storage.{Cells, String, npos, bits31, actual_length, mem_cpy, mem_move, erase}
use stdromano.String.Contents.{
  cells_of, length-cells_of, IsString, HoldsText, if_not, mem_cpy-over, cut_list, cells_of-append,
}

-- what `erase` moves
erased : String → ℕ → ℕ → Option String
erased s start n =
    let tail_start = (start + n) % 2 ^ 64 in
    let tail_size = (s.size + 2 ^ 64 - tail_start + 1) % 2 ^ 64 in
    do
      moved ← mem_move s.cells start tail_start tail_size
      some (record s { cells = moved; size = bits31 (s.size + 2 ^ 32 - n % 2 ^ 32) })

erased-run :
    (s : String) (start n tail_start tail_size : ℕ) (moved : Cells)
    → (start + n) % 2 ^ 64 ≡ tail_start
    → (s.size + 2 ^ 64 - tail_start + 1) % 2 ^ 64 ≡ tail_size
    → mem_move s.cells start tail_start tail_size ≡ some moved
    → erased s start n
      ≡ some (record s { cells = moved; size = bits31 (s.size + 2 ^ 32 - n % 2 ^ 32) })
unfolding erased
erased-run s start n tail_start tail_size moved e f h = rw (e, f, h) refl

erased-Holds :
    (s : String) (ys ms zs : Bytes)
    → IsString s (ys ++ (ms ++ zs))
    → HoldsText (erased s (length ys) (length ms)) (ys ++ zs)
erased-Holds s ys ms zs before =
    let tail = cells_of zs ++ (some 0 ∷ []) in
    let count : length tail ≡ length zs + 1 =
      omega (arith, length-append (cells_of zs) (some 0 ∷ []), length-cells_of zs) in
    let total : s.size ≡ length ys + length ms + length zs =
      omega (arith, before.size, length-append ys (ms ++ zs), length-append ms zs) in
    let held = cells_of ms ++ tail in
    let start : s.cells ≡ cells_of ys ++ (cells_of ms ++ (tail ++ before.left)) =
      before.cells
      ∙ cells_of-append ys (ms ++ zs) (some 0 ∷ before.left)
      ∙ ap (λ l. cells_of ys ++ l)
          (cells_of-append ms zs (some 0 ∷ before.left)
            ∙ ap (λ l. cells_of ms ++ l)
                (sym (append_assoc (cells_of zs) (some 0 ∷ []) before.left))) in
    let over = cut_list (length zs + 1) (cells_of ms ++ (tail ++ before.left)) (
      omega (
        arith,
        length-append (cells_of ms) (tail ++ before.left),
        length-append tail before.left,
        count,
      )) in
    let source : drop (length ys + length ms) s.cells ≡ tail ++ before.left =
      ap (drop (length ys + length ms))
        (start ∙ sym (append_assoc (cells_of ys) (cells_of ms) (tail ++ before.left)))
      ∙ drop-append (cells_of ys ++ cells_of ms) (tail ++ before.left) (length ys + length ms) (
          omega (
            arith,
            length-append (cells_of ys) (cells_of ms),
            length-cells_of ys,
            length-cells_of ms,
          )) in
    let whole : s.cells ≡ cells_of ys ++ (over.front ++ over.back) =
      start ∙ ap (λ l. cells_of ys ++ l) over.whole in
    let move : mem_move s.cells (length ys) (length ys + length ms) (length zs + 1)
        ≡ some (cells_of ys ++ (tail ++ over.back)) =
      ap (λ l. mem_cpy s.cells (length ys) l (length zs + 1)) source
      ∙ ap (λ l. mem_cpy l (length ys) (tail ++ before.left) (length zs + 1)) whole
      ∙ mem_cpy-over (cells_of ys) over.front over.back tail before.left (length ys) (length zs + 1)
          (sym (length-cells_of ys)) (sym count) (omega (arith, over.count, count)) in
    (
      record s {
        cells = cells_of ys ++ (tail ++ over.back);
        size = bits31 (s.size + 2 ^ 32 - length ms % 2 ^ 32);
      },
      erased-run s (length ys) (length ms) (length ys + length ms) (length zs + 1)
          (cells_of ys ++ (tail ++ over.back))
          (omega (arith, total, before.capacity, before.small, before.size))
          (omega (arith, total, before.capacity, before.small, before.size)) move,
      record {
        left = over.back;
        cells =
            ap (λ l. cells_of ys ++ l) (append_assoc (cells_of zs) (some 0 ∷ []) over.back)
            ∙ sym (cells_of-append ys zs (some 0 ∷ over.back));
        size =
            omega (arith, total, before.capacity, before.small, before.size, length-append ys zs);
        capacity = omega (
          arith,
          before.capacity,
          before.size,
          total,
          length-append ys zs,
          ap length over.whole,
          over.count,
          length-append over.front over.back,
          length-append (cells_of ms) (tail ++ before.left),
          length-append tail before.left,
          length-cells_of ms,
          count,
        );
        small = before.small;
        owned = before.owned;
      },
    )

actual_length-number :
    (s : String) (ys ms zs : Bytes) (n : ℕ)
    → IsString s (ys ++ (ms ++ zs))
    → min n (length (ms ++ zs)) ≡ length ms
    → (length ys + n < 2 ^ 64) ⊎ (n ≡ npos)
    → actual_length s (length ys) n ≡ length ms
actual_length-number s ys ms zs n before number (inr e) =
    let all : (n == npos) ≡ true = ground (arith, e) in
    rw all (
      omega (
        arith,
        e,
        number,
        before.size,
        before.capacity,
        before.small,
        length-append ys (ms ++ zs),
        length-append ms zs,
      ))
actual_length-number s ys ms zs n before number (inl fits) =
    let small : (length ys + n) % 2 ^ 64 ≡ length ys + n = omega (arith, fits) in
    elim (Bool-cases (n == npos || ltb s.size (length ys + n))) [
      | inl e ↦
          rw (small, e)
            (ground
              (arith, e, number, before.size, length-append ys (ms ++ zs), length-append ms zs))
      | inr e ↦
          rw (small, e)
            (ground
              (arith, e, number, before.size, length-append ys (ms ++ zs), length-append ms zs))
    ]

if_either :
    {A : Type 0} (a b : Bool) (x y : A) → b ≡ true → (if a then x else if b then x else y) ≡ x
if_either true b x y e = refl
if_either false b x y e = rw e refl

-- erase removes the bytes from the position on, a number of them or all that are left, where the sum of
-- the position and the number does not wrap.
pub erase-IsString :
    (s : String) (ys ms zs : Bytes) (n : ℕ)
    → IsString s (ys ++ (ms ++ zs))
    → min n (length (ms ++ zs)) ≡ length ms
    → (length ys + n < 2 ^ 64) ⊎ (n ≡ npos)
    → HoldsText (erase s (length ys) n) (ys ++ zs)
unfolding erase erased
erase-IsString s ys [] zs n before number fits =
    let k = actual_length-number s ys [] zs n before number fits in
    let nothing : (actual_length s (length ys) n == 0) ≡ true = ground (arith, k) in
    (
      s,
      if_not s.is_ref none _ before.owned
          ∙ if_either (n == 0 || s.size == 0 || leb s.size (length ys))
              (actual_length s (length ys) n == 0) (some s) _ nothing,
      before,
    )
erase-IsString s ys (m ∷ ms) zs n before number fits =
    let k = actual_length-number s ys (m ∷ ms) zs n before number fits in
    let some_left : (actual_length s (length ys) n == 0) ≡ false = ground (arith, k) in
    let inside : (n == 0 || s.size == 0 || leb s.size (length ys)) ≡ false =
      ground (arith, number, before.size, length-append ys (m ∷ (ms ++ zs))) in
    let (t, run, text) = erased-Holds s ys (m ∷ ms) zs before in
    (
      t,
      if_not s.is_ref none _ before.owned
          ∙ if_not (n == 0 || s.size == 0 || leb s.size (length ys)) (some s) _ inside
          ∙ if_not (actual_length s (length ys) n == 0) (some s) _ some_left
          ∙ ap (λ i. erased s (length ys) i) k
          ∙ run,
      text,
    )
