-- ===== src/String/Strip.antt =====
-- include/stdromano/string.hpp: what `strip` leaves of a text.
use stdromano.Prelude.{
  ℕ, zero, suc, ◌^◌, ◌==◌, ◌≤◌, ◌<◌, ◌≡◌, refl, sym, ap, ◌∙◌, true, false, if◌then◌else◌, [], ◌∷◌,
  ◌++◌, Option, some, ◌>>=◌, length, arith, append_assoc, append-nil, get_elem?, length-append,
  get_elem?-append_at, Bool-cases, inl, inr,
}
use stdromano.Json.Value.{Bytes}
use stdromano.String.Storage.{Cells, String, npos, bits31, make_ref}
use stdromano.String.Contents.{cells_of, length-cells_of, IsText, cells_of-append, if_not, if_so}
use stdromano.String.Views.{skip_front, skip_back, strip}

-- every byte is this one
abbrev pub AreAll : ℕ → Bytes → Type 0
AreAll c [] = Unit
AreAll c (x ∷ xs) = ((x == c) ≡ true) × AreAll c xs

AreAll-append : (c : ℕ) (xs ys : Bytes) → AreAll c xs → AreAll c ys → AreAll c (xs ++ ys)
AreAll-append c [] ys h g = g
AreAll-append c (x ∷ xs) ys (e, h) g = (e, AreAll-append c xs ys h g)

-- the first byte, or the last, is another one
abbrev pub StartsNot : ℕ → Bytes → Type 0
StartsNot c [] = Unit
StartsNot c (x ∷ xs) = (x == c) ≡ false

abbrev pub EndsNot : ℕ → Bytes → Type 0
EndsNot c [] = Unit
EndsNot c (x ∷ []) = (x == c) ≡ false
EndsNot c (x ∷ y ∷ ys) = EndsNot c (y ∷ ys)

EndsNot-append : (c x : ℕ) (xs : Bytes) → (x == c) ≡ false → EndsNot c (xs ++ (x ∷ []))
EndsNot-append c x [] e = e
EndsNot-append c x (a ∷ []) e = e
EndsNot-append c x (a ∷ b ∷ xs) e = EndsNot-append c x (b ∷ xs) e

unsnoc :
    (xs : Bytes) (n : ℕ)
    → length xs ≡ suc n
    → (ys : Bytes) × (y : ℕ) × (xs ≡ ys ++ (y ∷ [])) × (length ys ≡ n)
unsnoc [] n h = absurd (omega (arith, h))
unsnoc (x ∷ []) n h = ([], x, refl, omega (arith, h))
unsnoc (x ∷ a ∷ xs) zero h = absurd (omega (arith, h))
unsnoc (x ∷ a ∷ xs) (suc n) h =
    let (ys, y, e, k) = unsnoc (a ∷ xs) n (omega (arith, h)) in
    (x ∷ ys, y, ap (λ l. x ∷ l) e, omega (arith, k))

-- what a loop over the front leaves
record Trimmed (c n : ℕ) (xs : Bytes) (rest : Cells) : Type 0 where
  gone : Bytes
  kept : Bytes
  whole : xs ≡ gone ++ kept
  all : AreAll c gone
  starts : StartsNot c kept
  found : skip_front c n (cells_of xs ++ rest) ≡ some (cells_of kept ++ rest, length kept)

skip_front-Trimmed : (c n : ℕ) (xs : Bytes) (rest : Cells) → n ≡ length xs → Trimmed c n xs rest
unfolding skip_front
skip_front-Trimmed c zero [] rest h = record {
  gone = [];
  kept = [];
  whole = refl;
  all = tt;
  starts = tt;
  found = refl;
}
skip_front-Trimmed c zero (x ∷ xs) rest h = absurd (omega (arith, h))
skip_front-Trimmed c (suc n) [] rest h = absurd (omega (arith, h))
skip_front-Trimmed c (suc n) (x ∷ xs) rest h = elim (Bool-cases (x == c)) [
  | inl e ↦
      let f = skip_front-Trimmed c n xs rest (omega (arith, h)) in
      record {
        gone = x ∷ f.gone;
        kept = f.kept;
        whole = ap (λ l. x ∷ l) f.whole;
        all = (e, f.all);
        starts = f.starts;
        found = rw e f.found;
      }
  | inr e ↦ record {
    gone = [];
    kept = x ∷ xs;
    whole = refl;
    all = tt;
    starts = e;
    found = rw (e, h) refl;
  }
]

record Ended (c n : ℕ) (xs : Bytes) (rest : Cells) : Type 0 where
  kept : Bytes
  gone : Bytes
  whole : xs ≡ kept ++ gone
  all : AreAll c gone
  ends : EndsNot c kept
  found : skip_back c n (cells_of xs ++ rest) ≡ some (length kept)

skip_back-Ended : (c n : ℕ) (xs : Bytes) (rest : Cells) → length xs ≡ n → Ended c n xs rest
unfolding skip_back
skip_back-Ended c zero [] rest h = record {
  kept = [];
  gone = [];
  whole = refl;
  all = tt;
  ends = tt;
  found = refl;
}
skip_back-Ended c zero (x ∷ xs) rest h = absurd (omega (arith, h))
skip_back-Ended c (suc n) xs rest h =
    let (ys, y, e, k) = unsnoc xs n h in
    let start : cells_of xs ++ rest ≡ cells_of ys ++ (some y ∷ rest) =
      ap (λ l. cells_of l ++ rest) e ∙ cells_of-append ys (y ∷ []) rest in
    let last : get_elem? (cells_of ys ++ (some y ∷ rest)) n ≡ some (some y) =
      get_elem?-append_at (cells_of ys) (some y) rest n (omega (arith, k, length-cells_of ys)) in
    elim (Bool-cases (y == c)) [
      | inl same ↦
          let b = skip_back-Ended c n ys (some y ∷ rest) k in
          record {
            kept = b.kept;
            gone = b.gone ++ (y ∷ []);
            whole = e ∙ ap (λ l. l ++ (y ∷ [])) b.whole ∙ append_assoc b.kept b.gone (y ∷ []);
            all = AreAll-append c b.gone (y ∷ []) b.all (same, tt);
            ends = b.ends;
            found = rw (start, last, same) b.found;
          }
      | inr other ↦ record {
        kept = ys ++ (y ∷ []);
        gone = [];
        whole = e ∙ sym (append-nil (ys ++ (y ∷ [])));
        all = tt;
        ends = EndsNot-append c y ys other;
        found = rw (start, last, other) (ap some (omega (arith, length-append ys (y ∷ []), k)));
      }
    ]

StartsNot-front : (c : ℕ) (xs ys : Bytes) → StartsNot c (xs ++ ys) → StartsNot c xs
StartsNot-front c [] ys h = tt
StartsNot-front c (x ∷ xs) ys h = h

-- a string that refers to these bytes
abbrev pub RefersTo : Option String → Bytes → Type 0
RefersTo result xs = (t : String) × (result ≡ some t) × IsText t xs

pub make_ref-IsText :
    (xs : Bytes) (rest : Cells)
    → length xs < 2 ^ 31
    → RefersTo (make_ref (cells_of xs ++ rest) (length xs)) xs
unfolding make_ref
make_ref-IsText xs rest small =
    let given : (length xs == npos) ≡ false = ground (arith, small) in
    let same : bits31 (length xs) ≡ length xs = omega (arith, small) in
    (
      record {
        cells = cells_of xs ++ rest;
        size = length xs;
        capacity = length xs;
        is_local = false;
        is_ref = true;
      },
      rw (given, same) refl,
      record { rest = rest; cells = refl; size = refl },
    )

-- what `strip` does behind the bytes in front, whose length is given
behind_front : ℕ → Cells → ℕ → Option String
behind_front c cells n =
    if n == 0 then make_ref cells 0 else (do k ← skip_back c n cells; make_ref cells k)

behind_front-RefersTo :
    (c n : ℕ) (kept : Bytes) (rest : Cells) (b : Ended c n kept rest)
    → n ≡ length kept
    → length kept < 2 ^ 31
    → RefersTo (behind_front c (cells_of kept ++ rest) n) b.kept
unfolding behind_front
behind_front-RefersTo c n kept rest b e small =
    let cells = cells_of kept ++ rest in
    let split : cells ≡ cells_of b.kept ++ (cells_of b.gone ++ rest) =
      ap (λ l. cells_of l ++ rest) b.whole ∙ cells_of-append b.kept b.gone rest in
    let short : length b.kept ≤ length kept =
      omega (arith, ap length b.whole, length-append b.kept b.gone) in
    let (t, made, text) =
      make_ref-IsText b.kept (cells_of b.gone ++ rest) (omega (arith, short, small)) in
    let made_here : make_ref cells (length b.kept) ≡ some t =
      ap (λ l. make_ref l (length b.kept)) split ∙ made in
    elim (Bool-cases (n == 0)) [
      | inl zero_left ↦
          let none_kept : 0 ≡ length b.kept = ground (arith, zero_left, e, short) in
          (t, if_so (n == 0) _ _ zero_left ∙ ap (make_ref cells) none_kept ∙ made_here, text)
      | inr some_left ↦ (
        t,
        if_not (n == 0) _ _ some_left ∙ ap (λ o. do k ← o; make_ref cells k) b.found ∙ made_here,
        text,
      )
    ]

-- what `strip` gives for a text that it takes apart
pub record Stripped (c : ℕ) (result : Option String) (xs : Bytes) : Type 0 where
  pub front : Bytes
  pub kept : Bytes
  pub back : Bytes
  pub whole : xs ≡ front ++ (kept ++ back)
  pub front_all : AreAll c front
  pub back_all : AreAll c back
  pub starts : StartsNot c kept
  pub ends : EndsNot c kept
  pub refers : RefersTo result kept

-- strip takes the longest runs of a byte off both ends of a text: what is left neither starts nor ends
-- with that byte, and the result refers to it.
pub strip-Stripped :
    (s : String) (xs : Bytes) (c : ℕ) → IsText s xs → length xs < 2 ^ 31 → Stripped c (strip s c) xs
unfolding strip behind_front
strip-Stripped s [] c text small =
    let (t, made, result) = make_ref-IsText [] text.rest small in
    let nothing : (s.size == 0) ≡ true = ground (arith, text.size) in
    record {
      front = [];
      kept = [];
      back = [];
      whole = refl;
      front_all = tt;
      back_all = tt;
      starts = tt;
      ends = tt;
      refers =
          (t, if_so (s.size == 0) _ _ nothing ∙ ap (λ l. make_ref l 0) text.cells ∙ made, result);
    }
strip-Stripped s (x ∷ xs) c text small =
    let f = skip_front-Trimmed c s.size (x ∷ xs) text.rest text.size in
    let b = skip_back-Ended c (length f.kept) f.kept text.rest refl in
    let short : length f.kept ≤ length (x ∷ xs) =
      omega (arith, ap length f.whole, length-append f.gone f.kept) in
    let (t, made, result) =
      behind_front-RefersTo c (length f.kept) f.kept text.rest b refl
        (omega (arith, short, small)) in
    let some_left : (s.size == 0) ≡ false = ground (arith, text.size) in
    record {
      front = f.gone;
      kept = b.kept;
      back = b.gone;
      whole = f.whole ∙ ap (λ l. f.gone ++ l) b.whole;
      front_all = f.all;
      back_all = b.all;
      starts = StartsNot-front c b.kept b.gone (rw b.whole at f.starts);
      ends = b.ends;
      refers = (
        t,
        if_not (s.size == 0) _ _ some_left
            ∙ ap (λ l. do front ← skip_front c s.size l; behind_front c front.0 front.1) text.cells
            ∙ ap (λ o. do front ← o; behind_front c front.0 front.1) f.found
            ∙ made,
        result,
      );
    }
