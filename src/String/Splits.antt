-- ===== src/String/Splits.antt =====
-- include/stdromano/string.hpp: the parts that calls of `split` give, one after the other.
use stdromano.Prelude.{
  ℕ, zero, suc, ◌+◌, ◌-◌, ◌^◌, ◌==◌, ◌≤◌, ◌<◌, ◌≡◌, refl, sym, ap, ◌∙◌, ◌⊎◌, Bool, true, false, leb,
  List, [], ◌∷◌, ◌++◌, Option, none, some, ◌>>=◌, length, arith, append_assoc, append-nil, drop,
  length-append, drop-append, inl, inr,
}
use stdromano.Json.Value.{Bytes}
use stdromano.String.Storage.{Cells, String, make_ref, new_string}
use stdromano.String.Contents.{
  cells_of, length-cells_of, IsText, IsString, cells_of-append, if_not, if_so,
}
use stdromano.String.Views.{strstr, c_text, split}
use stdromano.String.Strip.{make_ref-IsText}
use stdromano.String.Search.{HasNoZero, Search, at_first, absent, strstr-Search, c_text-cells_of}

-- the first text that `split` finds in front of a separator, or the whole when there is none
pub data Part (s sep : String) (it : ℕ) (ys xs : Bytes) : Type 0 where
  cut :
      (part behind : Bytes) (t : String)
      → xs ≡ part ++ (ys ++ behind)
      → split s sep it ≡ some (true, it + length part + length ys, t)
      → IsText t part
      → Part s sep it ys xs
  whole : (t : String) → split s sep it ≡ some (true, s.size, t) → IsText t xs → Part s sep it ys xs

-- what `split` does with the result of the search
with_found : Cells → ℕ → ℕ → ℕ → Option (Option ℕ) → Option (Bool × ℕ × String)
with_found cells size it separator found = do
  place ← found
  elim place [
    | some i ↦ do out ← make_ref cells i; some (true, it + i + separator, out)
    | none ↦ do out ← make_ref cells (size - it); some (true, size, out)
  ]

split-Part :
    (s sep : String) (done xs : Bytes) (x d : ℕ) (ds : Bytes)
    → IsString s (done ++ (x ∷ xs))
    → IsString sep (d ∷ ds)
    → HasNoZero (x ∷ xs)
    → HasNoZero (d ∷ ds)
    → Part s sep (length done) (d ∷ ds) (x ∷ xs)
unfolding split with_found
split-Part s sep done xs x d ds text separator h g =
    by_search (strstr-Search d ds (x ∷ xs) text.left g h) refl
  where
    here : Cells
    here = cells_of (x ∷ xs) ++ (some 0 ∷ text.left)

    it : ℕ
    it = length done

    small : length (x ∷ xs) < 2 ^ 31
    small = omega (arith, text.capacity, text.small, length-append done (x ∷ xs))

    start : drop it s.cells ≡ here
    start =
        ap (drop it) (text.cells ∙ cells_of-append done (x ∷ xs) (some 0 ∷ text.left))
        ∙ drop-append (cells_of done) here it (sym (length-cells_of done))

    steps :
        (o : Option (Option ℕ))
        → strstr (d ∷ ds) here ≡ o
        → split s sep it ≡ with_found here s.size it (length (d ∷ ds)) o
    steps o e =
        let separated : (sep.size == 0) ≡ false = ground (arith, separator.size) in
        let inside : leb s.size it ≡ false =
          ground (arith, text.size, length-append done (x ∷ xs)) in
        let read = ap c_text separator.cells ∙ c_text-cells_of (d ∷ ds) separator.left g in
        if_not (sep.size == 0) _ _ separated
        ∙ if_not (leb s.size it) _ _ inside
        ∙ ap
            (λ n. do
              needle ← n
              with_found (drop it s.cells) s.size it sep.size (strstr needle (drop it s.cells)))
            read
        ∙ ap (λ l. with_found l s.size it sep.size (strstr (d ∷ ds) l)) start
        ∙ ap (λ r. with_found here s.size it sep.size r) e
        ∙ ap (λ k. with_found here s.size it k o) separator.size

    by_search :
        {o : Option (Option ℕ)}
        → Search (d ∷ ds) (x ∷ xs) o
        → strstr (d ∷ ds) here ≡ o
        → Part s sep it (d ∷ ds) (x ∷ xs)
    by_search (at_first before behind q least) e =
        let short : length before < 2 ^ 31 =
          omega (arith, small, ap length q, length-append before (d ∷ (ds ++ behind))) in
        let split_here : here
            ≡ cells_of before ++ (cells_of ((d ∷ ds) ++ behind) ++ (some 0 ∷ text.left)) =
          ap (λ l. cells_of l ++ (some 0 ∷ text.left)) q
          ∙ cells_of-append before ((d ∷ ds) ++ behind) (some 0 ∷ text.left) in
        let (t, made, result) =
          make_ref-IsText before (cells_of ((d ∷ ds) ++ behind) ++ (some 0 ∷ text.left)) short in
        cut before behind t q
          (steps (some (some (length before))) e
            ∙ ap (λ r. do out ← r; some (true, it + length before + length (d ∷ ds), out))
                (ap (λ l. make_ref l (length before)) split_here ∙ made))
          result
    by_search (absent nowhere) e =
        let left : s.size - it ≡ length (x ∷ xs) =
          omega (arith, text.size, length-append done (x ∷ xs)) in
        let (t, made, result) = make_ref-IsText (x ∷ xs) (some 0 ∷ text.left) small in
        whole t
          (steps (some none) e
            ∙ ap (λ r. do out ← r; some (true, s.size, out)) (ap (make_ref here) left ∙ made))
          result

-- the parts with a separator between them
abbrev pub joined : Bytes → List Bytes → Bytes
joined sep [] = []
joined sep (p ∷ []) = p
joined sep (p ∷ q ∷ ps) = p ++ (sep ++ joined sep (q ∷ ps))

-- the parts that the calls of `split` give from an index on, up to the call that gives none
pub data Parts (s sep : String) : ℕ → List Bytes → Type 0 where
  ends : {it : ℕ} (t : String) → split s sep it ≡ some (false, it, t) → Parts s sep it []
  next :
      {it : ℕ} (it_after : ℕ) (t : String) (p : Bytes) (ps : List Bytes)
      → split s sep it ≡ some (true, it_after, t)
      → IsText t p
      → Parts s sep it_after ps
      → Parts s sep it (p ∷ ps)

split-ends :
    (s sep : String) (xs : Bytes) (d : ℕ) (ds : Bytes)
    → IsString s xs
    → IsString sep (d ∷ ds)
    → Parts s sep (length xs) []
unfolding split
split-ends s sep xs d ds text separator =
    let separated : (sep.size == 0) ≡ false = ground (arith, separator.size) in
    let outside : leb s.size (length xs) ≡ true = ground (arith, text.size) in
    ends (new_string 7)
      (if_not (sep.size == 0) _ _ separated ∙ if_so (leb s.size (length xs)) _ _ outside)

HasNoZero-behind : (xs ys : Bytes) → HasNoZero (xs ++ ys) → HasNoZero ys
HasNoZero-behind [] ys h = h
HasNoZero-behind (x ∷ xs) ys (e, h) = HasNoZero-behind xs ys h

HasNoZero-cut : (zs xs ys : Bytes) → zs ≡ xs ++ ys → HasNoZero zs → HasNoZero ys
HasNoZero-cut zs xs ys e h = HasNoZero-behind xs ys (rw e at h)

-- A text joins from its parts, unless a separator ends it.
abbrev pub Joins : Bytes → List Bytes → Bytes → Type 0
Joins sep [] xs = xs ≡ []
Joins sep (p ∷ ps) xs = (joined sep (p ∷ ps) ≡ xs) ⊎ (joined sep (p ∷ ps) ++ sep ≡ xs)

Joins-cut :
    (sep part behind : Bytes) (ps : List Bytes)
    → Joins sep ps behind
    → Joins sep (part ∷ ps) (part ++ (sep ++ behind))
Joins-cut sep part behind [] g =
    inr (ap (λ l. part ++ l) (sym (append-nil sep) ∙ ap (λ l. sep ++ l) (sym g)))
Joins-cut sep part behind (p ∷ ps) (inl e) = inl (ap (λ l. part ++ (sep ++ l)) e)
Joins-cut sep part behind (p ∷ ps) (inr e) = inr (
    append_assoc part (sep ++ joined sep (p ∷ ps)) sep
    ∙ ap (λ l. part ++ l) (append_assoc sep (joined sep (p ∷ ps)) sep ∙ ap (λ l. sep ++ l) e))

Joins-same :
    (sep : Bytes) (ps : List Bytes) (xs zs : Bytes) → xs ≡ zs → Joins sep ps zs → Joins sep ps xs
Joins-same sep ps xs zs e h = rw e h

-- the parts from an index on, and the text they join to
abbrev pub Splits : String → String → ℕ → Bytes → Bytes → Type 0
Splits s sep it ys xs = (ps : List Bytes) × Parts s sep it ps × Joins ys ps xs

split-Splits :
    (n : ℕ) (s sep : String) (done xs : Bytes) (d : ℕ) (ds : Bytes)
    → length xs ≤ n
    → IsString s (done ++ xs)
    → IsString sep (d ∷ ds)
    → HasNoZero xs
    → HasNoZero (d ∷ ds)
    → Splits s sep (length done) (d ∷ ds) xs
split-Splits n s sep done [] d ds fuel text separator h g =
    ([], split-ends s sep done d ds (rw (append-nil done) at text) separator, refl)
split-Splits zero s sep done (x ∷ xs) d ds fuel text separator h g = absurd (omega (arith, fuel))
split-Splits (suc n) s sep done (x ∷ xs) d ds fuel text separator h g =
    by_part (split-Part s sep done xs x d ds text separator h g) (λ more behind short held free.
      split-Splits n s sep more behind d ds short held separator free g)
  where
    ys : Bytes
    ys = d ∷ ds

    by_part :
        Part s sep (length done) ys (x ∷ xs)
        → ((more behind : Bytes)
            → length behind ≤ n
            → IsString s (more ++ behind)
            → HasNoZero behind
            → Splits s sep (length more) ys behind)
        → Splits s sep (length done) ys (x ∷ xs)
    by_part (cut part behind t q e found) ih =
        let more = done ++ (part ++ ys) in
        let regroup : done ++ (x ∷ xs) ≡ more ++ behind =
          ap (λ l. done ++ l) (q ∙ sym (append_assoc part ys behind))
          ∙ sym (append_assoc done (part ++ ys) behind) in
        let short : length behind ≤ n =
          omega (
            arith,
            fuel,
            ap length q,
            length-append part (ys ++ behind),
            length-append ds behind,
          ) in
        let free = HasNoZero-behind ys behind (HasNoZero-cut (x ∷ xs) part (ys ++ behind) q h) in
        let (ps, parts, joins) = ih more behind short (rw regroup at text) free in
        let index : length more ≡ length done + length part + length ys =
          omega (arith, length-append done (part ++ ys), length-append part ys) in
        (
          part ∷ ps,
          next (length done + length part + length ys) t part ps e found (rw index at parts),
          Joins-same ys (part ∷ ps) (x ∷ xs) (part ++ (ys ++ behind)) q
              (Joins-cut ys part behind ps joins),
        )
    by_part (whole t e found) ih = (
      (x ∷ xs) ∷ [],
      next s.size t (x ∷ xs) [] e found
          (rw (sym text.size) at (split-ends s sep (done ++ (x ∷ xs)) d ds text separator)),
      inl refl,
    )

-- For a string and a separator that both own memory ending in a zero, and have no zero in their
-- texts, where the separator is not empty, the calls of split from the start on give parts that join
-- to the text, or to the text without the separator that ends it.
pub split-Joins :
    (s sep : String) (xs : Bytes) (d : ℕ) (ds : Bytes)
    → IsString s xs
    → IsString sep (d ∷ ds)
    → HasNoZero xs
    → HasNoZero (d ∷ ds)
    → (ps : List Bytes) × Parts s sep 0 ps × Joins (d ∷ ds) ps xs
split-Joins s sep xs d ds text separator h g =
    split-Splits (length xs) s sep [] xs d ds (omega arith) text separator h g
