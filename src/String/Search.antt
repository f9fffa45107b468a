-- ===== src/String/Search.antt =====
-- include/stdromano/string.hpp: what `find` and `split` find.
use stdromano.Prelude.{
  ℕ, suc, ◌==◌, ◌≤◌, ◌≡◌, ◌≢◌, refl, ap, ◌∙◌, Bool, true, false, ltb, if◌then◌else◌, [], ◌∷◌, ◌++◌,
  Option, none, some, ◌>>=◌, length, arith, length-append, Bool-cases, inl, inr,
}
use stdromano.Json.Value.{Bytes}
use stdromano.String.Storage.{Cells, String}
use stdromano.String.Contents.{cells_of, IsString}
use stdromano.String.Views.{stands_at, strstr, c_text, find}

-- no byte is the zero that ends a text
abbrev pub HasNoZero : Bytes → Type 0
HasNoZero [] = Unit
HasNoZero (x ∷ xs) = ((x == 0) ≡ false) × HasNoZero xs

-- the result of a search for the first place of some bytes
pub data Search (needle xs : Bytes) : Option (Option ℕ) → Type 0 where
  at_first :
      (before behind : Bytes)
      → xs ≡ before ++ (needle ++ behind)
      → ((b a : Bytes) → xs ≡ b ++ (needle ++ a) → length before ≤ length b)
      → Search needle xs (some (some (length before)))
  absent : ((b a : Bytes) → xs ≢ b ++ (needle ++ a)) → Search needle xs (some none)

-- the test at one place
data Stand (needle xs : Bytes) : Option Bool → Type 0 where
  stands : (behind : Bytes) → xs ≡ needle ++ behind → Stand needle xs (some true)
  differs : ((a : Bytes) → xs ≢ needle ++ a) → Stand needle xs (some false)

tail_of : Bytes → Bytes
tail_of [] = []
tail_of (x ∷ xs) = xs

head_of : Bytes → ℕ
head_of [] = 0
head_of (x ∷ xs) = x

stands_at-Stand :
    (needle xs : Bytes) (left : Cells)
    → HasNoZero needle
    → Stand needle xs (stands_at needle (cells_of xs ++ (some 0 ∷ left)))
unfolding stands_at tail_of head_of
stands_at-Stand [] xs left h = stands xs refl
stands_at-Stand (c ∷ cs) [] left (h, hs) =
    let other : (0 == c) ≡ false = ground (arith, h) in
    rw other (differs (λ a e. ground (arith, ap length e)))
stands_at-Stand (c ∷ cs) (x ∷ xs) left (h, hs) = elim (Bool-cases (x == c)) [
  | inl e ↦ rw e (extend (stands_at-Stand cs xs left hs) (ground (arith, e)))
  | inr e ↦ rw e (differs (λ a q. ground (arith, e, ap head_of q)))
]
  where
    extend : {o : Option Bool} → Stand cs xs o → x ≡ c → Stand (c ∷ cs) (x ∷ xs) o
    extend (stands behind q) e = stands behind (ap (λ y. y ∷ xs) e ∙ ap (λ l. c ∷ l) q)
    extend (differs never) e = differs (λ a q. never a (ap tail_of q))

-- what `strstr` does at a byte, with the test there and the search behind it
at_byte : ℕ → Option Bool → Option (Option ℕ) → Option (Option ℕ)
at_byte x test rest = do
  found ← test
  if found
      then some (some 0)
      else if x == 0
      then some none
      else (do offset ← rest; some (do i ← offset; some (suc i)))

at_byte-Search :
    (d x : ℕ) (ds xs : Bytes) {test : Option Bool} {rest : Option (Option ℕ)}
    → (x == 0) ≡ false
    → Stand (d ∷ ds) (x ∷ xs) test
    → Search (d ∷ ds) xs rest
    → Search (d ∷ ds) (x ∷ xs) (at_byte x test rest)
unfolding at_byte tail_of
at_byte-Search d x ds xs e (stands behind q) s = at_first [] behind q (λ b a p. omega arith)
at_byte-Search d x ds xs e (differs never) (at_first before behind q least) =
    rw e (at_first (x ∷ before) behind (ap (λ l. x ∷ l) q) later)
  where
    later : (b a : Bytes) → x ∷ xs ≡ b ++ (d ∷ (ds ++ a)) → suc (length before) ≤ length b
    later [] a p = absurd (never a p)
    later (y ∷ b) a p = omega (arith, least b a (ap tail_of p))
at_byte-Search d x ds xs e (differs never) (absent nowhere) = rw e (absent not_here)
  where
    not_here : (b a : Bytes) → x ∷ xs ≢ b ++ (d ∷ (ds ++ a))
    not_here [] a p = never a p
    not_here (y ∷ b) a p = nowhere b a (ap tail_of p)

pub strstr-Search :
    (d : ℕ) (ds xs : Bytes) (left : Cells)
    → HasNoZero (d ∷ ds)
    → HasNoZero xs
    → Search (d ∷ ds) xs (strstr (d ∷ ds) (cells_of xs ++ (some 0 ∷ left)))
unfolding strstr at_byte
strstr-Search d ds [] left (h, hs) g =
    let other : (0 == d) ≡ false = ground (arith, h) in
    rw other (absent (λ b a q. ground (arith, ap length q, length-append b (d ∷ (ds ++ a)))))
strstr-Search d ds (x ∷ xs) left h (e, g) =
    at_byte-Search d x ds xs e (stands_at-Stand (d ∷ ds) (x ∷ xs) left h)
      (strstr-Search d ds xs left h g)

pub c_text-cells_of :
    (xs : Bytes) (left : Cells) → HasNoZero xs → c_text (cells_of xs ++ (some 0 ∷ left)) ≡ some xs
unfolding c_text
c_text-cells_of [] left h = refl
c_text-cells_of (x ∷ xs) left (h, hs) = rw (h, c_text-cells_of xs left hs) refl

-- For two strings that own memory ending in a zero, and have no zero in their texts, find gives the
-- first place of one text within the other, and -1 where there is none.
pub find-Search :
    (s substring : String) (xs ys : Bytes)
    → IsString s xs
    → IsString substring ys
    → HasNoZero xs
    → HasNoZero ys
    → Search ys xs (find s substring)
unfolding find
find-Search s substring xs [] text needle h g =
    let nothing : (substring.size == 0) ≡ true = ground (arith, needle.size) in
    rw nothing (at_first [] xs refl (λ b a p. omega arith))
find-Search s substring xs (y ∷ ys) text needle h g =
    let some_left : (substring.size == 0) ≡ false = ground (arith, needle.size) in
    let read = ap c_text needle.cells ∙ c_text-cells_of (y ∷ ys) needle.left g in
    elim (Bool-cases (ltb s.size substring.size)) [
      | inl e ↦
          rw (some_left, e)
            (absent (λ b a q. ground (
              arith,
              e,
              ap length q,
              length-append b (y ∷ (ys ++ a)),
              length-append ys a,
              text.size,
              needle.size,
            )))
      | inr e ↦ rw (some_left, e, read, text.cells) (strstr-Search y ys xs text.left g h)
    ]
