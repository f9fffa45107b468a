-- ===== src/Json/Chain/Listed.antt =====
-- src/json.cpp: what the pointers of a linked list say of it, and what `append` does to a list.
use stdromano.Prelude.{
  ℕ, suc, ◌+◌, ◌≤◌, ◌<◌, ◌≡◌, sym, ap, ◌∙◌, List, [], ◌∷◌, ◌++◌, none, some, length, get_elem?, set,
  arith, get_elem?-set_self, get_elem?-set_ne, get_elem?-append, get_elem?-bound,
}
use stdromano.Json.Chain.{Node, Info, node}
use mathlib.Core.Option.{some-injective}

-- From the address `a` the pointers lead through the values to the address `z`, and the addresses
-- grow from `lo` on.
pub data Listed {P : Type 0} (arena : List (Node P)) : ℕ → ℕ → ℕ → List P → Type 0 where
  last :
      {lo a : ℕ} {v : P}
      → lo ≤ a
      → get_elem? arena a ≡ some (node v none)
      → Listed arena lo a a (v ∷ [])
  more :
      {lo a b z : ℕ} {v : P} {xs : List P}
      → lo ≤ a
      → get_elem? arena a ≡ some (node v (some b))
      → Listed arena (suc a) b z xs
      → Listed arena lo a z (v ∷ xs)

-- what the pointers to the ends of a list say of it
abbrev pub Holds : {P : Type 0} → List (Node P) → Info → List P → Type 0
Holds arena info [] = (info.head ≡ none) × (info.tail ≡ none)
Holds arena info (x ∷ xs) =
    (a : ℕ) × (z : ℕ) × (info.head ≡ some a) × (info.tail ≡ some z) × Listed arena 0 a z (x ∷ xs)

module _ {P : Type 0} {arena : List (Node P)} where
  pub Listed-frame :
      {lo a z : ℕ} {xs : List P} (p : ℕ) (n : Node P)
      → Listed arena lo a z xs
      → p < lo
      → Listed (set arena p n) lo a z xs
  Listed-frame p n (last h e) small = last h (get_elem?-set_ne arena n (λ q. omega (arith, q)) ∙ e)
  Listed-frame p n (more h e rest) small =
      more h (get_elem?-set_ne arena n (λ q. omega (arith, q)) ∙ e)
        (Listed-frame p n rest (omega arith))

  pub Listed-bound : {lo a z : ℕ} {xs : List P} → Listed arena lo a z xs → lo ≤ z
  Listed-bound (last h e) = h
  Listed-bound (more h e rest) = omega (arith, Listed-bound rest)

  pub Listed-grow :
      {lo a z : ℕ} {xs : List P} (n : Node P)
      → Listed arena lo a z xs
      → Listed (arena ++ (n ∷ [])) lo a z xs
  Listed-grow n (last h e) = last h (get_elem?-append arena (n ∷ []) _ e)
  Listed-grow n (more h e rest) = more h (get_elem?-append arena (n ∷ []) _ e) (Listed-grow n rest)

  -- the tail of a list gets a pointer to a last element
  pub Listed-extend :
      {lo a z e : ℕ} {xs : List P} (n : Node P) (v : P)
      → Listed arena lo a z xs
      → get_elem? arena z ≡ some n
      → get_elem? arena e ≡ some (node v none)
      → z < e
      → Listed (set arena z (node n.value (some e))) lo a e (xs ++ (v ∷ []))
  Listed-extend {z = z} {e = e} n v (last {v = u} h entry) found new small =
      let same : n.value ≡ u = ap Node.value (some-injective _ _ (sym found ∙ entry)) in
      more h
        (get_elem?-set_self arena z (node n.value (some e)) (get_elem?-bound arena entry)
          ∙ ap (λ w. some (node w (some e))) same)
        (last small (get_elem?-set_ne arena (node n.value (some e)) (λ q. omega (arith, q)) ∙ new))
  Listed-extend {z = z} {e = e} n v (more h entry rest) found new small =
      more h
        (get_elem?-set_ne arena (node n.value (some e)) (λ q. omega (arith, q, Listed-bound rest))
          ∙ entry)
        (Listed-extend n v rest found new small)

  pub Listed-tail :
      {lo a z : ℕ} {xs : List P}
      → Listed arena lo a z xs
      → (u : P) × (get_elem? arena z ≡ some (node u none))
  Listed-tail (last {v = u} h entry) = (u, entry)
  Listed-tail (more h entry rest) = Listed-tail rest

  pub Listed-lower :
      {lo low a z : ℕ} {xs : List P} → low ≤ lo → Listed arena lo a z xs → Listed arena low a z xs
  Listed-lower small (last h e) = last (omega arith) e
  Listed-lower small (more h e rest) = more (omega arith) e rest

  pub Listed-length :
      {lo a z : ℕ} {xs : List P} → Listed arena lo a z xs → lo + length xs ≤ length arena
  Listed-length (last h e) = omega (arith, get_elem?-bound arena e)
  Listed-length (more h e rest) = omega (arith, Listed-length rest)
