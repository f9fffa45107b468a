-- ===== src/Json/Chain/Append.antt =====
-- src/json.cpp: `append` puts a value at the end of a linked list.
use stdromano.Prelude.{
  ◌≡◌, refl, List, [], ◌∷◌, ◌++◌, none, some, length, set, arith, get_elem?-bound,
  get_elem?-append_length,
}
use stdromano.Json.Chain.{Node, Info, node, append}
use stdromano.Json.Chain.Listed.{Holds, last, Listed-grow, Listed-extend, Listed-tail}

module _ {P : Type 0} where
  abbrev pub Appended : List (Node P) → Info → P → List P → Type 0
  Appended arena info v xs =
      (arena' : List (Node P)) × (info' : Info) × (append arena info v ≡ some (arena', info'))
      × Holds arena' info' xs

  pub append-Holds :
      (arena : List (Node P)) (info : Info) (xs : List P) (v : P)
      → Holds arena info xs
      → Appended arena info v (xs ++ (v ∷ []))
  unfolding append
  append-Holds arena info [] v (h, t) = (
    arena ++ (node v none ∷ []),
    record { head = some (length arena); tail = some (length arena) },
    rw h refl,
    (
      length arena,
      length arena,
      refl,
      refl,
      last (omega arith) (get_elem?-append_length arena (node v none)),
    ),
  )
  append-Holds arena info (x ∷ xs) v (a, z, h, t, chain) =
      let grown = Listed-grow (node v none) chain in
      let tail = Listed-tail grown in
      let before = get_elem?-bound arena (Listed-tail chain).1 in
      (
        set (arena ++ (node v none ∷ [])) z (node tail.0 (some (length arena))),
        record info { tail = some (length arena) },
        rw (h, t, tail.1) refl,
        (
          a,
          length arena,
          h,
          refl,
          Listed-extend (node tail.0 none) v grown tail.1
              (get_elem?-append_length arena (node v none)) before,
        ),
      )
