-- ===== src/Json/Chain/Pop.antt =====
-- src/json.cpp: `array_pop` and `dict_pop` take the element entry an index out of a linked list.
use stdromano.Prelude.{
  ℕ, zero, suc, ◌≤◌, ◌<◌, ◌==◌, Bool, true, false, ◌≡◌, refl, ◌∙◌, List, [], ◌∷◌, Option, none,
  some, length, if◌then◌else◌, get_elem?, set, remove_at, arith, get_elem?-bound,
  get_elem?-set_self, get_elem?-set_ne,
}
use stdromano.Json.Chain.{Node, Info, empty_info, node, walk, unlink, pop_at}
use stdromano.Json.Chain.Listed.{
  Listed, Holds, last, more, Listed-frame, Listed-lower, Listed-bound,
}

==-self : (n : ℕ) → (n == n) ≡ true
==-self n = ground arith

==-ne : (m n : ℕ) → m < n → (m == n) ≡ false
==-ne m n h = ground arith

new_tail :
    (b : Bool) (info : Info) (a p z : ℕ)
    → info.head ≡ some a
    → info.tail ≡ some z
    → let info' = if b then record info { tail = some p } else info in
      (info'.head ≡ some a) × (info'.tail ≡ some (if b then p else z))
new_tail false info a p z h t = (h, t)
new_tail true info a p z h t = (h, refl)

module _ {P : Type 0} where
  -- the element behind the one entry index `k` taken out of the list from `a` to `z`
  pub record Unlinked (arena : List (Node P)) (lo a z k : ℕ) (xs : List P) : Type 0 where
    pub previous : ℕ
    pub target : ℕ
    pub value : P
    pub removed : P
    pub after : Option ℕ
    pub bound : lo ≤ previous
    pub found : walk arena k a ≡ some previous
    pub entry : get_elem? arena previous ≡ some (node value (some target))
    pub next_entry : get_elem? arena target ≡ some (node removed after)
    pub rest :
        Listed
          (set arena previous (node value after))
          lo
          a
          (if target == z then previous else z)
          (remove_at (suc k) xs)

  pub unlinked :
      {arena : List (Node P)} {lo a z : ℕ} {xs : List P} (k : ℕ)
      → Listed arena lo a z xs
      → suc k < length xs
      → Unlinked arena lo a z k xs
  unfolding walk
  unlinked k (last h e) small = absurd (omega arith)
  unlinked {arena = arena} {a = a} zero (more {v = v} h e (last {a = b} {v = w} h' e')) small =
      record {
        previous = a;
        target = b;
        value = v;
        removed = w;
        after = none;
        bound = h;
        found = refl;
        entry = e;
        next_entry = e';
        rest =
            rw (==-self b)
              (last h (get_elem?-set_self arena a (node v none) (get_elem?-bound arena e)));
      }
  unlinked {arena = arena} {a = a} {z = z} zero
        (more {v = v} h e (more {a = b} {b = c} {v = w} h' e' chain)) small =
      record {
        previous = a;
        target = b;
        value = v;
        removed = w;
        after = some c;
        bound = h;
        found = refl;
        entry = e;
        next_entry = e';
        rest = rw (==-ne b z (omega (arith, Listed-bound chain))) (
            more h (get_elem?-set_self arena a (node v (some c)) (get_elem?-bound arena e))
              (Listed-lower (omega arith) (Listed-frame a (node v (some c)) chain (omega arith))));
      }
  unlinked {arena = arena} {a = a} (suc k) (more {v = v} h e chain) small =
      let u = unlinked k chain (omega arith) in
      record {
        previous = u.previous;
        target = u.target;
        value = u.value;
        removed = u.removed;
        after = u.after;
        bound = omega (arith, u.bound);
        found = rw e u.found;
        entry = u.entry;
        next_entry = u.next_entry;
        rest = more h (get_elem?-set_ne arena _ (λ q. omega (arith, q, u.bound)) ∙ e) u.rest;
      }

  abbrev pub Popped : List (Node P) → Info → ℕ → List P → Type 0
  Popped arena info k xs =
      (arena' : List (Node P)) × (info' : Info) × (pop_at arena info k ≡ some (arena', info'))
      × Holds arena' info' xs

  -- An index inside the list loses its element, and the rest keeps its order.
  pub pop_at-Holds :
      (arena : List (Node P)) (info : Info) (k : ℕ) (xs : List P)
      → Holds arena info xs
      → k < length xs
      → Popped arena info k (remove_at k xs)
  unfolding pop_at unlink
  pop_at-Holds arena info k [] held small = absurd (omega arith)
  pop_at-Holds arena info zero (x ∷ []) (a, z, h, t, last bound entry) small =
      (arena, empty_info, rw (h, entry) refl, (refl, refl))
  pop_at-Holds arena info zero (x ∷ []) (a, z, h, t, more bound entry chain) small = elim chain [ ]
  pop_at-Holds arena info zero (x ∷ y ∷ ys) (a, z, h, t, more {b = b} bound entry chain) small = (
    arena,
    record info { head = some b },
    rw (h, entry) refl,
    (b, z, refl, t, Listed-lower (omega arith) chain),
  )
  pop_at-Holds arena info (suc k) (x ∷ xs) (a, z, h, t, chain) small =
      let u = unlinked k chain small in
      let ends = new_tail (u.target == z) info a u.previous z h t in
      (
        set arena u.previous (node u.value u.after),
        (if u.target == z then record info { tail = some u.previous } else info),
        rw (h, t, u.found, u.entry, u.next_entry) refl,
        (a, (if u.target == z then u.previous else z), ends.0, ends.1, u.rest),
      )
