-- ===== src/Json/Containers/Items.antt =====
-- src/json.cpp: an iteration over an array or a dict passes its elements in their order.
use stdromano.Prelude.{
  ℕ, zero, suc, ◌≤◌, ◌≡◌, refl, List, [], ◌∷◌, some, length, arith, get_elem?-append_length,
}
use stdromano.Json.Chain.{Node, Info, empty_info}
use stdromano.Json.Chain.Listed.{Listed, Holds, last, more, Listed-length}
use stdromano.Json.Document.{Json, KeyValue, make_array, make_dict}
use stdromano.Json.Tags.{has_tag, tag_set_type, tag_get_sz}
use stdromano.Json.Containers.{items, array_items, dict_items}
use stdromano.Json.Containers.ArrayProofs.{IsArray}
use stdromano.Json.Containers.DictProofs.{IsDict}

module _ {P : Type 0} {arena : List (Node P)} where
  items-Listed :
      {lo a z : ℕ} {xs : List P}
      → Listed arena lo a z xs
      → (rounds : ℕ) → length xs ≤ rounds
      → items arena rounds (some a) ≡ some xs
  unfolding items
  items-Listed (last h e) zero small = absurd (omega arith)
  items-Listed (more h e rest) zero small = absurd (omega arith)
  items-Listed (last h e) (suc rounds) small = rw e refl
  items-Listed (more h e rest) (suc rounds) small =
      rw (e, items-Listed rest rounds (omega arith)) refl

items-Holds :
    {P : Type 0} (arena : List (Node P)) (info : Info) (xs : List P)
    → Holds arena info xs
    → items arena (length arena) info.head ≡ some xs
unfolding items
items-Holds arena info [] (h, t) = rw h refl
items-Holds arena info (x ∷ xs) (a, z, h, t, chain) =
    rw h (items-Listed chain (length arena) (omega (arith, Listed-length chain)))

module _ {F : Type 0} where
  -- An iteration over an array passes its objects in their order, in as many rounds as there are
  -- elements in the arena at most.
  pub array_items-IsArray :
      (json : Json F) (a : ℕ) (xs : List ℕ) → IsArray json a xs → array_items json a ≡ some xs
  unfolding array_items
  array_items-IsArray json a xs before =
      rw (before.found, before.tagged, before.ends)
        (items-Holds json.elements before.info xs before.held)

  pub dict_items-IsDict :
      (json : Json F) (a : ℕ) (xs : List KeyValue) → IsDict json a xs → dict_items json a ≡ some xs
  unfolding dict_items
  dict_items-IsDict json a xs before =
      rw (before.found, before.tagged, before.ends)
        (items-Holds json.members before.info xs before.held)

  pub make_array-IsArray : (json : Json F) → IsArray (make_array json).0 (make_array json).1 []
  unfolding make_array has_tag tag_set_type tag_get_sz
  make_array-IsArray json = record {
    tags = _;
    place = length json.arrays;
    info = empty_info;
    found = get_elem?-append_length json.objects _;
    tagged = refl;
    ends = get_elem?-append_length json.arrays empty_info;
    held = (refl, refl);
    size = refl;
  }

  pub make_dict-IsDict : (json : Json F) → IsDict (make_dict json).0 (make_dict json).1 []
  unfolding make_dict has_tag tag_set_type tag_get_sz
  make_dict-IsDict json = record {
    tags = _;
    place = length json.dicts;
    info = empty_info;
    found = get_elem?-append_length json.objects _;
    tagged = refl;
    ends = get_elem?-append_length json.dicts empty_info;
    held = (refl, refl);
    size = refl;
  }
