-- ===== src/Json/Containers.antt =====
-- src/json.cpp: the operations on arrays and dicts, and their iterators. As in Json/Document, the
-- result `none` is the use of an address or a member of the union that is not there; it is also that
-- a loop ran out of its rounds.
pub mod ArrayProofs
pub mod DictProofs
pub mod Items
pub mod Find
use stdromano.Prelude.{
  ℕ, zero, suc, ◌+◌, ◌==◌, Bool, true, false, ltb, if◌then◌else◌, ◌&&◌, not, List, [], ◌∷◌, ◌++◌,
  Option, none, some, ◌>>=◌, length, get_elem?, set,
}
use stdromano.Json.Value.{Bytes}
use stdromano.Json.Parser.{c_str, is_prefix}
use stdromano.Json.Tags.{tag_get_sz, tag_incr_sz, tag_decr_sz}
use stdromano.Json.Chain.{Node, Info, append, walk, unlink, pop_at}
use stdromano.Json.Document.{Payload, JsonObject, KeyValue, Json, typed, emplace}
use stdromano.Json.Getters.{array_info_of, dict_info_of, is_array, is_dict}

-- `std::strcmp(a, b) == 0`, of texts without a zero
abbrev pub same_text : Bytes → Bytes → Bool
same_text [] [] = true
same_text [] (b ∷ bs) = false
same_text (a ∷ cs) [] = false
same_text (a ∷ cs) (b ∷ bs) = (a == b) && same_text cs bs

-- what an iterator passes from `begin()` until it is `end()`
unfoldable pub items : {P : Type 0} → List (Node P) → ℕ → Option ℕ → Option (List P)
items arena rounds none = some []
items arena zero (some p) = none
items arena (suc rounds) (some p) = do
  n ← get_elem? arena p
  rest ← items arena rounds n.next
  some (n.value ∷ rest)

-- the loop of `dict_pop`: the element with the key, and the one in front of it
unfoldable pub search :
    List (Node KeyValue) → Bytes → ℕ → Option ℕ → Option ℕ → Option (Option (Option ℕ × ℕ))
search arena key rounds previous none = some none
search arena key zero previous (some current) = none
search arena key (suc rounds) previous (some current) = do
  n ← get_elem? arena current
  let rest = search arena key rounds (some current) n.next
  if same_text n.value.key key then some (some (previous, current)) else rest

-- The loop of `dict_find`. What it compares are the first bytes of the keys, as many as the key
-- sought has, and `detail::strcmp` is true when they are the same.
unfoldable pub find_loop : List (Node KeyValue) → Bytes → ℕ → Option ℕ → Option (Option ℕ)
find_loop arena key rounds none = some none
find_loop arena key zero (some current) = none
find_loop arena key (suc rounds) (some current) = do
  n ← get_elem? arena current
  let rest = find_loop arena key rounds n.next
  if not (is_prefix key n.value.key) then some (some n.value.value) else rest

module _ {F : Type 0} where
  -- an object's value in the arena: a copy of it, or itself
  abbrev pub store : Json F → ℕ → Bool → Option (Json F × ℕ)
  store json value true = some (json, value)
  store json value false = do obj ← get_elem? json.objects value; some (emplace json obj)

  abbrev pub retag : Json F → ℕ → (ℕ → ℕ) → Option (Json F)
  retag json a f = do
    obj ← get_elem? json.objects a
    some (record json { objects = set json.objects a (record obj { tags = f obj.tags }) })

  unfoldable pub array_append : Json F → ℕ → ℕ → Bool → Option (Json F)
  unfolding append
  array_append json array value reference = do
    obj ← get_elem? json.objects array
    p ← array_info_of obj.payload
    info ← get_elem? json.arrays p
    stored ← store json value reference
    chain ← append json.elements info stored.1
    retag (record stored.0 { elements = chain.0; arrays = set json.arrays p chain.1 }) array
        tag_incr_sz

  unfoldable pub array_pop : Json F → ℕ → ℕ → Option (Json F)
  unfolding pop_at
  array_pop json array index = do
    obj ← get_elem? json.objects array
    if ltb index (tag_get_sz obj.tags)
        then (do
          p ← array_info_of obj.payload
          info ← get_elem? json.arrays p
          chain ← pop_at json.elements info index
          retag (record json { elements = chain.0; arrays = set json.arrays p chain.1 }) array
              tag_decr_sz)
        else some json

  unfoldable pub dict_append : Json F → ℕ → Bytes → ℕ → Bool → Option (Json F)
  dict_append json dict key value reference = do
    obj ← get_elem? json.objects dict
    p ← dict_info_of obj.payload
    info ← get_elem? json.dicts p
    stored ← store json value reference
    chain ← append json.members info (record { key = c_str key; value = stored.1 })
    retag (record stored.0 { members = chain.0; dicts = set json.dicts p chain.1 }) dict tag_incr_sz

  unfoldable pub dict_pop : Json F → ℕ → Bytes → Option (Json F)
  dict_pop json dict key = do
    obj ← get_elem? json.objects dict
    p ← dict_info_of obj.payload
    info ← get_elem? json.dicts p
    found ← search json.members (c_str key) (length json.members) none info.head
    elim found [
      | none ↦ some json
      | some place ↦ (do
        chain ← unlink json.members info place.0 place.1
        retag (record json { members = chain.0; dicts = set json.dicts p chain.1 }) dict
            tag_decr_sz)
    ]

  -- the loop `for(auto it = array_items().begin(); it != array_items().end(); ++it)`
  unfoldable pub array_items : Json F → ℕ → Option (List ℕ)
  array_items json array = do
    obj ← get_elem? json.objects array
    if is_array obj
        then (do
          p ← array_info_of obj.payload
          info ← get_elem? json.arrays p
          items json.elements (length json.elements) info.head)
        else some []

  unfoldable pub dict_items : Json F → ℕ → Option (List KeyValue)
  dict_items json dict = do
    obj ← get_elem? json.objects dict
    if is_dict obj
        then (do
          p ← dict_info_of obj.payload
          info ← get_elem? json.dicts p
          items json.members (length json.members) info.head)
        else some []

  -- `some none` is `nullptr`
  unfoldable pub dict_find : Json F → ℕ → Bytes → Option (Option ℕ)
  unfolding find_loop
  dict_find json dict key = do
    obj ← get_elem? json.objects dict
    if is_dict obj
        then (do
          p ← dict_info_of obj.payload
          info ← get_elem? json.dicts p
          find_loop json.members (c_str key) (length json.members) info.head)
        else some none
