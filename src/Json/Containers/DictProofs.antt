-- ===== src/Json/Containers/DictProofs.antt =====
-- src/json.cpp: the dicts of a document are lists of keys with objects.
use stdromano.Prelude.{
  ℕ, ◌+◌, ◌<◌, ◌≡◌, ◌≢◌, refl, sym, ◌∙◌, Bool, true, false, List, [], ◌∷◌, ◌++◌, some, length,
  get_elem?, set, arith, get_elem?-set_self, get_elem?-set_ne, get_elem?-bound, get_elem?-append,
  get_elem?-append_length, length-append,
}
use stdromano.Json.Value.{Bytes}
use stdromano.Json.Parser.{c_str}
use stdromano.Json.Tags.{
  dict_tag, tag_get_sz, tag_incr_sz, size_unit, has_tag, tag_get_sz-tag_incr_sz,
  has_tag-tag_incr_sz,
}
use stdromano.Json.Chain.{Node, Info}
use stdromano.Json.Chain.Listed.{Holds}
use stdromano.Json.Chain.Append.{append-Holds}
use stdromano.Json.Document.{dict_info, JsonObject, KeyValue, Json}
use stdromano.Json.Containers.{dict_append}
use stdromano.Json.Containers.ArrayProofs.{stored_at, Stored}

-- what `dict_append` puts into the list
abbrev pub entry : Bytes → ℕ → KeyValue
entry key value = record { key = c_str key; value = value }

module _ {F : Type 0} where
  abbrev pub dict_object : ℕ → ℕ → JsonObject F
  dict_object tags place = record { tags = tags; payload = dict_info place }

  -- The object at an address is a dict of these keys with objects.
  pub record IsDict (json : Json F) (a : ℕ) (xs : List KeyValue) : Type 0 where
    pub tags : ℕ
    pub place : ℕ
    pub info : Info
    pub found : get_elem? json.objects a ≡ some (dict_object tags place)
    pub tagged : has_tag tags dict_tag ≡ true
    pub ends : get_elem? json.dicts place ≡ some info
    pub held : Holds json.members info xs
    pub size : tag_get_sz tags ≡ length xs

  -- the document after a dict got another size and other elements
  abbrev pub changed :
      (json : Json F) {a : ℕ} {xs : List KeyValue}
      → IsDict json a xs
      → List (JsonObject F)
      → List (Node KeyValue)
      → Info
      → ℕ
      → Json F
  changed json {a = a} before objects members info tags = record json {
    objects = set objects a (dict_object tags before.place);
    members = members;
    dicts = set json.dicts before.place info;
  }

  pub changed-IsDict :
      {json : Json F} {a : ℕ} {xs : List KeyValue} (before : IsDict json a xs)
      (objects : List (JsonObject F)) (members : List (Node KeyValue)) (info : Info) (tags : ℕ)
      (ys : List KeyValue)
      → get_elem? objects a ≡ some (dict_object before.tags before.place)
      → Holds members info ys
      → has_tag tags dict_tag ≡ true
      → tag_get_sz tags ≡ length ys
      → IsDict (changed json before objects members info tags) a ys
  changed-IsDict {json = json} {a = a} before objects members info tags ys found held tagged size =
      record {
        tags = tags;
        place = before.place;
        info = info;
        found =
            get_elem?-set_self objects a (dict_object tags before.place)
              (get_elem?-bound objects found);
        tagged = tagged;
        ends =
            get_elem?-set_self json.dicts before.place info
              (get_elem?-bound json.dicts before.ends);
        held = held;
        size = size;
      }

  incr-IsDict :
      {json : Json F} {a : ℕ} {xs : List KeyValue} (before : IsDict json a xs)
      (objects : List (JsonObject F)) (members : List (Node KeyValue)) (info : Info) (x : KeyValue)
      → length xs + 1 < size_unit
      → get_elem? objects a ≡ some (dict_object before.tags before.place)
      → Holds members info (xs ++ (x ∷ []))
      → IsDict
          (changed json before objects members info (tag_incr_sz before.tags))
          a
          (xs ++ (x ∷ []))
  incr-IsDict {xs = xs} before objects members info x small found held =
      changed-IsDict before objects members info (tag_incr_sz before.tags) (xs ++ (x ∷ [])) found
        held (has_tag-tag_incr_sz before.tags dict_tag ∙ before.tagged)
        (omega (
          arith,
          tag_get_sz-tag_incr_sz before.tags,
          before.size,
          length-append xs (x ∷ []),
          small,
        ))

  -- Appending an object with a key to a dict of fewer than 2 ^ 32 - 1 members appends to the list
  -- the text of the key and the address of the object, or of a copy of it, and another object than
  -- the dict itself is found there as it was.
  pub dict_append-IsDict :
      (json : Json F) (a : ℕ) (xs : List KeyValue) (key : Bytes) (value : ℕ) (object : JsonObject F)
      (reference : Bool)
      → IsDict json a xs
      → length xs + 1 < size_unit
      → get_elem? json.objects value ≡ some object
      → value ≢ a
      → (json' : Json F) × (dict_append json a key value reference ≡ some json')
        × IsDict json' a (xs ++ (entry key (stored_at json value reference) ∷ []))
        × Stored json value reference json'
  unfolding dict_append
  dict_append-IsDict json a xs key value object true before small known other =
      let chain = append-Holds json.members before.info xs (entry key value) before.held in
      (
        changed json before json.objects chain.0 chain.1 (tag_incr_sz before.tags),
        rw (before.found, before.ends, chain.2) refl,
        incr-IsDict before json.objects chain.0 chain.1 (entry key value) small before.found
            chain.3,
        get_elem?-set_ne json.objects _ (λ q. other (sym q)),
      )
  dict_append-IsDict json a xs key value object false before small known other =
      let new = entry key (length json.objects) in
      let chain = append-Holds json.members before.info xs new before.held in
      let found = get_elem?-append json.objects (object ∷ []) a before.found in
      let objects = json.objects ++ (object ∷ []) in
      (
        changed json before objects chain.0 chain.1 (tag_incr_sz before.tags),
        rw (before.found, before.ends, known, chain.2, found) refl,
        incr-IsDict before objects chain.0 chain.1 new small found chain.3,
        get_elem?-set_ne objects _
              (λ q. omega (arith, q, get_elem?-bound json.objects before.found))
            ∙ get_elem?-append_length json.objects object
            ∙ sym known,
      )
