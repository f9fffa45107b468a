-- ===== src/Json/Containers/ArrayProofs.antt =====
-- src/json.cpp: the arrays of a document are lists of objects.
use stdromano.Prelude.{
  ℕ, zero, suc, ◌+◌, ◌<◌, ◌≡◌, ◌≢◌, refl, sym, ap, ◌∙◌, Bool, true, false, ltb, if◌then◌else◌, List,
  [], ◌∷◌, ◌++◌, some, length, get_elem?, set, remove_at, length-remove_at, Bool-cases, inl, inr,
  arith, get_elem?-set_self, get_elem?-set_ne, get_elem?-bound, get_elem?-append,
  get_elem?-append_length, length-append,
}
use stdromano.Json.Tags.{
  array_tag, tag_get_sz, tag_incr_sz, tag_decr_sz, size_unit, has_tag, tag_get_sz-tag_incr_sz,
  tag_get_sz-tag_decr_sz, has_tag-tag_incr_sz, has_tag-tag_decr_sz,
}
use stdromano.Json.Chain.{Node, Info}
use stdromano.Json.Chain.Listed.{Holds}
use stdromano.Json.Chain.Append.{append-Holds}
use stdromano.Json.Chain.Pop.{pop_at-Holds}
use stdromano.Json.Document.{array_info, JsonObject, Json}
use stdromano.Json.Containers.{array_append, array_pop}

remove_at-outside : (k : ℕ) (xs : List ℕ) → (k < length xs → ⊥) → remove_at k xs ≡ xs
remove_at-outside k [] h = refl
remove_at-outside zero (x ∷ xs) h = absurd (h (omega arith))
remove_at-outside (suc k) (x ∷ xs) h =
    ap (λ ys. x ∷ ys) (remove_at-outside k xs (λ q. h (omega (arith, q))))

module _ {F : Type 0} where
  abbrev pub array_object : ℕ → ℕ → JsonObject F
  array_object tags place = record { tags = tags; payload = array_info place }

  -- The object at an address is an array of the objects at these addresses.
  pub record IsArray (json : Json F) (a : ℕ) (xs : List ℕ) : Type 0 where
    pub tags : ℕ
    pub place : ℕ
    pub info : Info
    pub found : get_elem? json.objects a ≡ some (array_object tags place)
    pub tagged : has_tag tags array_tag ≡ true
    pub ends : get_elem? json.arrays place ≡ some info
    pub held : Holds json.elements info xs
    pub size : tag_get_sz tags ≡ length xs

  -- where `array_append` leaves the value
  abbrev pub stored_at : Json F → ℕ → Bool → ℕ
  stored_at json value reference = if reference then value else length json.objects

  abbrev pub Stored : Json F → ℕ → Bool → Json F → Type 0
  Stored json value reference json' =
      get_elem? json'.objects (stored_at json value reference) ≡ get_elem? json.objects value

  -- the document after an array got another size and other elements
  abbrev changed :
      (json : Json F) {a : ℕ} {xs : List ℕ}
      → IsArray json a xs
      → List (JsonObject F)
      → List (Node ℕ)
      → Info
      → ℕ
      → Json F
  changed json {a = a} before objects elements info tags = record json {
    objects = set objects a (array_object tags before.place);
    elements = elements;
    arrays = set json.arrays before.place info;
  }

  changed-IsArray :
      {json : Json F} {a : ℕ} {xs : List ℕ} (before : IsArray json a xs)
      (objects : List (JsonObject F)) (elements : List (Node ℕ)) (info : Info) (tags : ℕ)
      (ys : List ℕ)
      → get_elem? objects a ≡ some (array_object before.tags before.place)
      → Holds elements info ys
      → has_tag tags array_tag ≡ true
      → tag_get_sz tags ≡ length ys
      → IsArray (changed json before objects elements info tags) a ys
  changed-IsArray {json = json} {a = a} before objects elements info tags ys found held tagged
        size =
      record {
        tags = tags;
        place = before.place;
        info = info;
        found =
            get_elem?-set_self objects a (array_object tags before.place)
              (get_elem?-bound objects found);
        tagged = tagged;
        ends =
            get_elem?-set_self json.arrays before.place info
              (get_elem?-bound json.arrays before.ends);
        held = held;
        size = size;
      }

  incr-IsArray :
      {json : Json F} {a : ℕ} {xs : List ℕ} (before : IsArray json a xs)
      (objects : List (JsonObject F)) (elements : List (Node ℕ)) (info : Info) (x : ℕ)
      → length xs + 1 < size_unit
      → get_elem? objects a ≡ some (array_object before.tags before.place)
      → Holds elements info (xs ++ (x ∷ []))
      → IsArray
          (changed json before objects elements info (tag_incr_sz before.tags))
          a
          (xs ++ (x ∷ []))
  incr-IsArray {xs = xs} before objects elements info x small found held =
      changed-IsArray before objects elements info (tag_incr_sz before.tags) (xs ++ (x ∷ [])) found
        held (has_tag-tag_incr_sz before.tags array_tag ∙ before.tagged)
        (omega (
          arith,
          tag_get_sz-tag_incr_sz before.tags,
          before.size,
          length-append xs (x ∷ []),
          small,
        ))

  -- Appending an object to an array of fewer than 2 ^ 32 - 1 objects appends to the list the
  -- address of the object, or of a copy of it, and another object than the array itself is found
  -- there as it was.
  pub array_append-IsArray :
      (json : Json F) (a : ℕ) (xs : List ℕ) (value : ℕ) (object : JsonObject F) (reference : Bool)
      → IsArray json a xs
      → length xs + 1 < size_unit
      → get_elem? json.objects value ≡ some object
      → value ≢ a
      → (json' : Json F) × (array_append json a value reference ≡ some json')
        × IsArray json' a (xs ++ (stored_at json value reference ∷ []))
        × Stored json value reference json'
  unfolding array_append
  array_append-IsArray json a xs value object true before small known other =
      let chain = append-Holds json.elements before.info xs value before.held in
      (
        changed json before json.objects chain.0 chain.1 (tag_incr_sz before.tags),
        rw (before.found, before.ends, chain.2) refl,
        incr-IsArray before json.objects chain.0 chain.1 value small before.found chain.3,
        get_elem?-set_ne json.objects _ (λ q. other (sym q)),
      )
  array_append-IsArray json a xs value object false before small known other =
      let chain = append-Holds json.elements before.info xs (length json.objects) before.held in
      let found = get_elem?-append json.objects (object ∷ []) a before.found in
      let objects = json.objects ++ (object ∷ []) in
      (
        changed json before objects chain.0 chain.1 (tag_incr_sz before.tags),
        rw (before.found, before.ends, known, chain.2, found) refl,
        incr-IsArray before objects chain.0 chain.1 (length json.objects) small found chain.3,
        get_elem?-set_ne objects _
              (λ q. omega (arith, q, get_elem?-bound json.objects before.found))
            ∙ get_elem?-append_length json.objects object
            ∙ sym known,
      )

  -- Popping an index of an array removes the element at that index, and changes nothing when the
  -- array has no element there.
  pub array_pop-IsArray :
      (json : Json F) (a : ℕ) (xs : List ℕ) (index : ℕ)
      → IsArray json a xs
      → (json' : Json F) × (array_pop json a index ≡ some json')
        × IsArray json' a (remove_at index xs)
  unfolding array_pop
  array_pop-IsArray json a xs index before = elim (Bool-cases (ltb index (length xs))) [
    | inl e ↦
        let small : index < length xs = ground (arith, e) in
        let chain = pop_at-Holds json.elements before.info index xs before.held small in
        (
          changed json before json.objects chain.0 chain.1 (tag_decr_sz before.tags),
          rw (before.found, before.size, e, before.ends, chain.2) refl,
          changed-IsArray before json.objects chain.0 chain.1 (tag_decr_sz before.tags)
              (remove_at index xs) before.found chain.3
              (has_tag-tag_decr_sz before.tags array_tag ∙ before.tagged)
              (omega (
                arith,
                tag_get_sz-tag_decr_sz before.tags,
                before.size,
                length-remove_at index xs,
                small,
              )),
        )
    | inr e ↦ (
      json,
      rw (before.found, before.size, e) refl,
      rw (remove_at-outside index xs (λ q. ground (arith, q, e))) before,
    )
  ]
