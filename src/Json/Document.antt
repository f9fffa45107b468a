-- ===== src/Json/Document.antt =====
-- src/json.cpp and include/stdromano/json.hpp: the objects of a document in the memory that `Json`
-- keeps, and the operations on them. The address of an object is its index; objects, the ends of the
-- lists, and their elements lie in arenas of their own, and none is ever freed. `Arena` is not
-- modelled: an allocation is taken to have room. It has none for a text longer than the block that
-- `Arena::grow` gives, whose size does not depend on the request, and the text then ends behind it.
use stdromano.Prelude.{
  ℕ, Bool, false, List, [], ◌∷◌, ◌++◌, Option, none, some, ◌>>=◌, length, get_elem?, set,
}
use stdromano.Json.Value.{Bytes, Int64}
use stdromano.Json.Parser.{c_str}
use stdromano.Json.Tags.{
  JsonTag, null_tag, bool_tag, u64_tag, i64_tag, f64_tag, str_tag, array_tag, dict_tag,
  tag_set_type, tag_set_sz,
}
use stdromano.Json.Chain.{Node, Info, empty_info}

-- the union `_value`; a text is what its pointer leads to, without the zero at the end
pub data Payload (F : Type 0) : Type 0 where
  flag : Bool → Payload F
  unsigned : ℕ → Payload F
  signed : Int64 → Payload F
  floating : F → Payload F
  text : Bytes → Payload F
  array_info dict_info : ℕ → Payload F

pub record JsonObject (F : Type 0) : Type 0 where
  pub tags : ℕ
  pub payload : Payload F

-- `JsonKeyValue`
pub record KeyValue : Type 0 where
  pub key : Bytes
  pub value : ℕ

pub record Json (F : Type 0) : Type 0 where
  pub root : Option ℕ
  pub objects : List (JsonObject F)
  pub arrays : List Info
  pub elements : List (Node ℕ)
  pub dicts : List Info
  pub members : List (Node KeyValue)

module _ {F : Type 0} where
  abbrev pub empty_json : Json F
  empty_json = record {
    root = none;
    objects = [];
    arrays = [];
    elements = [];
    dicts = [];
    members = [];
  }

  unfoldable pub set_root : Json F → Option ℕ → Json F
  set_root json root = record json { root = root }

  -- an object that the arena makes, with the address it has
  abbrev pub emplace : Json F → JsonObject F → Json F × ℕ
  emplace json obj = (record json { objects = json.objects ++ (obj ∷ []) }, length json.objects)

  abbrev pub typed : ℕ → JsonTag → Payload F → JsonObject F
  typed tags tag payload = record { tags = tag_set_type tags tag; payload = payload }

  unfoldable pub make_null : Json F → Json F × ℕ
  make_null json = emplace json (typed 0 null_tag (flag false))

  unfoldable pub make_bool : Json F → Bool → Json F × ℕ
  make_bool json b = emplace json (typed 0 bool_tag (flag b))

  unfoldable pub make_u64 : Json F → ℕ → Json F × ℕ
  make_u64 json n = emplace json (typed 0 u64_tag (unsigned n))

  unfoldable pub make_i64 : Json F → Int64 → Json F × ℕ
  make_i64 json z = emplace json (typed 0 i64_tag (signed z))

  unfoldable pub make_f64 : Json F → F → Json F × ℕ
  make_f64 json x = emplace json (typed 0 f64_tag (floating x))

  abbrev pub text_object : ℕ → Bytes → JsonObject F
  text_object tags s = record {
    tags = tag_set_sz (tag_set_type tags str_tag) (length (c_str s));
    payload = text (c_str s);
  }

  unfoldable pub make_str : Json F → Bytes → Json F × ℕ
  make_str json s = emplace json (text_object 0 s)

  unfoldable pub make_array : Json F → Json F × ℕ
  make_array json =
      emplace (record json { arrays = json.arrays ++ (empty_info ∷ []) })
        (typed 0 array_tag (array_info (length json.arrays)))

  unfoldable pub make_dict : Json F → Json F × ℕ
  make_dict json =
      emplace (record json { dicts = json.dicts ++ (empty_info ∷ []) })
        (typed 0 dict_tag (dict_info (length json.dicts)))

  -- The operations on an object at an address. The result `none` is the use of an address where no
  -- object is, or of a member of the union other than the one last written.
  abbrev pub modify : Json F → ℕ → (JsonObject F → JsonObject F) → Option (Json F)
  modify json a f = do
    obj ← get_elem? json.objects a
    some (record json { objects = set json.objects a (f obj) })

  unfoldable pub set_null : Json F → ℕ → Option (Json F)
  set_null json a = modify json a (λ obj. typed obj.tags null_tag obj.payload)

  unfoldable pub set_bool : Json F → ℕ → Bool → Option (Json F)
  set_bool json a b = modify json a (λ obj. typed obj.tags bool_tag (flag b))

  unfoldable pub set_u64 : Json F → ℕ → ℕ → Option (Json F)
  set_u64 json a n = modify json a (λ obj. typed obj.tags u64_tag (unsigned n))

  unfoldable pub set_i64 : Json F → ℕ → Int64 → Option (Json F)
  set_i64 json a z = modify json a (λ obj. typed obj.tags i64_tag (signed z))

  unfoldable pub set_f64 : Json F → ℕ → F → Option (Json F)
  set_f64 json a x = modify json a (λ obj. typed obj.tags f64_tag (floating x))

  unfoldable pub set_str : Json F → ℕ → Bytes → Option (Json F)
  set_str json a s = modify json a (λ obj. text_object obj.tags s)
