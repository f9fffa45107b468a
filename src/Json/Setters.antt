-- ===== src/Json/Setters.antt =====
-- src/json.cpp: what the getters read of an object after the setters.
use stdromano.Prelude.{
  ℕ, ◌%◌, ◌≡◌, refl, ◌∙◌, ◌==◌, if◌then◌else◌, Bool, false, Option, none, some, length, get_elem?,
  set, get_elem?-set_self, get_elem?-bound,
}
use stdromano.Json.Value.{Bytes, Int64, pos}
use stdromano.Json.Parser.{c_str}
use stdromano.Json.Tags.{
  JsonTag, bit, null_tag, bool_tag, u64_tag, i64_tag, f64_tag, str_tag, array_tag, dict_tag,
  size_unit, has_tag, tag_set_type, tag_get_sz, tag_set_type_lem, tag_get_sz-tag_set_sz,
  has_tag-tag_set_sz,
}
use stdromano.Json.Document.{
  Payload, JsonObject, Json, set_bool, set_u64, set_i64, set_f64, set_null, set_str, modify, typed,
  text_object, flag, unsigned, signed, floating,
}
use stdromano.Json.Getters.{
  flag_of, unsigned_of, signed_of, floating_of, text_of, found_text, get_bool, get_u64, get_i64,
  get_f64, get_str, get_str_size, array_size, dict_size,
}

module _ {F : Type 0} where
  -- the object at an address after an operation on it
  abbrev pub Becomes : Option (Json F) → ℕ → JsonObject F → Type 0
  Becomes result a obj =
      (json : Json F) × (result ≡ some json) × (get_elem? json.objects a ≡ some obj)

  modify-Becomes :
      (json : Json F) (a : ℕ) (obj : JsonObject F) (f : JsonObject F → JsonObject F)
      → get_elem? json.objects a ≡ some obj
      → Becomes (modify json a f) a (f obj)
  modify-Becomes json a obj f found = (
    record json { objects = set json.objects a (f obj) },
    rw found refl,
    get_elem?-set_self json.objects a (f obj) (get_elem?-bound json.objects found),
  )

  -- what all getters read of an object
  pub record Reads (zero : F) (obj : JsonObject F) (b : Bool) (n : ℕ) (z : Int64) (x : F)
      (s : Option Bytes) (sz : ℕ) : Type 0 where
    pub of_bool : get_bool obj ≡ some b
    pub of_u64 : get_u64 obj ≡ some n
    pub of_i64 : get_i64 obj ≡ some z
    pub of_f64 : get_f64 zero obj ≡ some x
    pub of_str : get_str obj ≡ some s
    pub of_str_size : get_str_size obj ≡ sz
    pub of_array_size : array_size obj ≡ 0
    pub of_dict_size : dict_size obj ≡ 0

  abbrev Own : JsonObject F → JsonTag → Type 0
  Own obj tag = (other : JsonTag) → has_tag obj.tags other ≡ (bit tag == bit other)

  reads :
      (zero : F) (obj : JsonObject F) (tag : JsonTag) (b : Bool) (n : ℕ) (z : Int64) (x : F)
      (s : Option Bytes) (sz : ℕ)
      → Own obj tag
      → (if bit tag == 2 then flag_of obj.payload else some false) ≡ some b
      → (if bit tag == 4 then unsigned_of obj.payload else some 0) ≡ some n
      → (if bit tag == 8 then signed_of obj.payload else some (pos 0)) ≡ some z
      → (if bit tag == 16 then floating_of obj.payload else some zero) ≡ some x
      → (if bit tag == 32 then found_text (text_of obj.payload) else some none) ≡ some s
      → (if bit tag == 32 then tag_get_sz obj.tags else 0) ≡ sz
      → ((bit tag == 64) ≡ false)
      → ((bit tag == 128) ≡ false)
      → Reads zero obj b n z x s sz
  reads zero obj tag b n z x s sz own e1 e2 e3 e4 e5 e6 e7 e8 = record {
    of_bool = rw (own bool_tag) e1;
    of_u64 = rw (own u64_tag) e2;
    of_i64 = rw (own i64_tag) e3;
    of_f64 = rw (own f64_tag) e4;
    of_str = rw (own str_tag) e5;
    of_str_size = rw (own str_tag) e6;
    of_array_size = rw (own array_tag, e7) refl;
    of_dict_size = rw (own dict_tag, e8) refl;
  }

  typed-Own : (tags : ℕ) (tag : JsonTag) (payload : Payload F) → Own (typed tags tag payload) tag
  typed-Own tags tag payload other = (tag_set_type_lem tags tag other).0

  text-Own : (old : JsonObject F) (s : Bytes) → Own (text_object {F = F} old.tags s) str_tag
  text-Own old s other =
      has_tag-tag_set_sz (tag_set_type old.tags str_tag) (length (c_str s)) other
      ∙ (tag_set_type_lem old.tags str_tag other).0

  -- an object at an address of which the getters read these values
  abbrev pub Sets : Option (Json F) → ℕ → F → Bool → ℕ → Int64 → F → Option Bytes → ℕ → Type 0
  Sets result a zero b n z x s sz =
      (obj : JsonObject F) × Becomes result a obj × Reads zero obj b n z x s sz

  module _ (zero : F) (json : Json F) (a : ℕ) (obj : JsonObject F)
      (found : get_elem? json.objects a ≡ some obj) where
    -- After each setter, whatever the object was, its own getter reads the value, for a text up to
    -- the first zero byte with the size modulo 2 ^ 32, and the other getters read the value they have
    -- for an object of another type.
    pub setters_lem :
        (b : Bool) (n : ℕ) (z : Int64) (x : F) (s : Bytes)
        → Sets (set_null json a) a zero false 0 (pos 0) zero none 0
          × Sets (set_bool json a b) a zero b 0 (pos 0) zero none 0
          × Sets (set_u64 json a n) a zero false n (pos 0) zero none 0
          × Sets (set_i64 json a z) a zero false 0 z zero none 0
          × Sets (set_f64 json a x) a zero false 0 (pos 0) x none 0
          × Sets
              (set_str json a s)
              a
              zero
              false
              0
              (pos 0)
              zero
              (some (c_str s))
              (length (c_str s) % size_unit)
    unfolding set_null set_bool set_u64 set_i64 set_f64 set_str
    setters_lem b n z x s = (
      (
        typed obj.tags null_tag obj.payload,
        modify-Becomes json a obj (λ obj. typed obj.tags null_tag obj.payload) found,
        reads zero (typed obj.tags null_tag obj.payload) null_tag false 0 (pos 0) zero none 0
            (typed-Own obj.tags null_tag obj.payload) refl refl refl refl refl refl refl refl,
      ),
      (
        typed obj.tags bool_tag (flag b),
        modify-Becomes json a obj (λ obj. typed obj.tags bool_tag (flag b)) found,
        reads zero (typed obj.tags bool_tag (flag b)) bool_tag b 0 (pos 0) zero none 0
            (typed-Own obj.tags bool_tag (flag b)) refl refl refl refl refl refl refl refl,
      ),
      (
        typed obj.tags u64_tag (unsigned n),
        modify-Becomes json a obj (λ obj. typed obj.tags u64_tag (unsigned n)) found,
        reads zero (typed obj.tags u64_tag (unsigned n)) u64_tag false n (pos 0) zero none 0
            (typed-Own obj.tags u64_tag (unsigned n)) refl refl refl refl refl refl refl refl,
      ),
      (
        typed obj.tags i64_tag (signed z),
        modify-Becomes json a obj (λ obj. typed obj.tags i64_tag (signed z)) found,
        reads zero (typed obj.tags i64_tag (signed z)) i64_tag false 0 z zero none 0
            (typed-Own obj.tags i64_tag (signed z)) refl refl refl refl refl refl refl refl,
      ),
      (
        typed obj.tags f64_tag (floating x),
        modify-Becomes json a obj (λ obj. typed obj.tags f64_tag (floating x)) found,
        reads zero (typed obj.tags f64_tag (floating x)) f64_tag false 0 (pos 0) x none 0
            (typed-Own obj.tags f64_tag (floating x)) refl refl refl refl refl refl refl refl,
      ),
      (
        text_object obj.tags s,
        modify-Becomes json a obj (λ obj. text_object obj.tags s) found,
        reads zero (text_object obj.tags s) str_tag false 0 (pos 0) zero (some (c_str s))
            (length (c_str s) % size_unit) (text-Own obj s) refl refl refl refl refl
            (tag_get_sz-tag_set_sz (tag_set_type obj.tags str_tag) (length (c_str s))) refl refl,
      ),
    )
