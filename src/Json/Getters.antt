-- ===== src/Json/Getters.antt =====
-- src/json.cpp: what the members of `JsonObject` read of an object.
use stdromano.Prelude.{ℕ, Bool, false, if◌then◌else◌, Option, none, some}
use stdromano.Json.Value.{Bytes, Int64, pos}
use stdromano.Json.Tags.{
  null_tag, bool_tag, u64_tag, i64_tag, f64_tag, str_tag, array_tag, dict_tag, tag_get_sz, has_tag,
}
use stdromano.Json.Document.{
  Payload, flag, unsigned, signed, floating, text, array_info, dict_info, JsonObject,
}

abbrev pub found_text : Option Bytes → Option (Option Bytes)
found_text none = none
found_text (some s) = some (some s)

-- The members of the union. The result `none` is that another one was last written.
module _ {F : Type 0} where
  abbrev pub flag_of : Payload F → Option Bool
  flag_of (flag b) = some b
  flag_of _ = none

  abbrev pub unsigned_of : Payload F → Option ℕ
  unsigned_of (unsigned n) = some n
  unsigned_of _ = none

  abbrev pub signed_of : Payload F → Option Int64
  signed_of (signed z) = some z
  signed_of _ = none

  abbrev pub floating_of : Payload F → Option F
  floating_of (floating x) = some x
  floating_of _ = none

  abbrev pub text_of : Payload F → Option Bytes
  text_of (text s) = some s
  text_of _ = none

  abbrev pub array_info_of : Payload F → Option ℕ
  array_info_of (array_info p) = some p
  array_info_of _ = none

  abbrev pub dict_info_of : Payload F → Option ℕ
  dict_info_of (dict_info p) = some p
  dict_info_of _ = none

  abbrev pub is_null : JsonObject F → Bool
  is_null obj = has_tag obj.tags null_tag

  abbrev pub is_bool : JsonObject F → Bool
  is_bool obj = has_tag obj.tags bool_tag

  abbrev pub is_u64 : JsonObject F → Bool
  is_u64 obj = has_tag obj.tags u64_tag

  abbrev pub is_i64 : JsonObject F → Bool
  is_i64 obj = has_tag obj.tags i64_tag

  abbrev pub is_f64 : JsonObject F → Bool
  is_f64 obj = has_tag obj.tags f64_tag

  abbrev pub is_str : JsonObject F → Bool
  is_str obj = has_tag obj.tags str_tag

  abbrev pub is_array : JsonObject F → Bool
  is_array obj = has_tag obj.tags array_tag

  abbrev pub is_dict : JsonObject F → Bool
  is_dict obj = has_tag obj.tags dict_tag

  abbrev pub get_bool : JsonObject F → Option Bool
  get_bool obj = if is_bool obj then flag_of obj.payload else some false

  abbrev pub get_u64 : JsonObject F → Option ℕ
  get_u64 obj = if is_u64 obj then unsigned_of obj.payload else some 0

  abbrev pub get_i64 : JsonObject F → Option Int64
  get_i64 obj = if is_i64 obj then signed_of obj.payload else some (pos 0)

  -- `zero` is the `double` of the integer 0
  abbrev pub get_f64 : F → JsonObject F → Option F
  get_f64 zero obj = if is_f64 obj then floating_of obj.payload else some zero

  -- `some none` is `nullptr`
  abbrev pub get_str : JsonObject F → Option (Option Bytes)
  get_str obj = if is_str obj then found_text (text_of obj.payload) else some none

  abbrev pub get_str_size : JsonObject F → ℕ
  get_str_size obj = if is_str obj then tag_get_sz obj.tags else 0

  abbrev pub array_size : JsonObject F → ℕ
  array_size obj = if is_array obj then tag_get_sz obj.tags else 0

  abbrev pub dict_size : JsonObject F → ℕ
  dict_size obj = if is_dict obj then tag_get_sz obj.tags else 0
