-- ===== src/Json/Tests.antt =====
-- Runs of src/json.cpp at concrete documents.
use stdromano.Prelude.{
  ℕ, suc, ◌+◌, ◌*◌, ◌≡◌, ◌≢◌, refl, true, false, List, [], ◌∷◌, ◌++◌, none, some, replicate,
  get_elem?, arith,
}
use stdromano.Json.Value.{
  Bytes, Int64, pos, negsuc, Value, bool, i64, str, array, dict, no_items, item, no_members, member,
  Floats, Format,
}
use stdromano.Json.Parser.{c_str, parse_string, parse_number, loads, ok, out_of_fuel, undefined}
use stdromano.Json.Writer.{write_str, dumps}
use stdromano.Json.Strings.{parse_string-write_str}
use stdromano.Json.Numbers.{decimal, parse_number-e23}
use stdromano.Json.Printable.{IsFormat}
use stdromano.Json.RoundTrip.{loads-dumps}
use stdromano.Json.Ends.{loads-total}
use stdromano.Json.Tags.{tag_get_sz, has_tag, size_unit}
use stdromano.Json.Chain.Listed.{more, last}
use stdromano.Json.Document.{
  unsigned, array_info, dict_info, set_null, set_bool, set_u64, set_i64, set_f64, Json, KeyValue,
  set_str,
}
use stdromano.Json.Containers.{array_append, dict_append, dict_pop, dict_find}
use stdromano.Json.Containers.ArrayProofs.{IsArray, array_append-IsArray}
use stdromano.Json.Containers.DictProofs.{IsDict, entry, dict_append-IsDict}
use stdromano.Json.Containers.Find.{dict_pop-IsDict, dict_find-IsDict, remove_key}
use stdromano.Json.Setters.{setters_lem, Sets}

-- floating point that rounds everything to whole numbers, and never divides
abbrev floats : Floats ℕ
floats = record {
  add = λ x y. x + y;
  mul = λ x y. x * y;
  div = λ x y. x;
  neg = λ x. x;
  of_nat = λ n. n;
  pow10 = λ negative n. 1;
}

abbrev int_text : Int64 → Bytes
int_text (pos n) = decimal n
int_text (negsuc n) = b'-' ∷ decimal (suc n)

abbrev format : Format ℕ
format = record { of_u64 = decimal; of_i64 = int_text; of_f64 = decimal; pad = λ n. replicate n 32 }

format-IsFormat : IsFormat format
format-IsFormat = record { of_u64 = λ n h. refl; of_i64 = λ n h. refl; pad = λ n. refl }

-- a list with a negative number, a truth value and a dict in it
abbrev sample : Value ℕ
sample = array (
    item (i64 (negsuc 6)) (
      item (bool true)
        (item (dict (member (b'k' ∷ []) (str (b'a' ∷ b'"' ∷ [])) no_members)) no_items)))

loads-dumps_example : loads floats (dumps format 2 sample) ≡ ok sample []
loads-dumps_example =
    loads-dumps floats format format-IsFormat 2 sample
      (omega arith, (tt, (((refl, tt), ((refl, (refl, tt)), tt)), tt)))

loads-total_example : loads floats (b'[' ∷ b'1' ∷ b',' ∷ []) ≢ out_of_fuel
loads-total_example = loads-total floats (b'[' ∷ b'1' ∷ b',' ∷ [])

parse_string-write_str_example :
    parse_string (write_str (b'a' ∷ 10 ∷ []) ++ (b',' ∷ [])) ≡ ok (b'a' ∷ 10 ∷ []) (b',' ∷ [])
parse_string-write_str_example =
    parse_string-write_str (b'a' ∷ 10 ∷ []) (b',' ∷ []) (refl, (refl, tt))

parse_number-e23_example :
    parse_number floats (decimal 1 ++ (b'e' ∷ b'-' ∷ b'2' ∷ b'3' ∷ [])) ≡ undefined
parse_number-e23_example = parse_number-e23 floats 1 [] (omega arith) tt

-- an array of two numbers and a dict of two members, at the addresses 2 and 3
abbrev pair : Json ℕ
pair = record {
  root = some 2;
  objects =
      record { tags = 4; payload = unsigned 5 }
      ∷ record { tags = 4; payload = unsigned 6 }
      ∷ record { tags = 2 * size_unit + 64; payload = array_info 0 }
      ∷ record { tags = 2 * size_unit + 128; payload = dict_info 0 }
      ∷ [];
  arrays = record { head = some 0; tail = some 1 } ∷ [];
  elements = record { value = 0; next = some 1 } ∷ record { value = 1; next = none } ∷ [];
  dicts = record { head = some 0; tail = some 1 } ∷ [];
  members =
      record { value = record { key = b'a' ∷ b'b' ∷ []; value = 0 }; next = some 1 }
      ∷ record { value = record { key = b'c' ∷ []; value = 1 }; next = none }
      ∷ [];
}

abbrev both : List KeyValue
both = record { key = b'a' ∷ b'b' ∷ []; value = 0 } ∷ record { key = b'c' ∷ []; value = 1 } ∷ []

pair-IsArray : IsArray pair 2 (0 ∷ 1 ∷ [])
unfolding has_tag tag_get_sz
pair-IsArray = record {
  tags = 2 * size_unit + 64;
  place = 0;
  info = record { head = some 0; tail = some 1 };
  found = refl;
  tagged = refl;
  ends = refl;
  held = (0, 1, refl, refl, more (omega arith) refl (last (omega arith) refl));
  size = refl;
}

pair-IsDict : IsDict pair 3 both
unfolding has_tag tag_get_sz
pair-IsDict = record {
  tags = 2 * size_unit + 128;
  place = 0;
  info = record { head = some 0; tail = some 1 };
  found = refl;
  tagged = refl;
  ends = refl;
  held = (0, 1, refl, refl, more (omega arith) refl (last (omega arith) refl));
  size = refl;
}

-- a copy of the first number becomes the last element
array_append-IsArray_example :
    (json : Json ℕ) × (array_append pair 2 0 false ≡ some json)
    × IsArray json 2 (0 ∷ 1 ∷ 4 ∷ [])
    × (get_elem? json.objects 4 ≡ some (record { tags = 4; payload = unsigned 5 }))
array_append-IsArray_example =
    array_append-IsArray pair 2 (0 ∷ 1 ∷ []) 0 (record { tags = 4; payload = unsigned 5 }) false
      pair-IsArray (omega arith) refl (λ q. omega (arith, q))

dict_append-IsDict_example :
    (json : Json ℕ) × (dict_append pair 3 (b'd' ∷ []) 0 true ≡ some json)
    × IsDict json 3 (both ++ (entry (b'd' ∷ []) 0 ∷ []))
    × (get_elem? json.objects 0 ≡ some (record { tags = 4; payload = unsigned 5 }))
dict_append-IsDict_example =
    dict_append-IsDict pair 3 both (b'd' ∷ []) 0 (record { tags = 4; payload = unsigned 5 }) true
      pair-IsDict (omega arith) refl (λ q. omega (arith, q))

dict_pop-IsDict_example :
    (json : Json ℕ) × (dict_pop pair 3 (b'c' ∷ []) ≡ some json)
    × IsDict json 3 (remove_key (c_str (b'c' ∷ [])) both)
dict_pop-IsDict_example = dict_pop-IsDict pair 3 both (b'c' ∷ []) pair-IsDict

-- the object of `c` for the key `ab`
dict_find-IsDict_example : dict_find pair 3 (b'a' ∷ b'b' ∷ []) ≡ some (some 1)
unfolding c_str
dict_find-IsDict_example = dict_find-IsDict pair 3 both (b'a' ∷ b'b' ∷ []) pair-IsDict

setters_lem_example :
    Sets (set_null pair 0) 0 9 false 0 (pos 0) 9 none 0
    × Sets (set_bool pair 0 true) 0 9 true 0 (pos 0) 9 none 0
    × Sets (set_u64 pair 0 7) 0 9 false 7 (pos 0) 9 none 0
    × Sets (set_i64 pair 0 (negsuc 1)) 0 9 false 0 (negsuc 1) 9 none 0
    × Sets (set_f64 pair 0 3) 0 9 false 0 (pos 0) 3 none 0
    × Sets (set_str pair 0 (b'x' ∷ [])) 0 9 false 0 (pos 0) 9 (some (b'x' ∷ [])) 1
unfolding c_str
setters_lem_example =
    setters_lem 9 pair 0 (record { tags = 4; payload = unsigned 5 }) refl true 7 (negsuc 1) 3
      (b'x' ∷ [])
