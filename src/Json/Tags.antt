-- ===== src/Json/Tags.antt =====
-- src/json.cpp: the word of tags of a `JsonObject`. Its bits 0-7 are the type, bit 8 says that a number
-- was invalid, and the bits 32-63 are a size.
use stdromano.Prelude.{
  ℕ, ◌+◌, ◌-◌, ◌*◌, ◌/◌, ◌%◌, ◌<◌, ◌==◌, ◌≡◌, refl, ap, Bool, if◌then◌else◌, arith,
}

-- `JsonTag`
pub data JsonTag : Type 0 where
  null_tag bool_tag u64_tag i64_tag f64_tag str_tag array_tag dict_tag : JsonTag

abbrev pub bit : JsonTag → ℕ
bit null_tag = 1
bit bool_tag = 2
bit u64_tag = 4
bit i64_tag = 8
bit f64_tag = 16
bit str_tag = 32
bit array_tag = 64
bit dict_tag = 128

abbrev pub size_unit : ℕ
size_unit = 4294967296

abbrev pub word : ℕ
word = 18446744073709551616

unfoldable pub tag_set_type : ℕ → JsonTag → ℕ
tag_set_type tags tag = tags - tags % 256 + bit tag

unfoldable pub tag_set_sz : ℕ → ℕ → ℕ
tag_set_sz tags sz = tags % size_unit + sz % size_unit * size_unit

unfoldable pub tag_get_sz : ℕ → ℕ
tag_get_sz tags = tags / size_unit % size_unit

unfoldable pub tag_incr_sz : ℕ → ℕ
tag_incr_sz tags = (tags + size_unit) % word

unfoldable pub tag_decr_sz : ℕ → ℕ
tag_decr_sz tags = (tags + (word - size_unit)) % word

unfoldable pub tag_get_invalid : ℕ → Bool
tag_get_invalid tags = tags / 256 % 2 == 1

unfoldable pub tag_set_invalid : ℕ → ℕ
tag_set_invalid tags = if tags / 256 % 2 == 1 then tags else tags + 256

unfoldable pub tag_clear_invalid : ℕ → ℕ
tag_clear_invalid tags = tags - tags / 256 % 2 * 256

-- `tags & tag`
unfoldable pub has_tag : ℕ → JsonTag → Bool
has_tag tags tag = tags / bit tag % 2 == 1

abbrev Own : ℕ → JsonTag → Type 0
Own m other = (m / bit other % 2 == 1) ≡ (m == bit other)

bit-Own : (tag other : JsonTag) → Own (bit tag) other
bit-Own null_tag other = elim other as (Own (bit null_tag)) [
  | null_tag ↦ refl
  | bool_tag ↦ refl
  | u64_tag ↦ refl
  | i64_tag ↦ refl
  | f64_tag ↦ refl
  | str_tag ↦ refl
  | array_tag ↦ refl
  | dict_tag ↦ refl
]
bit-Own bool_tag other = elim other as (Own (bit bool_tag)) [
  | null_tag ↦ refl
  | bool_tag ↦ refl
  | u64_tag ↦ refl
  | i64_tag ↦ refl
  | f64_tag ↦ refl
  | str_tag ↦ refl
  | array_tag ↦ refl
  | dict_tag ↦ refl
]
bit-Own u64_tag other = elim other as (Own (bit u64_tag)) [
  | null_tag ↦ refl
  | bool_tag ↦ refl
  | u64_tag ↦ refl
  | i64_tag ↦ refl
  | f64_tag ↦ refl
  | str_tag ↦ refl
  | array_tag ↦ refl
  | dict_tag ↦ refl
]
bit-Own i64_tag other = elim other as (Own (bit i64_tag)) [
  | null_tag ↦ refl
  | bool_tag ↦ refl
  | u64_tag ↦ refl
  | i64_tag ↦ refl
  | f64_tag ↦ refl
  | str_tag ↦ refl
  | array_tag ↦ refl
  | dict_tag ↦ refl
]
bit-Own f64_tag other = elim other as (Own (bit f64_tag)) [
  | null_tag ↦ refl
  | bool_tag ↦ refl
  | u64_tag ↦ refl
  | i64_tag ↦ refl
  | f64_tag ↦ refl
  | str_tag ↦ refl
  | array_tag ↦ refl
  | dict_tag ↦ refl
]
bit-Own str_tag other = elim other as (Own (bit str_tag)) [
  | null_tag ↦ refl
  | bool_tag ↦ refl
  | u64_tag ↦ refl
  | i64_tag ↦ refl
  | f64_tag ↦ refl
  | str_tag ↦ refl
  | array_tag ↦ refl
  | dict_tag ↦ refl
]
bit-Own array_tag other = elim other as (Own (bit array_tag)) [
  | null_tag ↦ refl
  | bool_tag ↦ refl
  | u64_tag ↦ refl
  | i64_tag ↦ refl
  | f64_tag ↦ refl
  | str_tag ↦ refl
  | array_tag ↦ refl
  | dict_tag ↦ refl
]
bit-Own dict_tag other = elim other as (Own (bit dict_tag)) [
  | null_tag ↦ refl
  | bool_tag ↦ refl
  | u64_tag ↦ refl
  | i64_tag ↦ refl
  | f64_tag ↦ refl
  | str_tag ↦ refl
  | array_tag ↦ refl
  | dict_tag ↦ refl
]

bit_small : (tag : JsonTag) → bit tag < 256
bit_small null_tag = omega arith
bit_small bool_tag = omega arith
bit_small u64_tag = omega arith
bit_small i64_tag = omega arith
bit_small f64_tag = omega arith
bit_small str_tag = omega arith
bit_small array_tag = omega arith
bit_small dict_tag = omega arith

low_bits :
    (tags m : ℕ) (other : JsonTag)
    → m < 256
    → ((tags - tags % 256 + m) / bit other % 2) ≡ (m / bit other % 2)
low_bits tags m null_tag h = omega arith
low_bits tags m bool_tag h = omega arith
low_bits tags m u64_tag h = omega arith
low_bits tags m i64_tag h = omega arith
low_bits tags m f64_tag h = omega arith
low_bits tags m str_tag h = omega arith
low_bits tags m array_tag h = omega arith
low_bits tags m dict_tag h = omega arith

pub tag_get_sz-tag_incr_sz :
    (tags : ℕ) → tag_get_sz (tag_incr_sz tags) ≡ (tag_get_sz tags + 1) % size_unit
unfolding tag_get_sz tag_incr_sz
tag_get_sz-tag_incr_sz tags = omega arith

pub tag_get_sz-tag_decr_sz :
    (tags : ℕ) → 0 < tag_get_sz tags → tag_get_sz (tag_decr_sz tags) ≡ tag_get_sz tags - 1
unfolding tag_get_sz tag_decr_sz
tag_get_sz-tag_decr_sz tags h = omega arith

pub tag_get_sz-tag_set_sz : (tags sz : ℕ) → tag_get_sz (tag_set_sz tags sz) ≡ sz % size_unit
unfolding tag_get_sz tag_set_sz
tag_get_sz-tag_set_sz tags sz = omega arith

-- Setting the type of an object leaves that type and no other, the size and the flag of an invalid
-- number.
pub tag_set_type_lem :
    (tags : ℕ) (tag other : JsonTag)
    → (has_tag (tag_set_type tags tag) other ≡ (bit tag == bit other))
      × (tag_get_sz (tag_set_type tags tag) ≡ tag_get_sz tags)
      × (tag_get_invalid (tag_set_type tags tag) ≡ tag_get_invalid tags)
unfolding tag_get_sz tag_set_type has_tag tag_get_invalid
tag_set_type_lem tags tag other =
    let small = bit_small tag in
    (
      rw (low_bits tags (bit tag) other small) (bit-Own tag other),
      omega (arith, small),
      ap (λ n. n == 1) (omega (arith, small)),
    )

pub has_tag-tag_incr_sz :
    (tags : ℕ) (tag : JsonTag) → has_tag (tag_incr_sz tags) tag ≡ has_tag tags tag
unfolding has_tag tag_incr_sz
has_tag-tag_incr_sz tags null_tag = ap (λ n. n == 1) (omega arith)
has_tag-tag_incr_sz tags bool_tag = ap (λ n. n == 1) (omega arith)
has_tag-tag_incr_sz tags u64_tag = ap (λ n. n == 1) (omega arith)
has_tag-tag_incr_sz tags i64_tag = ap (λ n. n == 1) (omega arith)
has_tag-tag_incr_sz tags f64_tag = ap (λ n. n == 1) (omega arith)
has_tag-tag_incr_sz tags str_tag = ap (λ n. n == 1) (omega arith)
has_tag-tag_incr_sz tags array_tag = ap (λ n. n == 1) (omega arith)
has_tag-tag_incr_sz tags dict_tag = ap (λ n. n == 1) (omega arith)

pub has_tag-tag_decr_sz :
    (tags : ℕ) (tag : JsonTag) → has_tag (tag_decr_sz tags) tag ≡ has_tag tags tag
unfolding has_tag tag_decr_sz
has_tag-tag_decr_sz tags null_tag = ap (λ n. n == 1) (omega arith)
has_tag-tag_decr_sz tags bool_tag = ap (λ n. n == 1) (omega arith)
has_tag-tag_decr_sz tags u64_tag = ap (λ n. n == 1) (omega arith)
has_tag-tag_decr_sz tags i64_tag = ap (λ n. n == 1) (omega arith)
has_tag-tag_decr_sz tags f64_tag = ap (λ n. n == 1) (omega arith)
has_tag-tag_decr_sz tags str_tag = ap (λ n. n == 1) (omega arith)
has_tag-tag_decr_sz tags array_tag = ap (λ n. n == 1) (omega arith)
has_tag-tag_decr_sz tags dict_tag = ap (λ n. n == 1) (omega arith)

pub has_tag-tag_set_sz :
    (tags sz : ℕ) (tag : JsonTag) → has_tag (tag_set_sz tags sz) tag ≡ has_tag tags tag
unfolding has_tag tag_set_sz
has_tag-tag_set_sz tags sz null_tag = ap (λ n. n == 1) (omega arith)
has_tag-tag_set_sz tags sz bool_tag = ap (λ n. n == 1) (omega arith)
has_tag-tag_set_sz tags sz u64_tag = ap (λ n. n == 1) (omega arith)
has_tag-tag_set_sz tags sz i64_tag = ap (λ n. n == 1) (omega arith)
has_tag-tag_set_sz tags sz f64_tag = ap (λ n. n == 1) (omega arith)
has_tag-tag_set_sz tags sz str_tag = ap (λ n. n == 1) (omega arith)
has_tag-tag_set_sz tags sz array_tag = ap (λ n. n == 1) (omega arith)
has_tag-tag_set_sz tags sz dict_tag = ap (λ n. n == 1) (omega arith)
