-- ===== src/Json/Value.antt =====
-- src/json.cpp: the values that a `JsonObject` stands for, and what the code takes of floating point
-- and of the formatting library.
use stdromano.Prelude.{ℕ, Bool, List}

abbrev pub Bytes : Type 0
Bytes = List ℕ

-- `std::int64_t`; `negsuc n` is - (n + 1)
pub data Int64 : Type 0 where
  pos negsuc : ℕ → Int64

-- the type that the tags of an object give it, with its value
mutual
  pub data Value (F : Type 0) : Type 0 where
    null : Value F
    bool : Bool → Value F
    u64 : ℕ → Value F
    i64 : Int64 → Value F
    f64 : F → Value F
    str : Bytes → Value F
    array : Items F → Value F
    dict : Members F → Value F

  pub data Items (F : Type 0) : Type 0 where
    no_items : Items F
    item : Value F → Items F → Items F

  pub data Members (F : Type 0) : Type 0 where
    no_members : Members F
    member : Bytes → Value F → Members F → Members F

-- `double`: its operations, the value of an integer, and `std::pow(10.0, n)`, where `true` is the
-- sign of a negative exponent
pub record Floats (F : Type 0) : Type 0 where
  pub add : F → F → F
  pub mul : F → F → F
  pub div : F → F → F
  pub neg : F → F
  pub of_nat : ℕ → F
  pub pow10 : Bool → ℕ → F

-- the texts that `appendf` appends: `{}` for integers, `{:.3f}`, and `{:{}}` of an empty text
pub record Format (F : Type 0) : Type 0 where
  pub of_u64 : ℕ → Bytes
  pub of_i64 : Int64 → Bytes
  pub of_f64 : F → Bytes
  pub pad : ℕ → Bytes
