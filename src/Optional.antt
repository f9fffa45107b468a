-- ===== src/Optional.antt =====
-- include/stdromano/optional.hpp: the storage of an `Optional` and its operations. The storage is
-- `none` where no value lives. The result `none` is a use of a value that does not live.
mod Tests
use stdromano.Prelude.{◌≡◌, refl, ap, Bool, true, false, if◌then◌else◌, Option, none, some}

pub record Optional (T : Type 0) : Type 0 where
  pub data_ : Option T
  pub has_value : Bool

-- `value()` returns or throws
pub data Value (T : Type 0) : Type 0 where
  returned : T → Value T
  thrown : Value T

module _ {T : Type 0} where
  abbrev pub empty : Optional T
  empty = record { data_ = none; has_value = false }

  abbrev pub construct : Optional T → T → Optional T
  construct o x = record { data_ = some x; has_value = true }

  unfoldable pub reset : Optional T → Optional T
  reset o = if o.has_value then record { data_ = none; has_value = false } else o

  -- `Optional(const T&)`
  unfoldable pub of_value : T → Optional T
  of_value x = construct empty x

  -- `operator=(const T&)`, of a value that lives elsewhere, and `emplace`
  unfoldable pub assign : Optional T → T → Optional T
  unfolding reset
  assign o x = construct (reset o) x

  -- `operator*`
  unfoldable pub deref : Optional T → Option T
  deref o = o.data_

  unfoldable pub value : Optional T → Option (Value T)
  unfolding deref
  value o =
      if o.has_value
      then elim (deref o) [ none ↦ none | some x ↦ some (returned x) ]
      else some thrown

  -- `construct` from what the other one holds
  abbrev construct_from : Optional T → Optional T → Option (Optional T)
  construct_from o other = elim other.data_ [ none ↦ none | some x ↦ some (construct o x) ]

  -- `Optional(const Optional&)`
  unfoldable pub copy : Optional T → Option (Optional T)
  copy other = if other.has_value then construct_from empty other else some empty

  -- `Optional(Optional&&)`: the new one, and the other one behind it
  unfoldable pub move : Optional T → Option (Optional T × Optional T)
  unfolding reset
  move other =
      if other.has_value
      then elim (construct_from empty other) [ none ↦ none | some o ↦ some (o, reset other) ]
      else some (empty, other)

  -- `operator=(const Optional&)` of another one
  unfoldable pub copy_assign : Optional T → Optional T → Option (Optional T)
  unfolding reset
  copy_assign o other = if other.has_value then construct_from (reset o) other else some (reset o)

  -- `operator=(Optional&&)` of another one: this one, and the other one behind it
  unfoldable pub move_assign : Optional T → Optional T → Option (Optional T × Optional T)
  unfolding reset
  move_assign o other =
      if other.has_value
      then elim (construct_from (reset o) other) [ none ↦ none | some p ↦ some (p, reset other) ]
      else some (reset o, other)

  -- A value lives in the storage exactly when the flag says so, and then it is that value.
  abbrev pub IsOptional : Optional T → Option T → Type 0
  IsOptional o none = (o.data_ ≡ none) × (o.has_value ≡ false)
  IsOptional o (some x) = (o.data_ ≡ some x) × (o.has_value ≡ true)

  abbrev pub Copied : Option (Optional T) → Option T → Type 0
  Copied result v = (o : Optional T) × (result ≡ some o) × IsOptional o v

  abbrev pub Moved : Option (Optional T × Optional T) → Option T → Type 0
  Moved result v =
      (o : Optional T) × (other : Optional T) × (result ≡ some (o, other))
      × IsOptional o v
      × IsOptional other none

  abbrev pub value_of : Option T → Value T
  value_of none = thrown
  value_of (some x) = returned x

  reset-IsOptional : (o : Optional T) (v : Option T) → IsOptional o v → IsOptional (reset o) none
  unfolding reset
  reset-IsOptional o none h = (rw h.1 h.0, rw h.1 refl)
  reset-IsOptional o (some x) h = (rw h.1 refl, rw h.1 refl)

  value-IsOptional : (o : Optional T) (v : Option T) → IsOptional o v → value o ≡ some (value_of v)
  unfolding value deref
  value-IsOptional o none h = rw h.1 refl
  value-IsOptional o (some x) h = rw (h.1, h.0) refl

  -- The operations on optionals that hold two optional values: a reset empties one, a value that lives
  -- elsewhere is assigned, a copy has the value of the other, a move also empties the other, and
  -- `value` returns what is held or throws.
  pub operations_lem :
      (o other : Optional T) (v w : Option T) (x : T)
      → IsOptional o v
      → IsOptional other w
      → IsOptional (reset o) none
        × IsOptional (assign o x) (some x)
        × Copied (copy other) w
        × Moved (move other) w
        × Copied (copy_assign o other) w
        × Moved (move_assign o other) w
        × (value o ≡ some (value_of v))
  unfolding copy move copy_assign move_assign assign value deref
  operations_lem o other v none x h k =
      let r = reset-IsOptional o v h in
      (
        r,
        (refl, refl),
        (empty, rw k.1 refl, (refl, refl)),
        (empty, other, rw k.1 refl, (refl, refl), k),
        (reset o, rw k.1 refl, r),
        (reset o, other, rw k.1 refl, r, k),
        value-IsOptional o v h,
      )
  operations_lem o other v (some y) x h k =
      let r = reset-IsOptional o v h in
      let gone : reset other ≡ empty = rw k.1 refl in
      (
        r,
        (refl, refl),
        (construct empty y, rw (k.1, k.0) refl, (refl, refl)),
        (
          construct empty y,
          empty,
          rw (k.1, k.0) (ap (λ p. some (construct empty y, p)) gone),
          (refl, refl),
          (refl, refl),
        ),
        (construct (reset o) y, rw (k.1, k.0) refl, (refl, refl)),
        (
          construct (reset o) y,
          empty,
          rw (k.1, k.0) (ap (λ p. some (construct (reset o) y, p)) gone),
          (refl, refl),
          (refl, refl),
        ),
        value-IsOptional o v h,
      )
