-- ===== src/Optional/Tests.antt =====
-- A run of include/stdromano/optional.hpp at concrete optionals.
use stdromano.Prelude.{ℕ, ◌≡◌, refl, true, none, some}
use stdromano.Optional.{
  Optional, empty, reset, assign, copy, move, copy_assign, move_assign, value, thrown, IsOptional,
  Copied, Moved, operations_lem,
}

abbrev held : Optional ℕ
held = record { data_ = some 5; has_value = true }

-- an empty one, and one that holds 5
operations_lem_example :
    IsOptional (reset (empty {T = ℕ})) none
    × IsOptional (assign (empty {T = ℕ}) 6) (some 6)
    × Copied (copy held) (some 5)
    × Moved (move held) (some 5)
    × Copied (copy_assign empty held) (some 5)
    × Moved (move_assign empty held) (some 5)
    × (value (empty {T = ℕ}) ≡ some thrown)
operations_lem_example = operations_lem empty held none (some 5) 6 (refl, refl) (refl, refl)
