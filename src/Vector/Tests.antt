-- ===== src/Vector/Tests.antt =====
-- Runs of include/stdromano/vector.hpp at concrete vectors.
use stdromano.Prelude.{ℕ, ◌*◌, ◌/◌, ◌≡◌, refl, Bool, true, [], ◌∷◌, none, some, arith}
use stdromano.Vector.Storage.{Vector}
use stdromano.Vector.Elements.{push_back, insert, erase_range}
use stdromano.Vector.Grown.{IsVector}
use stdromano.Vector.Contents.{push_back-IsVector, insert-IsVector, Holds}
use stdromano.Vector.Removed.{erase_range-IsVector, HoldsWith}
use stdromano.Vector.Found.{push_back-capacity_one}

-- the golden ratio in thousandths, and memory without end
abbrev scaled : ℕ → ℕ
scaled n = n * 1618 / 1000

abbrev allocates : ℕ → Bool
allocates n = true

-- two elements in two slots
abbrev full : Vector ℕ
full = record { data_ = some 7 ∷ some 8 ∷ []; capacity = 2; size = 2 }

full-IsVector : IsVector full (7 ∷ 8 ∷ [])
full-IsVector = record { left = []; slots = refl; size = refl; capacity = refl }

-- one element in one slot
abbrev single : Vector ℕ
single = record { data_ = some 7 ∷ []; capacity = 1; size = 1 }

single-IsVector : IsVector single (7 ∷ [])
single-IsVector = record { left = []; slots = refl; size = refl; capacity = refl }

push_back-IsVector_example : Holds (push_back scaled allocates full 9) (7 ∷ 8 ∷ 9 ∷ [])
push_back-IsVector_example =
    push_back-IsVector scaled allocates full (7 ∷ 8 ∷ []) 9 full-IsVector (λ e. (omega arith, refl))

insert-IsVector_example : Holds (insert scaled allocates full 9 1) (7 ∷ 9 ∷ 8 ∷ [])
insert-IsVector_example =
    insert-IsVector scaled allocates full (7 ∷ []) (8 ∷ []) 9 full-IsVector
      (λ e. (omega arith, refl))

erase_range-IsVector_example : HoldsWith (erase_range full 0 1) (8 ∷ []) 0
erase_range-IsVector_example =
    erase_range-IsVector full [] (7 ∷ []) (8 ∷ []) full-IsVector (omega arith)

push_back-capacity_one_example : push_back scaled allocates single 9 ≡ none
push_back-capacity_one_example =
    push_back-capacity_one scaled allocates single 7 9 refl single-IsVector refl
