-- ===== src/Enforce/Laws.antt =====
-- What the checks of lib/exception_internal.hpp let through.
use libpkmn.Common.{ℕ, ◌≤◌, ◌≡◌, ◌⊎◌, arith, ℤ, pos, pos_part, ◌≤ℤ◌, ok, throw, out_of_range}
use libpkmn.Enforce.{enforce_bounds}

-- `enforce_bounds` lets exactly the values from `min` to `max` through, and throws
-- `std::out_of_range` on all others.
pub enforce_bounds_lem :
    (value min max : ℤ)
    → ((enforce_bounds value min max ≡ ok tt) × (min ≤ℤ value) × (value ≤ℤ max))
      ⊎ ((enforce_bounds value min max ≡ throw out_of_range) × ¬ ((min ≤ℤ value) × (value ≤ℤ max)))
unfolding enforce_bounds
enforce_bounds_lem value min max = ground arith

pub enforce_bounds-ok :
    (value min max : ℤ) → min ≤ℤ value → value ≤ℤ max → enforce_bounds value min max ≡ ok tt
unfolding enforce_bounds
enforce_bounds-ok value min max h k = ground arith

-- With bounds that are not negative, what passes is a natural number.
pub enforce_range_lem :
    (value : ℤ) (min max : ℕ)
    → ((enforce_bounds value (pos min) (pos max) ≡ ok tt)
        × (value ≡ pos (pos_part value))
        × (min ≤ pos_part value)
        × (pos_part value ≤ max)
        × (pos min ≤ℤ value)
        × (value ≤ℤ pos max))
      ⊎ ((enforce_bounds value (pos min) (pos max) ≡ throw out_of_range)
          × ¬ ((pos min ≤ℤ value) × (value ≤ℤ pos max)))
unfolding enforce_bounds
enforce_range_lem value min max = ground arith
