-- ===== src/Enforce.antt =====
-- The input checks of lib/exception_internal.hpp (`enforce_bounds` and its relatives), which the other
-- components call first, and `does_vector_contain_value` of lib/utils/misc.hpp. C++ enums stand for
-- the numbers that they hold. The limits on EVs and IVs are macros of the pksav library: a parameter.
pub mod Laws
pub mod Ivs
use libpkmn.Common.{
  ℕ, Bool, false, not, ◌||◌, List, [], ◌∷◌, ◌≡◌, ◌==◌, leb, if◌then◌else◌, ℤ, pos, ltb_ℤ, Result,
  ◌&&◌, guard, out_of_range, invalid_argument,
}

unfoldable pub does_vector_contain_value : List ℕ → ℕ → Bool
does_vector_contain_value [] value = false
does_vector_contain_value (x ∷ vec) value = x == value || does_vector_contain_value vec value

unfoldable pub enforce_value_in_vector : ℕ → List ℕ → Result (Unit {0})
unfolding does_vector_contain_value
enforce_value_in_vector value valid_values =
    guard (does_vector_contain_value valid_values value) invalid_argument

unfoldable pub enforce_bounds : ℤ → ℤ → ℤ → Result (Unit {0})
enforce_bounds value min max =
    let is_less_than_range = ltb_ℤ value min in
    let is_greater_than_range = ltb_ℤ max value in
    guard (not (is_less_than_range || is_greater_than_range)) out_of_range

pub data ValueComparator : Type 0 where
  lt le eq ne ge gt : ValueComparator

unfoldable pub did_comparison_pass : ℤ → ℤ → ValueComparator → Bool
did_comparison_pass value compare_value lt = ltb_ℤ value compare_value
did_comparison_pass value compare_value le = not (ltb_ℤ compare_value value)
did_comparison_pass value compare_value eq =
    not (ltb_ℤ value compare_value || ltb_ℤ compare_value value)
did_comparison_pass value compare_value ne = ltb_ℤ value compare_value || ltb_ℤ compare_value value
did_comparison_pass value compare_value ge = not (ltb_ℤ value compare_value)
did_comparison_pass value compare_value gt = ltb_ℤ compare_value value

unfoldable pub enforce_comparator : ℤ → ℤ → ValueComparator → Result (Unit {0})
unfolding did_comparison_pass
enforce_comparator value compare_value comparator =
    guard (did_comparison_pass value compare_value comparator) out_of_range

-- `len` is the size of the string in bytes.
unfoldable pub enforce_string_length : ℕ → ℕ → ℕ → Result (Unit {0})
enforce_string_length len min_length max_length =
    guard (leb min_length len && leb len max_length) invalid_argument

-- `PKSAV_MIN_GB_EV` and so on.
pub record StatLimits : Type 0 where
  pub min_gb_ev : ℤ
  pub max_gb_ev : ℤ
  pub min_gb_iv : ℤ
  pub max_gb_iv : ℤ
  pub min_ev : ℤ
  pub max_ev : ℤ
  pub min_iv : ℤ
  pub max_iv : ℤ

-- The ranges that include/pkmn/calculations/stats.hpp documents.
pub record IsDocumented (l : StatLimits) : Type 0 where
  pub gb_ev_range : (l.min_gb_ev ≡ pos 0) × (l.max_gb_ev ≡ pos 65535)
  pub gb_iv_range : (l.min_gb_iv ≡ pos 0) × (l.max_gb_iv ≡ pos 15)
  pub ev_range : (l.min_ev ≡ pos 0) × (l.max_ev ≡ pos 255)
  pub iv_range : (l.min_iv ≡ pos 0) × (l.max_iv ≡ pos 31)

module _ (l : StatLimits) where
  unfoldable pub enforce_ev_bounds : ℤ → Bool → Result (Unit {0})
  unfolding enforce_bounds
  enforce_ev_bounds value is_game_modern =
      let min_value = if is_game_modern then l.min_ev else l.min_gb_ev in
      let max_value = if is_game_modern then l.max_ev else l.max_gb_ev in
      enforce_bounds value min_value max_value

  unfoldable pub enforce_iv_bounds : ℤ → Bool → Result (Unit {0})
  unfolding enforce_bounds
  enforce_iv_bounds value is_game_modern =
      let min_value = if is_game_modern then l.min_iv else l.min_gb_iv in
      let max_value = if is_game_modern then l.max_iv else l.max_gb_iv in
      enforce_bounds value min_value max_value

-- A `uint32_t`, so never negative.
unfoldable pub enforce_gb_trainer_id_bounds : ℕ → Result (Unit {0})
unfolding enforce_bounds
enforce_gb_trainer_id_bounds trainer_id = enforce_bounds (pos trainer_id) (pos 0) (pos 65535)
