-- ===== src/Calculations/Stats.antt =====
-- Stats: lib/calculations/stats.cpp. A level and a base stat are natural numbers, as documented, and no
-- `int` overflows. A nature's modifier is in tenths; the product by 0.9f or 1.1f is rounded to a whole
-- number of tenths before `int` drops the rest, so that it is the quotient that stands here.
pub mod Laws
use libpkmn.Common.{
  ℕ, zero, suc, ◌+◌, ◌*◌, ◌/◌, true, false, ◌||◌, List, [], ◌∷◌, leb, ◌==◌, if◌then◌else◌, ℤ,
  pos_part, domain_error, Result, ok, guard, ◌>>=◌, ◌>>◌,
}
use libpkmn.Enforce.{StatLimits, enforce_value_in_vector, enforce_ev_bounds, enforce_iv_bounds}

abbrev pub hp : ℕ
hp = 1

-- HP, Attack, Defense, Speed, Special, Special Attack and Special Defense, by `e_stat`.
abbrev pub gen2_stats : List ℕ
gen2_stats = 1 ∷ 2 ∷ 3 ∷ 4 ∷ 5 ∷ 6 ∷ 7 ∷ []

abbrev pub modern_stats : List ℕ
modern_stats = 1 ∷ 2 ∷ 3 ∷ 4 ∷ 6 ∷ 7 ∷ []

-- `int(std::sqrt(n))`
unfoldable pub isqrt : ℕ → ℕ
isqrt zero = 0
isqrt (suc n) = let r = isqrt n in if leb ((r + 1) * (r + 1)) (n + 1) then r + 1 else r

unfoldable pub gb_stat_common : ℕ → ℕ → ℕ → ℕ → ℕ
gb_stat_common level base_stat ev iv = ((base_stat + iv) * 2 + isqrt ev / 4) * level / 100

unfoldable pub modern_stat_common : ℕ → ℕ → ℕ → ℕ → ℕ
modern_stat_common level base_stat ev iv = (2 * base_stat + iv + ev / 4) * level / 100

module _ (l : StatLimits) where
  unfoldable pub get_gb_stat : ℕ → ℕ → ℕ → ℤ → ℤ → Result ℕ
  get_gb_stat stat level base_stat ev iv = do
    enforce_value_in_vector stat gen2_stats
    enforce_ev_bounds l ev false
    enforce_iv_bounds l iv false
    let common = gb_stat_common level base_stat (pos_part ev) (pos_part iv)
    ok (if stat == hp then common + level + 10 else common + 5)

  unfoldable pub get_modern_stat : ℕ → ℕ → ℕ → ℕ → ℤ → ℤ → Result ℕ
  get_modern_stat stat level nature_modifier base_stat ev iv = do
    guard (nature_modifier == 9 || nature_modifier == 10 || nature_modifier == 11) domain_error
    enforce_value_in_vector stat modern_stats
    enforce_ev_bounds l ev true
    enforce_iv_bounds l iv true
    let common = modern_stat_common level base_stat (pos_part ev) (pos_part iv)
    ok (if stat == hp then common + level + 10 else (common + 5) * nature_modifier / 10)
