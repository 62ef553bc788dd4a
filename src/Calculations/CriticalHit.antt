-- ===== src/Calculations/CriticalHit.antt =====
-- Critical hits: lib/calculations/moves/critical_hit.cpp. The source returns floats: here a chance of the
-- first generation is its threshold in 256ths, a chance of the others is in ten-thousandths, and a
-- modifier is a fraction or in tenths.
use libpkmn.Common.{
  ℕ, zero, suc, ◌+◌, ◌*◌, ◌/◌, ◌%◌, ◌≤◌, ◌<◌, ◌≡◌, Bool, not, arith, if◌then◌else◌, ℤ, pos,
  pos_part, ◌≤ℤ◌, ltb_ℤ, Result, ok, ◌>>◌,
}
use libpkmn.Enforce.{enforce_bounds, enforce_comparator, did_comparison_pass, ge}

-- `threshold` is a `uint8_t`, which wraps around at 256.
unfoldable pub gen1_critical_hit_chance : ℤ → Bool → Bool → Result ℕ
gen1_critical_hit_chance speed rate_increased high_rate_move = do
  enforce_bounds speed (pos 1) (pos 255)
  let threshold = pos_part speed / 2 % 256
  let lowered = if rate_increased then threshold / 4 else threshold
  ok (if high_rate_move then lowered * 8 % 256 else lowered)

-- The `switch` on the stage.
abbrev chance_at : Bool → ℕ → ℕ
chance_at is_early_game zero = 625
chance_at is_early_game (suc zero) = 1250
chance_at is_early_game (suc (suc zero)) = if is_early_game then 2500 else 5000
chance_at is_early_game (suc (suc (suc zero))) = if is_early_game then 3330 else 10000
chance_at is_early_game (suc (suc (suc (suc n)))) = if is_early_game then 5000 else 10000

unfoldable pub critical_hit_chance : ℤ → ℤ → Result ℕ
critical_hit_chance generation critical_hit_stage = do
  enforce_bounds generation (pos 2) (pos 6)
  enforce_comparator critical_hit_stage (pos 0) ge
  let is_early_game = ltb_ℤ generation (pos 6)
  ok (chance_at is_early_game (pos_part critical_hit_stage))

-- The numerator and the denominator.
unfoldable pub gen1_critical_hit_modifier : ℤ → Result (ℕ × ℕ)
gen1_critical_hit_modifier attacker_level = do
  enforce_bounds attacker_level (pos 1) (pos 255)
  ok (2 * pos_part attacker_level + 5, pos_part attacker_level + 5)

unfoldable pub critical_hit_modifier : ℤ → Result ℕ
critical_hit_modifier generation = do
  enforce_bounds generation (pos 2) (pos 6)
  ok (if not (ltb_ℤ generation (pos 6)) then 15 else 20)

-- A higher stage never lowers the chance that `critical_hit_chance` returns, and no chance is over 1
-- or under 1 in 16: for each generation that it accepts.
pub critical_hit_chance_mono :
    (generation stage stage' : ℤ) {chance chance' : ℕ}
    → stage ≤ℤ stage'
    → critical_hit_chance generation stage ≡ ok chance
    → critical_hit_chance generation stage' ≡ ok chance'
    → (chance ≤ chance') × (625 ≤ chance) × (chance' ≤ 10000)
unfolding critical_hit_chance enforce_bounds enforce_comparator did_comparison_pass
critical_hit_chance_mono generation stage stage' {chance} {chance'} h e e' = ground arith

-- The modifier of the first generation is at least 1 and less than 2, which it is from the second to
-- the fifth generation.
pub gen1_critical_hit_modifier_bounds :
    (attacker_level generation : ℤ) {n d m : ℕ}
    → gen1_critical_hit_modifier attacker_level ≡ ok (n, d)
    → critical_hit_modifier generation ≡ ok m
    → (d < n) × (n < 2 * d) × ((generation ≤ℤ pos 5) → 10 * n < m * d)
unfolding gen1_critical_hit_modifier critical_hit_modifier enforce_bounds
gen1_critical_hit_modifier_bounds attacker_level generation {n} {d} {m} e e' = ground arith
