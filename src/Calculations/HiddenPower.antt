-- ===== src/Calculations/HiddenPower.antt =====
-- Hidden Power: lib/calculations/moves/hidden_power.cpp. A type is the number of its `e_type`.
use libpkmn.Common.{
  All, [], ◌∷◌, refl, ℕ, ◌+◌, ◌*◌, ◌/◌, ◌%◌, ◌≤◌, ◌≡◌, ◌⊎◌, arith, true, false, ℤ, pos_part, Result,
  ok, throw, out_of_range, inl, inr, ◌>>◌,
}
use libpkmn.Enforce.{StatLimits}
use libpkmn.Enforce.Ivs.{IsIv, check_ivs, check_ivs_lem}

pub record HiddenPower : Type 0 where
  pub type : ℕ
  pub base_power : ℕ

-- `MSB`, `LSB` and `LSB2`; a shift to the left is a product, and `& 2` the bit's remainder.
abbrev msb : ℕ → ℕ
msb var = var / 8 % 2

abbrev lsb : ℕ → ℕ
lsb var = var % 2

abbrev lsb2 : ℕ → ℕ
lsb2 var = var % 4 / 2

unfoldable pub gen2_hidden_power_type : ℕ → ℕ → ℕ
gen2_hidden_power_type attack defense = 4 * (attack % 4) + defense % 4 + 2

unfoldable pub gen2_hidden_power_base_power : ℕ → ℕ → ℕ → ℕ → ℕ → ℕ
gen2_hidden_power_base_power v w x y z = (5 * (v + w * 2 + x * 4 + y * 8) + z) / 2 + 31

unfoldable pub modern_hidden_power_type : ℕ → ℕ → ℕ → ℕ → ℕ → ℕ → ℕ
modern_hidden_power_type a b c d e f = (a + b * 2 + c * 4 + d * 8 + e * 16 + f * 32) * 15 / 63 + 2

unfoldable pub modern_hidden_power_base_power : ℕ → ℕ → ℕ → ℕ → ℕ → ℕ → ℕ
modern_hidden_power_base_power u v w x y z =
    (u + v * 2 + w * 4 + x * 8 + y * 16 + z * 32) * 40 / 63 + 30

-- One of the types Fighting to Dark, and a base power from `least` to 70.
pub record InRange (least : ℕ) (p : HiddenPower) : Type 0 where
  pub least_type : 2 ≤ p.type
  pub most_type : p.type ≤ 17
  pub least_power : least ≤ p.base_power
  pub most_power : p.base_power ≤ 70

module _ (l : StatLimits) where
  unfoldable pub gen2_hidden_power : ℤ → ℤ → ℤ → ℤ → Result HiddenPower
  unfolding gen2_hidden_power_type gen2_hidden_power_base_power
  gen2_hidden_power iv_attack iv_defense iv_speed iv_special = do
    check_ivs l false (iv_attack ∷ iv_defense ∷ iv_speed ∷ iv_special ∷ [])
    let v = msb (pos_part iv_special)
    let w = msb (pos_part iv_speed)
    let x = msb (pos_part iv_defense)
    let y = msb (pos_part iv_attack)
    let z = pos_part iv_special % 4
    ok (record {
      type = gen2_hidden_power_type (pos_part iv_attack) (pos_part iv_defense);
      base_power = gen2_hidden_power_base_power v w x y z;
    })

  unfoldable pub modern_hidden_power : ℤ → ℤ → ℤ → ℤ → ℤ → ℤ → Result HiddenPower
  unfolding modern_hidden_power_type modern_hidden_power_base_power
  modern_hidden_power iv_hp iv_attack iv_defense iv_speed iv_spatk iv_spdef = do
    check_ivs l true (iv_hp ∷ iv_attack ∷ iv_defense ∷ iv_speed ∷ iv_spatk ∷ iv_spdef ∷ [])
    let a = lsb (pos_part iv_hp)
    let b = lsb (pos_part iv_attack)
    let c = lsb (pos_part iv_defense)
    let d = lsb (pos_part iv_speed)
    let e = lsb (pos_part iv_spatk)
    let f = lsb (pos_part iv_spdef)
    let u = lsb2 (pos_part iv_hp)
    let v = lsb2 (pos_part iv_attack)
    let w = lsb2 (pos_part iv_defense)
    let x = lsb2 (pos_part iv_speed)
    let y = lsb2 (pos_part iv_spatk)
    let z = lsb2 (pos_part iv_spdef)
    ok (record {
      type = modern_hidden_power_type a b c d e f;
      base_power = modern_hidden_power_base_power u v w x y z;
    })

  -- With four IVs in the range of the limits, `gen2_hidden_power` returns one of the sixteen types from
  -- Fighting (2) to Dark (17), and a base power from 31 to 70; with any IV out of the range it throws
  -- `std::out_of_range`.
  pub gen2_hidden_power_lem :
      (iv_attack iv_defense iv_speed iv_special : ℤ)
      → let ivs = iv_attack ∷ iv_defense ∷ iv_speed ∷ iv_special ∷ [] in
        ((p : HiddenPower) × (gen2_hidden_power iv_attack iv_defense iv_speed iv_special ≡ ok p)
          × All (IsIv l false) ivs
          × InRange 31 p)
        ⊎ ((gen2_hidden_power iv_attack iv_defense iv_speed iv_special ≡ throw out_of_range)
            × ¬ All (IsIv l false) ivs)
  unfolding gen2_hidden_power
  gen2_hidden_power_lem iv_attack iv_defense iv_speed iv_special =
      elim (check_ivs_lem l false (iv_attack ∷ iv_defense ∷ iv_speed ∷ iv_special ∷ [])) [
        | inl (passed, h) ↦ rw passed (
            inl (
              _,
              refl,
              h,
              record {
                least_type = omega arith;
                most_type = omega arith;
                least_power = omega arith;
                most_power = omega arith;
              },
            ))
        | inr (refused, h) ↦ rw refused (inr (refl, h))
      ]

  -- With six IVs in the range of the limits, `modern_hidden_power` returns one of the sixteen types from
  -- Fighting (2) to Dark (17), and a base power from 30 to 70; with any IV out of the range it throws
  -- `std::out_of_range`.
  pub modern_hidden_power_lem :
      (iv_hp iv_attack iv_defense iv_speed iv_spatk iv_spdef : ℤ)
      → let ivs = iv_hp ∷ iv_attack ∷ iv_defense ∷ iv_speed ∷ iv_spatk ∷ iv_spdef ∷ [] in
        ((p : HiddenPower) × (modern_hidden_power iv_hp iv_attack iv_defense iv_speed iv_spatk
              iv_spdef
            ≡ ok p)
          × All (IsIv l true) ivs
          × InRange 30 p)
        ⊎ ((modern_hidden_power iv_hp iv_attack iv_defense iv_speed iv_spatk iv_spdef
              ≡ throw out_of_range)
            × ¬ All (IsIv l true) ivs)
  unfolding modern_hidden_power
  modern_hidden_power_lem iv_hp iv_attack iv_defense iv_speed iv_spatk iv_spdef =
      elim (check_ivs_lem l true
        (iv_hp ∷ iv_attack ∷ iv_defense ∷ iv_speed ∷ iv_spatk ∷ iv_spdef ∷ [])) [
          | inl (passed, h) ↦ rw passed (
              inl (
                _,
                refl,
                h,
                record {
                  least_type = omega arith;
                  most_type = omega arith;
                  least_power = omega arith;
                  most_power = omega arith;
                },
              ))
          | inr (refused, h) ↦ rw refused (inr (refl, h))
        ]
