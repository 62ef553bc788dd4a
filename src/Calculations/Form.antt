-- ===== src/Calculations/Form.antt =====
-- Unown's letters: lib/calculations/form.cpp. A string of one character is the character's number.
use libpkmn.Common.{
  ℕ, ◌+◌, ◌-◌, ◌*◌, ◌/◌, ◌%◌, ◌≤◌, ◌≡◌, refl, ◌⊎◌, inl, inr, false, [], ◌∷◌, arith, ◌==◌,
  if◌then◌else◌, All, ℤ, pos_part, out_of_range, Result, ok, throw, ◌>>◌,
}
use libpkmn.Enforce.{StatLimits}
use libpkmn.Enforce.Ivs.{IsIv, check_ivs, check_ivs_lem}

-- `((IV & 0x6) << 5) | …` puts the middle two digits of each IV side by side, so `|` is a sum.
abbrev middle : ℕ → ℕ
middle iv = iv / 2 % 4

unfoldable pub gen2_unown_letter : ℕ → ℕ → ℕ → ℕ → ℕ
gen2_unown_letter iv_attack iv_defense iv_speed iv_special =
    (middle iv_attack * 64 + middle iv_defense * 16 + middle iv_speed * 4 + middle iv_special) / 10
    + 65

unfoldable pub gen3_unown_letter : ℕ → ℕ → ℕ → ℕ → ℕ
gen3_unown_letter byte0 byte1 byte2 byte3 =
    (byte3 % 4 * 64 + byte2 % 4 * 16 + byte1 % 4 * 4 + byte0 % 4) % 28 + 65

module _ (l : StatLimits) where
  unfoldable pub gen2_unown_form : ℤ → ℤ → ℤ → ℤ → Result ℕ
  unfolding gen2_unown_letter
  gen2_unown_form iv_attack iv_defense iv_speed iv_special = do
    check_ivs l false (iv_attack ∷ iv_defense ∷ iv_speed ∷ iv_special ∷ [])
    ok (
        gen2_unown_letter (pos_part iv_attack) (pos_part iv_defense) (pos_part iv_speed)
          (pos_part iv_special))

  -- With four IVs in the range of the limits, `gen2_unown_form` returns a letter from A (65) to Z (90);
  -- with any out of the range it throws `std::out_of_range`.
  pub gen2_unown_form_lem :
      (iv_attack iv_defense iv_speed iv_special : ℤ)
      → let ivs = iv_attack ∷ iv_defense ∷ iv_speed ∷ iv_special ∷ [] in
        ((letter : ℕ) × (gen2_unown_form iv_attack iv_defense iv_speed iv_special ≡ ok letter)
          × All (IsIv l false) ivs
          × (65 ≤ letter)
          × (letter ≤ 90))
        ⊎ ((gen2_unown_form iv_attack iv_defense iv_speed iv_special ≡ throw out_of_range)
            × ¬ All (IsIv l false) ivs)
  unfolding gen2_unown_form
  gen2_unown_form_lem iv_attack iv_defense iv_speed iv_special =
      elim (check_ivs_lem l false (iv_attack ∷ iv_defense ∷ iv_speed ∷ iv_special ∷ [])) [
        | inl (passed, h) ↦ rw passed (inl (_, refl, h, omega arith, omega arith))
        | inr (refused, h) ↦ rw refused (inr (refl, h))
      ]

-- The bytes of a 32-bit number, on a little-endian machine; '[', '\', '?' and '!' by their numbers.
unfoldable pub gen3_unown_form : ℕ → ℕ
unfolding gen3_unown_letter
gen3_unown_form personality =
    let ret =
      gen3_unown_letter (personality % 256) (personality / 256 % 256) (personality / 65536 % 256)
        (personality / 16777216 % 256) in
    if ret == 91 then 63 else if ret == 92 then 33 else ret

-- The personality whose four low digit pairs spell n.
abbrev pub spread : ℕ → ℕ
spread n = n % 4 + n / 4 % 4 * 256 + n / 16 % 4 * 65536 + n / 64 % 4 * 16777216

-- Of every personality `gen3_unown_form` makes one of the 28 forms, A to Z, `?` and `!`.
pub gen3_unown_form_bounds :
    (personality : ℕ)
    → ((65 ≤ gen3_unown_form personality) × (gen3_unown_form personality ≤ 90))
      ⊎ (gen3_unown_form personality ≡ 63)
      ⊎ (gen3_unown_form personality ≡ 33)
unfolding gen3_unown_form
gen3_unown_form_bounds personality = ground arith

-- Each of the letters A to Z is the form of some personality.
pub gen3_unown_form-spread :
    (letter : ℕ) → 65 ≤ letter → letter ≤ 90 → gen3_unown_form (spread (letter - 65)) ≡ letter
unfolding gen3_unown_form
gen3_unown_form-spread letter lo hi = ground arith
