-- ===== src/Calculations/Shininess.antt =====
-- Shininess: lib/calculations/shininess.cpp.
use libpkmn.Common.{
  bit, bit_xor-halves, ℕ, zero, suc, ◌+◌, ◌*◌, ◌/◌, ◌%◌, ◌<◌, bit_xor, ◌≡◌, refl, ◌↔◌, ◌⊎◌, inl,
  inr, Bool, true, false, not, ◌||◌, [], ◌∷◌, arith, ◌==◌, if◌then◌else◌, All, ℤ, pos, pos_part,
  eq_ℤ, out_of_range, Result, ok, throw, ◌>>◌,
}
use libpkmn.Enforce.{StatLimits, does_vector_contain_value, IsDocumented}
use libpkmn.Enforce.Ivs.{IsIv, check_ivs, check_ivs_lem}

module _ (l : StatLimits) where
  unfoldable pub gen2_shiny : ℤ → ℤ → ℤ → ℤ → Result Bool
  gen2_shiny iv_attack iv_defense iv_speed iv_special = do
    check_ivs l false (iv_attack ∷ iv_defense ∷ iv_speed ∷ iv_special ∷ [])
    let valid_iv_attack = 2 ∷ 3 ∷ 6 ∷ 7 ∷ 10 ∷ 11 ∷ 14 ∷ 15 ∷ []
    ok (
        if not (eq_ℤ iv_defense (pos 10))
          || not (eq_ℤ iv_speed (pos 10))
          || not (eq_ℤ iv_special (pos 10))
        then false
        else if not (does_vector_contain_value valid_iv_attack (pos_part iv_attack))
        then false
        else true)

  -- With IVs in range, a Pokémon of the second generation is shiny exactly when its Defense, Speed and
  -- Special IVs are 10 and the second binary digit of its Attack IV is set; else `gen2_shiny` throws
  -- `std::out_of_range`. The limits are those that the header documents.
  pub gen2_shiny_lem :
      (iv_attack iv_defense iv_speed iv_special : ℤ)
      → IsDocumented l
      → let ivs = iv_attack ∷ iv_defense ∷ iv_speed ∷ iv_special ∷ [] in
        ((shiny : Bool) × (gen2_shiny iv_attack iv_defense iv_speed iv_special ≡ ok shiny)
          × All (IsIv l false) ivs
          × ((shiny ≡ true) ↔ (
              (iv_defense ≡ pos 10)
              × (iv_speed ≡ pos 10)
              × (iv_special ≡ pos 10)
              × (pos_part iv_attack / 2 % 2 ≡ 1))))
        ⊎ ((gen2_shiny iv_attack iv_defense iv_speed iv_special ≡ throw out_of_range)
            × ¬ All (IsIv l false) ivs)
  unfolding gen2_shiny does_vector_contain_value
  gen2_shiny_lem iv_attack iv_defense iv_speed iv_special doc =
      elim (check_ivs_lem l false (iv_attack ∷ iv_defense ∷ iv_speed ∷ iv_special ∷ [])) [
        | inl (passed, h) ↦ rw passed (inl (_, refl, h, ground (arith, doc.gb_iv_range, h.0)))
        | inr (refused, h) ↦ rw refused (inr (refl, h))
      ]

-- The loop of `modern_shiny`, which has `n` digits to go and is at the digit `i` of the four halves.
unfoldable pub is_shiny_from : ℕ → ℕ → ℕ → ℕ → ℕ → ℕ → Bool
is_shiny_from zero i p0 p1 t0 t1 = true
is_shiny_from (suc n) i p0 p1 t0 t1 =
    let rest = is_shiny_from n (suc i) p0 p1 t0 t1 in
    let num_ones = bit p0 i + bit p1 i + bit t0 i + bit t1 i in
    if num_ones % 2 == 0 then rest else false

-- The halves of two 32-bit numbers, on a little-endian machine.
unfoldable pub modern_shiny : ℕ → ℕ → Bool
modern_shiny personality trainer_id =
    is_shiny_from 13 3 (personality % 65536) (personality / 65536 % 65536) (trainer_id % 65536)
      (trainer_id / 65536 % 65536)

abbrev xor4 : ℕ → ℕ → ℕ → ℕ → ℕ
xor4 a b c d = bit_xor (bit_xor a b) (bit_xor c d)

xor4-halves :
    (a b c d : ℕ) → xor4 a b c d ≡ xor4 (a / 2) (b / 2) (c / 2) (d / 2) * 2 + (a + b + c + d) % 2
xor4-halves a b c d =
    let top = bit_xor-halves (bit_xor a b) (bit_xor c d) in
    let left = bit_xor-halves a b in
    let right = bit_xor-halves c d in
    let half_left : bit_xor a b / 2 ≡ bit_xor (a / 2) (b / 2) = omega arith in
    let half_right : bit_xor c d / 2 ≡ bit_xor (c / 2) (d / 2) = omega arith in
    let top' : xor4 a b c d
        ≡ xor4 (a / 2) (b / 2) (c / 2) (d / 2) * 2 + (bit_xor a b + bit_xor c d) % 2 =
      rw (← half_left, ← half_right) top in
    omega arith

pub is_shiny_from-suc :
    (n i a b c d : ℕ)
    → is_shiny_from n (suc i) a b c d ≡ is_shiny_from n i (a / 2) (b / 2) (c / 2) (d / 2)
unfolding is_shiny_from
is_shiny_from-suc zero i a b c d = refl
is_shiny_from-suc (suc n) i a b c d = rw (is_shiny_from-suc n (suc i) a b c d) refl

-- A number of at most n digits.
abbrev pub HasDigits : ℕ → ℕ → Type 0
HasDigits zero a = a ≡ 0
HasDigits (suc n) a = HasDigits n (a / 2)

pub is_shiny_from_zero :
    (n a b c d : ℕ)
    → HasDigits n a
    → HasDigits n b
    → HasDigits n c
    → HasDigits n d
    → (is_shiny_from n 0 a b c d ≡ true) ↔ (xor4 a b c d ≡ 0)
unfolding is_shiny_from
is_shiny_from_zero zero a b c d ha hb hc hd = ((λ _. rw (ha, hb, hc, hd) refl), (λ _. refl))
is_shiny_from_zero (suc n) a b c d ha hb hc hd =
    let rec = is_shiny_from_zero n (a / 2) (b / 2) (c / 2) (d / 2) ha hb hc hd in
    let step = xor4-halves a b c d in rw (is_shiny_from-suc n 0 a b c d) (ground arith)

-- A Pokémon is shiny exactly when the exclusive or of the four 16-bit halves of its personality and its
-- trainer's id is less than 8.
pub modern_shiny_iff :
    (personality trainer_id : ℕ)
    → (modern_shiny personality trainer_id ≡ true) ↔ (
        bit_xor
          (bit_xor (personality % 65536) (personality / 65536 % 65536))
          (bit_xor (trainer_id % 65536) (trainer_id / 65536 % 65536))
        < 8)
unfolding modern_shiny
modern_shiny_iff personality trainer_id =
    let p0 = personality % 65536 in
    let p1 = personality / 65536 % 65536 in
    let t0 = trainer_id % 65536 in
    let t1 = trainer_id / 65536 % 65536 in
    let d1 = xor4-halves p0 p1 t0 t1 in
    let d2 = xor4-halves (p0 / 2) (p1 / 2) (t0 / 2) (t1 / 2) in
    let d3 = xor4-halves (p0 / 2 / 2) (p1 / 2 / 2) (t0 / 2 / 2) (t1 / 2 / 2) in
    let main =
      is_shiny_from_zero 13 (p0 / 2 / 2 / 2) (p1 / 2 / 2 / 2) (t0 / 2 / 2 / 2) (t1 / 2 / 2 / 2)
        (omega arith) (omega arith) (omega arith) (omega arith) in
    rw
      (
        is_shiny_from-suc 13 2 p0 p1 t0 t1,
        is_shiny_from-suc 13 1 (p0 / 2) (p1 / 2) (t0 / 2) (t1 / 2),
        is_shiny_from-suc 13 0 (p0 / 2 / 2) (p1 / 2 / 2) (t0 / 2 / 2) (t1 / 2 / 2),
      )
      (ground arith)
