-- ===== src/Pokemon/Shininess.antt =====
-- `_set_modern_shininess` of lib/pokemon_impl.cpp, for 32-bit numbers on a little-endian machine.
use libpkmn.Common.{bit, ℕ, zero, suc, ◌+◌, ◌*◌, ◌/◌, ◌%◌, ◌^◌, bit_xor, Bool, ◌==◌, if◌then◌else◌}

-- The loop, which has `n` digits to go and is at the digit `i`. It returns `p[0]`.
unfoldable pub make_shiny_from : ℕ → ℕ → ℕ → ℕ → ℕ → ℕ → ℕ
make_shiny_from zero i p0 p1 t0 t1 = p0
make_shiny_from (suc n) i p0 p1 t0 t1 =
    let num_ones = bit p0 i + bit p1 i + bit t0 i + bit t1 i in
    make_shiny_from n (suc i) (if num_ones % 2 == 0 then p0 else bit_xor p0 (2 ^ i)) p1 t0 t1

unfoldable pub set_modern_shininess : ℕ → ℕ → Bool → ℕ
unfolding make_shiny_from
set_modern_shininess personality trainer_id value =
    let p0 = personality % 65536 in
    let p1 = personality / 65536 % 65536 in
    let t0 = trainer_id % 65536 in
    let t1 = trainer_id / 65536 % 65536 in
    if value
    then p1 * 65536 + make_shiny_from 13 3 p0 p1 t0 t1
    else let sum = bit p0 0 + bit p1 0 + bit t0 0 + bit t1 0 in
      if sum % 2 == 0 then bit_xor personality 1 else personality
