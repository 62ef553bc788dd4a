-- ===== src/Pokedex/Listing.antt =====
-- `_update_member_vector_with_pksav` of lib/pokedex_impl.cpp lists the numbers whose bits are set.
use libpkmn.Common.{
  ℕ, zero, suc, ◌+◌, ◌≤◌, ◌≡◌, ap, inl, inr, Bool, ◌&&◌, List, [], ◌∷◌, arith, ltb, leb, ◌==◌, ==→≡,
  Bool-cases,
}
use libpkmn.Enforce.{does_vector_contain_value}
use libpkmn.Pokedex.{update_member_vector}

-- A number is in the list exactly if it is one of those looked at and its bit is set.
pub update_member_vector_lem :
    (is_bit_present : ℕ → Bool) (first count value : ℕ)
    → does_vector_contain_value (update_member_vector is_bit_present first count) value
      ≡ (leb first value && ltb value (first + count) && is_bit_present value)
unfolding update_member_vector does_vector_contain_value
update_member_vector_lem is_bit_present first zero value = ground arith
update_member_vector_lem is_bit_present first (suc count) value =
    let rest = update_member_vector_lem is_bit_present (first + 1) count value in
    elim (Bool-cases (first == value)) [
      | inl e ↦ let same = ==→≡ first value e in rw (ap is_bit_present same) (ground (arith, rest))
      | inr e ↦ ground (arith, rest)
    ]

-- The numbers are distinct and ascend.
abbrev pub Ascends : ℕ → List ℕ → Type 0
Ascends low [] = Unit
Ascends low (x ∷ xs) = (low ≤ x) × Ascends (x + 1) xs

Ascends-le : (low low' : ℕ) (xs : List ℕ) → low ≤ low' → Ascends low' xs → Ascends low xs
Ascends-le low low' [] h a = tt
Ascends-le low low' (x ∷ xs) h a = (omega (arith, a.0), a.1)

pub update_member_vector-Ascends :
    (is_bit_present : ℕ → Bool) (first count : ℕ)
    → Ascends first (update_member_vector is_bit_present first count)
unfolding update_member_vector
update_member_vector-Ascends is_bit_present first zero = tt
update_member_vector-Ascends is_bit_present first (suc count) =
    let rest = update_member_vector-Ascends is_bit_present (first + 1) count in
    elim (Bool-cases (is_bit_present first)) [
      | inl e ↦ rw e (omega arith, rest)
      | inr e ↦ rw e (Ascends-le first (first + 1) _ (omega arith) rest)
    ]
