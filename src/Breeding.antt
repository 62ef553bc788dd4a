-- ===== src/Breeding.antt =====
-- Breeding: lib/breeding/compatibility.cpp. An egg group is the number of its `e_egg_group`; chances are
-- in thousandths.
pub mod Laws
pub mod ChildMoves
pub mod ChildSpecies
pub mod Possible
pub mod Inheritance
pub mod Inherited
pub mod Children
mod Tests
use libpkmn.Common.{
  ℕ, Bool, true, false, not, ◌&&◌, ◌||◌, [], ◌∷◌, ◌==◌, if◌then◌else◌, ℤ, pos, pos_part, eq_ℤ,
  ltb_ℤ, Result, ok, ◌>>=◌, ◌>>◌,
}
use libpkmn.Enforce.{does_vector_contain_value}

pub record EggEntry : Type 0 where
  pub species_id : ℤ
  pub first_group : ℕ
  pub second_group : ℕ
  pub chance_male : ℕ
  pub chance_female : ℕ

-- `pokemon_entry(species, e_game::X, "")`
pub record EggDb : Type 0 where
  pub pokemon_entry : ℕ → Result EggEntry

abbrev pub no_group : ℕ
no_group = 0

abbrev pub ditto_group : ℕ
ditto_group = 13

abbrev pub undiscovered_group : ℕ
undiscovered_group = 15

unfoldable pub does_pair_contain_value : ℕ × ℕ → ℕ → Bool
does_pair_contain_value (first, second) value = first == value || second == value

-- `|=` of a value that is false is an assignment.
unfoldable pub do_pairs_have_common_valid_value : ℕ × ℕ → ℕ × ℕ → ℕ → Bool
do_pairs_have_common_valid_value (first1, second1) (first2, second2) none_value =
    let common1 = first1 == first2 in
    let common2 =
      if not common1 && not (first2 == none_value) then common1 || first1 == second2 else common1 in
    let common3 =
      if not common2 && not (second1 == none_value)
      then (let third = common2 || second1 == first2 in
          if not third && not (second2 == none_value) then third || second1 == second2 else third)
      else common2 in
    common3

unfoldable pub are_species_valid_and_compatible : ℤ → ℤ → Bool
unfolding does_vector_contain_value
are_species_valid_and_compatible pokemon1_id pokemon2_id =
    let valid = not (ltb_ℤ pokemon1_id (pos 1)) && not (ltb_ℤ pokemon2_id (pos 1)) in
    let not_ditto =
      if valid then not (eq_ℤ pokemon1_id (pos 132) && eq_ℤ pokemon2_id (pos 132)) else valid in
    let nonbreedable = 31 ∷ 34 ∷ [] in
    if not_ditto
    then not (
        does_vector_contain_value nonbreedable (pos_part pokemon1_id)
        || does_vector_contain_value nonbreedable (pos_part pokemon2_id))
    else not_ditto

unfoldable pub are_egg_groups_valid_and_compatible : EggEntry → EggEntry → Bool
unfolding does_pair_contain_value do_pairs_have_common_valid_value
are_egg_groups_valid_and_compatible entry1 entry2 =
    let groups1 : ℕ × ℕ = (entry1.first_group, entry1.second_group) in
    let groups2 : ℕ × ℕ = (entry2.first_group, entry2.second_group) in
    let is_pokemon1_ditto = entry1.first_group == ditto_group in
    let is_pokemon2_ditto = entry2.first_group == ditto_group in
    if does_pair_contain_value groups1 undiscovered_group
      || does_pair_contain_value groups2 undiscovered_group
    then false
    else if is_pokemon1_ditto && is_pokemon2_ditto
    then false
    else if not is_pokemon1_ditto && not is_pokemon2_ditto
    then do_pairs_have_common_valid_value groups1 groups2 no_group
    else true

unfoldable pub are_genders_compatible : EggEntry → EggEntry → Bool
are_genders_compatible entry1 entry2 =
    if entry1.chance_female == 1000 && entry2.chance_female == 1000
    then false
    else not (entry1.chance_male == 1000 && entry2.chance_male == 1000)

unfoldable pub are_pokemon_species_compatible : EggDb → ℕ → ℕ → Result Bool
are_pokemon_species_compatible db species1 species2 = do
  entry1 ← db.pokemon_entry species1
  entry2 ← db.pokemon_entry species2
  ok (
      are_species_valid_and_compatible entry1.species_id entry2.species_id
      && are_egg_groups_valid_and_compatible entry1 entry2
      && are_genders_compatible entry1 entry2)
