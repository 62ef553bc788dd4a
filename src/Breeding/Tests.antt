-- ===== src/Breeding/Tests.antt =====
-- The compatibility of species at concrete inputs.
use libpkmn.Common.{
  ℕ, ◌<◌, ◌≡◌, ◌≢◌, Bool-cases, inl, inr, ◌⊎◌, refl, true, false, List, [], ◌∷◌, arith, ◌==◌,
  if◌then◌else◌, pos, Result, ok, throw, invalid_argument,
}
use libpkmn.Enforce.{does_vector_contain_value}
use libpkmn.Breeding.ChildMoves.{
  Parent, ChildEntry, get_child_moves, inherited_moves, add_egg_moves, add_machine_moves,
  add_tutor_moves, add_levelup_moves, add_moves, add_natural_moves, knows_volt_tackle,
}
use libpkmn.Breeding.Inherited.{IsInherited}
use libpkmn.Breeding.Children.{IsOffspring, get_child_moves_lem}
use libpkmn.Breeding.ChildSpecies.{
  SpeciesEntry, SpeciesDb, earliest_species, get_possible_child_species,
}
use libpkmn.Breeding.Possible.{Line, IsClutch, earliest_species_lem, get_possible_child_species_lem}
use libpkmn.Breeding.{
  EggEntry, EggDb, are_egg_groups_valid_and_compatible, are_pokemon_species_compatible,
  are_species_valid_and_compatible, are_genders_compatible, does_pair_contain_value,
  do_pairs_have_common_valid_value,
}

abbrev bulbasaur : EggEntry
bulbasaur = record {
  species_id = pos 1;
  first_group = 1;
  second_group = 7;
  chance_male = 875;
  chance_female = 125;
}

abbrev charmander : EggEntry
charmander = record {
  species_id = pos 4;
  first_group = 1;
  second_group = 14;
  chance_male = 875;
  chance_female = 125;
}

abbrev ditto : EggEntry
ditto = record {
  species_id = pos 132;
  first_group = 13;
  second_group = 0;
  chance_male = 0;
  chance_female = 0;
}

abbrev egg_db : EggDb
egg_db = record {
  pokemon_entry = λ species.
      if species == 132 then ok ditto else if species == 1 then ok bulbasaur else ok charmander;
}

-- A Pikachu with a Light Ball and another, in the third generation (Emerald).
abbrev pikachu : Parent
pikachu = record {
  parent_game = 9;
  parent_species = 25;
  parent_item = 213;
  parent_moves = 3 ∷ 57 ∷ 0 ∷ 0 ∷ [];
}

abbrev pikachu_father : Parent
pikachu_father = record {
  parent_game = 9;
  parent_species = 25;
  parent_item = 0;
  parent_moves = 3 ∷ 86 ∷ 84 ∷ 0 ∷ [];
}

abbrev pichu_entry : ChildEntry
pichu_entry = record {
  egg_moves = 3 ∷ [];
  tm_hm_moves = 57 ∷ 92 ∷ [];
  tutor_moves = [];
  levelup_moves =
      record { move_id = 84; level = 1 }
      ∷ record { move_id = 204; level = 1 }
      ∷ record { move_id = 86; level = 8 }
      ∷ [];
}

abbrev only_pichu : ℕ → ℕ → ℕ → Result (List ℕ)
only_pichu mother father game = ok (172 ∷ [])

abbrev pichu_of : ℕ → ℕ → Result ChildEntry
pichu_of species game = ok pichu_entry

abbrev third : ℕ → Result ℕ
third game = ok 3

-- An egg move that both parents know is given twice.
given_twice :
    get_child_moves only_pichu pichu_of third pikachu pikachu_father 172
    ≡ ok (344 ∷ 3 ∷ 3 ∷ 84 ∷ [])
unfolding get_child_moves inherited_moves add_egg_moves add_machine_moves add_tutor_moves
    add_levelup_moves add_moves add_natural_moves knows_volt_tackle does_vector_contain_value
given_twice = refl

get_child_moves_lem_example :
    let r = get_child_moves only_pichu pichu_of third pikachu pikachu_father 172 in
    ((pikachu.parent_game ≡ pikachu_father.parent_game)
      × (does_vector_contain_value (172 ∷ []) 172 ≡ true)
      × (moves : List ℕ) × (r ≡ ok moves)
      × IsOffspring (IsInherited pikachu pikachu_father pichu_entry 172 3) moves)
    ⊎ (((pikachu.parent_game ≢ pikachu_father.parent_game)
          ⊎ (does_vector_contain_value (172 ∷ []) 172 ≡ false))
        × (r ≡ throw invalid_argument))
get_child_moves_lem_example =
    get_child_moves_lem only_pichu pichu_of third pikachu pikachu_father 172 3 (172 ∷ [])
      pichu_entry refl refl refl

-- Pikachu, which evolves from Pichu, and Ditto.
abbrev species_db : SpeciesDb
species_db = record {
  egg_db = egg_db;
  species_entry = λ species game.
      ok (record { species_number = species; males = 500; females = 500; entry_generation = 3 });
  evolves_from = λ generation species. if species == 25 then 172 else 0;
}

abbrev stage : ℕ → ℕ
stage species = if species == 25 then 1 else 0

stage_lowers :
    (s : ℕ) → species_db.evolves_from 3 s ≢ 0 → stage (species_db.evolves_from 3 s) < stage s
stage_lowers s h = elim (Bool-cases (s == 25)) [
  | inl e ↦ rw e (omega arith)
  | inr e ↦ absurd (h (rw e refl))
]

earliest_species_lem_example :
    Line species_db 3 25 (earliest_species species_db 2 3 25)
    × (species_db.evolves_from 3 (earliest_species species_db 2 3 25) ≡ 0)
earliest_species_lem_example =
    earliest_species_lem species_db stage 2 3 25 stage_lowers (omega arith)

abbrev starter_entry : SpeciesEntry
starter_entry = record { species_number = 1; males = 500; females = 500; entry_generation = 3 }

abbrev other_entry : SpeciesEntry
other_entry = record { species_number = 4; males = 500; females = 500; entry_generation = 3 }

are_compatible : are_pokemon_species_compatible egg_db 1 4 ≡ ok true
unfolding are_pokemon_species_compatible are_species_valid_and_compatible
    are_egg_groups_valid_and_compatible are_genders_compatible does_vector_contain_value
    does_pair_contain_value do_pairs_have_common_valid_value
are_compatible = refl

get_possible_child_species_lem_example :
    let r = get_possible_child_species species_db 2 3 1 4 7 in
    ((true ≡ true)
      × (starter_entry.males ≢ 1000)
      × (other_entry.females ≢ 1000)
      × (species : List ℕ) × (r ≡ ok species)
      × IsClutch species)
    ⊎ (((true ≡ false) ⊎ (starter_entry.males ≡ 1000) ⊎ (other_entry.females ≡ 1000))
        × (r ≡ throw invalid_argument))
get_possible_child_species_lem_example =
    get_possible_child_species_lem species_db 2 3 1 4 7 true starter_entry other_entry
      are_compatible refl refl
