-- ===== src/Breeding/ChildSpecies.antt =====
-- `get_possible_child_species` of lib/breeding/child_info.cpp. A species or a game stands for the number
-- that it holds; chances are in thousandths.
use libpkmn.Common.{
  ℕ, zero, suc, not, ◌&&◌, ◌||◌, Option, none, some, List, [], ◌∷◌, leb, ◌==◌, if◌then◌else◌,
  Result, ok, invalid_argument, ◌>>=◌, ◌>>◌, guard,
}
use libpkmn.Enforce.{does_vector_contain_value}
use libpkmn.Breeding.{EggDb, are_pokemon_species_compatible}

-- What the function asks of `pokemon_entry(species, game, "")`.
pub record SpeciesEntry : Type 0 where
  pub species_number : ℕ
  pub males : ℕ
  pub females : ℕ
  -- The generation of the entry's game.
  pub entry_generation : ℕ

pub record SpeciesDb : Type 0 where
  pub egg_db : EggDb
  pub species_entry : ℕ → ℕ → Result SpeciesEntry
  -- The query for the species that this one evolves from, by generation: 0 where there is none.
  pub evolves_from : ℕ → ℕ → ℕ

-- The loop of `get_earliest_species_in_evolutionary_line`, with the number of turns that are left.
unfoldable pub earliest_species : SpeciesDb → ℕ → ℕ → ℕ → ℕ
earliest_species db zero generation species_id = species_id
earliest_species db (suc turns) generation species_id =
    let earlier = db.evolves_from generation species_id in
    let rest = earliest_species db turns generation earlier in
    if earlier == 0 then species_id else rest

abbrev pub nidoran_f : ℕ
nidoran_f = 29

abbrev pub nidoran_m : ℕ
nidoran_m = 32

abbrev pub ditto_species : ℕ
ditto_species = 132

abbrev pub volbeat : ℕ
volbeat = 313

abbrev pub illumise : ℕ
illumise = 314

abbrev pub phione : ℕ
phione = 489

abbrev pub manaphy : ℕ
manaphy = 490

-- `INCENSE_BREEDING_POKEMON`: species, and the evolution to add.
abbrev pub incense_breeding_pokemon : List (List ℕ × ℕ)
incense_breeding_pokemon =
    (183 ∷ 184 ∷ [], 183)
    ∷ (202 ∷ [], 202)
    ∷ (315 ∷ 407 ∷ [], 315)
    ∷ (358 ∷ [], 358)
    ∷ (185 ∷ [], 185)
    ∷ (122 ∷ [], 122)
    ∷ (113 ∷ 242 ∷ [], 113)
    ∷ (226 ∷ [], 226)
    ∷ (143 ∷ [], 143)
    ∷ []

-- The `find_if` over the table.
unfoldable pub find_incense : ℕ → ℕ → List (List ℕ × ℕ) → Option ℕ
find_incense mother_species father_species [] = none
find_incense mother_species father_species ((species, evolution_to_add) ∷ table) =
    let rest = find_incense mother_species father_species table in
    if does_vector_contain_value species mother_species
      || (mother_species == ditto_species && does_vector_contain_value species father_species)
    then some evolution_to_add
    else rest

-- What is inserted at the beginning.
unfoldable pub add_incense : Option ℕ → List ℕ → List ℕ
add_incense none possible_child_species = possible_child_species
add_incense (some evolution_to_add) possible_child_species =
    if not (does_vector_contain_value possible_child_species evolution_to_add)
    then evolution_to_add ∷ possible_child_species
    else possible_child_species

module _ (db : SpeciesDb) (turns : ℕ) where
  -- The chain of special cases, by the generation of the game.
  unfoldable pub base_species : ℕ → ℕ → ℕ → SpeciesEntry → SpeciesEntry → List ℕ
  base_species generation mother_species father_species mother_entry father_entry =
      if mother_species == nidoran_f
      then nidoran_f ∷ nidoran_m ∷ []
      else if mother_species == ditto_species && father_species == nidoran_m
      then (if leb 5 generation then nidoran_f ∷ nidoran_m ∷ [] else nidoran_m ∷ [])
      else if mother_species == ditto_species && father_species == volbeat
      then (if leb 5 generation then volbeat ∷ illumise ∷ [] else volbeat ∷ [])
      else if mother_species == illumise
      then volbeat ∷ illumise ∷ []
      else if (mother_species == manaphy && father_species == ditto_species)
          || (father_species == manaphy && mother_species == ditto_species)
      then phione ∷ []
      else if mother_species == ditto_species
      then earliest_species db turns father_entry.entry_generation father_entry.species_number ∷ []
      else earliest_species db turns mother_entry.entry_generation mother_entry.species_number ∷ []

  -- `get_possible_child_species`, where `generation` is that of the game.
  unfoldable pub get_possible_child_species : ℕ → ℕ → ℕ → ℕ → Result (List ℕ)
  get_possible_child_species generation mother_species father_species game = do
    compatible ← are_pokemon_species_compatible db.egg_db mother_species father_species
    guard compatible invalid_argument
    mother_entry ← db.species_entry mother_species game
    guard (not (mother_entry.males == 1000)) invalid_argument
    father_entry ← db.species_entry father_species game
    guard (not (father_entry.females == 1000)) invalid_argument
    ok (
        add_incense (find_incense mother_species father_species incense_breeding_pokemon)
          (base_species generation mother_species father_species mother_entry father_entry))
