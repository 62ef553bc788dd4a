-- ===== src/Calculations/Personality.antt =====
-- `generate_personality` of lib/calculations/personality.cpp. The random numbers are a parameter, the
-- list of what `rng.rand()` returns: a pass of the loop takes two of them for a male or a female
-- Pokémon, and one for another. `none` is a loop that has run through the list without an end.
pub mod Sound
use libpkmn.Common.{
  ℕ, ◌+◌, ◌-◌, ◌*◌, ◌/◌, ◌%◌, Bool, true, false, not, ◌&&◌, ◌||◌, Option, none, some, List, [], ◌∷◌,
  ◌==◌, if◌then◌else◌, invalid_argument, Result, ok, throw, guard, ◌>>=◌, ◌>>◌,
}
use libpkmn.Calculations.Gender.{
  Gender, male, female, genderless, none_gender, PokemonEntry, PokemonDb, get_gender_threshold,
  omega_ruby, none_species, invalid_species,
}
use libpkmn.Calculations.Shininess.{modern_shiny}

abbrev pub is_male : Gender → Bool
is_male male = true
is_male none_gender = false
is_male female = false
is_male genderless = false

abbrev pub is_female : Gender → Bool
is_female female = true
is_female none_gender = false
is_female male = false
is_female genderless = false

abbrev pub is_genderless : Gender → Bool
is_genderless genderless = true
is_genderless none_gender = false
is_genderless male = false
is_genderless female = false

-- `ret &= ~0xFF; ret |= low`, where low has eight digits.
abbrev pub with_low_byte : ℕ → ℕ → ℕ
with_low_byte ret low = ret / 256 * 256 + low

abbrev pub none_ability : ℕ
none_ability = 0

abbrev pub none_nature : ℕ
none_nature = 0

abbrev pub num_natures : ℕ
num_natures = 25

-- `nature(personality)` of lib/calculations/nature.cpp.
unfoldable pub nature_of : ℕ → ℕ
nature_of personality = personality % num_natures + 1

-- The condition that ends the loop.
unfoldable pub is_wanted : ℕ → Bool → ℕ → ℕ → ℕ → Bool
is_wanted trainer_id shiny ability_modulo nature_index ret =
    (if shiny then modern_shiny ret trainer_id else not (modern_shiny ret trainer_id))
    && ret % num_natures == nature_index
    && ret % 2 == ability_modulo

-- The values of `ret` that the passes of the loop try.
unfoldable pub candidates : Gender → ℕ → List ℕ → List ℕ
candidates none_gender gender_threshold draws = draws
candidates genderless gender_threshold draws = draws
candidates male gender_threshold [] = []
candidates male gender_threshold (r ∷ []) = []
candidates male gender_threshold (r ∷ q ∷ draws) =
    with_low_byte r (q % (255 - gender_threshold) + gender_threshold)
    ∷ candidates male gender_threshold draws
candidates female gender_threshold [] = []
candidates female gender_threshold (r ∷ []) = []
candidates female gender_threshold (r ∷ q ∷ draws) =
    with_low_byte r (q % gender_threshold) ∷ candidates female gender_threshold draws

-- The loop: it ends with the first of them that is wanted.
unfoldable pub first_wanted : (ℕ → Bool) → List ℕ → Option ℕ
first_wanted wanted [] = none
first_wanted wanted (ret ∷ rets) =
    let later = first_wanted wanted rets in if wanted ret then some ret else later

-- The checks of the ability, and the remainder that it asks for.
unfoldable pub ability_remainder : PokemonEntry → ℕ → Result ℕ
ability_remainder entry ability =
    if ability == entry.second_ability
    then if not (ability == none_ability) then ok 1 else throw invalid_argument
    else if not (ability == entry.first_ability) && not (ability == entry.hidden_ability)
    then throw invalid_argument
    else ok 0

unfoldable pub check_gender : PokemonEntry → Gender → Result (Unit {0})
check_gender entry gender =
    if entry.chance_male + entry.chance_female == 0
    then guard (is_genderless gender) invalid_argument
    else if entry.chance_male == 1000
    then guard (is_male gender) invalid_argument
    else if entry.chance_female == 1000
    then guard (is_female gender) invalid_argument
    else guard (is_male gender || is_female gender) invalid_argument

-- `nature_index` is unsigned; nature 0 was refused before.
unfoldable pub generate_personality :
    PokemonDb → ℕ → ℕ → Bool → ℕ → Gender → ℕ → List ℕ → Result (Option ℕ)
generate_personality db species trainer_id shiny ability gender nature draws = do
  guard (is_male gender || is_female gender || is_genderless gender) invalid_argument
  guard (not (species == none_species || species == invalid_species)) invalid_argument
  guard (not (nature == none_nature)) invalid_argument
  entry ← db.pokemon_entry species omega_ruby
  ability_modulo ← ability_remainder entry ability
  check_gender entry gender
  let nature_index = nature - 1
  let gender_threshold = get_gender_threshold entry.chance_male
  ok (
      first_wanted (is_wanted trainer_id shiny ability_modulo nature_index)
        (candidates gender gender_threshold draws))
