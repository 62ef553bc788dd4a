-- ===== src/Calculations/Tests.antt =====
-- The calculations at concrete inputs.
use libpkmn.Common.{◌%◌, ◌≡◌, refl, ◌↔◌, false, some, [], ◌∷◌, arith, pos, ok}
use libpkmn.Enforce.{
  StatLimits, IsDocumented, enforce_bounds, enforce_value_in_vector, enforce_ev_bounds,
  enforce_iv_bounds, does_vector_contain_value,
}
use libpkmn.Calculations.Shininess.{modern_shiny, is_shiny_from}
use libpkmn.Calculations.Stats.{get_gb_stat, gb_stat_common, isqrt}
use libpkmn.Calculations.Gender.{
  male, PokemonEntry, PokemonDb, HasGenderRatio, modern_pokemon_gender, get_gender_threshold,
}
use libpkmn.Calculations.Personality.{
  generate_personality, is_wanted, candidates, first_wanted, ability_remainder, check_gender,
  nature_of,
}
use libpkmn.Calculations.Personality.Sound.{generate_personality_sound}

abbrev documented : StatLimits
documented = record {
  min_gb_ev = pos 0;
  max_gb_ev = pos 65535;
  min_gb_iv = pos 0;
  max_gb_iv = pos 15;
  min_ev = pos 0;
  max_ev = pos 255;
  min_iv = pos 0;
  max_iv = pos 31;
}

documented-IsDocumented : IsDocumented documented
documented-IsDocumented = record {
  gb_ev_range = (refl, refl);
  gb_iv_range = (refl, refl);
  ev_range = (refl, refl);
  iv_range = (refl, refl);
}

attack_5 : get_gb_stat documented 2 50 100 (pos 100) (pos 5) ≡ ok 111
unfolding get_gb_stat gb_stat_common isqrt enforce_value_in_vector enforce_ev_bounds
    enforce_iv_bounds enforce_bounds does_vector_contain_value
attack_5 = refl

attack_9 : get_gb_stat documented 2 50 100 (pos 100) (pos 9) ≡ ok 115
unfolding get_gb_stat gb_stat_common isqrt enforce_value_in_vector enforce_ev_bounds
    enforce_iv_bounds enforce_bounds does_vector_contain_value
attack_9 = refl

abbrev mostly_male : PokemonEntry
mostly_male = record {
  chance_male = 875;
  chance_female = 125;
  first_ability = 65;
  second_ability = 0;
  hidden_ability = 34;
}

abbrev mostly_male_db : PokemonDb
mostly_male_db = record { pokemon_entry = λ species game. ok mostly_male }

mostly_male-HasGenderRatio : HasGenderRatio mostly_male
mostly_male-HasGenderRatio = ground arith

-- Two passes: the first value that is tried, 831, has another nature, and is odd.
generated :
    generate_personality mostly_male_db 1 0 false 65 male 5 (800 ∷ 32 ∷ 256 ∷ 17 ∷ [])
    ≡ ok (some 304)
unfolding generate_personality ability_remainder check_gender get_gender_threshold candidates
    first_wanted is_wanted modern_shiny is_shiny_from
generated = refl

generate_personality_sound_example :
    (modern_shiny 304 0 ≡ false)
    × (modern_pokemon_gender mostly_male_db 1 304 ≡ ok male)
    × (nature_of 304 ≡ 5)
    × ((304 % 2 ≡ 1) ↔ (65 ≡ mostly_male.second_ability))
generate_personality_sound_example =
    generate_personality_sound mostly_male_db 1 0 false 65 male 5 (800 ∷ 32 ∷ 256 ∷ 17 ∷ []) refl
      mostly_male-HasGenderRatio generated
