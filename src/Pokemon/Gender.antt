-- ===== src/Pokemon/Gender.antt =====
-- `_set_modern_gender` of lib/pokemon_impl.cpp. The chances are in thousandths, as in the calculations.
use libpkmn.Common.{
  ℕ, ◌/◌, ◌≤◌, ◌≡◌, ◌≢◌, Bool, true, false, not, ◌&&◌, arith, ◌==◌, if◌then◌else◌, invalid_argument,
  Result, ok, throw, ◌>>=◌,
}
use libpkmn.Calculations.Gender.{
  Gender, male, female, genderless, PokemonEntry, PokemonDb, HasGenderRatio, modern_pokemon_gender,
  gender_by_limits, omega_ruby, none_species, invalid_species,
}
use libpkmn.Calculations.Personality.{is_male, is_female, is_genderless, with_low_byte}

-- The gender's checks. `ok false` is the early return.
unfoldable pub check_new_gender : PokemonEntry → Gender → Result Bool
check_new_gender entry gender =
    if entry.chance_male == 0 && entry.chance_female == 0
    then (if not (is_genderless gender) then throw invalid_argument else ok false)
    else if entry.chance_male == 1000 && not (is_male gender)
    then throw invalid_argument
    else if entry.chance_female == 1000 && not (is_female gender)
    then throw invalid_argument
    else if is_genderless gender
    then throw invalid_argument
    else ok true

module _ (rand : ℕ → ℕ → ℕ) where
  -- What is done to the personality, `rand` being the call of `rng.rand` with its bounds.
  unfoldable pub write_gender : PokemonEntry → ℕ → Gender → ℕ
  write_gender entry personality gender =
      if is_male gender
      then with_low_byte personality 255
      else if entry.chance_male == 875
      then with_low_byte personality (rand 0 30)
      else if entry.chance_male == 750
      then with_low_byte personality (rand 0 63)
      else if entry.chance_male == 500
      then with_low_byte personality (rand 0 126)
      else with_low_byte personality (rand 0 190)

  unfoldable pub set_modern_gender : PokemonEntry → ℕ → Gender → Result ℕ
  unfolding check_new_gender write_gender
  set_modern_gender entry personality gender = do
    is_written ← check_new_gender entry gender
    ok (if is_written then write_gender entry personality gender else personality)

  -- Where `_set_modern_gender` returns, `modern_pokemon_gender` of the new personality is the
  -- gender that was set, where `e_gender::NONE` counts as female, and the digits above the low
  -- byte are kept. The chances are a ratio that the games know, the same in the Pokémon's own
  -- game, and `rng.rand` stays below its upper bound.
  pub modern_pokemon_gender-set_modern_gender :
      (db : PokemonDb) (entry : PokemonEntry) (species personality : ℕ) (gender : Gender)
      {personality' : ℕ}
      → ((low high : ℕ) → rand low high ≤ high)
      → db.pokemon_entry species omega_ruby ≡ ok entry
      → HasGenderRatio entry
      → species ≢ none_species
      → species ≢ invalid_species
      → set_modern_gender entry personality gender ≡ ok personality'
      → (modern_pokemon_gender db species personality'
          ≡ ok (
              if is_male gender then male else if is_genderless gender then genderless else female))
        × (personality' / 256 ≡ personality / 256)
  unfolding set_modern_gender check_new_gender write_gender modern_pokemon_gender gender_by_limits
  modern_pokemon_gender-set_modern_gender db entry species personality gender {personality'} draws q
        ratio a b e =
      ground (arith, draws 0 30, draws 0 63, draws 0 126, draws 0 190)
