-- ===== src/Calculations/Personality/Sound.antt =====
-- What `generate_personality` of lib/calculations/personality.cpp returns has the shininess, the gender,
-- the nature and the ability that were asked for.
use libpkmn.Common.{
  ℕ, ◌+◌, ◌-◌, ◌%◌, ◌<◌, ◌≡◌, refl, ◌≢◌, ◌↔◌, ◌⊎◌, inl, inr, Bool, true, false, Option, none, some,
  List, [], ◌∷◌, arith, Bool-cases, All, ok, Result-cases,
}
use libpkmn.Calculations.Gender.{
  Gender, male, female, genderless, none_gender, PokemonEntry, PokemonDb, HasGenderRatio,
  get_gender_threshold, modern_pokemon_gender, gender_by_limits, omega_ruby, none_species,
  invalid_species,
}
use libpkmn.Calculations.Shininess.{modern_shiny}
use libpkmn.Calculations.Personality.{
  with_low_byte, is_wanted, candidates, first_wanted, check_gender, ability_remainder,
  generate_personality, nature_of,
}

first_wanted-All :
    {P : ℕ → Type 0} (wanted : ℕ → Bool) (rets : List ℕ)
    → All P rets
    → ((ret : ℕ) × (first_wanted wanted rets ≡ some ret) × (wanted ret ≡ true) × P ret)
      ⊎ ((first_wanted wanted rets ≡ none) × All (λ ret. wanted ret ≡ false) rets)
unfolding first_wanted
first_wanted-All wanted [] h = inr (refl, tt)
first_wanted-All wanted (x ∷ rets) h = elim (Bool-cases (wanted x)) [
  | inl e ↦ rw e (inl (x, refl, e, h.0))
  | inr e ↦ rw e (elim (first_wanted-All wanted rets h.1) [
    | inl found ↦ inl found
    | inr (gone, all) ↦ inr (gone, (refl, all))
  ])
]

abbrev IsOf : Gender → PokemonEntry → ℕ → Type 0
IsOf gender entry ret =
    gender_by_limits 31 64 127 191 entry.chance_male entry.chance_female (ret % 256) ≡ gender

with_low_byte-low : (r low : ℕ) → low < 256 → with_low_byte r low % 256 ≡ low
with_low_byte-low r low h = omega arith

male-IsOf :
    (entry : PokemonEntry) (r q : ℕ)
    → HasGenderRatio entry
    → check_gender entry male ≡ ok tt
    → IsOf male entry (
        with_low_byte r (
          q % (255 - get_gender_threshold entry.chance_male)
          + get_gender_threshold entry.chance_male))
unfolding check_gender get_gender_threshold gender_by_limits
male-IsOf entry r q ratio h = ground arith

female-IsOf :
    (entry : PokemonEntry) (r q : ℕ)
    → HasGenderRatio entry
    → check_gender entry female ≡ ok tt
    → IsOf female entry (with_low_byte r (q % get_gender_threshold entry.chance_male))
unfolding check_gender get_gender_threshold gender_by_limits
female-IsOf entry r q ratio h = ground arith

genderless-IsOf :
    (entry : PokemonEntry) (r : ℕ) → check_gender entry genderless ≡ ok tt → IsOf genderless entry r
unfolding check_gender gender_by_limits
genderless-IsOf entry r h = ground arith

none-refused : (entry : PokemonEntry) → ¬ (check_gender entry none_gender ≡ ok tt)
unfolding check_gender
none-refused entry h = ground arith

candidates-IsOf :
    (gender : Gender) (entry : PokemonEntry) (draws : List ℕ)
    → HasGenderRatio entry
    → check_gender entry gender ≡ ok tt
    → All (IsOf gender entry) (candidates gender (get_gender_threshold entry.chance_male) draws)
unfolding candidates
candidates-IsOf none_gender entry draws ratio h = absurd (none-refused entry h)
candidates-IsOf genderless entry [] ratio h = tt
candidates-IsOf genderless entry (r ∷ draws) ratio h =
    (genderless-IsOf entry r h, candidates-IsOf genderless entry draws ratio h)
candidates-IsOf male entry [] ratio h = tt
candidates-IsOf male entry (r ∷ []) ratio h = tt
candidates-IsOf male entry (r ∷ q ∷ draws) ratio h =
    (male-IsOf entry r q ratio h, candidates-IsOf male entry draws ratio h)
candidates-IsOf female entry [] ratio h = tt
candidates-IsOf female entry (r ∷ []) ratio h = tt
candidates-IsOf female entry (r ∷ q ∷ draws) ratio h =
    (female-IsOf entry r q ratio h, candidates-IsOf female entry draws ratio h)

-- The checks that came before a value was returned, all passed.
passed :
    (db : PokemonDb) (species trainer_id : ℕ) (shiny : Bool) (ability : ℕ) (gender : Gender)
    (nature : ℕ) (draws : List ℕ) {entry : PokemonEntry} {result : Option ℕ}
    → db.pokemon_entry species omega_ruby ≡ ok entry
    → generate_personality db species trainer_id shiny ability gender nature draws ≡ ok result
    → (ability_modulo : ℕ) × (ability_remainder entry ability ≡ ok ability_modulo)
      × (check_gender entry gender ≡ ok tt)
      × (species ≢ none_species)
      × (species ≢ invalid_species)
      × (nature ≢ 0)
      × (first_wanted
            (is_wanted trainer_id shiny ability_modulo (nature - 1))
            (candidates gender (get_gender_threshold entry.chance_male) draws)
          ≡ result)
unfolding generate_personality
passed db species trainer_id shiny ability gender nature draws {entry} {result} e h =
    elim (Result-cases (ability_remainder entry ability)) [
      | inl (m, a) ↦ (m, a, ground arith, ground arith, ground arith, ground arith, ground arith)
      | inr (x, a) ↦ absurd (ground arith)
    ]

-- A personality that `generate_personality` returns is shiny for the trainer exactly if that was asked
-- for, gives the species the gender and the nature that were asked for, and is odd exactly if the
-- ability is the species's second one; if the species's genders have a ratio that the games know.
pub generate_personality_sound :
    (db : PokemonDb) (species trainer_id : ℕ) (shiny : Bool) (ability : ℕ) (gender : Gender)
    (nature : ℕ) (draws : List ℕ) {entry : PokemonEntry} {ret : ℕ}
    → db.pokemon_entry species omega_ruby ≡ ok entry
    → HasGenderRatio entry
    → generate_personality db species trainer_id shiny ability gender nature draws ≡ ok (some ret)
    → (modern_shiny ret trainer_id ≡ shiny)
      × (modern_pokemon_gender db species ret ≡ ok gender)
      × (nature_of ret ≡ nature)
      × ((ret % 2 ≡ 1) ↔ (ability ≡ entry.second_ability))
unfolding modern_pokemon_gender ability_remainder is_wanted nature_of
generate_personality_sound db species trainer_id shiny ability gender nature draws {entry} {ret} e
      ratio h =
    let (m, a, g, ns, ni, nn, f) =
      passed db species trainer_id shiny ability gender nature draws e h in
    elim (first_wanted-All (is_wanted trainer_id shiny m (nature - 1)) _
      (candidates-IsOf gender entry draws ratio g)) [
        | inl (r, found, w, p) ↦ ground arith
        | inr (gone, _) ↦ absurd (ground arith)
      ]
