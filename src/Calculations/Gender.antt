-- ===== src/Calculations/Gender.antt =====
-- Genders: lib/calculations/gender.cpp, and `get_gender_threshold` of lib/calculations/personality.cpp,
-- which is to agree with it. The chances come from the database, of which `PokemonEntry` is what the
-- calculations ask: they are in thousandths, since every float that the source compares them with is
-- a whole number of these.
use libpkmn.Common.{
  ℕ, ◌+◌, ◌%◌, ◌≤◌, ◌<◌, ◌≡◌, ◌↔◌, ◌⊎◌, false, not, ◌&&◌, ◌||◌, arith, ltb, ◌==◌, if◌then◌else◌, ℤ,
  pos_part, ◌≤ℤ◌, invalid_argument, Result, ok, guard, ◌>>=◌, ◌>>◌,
}
use libpkmn.Enforce.{StatLimits, enforce_iv_bounds}

pub data Gender : Type 0 where
  none_gender male female genderless : Gender

pub record PokemonEntry : Type 0 where
  pub chance_male : ℕ
  pub chance_female : ℕ
  pub first_ability : ℕ
  pub second_ability : ℕ
  pub hidden_ability : ℕ

-- `pokemon_entry(species, game, "")`, by the game's id.
pub record PokemonDb : Type 0 where
  pub pokemon_entry : ℕ → ℕ → Result PokemonEntry

-- `e_species::NONE` and `e_species::INVALID`, `e_game::CRYSTAL` and `e_game::OMEGA_RUBY`.
abbrev pub none_species : ℕ
none_species = 0

abbrev pub invalid_species : ℕ
invalid_species = 30000

abbrev pub crystal : ℕ
crystal = 6

abbrev pub omega_ruby : ℕ
omega_ruby = 25

-- What both functions do with the chances, the limits of each being their own: a Pokémon whose number
-- is below the limit for its chance is female.
unfoldable pub gender_by_limits : ℕ → ℕ → ℕ → ℕ → ℕ → ℕ → ℕ → Gender
gender_by_limits limit_875 limit_750 limit_500 limit_250 chance_male chance_female number =
    if chance_male == 0 && chance_female == 0
    then genderless
    else if chance_male == 1000
    then male
    else if chance_male == 875
    then (if ltb number limit_875 then female else male)
    else if chance_male == 750
    then (if ltb number limit_750 then female else male)
    else if chance_male == 500
    then (if ltb number limit_500 then female else male)
    else if chance_male == 250
    then (if ltb number limit_250 then female else male)
    else female

module _ (l : StatLimits) (db : PokemonDb) where
  unfoldable pub gen2_pokemon_gender : ℕ → ℤ → Result Gender
  unfolding gender_by_limits enforce_iv_bounds
  gen2_pokemon_gender species iv_attack = do
    enforce_iv_bounds l iv_attack false
    guard (not (species == none_species || species == invalid_species)) invalid_argument
    entry ← db.pokemon_entry species crystal
    ok (gender_by_limits 2 4 7 12 entry.chance_male entry.chance_female (pos_part iv_attack))

module _ (db : PokemonDb) where
  -- `personality & 0xFF` is the remainder.
  unfoldable pub modern_pokemon_gender : ℕ → ℕ → Result Gender
  unfolding gender_by_limits
  modern_pokemon_gender species personality = do
    guard (not (species == none_species || species == invalid_species)) invalid_argument
    let truncated_pid = personality % 256
    entry ← db.pokemon_entry species omega_ruby
    ok (gender_by_limits 31 64 127 191 entry.chance_male entry.chance_female truncated_pid)

unfoldable pub get_gender_threshold : ℕ → ℕ
get_gender_threshold chance_male =
    if chance_male == 875
    then 31
    else if chance_male == 750
    then 64
    else if chance_male == 500
    then 127
    else 191

-- The chances that the database may hold for a species.
abbrev pub HasGenderRatio : PokemonEntry → Type 0
HasGenderRatio entry =
    ((entry.chance_male ≡ 0) × (entry.chance_female ≡ 0))
    ⊎ ((entry.chance_male + entry.chance_female ≡ 1000)
        × ((entry.chance_male ≡ 0)
            ⊎ (entry.chance_male ≡ 250)
            ⊎ (entry.chance_male ≡ 500)
            ⊎ (entry.chance_male ≡ 750)
            ⊎ (entry.chance_male ≡ 875)
            ⊎ (entry.chance_male ≡ 1000)))

-- With a ratio that the games know, a higher Attack IV never turns a male Pokémon into another one, and
-- `gen2_pokemon_gender` says genderless exactly for a species that has neither gender.
pub gen2_pokemon_gender_mono :
    (l : StatLimits) (db : PokemonDb) (species : ℕ) (iv_attack iv_attack' : ℤ)
    {entry : PokemonEntry} {gender gender' : Gender}
    → db.pokemon_entry species crystal ≡ ok entry
    → HasGenderRatio entry
    → iv_attack ≤ℤ iv_attack'
    → gen2_pokemon_gender l db species iv_attack ≡ ok gender
    → gen2_pokemon_gender l db species iv_attack' ≡ ok gender'
    → ((gender ≡ male) → gender' ≡ male)
      × ((gender ≡ genderless) ↔ (entry.chance_male + entry.chance_female ≡ 0))
unfolding gen2_pokemon_gender gender_by_limits
gen2_pokemon_gender_mono l db species iv_attack iv_attack' {entry} {gender} {gender'} q ratio h e
      e' =
    ground arith

-- With a ratio that the games know, a Pokémon of either gender and of a species that has both is female
-- exactly if the low byte of its personality is below the threshold that `generate_personality` uses.
pub modern_pokemon_gender_iff :
    (db : PokemonDb) (species personality : ℕ) {entry : PokemonEntry} {gender : Gender}
    → db.pokemon_entry species omega_ruby ≡ ok entry
    → HasGenderRatio entry
    → 0 < entry.chance_male
    → 0 < entry.chance_female
    → modern_pokemon_gender db species personality ≡ ok gender
    → ((gender ≡ female) ↔ (personality % 256 < get_gender_threshold entry.chance_male))
      × ((gender ≡ male) ↔ (get_gender_threshold entry.chance_male ≤ personality % 256))
unfolding modern_pokemon_gender gender_by_limits get_gender_threshold
modern_pokemon_gender_iff db species personality {entry} {gender} q ratio a b e = ground arith
