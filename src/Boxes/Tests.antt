-- ===== src/Boxes/Tests.antt =====
-- Boxes at concrete inputs: a Pokémon has a species, which is also its struct in the save format, and
-- names of one letter.
use libpkmn.Common.{
  ℕ, Bool, true, false, some, List, [], ◌∷◌, ◌==◌, if◌then◌else◌, invalid_argument, Result, ok,
  throw, ◌>>=◌,
}
use libpkmn.Pokedex.{Native, Pokedex}
use libpkmn.Boxes.{PokemonOps, TextOps, GbList}

record Mon : Type 0 where
  mon_species : ℕ
  mon_game : ℕ
  mon_egg : Bool
  nickname : ℕ
  trainer : ℕ

abbrev first_letter : List ℕ → ℕ
first_letter [] = 0
first_letter (c ∷ cs) = c

-- Names of no letters are refused.
abbrev letter_of : List ℕ → Result ℕ
letter_of [] = throw invalid_argument
letter_of (c ∷ cs) = ok c

abbrev mons : PokemonOps Mon ℕ
mons = record {
  get_species = λ p. p.mon_species;
  get_game_id = λ p. p.mon_game;
  get_pokemon_index = λ p. p.mon_species;
  is_egg = λ p. p.mon_egg;
  get_nickname = λ p. p.nickname ∷ [];
  get_original_trainer_name = λ p. p.trainer ∷ [];
  get_native_pc_data = λ p. p.mon_species;
  to_game = λ p g. ok (record p { mon_game = g });
  of_native =
      λ e g. record { mon_species = e; mon_game = g; mon_egg = false; nickname = 65; trainer = 76 };
  with_nickname = λ name p. letter_of name >>= (λ c. ok (record p { nickname = c }));
  with_original_trainer_name = λ name p. letter_of name >>= (λ c. ok (record p { trainer = c }));
  set_is_egg = λ egg p. ok (record p { mon_egg = egg });
  native_species = λ e. e;
  zero_native = 0;
}

abbrev letters : TextOps (List ℕ)
letters = record {
  export_text = λ generation name. name;
  import_text = λ generation name. name;
  blank_text = [];
}

-- Two predicates.
abbrev Flags : Type 0
Flags = (ℕ → Bool) × (ℕ → Bool)

abbrev write_flag : (ℕ → Bool) → ℕ → Bool → ℕ → Bool
write_flag f i v j = if j == i then v else f j

abbrev flags : Native Flags
flags = record {
  seen = λ b i. b.0 i;
  owned = λ b i. b.1 i;
  set_seen = λ b i v. (write_flag b.0 i v, b.1);
  set_owned = λ b i v. (b.0, write_flag b.1 i v);
}

abbrev johto : Pokedex Flags
johto = record {
  game_id = 4;
  generation = 2;
  num_pokemon = 251;
  all_seen = [];
  dirty_seen = true;
  all_caught = [];
  dirty_caught = true;
  native = (λ i. false, λ i. false);
}

abbrev mon : ℕ → Bool → Mon
mon species egg = record {
  mon_species = species;
  mon_game = 4;
  mon_egg = egg;
  nickname = 66;
  trainer = 75;
}

-- Room for three, of which one is there.
abbrev box : GbList Mon ℕ (List ℕ) Flags
box = record {
  game_id = 4;
  generation = 2;
  capacity = 3;
  count = 1;
  species = 25 ∷ 0 ∷ 0 ∷ 255 ∷ [];
  entries = 25 ∷ 0 ∷ 0 ∷ [];
  nicknames = (66 ∷ []) ∷ [] ∷ [] ∷ [];
  otnames = (75 ∷ []) ∷ [] ∷ [] ∷ [];
  pokemon_list = mon 25 false ∷ mon 0 false ∷ mon 0 false ∷ [];
  pokedex = some johto;
}
