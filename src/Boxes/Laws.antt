-- ===== src/Boxes/Laws.antt =====
-- `set_pokemon` of lib/pokemon_box_gbimpl.ipp and lib/pokemon_party_gbimpl.ipp keeps the Pokémon in the
-- first places of the list.
use libpkmn.Common.{
  ℕ, ◌≤◌, ◌<◌, ◌≡◌, refl, sym, ap, ◌∙◌, ◌≢◌, ◌↔◌, ◌⊎◌, inl, inr, false, ◌==◌, ==→≡, Bool-cases,
  length, set, set-set, get_or-set_self, Exception, Result, ok, throw, Result-cases,
}
use libpkmn.Common.Stateful.{>>=-ok}
use libpkmn.Pokedex.{Native}
use libpkmn.Boxes.{
  PokemonOps, TextOps, GbList, none_species, entry_at, pokemon_at, name_or_none, convert, set_names,
  change_pokemon,
}

-- What the lists rely on in the classes of Pokémon. A name that a Pokémon has, or "None", fits any
-- Pokémon of the same game.
pub record IsPokemonOps {P E : Type 0} (ops : PokemonOps P E) : Type 0 where
  pub native_species_none :
      (p : P)
      → (ops.native_species (ops.get_native_pc_data p) ≡ 0) ↔ (ops.get_species p ≡ none_species)
  pub native_species-zero_native : ops.native_species ops.zero_native ≡ 0
  pub of_native_data :
      (e : E) (g : ℕ)
      → (ops.get_native_pc_data (ops.of_native e g) ≡ e)
        × (ops.get_game_id (ops.of_native e g) ≡ g)
        × (ops.is_egg (ops.of_native e g) ≡ false)
  pub to_game_lem :
      (p q : P) (g : ℕ)
      → ops.to_game p g ≡ ok q
      → (ops.get_game_id q ≡ g)
        × (ops.get_species q ≡ ops.get_species p)
        × (ops.is_egg q ≡ ops.is_egg p)
  pub with_nickname_lem :
      (p q : P)
      → ops.get_game_id p ≡ ops.get_game_id q
      → (r : P) × (ops.with_nickname (name_or_none (ops.get_nickname q)) p ≡ ok r)
        × (ops.get_native_pc_data r ≡ ops.get_native_pc_data p)
        × (ops.get_game_id r ≡ ops.get_game_id p)
        × (ops.is_egg r ≡ ops.is_egg p)
  pub with_original_trainer_name_lem :
      (p q : P)
      → ops.get_game_id p ≡ ops.get_game_id q
      → (r : P) × (ops.with_original_trainer_name (name_or_none (ops.get_original_trainer_name q)) p
          ≡ ok r)
        × (ops.get_native_pc_data r ≡ ops.get_native_pc_data p)
        × (ops.get_game_id r ≡ ops.get_game_id p)
        × (ops.is_egg r ≡ ops.is_egg p)

module _ {P E T B : Type 0} (ops : PokemonOps P E) (text : TextOps T) (bits : Native B) where
  -- The Pokémon are in the first `count` places, the others are empty, and the objects hold what
  -- the save format holds.
  pub record IsContiguous (l : GbList P E T B) : Type 0 where
    pub capacity_positive : 0 < l.capacity
    pub capacity_byte : l.capacity < 256
    pub count_small : l.count ≤ l.capacity
    pub entries_length : length l.entries ≡ l.capacity
    pub pokemon_list_length : length l.pokemon_list ≡ l.capacity
    pub held : (i : ℕ) → i < l.count → ops.native_species (entry_at ops text bits l i) ≢ 0
    pub empty : (i : ℕ) → l.count ≤ i → ops.native_species (entry_at ops text bits l i) ≡ 0
    pub in_step :
        (i : ℕ)
        → i < l.capacity
        → ops.get_native_pc_data (pokemon_at ops text bits l i) ≡ entry_at ops text bits l i

  pub convert-cases :
      (p : P) (l : GbList P E T B)
      → IsPokemonOps ops
      → ((q : P) × (convert ops text bits p l ≡ ok q)
          × (ops.get_game_id q ≡ l.game_id)
          × (ops.get_species q ≡ ops.get_species p)
          × (ops.is_egg q ≡ ops.is_egg p))
        ⊎ ((e : Exception) × (convert ops text bits p l ≡ throw e)
            × (ops.to_game p l.game_id ≡ throw e))
  unfolding convert
  convert-cases p l laws = elim (Bool-cases (l.game_id == ops.get_game_id p)) [
    | inl same ↦
        let own : ops.get_game_id p ≡ l.game_id = sym (==→≡ l.game_id (ops.get_game_id p) same) in
        rw same (inl (p, refl, own, refl, refl))
    | inr other ↦ elim (Result-cases (ops.to_game p l.game_id)) [
      | inl (q, e) ↦
          let (game, species, egg) = laws.to_game_lem p q l.game_id e in
          rw (other, e) (inl (q, refl, game, species, egg))
      | inr (x, e) ↦ rw (other, e) (inr (x, refl, refl))
    ]
  ]

  abbrev pub with_pokemon : ℕ → P → GbList P E T B → GbList P E T B
  with_pokemon i p l = record l { pokemon_list = set l.pokemon_list i p }

  change_pokemon_lem :
      (i : ℕ) (change : P → Result P) (l : GbList P E T B) {r : P}
      → change (pokemon_at ops text bits l i) ≡ ok r
      → change_pokemon ops text bits i change l ≡ (ok tt, with_pokemon i r l)
  unfolding change_pokemon
  change_pokemon_lem i change l e = rw e refl

  -- The two names are given to the object at its place.
  pub set_names_lem :
      (i : ℕ) (p : P) (l : GbList P E T B)
      → IsPokemonOps ops
      → i < length l.pokemon_list
      → ops.get_game_id (pokemon_at ops text bits l i) ≡ ops.get_game_id p
      → (r : P) × (set_names ops text bits i p l
          ≡ (ok tt, record l { pokemon_list = set l.pokemon_list i r }))
        × (ops.get_native_pc_data r ≡ ops.get_native_pc_data (pokemon_at ops text bits l i))
        × (ops.is_egg r ≡ ops.is_egg (pokemon_at ops text bits l i))
  unfolding set_names
  set_names_lem i p l laws h same =
      let old = pokemon_at ops text bits l i in
      let (named, done, native, game, egg) = laws.with_nickname_lem old p same in
      let (owned, done', native', game', egg') =
        laws.with_original_trainer_name_lem named p (game ∙ same) in
      let nickname = ops.with_nickname (name_or_none (ops.get_nickname p)) in
      let trainer =
        ops.with_original_trainer_name (name_or_none (ops.get_original_trainer_name p)) in
      let read : pokemon_at ops text bits (with_pokemon i named l) i ≡ named =
        get_or-set_self l.pokemon_list i named _ h in
      let first = change_pokemon_lem i nickname l done in
      let second =
        change_pokemon_lem i trainer (with_pokemon i named l) (ap trainer read ∙ done') in
      let twice =
        >>=-ok (change_pokemon ops text bits i nickname)
          (λ _. change_pokemon ops text bits i trainer) l (ap (λ r. r.0) first)
        ∙ ap (λ r. change_pokemon ops text bits i trainer r.1) first
        ∙ second in
      (
        owned,
        twice
            ∙ ap (λ ps. (ok tt, record l { pokemon_list = ps }))
                (set-set l.pokemon_list i named owned),
        native' ∙ native,
        egg' ∙ egg,
      )
