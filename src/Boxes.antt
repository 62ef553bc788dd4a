-- ===== src/Boxes.antt =====
-- Boxes and parties of the first two generations: lib/pokemon_box_gbimpl.ipp and
-- lib/pokemon_party_gbimpl.ipp, which do nearly the same to a list of the save format. What they ask of
-- a Pokémon is the interface `PokemonOps`, which the classes in lib/pokemon_gen1impl.cpp and
-- lib/pokemon_gen2impl.cpp offer; what they call of the pksav library on texts is `TextOps`, whose
-- functions fail only on null pointers, which are not passed. Locks are not modelled.
pub mod Save
pub mod Laws
pub mod Steps
pub mod Counts
pub mod Contiguous
pub mod Eggs
mod Tests
use libpkmn.Common.{
  bit_or-halves, power_suc, Dict, lookup, insert, lookup-insert, has_key, set_bit, bit-set_bit,
  set_bit_bound, bit, bit_xor-halves, ℕ, zero, suc, ◌+◌, ◌-◌, ◌*◌, ◌/◌, ◌%◌, ◌^◌, ◌≤◌, ◌<◌, min,
  max, bit_and, bit_or, bit_xor, ◌≡◌, refl, sym, ap, ◌∙◌, subst, ◌≢◌, ◌↔◌, ◌⊎◌, inl, inr, Bool,
  true, false, not, ◌&&◌, ◌||◌, Option, none, some, List, [], ◌∷◌, ◌++◌, map, arith, ltb, leb, ◌==◌,
  if◌then◌else◌, ==→≡, ==_refl, ≢→==, Bool-cases, Option-cases, length, get_elem?, get_or, set,
  erase_idx, insert_idx, resize, replicate, All, length-append, length-set, length-resize,
  length-erase_idx, length-insert_idx, length-replicate, length-map, get_or-set, set-set,
  get_or-set_self, get_or-set_ne, ℤ, pos, negsuc, pos_part, neg_part, sub_ℕ, eq_ℤ, min_ℤ, ◌≤ℤ◌,
  ltb_ℤ, Reason, no_more_of_item, no_new_items, no_more_items, invalid_item, invalid_game,
  invalid_list, query_failed, can_only_add, can_only_remove, Exception, out_of_range,
  invalid_argument, domain_error, range_error, feature_not_in_game_error, unimplemented_error,
  runtime_error, assertion_failed, Result, ok, throw, guard, Result-cases,
}
use libpkmn.Common.Stateful.{Action, lift, get, modify, ◌>>=◌, ◌>>◌}
use libpkmn.Enforce.{enforce_bounds}
use libpkmn.Pokedex.{Native, Pokedex, set_has_seen, set_has_caught}

-- A Pokémon `P` and its struct in the save format `E`. `of_native` is the constructor that copies a
-- struct, for a game's id.
pub record PokemonOps (P E : Type 0) : Type 0 where
  pub get_species : P → ℕ
  pub get_game_id : P → ℕ
  pub get_pokemon_index : P → ℕ
  pub is_egg : P → Bool
  pub get_nickname : P → List ℕ
  pub get_original_trainer_name : P → List ℕ
  pub get_native_pc_data : P → E
  pub to_game : P → ℕ → Result P
  pub of_native : E → ℕ → P
  pub with_nickname : List ℕ → P → Result P
  pub with_original_trainer_name : List ℕ → P → Result P
  pub set_is_egg : Bool → P → Result P
  pub native_species : E → ℕ
  pub zero_native : E

-- `pksav_gen1_export_text`, `pksav_gen2_import_text` and so on, by the generation; `blank_text` is
-- filled with 0x50.
pub record TextOps (T : Type 0) : Type 0 where
  pub export_text : ℕ → List ℕ → T
  pub import_text : ℕ → T → List ℕ
  pub blank_text : T

-- `e_species::NONE`, and the species byte of an egg.
abbrev pub none_species : ℕ
none_species = 0

abbrev pub gen2_egg_id : ℕ
gen2_egg_id = 253

-- "None".
abbrev pub none_name : List ℕ
none_name = 78 ∷ 111 ∷ 110 ∷ 101 ∷ []

-- The fields of the classes and of `_pksav_box` or `_pksav_party`.
pub record GbList (P E T B : Type 0) : Type 0 where
  pub game_id : ℕ
  pub generation : ℕ
  pub capacity : ℕ
  pub count : ℕ
  pub species : List ℕ
  pub entries : List E
  pub nicknames : List T
  pub otnames : List T
  pub pokemon_list : List P
  pub pokedex : Option (Pokedex B)

abbrev pub map_pokedex : {D : Type 0} → (D → D) → Option D → Option D
map_pokedex f none = none
map_pokedex f (some d) = some (f d)

-- A species is seen and caught. The setters of a Pokédex are two calls deep.
unfoldable pub register : {B : Type 0} → Native B → ℕ → Pokedex B → Pokedex B
register bits species d = set_has_caught bits 2 species true (set_has_seen bits 2 species true d)

-- "Don't set empty names."
abbrev pub name_or_none : List ℕ → List ℕ
name_or_none name = if length name == 0 then none_name else name

module _ {P E T B : Type 0} (ops : PokemonOps P E) (text : TextOps T) (bits : Native B) where
  abbrev pub entry_at : GbList P E T B → ℕ → E
  entry_at l i = get_or l.entries i ops.zero_native

  abbrev pub pokemon_at : GbList P E T B → ℕ → P
  pokemon_at l i = get_or l.pokemon_list i (ops.of_native ops.zero_native l.game_id)

  -- The check that no gap is left.
  unfoldable pub leaves_gap : ℤ → P → GbList P E T B → Bool
  leaves_gap index new_pokemon l =
      ltb_ℤ index (sub_ℕ l.count 1) && ops.get_species new_pokemon == none_species

  unfoldable pub max_index : GbList P E T B → ℤ
  max_index l = min_ℤ (sub_ℕ l.capacity 1) (pos l.count)

  -- The Pokémon itself, or converted to the list's game.
  unfoldable pub convert : P → GbList P E T B → Result P
  convert new_pokemon l =
      if l.game_id == ops.get_game_id new_pokemon
      then ok new_pokemon
      else ops.to_game new_pokemon l.game_id

  -- The struct is copied to the list, and a new object made of the copy.
  unfoldable pub place : ℕ → P → GbList P E T B → GbList P E T B
  place i p l = record l {
    entries = set l.entries i (ops.get_native_pc_data p);
    pokemon_list = set l.pokemon_list i (ops.of_native (ops.get_native_pc_data p) l.game_id);
  }

  -- A call that changes the object at a place of `_pokemon_list`.
  unfoldable pub change_pokemon : ℕ → (P → Result P) → Action (GbList P E T B) (Unit {0})
  change_pokemon i change = do
    l ← get
    p ← lift (change (pokemon_at l i))
    modify (λ l. record l { pokemon_list = set l.pokemon_list i p })

  unfoldable pub set_names : ℕ → P → Action (GbList P E T B) (Unit {0})
  set_names i p = do
    change_pokemon i (ops.with_nickname (name_or_none (ops.get_nickname p)))
    change_pokemon i
        (ops.with_original_trainer_name (name_or_none (ops.get_original_trainer_name p)))

  -- A `uint8_t` that goes up or down by one. `num_pokemon` is the count at the call.
  unfoldable pub update_count : ℕ → ℕ → P → GbList P E T B → GbList P E T B
  update_count i num_pokemon p l =
      let is_none = ops.get_species p == none_species in
      if i == num_pokemon && not is_none
      then record l { count = (l.count + 1) % 256 }
      else if i + 1 == num_pokemon && is_none
      then record l { count = (l.count + 255) % 256 }
      else l

  unfoldable pub species_byte : ℕ → P → ℕ
  species_byte generation p =
      if generation == 2 && ops.is_egg p then gen2_egg_id else ops.get_pokemon_index p % 256

  unfoldable pub update_species : ℕ → P → GbList P E T B → GbList P E T B
  update_species i p l = record l { species = set l.species i (species_byte l.generation p) }

  unfoldable pub export_names : ℕ → P → GbList P E T B → GbList P E T B
  export_names i p l =
      let export = text.export_text (if l.generation == 1 then 1 else 2) in
      record l {
        nicknames = set l.nicknames i (export (ops.get_nickname p));
        otnames = set l.otnames i (export (ops.get_original_trainer_name p));
      }

  unfoldable pub update_pokedex : P → GbList P E T B → GbList P E T B
  update_pokedex new_pokemon l =
      let species = ops.get_species new_pokemon in
      if not (species == none_species) && not (ops.is_egg new_pokemon)
      then record l { pokedex = map_pokedex (register bits species) l.pokedex }
      else l

  -- `pokemon_box_gbimpl::set_pokemon`.
  unfoldable pub set_box_pokemon : ℤ → P → Action (GbList P E T B) (Unit {0})
  set_box_pokemon index new_pokemon = do
    l ← get
    lift (enforce_bounds index (pos 0) (max_index l))
    lift (guard (not (leaves_gap index new_pokemon l)) invalid_argument)
    p ← lift (convert new_pokemon l)
    let i = pos_part index
    modify (place i p)
    set_names i p
    modify (update_count i l.count p)
    modify (update_species i p)
    modify (export_names i p)
    modify (update_pokedex new_pokemon)

  -- `pokemon_party_gbimpl::set_pokemon`.
  unfoldable pub set_party_pokemon : ℤ → P → Action (GbList P E T B) (Unit {0})
  set_party_pokemon index new_pokemon = do
    l ← get
    lift (enforce_bounds index (pos 0) (max_index l))
    lift (guard (not (leaves_gap index new_pokemon l)) invalid_argument)
    p ← lift (convert new_pokemon l)
    let i = pos_part index
    modify (place i p)
    set_names i p
    modify (update_species i p)
    modify (update_count i l.count p)
    modify (export_names i p)
    modify (update_pokedex new_pokemon)
