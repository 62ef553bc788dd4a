-- ===== src/Pokedex.antt =====
-- Pokédexes: lib/pokedex_impl.cpp, and lib/pokedex_gbimpl.ipp and lib/pokedex_gbaimpl.cpp, which reach
-- their buffers by the pksav library: the parameter `Native`. A species is the number of its
-- `e_species`. Locks are not modelled.
pub mod Bits
pub mod Listing
mod Tests
pub mod Laws
pub mod Valid
use libpkmn.Common.{
  ℕ, zero, suc, ◌+◌, ◌%◌, Bool, true, false, not, ◌&&◌, List, [], ◌∷◌, leb, ◌==◌, if◌then◌else◌,
  length, get_or, invalid_argument, unimplemented_error, Result, ok, throw, ◌>>=◌, ◌>>◌,
}
use libpkmn.ItemEntry.{ItemDb, game_is_gamecube}

-- What the subclasses call on their buffers, of the type `B`: `pksav_get_pokedex_bit` and
-- `pksav_set_pokedex_bit`, or `pksav_gba_pokedex_set_has_seen` for `set_seen` of a GBA game.
pub record Native (B : Type 0) : Type 0 where
  pub seen : B → ℕ → Bool
  pub owned : B → ℕ → Bool
  pub set_seen : B → ℕ → Bool → B
  pub set_owned : B → ℕ → Bool → B

-- The fields of `pokedex_impl`, and `native` for the subclass's buffers.
pub record Pokedex (B : Type 0) : Type 0 where
  pub game_id : ℕ
  pub generation : ℕ
  pub num_pokemon : ℕ
  pub all_seen : List ℕ
  pub dirty_seen : Bool
  pub all_caught : List ℕ
  pub dirty_caught : Bool
  pub native : B

abbrev generation_pokedex_sizes : List ℕ
generation_pokedex_sizes = 0 ∷ 151 ∷ 251 ∷ 386 ∷ 493 ∷ 649 ∷ 721 ∷ 807 ∷ []

pub data PokedexClass : Type 0 where
  gen1impl gen2impl gbaimpl : PokedexClass

unfoldable pub class_of_generation : ℕ → ℕ → Result PokedexClass
unfolding game_is_gamecube
class_of_generation generation game_id =
    if generation == 1
    then ok gen1impl
    else if generation == 2
    then ok gen2impl
    else if generation == 3
    then (if game_is_gamecube game_id then throw unimplemented_error else ok gbaimpl)
    else if leb 4 generation && leb generation 7
    then throw unimplemented_error
    else throw invalid_argument

-- `pokedex::make`: the class that it makes, and the fields that the constructor of `pokedex_impl` sets.
unfoldable pub make : {B : Type 0} → ItemDb → B → ℕ → Result (PokedexClass × Pokedex B)
make db native game_id = do
  generation ← db.game_id_to_generation game_id
  impl ← class_of_generation generation game_id
  ok (
    impl,
    record {
      game_id = game_id;
      generation = generation;
      num_pokemon = get_or generation_pokedex_sizes generation 0;
      all_seen = [];
      dirty_seen = true;
      all_caught = [];
      dirty_caught = true;
      native = native;
    },
  )

module _ {B : Type 0} (n : Native B) where
  -- `uint16_t(species)` is what pksav gets.
  unfoldable pub has_seen : ℕ → Pokedex B → Bool
  has_seen species d = n.seen d.native (species % 65536)

  unfoldable pub has_caught : ℕ → Pokedex B → Bool
  has_caught species d = n.owned d.native (species % 65536)

  abbrev write_seen : ℕ → Bool → Pokedex B → Pokedex B
  write_seen species value d = record d { native = n.set_seen d.native (species % 65536) value }

  abbrev write_caught : ℕ → Bool → Pokedex B → Pokedex B
  write_caught species value d = record d { native = n.set_owned d.native (species % 65536) value }

  -- The two setters call each other, which is counted down: `Laws` shows that two calls deep is enough.
  unfoldable mutual
    pub set_has_seen : ℕ → ℕ → Bool → Pokedex B → Pokedex B
    set_has_seen zero species has_seen_value d = d
    set_has_seen (suc depth) species has_seen_value d =
        let written = write_seen species has_seen_value d in
        let uncaught = set_has_caught depth species false written in
        let after =
          if not has_seen_value && has_caught species written then uncaught else written in
        record after { dirty_seen = true }

    pub set_has_caught : ℕ → ℕ → Bool → Pokedex B → Pokedex B
    set_has_caught zero species has_caught_value d = d
    set_has_caught (suc depth) species has_caught_value d =
        let written = write_caught species has_caught_value d in
        let seen = set_has_seen depth species true written in
        let after = if has_caught_value && not (has_seen species written) then seen else written in
        record after { dirty_caught = true }

-- `_update_member_vector_with_pksav`: the numbers with a bit, of the `count` numbers from `pokedex_num`.
unfoldable pub update_member_vector : (ℕ → Bool) → ℕ → ℕ → List ℕ
update_member_vector is_bit_present pokedex_num zero = []
update_member_vector is_bit_present pokedex_num (suc count) =
    let rest = update_member_vector is_bit_present (pokedex_num + 1) count in
    if is_bit_present pokedex_num then pokedex_num ∷ rest else rest

module _ {B : Type 0} (n : Native B) where
  unfoldable pub get_all_seen : Pokedex B → List ℕ × Pokedex B
  get_all_seen d =
      let fresh = update_member_vector (n.seen d.native) 1 d.num_pokemon in
      if d.dirty_seen
      then (fresh, record d { all_seen = fresh; dirty_seen = false })
      else (d.all_seen, d)

  unfoldable pub get_num_seen : Pokedex B → ℕ × Pokedex B
  unfolding get_all_seen
  get_num_seen d = let after = (get_all_seen d).1 in (length after.all_seen, after)

  unfoldable pub get_all_caught : Pokedex B → List ℕ × Pokedex B
  get_all_caught d =
      let fresh = update_member_vector (n.owned d.native) 1 d.num_pokemon in
      if d.dirty_caught
      then (fresh, record d { all_caught = fresh; dirty_caught = false })
      else (d.all_caught, d)

  unfoldable pub get_num_caught : Pokedex B → ℕ × Pokedex B
  unfolding get_all_caught
  get_num_caught d = let after = (get_all_caught d).1 in (length after.all_caught, after)
