-- ===== src/Boxes/Counts.antt =====
-- What `set_pokemon` of lib/pokemon_box_gbimpl.ipp does after it has placed the Pokémon: what it writes,
-- and that the count follows.
use libpkmn.Common.{
  ℕ, ◌+◌, ◌-◌, ◌%◌, ◌≤◌, ◌<◌, ◌≡◌, ◌∙◌, Bool, true, not, ◌&&◌, arith, ◌==◌, if◌then◌else◌, set,
  length-set, get_or-set,
}
use libpkmn.Pokedex.{Native}
use libpkmn.Boxes.{
  PokemonOps, TextOps, GbList, none_species, update_pokedex, export_names, update_species,
  update_count, species_byte, map_pokedex, register,
}
use libpkmn.Boxes.Laws.{IsPokemonOps, IsContiguous}
use libpkmn.Boxes.Steps.{finish}

-- The count after a Pokémon is put at the place i, where `is_none` says that it is none.
unfoldable pub new_count : ℕ → ℕ → Bool → ℕ
new_count i count is_none =
    if i == count && not is_none
    then count + 1
    else if i + 1 == count && is_none
    then count - 1
    else count

-- In a list of less than 256 places the count, a byte, does not wrap.
pub count_wraps :
    (i count capacity : ℕ) (is_none : Bool)
    → i < capacity
    → i ≤ count
    → count ≤ capacity
    → capacity < 256
    → (if i == count && not is_none
        then (count + 1) % 256
        else if i + 1 == count && is_none
        then (count + 255) % 256
        else count)
      ≡ new_count i count is_none
unfolding new_count
count_wraps i count capacity is_none a b c d = ground arith

module _ {P E T B : Type 0} (ops : PokemonOps P E) (text : TextOps T) (bits : Native B) where
  abbrev pub is_none : P → Bool
  is_none p = ops.get_species p == none_species

  pub finish_lem :
      (i num_pokemon : ℕ) (p new_pokemon : P) (l : GbList P E T B)
      → let after = finish ops text bits i num_pokemon p new_pokemon l in
        (after.entries ≡ l.entries)
        × (after.pokemon_list ≡ l.pokemon_list)
        × (after.capacity ≡ l.capacity)
        × (after.game_id ≡ l.game_id)
        × (after.generation ≡ l.generation)
        × (after.species ≡ set l.species i (species_byte ops text bits l.generation p))
        × (after.pokedex ≡ (
            if not (is_none new_pokemon) && not (ops.is_egg new_pokemon)
            then map_pokedex (register bits (ops.get_species new_pokemon)) l.pokedex
            else l.pokedex))
        × (after.count ≡ (
            if i == num_pokemon && not (is_none p)
            then (l.count + 1) % 256
            else if i + 1 == num_pokemon && is_none p
            then (l.count + 255) % 256
            else l.count))
  unfolding update_pokedex export_names update_species update_count
  finish_lem i num_pokemon p new_pokemon l = (
    ground arith,
    ground arith,
    ground arith,
    ground arith,
    ground arith,
    ground arith,
    ground arith,
    ground arith,
  )

  -- A list in which one place was written, and whose count follows.
  pub written-IsContiguous :
      (i : ℕ) (p made : P) (l after : GbList P E T B)
      → IsPokemonOps ops
      → IsContiguous ops text bits l
      → i < l.capacity
      → i ≤ l.count
      → (is_none p ≡ true → l.count ≤ i + 1)
      → ops.get_native_pc_data made ≡ ops.get_native_pc_data p
      → after.entries ≡ set l.entries i (ops.get_native_pc_data p)
      → after.pokemon_list ≡ set l.pokemon_list i made
      → after.capacity ≡ l.capacity
      → after.game_id ≡ l.game_id
      → after.count ≡ new_count i l.count (is_none p)
      → IsContiguous ops text bits after
  unfolding new_count
  written-IsContiguous i p made l after laws h inside near closed same entries list capacity game
        count =
      let wrote = λ (j : ℕ).
        get_or-set l.entries i j (ops.get_native_pc_data p) ops.zero_native
          (omega (arith, h.entries_length)) in
      let objects = λ (j : ℕ) (d : P).
        get_or-set l.pokemon_list i j made d (omega (arith, h.pokemon_list_length)) in
      record {
        capacity_positive = rw capacity h.capacity_positive;
        capacity_byte = rw capacity h.capacity_byte;
        count_small = ground (arith, h.count_small);
        entries_length = rw (entries, capacity) (length-set l.entries i _ ∙ h.entries_length);
        pokemon_list_length =
            rw (list, capacity) (length-set l.pokemon_list i _ ∙ h.pokemon_list_length);
        held = λ j k.
            rw (entries, wrote j) (ground (arith, h.held j, laws.native_species_none p, count));
        empty = λ j k.
            rw (entries, wrote j) (ground (arith, h.empty j, laws.native_species_none p, count));
        in_step = λ j k.
            rw (entries, list, game, wrote j, objects j (ops.of_native ops.zero_native l.game_id))
              (ground (arith, h.in_step j));
      }
