-- ===== src/Boxes/Contiguous.antt =====
-- `set_pokemon` of lib/pokemon_box_gbimpl.ipp stores Pokémon contiguously, as its error message says;
-- lib/pokemon_party_gbimpl.ipp does the same.
use libpkmn.Common.{
  ℕ, ◌+◌, ◌≤◌, ◌<◌, ◌≡◌, refl, sym, ap, ◌∙◌, ◌↔◌, ◌⊎◌, inl, inr, true, false, not, ◌&&◌, arith,
  ◌==◌, if◌then◌else◌, Bool-cases, get_or, set, length-set, set-set, get_or-set_self, ℤ, pos,
  pos_part, neg_part, ◌≤ℤ◌, Exception, out_of_range, invalid_argument, Result, ok, throw,
}
use libpkmn.Pokedex.{Native}
use libpkmn.Boxes.{
  PokemonOps, TextOps, GbList, none_species, max_index, leaves_gap, set_box_pokemon, convert, place,
  enforce_bounds, pokemon_at, species_byte, map_pokedex, register,
}
use libpkmn.Boxes.Counts.{is_none, new_count, count_wraps, finish_lem, written-IsContiguous}
use libpkmn.Boxes.Laws.{IsPokemonOps, IsContiguous, convert-cases, set_names_lem, with_pokemon}
use libpkmn.Boxes.Steps.{finish, box_steps}
use libpkmn.Enforce.Laws.{enforce_bounds_lem}
use libpkmn.Enforce.{enforce_bounds}

ok_not_throw : (r : Result (Unit {0})) (e : Exception) → r ≡ ok tt → r ≡ throw e → ⊥
ok_not_throw r e h h' = cc

module _ {P E T B : Type 0} (ops : PokemonOps P E) (text : TextOps T) (bits : Native B) where
  max_index_lem :
      (index : ℤ) (l : GbList P E T B)
      → 0 < l.capacity
      → pos 0 ≤ℤ index
      → index ≤ℤ max_index ops text bits l
      → (pos_part index < l.capacity) × (pos_part index ≤ l.count) × (neg_part index ≡ 0)
  unfolding max_index
  max_index_lem index l h low high = ground arith

  leaves_gap_lem :
      (index : ℤ) (p : P) (l : GbList P E T B)
      → neg_part index ≡ 0
      → (leaves_gap ops text bits index p l ≡ true)
        ↔ ((pos_part index + 1 < l.count) × (is_none ops text bits p ≡ true))
  unfolding leaves_gap
  leaves_gap_lem index p l h = ground arith

  closed_lem :
      (index : ℤ) (p : P) (l : GbList P E T B)
      → neg_part index ≡ 0
      → leaves_gap ops text bits index p l ≡ false
      → is_none ops text bits p ≡ true
      → l.count ≤ pos_part index + 1
  unfolding leaves_gap
  closed_lem index p l natural closed given = ground arith

  box_out_of_range :
      (index : ℤ) (new_pokemon : P) (l : GbList P E T B) (e : Exception)
      → enforce_bounds index (pos 0) (max_index ops text bits l) ≡ throw e
      → set_box_pokemon ops text bits index new_pokemon l ≡ (throw e, l)
  unfolding set_box_pokemon
  box_out_of_range index new_pokemon l e refused = rw refused refl

  box_gap :
      (index : ℤ) (new_pokemon : P) (l : GbList P E T B)
      → enforce_bounds index (pos 0) (max_index ops text bits l) ≡ ok tt
      → leaves_gap ops text bits index new_pokemon l ≡ true
      → set_box_pokemon ops text bits index new_pokemon l ≡ (throw invalid_argument, l)
  unfolding set_box_pokemon
  box_gap index new_pokemon l passed open_gap = rw (passed, open_gap) refl

  box_unconverted :
      (index : ℤ) (new_pokemon : P) (l : GbList P E T B) (e : Exception)
      → enforce_bounds index (pos 0) (max_index ops text bits l) ≡ ok tt
      → leaves_gap ops text bits index new_pokemon l ≡ false
      → convert ops text bits new_pokemon l ≡ throw e
      → set_box_pokemon ops text bits index new_pokemon l ≡ (throw e, l)
  unfolding set_box_pokemon
  box_unconverted index new_pokemon l e passed closed refused = rw (passed, closed, refused) refl

  -- What a call of `set_pokemon` that returned has done: `p` is the Pokémon, or what it was converted to.
  pub record IsPlaced (i : ℕ) (new_pokemon : P) (l after : GbList P E T B) : Type 0 where
    pub p : P
    pub converted : convert ops text bits new_pokemon l ≡ ok p
    pub egg_kept : ops.is_egg p ≡ ops.is_egg new_pokemon
    pub inside : i < l.capacity
    pub near : i ≤ l.count
    pub last : is_none ops text bits new_pokemon ≡ true → l.count ≤ i + 1
    pub contiguous : IsContiguous ops text bits after
    pub count : after.count ≡ new_count i l.count (is_none ops text bits new_pokemon)
    pub entries : after.entries ≡ set l.entries i (ops.get_native_pc_data p)
    pub species : after.species ≡ set l.species i (species_byte ops text bits l.generation p)
    pub generation : after.generation ≡ l.generation
    pub capacity : after.capacity ≡ l.capacity
    pub object_egg : ops.is_egg (pokemon_at ops text bits after i) ≡ false
    pub pokedex : after.pokedex ≡ (
        if not (is_none ops text bits new_pokemon) && not (ops.is_egg new_pokemon)
        then map_pokedex (register bits (ops.get_species new_pokemon)) l.pokedex
        else l.pokedex)

  box_success :
      (index : ℤ) (new_pokemon p : P) (l : GbList P E T B)
      → IsPokemonOps ops
      → IsContiguous ops text bits l
      → enforce_bounds index (pos 0) (max_index ops text bits l) ≡ ok tt
      → leaves_gap ops text bits index new_pokemon l ≡ false
      → convert ops text bits new_pokemon l ≡ ok p
      → ops.get_game_id p ≡ l.game_id
      → ops.get_species p ≡ ops.get_species new_pokemon
      → ops.is_egg p ≡ ops.is_egg new_pokemon
      → pos_part index < l.capacity
      → pos_part index ≤ l.count
      → (is_none ops text bits new_pokemon ≡ true → l.count ≤ pos_part index + 1)
      → (after : GbList P E T B) × (set_box_pokemon ops text bits index new_pokemon l
          ≡ (ok tt, after))
        × IsPlaced (pos_part index) new_pokemon l after
  unfolding place
  box_success index new_pokemon p l laws h passed closed converted game species egg inside near
        last =
      let i = pos_part index in
      let pc_data = ops.get_native_pc_data p in
      let made = ops.of_native pc_data l.game_id in
      let (made_data, made_game, made_egg) = laws.of_native_data pc_data l.game_id in
      let placed = place ops text bits i p l in
      let read : pokemon_at ops text bits placed i ≡ made =
        get_or-set_self l.pokemon_list i made _ (omega (arith, h.pokemon_list_length)) in
      let (owned, named, owned_data, owned_egg) =
        set_names_lem ops text bits i p placed laws
          (omega (arith, h.pokemon_list_length, length-set l.pokemon_list i made))
          (ap (λ q. ops.get_game_id q) read ∙ made_game ∙ sym game) in
      let l' = with_pokemon ops text bits i owned placed in
      let after = finish ops text bits i l.count p new_pokemon l' in
      let (entries, list, capacity, game', generation, bytes, dex, count) =
        finish_lem ops text bits i l.count p new_pokemon l' in
      let stored : pokemon_at ops text bits after i ≡ owned =
        ap (λ ps. get_or ps i (ops.of_native ops.zero_native after.game_id))
          (list ∙ set-set l.pokemon_list i made owned)
        ∙ get_or-set_self l.pokemon_list i owned _ (omega (arith, h.pokemon_list_length)) in
      let unhatched =
        ap (λ q. ops.is_egg q) (stored) ∙ owned_egg ∙ ap (λ q. ops.is_egg q) read ∙ made_egg in
      let counted : after.count ≡ new_count i l.count (is_none ops text bits p) =
        count
        ∙ count_wraps i l.count l.capacity (is_none ops text bits p) inside near h.count_small
            h.capacity_byte in
      (
        after,
        box_steps ops text bits index new_pokemon p l l' passed closed converted named,
        record {
          p = p;
          converted = converted;
          egg_kept = egg;
          inside = inside;
          near = near;
          last = last;
          contiguous =
              written-IsContiguous ops text bits i p owned l after laws h inside near
                (λ given. last (ap (λ s. s == none_species) (sym species) ∙ given))
                (owned_data ∙ ap (λ q. ops.get_native_pc_data q) read ∙ made_data) entries
                (list ∙ set-set l.pokemon_list i made owned) capacity game' counted;
          count = counted ∙ ap (λ s. new_count i l.count (s == none_species)) species;
          entries = entries;
          species = bytes;
          generation = generation;
          capacity = capacity;
          object_egg = unhatched;
          pokedex = dex;
        },
      )

  pub set_box_pokemon-IsContiguous :
      (index : ℤ) (new_pokemon : P) (l : GbList P E T B)
      → IsPokemonOps ops
      → IsContiguous ops text bits l
      → let (r, after) = set_box_pokemon ops text bits index new_pokemon l in
        let i = pos_part index in
        ((r ≡ ok tt) × (pos 0 ≤ℤ index) × IsPlaced i new_pokemon l after)
        ⊎ ((after ≡ l)
            × (((r ≡ throw out_of_range)
                  × ¬ ((pos 0 ≤ℤ index) × (index ≤ℤ max_index ops text bits l)))
                ⊎ ((r ≡ throw invalid_argument)
                    × (i + 1 < l.count)
                    × (is_none ops text bits new_pokemon ≡ true))
                ⊎ ((e : Exception) × (r ≡ throw e)
                    × (ops.to_game new_pokemon l.game_id ≡ throw e))))
  set_box_pokemon-IsContiguous index new_pokemon l laws h =
      elim (enforce_bounds_lem index (pos 0) (max_index ops text bits l)) [
        | inr (refused, outside) ↦
            rw (box_out_of_range index new_pokemon l out_of_range refused)
              (inr (refl, inl (refl, outside)))
        | inl (passed, low, high) ↦
            let (inside, near, natural) = max_index_lem index l h.capacity_positive low high in
            let gap = leaves_gap_lem index new_pokemon l natural in
            elim (Bool-cases (leaves_gap ops text bits index new_pokemon l)) [
              | inl open_gap ↦
                  let (middle, none_given) = gap.0 open_gap in
                  rw (box_gap index new_pokemon l passed open_gap)
                    (inr (refl, inr (inl (refl, middle, none_given))))
              | inr closed ↦ elim (convert-cases ops text bits new_pokemon l laws) [
                | inr (e, refused, unconverted) ↦
                    rw (box_unconverted index new_pokemon l e passed closed refused)
                      (inr (refl, inr (inr (e, refl, unconverted))))
                | inl (p, converted, game, species, egg) ↦
                    let last : is_none ops text bits new_pokemon ≡ true
                        → l.count ≤ pos_part index + 1 =
                      closed_lem index new_pokemon l natural closed in
                    let (after, done, placed) =
                      box_success index new_pokemon p l laws h passed closed converted game species
                        egg inside near last in
                    rw done (inl (refl, low, placed))
              ]
            ]
      ]

  pub set_box_pokemon-IsPlaced :
      (index : ℤ) (new_pokemon : P) (l : GbList P E T B)
      → IsPokemonOps ops
      → IsContiguous ops text bits l
      → (set_box_pokemon ops text bits index new_pokemon l).0 ≡ ok tt
      → IsPlaced
          (pos_part index)
          new_pokemon
          l
          (set_box_pokemon ops text bits index new_pokemon l).1
  set_box_pokemon-IsPlaced index new_pokemon l laws h done =
      elim (set_box_pokemon-IsContiguous index new_pokemon l laws h) [
        | inl (_, _, placed) ↦ placed
        | inr (_, inl (refused, _)) ↦ absurd (ok_not_throw _ _ done refused)
        | inr (_, inr (inl (refused, _, _))) ↦ absurd (ok_not_throw _ _ done refused)
        | inr (_, inr (inr (e, refused, _))) ↦ absurd (ok_not_throw _ _ done refused)
      ]
