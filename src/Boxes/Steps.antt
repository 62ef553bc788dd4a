-- ===== src/Boxes/Steps.antt =====
-- The steps of `set_pokemon` in lib/pokemon_box_gbimpl.ipp and lib/pokemon_party_gbimpl.ipp, taken
-- together: what each way through it leaves, and that the two classes do the same.
use libpkmn.Common.{ℕ, ◌≡◌, ap, ◌∙◌, false, not, ℤ, pos, pos_part, invalid_argument, ok, guard}
use libpkmn.Common.Stateful.{Action, get, lift, modify, ◌>>◌, ◌>>=◌, >>=-ok}
use libpkmn.Enforce.{enforce_bounds}
use libpkmn.Pokedex.{Native}
use libpkmn.Boxes.{
  PokemonOps, TextOps, GbList, update_pokedex, update_count, set_box_pokemon, export_names,
  update_species, max_index, leaves_gap, convert, set_names, place,
}

module _ {P E T B : Type 0} (ops : PokemonOps P E) (text : TextOps T) (bits : Native B) where
  -- What follows the names.
  abbrev pub finish : ℕ → ℕ → P → P → GbList P E T B → GbList P E T B
  finish i num_pokemon p new_pokemon l = update_pokedex ops text bits new_pokemon (
      export_names ops text bits i p
        (update_species ops text bits i p (update_count ops text bits i num_pokemon p l)))

  pub box_steps :
      (index : ℤ) (new_pokemon p : P) (l l' : GbList P E T B)
      → enforce_bounds index (pos 0) (max_index ops text bits l) ≡ ok tt
      → leaves_gap ops text bits index new_pokemon l ≡ false
      → convert ops text bits new_pokemon l ≡ ok p
      → set_names ops text bits (pos_part index) p (place ops text bits (pos_part index) p l)
        ≡ (ok tt, l')
      → set_box_pokemon ops text bits index new_pokemon l
        ≡ (ok tt, finish (pos_part index) l.count p new_pokemon l')
  unfolding set_box_pokemon
  box_steps index new_pokemon p l l' passed closed converted named =
      let i = pos_part index in
      rw (passed, closed, converted)
        (>>=-ok (set_names ops text bits i p) (λ _ m. (ok tt, finish i l.count p new_pokemon m))
            (place ops text bits i p l) (ap (λ r. r.0) named)
          ∙ ap (λ r. (ok tt, finish i l.count p new_pokemon r.1)) named)

  -- Either `set_pokemon`, by what it does to the count and the species byte.
  abbrev set_by : (P → GbList P E T B → GbList P E T B) → ℤ → P → Action (GbList P E T B) (Unit {0})
  set_by update index new_pokemon = do
    l ← get
    lift (enforce_bounds index (pos 0) (max_index ops text bits l))
    lift (guard (not (leaves_gap ops text bits index new_pokemon l)) invalid_argument)
    p ← lift (convert ops text bits new_pokemon l)
    let i = pos_part index
    modify (place ops text bits i p)
    set_names ops text bits i p
    modify (update p)
    modify (export_names ops text bits i p)
    modify (update_pokedex ops text bits new_pokemon)
