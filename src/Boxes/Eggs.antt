-- ===== src/Boxes/Eggs.antt =====
-- Eggs and Pokédexes after `set_pokemon` of lib/pokemon_box_gbimpl.ipp, and the save format that
-- `_to_native` makes afterwards.
use libpkmn.Common.{
  ℕ, zero, suc, ◌+◌, ◌≤◌, ◌<◌, ◌≡◌, refl, sym, ap, ◌∙◌, List, [], ◌∷◌, arith, length, get_or, set,
  length-set, get_or-set_self, get_or-set_ne,
}
use libpkmn.Pokedex.{Native, Pokedex, set_has_seen}
use libpkmn.Boxes.{
  PokemonOps, TextOps, GbList, entry_at, pokemon_at, species_byte, Pokedex, set_has_seen,
}
use libpkmn.Boxes.Laws.{IsContiguous}
use libpkmn.Boxes.Save.{export_entries, to_list_native}

module _ {P E T B : Type 0} (ops : PokemonOps P E) (text : TextOps T) (bits : Native B) where
  export_entries-before :
      (ps : List P) (i j : ℕ) (l : GbList P E T B)
      → j < i
      → let after = export_entries ops text bits ps i l in
        (get_or after.species j 0 ≡ get_or l.species j 0)
        × (entry_at ops text bits after j ≡ entry_at ops text bits l j)
  unfolding export_entries
  export_entries-before [] i j l h = (refl, refl)
  export_entries-before (p ∷ ps) i j l h =
      let (species, entries) = export_entries-before ps (suc i) j _ (omega arith) in
      (
        species ∙ get_or-set_ne l.species i j _ 0 (λ e. absurd (omega (arith, e))),
        entries ∙ get_or-set_ne l.entries i j _ ops.zero_native (λ e. absurd (omega (arith, e))),
      )

  -- The k-th object is written to the place m.
  export_entries_lem :
      (ps : List P) (i k m : ℕ) (d : P) (l : GbList P E T B)
      → m ≡ i + k
      → k < length ps
      → m < length l.species
      → m < length l.entries
      → let after = export_entries ops text bits ps i l in
        (get_or after.species m 0 ≡ species_byte ops text bits l.generation (get_or ps k d))
        × (entry_at ops text bits after m ≡ ops.get_native_pc_data (get_or ps k d))
  unfolding export_entries
  export_entries_lem [] i k m d l e h fits fits' = absurd (omega arith)
  export_entries_lem (p ∷ ps) i zero m d l e h fits fits' =
      let here : m ≡ i = omega arith in
      let (species, entries) = export_entries-before ps (suc i) m _ (omega arith) in
      let byte = species_byte ops text bits l.generation p in
      (
        species
            ∙ ap (λ j. get_or (set l.species j byte) m 0) (sym here)
            ∙ get_or-set_self l.species m byte 0 fits,
        entries
            ∙ ap (λ j. get_or (set l.entries j (ops.get_native_pc_data p)) m ops.zero_native)
                (sym here)
            ∙ get_or-set_self l.entries m (ops.get_native_pc_data p) ops.zero_native fits',
      )
  export_entries_lem (p ∷ ps) i (suc k) m d l e h fits fits' =
      export_entries_lem ps (suc i) k m d _ (omega arith) (omega arith)
        (omega (arith, length-set l.species i (species_byte ops text bits l.generation p)))
        (omega (arith, length-set l.entries i (ops.get_native_pc_data p)))

  -- After `_to_native` of a contiguous list each place has the bytes that its object has, and the
  -- species byte of the object.
  pub to_list_native_lem :
      (l : GbList P E T B) (i : ℕ)
      → IsContiguous ops text bits l
      → l.capacity ≤ length l.species
      → i < l.capacity
      → let after = to_list_native ops text bits l in
        (get_or after.species i 0
          ≡ species_byte ops text bits l.generation (pokemon_at ops text bits l i))
        × (entry_at ops text bits after i ≡ entry_at ops text bits l i)
  unfolding to_list_native
  to_list_native_lem l i h wide inside =
      let (species, entries) =
        export_entries_lem l.pokemon_list 0 i i (ops.of_native ops.zero_native l.game_id) _
          (omega arith) (omega (arith, h.pokemon_list_length)) (omega arith)
          (omega (arith, h.entries_length)) in
      (species, entries ∙ h.in_step i inside)
