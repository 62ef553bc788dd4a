-- ===== src/Boxes/Save.antt =====
-- `_from_native` and `_to_native` of lib/pokemon_box_gbimpl.ipp and lib/pokemon_party_gbimpl.ipp.
use libpkmn.Common.{
  ℕ, zero, suc, ◌+◌, ◌-◌, ◌&&◌, none, List, [], ◌∷◌, ltb, leb, ◌==◌, if◌then◌else◌, length, get_or,
  set, resize, replicate, Result, ok,
}
use libpkmn.Common.Stateful.{Action, pure, get, modify, ◌>>=◌, ◌>>◌}
use libpkmn.Pokedex.{Native}
use libpkmn.Boxes.{PokemonOps, TextOps, GbList, gen2_egg_id, entry_at, change_pokemon, species_byte}

module _ {P E T B : Type 0} (ops : PokemonOps P E) (text : TextOps T) (bits : Native B) where
  -- The first of the n places from i with no species, or the place behind them.
  unfoldable pub first_gap : ℕ → ℕ → List E → ℕ
  first_gap zero i entries = i
  first_gap (suc n) i entries =
      let rest = first_gap n (suc i) entries in
      if ops.native_species (get_or entries i ops.zero_native) == 0 then i else rest

  -- "The count field may not be reliable", which the boxes repair and the parties do not.
  unfoldable pub fix_count : GbList P E T B → GbList P E T B
  fix_count l =
      let last = ops.native_species (get_or l.entries (l.count - 1) ops.zero_native) in
      if ltb 0 l.count && last == 0 then record l { count = first_gap l.count 0 l.entries } else l

  -- "Memory is not necessarily zeroed-out past the num_pokemon point."
  unfoldable pub clear_entry : ℕ → ℕ → GbList P E T B → GbList P E T B
  clear_entry num_pokemon i l =
      if leb num_pokemon i && ltb 0 (ops.native_species (get_or l.entries i ops.zero_native))
      then record l {
        species = set l.species i 0;
        entries = set l.entries i ops.zero_native;
        nicknames = set l.nicknames i text.blank_text;
        otnames = set l.otnames i text.blank_text;
      }
      else l

  -- A name that is not empty is given to the object.
  unfoldable pub name_if_any : List ℕ → (List ℕ → P → Result P) → P → Result P
  name_if_any name set_name p = if ltb 0 (length name) then set_name name p else ok p

  -- The object for an entry, with what the list says of it. `import_generation` is the generation whose
  -- text function is called.
  unfoldable pub make_pokemon : ℕ → ℕ → Action (GbList P E T B) (Unit {0})
  make_pokemon import_generation i = do
    modify (λ l. record l {
      pokemon_list = set l.pokemon_list i (ops.of_native (entry_at ops text bits l i) l.game_id);
    })
    l ← get
    change_pokemon ops text bits i (λ p.
        if l.generation == 2 then ops.set_is_egg (get_or l.species i 0 == gen2_egg_id) p else ok p)
    let nickname = text.import_text import_generation (get_or l.nicknames i text.blank_text)
    change_pokemon ops text bits i (name_if_any nickname ops.with_nickname)
    let otname = text.import_text import_generation (get_or l.otnames i text.blank_text)
    change_pokemon ops text bits i (name_if_any otname ops.with_original_trainer_name)

  -- The loop, which has n places to go and is at the place i.
  unfoldable pub import_entries : ℕ → ℕ → ℕ → ℕ → Action (GbList P E T B) (Unit {0})
  import_entries import_generation num_pokemon zero i = pure tt
  import_entries import_generation num_pokemon (suc n) i = do
    modify (clear_entry num_pokemon i)
    make_pokemon import_generation i
    import_entries import_generation num_pokemon n (suc i)

  abbrev pub resize_list : GbList P E T B → GbList P E T B
  resize_list l = record l {
    pokemon_list = resize l.capacity (ops.of_native ops.zero_native l.game_id) l.pokemon_list;
  }

  -- `pokemon_box_gbimpl::_from_native`: the loop goes by the count before its repair, and the text
  -- function is the first generation's for both.
  unfoldable pub from_box_native : Action (GbList P E T B) (Unit {0})
  from_box_native = do
    modify resize_list
    l ← get
    modify fix_count
    import_entries 1 l.count l.capacity 0

  -- `pokemon_party_gbimpl::_from_native`.
  unfoldable pub from_party_native : Action (GbList P E T B) (Unit {0})
  from_party_native = do
    modify resize_list
    l ← get
    import_entries (if l.generation == 1 then 1 else 2) l.count l.capacity 0

  -- `_to_native`, the same in both classes: the loop over `_pokemon_list`, at the place i.
  unfoldable pub export_entries : List P → ℕ → GbList P E T B → GbList P E T B
  export_entries [] i l = l
  export_entries (p ∷ ps) i l =
      let export = text.export_text (if l.generation == 1 then 1 else 2) in
      let named = ltb i l.count in
      export_entries ps (suc i) (record l {
        entries = set l.entries i (ops.get_native_pc_data p);
        species = set l.species i (species_byte ops text bits l.generation p);
        otnames =
            (if named
              then set l.otnames i (export (ops.get_original_trainer_name p))
              else l.otnames);
        nicknames =
            (if named then set l.nicknames i (export (ops.get_nickname p)) else l.nicknames);
      })

  unfoldable pub to_list_native : GbList P E T B → GbList P E T B
  to_list_native l = export_entries l.pokemon_list 0 (record l {
    otnames = replicate (length l.otnames) text.blank_text;
    nicknames = replicate (length l.nicknames) text.blank_text;
  })

-- The constructor of a box without data: memory filled with zeros, names with 0x50, and the byte 0xFF
-- at `species[capacity - 1]`; it ends with `_from_native`.
unfoldable pub new_box :
    {P E T B : Type 0} → PokemonOps P E → TextOps T → ℕ → ℕ → ℕ → GbList P E T B
new_box ops text game_id generation capacity = record {
  game_id = game_id;
  generation = generation;
  capacity = capacity;
  count = 0;
  species = set (replicate (capacity + 1) 0) (capacity - 1) 255;
  entries = replicate capacity ops.zero_native;
  nicknames = replicate capacity text.blank_text;
  otnames = replicate capacity text.blank_text;
  pokemon_list = [];
  pokedex = none;
}
