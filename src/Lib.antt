-- ===== src/Lib.antt =====
-- A model of libpkmn, a library that reads and changes what Pokémon games save. What is modelled is the
-- library's own logic: item lists and bags, item entries, Pokédexes, Pokémon, boxes and parties, and
-- the formulas that the games use.
--
-- The parts, and the files of the repository that they model:
-- - Enforce: the checks of lib/exception_internal.hpp (`enforce_bounds`, `enforce_IV_bounds` and so on)
--   that every other part calls first. Enforce.Ivs is the row of `enforce_IV_bounds` calls with which
--   the calculations start.
-- - ItemEntry: `pkmn::database::item_entry` of lib/database/item_entry.cpp, its two constructors. The
--   database is the record `ItemDb` of functions, one for each SQL query.
-- - ItemList: `item_list_impl` of lib/item_list_impl.cpp. Its state is `ItemList` of ItemList.State, and
--   its operations are `at`, `add`, `remove`, `move`, `set_item` of ItemList, actions of a monad of state
--   and exceptions: what was written before an exception stays written. `_to_native`, which each
--   operation calls at its end, is the parameter `Backend`. ItemList.Packed, .Shift and .Held have the
--   lemmas on slots; AddLaws, AddErrors and so on have what each operation does; Mirror is the
--   interface between the operations and a `_to_native` that keeps the native list in step.
--   ItemList.Modern is `item_list_modernimpl`, a `Backend`, and ItemList.Codec the loops of its
--   conversions. ItemList.Gb is `item_list_gbimpl`, and ItemList.Make the constructor of
--   `item_list_impl`. ItemList.KeyItem and ItemList.TmHm are the pockets of the second generation,
--   `item_list_gen2_keyitemimpl` and `item_list_gen2_tmhmimpl`, which override the
--   operations.
-- - ItemBag: `item_bag_impl` of lib/item_bag_impl.cpp, over the virtual functions of its pockets
--   (`PocketOps`); ItemBag.Gen1 and ItemBag.Gen2 are lib/item_bag_gen1impl.cpp and
--   lib/item_bag_gen2impl.cpp. ItemBag.PocketMap is the map of pockets, ItemBag.Laws has the interface
--   `IsPocketOps` with the lists of ItemList that fill it, and ItemBag.Contents what a bag holds.
-- - Pokedex: `pokedex_impl` of lib/pokedex_impl.cpp with the subclasses of lib/pokedex_gbimpl.ipp and
--   lib/pokedex_gbaimpl.cpp, over the bit functions of pksav, which are the parameter `Native`.
-- - Calculations: lib/calculations, a module for each file (`nature` stands in Calculations.Personality).
--   Species data is the parameter `PokemonDb`, and the order of the table in lib/calculations/size.cpp
--   is a parameter too.
-- - Pokemon: what the classes of Pokémon share, lib/pokemon_impl.cpp, a module for each of its setters,
--   and in Pokemon.Gen1 the class of lib/pokemon_gen1impl.cpp with `gen1_pc_pokemon_to_party_data` of
--   lib/pksav/party_data.cpp. Pokemon.DefaultMoves asks the class for the interface `MoveSlots`, which
--   Pokemon.Gen1.Moves fills. The functions of pksav are the parameter `Pksav`, and what the database
--   says of the Pokémon and of moves is `Entry`; `IsPksav` and `IsEntry` say what the code relies on.
--   Pokemon.Gen1.Setters has the operations, actions of the monad of Common.Stateful;
--   Pokemon.Gen1.Invariant says what they keep. Pokemon.Gen1.Stats has the stats.
-- - Boxes: boxes and parties of the first two generations, lib/pokemon_box_gbimpl.ipp and
--   lib/pokemon_party_gbimpl.ipp, over any class of Pokémon (`PokemonOps`) and with the Pokédex of
--   Pokedex. Boxes.Save has `_from_native` and `_to_native`, Boxes.Steps the ways through
--   `set_pokemon`, Boxes.Counts what it writes, Boxes.Contiguous the invariant, Boxes.Eggs what
--   becomes of eggs and of the Pokédex.
-- - Breeding: lib/breeding/compatibility.cpp, and of lib/breeding/child_info.cpp the species that a child
--   may have (Breeding.ChildSpecies, with its results in Breeding.Possible) and the moves that it
--   inherits (Breeding.ChildMoves; Breeding.Inheritance has what each loop keeps, Breeding.Inherited
--   the parts of the function, Breeding.Children its result). The search for the first species of a
--   line counts its turns: more turns than the stage of the species are enough.
-- Common has the helpers: Boolean tests, lists over native numbers, signed integers, exceptions.
--
-- Numbers: `int` is ℤ where it can be negative, otherwise ℕ; a `uint8_t`, `uint16_t` or `uint32_t`
-- has its remainder written out where the source narrows a number. Enums stand for the numbers that
-- they hold. Floats that are compared with constants are in thousandths or in other fixed parts.
-- Loops are structural recursions on what they run over; the two setters of a Pokédex, which call
-- each other, count their depth, and depth 2 is shown to be enough. The loop of
-- `generate_personality`, which ends by chance, runs over a list of the random numbers.
-- A loop over a fixed number of places, such as the four moves, counts down the turns that are left.
--
-- Not modelled: locks (every operation runs to its end), the texts of exceptions, the pksav and
-- libpkmgc libraries and the structures of saves, SQL, files, the C interface, and the bindings.
pub mod Common
pub mod Enforce
pub mod ItemEntry
pub mod ItemList
pub mod Calculations
pub mod Breeding
pub mod Pokedex
pub mod Pokemon
pub mod Boxes
pub mod ItemBag
