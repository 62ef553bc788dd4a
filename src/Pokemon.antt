-- ===== src/Pokemon.antt =====
-- What the classes of single Pokémon share: lib/pokemon_impl.cpp. Its setters change the numbers of
-- the save format and the maps that mirror them.
pub mod Shininess
pub mod Gender
pub mod Markings
pub mod ContestStats
pub mod DefaultMoves
pub mod Gen1
mod Tests
