-- ===== src/Calculations.antt =====
-- The formulas of lib/calculations, which compute what a Pokémon's hidden numbers make of it.
pub mod Stats
pub mod HiddenPower
pub mod Shininess
pub mod Gender
pub mod Form
pub mod CriticalHit
pub mod Personality
pub mod Size
mod Tests
