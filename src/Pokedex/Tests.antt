-- ===== src/Pokedex/Tests.antt =====
-- A Pokédex at concrete inputs: its buffers are two lists of species.
use libpkmn.Common.{
  ℕ, ◌≡◌, refl, Bool, true, false, ◌&&◌, List, [], ◌∷◌, arith, leb, ◌==◌, if◌then◌else◌, ==_refl,
  ≢→==, length,
}
use libpkmn.Enforce.{does_vector_contain_value}
use libpkmn.Pokedex.{
  Native, Pokedex, has_seen, set_has_seen, set_has_caught, get_all_seen, get_num_seen,
}
use libpkmn.Pokedex.Bits.{IsBits}
use libpkmn.Pokedex.Listing.{Ascends}
use libpkmn.Pokedex.Laws.{set_has-depth}
use libpkmn.Pokedex.Valid.{IsValid, set_has_seen-IsValid, get_all_seen_lem}

-- What was written last of a number stands first.
abbrev Log : Type 0
Log = List (ℕ × Bool)

abbrev latest : Log → ℕ → Bool
latest [] i = false
latest (entry ∷ log) i = if i == entry.0 then entry.1 else latest log i

abbrev logs : Native (Log × Log)
logs = record {
  seen = λ b i. latest b.0 i;
  owned = λ b i. latest b.1 i;
  set_seen = λ b i v. ((i, v) ∷ b.0, b.1);
  set_owned = λ b i v. (b.0, (i, v) ∷ b.1);
}

logs-IsBits : IsBits logs
logs-IsBits = record {
  seen-set_seen = λ b i v. rw (==_refl i) refl;
  seen-set_seen_ne = λ b i j v ne. rw (≢→== j i ne) refl;
  owned-set_seen = λ b i j v. refl;
  owned-set_owned = λ b i v. rw (==_refl i) refl;
  owned-set_owned_ne = λ b i j v ne. rw (≢→== j i ne) refl;
  seen-set_owned = λ b i j v. refl;
}

abbrev kanto : Pokedex (Log × Log)
kanto = record {
  game_id = 1;
  generation = 1;
  num_pokemon = 151;
  all_seen = [];
  dirty_seen = true;
  all_caught = [];
  dirty_caught = true;
  native = ((25, true) ∷ (4, true) ∷ [], (25, true) ∷ []);
}

kanto-IsValid : IsValid logs kanto
kanto-IsValid = record {
  caught_seen = λ i h. ground arith;
  seen_fresh = λ e. cc;
  caught_fresh = λ e. cc;
}

set_has_seen-IsValid_example : IsValid logs (set_has_seen logs 2 25 false kanto)
set_has_seen-IsValid_example = set_has_seen-IsValid logs logs-IsBits 0 25 false kanto kanto-IsValid

set_has-depth_example :
    (set_has_seen logs 5 25 false kanto ≡ set_has_seen logs 2 25 false kanto)
    × (set_has_caught logs 5 25 false kanto ≡ set_has_caught logs 2 25 false kanto)
set_has-depth_example = set_has-depth logs 3 25 false kanto

get_all_seen_lem_example :
    (does_vector_contain_value (get_all_seen logs kanto).0 25
      ≡ (leb 1 25 && leb 25 151 && has_seen logs 25 kanto))
    × Ascends 1 (get_all_seen logs kanto).0
    × ((get_num_seen logs kanto).0 ≡ length (get_all_seen logs kanto).0)
    × IsValid logs (get_all_seen logs kanto).1
get_all_seen_lem_example = get_all_seen_lem logs kanto 25 kanto-IsValid (omega arith)
