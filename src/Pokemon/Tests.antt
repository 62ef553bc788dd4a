-- ===== src/Pokemon/Tests.antt =====
-- The shared setters of Pokémon at concrete inputs.
use libpkmn.Common.{
  lookup, insert, ℕ, ◌+◌, ◌/◌, ◌<◌, ◌≡◌, refl, ◌∙◌, subst, ◌⊎◌, inl, inr, true, false, some, List,
  [], ◌∷◌, arith, ltb, ◌==◌, if◌then◌else◌, length, get_or, set, length-set, get_or-set, pos, ◌≤ℤ◌,
  out_of_range, invalid_argument, ok, throw,
}
use libpkmn.Calculations.Gender.{
  PokemonEntry, PokemonDb, HasGenderRatio, male, female, modern_pokemon_gender, genderless,
}
use libpkmn.Calculations.Shininess.{modern_shiny, is_shiny_from}
use libpkmn.Pokemon.ContestStats
use libpkmn.Pokemon.ContestStats.{
  NativeStats, HasContestStat, init_contest_stat_map, init_contest_stat_map-IsMirror,
  set_contest_stat, set_contest_stat-IsMirror, feel_or_sheen, ContestStats,
}
use libpkmn.Pokemon.DefaultMoves.{
  MoveSlots, IsSlots, LevelupMove, find_later, first_slot, levelup_move_at, none_move,
  init_default_moves_for_level, init_default_moves_for_level_lem, clear_moves, set_levelup_moves,
  first_and_last,
}
use libpkmn.Pokemon.Shininess.{set_modern_shininess, make_shiny_from}
use libpkmn.Pokemon.Gender.{
  set_modern_gender, modern_pokemon_gender-set_modern_gender, check_new_gender, write_gender,
}
use libpkmn.Pokemon.Markings.{
  MarkingBits, Markings, IsDistinct, IsMirror, HasMarking, bit_of, init_markings_map,
  init_markings_map-IsMirror, set_marking, set_marking-IsMirror,
}
use libpkmn.Calculations.Personality.{is_male, is_genderless}

-- A shiny Pokémon that is asked not to be one stays shiny.
still_shiny : modern_shiny (set_modern_shininess 0 0 false) 0 ≡ true
unfolding set_modern_shininess modern_shiny is_shiny_from make_shiny_from
still_shiny = refl

abbrev starter : PokemonEntry
starter = record {
  chance_male = 875;
  chance_female = 125;
  first_ability = 65;
  second_ability = 0;
  hidden_ability = 34;
}

abbrev one_entry : PokemonDb
one_entry = record { pokemon_entry = λ species game. ok starter }

abbrev lowest : ℕ → ℕ → ℕ
lowest low high = 0

abbrev starter_ratio : HasGenderRatio starter
starter_ratio = inr (refl, inr (inr (inr (inr (inl refl)))))

set_to_female : set_modern_gender lowest starter 1200 female ≡ ok 1024
unfolding set_modern_gender check_new_gender write_gender
set_to_female = refl

modern_pokemon_gender-set_modern_gender_example :
    (modern_pokemon_gender one_entry 1 1024
      ≡ ok (if is_male female then male else if is_genderless female then genderless else female))
    × (1024 / 256 ≡ 1200 / 256)
modern_pokemon_gender-set_modern_gender_example =
    modern_pokemon_gender-set_modern_gender lowest one_entry starter 1 1200 female
      (λ low high. omega arith) refl starter_ratio (omega arith) (omega arith) set_to_female

abbrev in_order : MarkingBits
in_order = record {
  circle_bit = 0;
  triangle_bit = 1;
  square_bit = 2;
  heart_bit = 3;
  star_bit = 4;
  diamond_bit = 5;
}

abbrev no_marking : ℕ → Markings
no_marking native = record { native = native; markings = [] }

in_order-IsDistinct : IsDistinct in_order 3
unfolding HasMarking bit_of
in_order-IsDistinct = record {
  distinct = λ marking marking' h h' ne. ground arith;
  in_byte = λ marking h. ground arith;
}

abbrev marked : Markings
marked = record { native = 5; markings = (1, true) ∷ (2, false) ∷ (3, true) ∷ (4, false) ∷ [] }

marked_lem : init_markings_map in_order 3 (no_marking 5) ≡ marked
unfolding init_markings_map insert
marked_lem = refl

marked-IsMirror : IsMirror in_order 3 marked
marked-IsMirror =
    subst (λ m. IsMirror in_order 3 m) marked_lem (init_markings_map-IsMirror in_order 3 5)

set_marking-IsMirror_example :
    ((m' : Markings) × (set_marking in_order 3 2 true marked ≡ ok m')
      × HasMarking in_order 3 2
      × IsMirror in_order 3 m'
      × (m'.native < 256)
      × ((other : ℕ)
          → lookup other m'.markings
            ≡ (if other == 2 then some true else lookup other marked.markings)))
    ⊎ ((set_marking in_order 3 2 true marked ≡ throw invalid_argument) × ¬ HasMarking in_order 3 2)
set_marking-IsMirror_example =
    set_marking-IsMirror in_order 3 2 true marked in_order-IsDistinct marked-IsMirror (omega arith)

abbrev bytes : NativeStats
bytes = record {
  cool_byte = 10;
  beauty_byte = 20;
  cute_byte = 30;
  smart_byte = 40;
  tough_byte = 50;
  feel_byte = 60;
}

abbrev contestant : ContestStats
contestant = record {
  native = bytes;
  contest_stats =
      (1, pos 10) ∷ (2, pos 20) ∷ (3, pos 30) ∷ (4, pos 40) ∷ (5, pos 50) ∷ (6, pos 60) ∷ [];
}

contestant_lem :
    init_contest_stat_map 3 (record { native = bytes; contest_stats = [] }) ≡ contestant
unfolding init_contest_stat_map insert feel_or_sheen
contestant_lem = refl

contestant-IsMirror : ContestStats.IsMirror 3 contestant
contestant-IsMirror =
    subst (λ s. ContestStats.IsMirror 3 s) contestant_lem (init_contest_stat_map-IsMirror 3 bytes)

set_contest_stat-IsMirror_example :
    ((s' : ContestStats) × (set_contest_stat 6 (pos 255) contestant ≡ ok s')
      × HasContestStat 3 6
      × (pos 0 ≤ℤ (pos 255))
      × ((pos 255) ≤ℤ pos 255)
      × ContestStats.IsMirror 3 s'
      × ((other : ℕ)
          → lookup other s'.contest_stats
            ≡ (if other == 6 then some (pos 255) else lookup other contestant.contest_stats)))
    ⊎ ((set_contest_stat 6 (pos 255) contestant ≡ throw invalid_argument) × ¬ HasContestStat 3 6)
    ⊎ ((set_contest_stat 6 (pos 255) contestant ≡ throw out_of_range)
        × HasContestStat 3 6
        × ¬ ((pos 0 ≤ℤ (pos 255)) × ((pos 255) ≤ℤ pos 255)))
set_contest_stat-IsMirror_example =
    set_contest_stat-IsMirror 3 6 (pos 255) contestant contestant-IsMirror

-- A Pokémon that is no more than its four slots.
abbrev four_slots : MoveSlots (List ℕ)
four_slots = record { set_slot = λ p move i. ok (set p i move); move_at = λ p i. get_or p i 0 }

four_slots-IsSlots : IsSlots four_slots (λ move. Unit) (λ p. length p ≡ 4)
four_slots-IsSlots = record {
  set_slot_lem = λ p move i _ h four. (
    set p i move,
    refl,
    length-set p i move ∙ four,
    λ j k. get_or-set p i j move 0 (omega arith),
  );
}

-- Five moves up to level 20, and one more at level 30.
abbrev learnt : List LevelupMove
learnt =
    record { move_id = 33; level = 1 }
    ∷ record { move_id = 45; level = 5 }
    ∷ record { move_id = 73; level = 9 }
    ∷ record { move_id = 22; level = 13 }
    ∷ record { move_id = 77; level = 20 }
    ∷ record { move_id = 75; level = 30 }
    ∷ []

-- The move of level 20 is left out.
newest_left_out :
    init_default_moves_for_level four_slots 25 learnt (0 ∷ 0 ∷ 0 ∷ 0 ∷ [])
    ≡ ok (33 ∷ 45 ∷ 73 ∷ 22 ∷ [])
unfolding init_default_moves_for_level clear_moves set_levelup_moves first_and_last find_later
    levelup_move_at
newest_left_out = refl

init_default_moves_for_level_lem_example :
    (p' : List ℕ) × (init_default_moves_for_level four_slots 25 learnt (0 ∷ 0 ∷ 0 ∷ 0 ∷ []) ≡ ok p')
    × (λ (p : List ℕ). length p ≡ 4) p'
    × ((j : ℕ)
        → j < 4
        → let later = find_later 25 learnt in
          let place = first_slot later (length learnt) + j in
          four_slots.move_at p' j
          ≡ (if ltb place later then levelup_move_at learnt place else none_move))
init_default_moves_for_level_lem_example =
    init_default_moves_for_level_lem four_slots (λ move. Unit) (λ p. length p ≡ 4)
      four_slots-IsSlots 25 learnt (0 ∷ 0 ∷ 0 ∷ 0 ∷ []) refl tt (λ l. tt) (λ ne. omega arith)
