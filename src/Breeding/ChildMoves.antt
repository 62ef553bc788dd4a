-- ===== src/Breeding/ChildMoves.antt =====
-- `get_child_moves` of lib/breeding/child_info.cpp, and the loops in it. Moves, species, items and games
-- stand for the numbers that they hold; a game is its id.
use libpkmn.Common.{
  ℕ, Bool, true, ◌&&◌, ◌||◌, List, [], ◌∷◌, ◌++◌, ltb, leb, ◌==◌, if◌then◌else◌, length, resize,
  map, Result, ok, invalid_argument, ◌>>=◌, ◌>>◌, guard, not,
}
use libpkmn.Enforce.{does_vector_contain_value}
use libpkmn.Pokemon.DefaultMoves.{LevelupMove}

-- What the function asks of a parent.
pub record Parent : Type 0 where
  pub parent_game : ℕ
  pub parent_species : ℕ
  pub parent_item : ℕ
  -- The moves of the four slots.
  pub parent_moves : List ℕ

-- What it asks of `pokemon_entry child_entry`, from the database.
pub record ChildEntry : Type 0 where
  pub egg_moves : List ℕ
  pub tm_hm_moves : List ℕ
  pub tutor_moves : List ℕ
  pub levelup_moves : List LevelupMove

abbrev pub max_num_moves : ℕ
max_num_moves = 4

abbrev pub none_move : ℕ
none_move = 0

abbrev pub volt_tackle : ℕ
volt_tackle = 344

abbrev pub light_ball : ℕ
light_ball = 213

abbrev pub pichu : ℕ
pichu = 172

abbrev pub crystal : ℕ
crystal = 6

abbrev pub emerald : ℕ
emerald = 9

-- A loop over moves that stops when the child has four, and that adds those with the property p.
unfoldable pub add_moves : (ℕ → Bool) → List ℕ → List ℕ → List ℕ
add_moves p [] child_moves = child_moves
add_moves p (move ∷ moves) child_moves =
    let rest = add_moves p moves (if p move then child_moves ++ move ∷ [] else child_moves) in
    if ltb (length child_moves) max_num_moves then rest else child_moves

-- The last loop, which breaks at the first move above the level.
unfoldable pub add_natural_moves : ℕ → List LevelupMove → List ℕ → List ℕ
add_natural_moves child_level [] child_moves = child_moves
add_natural_moves child_level (m ∷ moves) child_moves =
    let rest = add_natural_moves child_level moves (child_moves ++ m.move_id ∷ []) in
    if ltb (length child_moves) max_num_moves && leb m.level child_level then rest else child_moves

-- The policy of the Light Ball.
unfoldable pub knows_volt_tackle : Parent → Parent → ℕ → ℕ → Bool
knows_volt_tackle mother father child_species generation =
    child_species == pichu
    && (leb 4 generation || mother.parent_game == emerald)
    && (mother.parent_item == light_ball || father.parent_item == light_ball)

-- A part of the function that is done under a condition, while the child has less than four moves.
abbrev pub while_room : Bool → (List ℕ → List ℕ) → List ℕ → List ℕ
while_room holds f child_moves =
    let rest = f child_moves in
    if ltb (length child_moves) max_num_moves && holds then rest else child_moves

module _ (mother father : Parent) (entry : ChildEntry) (child_species generation : ℕ) where
  abbrev pub known : List ℕ → ℕ → Bool
  known moves move = does_vector_contain_value moves move

  abbrev pub add_volt_tackle : List ℕ
  add_volt_tackle =
      if knows_volt_tackle mother father child_species generation then volt_tackle ∷ [] else []

  abbrev pub add_parents_egg_moves : List ℕ → List ℕ
  add_parents_egg_moves child_moves =
      add_moves (known entry.egg_moves) father.parent_moves
        (add_moves (known entry.egg_moves) mother.parent_moves child_moves)

  unfoldable pub add_egg_moves : List ℕ → List ℕ
  add_egg_moves child_moves =
      let rest = add_parents_egg_moves child_moves in
      if not (length entry.egg_moves == 0) then rest else child_moves

  unfoldable pub add_machine_moves : List ℕ → List ℕ
  add_machine_moves =
      while_room (leb generation 5) (add_moves (known entry.tm_hm_moves) father.parent_moves)

  unfoldable pub add_tutor_moves : List ℕ → List ℕ
  add_tutor_moves =
      while_room (mother.parent_game == crystal)
        (add_moves (known entry.tutor_moves) father.parent_moves)

  abbrev pub child_level : ℕ
  child_level = if leb 4 generation then 1 else 5

  -- First what both parents know, then what the child learns by itself.
  abbrev pub add_levelups : List ℕ → List ℕ
  add_levelups child_moves = add_natural_moves child_level entry.levelup_moves (
      add_moves (λ move. known mother.parent_moves move && known father.parent_moves move)
        (map (λ m. m.move_id) entry.levelup_moves) child_moves)

  unfoldable pub add_levelup_moves : List ℕ → List ℕ
  add_levelup_moves = while_room true add_levelups

  -- The moves before `resize`.
  unfoldable pub inherited_moves : List ℕ
  inherited_moves =
      add_levelup_moves (add_tutor_moves (add_machine_moves (add_egg_moves add_volt_tackle)))

-- `get_child_moves`, where `possible` is `get_possible_child_species`, and `entry_of` and
-- `generation_of` read the database.
unfoldable pub get_child_moves :
    (ℕ → ℕ → ℕ → Result (List ℕ))
    → (ℕ → ℕ → Result ChildEntry)
    → (ℕ → Result ℕ)
    → Parent
    → Parent
    → ℕ
    → Result (List ℕ)
get_child_moves possible entry_of generation_of mother father child_species = do
  guard (mother.parent_game == father.parent_game) invalid_argument
  species ← possible mother.parent_species father.parent_species mother.parent_game
  guard (does_vector_contain_value species child_species) invalid_argument
  generation ← generation_of mother.parent_game
  entry ← entry_of child_species mother.parent_game
  ok (resize max_num_moves none_move (inherited_moves mother father entry child_species generation))
