-- ===== src/ItemEntry.antt =====
-- Item entries: lib/database/item_entry.cpp, the two constructors of `item_entry` and the getters that
-- item lists call. The SQL queries are a parameter, since the database is not part of the repository.
-- An `e_item` is the number that it holds; a game is its id, since lists and entries convert the enum
-- to it and back.
pub mod Laws
use Prim.Native.String.{String}
use text.Mathlib.Text.{◌==◌ as str_eq, find?}
use libpkmn.Common.{
  ℕ, Bool, true, false, not, ◌&&◌, ◌||◌, Option, none, some, List, [], ◌∷◌, ◌==◌, leb,
  if◌then◌else◌, get_or, ℤ, pos, negsuc, pos_part, Result, ok, throw, invalid_argument, guard,
  ◌>>=◌, ◌>>◌,
}

-- The lookups in the database, each with the exception of a query that finds no row.
pub record ItemDb : Type 0 where
  pub game_id_to_generation : ℕ → Result ℕ
  pub game_id_to_version_group : ℕ → Result ℕ
  -- An item's index in a game, and back.
  pub item_index_to_id : ℕ → ℕ → Result ℕ
  pub item_id_to_index : ℕ → ℕ → Result ℕ
  -- By item and version group.
  pub item_id_to_name : ℕ → ℕ → Result String
  -- The query of `version_group_id_to_item_list_id`, by version group and item.
  pub list_of_pocket : ℕ → ℕ → Result ℤ
  pub item_list_id_to_name : ℤ → Result String
  -- The two queries of `item_list_impl`, by list and version group.
  pub list_name : ℤ → ℕ → Result String
  pub list_capacity : ℤ → ℕ → Result ℕ

-- `e_item::NONE` and `e_item::INVALID`.
abbrev pub none_item : ℕ
none_item = 0

abbrev pub invalid_item_code : ℕ
invalid_item_code = 30000

pub record ItemEntry : Type 0 where
  pub item_index : ℕ
  pub game_id : ℕ
  pub is_none : Bool
  pub invalid : Bool
  pub item_id : ℤ
  pub generation : ℕ
  pub version_group_id : ℕ
  pub item_list_id : ℤ

unfoldable pub game_is_gamecube : ℕ → Bool
game_is_gamecube game_id = game_id == 19 || game_id == 20

unfoldable pub is_item_id_hm : ℕ → Bool
is_item_id_hm item_id = leb 397 item_id && leb item_id 404

abbrev unknown_list : ℤ
unknown_list = negsuc 0

abbrev apricorn_list_ids : List ℤ
apricorn_list_ids = unknown_list ∷ unknown_list ∷ unknown_list ∷ pos 5 ∷ pos 10 ∷ []

abbrev pub berry_list_ids : List ℤ
berry_list_ids =
    unknown_list
    ∷ unknown_list
    ∷ unknown_list
    ∷ pos 5
    ∷ pos 10
    ∷ pos 18
    ∷ pos 24
    ∷ pos 30
    ∷ pos 37
    ∷ pos 45
    ∷ pos 53
    ∷ pos 60
    ∷ pos 66
    ∷ pos 73
    ∷ pos 79
    ∷ pos 84
    ∷ pos 89
    ∷ []

abbrev fossil_list_ids : List ℤ
fossil_list_ids =
    unknown_list
    ∷ pos 1
    ∷ pos 3
    ∷ pos 7
    ∷ pos 12
    ∷ pos 19
    ∷ pos 25
    ∷ pos 31
    ∷ pos 33
    ∷ pos 41
    ∷ pos 49
    ∷ pos 57
    ∷ unknown_list
    ∷ unknown_list
    ∷ pos 62
    ∷ pos 81
    ∷ pos 86
    ∷ []

-- `name.find(part) != std::string::npos`
abbrev pub contains : String → String → Bool
contains name part = elim (find? name part) [ none ↦ false | some _ ↦ true ]

abbrev is_berry : String → Bool
is_berry name = contains name "Berry" && not (str_eq name "Berry Juice")

-- A read of one of the three tables, which have an element for each of the version groups 0 to 16.
abbrev entry_at : List ℤ → ℕ → ℤ
entry_at table version_group_id = get_or table version_group_id unknown_list

-- The `try` block: an invalid index is remembered, and any other exception goes on.
abbrev id_of_index : Result ℕ → Result (Option ℕ)
id_of_index (ok item_id) = ok (some item_id)
id_of_index (throw invalid_argument) = ok none
id_of_index (throw e) = throw e

module _ (db : ItemDb) where
  unfoldable pub version_group_id_to_item_list_id : ℕ → ℕ → Result ℤ
  version_group_id_to_item_list_id item_id version_group_id =
      if item_id == 0 || version_group_id == 0
      then ok (pos 0)
      else db.list_of_pocket version_group_id item_id

  -- The overrides, which both constructors share.
  unfoldable pub list_id_by_name : String → ℕ → ℕ → ℕ → ℕ → Result ℤ
  unfolding game_is_gamecube version_group_id_to_item_list_id
  list_id_by_name name item_id game_id generation version_group_id =
      if is_berry name
      then ok (entry_at berry_list_ids version_group_id)
      else if generation == 2 && contains name "Apricorn"
      then ok (entry_at apricorn_list_ids version_group_id)
      else if contains name "Fossil"
      then if game_is_gamecube game_id
        then throw invalid_argument
        else ok (entry_at fossil_list_ids version_group_id)
      else version_group_id_to_item_list_id item_id version_group_id

  -- `get_name` of a valid entry.
  unfoldable pub valid_name : Bool → ℕ → ℕ → Result String
  valid_name is_none item_id version_group_id =
      if is_none then ok "None" else db.item_id_to_name item_id version_group_id

  -- `item_entry(int item_index, int game_id)`
  unfoldable pub entry_of_index : ℕ → ℕ → Result ItemEntry
  entry_of_index item_index game_id = do
    found ← id_of_index (db.item_index_to_id item_index game_id)
    generation ← db.game_id_to_generation game_id
    version_group_id ← db.game_id_to_version_group game_id
    elim found [
      | none ↦ ok (record {
        item_index = item_index;
        game_id = game_id;
        is_none = item_index == 0;
        invalid = true;
        item_id = negsuc 0;
        generation = generation;
        version_group_id = version_group_id;
        item_list_id = unknown_list;
      })
      | some item_id ↦ do
        name ← valid_name (item_index == 0) item_id version_group_id
        item_list_id ← list_id_by_name name item_id game_id generation version_group_id
        ok (record {
          item_index = item_index;
          game_id = game_id;
          is_none = item_index == 0;
          invalid = false;
          item_id = pos item_id;
          generation = generation;
          version_group_id = version_group_id;
          item_list_id = item_list_id;
        })
    ]

  -- `item_entry(e_item item, e_game game)`
  unfoldable pub entry_of_item : ℕ → ℕ → Result ItemEntry
  entry_of_item item game_id = do
    generation ← db.game_id_to_generation game_id
    version_group_id ← db.game_id_to_version_group game_id
    item_index ← db.item_id_to_index item game_id
    version_group_id_to_item_list_id item version_group_id
    guard (not (game_is_gamecube game_id && is_item_id_hm item)) invalid_argument
    name ← valid_name (item == none_item) item version_group_id
    item_list_id ← list_id_by_name name item game_id generation version_group_id
    ok (record {
      item_index = item_index;
      game_id = game_id;
      is_none = item == none_item;
      invalid = false;
      item_id = pos item;
      generation = generation;
      version_group_id = version_group_id;
      item_list_id = item_list_id;
    })

  unfoldable pub get_pocket : ItemEntry → Result String
  get_pocket entry =
      if entry.is_none
      then ok "None"
      else if entry.invalid
      then ok "Unknown"
      else db.item_list_id_to_name entry.item_list_id

abbrev pub get_item : ItemEntry → ℕ
get_item entry = if entry.invalid then invalid_item_code else pos_part entry.item_id
