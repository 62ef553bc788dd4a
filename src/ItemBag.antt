-- ===== src/ItemBag.antt =====
-- Item bags: lib/item_bag_impl.cpp, and the bags of the first two generations in the modules Gen1 and
-- Gen2. A bag keeps its pockets, which are item lists, by their names, and a native copy of them
-- all. A pocket is of the type `S`; its virtual functions are the parameter `PocketOps`, and the
-- bag's `_to_native` is the parameter `write`. The mutex is not modelled.
pub mod PocketMap
pub mod Gen1
pub mod Gen2
pub mod Laws
pub mod Contents
mod Tests
use Prim.Native.String.{String}
use libpkmn.Common.{
  ℕ, Bool, ◌&&◌, ◌||◌, Option, none, some, List, leb, ltb, ◌==◌, if◌then◌else◌, ℤ, Result, ok,
  throw, runtime_error, invalid_game, unimplemented_error, out_of_range, invalid_argument,
}
use libpkmn.Common.Stateful.{Action, lift, get, modify, ◌>>=◌, ◌>>◌}
use libpkmn.ItemEntry.{game_is_gamecube}
use PocketMap.{Pockets, find_pocket, set_pocket}

-- The virtual functions of `item_list` that a bag calls.
pub record PocketOps (S : Type 0) : Type 0 where
  pub add_item : ℕ → ℤ → S → Result (Unit {0}) × S
  pub remove_item : ℕ → ℤ → S → Result (Unit {0}) × S

-- The queries of lib/item_bag_impl.cpp.
pub record BagDb : Type 0 where
  -- The name of the pocket of an item, by version group and item.
  pub pocket_of_item : ℕ → ℕ → Result String
  -- The names of the pockets but the PC, by version group.
  pub pocket_names : ℕ → List String
  pub generation_of_game : ℕ → Result ℕ
  pub version_group_of_game : ℕ → Result ℕ

-- The fields of `item_bag_impl`, and `native` for the subclass's `_pksav_bag`.
pub record Bag (S N : Type 0) : Type 0 where
  pub game_id : ℕ
  pub generation : ℕ
  pub version_group_id : ℕ
  pub item_pockets : Pockets S
  pub item_pocket_names : List String
  pub native : N

-- The subclasses that `make` chooses from.
pub data BagClass : Type 0 where
  gen1_bag : BagClass
  gen2_bag : BagClass
  gcn_bag : BagClass
  gba_bag : BagClass

abbrev bag_class : ℕ → ℕ → Result BagClass
bag_class game_id generation =
    if generation == 1
    then ok gen1_bag
    else if generation == 2
    then ok gen2_bag
    else if generation == 3
    then (if game_is_gamecube game_id then ok gcn_bag else ok gba_bag)
    else if leb 4 generation && leb generation 6
    then throw unimplemented_error
    else throw (runtime_error invalid_game)

-- `item_bag::make`, up to the call of the constructor.
unfoldable pub make_bag : BagDb → ℕ → Result BagClass
make_bag db game_id = elim (db.generation_of_game game_id) [
  | ok generation ↦ bag_class game_id generation
  | throw e ↦ throw e
]

unfoldable pub is_item_enum_berry : ℕ → Bool
is_item_enum_berry item =
    (leb 126 item && leb item 189)
    || (leb 723 item && leb item 725)
    || (leb 1000 item && leb item 1009)

abbrev pub version_group_frlg : ℕ
version_group_frlg = 7

module _ {S N : Type 0} (db : BagDb) where
  -- `_get_pocket_name`
  unfoldable pub get_pocket_name : ℕ → Bag S N → Result String
  get_pocket_name item bag =
      if is_item_enum_berry item && ltb 2 bag.generation
      then ok (if bag.version_group_id == version_group_frlg then "Berry Pouch" else "Berries")
      else db.pocket_of_item bag.version_group_id item

  -- `get_pocket`
  abbrev pub get_bag_pocket : String → Bag S N → Result S
  get_bag_pocket name bag = elim (find_pocket name bag.item_pockets) [
    | none ↦ throw invalid_argument
    | some pocket ↦ ok pocket
  ]

  -- The constructor of `item_bag_impl`, without the pockets and the native bag of the subclass.
  unfoldable pub new_bag : ℕ → Pockets S → N → Result (Bag S N)
  new_bag game_id pockets native = elim (db.generation_of_game game_id) [
    | throw e ↦ throw e
    | ok generation ↦ elim (db.version_group_of_game game_id) [
      | throw e ↦ throw e
      | ok version_group_id ↦ ok (record {
        game_id = game_id;
        generation = generation;
        version_group_id = version_group_id;
        item_pockets = pockets;
        item_pocket_names = db.pocket_names version_group_id;
        native = native;
      })
    ]
  ]

  -- A call of a function of `_item_pockets.at(name)`.
  unfoldable pub call_pocket : String → (S → Result (Unit {0}) × S) → Action (Bag S N) (Unit {0})
  call_pocket name f bag = elim (find_pocket name bag.item_pockets) [
    | none ↦ (throw out_of_range, bag)
    | some pocket ↦
        let (r, after) = f pocket in
        (r, record bag { item_pockets = set_pocket name after bag.item_pockets })
  ]

  module _ (ops : PocketOps S) (write : Pockets S → N → N) where
    -- `_to_native`
    abbrev pub to_native : Action (Bag S N) (Unit {0})
    to_native = modify (λ bag. record bag { native = write bag.item_pockets bag.native })

    unfoldable pub bag_add : ℕ → ℤ → Action (Bag S N) (Unit {0})
    bag_add item amount = do
      bag ← get
      pocket_name ← lift (get_pocket_name item bag)
      call_pocket pocket_name (ops.add_item item amount)
      to_native

    unfoldable pub bag_remove : ℕ → ℤ → Action (Bag S N) (Unit {0})
    bag_remove item amount = do
      bag ← get
      pocket_name ← lift (get_pocket_name item bag)
      call_pocket pocket_name (ops.remove_item item amount)
      to_native

    -- `get_pockets` and `get_native`: what they return is the new state's.
    abbrev pub get_pockets : Action (Bag S N) (Pockets S)
    get_pockets = do to_native; bag ← get; lift (ok bag.item_pockets)

    abbrev pub bag_native : Action (Bag S N) N
    bag_native = do to_native; bag ← get; lift (ok bag.native)
