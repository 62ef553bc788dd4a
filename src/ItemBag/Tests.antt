-- ===== src/ItemBag/Tests.antt =====
-- A bag of two pockets at concrete inputs, and the bags of the first two generations.

use libpkmn.Common.{ℕ, ◌≡◌, refl, [], ◌∷◌, ◌==◌, if◌then◌else◌, pos, ok, throw, out_of_range}
use libpkmn.ItemEntry.{game_is_gamecube}
use libpkmn.ItemList.{slot}
use libpkmn.ItemList.State.{empty_slot, ItemList}
use libpkmn.ItemList.Packed.{held}
use libpkmn.ItemList.Tests.{small_db, memory, list_of}
use libpkmn.ItemBag.{
  BagDb, Bag, gba_bag, make_bag, get_pocket_name, is_item_enum_berry, call_pocket, bag_add,
}
use libpkmn.ItemBag.PocketMap.{Pockets, find_pocket, total}
use libpkmn.ItemBag.Gen1.{list_ops}

abbrev bag_db : BagDb
bag_db = record {
  pocket_of_item = λ version_group_id item. if item == 4 then ok "Balls" else ok "Items";
  pocket_names = λ version_group_id. "Items" ∷ "Berries" ∷ [];
  generation_of_game = λ game_id. ok 3;
  version_group_of_game = λ game_id. ok 5;
}

abbrev List0 : Type 0
List0 = ItemList (Unit {0})

abbrev two_pockets : Pockets List0
two_pockets =
    ("Berries", list_of 1 (slot 130 7 ∷ empty_slot ∷ empty_slot ∷ []))
    ∷ ("Items", list_of 2 (slot 13 5 ∷ slot 9 1 ∷ empty_slot ∷ []))
    ∷ []

-- What this bag's native copy keeps: the number of potions.
abbrev count_potions : Pockets List0 → ℕ → ℕ
count_potions pockets native = total (λ l item. held item l.item_slots) 13 pockets

abbrev small_bag : Bag List0 ℕ
small_bag = record {
  game_id = 7;
  generation = 3;
  version_group_id = 5;
  item_pockets = two_pockets;
  item_pocket_names = "Items" ∷ "Berries" ∷ [];
  native = 0;
}

abbrev held_in : List0 → ℕ → ℕ
held_in l item = held item l.item_slots

-- An item of a pocket that the bag does not have.
no_pocket :
    (bag_add bag_db (list_ops small_db memory) count_potions 4 (pos 1) small_bag).0
    ≡ throw out_of_range
unfolding bag_add get_pocket_name is_item_enum_berry call_pocket find_pocket
no_pocket = refl

berries : get_pocket_name bag_db 130 small_bag ≡ ok "Berries"
unfolding get_pocket_name is_item_enum_berry
berries = refl

made : make_bag bag_db 7 ≡ ok gba_bag
unfolding make_bag game_is_gamecube
made = refl
