-- ===== src/ItemBag/Gen2.antt =====
-- The bag of the second generation: lib/item_bag_gen2impl.cpp. Its pockets are of three classes, whose
-- `add` and `remove` the bag calls.
use Prim.Native.String.{String}
use libpkmn.Common.{ℕ, some, ℤ, Result}
use libpkmn.ItemEntry.{ItemDb}
use libpkmn.ItemList.{add, remove}
use libpkmn.ItemList.State.{ItemList, Backend}
use libpkmn.ItemList.Gb.{PksavGbList}
use libpkmn.ItemList.KeyItem.{KeyItemPocket, write_key_items, add_key_item, remove_key_item}
use libpkmn.ItemList.TmHm.{TmHmPocket, add_machine, remove_machine}
use libpkmn.ItemBag.{PocketOps}
use libpkmn.ItemBag.PocketMap.{Pockets, find_pocket}
use libpkmn.ItemBag.Gen1.{gb_backend}

-- A pocket with its class: `item_list_gen2_item_pocketimpl` and `item_list_gen2_ball_pocketimpl`,
-- `item_list_gen2_keyitemimpl`, and `item_list_gen2_tmhmimpl`.
pub data Gen2Pocket : Type 0 where
  gb_pocket : ItemList PksavGbList → Gen2Pocket
  key_item_pocket : ItemList KeyItemPocket → Gen2Pocket
  tmhm_pocket : ItemList TmHmPocket → Gen2Pocket

-- `struct pksav_gen2_item_bag`
pub record PksavGen2Bag : Type 0 where
  pub native_items : PksavGbList
  pub native_key_items : KeyItemPocket
  pub native_balls : PksavGbList
  pub native_tmhm : TmHmPocket

abbrev of_class :
    {N : Type 0}
    → (ItemList N → Gen2Pocket)
    → Result (Unit {0}) × ItemList N
    → Result (Unit {0}) × Gen2Pocket
of_class class (r, l) = (r, class l)

abbrev key_item_backend : ItemDb → Backend KeyItemPocket
key_item_backend db = record { write = write_key_items db }

module _ (db : ItemDb) where
  unfoldable pub add_to_gen2_pocket : ℕ → ℤ → Gen2Pocket → Result (Unit {0}) × Gen2Pocket
  add_to_gen2_pocket item amount (gb_pocket l) =
      of_class gb_pocket (add db (gb_backend db) item amount l)
  add_to_gen2_pocket item amount (key_item_pocket l) =
      of_class key_item_pocket (add_key_item db (key_item_backend db) item amount l)
  add_to_gen2_pocket item amount (tmhm_pocket l) =
      of_class tmhm_pocket (add_machine db item amount l)

  unfoldable pub remove_from_gen2_pocket : ℕ → ℤ → Gen2Pocket → Result (Unit {0}) × Gen2Pocket
  remove_from_gen2_pocket item amount (gb_pocket l) =
      of_class gb_pocket (remove db (gb_backend db) item amount l)
  remove_from_gen2_pocket item amount (key_item_pocket l) =
      of_class key_item_pocket (remove_key_item db (key_item_backend db) item amount l)
  remove_from_gen2_pocket item amount (tmhm_pocket l) =
      of_class tmhm_pocket (remove_machine db item amount l)

  abbrev pub gen2_ops : PocketOps Gen2Pocket
  gen2_ops = record { add_item = add_to_gen2_pocket; remove_item = remove_from_gen2_pocket }

-- What `rcast_equal` copies: a pocket of another class leaves the native bag as it is, which the
-- constructor rules out.
abbrev gb_native : Pockets Gen2Pocket → String → PksavGbList → PksavGbList
gb_native pockets name native = elim (find_pocket name pockets) [
  | some (gb_pocket l) ↦ l.native
  | _ ↦ native
]

abbrev key_item_native : Pockets Gen2Pocket → KeyItemPocket → KeyItemPocket
key_item_native pockets native = elim (find_pocket "KeyItems" pockets) [
  | some (key_item_pocket l) ↦ l.native
  | _ ↦ native
]

abbrev tmhm_native : Pockets Gen2Pocket → TmHmPocket → TmHmPocket
tmhm_native pockets native = elim (find_pocket "TM/HM" pockets) [
  | some (tmhm_pocket l) ↦ l.native
  | _ ↦ native
]

-- `_to_native` of the subclass.
unfoldable pub write_gen2_bag : Pockets Gen2Pocket → PksavGen2Bag → PksavGen2Bag
write_gen2_bag pockets native = record {
  native_items = gb_native pockets "Items" native.native_items;
  native_key_items = key_item_native pockets native.native_key_items;
  native_balls = gb_native pockets "Balls" native.native_balls;
  native_tmhm = tmhm_native pockets native.native_tmhm;
}
