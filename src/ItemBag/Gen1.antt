-- ===== src/ItemBag/Gen1.antt =====
-- The bag of the first generation: lib/item_bag_gen1impl.cpp. It has one pocket, "Items".
use libpkmn.Common.{
  ℕ, Option, none, some, [], ◌∷◌, ◌==◌, if◌then◌else◌, ℤ, pos, replicate, Result, ok, ◌>>=◌,
}
use libpkmn.ItemEntry.{ItemDb}
use libpkmn.ItemList.{add, remove}
use libpkmn.ItemList.State.{ItemList, Backend}
use libpkmn.ItemList.Gb.{PksavGbList, write_gb_native}
use libpkmn.ItemBag.{PocketOps, BagDb, Bag, new_bag}
use libpkmn.ItemBag.PocketMap.{Pockets, find_pocket}

-- The functions of `item_list_impl`, over a `_to_native` of a subclass.
abbrev pub list_ops : {N : Type 0} → ItemDb → Backend N → PocketOps (ItemList N)
list_ops db backend = record {
  add_item = λ item amount. add db backend item amount;
  remove_item = λ item amount. remove db backend item amount;
}

abbrev pub gb_backend : ItemDb → Backend PksavGbList
gb_backend db = record { write = write_gb_native db }

-- `_to_native` of the subclass.
unfoldable pub write_gen1_bag : Pockets (ItemList PksavGbList) → PksavGbList → PksavGbList
write_gen1_bag pockets native = elim (find_pocket "Items" pockets) [
  | none ↦ native
  | some pocket ↦ pocket.native
]

-- The native bag of the constructor: a copy of the given one, or one of the size n that is set to 0,
-- with its terminator.
unfoldable pub native_gen1_bag : ℕ → Option PksavGbList → PksavGbList
native_gen1_bag n (some pksav_bag) = pksav_bag
native_gen1_bag n none = record {
  count = 0;
  items = replicate n (record { index = 0; count = 0 });
  terminator = 255;
}

-- The list that the pocket "Items" is made from.
unfoldable pub gen1_pocket_id : ℕ → ℤ
gen1_pocket_id game_id = if game_id == 3 then pos 3 else pos 1

-- The constructor, where `new_list` is that of `item_list_gen1_bagimpl`.
unfoldable pub new_gen1_bag :
    BagDb
    → (ℤ → ℕ → PksavGbList → Result (ItemList PksavGbList))
    → ℕ
    → ℕ
    → Option PksavGbList
    → Result (Bag (ItemList PksavGbList) PksavGbList)
new_gen1_bag db new_list n game_id pksav_bag = do
  bag ← new_bag db game_id [] (native_gen1_bag n pksav_bag)
  pocket ← new_list (gen1_pocket_id game_id) game_id bag.native
  ok (record bag { item_pockets = ("Items", pocket) ∷ [] })
