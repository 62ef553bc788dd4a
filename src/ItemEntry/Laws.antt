-- ===== src/ItemEntry/Laws.antt =====
-- The two constructors of `item_entry` in lib/database/item_entry.cpp agree.
use libpkmn.Common.{ℕ, ◌≡◌, ◌↔◌, arith, ok}
use libpkmn.ItemEntry.{ItemDb, ItemEntry, entry_of_index, entry_of_item, get_item}

-- What the tables of item indices promise for one game: an item's index leads back to it, and only
-- `e_item::NONE` has the index 0.
pub record HasIndices (db : ItemDb) (game_id : ℕ) : Type 0 where
  pub inverse :
      (item index : ℕ)
      → db.item_id_to_index item game_id ≡ ok index
      → db.item_index_to_id index game_id ≡ ok item
  pub zero_index :
      (item index : ℕ) → db.item_id_to_index item game_id ≡ ok index → (item ≡ 0) ↔ (index ≡ 0)

-- With tables of item indices that are inverse to each other and give the index 0 to `e_item::NONE`
-- alone: an entry that is made from an item is made from that item's index too, with every field the
-- same, and its `get_item` is that item.
pub entry_of_index-entry_of_item :
    (db : ItemDb) (item game_id : ℕ) {entry : ItemEntry}
    → HasIndices db game_id
    → entry_of_item db item game_id ≡ ok entry
    → (entry_of_index db entry.item_index game_id ≡ ok entry) × (get_item entry ≡ item)
unfolding entry_of_index entry_of_item
entry_of_index-entry_of_item db item game_id {entry} h e =
    ground (arith, h.inverse item entry.item_index, h.zero_index item entry.item_index)

pub entry_of_item-item_index :
    (db : ItemDb) (item game_id : ℕ) {entry : ItemEntry}
    → entry_of_item db item game_id ≡ ok entry
    → db.item_id_to_index item game_id ≡ ok entry.item_index
unfolding entry_of_item
entry_of_item-item_index db item game_id {entry} e = ground arith
