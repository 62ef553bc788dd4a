-- ===== src/ItemList/Modern/Tests.antt =====
-- A native list that is in step with its slots, at concrete inputs.
use libpkmn.Common.{ℕ, ◌+◌, ◌*◌, ◌/◌, ◌%◌, ◌≡◌, refl, false, List, [], ◌∷◌, arith, pos, ok}
use libpkmn.Enforce.{enforce_bounds}
use libpkmn.ItemEntry.{
  entry_of_item, list_id_by_name, valid_name, version_group_id_to_item_list_id, game_is_gamecube,
  is_item_id_hm,
}
use libpkmn.ItemList.{slot, find_item, add, add_to, remove, remove_at}
use libpkmn.ItemList.State.{empty_slot, ItemList}
use libpkmn.ItemList.Valid.{IsValid}
use libpkmn.ItemList.Tests.{small_db}
use libpkmn.ItemList.Codec.{Matches, write_one, write_all}
use libpkmn.ItemList.Mirror.{add-IsSynced, remove-IsSynced}
use libpkmn.ItemList.Modern.{PksavItem, pksav_of_slot, write_native}
use libpkmn.ItemList.Modern.Synced.{modern, modern_mirror}

abbrev swap : ℕ → ℕ
swap x = x % 256 * 256 + x / 256 % 256

abbrev save : ItemList (List PksavItem)
save = record {
  item_list_id = pos 17;
  game_id = 7;
  version_group_id = 5;
  capacity = 2;
  num_items = 1;
  pc = false;
  item_slots = slot 13 5 ∷ empty_slot ∷ [];
  native = record { index = 3328; count = 1280 } ∷ record { index = 0; count = 0 } ∷ [];
}

save-IsValid : IsValid save
save-IsValid = ground arith

save-IsSynced : Matches (pksav_of_slot small_db swap 7) save.item_slots save.native
unfolding pksav_of_slot entry_of_item list_id_by_name valid_name version_group_id_to_item_list_id
    game_is_gamecube is_item_id_hm
save-IsSynced = (refl, (refl, tt))

added_to_save : (add small_db (modern small_db swap) 13 (pos 3) save).0 ≡ ok tt
unfolding add add_to find_item enforce_bounds write_native write_one pksav_of_slot entry_of_item
    list_id_by_name valid_name version_group_id_to_item_list_id game_is_gamecube is_item_id_hm
added_to_save = refl

add-IsSynced_example :
    let l = (add small_db (modern small_db swap) 13 (pos 3) save).1 in
    Matches (pksav_of_slot small_db swap l.game_id) l.item_slots l.native
unfolding modern_mirror
add-IsSynced_example =
    add-IsSynced small_db (modern small_db swap) (modern_mirror small_db swap) save 13 (pos 3)
      save-IsSynced added_to_save

removed_from_save : (remove small_db (modern small_db swap) 13 (pos 5) save).0 ≡ ok tt
unfolding remove remove_at find_item enforce_bounds write_native write_all pksav_of_slot
    entry_of_item list_id_by_name valid_name version_group_id_to_item_list_id game_is_gamecube
    is_item_id_hm
removed_from_save = refl

remove-IsSynced_example :
    let l = (remove small_db (modern small_db swap) 13 (pos 5) save).1 in
    Matches (pksav_of_slot small_db swap l.game_id) l.item_slots l.native
unfolding modern_mirror
remove-IsSynced_example =
    remove-IsSynced small_db (modern small_db swap) (modern_mirror small_db swap) save 13 (pos 5)
      save-IsValid save-IsSynced removed_from_save
