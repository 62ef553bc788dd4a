-- ===== src/ItemList/KeyItem/Tests.antt =====
-- The key item pocket at concrete inputs.
use libpkmn.Common.{◌≡◌, refl, [], ◌∷◌, arith, pos, ok}
use libpkmn.Enforce.{enforce_bounds}
use libpkmn.ItemEntry.{
  entry_of_item, get_pocket, list_id_by_name, valid_name, version_group_id_to_item_list_id,
  game_is_gamecube, is_item_id_hm,
}
use libpkmn.ItemList.{slot, is_elsewhere}
use libpkmn.ItemList.State.{empty_slot, ItemList}
use libpkmn.ItemList.Tests.{small_db, list_of, memory}
use libpkmn.ItemList.Valid.{IsValid}
use libpkmn.ItemList.KeyItem.{set_key_item, check_key_slot}

abbrev two_keys : ItemList (Unit {0})
two_keys = list_of 2 (slot 60 1 ∷ slot 61 1 ∷ empty_slot ∷ [])

two_keys-IsValid : IsValid two_keys
two_keys-IsValid = ground arith

replaced_key : (set_key_item small_db memory (pos 0) 65 (pos 1) two_keys).0 ≡ ok tt
unfolding set_key_item check_key_slot enforce_bounds entry_of_item get_pocket is_elsewhere
    list_id_by_name valid_name version_group_id_to_item_list_id game_is_gamecube is_item_id_hm
replaced_key = refl
