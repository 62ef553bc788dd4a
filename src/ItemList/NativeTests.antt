-- ===== src/ItemList/NativeTests.antt =====
-- Item entries, new lists and native lists at concrete inputs.
use libpkmn.Common.{
  ℕ, ◌+◌, ◌*◌, ◌/◌, ◌%◌, ◌≡◌, refl, false, none, List, [], ◌∷◌, arith, ltb, if◌then◌else◌, pos,
  invalid_argument, ok, throw,
}
use libpkmn.ItemEntry.{
  entry_of_item, entry_of_index, list_id_by_name, valid_name, version_group_id_to_item_list_id,
  game_is_gamecube, is_item_id_hm, ItemEntry, get_item, ItemDb,
}
use libpkmn.ItemEntry.Laws.{HasIndices, entry_of_index-entry_of_item}
use libpkmn.ItemList.{slot}
use libpkmn.ItemList.State.{empty_slot, ItemList}
use libpkmn.ItemList.Modern.{
  PksavItem, pksav_of_slot, write_native, from_native, from_native-write_native,
}
use libpkmn.ItemList.Codec.{write_all}
use libpkmn.ItemList.Gb.{
  PksavGbList, gb_of_slot, write_gb_native, from_gb_native, from_gb_native-write_gb_native,
}
use libpkmn.ItemList.Make.{new_item_list, item_list_id_is_pc}
use libpkmn.ItemList.Tests.{small_db, list_of}

small_db-HasIndices : HasIndices small_db 7
small_db-HasIndices = record {
  inverse = λ item index e. ground arith;
  zero_index = λ item index e. ground arith;
}

abbrev potion : ItemEntry
potion = record {
  item_index = 13;
  game_id = 7;
  is_none = false;
  invalid = false;
  item_id = pos 13;
  generation = 3;
  version_group_id = 5;
  item_list_id = pos 17;
}

made : entry_of_item small_db 13 7 ≡ ok potion
unfolding entry_of_item list_id_by_name valid_name version_group_id_to_item_list_id game_is_gamecube
    is_item_id_hm
made = refl

entry_of_index-entry_of_item_example :
    (entry_of_index small_db 13 7 ≡ ok potion) × (get_item potion ≡ 13)
entry_of_index-entry_of_item_example =
    entry_of_index-entry_of_item small_db 13 7 small_db-HasIndices made

-- A save in which the bytes of every number are swapped.
abbrev swapped : ℕ → ℕ
swapped x = x % 256 * 256 + x / 256 % 256

abbrev in_save : ItemList (List PksavItem)
in_save = record {
  item_list_id = pos 17;
  game_id = 7;
  version_group_id = 5;
  capacity = 2;
  num_items = 1;
  pc = false;
  item_slots = slot 13 5 ∷ empty_slot ∷ [];
  native = record { index = 0; count = 0 } ∷ record { index = 0; count = 0 } ∷ [];
}

saved : (write_native small_db swapped none in_save).0 ≡ ok tt
unfolding write_native write_all pksav_of_slot entry_of_item list_id_by_name valid_name
    version_group_id_to_item_list_id game_is_gamecube is_item_id_hm
saved = refl

from_native-write_native_example :
    let l = record in_save {
      item_slots = empty_slot ∷ empty_slot ∷ [];
      native = (write_native small_db swapped none in_save).1;
    } in
    ((from_native small_db swapped l).0 ≡ ok tt)
    × ((from_native small_db swapped l).1.item_slots ≡ slot 13 5 ∷ empty_slot ∷ [])
from_native-write_native_example =
    from_native-write_native small_db swapped in_save (empty_slot ∷ empty_slot ∷ [])
      small_db-HasIndices (λ item index e. ground arith) (λ x h. omega arith) (omega arith) refl
      refl refl saved

abbrev new_items : ItemList (Unit {0})
new_items = list_of 0 (empty_slot ∷ empty_slot ∷ empty_slot ∷ [])

constructed : new_item_list small_db tt (pos 17) 7 ≡ ok new_items
unfolding new_item_list item_list_id_is_pc
constructed = refl

abbrev byte_db : ItemDb
byte_db = record small_db {
  item_id_to_index = λ item game_id. if ltb item 256 then ok item else throw invalid_argument;
}

byte_db-HasIndices : HasIndices byte_db 7
byte_db-HasIndices = record {
  inverse = λ item index e. ground arith;
  zero_index = λ item index e. ground arith;
}

abbrev in_cartridge : ItemList PksavGbList
in_cartridge = record {
  item_list_id = pos 17;
  game_id = 7;
  version_group_id = 5;
  capacity = 2;
  num_items = 1;
  pc = false;
  item_slots = slot 13 5 ∷ empty_slot ∷ [];
  native = record {
    count = 0;
    items = record { index = 0; count = 0 } ∷ record { index = 0; count = 0 } ∷ [];
    terminator = 255;
  };
}

written_gb : (write_gb_native byte_db none in_cartridge).0 ≡ ok tt
unfolding write_gb_native write_all gb_of_slot entry_of_item list_id_by_name valid_name
    version_group_id_to_item_list_id game_is_gamecube is_item_id_hm
written_gb = refl

from_gb_native-write_gb_native_example :
    let read = from_gb_native byte_db (record in_cartridge {
      item_slots = empty_slot ∷ empty_slot ∷ [];
      num_items = 0;
      native = (write_gb_native byte_db none in_cartridge).1;
    }) in
    (read.0 ≡ ok tt) × (read.1.item_slots ≡ slot 13 5 ∷ empty_slot ∷ []) × (read.1.num_items ≡ 1)
from_gb_native-write_gb_native_example =
    from_gb_native-write_gb_native byte_db in_cartridge (empty_slot ∷ empty_slot ∷ []) 0
      byte_db-HasIndices (λ item index e. ground arith) (omega arith) (omega arith) refl refl refl
      written_gb
