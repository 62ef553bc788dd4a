-- ===== src/ItemList/Tests.antt =====
-- Item lists at concrete inputs: a list of two items, of three slots, in a game whose database is small.
use libpkmn.Common.{
  ℕ, ◌+◌, ◌≡◌, refl, false, List, [], ◌∷◌, arith, ltb, if◌then◌else◌, pos, can_only_add,
  invalid_argument, runtime_error, ok, throw,
}
use libpkmn.Enforce.{enforce_bounds}
use libpkmn.ItemEntry.{
  ItemDb, entry_of_item, list_id_by_name, valid_name, version_group_id_to_item_list_id, get_pocket,
}
use libpkmn.ItemList.{
  slot, find_item, add, add_to, remove, remove_at, move, set_item, check_slot, is_elsewhere,
}
use libpkmn.ItemList.State.{ItemSlot, empty_slot, ItemList, Backend}
use libpkmn.ItemList.Packed.{held}
use libpkmn.ItemList.Valid.{IsValid, IsTotal}
use libpkmn.ItemList.AddLaws.{add-IsValid, held-add}
use libpkmn.ItemList.RemoveLaws.{remove-IsValid, held-remove}
use libpkmn.ItemList.MoveLaws.{move-IsValid}
use libpkmn.ItemList.SetFaults.{set_item_full}

abbrev pub small_db : ItemDb
small_db = record {
  game_id_to_generation = λ game_id. ok 3;
  game_id_to_version_group = λ game_id. ok 5;
  item_index_to_id = λ index game_id. ok index;
  item_id_to_index = λ item game_id. if ltb item 65536 then ok item else throw invalid_argument;
  item_id_to_name = λ item version_group_id. ok "Potion";
  list_of_pocket = λ version_group_id item. ok (pos 17);
  item_list_id_to_name = λ list. ok "Items";
  list_name = λ list version_group_id. ok "Items";
  list_capacity = λ list version_group_id. ok 3;
}

abbrev pub memory : Backend (Unit {0})
memory = record { write = λ index l. (ok tt, l.native) }

pub memory-IsTotal : IsTotal memory
memory-IsTotal = λ index l. refl

abbrev pub list_of : ℕ → List ItemSlot → ItemList (Unit {0})
list_of num_items slots = record {
  item_list_id = pos 17;
  game_id = 7;
  version_group_id = 5;
  capacity = 3;
  num_items = num_items;
  pc = false;
  item_slots = slots;
  native = tt;
}

abbrev two_items : ItemList (Unit {0})
two_items = list_of 2 (slot 13 5 ∷ slot 4 1 ∷ empty_slot ∷ [])

abbrev three_items : ItemList (Unit {0})
three_items = list_of 3 (slot 13 5 ∷ slot 4 1 ∷ slot 9 99 ∷ [])

two_items-IsValid : IsValid two_items
two_items-IsValid = ground arith

three_items-IsValid : IsValid three_items
three_items-IsValid = ground arith

added : (add small_db memory 13 (pos 3) two_items).0 ≡ ok tt
unfolding add add_to find_item enforce_bounds
added = refl

add-IsValid_example : IsValid (add small_db memory 8 (pos 200) two_items).1
add-IsValid_example =
    add-IsValid small_db memory two_items 8 (pos 200) two_items-IsValid (omega arith)

held-add_example :
    held 13 (add small_db memory 13 (pos 3) two_items).1.item_slots
    ≡ held 13 two_items.item_slots + 3
held-add_example = held-add small_db memory two_items 13 (pos 3) 13 two_items-IsValid added

overfilled :
    (add small_db memory 13 (pos 97) two_items).0 ≡ throw (runtime_error (can_only_add (pos 94)))
unfolding add add_to find_item enforce_bounds
overfilled = refl

removed : (remove small_db memory 13 (pos 5) two_items).0 ≡ ok tt
unfolding remove remove_at find_item enforce_bounds
removed = refl

remove-IsValid_example : IsValid (remove small_db memory 13 (pos 5) two_items).1
remove-IsValid_example = remove-IsValid small_db memory two_items 13 (pos 5) two_items-IsValid

held-remove_example :
    held 13 (remove small_db memory 13 (pos 5) two_items).1.item_slots + 5
    ≡ held 13 two_items.item_slots
held-remove_example = held-remove small_db memory two_items 13 (pos 5) 13 two_items-IsValid removed

move-IsValid_example : IsValid (move small_db memory (pos 0) (pos 2) three_items).1
move-IsValid_example = move-IsValid small_db memory three_items (pos 0) (pos 2) three_items-IsValid

moved : (move small_db memory (pos 0) (pos 2) three_items).0 ≡ ok tt
unfolding move
moved = refl

replaced : (set_item small_db memory (pos 2) 9 (pos 10) three_items).0 ≡ ok tt
unfolding set_item check_slot enforce_bounds entry_of_item get_pocket is_elsewhere list_id_by_name
    valid_name version_group_id_to_item_list_id
replaced = refl

set_item_full_example :
    let l' = (set_item small_db memory (pos 2) 9 (pos 10) three_items).1 in
    (l'.num_items ≡ 4) × ¬ IsValid l'
set_item_full_example =
    set_item_full small_db memory three_items 9 (pos 10) refl (omega arith) (omega arith) replaced
