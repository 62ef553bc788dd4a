-- ===== src/ItemList.antt =====
-- Item lists: lib/item_list_impl.cpp, the operations that all lists inherit. A list keeps its slots and
-- a native copy of them, of the type `N`, which `_to_native` of the subclass brings up to date: the
-- parameter `Backend`. The subclasses are the modules below. The mutex is not modelled: an operation
-- runs to its end. A slot outside `_item_slots` reads as an empty one, and a write there is dropped
-- (in C++ both are undefined): see `IsPacked` for why this does not happen.
pub mod State
pub mod Packed
pub mod Shift
pub mod Held
pub mod Valid
pub mod AddLaws
pub mod AddErrors
pub mod RemoveLaws
pub mod RemoveErrors
pub mod MoveLaws
pub mod SetLaws
pub mod SetFaults
pub mod Codec
pub mod Mirror
pub mod Modern
pub mod KeyItem
pub mod Gb
pub mod TmHm
pub mod Make
pub mod Tests
mod NativeTests
use Prim.Native.String.{String}
use text.Mathlib.Text.{◌==◌ as str_eq}
use libpkmn.Common.{
  ℕ, zero, suc, ◌+◌, ◌-◌, Bool, false, not, ◌&&◌, ◌||◌, Option, none, some, List, [], ◌∷◌, ◌==◌,
  ltb, if◌then◌else◌, length, set, erase_idx, insert_idx, resize, ◌++◌, ℤ, pos, pos_part, sub_ℕ,
  ltb_ℤ, min_ℤ, eq_ℤ, Result, out_of_range, invalid_argument, range_error, runtime_error,
  no_more_of_item, no_new_items, can_only_add, can_only_remove,
}
use libpkmn.Enforce.{enforce_bounds}
use libpkmn.ItemEntry.{ItemDb, none_item, entry_of_item, get_pocket}
use State.{
  ItemSlot, empty_slot, ItemList, slot_at, Backend, Action, pure, raise, lift, get, modify,
  to_native, ◌>>◌, at_found_or, ◌>>=◌,
}

-- The loops over the first `num` slots that look for an item: the first position where it stands.
unfoldable pub find_item : ℕ → ℕ → List ItemSlot → Option ℕ
find_item item zero slots = none
find_item item (suc num) [] = none
find_item item (suc num) (s ∷ slots) =
    let rest : Option ℕ = elim (find_item item num slots) [ none ↦ none | some i ↦ some (suc i) ] in
    if s.item == item then some 0 else rest

-- Whether an item stands among the first `num` slots at another position than `position`, which the
-- first slot's index `i` counts up to.
unfoldable pub is_elsewhere : ℕ → ℕ → ℕ → ℕ → List ItemSlot → Bool
is_elsewhere item position i zero slots = false
is_elsewhere item position i (suc num) [] = false
is_elsewhere item position i (suc num) (s ∷ slots) =
    (s.item == item && not (i == position)) || is_elsewhere item position (i + 1) num slots

abbrev pub slot : ℕ → ℕ → ItemSlot
slot item amount = record { item = item; amount = amount }

module _ {N : Type 0} where
  abbrev pub set_slots : List ItemSlot → ItemList N → ItemList N
  set_slots slots l = record l { item_slots = slots }

  -- `_item_slots[i] = …`
  abbrev pub put : ℕ → ItemSlot → ItemList N → ItemList N
  put i s l = record l { item_slots = set l.item_slots i s }

  unfoldable pub at : ℤ → Action N ItemSlot
  at position = do
    l ← get
    lift (enforce_bounds position (pos 0) (sub_ℕ l.capacity 1))
    if ltb (pos_part position) (length l.item_slots)
        then pure (slot_at l (pos_part position))
        else raise out_of_range

  abbrev pub end_boundary : ItemList N → ℤ
  end_boundary l = min_ℤ (pos l.num_items) (sub_ℕ l.capacity 1)

  abbrev pub get_name : ItemDb → ItemList N → Result String
  get_name db l = db.list_name l.item_list_id l.version_group_id

  module _ (db : ItemDb) (backend : Backend N) where
    -- `add` at the position where the item is.
    unfoldable pub add_to : ℕ → ℕ → Action N (Unit {0})
    add_to i amount = do
      l ← get
      let s = slot_at l i
      if s.amount == 99
          then raise (runtime_error no_more_of_item)
          else if ltb 99 (s.amount + amount)
          then raise (runtime_error (can_only_add (sub_ℕ 99 s.amount)))
          else modify (put i (slot s.item (s.amount + amount))) >> to_native backend (some i)

    -- `add` of an item that the list does not hold.
    unfoldable pub add_new : ℕ → ℕ → Action N (Unit {0})
    add_new item amount = do
      l ← get
      if l.num_items == l.capacity then raise (runtime_error no_new_items) else (do
        entry ← lift (entry_of_item db item l.game_id)
        if not l.pc && not (eq_ℤ entry.item_list_id l.item_list_id)
            then lift (get_pocket db entry) >> raise invalid_argument
            else (do
              modify (put l.num_items (slot item amount))
              modify (λ l. record l { num_items = l.num_items + 1 })
              to_native backend (some l.num_items)))

    unfoldable pub add : ℕ → ℤ → Action N (Unit {0})
    add item amount = do
      lift (enforce_bounds amount (pos 1) (pos 99))
      l ← get
      at_found_or (find_item item l.num_items l.item_slots) (λ i. add_to i (pos_part amount))
          (add_new item (pos_part amount))

    -- `erase`, `resize` and `_num_items--`.
    abbrev pub drop_slot : ℕ → ItemList N → ItemList N
    drop_slot i l = record l {
      item_slots = resize l.capacity empty_slot (erase_idx l.item_slots i);
      num_items = l.num_items - 1;
    }

    unfoldable pub remove_at : ℕ → ℕ → Action N (Unit {0})
    remove_at i amount = do
      l ← get
      let s = slot_at l i
      if ltb s.amount amount then raise (runtime_error (can_only_remove (pos s.amount))) else (do
        modify (put i (slot s.item (s.amount - amount)))
        if s.amount - amount == 0
            then modify (drop_slot i) >> to_native backend none
            else to_native backend (some i))

    unfoldable pub remove : ℕ → ℤ → Action N (Unit {0})
    remove item amount = do
      lift (enforce_bounds amount (pos 1) (pos 99))
      l ← get
      at_found_or (find_item item l.num_items l.item_slots) (λ i. remove_at i (pos_part amount))
          (raise invalid_argument)

    unfoldable pub move : ℤ → ℤ → Action N (Unit {0})
    move old_position new_position = do
      l ← get
      if ltb_ℤ old_position (pos 0)
            || not (ltb_ℤ old_position (pos l.num_items))
            || ltb_ℤ new_position (pos 0)
            || not (ltb_ℤ new_position (pos l.num_items))
          then raise range_error
          else if eq_ℤ old_position new_position
          then raise invalid_argument
          else (do
            let temp = slot_at l (pos_part old_position)
            modify (λ l. set_slots (erase_idx l.item_slots (pos_part old_position)) l)
            modify (λ l. set_slots (insert_idx l.item_slots (pos_part new_position) temp) l)
            to_native backend none)

    -- The second half of the checks of `set_item`.
    unfoldable pub check_slot : ℤ → ℕ → ℤ → Action N (Unit {0})
    check_slot position item amount = do
      l ← get
      if item == none_item
          then if not (eq_ℤ amount (pos 0))
            then raise invalid_argument
            else lift (enforce_bounds amount (pos 0) (pos 99))
          else (do
            entry ← lift (entry_of_item db item l.game_id)
            name ← lift (get_name db l)
            pocket ← (if str_eq name "PC" then pure name else lift (get_pocket db entry))
            if not (str_eq pocket name) then raise invalid_argument else (do
              lift (enforce_bounds amount (pos 1) (pos 99))
              if is_elsewhere item (pos_part position) 0 l.num_items l.item_slots
                  then raise invalid_argument
                  else pure tt))

    -- The writes of `set_item`, at a boundary that was read before them.
    abbrev pub write_slot : ℤ → ℕ → ℕ → ℤ → ItemList N → ItemList N
    write_slot end item amount position l =
        let i = pos_part position in
        let l' = put i (slot item amount) l in
        if item == none_item && ltb_ℤ position end
        then record l' {
          item_slots = erase_idx l'.item_slots i ++ (empty_slot ∷ []);
          num_items = l'.num_items - 1;
        }
        else if eq_ℤ position end
        then record l' { num_items = l'.num_items + 1 }
        else l'

    unfoldable pub set_item : ℤ → ℕ → ℤ → Action N (Unit {0})
    set_item position item amount = do
      l ← get
      lift (enforce_bounds position (pos 0) (end_boundary l))
      check_slot position item amount
      modify (write_slot (end_boundary l) item (pos_part amount) position)
      to_native backend none
