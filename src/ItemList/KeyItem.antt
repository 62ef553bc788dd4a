-- ===== src/ItemList/KeyItem.antt =====
-- The key item pocket of the second generation: lib/item_list_gen2_keyitemimpl.cpp. It holds one of each
-- item; its native list is of bytes, one for each slot.
pub mod Laws
mod Tests
use text.Mathlib.Text.{◌==◌ as str_eq}
use libpkmn.Common.{
  bit, bit_xor-halves, ℕ, zero, suc, ◌+◌, ◌-◌, ◌*◌, ◌/◌, ◌%◌, ◌^◌, ◌≤◌, ◌<◌, min, max, bit_and,
  bit_or, bit_xor, ◌≡◌, refl, sym, ap, ◌∙◌, subst, ◌≢◌, ◌↔◌, ◌⊎◌, inl, inr, Bool, true, false, not,
  ◌&&◌, ◌||◌, Option, none, some, List, [], ◌∷◌, ◌++◌, map, arith, ltb, leb, ◌==◌, if◌then◌else◌,
  ==→≡, ==_refl, ≢→==, Bool-cases, Option-cases, length, get_elem?, get_or, set, erase_idx,
  insert_idx, resize, replicate, All, length-append, length-set, length-resize, length-erase_idx,
  length-insert_idx, length-replicate, length-map, get_or-set_self, get_or-set_ne, ℤ, pos, negsuc,
  pos_part, neg_part, sub_ℕ, eq_ℤ, min_ℤ, ◌≤ℤ◌, ltb_ℤ, Reason, no_more_of_item, no_new_items,
  no_more_items, invalid_item, invalid_game, invalid_list, query_failed, can_only_add,
  can_only_remove, Exception, out_of_range, invalid_argument, domain_error, range_error,
  feature_not_in_game_error, unimplemented_error, runtime_error, Result, ok, throw, guard,
  Result-cases,
}
use libpkmn.Enforce.{enforce_bounds}
use libpkmn.ItemEntry.{
  ItemDb, ItemEntry, none_item, entry_of_item, entry_of_index, get_item, get_pocket,
}
use libpkmn.ItemList.{slot, put, find_item, is_elsewhere, drop_slot, end_boundary, get_name}
use libpkmn.ItemList.State.{
  ItemSlot, empty_slot, ItemList, Backend, Action, pure, raise, lift, get, modify, to_native,
  at_found_or, ◌>>=◌, ◌>>◌,
}
use libpkmn.ItemList.Codec.{write_all, write_one}

-- `struct pksav_gen2_key_item_pocket`
pub record KeyItemPocket : Type 0 where
  pub count : ℕ
  pub item_indices : List ℕ
  pub terminator : ℕ

module _ (db : ItemDb) where
  unfoldable pub index_of_slot : ℕ → ItemSlot → Result ℕ
  index_of_slot game_id s = elim (entry_of_item db s.item game_id) [
    | ok entry ↦ ok (entry.item_index % 256)
    | throw e ↦ throw e
  ]

  abbrev count_key_items :
      ItemList KeyItemPocket → Result (Unit {0}) × List ℕ → Result (Unit {0}) × KeyItemPocket
  count_key_items l (ok u, indices) =
      (ok u, record l.native { item_indices = indices; count = l.num_items % 256 })
  count_key_items l (throw e, indices) = (throw e, record l.native { item_indices = indices })

  -- `_to_native`
  unfoldable pub write_key_items :
      Option ℕ → ItemList KeyItemPocket → Result (Unit {0}) × KeyItemPocket
  write_key_items none l =
      count_key_items l
        (write_all (index_of_slot l.game_id) l.capacity l.item_slots l.native.item_indices)
  write_key_items (some i) l = count_key_items l (
      write_one (index_of_slot l.game_id) i (get_or l.item_slots i empty_slot)
        l.native.item_indices)

-- The operations, over any `_to_native`.
module _ {N : Type 0} (db : ItemDb) (backend : Backend N) where
  -- The check of the amount and of the pocket, which `add` and `remove` share.
  unfoldable pub check_key_item : ℕ → ℤ → Action N (Unit {0})
  check_key_item item amount = do
    l ← get
    if not (eq_ℤ amount (pos 1)) then raise out_of_range else (do
      entry ← lift (entry_of_item db item l.game_id)
      pocket ← lift (get_pocket db entry)
      name ← lift (get_name db l)
      if not (str_eq pocket name) then raise invalid_argument else pure tt)

  unfoldable pub append_key_item : ℕ → Action N (Unit {0})
  append_key_item item = do
    l ← get
    if ltb l.num_items l.capacity
        then (do
          modify (put l.num_items (slot item 1))
          modify (λ l. record l { num_items = l.num_items + 1 })
          to_native backend (some l.num_items))
        else raise (runtime_error no_more_items)

  abbrev pub add_checked : ℕ → Action N (Unit {0})
  add_checked item = do
    l ← get
    at_found_or (find_item item l.num_items l.item_slots) (λ i. raise invalid_argument)
        (append_key_item item)

  unfoldable pub add_key_item : ℕ → ℤ → Action N (Unit {0})
  add_key_item item amount = check_key_item item amount >> add_checked item

  -- Only the slot at the position that became free is written to the native list.
  unfoldable pub drop_key_item : ℕ → Action N (Unit {0})
  drop_key_item i = modify (drop_slot db backend i) >> to_native backend (some i)

  abbrev pub remove_checked : ℕ → Action N (Unit {0})
  remove_checked item = do
    l ← get
    at_found_or (find_item item l.num_items l.item_slots) (λ i. drop_key_item i) (pure tt)

  unfoldable pub remove_key_item : ℕ → ℤ → Action N (Unit {0})
  remove_key_item item amount = check_key_item item amount >> remove_checked item

  -- The second half of the checks of `set_item`.
  unfoldable pub check_key_slot : ℤ → ℕ → ℤ → Action N (Unit {0})
  check_key_slot position item amount = do
    l ← get
    if item == none_item
        then if not (eq_ℤ amount (pos 0))
          then raise invalid_argument
          else lift (enforce_bounds amount (pos 0) (pos 99))
        else (do
          entry ← lift (entry_of_item db item l.game_id)
          pocket ← lift (get_pocket db entry)
          name ← lift (get_name db l)
          if not (str_eq pocket name)
              then raise invalid_argument
              else if not (eq_ℤ amount (pos 1))
              then raise out_of_range
              else if is_elsewhere item (pos_part position) 0 l.num_items l.item_slots
              then raise invalid_argument
              else pure tt)

  -- The writes of `set_item`, at a boundary that was read before them.
  abbrev pub write_key_slot : ℤ → ℕ → ℕ → ℤ → ItemList N → ItemList N
  write_key_slot end item amount position l =
      let i = pos_part position in
      let l' = put i (slot item amount) l in
      if item == none_item && ltb_ℤ position end
      then record l' {
        item_slots = erase_idx l'.item_slots i ++ (empty_slot ∷ []);
        num_items = l'.num_items - 1;
      }
      else record l' { num_items = l'.num_items + 1 }

  unfoldable pub set_key_item : ℤ → ℕ → ℤ → Action N (Unit {0})
  set_key_item position item amount = do
    l ← get
    lift (enforce_bounds position (pos 0) (end_boundary l))
    check_key_slot position item amount
    modify (write_key_slot (end_boundary l) item (pos_part amount) position)
    to_native backend none
