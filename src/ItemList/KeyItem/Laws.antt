-- ===== src/ItemList/KeyItem/Laws.antt =====
-- The key item pocket (lib/item_list_gen2_keyitemimpl.cpp): what its operations keep and what not.
use libpkmn.Common.{
  ℕ, suc, ◌+◌, ◌-◌, ◌<◌, ◌≡◌, subst, ◌≢◌, inl, inr, arith, Option-cases, erase_idx, length-set,
  length-resize, ℤ, ok, Result-cases,
}
use libpkmn.ItemEntry.{ItemDb, none_item}
use libpkmn.ItemList.{slot, find_item}
use libpkmn.ItemList.State.{empty_slot, ItemList, Backend, >>=-ok, >>=-throw, Action, ◌>>◌ as seq}
use libpkmn.ItemList.Valid.{IsValid}
use libpkmn.ItemList.Packed.{IsHeld, Absent, IsPacked, IsPacked-le, find-none-Absent, find-some}
use libpkmn.ItemList.Packed.{push-IsPacked}
use libpkmn.ItemList.Shift.{resize-erase, erase-IsPacked, append_empty-IsPacked}
use libpkmn.ItemList.KeyItem.{
  check_key_item, append_key_item, add_key_item, add_checked, remove_checked, drop_key_item,
  remove_key_item, set_key_item, check_key_slot,
}

module _ {N : Type 0} (db : ItemDb) (backend : Backend N) where
  check_key_item-state :
      (item : ℕ) (amount : ℤ) (l : ItemList N) → (check_key_item db backend item amount l).1 ≡ l
  unfolding check_key_item
  check_key_item-state item amount l = ground arith

  append_key_item-IsValid :
      (l : ItemList N) (item : ℕ)
      → IsValid l
      → item ≢ none_item
      → Absent item l.item_slots
      → IsValid (append_key_item db backend item l).1
  unfolding append_key_item
  append_key_item-IsValid l item v ne fresh =
      let new : IsHeld (slot item 1) = record {
        named = ne;
        at_least = omega arith;
        at_most = omega arith;
      } in
      ground (
        arith,
        IsPacked-le l.num_items l.item_slots v.packed,
        push-IsPacked l.num_items l.item_slots (slot item 1) v.packed,
        length-set l.item_slots l.num_items (slot item 1),
      )

  -- What follows the check keeps what it keeps alone.
  check-IsValid :
      (item : ℕ) (amount : ℤ) (k : Action N (Unit {0})) (l : ItemList N)
      → IsValid (k l).1
      → IsValid l
      → IsValid (seq (check_key_item db backend item amount) k l).1
  check-IsValid item amount k l kept v =
      let m = check_key_item db backend item amount in
      elim (Result-cases (m l).0) [
        | inl (u, q) ↦ rw (>>=-ok m (λ _. k) l q, check_key_item-state item amount l) kept
        | inr (x, q) ↦ rw (>>=-throw m (λ _. k) l q, check_key_item-state item amount l) v
      ]

  -- Whatever `add` of the key item pocket does, by an item that is not `e_item::NONE` a valid pocket
  -- stays valid: also where it throws, or where `_to_native` throws after the slots were written.
  pub add_key_item-IsValid :
      (l : ItemList N) (item : ℕ) (amount : ℤ)
      → IsValid l
      → item ≢ none_item
      → IsValid (add_key_item db backend item amount l).1
  unfolding add_key_item
  add_key_item-IsValid l item amount v ne =
      let kept : IsValid (add_checked db backend item l).1 =
        elim (Option-cases (find_item item l.num_items l.item_slots)) [
          | inl e ↦ rw e (
              append_key_item-IsValid l item v ne
                (find-none-Absent item l.num_items l.item_slots ne v.packed e))
          | inr (i, e) ↦ rw e v
        ] in
      check-IsValid item amount (add_checked db backend item) l kept v

  drop_key_item-IsValid :
      (l : ItemList N) (i : ℕ)
      → IsValid l
      → i < l.num_items
      → IsValid (drop_key_item db backend i l).1
  unfolding drop_key_item
  drop_key_item-IsValid l i v lt =
      let le = IsPacked-le l.num_items l.item_slots v.packed in
      let n : l.num_items ≡ suc (l.num_items - 1) = omega arith in
      let erased =
        erase-IsPacked (l.num_items - 1) l.item_slots i
          (subst (λ k. IsPacked k l.item_slots) n v.packed) (omega arith) in
      let shape = resize-erase l.item_slots i empty_slot (omega arith) in
      record {
        packed =
            rw (← v.sized, shape)
              (append_empty-IsPacked (l.num_items - 1) (erase_idx l.item_slots i) erased);
        sized = length-resize l.capacity empty_slot (erase_idx l.item_slots i);
      }

  -- Whatever `remove` of the key item pocket does, a valid pocket stays valid.
  pub remove_key_item-IsValid :
      (l : ItemList N) (item : ℕ) (amount : ℤ)
      → IsValid l
      → IsValid (remove_key_item db backend item amount l).1
  unfolding remove_key_item
  remove_key_item-IsValid l item amount v =
      let kept : IsValid (remove_checked db backend item l).1 =
        elim (Option-cases (find_item item l.num_items l.item_slots)) [
          | inl e ↦ rw e v
          | inr (i, e) ↦
              rw e (drop_key_item-IsValid l i v (find-some item l.num_items l.item_slots i e).0)
        ] in
      check-IsValid item amount (remove_checked db backend item) l kept v

  check_key_slot-state :
      (position : ℤ) (item : ℕ) (amount : ℤ) (l : ItemList N)
      → (check_key_slot db backend position item amount l).1 ≡ l
  unfolding check_key_slot
  check_key_slot-state position item amount l = ground arith

  -- Where `set_item` of the key item pocket returns and the item is not `e_item::NONE`, there is one item
  -- more by its count, also where an item of the pocket was replaced.
  pub set_key_item_count :
      (l : ItemList N) (position : ℤ) (item : ℕ) (amount : ℤ)
      → item ≢ none_item
      → (set_key_item db backend position item amount l).0 ≡ ok tt
      → (set_key_item db backend position item amount l).1.num_items ≡ l.num_items + 1
  unfolding set_key_item
  set_key_item_count l position item amount ne =
      ground (arith, check_key_slot-state position item amount l)
