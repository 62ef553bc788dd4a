-- ===== src/ItemList/Mirror.antt =====
-- The native list stays in step with the slots (lib/item_list_impl.cpp): every operation that returns has
-- called `_to_native` for what it changed. `Mirror` is what this takes of a subclass's `_to_native`.
use libpkmn.Common.{
  ℕ, ◌+◌, ◌-◌, ◌<◌, ◌≡◌, sym, ◌∙◌, inl, inr, none, some, List, arith, Option-cases, length, set,
  erase_idx, insert_idx, resize, length-resize, length-erase_idx, length-insert_idx, ℤ, pos_part,
  ok,
}
use libpkmn.Enforce.Laws.{enforce_range_lem}
use libpkmn.ItemEntry.{ItemDb}
use libpkmn.ItemList.{slot, find_item, add, add_to, add_new, remove, remove_at, move}
use libpkmn.ItemList.State.{ItemSlot, empty_slot, ItemList, Backend, slot_at}
use libpkmn.ItemList.Valid.{IsValid}
use libpkmn.ItemList.Packed.{find-some, IsPacked-le}

-- A list whose slots and number of items have changed.
abbrev pub with_slots : {N : Type 0} → List ItemSlot → ℕ → ItemList N → ItemList N
with_slots slots n l = record l { item_slots = slots; num_items = n }

abbrev pub with_native : {N : Type 0} → N → ItemList N → ItemList N
with_native native l = record l { native = native }

pub record Mirror {N : Type 0} (backend : Backend N) : Type 1 where
  pub IsSynced : ItemList N → Type 0
  -- `_to_native(index)` after a write of that slot.
  pub update :
      (l : ItemList N) (i n : ℕ) (s : ItemSlot)
      → IsSynced l
      → let l' = with_slots (set l.item_slots i s) n l in
        (backend.write (some i) l').0 ≡ ok tt
        → IsSynced (with_native (backend.write (some i) l').1 l')
  -- `_to_native(-1)` after any change that keeps the number of slots.
  pub refresh :
      (l : ItemList N) (n : ℕ) (slots : List ItemSlot)
      → IsSynced l
      → length slots ≡ length l.item_slots
      → length slots ≡ l.capacity
      → let l' = with_slots slots n l in
        (backend.write none l').0 ≡ ok tt → IsSynced (with_native (backend.write none l').1 l')

module _ {N : Type 0} (db : ItemDb) (backend : Backend N) (mirror : Mirror backend) where
  add_to-IsSynced :
      (l : ItemList N) (i amount : ℕ)
      → mirror.IsSynced l
      → (add_to db backend i amount l).0 ≡ ok tt
      → mirror.IsSynced (add_to db backend i amount l).1
  unfolding add_to
  add_to-IsSynced l i amount y =
      let s = slot_at l i in
      ground (arith, mirror.update l i l.num_items (slot s.item (s.amount + amount)) y)

  add_new-IsSynced :
      (l : ItemList N) (item amount : ℕ)
      → mirror.IsSynced l
      → (add_new db backend item amount l).0 ≡ ok tt
      → mirror.IsSynced (add_new db backend item amount l).1
  unfolding add_new
  add_new-IsSynced l item amount y =
      ground (arith, mirror.update l l.num_items (l.num_items + 1) (slot item amount) y)

  -- With a `_to_native` that is a `Mirror`: where `add` returns, the native list is in step with the
  -- slots if it was before.
  pub add-IsSynced :
      (l : ItemList N) (item : ℕ) (amount : ℤ)
      → mirror.IsSynced l
      → (add db backend item amount l).0 ≡ ok tt
      → mirror.IsSynced (add db backend item amount l).1
  unfolding add
  add-IsSynced l item amount y = elim (enforce_range_lem amount 1 99) [
    | inl (passed, _, _, _, _, _) ↦
        rw passed (elim (Option-cases (find_item item l.num_items l.item_slots)) [
          | inl e ↦ rw e (add_new-IsSynced l item (pos_part amount) y)
          | inr (i, e) ↦ rw e (add_to-IsSynced l i (pos_part amount) y)
        ])
    | inr (refused, _) ↦ rw refused (λ e. cc)
  ]

  remove_at-IsSynced :
      (l : ItemList N) (i amount : ℕ)
      → IsValid l
      → i < l.num_items
      → mirror.IsSynced l
      → (remove_at db backend i amount l).0 ≡ ok tt
      → mirror.IsSynced (remove_at db backend i amount l).1
  unfolding remove_at
  remove_at-IsSynced l i amount v lt y =
      let s = slot_at l i in
      let s' = slot s.item (s.amount - amount) in
      let slots = resize l.capacity empty_slot (erase_idx (set l.item_slots i s') i) in
      let long = length-resize l.capacity empty_slot (erase_idx (set l.item_slots i s') i) in
      ground (
        arith,
        mirror.update l i l.num_items s' y,
        mirror.refresh l (l.num_items - 1) slots y (long ∙ sym v.sized) long,
      )

  -- With a `_to_native` that is a `Mirror`, on a valid list: where `remove` returns, the native list
  -- is in step with the slots if it was before.
  pub remove-IsSynced :
      (l : ItemList N) (item : ℕ) (amount : ℤ)
      → IsValid l
      → mirror.IsSynced l
      → (remove db backend item amount l).0 ≡ ok tt
      → mirror.IsSynced (remove db backend item amount l).1
  unfolding remove
  remove-IsSynced l item amount v y = elim (enforce_range_lem amount 1 99) [
    | inl (passed, _, _, _, _, _) ↦
        rw passed (elim (Option-cases (find_item item l.num_items l.item_slots)) [
          | inl e ↦ rw e (λ x. cc)
          | inr (i, e) ↦ rw e (
              remove_at-IsSynced l i (pos_part amount) v
                (find-some item l.num_items l.item_slots i e).0 y)
        ])
    | inr (refused, _) ↦ rw refused (λ e. cc)
  ]

  -- With a `_to_native` that is a `Mirror`, on a valid list: where `move` returns, the native list
  -- is in step with the slots if it was before.
  pub move-IsSynced :
      (l : ItemList N) (old new : ℤ)
      → IsValid l
      → mirror.IsSynced l
      → (move db backend old new l).0 ≡ ok tt
      → mirror.IsSynced (move db backend old new l).1
  unfolding move
  move-IsSynced l old new v y =
      let i = pos_part old in
      let j = pos_part new in
      let erased = erase_idx l.item_slots i in
      let slots = insert_idx erased j (slot_at l i) in
      let le = IsPacked-le l.num_items l.item_slots v.packed in
      let long : i < l.num_items → j < l.num_items → length slots ≡ length l.item_slots = λ a b.
        omega (
          arith,
          length-erase_idx l.item_slots i (omega arith),
          length-insert_idx erased j (slot_at l i)
              (omega (arith, length-erase_idx l.item_slots i (omega arith))),
        ) in
      ground (arith, long, v.sized, mirror.refresh l l.num_items slots y)
