-- ===== src/ItemList/SetFaults.antt =====
-- The two inputs at which `item_list_impl::set_item` of lib/item_list_impl.cpp counts an item too many.
use libpkmn.Common.{
  ℕ, ◌+◌, ◌-◌, ◌<◌, ◌≡◌, ◌≢◌, arith, inl, inr, ℤ, pos, ok, set, length, ap, sub_ℕ, min_ℤ, subst,
  none, get_or-set_self,
}
use libpkmn.ItemEntry.{ItemDb, none_item}
use libpkmn.ItemList.{set_item, check_slot, enforce_bounds}
use libpkmn.ItemList.State.{ItemList, Backend, empty_slot}
use libpkmn.ItemList.Valid.{IsValid, IsTotal}
use libpkmn.ItemList.Packed.{IsPacked, IsPacked-le}
use libpkmn.ItemList.SetLaws.{written, set_item_lem}
use libpkmn.Enforce.{enforce_bounds}
use libpkmn.ItemList.Shift.{get-IsHeld}

module _ {N : Type 0} (db : ItemDb) (backend : Backend N) where
  -- Where a list is full and has a slot, and `set_item` of an item other than `e_item::NONE` at its
  -- last position returns, `num_items` is then one more than the capacity, which leaves the list
  -- invalid.
  pub set_item_full :
      (l : ItemList N) (item : ℕ) (amount : ℤ)
      → l.num_items ≡ l.capacity
      → 0 < l.capacity
      → item ≢ none_item
      → let (r, l') = set_item db backend (pos (l.capacity - 1)) item amount l in
        r ≡ ok tt → (l'.num_items ≡ l.capacity + 1) × ¬ IsValid l'
  unfolding written
  set_item_full l item amount full room ne done =
      elim (set_item_lem db backend l (pos (l.capacity - 1)) item amount) [
        | inl (failed, _) ↦ absurd (failed done)
        | inr (low, high, c, run) ↦
            let after = (set_item db backend (pos (l.capacity - 1)) item amount l).1 in
            let shape = ap (λ p. p.1) run in
            let num : after.num_items ≡ l.capacity + 1 = rw shape (ground arith) in
            let cap : after.capacity ≡ l.capacity = rw shape (ground arith) in
            (
              num,
              λ v.
                  let le = IsPacked-le after.num_items after.item_slots v.packed in
                  omega (arith, v.sized),
            )
      ]

  none_run :
      (l : ItemList N)
      → IsTotal backend
      → l.num_items < l.capacity
      → let (r, l') = set_item db backend (pos l.num_items) none_item (pos 0) l in
        (r ≡ ok tt)
        × (l'.num_items ≡ l.num_items + 1)
        × (l'.item_slots ≡ set l.item_slots l.num_items empty_slot)
  unfolding set_item check_slot enforce_bounds
  none_run l total room =
      let bound : min_ℤ (pos l.num_items) (sub_ℕ l.capacity 1) ≡ pos l.num_items = ground arith in
      let after = set l.item_slots l.num_items empty_slot in
      let final = record l { item_slots = after; num_items = l.num_items + 1 } in
      rw bound (ground (arith, total none final))

  -- On a valid list that is not full, with a `_to_native` that does not throw, `set_item` of
  -- `e_item::NONE` behind the last item returns and counts an empty slot as an item, which leaves
  -- the list invalid.
  pub set_item_none_at_end :
      (l : ItemList N)
      → IsTotal backend
      → IsValid l
      → l.num_items < l.capacity
      → let (r, l') = set_item db backend (pos l.num_items) none_item (pos 0) l in
        (r ≡ ok tt) × (l'.num_items ≡ l.num_items + 1) × ¬ IsValid l'
  set_item_none_at_end l total v room =
      let (done, num, slots) = none_run l total room in
      let inside : l.num_items < length l.item_slots = omega (arith, v.sized) in
      (
        done,
        num,
        λ w.
            let packed : IsPacked (l.num_items + 1) (set l.item_slots l.num_items empty_slot) =
              subst (λ n. IsPacked n (set l.item_slots l.num_items empty_slot)) num
                (subst (IsPacked _) slots w.packed) in
            (get-IsHeld (l.num_items + 1) (set l.item_slots l.num_items empty_slot) l.num_items
                packed (omega arith)).named
              (rw (get_or-set_self l.item_slots l.num_items empty_slot empty_slot inside)),
      )
