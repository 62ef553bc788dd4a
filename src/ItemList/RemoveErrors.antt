-- ===== src/ItemList/RemoveErrors.antt =====
-- When `item_list_impl::remove` of lib/item_list_impl.cpp throws, what it leaves behind, and that it
-- undoes `add`.
use libpkmn.Common.{
  ℕ, ◌-◌, ◌≤◌, ◌<◌, ◌≡◌, ◌≢◌, ◌⊎◌, ◌↔◌, arith, inl, inr, none, some, refl, ℤ, pos, pos_part, ◌≤ℤ◌,
  ok, throw, Exception, Option-cases, set, erase_idx, resize,
}
use libpkmn.Enforce.Laws.{enforce_range_lem}
use libpkmn.ItemEntry.{ItemDb, none_item}
use libpkmn.ItemList.{find_item, slot, remove_at, remove, add}
use libpkmn.ItemList.State.{ItemList, Backend, empty_slot, slot_at}
use libpkmn.ItemList.Valid.{IsValid, IsTotal}
use libpkmn.ItemList.Packed.{held, find-none-Absent}
use libpkmn.ItemList.Held.{held-Absent, held-find}
use libpkmn.ItemList.AddLaws.{add-IsValid, held-add}
use libpkmn.ItemList.AddErrors.{add_iff}
use libpkmn.ItemList.RemoveLaws.{held-remove}

module _ {N : Type 0} (db : ItemDb) (backend : Backend N) (total : IsTotal backend) where
  remove_at_lem :
      (l : ItemList N) (i amount : ℕ)
      → ((amount ≤ (slot_at l i).amount) × ((remove_at db backend i amount l).0 ≡ ok tt))
        ⊎ (((slot_at l i).amount < amount)
            × ((remove_at db backend i amount l).0 ≢ ok tt)
            × ((remove_at db backend i amount l).1 ≡ l))
  unfolding remove_at
  remove_at_lem l i amount =
      let s = slot_at l i in
      let after = set l.item_slots i (slot s.item (s.amount - amount)) in
      let shrunk = resize l.capacity empty_slot (erase_idx after i) in
      ground (
        arith,
        total (some i) (record l { item_slots = after }),
        total none (record l { item_slots = shrunk; num_items = l.num_items - 1 }),
      )

  pub remove_iff :
      (l : ItemList N) (item : ℕ) (amount : ℤ)
      → IsValid l
      → item ≢ none_item
      → ((remove db backend item amount l).0 ≡ ok tt)
        ↔ ((pos 1 ≤ℤ amount) × (amount ≤ℤ pos 99) × (pos_part amount ≤ held item l.item_slots))
  unfolding remove
  remove_iff l item amount v ne = elim (enforce_range_lem amount 1 99) [
    | inl (passed, _, lo, hi, low, high) ↦
        rw passed (elim (Option-cases (find_item item l.num_items l.item_slots)) [
          | inl e ↦
              let gone =
                held-Absent item l.item_slots
                  (find-none-Absent item l.num_items l.item_slots ne v.packed e) in
              rw e (λ h. cc, λ (_, _, enough). absurd (omega arith))
          | inr (i, e) ↦
              rw (e, held-find item l.num_items l.item_slots i v.packed e)
                (elim (remove_at_lem l i (pos_part amount)) [
                  | inl (enough, done) ↦ (λ _. (low, high, enough), λ _. done)
                  | inr (short, failed, _) ↦
                      (λ h. absurd (failed h), λ (_, _, enough). absurd (omega arith))
                ])
        ])
    | inr (refused, outside) ↦
        rw refused (λ h. cc, λ (above, below, _). absurd (outside (above, below)))
  ]

  -- `remove` is atomic where `_to_native` does not throw: if it throws, the list is as before.
  pub remove-unchanged :
      (l : ItemList N) (item : ℕ) (amount : ℤ) {e : Exception}
      → (remove db backend item amount l).0 ≡ throw e
      → (remove db backend item amount l).1 ≡ l
  unfolding remove
  remove-unchanged l item amount = elim (enforce_range_lem amount 1 99) [
    | inl (passed, _, lo, hi, low, high) ↦
        rw passed (elim (Option-cases (find_item item l.num_items l.item_slots)) [
          | inl e ↦ rw e (λ h. refl)
          | inr (i, e) ↦ rw e (elim (remove_at_lem l i (pos_part amount)) [
            | inl (enough, done) ↦ λ h. cc
            | inr (short, failed, same) ↦ λ h. same
          ])
        ])
    | inr (refused, outside) ↦ rw refused (λ h. refl)
  ]

  pub remove-add :
      (l : ItemList N) (item : ℕ) (amount : ℤ)
      → IsValid l
      → item ≢ none_item
      → (add db backend item amount l).0 ≡ ok tt
      → let l' = (add db backend item amount l).1 in
        ((remove db backend item amount l').0 ≡ ok tt)
        × ((j : ℕ) → held j (remove db backend item amount l').1.item_slots ≡ held j l.item_slots)
  remove-add l item amount v ne added =
      let l' = (add db backend item amount l).1 in
      let v' = add-IsValid db backend l item amount v ne in
      let (low, high, _) = (add_iff db backend total l item amount v ne).0 added in
      let more = held-add db backend l item amount item v added in
      let done = (remove_iff l' item amount v' ne).1 (low, high, ground arith) in
      (
        done,
        λ j. omega (
          arith,
          held-add db backend l item amount j v added,
          held-remove db backend l' item amount j v' done,
        ),
      )
