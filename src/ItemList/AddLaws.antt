-- ===== src/ItemList/AddLaws.antt =====
-- `item_list_impl::add` of lib/item_list_impl.cpp.
use libpkmn.Common.{
  ℕ, ◌+◌, ◌≤◌, ◌<◌, ◌≡◌, ◌≢◌, length-set, ◌==◌, if◌then◌else◌, arith, length, ℤ, pos_part, ok,
  Option-cases, inl, inr, ◌∙◌, ap,
}
use libpkmn.Enforce.Laws.{enforce_range_lem}
use libpkmn.ItemEntry.{ItemDb, none_item}
use libpkmn.ItemList.{find_item, slot, add_to, add_new, add}
use libpkmn.ItemList.State.{ItemList, Backend, slot_at}
use libpkmn.ItemList.Valid.{IsValid}
use libpkmn.ItemList.Packed.{
  IsHeld, Absent, held, IsPacked-le, next-IsEmpty, find-none-Absent, find-some, set-IsPacked,
  push-IsPacked,
}
use libpkmn.ItemList.Held.{part, held-set}

module _ {N : Type 0} (db : ItemDb) (backend : Backend N) where
  add_to-IsValid :
      (l : ItemList N) (i amount : ℕ)
      → IsValid l
      → i < l.num_items
      → 1 ≤ amount
      → IsValid (add_to db backend i amount l).1
  unfolding add_to
  add_to-IsValid l i amount v lt lo =
      let s = slot_at l i in
      ground (
        arith,
        set-IsPacked l.num_items l.item_slots i (s.amount + amount) v.packed lt,
        length-set l.item_slots i (slot s.item (s.amount + amount)),
      )

  add_new-IsValid :
      (l : ItemList N) (item amount : ℕ)
      → IsValid l
      → IsHeld (slot item amount)
      → Absent item l.item_slots
      → IsValid (add_new db backend item amount l).1
  unfolding add_new
  add_new-IsValid l item amount v new fresh = ground (
    arith,
    IsPacked-le l.num_items l.item_slots v.packed,
    push-IsPacked l.num_items l.item_slots (slot item amount) v.packed,
    length-set l.item_slots l.num_items (slot item amount),
  )

  -- Whatever `add` does, by an item that is not `e_item::NONE` a valid list stays valid: also where
  -- it throws, or where `_to_native` throws after the slots were written.
  pub add-IsValid :
      (l : ItemList N) (item : ℕ) (amount : ℤ)
      → IsValid l
      → item ≢ none_item
      → IsValid (add db backend item amount l).1
  unfolding add
  add-IsValid l item amount v ne = elim (enforce_range_lem amount 1 99) [
    | inl (passed, _, lo, hi, low, high) ↦
        rw passed (elim (Option-cases (find_item item l.num_items l.item_slots)) [
          | inl e ↦ rw e (
              add_new-IsValid l item (pos_part amount) v
                (record { named = ne; at_least = lo; at_most = hi })
                (find-none-Absent item l.num_items l.item_slots ne v.packed e))
          | inr (i, e) ↦ rw e (
              add_to-IsValid l i (pos_part amount) v (find-some item l.num_items l.item_slots i e).0
                (omega arith))
        ])
    | inr (refused, outside) ↦ rw refused v
  ]

  held-add_to :
      (l : ItemList N) (i amount j : ℕ)
      → i < length l.item_slots
      → (add_to db backend i amount l).0 ≡ ok tt
      → held j (add_to db backend i amount l).1.item_slots
        ≡ held j l.item_slots + part j (slot (slot_at l i).item amount)
  unfolding add_to
  held-add_to l i amount j lt e =
      let s = slot_at l i in
      ground (arith, held-set j l.item_slots i (slot s.item (s.amount + amount)) lt)

  held-add_new :
      (l : ItemList N) (item amount j : ℕ)
      → IsValid l
      → (add_new db backend item amount l).0 ≡ ok tt
      → held j (add_new db backend item amount l).1.item_slots
        ≡ held j l.item_slots + part j (slot item amount)
  unfolding add_new
  held-add_new l item amount j v e =
      let new = slot item amount in
      ground (
        arith,
        v.sized,
        IsPacked-le l.num_items l.item_slots v.packed,
        next-IsEmpty l.num_items l.item_slots v.packed,
        held-set j l.item_slots l.num_items new,
      )

  -- Where `add` returns on a valid list, the list then holds `amount` more of the item, and as much
  -- as before of all others.
  pub held-add :
      (l : ItemList N) (item : ℕ) (amount : ℤ) (j : ℕ)
      → IsValid l
      → (add db backend item amount l).0 ≡ ok tt
      → held j (add db backend item amount l).1.item_slots
        ≡ held j l.item_slots + (if item == j then pos_part amount else 0)
  unfolding add
  held-add l item amount j v = elim (enforce_range_lem amount 1 99) [
    | inl (passed, _, lo, hi, low, high) ↦
        rw passed (elim (Option-cases (find_item item l.num_items l.item_slots)) [
          | inl e ↦ rw e (held-add_new l item (pos_part amount) j v)
          | inr (i, e) ↦
              let (_, lt, same) = find-some item l.num_items l.item_slots i e in
              rw e (λ done.
                held-add_to l i (pos_part amount) j lt done
                ∙ ap (λ t. held j l.item_slots + part j (slot t (pos_part amount))) same)
        ])
    | inr (refused, outside) ↦ rw refused (λ e. cc)
  ]
