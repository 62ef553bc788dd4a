-- ===== src/ItemList/AddErrors.antt =====
-- When `item_list_impl::add` of lib/item_list_impl.cpp throws, and what it leaves behind.
use libpkmn.Common.{
  ℕ, ◌+◌, ◌≤◌, ◌<◌, ◌≡◌, ◌≢◌, ◌⊎◌, arith, inl, inr, some, true, refl, ℤ, pos, pos_part, ok, throw,
  Result-cases, ◌≤ℤ◌, Exception, runtime_error, can_only_add, eq_ℤ, Option-cases, set, ◌↔◌,
}
use libpkmn.Enforce.Laws.{enforce_range_lem}
use libpkmn.ItemEntry.{ItemDb, ItemEntry, none_item, entry_of_item}
use libpkmn.ItemList.{find_item, slot, add_to, add_new, add}
use libpkmn.ItemList.State.{ItemList, Backend, slot_at}
use libpkmn.ItemList.Valid.{IsValid, IsTotal}
use libpkmn.ItemList.Packed.{held, IsPacked-le, find-none-Absent, find-some, IsHeld}
use libpkmn.ItemList.AddLaws.{held-add}
use libpkmn.ItemList.Shift.{get-IsHeld}
use libpkmn.ItemList.Held.{held-Absent, held-find}

-- The database has the item, in this list's pocket unless the list is a PC.
abbrev pub Accepts : {N : Type 0} → ItemDb → ItemList N → ℕ → Type 0
Accepts db l item =
    (entry : ItemEntry) × (entry_of_item db item l.game_id ≡ ok entry)
    × ((l.pc ≡ true) ⊎ (eq_ℤ entry.item_list_id l.item_list_id ≡ true))

-- The list can take `amount` more of the item: 99 is the most of one, and an item that it does not
-- hold needs a free slot and must belong here.
abbrev pub CanAdd : {N : Type 0} → ItemDb → ItemList N → ℕ → ℕ → Type 0
CanAdd db l item amount =
    ((0 < held item l.item_slots) × (held item l.item_slots + amount ≤ 99))
    ⊎ ((held item l.item_slots ≡ 0) × (l.num_items < l.capacity) × Accepts db l item)

module _ {N : Type 0} (db : ItemDb) (backend : Backend N) (total : IsTotal backend) where
  add_to-unchanged :
      (l : ItemList N) (i amount : ℕ) {e : Exception}
      → (add_to db backend i amount l).0 ≡ throw e
      → (add_to db backend i amount l).1 ≡ l
  unfolding add_to
  add_to-unchanged l i amount h =
      let s = slot_at l i in
      let after = set l.item_slots i (slot s.item (s.amount + amount)) in
      ground (arith, total (some i) (record l { item_slots = after }))

  add_new-unchanged :
      (l : ItemList N) (item amount : ℕ) {e : Exception}
      → (add_new db backend item amount l).0 ≡ throw e
      → (add_new db backend item amount l).1 ≡ l
  unfolding add_new
  add_new-unchanged l item amount h =
      let after = set l.item_slots l.num_items (slot item amount) in
      let final = record l { item_slots = after; num_items = l.num_items + 1 } in
      ground (arith, total (some l.num_items) final)

  -- `add` is atomic where `_to_native` does not throw: if it throws, the list is as before.
  pub add-unchanged :
      (l : ItemList N) (item : ℕ) (amount : ℤ) {e : Exception}
      → (add db backend item amount l).0 ≡ throw e
      → (add db backend item amount l).1 ≡ l
  unfolding add
  add-unchanged l item amount = elim (enforce_range_lem amount 1 99) [
    | inl (passed, _, _, _, low, high) ↦
        rw passed (elim (Option-cases (find_item item l.num_items l.item_slots)) [
          | inl e ↦ rw e (add_new-unchanged l item (pos_part amount))
          | inr (i, e) ↦ rw e (add_to-unchanged l i (pos_part amount))
        ])
    | inr (refused, outside) ↦ rw refused (λ h. refl)
  ]

  add_to_iff :
      (l : ItemList N) (i amount : ℕ)
      → 1 ≤ amount
      → ((add_to db backend i amount l).0 ≡ ok tt) ↔ ((slot_at l i).amount + amount ≤ 99)
  unfolding add_to
  add_to_iff l i amount lo =
      let s = slot_at l i in
      let after = set l.item_slots i (slot s.item (s.amount + amount)) in
      ground (arith, total (some i) (record l { item_slots = after }))

  add_new_iff :
      (l : ItemList N) (item amount : ℕ)
      → ((add_new db backend item amount l).0 ≡ ok tt)
        ↔ ((l.num_items ≢ l.capacity) × Accepts db l item)
  unfolding add_new
  add_new_iff l item amount =
      let after = set l.item_slots l.num_items (slot item amount) in
      let final = record l { item_slots = after; num_items = l.num_items + 1 } in
      elim (Result-cases (entry_of_item db item l.game_id)) [
        | inl (entry, e) ↦ (
          λ h. (ground arith, (entry, e, ground arith)),
          λ (room, (entry', e', fits)). ground (arith, total (some l.num_items) final),
        )
        | inr (e, h) ↦ (ground arith, λ (room, (entry', e', fits)). ground arith)
      ]

  pub add_iff :
      (l : ItemList N) (item : ℕ) (amount : ℤ)
      → IsValid l
      → item ≢ none_item
      → ((add db backend item amount l).0 ≡ ok tt)
        ↔ ((pos 1 ≤ℤ amount) × (amount ≤ℤ pos 99) × CanAdd db l item (pos_part amount))
  unfolding add
  add_iff l item amount v ne = elim (enforce_range_lem amount 1 99) [
    | inl (passed, _, lo, hi, low, high) ↦
        rw passed (elim (Option-cases (find_item item l.num_items l.item_slots)) [
          | inl e ↦
              let gone =
                held-Absent item l.item_slots
                  (find-none-Absent item l.num_items l.item_slots ne v.packed e) in
              let new = add_new_iff l item (pos_part amount) in
              let le = IsPacked-le l.num_items l.item_slots v.packed in
              rw e (
                λ h. (low, high, inr (gone, omega (arith, (new.0 h).0), (new.0 h).1)),
                λ (_, _, can). elim can [
                  | inl (some_held, _) ↦ absurd (omega arith)
                  | inr (_, room, takes) ↦ new.1 (λ full. omega arith, takes)
                ],
              )
          | inr (i, e) ↦
              let (lt, _, _) = find-some item l.num_items l.item_slots i e in
              let all = held-find item l.num_items l.item_slots i v.packed e in
              let used = get-IsHeld l.num_items l.item_slots i v.packed lt in
              let more = add_to_iff l i (pos_part amount) lo in
              rw e (
                λ h. (low, high, inl (omega arith, omega (arith, more.0 h))),
                λ (_, _, can). more.1 (elim can [
                  | inl (_, fits) ↦ omega arith
                  | inr (none_held, _, _) ↦ absurd (omega arith)
                ]),
              )
        ])
    | inr (refused, outside) ↦
        rw refused (λ h. cc, λ (above, below, _). absurd (outside (above, below)))
  ]

  -- The number in the message.
  add_to-can_only_add :
      (l : ItemList N) (i amount : ℕ) (n : ℤ)
      → IsHeld (slot_at l i)
      → (add_to db backend i amount l).0 ≡ throw (runtime_error (can_only_add n))
      → (n ≡ pos (pos_part n)) × (1 ≤ pos_part n) × (pos_part n + (slot_at l i).amount ≡ 99)
  unfolding add_to
  add_to-can_only_add l i amount n used =
      let s = slot_at l i in
      let after = set l.item_slots i (slot s.item (s.amount + amount)) in
      ground (arith, total (some i) (record l { item_slots = after }), used.at_most)

  reported :
      (l : ItemList N) (item : ℕ) (amount n : ℤ)
      → IsValid l
      → item ≢ none_item
      → 0 < held item l.item_slots
      → (add db backend item amount l).0 ≡ throw (runtime_error (can_only_add n))
      → (n ≡ pos (pos_part n)) × (1 ≤ pos_part n) × (pos_part n + held item l.item_slots ≡ 99)
  unfolding add
  reported l item amount n v ne present = elim (enforce_range_lem amount 1 99) [
    | inl (passed, _, lo, hi, low, high) ↦
        rw passed (elim (Option-cases (find_item item l.num_items l.item_slots)) [
          | inl e ↦
              let gone =
                held-Absent item l.item_slots
                  (find-none-Absent item l.num_items l.item_slots ne v.packed e) in
              absurd (omega arith)
          | inr (i, e) ↦
              let (lt, _, _) = find-some item l.num_items l.item_slots i e in
              let used = get-IsHeld l.num_items l.item_slots i v.packed lt in
              rw (e, held-find item l.num_items l.item_slots i v.packed e)
                (add_to-can_only_add l i (pos_part amount) n used)
        ])
    | inr (refused, outside) ↦ rw refused (λ h. cc)
  ]

  -- In a valid list, by an item that is not `e_item::NONE`, and with a `_to_native` that does not
  -- throw: where `add` of an item that the list holds reports "Can only add n more items.", n is at
  -- least 1, and to add n succeeds and leaves 99 of the item.
  pub add-can_only_add :
      (l : ItemList N) (item : ℕ) (amount n : ℤ)
      → IsValid l
      → item ≢ none_item
      → 0 < held item l.item_slots
      → (add db backend item amount l).0 ≡ throw (runtime_error (can_only_add n))
      → (pos 1 ≤ℤ n)
        × ((add db backend item n l).0 ≡ ok tt)
        × (held item (add db backend item n l).1.item_slots ≡ 99)
  add-can_only_add l item amount n v ne present h =
      let (same, lo, rest) = reported l item amount n v ne present h in
      let above : pos 1 ≤ℤ n = rw same (omega arith) in
      let below : n ≤ℤ pos 99 = rw same (omega arith) in
      let done = (add_iff l item n v ne).1 (above, below, inl (present, omega arith)) in
      (above, done, ground (arith, held-add db backend l item n item v done))
