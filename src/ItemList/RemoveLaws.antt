-- ===== src/ItemList/RemoveLaws.antt =====
-- `item_list_impl::remove` of lib/item_list_impl.cpp, and that it undoes `add`.
use libpkmn.Common.{
  ℕ, zero, suc, ◌+◌, ◌-◌, ◌<◌, ◌≡◌, arith, inl, inr, refl, ℤ, pos_part, ok, Option-cases, length,
  set, get_or, erase_idx, resize, ◌++◌, ◌∷◌, [], length-set, length-resize, ap, List, if◌then◌else◌,
  ◌==◌, sym, ◌∙◌,
}
use libpkmn.Enforce.Laws.{enforce_range_lem}
use libpkmn.ItemEntry.{ItemDb}
use libpkmn.ItemList.{find_item, slot, remove_at, remove}
use libpkmn.ItemList.State.{ItemSlot, ItemList, Backend, empty_slot, slot_at}
use libpkmn.ItemList.Valid.{IsValid}
use libpkmn.ItemList.Packed.{IsPacked, held, IsPacked-le, find-some, set-IsPacked}
use libpkmn.ItemList.Shift.{get-IsHeld, resize-erase, erase-IsPacked, append_empty-IsPacked}
use libpkmn.ItemList.Held.{part, held-set, held-erase, held-append_empty}

pub erase-set :
    (xs : List ItemSlot) (i : ℕ) (s : ItemSlot) → erase_idx (set xs i s) i ≡ erase_idx xs i
erase-set [] i s = refl
erase-set (x ∷ xs) zero s = refl
erase-set (x ∷ xs) (suc i) s = ap (◌∷◌ x) (erase-set xs i s)

-- The slots after `erase` and `resize`, where slot `i` was overwritten before.
pub shrink_shape :
    (slots : List ItemSlot) (cap i : ℕ) (s : ItemSlot)
    → i < length slots
    → length slots ≡ cap
    → resize cap empty_slot (erase_idx (set slots i s) i) ≡ erase_idx slots i ++ (empty_slot ∷ [])
shrink_shape slots cap i s lt e = rw (erase-set slots i s, ← e) (resize-erase slots i empty_slot lt)

pub shrink-IsPacked :
    (num : ℕ) (slots : List ItemSlot) (i : ℕ)
    → IsPacked num slots
    → i < num
    → IsPacked (num - 1) (erase_idx slots i ++ (empty_slot ∷ []))
shrink-IsPacked zero slots i h lt = absurd (omega arith)
shrink-IsPacked (suc num) slots i h lt =
    let less : suc num - 1 ≡ num = omega arith in
    rw less
      (append_empty-IsPacked num (erase_idx slots i) (erase-IsPacked num slots i h (omega arith)))

held-shrink :
    (item : ℕ) (slots : List ItemSlot) (i : ℕ)
    → i < length slots
    → held item (erase_idx slots i ++ (empty_slot ∷ [])) + part item (get_or slots i empty_slot)
      ≡ held item slots
held-shrink item slots i lt =
    omega (arith, held-append_empty item (erase_idx slots i), held-erase item slots i lt)

module _ {N : Type 0} (db : ItemDb) (backend : Backend N) where
  remove_at-IsValid :
      (l : ItemList N) (i amount : ℕ)
      → IsValid l
      → i < l.num_items
      → IsValid (remove_at db backend i amount l).1
  unfolding remove_at
  remove_at-IsValid l i amount v lt =
      let s = slot_at l i in
      let used = get-IsHeld l.num_items l.item_slots i v.packed lt in
      let le = IsPacked-le l.num_items l.item_slots v.packed in
      let s' = slot s.item (s.amount - amount) in
      ground (
        arith,
        used.at_most,
        set-IsPacked l.num_items l.item_slots i (s.amount - amount) v.packed lt,
        length-set l.item_slots i s',
        shrink-IsPacked l.num_items l.item_slots i v.packed lt,
        shrink_shape l.item_slots l.capacity i s' (omega (arith, v.sized)) v.sized,
        length-resize l.capacity empty_slot (erase_idx (set l.item_slots i s') i),
      )

  -- Whatever `remove` does, a valid list stays valid.
  pub remove-IsValid :
      (l : ItemList N) (item : ℕ) (amount : ℤ)
      → IsValid l
      → IsValid (remove db backend item amount l).1
  unfolding remove
  remove-IsValid l item amount v = elim (enforce_range_lem amount 1 99) [
    | inl (passed, _, lo, hi, low, high) ↦
        rw passed (elim (Option-cases (find_item item l.num_items l.item_slots)) [
          | inl e ↦ rw e v
          | inr (i, e) ↦ rw e (
              remove_at-IsValid l i (pos_part amount) v
                (find-some item l.num_items l.item_slots i e).0)
        ])
    | inr (refused, outside) ↦ rw refused v
  ]

  held-remove_at :
      (l : ItemList N) (i amount j : ℕ)
      → IsValid l
      → i < l.num_items
      → (remove_at db backend i amount l).0 ≡ ok tt
      → held j (remove_at db backend i amount l).1.item_slots
          + part j (slot (slot_at l i).item amount)
        ≡ held j l.item_slots
  unfolding remove_at
  held-remove_at l i amount j v lt done =
      let s = slot_at l i in
      let le = IsPacked-le l.num_items l.item_slots v.packed in
      let s' = slot s.item (s.amount - amount) in
      let inside : i < length l.item_slots = omega arith in
      ground (
        arith,
        held-set j l.item_slots i s' inside,
        held-shrink j l.item_slots i inside,
        shrink_shape l.item_slots l.capacity i s' inside v.sized,
      )

  -- Where `remove` returns on a valid list, the list then holds `amount` less of the item, which it
  -- held at least, and as much as before of all others.
  pub held-remove :
      (l : ItemList N) (item : ℕ) (amount : ℤ) (j : ℕ)
      → IsValid l
      → (remove db backend item amount l).0 ≡ ok tt
      → held j (remove db backend item amount l).1.item_slots
          + (if item == j then pos_part amount else 0)
        ≡ held j l.item_slots
  unfolding remove
  held-remove l item amount j v = elim (enforce_range_lem amount 1 99) [
    | inl (passed, _, lo, hi, low, high) ↦
        rw passed (elim (Option-cases (find_item item l.num_items l.item_slots)) [
          | inl e ↦ rw e (λ h. cc)
          | inr (i, e) ↦
              let (lt, _, same) = find-some item l.num_items l.item_slots i e in
              rw e (λ done.
                ap
                  (λ t.
                    held j (remove_at db backend i (pos_part amount) l).1.item_slots
                    + part j (slot t (pos_part amount)))
                  (sym same)
                ∙ held-remove_at l i (pos_part amount) j v lt done)
        ])
    | inr (refused, outside) ↦ rw refused (λ h. cc)
  ]
