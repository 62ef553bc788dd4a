-- ===== src/ItemList/MoveLaws.antt =====
-- `item_list_impl::move` of lib/item_list_impl.cpp: a permutation of the slots, which the reverse move
-- undoes.
use libpkmn.Common.{
  ℕ, zero, suc, ◌<◌, ◌≡◌, arith, length, get_or, erase_idx, insert_idx, length-erase_idx,
  length-insert_idx, List, ℤ, pos, pos_part, ◌≢◌, ok, ◌⊎◌, ◌↔◌, none, sym, inl, ◌∙◌, inr, ap,
}
use libpkmn.ItemList.State.{ItemSlot, empty_slot, ItemList, Backend}
use libpkmn.ItemList.Packed.{IsPacked, held, IsPacked-le}
use libpkmn.ItemList.Shift.{
  get-IsHeld, erase-IsPacked, erase-Absent, insert-IsPacked, insert-erase, erase-insert, get-insert,
}
use libpkmn.ItemList.Held.{held-erase, held-insert}
use libpkmn.ItemEntry.{ItemDb}
use libpkmn.ItemList.{move}
use libpkmn.ItemList.Valid.{IsValid, IsTotal}

-- The slots after a move from `i` to `j`.
abbrev moved : List ItemSlot → ℕ → ℕ → List ItemSlot
moved slots i j = insert_idx (erase_idx slots i) j (get_or slots i empty_slot)

moved-IsPacked :
    (num : ℕ) (slots : List ItemSlot) (i j : ℕ)
    → IsPacked num slots
    → i < num
    → j < num
    → IsPacked num (moved slots i j)
moved-IsPacked zero slots i j h p q = absurd (omega arith)
moved-IsPacked (suc num) slots i j h p q =
    insert-IsPacked num (erase_idx slots i) j (get_or slots i empty_slot)
      (erase-IsPacked num slots i h (omega arith)) (omega arith) (get-IsHeld (suc num) slots i h p)
      (erase-Absent (suc num) slots i h p)

length-moved :
    (slots : List ItemSlot) (i j : ℕ)
    → i < length slots
    → j < length slots
    → length (moved slots i j) ≡ length slots
length-moved slots i j p q =
    let gone = length-erase_idx slots i p in
    omega (arith, length-insert_idx (erase_idx slots i) j (get_or slots i empty_slot) (omega arith))

moved-moved :
    (slots : List ItemSlot) (i j : ℕ)
    → i < length slots
    → j < length slots
    → moved (moved slots i j) j i ≡ slots
moved-moved slots i j p q =
    let gone = length-erase_idx slots i p in
    rw
      (
        erase-insert (erase_idx slots i) j (get_or slots i empty_slot) (omega arith),
        get-insert (erase_idx slots i) j (get_or slots i empty_slot) empty_slot (omega arith),
      )
      (insert-erase slots i empty_slot p)

held-moved :
    (item : ℕ) (slots : List ItemSlot) (i j : ℕ)
    → i < length slots
    → j < length slots
    → held item (moved slots i j) ≡ held item slots
held-moved item slots i j p q =
    let gone = length-erase_idx slots i p in
    let s = get_or slots i empty_slot in
    omega (arith, held-erase item slots i p, held-insert item (erase_idx slots i) j s (omega arith))

-- Whether `move` lets a position through.
abbrev pub InList : {N : Type 0} → ItemList N → ℤ → Type 0
InList l position = (position ≡ pos (pos_part position)) × (pos_part position < l.num_items)

module _ {N : Type 0} (db : ItemDb) (backend : Backend N) where
  -- `move` writes the moved slots and nothing else, or it throws and writes nothing.
  move_lem :
      (l : ItemList N) (old new : ℤ)
      → (InList l old
          × InList l new
          × (old ≢ new)
          × ((move db backend old new l).1.item_slots
              ≡ moved l.item_slots (pos_part old) (pos_part new)))
        ⊎ (((move db backend old new l).0 ≢ ok tt)
            × ((move db backend old new l).1.item_slots ≡ l.item_slots))
  unfolding move
  move_lem l old new = ground arith

  move_frame :
      (l : ItemList N) (old new : ℤ)
      → ((move db backend old new l).1.num_items ≡ l.num_items)
        × ((move db backend old new l).1.capacity ≡ l.capacity)
  unfolding move
  move_frame l old new = ground arith

  -- Whatever `move` does, a valid list stays valid.
  pub move-IsValid :
      (l : ItemList N) (old new : ℤ) → IsValid l → IsValid (move db backend old new l).1
  move-IsValid l old new v =
      let (same_num, same_cap) = move_frame l old new in
      let le = IsPacked-le l.num_items l.item_slots v.packed in
      elim (move_lem l old new) [
        | inl ((_, p), (_, q), _, shape) ↦ record {
          packed = rw (same_num, shape) (moved-IsPacked l.num_items l.item_slots _ _ v.packed p q);
          sized =
              rw
                (
                  same_cap,
                  shape,
                  length-moved l.item_slots (pos_part old) (pos_part new) (omega (arith, v.sized))
                      (omega (arith, v.sized)),
                )
                v.sized;
        }
        | inr (_, shape) ↦ record {
          packed = rw (same_num, shape) v.packed;
          sized = rw (same_cap, shape) v.sized;
        }
      ]

  -- Of every item a valid list holds as much after a `move` as before.
  pub held-move :
      (l : ItemList N) (old new : ℤ) (item : ℕ)
      → IsValid l
      → held item (move db backend old new l).1.item_slots ≡ held item l.item_slots
  held-move l old new item v =
      let le = IsPacked-le l.num_items l.item_slots v.packed in
      elim (move_lem l old new) [
        | inl ((_, p), (_, q), _, shape) ↦ rw shape (
            held-moved item l.item_slots (pos_part old) (pos_part new) (omega (arith, v.sized))
              (omega (arith, v.sized)))
        | inr (_, shape) ↦ rw shape
      ]

  module _ (total : IsTotal backend) where
    -- `move` succeeds exactly for two different positions in the list.
    pub move_iff :
        (l : ItemList N) (old new : ℤ)
        → ((move db backend old new l).0 ≡ ok tt) ↔ (InList l old × InList l new × (old ≢ new))
    unfolding move
    move_iff l old new =
        let after = moved l.item_slots (pos_part old) (pos_part new) in
        ground (arith, total none (record l { item_slots = after }))

    -- On a valid list, with a `_to_native` that does not throw, a move that returned is undone by
    -- the reverse move.
    pub move-move :
        (l : ItemList N) (old new : ℤ)
        → IsValid l
        → (move db backend old new l).0 ≡ ok tt
        → let l' = (move db backend old new l).1 in
          ((move db backend new old l').0 ≡ ok tt)
          × ((move db backend new old l').1.item_slots ≡ l.item_slots)
    move-move l old new v done =
        let l' = (move db backend old new l).1 in
        let (same_num, _) = move_frame l old new in
        let (p, q, ne) = (move_iff l old new).0 done in
        let le = IsPacked-le l.num_items l.item_slots v.packed in
        let p' : InList l' old = (p.0, rw same_num p.1) in
        let q' : InList l' new = (q.0, rw same_num q.1) in
        let again = (move_iff l' new old).1 (q', p', λ e. ne (sym e)) in
        (
          again,
          elim (move_lem l old new) [
            | inl (_, _, _, shape) ↦ elim (move_lem l' new old) [
              | inl (_, _, _, shape') ↦
                  shape'
                  ∙ ap (λ s. moved s (pos_part new) (pos_part old)) shape
                  ∙ moved-moved l.item_slots (pos_part old) (pos_part new) (omega (arith, v.sized))
                      (omega (arith, v.sized))
              | inr (failed, _) ↦ absurd (failed again)
            ]
            | inr (failed, _) ↦ absurd (failed done)
          ],
        )
