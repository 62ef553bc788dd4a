-- ===== src/ItemList/SetLaws.antt =====
-- `item_list_impl::set_item` of lib/item_list_impl.cpp: where it keeps the list valid.
use libpkmn.Common.{
  ℕ, zero, suc, ◌+◌, ◌≤◌, ◌<◌, ◌≡◌, ◌≢◌, ◌⊎◌, arith, inl, inr, none, refl, ℤ, pos, pos_part, ◌≤ℤ◌,
  Result, ok, length, set, erase_idx, ◌∷◌, [], false, Bool-cases, length-set, ◌==◌, ◌∙◌, ap, List,
  length-erase_idx, length-append, Result-cases, Exception, sym, throw,
}
use native.Mathlib.Decide.{dec_lt}
use libpkmn.ItemEntry.{ItemDb, none_item}
use libpkmn.ItemList.{
  is_elsewhere, slot, check_slot, set_item, write_slot, enforce_bounds, end_boundary,
}
use libpkmn.ItemList.State.{ItemSlot, ItemList, to_native, Backend, empty_slot, >>=-ok, >>=-throw}
use libpkmn.ItemList.Valid.{IsValid}
use libpkmn.ItemList.Packed.{
  IsHeld, Absent, IsPacked, push-IsPacked, All-IsEmpty-Absent, Absent-set,
}
use libpkmn.ItemList.RemoveLaws.{shrink-IsPacked, erase-set}
use libpkmn.Enforce.{enforce_bounds}
use libpkmn.Enforce.Laws.{enforce_bounds_lem}

elsewhere-Absent :
    (item position i num : ℕ) (slots : List ItemSlot)
    → item ≢ 0
    → IsPacked num slots
    → is_elsewhere item position i num slots ≡ false
    → ((position < i) ⊎ (i + num ≤ position))
    → Absent item slots
unfolding is_elsewhere
elsewhere-Absent item position i zero slots ne h e out = All-IsEmpty-Absent item slots ne h
elsewhere-Absent item position i (suc num) [] ne h e out = absurd h
elsewhere-Absent item position i (suc num) (s ∷ slots) ne h e out = (
  ground arith,
  elsewhere-Absent item position (i + 1) num slots ne h.2 (ground arith) (ground arith),
)

-- `is_elsewhere` skips the slot at the position, which is `p` slots on.
elsewhere-IsPacked :
    (item position i num p : ℕ) (slots : List ItemSlot) (amount : ℕ)
    → IsPacked num slots
    → is_elsewhere item position i num slots ≡ false
    → i + p ≡ position
    → p < num
    → IsHeld (slot item amount)
    → IsPacked num (set slots p (slot item amount))
unfolding is_elsewhere
elsewhere-IsPacked item position i zero p slots amount h e at lt new = absurd (omega arith)
elsewhere-IsPacked item position i (suc num) p [] amount h e at lt new = absurd h
elsewhere-IsPacked item position i (suc num) zero (s ∷ slots) amount h e at lt new = (
  new,
  elsewhere-Absent item position (i + 1) num slots new.named h.2 (ground arith) (inl (omega arith)),
  h.2,
)
elsewhere-IsPacked item position i (suc num) (suc p) (s ∷ slots) amount h e at lt new = (
  h.0,
  Absent-set s.item slots p (slot item amount) h.1 (ground arith),
  elsewhere-IsPacked item position (i + 1) num p slots amount h.2 (ground arith) (omega arith)
      (omega arith) new,
)

module _ {N : Type 0} (db : ItemDb) (backend : Backend N) where
  -- The checks write nothing, and let through what this record says.
  pub record IsChecked (l : ItemList N) (position : ℤ) (item : ℕ) (amount : ℤ) : Type 0 where
    pub none_amount : item ≡ none_item → amount ≡ pos 0
    pub some_amount : item ≢ none_item → (1 ≤ pos_part amount) × (pos_part amount ≤ 99)
    pub nowhere_else :
        item ≢ none_item → is_elsewhere item (pos_part position) 0 l.num_items l.item_slots ≡ false

  check_slot_lem :
      (position : ℤ) (item : ℕ) (amount : ℤ) (l : ItemList N)
      → ((check_slot db backend position item amount l).1 ≡ l)
        × ((check_slot db backend position item amount l).0 ≡ ok tt
            → IsChecked l position item amount)
  unfolding check_slot enforce_bounds
  check_slot_lem position item amount l = ground arith

  -- The list that `set_item` writes, where all checks passed: not full, and not `e_item::NONE` at the
  -- place behind the last item.
  write_slot-IsValid :
      (l : ItemList N) (position : ℤ) (item : ℕ) (amount : ℤ)
      → IsValid l
      → IsChecked l position item amount
      → position ≡ pos (pos_part position)
      → pos_part position ≤ l.num_items
      → l.num_items < l.capacity
      → (item ≢ none_item) ⊎ (pos_part position < l.num_items)
      → IsValid (write_slot db backend (pos l.num_items) item (pos_part amount) position l)
  write_slot-IsValid l position item amount v c same le room fits =
      let p = pos_part position in
      let s = slot item (pos_part amount) in
      let inside : p < length l.item_slots = omega (arith, v.sized) in
      let size = length-set l.item_slots p s in
      elim (Bool-cases (item == none_item)) [
        | inl unnamed ↦
            let shape = erase-set l.item_slots p s in
            let used = shrink-IsPacked l.num_items l.item_slots p v.packed in
            let less = length-erase_idx l.item_slots p inside in
            let more = length-append (erase_idx l.item_slots p) (empty_slot ∷ []) in
            ground (arith, v.sized)
        | inr named ↦
            let ne : item ≢ none_item = ground arith in
            let (lo, hi) = c.some_amount ne in
            let new : IsHeld s = record { named = ne; at_least = lo; at_most = hi } in
            let none_else = c.nowhere_else ne in
            let replaced = λ (lt : p < l.num_items).
              elsewhere-IsPacked item p 0 l.num_items p l.item_slots (pos_part amount) v.packed
                none_else (omega arith) lt new in
            let pushed = λ (at_end : l.num_items ≤ p).
              push-IsPacked l.num_items l.item_slots s v.packed (omega (arith, v.sized)) new (
                elsewhere-Absent item p 0 l.num_items l.item_slots ne v.packed none_else
                  (inr (omega arith))) in
            elim (dec_lt p l.num_items) [
              | yes lt ↦ ground (arith, replaced lt, v.sized)
              | no ge ↦
                  let e : l.num_items ≡ p = omega arith in
                  let more : suc l.num_items ≡ l.num_items + 1 = omega arith in
                  let after : IsPacked (l.num_items + 1) (set l.item_slots p s) =
                    rw (← more, ← e) (pushed (omega arith)) in
                  ground (arith, after, v.sized)
            ]
      ]

  throw_ne : (x : Exception) → ◌≢◌ {A = Result (Unit {0})} (throw x) (ok tt)
  throw_ne x e = cc

  -- What `set_item` leaves behind where all checks passed.
  unfoldable pub written : ItemList N → ℤ → ℕ → ℤ → ItemList N
  written l position item amount =
      write_slot db backend (end_boundary l) item (pos_part amount) position l

  -- `set_item` throws and writes nothing, or writes the slot and then the native list.
  pub set_item_lem :
      (l : ItemList N) (position : ℤ) (item : ℕ) (amount : ℤ)
      → (((set_item db backend position item amount l).0 ≢ ok tt)
          × ((set_item db backend position item amount l).1 ≡ l))
        ⊎ ((pos 0 ≤ℤ position)
            × (position ≤ℤ end_boundary l)
            × IsChecked l position item amount
            × (set_item db backend position item amount l
                ≡ to_native backend none (written l position item amount)))
  unfolding set_item written
  set_item_lem l position item amount =
      elim (enforce_bounds_lem position (pos 0) (end_boundary l)) [
        | inl (passed, low, high) ↦
            let (unread, checked) = check_slot_lem position item amount l in
            let rest : Unit {0} → ItemList N → Result (Unit {0}) × ItemList N = λ _ l'.
              to_native backend none
                (write_slot db backend (end_boundary l) item (pos_part amount) position l') in
            rw passed (elim (Result-cases (check_slot db backend position item amount l).0) [
              | inl (_, e) ↦
                  let run = >>=-ok (check_slot db backend position item amount) rest l e in
                  inr (low, high, checked e, run ∙ ap (rest tt) unread)
              | inr (x, e) ↦
                  let run = >>=-throw (check_slot db backend position item amount) rest l e in
                  let failed = ap (λ p. p.0) run in
                  inl (λ h. throw_ne x (sym failed ∙ h), ap (λ p. p.1) run ∙ unread)
            ])
        | inr (refused, _) ↦ rw refused (inl (λ h. cc, refl))
      ]

  -- `set_item` keeps a valid list valid, also where it throws, if the list is not full and the call
  -- does not put `e_item::NONE` behind the last item.
  pub set_item-IsValid :
      (l : ItemList N) (position : ℤ) (item : ℕ) (amount : ℤ)
      → IsValid l
      → l.num_items < l.capacity
      → (item ≢ none_item) ⊎ (position ≢ pos l.num_items)
      → IsValid (set_item db backend position item amount l).1
  unfolding written
  set_item-IsValid l position item amount v room fits = elim (set_item_lem l position item amount) [
    | inl (_, same) ↦ rw same v
    | inr (low, high, c, run) ↦
        let bound : end_boundary l ≡ pos l.num_items = ground arith in
        let same : position ≡ pos (pos_part position) = ground arith in
        let le : pos_part position ≤ l.num_items = ground arith in
        let behind : (item ≢ none_item) ⊎ (pos_part position < l.num_items) = elim fits [
          | inl ne ↦ inl ne
          | inr ne ↦
              inr (omega (arith, λ (e : pos_part position ≡ l.num_items). ne (same ∙ ap pos e)))
        ] in
        let w = write_slot-IsValid l position item amount v c same le room behind in
        let w' : IsValid (written l position item amount) = rw bound w in
        rw run (record { packed = w'.packed; sized = w'.sized })
  ]
