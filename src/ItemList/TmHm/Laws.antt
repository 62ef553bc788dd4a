-- ===== src/ItemList/TmHm/Laws.antt =====
-- The pocket of machines (lib/item_list_gen2_tmhmimpl.cpp): its invariant, and what its operations do.
use libpkmn.Common.{
  ℕ, zero, suc, ◌+◌, ◌-◌, ◌≤◌, ◌≡◌, refl, ap, ◌∙◌, ◌≢◌, inl, inr, List, [], ◌∷◌, arith, ltb,
  if◌then◌else◌, length, get_or, set, All, length-set, ℤ, pos, pos_part, invalid_item, Exception,
  out_of_range, invalid_argument, runtime_error, throw, Result-cases,
}
use libpkmn.Enforce.{enforce_bounds}
use libpkmn.Enforce.Laws.{enforce_range_lem}
use libpkmn.ItemEntry.{ItemDb}
use libpkmn.ItemList.State.{
  ItemSlot, empty_slot, ItemList, Action, >>=-ok, >>=-throw, ◌>>=◌ as bind,
}
use libpkmn.ItemList.TmHm.{
  TmHmPocket, counts_of, drop, to_tmhm_native, count_positive, get_tmhm_num_items, machine_position,
  increase, decrease, add_machine, remove_machine, set_machine,
}

-- Between operations the pocket has a slot for each of the 57 machines, with at most 99 of it, the
-- native pocket counts the same, and `_num_items` is 0.
pub record IsPocket (l : ItemList TmHmPocket) : Type 0 where
  pub sized : length l.item_slots ≡ 57
  pub bounded : All (λ s. s.amount ≤ 99) l.item_slots
  pub synced : l.native ≡ to_tmhm_native l.item_slots
  pub uncounted : l.num_items ≡ 0

set-bounded :
    (slots : List ItemSlot) (i : ℕ) (s : ItemSlot)
    → All (λ s. s.amount ≤ 99) slots
    → s.amount ≤ 99
    → All (λ s. s.amount ≤ 99) (set slots i s)
set-bounded [] i s h a = tt
set-bounded (t ∷ slots) zero s h a = (a, h.1)
set-bounded (t ∷ slots) (suc i) s h a = (h.0, set-bounded slots i s h.1 a)

slot-bounded :
    (slots : List ItemSlot) (i : ℕ)
    → All (λ s. s.amount ≤ 99) slots
    → (get_or slots i empty_slot).amount ≤ 99
slot-bounded [] i h = omega arith
slot-bounded (s ∷ slots) zero h = h.0
slot-bounded (s ∷ slots) (suc i) h = slot-bounded slots i h.1

-- How many slots have a positive amount.
abbrev pub in_use : List ItemSlot → ℕ
in_use [] = 0
in_use (s ∷ slots) = (if ltb 0 s.amount then 1 else 0) + in_use slots

abbrev take : ℕ → List ItemSlot → List ItemSlot
take zero slots = []
take (suc n) [] = []
take (suc n) (s ∷ slots) = s ∷ take n slots

counts_of-in_use :
    (n : ℕ) (slots : List ItemSlot)
    → All (λ s. s.amount ≤ 99) slots
    → count_positive (counts_of n slots) ≡ in_use (take n slots)
unfolding counts_of count_positive
counts_of-in_use zero slots h = refl
counts_of-in_use (suc n) [] h = refl
counts_of-in_use (suc n) (s ∷ slots) h = ground (arith, counts_of-in_use n slots h.1, h.0)

take-drop-in_use :
    (n : ℕ) (slots : List ItemSlot) → in_use (take n slots) + in_use (drop n slots) ≡ in_use slots
take-drop-in_use zero slots = omega arith
take-drop-in_use (suc n) [] = refl
take-drop-in_use (suc n) (s ∷ slots) = omega (arith, take-drop-in_use n slots)

drop-bounded :
    (n : ℕ) (slots : List ItemSlot)
    → All (λ s. s.amount ≤ 99) slots
    → All (λ s. s.amount ≤ 99) (drop n slots)
drop-bounded zero slots h = h
drop-bounded (suc n) [] h = tt
drop-bounded (suc n) (s ∷ slots) h = drop-bounded n slots h.1

take-all : (n : ℕ) (slots : List ItemSlot) → length slots ≤ n → take n slots ≡ slots
take-all zero [] h = refl
take-all zero (s ∷ slots) h = absurd (omega arith)
take-all (suc n) [] h = refl
take-all (suc n) (s ∷ slots) h = ap (λ r. s ∷ r) (take-all n slots (omega arith))

length-drop : (n : ℕ) (slots : List ItemSlot) → length (drop n slots) ≡ length slots - n
length-drop zero slots = omega arith
length-drop (suc n) [] = omega arith
length-drop (suc n) (s ∷ slots) = omega (arith, length-drop n slots)

-- In a valid pocket `get_num_items`, which reads the native counts, says how many of the machines'
-- slots are in use.
pub get_tmhm_num_items_lem :
    (l : ItemList TmHmPocket) → IsPocket l → get_tmhm_num_items l ≡ in_use l.item_slots
unfolding get_tmhm_num_items to_tmhm_native
get_tmhm_num_items_lem l v =
    let rest = drop 50 l.item_slots in
    let whole = take-all 7 rest (omega (arith, length-drop 50 l.item_slots, v.sized)) in
    let low = counts_of-in_use 50 l.item_slots v.bounded in
    let high = counts_of-in_use 7 rest (drop-bounded 50 l.item_slots v.bounded) in
    let both = take-drop-in_use 50 l.item_slots in rw (v.synced, low, high, whole) both

module _ (db : ItemDb) where
  machine_position-state :
      (e : Exception) (item : ℕ) (l : ItemList TmHmPocket) → (machine_position db e item l).1 ≡ l
  unfolding machine_position
  machine_position-state e item l = ground arith

  increase-IsPocket :
      (amount position : ℕ) (l : ItemList TmHmPocket)
      → IsPocket l
      → IsPocket (increase db amount position l).1
  increase-IsPocket amount position l v = record {
    sized = length-set l.item_slots position _ ∙ v.sized;
    bounded = set-bounded l.item_slots position _ v.bounded (omega arith);
    synced = refl;
    uncounted = v.uncounted;
  }

  decrease-IsPocket :
      (amount position : ℕ) (l : ItemList TmHmPocket)
      → IsPocket l
      → IsPocket (decrease db amount position l).1
  decrease-IsPocket amount position l v = record {
    sized = length-set l.item_slots position _ ∙ v.sized;
    bounded =
        set-bounded l.item_slots position _ v.bounded
          (omega (arith, slot-bounded l.item_slots position v.bounded));
    synced = refl;
    uncounted = v.uncounted;
  }

  -- A write behind the search for the machine keeps what it keeps alone.
  then-IsPocket :
      (e : Exception) (item : ℕ) (f : ℕ → Action TmHmPocket (Unit {0})) (l : ItemList TmHmPocket)
      → ((position : ℕ) → IsPocket (f position l).1)
      → IsPocket l
      → IsPocket (bind (machine_position db e item) f l).1
  then-IsPocket e item f l kept v =
      let m = machine_position db e item in
      elim (Result-cases (m l).0) [
        | inl (p, q) ↦ rw (>>=-ok m f l q, machine_position-state e item l) (kept p)
        | inr (x, q) ↦ rw (>>=-throw m f l q, machine_position-state e item l) v
      ]

  -- `add` and `remove` of a machine keep a valid pocket valid, also where they throw: no slot is
  -- over 99, and the native pocket is in step with the slots.
  pub add_machine-IsPocket :
      (l : ItemList TmHmPocket) (item : ℕ) (amount : ℤ)
      → IsPocket l
      → IsPocket (add_machine db item amount l).1 × IsPocket (remove_machine db item amount l).1
  unfolding add_machine remove_machine
  add_machine-IsPocket l item amount v = elim (enforce_range_lem amount 1 99) [
    | inl (passed, _, _, _, _, _) ↦ rw passed (
      then-IsPocket invalid_argument item (increase db (pos_part amount)) l
          (λ p. increase-IsPocket (pos_part amount) p l v) v,
      then-IsPocket (runtime_error invalid_item) item (decrease db (pos_part amount)) l
          (λ p. decrease-IsPocket (pos_part amount) p l v) v,
    )
    | inr (refused, _) ↦ rw refused (v, v)
  ]

  -- In a valid pocket, `set_item` throws `std::out_of_range` at every position but the first, since
  -- `_num_items` is always 0 in this class.
  pub set_machine_only_first :
      (l : ItemList TmHmPocket) (position : ℤ) (item : ℕ) (amount : ℤ)
      → IsPocket l
      → position ≢ pos 0
      → (set_machine db position item amount l).0 ≡ throw out_of_range
  unfolding set_machine enforce_bounds
  set_machine_only_first l position item amount v ne = ground (arith, v.uncounted)
