-- ===== src/ItemList/Packed.antt =====
-- What the slots of an item list look like between operations, and how much of an item they hold:
-- lists of slots alone, as lib/item_list_impl.cpp keeps them in `_item_slots` and `_num_items`.
use libpkmn.Common.{
  ℕ, zero, suc, ◌+◌, ◌≤◌, ◌<◌, List, [], ◌∷◌, ◌≡◌, ◌≢◌, ◌==◌, if◌then◌else◌, arith, All, length,
  get_or, set, none, some, refl,
}
use libpkmn.ItemList.{find_item, slot}
use libpkmn.ItemList.State.{ItemSlot, empty_slot}

-- A slot in use.
pub record IsHeld (s : ItemSlot) : Type 0 where
  pub named : s.item ≢ 0
  pub at_least : 1 ≤ s.amount
  pub at_most : s.amount ≤ 99

abbrev pub IsEmpty : ItemSlot → Type 0
IsEmpty s = (s.item ≡ 0) × (s.amount ≡ 0)

abbrev pub Absent : ℕ → List ItemSlot → Type 0
Absent item [] = Unit
Absent item (s ∷ slots) = (s.item ≢ item) × Absent item slots

-- The first `num` slots are in use, by different items, and all others are empty.
abbrev pub IsPacked : ℕ → List ItemSlot → Type 0
IsPacked zero slots = All IsEmpty slots
IsPacked (suc num) [] = ⊥
IsPacked (suc num) (s ∷ slots) = IsHeld s × Absent s.item slots × IsPacked num slots

-- How much of an item the slots hold.
abbrev pub held : ℕ → List ItemSlot → ℕ
held item [] = 0
held item (s ∷ slots) = (if s.item == item then s.amount else 0) + held item slots

pub IsPacked-le : (num : ℕ) (slots : List ItemSlot) → IsPacked num slots → num ≤ length slots
IsPacked-le zero slots h = omega arith
IsPacked-le (suc num) [] h = absurd h
IsPacked-le (suc num) (s ∷ slots) h = omega (arith, IsPacked-le num slots h.2)

pub All-IsEmpty-Absent :
    (item : ℕ) (slots : List ItemSlot) → item ≢ 0 → All IsEmpty slots → Absent item slots
All-IsEmpty-Absent item [] ne h = tt
All-IsEmpty-Absent item (s ∷ slots) ne h =
    (λ e. ne (omega arith), All-IsEmpty-Absent item slots ne h.1)

pub find-none-Absent :
    (item num : ℕ) (slots : List ItemSlot)
    → item ≢ 0
    → IsPacked num slots
    → find_item item num slots ≡ none
    → Absent item slots
unfolding find_item
find-none-Absent item zero slots ne h e = All-IsEmpty-Absent item slots ne h
find-none-Absent item (suc num) [] ne h e = absurd h
find-none-Absent item (suc num) (s ∷ slots) ne h e =
    ground (arith, find-none-Absent item num slots ne h.2)

pub find-some :
    (item num : ℕ) (slots : List ItemSlot) (i : ℕ)
    → find_item item num slots ≡ some i
    → (i < num) × (i < length slots) × ((get_or slots i empty_slot).item ≡ item)
unfolding find_item
find-some item zero slots i e = cc
find-some item (suc num) [] i e = cc
find-some item (suc num) (s ∷ slots) zero e = ground (arith, find-some item num slots zero)
find-some item (suc num) (s ∷ slots) (suc i) e = ground (arith, find-some item num slots i)

pub find-Absent :
    (item num : ℕ) (slots : List ItemSlot) → Absent item slots → find_item item num slots ≡ none
unfolding find_item
find-Absent item zero slots h = ground arith
find-Absent item (suc num) [] h = ground arith
find-Absent item (suc num) (s ∷ slots) h = ground (arith, find-Absent item num slots h.1)

pub Absent-set :
    (item : ℕ) (slots : List ItemSlot) (i : ℕ) (s : ItemSlot)
    → Absent item slots
    → s.item ≢ item
    → Absent item (set slots i s)
Absent-set item [] i s h ne = tt
Absent-set item (t ∷ slots) zero s h ne = (ne, h.1)
Absent-set item (t ∷ slots) (suc i) s h ne = (h.0, Absent-set item slots i s h.1 ne)

Absent-get :
    (item : ℕ) (slots : List ItemSlot) (i : ℕ)
    → Absent item slots
    → i < length slots
    → (get_or slots i empty_slot).item ≢ item
Absent-get item [] i h lt = absurd (omega arith)
Absent-get item (t ∷ slots) zero h lt = h.0
Absent-get item (t ∷ slots) (suc i) h lt = Absent-get item slots i h.1 (omega arith)

-- A new amount in a slot in use.
pub set-IsPacked :
    (num : ℕ) (slots : List ItemSlot) (i amount : ℕ)
    → IsPacked num slots
    → i < num
    → 1 ≤ amount
    → amount ≤ 99
    → IsPacked num (set slots i (slot (get_or slots i empty_slot).item amount))
set-IsPacked zero slots i amount h lt lo hi = absurd (omega arith)
set-IsPacked (suc num) [] i amount h lt lo hi = absurd h
set-IsPacked (suc num) (s ∷ slots) zero amount h lt lo hi =
    (record { named = h.0.named; at_least = lo; at_most = hi }, h.1, h.2)
set-IsPacked (suc num) (s ∷ slots) (suc i) amount h lt lo hi =
    let le = IsPacked-le num slots h.2 in
    (
      h.0,
      Absent-set s.item slots i _ h.1 (Absent-get s.item slots i h.1 (omega arith)),
      set-IsPacked num slots i amount h.2 (omega arith) lo hi,
    )

-- A new item in the first empty slot.
pub push-IsPacked :
    (num : ℕ) (slots : List ItemSlot) (s : ItemSlot)
    → IsPacked num slots
    → num < length slots
    → IsHeld s
    → Absent s.item slots
    → IsPacked (suc num) (set slots num s)
push-IsPacked num [] s h lt new fresh = absurd (omega arith)
push-IsPacked zero (t ∷ slots) s h lt new fresh =
    (new, All-IsEmpty-Absent s.item slots new.named h.1, h.1)
push-IsPacked (suc num) (t ∷ slots) s h lt new fresh = (
  h.0,
  Absent-set t.item slots num s h.1 (λ e. fresh.0 (omega arith)),
  push-IsPacked num slots s h.2 (omega arith) new fresh.1,
)

-- The first slot that is not in use is empty.
pub next-IsEmpty :
    (num : ℕ) (slots : List ItemSlot) → IsPacked num slots → IsEmpty (get_or slots num empty_slot)
next-IsEmpty zero [] h = (refl, refl)
next-IsEmpty zero (s ∷ slots) h = h.0
next-IsEmpty (suc num) [] h = absurd h
next-IsEmpty (suc num) (s ∷ slots) h = next-IsEmpty num slots h.2
