-- ===== src/ItemList/Held.antt =====
-- How the amount of an item that the slots hold changes with each write to `_item_slots`.
use libpkmn.Common.{
  ℕ, zero, suc, ◌+◌, ◌≤◌, ◌<◌, List, [], ◌∷◌, ◌++◌, ◌≡◌, ◌==◌, if◌then◌else◌, arith, length, get_or,
  set, erase_idx, insert_idx, some, refl,
}
use libpkmn.ItemList.{find_item}
use libpkmn.ItemList.State.{ItemSlot, empty_slot}
use libpkmn.ItemList.Packed.{Absent, IsPacked, held}

-- What one slot holds of an item.
abbrev pub part : ℕ → ItemSlot → ℕ
part item s = if s.item == item then s.amount else 0

pub held-set :
    (item : ℕ) (slots : List ItemSlot) (i : ℕ) (s : ItemSlot)
    → i < length slots
    → held item (set slots i s) + part item (get_or slots i empty_slot)
      ≡ held item slots + part item s
held-set item [] i s h = absurd (omega arith)
held-set item (t ∷ slots) zero s h = omega arith
held-set item (t ∷ slots) (suc i) s h = omega (arith, held-set item slots i s)

pub held-erase :
    (item : ℕ) (slots : List ItemSlot) (i : ℕ)
    → i < length slots
    → held item (erase_idx slots i) + part item (get_or slots i empty_slot) ≡ held item slots
held-erase item [] i h = absurd (omega arith)
held-erase item (t ∷ slots) zero h = omega arith
held-erase item (t ∷ slots) (suc i) h = omega (arith, held-erase item slots i)

pub held-insert :
    (item : ℕ) (slots : List ItemSlot) (i : ℕ) (s : ItemSlot)
    → i ≤ length slots
    → held item (insert_idx slots i s) ≡ held item slots + part item s
held-insert item slots zero s h = omega arith
held-insert item [] (suc i) s h = absurd (omega arith)
held-insert item (t ∷ slots) (suc i) s h = omega (arith, held-insert item slots i s)

pub held-append_empty :
    (item : ℕ) (slots : List ItemSlot) → held item (slots ++ (empty_slot ∷ [])) ≡ held item slots
held-append_empty item [] = ground arith
held-append_empty item (s ∷ slots) = omega (arith, held-append_empty item slots)

pub held-Absent : (item : ℕ) (slots : List ItemSlot) → Absent item slots → held item slots ≡ 0
held-Absent item [] h = refl
held-Absent item (s ∷ slots) h = ground (arith, held-Absent item slots h.1)

-- An item stands in one slot at most, so that slot holds all of it.
pub held-find :
    (item num : ℕ) (slots : List ItemSlot) (i : ℕ)
    → IsPacked num slots
    → find_item item num slots ≡ some i
    → held item slots ≡ (get_or slots i empty_slot).amount
unfolding find_item
held-find item zero slots i h e = cc
held-find item (suc num) [] i h e = cc
held-find item (suc num) (s ∷ slots) zero h e =
    ground (arith, held-Absent item slots, held-find item num slots zero h.2)
held-find item (suc num) (s ∷ slots) (suc i) h e = ground (arith, held-find item num slots i h.2)
