-- ===== src/ItemList/Shift.antt =====
-- What `erase` and `insert` do to the slots of an item list, and to what they hold. The operations of
-- lib/item_list_impl.cpp shift slots by these.
use libpkmn.Common.{
  ℕ, zero, suc, ◌≤◌, ◌<◌, List, [], ◌∷◌, ◌++◌, ◌≡◌, ◌≢◌, arith, length, get_or, erase_idx,
  insert_idx, resize, refl, ap,
}
use libpkmn.ItemList.State.{ItemSlot, empty_slot}
use libpkmn.ItemList.Packed.{IsHeld, Absent, IsPacked, IsPacked-le}

resize_grow {ℓ} :
    {A : Type ℓ} (xs : List A) (d : A) → resize (suc (length xs)) d xs ≡ xs ++ (d ∷ [])
resize_grow [] d = refl
resize_grow (x ∷ xs) d = ap (◌∷◌ x) (resize_grow xs d)

pub resize-erase {ℓ} :
    {A : Type ℓ} (xs : List A) (i : ℕ) (d : A)
    → i < length xs
    → resize (length xs) d (erase_idx xs i) ≡ erase_idx xs i ++ (d ∷ [])
resize-erase [] i d h = absurd (omega arith)
resize-erase (x ∷ xs) zero d h = resize_grow xs d
resize-erase (x ∷ xs) (suc i) d h = ap (◌∷◌ x) (resize-erase xs i d (omega arith))

pub erase-insert {ℓ} :
    {A : Type ℓ} (xs : List A) (i : ℕ) (a : A)
    → i ≤ length xs
    → erase_idx (insert_idx xs i a) i ≡ xs
erase-insert xs zero a h = refl
erase-insert [] (suc i) a h = absurd (omega arith)
erase-insert (x ∷ xs) (suc i) a h = ap (◌∷◌ x) (erase-insert xs i a (omega arith))

pub get-insert {ℓ} :
    {A : Type ℓ} (xs : List A) (i : ℕ) (a d : A)
    → i ≤ length xs
    → get_or (insert_idx xs i a) i d ≡ a
get-insert xs zero a d h = refl
get-insert [] (suc i) a d h = absurd (omega arith)
get-insert (x ∷ xs) (suc i) a d h = get-insert xs i a d (omega arith)

pub insert-erase {ℓ} :
    {A : Type ℓ} (xs : List A) (i : ℕ) (d : A)
    → i < length xs
    → insert_idx (erase_idx xs i) i (get_or xs i d) ≡ xs
insert-erase [] i d h = absurd (omega arith)
insert-erase (x ∷ xs) zero d h = refl
insert-erase (x ∷ xs) (suc i) d h = ap (◌∷◌ x) (insert-erase xs i d (omega arith))

Absent-erase :
    (item : ℕ) (slots : List ItemSlot) (i : ℕ) → Absent item slots → Absent item (erase_idx slots i)
Absent-erase item [] i h = tt
Absent-erase item (s ∷ slots) zero h = h.1
Absent-erase item (s ∷ slots) (suc i) h = (h.0, Absent-erase item slots i h.1)

Absent-insert :
    (item : ℕ) (slots : List ItemSlot) (i : ℕ) (s : ItemSlot)
    → Absent item slots
    → s.item ≢ item
    → Absent item (insert_idx slots i s)
Absent-insert item slots zero s h ne = (ne, h)
Absent-insert item [] (suc i) s h ne = tt
Absent-insert item (t ∷ slots) (suc i) s h ne = (h.0, Absent-insert item slots i s h.1 ne)

pub erase-IsPacked :
    (num : ℕ) (slots : List ItemSlot) (i : ℕ)
    → IsPacked (suc num) slots
    → i ≤ num
    → IsPacked num (erase_idx slots i)
erase-IsPacked num [] i h le = absurd h
erase-IsPacked num (s ∷ slots) zero h le = h.2
erase-IsPacked zero (s ∷ slots) (suc i) h le = absurd (omega arith)
erase-IsPacked (suc num) (s ∷ slots) (suc i) h le =
    (h.0, Absent-erase s.item slots i h.1, erase-IsPacked num slots i h.2 (omega arith))

-- The slot that goes is in use, and its item is in no other.
pub get-IsHeld :
    (num : ℕ) (slots : List ItemSlot) (i : ℕ)
    → IsPacked num slots
    → i < num
    → IsHeld (get_or slots i empty_slot)
get-IsHeld zero slots i h lt = absurd (omega arith)
get-IsHeld (suc num) [] i h lt = absurd h
get-IsHeld (suc num) (s ∷ slots) zero h lt = h.0
get-IsHeld (suc num) (s ∷ slots) (suc i) h lt = get-IsHeld num slots i h.2 (omega arith)

Absent-get_ne :
    (item : ℕ) (slots : List ItemSlot) (i : ℕ)
    → Absent item slots
    → i < length slots
    → (get_or slots i empty_slot).item ≢ item
Absent-get_ne item [] i h lt = absurd (omega arith)
Absent-get_ne item (t ∷ slots) zero h lt = h.0
Absent-get_ne item (t ∷ slots) (suc i) h lt = Absent-get_ne item slots i h.1 (omega arith)

pub erase-Absent :
    (num : ℕ) (slots : List ItemSlot) (i : ℕ)
    → IsPacked num slots
    → i < num
    → Absent (get_or slots i empty_slot).item (erase_idx slots i)
erase-Absent zero slots i h lt = absurd (omega arith)
erase-Absent (suc num) [] i h lt = absurd h
erase-Absent (suc num) (s ∷ slots) zero h lt = h.1
erase-Absent (suc num) (s ∷ slots) (suc i) h lt =
    let le = IsPacked-le num slots h.2 in
    (
      λ e. Absent-get_ne s.item slots i h.1 (omega arith) (omega arith),
      erase-Absent num slots i h.2 (omega arith),
    )

pub insert-IsPacked :
    (num : ℕ) (slots : List ItemSlot) (i : ℕ) (s : ItemSlot)
    → IsPacked num slots
    → i ≤ num
    → IsHeld s
    → Absent s.item slots
    → IsPacked (suc num) (insert_idx slots i s)
insert-IsPacked num slots zero s h le new fresh = (new, fresh, h)
insert-IsPacked zero slots (suc i) s h le new fresh = absurd (omega arith)
insert-IsPacked (suc num) [] (suc i) s h le new fresh = absurd h
insert-IsPacked (suc num) (t ∷ slots) (suc i) s h le new fresh = (
  h.0,
  Absent-insert t.item slots i s h.1 (λ e. fresh.0 (omega arith)),
  insert-IsPacked num slots i s h.2 (omega arith) new fresh.1,
)

Absent-append_empty :
    (item : ℕ) (slots : List ItemSlot)
    → item ≢ 0
    → Absent item slots
    → Absent item (slots ++ (empty_slot ∷ []))
Absent-append_empty item [] ne h = (λ e. ne (omega arith), tt)
Absent-append_empty item (s ∷ slots) ne h = (h.0, Absent-append_empty item slots ne h.1)

pub append_empty-IsPacked :
    (num : ℕ) (slots : List ItemSlot)
    → IsPacked num slots
    → IsPacked num (slots ++ (empty_slot ∷ []))
append_empty-IsPacked zero [] h = ((refl, refl), tt)
append_empty-IsPacked zero (s ∷ slots) h = (h.0, append_empty-IsPacked zero slots h.1)
append_empty-IsPacked (suc num) [] h = absurd h
append_empty-IsPacked (suc num) (s ∷ slots) h =
    (h.0, Absent-append_empty s.item slots h.0.named h.1, append_empty-IsPacked num slots h.2)
