-- ===== src/ItemList/Modern/Synced.antt =====
-- `_to_native` of lib/item_list_modernimpl.cpp keeps the native list in step with the slots.
use libpkmn.Common.{
  ℕ, zero, suc, ◌≤◌, ◌≡◌, refl, sym, ap, ◌∙◌, inl, inr, List, [], ◌∷◌, arith, ltb, Bool-cases,
  length, get_or, set, get_or-set_self, Result, ok, Result-cases,
}
use libpkmn.ItemEntry.{ItemDb}
use libpkmn.ItemList.State.{ItemSlot, empty_slot, Backend}
use libpkmn.ItemList.Codec.{
  write_one, Matches, Matches-length, write_all-Matches, write_one-Matches,
}
use libpkmn.ItemList.Mirror.{Mirror}
use libpkmn.ItemList.Modern.{PksavItem, pksav_of_slot, write_native}

set-outside {ℓ} : {A : Type ℓ} (xs : List A) (i : ℕ) (v : A) → length xs ≤ i → set xs i v ≡ xs
set-outside [] i v h = refl
set-outside (x ∷ xs) zero v h = absurd (omega arith)
set-outside (x ∷ xs) (suc i) v h = ap (λ r. x ∷ r) (set-outside xs i v (omega arith))

outside-Matches :
    {P : Type 0} (encode : ItemSlot → Result P) (slots : List ItemSlot) (items : List P) (i : ℕ)
    (s : ItemSlot)
    → length slots ≤ i
    → Matches encode slots items
    → (write_one encode i s items).0 ≡ ok tt
    → Matches encode slots (write_one encode i s items).1
unfolding write_one
outside-Matches encode slots items i s far h f = elim (Result-cases (encode s)) [
  | inl (q, e) ↦
      ground (arith, h, set-outside items i q (omega (arith, Matches-length encode slots items h)))
  | inr (x, e) ↦ ground arith
]

-- The slot that `_to_native(index)` converts is the one that was written, or there is none at the index.
pub written-Matches :
    {P : Type 0} (encode : ItemSlot → Result P) (slots : List ItemSlot) (items : List P) (i : ℕ)
    (s : ItemSlot)
    → Matches encode slots items
    → (write_one encode i (get_or (set slots i s) i empty_slot) items).0 ≡ ok tt
    → Matches encode
        (set slots i s)
        (write_one encode i (get_or (set slots i s) i empty_slot) items).1
unfolding write_one
written-Matches {P} encode slots items i s h = elim (Bool-cases (ltb i (length slots))) [
  | inl e ↦
      rw (get_or-set_self slots i s empty_slot (ground arith))
        (write_one-Matches encode slots items i s h)
  | inr e ↦
      let far : length slots ≤ i = ground arith in
      rw (set-outside slots i s far)
        (outside-Matches encode slots items i (get_or slots i empty_slot) far h)
]

abbrev pub modern : ItemDb → (ℕ → ℕ) → Backend (List PksavItem)
modern db littleendian16 = record { write = write_native db littleendian16 }

unfoldable pub modern_mirror :
    (db : ItemDb) (littleendian16 : ℕ → ℕ) → Mirror (modern db littleendian16)
unfolding write_native
modern_mirror db littleendian16 = record {
  IsSynced = λ l. Matches (pksav_of_slot db littleendian16 l.game_id) l.item_slots l.native;
  update = λ l i n s y.
      written-Matches (pksav_of_slot db littleendian16 l.game_id) l.item_slots l.native i s y;
  refresh = λ l n slots y same long.
      write_all-Matches (pksav_of_slot db littleendian16 l.game_id) l.capacity slots l.native long (
        sym (Matches-length (pksav_of_slot db littleendian16 l.game_id) l.item_slots l.native y)
        ∙ sym same
        ∙ long);
}
