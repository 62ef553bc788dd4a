-- ===== src/ItemList/State.antt =====
-- The state of an item list, and the monad of its operations: they throw, and what they wrote before
-- stays written.

use libpkmn.Common.{
  ◌≡◌, ap, none, ℕ, Bool, Option, List, get_or, ℤ, Result, ok, throw, Exception, some,
}

-- include/pkmn/item_slot.hpp
pub record ItemSlot : Type 0 where
  pub item : ℕ
  pub amount : ℕ

-- `item_slot()`
abbrev pub empty_slot : ItemSlot
empty_slot = record { item = 0; amount = 0 }

-- The fields of `item_list_impl`, and `native` for the subclass's `_pksav_list`.
pub record ItemList (N : Type 0) : Type 0 where
  pub item_list_id : ℤ
  pub game_id : ℕ
  pub version_group_id : ℕ
  pub capacity : ℕ
  pub num_items : ℕ
  pub pc : Bool
  pub item_slots : List ItemSlot
  pub native : N

-- `_to_native(index)`, where `none` is the default index -1. It assigns to the native list alone,
-- and may throw after it has written a part.
pub record Backend (N : Type 0) : Type 0 where
  pub write : Option ℕ → ItemList N → Result (Unit {0}) × N

abbrev pub Action : Type 0 → Type 0 → Type 0
Action N A = ItemList N → Result A × ItemList N

module _ {N : Type 0} where
  abbrev pub slot_at : ItemList N → ℕ → ItemSlot
  slot_at l i = get_or l.item_slots i empty_slot

  abbrev pub pure : {A : Type 0} → A → Action N A
  pure a l = (ok a, l)

  abbrev pub raise : {A : Type 0} → Exception → Action N A
  raise e l = (throw e, l)

  abbrev pub lift : {A : Type 0} → Result A → Action N A
  lift r l = (r, l)

  abbrev pub get : Action N (ItemList N)
  get l = (ok l, l)

  abbrev pub modify : (ItemList N → ItemList N) → Action N (Unit {0})
  modify f l = (ok tt, f l)

  abbrev pub to_native : Backend N → Option ℕ → Action N (Unit {0})
  to_native backend index l = let (r, n) = backend.write index l in (r, record l { native = n })

  infixl 5 ◌>>=◌ ◌>>◌
  abbrev pub ◌>>=◌ : {A B : Type 0} → Action N A → (A → Action N B) → Action N B
  ◌>>=◌ m f l = let (r, l') = m l in elim r [ ok a ↦ f a l' | throw e ↦ (throw e, l') ]

  abbrev pub ◌>>◌ : {A B : Type 0} → Action N A → Action N B → Action N B
  m >> k = m >>= λ _. k

  -- What a loop over the slots does with the first slot that it looks for, and what stands behind it.
  abbrev pub at_found_or : {A : Type 0} → Option ℕ → (ℕ → Action N A) → Action N A → Action N A
  at_found_or (some i) f k = f i
  at_found_or none f k = k

  pub >>=-ok :
      {A B : Type 0} (m : Action N A) (f : A → Action N B) (l : ItemList N) {a : A}
      → (m l).0 ≡ ok a
      → (m >>= f) l ≡ f a (m l).1
  >>=-ok m f l e = ap (λ r. elim r [ ok a ↦ f a (m l).1 | throw x ↦ (throw x, (m l).1) ]) e

  pub >>=-throw :
      {A B : Type 0} (m : Action N A) (f : A → Action N B) (l : ItemList N) {e : Exception}
      → (m l).0 ≡ throw e
      → (m >>= f) l ≡ (throw e, (m l).1)
  >>=-throw m f l e = ap (λ r. elim r [ ok a ↦ f a (m l).1 | throw x ↦ (throw x, (m l).1) ]) e
