-- ===== src/ItemList/Valid.antt =====
-- The invariant of an item list (lib/item_list_impl.cpp), and subclasses whose `_to_native` never throws.
use libpkmn.Common.{ℕ, ◌≡◌, Option, length, ok}
use libpkmn.ItemList.State.{ItemList, Backend}
use libpkmn.ItemList.Packed.{IsPacked}

-- Between operations the first `num_items` slots are in use, and there are `capacity` slots.
pub record IsValid {N : Type 0} (l : ItemList N) : Type 0 where
  pub packed : IsPacked l.num_items l.item_slots
  pub sized : length l.item_slots ≡ l.capacity

abbrev pub IsTotal : {N : Type 0} → Backend N → Type 0
IsTotal {N} backend = (i : Option ℕ) (l : ItemList N) → (backend.write i l).0 ≡ ok tt
