-- ===== src/ItemList/Make.antt =====
-- The constructor of `item_list_impl` in lib/item_list_impl.cpp.
use libpkmn.Common.{
  ℕ, zero, suc, ◌≡◌, refl, Bool, ◌||◌, [], arith, resize, All, length-resize, ℤ, pos, eq_ℤ, Result,
  ok, ◌>>=◌,
}
use libpkmn.ItemEntry.{ItemDb}
use libpkmn.ItemList.State.{empty_slot, ItemList}
use libpkmn.ItemList.Valid.{IsValid}
use libpkmn.ItemList.Packed.{held, IsEmpty}

-- The PCs of Red and Blue, Yellow, Gold and Silver, Crystal, Ruby and Sapphire, Emerald, FireRed and
-- LeafGreen, Colosseum, and XD.
unfoldable pub item_list_id_is_pc : ℤ → Bool
item_list_id_is_pc item_list_id =
    eq_ℤ item_list_id (pos 2)
    || eq_ℤ item_list_id (pos 4)
    || eq_ℤ item_list_id (pos 9)
    || eq_ℤ item_list_id (pos 14)
    || eq_ℤ item_list_id (pos 20)
    || eq_ℤ item_list_id (pos 26)
    || eq_ℤ item_list_id (pos 32)
    || eq_ℤ item_list_id (pos 68)
    || eq_ℤ item_list_id (pos 75)

-- `item_list_impl(item_list_id, game_id)`, before a subclass sets its native list.
unfoldable pub new_item_list : {N : Type 0} → ItemDb → N → ℤ → ℕ → Result (ItemList N)
unfolding item_list_id_is_pc
new_item_list db native item_list_id game_id = do
  version_group_id ← db.game_id_to_version_group game_id
  capacity ← db.list_capacity item_list_id version_group_id
  ok (record {
    item_list_id = item_list_id;
    game_id = game_id;
    version_group_id = version_group_id;
    capacity = capacity;
    num_items = 0;
    pc = item_list_id_is_pc item_list_id;
    item_slots = resize capacity empty_slot [];
    native = native;
  })

resize-IsEmpty : (n : ℕ) → All IsEmpty (resize n empty_slot [])
resize-IsEmpty zero = tt
resize-IsEmpty (suc n) = ((refl, refl), resize-IsEmpty n)

resize-held : (n item : ℕ) → held item (resize n empty_slot []) ≡ 0
resize-held zero item = refl
resize-held (suc n) item = ground (arith, resize-held n item)

-- A list that was just made is valid, and holds nothing.
pub new_item_list-IsValid :
    {N : Type 0} (db : ItemDb) (native : N) (item_list_id : ℤ) (game_id : ℕ) {l : ItemList N}
    → new_item_list db native item_list_id game_id ≡ ok l
    → IsValid l × ((item : ℕ) → held item l.item_slots ≡ 0)
unfolding new_item_list
new_item_list-IsValid db native item_list_id game_id {l} e =
    let made : (num_items : l.num_items ≡ 0) × (l.item_slots ≡ resize l.capacity empty_slot []) =
      ground arith in
    let slots = made.1 in
    (
      record {
        packed = rw (made.0, slots) (resize-IsEmpty l.capacity);
        sized = rw slots (length-resize l.capacity empty_slot []);
      },
      (λ item. rw slots (resize-held l.capacity item)),
    )
