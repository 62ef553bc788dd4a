-- ===== src/ItemList/Gb.antt =====
-- The item lists of the first two generations: lib/item_list_gbimpl.ipp. A native item is two bytes, and
-- the native list counts its items.
use libpkmn.Common.{
  ℕ, ◌%◌, ◌<◌, ◌≡◌, refl, inl, inr, Option, none, some, List, arith, length, get_or, All, Result,
  ok, throw, ◌>>=◌, Result-cases,
}
use libpkmn.ItemEntry.{ItemDb, entry_of_item, entry_of_index, get_item}
use libpkmn.ItemEntry.Laws.{HasIndices, entry_of_index-entry_of_item, entry_of_item-item_index}
use libpkmn.ItemList.State.{ItemSlot, empty_slot, ItemList}
use libpkmn.ItemList.Codec.{write_all, write_one, read_all, write_all-Matches, read_all-Matches}

-- `struct pksav_gb_item`
pub record PksavGbItem : Type 0 where
  pub index : ℕ
  pub count : ℕ

-- `pksav_type`
pub record PksavGbList : Type 0 where
  pub count : ℕ
  pub items : List PksavGbItem
  pub terminator : ℕ

module _ (db : ItemDb) where
  -- `_pksav_item_to_libpkmn_item_slot`
  unfoldable pub slot_of_gb : ℕ → PksavGbItem → Result ItemSlot
  slot_of_gb game_id pksav_item = do
    entry ← entry_of_index db pksav_item.index game_id
    ok (record { item = get_item entry; amount = pksav_item.count })

  -- `_libpkmn_item_slot_to_pksav_item`
  unfoldable pub gb_of_slot : ℕ → ItemSlot → Result PksavGbItem
  gb_of_slot game_id s = do
    entry ← entry_of_item db s.item game_id
    ok (record { index = entry.item_index % 256; count = s.amount % 256 })

  -- What follows the loop of `_to_native`, which an exception in the loop skips.
  abbrev count_items :
      ItemList PksavGbList → Result (Unit {0}) × List PksavGbItem → Result (Unit {0}) × PksavGbList
  count_items l (ok u, items) = (ok u, record l.native { items = items; count = l.num_items % 256 })
  count_items l (throw e, items) = (throw e, record l.native { items = items })

  -- `_to_native`
  unfoldable pub write_gb_native : Option ℕ → ItemList PksavGbList → Result (Unit {0}) × PksavGbList
  write_gb_native none l =
      count_items l (write_all (gb_of_slot l.game_id) l.capacity l.item_slots l.native.items)
  write_gb_native (some i) l =
      count_items l
        (write_one (gb_of_slot l.game_id) i (get_or l.item_slots i empty_slot) l.native.items)

  abbrev counted :
      Result (Unit {0}) × List ItemSlot
      → ItemList PksavGbList
      → Result (Unit {0}) × ItemList PksavGbList
  counted (ok u, slots) l = (ok u, record l { item_slots = slots; num_items = l.native.count })
  counted (throw e, slots) l = (throw e, record l { item_slots = slots })

  -- `_from_native(-1)`
  unfoldable pub from_gb_native : ItemList PksavGbList → Result (Unit {0}) × ItemList PksavGbList
  from_gb_native l =
      counted (read_all (slot_of_gb l.game_id) l.capacity l.native.items l.item_slots) l

  slot_of_gb-gb_of_slot :
      (game_id : ℕ) (s : ItemSlot) (p : PksavGbItem)
      → HasIndices db game_id
      → ((item index : ℕ) → db.item_id_to_index item game_id ≡ ok index → index < 256)
      → s.amount < 256
      → gb_of_slot game_id s ≡ ok p
      → slot_of_gb game_id p ≡ ok s
  unfolding slot_of_gb gb_of_slot
  slot_of_gb-gb_of_slot game_id s p h small a e =
      elim (Result-cases (entry_of_item db s.item game_id)) [
        | inl (entry, q) ↦ ground (
          arith,
          entry_of_index-entry_of_item db s.item game_id h q,
          small s.item entry.item_index (entry_of_item-item_index db s.item game_id q),
        )
        | inr (x, q) ↦ ground arith
      ]

  count_items-ok :
      (l : ItemList PksavGbList) (r : Result (Unit {0}) × List PksavGbItem)
      → (count_items l r).0 ≡ ok tt
      → (r.0 ≡ ok tt)
        × (count_items l r ≡ (ok tt, record l.native { items = r.1; count = l.num_items % 256 }))
  count_items-ok l (ok u, items) e = (refl, refl)
  count_items-ok l (throw x, items) e = (e, cc)

  -- What `_to_native(-1)` wrote without an exception, `_from_native(-1)` reads back as the same slots and
  -- the same number of items, with a database whose item indices are invertible bytes, with amounts
  -- and a number of items that fit in a byte, and lists of `_capacity` slots on both sides.
  pub from_gb_native-write_gb_native :
      (l : ItemList PksavGbList) (blank : List ItemSlot) (n : ℕ)
      → HasIndices db l.game_id
      → ((item index : ℕ) → db.item_id_to_index item l.game_id ≡ ok index → index < 256)
      → All (λ s. s.amount < 256) l.item_slots
      → l.num_items < 256
      → length l.item_slots ≡ l.capacity
      → length blank ≡ l.capacity
      → length l.native.items ≡ l.capacity
      → (write_gb_native none l).0 ≡ ok tt
      → let read =
          from_gb_native
            (record l { item_slots = blank; num_items = n; native = (write_gb_native none l).1 }) in
        (read.0 ≡ ok tt) × (read.1.item_slots ≡ l.item_slots) × (read.1.num_items ≡ l.num_items)
  unfolding from_gb_native write_gb_native
  from_gb_native-write_gb_native l blank n h small fits count a b c e =
      let encode = gb_of_slot l.game_id in
      let loop = write_all encode l.capacity l.item_slots l.native.items in
      let (q, wrote) = count_items-ok l loop e in
      let written = write_all-Matches encode l.capacity l.item_slots l.native.items a c q in
      let read =
        read_all-Matches {Fits = λ s. s.amount < 256} encode (slot_of_gb l.game_id) l.capacity
          l.item_slots blank loop.1 (λ s p f z. slot_of_gb-gb_of_slot l.game_id s p h small f z)
          fits written a b in
      rw (wrote, read) (refl, refl, omega arith)
