-- ===== src/ItemList/Modern.antt =====
-- The item lists of the third generation on: lib/item_list_modernimpl.cpp. A native item is two 16-bit
-- numbers, which `pksav_littleendian16` (a parameter, of the pksav library) brings into the byte order
-- of the save. `Word` says what a slot has to be to fit in.
pub mod Synced
mod Tests
use libpkmn.Common.{
  ℕ, ◌<◌, ◌%◌, ◌≡◌, arith, Option, none, some, List, length, All, get_or, Result, ok, ap,
  Result-cases, inl, inr, ◌^◌, ◌>>=◌,
}
use libpkmn.ItemEntry.{ItemDb, entry_of_item, entry_of_index, get_item}
use libpkmn.ItemEntry.Laws.{HasIndices, entry_of_index-entry_of_item, entry_of_item-item_index}
use libpkmn.ItemList.State.{ItemSlot, empty_slot, ItemList}
use libpkmn.ItemList.Codec.{write_all, write_one, read_all, write_all-Matches, read_all-Matches}

-- `struct pksav_item`
pub record PksavItem : Type 0 where
  pub index : ℕ
  pub count : ℕ

module _ (db : ItemDb) (littleendian16 : ℕ → ℕ) where
  -- `_pksav_item_to_libpkmn_item_slot`
  unfoldable pub slot_of_pksav : ℕ → PksavItem → Result ItemSlot
  slot_of_pksav game_id pksav_item = do
    entry ← entry_of_index db (littleendian16 pksav_item.index) game_id
    ok (record { item = get_item entry; amount = littleendian16 pksav_item.count })

  -- `_libpkmn_item_slot_to_pksav_item`
  unfoldable pub pksav_of_slot : ℕ → ItemSlot → Result PksavItem
  pksav_of_slot game_id s = do
    entry ← entry_of_item db s.item game_id
    ok (record {
      index = littleendian16 (entry.item_index % 2 ^ 16);
      count = littleendian16 (s.amount % 2 ^ 16);
    })

  -- `_to_native`
  unfoldable pub write_native :
      Option ℕ → ItemList (List PksavItem) → Result (Unit {0}) × List PksavItem
  write_native none l = write_all (pksav_of_slot l.game_id) l.capacity l.item_slots l.native
  write_native (some i) l =
      write_one (pksav_of_slot l.game_id) i (get_or l.item_slots i empty_slot) l.native

  -- `_from_native(-1)`
  unfoldable pub from_native :
      ItemList (List PksavItem) → Result (Unit {0}) × ItemList (List PksavItem)
  from_native l =
      let read = read_all (slot_of_pksav l.game_id) l.capacity l.native l.item_slots in
      (read.0, record l { item_slots = read.1 })

  pub slot_of_pksav-pksav_of_slot :
      (game_id : ℕ) (s : ItemSlot) (p : PksavItem)
      → HasIndices db game_id
      → ((item index : ℕ) → db.item_id_to_index item game_id ≡ ok index → index < 65536)
      → ((x : ℕ) → x < 65536 → littleendian16 (littleendian16 x) ≡ x)
      → s.amount < 65536
      → pksav_of_slot game_id s ≡ ok p
      → slot_of_pksav game_id p ≡ ok s
  unfolding slot_of_pksav pksav_of_slot
  slot_of_pksav-pksav_of_slot game_id s p h small swap a e =
      elim (Result-cases (entry_of_item db s.item game_id)) [
        | inl (entry, q) ↦ ground (
          arith,
          entry_of_index-entry_of_item db s.item game_id h q,
          swap entry.item_index
              (small s.item entry.item_index (entry_of_item-item_index db s.item game_id q)),
          swap s.amount a,
          small s.item entry.item_index (entry_of_item-item_index db s.item game_id q),
        )
        | inr (x, q) ↦ ground arith
      ]

  -- What `_to_native(-1)` wrote without an exception, `_from_native(-1)` reads back as the same slots,
  -- with a database whose item indices are invertible and have 16 bits, with amounts that fit in 16
  -- bits, and lists of `_capacity` slots on both sides.
  pub from_native-write_native :
      (l : ItemList (List PksavItem)) (blank : List ItemSlot)
      → HasIndices db l.game_id
      → ((item index : ℕ) → db.item_id_to_index item l.game_id ≡ ok index → index < 65536)
      → ((x : ℕ) → x < 65536 → littleendian16 (littleendian16 x) ≡ x)
      → All (λ s. s.amount < 65536) l.item_slots
      → length l.item_slots ≡ l.capacity
      → length blank ≡ l.capacity
      → length l.native ≡ l.capacity
      → (write_native none l).0 ≡ ok tt
      → ((from_native (record l { item_slots = blank; native = (write_native none l).1 })).0
          ≡ ok tt)
        × ((from_native
              (record l { item_slots = blank; native = (write_native none l).1 })).1.item_slots
            ≡ l.item_slots)
  unfolding from_native write_native
  from_native-write_native l blank h small swap fits a b c e =
      let written =
        write_all-Matches (pksav_of_slot l.game_id) l.capacity l.item_slots l.native a c e in
      let read =
        read_all-Matches {Fits = λ s. s.amount < 65536} (pksav_of_slot l.game_id)
          (slot_of_pksav l.game_id) l.capacity l.item_slots blank (write_native none l).1
          (λ s p f q. slot_of_pksav-pksav_of_slot l.game_id s p h small swap f q) fits written a
          b in
      (ap (λ r. r.0) read, ap (λ r. r.1) read)
