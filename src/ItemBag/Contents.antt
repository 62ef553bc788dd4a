-- ===== src/ItemBag/Contents.antt =====
-- What a bag holds after `add` and `remove` of lib/item_bag_impl.cpp, and that they undo each other.
use Prim.Native.String.{String}
use libpkmn.Common.{ℕ, ◌≡◌, ◌≢◌, ok}
use libpkmn.ItemBag.{PocketOps, BagDb, Bag, get_pocket_name}
use libpkmn.ItemBag.PocketMap.{Pockets, find_pocket}

module _ {S N : Type 0} (db : BagDb) (ops : PocketOps S) (write : Pockets S → N → N)
    (IsPocket : S → Type 0) (held : S → ℕ → ℕ) where
  -- What a call that returned has done: the pocket of this item alone has changed, and the native
  -- bag is written from all pockets.
  pub record IsSynced (item : ℕ) (bag after : Bag S N) : Type 0 where
    pub name : String
    pub named : get_pocket_name db item bag ≡ ok name
    pub others :
        (other : String)
        → name ≢ other
        → find_pocket other after.item_pockets ≡ find_pocket other bag.item_pockets
    pub native_written : after.native ≡ write after.item_pockets bag.native
    pub same_game : after.game_id ≡ bag.game_id
    pub same_generation : after.generation ≡ bag.generation
    pub same_version_group : after.version_group_id ≡ bag.version_group_id
