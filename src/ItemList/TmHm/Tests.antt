-- ===== src/ItemList/TmHm/Tests.antt =====
-- The pocket of machines at concrete inputs: 57 slots of one machine each.
use libpkmn.Common.{ℕ, zero, suc, ◌+◌, ◌≤◌, refl, false, List, [], ◌∷◌, arith, All, pos}
use libpkmn.ItemList.{slot}
use libpkmn.ItemList.State.{ItemSlot, ItemList}
use libpkmn.ItemList.Tests.{small_db}
use libpkmn.ItemList.TmHm.{TmHmPocket, to_tmhm_native, add_machine, remove_machine}
use libpkmn.ItemList.TmHm.Laws.{IsPocket, add_machine-IsPocket}

abbrev machines : ℕ → ℕ → List ItemSlot
machines zero first = []
machines (suc n) first = slot first 1 ∷ machines n (first + 1)

abbrev pocket : ItemList TmHmPocket
pocket = record {
  item_list_id = pos 17;
  game_id = 4;
  version_group_id = 3;
  capacity = 57;
  num_items = 0;
  pc = false;
  item_slots = machines 57 305;
  native = to_tmhm_native (machines 57 305);
}

machines-bounded : (n first : ℕ) → All (λ s. s.amount ≤ 99) (machines n first)
machines-bounded zero first = tt
machines-bounded (suc n) first = (omega arith, machines-bounded n (first + 1))

pocket-IsPocket : IsPocket pocket
pocket-IsPocket = record {
  sized = refl;
  bounded = machines-bounded 57 305;
  synced = refl;
  uncounted = refl;
}

add_machine-IsPocket_example :
    IsPocket (add_machine small_db 310 (pos 99) pocket).1
    × IsPocket (remove_machine small_db 310 (pos 99) pocket).1
add_machine-IsPocket_example = add_machine-IsPocket small_db pocket 310 (pos 99) pocket-IsPocket
