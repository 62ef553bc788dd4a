-- ===== src/ItemList/TmHm.antt =====
-- The pocket of machines of the second generation: lib/item_list_gen2_tmhmimpl.cpp. Its slots are the
-- machines in their order, which never changes; the native pocket counts the TMs and the HMs. The
-- numbers of these are macros of the pksav library, 50 and 7.
pub mod Laws
mod Tests
use libpkmn.Common.{
  ℕ, zero, suc, ◌+◌, ◌-◌, ◌%◌, min, Bool, not, ◌&&◌, List, [], ◌∷◌, ltb, ◌==◌, if◌then◌else◌, ℤ,
  pos, pos_part, ltb_ℤ, invalid_item, Exception, invalid_argument, feature_not_in_game_error,
  runtime_error, ok,
}
use text.Mathlib.Text.{◌==◌ as str_eq}
use libpkmn.Enforce.{enforce_bounds, enforce_value_in_vector}
use libpkmn.ItemEntry.{ItemDb, none_item, entry_of_item, get_pocket}
use libpkmn.ItemList.{slot, put, end_boundary, get_name}
use libpkmn.ItemList.State.{
  ItemSlot, ItemList, slot_at, Action, raise, lift, get, modify, ◌>>=◌, ◌>>◌,
}

-- `struct pksav_gen2_tmhm_pocket`
pub record TmHmPocket : Type 0 where
  pub tm_count : List ℕ
  pub hm_count : List ℕ

unfoldable pub item_id_is_tm : ℤ → Bool
item_id_is_tm num = not (ltb_ℤ num (pos 305)) && not (ltb_ℤ (pos 354) num)

unfoldable pub item_id_is_hm : ℤ → Bool
item_id_is_hm num = not (ltb_ℤ num (pos 397)) && not (ltb_ℤ (pos 403) num)

-- `_to_native`, which copies all amounts; a count has eight bits.
unfoldable pub counts_of : ℕ → List ItemSlot → List ℕ
counts_of zero slots = []
counts_of (suc n) [] = []
counts_of (suc n) (s ∷ slots) = s.amount % 256 ∷ counts_of n slots

abbrev drop : ℕ → List ItemSlot → List ItemSlot
drop zero slots = slots
drop (suc n) [] = []
drop (suc n) (s ∷ slots) = drop n slots

unfoldable pub to_tmhm_native : List ItemSlot → TmHmPocket
unfolding counts_of
to_tmhm_native slots = record {
  tm_count = counts_of 50 slots;
  hm_count = counts_of 7 (drop 50 slots);
}

unfoldable pub count_positive : List ℕ → ℕ
count_positive [] = 0
count_positive (c ∷ counts) = (if ltb 0 c then 1 else 0) + count_positive counts

unfoldable pub get_tmhm_num_items : ItemList TmHmPocket → ℕ
unfolding count_positive
get_tmhm_num_items l = count_positive l.native.tm_count + count_positive l.native.hm_count

module _ (db : ItemDb) where
  -- The checks that `add` and `remove` share, and the position of the machine; `e` is what they throw at
  -- an item that is no machine.
  unfoldable pub machine_position : Exception → ℕ → Action TmHmPocket ℕ
  unfolding item_id_is_tm item_id_is_hm
  machine_position e item = do
    l ← get
    entry ← lift (entry_of_item db item l.game_id)
    pocket ← lift (get_pocket db entry)
    name ← lift (get_name db l)
    if not (str_eq pocket name)
        then raise invalid_argument
        else if item_id_is_tm entry.item_id
        then lift (ok (pos_part entry.item_id - 305))
        else if item_id_is_hm entry.item_id
        then lift (ok (pos_part entry.item_id - 347))
        else raise e

  abbrev set_amount : ℕ → ℕ → Action TmHmPocket (Unit {0})
  set_amount position amount = modify (λ l. put position (slot (slot_at l position).item amount) l)

  abbrev to_native : Action TmHmPocket (Unit {0})
  to_native = modify (λ l. record l { native = to_tmhm_native l.item_slots })

  -- The writes of `add` and `remove`. Subtraction stops at 0, as `std::max<int>(0, new_amount)` does.
  abbrev pub increase : ℕ → ℕ → Action TmHmPocket (Unit {0})
  increase amount position = do
    l ← get
    set_amount position (min 99 ((slot_at l position).amount + amount))
    to_native

  abbrev pub decrease : ℕ → ℕ → Action TmHmPocket (Unit {0})
  decrease amount position = do
    l ← get
    set_amount position ((slot_at l position).amount - amount)
    to_native

  unfoldable pub add_machine : ℕ → ℤ → Action TmHmPocket (Unit {0})
  add_machine item amount =
      lift (enforce_bounds amount (pos 1) (pos 99))
      >> (machine_position invalid_argument item >>= increase (pos_part amount))

  unfoldable pub remove_machine : ℕ → ℤ → Action TmHmPocket (Unit {0})
  remove_machine item amount =
      lift (enforce_bounds amount (pos 1) (pos 99))
      >> (machine_position (runtime_error invalid_item) item >>= decrease (pos_part amount))

  unfoldable pub move_machine : ℤ → ℤ → Action TmHmPocket (Unit {0})
  move_machine old_position new_position = raise feature_not_in_game_error

  unfoldable pub set_machine : ℤ → ℕ → ℤ → Action TmHmPocket (Unit {0})
  set_machine position item amount = do
    l ← get
    lift (enforce_bounds position (pos 0) (end_boundary l))
    entry ← lift (entry_of_item db item l.game_id)
    pocket ← (if not (item == none_item) then lift (get_pocket db entry) else lift (ok ""))
    name ← (if not (item == none_item) then lift (get_name db l) else lift (ok ""))
    if not (str_eq pocket name) then raise invalid_argument else (do
      lift (enforce_bounds amount (pos 1) (pos 99))
      lift (enforce_value_in_vector item ((slot_at l (pos_part position)).item ∷ []))
      set_amount (pos_part position) (pos_part amount))
