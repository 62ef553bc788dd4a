-- ===== src/ItemBag/Laws.antt =====
-- `add` and `remove` of lib/item_bag_impl.cpp, over what a bag relies on in its pockets, and that
-- lib/item_list_impl.cpp provides this.
use Prim.Native.String.{String}
use libpkmn.Common.{
  ℕ, ◌+◌, ◌≡◌, refl, ap, ◌∙◌, ◌≢◌, ◌⊎◌, inl, inr, none, some, ◌==◌, if◌then◌else◌, ℤ, pos_part,
  Result, ok, throw, Exception, out_of_range, Result-cases, Option-cases,
}
use libpkmn.Common.Stateful.{Action, lift, get, ◌>>=◌, ◌>>◌}
use libpkmn.ItemEntry.{ItemDb, none_item}
use libpkmn.ItemList.State.{Backend}
use libpkmn.ItemList.Packed.{held}
use libpkmn.ItemList.Valid.{IsValid, IsTotal}
use libpkmn.ItemList.AddLaws.{add-IsValid, held-add}
use libpkmn.ItemList.AddErrors.{add-unchanged}
use libpkmn.ItemList.RemoveLaws.{remove-IsValid, held-remove}
use libpkmn.ItemList.RemoveErrors.{remove-unchanged, remove-add}
use libpkmn.ItemList.{add, remove}
use libpkmn.ItemBag.{PocketOps, BagDb, Bag, get_pocket_name, call_pocket, to_native}
use libpkmn.ItemBag.PocketMap.{Pockets, find_pocket, set_pocket}
use libpkmn.ItemBag.Gen1.{list_ops}

-- What a bag relies on in its pockets. `IsPocket` is their invariant, and `held` says how many of an
-- item a pocket holds.
pub record IsPocketOps {S : Type 0} (ops : PocketOps S) (IsPocket : S → Type 0) (held : S → ℕ → ℕ)
    : Type 0 where
  pub added :
      (item : ℕ) (amount : ℤ) (s : S)
      → IsPocket s
      → item ≢ none_item
      → let (r, after) = ops.add_item item amount s in
        IsPocket after
        × (((r ≡ ok tt)
              × ((j : ℕ) → held after j ≡ held s j + (if item == j then pos_part amount else 0)))
            ⊎ ((e : Exception) × (r ≡ throw e) × (after ≡ s)))
  pub removed :
      (item : ℕ) (amount : ℤ) (s : S)
      → IsPocket s
      → item ≢ none_item
      → let (r, after) = ops.remove_item item amount s in
        IsPocket after
        × (((r ≡ ok tt)
              × ((j : ℕ) → held after j + (if item == j then pos_part amount else 0) ≡ held s j))
            ⊎ ((e : Exception) × (r ≡ throw e) × (after ≡ s)))
  pub undone :
      (item : ℕ) (amount : ℤ) (s : S)
      → IsPocket s
      → item ≢ none_item
      → (ops.add_item item amount s).0 ≡ ok tt
      → (ops.remove_item item amount (ops.add_item item amount s).1).0 ≡ ok tt

-- Item lists whose `_to_native` does not throw are such pockets.
pub list_ops-IsPocketOps :
    {N : Type 0} (db : ItemDb) (backend : Backend N)
    → IsTotal backend
    → IsPocketOps (list_ops db backend) IsValid (λ l item. held item l.item_slots)
list_ops-IsPocketOps db backend all = record {
  added = λ item amount l v named. (
    add-IsValid db backend l item amount v named,
    elim (Result-cases (add db backend item amount l).0) [
      | inl (_, e) ↦ inl (e, λ j. held-add db backend l item amount j v e)
      | inr (x, e) ↦ inr (x, e, add-unchanged db backend all l item amount e)
    ],
  );
  removed = λ item amount l v named. (
    remove-IsValid db backend l item amount v,
    elim (Result-cases (remove db backend item amount l).0) [
      | inl (_, e) ↦ inl (e, λ j. held-remove db backend l item amount j v e)
      | inr (x, e) ↦ inr (x, e, remove-unchanged db backend all l item amount e)
    ],
  );
  undone = λ item amount l v named e. (remove-add db backend all l item amount v named e).0;
}

module _ {S N : Type 0} (db : BagDb) (ops : PocketOps S) (write : Pockets S → N → N) where
  -- The bodies of `add` and `remove`, which differ in the function that they call.
  abbrev pub run : ℕ → (S → Result (Unit {0}) × S) → Action (Bag S N) (Unit {0})
  run item f = do
    bag ← get
    pocket_name ← lift (get_pocket_name db item bag)
    call_pocket db pocket_name f
    to_native db ops write

  abbrev pub with_pocket : String → S → Bag S N → Bag S N
  with_pocket name s bag = record bag { item_pockets = set_pocket name s bag.item_pockets }

  abbrev pub synced : Bag S N → Bag S N
  synced bag = record bag { native = write bag.item_pockets bag.native }

  call_missing :
      (name : String) (f : S → Result (Unit {0}) × S) (bag : Bag S N)
      → find_pocket name bag.item_pockets ≡ none
      → call_pocket db name f bag ≡ (throw out_of_range, bag)
  unfolding call_pocket
  call_missing name f bag missing = rw (missing, call_pocket) refl

  call_found :
      (name : String) (f : S → Result (Unit {0}) × S) (s : S) (bag : Bag S N)
      → find_pocket name bag.item_pockets ≡ some s
      → call_pocket db name f bag ≡ ((f s).0, with_pocket name (f s).1 bag)
  unfolding call_pocket
  call_found name f s bag found = rw (found, call_pocket) refl

  -- What follows the call.
  abbrev pub finished : Result (Unit {0}) × Bag S N → Result (Unit {0}) × Bag S N
  finished r = elim r.0 [ ok u ↦ (ok tt, synced r.1) | throw e ↦ (throw e, r.1) ]

  call_finished :
      (name : String) (f : S → Result (Unit {0}) × S) (bag : Bag S N)
      → (call_pocket db name f >> to_native db ops write) bag ≡ finished (call_pocket db name f bag)
  call_finished name f bag = refl

  pub run_found :
      (item : ℕ) (f : S → Result (Unit {0}) × S) (name : String) (s : S) (bag : Bag S N)
      → get_pocket_name db item bag ≡ ok name
      → find_pocket name bag.item_pockets ≡ some s
      → run item f bag ≡ finished ((f s).0, with_pocket name (f s).1 bag)
  run_found item f name s bag h found =
      rw h (call_finished name f bag ∙ ap finished (call_found name f s bag found))

  pub run_lem :
      (item : ℕ) (f : S → Result (Unit {0}) × S) (bag : Bag S N)
      → ((e : Exception) × (run item f bag ≡ (throw e, bag)))
        ⊎ ((name : String) × (s : S) × (get_pocket_name db item bag ≡ ok name)
            × (find_pocket name bag.item_pockets ≡ some s)
            × (run item f bag ≡ finished ((f s).0, with_pocket name (f s).1 bag)))
  run_lem item f bag = elim (Result-cases (get_pocket_name db item bag)) [
    | inr (e, h) ↦ inl (e, rw h refl)
    | inl (name, h) ↦ elim (Option-cases (find_pocket name bag.item_pockets)) [
      | inl missing ↦ inl (
        out_of_range,
        rw h (call_finished name f bag ∙ ap finished (call_missing name f bag missing)),
      )
      | inr (s, found) ↦ inr (name, s, h, found, run_found item f name s bag h found)
    ]
  ]

  pub pocket_name_kept :
      (item : ℕ) (name : String) (s : S) (bag : Bag S N)
      → get_pocket_name db item (synced (with_pocket name s bag)) ≡ get_pocket_name db item bag
  unfolding get_pocket_name
  pocket_name_kept item name s bag = refl
