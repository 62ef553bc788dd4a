-- ===== src/ItemBag/PocketMap.antt =====
-- `item_pockets_t` of include/pkmn/item_bag.hpp: item lists by the names of their pockets.
use Prim.Native.String.{String}
use text.Mathlib.Text.{◌==◌ as str_eq}
use text.Mathlib.TextEquality.{eq_iff}
use libpkmn.Common.{
  ℕ, ◌+◌, ◌≡◌, ◌≢◌, refl, sym, ◌∙◌, Option, none, some, List, [], ◌∷◌, if◌then◌else◌, arith, All,
  Bool-cases, inl, inr,
}

abbrev pub Pockets : Type 0 → Type 0
Pockets S = List (String × S)

module _ {S : Type 0} where
  unfoldable pub find_pocket : String → Pockets S → Option S
  find_pocket name [] = none
  find_pocket name ((key, s) ∷ pockets) =
      let rest = find_pocket name pockets in if str_eq name key then some s else rest

  -- What a call through the pointer `_item_pockets.at(name)` changes.
  unfoldable pub set_pocket : String → S → Pockets S → Pockets S
  set_pocket name s [] = []
  set_pocket name s ((key, t) ∷ pockets) =
      let rest = set_pocket name s pockets in
      if str_eq name key then (key, s) ∷ pockets else (key, t) ∷ rest

  pub find_pocket-set_pocket :
      (name : String) (s t : S) (pockets : Pockets S)
      → find_pocket name pockets ≡ some s
      → find_pocket name (set_pocket name t pockets) ≡ some t
  unfolding find_pocket set_pocket
  find_pocket-set_pocket name s t [] h = ground arith
  find_pocket-set_pocket name s t ((key, u) ∷ pockets) h =
      ground (arith, find_pocket-set_pocket name s t pockets)

  pub set_pocket_self :
      (name : String) (s : S) (pockets : Pockets S)
      → find_pocket name pockets ≡ some s
      → set_pocket name s pockets ≡ pockets
  unfolding find_pocket set_pocket
  set_pocket_self name s [] h = refl
  set_pocket_self name s ((key, u) ∷ pockets) h = ground (arith, set_pocket_self name s pockets)

  module _ (IsPocket : S → Type 0) where
    abbrev pub IsPockets : Pockets S → Type 0
    IsPockets = All (λ (key, s). IsPocket s)

    pub find_pocket-IsPocket :
        (name : String) (s : S) (pockets : Pockets S)
        → IsPockets pockets
        → find_pocket name pockets ≡ some s
        → IsPocket s
    unfolding find_pocket
    find_pocket-IsPocket name s [] good h = ground arith
    find_pocket-IsPocket name s ((key, u) ∷ pockets) (one, good) h =
        ground (arith, find_pocket-IsPocket name s pockets good)

    pub set_pocket-IsPockets :
        (name : String) (s : S) (pockets : Pockets S)
        → IsPockets pockets
        → IsPocket s
        → IsPockets (set_pocket name s pockets)
    unfolding set_pocket
    set_pocket-IsPockets name s [] good new = good
    set_pocket-IsPockets name s ((key, u) ∷ pockets) (one, good) new =
        elim (Bool-cases (str_eq name key)) [
          | inl e ↦ rw e (new, good)
          | inr e ↦ rw e (one, set_pocket-IsPockets name s pockets good new)
        ]

  module _ (held : S → ℕ → ℕ) where
    -- How many of an item the pockets hold.
    unfoldable pub total : ℕ → Pockets S → ℕ
    total item [] = 0
    total item ((key, s) ∷ pockets) = held s item + total item pockets

    pub total-set_pocket :
        (item : ℕ) (name : String) (s t : S) (pockets : Pockets S)
        → find_pocket name pockets ≡ some s
        → total item (set_pocket name t pockets) + held s item ≡ total item pockets + held t item
    unfolding find_pocket set_pocket total
    total-set_pocket item name s t [] h = ground arith
    total-set_pocket item name s t ((key, u) ∷ pockets) h =
        ground (arith, total-set_pocket item name s t pockets)

  pub find_pocket-set_pocket_ne :
      (name other : String) (s : S) (pockets : Pockets S)
      → name ≢ other
      → find_pocket other (set_pocket name s pockets) ≡ find_pocket other pockets
  unfolding find_pocket set_pocket
  find_pocket-set_pocket_ne name other s [] ne = refl
  find_pocket-set_pocket_ne name other s ((key, u) ∷ pockets) ne =
      let rec = find_pocket-set_pocket_ne name other s pockets ne in
      elim (Bool-cases (str_eq name key)) [
        | inr e ↦ rw (e, rec) refl
        | inl e ↦ elim (Bool-cases (str_eq other key)) [
          | inl e' ↦ absurd (ne ((eq_iff name key).0 e ∙ sym ((eq_iff other key).0 e')))
          | inr e' ↦ rw (e, e') refl
        ]
      ]
