-- ===== src/ItemList/Codec.antt =====
-- The loops of `_to_native` and `_from_native` that convert slots to native items and back, one by one,
-- which lib/item_list_modernimpl.cpp and lib/item_list_gbimpl.ipp write alike: over any type `P` of
-- native items, and any conversions, which may throw.
use libpkmn.Common.{
  ℕ, zero, suc, ◌≡◌, arith, List, [], ◌∷◌, set, length, Result, ok, throw, ap, Result-cases, refl,
  inl, inr, All,
}
use libpkmn.ItemList.State.{ItemSlot}

module _ {P : Type 0} where
  -- What is written before a conversion throws stays written.
  unfoldable pub write_all :
      (ItemSlot → Result P) → ℕ → List ItemSlot → List P → Result (Unit {0}) × List P
  write_all encode zero slots items = (ok tt, items)
  write_all encode (suc n) [] items = (ok tt, items)
  write_all encode (suc n) (s ∷ slots) [] = (ok tt, [])
  write_all encode (suc n) (s ∷ slots) (p ∷ items) =
      let rest = write_all encode n slots items in
      elim (encode s) [ ok q ↦ (rest.0, q ∷ rest.1) | throw e ↦ (throw e, p ∷ items) ]

  unfoldable pub write_one :
      (ItemSlot → Result P) → ℕ → ItemSlot → List P → Result (Unit {0}) × List P
  write_one encode i s items = elim (encode s) [
    | ok q ↦ (ok tt, set items i q)
    | throw e ↦ (throw e, items)
  ]

  unfoldable pub read_all :
      (P → Result ItemSlot) → ℕ → List P → List ItemSlot → Result (Unit {0}) × List ItemSlot
  read_all decode zero items slots = (ok tt, slots)
  read_all decode (suc n) [] slots = (ok tt, slots)
  read_all decode (suc n) (p ∷ items) [] = (ok tt, [])
  read_all decode (suc n) (p ∷ items) (s ∷ slots) =
      let rest = read_all decode n items slots in
      elim (decode p) [ ok t ↦ (rest.0, t ∷ rest.1) | throw e ↦ (throw e, s ∷ slots) ]

  -- Every native item is what its slot converts to.
  abbrev pub Matches : (ItemSlot → Result P) → List ItemSlot → List P → Type 0
  Matches encode [] [] = Unit
  Matches encode [] (p ∷ items) = ⊥
  Matches encode (s ∷ slots) [] = ⊥
  Matches encode (s ∷ slots) (p ∷ items) = (encode s ≡ ok p) × Matches encode slots items

  pub Matches-length :
      (encode : ItemSlot → Result P) (slots : List ItemSlot) (items : List P)
      → Matches encode slots items
      → length slots ≡ length items
  Matches-length encode [] [] h = omega arith
  Matches-length encode [] (p ∷ items) h = absurd h
  Matches-length encode (s ∷ slots) [] h = absurd h
  Matches-length encode (s ∷ slots) (p ∷ items) h = ap suc (Matches-length encode slots items h.1)

  pub write_all-Matches :
      (encode : ItemSlot → Result P) (n : ℕ) (slots : List ItemSlot) (items : List P)
      → length slots ≡ n
      → length items ≡ n
      → (write_all encode n slots items).0 ≡ ok tt
      → Matches encode slots (write_all encode n slots items).1
  unfolding write_all
  write_all-Matches encode zero [] [] a b e = tt
  write_all-Matches encode zero [] (p ∷ items) a b e = absurd (omega arith)
  write_all-Matches encode zero (s ∷ slots) items a b e = absurd (omega arith)
  write_all-Matches encode (suc n) [] items a b e = absurd (omega arith)
  write_all-Matches encode (suc n) (s ∷ slots) [] a b e = absurd (omega arith)
  write_all-Matches encode (suc n) (s ∷ slots) (p ∷ items) a b e =
      ground (arith, write_all-Matches encode n slots items (omega arith) (omega arith))

  pub set-Matches :
      (encode : ItemSlot → Result P) (slots : List ItemSlot) (items : List P) (i : ℕ) (s : ItemSlot)
      (q : P)
      → Matches encode slots items
      → encode s ≡ ok q
      → Matches encode (set slots i s) (set items i q)
  set-Matches encode [] [] i s q h e = tt
  set-Matches encode [] (p ∷ items) i s q h e = absurd h
  set-Matches encode (t ∷ slots) [] i s q h e = absurd h
  set-Matches encode (t ∷ slots) (p ∷ items) zero s q h e = (e, h.1)
  set-Matches encode (t ∷ slots) (p ∷ items) (suc i) s q h e =
      (h.0, set-Matches encode slots items i s q h.1 e)

  pub write_one-Matches :
      (encode : ItemSlot → Result P) (slots : List ItemSlot) (items : List P) (i : ℕ) (s : ItemSlot)
      → Matches encode slots items
      → (write_one encode i s items).0 ≡ ok tt
      → Matches encode (set slots i s) (write_one encode i s items).1
  unfolding write_one
  write_one-Matches encode slots items i s h f = elim (Result-cases (encode s)) [
    | inl (q, e) ↦ ground (arith, set-Matches encode slots items i s q h e)
    | inr (x, e) ↦ ground arith
  ]

  -- What was written reads back, if the conversions are inverse.
  pub read_all-Matches :
      {Fits : ItemSlot → Type 0} (encode : ItemSlot → Result P) (decode : P → Result ItemSlot)
      (n : ℕ) (slots blank : List ItemSlot) (items : List P)
      → ((s : ItemSlot) (p : P) → Fits s → encode s ≡ ok p → decode p ≡ ok s)
      → All Fits slots
      → Matches encode slots items
      → length slots ≡ n
      → length blank ≡ n
      → read_all decode n items blank ≡ (ok tt, slots)
  unfolding read_all
  read_all-Matches encode decode zero [] [] items inv fits h a b = refl
  read_all-Matches encode decode zero [] (t ∷ blank) items inv fits h a b = absurd (omega arith)
  read_all-Matches encode decode zero (s ∷ slots) blank items inv fits h a b = absurd (omega arith)
  read_all-Matches encode decode (suc n) [] blank items inv fits h a b = absurd (omega arith)
  read_all-Matches encode decode (suc n) (s ∷ slots) [] items inv fits h a b = absurd (omega arith)
  read_all-Matches encode decode (suc n) (s ∷ slots) (t ∷ blank) [] inv fits h a b = absurd h
  read_all-Matches encode decode (suc n) (s ∷ slots) (t ∷ blank) (p ∷ items) inv fits h a b =
      ground (
        arith,
        inv s p fits.0 h.0,
        read_all-Matches encode decode n slots blank items inv fits.1 h.1 (omega arith)
            (omega arith),
      )
