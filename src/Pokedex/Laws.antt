-- ===== src/Pokedex/Laws.antt =====
-- What the setters of a Pokédex do, by lib/pokedex_impl.cpp.
use libpkmn.Common.{
  ℕ, suc, ◌%◌, ◌<◌, ◌≡◌, refl, ◌≢◌, inl, inr, Bool, true, false, not, ◌&&◌, ◌||◌, arith, ◌==◌,
  if◌then◌else◌, ==_refl, ≢→==, Bool-cases,
}
use libpkmn.Pokedex.{Native, Pokedex, has_seen, has_caught, set_has_seen, set_has_caught}
use libpkmn.Pokedex.Bits.{IsBits}

module _ {B : Type 0} (n : Native B) where
  module _ (bits : IsBits n) where
    -- The bits after `set_has_seen`.
    pub set_has_seen-bits :
        (depth species : ℕ) (value : Bool) (d : Pokedex B) (j : ℕ)
        → let after = set_has_seen n (suc (suc depth)) species value d in
          (n.seen after.native j ≡ (if j == species % 65536 then value else n.seen d.native j))
          × (n.owned after.native j
              ≡ (if j == species % 65536 && not value then false else n.owned d.native j))
    unfolding set_has_seen set_has_caught has_seen has_caught
    set_has_seen-bits depth species value d j =
        let i = species % 65536 in
        let b = n.set_seen d.native i value in
        ground (
          arith,
          bits.seen-set_seen d.native i value,
          bits.seen-set_seen_ne d.native i j value,
          bits.owned-set_seen d.native i j value,
          bits.owned-set_seen d.native i i value,
          bits.owned-set_owned b i false,
          bits.owned-set_owned_ne b i j false,
          bits.seen-set_owned b i j false,
        )

    pub set_has_caught-bits :
        (depth species : ℕ) (value : Bool) (d : Pokedex B) (j : ℕ)
        → let after = set_has_caught n (suc (suc depth)) species value d in
          (n.owned after.native j ≡ (if j == species % 65536 then value else n.owned d.native j))
          × (n.seen after.native j
              ≡ (if j == species % 65536 && value then true else n.seen d.native j))
    unfolding set_has_seen set_has_caught has_seen has_caught
    set_has_caught-bits depth species value d j =
        let i = species % 65536 in
        let b = n.set_owned d.native i value in
        ground (
          arith,
          bits.owned-set_owned d.native i value,
          bits.owned-set_owned_ne d.native i j value,
          bits.seen-set_owned d.native i j value,
          bits.seen-set_owned d.native i i value,
          bits.seen-set_seen b i true,
          bits.seen-set_seen_ne b i j true,
          bits.owned-set_seen b i j true,
        )

    -- What `set_has_seen` does, with bit functions that read back what was set, and calls that may
    -- go at least two deep, at any two different species of 16 bits: the one has the value that was
    -- set, and is not caught if it is not seen; of the other one nothing changes.
    pub set_has_seen_lem :
        (depth species other : ℕ) (value : Bool) (d : Pokedex B)
        → species < 65536
        → other < 65536
        → other ≢ species
        → let after = set_has_seen n (suc (suc depth)) species value d in
          (has_seen n species after ≡ value)
          × (has_caught n species after ≡ (value && has_caught n species d))
          × (has_seen n other after ≡ has_seen n other d)
          × (has_caught n other after ≡ has_caught n other d)
    unfolding has_seen has_caught
    set_has_seen_lem depth species other value d hs ho ne =
        let i = species % 65536 in
        let here = set_has_seen-bits depth species value d i in
        let there = set_has_seen-bits depth species value d (other % 65536) in
        let apart : (other % 65536 == i) ≡ false = ≢→== (other % 65536) i (omega arith) in
        (
          rw (here.0, ==_refl i) refl,
          rw (here.1, ==_refl i)
              (elim (Bool-cases value) [ inl e ↦ rw e refl | inr e ↦ rw e refl ]),
          rw (there.0, apart) refl,
          rw (there.1, apart) refl,
        )

    -- What `set_has_caught` does, with bit functions that read back what was set, and calls that may
    -- go at least two deep, at any two different species of 16 bits: the one has the value that was
    -- set, and is seen if it is caught; of the other one nothing changes.
    pub set_has_caught_lem :
        (depth species other : ℕ) (value : Bool) (d : Pokedex B)
        → species < 65536
        → other < 65536
        → other ≢ species
        → let after = set_has_caught n (suc (suc depth)) species value d in
          (has_caught n species after ≡ value)
          × (has_seen n species after ≡ (value || has_seen n species d))
          × (has_seen n other after ≡ has_seen n other d)
          × (has_caught n other after ≡ has_caught n other d)
    unfolding has_seen has_caught
    set_has_caught_lem depth species other value d hs ho ne =
        let i = species % 65536 in
        let here = set_has_caught-bits depth species value d i in
        let there = set_has_caught-bits depth species value d (other % 65536) in
        let apart : (other % 65536 == i) ≡ false = ≢→== (other % 65536) i (omega arith) in
        (
          rw (here.0, ==_refl i) refl,
          rw (here.1, ==_refl i)
              (elim (Bool-cases value) [ inl e ↦ rw e refl | inr e ↦ rw e refl ]),
          rw (there.1, apart) refl,
          rw (there.0, apart) refl,
        )

  -- Two calls deep is enough for both setters: more make no difference.
  pub set_has-depth :
      (depth species : ℕ) (value : Bool) (d : Pokedex B)
      → (set_has_seen n (suc (suc depth)) species value d ≡ set_has_seen n 2 species value d)
        × (set_has_caught n (suc (suc depth)) species value d ≡ set_has_caught n 2 species value d)
  unfolding set_has_seen set_has_caught
  set_has-depth depth species value d = elim (Bool-cases value) [
    | inl e ↦ rw e (refl, refl)
    | inr e ↦ rw e (refl, refl)
  ]
