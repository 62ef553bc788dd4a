-- ===== src/Pokedex/Valid.antt =====
-- The invariant of a Pokédex (lib/pokedex_impl.cpp) and the lists that its getters return.
use libpkmn.Common.{
  ℕ, suc, ◌%◌, ◌<◌, ◌≡◌, refl, sym, ap, ◌∙◌, ◌⊎◌, inl, inr, Bool, true, false, ◌&&◌, arith, leb,
  Bool-cases, length,
}
use libpkmn.Enforce.{does_vector_contain_value}
use libpkmn.Pokedex.{
  Native, Pokedex, has_seen, has_caught, set_has_seen, set_has_caught, update_member_vector,
  get_all_seen, get_num_seen, get_all_caught, get_num_caught,
}
use libpkmn.Pokedex.Bits.{IsBits}
use libpkmn.Pokedex.Listing.{update_member_vector_lem, update_member_vector-Ascends, Ascends}
use libpkmn.Pokedex.Laws.{set_has_seen-bits, set_has_caught-bits}

module _ {B : Type 0} (n : Native B) where
  -- What holds between operations: what was caught was seen, and a list that is not marked as dirty is
  -- the one that would be made anew.
  pub record IsValid (d : Pokedex B) : Type 0 where
    pub caught_seen : (i : ℕ) → n.owned d.native i ≡ true → n.seen d.native i ≡ true
    pub seen_fresh :
        d.dirty_seen ≡ false → d.all_seen ≡ update_member_vector (n.seen d.native) 1 d.num_pokemon
    pub caught_fresh :
        d.dirty_caught ≡ false
        → d.all_caught ≡ update_member_vector (n.owned d.native) 1 d.num_pokemon

  module _ (bits : IsBits n) where
    set_has_seen-dirty :
        (depth species : ℕ) (value : Bool) (d : Pokedex B)
        → let after = set_has_seen n (suc (suc depth)) species value d in
          (after.dirty_seen ≡ true)
          × (after.num_pokemon ≡ d.num_pokemon)
          × (after.all_caught ≡ d.all_caught)
          × ((after.dirty_caught ≡ true)
              ⊎ ((after.dirty_caught ≡ d.dirty_caught)
                  × (after.native ≡ n.set_seen d.native (species % 65536) value)))
    unfolding set_has_seen set_has_caught
    set_has_seen-dirty depth species value d = ground arith

    set_has_caught-dirty :
        (depth species : ℕ) (value : Bool) (d : Pokedex B)
        → let after = set_has_caught n (suc (suc depth)) species value d in
          (after.dirty_caught ≡ true)
          × (after.num_pokemon ≡ d.num_pokemon)
          × (after.all_seen ≡ d.all_seen)
          × ((after.dirty_seen ≡ true)
              ⊎ ((after.dirty_seen ≡ d.dirty_seen)
                  × (after.native ≡ n.set_owned d.native (species % 65536) value)))
    unfolding set_has_seen set_has_caught
    set_has_caught-dirty depth species value d = ground arith

    -- Lists are made from the bits alone.
    update_member_vector-ext :
        (p q : ℕ → Bool) (first count : ℕ)
        → ((i : ℕ) → p i ≡ q i)
        → update_member_vector p first count ≡ update_member_vector q first count
    update_member_vector-ext p q first count h =
        ap (λ f. update_member_vector f first count) (λ i x. h x i)

    -- With bit functions that read back what was set, and calls that may go at least two deep,
    -- `set_has_seen` keeps a valid Pokédex valid: what was caught was seen, and no list that is not
    -- marked as dirty is out of date.
    pub set_has_seen-IsValid :
        (depth species : ℕ) (value : Bool) (d : Pokedex B)
        → IsValid d
        → IsValid (set_has_seen n (suc (suc depth)) species value d)
    set_has_seen-IsValid depth species value d v =
        let (dirty, same, kept, cases) = set_has_seen-dirty depth species value d in
        record {
          caught_seen = λ i h.
              ground (arith, set_has_seen-bits n bits depth species value d i, v.caught_seen i);
          seen_fresh = λ e. absurd (ground arith);
          caught_fresh = λ e. elim cases [
            | inl x ↦ absurd (ground arith)
            | inr (x, y) ↦
                kept
                ∙ v.caught_fresh (sym x ∙ e)
                ∙ rw (same, y)
                    (update_member_vector-ext _ _ 1 d.num_pokemon
                      (λ i. sym (bits.owned-set_seen d.native (species % 65536) i value)))
          ];
        }

    -- With bit functions that read back what was set, and calls that may go at least two deep,
    -- `set_has_caught` keeps a valid Pokédex valid: what was caught was seen, and no list that is
    -- not marked as dirty is out of date.
    pub set_has_caught-IsValid :
        (depth species : ℕ) (value : Bool) (d : Pokedex B)
        → IsValid d
        → IsValid (set_has_caught n (suc (suc depth)) species value d)
    set_has_caught-IsValid depth species value d v =
        let (dirty, same, kept, cases) = set_has_caught-dirty depth species value d in
        record {
          caught_seen = λ i h.
              ground (arith, set_has_caught-bits n bits depth species value d i, v.caught_seen i);
          caught_fresh = λ e. absurd (ground arith);
          seen_fresh = λ e. elim cases [
            | inl x ↦ absurd (ground arith)
            | inr (x, y) ↦
                kept
                ∙ v.seen_fresh (sym x ∙ e)
                ∙ rw (same, y)
                    (update_member_vector-ext _ _ 1 d.num_pokemon
                      (λ i. sym (bits.seen-set_owned d.native (species % 65536) i value)))
          ];
        }

  fresh_lem :
      (p : ℕ → Bool) (num_pokemon species : ℕ)
      → species < 65536
      → does_vector_contain_value (update_member_vector p 1 num_pokemon) species
        ≡ (leb 1 species && leb species num_pokemon && p (species % 65536))
  fresh_lem p num_pokemon species h =
      let e : species % 65536 ≡ species = omega arith in
      rw e (ground (arith, update_member_vector_lem p 1 num_pokemon species))

  -- What every valid Pokédex answers, whether its lists are dirty or not: `get_all_seen` lists
  -- exactly the species from 1 to `_num_pokemon` that `has_seen`, in ascending order, `get_num_seen`
  -- says how many there are, and `get_all_seen` leaves the Pokédex valid.
  pub get_all_seen_lem :
      (d : Pokedex B) (species : ℕ)
      → IsValid d
      → species < 65536
      → (does_vector_contain_value (get_all_seen n d).0 species
          ≡ (leb 1 species && leb species d.num_pokemon && has_seen n species d))
        × Ascends 1 (get_all_seen n d).0
        × ((get_num_seen n d).0 ≡ length (get_all_seen n d).0)
        × IsValid (get_all_seen n d).1
  unfolding get_all_seen get_num_seen has_seen
  get_all_seen_lem d species v h =
      let listed = fresh_lem (n.seen d.native) d.num_pokemon species h in
      let ascends = update_member_vector-Ascends (n.seen d.native) 1 d.num_pokemon in
      elim (Bool-cases d.dirty_seen) [
        | inl e ↦ rw e (
          listed,
          ascends,
          refl,
          record {
            caught_seen = v.caught_seen;
            seen_fresh = λ x. refl;
            caught_fresh = λ x. v.caught_fresh x;
          },
        )
        | inr e ↦
            rw (e, v.seen_fresh e)
              (
                listed,
                ascends,
                refl,
                record {
                  caught_seen = v.caught_seen;
                  seen_fresh = λ x. refl;
                  caught_fresh = λ x. v.caught_fresh x;
                },
              )
      ]

  -- The same of what was caught: `get_all_caught` lists exactly the species from 1 to `_num_pokemon`
  -- that `has_caught`, in ascending order, `get_num_caught` says how many there are, and
  -- `get_all_caught` leaves the Pokédex valid.
  pub get_all_caught_lem :
      (d : Pokedex B) (species : ℕ)
      → IsValid d
      → species < 65536
      → (does_vector_contain_value (get_all_caught n d).0 species
          ≡ (leb 1 species && leb species d.num_pokemon && has_caught n species d))
        × Ascends 1 (get_all_caught n d).0
        × ((get_num_caught n d).0 ≡ length (get_all_caught n d).0)
        × IsValid (get_all_caught n d).1
  unfolding get_all_caught get_num_caught has_caught
  get_all_caught_lem d species v h =
      let listed = fresh_lem (n.owned d.native) d.num_pokemon species h in
      let ascends = update_member_vector-Ascends (n.owned d.native) 1 d.num_pokemon in
      elim (Bool-cases d.dirty_caught) [
        | inl e ↦ rw e (
          listed,
          ascends,
          refl,
          record {
            caught_seen = v.caught_seen;
            seen_fresh = λ x. v.seen_fresh x;
            caught_fresh = λ x. refl;
          },
        )
        | inr e ↦
            rw (e, v.caught_fresh e)
              (
                listed,
                ascends,
                refl,
                record {
                  caught_seen = v.caught_seen;
                  seen_fresh = λ x. v.seen_fresh x;
                  caught_fresh = λ x. refl;
                },
              )
      ]
