-- ===== src/Pokemon/Markings.antt =====
-- Markings: `_init_markings_map` and `_set_marking` of lib/pokemon_impl.cpp. The masks are pksav's,
-- each of one digit, which `MarkingBits` names. A marking is the number of its `e_marking`.
use libpkmn.Common.{
  Dict, lookup, insert, lookup-insert, has_key, set_bit, bit-set_bit, set_bit_bound, bit, ℕ, ◌≤◌,
  ◌<◌, ◌≡◌, refl, ◌≢◌, ◌⊎◌, inl, inr, Bool, true, none, some, [], arith, ltb, ◌==◌, if◌then◌else◌,
  ==_refl, invalid_argument, Result, ok, throw, guard, ◌>>◌,
}

pub record MarkingBits : Type 0 where
  pub circle_bit : ℕ
  pub triangle_bit : ℕ
  pub square_bit : ℕ
  pub heart_bit : ℕ
  pub star_bit : ℕ
  pub diamond_bit : ℕ

abbrev pub circle : ℕ
circle = 1

abbrev pub triangle : ℕ
triangle = 2

abbrev pub square : ℕ
square = 3

abbrev pub heart : ℕ
heart = 4

abbrev pub star : ℕ
star = 5

abbrev pub diamond : ℕ
diamond = 6

-- The byte of the save format, and `_markings`.
pub record Markings : Type 0 where
  pub native : ℕ
  pub markings : Dict Bool

module _ (b : MarkingBits) (generation : ℕ) where
  unfoldable pub init_markings_map : Markings → Markings
  init_markings_map m =
      let marked = λ (i : ℕ). bit m.native i == 1 in
      let m1 = insert circle (marked b.circle_bit) m.markings in
      let m2 = insert triangle (marked b.triangle_bit) m1 in
      let m3 = insert square (marked b.square_bit) m2 in
      let m4 = insert heart (marked b.heart_bit) m3 in
      let m5 = insert star (marked b.star_bit) m4 in
      record m {
        markings = if ltb 3 generation then insert diamond (marked b.diamond_bit) m5 else m4;
      }

  -- The macro `SET_MARKING`.
  unfoldable pub set_marking_if : ℕ → ℕ → ℕ → Bool → Markings → Markings
  set_marking_if map_key mask_bit marking value m =
      if marking == map_key
      then record {
        native = set_bit m.native mask_bit value;
        markings = insert marking value m.markings;
      }
      else m

  unfoldable pub set_marking : ℕ → Bool → Markings → Result Markings
  unfolding set_marking_if
  set_marking marking value m = do
    guard (has_key marking m.markings) invalid_argument
    let m1 = set_marking_if circle b.circle_bit marking value m
    let m2 = set_marking_if triangle b.triangle_bit marking value m1
    let m3 = set_marking_if square b.square_bit marking value m2
    let m4 = set_marking_if heart b.heart_bit marking value m3
    let m5 = set_marking_if star b.star_bit marking value m4
    ok (if ltb 3 generation then set_marking_if diamond b.diamond_bit marking value m5 else m4)

  -- The markings of the generation.
  unfoldable pub HasMarking : ℕ → Type 0
  HasMarking marking = (0 < marking) × (marking ≤ (if ltb 3 generation then 6 else 4))

  unfoldable pub bit_of : ℕ → ℕ
  bit_of marking =
      if marking == circle
      then b.circle_bit
      else if marking == triangle
      then b.triangle_bit
      else if marking == square
      then b.square_bit
      else if marking == heart
      then b.heart_bit
      else if marking == star
      then b.star_bit
      else b.diamond_bit

  -- `_markings` says of each marking of the generation what the byte says.
  pub record IsMirror (m : Markings) : Type 0 where
    pub mirrored :
        (marking : ℕ)
        → HasMarking marking
        → lookup marking m.markings ≡ some (bit m.native (bit_of marking) == 1)
    pub no_others : (marking : ℕ) → ¬ HasMarking marking → lookup marking m.markings ≡ none

  -- Each mask is another digit of the byte.
  pub record IsDistinct : Type 0 where
    pub distinct :
        (marking marking' : ℕ)
        → HasMarking marking
        → HasMarking marking'
        → marking ≢ marking'
        → bit_of marking ≢ bit_of marking'
    pub in_byte : (marking : ℕ) → HasMarking marking → bit_of marking < 8

module _ (b : MarkingBits) (generation : ℕ) where
  -- `_init_markings_map` fills an empty map with each marking of the generation, by its digit of
  -- the byte.
  pub init_markings_map-IsMirror :
      (native : ℕ)
      → IsMirror b generation
          (init_markings_map b generation (record { native = native; markings = [] }))
  unfolding init_markings_map lookup insert HasMarking bit_of
  init_markings_map-IsMirror native = record {
    mirrored = λ marking h. ground arith;
    no_others = λ marking h. ground arith;
  }

  set_bit-IsMirror :
      (marking : ℕ) (value : Bool) (m : Markings)
      → IsDistinct b generation
      → HasMarking b generation marking
      → IsMirror b generation m
      → IsMirror b generation (record {
        native = set_bit m.native (bit_of b generation marking) value;
        markings = insert marking value m.markings;
      })
  set_bit-IsMirror marking value m d has h = record {
    mirrored = λ other has_other. ground (
      arith,
      h.mirrored other has_other,
      d.distinct other marking has_other has,
      lookup-insert other marking value m.markings,
      bit-set_bit m.native (bit_of b generation marking) (bit_of b generation other) value,
    );
    no_others = λ other absent.
        ground (arith, h.no_others other absent, lookup-insert other marking value m.markings);
  }

  -- Of the macro's uses, the one for the marking acts.
  set_marking-hit :
      (marking : ℕ) (value : Bool) (m : Markings)
      → HasMarking b generation marking
      → has_key marking m.markings ≡ true
      → set_marking b generation marking value m
        ≡ ok (set_marking_if b generation marking (bit_of b generation marking) marking value m)
  unfolding set_marking set_marking_if HasMarking bit_of
  set_marking-hit marking value m has key = rw key (ground arith)

  HasMarking-cases :
      (marking : ℕ) → HasMarking b generation marking ⊎ (¬ HasMarking b generation marking)
  unfolding HasMarking
  HasMarking-cases marking = ground arith

  -- With masks of different digits of the byte, and a map that says of each marking of the
  -- generation what the byte says: `_set_marking` of such a marking returns, keeps the two in
  -- step and the byte a byte, and the map then has the new value for the marking and the old ones
  -- for all others. For another marking it throws `std::invalid_argument`.
  pub set_marking-IsMirror :
      (marking : ℕ) (value : Bool) (m : Markings)
      → IsDistinct b generation
      → IsMirror b generation m
      → m.native < 256
      → ((m' : Markings) × (set_marking b generation marking value m ≡ ok m')
          × HasMarking b generation marking
          × IsMirror b generation m'
          × (m'.native < 256)
          × ((other : ℕ)
              → lookup other m'.markings
                ≡ (if other == marking then some value else lookup other m.markings)))
        ⊎ ((set_marking b generation marking value m ≡ throw invalid_argument)
            × ¬ HasMarking b generation marking)
  unfolding set_marking set_marking_if
  set_marking-IsMirror marking value m d h bound = elim (HasMarking-cases marking) [
    | inl has ↦
        let key : has_key marking m.markings ≡ true = rw (has_key, h.mirrored marking has) refl in
        rw (set_marking-hit marking value m has key, ==_refl marking)
          (inl (
            _,
            refl,
            has,
            set_bit-IsMirror marking value m d has h,
            set_bit_bound m.native (bit_of b generation marking) 8 value (d.in_byte marking has)
                bound,
            λ other. lookup-insert other marking value m.markings,
          ))
    | inr absent ↦ rw (has_key, h.no_others marking absent) (inr (refl, absent))
  ]
