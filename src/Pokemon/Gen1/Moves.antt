-- ===== src/Pokemon/Gen1/Moves.antt =====
-- Moves and PP in lib/pokemon_gen1impl.cpp.
use libpkmn.Common.{
  bit_or-halves, power_suc, ℕ, zero, suc, ◌+◌, ◌*◌, ◌/◌, ◌%◌, ◌^◌, ◌≤◌, ◌<◌, max, bit_or, ◌≡◌, refl,
  sym, ap, ◌∙◌, subst, ◌⊎◌, inl, inr, Bool, true, false, List, arith, ◌==◌, if◌then◌else◌, ==→≡,
  Bool-cases, length, get_or, length-set, get_or-set, ℤ, pos, pos_part, out_of_range, ok, throw,
}
use Prim.Native.Nat.{bit_or-bitwise}
use libpkmn.Pokemon.Gen1.{Gen1Pokemon, get_pp, empty_move_slot, MoveSlot, Entry}
use libpkmn.Pokemon.Gen1.Setters.{pp_byte, needed_pp_ups, pp_mask, set_move_pp, set_move}
use libpkmn.Enforce.Laws.{enforce_range_lem, enforce_bounds-ok}
use libpkmn.Pokemon.DefaultMoves.{MoveSlots, IsSlots}

-- The slots, the moves and the PP bytes are four each.
pub record HasFour (p : Gen1Pokemon) : Type 0 where
  pub four_slots : length p.move_slots ≡ 4
  pub four_moves : length p.pc_data.moves ≡ 4
  pub four_pps : length p.pc_data.move_pps ≡ 4

abbrev pub slot_at : Gen1Pokemon → ℕ → MoveSlot
slot_at p i = get_or p.move_slots i empty_move_slot

abbrev shift : ℕ → ℕ → ℕ
shift zero b = b
shift (suc n) b = shift n b * 2

bit_or-shift : (n a b : ℕ) → a < 2 ^ n → bit_or a (shift n b) ≡ a + shift n b
bit_or-shift zero a b h = let e : a ≡ 0 = omega arith in rw e (omega (arith, bit_or-bitwise 0 b))
bit_or-shift (suc n) a b h =
    let half : shift n b * 2 / 2 ≡ shift n b = omega arith in
    let step : bit_or a (shift n b * 2)
        ≡ bit_or (a / 2) (shift n b) * 2 + max (a % 2) (shift n b * 2 % 2) =
      subst (λ x. bit_or a (shift n b * 2) ≡ bit_or (a / 2) x * 2 + max (a % 2) (shift n b * 2 % 2))
        half (bit_or-halves a (shift n b * 2)) in
    omega (arith, step, bit_or-shift n (a / 2) b (omega (arith, power_suc n)))

-- The low six digits of a PP byte are the PP, its two high digits the PP Ups.
bit_or_high : (a b : ℕ) → a < 64 → bit_or a (b * 64) ≡ a + b * 64
bit_or_high a b h =
    let e : shift 6 b ≡ b * 64 = omega arith in
    subst (λ x. bit_or a x ≡ a + x) e (bit_or-shift 6 a b h)

needed_pp_ups_lem :
    (base_pp pp : ℕ)
    → pp ≤ get_pp base_pp 3
    → (needed_pp_ups base_pp pp ≤ 3) × (pp ≤ get_pp base_pp (needed_pp_ups base_pp pp))
unfolding needed_pp_ups get_pp
needed_pp_ups_lem base_pp pp h = ground arith

needed_pp_ups_least :
    (base_pp pp ups : ℕ) → pp ≤ get_pp base_pp ups → ups ≤ 3 → needed_pp_ups base_pp pp ≤ ups
unfolding needed_pp_ups get_pp
needed_pp_ups_least base_pp pp zero h k = ground arith
needed_pp_ups_least base_pp pp (suc zero) h k = ground arith
needed_pp_ups_least base_pp pp (suc (suc zero)) h k = ground arith
needed_pp_ups_least base_pp pp (suc (suc (suc ups))) h k = ground arith

-- Where a move has at most 63 PP with three PP Ups, the byte of any PP up to these has the PP in
-- its low six digits, and above them the least number of PP Ups that allows it.
pub pp_byte_lem :
    (base_pp pp : ℕ)
    → get_pp base_pp 3 ≤ pp_mask
    → pp ≤ get_pp base_pp 3
    → (pp_byte base_pp pp % 64 ≡ pp)
      × (pp ≤ get_pp base_pp (pp_byte base_pp pp / 64))
      × ((ups : ℕ) → pp ≤ get_pp base_pp ups → ups ≤ 3 → pp_byte base_pp pp / 64 ≤ ups)
      × (pp_byte base_pp pp < 256)
unfolding pp_byte
pp_byte_lem base_pp pp small h =
    let ups = needed_pp_ups base_pp pp in
    let (few, enough) = needed_pp_ups_lem base_pp pp h in
    let low : pp % 256 ≡ pp = omega arith in
    let byte : bit_or (pp % 256) (ups * 64) ≡ pp + ups * 64 =
      rw low (bit_or_high pp ups (omega arith)) in
    let high : (pp + ups * 64) / 64 ≡ ups = omega arith in
    rw (byte, high)
      (omega arith, enough, λ other a b. needed_pp_ups_least base_pp pp other a b, omega arith)

-- Each slot says what the save format says of it.
unfoldable pub IsMirrored : Gen1Pokemon → Type 0
IsMirrored p =
    (i : ℕ)
    → i < 4
    → (slot_at p i).move_id ≡ get_or p.pc_data.moves i 0
      × ((slot_at p i).pp ≡ pos (get_or p.pc_data.move_pps i 0 % 64))

-- A write to one slot, in the three lists.
written-IsMirrored :
    (p p' : Gen1Pokemon) (i m byte : ℕ) (pp : ℤ)
    → ((j : ℕ) → slot_at p' j ≡ (if j == i then record { move_id = m; pp = pp } else slot_at p j))
    → ((j : ℕ) → get_or p'.pc_data.moves j 0 ≡ (if j == i then m else get_or p.pc_data.moves j 0))
    → ((j : ℕ)
        → get_or p'.pc_data.move_pps j 0 ≡ (if j == i then byte else get_or p.pc_data.move_pps j 0))
    → pp ≡ pos (byte % 64)
    → IsMirrored p
    → IsMirrored p'
unfolding IsMirrored
written-IsMirrored p p' i m byte pp slots moves pps e h j k =
    rw (slots j, moves j, pps j) (ground (arith, h j k))

move_of_slot :
    (p : Gen1Pokemon) (i : ℕ)
    → IsMirrored p
    → i < 4
    → (slot_at p i).move_id ≡ get_or p.pc_data.moves i 0
unfolding IsMirrored
move_of_slot p i h k = (h i k).0

same_at :
    (xs : List ℕ) (i j x : ℕ)
    → x ≡ get_or xs i 0
    → get_or xs j 0 ≡ (if j == i then x else get_or xs j 0)
same_at xs i j x e = elim (Bool-cases (j == i)) [
  | inl here ↦ rw (here, e, ==→≡ j i here) refl
  | inr there ↦ rw there refl
]

module _ (entry : Entry) where
  -- On a Pokémon whose slots say what the save format says, with moves of its game that have at
  -- most 63 PP with three PP Ups: `set_move_pp` either returns, with an index from 0 to 3, keeps
  -- the slots in step with the save format, and changes the PP of this slot alone, or throws
  -- `std::out_of_range` and changes nothing.
  pub set_move_pp-IsMirrored :
      (index pp : ℤ) (p : Gen1Pokemon)
      → HasFour p
      → IsMirrored p
      → ((i : ℕ)
          → i < 4
          → (base_pp : ℕ) × (entry.move_pp (slot_at p i).move_id ≡ ok base_pp)
            × (get_pp base_pp 3 ≤ pp_mask))
      → let (r, p') = set_move_pp entry index pp p in
        ((r ≡ ok tt)
          × (pos_part index < 4)
          × IsMirrored p'
          × HasFour p'
          × ((i : ℕ)
              → i < 4
              → slot_at p' i ≡ (
                  if i == pos_part index
                  then record { move_id = (slot_at p (pos_part index)).move_id; pp = pp }
                  else slot_at p i)))
        ⊎ ((r ≡ throw out_of_range) × (p' ≡ p))
  unfolding set_move_pp
  set_move_pp-IsMirrored index pp p four mirrored known = elim (enforce_range_lem index 0 3) [
    | inr (refused, _) ↦ rw refused (inr (refl, refl))
    | inl (passed, natural, _, most, _, _) ↦
        let i = pos_part index in
        let (base_pp, found, small) = known i (omega arith) in
        elim (enforce_range_lem pp 0 (get_pp base_pp 3)) [
          | inr (refused, _) ↦ rw (passed, found, refused) (inr (refl, refl))
          | inl (allowed, natural_pp, _, few, _, _) ↦
              let byte = pp_byte base_pp (pos_part pp) in
              let (read_back, _, _, _) = pp_byte_lem base_pp (pos_part pp) small few in
              let slots = λ (j : ℕ).
                get_or-set p.move_slots i j (record { move_id = (slot_at p i).move_id; pp = pp })
                  empty_move_slot (omega (arith, four.four_slots)) in
              let moves = λ (j : ℕ).
                same_at p.pc_data.moves i j (slot_at p i).move_id
                  (move_of_slot p i mirrored (omega arith)) in
              let pps = λ (j : ℕ).
                get_or-set p.pc_data.move_pps i j byte 0 (omega (arith, four.four_pps)) in
              let e : pp ≡ pos (byte % 64) = natural_pp ∙ ap pos (sym read_back) in
              rw (passed, found, allowed)
                (inl (
                  refl,
                  omega arith,
                  written-IsMirrored p _ i (slot_at p i).move_id byte pp slots moves pps e mirrored,
                  record {
                    four_slots = length-set p.move_slots i _ ∙ four.four_slots;
                    four_moves = four.four_moves;
                    four_pps = length-set p.pc_data.move_pps i _ ∙ four.four_pps;
                  },
                  λ j k. slots j,
                ))
        ]
  ]

  set_move_lem :
      (move i base_pp : ℕ) (p : Gen1Pokemon)
      → HasFour p
      → IsMirrored p
      → i < 4
      → move < 256
      → entry.move_pp move ≡ ok base_pp
      → base_pp ≤ pp_mask
      → let (r, p') = set_move entry move (pos i) p in
        (r ≡ ok tt)
        × HasFour p'
        × IsMirrored p'
        × ((j : ℕ)
            → slot_at p' j
              ≡ (if j == i then record { move_id = move; pp = pos base_pp } else slot_at p j))
  unfolding set_move get_pp
  set_move_lem move i base_pp p four mirrored h small_move found small =
      let passed = enforce_bounds-ok (pos i) (pos 0) (pos 3) (omega arith) (omega arith) in
      let whole : move % 256 ≡ move = omega arith in
      let whole_pp : base_pp % 256 ≡ base_pp = omega arith in
      let low : base_pp % 64 ≡ base_pp = omega arith in
      let slots = λ (j : ℕ).
        get_or-set p.move_slots i j (record { move_id = move; pp = pos base_pp }) empty_move_slot
          (omega (arith, four.four_slots)) in
      let moves =
        λ (j : ℕ). get_or-set p.pc_data.moves i j move 0 (omega (arith, four.four_moves)) in
      let pps =
        λ (j : ℕ). get_or-set p.pc_data.move_pps i j base_pp 0 (omega (arith, four.four_pps)) in
      rw (passed, found, whole, whole_pp)
        (
          refl,
          record {
            four_slots = length-set p.move_slots i _ ∙ four.four_slots;
            four_moves = length-set p.pc_data.moves i _ ∙ four.four_moves;
            four_pps = length-set p.pc_data.move_pps i _ ∙ four.four_pps;
          },
          written-IsMirrored p _ i move base_pp (pos base_pp) slots moves pps (sym (ap pos low))
              mirrored,
          slots,
        )

  -- The class, as `_init_default_moves_for_level` uses it.
  unfoldable pub gen1_slots : MoveSlots Gen1Pokemon
  gen1_slots = record {
    set_slot = λ p move i.
        let (r, p') = set_move entry move (pos i) p in elim r [ ok _ ↦ ok p' | throw e ↦ throw e ];
    move_at = λ p i. (slot_at p i).move_id;
  }

  abbrev pub IsGen1Move : ℕ → Type 0
  IsGen1Move move =
      (move < 256) × ((base_pp : ℕ) × (entry.move_pp move ≡ ok base_pp) × (base_pp ≤ pp_mask))

  move_of_if :
      (c : Bool) (move : ℕ) (pp : ℤ) (s : MoveSlot)
      → (if c then record { move_id = move; pp = pp } else s).move_id
        ≡ (if c then move else s.move_id)
  move_of_if true move pp s = refl
  move_of_if false move pp s = refl

  -- `set_move` of the first generation is what `_init_default_moves_for_level` relies on: with a
  -- move of the game and an index below 4, on a Pokémon whose slots say what the save format
  -- says, it returns, writes this slot alone, and keeps the slots in step with the save format.
  pub gen1_slots-IsSlots : IsSlots gen1_slots IsGen1Move (λ p. HasFour p × IsMirrored p)
  unfolding gen1_slots
  gen1_slots-IsSlots = record {
    set_slot_lem = λ p move i (small_move, (base_pp, found, small)) h (four, mirrored).
        let (done, four', mirrored', slots) =
          set_move_lem move i base_pp p four mirrored h small_move found small in
        (
          (set_move entry move (pos i) p).1,
          ap (λ r. elim r [ ok _ ↦ ok (set_move entry move (pos i) p).1 | throw e ↦ throw e ]) done,
          (four', mirrored'),
          λ j k.
              ap (λ s. s.move_id) (slots j) ∙ move_of_if (j == i) move (pos base_pp) (slot_at p j),
        );
  }
