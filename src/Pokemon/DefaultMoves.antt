-- ===== src/Pokemon/DefaultMoves.antt =====
-- `_init_default_moves_for_level` of lib/pokemon_impl.cpp, for any class of Pokémon: it asks the class
-- to `set_move`, which `MoveSlots` stands for.
use libpkmn.Common.{
  ℕ, zero, suc, ◌+◌, ◌-◌, ◌≤◌, ◌<◌, ◌≡◌, refl, ◌≢◌, inl, inr, true, ◌&&◌, List, [], ◌∷◌, arith, ltb,
  leb, ◌==◌, if◌then◌else◌, Bool-cases, length, assertion_failed, Result, ok, guard, ◌>>=◌, ◌>>◌,
}

-- A Pokémon, as this code sees it. `move_at` is `_moves[i].move_id`.
pub record MoveSlots (P : Type 0) : Type 0 where
  pub set_slot : P → ℕ → ℕ → Result P
  pub move_at : P → ℕ → ℕ

-- `IsMove` holds of the moves that the Pokémon's game has, NONE included, and `IsValid` of its own state.
pub record IsSlots {P : Type 0} (slots : MoveSlots P) (IsMove : ℕ → Type 0) (IsValid : P → Type 0)
    : Type 0 where
  pub set_slot_lem :
      (p : P) (move i : ℕ)
      → IsMove move
      → i < 4
      → IsValid p
      → (p' : P) × (slots.set_slot p move i ≡ ok p')
        × IsValid p'
        × ((j : ℕ) → j < 4 → slots.move_at p' j ≡ (if j == i then move else slots.move_at p j))

pub record LevelupMove : Type 0 where
  pub move_id : ℕ
  pub level : ℕ

abbrev pub none_move : ℕ
none_move = 0

-- The place of the first move of a higher level, or the end.
unfoldable pub find_later : ℕ → List LevelupMove → ℕ
find_later level [] = 0
find_later level (m ∷ moves) =
    let rest = find_later level moves in if ltb level m.level then 0 else suc rest

-- `levelup_moves[i].move_id`.
unfoldable pub levelup_move_at : List LevelupMove → ℕ → ℕ
levelup_move_at [] i = none_move
levelup_move_at (m ∷ moves) zero = m.move_id
levelup_move_at (m ∷ moves) (suc i) = levelup_move_at moves i

abbrev pub first_level : List LevelupMove → ℕ
first_level [] = 0
first_level (m ∷ moves) = m.level

unfoldable pub first_and_last : ℕ → List LevelupMove → ℕ × ℕ
first_and_last level moves =
    let later = find_later level moves in
    let size = length moves in
    if later == size
    then ((if ltb 4 size then size - 4 else 0), size - 1)
    else ((if ltb 3 (later - 1) then later - 1 - 4 else 0), later - 1)

module _ {P : Type 0} (slots : MoveSlots P) where
  -- The first loop, which has n turns to go.
  unfoldable pub clear_moves : ℕ → ℕ → P → Result P
  clear_moves zero move_index p = ok p
  clear_moves (suc n) move_index p = do
    p' ← slots.set_slot p none_move move_index
    clear_moves n (suc move_index) p'

  -- The last loop, which has at most n turns to go.
  unfoldable pub set_levelup_moves : ℕ → ℕ → ℕ → ℕ → List LevelupMove → P → Result P
  set_levelup_moves zero move_index levelup_move_index last_move_index moves p = ok p
  set_levelup_moves (suc n) move_index levelup_move_index last_move_index moves p =
      let next : Result P = (do
        p' ← slots.set_slot p (levelup_move_at moves levelup_move_index) move_index
        set_levelup_moves n (suc move_index) (suc levelup_move_index) last_move_index moves p') in
      if leb levelup_move_index last_move_index then next else ok p

  unfoldable pub init_default_moves_for_level : ℕ → List LevelupMove → P → Result P
  init_default_moves_for_level level moves p = do
    cleared ← clear_moves 4 0 p
    if length moves == 0 then ok cleared else (do
      guard (leb (first_level moves) level) assertion_failed
      let (first, last) = first_and_last level moves
      set_levelup_moves 4 0 first last moves cleared)

-- Where the moves in the slots start: the source leaves out the newest move when later ones remain.
abbrev pub first_slot : ℕ → ℕ → ℕ
first_slot later size = later - (if later == size then 4 else 5)

find_later_bound : (level : ℕ) (moves : List LevelupMove) → find_later level moves ≤ length moves
unfolding find_later
find_later_bound level [] = omega arith
find_later_bound level (m ∷ moves) = ground (arith, find_later_bound level moves)

find_later_known :
    (level : ℕ) (moves : List LevelupMove)
    → length moves ≢ 0
    → first_level moves ≤ level
    → 0 < find_later level moves
unfolding find_later
find_later_known level [] h starts = absurd (h refl)
find_later_known level (m ∷ moves) h starts = ground arith

first_and_last_lem :
    (level : ℕ) (moves : List LevelupMove)
    → length moves ≢ 0
    → first_level moves ≤ level
    → let (first, last) = first_and_last level moves in
      (first ≡ first_slot (find_later level moves) (length moves))
      × (last + 1 ≡ find_later level moves)
unfolding first_and_last
first_and_last_lem level moves h starts =
    ground (arith, find_later_bound level moves, find_later_known level moves h starts)

module _ {P : Type 0} (slots : MoveSlots P) (IsMove : ℕ → Type 0) (IsValid : P → Type 0)
    (laws : IsSlots slots IsMove IsValid) where
  clear_moves_lem :
      (n i : ℕ) (p : P)
      → n + i ≡ 4
      → IsMove none_move
      → IsValid p
      → (p' : P) × (clear_moves slots n i p ≡ ok p')
        × IsValid p'
        × ((j : ℕ)
            → j < 4
            → slots.move_at p' j ≡ (if leb i j then none_move else slots.move_at p j))
  unfolding clear_moves
  clear_moves_lem zero i p h none_ok valid = (p, refl, valid, λ j k. ground arith)
  clear_moves_lem (suc n) i p h none_ok valid =
      let (p', done, valid', written) =
        laws.set_slot_lem p none_move i none_ok (omega arith) valid in
      let (p'', done', valid'', written') =
        clear_moves_lem n (suc i) p' (omega arith) none_ok valid' in
      (p'', rw (done, done') refl, valid'', λ j k. ground (arith, written j k, written' j k))

  -- The slot j after the turn for the slot i and the turns that follow it.
  shifted :
      (n i k last x y : ℕ) (moves : List LevelupMove) (p p' p'' : P) (j : ℕ)
      → (i < j → x ≡ y)
      → (i ≡ j → y ≡ k)
      → leb k last ≡ true
      → slots.move_at p' j ≡ (if j == i then levelup_move_at moves k else slots.move_at p j)
      → slots.move_at p'' j
        ≡ (if leb (suc i) j && leb x last then levelup_move_at moves x else slots.move_at p' j)
      → slots.move_at p'' j
        ≡ (if leb i j && leb y last then levelup_move_at moves y else slots.move_at p j)
  shifted n i k last x y moves p p' p'' j above here more written written' = ground arith

  set_levelup_moves_lem :
      (n i k last : ℕ) (moves : List LevelupMove) (p : P)
      → n + i ≡ 4
      → ((l : ℕ) → IsMove (levelup_move_at moves l))
      → IsValid p
      → (p' : P) × (set_levelup_moves slots n i k last moves p ≡ ok p')
        × IsValid p'
        × ((j : ℕ)
            → j < 4
            → slots.move_at p' j ≡ (
                if leb i j && leb (k + (j - i)) last
                then levelup_move_at moves (k + (j - i))
                else slots.move_at p j))
  unfolding set_levelup_moves
  set_levelup_moves_lem zero i k last moves p h ok_moves valid =
      (p, refl, valid, λ j l. ground arith)
  set_levelup_moves_lem (suc n) i k last moves p h ok_moves valid = elim (Bool-cases (leb k last)) [
    | inl more ↦
        let (p', done, valid', written) =
          laws.set_slot_lem p (levelup_move_at moves k) i (ok_moves k) (omega arith) valid in
        let (p'', done', valid'', written') =
          set_levelup_moves_lem n (suc i) (suc k) last moves p' (omega arith) ok_moves valid' in
        (
          p'',
          rw (more, done, done') refl,
          valid'',
          λ j l.
              shifted n i k last (suc k + (j - suc i)) (k + (j - i)) moves p p' p'' j
                (λ a. omega arith) (λ a. omega arith) more (written j l) (written' j l),
        )
    | inr over ↦ rw over (p, refl, valid, λ j l. ground arith)
  ]

  -- What the two loops leave in the slot j.
  last_slot :
      (first last later j d : ℕ) (moves : List LevelupMove) (p p' : P)
      → last + 1 ≡ later
      → j < 4
      → d ≡ j
      → slots.move_at p j ≡ none_move
      → slots.move_at p' j ≡ (
          if leb 0 j && leb (first + d) last
          then levelup_move_at moves (first + d)
          else slots.move_at p j)
      → slots.move_at p' j
        ≡ (if ltb (first + j) later then levelup_move_at moves (first + j) else none_move)
  last_slot first last later j d moves p p' to k same cleared written = ground arith

  -- With a `set_move` that works as a slot, and a first move that is not above the level,
  -- `_init_default_moves_for_level` returns, and the four slots hold the moves of the list from
  -- `first_slot` on that are not above the level, and NONE behind them. These are the last four
  -- if the list ends there; else the newest move is left out once there are five.
  pub init_default_moves_for_level_lem :
      (level : ℕ) (moves : List LevelupMove) (p : P)
      → IsValid p
      → IsMove none_move
      → ((l : ℕ) → IsMove (levelup_move_at moves l))
      → (length moves ≢ 0 → first_level moves ≤ level)
      → (p' : P) × (init_default_moves_for_level slots level moves p ≡ ok p')
        × IsValid p'
        × ((j : ℕ)
            → j < 4
            → let later = find_later level moves in
              let place = first_slot later (length moves) + j in
              slots.move_at p' j
              ≡ (if ltb place later then levelup_move_at moves place else none_move))
  unfolding init_default_moves_for_level
  init_default_moves_for_level_lem level moves p valid none_ok ok_moves starts =
      let (cleared, done, valid', written) = clear_moves_lem 4 0 p refl none_ok valid in
      let later = find_later level moves in
      let (first, last) = first_and_last level moves in
      let (set_up, done', valid'', written') =
        set_levelup_moves_lem 4 0 first last moves cleared refl ok_moves valid' in
      let bound = find_later_bound level moves in
      elim (Bool-cases (length moves == 0)) [
        | inl empty ↦ rw (done, empty) (cleared, refl, valid', λ j k. ground (arith, written j k))
        | inr some_moves ↦
            let h : length moves ≢ 0 = ground arith in
            let (from, to) = first_and_last_lem level moves h (starts h) in
            let allowed : leb (first_level moves) level ≡ true = ground (arith, starts h) in
            rw (done, some_moves, allowed, done')
              (
                set_up,
                refl,
                valid'',
                λ j k.
                    let none_left : slots.move_at cleared j ≡ none_move =
                      ground (arith, written j k) in
                    rw (← from) (
                      last_slot first last later j (j - 0) moves cleared set_up to k (omega arith)
                        none_left (written' j k)),
              )
      ]
