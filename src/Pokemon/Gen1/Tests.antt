-- ===== src/Pokemon/Gen1/Tests.antt =====
-- A Pokémon of the first generation at concrete inputs. The IVs are five digits to the base 16, and the
-- experience of a level is a thousand times the level.
use libpkmn.Common.{
  ℕ, zero, suc, ◌+◌, ◌*◌, ◌/◌, ◌%◌, ◌≤◌, ◌<◌, min, ◌≡◌, refl, ap, ◌≢◌, ◌⊎◌, [], ◌∷◌, arith, ◌==◌,
  if◌then◌else◌, ℤ, pos, pos_part, ◌≤ℤ◌, out_of_range, invalid_argument, ok, throw,
}
use libpkmn.Enforce.{StatLimits, IsDocumented}
use libpkmn.Pokemon.Gen1.{
  Pksav, Entry, Gen1Pokemon, init_gb_iv_map, update_ev_map, zero_party_data, get_pp,
}
use libpkmn.Pokemon.Gen1.Laws.{
  IsPksav, IsGen1Stat, native_ev, update_ev_map_lem, init_gb_iv_map_lem,
}
use libpkmn.Pokemon.Gen1.Stats.{HasWords, populated}
use libpkmn.Pokemon.Gen1.Invariant.{IsEntry, IsFresh, populated-IsFresh, set_ev-IsFresh}
use libpkmn.Pokemon.Gen1.Levels.{set_level-IsFresh, set_experience-IsFresh}
use libpkmn.Pokemon.Gen1.Setters.{
  set_ev, set_level, set_experience, get_level, get_experience, pp_mask, set_move_pp, pp_byte,
  needed_pp_ups,
}
use libpkmn.Pokemon.Gen1.Moves.{HasFour, IsMirrored, slot_at, set_move_pp-IsMirrored}

abbrev limits : StatLimits
limits = record {
  min_gb_ev = pos 0;
  max_gb_ev = pos 65535;
  min_gb_iv = pos 0;
  max_gb_iv = pos 15;
  min_ev = pos 0;
  max_ev = pos 255;
  min_iv = pos 0;
  max_iv = pos 31;
}

limits-IsDocumented : IsDocumented limits
limits-IsDocumented = record {
  gb_ev_range = (refl, refl);
  gb_iv_range = (refl, refl);
  ev_range = (refl, refl);
  iv_range = (refl, refl);
}

abbrev digit : ℕ → ℕ → ℕ
digit n zero = n % 16
digit n (suc i) = digit (n / 16) i

abbrev set_digit : ℕ → ℕ → ℕ → ℕ
set_digit zero v n = n / 16 * 16 + v % 16
set_digit (suc i) v n = set_digit i v (n / 16) * 16 + n % 16

digit_bound : (n i : ℕ) → digit n i ≤ 15
digit_bound n zero = omega arith
digit_bound n (suc i) = digit_bound (n / 16) i

digit-set_digit : (n i v : ℕ) → v ≤ 15 → digit (set_digit i v n) i ≡ v
digit-set_digit n zero v h = omega arith
digit-set_digit n (suc i) v h =
    let e : (set_digit i v (n / 16) * 16 + n % 16) / 16 ≡ set_digit i v (n / 16) = omega arith in
    rw e (digit-set_digit (n / 16) i v h)

digit-set_digit_ne : (n i j v : ℕ) → j ≢ i → digit (set_digit i v n) j ≡ digit n j
digit-set_digit_ne n zero zero v ne = absurd (ne refl)
digit-set_digit_ne n zero (suc j) v ne =
    let e : (n / 16 * 16 + v % 16) / 16 ≡ n / 16 = omega arith in rw e refl
digit-set_digit_ne n (suc i) zero v ne = omega arith
digit-set_digit_ne n (suc i) (suc j) v ne =
    let e : (set_digit i v (n / 16) * 16 + n % 16) / 16 ≡ set_digit i v (n / 16) = omega arith in
    rw e (digit-set_digit_ne (n / 16) i j v (λ same. ne (ap suc same)))

abbrev swap16 : ℕ → ℕ
swap16 n = n % 256 * 256 + n / 256

abbrev bytes : Pksav
bytes = record {
  bigendian16 = swap16;
  import_base256 = λ n. n;
  export_base256 = λ n. n;
  gb_iv = digit;
  set_gb_iv = set_digit;
  nickname_length = 10;
  otname_length = 7;
}

bytes-IsPksav : IsPksav bytes
bytes-IsPksav = record {
  bigendian16-bigendian16 = λ n h. omega arith;
  bigendian16_bound = λ n h. omega arith;
  import-export = λ n h. refl;
  gb_iv_bound = digit_bound;
  gb_iv-set_gb_iv = λ d stat value h. digit-set_digit d stat value h;
  gb_iv-set_gb_iv_ne = λ d stat other value a b c h. digit-set_digit_ne d stat other value c;
}

abbrev up_to_100 : ℤ → ℕ
up_to_100 n = min (pos_part n) 100

abbrev slow : Entry
slow = record {
  base_stat = λ stat. 45;
  experience_at_level = λ level. ok (pos (up_to_100 level * 1000));
  level_at_experience = λ n. ok (pos (min (pos_part n / 1000) 100));
  move_pp = λ move. ok 35;
}

slow-IsEntry : IsEntry slow
slow-IsEntry = record {
  base_byte = λ stat. omega arith;
  experience = λ n. min n 100 * 1000;
  level = λ n. min (n / 1000) 100;
  experience_small = λ n. omega arith;
  level_small = λ n. omega arith;
  experience_known = λ n h. refl;
  level_known = λ n h. refl;
  level-experience = λ n a b. omega arith;
}

abbrev raw : Gen1Pokemon
raw = record {
  pc_data = record {
    species = 153;
    current_hp = 0;
    level = 5;
    moves = 33 ∷ 45 ∷ 0 ∷ 0 ∷ [];
    ot_id = 0;
    exp = 5000;
    ev_hp = 0;
    ev_atk = 0;
    ev_def = 0;
    ev_spd = 0;
    ev_spcl = 0;
    iv_data = 305419896;
    move_pps = 35 ∷ 35 ∷ 0 ∷ 0 ∷ [];
  };
  party_data = zero_party_data;
  nickname = [];
  trainer_name = [];
  move_slots =
      record { move_id = 33; pp = pos 35 }
      ∷ record { move_id = 45; pp = pos 35 }
      ∷ record { move_id = 0; pp = pos 0 }
      ∷ record { move_id = 0; pp = pos 0 }
      ∷ [];
  evs = [];
  ivs = [];
  stats = [];
}

raw-HasWords : HasWords raw.pc_data
raw-HasWords = record {
  hp_word = omega arith;
  atk_word = omega arith;
  def_word = omega arith;
  spd_word = omega arith;
  spcl_word = omega arith;
}

-- The Pokémon that the constructor makes of the data.
abbrev starter : Gen1Pokemon
starter =
    populated limits bytes slow limits-IsDocumented bytes-IsPksav
      (init_gb_iv_map bytes (update_ev_map bytes raw)) 5

starter-IsFresh : IsFresh bytes slow starter
unfolding init_gb_iv_map update_ev_map
starter-IsFresh =
    populated-IsFresh limits bytes slow limits-IsDocumented bytes-IsPksav slow-IsEntry
      (init_gb_iv_map bytes (update_ev_map bytes raw)) 5 (update_ev_map_lem bytes raw)
      (init_gb_iv_map_lem bytes (update_ev_map bytes raw)) raw-HasWords refl (omega arith)

set_ev-IsFresh_example :
    let (r, p') = set_ev limits bytes slow 5 (pos 1000) starter in
    ((r ≡ ok tt)
      × IsGen1Stat bytes 5
      × (pos 0 ≤ℤ (pos 1000))
      × ((pos 1000) ≤ℤ pos 65535)
      × IsFresh bytes slow p'
      × (p'.party_data.level ≡ starter.party_data.level)
      × ((other : ℕ)
          → IsGen1Stat bytes other
          → native_ev bytes p'.pc_data other
            ≡ (if other == 5 then pos_part (pos 1000) else native_ev bytes starter.pc_data other)))
    ⊎ ((r ≡ throw invalid_argument) × (p' ≡ starter) × ¬ IsGen1Stat bytes 5)
    ⊎ ((r ≡ throw out_of_range)
        × (p' ≡ starter)
        × ¬ ((pos 0 ≤ℤ (pos 1000)) × ((pos 1000) ≤ℤ pos 65535)))
set_ev-IsFresh_example =
    set_ev-IsFresh limits bytes slow limits-IsDocumented bytes-IsPksav slow-IsEntry 5 (pos 1000)
      starter starter-IsFresh

set_level-IsFresh_example :
    let (r, p') = set_level limits bytes slow (pos 42) starter in
    ((r ≡ ok tt)
      × (pos 2 ≤ℤ (pos 42))
      × ((pos 42) ≤ℤ pos 100)
      × IsFresh bytes slow p'
      × (get_level bytes p' ≡ (pos 42))
      × (get_experience bytes p' ≡ pos (slow-IsEntry.experience (pos_part (pos 42)))))
    ⊎ ((r ≡ throw out_of_range) × (p' ≡ starter) × ¬ ((pos 2 ≤ℤ (pos 42)) × ((pos 42) ≤ℤ pos 100)))
set_level-IsFresh_example =
    set_level-IsFresh limits bytes slow limits-IsDocumented bytes-IsPksav slow-IsEntry (pos 42)
      starter starter-IsFresh

set_experience-IsFresh_example :
    let (r, p') = set_experience limits bytes slow (pos 7500) starter in
    ((r ≡ ok tt)
      × (pos 0 ≤ℤ (pos 7500))
      × ((pos 7500) ≤ℤ pos (slow-IsEntry.experience 100))
      × IsFresh bytes slow p'
      × (get_experience bytes p' ≡ (pos 7500))
      × (get_level bytes p' ≡ pos (slow-IsEntry.level (pos_part (pos 7500)))))
    ⊎ ((r ≡ throw out_of_range)
        × (p' ≡ starter)
        × ¬ ((pos 0 ≤ℤ (pos 7500)) × ((pos 7500) ≤ℤ pos (slow-IsEntry.experience 100))))
set_experience-IsFresh_example =
    set_experience-IsFresh limits bytes slow limits-IsDocumented bytes-IsPksav slow-IsEntry
      (pos 7500) starter starter-IsFresh

raw-HasFour : HasFour raw
raw-HasFour = record { four_slots = refl; four_moves = refl; four_pps = refl }

raw-IsMirrored : IsMirrored raw
unfolding IsMirrored
raw-IsMirrored zero h = (refl, refl)
raw-IsMirrored (suc zero) h = (refl, refl)
raw-IsMirrored (suc (suc zero)) h = (refl, refl)
raw-IsMirrored (suc (suc (suc zero))) h = (refl, refl)
raw-IsMirrored (suc (suc (suc (suc i)))) h = absurd (omega arith)

few_pps : get_pp 35 3 ≤ pp_mask
unfolding get_pp
few_pps = omega arith

set_move_pp-IsMirrored_example :
    let (r, p') = set_move_pp slow (pos 1) (pos 50) raw in
    ((r ≡ ok tt)
      × (pos_part (pos 1) < 4)
      × IsMirrored p'
      × HasFour p'
      × ((i : ℕ)
          → i < 4
          → slot_at p' i ≡ (
              if i == pos_part (pos 1)
              then record { move_id = (slot_at raw (pos_part (pos 1))).move_id; pp = pos 50 }
              else slot_at raw i)))
    ⊎ ((r ≡ throw out_of_range) × (p' ≡ raw))
set_move_pp-IsMirrored_example =
    set_move_pp-IsMirrored slow (pos 1) (pos 50) raw raw-HasFour raw-IsMirrored
      (λ i h. (35, refl, few_pps))

-- Of 64 PP, which a move of 40 PP has with three PP Ups, the byte keeps none.
pp_64 : get_pp 40 3 ≡ 64
unfolding get_pp
pp_64 = refl

pp_64_lost : (pp_byte 40 64 ≡ 192) × (192 % 64 ≡ 0)
unfolding pp_byte needed_pp_ups get_pp
pp_64_lost = (refl, refl)
