-- ===== src/Pokemon/Gen1/Setters.antt =====
-- The getters and setters of lib/pokemon_gen1impl.cpp.
use libpkmn.Common.{
  lookup, insert, ℕ, ◌+◌, ◌*◌, ◌%◌, bit_or, false, none, some, List, leb, ◌==◌, if◌then◌else◌,
  length, get_or, set, resize, ℤ, pos, pos_part,
}
use libpkmn.Common.Stateful.{Action, lift, get, modify, ◌>>=◌, ◌>>◌}
use libpkmn.Enforce.{
  StatLimits, enforce_bounds, enforce_value_in_vector, enforce_ev_bounds, enforce_iv_bounds,
  enforce_string_length, enforce_gb_trainer_id_bounds,
}
use libpkmn.Pokemon.Gen1.{
  Pksav, Entry, Gen1Pokemon, PcData, MoveSlot, gen1_stats, uint8, empty_move_slot, hp,
  populate_party_data, init_gb_iv_map, update_ev_map, get_pp, attack, update_stat_map, defense,
  speed,
}

-- `_update_moves(index)`, and `_update_moves(-1)`. A PP byte has the PP Ups in its two upper digits.
abbrev pub pp_mask : ℕ
pp_mask = 63

abbrev pub with_size : List MoveSlot → List MoveSlot
with_size = resize 4 empty_move_slot

unfoldable pub update_move : ℕ → Gen1Pokemon → Gen1Pokemon
update_move index p = record p {
  move_slots = set (with_size p.move_slots) index (record {
    move_id = get_or p.pc_data.moves index 0;
    pp = pos (get_or p.pc_data.move_pps index 0 % (pp_mask + 1));
  });
}

unfoldable pub update_moves : Gen1Pokemon → Gen1Pokemon
update_moves p = update_move 3 (update_move 2 (update_move 1 (update_move 0 p)))

-- The field that a stat's EV is kept in: any stat that is not named is the Special.
unfoldable pub write_ev : ℕ → ℕ → PcData → PcData
write_ev stat ev pc =
    if stat == hp
    then record pc { ev_hp = ev }
    else if stat == attack
    then record pc { ev_atk = ev }
    else if stat == defense
    then record pc { ev_def = ev }
    else if stat == speed
    then record pc { ev_spd = ev }
    else record pc { ev_spcl = ev }

module _ (k : Pksav) where
  unfoldable pub get_original_trainer_id : Gen1Pokemon → ℕ
  get_original_trainer_id p = k.bigendian16 p.pc_data.ot_id

  -- A `uint32_t`.
  unfoldable pub set_original_trainer_id : ℕ → Action Gen1Pokemon (Unit {0})
  set_original_trainer_id id = do
    lift (enforce_gb_trainer_id_bounds id)
    modify (λ p. record p { pc_data = record p.pc_data { ot_id = k.bigendian16 (id % 65536) } })

  unfoldable pub get_experience : Gen1Pokemon → ℤ
  get_experience p = pos (k.import_base256 p.pc_data.exp)

  unfoldable pub get_level : Gen1Pokemon → ℤ
  get_level p = pos p.party_data.level

  unfoldable pub get_current_hp : Gen1Pokemon → ℤ
  get_current_hp p = pos (k.bigendian16 p.pc_data.current_hp)

  unfoldable pub set_nickname : List ℕ → Action Gen1Pokemon (Unit {0})
  set_nickname nickname = do
    lift (enforce_string_length (length nickname) 1 k.nickname_length)
    modify (λ p. record p { nickname = nickname })

  unfoldable pub set_original_trainer_name : List ℕ → Action Gen1Pokemon (Unit {0})
  set_original_trainer_name trainer_name = do
    lift (enforce_string_length (length trainer_name) 1 k.otname_length)
    modify (λ p. record p { trainer_name = trainer_name })

  -- `_stats[HP]` puts 0 into the map if it has no HP.
  unfoldable pub set_current_hp : ℤ → Action Gen1Pokemon (Unit {0})
  set_current_hp new_hp = do
    p ← get
    let max_hp : ℤ = elim (lookup hp p.stats) [ some n ↦ n | none ↦ pos 0 ]
    modify (λ p. record p { stats = insert hp max_hp p.stats })
    lift (enforce_bounds new_hp (pos 0) max_hp)
    modify (λ p. record p {
      pc_data = record p.pc_data { current_hp = k.bigendian16 (pos_part new_hp % 65536) };
    })

module _ (l : StatLimits) (k : Pksav) (entry : Entry) where
  unfoldable pub set_level : ℤ → Action Gen1Pokemon (Unit {0})
  set_level level = do
    lift (enforce_bounds level (pos 2) (pos 100))
    modify (λ p. record p {
      pc_data = record p.pc_data { level = uint8 level };
      party_data = record p.party_data { level = uint8 level };
    })
    experience ← lift (entry.experience_at_level level)
    modify (λ p. record p {
      pc_data = record p.pc_data { exp = k.export_base256 (pos_part experience) };
    })
    populate_party_data l k entry
    modify (update_stat_map k)

  unfoldable pub set_experience : ℤ → Action Gen1Pokemon (Unit {0})
  set_experience experience = do
    max_experience ← lift (entry.experience_at_level (pos 100))
    lift (enforce_bounds experience (pos 0) max_experience)
    modify (λ p. record p {
      pc_data = record p.pc_data { exp = k.export_base256 (pos_part experience) };
    })
    level ← lift (entry.level_at_experience experience)
    modify (λ p. record p {
      pc_data = record p.pc_data { level = uint8 level };
      party_data = record p.party_data { level = uint8 level };
    })
    populate_party_data l k entry
    modify (update_stat_map k)

  -- `_set_gb_IV` of lib/pokemon_impl.cpp.
  unfoldable pub set_iv : ℕ → ℤ → Action Gen1Pokemon (Unit {0})
  set_iv stat value = do
    lift (enforce_value_in_vector stat gen1_stats)
    lift (enforce_iv_bounds l value false)
    modify (λ p. record p {
      pc_data = record p.pc_data { iv_data = k.set_gb_iv stat (uint8 value) p.pc_data.iv_data };
    })
    modify (init_gb_iv_map k)
    populate_party_data l k entry

  unfoldable pub set_ev : ℕ → ℤ → Action Gen1Pokemon (Unit {0})
  set_ev stat value = do
    lift (enforce_value_in_vector stat gen1_stats)
    lift (enforce_ev_bounds l value false)
    modify (λ p. record p {
      pc_data = write_ev stat (k.bigendian16 (pos_part value % 65536)) p.pc_data;
    })
    modify (update_ev_map k)
    populate_party_data l k entry

-- The least number of PP Ups, from 0 to 3, that allows the PP.
unfoldable pub needed_pp_ups : ℕ → ℕ → ℕ
needed_pp_ups base_pp pp =
    if leb pp (get_pp base_pp 0)
    then 0
    else if leb pp (get_pp base_pp 1)
    then 1
    else if leb pp (get_pp base_pp 2)
    then 2
    else 3

-- The PP byte: `uint8_t(pp)`, and then `|= num_PP_ups << 6`.
unfoldable pub pp_byte : ℕ → ℕ → ℕ
pp_byte base_pp pp = bit_or (pp % 256) (needed_pp_ups base_pp pp * 64)

module _ (entry : Entry) where
  -- NONE is a move of every game, with 0 PP.
  unfoldable pub set_move : ℕ → ℤ → Action Gen1Pokemon (Unit {0})
  set_move move index = do
    lift (enforce_bounds index (pos 0) (pos 3))
    base_pp ← lift (entry.move_pp move)
    let i = pos_part index
    modify (λ p. record p {
      move_slots = set p.move_slots i (record { move_id = move; pp = pos (get_pp base_pp 0) });
      pc_data = record p.pc_data {
        moves = set p.pc_data.moves i (move % 256);
        move_pps = set p.pc_data.move_pps i (get_pp base_pp 0 % 256);
      };
    })

  unfoldable pub set_move_pp : ℤ → ℤ → Action Gen1Pokemon (Unit {0})
  set_move_pp index pp = do
    lift (enforce_bounds index (pos 0) (pos 3))
    p ← get
    let i = pos_part index
    let slot = get_or p.move_slots i empty_move_slot
    base_pp ← lift (entry.move_pp slot.move_id)
    lift (enforce_bounds pp (pos 0) (pos (get_pp base_pp 3)))
    modify (λ p. record p {
      move_slots = set p.move_slots i (record { move_id = slot.move_id; pp = pp });
      pc_data = record p.pc_data {
        move_pps = set p.pc_data.move_pps i (pp_byte base_pp (pos_part pp));
      };
    })
