-- ===== src/Pokemon/Gen1.antt =====
-- First-generation Pokémon: lib/pokemon_gen1impl.cpp, and `gen1_pc_pokemon_to_party_data` of
-- lib/pksav/party_data.cpp. The record keeps what these functions change. Fields of 16 bits stand in
-- the save format's byte order. The pksav functions fail only on null pointers, which are not passed.
pub mod Setters
pub mod Stats
pub mod Invariant
pub mod Levels
pub mod Moves
mod Tests
pub mod Laws
use libpkmn.Common.{
  power_suc, Dict, lookup, insert, lookup-insert, has_key, set_bit, bit-set_bit, set_bit_bound, bit,
  bit_xor-halves, ℕ, zero, suc, ◌+◌, ◌-◌, ◌*◌, ◌/◌, ◌%◌, ◌^◌, ◌≤◌, ◌<◌, min, max, bit_and, bit_or,
  bit_xor, ◌≡◌, refl, sym, ap, ◌∙◌, subst, ◌≢◌, ◌↔◌, ◌⊎◌, inl, inr, Bool, true, false, not, ◌&&◌,
  ◌||◌, Option, none, some, List, [], ◌∷◌, ◌++◌, map, arith, ltb, leb, ◌==◌, if◌then◌else◌, ==→≡,
  ==_refl, ≢→==, Bool-cases, Option-cases, length, get_elem?, get_or, set, erase_idx, insert_idx,
  resize, replicate, All, length-append, length-set, length-resize, length-erase_idx,
  length-insert_idx, length-replicate, length-map, get_or-set_self, get_or-set_ne, ℤ, pos, negsuc,
  pos_part, neg_part, sub_ℕ, eq_ℤ, min_ℤ, ◌≤ℤ◌, ltb_ℤ, Reason, no_more_of_item, no_new_items,
  no_more_items, invalid_item, invalid_game, invalid_list, query_failed, can_only_add,
  can_only_remove, Exception, out_of_range, invalid_argument, domain_error, range_error,
  feature_not_in_game_error, unimplemented_error, runtime_error, assertion_failed, Result, ok,
  throw, guard, Result-cases,
}
use libpkmn.Common.Stateful.{Action, lift, modify, ◌>>=◌, ◌>>◌}
use libpkmn.Enforce.{StatLimits}
use libpkmn.Calculations.Stats.{get_gb_stat}

abbrev pub hp : ℕ
hp = 1

abbrev pub attack : ℕ
attack = 2

abbrev pub defense : ℕ
defense = 3

abbrev pub speed : ℕ
speed = 4

abbrev pub special : ℕ
special = 5

abbrev pub gen1_stats : List ℕ
gen1_stats = 1 ∷ 2 ∷ 3 ∷ 4 ∷ 5 ∷ []

-- `struct pksav_gen1_pc_pokemon`.
pub record PcData : Type 0 where
  pub species : ℕ
  pub current_hp : ℕ
  pub level : ℕ
  pub moves : List ℕ
  pub ot_id : ℕ
  pub exp : ℕ
  pub ev_hp : ℕ
  pub ev_atk : ℕ
  pub ev_def : ℕ
  pub ev_spd : ℕ
  pub ev_spcl : ℕ
  pub iv_data : ℕ
  pub move_pps : List ℕ

-- `struct pksav_gen1_pokemon_party_data`.
pub record PartyData : Type 0 where
  pub level : ℕ
  pub max_hp : ℕ
  pub atk : ℕ
  pub def : ℕ
  pub spd : ℕ
  pub spcl : ℕ

abbrev pub zero_party_data : PartyData
zero_party_data = record { level = 0; max_hp = 0; atk = 0; def = 0; spd = 0; spcl = 0 }

pub record MoveSlot : Type 0 where
  pub move_id : ℕ
  pub pp : ℤ

abbrev pub empty_move_slot : MoveSlot
empty_move_slot = record { move_id = 0; pp = pos 0 }

pub record Gen1Pokemon : Type 0 where
  pub pc_data : PcData
  pub party_data : PartyData
  pub nickname : List ℕ
  pub trainer_name : List ℕ
  pub move_slots : List MoveSlot
  pub evs : Dict ℤ
  pub ivs : Dict ℤ
  pub stats : Dict ℤ

-- `pksav_bigendian16`, `pksav_import_base256` and `pksav_export_base256` on three bytes,
-- `pksav_get_gb_IVs` and `pksav_set_gb_IV`, whose IVs go by the stat.
pub record Pksav : Type 0 where
  pub bigendian16 : ℕ → ℕ
  pub import_base256 : ℕ → ℕ
  pub export_base256 : ℕ → ℕ
  pub gb_iv : ℕ → ℕ → ℕ
  pub set_gb_iv : ℕ → ℕ → ℕ → ℕ
  pub nickname_length : ℕ
  pub otname_length : ℕ

-- The Pokémon's database entry, and the moves' of its game: `move_pp` is the base PP of a move that the
-- game has, and throws for another.
pub record Entry : Type 0 where
  pub base_stat : ℕ → ℕ
  pub experience_at_level : ℤ → Result ℤ
  pub level_at_experience : ℤ → Result ℤ
  pub move_pp : ℕ → Result ℕ

-- `int(base_pp * 0.2)` is a fifth.
unfoldable pub get_pp : ℕ → ℕ → ℕ
get_pp base_pp num_pp_ups =
    if num_pp_ups == 0 then base_pp else base_pp + num_pp_ups * (base_pp / 5)

-- `uint8_t` of an `int` that is not negative.
abbrev pub uint8 : ℤ → ℕ
uint8 n = pos_part n % 256

module _ (k : Pksav) where
  unfoldable pub update_ev_map : Gen1Pokemon → Gen1Pokemon
  update_ev_map p =
      let ev = λ (n : ℕ). pos (k.bigendian16 n) in
      let m1 = insert hp (ev p.pc_data.ev_hp) p.evs in
      let m2 = insert attack (ev p.pc_data.ev_atk) m1 in
      let m3 = insert defense (ev p.pc_data.ev_def) m2 in
      let m4 = insert speed (ev p.pc_data.ev_spd) m3 in
      record p { evs = insert special (ev p.pc_data.ev_spcl) m4 }

  unfoldable pub update_stat_map : Gen1Pokemon → Gen1Pokemon
  update_stat_map p =
      let stat = λ (n : ℕ). pos (k.bigendian16 n) in
      let m1 = insert hp (stat p.party_data.max_hp) p.stats in
      let m2 = insert attack (stat p.party_data.atk) m1 in
      let m3 = insert defense (stat p.party_data.def) m2 in
      let m4 = insert speed (stat p.party_data.spd) m3 in
      record p { stats = insert special (stat p.party_data.spcl) m4 }

  -- `_init_gb_IV_map` of lib/pokemon_impl.cpp.
  unfoldable pub init_gb_iv_map : Gen1Pokemon → Gen1Pokemon
  init_gb_iv_map p =
      let iv = λ (stat : ℕ). pos (k.gb_iv p.pc_data.iv_data stat) in
      let m1 = insert hp (iv hp) p.ivs in
      let m2 = insert attack (iv attack) m1 in
      let m3 = insert defense (iv defense) m2 in
      let m4 = insert speed (iv speed) m3 in record p { ivs = insert special (iv special) m4 }

module _ (l : StatLimits) (k : Pksav) (entry : Entry) where
  -- `uint16_t(get_gb_stat(...))`, in the save format's byte order.
  unfoldable pub native_stat : ℕ → ℕ → ℕ → ℕ → Result ℕ
  native_stat stat level ev iv =
      elim (get_gb_stat l stat level (entry.base_stat stat) (pos (k.bigendian16 ev)) (pos iv)) [
        | ok value ↦ ok (k.bigendian16 (value % 65536))
        | throw e ↦ throw e
      ]

  unfoldable pub gen1_pc_pokemon_to_party_data : PcData → Action PartyData (Unit {0})
  gen1_pc_pokemon_to_party_data pc = do
    modify (λ p. zero_party_data)
    level ← lift (entry.level_at_experience (pos (k.import_base256 pc.exp)))
    modify (λ p. record p { level = uint8 level })
    max_hp ← lift (native_stat hp (uint8 level) pc.ev_hp (k.gb_iv pc.iv_data hp))
    modify (λ p. record p { max_hp = max_hp })
    atk ← lift (native_stat attack (uint8 level) pc.ev_atk (k.gb_iv pc.iv_data attack))
    modify (λ p. record p { atk = atk })
    def ← lift (native_stat defense (uint8 level) pc.ev_def (k.gb_iv pc.iv_data defense))
    modify (λ p. record p { def = def })
    spd ← lift (native_stat speed (uint8 level) pc.ev_spd (k.gb_iv pc.iv_data speed))
    modify (λ p. record p { spd = spd })
    spcl ← lift (native_stat special (uint8 level) pc.ev_spcl (k.gb_iv pc.iv_data speed))
    modify (λ p. record p { spcl = spcl })

  unfoldable pub fill_party_data : Action Gen1Pokemon (Unit {0})
  fill_party_data p =
      let (r, party) = gen1_pc_pokemon_to_party_data p.pc_data p.party_data in
      (r, record p { party_data = party })

  unfoldable pub populate_party_data : Action Gen1Pokemon (Unit {0})
  populate_party_data = do
    fill_party_data
    modify (λ p. record p { pc_data = record p.pc_data { current_hp = p.party_data.max_hp } })
    modify (update_stat_map k)
