-- ===== src/Pokemon/Gen1/Stats.antt =====
-- The stats that `gen1_pc_pokemon_to_party_data` of lib/pksav/party_data.cpp computes, and how
-- lib/pokemon_gen1impl.cpp stores them.
use libpkmn.Common.{
  ℕ, zero, suc, ◌+◌, ◌%◌, ◌≤◌, ◌<◌, ◌≡◌, refl, ap, ◌∙◌, false, arith, ◌==◌, if◌then◌else◌, pos, ok,
}
use libpkmn.Enforce.{
  StatLimits, IsDocumented, enforce_value_in_vector, enforce_ev_bounds, enforce_iv_bounds,
  does_vector_contain_value,
}
use libpkmn.Enforce.Laws.{enforce_bounds-ok}
use libpkmn.Calculations.Stats.{get_gb_stat, gb_stat_common, gen2_stats}
use libpkmn.Calculations.Stats.Laws.{gb_stat_common_bound}
use libpkmn.Pokemon.Gen1.{
  Pksav, Entry, hp, speed, special, native_stat, gen1_pc_pokemon_to_party_data, PcData, PartyData,
  attack, defense, Gen1Pokemon, populate_party_data, update_stat_map, fill_party_data,
}
use libpkmn.Pokemon.Gen1.Laws.{IsPksav, IsGen1Stat, party_stat, native_ev}
use libpkmn.Common.Stateful.{>>=-ok}

-- The EVs are 16-bit numbers.
pub record HasWords (pc : PcData) : Type 0 where
  pub hp_word : pc.ev_hp < 65536
  pub atk_word : pc.ev_atk < 65536
  pub def_word : pc.ev_def < 65536
  pub spd_word : pc.ev_spd < 65536
  pub spcl_word : pc.ev_spcl < 65536

-- What the formula of the first generation makes of base stat, EV and IV.
unfoldable pub gb_stat : ℕ → ℕ → ℕ → ℕ → ℕ → ℕ
gb_stat stat level base_stat ev iv =
    let common = gb_stat_common level base_stat ev iv in
    if stat == hp then common + level + 10 else common + 5

-- The stat whose IV the code takes: the Special's is the Speed's.
unfoldable pub iv_source : ℕ → ℕ
iv_source stat = if stat == special then speed else stat

is_gen2_stat :
    (stat : ℕ) → (0 < stat) × (stat ≤ 5) → enforce_value_in_vector stat gen2_stats ≡ ok tt
unfolding enforce_value_in_vector does_vector_contain_value
is_gen2_stat stat h = ground arith

ev_in_range :
    (l : StatLimits) (ev : ℕ)
    → IsDocumented l
    → ev < 65536
    → enforce_ev_bounds l (pos ev) false ≡ ok tt
unfolding enforce_ev_bounds
ev_in_range l ev doc h =
    let (least, most) = doc.gb_ev_range in
    rw (least, most) (enforce_bounds-ok (pos ev) (pos 0) (pos 65535) (omega arith) (omega arith))

iv_in_range :
    (l : StatLimits) (iv : ℕ)
    → IsDocumented l
    → iv ≤ 15
    → enforce_iv_bounds l (pos iv) false ≡ ok tt
unfolding enforce_iv_bounds
iv_in_range l iv doc h =
    let (least, most) = doc.gb_iv_range in
    rw (least, most) (enforce_bounds-ok (pos iv) (pos 0) (pos 15) (omega arith) (omega arith))

get_gb_stat_lem :
    (l : StatLimits) (stat level base_stat ev iv : ℕ)
    → IsDocumented l
    → (0 < stat) × (stat ≤ 5)
    → ev < 65536
    → iv ≤ 15
    → get_gb_stat l stat level base_stat (pos ev) (pos iv) ≡ ok (gb_stat stat level base_stat ev iv)
unfolding get_gb_stat gb_stat
get_gb_stat_lem l stat level base_stat ev iv doc h word small =
    rw (is_gen2_stat stat h, ev_in_range l ev doc word, iv_in_range l iv doc small) refl

gb_stat_bound :
    (stat level base_stat ev iv : ℕ)
    → level ≤ 100
    → base_stat ≤ 255
    → ev < 65536
    → iv ≤ 15
    → gb_stat stat level base_stat ev iv < 65536
unfolding gb_stat
gb_stat_bound stat level base_stat ev iv hl hb he hi =
    ground (arith, gb_stat_common_bound level base_stat ev iv hl hb he hi)

abbrev with_full_hp : Gen1Pokemon → Gen1Pokemon
with_full_hp p = record p { pc_data = record p.pc_data { current_hp = p.party_data.max_hp } }

module _ (l : StatLimits) (k : Pksav) (entry : Entry) (doc : IsDocumented l)
    (pksav : IsPksav k) where
  native_stat_lem :
      (stat level ev iv : ℕ)
      → IsGen1Stat k stat
      → ev < 65536
      → iv ≤ 15
      → native_stat l k entry stat level ev iv
        ≡ ok (
            k.bigendian16 (gb_stat stat level (entry.base_stat stat) (k.bigendian16 ev) iv % 65536))
  unfolding native_stat
  native_stat_lem stat level ev iv h word small =
      rw
        (
          native_stat,
          get_gb_stat_lem l stat level (entry.base_stat stat) (k.bigendian16 ev) iv doc h
              (pksav.bigendian16_bound ev word) small,
        )
        refl

  -- The party data of a level.
  abbrev party_of : PcData → ℕ → PartyData
  party_of pc level =
      let stored = λ (stat ev iv : ℕ).
        k.bigendian16 (gb_stat stat level (entry.base_stat stat) (k.bigendian16 ev) iv % 65536) in
      record {
        level = level;
        max_hp = stored hp pc.ev_hp (k.gb_iv pc.iv_data hp);
        atk = stored attack pc.ev_atk (k.gb_iv pc.iv_data attack);
        def = stored defense pc.ev_def (k.gb_iv pc.iv_data defense);
        spd = stored speed pc.ev_spd (k.gb_iv pc.iv_data speed);
        spcl = stored special pc.ev_spcl (k.gb_iv pc.iv_data speed);
      }

  party_data_lem :
      (pc : PcData) (party : PartyData) (level : ℕ)
      → HasWords pc
      → entry.level_at_experience (pos (k.import_base256 pc.exp)) ≡ ok (pos level)
      → level ≤ 100
      → gen1_pc_pokemon_to_party_data l k entry pc party ≡ (ok tt, party_of pc level)
  unfolding gen1_pc_pokemon_to_party_data
  party_data_lem pc party level w q h =
      let small : level % 256 ≡ level = omega arith in
      let iv = λ (stat : ℕ). pksav.gb_iv_bound pc.iv_data stat in
      rw
        (
          q,
          small,
          native_stat_lem hp level pc.ev_hp (k.gb_iv pc.iv_data hp) (omega arith, omega arith)
              w.hp_word (iv hp),
          native_stat_lem attack level pc.ev_atk (k.gb_iv pc.iv_data attack)
              (omega arith, omega arith) w.atk_word (iv attack),
          native_stat_lem defense level pc.ev_def (k.gb_iv pc.iv_data defense)
              (omega arith, omega arith) w.def_word (iv defense),
          native_stat_lem speed level pc.ev_spd (k.gb_iv pc.iv_data speed)
              (omega arith, omega arith) w.spd_word (iv speed),
          native_stat_lem special level pc.ev_spcl (k.gb_iv pc.iv_data speed)
              (omega arith, omega arith) w.spcl_word (iv speed),
        )
        refl

  -- A stat that was stored is read back.
  stored_lem :
      (stat level ev iv : ℕ)
      → level ≤ 100
      → entry.base_stat stat ≤ 255
      → ev < 65536
      → iv ≤ 15
      → let value = gb_stat stat level (entry.base_stat stat) (k.bigendian16 ev) iv in
        k.bigendian16 (k.bigendian16 (value % 65536)) ≡ value
  stored_lem stat level ev iv h base word small =
      let value = gb_stat stat level (entry.base_stat stat) (k.bigendian16 ev) iv in
      let bound =
        gb_stat_bound stat level (entry.base_stat stat) (k.bigendian16 ev) iv h base
          (pksav.bigendian16_bound ev word) small in
      let whole : value % 65536 ≡ value = omega arith in
      rw whole (pksav.bigendian16-bigendian16 value bound)

  pub party_stat-party_of :
      (pc : PcData) (level stat : ℕ)
      → HasWords pc
      → level ≤ 100
      → ((s : ℕ) → entry.base_stat s ≤ 255)
      → IsGen1Stat k stat
      → party_stat k (party_of pc level) stat
        ≡ gb_stat stat level
            (entry.base_stat stat)
            (native_ev k pc stat)
            (k.gb_iv pc.iv_data (iv_source stat))
  unfolding party_stat native_ev iv_source
  party_stat-party_of pc level zero w h base g = absurd (omega (arith, g.0))
  party_stat-party_of pc level (suc zero) w h base g =
      stored_lem hp level pc.ev_hp (k.gb_iv pc.iv_data hp) h (base hp) w.hp_word
        (pksav.gb_iv_bound pc.iv_data hp)
  party_stat-party_of pc level (suc (suc zero)) w h base g =
      stored_lem attack level pc.ev_atk (k.gb_iv pc.iv_data attack) h (base attack) w.atk_word
        (pksav.gb_iv_bound pc.iv_data attack)
  party_stat-party_of pc level (suc (suc (suc zero))) w h base g =
      stored_lem defense level pc.ev_def (k.gb_iv pc.iv_data defense) h (base defense) w.def_word
        (pksav.gb_iv_bound pc.iv_data defense)
  party_stat-party_of pc level (suc (suc (suc (suc zero)))) w h base g =
      stored_lem speed level pc.ev_spd (k.gb_iv pc.iv_data speed) h (base speed) w.spd_word
        (pksav.gb_iv_bound pc.iv_data speed)
  party_stat-party_of pc level (suc (suc (suc (suc (suc zero))))) w h base g =
      stored_lem special level pc.ev_spcl (k.gb_iv pc.iv_data speed) h (base special) w.spcl_word
        (pksav.gb_iv_bound pc.iv_data speed)
  party_stat-party_of pc level (suc (suc (suc (suc (suc (suc s)))))) w h base g =
      absurd (omega (arith, g.1))

  abbrev pub with_party_of : Gen1Pokemon → ℕ → Gen1Pokemon
  with_party_of p level = with_full_hp (record p { party_data = party_of p.pc_data level })

  -- What `_populate_party_data` leaves.
  abbrev pub populated : Gen1Pokemon → ℕ → Gen1Pokemon
  populated p level = update_stat_map k (with_party_of p level)

  fill_party_data_lem :
      (p : Gen1Pokemon) (level : ℕ)
      → HasWords p.pc_data
      → entry.level_at_experience (pos (k.import_base256 p.pc_data.exp)) ≡ ok (pos level)
      → level ≤ 100
      → fill_party_data l k entry p ≡ (ok tt, record p { party_data = party_of p.pc_data level })
  unfolding fill_party_data
  fill_party_data_lem p level w q h =
      ap (λ r. (r.0, record p { party_data = r.1 }))
        (party_data_lem p.pc_data p.party_data level w q h)

  pub populate_party_data_lem :
      (p : Gen1Pokemon) (level : ℕ)
      → HasWords p.pc_data
      → entry.level_at_experience (pos (k.import_base256 p.pc_data.exp)) ≡ ok (pos level)
      → level ≤ 100
      → populate_party_data l k entry p ≡ (ok tt, populated p level)
  unfolding populate_party_data
  populate_party_data_lem p level w q h =
      let filled = fill_party_data_lem p level w q h in
      >>=-ok (fill_party_data l k entry) (λ _ p'. (ok tt, update_stat_map k (with_full_hp p'))) p
        (ap (λ r. r.0) filled)
      ∙ ap (λ r. (ok tt, update_stat_map k (with_full_hp r.1))) filled
