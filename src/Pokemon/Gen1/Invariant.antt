-- ===== src/Pokemon/Gen1/Invariant.antt =====
-- What the setters of lib/pokemon_gen1impl.cpp keep: the maps, the stats and the level stay in step with
-- the EVs, the IVs and the experience of the save format.
use libpkmn.Common.{
  lookup, ℕ, ◌%◌, ◌^◌, ◌≤◌, ◌<◌, ◌≡◌, refl, ap, ◌∙◌, ◌⊎◌, inl, inr, false, some, arith, ◌==◌,
  if◌then◌else◌, ℤ, pos, pos_part, ◌≤ℤ◌, out_of_range, invalid_argument, ok, throw,
}
use libpkmn.Enforce.{
  StatLimits, IsDocumented, enforce_value_in_vector, enforce_ev_bounds, enforce_iv_bounds,
  does_vector_contain_value,
}
use libpkmn.Pokemon.Gen1.{
  Pksav, Entry, Gen1Pokemon, update_stat_map, update_ev_map, PcData, gen1_stats,
}
use libpkmn.Pokemon.Gen1.Laws.{
  IsPksav, IsGen1Stat, native_ev, party_stat, IsMirror, update_stat_map_lem, update_ev_map_lem,
}
use libpkmn.Pokemon.Gen1.Stats.{
  HasWords, gb_stat, iv_source, populated, party_stat-party_of, with_party_of,
  populate_party_data_lem,
}
use libpkmn.Pokemon.Gen1.Setters.{set_ev, write_ev}
use libpkmn.Enforce.Laws.{enforce_range_lem}

-- What the database says of a species: its base stats are bytes, and its experience grows with its level.
pub record IsEntry (entry : Entry) : Type 0 where
  pub base_byte : (stat : ℕ) → entry.base_stat stat ≤ 255
  pub experience : ℕ → ℕ
  pub level : ℕ → ℕ
  pub experience_small : (n : ℕ) → experience n < 2 ^ 24
  pub level_small : (n : ℕ) → level n ≤ 100
  pub experience_known :
      (n : ℕ) → n ≤ 100 → entry.experience_at_level (pos n) ≡ ok (pos (experience n))
  pub level_known : (n : ℕ) → n < 2 ^ 24 → entry.level_at_experience (pos n) ≡ ok (pos (level n))
  pub level-experience : (n : ℕ) → 2 ≤ n → n ≤ 100 → level (experience n) ≡ n

module _ (k : Pksav) (entry : Entry) where
  pub record IsFresh (p : Gen1Pokemon) : Type 0 where
    pub mirror : IsMirror k p
    pub words : HasWords p.pc_data
    pub level_known :
        entry.level_at_experience (pos (k.import_base256 p.pc_data.exp))
        ≡ ok (pos p.party_data.level)
    pub level_small : p.party_data.level ≤ 100
    -- Every stat is the formula's value, the Special's with the IV of the Speed.
    pub computed :
        (stat : ℕ)
        → IsGen1Stat k stat
        → party_stat k p.party_data stat
          ≡ gb_stat stat p.party_data.level
              (entry.base_stat stat)
              (native_ev k p.pc_data stat)
              (k.gb_iv p.pc_data.iv_data (iv_source stat))

  pub update_stat_map-IsFresh : (p : Gen1Pokemon) → IsFresh p → IsFresh (update_stat_map k p)
  unfolding update_stat_map
  update_stat_map-IsFresh p h = record {
    mirror = record {
      evs_mirrored = h.mirror.evs_mirrored;
      ivs_mirrored = h.mirror.ivs_mirrored;
      stats_mirrored = update_stat_map_lem k p;
    };
    words = h.words;
    level_known = h.level_known;
    level_small = h.level_small;
    computed = h.computed;
  }

pub gen1_stat_cases :
    (stat : ℕ)
    → ((enforce_value_in_vector stat gen1_stats ≡ ok tt) × (0 < stat) × (stat ≤ 5))
      ⊎ ((enforce_value_in_vector stat gen1_stats ≡ throw invalid_argument)
          × ¬ ((0 < stat) × (stat ≤ 5)))
unfolding enforce_value_in_vector does_vector_contain_value
gen1_stat_cases stat = ground arith

ev_cases :
    (l : StatLimits)
    → IsDocumented l
    → (value : ℤ)
    → ((enforce_ev_bounds l value false ≡ ok tt)
        × (pos_part value ≤ 65535)
        × (pos 0 ≤ℤ value)
        × (value ≤ℤ pos 65535))
      ⊎ ((enforce_ev_bounds l value false ≡ throw out_of_range)
          × ¬ ((pos 0 ≤ℤ value) × (value ≤ℤ pos 65535)))
unfolding enforce_ev_bounds
ev_cases l doc value =
    let (least, most) = doc.gb_ev_range in
    rw (least, most)
      (elim (enforce_range_lem value 0 65535) [
        | inl (passed, _, _, high, above, below) ↦ inl (passed, high, above, below)
        | inr (refused, outside) ↦ inr (refused, outside)
      ])

pub iv_cases :
    (l : StatLimits)
    → IsDocumented l
    → (value : ℤ)
    → ((enforce_iv_bounds l value false ≡ ok tt)
        × (pos_part value ≤ 15)
        × (pos 0 ≤ℤ value)
        × (value ≤ℤ pos 15))
      ⊎ ((enforce_iv_bounds l value false ≡ throw out_of_range)
          × ¬ ((pos 0 ≤ℤ value) × (value ≤ℤ pos 15)))
unfolding enforce_iv_bounds
iv_cases l doc value =
    let (least, most) = doc.gb_iv_range in
    rw (least, most)
      (elim (enforce_range_lem value 0 15) [
        | inl (passed, _, _, high, above, below) ↦ inl (passed, high, above, below)
        | inr (refused, outside) ↦ inr (refused, outside)
      ])

write_ev-HasWords :
    (stat ev : ℕ) (pc : PcData) → ev < 65536 → HasWords pc → HasWords (write_ev stat ev pc)
unfolding write_ev
write_ev-HasWords stat ev pc h w = record {
  hp_word = ground (arith, w.hp_word);
  atk_word = ground (arith, w.atk_word);
  def_word = ground (arith, w.def_word);
  spd_word = ground (arith, w.spd_word);
  spcl_word = ground (arith, w.spcl_word);
}

module _ (l : StatLimits) (k : Pksav) (entry : Entry) (doc : IsDocumented l) (pksav : IsPksav k)
    (known : IsEntry entry) where
  pub populated-IsFresh :
      (p : Gen1Pokemon) (level : ℕ)
      → ((stat : ℕ)
          → IsGen1Stat k stat
          → lookup stat p.evs ≡ some (pos (native_ev k p.pc_data stat)))
      → ((stat : ℕ)
          → IsGen1Stat k stat
          → lookup stat p.ivs ≡ some (pos (k.gb_iv p.pc_data.iv_data stat)))
      → HasWords p.pc_data
      → entry.level_at_experience (pos (k.import_base256 p.pc_data.exp)) ≡ ok (pos level)
      → level ≤ 100
      → IsFresh k entry (populated l k entry doc pksav p level)
  unfolding update_stat_map native_ev
  populated-IsFresh p level evs ivs w q h = record {
    mirror = record {
      evs_mirrored = evs;
      ivs_mirrored = ivs;
      stats_mirrored = update_stat_map_lem k (with_party_of l k entry doc pksav p level);
    };
    words = record {
      hp_word = w.hp_word;
      atk_word = w.atk_word;
      def_word = w.def_word;
      spd_word = w.spd_word;
      spcl_word = w.spcl_word;
    };
    level_known = q;
    level_small = h;
    computed = λ stat g.
        party_stat-party_of l k entry doc pksav p.pc_data level stat w h known.base_byte g;
  }

  native_ev-write_ev :
      (stat other ev : ℕ) (pc : PcData)
      → IsGen1Stat k stat
      → IsGen1Stat k other
      → native_ev k (write_ev stat ev pc) other
        ≡ (if other == stat then k.bigendian16 ev else native_ev k pc other)
  unfolding native_ev write_ev
  native_ev-write_ev stat other ev pc h h' = ground arith

  write_ev-exp : (stat ev : ℕ) (pc : PcData) → (write_ev stat ev pc).exp ≡ pc.exp
  unfolding write_ev
  write_ev-exp stat ev pc = ground arith

  write_ev-iv_data : (stat ev : ℕ) (pc : PcData) → (write_ev stat ev pc).iv_data ≡ pc.iv_data
  unfolding write_ev
  write_ev-iv_data stat ev pc = ground arith

  -- On a Pokémon of the first generation that is in step: `set_EV` of one of its five stats to a
  -- value from 0 to 65535 returns, keeps the maps, the stats and the level in step, and changes
  -- this EV alone. It throws `std::invalid_argument` for another stat and `std::out_of_range` for
  -- another value, and then changes nothing.
  pub set_ev-IsFresh :
      (stat : ℕ) (value : ℤ) (p : Gen1Pokemon)
      → IsFresh k entry p
      → let (r, p') = set_ev l k entry stat value p in
        ((r ≡ ok tt)
          × IsGen1Stat k stat
          × (pos 0 ≤ℤ value)
          × (value ≤ℤ pos 65535)
          × IsFresh k entry p'
          × (p'.party_data.level ≡ p.party_data.level)
          × ((other : ℕ)
              → IsGen1Stat k other
              → native_ev k p'.pc_data other
                ≡ (if other == stat then pos_part value else native_ev k p.pc_data other)))
        ⊎ ((r ≡ throw invalid_argument) × (p' ≡ p) × ¬ IsGen1Stat k stat)
        ⊎ ((r ≡ throw out_of_range) × (p' ≡ p) × ¬ ((pos 0 ≤ℤ value) × (value ≤ℤ pos 65535)))
  unfolding set_ev update_ev_map native_ev update_stat_map
  set_ev-IsFresh stat value p h = elim (gen1_stat_cases stat) [
    | inr (refused, unknown) ↦ rw refused (inr (inl (refl, refl, unknown)))
    | inl (allowed, positive, small_stat) ↦ elim (ev_cases l doc value) [
      | inr (refused, outside) ↦ rw (allowed, refused) (inr (inr (refl, refl, outside)))
      | inl (in_range, small, above, below) ↦
          let whole : pos_part value % 65536 ≡ pos_part value = omega arith in
          let ev = k.bigendian16 (pos_part value % 65536) in
          let p0 = record p { pc_data = write_ev stat ev p.pc_data } in
          let word : ev < 65536 = pksav.bigendian16_bound (pos_part value % 65536) (omega arith) in
          let words = write_ev-HasWords stat ev p.pc_data word h.words in
          let level = p.party_data.level in
          let same_level : entry.level_at_experience
                (pos (k.import_base256 (write_ev stat ev p.pc_data).exp))
              ≡ ok (pos level) =
            rw (write_ev-exp stat ev p.pc_data) h.level_known in
          let ivs : (s : ℕ)
              → IsGen1Stat k s
              → lookup s p.ivs ≡ some (pos (k.gb_iv (write_ev stat ev p.pc_data).iv_data s)) =
            λ s g. rw (write_ev-iv_data stat ev p.pc_data) (h.mirror.ivs_mirrored s g) in
          let fresh =
            populated-IsFresh (update_ev_map k p0) level (update_ev_map_lem k p0) ivs words
              same_level h.level_small in
          let read_back : k.bigendian16 ev ≡ pos_part value =
            rw whole (pksav.bigendian16-bigendian16 (pos_part value) (omega arith)) in
          rw
            (
              allowed,
              in_range,
              populate_party_data_lem l k entry doc pksav (update_ev_map k p0) level words
                  same_level h.level_small,
            )
            (inl (
              refl,
              (positive, small_stat),
              above,
              below,
              fresh,
              refl,
              λ other g.
                  native_ev-write_ev stat other ev p.pc_data (positive, small_stat) g
                  ∙ ap (λ n. if other == stat then n else native_ev k p.pc_data other) read_back,
            ))
    ]
  ]
