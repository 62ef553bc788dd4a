-- ===== src/Pokemon/Gen1/Levels.antt =====
-- `set_IV`, `set_level` and `set_experience` of lib/pokemon_gen1impl.cpp keep a Pokémon in step.
use libpkmn.Common.{
  lookup, ℕ, ◌%◌, ◌^◌, ◌≤◌, ◌<◌, ◌≡◌, refl, sym, ap, ◌∙◌, ◌≢◌, ◌⊎◌, inl, inr, some, arith, ℤ, pos,
  pos_part, ◌≤ℤ◌, out_of_range, invalid_argument, ok, throw,
}
use libpkmn.Enforce.{StatLimits, IsDocumented}
use libpkmn.Enforce.Laws.{enforce_range_lem}
use libpkmn.Pokemon.Gen1.{
  Pksav, Entry, Gen1Pokemon, hp, init_gb_iv_map, update_stat_map, PcData, populate_party_data,
}
use libpkmn.Pokemon.Gen1.Laws.{IsPksav, IsGen1Stat, native_ev, init_gb_iv_map_lem}
use libpkmn.Pokemon.Gen1.Stats.{HasWords, populate_party_data_lem, populated}
use libpkmn.Pokemon.Gen1.Invariant.{
  IsEntry, IsFresh, gen1_stat_cases, iv_cases, populated-IsFresh, update_stat_map-IsFresh,
}
use libpkmn.Pokemon.Gen1.Setters.{set_iv, set_level, get_level, get_experience, set_experience}
use libpkmn.Common.Stateful.{modify, ◌>>◌, >>=-ok}

-- The words are the EVs alone.
HasWords-other :
    (pc : PcData) (level exp iv_data : ℕ)
    → HasWords pc
    → HasWords (record pc { level = level; exp = exp; iv_data = iv_data })
HasWords-other pc level exp iv_data w = record {
  hp_word = w.hp_word;
  atk_word = w.atk_word;
  def_word = w.def_word;
  spd_word = w.spd_word;
  spcl_word = w.spcl_word;
}

module _ (l : StatLimits) (k : Pksav) (entry : Entry) (doc : IsDocumented l) (pksav : IsPksav k)
    (known : IsEntry entry) where
  -- On a Pokémon of the first generation that is in step: `set_IV` of one of its five stats to a
  -- value from 0 to 15 returns, keeps the maps, the stats and the level in step, the stat then
  -- has the value, and if it is not HP, so do the others but HP their old ones. It throws
  -- `std::invalid_argument` for another stat and `std::out_of_range` for another value, and then
  -- changes nothing.
  pub set_iv-IsFresh :
      (stat : ℕ) (value : ℤ) (p : Gen1Pokemon)
      → IsFresh k entry p
      → let (r, p') = set_iv l k entry stat value p in
        ((r ≡ ok tt)
          × IsGen1Stat k stat
          × (pos 0 ≤ℤ value)
          × (value ≤ℤ pos 15)
          × IsFresh k entry p'
          × (p'.party_data.level ≡ p.party_data.level)
          × (lookup stat p'.ivs ≡ some value)
          × ((other : ℕ)
              → IsGen1Stat k other
              → stat ≢ hp
              → other ≢ hp
              → other ≢ stat
              → lookup other p'.ivs ≡ lookup other p.ivs))
        ⊎ ((r ≡ throw invalid_argument) × (p' ≡ p) × ¬ IsGen1Stat k stat)
        ⊎ ((r ≡ throw out_of_range) × (p' ≡ p) × ¬ ((pos 0 ≤ℤ value) × (value ≤ℤ pos 15)))
  unfolding set_iv init_gb_iv_map update_stat_map native_ev
  set_iv-IsFresh stat value p h = elim (gen1_stat_cases stat) [
    | inr (refused, unknown) ↦ rw refused (inr (inl (refl, refl, unknown)))
    | inl (allowed, positive, small_stat) ↦ elim (iv_cases l doc value) [
      | inr (refused, outside) ↦ rw (allowed, refused) (inr (inr (refl, refl, outside)))
      | inl (in_range, small, above, below) ↦
          let iv = pos_part value % 256 in
          let whole : iv ≡ pos_part value = omega arith in
          let natural : pos iv ≡ value = ground arith in
          let iv_data = k.set_gb_iv stat iv p.pc_data.iv_data in
          let p0 = record p { pc_data = record p.pc_data { iv_data = iv_data } } in
          let words = HasWords-other p.pc_data p.pc_data.level p.pc_data.exp iv_data h.words in
          let level = p.party_data.level in
          let fresh =
            populated-IsFresh l k entry doc pksav known (init_gb_iv_map k p0) level
              h.mirror.evs_mirrored (init_gb_iv_map_lem k p0) words h.level_known h.level_small in
          let read_back : some (pos (k.gb_iv iv_data stat)) ≡ some value =
            rw (pksav.gb_iv-set_gb_iv p.pc_data.iv_data stat iv (omega arith), natural) refl in
          rw
            (
              allowed,
              in_range,
              populate_party_data_lem l k entry doc pksav (init_gb_iv_map k p0) level words
                  h.level_known h.level_small,
            )
            (inl (
              refl,
              (positive, small_stat),
              above,
              below,
              fresh,
              refl,
              init_gb_iv_map_lem k p0 stat (positive, small_stat) ∙ read_back,
              λ other g a b c.
                  init_gb_iv_map_lem k p0 other g
                  ∙ ap (λ n. some (pos n))
                      (pksav.gb_iv-set_gb_iv_ne p.pc_data.iv_data stat other iv a b c (omega arith))
                  ∙ sym (h.mirror.ivs_mirrored other g),
            ))
    ]
  ]

  populate_twice :
      (p : Gen1Pokemon) (level : ℕ)
      → HasWords p.pc_data
      → entry.level_at_experience (pos (k.import_base256 p.pc_data.exp)) ≡ ok (pos level)
      → level ≤ 100
      → (populate_party_data l k entry >> modify (update_stat_map k)) p
        ≡ (ok tt, update_stat_map k (populated l k entry doc pksav p level))
  populate_twice p level w q h =
      let populate = populate_party_data_lem l k entry doc pksav p level w q h in
      >>=-ok (populate_party_data l k entry) (λ _. modify (update_stat_map k)) p
        (ap (λ r. r.0) populate)
      ∙ ap (λ r. (ok tt, update_stat_map k r.1)) populate

  -- On a Pokémon of the first generation that is in step, by a database whose experience grows
  -- with the level: `set_level` to a level from 2 to 100 returns, keeps the maps, the stats and
  -- the level in step, and the Pokémon then has this level and the experience that the database
  -- has for it. Another level makes it throw `std::out_of_range`, and changes nothing.
  pub set_level-IsFresh :
      (level : ℤ) (p : Gen1Pokemon)
      → IsFresh k entry p
      → let (r, p') = set_level l k entry level p in
        ((r ≡ ok tt)
          × (pos 2 ≤ℤ level)
          × (level ≤ℤ pos 100)
          × IsFresh k entry p'
          × (get_level k p' ≡ level)
          × (get_experience k p' ≡ pos (known.experience (pos_part level))))
        ⊎ ((r ≡ throw out_of_range) × (p' ≡ p) × ¬ ((pos 2 ≤ℤ level) × (level ≤ℤ pos 100)))
  unfolding set_level get_level get_experience update_stat_map native_ev
  set_level-IsFresh level p h = elim (enforce_range_lem level 2 100) [
    | inr (refused, outside) ↦ rw refused (inr (refl, refl, outside))
    | inl (passed, natural, least, most, above, below) ↦
        let lv = pos_part level in
        let whole : lv % 256 ≡ lv = omega arith in
        let experience = known.experience lv in
        let exp = k.export_base256 experience in
        let stored : k.import_base256 exp ≡ experience =
          pksav.import-export experience (known.experience_small lv) in
        let p0 = record p {
          pc_data = record p.pc_data { level = lv % 256; exp = exp };
          party_data = record p.party_data { level = lv % 256 };
        } in
        let words = HasWords-other p.pc_data (lv % 256) exp p.pc_data.iv_data h.words in
        let reached : entry.level_at_experience (pos (k.import_base256 exp)) ≡ ok (pos lv) =
          rw
            (
              stored,
              known.level_known experience (known.experience_small lv),
              known.level-experience lv least most,
            )
            refl in
        let fresh = update_stat_map-IsFresh k entry _ (
          populated-IsFresh l k entry doc pksav known p0 lv h.mirror.evs_mirrored
            h.mirror.ivs_mirrored words reached most) in
        let looked_up : entry.experience_at_level level ≡ ok (pos experience) =
          rw natural (known.experience_known lv most) in
        rw (passed, looked_up, populate_twice p0 lv words reached most)
          (inl (refl, above, below, fresh, sym natural, ap pos stored))
  ]

  -- On a Pokémon of the first generation that is in step, by a database whose experience grows
  -- with the level: `set_experience` to a value from 0 to the experience of level 100 returns,
  -- keeps the maps, the stats and the level in step, and the Pokémon then has this experience and
  -- the level that the database has for it. Another value makes it throw `std::out_of_range`, and
  -- changes nothing.
  pub set_experience-IsFresh :
      (experience : ℤ) (p : Gen1Pokemon)
      → IsFresh k entry p
      → let (r, p') = set_experience l k entry experience p in
        ((r ≡ ok tt)
          × (pos 0 ≤ℤ experience)
          × (experience ≤ℤ pos (known.experience 100))
          × IsFresh k entry p'
          × (get_experience k p' ≡ experience)
          × (get_level k p' ≡ pos (known.level (pos_part experience))))
        ⊎ ((r ≡ throw out_of_range)
            × (p' ≡ p)
            × ¬ ((pos 0 ≤ℤ experience) × (experience ≤ℤ pos (known.experience 100))))
  unfolding set_experience get_level get_experience update_stat_map native_ev
  set_experience-IsFresh experience p h =
      let looked_up = known.experience_known 100 (omega arith) in
      elim (enforce_range_lem experience 0 (known.experience 100)) [
        | inr (refused, outside) ↦ rw (looked_up, refused) (inr (refl, refl, outside))
        | inl (passed, natural, least, most, above, below) ↦
            let n = pos_part experience in
            let fits : n < 2 ^ 24 = omega (arith, known.experience_small 100) in
            let lv = known.level n in
            let small = known.level_small n in
            let whole : lv % 256 ≡ lv = omega arith in
            let exp = k.export_base256 n in
            let stored : k.import_base256 exp ≡ n = pksav.import-export n fits in
            let p0 = record p {
              pc_data = record p.pc_data { level = lv % 256; exp = exp };
              party_data = record p.party_data { level = lv % 256 };
            } in
            let words = HasWords-other p.pc_data (lv % 256) exp p.pc_data.iv_data h.words in
            let reached : entry.level_at_experience (pos (k.import_base256 exp)) ≡ ok (pos lv) =
              rw stored (known.level_known n fits) in
            let found : entry.level_at_experience experience ≡ ok (pos lv) =
              rw natural (known.level_known n fits) in
            let fresh = update_stat_map-IsFresh k entry _ (
              populated-IsFresh l k entry doc pksav known p0 lv h.mirror.evs_mirrored
                h.mirror.ivs_mirrored words reached small) in
            rw (looked_up, passed, found, populate_twice p0 lv words reached small)
              (inl (refl, above, below, fresh, ap pos stored ∙ sym natural, refl))
      ]
