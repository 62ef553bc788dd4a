-- ===== src/Pokemon/Gen1/Laws.antt =====
-- What lib/pokemon_gen1impl.cpp relies on, and that its setters keep the maps in step with the save
-- format.
use libpkmn.Common.{
  Dict, lookup, insert, lookup-insert, ℕ, ◌^◌, ◌≤◌, ◌<◌, ◌≡◌, ap, ◌∙◌, ◌≢◌, some, arith, ◌==◌,
  if◌then◌else◌, ℤ, pos,
}
use libpkmn.Pokemon.Gen1.{
  Pksav, Gen1Pokemon, hp, speed, special, PcData, PartyData, update_ev_map, update_stat_map,
  init_gb_iv_map, attack, defense,
}

-- What pksav's functions do. The HP IV is made of the other four's last digits, so that only these are
-- kept by a write.
pub record IsPksav (k : Pksav) : Type 0 where
  pub bigendian16-bigendian16 : (n : ℕ) → n < 65536 → k.bigendian16 (k.bigendian16 n) ≡ n
  pub bigendian16_bound : (n : ℕ) → n < 65536 → k.bigendian16 n < 65536
  pub import-export : (n : ℕ) → n < 2 ^ 24 → k.import_base256 (k.export_base256 n) ≡ n
  pub gb_iv_bound : (iv_data stat : ℕ) → k.gb_iv iv_data stat ≤ 15
  pub gb_iv-set_gb_iv :
      (iv_data stat value : ℕ) → value ≤ 15 → k.gb_iv (k.set_gb_iv stat value iv_data) stat ≡ value
  pub gb_iv-set_gb_iv_ne :
      (iv_data stat other value : ℕ)
      → stat ≢ hp
      → other ≢ hp
      → other ≢ stat
      → value ≤ 15
      → k.gb_iv (k.set_gb_iv stat value iv_data) other ≡ k.gb_iv iv_data other

-- The map that five writes leave, of which the last is the Special's.
lookup-five :
    (f : ℕ → ℕ) (stat a b c d e : ℕ) (m : Dict ℤ)
    → (0 < stat) × (stat ≤ 5)
    → lookup stat (
        insert special (pos (f e)) (
          insert speed
            (pos (f d))
            (insert defense (pos (f c)) (insert attack (pos (f b)) (insert hp (pos (f a)) m)))))
      ≡ some (
          pos (
            f (
              if stat == hp
              then a
              else if stat == attack
              then b
              else if stat == defense
              then c
              else if stat == speed
              then d
              else e)))
lookup-five f stat a b c d e m h =
    let m1 = insert hp (pos (f a)) m in
    let m2 = insert attack (pos (f b)) m1 in
    let m3 = insert defense (pos (f c)) m2 in
    let m4 = insert speed (pos (f d)) m3 in
    rw
      (
        lookup-insert stat special (pos (f e)) m4,
        lookup-insert stat speed (pos (f d)) m3,
        lookup-insert stat defense (pos (f c)) m2,
        lookup-insert stat attack (pos (f b)) m1,
        lookup-insert stat hp (pos (f a)) m,
      )
      (ground arith)

own_number :
    (stat : ℕ)
    → (0 < stat) × (stat ≤ 5)
    → (if stat == hp
        then hp
        else if stat == attack
        then attack
        else if stat == defense
        then defense
        else if stat == speed
        then speed
        else special)
      ≡ stat
own_number stat h = ground arith

module _ (k : Pksav) where
  -- The EV that the save format keeps for a stat.
  unfoldable pub native_ev : PcData → ℕ → ℕ
  native_ev pc stat = k.bigendian16 (
      if stat == hp
      then pc.ev_hp
      else if stat == attack
      then pc.ev_atk
      else if stat == defense
      then pc.ev_def
      else if stat == speed
      then pc.ev_spd
      else pc.ev_spcl)

  unfoldable pub party_stat : PartyData → ℕ → ℕ
  party_stat party stat = k.bigendian16 (
      if stat == hp
      then party.max_hp
      else if stat == attack
      then party.atk
      else if stat == defense
      then party.def
      else if stat == speed
      then party.spd
      else party.spcl)

  abbrev pub IsGen1Stat : ℕ → Type 0
  IsGen1Stat stat = (0 < stat) × (stat ≤ 5)

  -- Each map says what the save format says.
  pub record IsMirror (p : Gen1Pokemon) : Type 0 where
    pub evs_mirrored :
        (stat : ℕ) → IsGen1Stat stat → lookup stat p.evs ≡ some (pos (native_ev p.pc_data stat))
    pub ivs_mirrored :
        (stat : ℕ)
        → IsGen1Stat stat
        → lookup stat p.ivs ≡ some (pos (k.gb_iv p.pc_data.iv_data stat))
    pub stats_mirrored :
        (stat : ℕ)
        → IsGen1Stat stat
        → lookup stat p.stats ≡ some (pos (party_stat p.party_data stat))

  pub update_ev_map_lem :
      (p : Gen1Pokemon) (stat : ℕ)
      → IsGen1Stat stat
      → lookup stat (update_ev_map k p).evs ≡ some (pos (native_ev p.pc_data stat))
  unfolding update_ev_map native_ev
  update_ev_map_lem p stat h = lookup-five k.bigendian16 stat _ _ _ _ _ p.evs h

  pub update_stat_map_lem :
      (p : Gen1Pokemon) (stat : ℕ)
      → IsGen1Stat stat
      → lookup stat (update_stat_map k p).stats ≡ some (pos (party_stat p.party_data stat))
  unfolding update_stat_map party_stat
  update_stat_map_lem p stat h = lookup-five k.bigendian16 stat _ _ _ _ _ p.stats h

  pub init_gb_iv_map_lem :
      (p : Gen1Pokemon) (stat : ℕ)
      → IsGen1Stat stat
      → lookup stat (init_gb_iv_map k p).ivs ≡ some (pos (k.gb_iv p.pc_data.iv_data stat))
  unfolding init_gb_iv_map
  init_gb_iv_map_lem p stat h =
      lookup-five (k.gb_iv p.pc_data.iv_data) stat _ _ _ _ _ p.ivs h
      ∙ ap (λ s. some (pos (k.gb_iv p.pc_data.iv_data s))) (own_number stat h)
