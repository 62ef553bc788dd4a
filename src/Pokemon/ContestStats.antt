-- ===== src/Pokemon/ContestStats.antt =====
-- Contest stats: `_init_contest_stat_map` and `_set_contest_stat` of lib/pokemon_impl.cpp. A stat is the
-- number of its `e_contest_stat`. In pksav's struct feel and sheen are one byte.
use libpkmn.Common.{
  Dict, lookup, insert, lookup-insert, has_key, ℕ, ◌%◌, ◌≤◌, ◌<◌, ◌≡◌, refl, ◌⊎◌, inl, inr, true,
  ◌&&◌, none, some, [], arith, leb, ◌==◌, if◌then◌else◌, ℤ, pos, pos_part, ◌≤ℤ◌, out_of_range,
  invalid_argument, Result, ok, throw, guard, ◌>>◌,
}
use libpkmn.Enforce.{enforce_bounds}
use libpkmn.Enforce.Laws.{enforce_range_lem}

abbrev pub cool : ℕ
cool = 1

abbrev pub beauty : ℕ
beauty = 2

abbrev pub cute : ℕ
cute = 3

abbrev pub smart : ℕ
smart = 4

abbrev pub tough : ℕ
tough = 5

abbrev pub feel : ℕ
feel = 6

abbrev pub sheen : ℕ
sheen = 7

pub record NativeStats : Type 0 where
  pub cool_byte : ℕ
  pub beauty_byte : ℕ
  pub cute_byte : ℕ
  pub smart_byte : ℕ
  pub tough_byte : ℕ
  pub feel_byte : ℕ

-- The struct of the save format, and `_contest_stats`.
pub record ContestStats : Type 0 where
  pub native : NativeStats
  pub contest_stats : Dict ℤ

module _ (generation : ℕ) where
  unfoldable pub feel_or_sheen : ℕ
  feel_or_sheen = if generation == 3 then feel else sheen

  unfoldable pub init_contest_stat_map : ContestStats → ContestStats
  unfolding feel_or_sheen
  init_contest_stat_map s =
      let m1 = insert cool (pos s.native.cool_byte) s.contest_stats in
      let m2 = insert beauty (pos s.native.beauty_byte) m1 in
      let m3 = insert cute (pos s.native.cute_byte) m2 in
      let m4 = insert smart (pos s.native.smart_byte) m3 in
      let m5 = insert tough (pos s.native.tough_byte) m4 in
      record s { contest_stats = insert feel_or_sheen (pos s.native.feel_byte) m5 }

-- The macro `SET_CONTEST_STAT`, for the first key that is the stat: it writes the field and returns.
-- `feel` and `sheen` write the same byte.
unfoldable pub write_native_stat : ℕ → ℕ → NativeStats → NativeStats
write_native_stat stat value n =
    if stat == cool
    then record n { cool_byte = value }
    else if stat == beauty
    then record n { beauty_byte = value }
    else if stat == cute
    then record n { cute_byte = value }
    else if stat == smart
    then record n { smart_byte = value }
    else if stat == tough
    then record n { tough_byte = value }
    else if stat == feel
    then record n { feel_byte = value }
    else if stat == sheen
    then record n { feel_byte = value }
    else n

-- The bounds come first, so that `uint8_t(value)` loses nothing.
unfoldable pub set_contest_stat : ℕ → ℤ → ContestStats → Result ContestStats
unfolding write_native_stat
set_contest_stat stat value s = do
  guard (has_key stat s.contest_stats) invalid_argument
  enforce_bounds value (pos 0) (pos 255)
  ok (record {
    native = write_native_stat stat (pos_part value % 256) s.native;
    contest_stats =
        (if leb cool stat && leb stat sheen
          then insert stat value s.contest_stats
          else s.contest_stats);
  })

unfoldable pub stat_byte : ℕ → NativeStats → ℕ
stat_byte stat n =
    if stat == cool
    then n.cool_byte
    else if stat == beauty
    then n.beauty_byte
    else if stat == cute
    then n.cute_byte
    else if stat == smart
    then n.smart_byte
    else if stat == tough
    then n.tough_byte
    else n.feel_byte

module _ (generation : ℕ) where
  -- The contest stats of the generation: sheen takes the place of feel.
  unfoldable pub HasContestStat : ℕ → Type 0
  HasContestStat stat =
      ((0 < stat) × (stat ≤ tough)) ⊎ (stat ≡ (if generation == 3 then feel else sheen))

  pub record IsMirror (s : ContestStats) : Type 0 where
    pub mirrored :
        (stat : ℕ)
        → HasContestStat stat
        → lookup stat s.contest_stats ≡ some (pos (stat_byte stat s.native))
    pub no_others : (stat : ℕ) → ¬ HasContestStat stat → lookup stat s.contest_stats ≡ none

  -- `_init_contest_stat_map` fills an empty map with each contest stat of the generation, by its
  -- byte.
  pub init_contest_stat_map-IsMirror :
      (native : NativeStats)
      → IsMirror (init_contest_stat_map generation (record { native = native; contest_stats = [] }))
  unfolding init_contest_stat_map lookup insert HasContestStat stat_byte feel_or_sheen
  init_contest_stat_map-IsMirror native = record {
    mirrored = λ stat h. ground arith;
    no_others = λ stat h. ground arith;
  }

  HasContestStat-cases : (stat : ℕ) → HasContestStat stat ⊎ (¬ HasContestStat stat)
  unfolding HasContestStat
  HasContestStat-cases stat = ground arith

  -- A write of one stat is read back, and leaves the others of the generation.
  stat_byte-write_native_stat :
      (stat other value : ℕ) (n : NativeStats)
      → HasContestStat stat
      → HasContestStat other
      → stat_byte other (write_native_stat stat value n)
        ≡ (if other == stat then value else stat_byte other n)
  unfolding HasContestStat stat_byte write_native_stat
  stat_byte-write_native_stat stat other value n h h' = ground arith

  HasContestStat-range : (stat : ℕ) → HasContestStat stat → (leb cool stat && leb stat sheen) ≡ true
  unfolding HasContestStat
  HasContestStat-range stat h = ground arith

  write-IsMirror :
      (stat : ℕ) (value : ℤ) (s : ContestStats)
      → HasContestStat stat
      → value ≡ pos (pos_part value)
      → pos_part value ≤ 255
      → IsMirror s
      → IsMirror (record {
        native = write_native_stat stat (pos_part value % 256) s.native;
        contest_stats = insert stat value s.contest_stats;
      })
  write-IsMirror stat value s has positive high h =
      let small : pos_part value % 256 ≡ pos_part value = omega arith in
      rw small (record {
        mirrored = λ other has_other. ground (
          arith,
          h.mirrored other has_other,
          stat_byte-write_native_stat stat other (pos_part value) s.native has has_other,
          lookup-insert other stat value s.contest_stats,
        );
        no_others = λ other absent.
            ground
              (arith, h.no_others other absent, lookup-insert other stat value s.contest_stats);
      })

  -- With a map that says of each contest stat of the generation what the struct says:
  -- `_set_contest_stat` of such a stat to a value from 0 to 255 returns, keeps the two in step,
  -- and the map then has the new value for the stat and the old ones for all others. Another
  -- value makes it throw `std::out_of_range`, another stat `std::invalid_argument`.
  pub set_contest_stat-IsMirror :
      (stat : ℕ) (value : ℤ) (s : ContestStats)
      → IsMirror s
      → ((s' : ContestStats) × (set_contest_stat stat value s ≡ ok s')
          × HasContestStat stat
          × (pos 0 ≤ℤ value)
          × (value ≤ℤ pos 255)
          × IsMirror s'
          × ((other : ℕ)
              → lookup other s'.contest_stats
                ≡ (if other == stat then some value else lookup other s.contest_stats)))
        ⊎ ((set_contest_stat stat value s ≡ throw invalid_argument) × ¬ HasContestStat stat)
        ⊎ ((set_contest_stat stat value s ≡ throw out_of_range)
            × HasContestStat stat
            × ¬ ((pos 0 ≤ℤ value) × (value ≤ℤ pos 255)))
  unfolding set_contest_stat
  set_contest_stat-IsMirror stat value s h = elim (HasContestStat-cases stat) [
    | inl has ↦
        let found = h.mirrored stat has in
        elim (enforce_range_lem value 0 255) [
          | inl (passed, positive, low, high, above, below) ↦
              rw (has_key, found, passed, HasContestStat-range stat has)
                (inl (
                  _,
                  refl,
                  has,
                  above,
                  below,
                  write-IsMirror stat value s has positive high h,
                  λ other. lookup-insert other stat value s.contest_stats,
                ))
          | inr (refused, outside) ↦ rw (has_key, found, refused) (inr (inr (refl, has, outside)))
        ]
    | inr absent ↦ rw (has_key, h.no_others stat absent) (inr (inl (refl, absent)))
  ]
