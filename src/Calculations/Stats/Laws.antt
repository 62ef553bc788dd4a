-- ===== src/Calculations/Stats/Laws.antt =====
-- How a stat depends on what it is made of, by lib/calculations/stats.cpp.
use native.Mathlib.Nat.{mul-le-mul_left, mul-le-mul_right}
use libpkmn.Common.{
  ℕ, zero, suc, ◌+◌, ◌*◌, ◌/◌, ◌≤◌, ◌<◌, ◌≡◌, ap, ◌≢◌, inl, inr, arith, leb, ◌==◌, ==→≡, Bool-cases,
  ℤ, pos, pos_part, ok,
}
use libpkmn.Enforce.{StatLimits, IsDocumented, enforce_ev_bounds, enforce_iv_bounds, enforce_bounds}
use libpkmn.Calculations.Stats.{
  isqrt, gb_stat_common, modern_stat_common, get_gb_stat, get_modern_stat, hp,
}

-- `isqrt n` is the greatest number whose square is at most n.
pub isqrt_lem : (n : ℕ) → (isqrt n * isqrt n ≤ n) × (n < (isqrt n + 1) * (isqrt n + 1))
unfolding isqrt
isqrt_lem zero = (omega arith, omega arith)
isqrt_lem (suc n) = ground (arith, isqrt_lem n)

isqrt_step : (n : ℕ) → isqrt n ≤ isqrt (suc n)
unfolding isqrt
isqrt_step n = ground arith

pub isqrt_mono : (m n : ℕ) → m ≤ n → isqrt m ≤ isqrt n
isqrt_mono m zero h = let e : m ≡ 0 = omega arith in rw e (omega arith)
isqrt_mono m (suc n) h = elim (Bool-cases (m == suc n)) [
  | inl e ↦ rw (==→≡ m (suc n) e) (omega arith)
  | inr e ↦ omega (arith, isqrt_step n, isqrt_mono m n (ground arith))
]

-- A product grows with both factors.
scaled_mono : (a b m n : ℕ) → a ≤ b → m ≤ n → a * m / 100 ≤ b * n / 100
scaled_mono a b m n h k =
    omega (arith, mul-le-mul_right {m = a} {n = b} m h, mul-le-mul_left {m = m} {n = n} b k)

gb_stat_common_mono :
    (level level' base_stat base_stat' ev ev' iv iv' : ℕ)
    → level ≤ level'
    → base_stat ≤ base_stat'
    → ev ≤ ev'
    → iv ≤ iv'
    → gb_stat_common level base_stat ev iv ≤ gb_stat_common level' base_stat' ev' iv'
unfolding gb_stat_common
gb_stat_common_mono level level' base_stat base_stat' ev ev' iv iv' hl hb he hi =
    scaled_mono _ _ level level' (omega (arith, isqrt_mono ev ev' he)) hl

-- A stat of the first two generations that `get_gb_stat` returns never gets lower with a higher level,
-- base stat, EV or IV.
pub get_gb_stat_mono :
    (l : StatLimits) (stat level level' base_stat base_stat' : ℕ) (ev ev' iv iv' : ℤ)
    {result result' : ℕ}
    → level ≤ level'
    → base_stat ≤ base_stat'
    → pos_part ev ≤ pos_part ev'
    → pos_part iv ≤ pos_part iv'
    → get_gb_stat l stat level base_stat ev iv ≡ ok result
    → get_gb_stat l stat level' base_stat' ev' iv' ≡ ok result'
    → result ≤ result'
unfolding get_gb_stat
get_gb_stat_mono l stat level level' base_stat base_stat' ev ev' iv iv' hl hb he hi e e' = ground (
  arith,
  gb_stat_common_mono level level' base_stat base_stat' (pos_part ev) (pos_part ev') (pos_part iv)
      (pos_part iv') hl hb he hi,
)

modern_stat_common-ev :
    (level base_stat ev iv : ℕ)
    → modern_stat_common level base_stat (ev + 4) iv
      ≡ modern_stat_common level base_stat ev (iv + 1)
unfolding modern_stat_common
modern_stat_common-ev level base_stat ev iv =
    let e : 2 * base_stat + iv + (ev + 4) / 4 ≡ 2 * base_stat + (iv + 1) + ev / 4 = omega arith in
    ap (λ x. x * level / 100) e

isqrt_byte : (n : ℕ) → n < 65536 → isqrt n < 256
isqrt_byte n h =
    let r = isqrt n in
    elim (Bool-cases (leb 256 r)) [
      | inl e ↦ absurd (
          omega (
            arith,
            isqrt_lem n,
            mul-le-mul_right {m = 256} {n = r} r (ground arith),
            mul-le-mul_left {m = 256} {n = r} 256 (ground arith),
          ))
      | inr e ↦ ground arith
    ]

pub gb_stat_common_bound :
    (level base_stat ev iv : ℕ)
    → level ≤ 100
    → base_stat ≤ 255
    → ev < 65536
    → iv ≤ 15
    → gb_stat_common level base_stat ev iv ≤ 603
unfolding gb_stat_common
gb_stat_common_bound level base_stat ev iv hl hb he hi =
    let h =
      scaled_mono ((base_stat + iv) * 2 + isqrt ev / 4) 603 level 100
        (omega (arith, isqrt_byte ev he)) hl in
    omega arith

-- Four more EVs are worth one more IV: where both are accepted, `get_modern_stat` returns the same.
pub get_modern_stat-ev :
    (l : StatLimits) (stat level nature_modifier base_stat ev iv : ℕ) {result result' : ℕ}
    → get_modern_stat l stat level nature_modifier base_stat (pos (ev + 4)) (pos iv) ≡ ok result
    → get_modern_stat l stat level nature_modifier base_stat (pos ev) (pos (iv + 1)) ≡ ok result'
    → result ≡ result'
unfolding get_modern_stat
get_modern_stat-ev l stat level nature_modifier base_stat ev iv e e' =
    ground (arith, modern_stat_common-ev level base_stat ev iv)

-- With the limits that the header documents, a level of at most 100 and a base stat of at most 255,
-- `get_gb_stat` returns at most 713 for HP and at most 608 for another stat.
pub get_gb_stat_bound :
    (l : StatLimits) (stat level base_stat : ℕ) (ev iv : ℤ) {result : ℕ}
    → IsDocumented l
    → level ≤ 100
    → base_stat ≤ 255
    → get_gb_stat l stat level base_stat ev iv ≡ ok result
    → (result ≤ 713) × ((stat ≢ hp) → result ≤ 608)
unfolding get_gb_stat enforce_ev_bounds enforce_iv_bounds enforce_bounds
get_gb_stat_bound l stat level base_stat ev iv doc hl hb e = ground (
  arith,
  doc.gb_ev_range,
  doc.gb_iv_range,
  gb_stat_common_bound level base_stat (pos_part ev) (pos_part iv) hl hb,
)
