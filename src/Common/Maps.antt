-- ===== src/Common/Maps.antt =====
-- `std::map`s whose keys are numbers, and one digit of a number.
use Prim.Native.Nat.{ℕ, zero, suc, ◌+◌, ◌*◌, ◌/◌, ◌%◌, ◌^◌, ◌<◌}
use mathlib.Core.Path.{◌≡◌}
use mathlib.Core.Bool.{Bool, true, false}
use mathlib.Core.Option.{Option, none, some}
use mathlib.Core.List.{List, [], ◌∷◌}
use native.Mathlib.Omega.{arith}
use libpkmn.Common.Tests.{◌==◌, if◌then◌else◌}
use libpkmn.Common.Bits.{bit}

abbrev pub Dict {ℓ} : Type ℓ → Type ℓ
Dict V = List (ℕ × V)

module _ {ℓ} {V : Type ℓ} where
  unfoldable pub lookup : ℕ → Dict V → Option V
  lookup k [] = none
  lookup k ((j, w) ∷ d) = let rest = lookup k d in if k == j then some w else rest

  -- `d[k] = v`
  unfoldable pub insert : ℕ → V → Dict V → Dict V
  insert k v [] = (k, v) ∷ []
  insert k v ((j, w) ∷ d) = let rest = insert k v d in if k == j then (k, v) ∷ d else (j, w) ∷ rest

  pub lookup-insert :
      (j k : ℕ) (v : V) (d : Dict V)
      → lookup j (insert k v d) ≡ (if j == k then some v else lookup j d)
  unfolding insert lookup
  lookup-insert j k v [] = ground arith
  lookup-insert j k v ((i, w) ∷ d) = ground (arith, lookup-insert j k v d)

-- `count(k) > 0`
abbrev pub has_key {ℓ} : {V : Type ℓ} → ℕ → Dict V → Bool
has_key k d = elim (lookup k d) [ none ↦ false | some _ ↦ true ]

-- `x |= 1 << i` where v holds, else `x &= ~(1 << i)`.
unfoldable pub set_bit : ℕ → ℕ → Bool → ℕ
set_bit x zero v = x / 2 * 2 + (if v then 1 else 0)
set_bit x (suc i) v = set_bit (x / 2) i v * 2 + x % 2

pub bit-set_bit :
    (x i j : ℕ) (v : Bool)
    → bit (set_bit x i v) j ≡ (if j == i then (if v then 1 else 0) else bit x j)
unfolding set_bit
bit-set_bit x zero zero true = omega arith
bit-set_bit x zero zero false = omega arith
bit-set_bit x zero (suc j) true =
    let e : (x / 2 * 2 + 1) / 2 ≡ x / 2 = omega arith in rw e (ground arith)
bit-set_bit x zero (suc j) false =
    let e : (x / 2 * 2 + 0) / 2 ≡ x / 2 = omega arith in rw e (ground arith)
bit-set_bit x (suc i) zero v = ground arith
bit-set_bit x (suc i) (suc j) v =
    let e : (set_bit (x / 2) i v * 2 + x % 2) / 2 ≡ set_bit (x / 2) i v = omega arith in
    rw (e, bit-set_bit (x / 2) i j v) (ground arith)

pub power_suc : (n : ℕ) → 2 ^ suc n ≡ 2 ^ n * 2
power_suc n = omega arith

pub set_bit_bound : (x i n : ℕ) (v : Bool) → i < n → x < 2 ^ n → set_bit x i v < 2 ^ n
unfolding set_bit
set_bit_bound x i zero v h b = absurd (omega arith)
set_bit_bound x zero (suc n) true h b = omega (arith, power_suc n)
set_bit_bound x zero (suc n) false h b = omega (arith, power_suc n)
set_bit_bound x (suc i) (suc n) v h b =
    let rec = set_bit_bound (x / 2) i n v (omega arith) (omega (arith, power_suc n)) in
    omega (arith, power_suc n)
