-- ===== src/Common/Outcome.antt =====
-- C++ exceptions as values. An exception is its class; the texts are not modelled, but for the numbers
-- that two of them report.
use mathlib.Core.Path.{◌≡◌, refl}
use mathlib.Core.Bool.{Bool, true, false}
use mathlib.Core.Logic.{◌⊎◌, inl, inr}
use libpkmn.Common.Int.{ℤ}

-- What a `std::runtime_error` says.
pub data Reason : Type 0 where
  no_more_of_item no_new_items no_more_items invalid_item invalid_game invalid_list query_failed :
      Reason
  -- `can_only_add n`: "Can only add n more items."; likewise `can_only_remove n`.
  can_only_add can_only_remove : ℤ → Reason

pub data Exception : Type 0 where
  out_of_range invalid_argument domain_error range_error : Exception
  feature_not_in_game_error unimplemented_error : Exception
  runtime_error : Reason → Exception
  -- `BOOST_ASSERT`, which ends the program.
  assertion_failed : Exception

pub data Result {ℓ} (A : Type ℓ) : Type ℓ where
  ok : A → Result A
  throw : Exception → Result A

-- A check: the exception where it does not hold.
abbrev pub guard : Bool → Exception → Result (Unit {0})
guard holds e = elim holds [ true ↦ ok tt | false ↦ throw e ]

-- The `do` blocks of code that reads and throws, and writes nothing.
infixl 5 ◌>>=◌ ◌>>◌
abbrev pub ◌>>=◌ {ℓ κ} : {A : Type ℓ} → {B : Type κ} → Result A → (A → Result B) → Result B
r >>= next = elim r [ ok value ↦ next value | throw e ↦ throw e ]

abbrev pub ◌>>◌ {ℓ κ} : {A : Type ℓ} → {B : Type κ} → Result A → Result B → Result B
r >> next = r >>= (λ _. next)

pub Result-cases {ℓ} :
    {A : Type ℓ} (r : Result A) → ((a : A) × (r ≡ ok a)) ⊎ ((e : Exception) × (r ≡ throw e))
Result-cases (ok a) = inl (a, refl)
Result-cases (throw e) = inr (e, refl)
