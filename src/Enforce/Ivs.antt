-- ===== src/Enforce/Ivs.antt =====
-- Several IVs are checked one after the other by `enforce_IV_bounds` (lib/exception_internal.hpp) in each
-- of the calculations that take all of a Pokémon's IVs.
use libpkmn.Common.{
  ◌≡◌, ◌⊎◌, inl, inr, refl, Bool, List, [], ◌∷◌, All, ℤ, ◌≤ℤ◌, Result, ok, throw, ◌>>◌,
  out_of_range, if◌then◌else◌,
}
use libpkmn.Enforce.{StatLimits, enforce_iv_bounds}
use libpkmn.Enforce.Laws.{enforce_bounds_lem}

module _ (l : StatLimits) (is_game_modern : Bool) where
  abbrev pub IsIv : ℤ → Type 0
  IsIv iv =
      ((if is_game_modern then l.min_iv else l.min_gb_iv) ≤ℤ iv)
      × (iv ≤ℤ (if is_game_modern then l.max_iv else l.max_gb_iv))

  unfoldable pub check_ivs : List ℤ → Result (Unit {0})
  check_ivs [] = ok tt
  check_ivs (iv ∷ ivs) = enforce_iv_bounds l iv is_game_modern >> check_ivs ivs

  -- Checks in a row, and what follows them, are the check of the list.
  pub check_ivs_lem :
      (ivs : List ℤ)
      → ((check_ivs ivs ≡ ok tt) × All IsIv ivs)
        ⊎ ((check_ivs ivs ≡ throw out_of_range) × ¬ All IsIv ivs)
  unfolding check_ivs enforce_iv_bounds
  check_ivs_lem [] = inl (refl, tt)
  check_ivs_lem (iv ∷ ivs) =
      let min = if is_game_modern then l.min_iv else l.min_gb_iv in
      let max = if is_game_modern then l.max_iv else l.max_gb_iv in
      elim (enforce_bounds_lem iv min max) [
        | inl (passed, lo, hi) ↦ rw passed (elim (check_ivs_lem ivs) [
          | inl (e, k) ↦ inl (e, ((lo, hi), k))
          | inr (e, k) ↦ inr (e, λ p. k p.1)
        ])
        | inr (refused, h) ↦ rw refused (inr (refl, λ p. h p.0))
      ]
