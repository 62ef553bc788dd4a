-- ===== src/Calculations/Size.antt =====
-- Sizes: the loop `get_s` of lib/calculations/size.cpp, which looks a number up in a table. The table is
-- a `std::unordered_map`, so the order in which the loop meets its keys is a parameter.
pub mod Laws
use libpkmn.Common.{
  bit, bit_xor-halves, ℕ, zero, suc, ◌+◌, ◌-◌, ◌*◌, ◌/◌, ◌%◌, ◌^◌, ◌≤◌, ◌<◌, min, max, bit_and,
  bit_or, bit_xor, ◌≡◌, refl, sym, ap, ◌∙◌, subst, ◌≢◌, ◌↔◌, ◌⊎◌, inl, inr, Bool, true, false, not,
  ◌&&◌, ◌||◌, Option, none, some, List, [], ◌∷◌, ◌++◌, map, arith, ltb, leb, ◌==◌, if◌then◌else◌,
  ==→≡, ==_refl, ≢→==, Bool-cases, Option-cases, length, get_elem?, get_or, set, erase_idx,
  insert_idx, resize, replicate, All, length-append, length-set, length-resize, length-erase_idx,
  length-insert_idx, length-replicate, length-map, get_or-set_self, get_or-set_ne, ℤ, pos, negsuc,
  pos_part, neg_part, sub_ℕ, eq_ℤ, min_ℤ, ◌≤ℤ◌, ltb_ℤ, Reason, no_more_of_item, no_new_items,
  no_more_items, invalid_item, invalid_game, invalid_list, query_failed, can_only_add,
  can_only_remove, Exception, out_of_range, invalid_argument, domain_error, range_error,
  feature_not_in_game_error, unimplemented_error, runtime_error, Result, ok, throw, guard,
  Result-cases,
}

-- The keys of `XYZ`, as the source lists them.
abbrev pub xyz_keys : List ℕ
xyz_keys =
    9 ∷ 109 ∷ 309 ∷ 709 ∷ 2709 ∷ 7709 ∷ 17709 ∷ 32709 ∷ 47709 ∷ 57709 ∷ 62709 ∷ 64709 ∷ 65209
    ∷ 65409 ∷ 65535 ∷ []

-- The loop, with `last_value` and `ret`.
unfoldable pub walk_keys : ℕ → ℕ → ℕ → List ℕ → ℕ
walk_keys s_from_calculation last_value ret [] = ret
walk_keys s_from_calculation last_value ret (key ∷ keys) =
    let hit = walk_keys s_from_calculation last_value key keys in
    let miss = walk_keys s_from_calculation key ret keys in
    if ltb last_value s_from_calculation && leb s_from_calculation key then hit else miss

unfoldable pub get_s : List ℕ → ℕ → ℕ
unfolding walk_keys
get_s order s_from_calculation =
    if s_from_calculation == 0 then 9 else walk_keys s_from_calculation 0 0 order
