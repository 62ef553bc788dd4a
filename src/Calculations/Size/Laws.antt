-- ===== src/Calculations/Size/Laws.antt =====
-- What `get_s` of lib/calculations/size.cpp finds depends on the order of the table's keys.
use libpkmn.Common.{
  ℕ, ◌≤◌, ◌<◌, min, ◌≡◌, refl, sym, ◌∙◌, inl, inr, false, List, [], ◌∷◌, arith, leb, ◌==◌,
  if◌then◌else◌, ≢→==, Bool-cases, erase_idx,
}
use libpkmn.Calculations.Size.{xyz_keys, walk_keys, get_s}

-- The least key that is at least s, if it is under `above`, whatever the order of the keys.
abbrev pub least_key : ℕ → ℕ → List ℕ → ℕ
least_key s above [] = above
least_key s above (key ∷ keys) =
    let rest = least_key s above keys in if leb s key then min key rest else rest

-- The keys descend from below `above`.
abbrev pub Descends : ℕ → List ℕ → Type 0
Descends above [] = Unit
Descends above (key ∷ keys) = (key < above) × Descends key keys

Descends-le : (low high : ℕ) (keys : List ℕ) → low ≤ high → Descends low keys → Descends high keys
Descends-le low high [] le h = tt
Descends-le low high (key ∷ keys) le h = (omega arith, h.1)

walk_keys-missed :
    (s last ret : ℕ) (keys : List ℕ) → Descends s keys → walk_keys s last ret keys ≡ ret
unfolding walk_keys
walk_keys-missed s last ret [] h = refl
walk_keys-missed s last ret (key ∷ keys) h =
    ground (arith, walk_keys-missed s key ret keys (Descends-le key s keys (omega arith) h.1), h.0)

least_key-missed : (s above : ℕ) (keys : List ℕ) → Descends s keys → least_key s above keys ≡ above
least_key-missed s above [] h = refl
least_key-missed s above (key ∷ keys) h =
    ground (arith, least_key-missed s above keys (Descends-le key s keys (omega arith) h.1), h.0)

min-least_key :
    (s low high : ℕ) (keys : List ℕ)
    → low ≤ high
    → min low (least_key s high keys) ≡ least_key s low keys
min-least_key s low high [] le = omega arith
min-least_key s low high (key ∷ keys) le = ground (arith, min-least_key s low high keys le)

-- With keys that descend from below `above`, the loop finds the least one that is at least s.
walk_keys-Descends :
    (s last above : ℕ) (keys : List ℕ)
    → last < s
    → Descends above keys
    → walk_keys s last above keys ≡ least_key s above keys
unfolding walk_keys
walk_keys-Descends s last above [] lt h = refl
walk_keys-Descends s last above (key ∷ keys) lt h = elim (Bool-cases (leb s key)) [
  | inl e ↦ ground (
    arith,
    walk_keys-Descends s last key keys lt h.1,
    min-least_key s key above keys (omega (arith, h.0)),
  )
  | inr e ↦
      let low : Descends s keys = Descends-le key s keys (ground arith) h.1 in
      ground (arith, walk_keys-missed s key above keys low, least_key-missed s above keys low)
]

abbrev pub last_or : ℕ → List ℕ → ℕ
last_or ret [] = ret
last_or ret (key ∷ keys) = last_or key keys

-- The keys ascend from above `below`.
abbrev pub Ascends : ℕ → List ℕ → Type 0
Ascends below [] = Unit
Ascends below (key ∷ keys) = (below < key) × Ascends key keys

walk_keys-hit :
    (s last ret below : ℕ) (keys : List ℕ)
    → last < s
    → s ≤ below
    → Ascends below keys
    → walk_keys s last ret keys ≡ last_or ret keys
unfolding walk_keys
walk_keys-hit s last ret below [] lt le h = refl
walk_keys-hit s last ret below (key ∷ keys) lt le h =
    ground (arith, walk_keys-hit s last key key keys lt (omega (arith, h.0)) h.1, h.0)

-- In ascending order the loop does not stop at the first key that is at least s, and finds the last one.
walk_keys-Ascends :
    (s last ret below : ℕ) (keys : List ℕ)
    → last < s
    → Ascends below keys
    → s ≤ last_or 0 keys
    → walk_keys s last ret keys ≡ last_or ret keys
unfolding walk_keys
walk_keys-Ascends s last ret below [] lt h le = absurd (omega arith)
walk_keys-Ascends s last ret below (key ∷ []) lt h le = ground arith
walk_keys-Ascends s last ret below (key ∷ k ∷ keys) lt h le = elim (Bool-cases (leb s key)) [
  | inl e ↦ ground (arith, walk_keys-hit s last key key (k ∷ keys) lt (ground arith) h.1)
  | inr e ↦ ground (arith, walk_keys-Ascends s key ret key (k ∷ keys) (ground arith) h.1 le)
]

abbrev pub descending_keys : List ℕ
descending_keys =
    65535 ∷ 65409 ∷ 65209 ∷ 64709 ∷ 62709 ∷ 57709 ∷ 47709 ∷ 32709 ∷ 17709 ∷ 7709 ∷ 2709 ∷ 709 ∷ 309
    ∷ 109 ∷ 9 ∷ []

first_key :
    (s : ℕ) (keys : List ℕ)
    → 1 ≤ s
    → s ≤ 65535
    → walk_keys s 0 0 (65535 ∷ keys) ≡ walk_keys s 0 65535 keys
unfolding walk_keys
first_key s keys lo hi = ground arith

first_least :
    (s : ℕ) (keys : List ℕ) → s ≤ 65535 → least_key s 65535 (65535 ∷ keys) ≡ least_key s 65535 keys
first_least s keys hi = ground (arith, min-least_key s 65535 65535 keys)

-- For every number from 1 to 65535, the order in which the table's keys are met decides what `get_s`
-- finds: in descending order the least key that is at least the number, in ascending order, in which the
-- source lists them, the greatest key, 65535.
pub get_s_lem :
    (s : ℕ)
    → 1 ≤ s
    → s ≤ 65535
    → (get_s descending_keys s ≡ least_key s 65535 descending_keys) × (get_s xyz_keys s ≡ 65535)
unfolding get_s
get_s_lem s lo hi =
    let rest = erase_idx descending_keys 0 in
    let down = walk_keys-Descends s 0 65535 rest lo (omega arith) in
    let up = walk_keys-Ascends s 0 0 0 xyz_keys lo (omega arith) hi in
    let first = first_key s rest lo hi in
    let zero_not : (s == 0) ≡ false = ≢→== s 0 (omega arith) in
    (rw zero_not (first ∙ down ∙ sym (first_least s rest hi)), rw zero_not up)
