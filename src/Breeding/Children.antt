-- ===== src/Breeding/Children.antt =====
-- The result of `get_child_moves` of lib/breeding/child_info.cpp, and when it throws.
use libpkmn.Common.{
  ℕ, zero, suc, ◌≤◌, ◌≡◌, ◌≢◌, refl, ap, ◌⊎◌, inl, inr, true, false, List, [], ◌∷◌, ◌==◌, ==→≡,
  length, resize, arith, Result, ok, throw, invalid_argument, Bool-cases, length-resize, ltb,
}
use libpkmn.Enforce.{does_vector_contain_value}
use libpkmn.Breeding.ChildMoves.{Parent, ChildEntry, none_move, inherited_moves, get_child_moves}
use libpkmn.Breeding.Inheritance.{has, IsStage}
use libpkmn.Breeding.Inherited.{IsInherited, inherited_moves-IsStage}

has-resize :
    (n : ℕ) (l : List ℕ) (m : ℕ)
    → has (resize n none_move l) m ≡ true
    → (m ≡ none_move) ⊎ (has l m ≡ true)
unfolding does_vector_contain_value
has-resize zero l m h = cc
has-resize (suc n) [] m h = ground (arith, has-resize n [] m)
has-resize (suc n) (x ∷ l) m h = ground (arith, has-resize n l m)

resize-has :
    (n : ℕ) (l : List ℕ) (m : ℕ)
    → length l ≤ n
    → has l m ≡ true
    → has (resize n none_move l) m ≡ true
unfolding does_vector_contain_value
resize-has n [] m le h = cc
resize-has zero (x ∷ l) m le h = ground arith
resize-has (suc n) (x ∷ l) m le h = ground (arith, resize-has n l m)

resize_full : (n : ℕ) (l : List ℕ) → length l ≡ n → resize n none_move l ≡ l
resize_full zero [] e = refl
resize_full zero (x ∷ l) e = absurd (omega arith)
resize_full (suc n) [] e = absurd (omega arith)
resize_full (suc n) (x ∷ l) e = ap (λ t. x ∷ t) (resize_full n l (omega arith))

-- Four moves that may be inherited, or all that may be and no other.
pub record IsOffspring (IsGiven : ℕ → Type 0) (moves : List ℕ) : Type 0 where
  pub four : length moves ≡ 4
  pub moves_sound : (m : ℕ) → has moves m ≡ true → (m ≡ none_move) ⊎ IsGiven m
  pub moves_complete :
      ((m : ℕ) → has moves m ≡ true → IsGiven m) ⊎ ((m : ℕ) → IsGiven m → has moves m ≡ true)

resize-IsOffspring :
    (IsGiven : ℕ → Type 0) (l : List ℕ)
    → IsStage IsGiven l
    → IsOffspring IsGiven (resize 4 none_move l)
resize-IsOffspring IsGiven l h = record {
  four = length-resize 4 none_move l;
  moves_sound = λ m e. elim (has-resize 4 l m e) [
    | inl none_there ↦ inl none_there
    | inr there ↦ inr (h.sound m there)
  ];
  moves_complete = elim (Bool-cases (ltb (length l) 4)) [
    | inl some_left ↦ inr (λ m given. resize-has 4 l m h.room (h.complete (ground arith) m given))
    | inr full ↦ inl (λ m. rw (resize_full 4 l (ground (arith, h.room))) (h.sound m))
  ];
}

module _ (possible : ℕ → ℕ → ℕ → Result (List ℕ)) (entry_of : ℕ → ℕ → Result ChildEntry)
    (generation_of : ℕ → Result ℕ) where
  -- Where the parents come from one game and the child is a possible one, `get_child_moves` returns
  -- four moves: every one may be inherited or is `e_move::NONE`, and either all four may be
  -- inherited, or every move that may be is among them. Else it throws.
  pub get_child_moves_lem :
      (mother father : Parent) (child_species generation : ℕ) (species : List ℕ)
      (entry : ChildEntry)
      → possible mother.parent_species father.parent_species mother.parent_game ≡ ok species
      → generation_of mother.parent_game ≡ ok generation
      → entry_of child_species mother.parent_game ≡ ok entry
      → let r = get_child_moves possible entry_of generation_of mother father child_species in
        ((mother.parent_game ≡ father.parent_game)
          × (has species child_species ≡ true)
          × (moves : List ℕ) × (r ≡ ok moves)
          × IsOffspring (IsInherited mother father entry child_species generation) moves)
        ⊎ (((mother.parent_game ≢ father.parent_game) ⊎ (has species child_species ≡ false))
            × (r ≡ throw invalid_argument))
  unfolding get_child_moves
  get_child_moves_lem mother father child_species generation species entry possible_is generation_is
        entry_is =
      elim (Bool-cases (mother.parent_game == father.parent_game)) [
        | inr differ ↦ inr (inl (λ e. ground arith), rw differ refl)
        | inl same ↦ elim (Bool-cases (has species child_species)) [
          | inr impossible ↦ inr (inr impossible, rw (same, possible_is, impossible) refl)
          | inl allowed ↦ inl (
            ==→≡ _ _ same,
            allowed,
            resize 4 none_move (inherited_moves mother father entry child_species generation),
            rw (same, possible_is, allowed, generation_is, entry_is) refl,
            resize-IsOffspring _ _
                (inherited_moves-IsStage mother father entry child_species generation),
          )
        ]
      ]
