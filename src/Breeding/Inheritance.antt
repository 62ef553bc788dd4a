-- ===== src/Breeding/Inheritance.antt =====
-- Which moves `get_child_moves` of lib/breeding/child_info.cpp gives a child.
use libpkmn.Common.{
  ℕ, ◌≤◌, ◌<◌, ◌≡◌, refl, sym, ap, ◌∙◌, ◌↔◌, ◌⊎◌, inl, inr, Bool, true, false, ◌||◌, List, [], ◌∷◌,
  ◌++◌, ltb, ◌==◌, ==→≡, if◌then◌else◌, length, arith, Bool-cases, length-append,
}
use libpkmn.Enforce.{does_vector_contain_value}
use libpkmn.Breeding.ChildMoves.{add_moves}

abbrev pub has : List ℕ → ℕ → Bool
has l m = does_vector_contain_value l m

has-append : (l : List ℕ) (x m : ℕ) → has (l ++ x ∷ []) m ≡ (has l m || x == m)
unfolding does_vector_contain_value
has-append [] x m = ground arith
has-append (y ∷ l) x m = ground (arith, has-append l x m)

-- At most four moves, all of which `IsGiven`; with less than four, all that are given.
pub record IsStage (IsGiven : ℕ → Type 0) (child_moves : List ℕ) : Type 0 where
  pub room : length child_moves ≤ 4
  pub sound : (move : ℕ) → has child_moves move ≡ true → IsGiven move
  pub complete : length child_moves < 4 → (move : ℕ) → IsGiven move → has child_moves move ≡ true

pub IsStage-same :
    {S T : ℕ → Type 0} (l : List ℕ) → IsStage S l → ((m : ℕ) → S m ↔ T m) → IsStage T l
IsStage-same l h same = record {
  room = h.room;
  sound = λ m e. (same m).0 (h.sound m e);
  complete = λ lt m given. h.complete lt m ((same m).1 given);
}

-- A full list stays one, whatever else is given.
pub IsStage-full :
    {S : ℕ → Type 0} (T : ℕ → Type 0) (l : List ℕ)
    → IsStage S l
    → ltb (length l) 4 ≡ false
    → IsStage (λ m. S m ⊎ T m) l
IsStage-full T l h full = record {
  room = h.room;
  sound = λ m e. inl (h.sound m e);
  complete = λ lt. absurd (ground arith);
}

-- One turn of a loop: c says whether x is added.
pub IsStage-append :
    {S : ℕ → Type 0} (x : ℕ) (c : Bool) (l : List ℕ)
    → IsStage S l
    → ltb (length l) 4 ≡ true
    → IsStage (λ m. S m ⊎ (((x == m) ≡ true) × (c ≡ true))) (if c then l ++ x ∷ [] else l)
IsStage-append x true l h lt = record {
  room = ground (arith, length-append l (x ∷ []));
  sound = λ m. elim (Bool-cases (has l m)) [
    | inl e ↦ λ _. inl (h.sound m e)
    | inr e ↦ rw (has-append l x m, e) (λ same. inr (same, refl))
  ];
  complete = λ _ m given. rw (has-append l x m) (elim given [
    | inl g ↦ rw (h.complete (ground arith) m g) refl
    | inr (same, _) ↦ ground arith
  ]);
}
IsStage-append x false l h lt = record {
  room = h.room;
  sound = λ m e. inl (h.sound m e);
  complete = λ lt m given. elim given [ inl g ↦ h.complete lt m g | inr (_, e) ↦ cc ];
}

here_or_later :
    (p : ℕ → Bool) (x : ℕ) (moves : List ℕ) (G : Type 0) (m : ℕ)
    → ((G ⊎ (((x == m) ≡ true) × (p x ≡ true))) ⊎ ((has moves m ≡ true) × (p m ≡ true)))
      ↔ (G ⊎ ((has (x ∷ moves) m ≡ true) × (p m ≡ true)))
unfolding does_vector_contain_value
here_or_later p x moves G m = (
  λ h. elim h [
    | inl (inl g) ↦ inl g
    | inl (inr (same, e)) ↦ inr (ground arith, sym (ap p (==→≡ x m same)) ∙ e)
    | inr (e, q) ↦ inr (ground arith, q)
  ],
  λ h. elim h [
    | inl g ↦ inl (inl g)
    | inr (e, q) ↦ elim (Bool-cases (x == m)) [
      | inl same ↦ inl (inr (same, ap p (==→≡ x m same) ∙ q))
      | inr ne ↦ inr (ground arith, q)
    ]
  ],
)

pub add_moves_lem :
    (p : ℕ → Bool) (moves child_moves : List ℕ) (IsGiven : ℕ → Type 0)
    → IsStage IsGiven child_moves
    → IsStage
        (λ m. IsGiven m ⊎ ((has moves m ≡ true) × (p m ≡ true)))
        (add_moves p moves child_moves)
unfolding add_moves does_vector_contain_value
add_moves_lem p [] child_moves IsGiven h = record {
  room = h.room;
  sound = λ m e. inl (h.sound m e);
  complete = λ lt m given. elim given [ inl g ↦ h.complete lt m g | inr (e, _) ↦ cc ];
}
add_moves_lem p (x ∷ moves) child_moves IsGiven h = elim (Bool-cases (ltb (length child_moves) 4)) [
  | inr full ↦
      rw full (IsStage-full (λ m. (has (x ∷ moves) m ≡ true) × (p m ≡ true)) child_moves h full)
  | inl open_place ↦ rw open_place (
      IsStage-same _ (add_moves_lem p moves _ _ (IsStage-append x (p x) child_moves h open_place))
        (λ m. here_or_later p x moves (IsGiven m) m))
]
