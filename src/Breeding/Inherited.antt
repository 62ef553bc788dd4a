-- ===== src/Breeding/Inherited.antt =====
-- Which moves `get_child_moves` of lib/breeding/child_info.cpp gives a child: the parts of the function
-- after one another, and its result.
use libpkmn.Common.{
  ℕ, ◌≤◌, ◌≡◌, refl, ◌↔◌, ◌⊎◌, inl, inr, Bool, true, false, ◌&&◌, List, [], ◌∷◌, ltb, leb, ◌==◌,
  if◌then◌else◌, length, map, arith, Bool-cases,
}
use libpkmn.Enforce.{does_vector_contain_value}
use libpkmn.Pokemon.DefaultMoves.{LevelupMove}
use libpkmn.Breeding.ChildMoves.{
  Parent, ChildEntry, volt_tackle, add_moves, add_natural_moves, knows_volt_tackle, while_room,
  add_volt_tackle, add_egg_moves, add_machine_moves, add_tutor_moves, add_levelups,
  add_levelup_moves, inherited_moves, crystal,
}
use libpkmn.Breeding.Inheritance.{
  has, IsStage, IsStage-same, IsStage-full, IsStage-append, add_moves_lem,
}

-- The moves at the start of the list that are not above the level.
unfoldable pub natural_moves : ℕ → List LevelupMove → List ℕ
natural_moves level [] = []
natural_moves level (m ∷ moves) =
    let rest = natural_moves level moves in if leb m.level level then m.move_id ∷ rest else []

here_or_naturally :
    (x : ℕ) (moves : List ℕ) (G : Type 0) (m : ℕ)
    → ((G ⊎ (((x == m) ≡ true) × (true ≡ true))) ⊎ (has moves m ≡ true))
      ↔ (G ⊎ (has (x ∷ moves) m ≡ true))
unfolding does_vector_contain_value
here_or_naturally x moves G m = (
  λ h. elim h [
    | inl (inl g) ↦ inl g
    | inl (inr (same, _)) ↦ inr (ground arith)
    | inr e ↦ inr (ground arith)
  ],
  λ h. elim h [
    | inl g ↦ inl (inl g)
    | inr e ↦ elim (Bool-cases (x == m)) [
      | inl same ↦ inl (inr (same, refl))
      | inr ne ↦ inr (ground arith)
    ]
  ],
)

nothing_given : {G : Type 0} (m : ℕ) → G ↔ (G ⊎ (has [] m ≡ true))
unfolding does_vector_contain_value
nothing_given m = (λ g. inl g, λ h. elim h [ inl g ↦ g | inr e ↦ cc ])

add_natural_moves_lem :
    (level : ℕ) (moves : List LevelupMove) (child_moves : List ℕ) (IsGiven : ℕ → Type 0)
    → IsStage IsGiven child_moves
    → IsStage
        (λ m. IsGiven m ⊎ (has (natural_moves level moves) m ≡ true))
        (add_natural_moves level moves child_moves)
unfolding add_natural_moves natural_moves
add_natural_moves_lem level [] child_moves IsGiven h =
    IsStage-same child_moves h (λ m. nothing_given m)
add_natural_moves_lem level (x ∷ moves) child_moves IsGiven h =
    elim (Bool-cases (ltb (length child_moves) 4)) [
      | inr full ↦
          rw full
            (IsStage-full (λ m. has (natural_moves level (x ∷ moves)) m ≡ true) child_moves h full)
      | inl open_place ↦ elim (Bool-cases (leb x.level level)) [
        | inr above ↦ rw (open_place, above) (IsStage-same child_moves h (λ m. nothing_given m))
        | inl low ↦
            rw (open_place, low)
              (IsStage-same _
                (add_natural_moves_lem level moves _ _
                  (IsStage-append x.move_id true child_moves h open_place))
                (λ m. here_or_naturally x.move_id (natural_moves level moves) (IsGiven m) m))
      ]
    ]

while_room_lem :
    {S T : ℕ → Type 0} (c : Bool) (f : List ℕ → List ℕ) (l : List ℕ)
    → IsStage S l
    → IsStage (λ m. S m ⊎ T m) (f l)
    → IsStage (λ m. S m ⊎ ((c ≡ true) × T m)) (while_room c f l)
while_room_lem {S} {T} true f l h h' = elim (Bool-cases (ltb (length l) 4)) [
  | inr full ↦ rw full (IsStage-full (λ m. (true ≡ true) × T m) l h full)
  | inl open_place ↦ rw open_place (
      IsStage-same (f l) h' (λ m. (
        λ g. elim g [ inl s ↦ inl s | inr t ↦ inr (refl, t) ],
        λ g. elim g [ inl s ↦ inl s | inr (_, t) ↦ inr t ],
      )))
]
while_room_lem {S} {T} false f l h h' = elim (Bool-cases (ltb (length l) 4)) [
  | inr full ↦ rw full (IsStage-full (λ m. (false ≡ true) × T m) l h full)
  | inl open_place ↦
      rw open_place
        (IsStage-same l h (λ m. (λ s. inl s, λ g. elim g [ inl s ↦ s | inr (e, t) ↦ cc ])))
]

has-empty : (l : List ℕ) (m : ℕ) → (length l == 0) ≡ true → has l m ≡ true → ⊥
unfolding does_vector_contain_value
has-empty [] m e h = cc
has-empty (x ∷ l) m e h = ground arith

module _ (mother father : Parent) (entry : ChildEntry) (child_species generation : ℕ) where
  -- The moves that a child may inherit, and from whom.
  abbrev pub IsInherited : ℕ → Type 0
  IsInherited m =
      ((m ≡ volt_tackle) × (knows_volt_tackle mother father child_species generation ≡ true))
      ⊎ ((has entry.egg_moves m ≡ true)
          × ((has mother.parent_moves m ≡ true) ⊎ (has father.parent_moves m ≡ true)))
      ⊎ ((generation ≤ 5) × (has father.parent_moves m ≡ true) × (has entry.tm_hm_moves m ≡ true))
      ⊎ ((mother.parent_game ≡ crystal)
          × (has father.parent_moves m ≡ true)
          × (has entry.tutor_moves m ≡ true))
      ⊎ ((has mother.parent_moves m ≡ true)
          × (has father.parent_moves m ≡ true)
          × (has (map (λ l. l.move_id) entry.levelup_moves) m ≡ true))
      ⊎ (has (natural_moves (if leb 4 generation then 1 else 5) entry.levelup_moves) m ≡ true)

  abbrev IsVoltTackle : ℕ → Type 0
  IsVoltTackle m =
      (m ≡ volt_tackle) × (knows_volt_tackle mother father child_species generation ≡ true)

  volt_tackle_lem :
      IsStage IsVoltTackle (add_volt_tackle mother father entry child_species generation)
  unfolding does_vector_contain_value
  volt_tackle_lem = elim (Bool-cases (knows_volt_tackle mother father child_species generation)) [
    | inl e ↦ rw e (record {
      room = omega arith;
      sound = λ m h. (ground arith, e);
      complete = λ lt m (same, _). ground arith;
    })
    | inr e ↦ rw e (record { room = omega arith; sound = λ m h. cc; complete = λ lt m (_, h). cc })
  ]

  -- By the mother or by the father.
  abbrev IsEggMove : ℕ → Type 0
  IsEggMove m =
      (has entry.egg_moves m ≡ true)
      × ((has mother.parent_moves m ≡ true) ⊎ (has father.parent_moves m ≡ true))

  add_egg_moves_lem :
      {S : ℕ → Type 0} (l : List ℕ)
      → IsStage S l
      → IsStage
          (λ m. S m ⊎ IsEggMove m)
          (add_egg_moves mother father entry child_species generation l)
  unfolding add_egg_moves
  add_egg_moves_lem {S} l h = elim (Bool-cases (length entry.egg_moves == 0)) [
    | inl none_known ↦ rw none_known (
        IsStage-same l h (λ m. (
          λ s. inl s,
          λ g. elim g [
            | inl s ↦ s
            | inr (e, _) ↦ absurd (has-empty entry.egg_moves m none_known e)
          ],
        )))
    | inr some_known ↦ rw some_known (
        IsStage-same _
          (add_moves_lem (has entry.egg_moves) father.parent_moves _ _
            (add_moves_lem (has entry.egg_moves) mother.parent_moves l S h))
          (λ m. (
            λ g. elim g [
              | inl (inl s) ↦ inl s
              | inl (inr (e, egg)) ↦ inr (egg, inl e)
              | inr (e, egg) ↦ inr (egg, inr e)
            ],
            λ g. elim g [
              | inl s ↦ inl (inl s)
              | inr (egg, inl e) ↦ inl (inr (e, egg))
              | inr (egg, inr e) ↦ inr (e, egg)
            ],
          )))
  ]

  abbrev IsTaught : List ℕ → ℕ → Type 0
  IsTaught moves m = (has father.parent_moves m ≡ true) × (has moves m ≡ true)

  abbrev IsShared : ℕ → Type 0
  IsShared m =
      (has mother.parent_moves m ≡ true)
      × (has father.parent_moves m ≡ true)
      × (has (map (λ l. l.move_id) entry.levelup_moves) m ≡ true)

  abbrev IsNatural : ℕ → Type 0
  IsNatural m = has (natural_moves (if leb 4 generation then 1 else 5) entry.levelup_moves) m ≡ true

  abbrev shared_by : ℕ → Bool
  shared_by m = has mother.parent_moves m && has father.parent_moves m

  shared_lem :
      (m : ℕ)
      → has mother.parent_moves m ≡ true
      → has father.parent_moves m ≡ true
      → shared_by m ≡ true
  shared_lem m e e' = rw (e, e') refl

  add_levelup_moves_lem :
      {S : ℕ → Type 0} (l : List ℕ)
      → IsStage S l
      → IsStage
          (λ m. S m ⊎ ((true ≡ true) × (IsShared m ⊎ IsNatural m)))
          (add_levelup_moves mother father entry child_species generation l)
  unfolding add_levelup_moves
  add_levelup_moves_lem {S} l h =
      while_room_lem true (add_levelups mother father entry child_species generation) l h (
        IsStage-same _
          (add_natural_moves_lem _ entry.levelup_moves _ _ (add_moves_lem shared_by _ l S h))
          (λ m. (
            λ g. elim g [
              | inl (inl s) ↦ inl s
              | inl (inr (e, both)) ↦ inr (inl (ground arith, ground arith, e))
              | inr e ↦ inr (inr e)
            ],
            λ g. elim g [
              | inl s ↦ inl (inl s)
              | inr (inl (e, e', e'')) ↦ inl (inr (e'', shared_lem m e e'))
              | inr (inr e) ↦ inr e
            ],
          )))

  pub inherited_moves-IsStage :
      IsStage IsInherited (inherited_moves mother father entry child_species generation)
  unfolding inherited_moves add_machine_moves add_tutor_moves
  inherited_moves-IsStage =
      let eggs = add_egg_moves_lem _ volt_tackle_lem in
      let machines =
        while_room_lem (leb generation 5) (add_moves (has entry.tm_hm_moves) father.parent_moves) _
          eggs (add_moves_lem (has entry.tm_hm_moves) father.parent_moves _ _ eggs) in
      let tutors =
        while_room_lem (mother.parent_game == crystal)
          (add_moves (has entry.tutor_moves) father.parent_moves) _ machines
          (add_moves_lem (has entry.tutor_moves) father.parent_moves _ _ machines) in
      IsStage-same _ (add_levelup_moves_lem _ tutors) (λ m. (
        λ g. elim g [
          | inl (inl (inl (inl v))) ↦ inl v
          | inl (inl (inl (inr e))) ↦ inr (inl e)
          | inl (inl (inr (c, t))) ↦ inr (inr (inl (ground arith, t.0, t.1)))
          | inl (inr (c, t)) ↦ inr (inr (inr (inl (ground arith, t.0, t.1))))
          | inr (_, inl shared) ↦ inr (inr (inr (inr (inl shared))))
          | inr (_, inr natural) ↦ inr (inr (inr (inr (inr natural))))
        ],
        λ g. elim g [
          | inl v ↦ inl (inl (inl (inl v)))
          | inr (inl e) ↦ inl (inl (inl (inr e)))
          | inr (inr (inl (c, t, t'))) ↦ inl (inl (inr (ground arith, (t, t'))))
          | inr (inr (inr (inl (c, t, t')))) ↦ inl (inr (ground arith, (t, t')))
          | inr (inr (inr (inr (inl shared)))) ↦ inr (refl, inl shared)
          | inr (inr (inr (inr (inr natural)))) ↦ inr (refl, inr natural)
        ],
      ))
