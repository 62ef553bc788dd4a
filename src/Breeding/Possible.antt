-- ===== src/Breeding/Possible.antt =====
-- What `get_possible_child_species` of lib/breeding/child_info.cpp returns, and when it throws.
use libpkmn.Common.{
  ℕ, zero, suc, ◌<◌, ◌≡◌, ◌≢◌, refl, ap, ◌∙◌, ◌⊎◌, inl, inr, Bool, true, false, ◌&&◌, ◌||◌, Option,
  none, some, List, [], ◌∷◌, leb, ◌==◌, ==→≡, if◌then◌else◌, arith, ok, throw, invalid_argument,
  Bool-cases,
}
use libpkmn.Enforce.{does_vector_contain_value}
use libpkmn.Breeding.{are_pokemon_species_compatible}
use libpkmn.Breeding.ChildSpecies.{
  SpeciesEntry, SpeciesDb, earliest_species, find_incense, add_incense, base_species,
  incense_breeding_pokemon, get_possible_child_species, nidoran_f, nidoran_m, ditto_species,
  volbeat, illumise, phione, manaphy,
}

-- The species that a line leads back to, one query for each step.
pub data Line (db : SpeciesDb) (generation : ℕ) : ℕ → ℕ → Type 0 where
  here : {s : ℕ} → Line db generation s s
  back :
      {s t : ℕ}
      → db.evolves_from generation s ≢ 0
      → Line db generation (db.evolves_from generation s) t
      → Line db generation s t

-- Where every step back lowers the stage of a species, and more turns are given than the stage of the
-- species: the loop ends at a species of its line that does not evolve from another.
pub earliest_species_lem :
    (db : SpeciesDb) (stage : ℕ → ℕ) (turns generation species : ℕ)
    → ((s : ℕ) → db.evolves_from generation s ≢ 0 → stage (db.evolves_from generation s) < stage s)
    → stage species < turns
    → Line db generation species (earliest_species db turns generation species)
      × (db.evolves_from generation (earliest_species db turns generation species) ≡ 0)
unfolding earliest_species
earliest_species_lem db stage zero generation species lower enough = absurd (omega arith)
earliest_species_lem db stage (suc turns) generation species lower enough =
    elim (Bool-cases (db.evolves_from generation species == 0)) [
      | inl first ↦ rw first (here, ==→≡ _ 0 first)
      | inr later ↦
          let evolves : db.evolves_from generation species ≢ 0 = λ e. ground arith in
          let (line, ends) =
            earliest_species_lem db stage turns generation (db.evolves_from generation species)
              lower (omega (arith, lower species evolves)) in
          rw later (back evolves line, ends)
    ]

-- One species, or two different ones.
pub data IsClutch : List ℕ → Type 0 where
  one : (x : ℕ) → IsClutch (x ∷ [])
  two : (x y : ℕ) → x ≢ y → IsClutch (x ∷ y ∷ [])

add_incense-one : (o : Option ℕ) (x : ℕ) → IsClutch (add_incense o (x ∷ []))
unfolding add_incense does_vector_contain_value
add_incense-one none x = one x
add_incense-one (some e) x = elim (Bool-cases (does_vector_contain_value (x ∷ []) e)) [
  | inl there ↦ rw there (one x)
  | inr gone ↦ rw gone (two e x (λ same. ground arith))
]

find_incense-nidoran_f : (father : ℕ) → find_incense 29 father incense_breeding_pokemon ≡ none
unfolding find_incense does_vector_contain_value
find_incense-nidoran_f father = refl

find_incense-illumise : (father : ℕ) → find_incense 314 father incense_breeding_pokemon ≡ none
unfolding find_incense does_vector_contain_value
find_incense-illumise father = refl

find_incense-ditto_nidoran_m : find_incense 132 32 incense_breeding_pokemon ≡ none
unfolding find_incense does_vector_contain_value
find_incense-ditto_nidoran_m = refl

find_incense-ditto_volbeat : find_incense 132 313 incense_breeding_pokemon ≡ none
unfolding find_incense does_vector_contain_value
find_incense-ditto_volbeat = refl

both_true : (a b : Bool) → (a && b) ≡ true → (a ≡ true) × (b ≡ true)
both_true a b h = ground arith

none_added : (o : Option ℕ) (l : List ℕ) → o ≡ none → IsClutch l → IsClutch (add_incense o l)
unfolding add_incense
none_added o l e clutch = rw e clutch

choice :
    (o : Option ℕ) (c : Bool) (l l' : List ℕ)
    → (c ≡ true → IsClutch (add_incense o l))
    → (c ≡ false → IsClutch (add_incense o l'))
    → IsClutch (add_incense o (if c then l else l'))
choice o true l l' h h' = h refl
choice o false l l' h h' = h' refl

abbrev incense_of : ℕ → ℕ → Option ℕ
incense_of mother father = find_incense mother father incense_breeding_pokemon

incense_at :
    (mother father m f : ℕ)
    → ((mother == m) && (father == f)) ≡ true
    → incense_of m f ≡ none
    → incense_of mother father ≡ none
incense_at mother father m f h e =
    let (same, same') = both_true (mother == m) (father == f) h in
    ap (λ x. incense_of x father) (==→≡ mother m same)
    ∙ ap (λ x. incense_of m x) (==→≡ father f same')
    ∙ e

module _ (db : SpeciesDb) (turns : ℕ) where
  species_lem :
      (generation mother father : ℕ) (mother_entry father_entry : SpeciesEntry)
      → IsClutch (
          add_incense
            (incense_of mother father)
            (base_species db turns generation mother father mother_entry father_entry))
  unfolding base_species
  species_lem generation mother father mother_entry father_entry =
      let o = incense_of mother father in
      choice o (mother == nidoran_f) _ _
        (λ e.
          none_added o _
            (ap (λ m. incense_of m father) (==→≡ mother 29 e) ∙ find_incense-nidoran_f father)
            (two nidoran_f nidoran_m (λ h. omega arith)))
        (λ _.
          choice o (mother == ditto_species && father == nidoran_m) _ _
            (λ e.
              choice o (leb 5 generation) _ _
                (λ _.
                  none_added o _ (incense_at mother father 132 32 e find_incense-ditto_nidoran_m)
                    (two nidoran_f nidoran_m (λ h. omega arith)))
                (λ _. add_incense-one o nidoran_m))
            (λ _.
              choice o (mother == ditto_species && father == volbeat) _ _
                (λ e.
                  choice o (leb 5 generation) _ _
                    (λ _.
                      none_added o _ (incense_at mother father 132 313 e find_incense-ditto_volbeat)
                        (two volbeat illumise (λ h. omega arith)))
                    (λ _. add_incense-one o volbeat))
                (λ _.
                  choice o (mother == illumise) _ _
                    (λ e.
                      none_added o _
                        (ap (λ m. incense_of m father) (==→≡ mother 314 e)
                          ∙ find_incense-illumise father)
                        (two volbeat illumise (λ h. omega arith)))
                    (λ _.
                      choice o
                        ((mother == manaphy && father == ditto_species)
                          || (father == manaphy && mother == ditto_species))
                        _ _ (λ _. add_incense-one o phione)
                        (λ _.
                          choice o (mother == ditto_species) _ _ (λ _. add_incense-one o _)
                            (λ _. add_incense-one o _))))))

  -- Where the database knows the parents, `get_possible_child_species` returns one species or two
  -- different ones, if the parents are compatible, the mother's species is not male only and the
  -- father's is not female only. Else it throws `std::invalid_argument`.
  pub get_possible_child_species_lem :
      (generation mother father game : ℕ) (compatible : Bool)
      (mother_entry father_entry : SpeciesEntry)
      → are_pokemon_species_compatible db.egg_db mother father ≡ ok compatible
      → db.species_entry mother game ≡ ok mother_entry
      → db.species_entry father game ≡ ok father_entry
      → let r = get_possible_child_species db turns generation mother father game in
        ((compatible ≡ true)
          × (mother_entry.males ≢ 1000)
          × (father_entry.females ≢ 1000)
          × (species : List ℕ) × (r ≡ ok species)
          × IsClutch species)
        ⊎ (((compatible ≡ false) ⊎ (mother_entry.males ≡ 1000) ⊎ (father_entry.females ≡ 1000))
            × (r ≡ throw invalid_argument))
  unfolding get_possible_child_species
  get_possible_child_species_lem generation mother father game false mother_entry father_entry c m
        f =
      inr (inl refl, rw c refl)
  get_possible_child_species_lem generation mother father game true mother_entry father_entry c m
        f =
      elim (Bool-cases (mother_entry.males == 1000)) [
        | inl only ↦ inr (inr (inl (==→≡ _ _ only)), rw (c, m, only) refl)
        | inr some_female ↦ elim (Bool-cases (father_entry.females == 1000)) [
          | inl only ↦ inr (inr (inr (==→≡ _ _ only)), rw (c, m, some_female, f, only) refl)
          | inr some_male ↦ inl (
            refl,
            λ e. ground arith,
            λ e. ground arith,
            _,
            rw (c, m, some_female, f, some_male) refl,
            species_lem generation mother father mother_entry father_entry,
          )
        ]
      ]
