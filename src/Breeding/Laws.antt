-- ===== src/Breeding/Laws.antt =====
-- What it takes for two species to be compatible, by lib/breeding/compatibility.cpp.
use libpkmn.Common.{ℕ, ◌≡◌, refl, sym, ◌∙◌, ◌≢◌, ◌↔◌, ◌⊎◌, inl, inr, true, false, arith, ℤ, ok}
use libpkmn.Breeding.{
  EggEntry, EggDb, no_group, ditto_group, undiscovered_group, does_pair_contain_value,
  do_pairs_have_common_valid_value, are_species_valid_and_compatible,
  are_egg_groups_valid_and_compatible, are_genders_compatible, are_pokemon_species_compatible,
}
use libpkmn.Enforce.{does_vector_contain_value}

abbrev pub HasGroup : EggEntry → ℕ → Type 0
HasGroup entry group =
    (group ≢ no_group) × ((entry.first_group ≡ group) ⊎ (entry.second_group ≡ group))

are_egg_groups_cases :
    (entry1 entry2 : EggEntry)
    → entry1.first_group ≢ no_group
    → entry2.first_group ≢ no_group
    → entry1.first_group ≢ ditto_group
    → entry2.first_group ≢ ditto_group
    → ¬ HasGroup entry1 undiscovered_group
    → ¬ HasGroup entry2 undiscovered_group
    → (are_egg_groups_valid_and_compatible entry1 entry2 ≡ true) ↔ (
        (entry1.first_group ≡ entry2.first_group)
        ⊎ (entry1.first_group ≡ entry2.second_group)
        ⊎ (entry1.second_group ≡ entry2.first_group)
        ⊎ ((entry1.second_group ≢ no_group) × (entry1.second_group ≡ entry2.second_group)))
unfolding are_egg_groups_valid_and_compatible does_pair_contain_value
    do_pairs_have_common_valid_value
are_egg_groups_cases entry1 entry2 f1 f2 d1 d2 u1 u2 = ground arith

-- Between two species that have a first egg group and are not Ditto or undiscovered, the egg groups are
-- compatible exactly if there is one that both have.
pub are_egg_groups_compatible_iff :
    (entry1 entry2 : EggEntry)
    → entry1.first_group ≢ no_group
    → entry2.first_group ≢ no_group
    → entry1.first_group ≢ ditto_group
    → entry2.first_group ≢ ditto_group
    → ¬ HasGroup entry1 undiscovered_group
    → ¬ HasGroup entry2 undiscovered_group
    → (are_egg_groups_valid_and_compatible entry1 entry2 ≡ true)
      ↔ ((group : ℕ) × HasGroup entry1 group × HasGroup entry2 group)
are_egg_groups_compatible_iff entry1 entry2 f1 f2 d1 d2 u1 u2 =
    let (only, enough) = are_egg_groups_cases entry1 entry2 f1 f2 d1 d2 u1 u2 in
    (
      (λ h. elim (only h) [
        | inl e ↦ (entry1.first_group, (f1, inl refl), (f1, inl (sym e)))
        | inr (inl e) ↦ (entry1.first_group, (f1, inl refl), (f1, inr (sym e)))
        | inr (inr (inl e)) ↦ (entry2.first_group, (f2, inr e), (f2, inl refl))
        | inr (inr (inr (n, e))) ↦ (entry1.second_group, (n, inr refl), (n, inr (sym e)))
      ]),
      (λ (group, (n, h1), (_, h2)). enough (elim h1 [
        | inl a ↦ elim h2 [ inl b ↦ inl (a ∙ sym b) | inr b ↦ inr (inl (a ∙ sym b)) ]
        | inr a ↦ elim h2 [
          | inl b ↦ inr (inr (inl (a ∙ sym b)))
          | inr b ↦ inr (inr (inr ((λ z. n (sym a ∙ z)), a ∙ sym b)))
        ]
      ])),
    )

are_egg_groups_sym :
    (entry1 entry2 : EggEntry)
    → entry1.first_group ≢ no_group
    → entry2.first_group ≢ no_group
    → are_egg_groups_valid_and_compatible entry1 entry2
      ≡ are_egg_groups_valid_and_compatible entry2 entry1
unfolding are_egg_groups_valid_and_compatible does_pair_contain_value
    do_pairs_have_common_valid_value
are_egg_groups_sym entry1 entry2 f1 f2 = ground arith

are_species_sym :
    (id1 id2 : ℤ)
    → are_species_valid_and_compatible id1 id2 ≡ are_species_valid_and_compatible id2 id1
unfolding are_species_valid_and_compatible does_vector_contain_value
are_species_sym id1 id2 = ground arith

are_genders_sym :
    (entry1 entry2 : EggEntry)
    → are_genders_compatible entry1 entry2 ≡ are_genders_compatible entry2 entry1
unfolding are_genders_compatible
are_genders_sym entry1 entry2 = ground arith

-- Whether two species are compatible does not depend on their order, if each has a first egg group.
pub are_pokemon_species_compatible_sym :
    (db : EggDb) (species1 species2 : ℕ) {entry1 entry2 : EggEntry}
    → db.pokemon_entry species1 ≡ ok entry1
    → db.pokemon_entry species2 ≡ ok entry2
    → entry1.first_group ≢ no_group
    → entry2.first_group ≢ no_group
    → are_pokemon_species_compatible db species1 species2
      ≡ are_pokemon_species_compatible db species2 species1
unfolding are_pokemon_species_compatible
are_pokemon_species_compatible_sym db species1 species2 {entry1} {entry2} e1 e2 f1 f2 = ground (
  arith,
  are_egg_groups_sym entry1 entry2 f1 f2,
  are_species_sym entry1.species_id entry2.species_id,
  are_genders_sym entry1 entry2,
)

-- No species is compatible with itself if its first egg group is Ditto, or one of its egg groups is
-- undiscovered, or it has one gender alone.
pub are_pokemon_species_compatible_self :
    (db : EggDb) (species : ℕ) {entry : EggEntry}
    → db.pokemon_entry species ≡ ok entry
    → (entry.first_group ≡ ditto_group)
      ⊎ HasGroup entry undiscovered_group
      ⊎ (entry.chance_male ≡ 1000)
      ⊎ (entry.chance_female ≡ 1000)
    → are_pokemon_species_compatible db species species ≡ ok false
unfolding are_pokemon_species_compatible are_egg_groups_valid_and_compatible does_pair_contain_value
    are_genders_compatible
are_pokemon_species_compatible_self db species {entry} e h = ground arith
