-- ===== src/Database/Tests.antt =====
-- Runs of src/pme/util/clause_database.cpp on small databases, and its theorems at them.
use pme.Base.{
  ◌≡◌, refl, subst, true, [], ◌∷◌, ◌⊎◌, ◌↔◌, ℕ, Returns, ok, fault, assertion_failed, out_of_range,
}
use pme.Base.Maps.{lookup, has_key, insert}
use pme.Base.Sorting.{sorted_list, insert_sorted}
use pme.Database.{
  ClauseDatabase, value_at, new_database, add_clause, activation_of_id, id_of_activation,
  stored_clause, is_activation, get_data,
}
use pme.Database.Lookups.{IsValid, IsStored, add_clause-IsStored, add_clause-fault}

database_program : Unit {0}
unfolding lookup has_key insert sorted_list insert_sorted value_at new_database add_clause
    activation_of_id id_of_activation stored_clause is_activation get_data
database_program = tt

abbrev empty : ClauseDatabase ℕ
empty = record { id_to_clause = []; id_to_activation = []; activation_to_id = []; id_to_data = [] }

created : new_database ≡ empty
unfolding database_program
created = refl

abbrev one : ClauseDatabase ℕ
one = record {
  id_to_clause = (0, 4 ∷ 6 ∷ []) ∷ [];
  id_to_activation = (0, 8) ∷ [];
  activation_to_id = (8, 0) ∷ [];
  id_to_data = (0, 10) ∷ [];
}

added : add_clause 0 8 (6 ∷ 4 ∷ []) 10 empty ≡ ok one
unfolding database_program
added = refl

unknown : activation_of_id 1 one ≡ fault out_of_range
unfolding database_program
unknown = refl

empty-IsValid : IsValid empty
unfolding database_program
empty-IsValid = record {
  activated = λ id. refl;
  with_data = λ id. refl;
  there = λ id act h. cc h;
  back = λ id act h. cc h;
}

add_clause-IsStored_example :
    Returns (add_clause 0 8 (6 ∷ 4 ∷ []) 10 empty) (λ q. IsStored 0 8 (6 ∷ 4 ∷ []) 10 empty q)
unfolding database_program
add_clause-IsStored_example = add_clause-IsStored 0 8 (6 ∷ 4 ∷ []) 10 empty empty-IsValid refl refl

one-IsValid : IsValid one
unfolding database_program
one-IsValid =
    let (q, run, d) = add_clause-IsStored 0 8 (6 ∷ 4 ∷ []) 10 empty empty-IsValid refl refl in
    let e : q ≡ one = cc (run, added) in subst (λ x. IsValid x) e d.valid

add_clause-fault_example :
    (add_clause 1 8 (6 ∷ []) 10 one ≡ fault assertion_failed)
    ↔ ((has_key 1 one.id_to_clause ≡ true) ⊎ (has_key 8 one.activation_to_id ≡ true))
add_clause-fault_example = add_clause-fault 1 8 (6 ∷ []) 10 one one-IsValid
