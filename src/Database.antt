-- ===== src/Database.antt =====
-- src/pme/util/clause_database.h and .cpp: clauses, activation literals and data by the number of a clause.
pub mod Lookups
mod Tests
use pme.Base.{
  ℕ, Bool, true, false, not, List, [], ◌∷◌, Option, none, some, Result, ok, fault, out_of_range,
  ◌>>=◌, ◌>>◌, check,
}
use pme.Base.Maps.{Map, lookup, has_key, insert}
use pme.Base.Sorting.{sorted_list}
use pme.Literal.{PmeId, ClauseId, Clause}

pub record ClauseDatabase (T : Type 0) : Type 0 where
  pub id_to_clause : Map Clause
  pub id_to_activation : Map PmeId
  pub activation_to_id : Map ClauseId
  pub id_to_data : Map T

-- `m.at(k)`
unfoldable pub value_at {ℓ} : {V : Type ℓ} → ℕ → Map V → Result V
value_at k m = elim (lookup k m) [ none ↦ fault out_of_range | some v ↦ ok v ]

module _ {T : Type 0} where
  unfoldable pub new_database : ClauseDatabase T
  new_database = record {
    id_to_clause = [];
    id_to_activation = [];
    activation_to_id = [];
    id_to_data = [];
  }

  unfoldable pub add_clause :
      ClauseId → PmeId → Clause → T → ClauseDatabase T → Result (ClauseDatabase T)
  add_clause id activation cls extra db = do
    check (not (has_key id db.id_to_clause))
    check (not (has_key id db.id_to_activation))
    check (not (has_key activation db.activation_to_id))
    check (not (has_key id db.id_to_data))
    ok (record {
      id_to_clause = insert id (sorted_list cls) db.id_to_clause;
      id_to_activation = insert id activation db.id_to_activation;
      activation_to_id = insert activation id db.activation_to_id;
      id_to_data = insert id extra db.id_to_data;
    })

  unfoldable pub activation_of_id : ClauseId → ClauseDatabase T → Result PmeId
  activation_of_id id db = value_at id db.id_to_activation

  unfoldable pub id_of_activation : PmeId → ClauseDatabase T → Result ClauseId
  id_of_activation act db = value_at act db.activation_to_id

  unfoldable pub stored_clause : ClauseId → ClauseDatabase T → Result Clause
  stored_clause id db = value_at id db.id_to_clause

  unfoldable pub is_activation : PmeId → ClauseDatabase T → Bool
  is_activation id db = has_key id db.activation_to_id

  unfoldable pub get_data : ClauseId → ClauseDatabase T → Result T
  get_data id db = value_at id db.id_to_data
