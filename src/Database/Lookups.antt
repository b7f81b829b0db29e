-- ===== src/Database/Lookups.antt =====
-- `ClauseDatabaseT` of src/pme/util/clause_database.cpp: what is found after a clause is added.
use pme.Base.{
  ℕ, ◌≡◌, refl, sym, ap, ◌∙◌, subst, true, false, if◌then◌else◌, ◌==◌, ==_iff, ==_refl, none, some,
  ok, fault, assertion_failed, out_of_range, Returns, Bool-cases, ◌⊎◌, inl, inr, ◌↔◌,
}
use pme.Base.Maps.{Map, lookup, has_key, insert, lookup-insert, has_key-insert, lookup-has_key}
use pme.Base.Sorting.{sorted_list}
use pme.Literal.{PmeId, ClauseId, Clause}
use pme.Database.{
  ClauseDatabase, value_at, add_clause, activation_of_id, id_of_activation, stored_clause,
  is_activation, get_data,
}

-- The four maps agree: the same numbers have a clause, an activation literal and data, and the activation
-- literals lead back.
pub record IsValid {T : Type 0} (db : ClauseDatabase T) : Type 0 where
  pub activated : (id : ClauseId) → has_key id db.id_to_activation ≡ has_key id db.id_to_clause
  pub with_data : (id : ClauseId) → has_key id db.id_to_data ≡ has_key id db.id_to_clause
  pub there :
      (id : ClauseId) (act : PmeId)
      → lookup id db.id_to_activation ≡ some act
      → lookup act db.activation_to_id ≡ some id
  pub back :
      (id : ClauseId) (act : PmeId)
      → lookup act db.activation_to_id ≡ some id
      → lookup id db.id_to_activation ≡ some act

-- What the database answers after the clause was added: the clause in order, its literal and data, and for all
-- other clauses what it answered before.
pub record IsStored {T : Type 0} (id : ClauseId) (act : PmeId) (cls : Clause) (extra : T)
    (db q : ClauseDatabase T) : Type 0 where
  pub valid : IsValid q
  pub clause : stored_clause id q ≡ ok (sorted_list cls)
  pub activation : activation_of_id id q ≡ ok act
  pub number : id_of_activation act q ≡ ok id
  pub is_act : is_activation act q ≡ true
  pub stored_data : get_data id q ≡ ok extra
  pub others :
      (j : ClauseId)
      → (id == j) ≡ false
      → (stored_clause j q ≡ stored_clause j db)
        × (activation_of_id j q ≡ activation_of_id j db)
        × (get_data j q ≡ get_data j db)

module _ {V : Type 0} where
  value_at-insert : (k : ℕ) (v : V) (m : Map V) → value_at k (insert k v m) ≡ ok v
  unfolding value_at
  value_at-insert k v m =
      let e : lookup k (insert k v m) ≡ some v = lookup-insert k v m k ∙ rw (==_refl k) refl in
      rw (value_at, e) refl

  value_at-other :
      (k j : ℕ) (v : V) (m : Map V) → (k == j) ≡ false → value_at j (insert k v m) ≡ value_at j m
  unfolding value_at
  value_at-other k j v m h =
      let e : lookup j (insert k v m) ≡ lookup j m = lookup-insert k v m j ∙ rw h refl in
      ap (λ o. elim o [ none ↦ fault out_of_range | some w ↦ ok w ]) e

  lookup-absent : (k : ℕ) (m : Map V) (v : V) → has_key k m ≡ false → ¬ (lookup k m ≡ some v)
  lookup-absent k m v h e = let q : has_key k m ≡ true = lookup-has_key k m ∙ rw e refl in cc (q, h)

-- A pair that is new in two maps that mirror each other goes into both.
mirrored :
    (m m' : Map ℕ) (k w : ℕ)
    → ((x y : ℕ) → lookup x m ≡ some y → lookup y m' ≡ some x)
    → has_key w m' ≡ false
    → (x y : ℕ) → lookup x (insert k w m) ≡ some y
    → lookup y (insert w k m') ≡ some x
mirrored m m' k w f new x y h = elim (Bool-cases (k == x)) [
  | inl e ↦
      let h' : some w ≡ some y =
        subst (λ b. (if b then some w else lookup x m) ≡ some y) e
          (sym (lookup-insert k w m x) ∙ h) in
      let same : (w == y) ≡ true = (==_iff w y).1 (cc h') in
      lookup-insert w k m' y ∙ rw same (ap some ((==_iff k x).0 e))
  | inr e ↦
      let h' : lookup x m ≡ some y =
        subst (λ b. (if b then some w else lookup x m) ≡ some y) e
          (sym (lookup-insert k w m x) ∙ h) in
      elim (Bool-cases (w == y)) [
        | inl t ↦ absurd (
            lookup-absent w m' x new
              (subst (λ z. lookup z m' ≡ some x) (sym ((==_iff w y).0 t)) (f x y h')))
        | inr t ↦ lookup-insert w k m' y ∙ rw t (f x y h')
      ]
]

module _ {T : Type 0} (id : ClauseId) (act : PmeId) (cls : Clause) (extra : T)
    (db : ClauseDatabase T) (v : IsValid db) where
  added-IsValid :
      has_key id db.id_to_clause ≡ false
      → has_key act db.activation_to_id ≡ false
      → IsValid {T = T} (record {
        id_to_clause = insert id (sorted_list cls) db.id_to_clause;
        id_to_activation = insert id act db.id_to_activation;
        activation_to_id = insert act id db.activation_to_id;
        id_to_data = insert id extra db.id_to_data;
      })
  added-IsValid new_id new_act = record {
    activated = λ j.
        has_key-insert id j act db.id_to_activation
        ∙ ap (λ b. if id == j then true else b) (v.activated j)
        ∙ sym (has_key-insert id j (sorted_list cls) db.id_to_clause);
    with_data = λ j.
        has_key-insert id j extra db.id_to_data
        ∙ ap (λ b. if id == j then true else b) (v.with_data j)
        ∙ sym (has_key-insert id j (sorted_list cls) db.id_to_clause);
    there = λ j a h. mirrored db.id_to_activation db.activation_to_id id act v.there new_act j a h;
    back = λ j a h.
        mirrored db.activation_to_id db.id_to_activation act id (λ x y. v.back y x)
          (v.activated id ∙ new_id) a j h;
  }

  -- A clause with a new number and a new activation literal is added to a valid database without a failed
  -- assertion. The database stays valid; it has the clause in order, its literal and its data, and answers for
  -- the other clauses as before.
  pub add_clause-IsStored :
      has_key id db.id_to_clause ≡ false
      → has_key act db.activation_to_id ≡ false
      → Returns (add_clause id act cls extra db) (λ q. IsStored id act cls extra db q)
  unfolding add_clause stored_clause activation_of_id id_of_activation is_activation get_data
  add_clause-IsStored new_id new_act =
      let no_act : has_key id db.id_to_activation ≡ false = v.activated id ∙ new_id in
      let no_data : has_key id db.id_to_data ≡ false = v.with_data id ∙ new_id in
      (
        record {
          id_to_clause = insert id (sorted_list cls) db.id_to_clause;
          id_to_activation = insert id act db.id_to_activation;
          activation_to_id = insert act id db.activation_to_id;
          id_to_data = insert id extra db.id_to_data;
        },
        rw (new_id, no_act, new_act, no_data) refl,
        record {
          valid = added-IsValid new_id new_act;
          clause = value_at-insert id (sorted_list cls) db.id_to_clause;
          activation = value_at-insert id act db.id_to_activation;
          number = value_at-insert act id db.activation_to_id;
          is_act = has_key-insert act act id db.activation_to_id ∙ rw (==_refl act) refl;
          stored_data = value_at-insert id extra db.id_to_data;
          others = λ j h. (
            value_at-other id j (sorted_list cls) db.id_to_clause h,
            value_at-other id j act db.id_to_activation h,
            value_at-other id j extra db.id_to_data h,
          );
        },
      )

  -- On a valid database, adding a clause fails an assertion exactly if its number or its activation literal is
  -- in use.
  pub add_clause-fault :
      (add_clause id act cls extra db ≡ fault assertion_failed)
      ↔ ((has_key id db.id_to_clause ≡ true) ⊎ (has_key act db.activation_to_id ≡ true))
  unfolding add_clause
  add_clause-fault = elim (Bool-cases (has_key id db.id_to_clause)) [
    | inl h ↦ (λ e. inl h, λ u. rw (add_clause, h) refl)
    | inr h ↦
        let no_act : has_key id db.id_to_activation ≡ false = v.activated id ∙ h in
        let no_data : has_key id db.id_to_data ≡ false = v.with_data id ∙ h in
        elim (Bool-cases (has_key act db.activation_to_id)) [
          | inl t ↦ (λ e. inr t, λ u. rw (add_clause, h, no_act, t) refl)
          | inr t ↦ (
            λ e. let (q, run, d) = add_clause-IsStored h t in cc (run, e),
            λ u. elim u [ inl a ↦ cc (a, h) | inr a ↦ cc (a, t) ],
          )
        ]
  ]
