-- ===== src/State/Policy/Guards.antt =====
-- The writer's checks (src/syllva/state/v2/writer.py) against the guards that the schema of
-- src/syllva/state/v2/migrations/001_v2_initial.sql has for itself.
use syllva.Prelude.{
  Text, codes, teq, teq_iff, true, false, Option, none, some, List, [], ◌∷◌, ◌++◌, ◌≡◌, refl, sym,
  subst, All, any, arith, inl, inr, Bool-cases,
}
use syllva.Prelude.Dict.{Dict}
use syllva.State.Policy.{
  Owner, Actor, contains, intersects, human_only, unwritable_tables, owner_of,
}
use syllva.State.Policy.Access.{
  Change, inserting, updating, touched, keys, insert_allowed, update_allowed, delete_allowed,
  authorize, authorize_table, authorize_owned,
}

-- The columns that the triggers "..._gate_update" and `user_notes_adoption_immutable` watch.
abbrev pub gate_columns : List (Text × Text)
gate_columns =
    (codes "material_usage", codes "verified")
    ∷ (codes "material_usage", codes "verified_gate_id")
    ∷ (codes "activities", codes "submission_status")
    ∷ (codes "activities", codes "submission_gate_id")
    ∷ (codes "exams", codes "scope_confirmed")
    ∷ (codes "exams", codes "scope_gate_id")
    ∷ (codes "user_notes", codes "adopted_from_artifact_id")
    ∷ (codes "user_notes", codes "adopt_gate_id")
    ∷ []

-- The tables that triggers make append-only.
abbrev pub append_only : List Text
append_only = codes "human_gate_log" ∷ codes "human_gate_uses" ∷ codes "user_edits" ∷ []

contains-intersects :
    (column : Text) (set human : List Text)
    → contains set column ≡ true
    → contains human column ≡ true
    → intersects set human ≡ true
unfolding any
contains-intersects column [] human h g = ground arith
contains-intersects column (x ∷ xs) human h g = elim (Bool-cases (contains xs column)) [
  | inl e ↦ ground (arith, contains-intersects column xs human e g)
  | inr e ↦
      let q : x ≡ column = ground (arith, teq_iff x column, teq_iff column x) in
      let m : contains human x ≡ true = subst (λ y. contains human y ≡ true) (sym q) g in
      ground (arith, m)
]

module _ (columns_of unique_of : Text → List Text) (owner : Owner) (actor : Actor) where
  -- No insert and no update that sets the column is allowed.
  abbrev pub IsSealed : Text × Text → Type 0
  IsSealed (table, column) =
      ((values : Dict Text)
        → contains (keys values) column ≡ true
        → insert_allowed columns_of unique_of owner actor table values ≡ false)
      × ((key values : List Text)
          → contains values column ≡ true
          → update_allowed columns_of unique_of owner actor table key values ≡ false)

  -- No insert, update or delete on the table is allowed.
  abbrev pub IsClosed : Text → Type 0
  IsClosed table =
      ((values : Dict Text) → insert_allowed columns_of unique_of owner actor table values ≡ false)
      × ((key values : List Text)
          → update_allowed columns_of unique_of owner actor table key values ≡ false)
      × ((key : List Text) → delete_allowed columns_of unique_of owner actor table key ≡ false)

  table-refuses :
      (o : Option Owner) (table : Text) (columns : List Text) (change : Change)
      → intersects (touched columns change) (human_only table) ≡ true
      → authorize_table columns_of unique_of o owner actor table columns change ≡ false
  unfolding authorize_owned
  table-refuses none table columns change h = refl
  table-refuses (some o) table columns change h = ground arith

  authorize-refuses :
      (table : Text) (columns : List Text) (change : Change)
      → intersects (touched columns change) (human_only table) ≡ true
      → authorize columns_of unique_of owner actor table columns change ≡ false
  unfolding authorize
  authorize-refuses table columns change h =
      ground (arith, table-refuses (owner_of table) table columns change h)

  human_only-IsSealed :
      (table column : Text) → contains (human_only table) column ≡ true → IsSealed (table, column)
  unfolding insert_allowed update_allowed
  human_only-IsSealed table column h = (
    λ values g.
        let a =
          authorize-refuses table (keys values) inserting
            (contains-intersects column (keys values) (human_only table) g h) in
        ground (arith, a),
    updates,
  )
    where
      updates :
          (key values : List Text)
          → contains values column ≡ true
          → update_allowed columns_of unique_of owner actor table key values ≡ false
      updates [] values g = refl
      updates (k ∷ []) values g =
          let a =
            authorize-refuses table (values ++ k ∷ []) (updating values)
              (contains-intersects column values (human_only table) g h) in
          ground (arith, a)
      updates (k ∷ j ∷ ks) values g = refl

  unwritable-IsClosed : (table : Text) → contains unwritable_tables table ≡ true → IsClosed table
  unfolding insert_allowed update_allowed delete_allowed authorize
  unwritable-IsClosed table h = ((λ values. ground arith), updates, deletes)
    where
      updates :
          (key values : List Text)
          → update_allowed columns_of unique_of owner actor table key values ≡ false
      updates [] values = refl
      updates (k ∷ []) values = ground arith
      updates (k ∷ j ∷ ks) values = refl

      deletes :
          (key : List Text) → delete_allowed columns_of unique_of owner actor table key ≡ false
      deletes [] = refl
      deletes (k ∷ []) = ground arith
      deletes (k ∷ j ∷ ks) = refl

  -- The writer's policy covers the schema's guards. Whatever the declared owner and the actor: no insert
  -- and no update is allowed that sets a column which a gate trigger of the schema watches, and no insert,
  -- update or delete on a table which its triggers make append-only.
  pub allowed-covers_guards : All IsSealed gate_columns × All IsClosed append_only
  unfolding human_only unwritable_tables any teq
  allowed-covers_guards = (
    (
      human_only-IsSealed (codes "material_usage") (codes "verified") refl,
      (
        human_only-IsSealed (codes "material_usage") (codes "verified_gate_id") refl,
        (
          human_only-IsSealed (codes "activities") (codes "submission_status") refl,
          (
            human_only-IsSealed (codes "activities") (codes "submission_gate_id") refl,
            (
              human_only-IsSealed (codes "exams") (codes "scope_confirmed") refl,
              (
                human_only-IsSealed (codes "exams") (codes "scope_gate_id") refl,
                (
                  human_only-IsSealed (codes "user_notes") (codes "adopted_from_artifact_id") refl,
                  (human_only-IsSealed (codes "user_notes") (codes "adopt_gate_id") refl, tt),
                ),
              ),
            ),
          ),
        ),
      ),
    ),
    (
      unwritable-IsClosed (codes "human_gate_log") refl,
      (
        unwritable-IsClosed (codes "human_gate_uses") refl,
        (unwritable-IsClosed (codes "user_edits") refl, tt),
      ),
    ),
  )
