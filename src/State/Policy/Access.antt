-- ===== src/State/Policy/Access.antt =====
-- `_authorize` of src/syllva/state/v2/writer.py and what `insert`, `update` and `delete` check before
-- they run a statement.
use syllva.Prelude.{
  Text, codes, teq, Bool, true, false, ◌&&◌, ◌||◌, not, Option, none, some, List, [], ◌∷◌, ◌++◌,
}
use syllva.Prelude.Dict.{Dict, lookup}
use syllva.State.Policy.{
  Owner, Actor, contains, intersects, within, unwritable_tables, owner_of, human_only, immutable,
  may_write, may_update, same_owner, deletable_tables,
}

-- An insert, or an update that sets the given columns.
pub data Change : Type 0 where
  inserting : Change
  updating : List Text → Change

abbrev pub touched : List Text → Change → List Text
touched columns inserting = columns
touched columns (updating changed) = changed

abbrev update_checks : Owner → Actor → Text → List Text → Change → Bool
update_checks o actor table columns inserting = true
update_checks o actor table columns (updating changed) =
    not (contains columns (codes "owner"))
    && not (intersects changed (immutable table))
    && may_update o actor table changed

abbrev is_empty : List Text → Bool
is_empty [] = true
is_empty (x ∷ xs) = false

abbrev pub keys : Dict Text → List Text
keys [] = []
keys ((k, v) ∷ d) = k ∷ keys d

abbrev is_given : Option Text → (allowed : List Text) → Bool
is_given none allowed = true
is_given (some v) allowed = contains allowed v

-- `INTAKE_INITIAL_STATES`
abbrev initial_states : List Text
initial_states = codes "RECEIVED" ∷ codes "DUPLICATE" ∷ codes "UNSUPPORTED" ∷ []

module _ (columns_of unique_of : Text → List Text) where
  -- The checks behind the table's owner.
  unfoldable pub authorize_owned : Owner → Owner → Actor → Text → List Text → Change → Bool
  authorize_owned o owner actor table columns change =
      same_owner owner o
      && may_write o actor
      && (not (is_empty (columns_of table)) && within columns (columns_of table))
      && not (intersects (touched columns change) (human_only table))
      && update_checks o actor table columns change

  abbrev pub authorize_table : Option Owner → Owner → Actor → Text → List Text → Change → Bool
  authorize_table none owner actor table columns change = false
  authorize_table (some o) owner actor table columns change =
      authorize_owned o owner actor table columns change

  unfoldable pub authorize : Owner → Actor → Text → List Text → Change → Bool
  unfolding authorize_owned
  authorize owner actor table columns change =
      not (contains unwritable_tables table)
      && authorize_table (owner_of table) owner actor table columns change

  unfoldable pub insert_allowed : Owner → Actor → Text → (values : Dict Text) → Bool
  unfolding authorize
  insert_allowed owner actor table values =
      authorize owner actor table (keys values) inserting
      && (not (teq table (codes "materials"))
          || is_given (lookup (codes "processing_status") values) (codes "PENDING" ∷ []))
      && (not (teq table (codes "intake_candidates"))
          || is_given (lookup (codes "state") values) initial_states)

  -- An update names one key column; `values` are the columns that it sets.
  unfoldable pub update_allowed : Owner → Actor → Text → (key values : List Text) → Bool
  unfolding authorize
  update_allowed owner actor table (k ∷ []) values =
      authorize owner actor table (values ++ k ∷ []) (updating values)
      && contains (unique_of table) k
      && not (teq table (codes "materials") && contains values (codes "processing_status"))
      && not (teq table (codes "intake_candidates") && contains values (codes "state"))
  update_allowed owner actor table key values = false

  unfoldable pub delete_allowed : Owner → Actor → Text → (key : List Text) → Bool
  unfolding authorize
  delete_allowed owner actor table (k ∷ []) =
      contains deletable_tables table
      && authorize owner actor table (k ∷ []) (updating [])
      && contains (unique_of table) k
  delete_allowed owner actor table key = false
