-- ===== src/State/Policy/Examples.antt =====
-- Writes that the policy allows and refuses, with the columns of two tables.
use syllva.Prelude.{
  All, Text, codes, teq, true, false, if◌then◌else◌, List, [], ◌∷◌, ◌≡◌, refl, any,
}
use syllva.State.Policy.{
  catalog_owner, ui_user, ingester, source_owner, owner_of, unwritable_tables, source_mutable,
  human_only, immutable,
}
use syllva.State.Policy.Guards.{
  IsSealed, IsClosed, gate_columns, append_only, allowed-covers_guards,
}
use syllva.State.Policy.Access.{update_allowed}

abbrev columns_of : Text → List Text
columns_of table =
    if teq table (codes "source_files")
    then codes "source_id" ∷ codes "display_name" ∷ codes "deleted_at" ∷ []
    else codes "material_id" ∷ codes "priority" ∷ codes "verified" ∷ []

abbrev unique_of : Text → List Text
unique_of table =
    if teq table (codes "source_files") then codes "source_id" ∷ [] else codes "material_id" ∷ []

priority_update :
    update_allowed columns_of unique_of catalog_owner ui_user
      (codes "material_usage")
      (codes "material_id" ∷ [])
      (codes "priority" ∷ [])
    ≡ true
unfolding update_allowed any unwritable_tables teq owner_of human_only immutable
priority_update = refl

verified_update :
    update_allowed columns_of unique_of catalog_owner ui_user
      (codes "material_usage")
      (codes "material_id" ∷ [])
      (codes "verified" ∷ [])
    ≡ false
unfolding update_allowed any unwritable_tables teq owner_of human_only
verified_update = refl

rename :
    update_allowed columns_of unique_of source_owner ingester
      (codes "source_files")
      (codes "source_id" ∷ [])
      (codes "display_name" ∷ [])
    ≡ true
unfolding update_allowed any unwritable_tables teq owner_of human_only immutable source_mutable
rename = refl

allowed-covers_guards_example :
    All (IsSealed columns_of unique_of catalog_owner ui_user) gate_columns
    × All (IsClosed columns_of unique_of catalog_owner ui_user) append_only
allowed-covers_guards_example = allowed-covers_guards columns_of unique_of catalog_owner ui_user
