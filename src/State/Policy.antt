-- ===== src/State/Policy.antt =====
-- Who may write what in the state database: the tables of src/syllva/state/v2/ownership.py, and the
-- checks in front of the statements of `insert`, `update` and `delete` in
-- src/syllva/state/v2/writer.py. A refusal is a `PolicyViolation`. The columns of a table and its
-- unique columns are asked of SQLite, so that they are parameters.
pub mod Access
pub mod Guards
mod Examples
use syllva.Prelude.{
  Text, codes, teq, Bool, true, false, ◌&&◌, ◌||◌, not, Option, none, some, List, [], ◌∷◌, ◌++◌,
  any, if◌then◌else◌, ◌≡◌, arith, inl, inr, Option-cases, Bool-cases,
}

pub data Owner : Type 0 where
  source_owner ai_owner user_owner catalog_owner system_owner settings_owner : Owner

pub data Actor : Type 0 where
  ingester core_agent_output ui_user system_migration : Actor

abbrev pub contains : List Text → Text → Bool
contains xs x = any (teq x) xs

abbrev pub intersects : List Text → List Text → Bool
intersects xs ys = any (contains ys) xs

abbrev pub within : List Text → List Text → Bool
within xs ys = not (any (λ x. not (contains ys x)) xs)

abbrev source_tables : List Text
source_tables =
    codes "blobs" ∷ codes "source_files" ∷ codes "source_versions" ∷ codes "derivatives" ∷ []

abbrev ai_tables : List Text
ai_tables = codes "ai_artifacts" ∷ codes "artifact_bases" ∷ codes "artifact_citations" ∷ []

abbrev catalog_tables : List Text
catalog_tables =
    codes "courses"
    ∷ codes "course_aliases"
    ∷ codes "sessions"
    ∷ codes "materials"
    ∷ codes "material_usage"
    ∷ codes "activities"
    ∷ codes "exams"
    ∷ codes "intake_candidates"
    ∷ []

abbrev system_tables : List Text
system_tables =
    codes "blob_refs"
    ∷ codes "jobs"
    ∷ codes "processing_records"
    ∷ codes "checkpoints"
    ∷ codes "entity_allocations"
    ∷ []

abbrev pub deletable_tables : List Text
deletable_tables = codes "canvas_profile" ∷ codes "canvas_courses" ∷ []

unfoldable pub unwritable_tables : List Text
unwritable_tables =
    codes "human_gate_log"
    ∷ codes "human_gate_uses"
    ∷ codes "schema_migrations"
    ∷ codes "user_edits"
    ∷ []

unfoldable pub owner_of : Text → Option Owner
owner_of table =
    if contains source_tables table
    then some source_owner
    else if contains ai_tables table
    then some ai_owner
    else if teq table (codes "user_notes")
    then some user_owner
    else if contains catalog_tables table
    then some catalog_owner
    else if contains system_tables table
    then some system_owner
    else if contains deletable_tables table
    then some settings_owner
    else none

-- `HUMAN_ONLY_COLUMNS`
unfoldable pub human_only : Text → List Text
human_only table =
    if teq table (codes "material_usage")
    then codes "verified" ∷ codes "verified_gate_id" ∷ []
    else if teq table (codes "exams")
    then codes "scope_confirmed" ∷ codes "scope_gate_id" ∷ []
    else if teq table (codes "activities")
    then codes "submission_status" ∷ codes "submission_gate_id" ∷ []
    else if teq table (codes "user_notes")
    then codes "adopted_from_artifact_id" ∷ codes "adopt_gate_id" ∷ []
    else []

-- `IMMUTABLE_COLUMNS`
unfoldable pub immutable : Text → List Text
immutable table =
    if teq table (codes "materials")
    then codes "material_id" ∷ codes "source_file_id" ∷ []
    else if teq table (codes "material_usage")
    then codes "material_id" ∷ []
    else if teq table (codes "exams")
    then codes "exam_id" ∷ []
    else if teq table (codes "activities")
    then codes "activity_id" ∷ []
    else if teq table (codes "user_notes")
    then codes "note_id" ∷ []
    else if teq table (codes "courses")
    then codes "course_key" ∷ []
    else if teq table (codes "sessions")
    then codes "session_id" ∷ []
    else if teq table (codes "source_files")
    then codes "source_id" ∷ []
    else if teq table (codes "intake_candidates")
    then codes "candidate_id"
      ∷ codes "channel"
      ∷ codes "source_version_id"
      ∷ codes "size_bytes"
      ∷ codes "replaces_material"
      ∷ []
    else if teq table (codes "canvas_profile")
    then codes "profile_id" ∷ codes "origin" ∷ codes "user_id" ∷ []
    else if teq table (codes "canvas_courses")
    then codes "canvas_course_id" ∷ []
    else []

-- `SOURCE_MUTABLE_COLUMNS`
unfoldable pub source_mutable : Text → List Text
source_mutable table =
    if teq table (codes "source_files") then codes "deleted_at" ∷ codes "display_name" ∷ [] else []

-- `ALLOWED`
abbrev pub may_write : Owner → Actor → Bool
may_write o system_migration = true
may_write ai_owner core_agent_output = true
may_write o core_agent_output = false
may_write source_owner ingester = true
may_write catalog_owner ingester = true
may_write system_owner ingester = true
may_write settings_owner ingester = true
may_write o ingester = false
may_write user_owner ui_user = true
may_write catalog_owner ui_user = true
may_write settings_owner ui_user = true
may_write o ui_user = false

abbrev pub same_owner : Owner → Owner → Bool
same_owner source_owner source_owner = true
same_owner ai_owner ai_owner = true
same_owner user_owner user_owner = true
same_owner catalog_owner catalog_owner = true
same_owner system_owner system_owner = true
same_owner settings_owner settings_owner = true
same_owner a b = false

abbrev pub processes : Actor → Bool
processes ingester = true
processes system_migration = true
processes a = false

-- The last checks of `_authorize`, on an update of an insert-only owner.
abbrev pub may_update : Owner → Actor → Text → (changed : List Text) → Bool
may_update ai_owner actor table changed = false
may_update source_owner actor table changed =
    within changed (source_mutable table) && processes actor
may_update o actor table changed = true
