-- ===== src/State.antt =====
-- The v2 state database, as far as the Human-Proof gate reads and writes it:
-- src/syllva/state/v2/writer.py (`commit_gate`), src/syllva/gate/fingerprints.py
-- (`material_target`) and the tables and triggers of the schema that these statements meet.
-- A table is the list of its rows; a query reads the rows that SQLite documents for it.
pub mod Intake
pub mod Policy
pub mod Commit
pub mod Effects
pub mod Audit
mod Examples
use syllva.Prelude.{
  ℕ, suc, ◌+◌, Text, codes, teq, Bool, true, false, ◌&&◌, ◌||◌, not, Option, none, some, List, [],
  ◌∷◌, ◌++◌, ltb, ◌==◌, if◌then◌else◌, any,
}

pub record CourseRow : Type 0 where
  pub id : ℕ
  pub name : Text

pub record SourceFileRow : Type 0 where
  pub id : ℕ
  pub source_id : Text
  pub display_name : Text
  pub deleted_at : Option Text

pub record VersionRow : Type 0 where
  pub id : ℕ
  pub source_file_id : ℕ
  pub source_version : ℕ
  pub source_hash : Text

pub data Completeness : Type 0 where
  complete partial : Completeness

pub data DerivativeKind : Type 0 where
  normalized chunks : DerivativeKind

pub record DerivativeRow : Type 0 where
  pub id : ℕ
  pub source_version_id : ℕ
  pub kind : DerivativeKind
  pub completeness : Completeness

pub record MaterialRow : Type 0 where
  pub id : ℕ
  pub material_id : Text
  pub course_id : ℕ
  pub source_file_id : ℕ

pub record UsageRow : Type 0 where
  pub material_id : ℕ
  pub verified : Bool
  pub verified_gate_id : Option ℕ

pub data Action : Type 0 where
  verify_material confirm_exam_scope set_submission_status adopt_ai_artifact : Action

pub data TargetKind : Type 0 where
  material exam activity ai_artifact : TargetKind

pub record GateLogRow : Type 0 where
  pub id : ℕ
  pub action : Action
  pub target_kind : TargetKind
  pub target_id : Text
  pub request_hash : Text
  pub nonce_id : Text
  pub confirmed_at : Text
  pub shell_version : Text

pub record Database : Type 0 where
  pub courses : List CourseRow
  pub source_files : List SourceFileRow
  pub source_versions : List VersionRow
  pub derivatives : List DerivativeRow
  pub materials : List MaterialRow
  pub material_usage : List UsageRow
  pub human_gate_log : List GateLogRow
  pub human_gate_uses : List ℕ

-- `SELECT ... WHERE ...` with at most one row.
unfoldable pub select {ℓ} : {A : Type ℓ} → (A → Bool) → List A → Option A
select p [] = none
select p (x ∷ xs) = if p x then some x else select p xs

-- `ORDER BY key DESC LIMIT 1`: a row of the greatest key.
abbrev later {ℓ} : {A : Type ℓ} → (A → ℕ) → A → Option A → A
later key x none = x
later key x (some y) = if ltb (key x) (key y) then y else x

unfoldable pub select_last {ℓ} : {A : Type ℓ} → (A → ℕ) → (A → Bool) → List A → Option A
select_last key p [] = none
select_last key p (x ∷ xs) =
    let rest = select_last key p xs in if p x then some (later key x rest) else rest

pub record MaterialTarget : Type 0 where
  pub row_id : ℕ
  pub title : Text
  pub course : Text
  pub source_id : Text
  pub source_hash : Text
  pub source_version : ℕ
  pub completeness : Text
  pub verified : Bool

infixl 5 ◌>>=◌
abbrev ◌>>=◌ {ℓ κ} : {A : Type ℓ} {B : Type κ} → Option A → (A → Option B) → Option B
none >>= f = none
some a >>= f = f a

abbrev not_deleted : SourceFileRow → Bool
not_deleted f = elim f.deleted_at [ none ↦ true | some t ↦ false ]

abbrev is_chunks : DerivativeKind → Bool
is_chunks normalized = false
is_chunks chunks = true

abbrev completeness_text : Option DerivativeRow → Text
completeness_text none = codes "NONE"
completeness_text (some d) = elim d.completeness [
  | complete ↦ codes "COMPLETE"
  | partial ↦ codes "PARTIAL"
]

-- `COALESCE(u.verified, 0)` of the `LEFT JOIN`
abbrev usage_verified : Option UsageRow → Bool
usage_verified none = false
usage_verified (some u) = u.verified

-- The keys that the joins compare are primary keys and `material_id` is UNIQUE, so each join has
-- at most one row but the one on versions, which the query orders.
unfoldable pub material_target : Database → Text → Option MaterialTarget
unfolding select select_last
material_target db material_id = do
  m ← select (λ (r : MaterialRow). teq r.material_id material_id) db.materials
  c ← select (λ (r : CourseRow). r.id == m.course_id) db.courses
  f ← select (λ (r : SourceFileRow). r.id == m.source_file_id && not_deleted r) db.source_files
  v ←
      select_last (λ (r : VersionRow). r.source_version) (λ r. r.source_file_id == f.id)
        db.source_versions
  some (record {
    row_id = m.id;
    title = f.display_name;
    course = c.name;
    source_id = f.source_id;
    source_hash = v.source_hash;
    source_version = v.source_version;
    completeness = completeness_text (
        select_last (λ (r : DerivativeRow). r.id)
          (λ r. r.source_version_id == v.id && is_chunks r.kind) db.derivatives);
    verified = usage_verified (select (λ (r : UsageRow). r.material_id == m.id) db.material_usage);
  })
