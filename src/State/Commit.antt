-- ===== src/State/Commit.antt =====
-- `StateWriter.commit_gate` of src/syllva/state/v2/writer.py, with the constraints and triggers of
-- src/syllva/state/v2/migrations/001_v2_initial.sql that its statements meet.
use syllva.Prelude.{
  ℕ, suc, Text, teq, Bool, true, false, ◌&&◌, not, Option, none, some, List, [], ◌∷◌, ◌++◌, ltb,
  ◌==◌, if◌then◌else◌, any, length,
}
use syllva.State.{
  Database, MaterialRow, UsageRow, GateLogRow, Action, verify_material, confirm_exam_scope,
  set_submission_status, adopt_ai_artifact, TargetKind, material, exam, activity, ai_artifact,
  select,
}

pub data Reason : Type 0 where
  unknown expired used wrong_window session_gone bad_mac commit_failed target_changed : Reason

-- What may go wrong beyond the statements' own rules, in a call that no refusal and no constraint ends
-- before: a statement fails (`error`) or an interrupt comes (`interrupt`) in the transaction; COMMIT
-- fails (`commit_error`); an interrupt comes behind COMMIT (`late_interrupt`). An interrupt is a
-- `BaseException` and no `Exception`.
pub data Fault : Type 0 where
  no_fault error interrupt commit_error late_interrupt : Fault

pub data CommitResult : Type 0 where
  done : CommitResult
  refused : Reason → CommitResult
  raised : Fault → CommitResult

pub record GateRequest : Type 0 where
  pub action : Action
  pub target_kind : TargetKind
  pub target_id : Text
  pub request_hash : Text
  pub nonce_id : Text
  pub confirmed_at : Text
  pub shell_version : Text

abbrev pub is_verify_material : Action → Bool
is_verify_material verify_material = true
is_verify_material confirm_exam_scope = false
is_verify_material set_submission_status = false
is_verify_material adopt_ai_artifact = false

abbrev pub is_material : TargetKind → Bool
is_material material = true
is_material exam = false
is_material activity = false
is_material ai_artifact = false

-- `INTEGER PRIMARY KEY`: a new row gets one more than the greatest id.
unfoldable pub next_id : List GateLogRow → ℕ
next_id [] = 1
next_id (g ∷ gs) = let n = next_id gs in if ltb g.id n then n else suc g.id

abbrev pub log_row : ℕ → GateRequest → GateLogRow
log_row n q = record {
  id = n;
  action = q.action;
  target_kind = q.target_kind;
  target_id = q.target_id;
  request_hash = q.request_hash;
  nonce_id = q.nonce_id;
  confirmed_at = q.confirmed_at;
  shell_version = q.shell_version;
}

-- The `EXISTS` of `GATE_MISMATCH`, for a gate id and the material of a usage row.
abbrev pub covers : ℕ → Text → GateLogRow → Bool
covers gate_id material_id g =
    g.id == gate_id
    && is_verify_material g.action
    && is_material g.target_kind
    && teq g.target_id material_id

abbrev pub gate_matches : ℕ → Option MaterialRow → List GateLogRow → Bool
gate_matches gate_id none log = false
gate_matches gate_id (some m) log = any (covers gate_id m.material_id) log

-- The usage row of a material is set, or added where there is none.
unfoldable pub set_verified : ℕ → ℕ → List UsageRow → List UsageRow
set_verified row_id gate_id [] =
    record { material_id = row_id; verified = true; verified_gate_id = some gate_id } ∷ []
set_verified row_id gate_id (u ∷ us) =
    let rest = set_verified row_id gate_id us in
    if u.material_id == row_id
    then record u { verified = true; verified_gate_id = some gate_id } ∷ us
    else u ∷ rest

-- The usage statement under its trigger: the gate row must cover the material and be unused.
-- `none` is an abort. The gate id is new, so the trigger's `WHEN` holds on the update too.
unfoldable pub mark_verified : ℕ → ℕ → Database → Option Database
unfolding set_verified
mark_verified row_id gate_id db =
    if gate_matches gate_id (select (λ (m : MaterialRow). m.id == row_id) db.materials)
        db.human_gate_log
      && not (any (λ n. n == gate_id) db.human_gate_uses)
    then some (record db {
      material_usage = set_verified row_id gate_id db.material_usage;
      human_gate_uses = db.human_gate_uses ++ gate_id ∷ [];
    })
    else none

-- The end of `transaction`. An exception of the block is followed by ROLLBACK. One of COMMIT is not: the
-- transaction stays open, so that later calls find the connection busy, and the database on disk is as it
-- was. Behind COMMIT the database is written, whatever comes.
abbrev pub finish_commit : Fault → Database → Option Database → CommitResult × Database
finish_commit fault db none = (raised error, db)
finish_commit no_fault db (some db') = (done, db')
finish_commit error db (some db') = (raised error, db)
finish_commit interrupt db (some db') = (raised interrupt, db)
finish_commit commit_error db (some db') = (raised commit_error, db)
finish_commit late_interrupt db (some db') = (raised late_interrupt, db')

-- The statements behind the checks of the audit row. A target that is gone is a rollback.
unfoldable pub write_row :
    Fault → GateRequest → Database → Option MaterialRow → CommitResult × Database
unfolding mark_verified next_id
write_row fault q db none = (refused target_changed, db)
write_row fault q db (some m) =
    let gate_id = next_id db.human_gate_log in
    finish_commit fault db (
      mark_verified m.id gate_id
        (record db { human_gate_log = db.human_gate_log ++ log_row gate_id q ∷ [] }))

-- `nonce_id` is UNIQUE in the audit log.
abbrev pub new_nonce : GateRequest → Database → Bool
new_nonce q db = not (any (λ (g : GateLogRow). teq g.nonce_id q.nonce_id) db.human_gate_log)

-- `CHECK (length(request_hash) = 64)`
abbrev pub hash_fits : GateRequest → Bool
hash_fits q = length q.request_hash == 64

abbrev pub target_row : Text → Database → Option MaterialRow
target_row id db = select (λ (m : MaterialRow). teq m.material_id id) db.materials

unfoldable pub write_gate : Fault → GateRequest → Database → CommitResult × Database
unfolding write_row select
write_gate fault q db =
    if new_nonce q db && hash_fits q
    then write_row fault q db (target_row q.target_id db)
    else (raised error, db)

abbrev pub after_verify : Fault → GateRequest → Database → Option Reason → CommitResult × Database
unfolding write_gate
after_verify fault q db (some r) = (refused r, db)
after_verify fault q db none = write_gate fault q db

-- `busy`: a transaction is open already, in the writer or on the connection.
unfoldable pub commit_gate :
    (busy : Bool)
    → Fault
    → GateRequest
    → (verify : Database → Option Reason) → Database
    → CommitResult × Database
unfolding write_gate
commit_gate busy fault q verify db =
    if is_verify_material q.action && is_material q.target_kind
    then (if busy then (raised error, db) else after_verify fault q db (verify db))
    else (raised error, db)
