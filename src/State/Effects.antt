-- ===== src/State/Effects.antt =====
-- What `commit_gate` (src/syllva/state/v2/writer.py) does to the database, by its result.
use syllva.Prelude.{
  ℕ, ◌≡◌, ◌≢◌, ◌≤◌, ◌⊎◌, inl, inr, refl, sym, subst, Bool, true, false, ◌&&◌, Option, none, some,
  List, [], ◌∷◌, ◌++◌, ◌==◌, any, arith, Bool-cases, Option-cases,
}
use syllva.State.{Database, MaterialRow, UsageRow, GateLogRow, select}
use syllva.State.Commit.{
  Reason, Fault, CommitResult, done, raised, GateRequest, commit_gate, next_id, set_verified,
  log_row, gate_matches, write_row, write_gate, new_nonce, hash_fits, target_row, mark_verified,
  finish_commit, is_verify_material, is_material, no_fault, error, interrupt, commit_error,
  late_interrupt,
}

-- The database that a commit leaves for the material row `m`.
abbrev pub committed_db : GateRequest → MaterialRow → Database → Database
committed_db q m db =
    let n = next_id db.human_gate_log in
    record db {
      material_usage = set_verified m.id n db.material_usage;
      human_gate_log = db.human_gate_log ++ log_row n q ∷ [];
      human_gate_uses = db.human_gate_uses ++ n ∷ [];
    }

-- The results with which the database is written.
abbrev pub IsWritten : CommitResult → Type 0
IsWritten done = Unit
IsWritten (raised late_interrupt) = Unit
IsWritten r = ⊥

-- A commit that did not succeed and wrote nothing, or one that wrote, with what is known of the writing.
abbrev pub Written : (db : Database) → CommitResult × Database → Type 0 → Type 0
Written db o P = ((o.0 ≢ done) × (o.1 ≡ db)) ⊎ (IsWritten o.0 × P)

finish-cases :
    (fault : Fault) (db : Database) (o : Option Database)
    → Written db (finish_commit fault db o) (o ≡ some (finish_commit fault db o).1)
finish-cases fault db none = inl ((λ h. cc), refl)
finish-cases no_fault db (some d) = inr (tt, refl)
finish-cases error db (some d) = inl ((λ h. cc), refl)
finish-cases interrupt db (some d) = inl ((λ h. cc), refl)
finish-cases commit_error db (some d) = inl ((λ h. cc), refl)
finish-cases late_interrupt db (some d) = inr (tt, refl)

mark-some :
    (row n : ℕ) (db d : Database)
    → mark_verified row n db ≡ some d
    → (d ≡ record db {
      material_usage = set_verified row n db.material_usage;
      human_gate_uses = db.human_gate_uses ++ n ∷ [];
    })
      × (gate_matches n (select (λ (m : MaterialRow). m.id == row) db.materials) db.human_gate_log
          ≡ true)
      × (any (λ k. k == n) db.human_gate_uses ≡ false)
unfolding mark_verified
mark-some row n db d h = (ground arith, ground arith, ground arith)

-- The audit row that is written covers the material that is marked.
abbrev pub Covered : GateRequest → MaterialRow → Database → Type 0
Covered q m db =
    let n = next_id db.human_gate_log in
    gate_matches n (select (λ (r : MaterialRow). r.id == m.id) db.materials)
      (db.human_gate_log ++ log_row n q ∷ [])
    ≡ true

abbrev Unused : Database → Type 0
Unused db = any (λ k. k == next_id db.human_gate_log) db.human_gate_uses ≡ false

abbrev RowWritten : GateRequest → Database → Option MaterialRow → Database → Type 0
RowWritten q db o after =
    (m : MaterialRow) × (o ≡ some m) × (after ≡ committed_db q m db) × Covered q m db × Unused db

write_row-cases :
    (fault : Fault) (q : GateRequest) (db : Database) (o : Option MaterialRow)
    → Written db (write_row fault q db o) (RowWritten q db o (write_row fault q db o).1)
unfolding write_row
write_row-cases fault q db none = inl ((λ h. cc), refl)
write_row-cases fault q db (some m) =
    let n = next_id db.human_gate_log in
    let logged : Database = record db { human_gate_log = db.human_gate_log ++ log_row n q ∷ [] } in
    elim (finish-cases fault db (mark_verified m.id n logged)) [
      | inl w ↦ inl w
      | inr (w, e) ↦
          let (left, ok, free) =
            mark-some m.id n logged (finish_commit fault db (mark_verified m.id n logged)).1 e in
          inr (w, (m, refl, left, ok, free))
    ]

-- What `commit_gate` finds when it writes, and what it leaves.
pub record Committed (busy : Bool) (q : GateRequest) (verify : Database → Option Reason)
    (db after : Database) : Type 0 where
  pub action_wired : is_verify_material q.action ≡ true
  pub not_nested : busy ≡ false
  pub verified : verify db ≡ none
  pub nonce_unused : new_nonce q db ≡ true
  pub hash_length : hash_fits q ≡ true
  pub row : (m : MaterialRow) × (target_row q.target_id db ≡ some m) × (after ≡ committed_db q m db)
  pub checked : Covered q row.0 db
  pub unused : Unused db

-- The checks in front of the statements.
write_gate-cases :
    (busy : Bool) (fault : Fault) (q : GateRequest) (verify : Database → Option Reason)
    (db : Database)
    → is_verify_material q.action ≡ true
    → busy ≡ false
    → verify db ≡ none
    → Written db (write_gate fault q db) (Committed busy q verify db (write_gate fault q db).1)
unfolding write_gate
write_gate-cases busy fault q verify db wired free ok =
    elim (Bool-cases (new_nonce q db && hash_fits q)) [
      | inr n ↦ rw n (inl ((λ h. cc), refl))
      | inl y ↦ rw y (elim (write_row-cases fault q db (target_row q.target_id db)) [
        | inl w ↦ inl w
        | inr (w, (m, found, left, covered, unused)) ↦ inr (
          w,
          record {
            action_wired = wired;
            not_nested = free;
            verified = ok;
            nonce_unused = ground arith;
            hash_length = ground arith;
            row = (m, found, left);
            checked = covered;
            unused = unused;
          },
        )
      ])
    ]

-- `commit_gate` writes nothing, or it writes as `Committed` says.
pub commit_gate-cases :
    (busy : Bool) (fault : Fault) (q : GateRequest) (verify : Database → Option Reason)
    (db : Database)
    → Written db
        (commit_gate busy fault q verify db)
        (Committed busy q verify db (commit_gate busy fault q verify db).1)
unfolding commit_gate
commit_gate-cases busy fault q verify db =
    elim (Bool-cases (is_verify_material q.action && is_material q.target_kind)) [
      | inr n ↦ rw n (inl ((λ h. cc), refl))
      | inl y ↦ rw y (elim (Bool-cases busy) [
        | inl b ↦ rw b (inl ((λ h. cc), refl))
        | inr b ↦ rw b (elim (Option-cases (verify db)) [
          | inr (r, e) ↦ rw e (inl ((λ h. cc), refl))
          | inl e ↦ rw e (write_gate-cases false fault q verify db (ground arith) refl e)
        ])
      ])
    ]

next_id-above :
    (gs : List GateLogRow) (k : ℕ) → next_id gs ≤ k → any (λ (g : GateLogRow). g.id == k) gs ≡ false
unfolding next_id any
next_id-above [] k h = refl
next_id-above (g ∷ gs) k h = ground (arith, next_id-above gs k)

abbrev pub usage_of : ℕ → List UsageRow → Option UsageRow
usage_of i us = select (λ (u : UsageRow). u.material_id == i) us

usage_of-set_verified :
    (row n : ℕ) (us : List UsageRow)
    → (u : UsageRow) × (usage_of row (set_verified row n us) ≡ some u)
      × (u.verified ≡ true)
      × (u.verified_gate_id ≡ some n)
unfolding set_verified select
usage_of-set_verified row n [] = (
  record { material_id = row; verified = true; verified_gate_id = some n },
  ground arith,
  refl,
  refl,
)
usage_of-set_verified row n (u ∷ us) = elim (Bool-cases (u.material_id == row)) [
  | inl e ↦ (record u { verified = true; verified_gate_id = some n }, ground (arith, e), refl, refl)
  | inr e ↦ let (x, f, g, h) = usage_of-set_verified row n us in (x, ground (arith, e, f), g, h)
]

usage_of-others :
    (i row n : ℕ) (us : List UsageRow)
    → i ≢ row
    → usage_of i (set_verified row n us) ≡ usage_of i us
unfolding set_verified select
usage_of-others i row n [] d = ground arith
usage_of-others i row n (u ∷ us) d = elim (Bool-cases (u.material_id == row)) [
  | inl e ↦ ground (arith, e)
  | inr e ↦ ground (arith, e, usage_of-others i row n us d)
]

-- The traces of a commit in the tables.
pub record Recorded (q : GateRequest) (db after : Database) : Type 0 where
  pub material_row : MaterialRow
  pub found : target_row q.target_id db ≡ some material_row
  pub gate : GateLogRow
  pub logged : after.human_gate_log ≡ db.human_gate_log ++ gate ∷ []
  pub new_id : any (λ (g : GateLogRow). g.id == gate.id) db.human_gate_log ≡ false
  pub unused : any (λ k. k == gate.id) db.human_gate_uses ≡ false
  pub for_target : gate.target_id ≡ q.target_id
  pub with_hash : gate.request_hash ≡ q.request_hash
  pub with_nonce : gate.nonce_id ≡ q.nonce_id
  pub at_time : gate.confirmed_at ≡ q.confirmed_at
  pub by_shell : gate.shell_version ≡ q.shell_version
  pub usage : UsageRow
  pub usage_stored : usage_of material_row.id after.material_usage ≡ some usage
  pub usage_verified : usage.verified ≡ true
  pub usage_gate : usage.verified_gate_id ≡ some gate.id
  pub others :
      (i : ℕ) → i ≢ material_row.id → usage_of i after.material_usage ≡ usage_of i db.material_usage
  pub used : after.human_gate_uses ≡ db.human_gate_uses ++ gate.id ∷ []
  pub materials_kept : after.materials ≡ db.materials
  pub courses_kept : after.courses ≡ db.courses
  pub files_kept : after.source_files ≡ db.source_files
  pub versions_kept : after.source_versions ≡ db.source_versions
  pub derivatives_kept : after.derivatives ≡ db.derivatives

committed-Recorded :
    (q : GateRequest) (m : MaterialRow) (db : Database)
    → target_row q.target_id db ≡ some m
    → Unused db
    → Recorded q db (committed_db q m db)
committed-Recorded q m db found free =
    let n = next_id db.human_gate_log in
    let u = usage_of-set_verified m.id n db.material_usage in
    record {
      material_row = m;
      found = found;
      gate = log_row n q;
      logged = refl;
      new_id = next_id-above db.human_gate_log n (omega arith);
      unused = free;
      for_target = refl;
      with_hash = refl;
      with_nonce = refl;
      at_time = refl;
      by_shell = refl;
      usage = u.0;
      usage_stored = u.1;
      usage_verified = u.2;
      usage_gate = u.3;
      others = λ i d. usage_of-others i m.id n db.material_usage d;
      used = refl;
      materials_kept = refl;
      courses_kept = refl;
      files_kept = refl;
      versions_kept = refl;
      derivatives_kept = refl;
    }

-- A `commit_gate` that answers success has recorded it. The target is a material, and the audit log has
-- one more row, with the request's target, hash, nonce, time and Shell version, under an id that no row
-- had and no use names. The material's usage row is verified and names that id, the usage rows of all
-- other materials are the same, the id is added to the uses, and no other table has changed.
pub commit_gate-records :
    (busy : Bool) (fault : Fault) (q : GateRequest) (verify : Database → Option Reason)
    (db : Database)
    → (commit_gate busy fault q verify db).0 ≡ done
    → Recorded q db (commit_gate busy fault q verify db).1
commit_gate-records busy fault q verify db h = elim (commit_gate-cases busy fault q verify db) [
  | inl w ↦ absurd (w.0 h)
  | inr (w, c) ↦
      subst (Recorded q db) (sym c.row.2) (committed-Recorded q c.row.0 db c.row.1 c.unused)
]
