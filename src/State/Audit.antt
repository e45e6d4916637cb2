-- ===== src/State/Audit.antt =====
-- The audit trail of the Human-Proof gate in the database: each verification is paid for by an
-- audit row of its own (src/syllva/state/v2/writer.py and the schema of its tables).
use syllva.Prelude.{
  ℕ, suc, ◌<◌, ◌≤◌, ◌≡◌, refl, Bool, true, false, ◌&&◌, Option, none, some, List, [], ◌∷◌, ◌++◌,
  ◌==◌, if◌then◌else◌, any, All, any-append, All-map, All-append, arith, inl, inr, Option-cases,
  Bool-cases,
}
use syllva.State.{Database, MaterialRow, UsageRow, GateLogRow, select}
use syllva.State.Effects.{committed_db, commit_gate-cases}
use syllva.State.Commit.{
  Reason, Fault, GateRequest, commit_gate, next_id, set_verified, log_row, covers, gate_matches,
}

-- The audit trail of a database: every verified usage row names a gate id that is used and whose
-- audit row covers the usage row's material; ids of the audit log and of the uses are below the
-- next id, and no id is used twice.
abbrev pub has_gate : Database → UsageRow → Bool
has_gate db u =
    if u.verified
    then elim u.verified_gate_id [
      | none ↦ false
      | some n ↦
          gate_matches n (select (λ (m : MaterialRow). m.id == u.material_id) db.materials)
            db.human_gate_log
          && any (λ k. k == n) db.human_gate_uses
    ]
    else true

abbrev pub Distinct : List ℕ → Type 0
Distinct [] = Unit
Distinct (n ∷ ns) = (any (λ k. k == n) ns ≡ false) × Distinct ns

pub record IsAudited (db : Database) : Type 0 where
  pub covered : All (λ u. has_gate db u ≡ true) db.material_usage
  pub uses_below : All (λ n. n < next_id db.human_gate_log) db.human_gate_uses
  pub uses_distinct : Distinct db.human_gate_uses

next_id-append :
    (gs : List GateLogRow) (n : ℕ) (q : GateRequest)
    → next_id gs ≤ n
    → next_id (gs ++ log_row n q ∷ []) ≡ suc n
unfolding next_id
next_id-append [] n q e = ground arith
next_id-append (g ∷ gs) n q e = ground (arith, next_id-append gs n q)

All-set_verified :
    (Q : UsageRow → Type 0) (row n : ℕ) (us : List UsageRow)
    → ((u : UsageRow) → u.material_id ≡ row → u.verified ≡ true → u.verified_gate_id ≡ some n → Q u)
    → All Q us
    → All Q (set_verified row n us)
unfolding set_verified
All-set_verified Q row n [] new h = (
  new (record { material_id = row; verified = true; verified_gate_id = some n }) refl refl refl,
  tt,
)
All-set_verified Q row n (u ∷ us) new h = elim (Bool-cases (u.material_id == row)) [
  | inl e ↦
      simp e (
        new (record u { verified = true; verified_gate_id = some n }) (ground arith) refl refl,
        h.1,
      )
  | inr e ↦ simp e (h.0, All-set_verified Q row n us new h.1)
]

Distinct-append :
    (ns : List ℕ) (n : ℕ) → Distinct ns → All (λ k. k < n) ns → Distinct (ns ++ n ∷ [])
unfolding any
Distinct-append [] n d b = (refl, tt)
Distinct-append (k ∷ ns) n d b =
    (rw (any-append (λ j. j == k) ns (n ∷ [])) (ground arith), Distinct-append ns n d.1 b.1)

gate_matches-append :
    (n : ℕ) (o : Option MaterialRow) (gs hs : List GateLogRow)
    → gate_matches n o gs ≡ true
    → gate_matches n o (gs ++ hs) ≡ true
gate_matches-append n none gs hs h = h
gate_matches-append n (some m) gs hs h =
    rw (any-append (covers n m.material_id) gs hs) (ground (arith, h))

abbrev row_of : ℕ → Database → Option MaterialRow
row_of i db = select (λ (m : MaterialRow). m.id == i) db.materials

-- A longer audit log and more uses take no gate away.
has_gate_mono :
    (db : Database) (hs : List GateLogRow) (n : ℕ) (u : UsageRow)
    → has_gate db u ≡ true
    → has_gate
        (record db {
          human_gate_log = db.human_gate_log ++ hs;
          human_gate_uses = db.human_gate_uses ++ n ∷ [];
        })
        u
      ≡ true
has_gate_mono db hs n u h = elim (Bool-cases u.verified) [
  | inr e ↦ ground (arith, e)
  | inl e ↦ elim (Option-cases u.verified_gate_id) [
    | inl f ↦ ground (arith, e, f)
    | inr (k, f) ↦ ground (
      arith,
      e,
      f,
      gate_matches-append k (row_of u.material_id db) db.human_gate_log hs,
      any-append (λ j. j == k) db.human_gate_uses (n ∷ []),
    )
  ]
]

-- The checks of the trigger passed.
abbrev Checked : ℕ → ℕ → Database → Type 0
Checked row n db = gate_matches n (row_of row db) db.human_gate_log ≡ true

any_last : (ns : List ℕ) (n : ℕ) → any (λ k. k == n) (ns ++ n ∷ []) ≡ true
unfolding any
any_last [] n = ground arith
any_last (k ∷ ns) n = ground (arith, any_last ns n)

new_has_gate :
    (db : Database) (u : UsageRow) (row n : ℕ)
    → u.material_id ≡ row
    → u.verified ≡ true
    → u.verified_gate_id ≡ some n
    → Checked row n db
    → any (λ k. k == n) db.human_gate_uses ≡ true
    → has_gate db u ≡ true
new_has_gate db u row n e f g ok used = simp (f, g) (simp e (ground (arith, ok, used)))

committed-IsAudited :
    (q : GateRequest) (m : MaterialRow) (db : Database)
    → IsAudited db
    → Checked m.id (next_id db.human_gate_log) (record db {
      human_gate_log = db.human_gate_log ++ log_row (next_id db.human_gate_log) q ∷ [];
    })
    → IsAudited (committed_db q m db)
committed-IsAudited q m db v ok =
    let n = next_id db.human_gate_log in
    let hs : List GateLogRow = log_row n q ∷ [] in
    record {
      covered =
          All-set_verified (λ u. has_gate (committed_db q m db) u ≡ true) m.id n db.material_usage
            (λ u e f g.
              new_has_gate (committed_db q m db) u m.id n e f g ok (any_last db.human_gate_uses n))
            (All-map (λ u h. has_gate_mono db hs n u h) db.material_usage v.covered);
      uses_below =
          All-append (λ k. k < next_id (db.human_gate_log ++ hs)) db.human_gate_uses (n ∷ [])
            (All-map (λ k h. omega (arith, next_id-append db.human_gate_log n q (omega arith)))
              db.human_gate_uses v.uses_below)
            (omega (arith, next_id-append db.human_gate_log n q (omega arith)), tt);
      uses_distinct = Distinct-append db.human_gate_uses n v.uses_distinct v.uses_below;
    }

-- `commit_gate` keeps the audit trail, whatever its `verify` and the database answer: each verified
-- usage row names a used gate id whose audit row is for the action VERIFY_MATERIAL and for the
-- row's own material, and no gate id is used twice.
pub commit_gate-IsAudited :
    (busy : Bool) (fault : Fault) (q : GateRequest) (verify : Database → Option Reason)
    (db : Database)
    → IsAudited db
    → IsAudited (commit_gate busy fault q verify db).1
commit_gate-IsAudited busy fault q verify db v = elim (commit_gate-cases busy fault q verify db) [
  | inl w ↦ rw w.1 v
  | inr (w, c) ↦ rw c.row.2 (committed-IsAudited q c.row.0 db v c.checked)
]
