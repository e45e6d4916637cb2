-- ===== src/State/Examples.antt =====
-- Runs of `commit_gate` on a library with one material.
use syllva.Prelude.{codes, teq, any, ◌≡◌, refl, false, none, [], ◌∷◌}
use syllva.State.{Database, verify_material, material, select}
use syllva.State.Commit.{
  GateRequest, no_fault, error, late_interrupt, raised, done, commit_gate, set_verified,
}
use syllva.State.Effects.{Recorded, commit_gate-records}
use syllva.State.Audit.{IsAudited, commit_gate-IsAudited}

abbrev library : Database
library = record {
  courses = [];
  source_files = [];
  source_versions = [];
  derivatives = [];
  materials =
      record { id = 7; material_id = codes "NET-M01"; course_id = 1; source_file_id = 1 } ∷ [];
  material_usage = record { material_id = 7; verified = false; verified_gate_id = none } ∷ [];
  human_gate_log = [];
  human_gate_uses = [];
}

abbrev request : GateRequest
request = record {
  action = verify_material;
  target_kind = material;
  target_id = codes "NET-M01";
  request_hash = codes "0000000000000000000000000000000000000000000000000000000000000000";
  nonce_id = codes "n1";
  confirmed_at = codes "2026-11-27";
  shell_version = codes "1";
}

library_done : (commit_gate false no_fault request (λ db. none) library).0 ≡ done
unfolding commit_gate set_verified select any teq
library_done = refl

commit_gate-records_example :
    Recorded request library (commit_gate false no_fault request (λ db. none) library).1
commit_gate-records_example =
    commit_gate-records false no_fault request (λ db. none) library library_done

-- An interrupt behind COMMIT raises, and the database is written.
late_interrupt-writes :
    commit_gate false late_interrupt request (λ db. none) library
    ≡ (raised late_interrupt, (commit_gate false no_fault request (λ db. none) library).1)
unfolding commit_gate set_verified select any teq
late_interrupt-writes = refl

-- A hash of the wrong length is refused by the schema.
short_hash :
    (commit_gate false no_fault
      (record request { request_hash = codes "h" })
      (λ db. none)
      library).0
    ≡ raised error
unfolding commit_gate set_verified select any teq
short_hash = refl

library-IsAudited : IsAudited library
library-IsAudited = record { covered = (refl, tt); uses_below = tt; uses_distinct = tt }

commit_gate-IsAudited_example :
    IsAudited (commit_gate false no_fault request (λ db. none) library).1
commit_gate-IsAudited_example =
    commit_gate-IsAudited false no_fault request (λ db. none) library library-IsAudited
