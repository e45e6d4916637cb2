-- ===== src/Gate/Examples.antt =====
-- Runs of the gate (src/syllva/gate) on a library with one material, with easy stand-ins for the hash functions.
use syllva.Prelude.{
  Text, codes, ◌≡◌, ◌⊎◌, ◌==◌, refl, true, false, none, some, [], ◌∷◌, teq, keep, any,
}
use syllva.Prelude.Dict.{lookup, insert, any_value}
use syllva.Platform.{Platform}
use syllva.State.{Database, material_target}
use syllva.State.Commit.{no_fault, commit_gate}
use syllva.Gate.{
  Gate, NonceRecord, new_gate, committed, expire, expire_records, expire_cooldown, action_of,
  action_text, valid_params, request_hash, fingerprint, finish,
}
use syllva.Prelude.Decimal.{decimal}
use syllva.Gate.Mac.{b64, verify, compute, message}
use syllva.Gate.Summaries.{summarize_material, label, collapse, cut, lstrip, rstrip, is_quote}
use syllva.State.{select}
use syllva.State.Commit.{set_verified}
use syllva.Gate.Canonical.{dict, field, str, end, dumps}
use syllva.Gate.Invariant.{Inv}
use syllva.Gate.Steps.{begins, Reach, gate-Inv}
use syllva.Gate.Service.{
  begin, confirm, Circumstance, answer, mac_ok, recheck, register, begin_target, recheck_target,
  settle,
}
use syllva.Gate.Approval.{Approved, SaysCommitted, confirm-writes, confirm-committed}

abbrev zero_hash : Text
zero_hash = codes "0000000000000000000000000000000000000000000000000000000000000000"

abbrev plain : Platform
plain = record {
  sha256_hex = λ t. zero_hash;
  hmac_sha256 = λ key message. 0 ∷ [];
  utf8 = λ t. t;
  nfc = λ t. t;
  is_category_c = λ c. false;
  is_space = λ c. c == 32;
}

abbrev library : Database
library = record {
  courses = record { id = 1; name = codes "Networks" } ∷ [];
  source_files =
      record { id = 1; source_id = codes "s1"; display_name = codes "Week 1"; deleted_at = none }
      ∷ [];
  source_versions =
      record { id = 1; source_file_id = 1; source_version = 1; source_hash = codes "sha256:ab" }
      ∷ [];
  derivatives = [];
  materials =
      record { id = 7; material_id = codes "NET-M01"; course_id = 1; source_file_id = 1 } ∷ [];
  material_usage = [];
  human_gate_log = [];
  human_gate_uses = [];
}

abbrev begun : Gate
begun =
    (begin plain (some (codes "key")) 10 (codes "n1") (codes "sid") (codes "main")
      (codes "VERIFY_MATERIAL") (codes "NET-M01")
      (dict (field (codes "material_id") (str (codes "NET-M01")) end)) library new_gate).0

abbrev shell : Circumstance
shell = record {
  secret = some (codes "key");
  shell_version = codes "1";
  now = 20;
  alive = λ sid. true;
  busy = false;
  fault = no_fault;
  confirmed_at = codes "2026-11-27";
}

begun-Reach : Reach plain begun
begun-Reach = Reach.next Reach.here (
    begins (some (codes "key")) 10 (codes "n1") (codes "sid") (codes "main")
      (codes "VERIFY_MATERIAL") (codes "NET-M01")
      (dict (field (codes "material_id") (str (codes "NET-M01")) end)) library)

gate-Inv_example : Inv begun
gate-Inv_example = gate-Inv plain begun-Reach

abbrev Done : Type 0
Done =
    SaysCommitted
      (confirm plain shell (codes "n1") (codes "main") (some (codes "AA")) begun library).answer

says_committed : Done
unfolding confirm begin lookup insert any_value expire expire_records expire_cooldown action_of
    action_text teq valid_params material_target mac_ok b64 verify commit_gate recheck request_hash
    dumps summarize_material label fingerprint finish decimal keep any register begin_target compute
    message collapse cut lstrip rstrip is_quote select set_verified recheck_target settle
says_committed = refl

confirm-writes_example :
    ((confirm plain shell (codes "n1") (codes "main") (some (codes "AA")) begun library).db
      ≡ library)
    ⊎ ((r : NonceRecord) × Approved plain shell
          (codes "n1")
          (codes "main")
          (some (codes "AA"))
          begun
          library
          (confirm plain shell (codes "n1") (codes "main") (some (codes "AA")) begun library).db
          r)
confirm-writes_example =
    confirm-writes plain shell (codes "n1") (codes "main") (some (codes "AA")) begun library
      (gate-Inv plain begun-Reach)

confirm-committed_example :
    ((r : NonceRecord) × Approved plain shell
        (codes "n1")
        (codes "main")
        (some (codes "AA"))
        begun
        library
        (confirm plain shell (codes "n1") (codes "main") (some (codes "AA")) begun library).db
        r)
    ⊎ (((confirm plain shell (codes "n1") (codes "main") (some (codes "AA")) begun library).db
          ≡ library)
        × ((r : NonceRecord) × (lookup (codes "n1") begun.records ≡ some r)
            × (r.state ≡ committed)
            × ((confirm plain shell
                  (codes "n1")
                  (codes "main")
                  (some (codes "AA"))
                  begun
                  library).answer
                ≡ some (answer r))))
confirm-committed_example =
    confirm-committed plain shell (codes "n1") (codes "main") (some (codes "AA")) begun library
      (gate-Inv plain begun-Reach) says_committed
