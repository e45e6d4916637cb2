-- ===== src/Gate.antt =====
-- The Human-Proof gate: src/syllva/gate/service.py (`GateService`). The service lock makes the part
-- of each method under it one step on the nonce records and the cooldowns. The monotonic clock is
-- read in milliseconds and comes as an argument, as do `session_alive`, the nonce that `secrets`
-- draws and the time stamp of the audit row.
pub mod Canonical
pub mod Summaries
pub mod Mac
pub mod Service
pub mod Expiry
pub mod Invariant
pub mod Steps
pub mod Approval
mod Examples
use syllva.Prelude.{
  ℕ, ◌+◌, ◌-◌, Text, codes, teq, Bool, true, false, ◌&&◌, ◌||◌, not, Option, none, some, List, [],
  ◌∷◌, ◌++◌, ltb, leb, ◌==◌, if◌then◌else◌, take, drop, length,
}
use syllva.Prelude.Dict.{Dict, lookup, insert, any_value}
use syllva.Prelude.Decimal.{decimal}
use syllva.Platform.{Platform}
use syllva.Domain.Ids.{matches_entity_id}
use syllva.State.{
  Database, Action, verify_material, confirm_exam_scope, set_submission_status, adopt_ai_artifact,
  MaterialTarget, material, material_target,
}
use syllva.State.Commit.{
  Reason, unknown, expired, used, wrong_window, session_gone, bad_mac, commit_failed,
  target_changed, Fault, no_fault, error, interrupt, CommitResult, done, refused, raised,
  GateRequest, commit_gate,
}
use Canonical.{Json, str, int, dict, list, null, bool, neg, float, other, Fields, end, field, dumps}
use Summaries.{label, summarize_material}
use Mac.{verify, b64}

abbrev pub ttl : ℕ
ttl = 60_000

abbrev pub cooldown_time : ℕ
cooldown_time = 2_000

abbrev pub keep_terminal : ℕ
keep_terminal = 300_000

pub data RecordState : Type 0 where
  pending committing committed rejected denied timed_out : RecordState

pub record NonceRecord : Type 0 where
  pub nonce_id : Text
  pub session_id : Text
  pub window_label : Text
  pub action : Action
  pub target_id : Text
  pub request_hash : Text
  pub summary : Text
  pub target_label : Text
  pub source_ids : List Text
  pub source_prefixes : List Text
  pub deadline : ℕ
  pub state : RecordState
  pub reason : Option Reason
  pub superseded : Bool
  pub finished : Option ℕ

pub record Gate : Type 0 where
  pub records : Dict NonceRecord
  pub cooldown : Dict ℕ

abbrev pub new_gate : Gate
new_gate = record { records = []; cooldown = [] }

abbrev pub is_pending : RecordState → Bool
is_pending pending = true
is_pending committing = false
is_pending committed = false
is_pending rejected = false
is_pending denied = false
is_pending timed_out = false

-- `TERMINAL`
abbrev pub is_terminal : RecordState → Bool
is_terminal pending = false
is_terminal committing = false
is_terminal committed = true
is_terminal rejected = true
is_terminal denied = true
is_terminal timed_out = true

-- The states after which a session has to wait.
abbrev pub cools : RecordState → Bool
cools pending = false
cools committing = false
cools committed = false
cools rejected = true
cools denied = true
cools timed_out = true

-- `_finish`, on the record and on the cooldowns.
abbrev pub finish_record : RecordState → Option Reason → ℕ → NonceRecord → NonceRecord
finish_record state reason now r = record r { state = state; reason = reason; finished = some now }

abbrev pub finish_cooldown : RecordState → ℕ → Text → Dict ℕ → Dict ℕ
finish_cooldown state now session_id cd =
    if cools state then insert session_id (now + cooldown_time) cd else cd

unfoldable pub finish : Text → NonceRecord → RecordState → Option Reason → ℕ → Gate → Gate
finish key r state reason now g = record {
  records = insert key (finish_record state reason now r) g.records;
  cooldown = finish_cooldown state now r.session_id g.cooldown;
}

abbrev pub overdue : ℕ → NonceRecord → Bool
overdue now r = is_pending r.state && leb r.deadline now

abbrev pub outlived : ℕ → NonceRecord → Bool
outlived now r = elim r.finished [ none ↦ false | some t ↦ ltb keep_terminal (now - t) ]

-- The loop of `_expire`, on the records and on the cooldowns.
unfoldable pub expire_records : ℕ → Dict NonceRecord → Dict NonceRecord
expire_records now [] = []
expire_records now ((k, r) ∷ rest) =
    let others = expire_records now rest in
    if overdue now r
    then (k, finish_record timed_out none r.deadline r) ∷ others
    else if outlived now r
    then others
    else (k, r) ∷ others

unfoldable pub expire_cooldown : ℕ → Dict NonceRecord → Dict ℕ → Dict ℕ
expire_cooldown now [] cd = cd
expire_cooldown now ((k, r) ∷ rest) cd =
    expire_cooldown now rest
      (if overdue now r then finish_cooldown timed_out r.deadline r.session_id cd else cd)

unfoldable pub expire : ℕ → Gate → Gate
expire now g = record {
  records = expire_records now g.records;
  cooldown = expire_cooldown now g.records g.cooldown;
}

pub data GateError : Type 0 where
  gate_unavailable bad_request action_not_available target_unknown already_done gate_busy
        gate_cooldown :
      GateError

-- The HTTP status of a `GateError`.
unfoldable pub status : GateError → ℕ
status gate_unavailable = 409
status bad_request = 400
status action_not_available = 400
status target_unknown = 404
status already_done = 409
status gate_busy = 409
status gate_cooldown = 409

pub data Begun : Type 0 where
  nonce : Text → Begun
  fails : GateError → Begun

-- `ACTIONS`, as the texts of the request.
unfoldable pub action_of : Text → Option Action
action_of t =
    if teq t (codes "VERIFY_MATERIAL")
    then some verify_material
    else if teq t (codes "CONFIRM_EXAM_SCOPE")
    then some confirm_exam_scope
    else if teq t (codes "SET_SUBMISSION_STATUS")
    then some set_submission_status
    else if teq t (codes "ADOPT_AI_ARTIFACT")
    then some adopt_ai_artifact
    else none

unfoldable pub action_text : Action → Text
action_text verify_material = codes "VERIFY_MATERIAL"
action_text confirm_exam_scope = codes "CONFIRM_EXAM_SCOPE"
action_text set_submission_status = codes "SET_SUBMISSION_STATUS"
action_text adopt_ai_artifact = codes "ADOPT_AI_ARTIFACT"

-- `WIRED`
abbrev pub wired : Action → Bool
wired verify_material = true
wired confirm_exam_scope = false
wired set_submission_status = false
wired adopt_ai_artifact = false

-- The parameters are a mapping whose only key is `material_id`, at the target's id, which is an
-- entity id.
unfoldable pub valid_params : Text → Json → Bool
unfolding matches_entity_id
valid_params target_id (dict (field key (str id) end)) =
    teq key (codes "material_id") && (matches_entity_id id && teq target_id id)
valid_params target_id _ = false

-- `verify_material` of src/syllva/gate/fingerprints.py.
unfoldable pub fingerprint : MaterialTarget → Text
fingerprint t = t.source_hash ++ (124 ∷ (decimal t.source_version ++ (124 ∷ t.completeness)))

abbrev pub removeprefix : Text → Text → Text
removeprefix prefix t = if teq (take (length prefix) t) prefix then drop (length prefix) t else t

abbrev pub text_of : Option Text → Text
text_of none = []
text_of (some t) = t

module _ (p : Platform) where
  abbrev pub request_object : Action → (target_id summary print : Text) → Json
  request_object action target_id summary print = dict (
      field (codes "v") (int 1) (
        field (codes "action") (str (action_text action)) (
          field (codes "target_id") (str target_id) (
            field (codes "params") (dict (field (codes "material_id") (str target_id) end)) (
              field (codes "summary") (str summary)
                (field (codes "target_fingerprint") (str print) end))))))

  -- `request_hash`. The object holds texts and one integer, so `dumps` gives a text.
  unfoldable pub request_hash : Action → (target_id summary print : Text) → Text
  request_hash action target_id summary print =
      p.sha256_hex (text_of (dumps p.nfc (request_object action target_id summary print)))
