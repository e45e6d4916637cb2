-- ===== src/Gate/Service.antt =====
-- The four methods of `GateService` (src/syllva/gate/service.py): `begin`, `view`, `deny` and
-- `confirm`, on the nonce records and, for `confirm`, the database.
use syllva.Prelude.{
  ℕ, ◌+◌, ◌-◌, Text, codes, teq, Bool, true, false, ◌&&◌, not, Option, none, some, [], ◌∷◌, ltb,
  if◌then◌else◌, take,
}
use syllva.Prelude.Dict.{lookup, insert, any_value}
use syllva.Platform.{Platform}
use syllva.State.{Database, Action, MaterialTarget, material, material_target}
use syllva.State.Commit.{
  Reason, unknown, expired, used, wrong_window, session_gone, bad_mac, commit_failed,
  target_changed, Fault, interrupt, late_interrupt, CommitResult, done, refused, raised,
  GateRequest, commit_gate,
}
use syllva.Gate.Canonical.{Json}
use syllva.Gate.Summaries.{label, summarize_material}
use syllva.Gate.Mac.{verify, b64}
use syllva.Gate.{
  Gate, NonceRecord, RecordState, pending, committing, committed, rejected, denied, timed_out, ttl,
  is_pending, is_terminal, finish, expire, gate_unavailable, bad_request, action_not_available,
  target_unknown, already_done, gate_busy, gate_cooldown, Begun, nonce, fails, action_of, wired,
  valid_params, fingerprint, request_hash, removeprefix,
}

abbrev pub busy_with : Text → NonceRecord → Bool
busy_with session_id r = teq r.session_id session_id && is_pending r.state

-- `now < self._cooldown.get(session_id, 0.0)`
abbrev pub cooling : ℕ → Option ℕ → Bool
cooling now none = false
cooling now (some until) = ltb now until

-- The part of `begin` under the lock: `make` is the record but for its deadline.
unfoldable pub register : ℕ → (ℕ → NonceRecord) → Gate → Gate × Begun
register now make g =
    let e = expire now g in
    let r = make (now + ttl) in
    if any_value (busy_with r.session_id) e.records
    then (e, fails gate_busy)
    else if cooling now (lookup r.session_id e.cooldown)
    then (e, fails gate_cooldown)
    else (record e { records = insert r.nonce_id r e.records }, nonce r.nonce_id)

-- What `confirm` and `deny` answer.
pub record Answer : Type 0 where
  pub nonce_id : Text
  pub status : RecordState
  pub reason : Option Reason
  pub superseded : Bool

abbrev pub result : Text → RecordState → Option Reason → Answer
result nonce_id status reason = record {
  nonce_id = nonce_id;
  status = status;
  reason = reason;
  superseded = false;
}

-- `_answer`
abbrev pub answer : NonceRecord → Answer
answer r = record {
  nonce_id = r.nonce_id;
  status = r.state;
  reason = r.reason;
  superseded = r.superseded;
}

-- The record at a key as `_answer` reads it once the method has changed it.
abbrev pub answer_of : Text → Option NonceRecord → Answer
answer_of key none = result key rejected (some unknown)
answer_of key (some r) = answer r

abbrev pub answer_at : Text → Gate → Answer
answer_at key g = answer_of key (lookup key g.records)

pub data View : Type 0 where
  no_view : Reason → View
  shown : NonceRecord → (expires_in_ms : ℕ) → View

-- `_unusable`
unfoldable pub unusable : (Text → Bool) → Text → Option NonceRecord → Option Reason
unusable alive window none = some unknown
unusable alive window (some r) = elim r.state [
  | timed_out ↦ some expired
  | pending ↦
      if not (teq r.window_label window)
      then some wrong_window
      else if alive r.session_id
      then none
      else some session_gone
  | _ ↦ some used
]

abbrev pub show : ℕ → Option NonceRecord → Option Reason → View
show now none reason = no_view unknown
show now (some r) (some reason) = no_view reason
show now (some r) none = shown r (r.deadline - now)

unfoldable pub view : ℕ → (alive : Text → Bool) → (nonce_id window : Text) → Gate → Gate × View
unfolding unusable
view now alive nonce_id window g =
    let e = expire now g in
    let found = lookup nonce_id e.records in (e, show now found (unusable alive window found))

unfoldable pub deny_record : ℕ → Text → Option NonceRecord → Gate → Gate × Answer
deny_record now nonce_id none g = (g, result nonce_id rejected (some unknown))
deny_record now nonce_id (some r) g =
    if is_pending r.state
    then (
      finish nonce_id r denied none now g,
      answer (record r { state = denied; reason = none; finished = some now }),
    )
    else (g, answer r)

unfoldable pub deny : ℕ → Text → Gate → Gate × Answer
unfolding deny_record
deny now nonce_id g = let e = expire now g in deny_record now nonce_id (lookup nonce_id e.records) e

-- A `confirm` leaves the gate and the database, and its answer. `none` is the interrupt that it
-- raises again.
pub record Confirmed : Type 0 where
  pub gate : Gate
  pub db : Database
  pub answer : Option Answer

-- What a `confirm` is given beside the state: the secret and version of the Shell, the clock,
-- the liveness of sessions, whether a transaction is open, the database's fault and the stamp.
pub record Circumstance : Type 0 where
  pub secret : Option Text
  pub shell_version : Text
  pub now : ℕ
  pub alive : Text → Bool
  pub busy : Bool
  pub fault : Fault
  pub confirmed_at : Text

abbrev pub is_target_changed : Reason → Bool
is_target_changed target_changed = true
is_target_changed _ = false

abbrev pub gate_request : NonceRecord → (nonce_id confirmed_at shell_version : Text) → GateRequest
gate_request r nonce_id confirmed_at shell_version = record {
  action = r.action;
  target_kind = material;
  target_id = r.target_id;
  request_hash = r.request_hash;
  nonce_id = nonce_id;
  confirmed_at = confirmed_at;
  shell_version = shell_version;
}

-- The record's end after `commit_gate`.
unfoldable pub settle : ℕ → Text → NonceRecord → Gate → CommitResult × Database → Confirmed
settle now key r g (done, db) =
    let g' = finish key r committed none now g in
    record { gate = g'; db = db; answer = some (answer_at key g') }
settle now key r g (refused reason, db) =
    let g' =
      finish key (record r { superseded = is_target_changed reason }) rejected (some reason) now
        g in
    record { gate = g'; db = db; answer = some (answer_at key g') }
settle now key r g (raised interrupt, db) = record {
  gate = finish key r rejected (some commit_failed) now g;
  db = db;
  answer = none;
}
settle now key r g (raised late_interrupt, db) = record {
  gate = finish key r rejected (some commit_failed) now g;
  db = db;
  answer = none;
}
settle now key r g (raised fault, db) =
    let g' = finish key r rejected (some commit_failed) now g in
    record { gate = g'; db = db; answer = some (answer_at key g') }

abbrev pub end_with : Circumstance → Text → NonceRecord → Reason → Gate → Database → Confirmed
end_with c nonce_id r reason g db =
    let g' = finish nonce_id r rejected (some reason) c.now g in
    record { gate = g'; db = db; answer = some (answer_at nonce_id g') }

abbrev pub presented : Option Text → Option Text
presented none = none
presented (some t) = b64 t

module _ (p : Platform) where
  -- `begin` in front of the lock. The clock is not read here.
  abbrev pub new_record :
      (nonce_id session_id window : Text) → Action → Text → MaterialTarget → ℕ → NonceRecord
  new_record nonce_id session_id window action target_id t deadline =
      let summary = summarize_material p target_id t.title t.course in
      record {
        nonce_id = nonce_id;
        session_id = session_id;
        window_label = window;
        action = action;
        target_id = target_id;
        request_hash = request_hash p action target_id summary (fingerprint t);
        summary = summary;
        target_label = label p t.title;
        source_ids = t.source_id ∷ [];
        source_prefixes = take 12 (removeprefix (codes "sha256:") t.source_hash) ∷ [];
        deadline = deadline;
        state = pending;
        reason = none;
        superseded = false;
        finished = none;
      }

  unfoldable pub begin_target :
      ℕ
      → (nonce_id session_id window : Text) → Action
      → Text
      → Option MaterialTarget
      → Gate
      → Gate × Begun
  unfolding register
  begin_target now nonce_id session_id window action target_id none g = (g, fails target_unknown)
  begin_target now nonce_id session_id window action target_id (some t) g =
      if t.verified
      then (g, fails already_done)
      else register now (new_record nonce_id session_id window action target_id t) g

  unfoldable pub begin_action :
      ℕ
      → (nonce_id session_id window : Text) → Option Action
      → Text
      → Json
      → Database
      → Gate
      → Gate × Begun
  unfolding begin_target
  begin_action now nonce_id session_id window none target_id params db g = (g, fails bad_request)
  begin_action now nonce_id session_id window (some action) target_id params db g =
      if not (wired action)
      then (g, fails action_not_available)
      else if not (valid_params target_id params)
      then (g, fails bad_request)
      else begin_target now nonce_id session_id window action target_id
          (material_target db target_id) g

  unfoldable pub begin :
      (secret : Option Text)
      → ℕ
      → (nonce_id session_id window action target_id : Text) → Json
      → Database
      → Gate
      → Gate × Begun
  unfolding begin_action
  begin none now nonce_id session_id window action target_id params db g =
      (g, fails gate_unavailable)
  begin (some secret) now nonce_id session_id window action target_id params db g =
      begin_action now nonce_id session_id window (action_of action) target_id params db g

  unfoldable pub recheck_target : NonceRecord → Option MaterialTarget → Option Reason
  recheck_target r none = some target_changed
  recheck_target r (some t) =
      if t.verified
      then some target_changed
      else if teq
          (request_hash p r.action r.target_id (summarize_material p r.target_id t.title t.course)
            (fingerprint t))
          r.request_hash
      then none
      else some target_changed

  -- `_recheck`, which `commit_gate` runs inside its transaction.
  unfoldable pub recheck : NonceRecord → Database → Option Reason
  unfolding recheck_target
  recheck r db = recheck_target r (material_target db r.target_id)

  -- `mac_ok`
  unfoldable pub mac_ok : Option Text → Text → NonceRecord → Option Text → Bool
  mac_ok (some secret) nonce_id r (some presented) =
      verify p secret nonce_id r.request_hash presented
  mac_ok secret nonce_id r presented = false

  -- The record has passed every check of `confirm` in front of the database work.
  unfoldable pub commit_record : Circumstance → Text → NonceRecord → Gate → Database → Confirmed
  unfolding settle
  commit_record c nonce_id r g db =
      settle c.now nonce_id (record r { state = committing }) g
        (commit_gate c.busy c.fault (gate_request r nonce_id c.confirmed_at c.shell_version)
          (recheck (record r { state = committing })) db)

  unfoldable pub confirm_record :
      Circumstance
      → (nonce_id window : Text) → Option Text
      → Option NonceRecord
      → Gate
      → Database
      → Confirmed
  unfolding commit_record
  confirm_record c nonce_id window mac none g db = record {
    gate = g;
    db = db;
    answer = some (result nonce_id rejected (some unknown));
  }
  confirm_record c nonce_id window mac (some r) g db =
      if is_terminal r.state
      then record { gate = g; db = db; answer = some (answer r) }
      else if not (teq r.window_label window)
      then record {
        gate = g;
        db = db;
        answer = some (result nonce_id rejected (some wrong_window));
      }
      else if not (c.alive r.session_id)
      then end_with c nonce_id r session_gone g db
      else if not (mac_ok c.secret nonce_id r mac)
      then end_with c nonce_id r bad_mac g db
      else commit_record c nonce_id r g db

  unfoldable pub confirm :
      Circumstance
      → (nonce_id window : Text) → (mac_b64 : Option Text) → Gate
      → Database
      → Confirmed
  unfolding confirm_record
  confirm c nonce_id window mac_b64 g db =
      let e = expire c.now g in
      confirm_record c nonce_id window (presented mac_b64) (lookup nonce_id e.records) e db
