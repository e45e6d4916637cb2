-- ===== src/Gate/Steps.antt =====
-- Every call of src/syllva/gate/service.py keeps the invariant of the nonce records.
use syllva.Prelude.{
  ℕ, ◌+◌, Text, teq, teq_iff, ◌≡◌, refl, Bool, true, false, not, Option, none, some, if◌then◌else◌,
  arith, inl, inr, Option-cases, Bool-cases,
}
use syllva.Prelude.Dict.{lookup, insert, any_value, insert-IsUnique, lookup-insert, any_value-false}
use syllva.Platform.{Platform}
use syllva.State.{Database, Action, MaterialTarget, material_target}
use syllva.State.Commit.{
  Reason, commit_failed, session_gone, bad_mac, wrong_window, CommitResult, done, refused, raised,
  no_fault, error, interrupt, commit_error, late_interrupt,
}
use syllva.Gate.{
  Gate, NonceRecord, RecordState, pending, committing, committed, rejected, denied, new_gate,
  is_pending, is_terminal, finish, finish_record, expire, action_of, wired, valid_params, ttl,
}
use syllva.Gate.Canonical.{Json}
use syllva.Gate.Invariant.{Inv, IsSettled, new_gate-Inv, expire-Inv, finish-Inv}
use syllva.Gate.Service.{
  register, busy_with, cooling, begin, begin_action, begin_target, new_record, view, deny,
  deny_record, Circumstance, confirm, confirm_record, commit_record, settle, is_target_changed,
  presented, mac_ok, Confirmed, end_with, result,
}

-- A record that the invariant calls settled and that has not ended is pending.
pub pending_of_running :
    (r : NonceRecord) → IsSettled r → is_terminal r.state ≡ false → r.state ≡ pending
pending_of_running r v h = ground (arith, v.idle)

finished-IsSettled :
    (r : NonceRecord) (state : RecordState) (reason : Option Reason) (now : ℕ)
    → r.superseded ≡ false
    → is_terminal state ≡ true
    → IsSettled (finish_record state reason now r)
finished-IsSettled r state reason now s t = record {
  idle = ground arith;
  running = ground arith;
  ended = λ h e. cc;
  superseding = λ h. absurd (clash h);
}
  where
    clash : r.superseded ≡ true → ⊥
    clash h = ground arith

open_not_superseded : (r : NonceRecord) → IsSettled r → r.state ≡ pending → r.superseded ≡ false
open_not_superseded r v h = ground (arith, v.superseding)

register-Inv :
    (now : ℕ) (make : ℕ → NonceRecord) (g : Gate)
    → ((make (now + ttl)).state ≡ pending)
    → ((make (now + ttl)).finished ≡ none)
    → ((make (now + ttl)).superseded ≡ false)
    → Inv g
    → Inv (register now make g).0
unfolding register
register-Inv now make g st fi su v =
    let e = expire now g in
    let r = make (now + ttl) in
    elim (Bool-cases (any_value (busy_with r.session_id) e.records)) [
      | inl b ↦ rw b (expire-Inv now g v)
      | inr b ↦ rw b (elim (Bool-cases (cooling now (lookup r.session_id e.cooldown))) [
        | inl c ↦ rw c (expire-Inv now g v)
        | inr c ↦ rw c (added e r (expire-Inv now g v) b st fi su)
      ])
    ]
  where
    added :
        (e : Gate) (r : NonceRecord)
        → Inv e
        → any_value (busy_with r.session_id) e.records ≡ false
        → r.state ≡ pending
        → r.finished ≡ none
        → r.superseded ≡ false
        → Inv (record e { records = insert r.nonce_id r e.records })
    added e r v b st fi su = record {
      unique = insert-IsUnique r.nonce_id r e.records v.unique;
      keyed = λ k t h.
          ground (arith, lookup-insert r.nonce_id k r e.records, teq_iff r.nonce_id k, v.keyed k t);
      settled = λ k t h. ground (arith, lookup-insert r.nonce_id k r e.records, v.settled k t);
      one_pending = λ j k t u h i p q s. ground (
        arith,
        lookup-insert r.nonce_id j r e.records,
        lookup-insert r.nonce_id k r e.records,
        teq_iff r.nonce_id j,
        teq_iff r.nonce_id k,
        v.one_pending j k t u,
        any_value-false (busy_with r.session_id) e.records j t b,
        any_value-false (busy_with r.session_id) e.records k u b,
        teq_iff t.session_id r.session_id,
        teq_iff u.session_id r.session_id,
      );
    }

if-Inv {ℓ} :
    {A : Type ℓ} (b : Bool) (x y : Gate × A) → Inv x.0 → Inv y.0 → Inv (if b then x else y).0
if-Inv true x y v w = v
if-Inv false x y v w = w

refused-IsSettled :
    (r : NonceRecord) (reason : Reason) (now : ℕ)
    → IsSettled (
        finish_record rejected
          (some reason)
          now
          (record r { state = committing; superseded = is_target_changed reason }))
refused-IsSettled r reason now = record {
  idle = ground arith;
  running = λ h. cc;
  ended = λ h e. cc;
  superseding = λ h. (refl, ground arith);
}

module _ (p : Platform) where
  begin_target-Inv :
      (now : ℕ) (nonce_id session_id window : Text) (action : Action) (target_id : Text)
      (t : Option MaterialTarget) (g : Gate)
      → Inv g
      → Inv (begin_target p now nonce_id session_id window action target_id t g).0
  unfolding begin_target
  begin_target-Inv now nonce_id session_id window action target_id none g v = v
  begin_target-Inv now nonce_id session_id window action target_id (some t) g v =
      if-Inv t.verified _ _ v (
        register-Inv now (new_record p nonce_id session_id window action target_id t) g refl refl
          refl v)

  begin_action-Inv :
      (now : ℕ) (nonce_id session_id window : Text) (action : Option Action) (target_id : Text)
      (params : Json) (db : Database) (g : Gate)
      → Inv g
      → Inv (begin_action p now nonce_id session_id window action target_id params db g).0
  unfolding begin_action
  begin_action-Inv now nonce_id session_id window none target_id params db g v = v
  begin_action-Inv now nonce_id session_id window (some action) target_id params db g v =
      if-Inv (not (wired action)) _ _ v (
        if-Inv (not (valid_params target_id params)) _ _ v (
          begin_target-Inv now nonce_id session_id window action target_id
            (material_target db target_id) g v))

  begin-Inv :
      (secret : Option Text) (now : ℕ) (nonce_id session_id window action target_id : Text)
      (params : Json) (db : Database) (g : Gate)
      → Inv g
      → Inv (begin p secret now nonce_id session_id window action target_id params db g).0
  unfolding begin
  begin-Inv none now nonce_id session_id window action target_id params db g v = v
  begin-Inv (some secret) now nonce_id session_id window action target_id params db g v =
      begin_action-Inv now nonce_id session_id window (action_of action) target_id params db g v

-- A pending record may end in any terminal state, also through COMMITTING.
close-Inv :
    (k : Text) (r : NonceRecord) (through state : RecordState) (reason : Option Reason) (now : ℕ)
    (g : Gate)
    → Inv g
    → lookup k g.records ≡ some r
    → r.state ≡ pending
    → is_terminal state ≡ true
    → Inv (finish k (record r { state = through }) state reason now g)
close-Inv k r through state reason now g v at st t =
    finish-Inv k r (record r { state = through }) state reason now g v at refl
      (finished-IsSettled (record r { state = through }) state reason now
        (open_not_superseded r (v.settled k r at) st) t)
      (λ e. ground arith)

-- `settle` ends the record, whatever the database answered.
settle-Inv :
    (now : ℕ) (k : Text) (r : NonceRecord) (g : Gate) (o : CommitResult × Database)
    → Inv g
    → lookup k g.records ≡ some r
    → r.state ≡ pending
    → Inv (settle now k (record r { state = committing }) g o).gate
unfolding settle
settle-Inv now k r g (done, db) v at st = close-Inv k r committing committed none now g v at st refl
settle-Inv now k r g (refused reason, db) v at st =
    finish-Inv k r (record r { state = committing; superseded = is_target_changed reason }) rejected
      (some reason) now g v at refl (refused-IsSettled r reason now) (λ e. cc)
settle-Inv now k r g (raised no_fault, db) v at st =
    close-Inv k r committing rejected (some commit_failed) now g v at st refl
settle-Inv now k r g (raised error, db) v at st =
    close-Inv k r committing rejected (some commit_failed) now g v at st refl
settle-Inv now k r g (raised interrupt, db) v at st =
    close-Inv k r committing rejected (some commit_failed) now g v at st refl
settle-Inv now k r g (raised commit_error, db) v at st =
    close-Inv k r committing rejected (some commit_failed) now g v at st refl
settle-Inv now k r g (raised late_interrupt, db) v at st =
    close-Inv k r committing rejected (some commit_failed) now g v at st refl

deny_record-Inv :
    (now : ℕ) (k : Text) (g : Gate) → Inv g → Inv (deny_record now k (lookup k g.records) g).0
unfolding deny_record
deny_record-Inv now k g v = elim (Option-cases (lookup k g.records)) [
  | inl e ↦ rw e v
  | inr (r, at) ↦ rw at (elim (Bool-cases (is_pending r.state)) [
    | inr n ↦ rw n v
    | inl q ↦ rw q (close-Inv k r r.state denied none now g v at (ground arith) refl)
  ])
]

if_gate : (b : Bool) (x y : Confirmed) → Inv x.gate → Inv y.gate → Inv (if b then x else y).gate
if_gate true x y v w = v
if_gate false x y v w = w

module _ (p : Platform) where
  confirm_record-Inv :
      (c : Circumstance) (k window : Text) (mac : Option Text) (g : Gate) (db : Database)
      → Inv g
      → Inv (confirm_record p c k window mac (lookup k g.records) g db).gate
  unfolding confirm_record
  confirm_record-Inv c k window mac g db v = elim (Option-cases (lookup k g.records)) [
    | inl e ↦ rw e v
    | inr (r, at) ↦ rw at (elim (Bool-cases (is_terminal r.state)) [
      | inl t ↦ rw t v
      | inr n ↦ rw n (running r at (pending_of_running r (v.settled k r at) n))
    ])
  ]
    where
      running :
          (r : NonceRecord)
          → lookup k g.records ≡ some r
          → r.state ≡ pending
          → Inv
              ((if not (teq r.window_label window)
                then record {
                  gate = g;
                  db = db;
                  answer = some (result k rejected (some wrong_window));
                }
                else if not (c.alive r.session_id)
                then end_with c k r session_gone g db
                else if not (mac_ok p c.secret k r mac)
                then end_with c k r bad_mac g db
                else commit_record p c k r g db)).gate
      running r at st = if_gate (not (teq r.window_label window)) _ _ v (
          if_gate (not (c.alive r.session_id)) _ _
            (close-Inv k r r.state rejected (some session_gone) c.now g v at st refl)
            (if_gate (not (mac_ok p c.secret k r mac)) _ _
              (close-Inv k r r.state rejected (some bad_mac) c.now g v at st refl)
              (settle-Inv c.now k r g _ v at st)))

  -- One call of the service, in any circumstances.
  pub data Step (g : Gate) : Gate → Type 0 where
    begins :
        (secret : Option Text) (now : ℕ) (nonce_id session_id window action target_id : Text)
        (params : Json) (db : Database)
        → Step g (begin p secret now nonce_id session_id window action target_id params db g).0
    views :
        (now : ℕ) (alive : Text → Bool) (nonce_id window : Text)
        → Step g (view now alive nonce_id window g).0
    denies : (now : ℕ) (nonce_id : Text) → Step g (deny now nonce_id g).0
    confirms :
        (c : Circumstance) (nonce_id window : Text) (mac_b64 : Option Text) (db : Database)
        → Step g (confirm p c nonce_id window mac_b64 g db).gate

  pub data Reach : Gate → Type 0 where
    here : Reach new_gate
    next : {g h : Gate} → Reach g → Step g h → Reach h

  pub Step-Inv : {g h : Gate} → Inv g → Step g h → Inv h
  unfolding view deny confirm
  Step-Inv {g} v (begins secret now nonce_id session_id window action target_id params db) =
      begin-Inv p secret now nonce_id session_id window action target_id params db g v
  Step-Inv {g} v (views now alive nonce_id window) = expire-Inv now g v
  Step-Inv {g} v (denies now nonce_id) =
      deny_record-Inv now nonce_id (expire now g) (expire-Inv now g v)
  Step-Inv {g} v (confirms c nonce_id window mac_b64 db) =
      confirm_record-Inv c nonce_id window (presented mac_b64) (expire c.now g) db
        (expire-Inv c.now g v)

  -- After any sequence of calls from a new service, in any circumstances (clock readings, dead
  -- sessions, open transactions, database errors and interrupts included), the nonce records
  -- satisfy `Inv`: a key occurs once and is its record's nonce, a session has at most one pending
  -- record, no record is left in COMMITTING, a pending record has no end time and an ended one
  -- has, and a superseded record is a rejection for a changed target.
  pub gate-Inv : {g : Gate} → Reach g → Inv g
  gate-Inv here = new_gate-Inv
  gate-Inv (next r st) = Step-Inv (gate-Inv r) st
