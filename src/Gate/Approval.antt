-- ===== src/Gate/Approval.antt =====
-- What `confirm` of src/syllva/gate/service.py needs before it writes, and what it writes.
use syllva.Prelude.{
  ℕ, ◌<◌, Text, teq, teq_iff, ◌≡◌, ◌≢◌, ◌⊎◌, refl, sym, ap, ◌∙◌, true, false, not, Option, none,
  some, if◌then◌else◌, arith, inl, inr, Option-cases, Bool-cases,
}
use syllva.Prelude.Dict.{lookup, lookup-insert_self}
use syllva.Platform.{Platform}
use syllva.State.{Database, MaterialTarget, material_target}
use syllva.State.Commit.{
  CommitResult, done, refused, raised, commit_gate, no_fault, error, interrupt, commit_error,
  late_interrupt, Reason, target_changed, commit_failed, session_gone, bad_mac, wrong_window,
}
use syllva.State.Effects.{Committed, Written, commit_gate-cases}
use syllva.Gate.{
  Gate, NonceRecord, RecordState, pending, committing, committed, rejected, denied, timed_out,
  is_terminal, finish, finish_record, expire, request_hash, fingerprint,
}
use syllva.Gate.Summaries.{summarize_material}
use syllva.Gate.Invariant.{Inv, expire-Inv, expire-Origin}
use syllva.Gate.Steps.{pending_of_running}
use syllva.Gate.Service.{
  Circumstance, Confirmed, Answer, confirm, commit_record, settle, presented, mac_ok, gate_request,
  recheck, recheck_target, answer, answer_at, answer_of, is_target_changed, result, end_with,
}

-- `_expire` leaves a pending record as it was, before its deadline.
pub expire-pending :
    (now : ℕ) (g : Gate) (k : Text) (r : NonceRecord)
    → Inv g
    → lookup k (expire now g).records ≡ some r
    → r.state ≡ pending
    → (lookup k g.records ≡ some r) × (now < r.deadline)
expire-pending now g k r v h st =
    let (r₀, was, o) = expire-Origin now g k r v h in (ground (arith, was, o), ground (arith, o))

-- `_expire` times out no committed record, and makes none.
expire-committed :
    (now : ℕ) (g : Gate) (k : Text) (r : NonceRecord)
    → Inv g
    → lookup k (expire now g).records ≡ some r
    → r.state ≡ committed
    → lookup k g.records ≡ some r
expire-committed now g k r v h st =
    let (r₀, was, o) = expire-Origin now g k r v h in ground (arith, was, o)

committed_or : (s : RecordState) → (s ≡ committed) ⊎ (s ≢ committed)
committed_or committed = inl refl
committed_or pending = inr (λ h. cc)
committed_or committing = inr (λ h. cc)
committed_or rejected = inr (λ h. cc)
committed_or denied = inr (λ h. cc)
committed_or timed_out = inr (λ h. cc)

-- The answer says that the nonce is committed.
abbrev pub SaysCommitted : Option Answer → Type 0
SaysCommitted none = ⊥
SaysCommitted (some a) = a.status ≡ committed

module _ (p : Platform) where
  -- The target as the record's dialog showed it: still there, not yet verified, and with the hash
  -- that the Shell signed.
  pub record IsCurrent (r : NonceRecord) (db : Database) : Type 0 where
    pub target : MaterialTarget
    pub present : material_target db r.target_id ≡ some target
    pub unverified : target.verified ≡ false
    pub same_hash :
        request_hash p r.action r.target_id
          (summarize_material p r.target_id target.title target.course)
          (fingerprint target)
        ≡ r.request_hash

  recheck_target-none :
      (r : NonceRecord) (o : Option MaterialTarget)
      → recheck_target p r o ≡ none
      → (t : MaterialTarget) × (o ≡ some t)
        × (t.verified ≡ false)
        × (request_hash p r.action r.target_id
              (summarize_material p r.target_id t.title t.course)
              (fingerprint t)
            ≡ r.request_hash)
  unfolding recheck_target
  recheck_target-none r none h = absurd (clash h)
    where
      clash : ◌≡◌ {A = Option Reason} (some target_changed) none → ⊥
      clash h = cc
  recheck_target-none r (some t) h = (
    t,
    refl,
    ground arith,
    ground (
      arith,
      teq_iff
          (request_hash p r.action r.target_id (summarize_material p r.target_id t.title t.course)
            (fingerprint t))
          r.request_hash,
    ),
  )

  pub recheck-none : (r : NonceRecord) (db : Database) → recheck p r db ≡ none → IsCurrent r db
  unfolding recheck
  recheck-none r db h =
      let (t, e, f, g) = recheck_target-none r (material_target db r.target_id) h in
      record { target = t; present = e; unverified = f; same_hash = g }

  -- Everything that stands behind a commit, on the records and the database before the call.
  pub record Approved (c : Circumstance) (nonce_id window : Text) (mac : Option Text) (g : Gate)
      (db after : Database) (r : NonceRecord) : Type 0 where
    pub known : lookup nonce_id g.records ≡ some r
    pub waiting : r.state ≡ pending
    pub in_time : c.now < r.deadline
    pub same_window : r.window_label ≡ window
    pub session_alive : c.alive r.session_id ≡ true
    pub signed : mac_ok p c.secret nonce_id r (presented mac) ≡ true
    pub current : IsCurrent r db
    pub written :
        Committed c.busy
          (gate_request r nonce_id c.confirmed_at c.shell_version)
          (recheck p (record r { state = committing }))
          db
          after

  answer_at-finish :
      (k : Text) (r : NonceRecord) (state : RecordState) (reason : Option Reason) (now : ℕ)
      (g : Gate)
      → answer_at k (finish k r state reason now g) ≡ answer (finish_record state reason now r)
  unfolding finish
  answer_at-finish k r state reason now g =
      ap (answer_of k) (lookup-insert_self k (finish_record state reason now r) g.records)

  -- A call that neither wrote nor answered COMMITTED.
  abbrev Declined : Database → Confirmed → Type 0
  Declined db x = (x.db ≡ db) × ¬ SaysCommitted x.answer

  not_committed :
      (k : Text) (r : NonceRecord) (reason : Option Reason) (now : ℕ) (g : Gate)
      → ¬ ((answer_at k (finish k r rejected reason now g)).status ≡ committed)
  not_committed k r reason now g h =
      clash (sym (ap (λ (a : Answer). a.status) (answer_at-finish k r rejected reason now g)) ∙ h)
    where
      clash : rejected ≡ committed → ⊥
      clash h = cc

  end_with-Declined :
      (c : Circumstance) (k : Text) (r : NonceRecord) (reason : Reason) (g : Gate) (db : Database)
      → Declined db (end_with c k r reason g db)
  end_with-Declined c k r reason g db = (refl, not_committed k r (some reason) c.now g)

  -- The end of a commit: the database is the one that was written, or the call declined.
  settle-cases :
      (now : ℕ) (k : Text) (r : NonceRecord) (g : Gate) (o : CommitResult × Database)
      (db : Database) (P : Type 0)
      → Written db o P
      → (P × ((settle now k r g o).db ≡ o.1)) ⊎ Declined db (settle now k r g o)
  unfolding settle
  settle-cases now k r g (done, d) db P (inl w) = absurd (w.0 refl)
  settle-cases now k r g (done, d) db P (inr w) = inl (w.1, refl)
  settle-cases now k r g (refused reason, d) db P (inl w) = inr (
    w.1,
    not_committed k (record r { superseded = is_target_changed reason }) (some reason) now g,
  )
  settle-cases now k r g (refused reason, d) db P (inr w) = absurd w.0
  settle-cases now k r g (raised no_fault, d) db P (inl w) =
      inr (w.1, not_committed k r (some commit_failed) now g)
  settle-cases now k r g (raised no_fault, d) db P (inr w) = absurd w.0
  settle-cases now k r g (raised error, d) db P (inl w) =
      inr (w.1, not_committed k r (some commit_failed) now g)
  settle-cases now k r g (raised error, d) db P (inr w) = absurd w.0
  settle-cases now k r g (raised commit_error, d) db P (inl w) =
      inr (w.1, not_committed k r (some commit_failed) now g)
  settle-cases now k r g (raised commit_error, d) db P (inr w) = absurd w.0
  settle-cases now k r g (raised interrupt, d) db P (inl w) = inr (w.1, λ h. h)
  settle-cases now k r g (raised interrupt, d) db P (inr w) = absurd w.0
  settle-cases now k r g (raised late_interrupt, d) db P (inl w) = inr (w.1, λ h. h)
  settle-cases now k r g (raised late_interrupt, d) db P (inr w) = inl (w.1, refl)

  module _ (c : Circumstance) (nonce_id window : Text) (mac : Option Text) (g : Gate)
      (db : Database) (v : Inv g) where
    -- The call's outcomes: it declined, it replayed a commit, or it was approved.
    Outcome : Confirmed → Type 0
    Outcome x =
        Declined db x
        ⊎ ((x.db ≡ db)
            × ((r : NonceRecord) × (lookup nonce_id g.records ≡ some r)
                × (r.state ≡ committed)
                × (x.answer ≡ some (answer r))))
        ⊎ ((r : NonceRecord) × Approved c nonce_id window mac g db x.db r)

    approve :
        (r : NonceRecord) (e : Gate)
        → lookup nonce_id g.records ≡ some r
        → r.state ≡ pending
        → c.now < r.deadline
        → r.window_label ≡ window
        → c.alive r.session_id ≡ true
        → mac_ok p c.secret nonce_id r (presented mac) ≡ true
        → Outcome (commit_record p c nonce_id r e db)
    unfolding Outcome commit_record
    approve r e at st time win live mac_good =
        let q = gate_request r nonce_id c.confirmed_at c.shell_version in
        let r' : NonceRecord = record r { state = committing } in
        let o = commit_gate c.busy c.fault q (recheck p r') db in
        elim (settle-cases c.now nonce_id r' e o db (Committed c.busy q (recheck p r') db o.1)
          (commit_gate-cases c.busy c.fault q (recheck p r') db)) [
            | inr declined ↦ inl declined
            | inl (written, left) ↦
                let now_is : IsCurrent r' db = recheck-none r' db written.verified in
                inr (
                  inr (
                    r,
                    record {
                      known = at;
                      waiting = st;
                      in_time = time;
                      same_window = win;
                      session_alive = live;
                      signed = mac_good;
                      current = record {
                        target = now_is.target;
                        present = now_is.present;
                        unverified = now_is.unverified;
                        same_hash = now_is.same_hash;
                      };
                      written = rw left written;
                    },
                  ))
          ]

    decide :
        (r : NonceRecord) (e : Gate)
        → lookup nonce_id g.records ≡ some r
        → r.state ≡ pending
        → c.now < r.deadline
        → Outcome (
            if not (teq r.window_label window)
            then record {
              gate = e;
              db = db;
              answer = some (result nonce_id rejected (some wrong_window));
            }
            else if not (c.alive r.session_id)
            then end_with c nonce_id r session_gone e db
            else if not (mac_ok p c.secret nonce_id r (presented mac))
            then end_with c nonce_id r bad_mac e db
            else commit_record p c nonce_id r e db)
    unfolding Outcome
    decide r e at st time = elim (Bool-cases (teq r.window_label window)) [
      | inr w ↦ rw w (inl (refl, λ h. cc))
      | inl w ↦ rw w (elim (Bool-cases (c.alive r.session_id)) [
        | inr a ↦ rw a (inl (end_with-Declined c nonce_id r session_gone e db))
        | inl a ↦ rw a (elim (Bool-cases (mac_ok p c.secret nonce_id r (presented mac))) [
          | inr m ↦ rw m (inl (end_with-Declined c nonce_id r bad_mac e db))
          | inl m ↦ rw m (approve r e at st time ((teq_iff r.window_label window).0 w) a m)
        ])
      ])
    ]

    outcome : Outcome (confirm p c nonce_id window mac g db)
    unfolding Outcome confirm
    outcome = elim (Option-cases (lookup nonce_id (expire c.now g).records)) [
      | inl e ↦ simp e (inl (refl, λ h. cc))
      | inr (r, at) ↦ simp at (elim (Bool-cases (is_terminal r.state)) [
        | inl t ↦ simp t (elim (committed_or r.state) [
          | inl d ↦ inr (inl (refl, (r, expire-committed c.now g nonce_id r v at d, d, refl)))
          | inr d ↦ inl (refl, d)
        ])
        | inr n ↦ simp n (
            let st = pending_of_running r ((expire-Inv c.now g v).settled nonce_id r at) n in
            let (was, time) = expire-pending c.now g nonce_id r v at st in
            decide r (expire c.now g) was st time)
      ])
    ]

    -- From records that satisfy `Inv`, a `confirm` leaves the database as it was, or it was
    -- approved: the nonce was pending before its deadline, the window is the one that began it,
    -- its session is alive, the Shell signed the nonce and request hash, the target as the
    -- database has it now is unverified and has that same request hash, and the database is left
    -- with that commit and no other change.
    pub confirm-writes :
        ((confirm p c nonce_id window mac g db).db ≡ db)
        ⊎ ((r : NonceRecord) × Approved c nonce_id window mac g db
              (confirm p c nonce_id window mac g db).db
              r)
    unfolding Outcome
    confirm-writes = elim outcome [ inl o ↦ inl o.0 | inr (inl o) ↦ inl o.0 | inr (inr o) ↦ inr o ]

    -- From records that satisfy `Inv`, a `confirm` that answers COMMITTED was approved as `confirm-writes` says,
    -- or it replays: the nonce was committed before, its record is answered once more, and the
    -- database is as it was.
    pub confirm-committed :
        SaysCommitted (confirm p c nonce_id window mac g db).answer
        → ((r : NonceRecord) × Approved c nonce_id window mac g db
              (confirm p c nonce_id window mac g db).db
              r)
          ⊎ (((confirm p c nonce_id window mac g db).db ≡ db)
              × ((r : NonceRecord) × (lookup nonce_id g.records ≡ some r)
                  × (r.state ≡ committed)
                  × ((confirm p c nonce_id window mac g db).answer ≡ some (answer r))))
    unfolding Outcome
    confirm-committed h = elim outcome [
      | inl o ↦ absurd (o.1 h)
      | inr (inl o) ↦ inr o
      | inr (inr o) ↦ inl o
    ]
