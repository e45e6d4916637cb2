-- ===== src/Gate/Invariant.antt =====
-- What holds of the nonce records between two calls of src/syllva/gate/service.py.
use syllva.Prelude.{
  ℕ, Text, teq, teq_iff, ◌≡◌, ◌≢◌, ◌⊎◌, refl, sym, ◌∙◌, true, false, Option, none, some, arith, inl,
  inr, Bool-cases,
}
use syllva.Prelude.Dict.{lookup, insert, IsUnique, insert-IsUnique, lookup-insert}
use syllva.State.Commit.{Reason, target_changed}
use syllva.Gate.{
  Gate, NonceRecord, RecordState, pending, committing, rejected, timed_out, new_gate, is_pending,
  is_terminal, finish, finish_record, expire, overdue,
}
use syllva.Gate.Expiry.{expire_option, lookup-expire_records, expire_records-IsUnique}

-- One record: it is not left in COMMITTING, it has an end time exactly when it has ended, and only
-- a rejection for a changed target supersedes.
pub record IsSettled (r : NonceRecord) : Type 0 where
  pub idle : r.state ≢ committing
  pub running : is_pending r.state ≡ true → r.finished ≡ none
  pub ended : is_terminal r.state ≡ true → r.finished ≢ none
  pub superseding : r.superseded ≡ true → (r.state ≡ rejected) × (r.reason ≡ some target_changed)

pub record Inv (g : Gate) : Type 0 where
  pub unique : IsUnique g.records
  pub keyed : (k : Text) (r : NonceRecord) → lookup k g.records ≡ some r → r.nonce_id ≡ k
  pub settled : (k : Text) (r : NonceRecord) → lookup k g.records ≡ some r → IsSettled r
  pub one_pending :
      (j k : Text) (r t : NonceRecord)
      → lookup j g.records ≡ some r
      → lookup k g.records ≡ some t
      → r.state ≡ pending
      → t.state ≡ pending
      → r.session_id ≡ t.session_id
      → j ≡ k

pub new_gate-Inv : Inv new_gate
unfolding lookup
new_gate-Inv = record {
  unique = tt;
  keyed = λ k r h. cc;
  settled = λ k r h. absurd (none_some r h);
  one_pending = λ j k r t h. cc;
}
  where
    none_some : (r : NonceRecord) → ◌≡◌ {A = Option NonceRecord} none (some r) → ⊥
    none_some r h = cc

-- A record after `_expire` was one before: still open or ended in time, or timed out now.
abbrev pub Origin : ℕ → NonceRecord → NonceRecord → Type 0
Origin now r₀ r =
    ((r ≡ r₀) × (overdue now r₀ ≡ false))
    ⊎ ((r ≡ finish_record timed_out none r₀.deadline r₀) × (overdue now r₀ ≡ true))

expire_option-Origin :
    (now : ℕ) (o : Option NonceRecord) (r : NonceRecord)
    → expire_option now o ≡ some r
    → (r₀ : NonceRecord) × (o ≡ some r₀) × Origin now r₀ r
expire_option-Origin now none r h = absurd (impossible h)
  where
    impossible : ◌≡◌ {A = Option NonceRecord} none (some r) → ⊥
    impossible h = cc
expire_option-Origin now (some r₀) r h = elim (Bool-cases (overdue now r₀)) [
  | inl e ↦ (r₀, refl, inr (ground (arith, h, e), e))
  | inr e ↦ (r₀, refl, inl (ground (arith, h, e), e))
]

pub expire-Origin :
    (now : ℕ) (g : Gate) (k : Text) (r : NonceRecord)
    → Inv g
    → lookup k (expire now g).records ≡ some r
    → (r₀ : NonceRecord) × (lookup k g.records ≡ some r₀) × Origin now r₀ r
unfolding expire
expire-Origin now g k r v h =
    expire_option-Origin now (lookup k g.records) r
      (sym (lookup-expire_records now k g.records v.unique) ∙ h)

timed_out-IsSettled :
    (now : ℕ) (r : NonceRecord)
    → IsSettled r
    → overdue now r ≡ true
    → IsSettled (finish_record timed_out none r.deadline r)
timed_out-IsSettled now r v h = ground arith

-- What `_expire` leaves pending was pending.
expire_pending : (now : ℕ) (r₀ r : NonceRecord) → Origin now r₀ r → r.state ≡ pending → r ≡ r₀
expire_pending now r₀ r o h = ground arith

pub expire-Inv : (now : ℕ) (g : Gate) → Inv g → Inv (expire now g)
expire-Inv now g v = record {
  unique = unfold expire in expire_records-IsUnique now g.records v.unique;
  keyed = λ k r h.
      let (r₀, was, o) = expire-Origin now g k r v h in ground (arith, o, v.keyed k r₀ was);
  settled = λ k r h.
      let (r₀, was, o) = expire-Origin now g k r v h in
      elim o [
        | inl (e, f) ↦ rw e (v.settled k r₀ was)
        | inr (e, f) ↦ rw e (timed_out-IsSettled now r₀ (v.settled k r₀ was) f)
      ];
  one_pending = λ j k r t h i p q e.
      let (r₀, was_r, o) = expire-Origin now g j r v h in
      let (t₀, was_t, u) = expire-Origin now g k t v i in
      ground (
        arith,
        expire_pending now r₀ r o p,
        expire_pending now t₀ t u q,
        v.one_pending j k r₀ t₀ was_r was_t,
      );
}

-- Ending the record at its key keeps the invariant.
pub finish-Inv :
    (k : Text) (r₀ r : NonceRecord) (state : RecordState) (reason : Option Reason) (now : ℕ)
    (g : Gate)
    → Inv g
    → lookup k g.records ≡ some r₀
    → r.nonce_id ≡ r₀.nonce_id
    → IsSettled (finish_record state reason now r)
    → state ≢ pending
    → Inv (finish k r state reason now g)
unfolding finish
finish-Inv k r₀ r state reason now g v at same good ended =
    let r' = finish_record state reason now r in
    record {
      unique = insert-IsUnique k r' g.records v.unique;
      keyed = λ j t h.
          ground (arith, lookup-insert k j r' g.records, teq_iff k j, v.keyed j t, v.keyed k r₀ at);
      settled = λ j t h. elim (Bool-cases (teq k j)) [
        | inl e ↦ rw (ends j t h e) good
        | inr e ↦ v.settled j t (ground (arith, lookup-insert k j r' g.records))
      ];
      one_pending = λ i j t u h l p q e. ground (
        arith,
        lookup-insert k i r' g.records,
        lookup-insert k j r' g.records,
        teq_iff k i,
        teq_iff k j,
        v.one_pending i j t u,
      );
    }
  where
    ends :
        (j : Text) (t : NonceRecord)
        → lookup j (insert k (finish_record state reason now r) g.records) ≡ some t
        → teq k j ≡ true
        → t ≡ finish_record state reason now r
    ends j t h e = ground (arith, lookup-insert k j (finish_record state reason now r) g.records)
