-- ===== src/State/Intake.antt =====
-- The state machine of intake candidates: `INTAKE_TRANSITIONS` of src/syllva/state/v2/ownership.py
-- and the checks of `transition_intake_state` in src/syllva/state/v2/writer.py.
mod Examples
use syllva.Prelude.{
  Text, codes, teq, teq_iff, Option, none, some, List, [], ◌∷◌, inl, inr, Bool-cases, refl, subst,
  sym, Bool, true, false, ◌&&◌, ◌||◌, not, ◌≡◌, arith, if◌then◌else◌,
}
use syllva.Prelude.Dict.{Dict, lookup, insert, lookup-insert}
use syllva.State.Policy.Access.{authorize, updating}
use syllva.State.Policy.{
  contains, catalog_owner, Actor, ingester, core_agent_output, ui_user, system_migration,
}

pub data IntakeState : Type 0 where
  received classifying needs_review auto_confirmed confirmed queued processing ready partial
        failed :
      IntakeState
  duplicate unsupported dismissed : IntakeState

unfoldable pub can_move : (old new : IntakeState) → Bool
can_move received classifying = true
can_move received confirmed = true
can_move classifying needs_review = true
can_move classifying auto_confirmed = true
can_move classifying received = true
can_move needs_review confirmed = true
can_move needs_review dismissed = true
can_move auto_confirmed processing = true
can_move auto_confirmed queued = true
can_move confirmed processing = true
can_move confirmed queued = true
can_move queued processing = true
can_move processing ready = true
can_move processing partial = true
can_move processing failed = true
can_move processing queued = true
can_move ready queued = true
can_move partial queued = true
can_move failed queued = true
can_move duplicate dismissed = true
can_move unsupported dismissed = true
can_move old new = false

abbrev is_processed : IntakeState → Bool
is_processed queued = true
is_processed processing = true
is_processed ready = true
is_processed partial = true
is_processed failed = true
is_processed s = false

abbrev pub is_confirmation : IntakeState → Bool
is_confirmation auto_confirmed = true
is_confirmation confirmed = true
is_confirmation s = false

-- `INTAKE_USER_TRANSITIONS`
unfoldable pub by_user : (old new : IntakeState) → Bool
by_user needs_review confirmed = true
by_user needs_review dismissed = true
by_user received confirmed = true
by_user duplicate dismissed = true
by_user unsupported dismissed = true
by_user old new = false

abbrev actor_fits : Bool → Actor → Bool
actor_fits true ui_user = true
actor_fits true system_migration = true
actor_fits true actor = false
actor_fits false ui_user = false
actor_fits false actor = true

-- `INTAKE_INITIAL_STATES`
abbrev is_initial : IntakeState → Bool
is_initial received = true
is_initial duplicate = true
is_initial unsupported = true
is_initial s = false

abbrev move :
    Actor
    → Text
    → IntakeState
    → Option IntakeState
    → Dict IntakeState
    → Option (IntakeState × Dict IntakeState)
move actor id new none states = none
move actor id new (some old) states =
    if can_move old new && actor_fits (by_user old new) actor
    then some (old, insert id new states)
    else none

abbrev set_columns : List Text → List Text
set_columns extra = codes "state" ∷ codes "updated_at" ∷ extra

-- The states of all candidates by their id; their other columns are left out. `extra` are the other columns that the call sets;
-- `none` is a `PolicyViolation`, which changes nothing.
unfoldable pub transition_intake_state :
    (columns_of : Text → List Text)
    → Actor
    → Text
    → IntakeState
    → (extra : List Text) → Dict IntakeState
    → Option (IntakeState × Dict IntakeState)
unfolding can_move by_user
transition_intake_state columns_of actor id new extra states =
    if not (contains extra (codes "state"))
      && authorize columns_of (λ _. []) catalog_owner actor (codes "intake_candidates")
          (set_columns extra) (updating (set_columns extra))
    then move actor id new (lookup id states) states
    else none

-- The transitions from a database in which the candidate `k` stands in an initial state. The flag
-- tells whether the candidate has been confirmed on the way, by the user or automatically.
pub data Trail (columns_of : Text → List Text) (k : Text) : Bool → Dict IntakeState → Type 0 where
  start :
      (states : Dict IntakeState) (s : IntakeState)
      → lookup k states ≡ some s
      → is_initial s ≡ true
      → Trail columns_of k false states
  moves :
      {b : Bool} {states after : Dict IntakeState}
      → Trail columns_of k b states
      → (actor : Actor) (id : Text) (old new : IntakeState) (extra : List Text)
      → transition_intake_state columns_of actor id new extra states ≡ some (old, after)
      → Trail columns_of k (b || (teq id k && is_confirmation new)) after

unfoldable pub is_settled : Option IntakeState → Bool
is_settled none = false
is_settled (some s) = is_processed s || is_confirmation s

can_move-is_processed :
    (a b : IntakeState)
    → can_move a b ≡ true
    → is_processed b ≡ true
    → is_processed a || is_confirmation a ≡ true
unfolding can_move
can_move-is_processed a b h k = ground arith

move-cases :
    (actor : Actor) (id : Text) (new old : IntakeState) (o : Option IntakeState)
    (states after : Dict IntakeState)
    → move actor id new o states ≡ some (old, after)
    → (o ≡ some old) × (can_move old new ≡ true) × (after ≡ insert id new states)
move-cases actor id new old none states after h = absurd (ground arith)
move-cases actor id new old (some a) states after h =
    elim (Bool-cases (can_move a new && actor_fits (by_user a new) actor)) [
      | inl e ↦ (ground arith, ground arith, ground arith)
      | inr e ↦ absurd (refused a e h)
    ]
  where
    refused :
        (a : IntakeState)
        → can_move a new && actor_fits (by_user a new) actor ≡ false
        → move actor id new (some a) states ≡ some (old, after)
        → ⊥
    refused a e h = ground arith

moved-is_settled :
    (k id : Text) (b : Bool) (old new : IntakeState) (states : Dict IntakeState)
    → (is_settled (lookup k states) ≡ true → b ≡ true)
    → lookup id states ≡ some old
    → can_move old new ≡ true
    → is_settled (lookup k (insert id new states)) ≡ true
    → b || (teq id k && is_confirmation new) ≡ true
unfolding is_settled
moved-is_settled k id b old new states ih e c h =
    ground (arith, teq_iff id k, lookup-insert id k new states, can_move-is_processed old new c)

initial-is_settled :
    (s : IntakeState) (o : Option IntakeState)
    → o ≡ some s
    → is_initial s ≡ true
    → is_settled o ≡ true
    → false ≡ true
unfolding is_settled
initial-is_settled s none e i h = h
initial-is_settled s (some a) e i h = ground arith

transition-cases :
    (columns_of : Text → List Text) (actor : Actor) (id : Text) (new old : IntakeState)
    (extra : List Text) (states after : Dict IntakeState)
    → transition_intake_state columns_of actor id new extra states ≡ some (old, after)
    → (lookup id states ≡ some old) × (can_move old new ≡ true) × (after ≡ insert id new states)
unfolding transition_intake_state
transition-cases columns_of actor id new old extra states after h =
    move-cases actor id new old (lookup id states) states after (ground arith)

-- A candidate that is confirmed, waits in the queue, is processed, or was processed with any outcome
-- has been confirmed on the way, whoever made which transitions of which candidates.
pub transition_intake_state-confirmed :
    (columns_of : Text → List Text) (k : Text) (b : Bool) (states : Dict IntakeState)
    → Trail columns_of k b states
    → is_settled (lookup k states) ≡ true
    → b ≡ true
transition_intake_state-confirmed columns_of k _ _ (start states s e i) h =
    initial-is_settled s (lookup k states) e i h
transition_intake_state-confirmed columns_of k _ _
      (moves {b} {states} {after} t actor id old new extra e) h =
    let c = transition-cases columns_of actor id new old extra states after e in
    moved-is_settled k id b old new states
      (transition_intake_state-confirmed columns_of k b states t) c.0 c.1
      (subst (λ d. is_settled (lookup k d) ≡ true) c.2 h)
