-- ===== src/State/Intake/Examples.antt =====
-- A candidate that replaces a material, which the user confirms at once.
use syllva.State.Policy.Access.{authorize}
use syllva.Prelude.{
  Text, codes, teq, Bool, true, false, ◌&&◌, ◌||◌, List, [], ◌∷◌, ◌≡◌, refl, some, any,
}
use syllva.Prelude.Dict.{Dict, lookup, insert}
use syllva.State.Policy.{ui_user, human_only, immutable, owner_of, unwritable_tables}
use syllva.State.Intake.{
  IntakeState, received, confirmed, transition_intake_state, start, moves, is_settled,
  is_confirmation, transition_intake_state-confirmed,
}

abbrev columns_of : Text → List Text
columns_of table = codes "candidate_id" ∷ codes "state" ∷ codes "updated_at" ∷ []

abbrev before : Dict IntakeState
before = (codes "c1", received) ∷ []

abbrev after : Dict IntakeState
after = (codes "c1", confirmed) ∷ []

confirms :
    transition_intake_state columns_of ui_user (codes "c1") confirmed [] before
    ≡ some (received, after)
unfolding transition_intake_state any authorize unwritable_tables teq owner_of human_only immutable
    lookup insert
confirms = refl

received_first : lookup (codes "c1") before ≡ some received
unfolding lookup teq
received_first = refl

settled : is_settled (lookup (codes "c1") after) ≡ true
unfolding is_settled lookup teq
settled = refl

abbrev flag : Bool
flag = false || (teq (codes "c1") (codes "c1") && is_confirmation confirmed)

transition_intake_state-confirmed_example : flag ≡ true
transition_intake_state-confirmed_example =
    transition_intake_state-confirmed columns_of (codes "c1") flag after
      (moves (start before received received_first refl) ui_user (codes "c1") received confirmed []
        confirms)
      settled
