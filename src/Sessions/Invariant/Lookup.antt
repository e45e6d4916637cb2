-- ===== src/Sessions/Invariant/Lookup.antt =====
-- `lookup` of src/syllva/ui/sessions.py keeps the invariant.
use syllva.Prelude.{
  ℕ, Text, teq_iff, ◌≡◌, Option, none, some, [], ◌∷◌, arith, inl, inr, Option-cases, Bool-cases,
}
use syllva.Prelude.Dict.{lookup, insert, lookup-insert, insert-IsUnique}
use syllva.Sessions.{Session, SessionStore, mismatch, is_idle, find, touch}
use syllva.Sessions.Invariant.Defs.{Inv, drop_session-Inv}

module _ (digest : Text → Text) where
  refresh-Inv :
      (now : ℕ) (k : Text) (x : Session) (s : SessionStore)
      → Inv digest s
      → lookup k s.sessions ≡ some x
      → Inv digest (record s { sessions = insert k (record x { last_used = now }) s.sessions })
  refresh-Inv now k x s v e = record {
    boots_unique = v.boots_unique;
    sessions_unique = insert-IsUnique k _ s.sessions v.sessions_unique;
    one_token = v.one_token;
    keyed = λ j y h. ground (
      arith,
      lookup-insert k j (record x { last_used = now }) s.sessions,
      teq_iff k j,
      v.keyed j y,
      v.keyed k x e,
    );
    to_window = λ j y h. ground (
      arith,
      lookup-insert k j (record x { last_used = now }) s.sessions,
      teq_iff k j,
      v.to_window j y,
      v.to_window k x e,
    );
    to_session = λ w j h. ground (
      arith,
      lookup-insert k j (record x { last_used = now }) s.sessions,
      teq_iff k j,
      v.to_session w j,
    );
  }

  touch-Inv :
      (now : ℕ) (k : Text) (label : Option Text) (s : SessionStore)
      → Inv digest s
      → Inv digest (touch digest now k label (lookup k s.sessions) s).0
  unfolding touch
  touch-Inv now k label s v = elim (Option-cases (lookup k s.sessions)) [
    | inl e ↦ rw e v
    | inr (x, e) ↦ rw e (elim (Bool-cases (is_idle now x)) [
      | inl idle ↦ rw idle (drop_session-Inv digest k s v)
      | inr busy ↦ rw busy (elim (Bool-cases (mismatch label x.window_label)) [
        | inl wrong ↦ rw wrong v
        | inr right ↦ rw right (refresh-Inv now k x s v e)
      ])
    ])
  ]

  pub find-Inv :
      (now : ℕ) (sid label : Option Text) (s : SessionStore)
      → Inv digest s
      → Inv digest (find digest now sid label s).0
  unfolding find
  find-Inv now none label s v = v
  find-Inv now (some []) label s v = v
  find-Inv now (some (c ∷ sid)) label s v = touch-Inv now (digest (c ∷ sid)) label s v
