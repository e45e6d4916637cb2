-- ===== src/Sessions/Invariant/Defs.antt =====
-- The invariant of src/syllva/ui/sessions.py, and the removal of sessions and tokens.
use syllva.Prelude.{
  ℕ, Text, teq_iff, ◌≡◌, Bool, Option, none, some, List, [], ◌∷◌, arith, inl, inr, Option-cases,
  not, ltb,
}
use syllva.Prelude.Dict.{
  lookup, keep_values, keys_where, IsUnique, lookup-remove, lookup-keep_values,
  keep_values-IsUnique, remove-IsUnique,
}
use syllva.Sessions.{Session, SessionStore, drop_session, drop_all, prune_tokens, prune, is_idle}

abbrev pub window_of : Option Session → Option Text
window_of none = none
window_of (some x) = some x.window_label

module _ (digest : Text → Text) where
  -- One outstanding token for each window; one session for each window, under the hash of its id.
  pub record Inv (s : SessionStore) : Type 0 where
    pub boots_unique : IsUnique s.bootstrap
    pub sessions_unique : IsUnique s.sessions
    pub one_token :
        (j k : Text) (e f : Text × ℕ)
        → lookup j s.bootstrap ≡ some e
        → lookup k s.bootstrap ≡ some f
        → e.0 ≡ f.0
        → j ≡ k
    pub keyed : (k : Text) (x : Session) → lookup k s.sessions ≡ some x → digest x.session_id ≡ k
    pub to_window :
        (k : Text) (x : Session)
        → lookup k s.sessions ≡ some x
        → lookup x.window_label s.by_window ≡ some k
    pub to_session :
        (w k : Text) → lookup w s.by_window ≡ some k → window_of (lookup k s.sessions) ≡ some w

  pub drop_session-Inv : (k : Text) (s : SessionStore) → Inv s → Inv (drop_session k s)
  unfolding drop_session
  drop_session-Inv k s v = elim (Option-cases (lookup k s.sessions)) [
    | inl e ↦ rw e v
    | inr (x, e) ↦ rw e (record {
      boots_unique = v.boots_unique;
      sessions_unique = remove-IsUnique k s.sessions v.sessions_unique;
      one_token = v.one_token;
      keyed = λ j y h. v.keyed j y (ground (arith, lookup-remove k j s.sessions));
      to_window = λ j y h. ground (
        arith,
        lookup-remove k j s.sessions,
        v.to_window j y,
        v.to_window k x e,
        lookup-remove x.window_label y.window_label s.by_window,
        teq_iff x.window_label y.window_label,
        teq_iff k j,
        teq_iff k k,
      );
      to_session = λ w j h. ground (
        arith,
        lookup-remove k j s.sessions,
        v.to_session w j,
        v.to_window k x e,
        lookup-remove x.window_label w s.by_window,
        teq_iff x.window_label w,
        teq_iff k j,
        teq_iff k k,
      );
    })
  ]

  drop_all-Inv : (ks : List Text) (s : SessionStore) → Inv s → Inv (drop_all ks s)
  unfolding drop_all
  drop_all-Inv [] s v = v
  drop_all-Inv (k ∷ ks) s v = drop_all-Inv ks (drop_session k s) (drop_session-Inv k s v)

  -- Fewer tokens keep the invariant.
  pub filter_tokens-Inv :
      (p : Text × ℕ → Bool) (s : SessionStore)
      → Inv s
      → Inv (record s { bootstrap = keep_values p s.bootstrap })
  filter_tokens-Inv p s v = record {
    boots_unique = keep_values-IsUnique p s.bootstrap v.boots_unique;
    sessions_unique = v.sessions_unique;
    one_token = λ j k e f h g. v.one_token j k e f (was j e h) (was k f g);
    keyed = v.keyed;
    to_window = v.to_window;
    to_session = v.to_session;
  }
    where
      was :
          (j : Text) (e : Text × ℕ)
          → lookup j (keep_values p s.bootstrap) ≡ some e
          → lookup j s.bootstrap ≡ some e
      was j e h = ground (arith, lookup-keep_values p j s.bootstrap v.boots_unique)

  pub prune-Inv : (now : ℕ) (s : SessionStore) → Inv s → Inv (prune now s)
  unfolding prune
  prune-Inv now s v =
      drop_all-Inv (keys_where (is_idle now) s.sessions) (prune_tokens now s)
        (filter_tokens-Inv (λ e. not (ltb e.1 now)) s v)
