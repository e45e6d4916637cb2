-- ===== src/Sessions/Invariant/Exchange.antt =====
-- `issue_bootstrap` and `exchange` of src/syllva/ui/sessions.py keep the invariant.
use syllva.Prelude.{
  ℕ, Text, teq, teq_iff, ◌≡◌, Option, none, some, List, [], ◌∷◌, arith, inl, inr, Option-cases,
  Bool-cases, not, ltb, ◌+◌, ◌≢◌, ◌||◌, teq_refl,
}
use syllva.Prelude.Dict.{
  lookup, insert, remove, keep_values, keys_where, lookup-insert, lookup-remove, lookup-keep_values,
  insert-IsUnique, remove-IsUnique,
}
use syllva.Sessions.{
  Session, SessionStore, mismatch, drop_session, drop_all, prune_tokens, prune, is_idle,
  bootstrap_ttl, issue_bootstrap, exchange, redeem, replace_old, add_session, fresh_session,
}
use syllva.Sessions.Invariant.Defs.{Inv, prune-Inv, filter_tokens-Inv}

module _ (digest : Text → Text) where
  remove_token-Inv :
      (k : Text) (s : SessionStore)
      → Inv digest s
      → Inv digest (record s { bootstrap = remove k s.bootstrap })
  remove_token-Inv k s v = record {
    boots_unique = remove-IsUnique k s.bootstrap v.boots_unique;
    sessions_unique = v.sessions_unique;
    one_token = λ i j e f h g.
        v.one_token i j e f (ground (arith, lookup-remove k i s.bootstrap))
          (ground (arith, lookup-remove k j s.bootstrap));
    keyed = v.keyed;
    to_window = v.to_window;
    to_session = v.to_session;
  }

  add_token-Inv :
      (k window : Text) (deadline : ℕ) (s : SessionStore)
      → Inv digest s
      → ((j : Text) (e : Text × ℕ) → lookup j s.bootstrap ≡ some e → e.0 ≢ window)
      → Inv digest (record s { bootstrap = insert k (window, deadline) s.bootstrap })
  add_token-Inv k window deadline s v none_of = record {
    boots_unique = insert-IsUnique k (window, deadline) s.bootstrap v.boots_unique;
    sessions_unique = v.sessions_unique;
    one_token = λ i j e f h g w. ground (
      arith,
      lookup-insert k i (window, deadline) s.bootstrap,
      lookup-insert k j (window, deadline) s.bootstrap,
      teq_iff k i,
      teq_iff k j,
      v.one_token i j e f,
      none_of i e,
      none_of j f,
    );
    keyed = v.keyed;
    to_window = v.to_window;
    to_session = v.to_session;
  }

  pub issue_bootstrap-Inv :
      (pruned now : ℕ) (token window : Text) (s : SessionStore)
      → Inv digest s
      → Inv digest (issue_bootstrap digest pruned now token window s)
  unfolding issue_bootstrap
  issue_bootstrap-Inv pruned now token window s v =
      let t = prune pruned s in
      add_token-Inv (digest token) window (now + bootstrap_ttl)
        (record t { bootstrap = keep_values (λ e. not (teq e.0 window)) t.bootstrap })
        (filter_tokens-Inv digest (λ e. not (teq e.0 window)) t (prune-Inv digest pruned s v))
        λ j e h. ground (
          arith,
          lookup-keep_values (λ e. not (teq e.0 window)) j t.bootstrap
              (prune-Inv digest pruned s v).boots_unique,
          teq_iff e.0 window,
        )

  replace_old-Inv :
      (window : Text) (s : SessionStore) → Inv digest s → Inv digest (replace_old window s)
  unfolding replace_old
  replace_old-Inv window s v = elim (Option-cases (lookup window s.by_window)) [
    | inl e ↦ rw e (record {
      boots_unique = v.boots_unique;
      sessions_unique = v.sessions_unique;
      one_token = v.one_token;
      keyed = v.keyed;
      to_window = λ j y h. ground (
        arith,
        v.to_window j y,
        lookup-remove window y.window_label s.by_window,
        teq_iff window y.window_label,
      );
      to_session = λ w j h. v.to_session w j (ground (arith, lookup-remove window w s.by_window));
    })
    | inr (k, e) ↦ rw e (record {
      boots_unique = v.boots_unique;
      sessions_unique = remove-IsUnique k s.sessions v.sessions_unique;
      one_token = v.one_token;
      keyed = λ j y h. v.keyed j y (ground (arith, lookup-remove k j s.sessions));
      to_window = λ j y h. ground (
        arith,
        v.to_window j y,
        lookup-remove k j s.sessions,
        v.to_session window k e,
        lookup-remove window y.window_label s.by_window,
        teq_iff window y.window_label,
        teq_iff k j,
      );
      to_session = λ w j h. ground (
        arith,
        v.to_session w j,
        lookup-remove k j s.sessions,
        v.to_session window k e,
        lookup-remove window w s.by_window,
        teq_iff window w,
        teq_iff k j,
      );
    })
  ]

  -- A new session under a key and for a window that the dictionaries do not hold.
  add_session-Inv :
      (x : Session) (s : SessionStore)
      → Inv digest s
      → lookup (digest x.session_id) s.sessions ≡ none
      → lookup x.window_label s.by_window ≡ none
      → Inv digest (add_session digest x s)
  unfolding add_session
  add_session-Inv x s v no_session no_window =
      let k = digest x.session_id in
      record {
        boots_unique = v.boots_unique;
        sessions_unique = insert-IsUnique k x s.sessions v.sessions_unique;
        one_token = v.one_token;
        keyed = λ j y h. ground (arith, lookup-insert k j x s.sessions, teq_iff k j, v.keyed j y);
        to_window = λ j y h. ground (
          arith,
          lookup-insert k j x s.sessions,
          teq_iff k j,
          v.to_window j y,
          lookup-insert x.window_label y.window_label k s.by_window,
          teq_iff x.window_label y.window_label,
        );
        to_session = λ w j h. ground (
          arith,
          lookup-insert k j x s.sessions,
          teq_iff k j,
          v.to_session w j,
          lookup-insert x.window_label w k s.by_window,
          teq_iff x.window_label w,
        );
      }

  redeem-Inv :
      (now used : ℕ) (sid csrf : Text) (label : Option Text) (entry : Option (Text × ℕ))
      (s : SessionStore)
      → Inv digest s
      → lookup (digest sid) s.sessions ≡ none
      → Inv digest (redeem digest now used sid csrf label entry s).0
  unfolding redeem
  redeem-Inv now used sid csrf label none s v fresh = v
  redeem-Inv now used sid csrf label (some (window, deadline)) s v fresh =
      elim (Bool-cases (ltb deadline now || mismatch label window)) [
        | inl e ↦ rw e v
        | inr e ↦ rw e (
            add_session-Inv (fresh_session used sid csrf window) (replace_old window s)
              (replace_old-Inv window s v) (unfold replace_old in still window s (digest sid) fresh)
              (unfold replace_old in
                ground (arith, lookup-remove window window s.by_window, teq_refl window)))
      ]
    where
      still :
          (window : Text) (s : SessionStore) (k : Text)
          → lookup k s.sessions ≡ none
          → lookup k (elim (lookup window s.by_window) [
            | none ↦ s.sessions
            | some old ↦ remove old s.sessions
          ])
            ≡ none
      still window s k h = elim (Option-cases (lookup window s.by_window)) [
        | inl e ↦ rw e h
        | inr (old, e) ↦ rw e (ground (arith, lookup-remove old k s.sessions))
      ]

  drop_session_absent :
      (j k : Text) (s : SessionStore)
      → lookup k s.sessions ≡ none
      → lookup k (drop_session j s).sessions ≡ none
  unfolding drop_session
  drop_session_absent j k s h = elim (Option-cases (lookup j s.sessions)) [
    | inl e ↦ rw e h
    | inr (x, e) ↦ rw e (ground (arith, lookup-remove j k s.sessions))
  ]

  drop_all_absent :
      (js : List Text) (k : Text) (s : SessionStore)
      → lookup k s.sessions ≡ none
      → lookup k (drop_all js s).sessions ≡ none
  unfolding drop_all
  drop_all_absent [] k s h = h
  drop_all_absent (j ∷ js) k s h =
      drop_all_absent js k (drop_session j s) (drop_session_absent j k s h)

  -- `exchange` with a session id whose hash is not in use keeps the invariant.
  pub exchange-Inv :
      (pruned now used : ℕ) (sid csrf token : Text) (label : Option Text) (s : SessionStore)
      → Inv digest s
      → lookup (digest sid) s.sessions ≡ none
      → Inv digest (exchange digest pruned now used sid csrf token label s).0
  unfolding exchange
  exchange-Inv pruned now used sid csrf [] label s v fresh = v
  exchange-Inv pruned now used sid csrf (c ∷ token) label s v fresh =
      let t = prune pruned s in
      let k = digest (c ∷ token) in
      redeem-Inv now used sid csrf label (lookup k t.bootstrap)
        (record t { bootstrap = remove k t.bootstrap })
        (remove_token-Inv k t (prune-Inv digest pruned s v))
        (unfold prune in
          drop_all_absent (keys_where (is_idle pruned) s.sessions) (digest sid)
            (prune_tokens pruned s) fresh)
