-- ===== src/Sessions/Tokens.antt =====
-- Bootstrap tokens of src/syllva/ui/sessions.py: an exchange consumes its token.
use syllva.Prelude.{
  ℕ, ◌+◌, Text, teq, teq_iff, teq_refl, ◌≡◌, refl, Bool, not, Option, none, some, List, [], ◌∷◌,
  arith, inl, inr, Option-cases, ltb,
}
use syllva.Prelude.Dict.{
  lookup, remove, keep_values, keys_where, lookup-insert, lookup-remove, lookup-keep_values-none,
}
use syllva.Sessions.{
  SessionStore, drop_session, drop_all, prune_tokens, prune, is_idle, bootstrap_ttl,
  issue_bootstrap, exchange, redeem, find, logout, end_window,
}
use syllva.Sessions.Invariant.{Step, issues, exchanges, finds, logs_out, ends}

bootstrap-drop_session : (k : Text) (s : SessionStore) → (drop_session k s).bootstrap ≡ s.bootstrap
unfolding drop_session
bootstrap-drop_session k s = elim (Option-cases (lookup k s.sessions)) [
  | inl e ↦ rw e
  | inr (x, e) ↦ rw e
]

bootstrap-drop_all : (ks : List Text) (s : SessionStore) → (drop_all ks s).bootstrap ≡ s.bootstrap
unfolding drop_all
bootstrap-drop_all [] s = refl
bootstrap-drop_all (k ∷ ks) s =
    rw (bootstrap-drop_all ks (drop_session k s), bootstrap-drop_session k s)

abbrev pub in_time : ℕ → Text × ℕ → Bool
in_time now e = not (ltb e.1 now)

pub bootstrap-prune :
    (now : ℕ) (s : SessionStore) → (prune now s).bootstrap ≡ keep_values (in_time now) s.bootstrap
unfolding prune
bootstrap-prune now s =
    bootstrap-drop_all (keys_where (is_idle now) s.sessions) (prune_tokens now s)

module _ (digest : Text → Text) where
  bootstrap-redeem :
      (now used : ℕ) (sid csrf : Text) (label : Option Text) (entry : Option (Text × ℕ))
      (s : SessionStore)
      → (redeem digest now used sid csrf label entry s).0.bootstrap ≡ s.bootstrap
  unfolding redeem
  bootstrap-redeem now used sid csrf label none s = refl
  bootstrap-redeem now used sid csrf label (some (w, deadline)) s = ground arith

  -- The token that `exchange` was given is gone afterwards.
  exchange_consumes :
      (pruned now used : ℕ) (sid csrf : Text) (c : ℕ) (token : Text) (label : Option Text)
      (s : SessionStore)
      → lookup
          (digest (c ∷ token))
          (exchange digest pruned now used sid csrf (c ∷ token) label s).0.bootstrap
        ≡ none
  unfolding exchange
  exchange_consumes pruned now used sid csrf c token label s =
      let t = prune pruned s in
      let k = digest (c ∷ token) in
      rw
        (bootstrap-redeem now used sid csrf label (lookup k t.bootstrap)
          (record t { bootstrap = remove k t.bootstrap }))
        (ground (arith, lookup-remove k k t.bootstrap, teq_refl k))

  -- Does this call issue a token under this hash?
  abbrev Reissues : (k : Text) {s t : SessionStore} → Step digest s t → Type 0
  Reissues k (issues pruned now token window) = digest token ≡ k
  Reissues k (exchanges pruned now used sid csrf token label fresh) = ⊥
  Reissues k (finds now sid label) = ⊥
  Reissues k (logs_out sid) = ⊥
  Reissues k (ends window) = ⊥

  -- Calls that follow one another from `s`, none of which issues a token under `k` again.
  pub data Later (k : Text) (s : SessionStore) : SessionStore → Type 0 where
    here : Later k s s
    next :
        {t u : SessionStore} → Later k s t → (st : Step digest t u) → ¬ Reissues k st → Later k s u

  prune_absent :
      (now : ℕ) (k : Text) (s : SessionStore)
      → lookup k s.bootstrap ≡ none
      → lookup k (prune now s).bootstrap ≡ none
  prune_absent now k s h =
      rw (bootstrap-prune now s) (lookup-keep_values-none (in_time now) k s.bootstrap h)

  exchange_absent :
      (pruned now used : ℕ) (sid csrf token : Text) (label : Option Text) (k : Text)
      (s : SessionStore)
      → lookup k s.bootstrap ≡ none
      → lookup k (exchange digest pruned now used sid csrf token label s).0.bootstrap ≡ none
  unfolding exchange
  exchange_absent pruned now used sid csrf [] label k s h = h
  exchange_absent pruned now used sid csrf (c ∷ token) label k s h =
      let t = prune pruned s in
      let j = digest (c ∷ token) in
      rw
        (bootstrap-redeem now used sid csrf label (lookup j t.bootstrap)
          (record t { bootstrap = remove j t.bootstrap }))
        (ground (arith, lookup-remove j k t.bootstrap, prune_absent pruned k s h))

  find_bootstrap :
      (now : ℕ) (sid label : Option Text) (s : SessionStore)
      → (find digest now sid label s).0.bootstrap ≡ s.bootstrap
  unfolding find
  find_bootstrap now none label s = refl
  find_bootstrap now (some []) label s = refl
  find_bootstrap now (some (c ∷ sid)) label s =
      ground (arith, bootstrap-drop_session (digest (c ∷ sid)) s)

  Step-absent :
      (k : Text) {s t : SessionStore} (st : Step digest s t)
      → ¬ Reissues k st
      → lookup k s.bootstrap ≡ none
      → lookup k t.bootstrap ≡ none
  unfolding logout end_window
  Step-absent k {s} (issues pruned now token window) no_issue h =
      unfold issue_bootstrap in
      ground (
        arith,
        lookup-insert (digest token) k (window, now + bootstrap_ttl)
            (keep_values (λ e. not (teq e.0 window)) (prune pruned s).bootstrap),
        teq_iff (digest token) k,
        no_issue,
        lookup-keep_values-none (λ e. not (teq e.0 window)) k (prune pruned s).bootstrap
            (prune_absent pruned k s h),
      )
  Step-absent k {s} (exchanges pruned now used sid csrf token label fresh) no_issue h =
      exchange_absent pruned now used sid csrf token label k s h
  Step-absent k {s} (finds now sid label) no_issue h = rw (find_bootstrap now sid label s) h
  Step-absent k {s} (logs_out sid) no_issue h = rw (bootstrap-drop_session (digest sid) s) h
  Step-absent k {s} (ends window) no_issue h = elim (Option-cases (lookup window s.by_window)) [
    | inl e ↦ rw e h
    | inr (j, e) ↦ rw e (rw (bootstrap-drop_session j s) h)
  ]

  Later-absent :
      (k : Text) {s t : SessionStore}
      → Later k s t
      → lookup k s.bootstrap ≡ none
      → lookup k t.bootstrap ≡ none
  Later-absent k here h = h
  Later-absent k (next l st no_issue) h = Step-absent k st no_issue (Later-absent k l h)

  exchange_unknown :
      (pruned now used : ℕ) (sid csrf : Text) (c : ℕ) (token : Text) (label : Option Text)
      (s : SessionStore)
      → lookup (digest (c ∷ token)) s.bootstrap ≡ none
      → (exchange digest pruned now used sid csrf (c ∷ token) label s).1 ≡ none
  unfolding exchange
  exchange_unknown pruned now used sid csrf c token label s h =
      rw (prune_absent pruned (digest (c ∷ token)) s h) refl

  -- A bootstrap token is single use. Whatever the first exchange of a token answers, every later
  -- exchange of that token answers nothing, after any calls in between that do not issue a token
  -- of the same hash, at any times and from any window.
  pub exchange-single_use :
      (c : ℕ) (token : Text) (pruned now used : ℕ) (sid csrf : Text) (label : Option Text)
      (s t : SessionStore)
      → Later
          (digest (c ∷ token))
          (exchange digest pruned now used sid csrf (c ∷ token) label s).0
          t
      → (pruned' now' used' : ℕ) (sid' csrf' : Text) (label' : Option Text)
      → (exchange digest pruned' now' used' sid' csrf' (c ∷ token) label' t).1 ≡ none
  exchange-single_use c token pruned now used sid csrf label s t l pruned' now' used' sid' csrf'
        label' =
      exchange_unknown pruned' now' used' sid' csrf' c token label' t (
        Later-absent (digest (c ∷ token)) l
          (exchange_consumes pruned now used sid csrf c token label s))
