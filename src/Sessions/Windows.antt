-- ===== src/Sessions/Windows.antt =====
-- Which session a window has, and what keeps a session alive (src/syllva/ui/sessions.py).
use syllva.Prelude.{
  ℕ, ◌-◌, Text, teq_iff, teq_refl, ◌≡◌, ◌≢◌, ◌↔◌, refl, true, false, ◌||◌, Option, none, some, [],
  ◌∷◌, arith, inl, inr, Option-cases, Bool-cases, ltb, leb,
}
use syllva.Prelude.Dict.{lookup, remove, lookup-insert, lookup-remove}
use syllva.Sessions.{
  Session, SessionStore, Found, missing, wrong_window, found, mismatch, drop_session, prune,
  is_idle, idle_ttl, exchange, redeem, add_session, find, touch, alive, fresh_enough, end_window,
}
use syllva.Sessions.Invariant.{Inv, exchange-Inv}

abbrev pub IsFound : Found → Type 0
IsFound missing = ⊥
IsFound wrong_window = ⊥
IsFound (found x) = Unit

module _ (digest : Text → Text) where
  IsFound-cases :
      (now : ℕ) (k : Text) (o : Option Session) (s : SessionStore)
      → (fresh_enough now o ≡ true) ↔ IsFound (touch digest now k none o s).1
  unfolding touch
  IsFound-cases now k none s = (λ h. cc, λ h. absurd h)
  IsFound-cases now k (some x) s = elim (Bool-cases (is_idle now x)) [
    | inl idle ↦ rw idle (λ h. ground arith, λ h. absurd h)
    | inr busy ↦ rw busy (λ h. tt, λ h. ground arith)
  ]

  -- For a non-empty session id, `alive` answers true exactly when `lookup` without a window
  -- would return a session at that time.
  pub alive-find :
      (now c : ℕ) (sid : Text) (s : SessionStore)
      → (alive digest now (c ∷ sid) s ≡ true) ↔ IsFound (find digest now (some (c ∷ sid)) none s).1
  unfolding alive find
  alive-find now c sid s =
      IsFound-cases now (digest (c ∷ sid)) (lookup (digest (c ∷ sid)) s.sessions) s

  -- In a store that satisfies `Inv`, two live ids of sessions for one window have the same hash.
  pub one_session :
      (s : SessionStore)
      → Inv digest s
      → (j k : Text) (x y : Session) → lookup j s.sessions ≡ some x
      → lookup k s.sessions ≡ some y
      → x.window_label ≡ y.window_label
      → j ≡ k
  one_session s v j k x y h g e = ground (arith, v.to_window j x h, v.to_window k y g)

  redeem-adds :
      (now used : ℕ) (sid csrf : Text) (label : Option Text) (entry : Option (Text × ℕ))
      (s : SessionStore) (x : Session)
      → (redeem digest now used sid csrf label entry s).1 ≡ some x
      → lookup (digest sid) (redeem digest now used sid csrf label entry s).0.sessions ≡ some x
  unfolding redeem
  redeem-adds now used sid csrf label none s x h = cc
  redeem-adds now used sid csrf label (some (w, deadline)) s x h =
      elim (Bool-cases (ltb deadline now || mismatch label w)) [
        | inl e ↦ absurd (none_some (rw e at h))
        | inr e ↦ rw e (
            unfold add_session in
            rw (lookup-insert (digest sid) (digest sid)) (ground (arith, teq_refl (digest sid))))
      ]
    where
      none_some : ◌≡◌ {A = Option Session} none (some x) → ⊥
      none_some e = cc

  exchange-adds :
      (pruned now used : ℕ) (sid csrf token : Text) (label : Option Text) (s : SessionStore)
      (x : Session)
      → (exchange digest pruned now used sid csrf token label s).1 ≡ some x
      → lookup (digest sid) (exchange digest pruned now used sid csrf token label s).0.sessions
        ≡ some x
  unfolding exchange
  exchange-adds pruned now used sid csrf [] label s x h = cc
  exchange-adds pruned now used sid csrf (c ∷ token) label s x h =
      redeem-adds now used sid csrf label (lookup (digest (c ∷ token)) (prune pruned s).bootstrap)
        (record (prune pruned s) {
          bootstrap = remove (digest (c ∷ token)) (prune pruned s).bootstrap;
        })
        x h

  -- From a store that satisfies `Inv`, an exchange that answers a session, under an id whose hash
  -- was not in use, stores that session, and every stored session for its window stands under the
  -- hash of the new id: the window's older session is gone.
  pub exchange-replaces :
      (pruned now used : ℕ) (sid csrf token : Text) (label : Option Text) (s : SessionStore)
      (x : Session)
      → Inv digest s
      → lookup (digest sid) s.sessions ≡ none
      → (exchange digest pruned now used sid csrf token label s).1 ≡ some x
      → let t = (exchange digest pruned now used sid csrf token label s).0 in
        (lookup (digest sid) t.sessions ≡ some x)
        × ((k : Text) (y : Session)
            → lookup k t.sessions ≡ some y
            → y.window_label ≡ x.window_label
            → k ≡ digest sid)
  exchange-replaces pruned now used sid csrf token label s x v fresh h = (
    exchange-adds pruned now used sid csrf token label s x h,
    λ k y g e.
        one_session (exchange digest pruned now used sid csrf token label s).0
          (exchange-Inv digest pruned now used sid csrf token label s v fresh) k (digest sid) y x g
          (exchange-adds pruned now used sid csrf token label s x h) e,
  )

  -- From a store that satisfies `Inv`, closing a window leaves no stored session for it, and keeps
  -- every session of another window; it answers true exactly when the window had a session.
  pub end_window-ends :
      (w : Text) (s : SessionStore)
      → Inv digest s
      → ((k : Text) (x : Session)
          → lookup k (end_window w s).0.sessions ≡ some x
          → (x.window_label ≢ w) × (lookup k s.sessions ≡ some x))
        × ((k : Text) (x : Session)
            → lookup k s.sessions ≡ some x
            → x.window_label ≢ w
            → lookup k (end_window w s).0.sessions ≡ some x)
        × (((end_window w s).1 ≡ false) ↔ (lookup w s.by_window ≡ none))
  unfolding end_window drop_session
  end_window-ends w s v = elim (Option-cases (lookup w s.by_window)) [
    | inl e ↦ rw e (
      (λ k x h. ((λ i. ground (arith, v.to_window k x)), h)),
      (λ k x h n. h),
      ((λ _. refl), (λ _. refl)),
    )
    | inr (j, e) ↦ elim (Option-cases (lookup j s.sessions)) [
      | inl gone ↦ ground (arith, v.to_session w j e)
      | inr (y, at) ↦
          rw (e, at)
            (
              (λ k x h. (
                (λ q. ground (arith, lookup-remove j k s.sessions, teq_iff j k, v.to_window k x)),
                ground (arith, lookup-remove j k s.sessions),
              )),
              (λ k x h n.
                  ground (arith, lookup-remove j k s.sessions, teq_iff j k, v.to_session w j)),
              ((λ i. ground arith), (λ i. ground arith)),
            )
    ]
  ]

  -- A session that `lookup` returns at a time is alive at any other time exactly up to the idle
  -- limit after that time.
  pub find-refreshes :
      (now later c : ℕ) (sid : Text) (label : Option Text) (s : SessionStore) (x : Session)
      → (find digest now (some (c ∷ sid)) label s).1 ≡ found x
      → alive digest later (c ∷ sid) (find digest now (some (c ∷ sid)) label s).0
        ≡ leb (later - now) idle_ttl
  unfolding find alive
  find-refreshes now later c sid label s x h =
      let k = digest (c ∷ sid) in
      elim (Option-cases (lookup k s.sessions)) [
        | inl e ↦ ground (arith, e)
        | inr (y, e) ↦
            ground
              (arith, e, lookup-insert k k (record y { last_used = now }) s.sessions, teq_refl k)
      ]
