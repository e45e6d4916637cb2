-- ===== src/Settings/Epochs.antt =====
-- One session for one bootstrap, and one session for one epoch: src/syllva/settings/security.py.
use syllva.Prelude.{
  ℕ, ◌+◌, ◌∙◌, Text, teq, teq_iff, Bool, true, false, ◌&&◌, ◌||◌, Option, none, some, ◌≡◌, ◌⊎◌,
  refl, ap, sym, subst, arith, inl, inr, Bool-cases, ltb,
}
use syllva.Settings.{
  SessionSecurity, SessionRecord, SessionCode, is_new, is_active, is_replaced, idle_elapsed,
  live_epoch, live_of, csrf_for, csrf_of, record_code, replace, expire_session, expire_bootstrap,
  lifecycle_state, consume_bootstrap, session_code, touch_record, record_explicit_activity,
  close_with, close,
}

module _ (digest : Text → Text) where
  pub data Step (s : SessionSecurity) : SessionSecurity → Type 0 where
    consumes :
        (now later : ℕ) (token handle csrf : Text)
        → Step s (consume_bootstrap digest now later token handle csrf s).0
    records :
        (now later : ℕ) (handle : Option Text)
        → Step s (record_explicit_activity digest now later handle s).0
    closes : (now : ℕ) (handle : Option Text) → Step s (close digest now handle s).0
    replaces : Step s (replace s)
    expires : Step s (expire_session s)
    expires_bootstrap : Step s (expire_bootstrap s)
    reports : (now : ℕ) → Step s (lifecycle_state now s).0

  pub data Reach (s : SessionSecurity) : SessionSecurity → Type 0 where
    here : Reach s s
    next : {t u : SessionSecurity} → Reach s t → Step t u → Reach s u

  -- There is no session, or it is this one, and the epoch is its own.
  abbrev IsSession : (n : ℕ) → (handle_digest csrf : Text) → ℕ → Option SessionRecord → Type 0
  IsSession n d c epoch none = Unit
  IsSession n d c epoch (some r) = (r.handle_digest ≡ d) × (r.csrf_value ≡ c) × (epoch ≡ n)

  record Holds (n : ℕ) (d c : Text) (s : SessionSecurity) : Type 0 where
    used : s.bootstrap_used ≡ true
    only : IsSession n d c s.epoch s.session

  touch_record-Holds :
      (n : ℕ) (d c : Text) (later : ℕ) (code : Option SessionCode) (o : Option SessionRecord)
      (s : SessionSecurity)
      → s.session ≡ o
      → Holds n d c s
      → Holds n d c (touch_record later code o s).0
  touch_record-Holds n d c later none none s e h = h
  touch_record-Holds n d c later none (some r) s e h =
      let i = subst (IsSession n d c s.epoch) e h.only in record { used = h.used; only = i }
  touch_record-Holds n d c later (some k) o s e h = h

  close_with-Holds :
      (n : ℕ) (d c : Text) (code : Option SessionCode) (s : SessionSecurity)
      → Holds n d c s
      → Holds n d c (close_with code s).0
  close_with-Holds n d c none s h = record { used = h.used; only = tt }
  close_with-Holds n d c (some k) s h = h

  spent :
      (now later : ℕ) (token handle csrf : Text) (s : SessionSecurity)
      → s.bootstrap_used ≡ true
      → (consume_bootstrap digest now later token handle csrf s).0 ≡ s
  unfolding consume_bootstrap
  spent now later token handle csrf s h = ground arith

  refused :
      (now later : ℕ) (token handle csrf : Text) (s : SessionSecurity)
      → s.bootstrap_used ≡ true
      → (consume_bootstrap digest now later token handle csrf s).1 ≡ none
  unfolding consume_bootstrap
  refused now later token handle csrf s h = ground arith

  Step-Holds :
      (n : ℕ) (d c : Text) {s t : SessionSecurity} → Step s t → Holds n d c s → Holds n d c t
  unfolding consume_bootstrap record_explicit_activity close replace expire_session expire_bootstrap
      lifecycle_state
  Step-Holds n d c {s} (consumes now later token handle csrf) h =
      subst (Holds n d c) (sym (spent now later token handle csrf s h.used)) h
  Step-Holds n d c {s} (records now later handle) h =
      touch_record-Holds n d c later (session_code digest now handle s) s.session s refl h
  Step-Holds n d c {s} (closes now handle) h =
      close_with-Holds n d c (session_code digest now handle s) s h
  Step-Holds n d c {s} replaces h = record { used = refl; only = tt }
  Step-Holds n d c {s} expires h = elim (Bool-cases (is_active s.state)) [
    | inl e ↦ rw e (record { used = h.used; only = tt })
    | inr e ↦ rw e h
  ]
  Step-Holds n d c {s} expires_bootstrap h = elim (Bool-cases (is_new s.state)) [
    | inl e ↦ rw e (record { used = refl; only = h.only })
    | inr e ↦ rw e h
  ]
  Step-Holds n d c {s} (reports now) h =
      elim (Bool-cases (is_new s.state && ltb s.bootstrap_expires now)) [
        | inl e ↦ rw e (record { used = refl; only = h.only })
        | inr e ↦ elim (Bool-cases (is_active s.state && idle_elapsed now s)) [
          | inl i ↦ rw (e, i) h
          | inr i ↦ rw (e, i) h
        ]
      ]

  Reach-Holds :
      (n : ℕ) (d c : Text) {s t : SessionSecurity} → Reach s t → Holds n d c s → Holds n d c t
  Reach-Holds n d c here h = h
  Reach-Holds n d c (next r st) h = Step-Holds n d c st (Reach-Holds n d c r h)

  consume_bootstrap-Holds :
      (now later : ℕ) (token handle csrf x : Text) (s : SessionSecurity)
      → (consume_bootstrap digest now later token handle csrf s).1 ≡ some x
      → Holds
          (s.epoch + 1)
          (digest handle)
          csrf
          (consume_bootstrap digest now later token handle csrf s).0
  unfolding consume_bootstrap
  consume_bootstrap-Holds now later token handle csrf x s =
      elim (Bool-cases (s.bootstrap_used || ltb s.bootstrap_expires now)) [
        | inl e ↦ rw e (λ q. ground arith)
        | inr e ↦ elim (Bool-cases (teq (digest token) s.bootstrap_digest)) [
          | inl t ↦ rw (e, t) (λ q. record { used = refl; only = (refl, refl, refl) })
          | inr t ↦ rw (e, t) (λ q. ground arith)
        ]
      ]

  -- What the settings window answers while this session is the only one.
  pub record OnlySession (n : ℕ) (handle csrf : Text) (t : SessionSecurity) : Type 0 where
    pub no_bootstrap :
        (now later : ℕ) (token other x : Text)
        → (consume_bootstrap digest now later token other x t).1 ≡ none
    pub one_epoch : (now : ℕ) → (live_epoch now t ≡ none) ⊎ (live_epoch now t ≡ some n)
    pub one_csrf :
        (now : ℕ) (h : Option Text)
        → (csrf_for digest now h t ≡ none)
          ⊎ (csrf_for digest now h t ≡ some csrf)
            × ((g : Text) × (h ≡ some g) × (digest g ≡ digest handle))

  live_of-IsSession :
      (n : ℕ) (d c : Text) (dead : Bool) (epoch : ℕ) (o : Option SessionRecord)
      → IsSession n d c epoch o
      → (live_of dead epoch o ≡ none) ⊎ (live_of dead epoch o ≡ some n)
  live_of-IsSession n d c dead epoch none i = inl refl
  live_of-IsSession n d c true epoch (some r) i = inl refl
  live_of-IsSession n d c false epoch (some r) i = inr (ap some i.2)

  csrf_of-IsSession :
      (n : ℕ) (d c : Text) (now : ℕ) (h : Option Text) (t : SessionSecurity) (epoch : ℕ)
      (o : Option SessionRecord)
      → IsSession n d c epoch o
      → (csrf_of (record_code digest now h t o) o ≡ none)
        ⊎ (csrf_of (record_code digest now h t o) o ≡ some c)
          × ((g : Text) × (h ≡ some g) × (digest g ≡ d))
  csrf_of-IsSession n d c now h t epoch none i = inl refl
  csrf_of-IsSession n d c now none t epoch (some r) i = elim (Bool-cases (idle_elapsed now t)) [
    | inl e ↦ inl (rw e refl)
    | inr e ↦ inl (rw e refl)
  ]
  csrf_of-IsSession n d c now (some g) t epoch (some r) i = elim (Bool-cases (idle_elapsed now t)) [
    | inl e ↦ inl (rw e refl)
    | inr e ↦ elim (Bool-cases (teq (digest g) r.handle_digest)) [
      | inr k ↦ inl (rw (e, k) refl)
      | inl k ↦
          inr (rw (e, k) (ap some i.1), (g, refl, (teq_iff (digest g) r.handle_digest).0 k ∙ i.0))
    ]
  ]

  csrf_for-Holds :
      (n : ℕ) (d c : Text) (now : ℕ) (h : Option Text) (t : SessionSecurity)
      → Holds n d c t
      → (csrf_for digest now h t ≡ none)
        ⊎ (csrf_for digest now h t ≡ some c) × ((g : Text) × (h ≡ some g) × (digest g ≡ d))
  unfolding csrf_for session_code
  csrf_for-Holds n d c now h t v = elim (Bool-cases (is_replaced t.state)) [
    | inl e ↦ inl (rw e refl)
    | inr e ↦ rw e (csrf_of-IsSession n d c now h t t.epoch t.session v.only)
  ]

  -- A bootstrap token opens the only session that a settings process ever has. After it was consumed
  -- and whatever followed, no bootstrap is accepted; the epoch of a live session is the one that
  -- the session began with; and a CSRF value is given out only for a handle with the session's digest,
  -- and it is the session's.
  pub consume_bootstrap-OnlySession :
      (now later : ℕ) (token handle csrf x : Text) (s t : SessionSecurity)
      → (consume_bootstrap digest now later token handle csrf s).1 ≡ some x
      → Reach (consume_bootstrap digest now later token handle csrf s).0 t
      → OnlySession (s.epoch + 1) handle csrf t
  unfolding live_epoch
  consume_bootstrap-OnlySession now later token handle csrf x s t h r =
      let k =
        Reach-Holds (s.epoch + 1) (digest handle) csrf r
          (consume_bootstrap-Holds now later token handle csrf x s h) in
      record {
        no_bootstrap = λ again after other y z. refused again after other y z t k.used;
        one_epoch = λ at. live_of-IsSession _ _ _ _ t.epoch t.session k.only;
        one_csrf = λ at g. csrf_for-Holds _ _ _ at g t k;
      }
