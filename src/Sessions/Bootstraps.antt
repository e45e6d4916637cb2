-- ===== src/Sessions/Bootstraps.antt =====
-- Which bootstrap tokens `exchange` of src/syllva/ui/sessions.py accepts.
use syllva.Prelude.{
  ℕ, ◌≤◌, Text, teq_iff, false, Option, none, some, ◌∷◌, ◌≡◌, ◌↔◌, refl, sym, subst, ap, ◌∙◌, arith,
  inl, inr, Bool-cases, ltb,
}
use syllva.Prelude.Dict.{lookup, remove, keep_if, lookup-keep_values}
use syllva.Sessions.{Session, SessionStore, mismatch, prune, redeem, exchange}
use syllva.Sessions.Invariant.{Inv}
use syllva.Sessions.Tokens.{in_time, bootstrap-prune}

-- A given window label is the token's own; without one, any is.
abbrev pub Admits : Option Text → Text → Type 0
Admits none window = Unit
Admits (some w) window = window ≡ w

keep_if-some :
    (pruned : ℕ) (o : Option (Text × ℕ)) (e : Text × ℕ)
    → keep_if (in_time pruned) o ≡ some e
    → (o ≡ some e) × (pruned ≤ e.1)
keep_if-some pruned none e h = ground arith
keep_if-some pruned (some (w, d)) e h = elim (Bool-cases (ltb d pruned)) [
  | inl q ↦ ground (arith, q)
  | inr q ↦
      let s : ◌≡◌ {A = Option (Text × ℕ)} (some (w, d)) (some e) = ground (arith, q) in
      (s, subst (λ x. keeps x) s (ground (arith, q)))
]
  where
    keeps : Option (Text × ℕ) → Type 0
    keeps none = ⊥
    keeps (some x) = pruned ≤ x.1

mismatch-Admits :
    (label : Option Text) (window : Text) → (mismatch label window ≡ false) ↔ Admits label window
mismatch-Admits none window = (λ h. tt, λ h. refl)
mismatch-Admits (some w) window =
    (λ h. ground (arith, teq_iff window w), λ h. ground (arith, teq_iff window w))

module _ (digest : Text → Text) (pruned now used : ℕ) (sid csrf : Text) (label : Option Text)
    (s : SessionStore) where
  -- The token's entry, and the session that it opens.
  pub record Opens (token : Text) (x : Session) : Type 0 where
    pub window : Text
    pub deadline : ℕ
    pub issued : lookup (digest token) s.bootstrap ≡ some (window, deadline)
    pub kept : pruned ≤ deadline
    pub in_time : now ≤ deadline
    pub admitted : Admits label window
    pub session :
        x ≡ record { session_id = sid; csrf = csrf; window_label = window; last_used = used }

  redeem-accepts :
      (window : Text) (deadline : ℕ) (t : SessionStore) (x : Session)
      → (redeem digest now used sid csrf label (some (window, deadline)) t).1 ≡ some x
      → (now ≤ deadline)
        × Admits label window
        × (x ≡ record { session_id = sid; csrf = csrf; window_label = window; last_used = used })
  unfolding redeem
  redeem-accepts window deadline t x h = elim (Bool-cases (ltb deadline now)) [
    | inl e ↦ ground (arith, e)
    | inr e ↦ elim (Bool-cases (mismatch label window)) [
      | inl m ↦ ground (arith, e, m)
      | inr m ↦ (ground (arith, e), (mismatch-Admits label window).0 m, ground (arith, e, m))
    ]
  ]

  redeem-answers :
      (window : Text) (deadline : ℕ) (t : SessionStore)
      → now ≤ deadline
      → Admits label window
      → (redeem digest now used sid csrf label (some (window, deadline)) t).1
        ≡ some (record { session_id = sid; csrf = csrf; window_label = window; last_used = used })
  unfolding redeem
  redeem-answers window deadline t l a =
      let m = (mismatch-Admits label window).1 a in ground (arith, m)

  lookup-prune :
      (k : Text)
      → Inv digest s
      → lookup k (prune pruned s).bootstrap ≡ keep_if (in_time pruned) (lookup k s.bootstrap)
  lookup-prune k v =
      ap (λ d. lookup k d) (bootstrap-prune pruned s)
      ∙ lookup-keep_values (in_time pruned) k s.bootstrap v.boots_unique

  accepts :
      (token : Text) (t : SessionStore) (x : Session) (o : Option (Text × ℕ))
      → o ≡ keep_if (in_time pruned) (lookup (digest token) s.bootstrap)
      → (redeem digest now used sid csrf label o t).1 ≡ some x
      → Opens token x
  unfolding redeem
  accepts token t x none e h = absurd (clash h)
    where
      clash : (redeem digest now used sid csrf label none t).1 ≡ some x → ⊥
      clash h = cc
  accepts token t x (some (w, d)) e h =
      let k = keep_if-some pruned (lookup (digest token) s.bootstrap) (w, d) (sym e) in
      let r = redeem-accepts w d t x h in
      record {
        window = w;
        deadline = d;
        issued = k.0;
        kept = k.1;
        in_time = r.0;
        admitted = r.1;
        session = r.2;
      }

  answers :
      (token : Text) (t : SessionStore) (x : Session) (o : Option (Text × ℕ))
      → o ≡ keep_if (in_time pruned) (lookup (digest token) s.bootstrap)
      → Opens token x
      → (redeem digest now used sid csrf label o t).1 ≡ some x
  answers token t x o e p =
      let entry : keep_if (in_time pruned) (some (p.window, p.deadline))
          ≡ some (p.window, p.deadline) =
        (let k = p.kept in ground arith) in
      let at : o ≡ some (p.window, p.deadline) =
        e ∙ ap (keep_if (in_time pruned)) p.issued ∙ entry in
      subst (λ q. (redeem digest now used sid csrf label q t).1 ≡ some x) (sym at)
        (redeem-answers p.window p.deadline t p.in_time p.admitted ∙ ap some (sym p.session))

  -- In a store that satisfies `Inv`, an exchange of a non-empty token answers a session exactly if the
  -- token's entry is stored, has not expired when the store is pruned nor when its deadline is read, and a
  -- given window label is the entry's window. The session has the drawn id and CSRF value, the entry's
  -- window, and was last used at the third reading of the clock.
  pub exchange-Opens :
      (c : ℕ) (token : Text) (x : Session)
      → Inv digest s
      → ((exchange digest pruned now used sid csrf (c ∷ token) label s).1 ≡ some x)
        ↔ Opens (c ∷ token) x
  unfolding exchange
  exchange-Opens c token x v =
      let t = prune pruned s in
      let k = digest (c ∷ token) in
      let w : SessionStore = record t { bootstrap = remove k t.bootstrap } in
      (
        accepts (c ∷ token) w x (lookup k t.bootstrap) (lookup-prune k v),
        answers (c ∷ token) w x (lookup k t.bootstrap) (lookup-prune k v),
      )
