-- ===== src/OAuth/Families.antt =====
-- A revoked family of tokens (src/syllva/mcp/transports/oauth.py) stays revoked.
use syllva.Prelude.{
  ℕ, ◌+◌, Text, teq, teq_iff, true, ◌||◌, Option, none, some, List, ◌≡◌, ◌⊎◌, ◌≢◌, refl, sym, subst,
  arith, inl, inr, Bool-cases, ltb,
}
use syllva.Prelude.Dict.{Dict, lookup, insert, map_some, lookup-insert, lookup-map_values}
use syllva.OAuth.{CodeRow, OAuthDb, RefreshRow, AccessRow, is_set}
use syllva.OAuth.Codes.{
  activate_policy, access_of_code, refresh_of_code, retire_refresh, retire_access,
}
use syllva.OAuth.Tokens.{
  revoke_family, revoke_refresh, revoke_access, BrokerRefreshToken, BrokerAccessToken,
  load_refresh_token, load_refresh_row, load_access_token, load_access_row, next_access,
  next_refresh, spent_refresh, revoke_token,
}
use syllva.OAuth.Outcomes.{CodeGranted, RefreshGranted}
use syllva.OAuth.Effects.{
  Effect, keeps, retires, revokes_family, issues_code, grants_code, grants_refresh, Step-Effect,
}
use syllva.OAuth.Steps.{Later, here, next}

-- Every token of the family is revoked: no row of it has `revoked_at` NULL.
abbrev RefreshDead : Text → Option RefreshRow → Type 0
RefreshDead f none = Unit
RefreshDead f (some r) = r.family_id ≡ f → is_set r.revoked_at ≡ true

abbrev AccessDead : Text → Option AccessRow → Type 0
AccessDead f none = Unit
AccessDead f (some r) = r.family_id ≡ f → is_set r.revoked_at ≡ true

pub record Dead (f : Text) (db : OAuthDb) : Type 0 where
  pub refresh : (k : Text) → RefreshDead f (lookup k db.refresh_tokens)
  pub access : (k : Text) → AccessDead f (lookup k db.access_tokens)

revoked_refresh :
    (f family : Text) (now : ℕ) (o : Option RefreshRow)
    → RefreshDead f o
    → RefreshDead f (map_some (revoke_refresh family now) o)
revoked_refresh f family now none h = tt
revoked_refresh f family now (some r) h = λ q. ground (arith, h, teq_iff r.family_id family)

retired_refresh :
    (f policy : Text) (now : ℕ) (o : Option RefreshRow)
    → RefreshDead f o
    → RefreshDead f (map_some (retire_refresh policy now) o)
retired_refresh f policy now none h = tt
retired_refresh f policy now (some r) h = λ q. ground (arith, h)

revoking_refresh :
    (f : Text) (now : ℕ) (o : Option RefreshRow) → RefreshDead f (map_some (revoke_refresh f now) o)
revoking_refresh f now none = tt
revoking_refresh f now (some r) = λ q. ground (arith, teq_iff r.family_id f)

-- A row that is inserted is revoked, or of another family.
inserted_refresh :
    (f k j : Text) (r : RefreshRow) (d : Dict RefreshRow)
    → RefreshDead f (some r)
    → ((i : Text) → RefreshDead f (lookup i d))
    → RefreshDead f (lookup j (insert k r d))
inserted_refresh f k j r d h all = elim (Bool-cases (teq k j)) [
  | inl e ↦ rw (lookup-insert k j r d, e) h
  | inr e ↦ rw (lookup-insert k j r d, e) (all j)
]

revoked_access :
    (f family : Text) (now : ℕ) (o : Option AccessRow)
    → AccessDead f o
    → AccessDead f (map_some (revoke_access family now) o)
revoked_access f family now none h = tt
revoked_access f family now (some r) h = λ q. ground (arith, h, teq_iff r.family_id family)

retired_access :
    (f policy : Text) (now : ℕ) (o : Option AccessRow)
    → AccessDead f o
    → AccessDead f (map_some (retire_access policy now) o)
retired_access f policy now none h = tt
retired_access f policy now (some r) h = λ q. ground (arith, h)

revoking_access :
    (f : Text) (now : ℕ) (o : Option AccessRow) → AccessDead f (map_some (revoke_access f now) o)
revoking_access f now none = tt
revoking_access f now (some r) = λ q. ground (arith, teq_iff r.family_id f)

-- A row that is inserted is revoked, or of another family.
inserted_access :
    (f k j : Text) (r : AccessRow) (d : Dict AccessRow)
    → AccessDead f (some r)
    → ((i : Text) → AccessDead f (lookup i d))
    → AccessDead f (lookup j (insert k r d))
inserted_access f k j r d h all = elim (Bool-cases (teq k j)) [
  | inl e ↦ rw (lookup-insert k j r d, e) h
  | inr e ↦ rw (lookup-insert k j r d, e) (all j)
]

revoke_family-Dead : (f : Text) (now : ℕ) (db : OAuthDb) → Dead f (revoke_family f now db)
unfolding revoke_family
revoke_family-Dead f now db = record {
  refresh = λ k.
      rw (lookup-map_values (revoke_refresh f now) k db.refresh_tokens)
        (revoking_refresh f now (lookup k db.refresh_tokens));
  access = λ k.
      rw (lookup-map_values (revoke_access f now) k db.access_tokens)
        (revoking_access f now (lookup k db.access_tokens));
}

CodeGranted-Dead :
    (digest : Text → Text) (f : Text) (now a r : ℕ) (x y family k id policy : Text) (db e : OAuthDb)
    → CodeGranted digest now a r x y family k id policy (lookup k db.codes) db e
    → ¬ (family ≡ f)
    → Dead f db
    → Dead f e
CodeGranted-Dead digest f now a r x y family k id policy db e g n h = rw g.written (record {
  refresh = λ j.
      inserted_refresh f (digest y) j (refresh_of_code (now + r) policy family g.row)
        db.refresh_tokens (λ q. absurd (n q)) h.refresh;
  access = λ j.
      inserted_access f (digest x) j (access_of_code (now + a) policy family g.row) db.access_tokens
        (λ q. absurd (n q)) h.access;
})

-- The row that a refresh spends is not revoked, so that it is of another family.
RefreshGranted-Dead :
    (digest : Text → Text) (f : Text) (now a r : ℕ) (x y k id policy : Text) (scopes : List Text)
    (db e : OAuthDb)
    → RefreshGranted digest now a r x y k id policy scopes (lookup k db.refresh_tokens) db e
    → Dead f db
    → Dead f e
RefreshGranted-Dead digest f now a r x y k id policy scopes db e g h =
    let at_row = subst (RefreshDead f) g.found (h.refresh k) in
    let other : ¬ (g.row.family_id ≡ f) = λ q. clash (at_row q) in
    rw g.written (record {
      refresh = λ j.
          inserted_refresh f (digest y) j (next_refresh (now + r) policy scopes g.row)
            (insert k (record g.row { consumed_at = some now }) db.refresh_tokens)
            (λ q. absurd (other q))
            (λ i.
              inserted_refresh f k i (record g.row { consumed_at = some now }) db.refresh_tokens
                (λ q. absurd (other q)) h.refresh);
      access = λ j.
          inserted_access f (digest x) j (next_access (now + a) policy scopes g.row)
            db.access_tokens (λ q. absurd (other q)) h.access;
    })
  where
    clash : is_set g.row.revoked_at ≡ true → ⊥
    clash q = ground (arith, g.unspent)

Effect-Dead :
    (digest : Text → Text) (F : Text → Type 0) (G : CodeRow → Type 0) (f : Text) (db e : OAuthDb)
    → Effect digest F G db e
    → ¬ F f
    → Dead f db
    → Dead f e
Effect-Dead digest F G f db e (keeps g) n h = record {
  refresh = λ k. rw g.refresh_tokens (h.refresh k);
  access = λ k. rw g.access_tokens (h.access k);
}
Effect-Dead digest F G f db e (retires policy now p) n h =
    unfold activate_policy in
    rw p (record {
      refresh = λ k.
          rw (lookup-map_values (retire_refresh policy now) k db.refresh_tokens)
            (retired_refresh f policy now (lookup k db.refresh_tokens) (h.refresh k));
      access = λ k.
          rw (lookup-map_values (retire_access policy now) k db.access_tokens)
            (retired_access f policy now (lookup k db.access_tokens) (h.access k));
    })
Effect-Dead digest F G f db e (revokes_family family now p) n h =
    unfold revoke_family in
    rw p (record {
      refresh = λ k.
          rw (lookup-map_values (revoke_refresh family now) k db.refresh_tokens)
            (revoked_refresh f family now (lookup k db.refresh_tokens) (h.refresh k));
      access = λ k.
          rw (lookup-map_values (revoke_access family now) k db.access_tokens)
            (revoked_access f family now (lookup k db.access_tokens) (h.access k));
    })
Effect-Dead digest F G f db e (issues_code j row _ m p) n h =
    rw p (record { refresh = h.refresh; access = h.access })
Effect-Dead digest F G f db e (grants_code now a r x y family j id policy starts g) n h =
    CodeGranted-Dead digest f now a r x y family j id policy db e g (λ q. n (subst F q starts)) h
Effect-Dead digest F G f db e (grants_refresh now a r x y j id policy scopes g) n h =
    RefreshGranted-Dead digest f now a r x y j id policy scopes db e g h

-- What was loaded is not a token of the family.
abbrev pub NoAccessOf : Text → Option BrokerAccessToken → Type 0
NoAccessOf f none = Unit
NoAccessOf f (some t) = t.family_id ≢ f

abbrev pub NoRefreshOf : Text → Option BrokerRefreshToken → Type 0
NoRefreshOf f none = Unit
NoRefreshOf f (some t) = t.family_id ≢ f

module _ (digest : Text → Text) where
  Later-Dead : (f : Text) {db e : OAuthDb} → Later digest f db e → Dead f db → Dead f e
  Later-Dead f here h = h
  Later-Dead f (next {d} {e} l st n) h =
      Effect-Dead digest _ _ f d e (Step-Effect digest st) n (Later-Dead f l h)

  access_refused :
      (f : Text) (now : ℕ) (raw policy issuer : Text) (o : Option AccessRow) (db : OAuthDb)
      → AccessDead f o
      → NoAccessOf f (load_access_row digest now raw policy issuer o db).1
  unfolding load_access_row
  access_refused f now raw policy issuer none db h = tt
  access_refused f now raw policy issuer (some r) db h =
      elim (Bool-cases (is_set r.revoked_at || ltb r.expires_at now)) [
        | inl e ↦ rw e tt
        | inr e ↦ elim (Bool-cases (teq r.policy_fingerprint policy)) [
          | inl p ↦ rw (e, p) (λ q. ground (arith, h))
          | inr p ↦ rw (e, p) tt
        ]
      ]

  refresh_refused :
      (f : Text) (now : ℕ) (raw client_id policy : Text) (o : Option RefreshRow) (db : OAuthDb)
      → RefreshDead f o
      → NoRefreshOf f (load_refresh_row digest now raw client_id policy o db).1
  unfolding load_refresh_row
  refresh_refused f now raw client_id policy none db h = tt
  refresh_refused f now raw client_id policy (some r) db h =
      elim (Bool-cases (teq r.client_id client_id)) [
        | inr c ↦ rw c tt
        | inl c ↦ elim (Bool-cases (spent_refresh now policy r)) [
          | inl e ↦ rw (c, e) tt
          | inr e ↦ rw (c, e) (λ q. ground (arith, h))
        ]
      ]

  -- Neither an access token nor a refresh token of the family is loaded.
  abbrev pub IsSilent : (f : Text) → OAuthDb → Type 0
  IsSilent f d =
      ((now : ℕ) (raw policy issuer : Text)
        → NoAccessOf f (load_access_token digest now raw policy issuer d).1)
      × ((now : ℕ) (raw client_id policy : Text)
          → NoRefreshOf f (load_refresh_token digest now raw client_id policy d).1)

  Dead-IsSilent : (f : Text) (d : OAuthDb) → Dead f d → IsSilent f d
  unfolding load_access_token load_refresh_token
  Dead-IsSilent f d h = (
    λ now raw policy issuer.
        access_refused f now raw policy issuer (lookup (digest raw) d.access_tokens) d
          (h.access (digest raw)),
    λ now raw client_id policy.
        refresh_refused f now raw client_id policy (lookup (digest raw) d.refresh_tokens) d
          (h.refresh (digest raw)),
  )

  -- Reuse of a refresh token ends its whole family. Where the client presents a token that has been
  -- exchanged, then from there on, after any calls that start no family under the same id, no access
  -- token and no refresh token of that family is loaded, at any time and under any policy.
  pub load_refresh_token-reuse :
      (now : ℕ) (raw client_id policy : Text) (row : RefreshRow) (db d : OAuthDb)
      → lookup (digest raw) db.refresh_tokens ≡ some row
      → row.client_id ≡ client_id
      → is_set row.consumed_at ≡ true
      → Later digest row.family_id (load_refresh_token digest now raw client_id policy db).0 d
      → IsSilent row.family_id d
  unfolding load_refresh_token load_refresh_row
  load_refresh_token-reuse now raw client_id policy row db d e c h later =
      let revoked : (load_refresh_token digest now raw client_id policy db).0
          ≡ revoke_family row.family_id now db =
        ground (arith, teq_iff row.client_id client_id) in
      Dead-IsSilent row.family_id d (
        Later-Dead row.family_id later
          (subst (Dead row.family_id) (sym revoked) (revoke_family-Dead row.family_id now db)))

  -- A stored token and its family: an access token, or a refresh token whose digest is no access token's.
  abbrev pub IsOfFamily : (raw f : Text) → OAuthDb → Type 0
  IsOfFamily raw f db =
      ((r : AccessRow) × (lookup (digest raw) db.access_tokens ≡ some r) × (r.family_id ≡ f))
      ⊎ ((lookup (digest raw) db.access_tokens ≡ none)
          × ((r : RefreshRow) × (lookup (digest raw) db.refresh_tokens ≡ some r)
              × (r.family_id ≡ f)))

  revoke_token-IsOfFamily :
      (now : ℕ) (raw f : Text) (db : OAuthDb)
      → IsOfFamily raw f db
      → revoke_token digest now raw db ≡ revoke_family f now db
  unfolding revoke_token
  revoke_token-IsOfFamily now raw f db (inl (r, e, q)) = rw (e, q) refl
  revoke_token-IsOfFamily now raw f db (inr (n, (r, e, q))) = rw (n, e, q) refl

  -- Revocation of a token ends its family. Where an access token is stored, or a refresh token whose
  -- digest is no access token's, then from its revocation on, after any calls that start no family under
  -- the same id, no access token and no refresh token of its family is loaded, at any time and under any
  -- policy.
  pub revoke_token-ends :
      (now : ℕ) (raw f : Text) (db d : OAuthDb)
      → IsOfFamily raw f db
      → Later digest f (revoke_token digest now raw db) d
      → IsSilent f d
  revoke_token-ends now raw f db d at later = Dead-IsSilent f d (
      Later-Dead f later (
        subst (Dead f) (sym (revoke_token-IsOfFamily now raw f db at))
          (revoke_family-Dead f now db)))
