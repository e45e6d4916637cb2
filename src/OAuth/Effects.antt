-- ===== src/OAuth/Effects.antt =====
-- Every call of `OAuthStore` (src/syllva/mcp/transports/oauth.py) has one of six effects on the grants.
use syllva.Prelude.{
  ℕ, Text, teq, ◌||◌, Option, none, some, List, ◌≡◌, refl, ap, arith, inl, inr, Bool-cases,
  Option-cases, ltb,
}
use syllva.Prelude.Dict.{Dict, lookup, insert, insert_new, insert_new_lem}
use syllva.OAuth.{OAuthDb, CodeRow, RefreshRow, AccessRow, ClientRow, is_set}
use syllva.OAuth.Codes.{activate_policy, issue_authorization_code, exchange_authorization_code}
use syllva.OAuth.Tokens.{
  revoke_family, load_refresh_token, load_refresh_row, exchange_refresh_token, load_access_token,
  load_access_row, revoke_token, revoke_some, spent_refresh,
}
use syllva.OAuth.Clients.{
  get_client, register_client, store_client, promote_client, promote_row, new_client, make_room,
  prune_pending,
}
use syllva.OAuth.Outcomes.{
  CodeGranted, RefreshGranted, exchange_code_row-cases, exchange_refresh_row-cases,
}
use syllva.OAuth.Steps.{
  Step, Starts, Issues, activates, gets, registers, promotes, issues, exchanges, loads_refresh,
  refreshes, loads_access, revokes,
}

-- The tables of the grants are left alone.
pub record SameGrants (db e : OAuthDb) : Type 0 where
  pub codes : e.codes ≡ db.codes
  pub refresh_tokens : e.refresh_tokens ≡ db.refresh_tokens
  pub access_tokens : e.access_tokens ≡ db.access_tokens

-- `F` holds of the ids under which a family may start, and `G` of the rows of the codes stored.
pub data Effect (digest : Text → Text) (F : Text → Type 0) (G : CodeRow → Type 0) (db e : OAuthDb)
    : Type 0 where
  keeps : SameGrants db e → Effect digest F G db e
  retires : (policy : Text) (now : ℕ) → e ≡ activate_policy policy now db → Effect digest F G db e
  revokes_family :
      (family : Text) (now : ℕ) → e ≡ revoke_family family now db → Effect digest F G db e
  issues_code :
      (k : Text) (row : CodeRow)
      → G row
      → lookup k db.codes ≡ none
      → e ≡ record db { codes = insert k (record row { consumed_at = none }) db.codes }
      → Effect digest F G db e
  grants_code :
      (now access_ttl refresh_ttl : ℕ) (access_raw refresh_raw family k client_id policy : Text)
      → F family
      → CodeGranted digest now access_ttl refresh_ttl access_raw refresh_raw family k client_id
          policy
          (lookup k db.codes)
          db
          e
      → Effect digest F G db e
  grants_refresh :
      (now access_ttl refresh_ttl : ℕ) (access_raw refresh_raw k client_id policy : Text)
      (scopes : List Text)
      → RefreshGranted digest now access_ttl refresh_ttl access_raw refresh_raw k client_id policy
          scopes
          (lookup k db.refresh_tokens)
          db
          e
      → Effect digest F G db e

same : (db e : OAuthDb) → e ≡ db → SameGrants db e
same db e h = record {
  codes = ground arith;
  refresh_tokens = ground arith;
  access_tokens = ground arith;
}

store_client-SameGrants :
    (db : OAuthDb) (o : Option (Dict ClientRow)) → SameGrants db (store_client db o).0
store_client-SameGrants db none = same db db refl
store_client-SameGrants db (some d) = record {
  codes = refl;
  refresh_tokens = refl;
  access_tokens = refl;
}

promote_row-SameGrants :
    (now ttl : ℕ) (id : Text) (o : Option ClientRow) (db : OAuthDb)
    → SameGrants db (promote_row now ttl id o db).0
promote_row-SameGrants now ttl id none db = same db db refl
promote_row-SameGrants now ttl id (some c) db = record {
  codes = ground arith;
  refresh_tokens = ground arith;
  access_tokens = ground arith;
}

module _ (digest : Text → Text) (F : Text → Type 0) (G : CodeRow → Type 0) where
  load_refresh_row-Effect :
      (now : ℕ) (raw client_id policy : Text) (o : Option RefreshRow) (db : OAuthDb)
      → Effect digest F G db (load_refresh_row digest now raw client_id policy o db).0
  unfolding load_refresh_row
  load_refresh_row-Effect now raw client_id policy none db = keeps (same db db refl)
  load_refresh_row-Effect now raw client_id policy (some r) db =
      elim (Bool-cases (teq r.client_id client_id)) [
        | inl c ↦ elim (Bool-cases (spent_refresh now policy r)) [
          | inl e ↦ rw (c, e) (revokes_family r.family_id now refl)
          | inr e ↦ rw (c, e) (keeps (same db db refl))
        ]
        | inr c ↦ rw c (keeps (same db db refl))
      ]

  load_access_row-Effect :
      (now : ℕ) (raw policy issuer : Text) (o : Option AccessRow) (db : OAuthDb)
      → Effect digest F G db (load_access_row digest now raw policy issuer o db).0
  unfolding load_access_row
  load_access_row-Effect now raw policy issuer none db = keeps (same db db refl)
  load_access_row-Effect now raw policy issuer (some r) db =
      elim (Bool-cases (is_set r.revoked_at || ltb r.expires_at now)) [
        | inl e ↦ rw e (keeps (same db db refl))
        | inr e ↦ elim (Bool-cases (teq r.policy_fingerprint policy)) [
          | inl p ↦ rw (e, p) (keeps (same db db refl))
          | inr p ↦ rw (e, p) (revokes_family r.family_id now refl)
        ]
      ]

  revoke_some-Effect :
      (now : ℕ) (o : Option Text) (db : OAuthDb) → Effect digest F G db (revoke_some now o db)
  revoke_some-Effect now none db = keeps (same db db refl)
  revoke_some-Effect now (some family) db = revokes_family family now refl

  issue-Effect :
      (raw : Text) (row : CodeRow) (db : OAuthDb)
      → G row
      → Effect digest F G db (issue_authorization_code digest raw row db).0
  unfolding issue_authorization_code
  issue-Effect raw row db g =
      elim (Option-cases (insert_new (digest raw) (record row { consumed_at = none }) db.codes)) [
        | inl e ↦ rw (issue_authorization_code, e) (keeps (same db db refl))
        | inr (codes, e) ↦
            let p =
              insert_new_lem (digest raw) (record row { consumed_at = none }) db.codes codes e in
            rw (issue_authorization_code, e)
              (issues_code (digest raw) row g p.0 (ap (λ d. record db { codes = d }) p.1))
      ]

module _ (digest : Text → Text) where
  pub Step-Effect :
      {db e : OAuthDb} (st : Step digest db e)
      → Effect digest (λ f. Starts digest f st) (λ row. Issues digest row st) db e
  unfolding get_client register_client promote_client load_refresh_token load_access_token
      revoke_token exchange_authorization_code exchange_refresh_token
  Step-Effect {db} (activates policy now) = retires policy now refl
  Step-Effect {db} (gets now ttl id) =
      keeps (record { codes = refl; refresh_tokens = refl; access_tokens = refl })
  Step-Effect {db} (registers now ttl id json) = keeps (
      store_client-SameGrants db
        (insert_new id (new_client now json) (make_room (prune_pending now ttl db).clients)))
  Step-Effect {db} (promotes now ttl id) = keeps (promote_row-SameGrants now ttl id _ db)
  Step-Effect {db} (issues raw row) = issue-Effect digest _ _ raw row db refl
  Step-Effect {db} (exchanges now a r x y family code policy) =
      elim (exchange_code_row-cases digest now a r x y family code.digest code.client_id policy
        (lookup code.digest db.codes) db) [
          | inl h ↦ keeps (same db _ h.0)
          | inr g ↦ grants_code now a r x y family code.digest code.client_id policy refl g
        ]
  Step-Effect {db} (loads_refresh now raw id policy) =
      load_refresh_row-Effect digest _ _ now raw id policy (lookup (digest raw) db.refresh_tokens)
        db
  Step-Effect {db} (refreshes now a r x y refresh scopes policy) =
      elim (exchange_refresh_row-cases digest now a r x y refresh.digest refresh.client_id policy
        scopes (lookup refresh.digest db.refresh_tokens) db) [
          | inl h ↦ keeps (same db _ h.0)
          | inr g ↦ grants_refresh now a r x y refresh.digest refresh.client_id policy scopes g
        ]
  Step-Effect {db} (loads_access now raw policy issuer) =
      load_access_row-Effect digest _ _ now raw policy issuer (lookup (digest raw) db.access_tokens)
        db
  Step-Effect {db} (revokes now raw) = revoke_some-Effect digest _ _ now _ db
