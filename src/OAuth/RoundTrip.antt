-- ===== src/OAuth/RoundTrip.antt =====
-- The tokens that an exchange of src/syllva/mcp/transports/oauth.py answers are loaded again.
use syllva.Prelude.{
  ℕ, ◌+◌, ◌≤◌, Text, teq, teq_iff, ◌||◌, not, Option, none, some, List, ◌≡◌, refl, subst, ap, ◌∙◌,
  arith, inl, inr, Bool-cases,
}
use syllva.Prelude.Dict.{lookup, lookup-insert_self}
use syllva.OAuth.{
  OAuthDb, RefreshRow, AccessRow, OAuthToken, TokenResult, token, join_scopes, with_connection,
}
use syllva.OAuth.Codes.{settle_token}
use syllva.OAuth.Tokens.{
  BrokerRefreshToken, exchange_refresh_token, exchange_refresh_row, exchange_refresh_block,
  load_access_token, load_access_row, load_refresh_token, load_refresh_row, next_access,
  next_refresh, spent_refresh, exceeds,
}
use syllva.OAuth.Outcomes.{NoToken, RefreshGranted, exchange_refresh_row-cases}

settled-token :
    (t u : OAuthToken) (old work : OAuthDb) (o : Option OAuthDb)
    → (with_connection old (settle_token u work o)).1 ≡ token t
    → t ≡ u
settled-token t u old work none h = cc
settled-token t u old work (some d) h = ground arith

module _ (digest : Text → Text) where
  access_row-loads :
      (later : ℕ) (raw policy issuer : Text) (r : AccessRow) (db : OAuthDb)
      → r.revoked_at ≡ none
      → later ≤ r.expires_at
      → r.policy_fingerprint ≡ policy
      → (load_access_row digest later raw policy issuer (some r) db).1
        ≡ some (record {
          token = raw;
          client_id = r.client_id;
          scopes = r.scopes;
          expires_at = r.expires_at;
          resource = r.resource;
          subject = r.subject;
          issuer = issuer;
          digest = digest raw;
          family_id = r.family_id;
          policy_fingerprint = r.policy_fingerprint;
        })
  unfolding load_access_row
  access_row-loads later raw policy issuer r db u l p =
      ground (arith, teq_iff r.policy_fingerprint policy)

  refresh_row-loads :
      (later : ℕ) (raw client_id policy : Text) (r : RefreshRow) (db : OAuthDb)
      → r.consumed_at ≡ none
      → r.revoked_at ≡ none
      → later ≤ r.expires_at
      → r.policy_fingerprint ≡ policy
      → r.client_id ≡ client_id
      → (load_refresh_row digest later raw client_id policy (some r) db).1
        ≡ some (record {
          token = raw;
          client_id = r.client_id;
          scopes = r.scopes;
          expires_at = r.expires_at;
          resource = r.resource;
          subject = r.subject;
          digest = digest raw;
          family_id = r.family_id;
          generation = r.generation;
          policy_fingerprint = r.policy_fingerprint;
        })
  unfolding load_refresh_row
  refresh_row-loads later raw client_id policy r db c u l p q =
      ground (arith, teq_iff r.policy_fingerprint policy, teq_iff r.client_id client_id)

  -- The response that an exchange answers with.
  abbrev pub response : (access_ttl : ℕ) (access_raw refresh_raw : Text) → List Text → OAuthToken
  response access_ttl access_raw refresh_raw scopes = record {
    access_token = access_raw;
    expires_in = access_ttl;
    scope = join_scopes scopes;
    refresh_token = refresh_raw;
  }

  row-token :
      (now a r : ℕ) (x y k id policy : Text) (scopes : List Text) (o : Option RefreshRow)
      (db : OAuthDb) (t : OAuthToken)
      → (exchange_refresh_row digest now a r x y k id policy scopes o db).1 ≡ token t
      → t ≡ response a x y scopes
  unfolding exchange_refresh_row exchange_refresh_block
  row-token now a r x y k id policy scopes none db t = λ h. cc
  row-token now a r x y k id policy scopes (some row) db t =
      elim (Bool-cases (spent_refresh now policy row || not (teq row.client_id id))) [
        | inl e ↦ rw e (λ h. cc)
        | inr e ↦ elim (Bool-cases (exceeds scopes row.scopes)) [
          | inl q ↦ rw (e, q) (λ h. cc)
          | inr q ↦ rw (e, q) (settled-token t (response a x y scopes) db _ _)
        ]
      ]

  module _ (now access_ttl refresh_ttl : ℕ) (access_raw refresh_raw : Text)
      (refresh : BrokerRefreshToken) (scopes : List Text) (policy : Text) (db : OAuthDb) where
    abbrev exchanged : OAuthDb × TokenResult
    exchanged =
        exchange_refresh_token digest now access_ttl refresh_ttl access_raw refresh_raw refresh
          scopes policy db

    -- What the exchange read and left, and what its tokens are loaded as.
    pub record IsRefreshed (t : OAuthToken) : Type 0 where
      pub answered : t ≡ response access_ttl access_raw refresh_raw scopes
      pub row : RefreshRow
      pub found : lookup refresh.digest db.refresh_tokens ≡ some row
      pub loads_access :
          (later : ℕ) (issuer : Text)
          → later ≤ now + access_ttl
          → (load_access_token digest later access_raw policy issuer exchanged.0).1
            ≡ some (record {
              token = access_raw;
              client_id = row.client_id;
              scopes = scopes;
              expires_at = now + access_ttl;
              resource = row.resource;
              subject = row.subject;
              issuer = issuer;
              digest = digest access_raw;
              family_id = row.family_id;
              policy_fingerprint = policy;
            })
      pub loads_refresh :
          (later : ℕ)
          → later ≤ now + refresh_ttl
          → (load_refresh_token digest later refresh_raw refresh.client_id policy exchanged.0).1
            ≡ some (record {
              token = refresh_raw;
              client_id = row.client_id;
              scopes = scopes;
              expires_at = now + refresh_ttl;
              resource = row.resource;
              subject = row.subject;
              digest = digest refresh_raw;
              family_id = row.family_id;
              generation = row.generation + 1;
              policy_fingerprint = policy;
            })

    granted-IsRefreshed :
        (t : OAuthToken)
        → t ≡ response access_ttl access_raw refresh_raw scopes
        → RefreshGranted digest now access_ttl refresh_ttl access_raw refresh_raw refresh.digest
            refresh.client_id policy scopes
            (lookup refresh.digest db.refresh_tokens)
            db
            exchanged.0
        → IsRefreshed t
    unfolding load_access_token load_refresh_token
    granted-IsRefreshed t e g = record {
      answered = e;
      row = g.row;
      found = g.found;
      loads_access = λ later issuer l.
          let a = next_access (now + access_ttl) policy scopes g.row in
          let at : lookup (digest access_raw) exchanged.0.access_tokens ≡ some a =
            ap (λ (d : OAuthDb). lookup (digest access_raw) d.access_tokens) g.written
            ∙ lookup-insert_self (digest access_raw) a db.access_tokens in
          rw at (access_row-loads later access_raw policy issuer a exchanged.0 refl l refl);
      loads_refresh = λ later l.
          let r = next_refresh (now + refresh_ttl) policy scopes g.row in
          let at : lookup (digest refresh_raw) exchanged.0.refresh_tokens ≡ some r =
            ap (λ (d : OAuthDb). lookup (digest refresh_raw) d.refresh_tokens) g.written
            ∙ lookup-insert_self (digest refresh_raw) r _ in
          rw at (
            refresh_row-loads later refresh_raw refresh.client_id policy r exchanged.0 refl refl l
              refl ((teq_iff g.row.client_id refresh.client_id).0 g.same_client));
    }

    -- What an exchange of a refresh token answers is loaded again. Where it answers a token, the
    -- presented digest names a stored row; until its deadline the new access token is loaded under the
    -- same policy with the requested scopes, and until its own the new refresh token for the same
    -- client, one generation on; both have the row's client, resource, subject and family.
    pub exchange_refresh_token-loads : (t : OAuthToken) → exchanged.1 ≡ token t → IsRefreshed t
    unfolding exchange_refresh_token
    exchange_refresh_token-loads t h =
        elim (exchange_refresh_row-cases digest now access_ttl refresh_ttl access_raw refresh_raw
          refresh.digest refresh.client_id policy scopes (lookup refresh.digest db.refresh_tokens)
          db) [
            | inl o ↦ absurd (subst NoToken h o.1)
            | inr g ↦
                granted-IsRefreshed t
                  (row-token now access_ttl refresh_ttl access_raw refresh_raw refresh.digest
                    refresh.client_id policy scopes (lookup refresh.digest db.refresh_tokens) db t
                    h)
                  g
          ]
