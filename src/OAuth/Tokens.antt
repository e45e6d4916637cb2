-- ===== src/OAuth/Tokens.antt =====
-- Refresh and access tokens of `OAuthStore` (src/syllva/mcp/transports/oauth.py).
use syllva.Prelude.{
  ℕ, ◌+◌, Text, teq, Bool, ◌||◌, not, Option, none, some, List, ltb, any, if◌then◌else◌,
}
use syllva.Prelude.Dict.{lookup, insert, map_values}
use syllva.OAuth.{
  RefreshRow, AccessRow, OAuthDb, TokenResult, invalid_grant, invalid_scope, coalesce, is_set,
  join_scopes, with_connection,
}
use syllva.OAuth.Codes.{insert_pair, settle_token}

abbrev pub revoke_refresh : Text → ℕ → RefreshRow → RefreshRow
revoke_refresh family now r =
    if teq r.family_id family then record r { revoked_at = coalesce r.revoked_at now } else r

abbrev pub revoke_access : Text → ℕ → AccessRow → AccessRow
revoke_access family now r =
    if teq r.family_id family then record r { revoked_at = coalesce r.revoked_at now } else r

-- `_revoke_family`
unfoldable pub revoke_family : Text → ℕ → OAuthDb → OAuthDb
revoke_family family now db = record db {
  refresh_tokens = map_values (revoke_refresh family now) db.refresh_tokens;
  access_tokens = map_values (revoke_access family now) db.access_tokens;
}

pub record BrokerRefreshToken : Type 0 where
  pub token : Text
  pub client_id : Text
  pub scopes : List Text
  pub expires_at : ℕ
  pub resource : Text
  pub subject : Text
  pub digest : Text
  pub family_id : Text
  pub generation : ℕ
  pub policy_fingerprint : Text

pub record BrokerAccessToken : Type 0 where
  pub token : Text
  pub client_id : Text
  pub scopes : List Text
  pub expires_at : ℕ
  pub resource : Text
  pub subject : Text
  pub issuer : Text
  pub digest : Text
  pub family_id : Text
  pub policy_fingerprint : Text

-- A reused token, or one that is revoked, expired or of another policy, takes its family along.
abbrev pub spent_refresh : ℕ → Text → RefreshRow → Bool
spent_refresh now policy r =
    is_set r.consumed_at
    || is_set r.revoked_at
    || ltb r.expires_at now
    || not (teq r.policy_fingerprint policy)

-- `any(scope not in original_scopes for scope in scopes)`
abbrev pub exceeds : (scopes original : List Text) → Bool
exceeds scopes original = any (λ s. not (any (teq s) original)) scopes

abbrev pub next_access : ℕ → Text → List Text → RefreshRow → AccessRow
next_access deadline policy scopes r = record {
  client_id = r.client_id;
  scopes = scopes;
  expires_at = deadline;
  resource = r.resource;
  subject = r.subject;
  policy_fingerprint = policy;
  family_id = r.family_id;
  revoked_at = none;
}

abbrev pub next_refresh : ℕ → Text → List Text → RefreshRow → RefreshRow
next_refresh deadline policy scopes r = record {
  client_id = r.client_id;
  scopes = scopes;
  expires_at = deadline;
  resource = r.resource;
  subject = r.subject;
  policy_fingerprint = policy;
  family_id = r.family_id;
  generation = r.generation + 1;
  consumed_at = none;
  revoked_at = none;
}

-- The family of an access token, or else of a refresh token.
abbrev pub family_of : Option AccessRow → Option RefreshRow → Option Text
family_of (some a) r = some a.family_id
family_of none (some r) = some r.family_id
family_of none none = none

abbrev pub revoke_some : ℕ → Option Text → OAuthDb → OAuthDb
revoke_some now none db = db
revoke_some now (some family) db = revoke_family family now db

module _ (digest : Text → Text) where
  unfoldable pub load_refresh_row :
      ℕ
      → (raw client_id policy : Text) → Option RefreshRow
      → OAuthDb
      → OAuthDb × Option BrokerRefreshToken
  unfolding revoke_family
  load_refresh_row now raw client_id policy none db = (db, none)
  load_refresh_row now raw client_id policy (some r) db =
      if not (teq r.client_id client_id)
      then (db, none)
      else if spent_refresh now policy r
      then (revoke_family r.family_id now db, none)
      else (
        db,
        some (record {
          token = raw;
          client_id = r.client_id;
          scopes = r.scopes;
          expires_at = r.expires_at;
          resource = r.resource;
          subject = r.subject;
          digest = digest raw;
          family_id = r.family_id;
          generation = r.generation;
          policy_fingerprint = r.policy_fingerprint;
        }),
      )

  unfoldable pub load_refresh_token :
      ℕ → (raw client_id policy : Text) → OAuthDb → OAuthDb × Option BrokerRefreshToken
  unfolding load_refresh_row
  load_refresh_token now raw client_id policy db =
      load_refresh_row now raw client_id policy (lookup (digest raw) db.refresh_tokens) db

  -- The block of the exchange. It revokes the family of a spent or foreign token and then raises.
  unfoldable pub exchange_refresh_block :
      (now access_ttl refresh_ttl : ℕ)
      → (access_raw refresh_raw refresh_digest client_id policy : Text) → (scopes : List Text)
      → Option RefreshRow
      → OAuthDb
      → OAuthDb × TokenResult
  unfolding insert_pair revoke_family
  exchange_refresh_block now access_ttl refresh_ttl access_raw refresh_raw k client_id policy scopes
        none db =
      (db, invalid_grant)
  exchange_refresh_block now access_ttl refresh_ttl access_raw refresh_raw k client_id policy scopes
        (some r) db =
      if spent_refresh now policy r || not (teq r.client_id client_id)
      then (revoke_family r.family_id now db, invalid_grant)
      else if exceeds scopes r.scopes
      then (db, invalid_scope)
      else (let work : OAuthDb = record db {
        refresh_tokens = insert k (record r { consumed_at = some now }) db.refresh_tokens;
      } in
          settle_token
            (record {
              access_token = access_raw;
              expires_in = access_ttl;
              scope = join_scopes scopes;
              refresh_token = refresh_raw;
            })
            work
            (insert_pair (digest access_raw) (digest refresh_raw)
              (next_access (now + access_ttl) policy scopes r)
              (next_refresh (now + refresh_ttl) policy scopes r) work))

  -- The exception of the block rolls back what `_revoke_family` wrote in it.
  unfoldable pub exchange_refresh_row :
      (now access_ttl refresh_ttl : ℕ)
      → (access_raw refresh_raw refresh_digest client_id policy : Text) → (scopes : List Text)
      → Option RefreshRow
      → OAuthDb
      → OAuthDb × TokenResult
  unfolding exchange_refresh_block
  exchange_refresh_row now access_ttl refresh_ttl access_raw refresh_raw k client_id policy scopes o
        db =
      with_connection db (
        exchange_refresh_block now access_ttl refresh_ttl access_raw refresh_raw k client_id policy
          scopes o db)

  unfoldable pub exchange_refresh_token :
      (now access_ttl refresh_ttl : ℕ)
      → (access_raw refresh_raw : Text) → BrokerRefreshToken
      → (scopes : List Text) → (policy : Text) → OAuthDb
      → OAuthDb × TokenResult
  unfolding exchange_refresh_row
  exchange_refresh_token now access_ttl refresh_ttl access_raw refresh_raw refresh scopes policy
        db =
      exchange_refresh_row now access_ttl refresh_ttl access_raw refresh_raw refresh.digest
        refresh.client_id policy scopes (lookup refresh.digest db.refresh_tokens) db

  unfoldable pub load_access_row :
      ℕ
      → (raw policy issuer : Text) → Option AccessRow
      → OAuthDb
      → OAuthDb × Option BrokerAccessToken
  unfolding revoke_family
  load_access_row now raw policy issuer none db = (db, none)
  load_access_row now raw policy issuer (some r) db =
      if is_set r.revoked_at || ltb r.expires_at now
      then (db, none)
      else if not (teq r.policy_fingerprint policy)
      then (revoke_family r.family_id now db, none)
      else (
        db,
        some (record {
          token = raw;
          client_id = r.client_id;
          scopes = r.scopes;
          expires_at = r.expires_at;
          resource = r.resource;
          subject = r.subject;
          issuer = issuer;
          digest = digest raw;
          family_id = r.family_id;
          policy_fingerprint = r.policy_fingerprint;
        }),
      )

  unfoldable pub load_access_token :
      ℕ → (raw policy issuer : Text) → OAuthDb → OAuthDb × Option BrokerAccessToken
  unfolding load_access_row
  load_access_token now raw policy issuer db =
      load_access_row now raw policy issuer (lookup (digest raw) db.access_tokens) db

  unfoldable pub revoke_token : ℕ → (raw : Text) → OAuthDb → OAuthDb
  unfolding revoke_family
  revoke_token now raw db =
      revoke_some now
        (family_of (lookup (digest raw) db.access_tokens) (lookup (digest raw) db.refresh_tokens))
        db
