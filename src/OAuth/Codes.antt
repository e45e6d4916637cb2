-- ===== src/OAuth/Codes.antt =====
-- Authorization codes and `activate_policy` of `OAuthStore` (src/syllva/mcp/transports/oauth.py).
use syllva.Prelude.{
  ℕ, ◌+◌, Text, teq, Bool, ◌||◌, not, Option, none, some, List, ltb, if◌then◌else◌,
}
use syllva.Prelude.Dict.{lookup, insert, insert_new, map_values}
use syllva.OAuth.{
  CodeRow, RefreshRow, AccessRow, OAuthDb, OAuthToken, TokenResult, token, invalid_grant,
  database_error, coalesce, is_set, join_scopes, with_connection,
}

-- `UPDATE ... WHERE policy_fingerprint<>?` on one row of each table.
abbrev pub retire_code : Text → ℕ → CodeRow → CodeRow
retire_code policy now r =
    if teq r.policy_fingerprint policy
    then r
    else record r { consumed_at = coalesce r.consumed_at now }

abbrev pub retire_refresh : Text → ℕ → RefreshRow → RefreshRow
retire_refresh policy now r =
    if teq r.policy_fingerprint policy
    then r
    else record r { revoked_at = coalesce r.revoked_at now }

abbrev pub retire_access : Text → ℕ → AccessRow → AccessRow
retire_access policy now r =
    if teq r.policy_fingerprint policy
    then r
    else record r { revoked_at = coalesce r.revoked_at now }

unfoldable pub activate_policy : Text → ℕ → OAuthDb → OAuthDb
activate_policy policy now db = record db {
  codes = map_values (retire_code policy now) db.codes;
  refresh_tokens = map_values (retire_refresh policy now) db.refresh_tokens;
  access_tokens = map_values (retire_access policy now) db.access_tokens;
}

-- What a caller holds of a code that it loaded: the fields that the exchange reads.
pub record BrokerAuthorizationCode : Type 0 where
  pub code : Text
  pub client_id : Text
  pub scopes : List Text
  pub expires_at : ℕ
  pub code_challenge : Text
  pub redirect_uri : Text
  pub redirect_uri_provided_explicitly : Bool
  pub resource : Text
  pub subject : Text
  pub digest : Text
  pub policy_fingerprint : Text

-- The row under which a code is refused.
abbrev pub refuses_code : ℕ → (client_id policy : Text) → CodeRow → Bool
refuses_code now client_id policy r =
    is_set r.consumed_at
    || ltb r.expires_at now
    || not (teq r.client_id client_id)
    || not (teq r.policy_fingerprint policy)

-- The tables behind the two inserts of a grant; `none` is a violated primary key.
unfoldable pub insert_pair :
    (access_digest refresh_digest : Text) → AccessRow → RefreshRow → OAuthDb → Option OAuthDb
unfolding insert_new
insert_pair access_digest refresh_digest a r db =
    elim (insert_new access_digest a db.access_tokens) [
      | none ↦ none
      | some as' ↦ elim (insert_new refresh_digest r db.refresh_tokens) [
        | none ↦ none
        | some rs ↦ some (record db { access_tokens = as'; refresh_tokens = rs })
      ]
    ]

-- The end of the block of a token request: the token, or the error of an insert.
abbrev pub settle_token : OAuthToken → (work : OAuthDb) → Option OAuthDb → OAuthDb × TokenResult
settle_token t work none = (work, database_error)
settle_token t work (some db) = (db, token t)

abbrev pub access_of_code : ℕ → Text → Text → CodeRow → AccessRow
access_of_code deadline policy family r = record {
  client_id = r.client_id;
  scopes = r.scopes;
  expires_at = deadline;
  resource = r.resource;
  subject = r.subject;
  policy_fingerprint = policy;
  family_id = family;
  revoked_at = none;
}

abbrev pub refresh_of_code : ℕ → Text → Text → CodeRow → RefreshRow
refresh_of_code deadline policy family r = record {
  client_id = r.client_id;
  scopes = r.scopes;
  expires_at = deadline;
  resource = r.resource;
  subject = r.subject;
  policy_fingerprint = policy;
  family_id = family;
  generation = 0;
  consumed_at = none;
  revoked_at = none;
}

module _ (digest : Text → Text) where
  -- `consumed_at` is NULL in a new row; no answer means an `sqlite3.Error`.
  unfoldable pub issue_authorization_code : (raw : Text) → CodeRow → OAuthDb → OAuthDb × Option Text
  unfolding insert_new
  issue_authorization_code raw row db =
      elim (insert_new (digest raw) (record row { consumed_at = none }) db.codes) [
        | none ↦ (db, none)
        | some codes ↦ (record db { codes = codes }, some raw)
      ]

  abbrev pub loaded_code :
      ℕ → (raw client_id policy : Text) → Option CodeRow → Option BrokerAuthorizationCode
  loaded_code now raw client_id policy none = none
  loaded_code now raw client_id policy (some r) =
      if refuses_code now client_id policy r
      then none
      else some (record {
        code = raw;
        client_id = r.client_id;
        scopes = r.scopes;
        expires_at = r.expires_at;
        code_challenge = r.code_challenge;
        redirect_uri = r.redirect_uri;
        redirect_uri_provided_explicitly = r.redirect_uri_explicit;
        resource = r.resource;
        subject = r.subject;
        digest = digest raw;
        policy_fingerprint = r.policy_fingerprint;
      })

  unfoldable pub load_authorization_code :
      ℕ → (raw client_id policy : Text) → OAuthDb → Option BrokerAuthorizationCode
  load_authorization_code now raw client_id policy db =
      loaded_code now raw client_id policy (lookup (digest raw) db.codes)

  -- The block of the exchange, on the row that the presented code names.
  abbrev pub exchange_code_block :
      (now access_ttl refresh_ttl : ℕ)
      → (access_raw refresh_raw family code_digest client_id policy : Text) → Option CodeRow
      → OAuthDb
      → OAuthDb × TokenResult
  exchange_code_block now access_ttl refresh_ttl access_raw refresh_raw family k client_id policy
        none db =
      (db, invalid_grant)
  exchange_code_block now access_ttl refresh_ttl access_raw refresh_raw family k client_id policy
        (some r) db =
      if refuses_code now client_id policy r
      then (db, invalid_grant)
      else (let work : OAuthDb = record db {
        codes = insert k (record r { consumed_at = some now }) db.codes;
      } in
          settle_token
            (record {
              access_token = access_raw;
              expires_in = access_ttl;
              scope = join_scopes r.scopes;
              refresh_token = refresh_raw;
            })
            work
            (insert_pair (digest access_raw) (digest refresh_raw)
              (access_of_code (now + access_ttl) policy family r)
              (refresh_of_code (now + refresh_ttl) policy family r) work))

  unfoldable pub exchange_code_row :
      (now access_ttl refresh_ttl : ℕ)
      → (access_raw refresh_raw family code_digest client_id policy : Text) → Option CodeRow
      → OAuthDb
      → OAuthDb × TokenResult
  unfolding insert_pair
  exchange_code_row now access_ttl refresh_ttl access_raw refresh_raw family k client_id policy o
        db =
      with_connection db (
        exchange_code_block now access_ttl refresh_ttl access_raw refresh_raw family k client_id
          policy o db)

  unfoldable pub exchange_authorization_code :
      (now access_ttl refresh_ttl : ℕ)
      → (access_raw refresh_raw family : Text) → BrokerAuthorizationCode
      → (policy : Text) → OAuthDb
      → OAuthDb × TokenResult
  unfolding exchange_code_row
  exchange_authorization_code now access_ttl refresh_ttl access_raw refresh_raw family code policy
        db =
      exchange_code_row now access_ttl refresh_ttl access_raw refresh_raw family code.digest
        code.client_id policy (lookup code.digest db.codes) db
