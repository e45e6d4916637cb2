-- ===== src/OAuth/Broker.antt =====
-- `GoogleOAuthBrokerProvider` of src/syllva/mcp/transports/oauth.py: the login at Google and the calls
-- of the store that the MCP server makes through it. A call that reads the clock more than once takes
-- one time for each reading.
pub mod Google
pub mod Callback
pub mod Steps
pub mod Login
pub mod Owner
pub mod ReadOnly
mod Examples
use syllva.Prelude.{
  ℕ, ◌+◌, Text, codes, teq, Bool, true, false, ◌&&◌, ◌||◌, not, Option, none, some, List, [], ◌∷◌,
  leb, ltb, ◌==◌, if◌then◌else◌, length, any,
}
use syllva.Prelude.Dict.{Dict, lookup, insert, remove, keep_values}
use syllva.OAuth.{OAuthDb, CodeRow, TokenResult, invalid_grant}
use syllva.OAuth.Codes.{
  activate_policy, BrokerAuthorizationCode, issue_authorization_code, exchange_authorization_code,
}
use syllva.OAuth.Tokens.{BrokerRefreshToken, exchange_refresh_token}
use syllva.OAuth.Clients.{promote_client}

abbrev pub read_scope : Text
read_scope = codes "uls:read"

abbrev pub pending_client_ttl : ℕ
pending_client_ttl = 600

abbrev pub google_response_limit : ℕ
google_response_limit = 65536

pub record LoginTransaction : Type 0 where
  pub upstream_state : Text
  pub client_id : Text
  pub client_state : Option Text
  pub scopes : List Text
  pub code_challenge : Text
  pub redirect_uri : Text
  pub redirect_uri_provided_explicitly : Bool
  pub resource : Text
  pub nonce : Text
  pub upstream_code_verifier : Text
  pub expires_at : ℕ

-- The settings that the provider is built with, those of its identity among them.
pub record BrokerSettings : Type 0 where
  pub issuer : Text
  pub resource_uri : Text
  pub authorized_email : Text
  pub policy_fingerprint : Text
  pub access_token_ttl : ℕ
  pub refresh_token_ttl : ℕ
  pub authorization_ttl : ℕ

pub record Broker : Type 0 where
  pub db : OAuthDb
  pub transactions : Dict LoginTransaction

pub record AuthorizationParams : Type 0 where
  pub scopes : Option (List Text)
  pub state : Option Text
  pub code_challenge : Text
  pub redirect_uri : Text
  pub redirect_uri_provided_explicitly : Bool
  pub resource : Option Text

-- `login` stands for the redirect to Google, whose URL carries the state and the nonce.
pub data AuthorizeResult : Type 0 where
  login : (state nonce : Text) → AuthorizeResult
  invalid_target invalid_scope : AuthorizeResult

unfoldable pub all_read : List Text → Bool
all_read ss = not (any (λ s. not (teq read_scope s)) ss)

-- `params.scopes or [READ_SCOPE]`
abbrev pub requested_scopes : Option (List Text) → List Text
requested_scopes none = read_scope ∷ []
requested_scopes (some []) = read_scope ∷ []
requested_scopes (some (s ∷ ss)) = s ∷ ss

abbrev pub other_resource : Text → Option Text → Bool
other_resource uri none = false
other_resource uri (some r) = not (teq r uri)

-- What is drawn at random for a login.
pub record LoginSecrets : Type 0 where
  pub state : Text
  pub nonce : Text
  pub verifier : Text

unfoldable pub new_transaction :
    BrokerSettings → ℕ → (client_id : Text) → LoginSecrets → AuthorizationParams → LoginTransaction
new_transaction cfg now client_id secrets params = record {
  upstream_state = secrets.state;
  client_id = client_id;
  client_state = params.state;
  scopes = requested_scopes params.scopes;
  code_challenge = params.code_challenge;
  redirect_uri = params.redirect_uri;
  redirect_uri_provided_explicitly = params.redirect_uri_provided_explicitly;
  resource = cfg.resource_uri;
  nonce = secrets.nonce;
  upstream_code_verifier = secrets.verifier;
  expires_at = now + cfg.authorization_ttl;
}

-- `now` is read for the deadline and `later` for the transactions that are dropped.
unfoldable pub authorize :
    BrokerSettings
    → (now later : ℕ) → (client_id : Text) → LoginSecrets
    → AuthorizationParams
    → Broker
    → Broker × AuthorizeResult
unfolding all_read new_transaction
authorize cfg now later client_id secrets params b =
    if other_resource cfg.resource_uri params.resource
    then (b, invalid_target)
    else if not (all_read (requested_scopes params.scopes))
    then (b, invalid_scope)
    else (
      record b {
        transactions =
            insert secrets.state (new_transaction cfg now client_id secrets params)
              (keep_values (λ t. leb later t.expires_at) b.transactions);
      },
      login secrets.state secrets.nonce,
    )

abbrev pub unless_expired : ℕ → Option LoginTransaction → Option LoginTransaction
unless_expired now none = none
unless_expired now (some t) = if ltb t.expires_at now then none else some t

unfoldable pub consume_transaction : ℕ → Text → Broker → Broker × Option LoginTransaction
consume_transaction now state b = (
  record b { transactions = remove state b.transactions },
  unless_expired now (lookup state b.transactions),
)

-- A provider on a database: nothing is being logged in.
unfoldable pub start_broker : BrokerSettings → ℕ → OAuthDb → Broker
start_broker cfg now db = record {
  db = activate_policy cfg.policy_fingerprint now db;
  transactions = [];
}
