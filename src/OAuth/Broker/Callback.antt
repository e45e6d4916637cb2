-- ===== src/OAuth/Broker/Callback.antt =====
-- `handle_google_callback` of src/syllva/mcp/transports/oauth.py, and the two exchanges of its provider.
use syllva.Prelude.{ℕ, ◌+◌, Text, teq, ◌||◌, not, Option, none, some, List, if◌then◌else◌}
use syllva.OAuth.{OAuthDb, CodeRow, TokenResult, invalid_grant}
use syllva.OAuth.Codes.{
  BrokerAuthorizationCode, issue_authorization_code, exchange_authorization_code,
}
use syllva.OAuth.Tokens.{BrokerRefreshToken, exchange_refresh_token}
use syllva.OAuth.Clients.{promote_client}
use syllva.OAuth.Broker.{
  Broker, BrokerSettings, LoginTransaction, pending_client_ttl, consume_transaction,
}
use syllva.OAuth.Broker.Google.{
  Google, Verified, subject, owner_denied, unavailable, given, exchange_google_code,
  verify_google_identity,
}

pub record CallbackQuery : Type 0 where
  pub state : Option Text
  pub error : Option Text
  pub code : Option Text

pub data ClientError : Type 0 where
  access_denied server_error : ClientError

-- The local error page, or a redirect to the client with an error or with a code.
pub data CallbackResponse : Type 0 where
  login_invalid : CallbackResponse
  client_error :
      (redirect_uri : Text) → ClientError → (client_state : Option Text) → CallbackResponse
  code_issued : (redirect_uri code : Text) → (client_state : Option Text) → CallbackResponse

abbrev pub refuse : LoginTransaction → ClientError → CallbackResponse
refuse txn e = client_error txn.redirect_uri e txn.client_state

-- The clock of one callback: at the login's deadline, at the promotion and at the code's deadline.
pub record CallbackClock : Type 0 where
  pub consumed : ℕ
  pub promoted : ℕ
  pub issued : ℕ

abbrev pub code_row : BrokerSettings → ℕ → (subject : Text) → LoginTransaction → CodeRow
code_row cfg now sub txn = record {
  client_id = txn.client_id;
  scopes = txn.scopes;
  expires_at = now + cfg.authorization_ttl;
  code_challenge = txn.code_challenge;
  redirect_uri = txn.redirect_uri;
  redirect_uri_explicit = txn.redirect_uri_provided_explicitly;
  resource = txn.resource;
  subject = sub;
  policy_fingerprint = cfg.policy_fingerprint;
  consumed_at = none;
}

abbrev pub answer_code : LoginTransaction → Option Text → CallbackResponse
answer_code txn none = refuse txn server_error
answer_code txn (some raw) = code_issued txn.redirect_uri raw txn.client_state

-- The end of a callback whose subject is verified: promotion, then the code.
unfoldable pub grant_code :
    (digest : Text → Text)
    → BrokerSettings
    → CallbackClock
    → (raw subject : Text) → LoginTransaction
    → OAuthDb
    → OAuthDb × CallbackResponse
unfolding promote_client issue_authorization_code
grant_code digest cfg clock raw sub txn db =
    let promotion = promote_client clock.promoted pending_client_ttl txn.client_id db in
    let issue =
      issue_authorization_code digest raw (code_row cfg clock.issued sub txn) promotion.0 in
    if promotion.1
    then (issue.0, answer_code txn issue.1)
    else (promotion.0, refuse txn server_error)

module _ (google : Google) (digest : Text → Text) (cfg : BrokerSettings) (clock : CallbackClock)
    (raw : Text) where
  abbrev pub finish_login : Verified → LoginTransaction → OAuthDb → OAuthDb × CallbackResponse
  finish_login owner_denied txn db = (db, refuse txn access_denied)
  finish_login unavailable txn db = (db, refuse txn server_error)
  finish_login (subject sub) txn db = grant_code digest cfg clock raw sub txn db

  abbrev pub verified_by : (nonce : Text) → Option Text → Verified
  verified_by nonce none = unavailable
  verified_by nonce (some t) = verify_google_identity google cfg nonce t

  abbrev pub with_code : Option Text → LoginTransaction → OAuthDb → OAuthDb × CallbackResponse
  with_code none txn db = (db, refuse txn server_error)
  with_code (some code) txn db =
      finish_login (verified_by txn.nonce (exchange_google_code google code txn)) txn db

  abbrev pub with_error :
      (error code : Option Text) → LoginTransaction → OAuthDb → OAuthDb × CallbackResponse
  with_error none code txn db = with_code code txn db
  with_error (some e) code txn db = (db, refuse txn access_denied)

  abbrev pub with_transaction :
      CallbackQuery → Option LoginTransaction → OAuthDb → OAuthDb × CallbackResponse
  with_transaction query none db = (db, login_invalid)
  with_transaction query (some txn) db = with_error (given query.error) (given query.code) txn db

  abbrev pub with_state : CallbackQuery → Option Text → Broker → Broker × CallbackResponse
  with_state query none b = (b, login_invalid)
  with_state query (some state) b =
      let consumed = consume_transaction clock.consumed state b in
      let answer = with_transaction query consumed.1 consumed.0.db in
      (record (consumed.0) { db = answer.0 }, answer.1)

  -- A callback that runs undisturbed. The source awaits between the parts `consume_transaction`,
  -- `verified_by`, `promote_client` and `issue_authorization_code`, each of which is atomic.
  unfoldable pub handle_google_callback : CallbackQuery → Broker → Broker × CallbackResponse
  unfolding consume_transaction verify_google_identity exchange_google_code grant_code
  handle_google_callback query b = with_state query (given query.state) b

-- The two exchanges behind the provider's guards.
unfoldable pub broker_exchange_code :
    (digest : Text → Text)
    → BrokerSettings
    → ℕ
    → (access_raw refresh_raw family client_id : Text) → BrokerAuthorizationCode
    → Broker
    → Broker × TokenResult
broker_exchange_code digest cfg now access_raw refresh_raw family client_id code b =
    if not (teq code.client_id client_id) || not (teq code.resource cfg.resource_uri)
    then (b, invalid_grant)
    else let answer =
        exchange_authorization_code digest now cfg.access_token_ttl cfg.refresh_token_ttl access_raw
          refresh_raw family code cfg.policy_fingerprint b.db in
      (record b { db = answer.0 }, answer.1)

unfoldable pub broker_exchange_refresh :
    (digest : Text → Text)
    → BrokerSettings
    → ℕ
    → (access_raw refresh_raw client_id : Text) → BrokerRefreshToken
    → (scopes : List Text) → Broker
    → Broker × TokenResult
broker_exchange_refresh digest cfg now access_raw refresh_raw client_id refresh scopes b =
    if not (teq refresh.client_id client_id) || not (teq refresh.resource cfg.resource_uri)
    then (b, invalid_grant)
    else let answer =
        exchange_refresh_token digest now cfg.access_token_ttl cfg.refresh_token_ttl access_raw
          refresh_raw refresh scopes cfg.policy_fingerprint b.db in
      (record b { db = answer.0 }, answer.1)
