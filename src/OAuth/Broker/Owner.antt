-- ===== src/OAuth/Broker/Owner.antt =====
-- The callback of src/syllva/mcp/transports/oauth.py issues a code only to the verified owner.
mod Parts
pub use Parts.{IsOwner, IsPromoted, CodeIssued}
use syllva.Prelude.{
  ℕ, Text, teq, true, false, ◌&&◌, Option, none, some, ◌≡◌, ◌⊎◌, refl, arith, inl, inr, Bool-cases,
  Option-cases, ltb, leb,
}
use syllva.Prelude.Dict.{lookup, lookup-insert_self, insert_new, insert_new_lem, count_values}
use syllva.OAuth.{OAuthDb, CodeRow, ClientRow}
use syllva.OAuth.Codes.{issue_authorization_code}
use syllva.OAuth.Clients.{
  promote_client, promote_row, is_pending, is_stale, is_durable, durable_client_cap,
}
use syllva.OAuth.Broker.{
  BrokerSettings, Broker, LoginTransaction, consume_transaction, unless_expired, pending_client_ttl,
}
use syllva.OAuth.Broker.Google.{
  Google, Claims, given, Verified, subject, owner_denied, unavailable, check_claims, subject_of,
  verify_google_identity, exchange_google_code, decode_header,
}
use syllva.OAuth.Broker.Callback.{
  CallbackQuery, CallbackClock, CallbackResponse, code_issued, handle_google_callback,
  with_transaction, with_error, with_code, grant_code, code_row, verified_by, finish_login,
}
use Parts.{check_claims-IsOwner, grant_code-CodeIssued}

-- A callback that answered with a code: the login it ends, the owner's claims, the code stored.
pub record OwnerLogin (google : Google) (digest : Text → Text) (cfg : BrokerSettings)
    (clock : CallbackClock) (raw state : Text) (query : CallbackQuery) (b e : Broker)
    (response : CallbackResponse) : Type 0 where
  pub txn : LoginTransaction
  pub found : lookup state b.transactions ≡ some txn
  pub in_time : ltb txn.expires_at clock.consumed ≡ false
  pub no_error : given query.error ≡ none
  pub code : Text
  pub has_code : given query.code ≡ some code
  pub id_token : Text
  pub exchanged : exchange_google_code google code txn ≡ some id_token
  pub sub : Text
  pub owner :
      IsOwner google cfg.authorized_email txn.nonce sub
        (decode_header google id_token (google.header id_token))
  pub issued : CodeIssued digest cfg clock raw sub txn response e.db

module _ (google : Google) (digest : Text → Text) (cfg : BrokerSettings) (clock : CallbackClock)
    (raw : Text) (query : CallbackQuery) where
  -- The part of a login that follows the transaction.
  record Granted (txn : LoginTransaction) (o : Option Text) (e : OAuthDb) (r : CallbackResponse)
      : Type 0 where
    code : Text
    has_code : o ≡ some code
    id_token : Text
    exchanged : exchange_google_code google code txn ≡ some id_token
    sub : Text
    owner :
        IsOwner google cfg.authorized_email txn.nonce sub
          (decode_header google id_token (google.header id_token))
    issued : CodeIssued digest cfg clock raw sub txn r e

  verified_by-IsOwner :
      (nonce : Text) (o : Option Text) (sub : Text)
      → verified_by google digest cfg clock raw nonce o ≡ subject sub
      → (t : Text) × (o ≡ some t)
        × IsOwner google cfg.authorized_email nonce sub (decode_header google t (google.header t))
  unfolding verify_google_identity
  verified_by-IsOwner nonce none sub h = ground arith
  verified_by-IsOwner nonce (some t) sub h =
      (t, refl, check_claims-IsOwner google nonce cfg.authorized_email sub _ h)

  finish_login-CodeIssued :
      (v : Verified) (txn : LoginTransaction) (db : OAuthDb) (u c : Text) (st : Option Text)
      → (finish_login google digest cfg clock raw v txn db).1 ≡ code_issued u c st
      → (sub : Text) × (v ≡ subject sub)
        × CodeIssued digest cfg clock raw sub txn
            (finish_login google digest cfg clock raw v txn db).1
            (finish_login google digest cfg clock raw v txn db).0
  finish_login-CodeIssued owner_denied txn db u c st h = ground arith
  finish_login-CodeIssued unavailable txn db u c st h = ground arith
  finish_login-CodeIssued (subject sub) txn db u c st h =
      (sub, refl, grant_code-CodeIssued digest cfg clock raw sub txn db u c st h)

  with_code-Granted :
      (o : Option Text) (txn : LoginTransaction) (db : OAuthDb) (u c : Text) (st : Option Text)
      → (with_code google digest cfg clock raw o txn db).1 ≡ code_issued u c st
      → Granted txn o
          (with_code google digest cfg clock raw o txn db).0
          (with_code google digest cfg clock raw o txn db).1
  with_code-Granted none txn db u c st h = ground arith
  with_code-Granted (some code) txn db u c st h =
      let f = finish_login-CodeIssued _ txn db u c st h in
      let v = verified_by-IsOwner txn.nonce (exchange_google_code google code txn) f.0 f.1 in
      record {
        code = code;
        has_code = refl;
        id_token = v.0;
        exchanged = v.1;
        sub = f.0;
        owner = v.2;
        issued = f.2;
      }

  with_error-Granted :
      (o c : Option Text) (txn : LoginTransaction) (db : OAuthDb) (u k : Text) (st : Option Text)
      → (with_error google digest cfg clock raw o c txn db).1 ≡ code_issued u k st
      → (o ≡ none)
        × Granted txn c
            (with_error google digest cfg clock raw o c txn db).0
            (with_error google digest cfg clock raw o c txn db).1
  with_error-Granted none c txn db u k st h = (refl, with_code-Granted c txn db u k st h)
  with_error-Granted (some e) c txn db u k st h = ground arith

  with_transaction-Granted :
      (o : Option LoginTransaction) (db : OAuthDb) (u k : Text) (st : Option Text)
      → (with_transaction google digest cfg clock raw query o db).1 ≡ code_issued u k st
      → (txn : LoginTransaction) × (o ≡ some txn)
        × (given query.error ≡ none)
        × Granted txn
            (given query.code)
            (with_transaction google digest cfg clock raw query o db).0
            (with_transaction google digest cfg clock raw query o db).1
  with_transaction-Granted none db u k st h = ground arith
  with_transaction-Granted (some txn) db u k st h =
      let g = with_error-Granted (given query.error) (given query.code) txn db u k st h in
      (txn, refl, g.0, g.1)

  unless_expired-some :
      (now : ℕ) (o : Option LoginTransaction) (txn : LoginTransaction)
      → unless_expired now o ≡ some txn
      → (o ≡ some txn) × (ltb txn.expires_at now ≡ false)
  unless_expired-some now none txn h = ground arith
  unless_expired-some now (some t) txn h = ground arith

  -- A callback that nothing comes between answers with a code only where its state names an unexpired login, Google's response
  -- carries an ID token, and the claims of that token have the login's nonce and a verified e-mail
  -- address, the authorized one. The client is then owner-authorized, and the code is stored for the
  -- client, scopes, redirect URI and resource of the login.
  pub handle_google_callback-owner :
      (s : Text) (b : Broker) (u k : Text) (st : Option Text)
      → given query.state ≡ some s
      → (handle_google_callback google digest cfg clock raw query b).1 ≡ code_issued u k st
      → OwnerLogin google digest cfg clock raw s query b
          (handle_google_callback google digest cfg clock raw query b).0
          (handle_google_callback google digest cfg clock raw query b).1
  unfolding handle_google_callback consume_transaction
  handle_google_callback-owner s b u k st p = rw p (λ h.
      let t =
        with_transaction-Granted (unless_expired clock.consumed (lookup s b.transactions)) b.db u k
          st h in
      let f = unless_expired-some clock.consumed (lookup s b.transactions) t.0 t.1 in
      let g = t.3 in
      record {
        txn = t.0;
        found = f.0;
        in_time = f.1;
        no_error = t.2;
        code = g.code;
        has_code = g.has_code;
        id_token = g.id_token;
        exchanged = g.exchanged;
        sub = g.sub;
        owner = g.owner;
        issued = g.issued;
      })
