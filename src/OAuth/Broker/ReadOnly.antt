-- ===== src/OAuth/Broker/ReadOnly.antt =====
-- Every grant of src/syllva/mcp/transports/oauth.py is for the read scope and the server's resource.
mod Grants
pub use Grants.{IsReadOnly}
use syllva.Prelude.{
  ℕ, Text, teq, teq_iff, teq_refl, Bool, true, false, ◌||◌, ◌&&◌, not, Option, none, some, List, [],
  ◌∷◌, ◌≡◌, refl, subst, arith, inl, inr, Bool-cases, ltb, leb, any,
}
use syllva.Prelude.Dict.{
  lookup, every_value, every-insert, every-remove, every-keep_values, every-map_values,
  every-lookup, map_values,
}
use syllva.OAuth.{OAuthDb, CodeRow, RefreshRow, AccessRow, empty_db}
use syllva.OAuth.Codes.{
  issue_authorization_code, activate_policy, retire_code, retire_refresh, retire_access,
}
use syllva.OAuth.Clients.{promote_client}
use syllva.OAuth.Tokens.{revoke_family, revoke_refresh, revoke_access, exceeds}
use syllva.OAuth.Effects.{
  Effect, keeps, retires, revokes_family, issues_code, grants_code, grants_refresh, Step-Effect,
}
use syllva.OAuth.Steps.{Step, Issues, promotes, issues, exchanges, refreshes}
use syllva.OAuth.Broker.{
  BrokerSettings, Broker, AuthorizationParams, LoginSecrets, LoginTransaction, read_scope, all_read,
  requested_scopes, authorize, new_transaction, other_resource, unless_expired, consume_transaction,
  start_broker, pending_client_ttl,
}
use syllva.OAuth.Broker.Google.{Google, Verified, subject, owner_denied, unavailable, given}
use syllva.OAuth.Broker.Callback.{
  CallbackQuery, CallbackClock, code_row, grant_code, finish_login, with_error, with_transaction,
  with_state, handle_google_callback, broker_exchange_code, broker_exchange_refresh,
}
use syllva.OAuth.Broker.Steps.{
  BrokerStep, authorizes, calls_back, consumes, exchanges_code, exchanges_refresh, stores, restarts,
  BrokerReach, here, next, issues_for,
}
use Grants.{is_granted, code_granted, activate_policy-IsReadOnly, Step-IsReadOnly}

abbrev txn_granted : Text → LoginTransaction → Bool
txn_granted uri t = is_granted uri t.scopes t.resource

-- The same of the database, and of the logins that are under way.
pub record OnlyReads (uri : Text) (b : Broker) : Type 0 where
  pub grants : IsReadOnly uri b.db
  pub logins : every_value (txn_granted uri) b.transactions ≡ true

module _ (google : Google) (digest : Text → Text) (cfg : BrokerSettings) where
  issue-IsReadOnly :
      (clock : CallbackClock) (raw sub : Text) (txn : LoginTransaction) (db : OAuthDb)
      → txn_granted cfg.resource_uri txn ≡ true
      → IsReadOnly cfg.resource_uri db
      → IsReadOnly cfg.resource_uri
          (issue_authorization_code digest raw (code_row cfg clock.issued sub txn) db).0
  issue-IsReadOnly clock raw sub txn db g w =
      Step-IsReadOnly cfg.resource_uri digest {db = db}
        (issues raw (code_row cfg clock.issued sub txn))
        (λ r h. subst (λ x. code_granted cfg.resource_uri x ≡ true) h g) w

  grant_code-IsReadOnly :
      (clock : CallbackClock) (raw sub : Text) (txn : LoginTransaction) (db : OAuthDb)
      → txn_granted cfg.resource_uri txn ≡ true
      → IsReadOnly cfg.resource_uri db
      → IsReadOnly cfg.resource_uri (grant_code digest cfg clock raw sub txn db).0
  unfolding grant_code
  grant_code-IsReadOnly clock raw sub txn db g w =
      let p =
        Step-IsReadOnly cfg.resource_uri digest {db = db}
          (promotes clock.promoted pending_client_ttl txn.client_id) (λ r n. absurd n) w in
      let q = issue-IsReadOnly clock raw sub txn _ g p in
      elim (Bool-cases (promote_client clock.promoted pending_client_ttl txn.client_id db).1) [
        | inl e ↦ rw e q
        | inr e ↦ rw e p
      ]

  finish_login-IsReadOnly :
      (clock : CallbackClock) (raw : Text) (v : Verified) (txn : LoginTransaction) (db : OAuthDb)
      → txn_granted cfg.resource_uri txn ≡ true
      → IsReadOnly cfg.resource_uri db
      → IsReadOnly cfg.resource_uri (finish_login google digest cfg clock raw v txn db).0
  finish_login-IsReadOnly clock raw owner_denied txn db g w = w
  finish_login-IsReadOnly clock raw unavailable txn db g w = w
  finish_login-IsReadOnly clock raw (subject sub) txn db g w =
      grant_code-IsReadOnly clock raw sub txn db g w

  with_code-IsReadOnly :
      (clock : CallbackClock) (raw : Text) (code error : Option Text) (txn : LoginTransaction)
      (db : OAuthDb)
      → txn_granted cfg.resource_uri txn ≡ true
      → IsReadOnly cfg.resource_uri db
      → IsReadOnly cfg.resource_uri (with_error google digest cfg clock raw error code txn db).0
  with_code-IsReadOnly clock raw code (some e) txn db g w = w
  with_code-IsReadOnly clock raw none none txn db g w = w
  with_code-IsReadOnly clock raw (some code) none txn db g w =
      finish_login-IsReadOnly clock raw _ txn db g w

  with_transaction-IsReadOnly :
      (clock : CallbackClock) (raw : Text) (query : CallbackQuery) (found : Option LoginTransaction)
      (db : OAuthDb)
      → ((txn : LoginTransaction) → found ≡ some txn → txn_granted cfg.resource_uri txn ≡ true)
      → IsReadOnly cfg.resource_uri db
      → IsReadOnly cfg.resource_uri
          (with_transaction google digest cfg clock raw query
            (unless_expired clock.consumed found)
            db).0
  with_transaction-IsReadOnly clock raw query none db g w = w
  with_transaction-IsReadOnly clock raw query (some t) db g w =
      elim (Bool-cases (ltb t.expires_at clock.consumed)) [
        | inl e ↦ rw e w
        | inr e ↦ rw e (
            with_code-IsReadOnly clock raw (given query.code) (given query.error) t db (g t refl) w)
      ]

  with_state-OnlyReads :
      (clock : CallbackClock) (raw : Text) (query : CallbackQuery) (o : Option Text) (b : Broker)
      → OnlyReads cfg.resource_uri b
      → OnlyReads cfg.resource_uri (with_state google digest cfg clock raw query o b).0
  unfolding consume_transaction
  with_state-OnlyReads clock raw query none b w = w
  with_state-OnlyReads clock raw query (some s) b w = record {
    grants =
        with_transaction-IsReadOnly clock raw query (lookup s b.transactions) b.db
          (λ t h. every-lookup (txn_granted cfg.resource_uri) s t b.transactions w.logins h)
          w.grants;
    logins = every-remove (txn_granted cfg.resource_uri) s b.transactions w.logins;
  }

  authorize-OnlyReads :
      (now later : ℕ) (id : Text) (secrets : LoginSecrets) (params : AuthorizationParams)
      (b : Broker)
      → OnlyReads cfg.resource_uri b
      → OnlyReads cfg.resource_uri (authorize cfg now later id secrets params b).0
  unfolding authorize new_transaction
  authorize-OnlyReads now later id secrets params b w =
      elim (Bool-cases (other_resource cfg.resource_uri params.resource)) [
        | inl e ↦ rw e w
        | inr e ↦ elim (Bool-cases (all_read (requested_scopes params.scopes))) [
          | inr r ↦ rw (e, r) w
          | inl r ↦
              rw (e, r)
                (record {
                  grants = w.grants;
                  logins =
                      every-insert (txn_granted cfg.resource_uri) _ _ _
                        (ground (arith, teq_refl cfg.resource_uri))
                        (every-keep_values (txn_granted cfg.resource_uri)
                          (λ t. leb later t.expires_at) b.transactions w.logins);
                })
        ]
      ]

  BrokerStep-OnlyReads :
      {b e : Broker}
      → BrokerStep google digest cfg b e
      → OnlyReads cfg.resource_uri b
      → OnlyReads cfg.resource_uri e
  unfolding broker_exchange_code broker_exchange_refresh start_broker handle_google_callback
      every_value
  BrokerStep-OnlyReads {b} (authorizes now later id secrets params) w =
      authorize-OnlyReads now later id secrets params b w
  BrokerStep-OnlyReads {b} (calls_back clock raw query) w =
      with_state-OnlyReads clock raw query (given query.state) b w
  BrokerStep-OnlyReads {b} (consumes now s) w =
      unfold consume_transaction in
      record {
        grants = w.grants;
        logins = every-remove (txn_granted cfg.resource_uri) s b.transactions w.logins;
      }
  BrokerStep-OnlyReads {b} (exchanges_code now a r f id code) w =
      let g =
        Step-IsReadOnly cfg.resource_uri digest {db = b.db}
          (exchanges now cfg.access_token_ttl cfg.refresh_token_ttl a r f code
            cfg.policy_fingerprint)
          (λ row n. absurd n) w.grants in
      elim (Bool-cases (not (teq code.client_id id) || not (teq code.resource cfg.resource_uri))) [
        | inl e ↦ rw e w
        | inr e ↦ rw e (record { grants = g; logins = w.logins })
      ]
  BrokerStep-OnlyReads {b} (exchanges_refresh now a r id refresh scopes) w =
      let g =
        Step-IsReadOnly cfg.resource_uri digest {db = b.db}
          (refreshes now cfg.access_token_ttl cfg.refresh_token_ttl a r refresh scopes
            cfg.policy_fingerprint)
          (λ row n. absurd n) w.grants in
      elim (Bool-cases
        (not (teq refresh.client_id id) || not (teq refresh.resource cfg.resource_uri))) [
          | inl e ↦ rw e w
          | inr e ↦ rw e (record { grants = g; logins = w.logins })
        ]
  BrokerStep-OnlyReads {b} (stores st n) w = record {
    grants = Step-IsReadOnly cfg.resource_uri digest st (λ row i. absurd (n row i)) w.grants;
    logins = w.logins;
  }
  BrokerStep-OnlyReads {b} (restarts now) w = record {
    grants = activate_policy-IsReadOnly cfg.resource_uri cfg.policy_fingerprint now b.db w.grants;
    logins = refl;
  }

  -- From a provider on an empty database, whatever calls are made and whatever Google answers, every
  -- code, every access token and every refresh token in the database, and every login under way, has no
  -- scope but the read scope, and the server's resource.
  pub BrokerReach-OnlyReads :
      (start : ℕ) (b : Broker)
      → BrokerReach google digest cfg (start_broker cfg start empty_db) b
      → OnlyReads cfg.resource_uri b
  unfolding start_broker every_value activate_policy map_values
  BrokerReach-OnlyReads start b here = record {
    grants = record { codes = refl; refresh_tokens = refl; access_tokens = refl };
    logins = refl;
  }
  BrokerReach-OnlyReads start b (next {d = d} r st) =
      BrokerStep-OnlyReads st (BrokerReach-OnlyReads start d r)
  BrokerReach-OnlyReads start b (issues_for {d = d} {e = e} s txn clock raw sub r login at) =
      let w = BrokerReach-OnlyReads start d r in
      let v = BrokerReach-OnlyReads start e login in
      record {
        grants =
            issue-IsReadOnly clock raw sub txn d.db
              (every-lookup (txn_granted cfg.resource_uri) s txn e.transactions v.logins at)
              w.grants;
        logins = w.logins;
      }
