-- ===== src/OAuth/Broker/Steps.antt =====
-- The calls of `GoogleOAuthBrokerProvider` (src/syllva/mcp/transports/oauth.py) as a relation.
use syllva.Prelude.{ℕ, Text, List, some, ◌≡◌}
use syllva.Prelude.Dict.{lookup}
use syllva.OAuth.{OAuthDb, CodeRow}
use syllva.OAuth.Codes.{BrokerAuthorizationCode, issue_authorization_code}
use syllva.OAuth.Tokens.{BrokerRefreshToken}
use syllva.OAuth.Steps.{Step, Issues}
use syllva.OAuth.Broker.{
  BrokerSettings, Broker, AuthorizationParams, LoginSecrets, LoginTransaction, authorize,
  consume_transaction, start_broker,
}
use syllva.OAuth.Broker.Google.{Google}
use syllva.OAuth.Broker.Callback.{
  CallbackQuery, CallbackClock, code_row, handle_google_callback, broker_exchange_code,
  broker_exchange_refresh,
}

module _ (google : Google) (digest : Text → Text) (cfg : BrokerSettings) where
  -- `calls_back` is a callback that nothing comes between. One whose awaits others run between is
  -- `consumes`, then the store's `promotes`, and then the code under `issues_for` below. `stores` is a call that the provider passes on to the store as it is; the provider stores a code
  -- in the callback only. `restarts` is a new provider on the same database.
  pub data BrokerStep (b : Broker) : Broker → Type 0 where
    authorizes :
        (now later : ℕ) (client_id : Text) (secrets : LoginSecrets) (params : AuthorizationParams)
        → BrokerStep b (authorize cfg now later client_id secrets params b).0
    calls_back :
        (clock : CallbackClock) (raw : Text) (query : CallbackQuery)
        → BrokerStep b (handle_google_callback google digest cfg clock raw query b).0
    consumes : (now : ℕ) (state : Text) → BrokerStep b (consume_transaction now state b).0
    exchanges_code :
        (now : ℕ) (access_raw refresh_raw family client_id : Text) (code : BrokerAuthorizationCode)
        → BrokerStep b
            (broker_exchange_code digest cfg now access_raw refresh_raw family client_id code b).0
    exchanges_refresh :
        (now : ℕ) (access_raw refresh_raw client_id : Text) (refresh : BrokerRefreshToken)
        (scopes : List Text)
        → BrokerStep b
            (broker_exchange_refresh digest cfg now access_raw refresh_raw client_id refresh scopes
              b).0
    stores :
        {e : OAuthDb} (st : Step digest b.db e)
        → ((row : CodeRow) → ¬ Issues digest row st)
        → BrokerStep b (record b { db = e })
    restarts : (now : ℕ) → BrokerStep b (start_broker cfg now b.db)

  -- Does this call draw this state for a login?
  abbrev pub Draws : (s : Text) {b e : Broker} → BrokerStep b e → Type 0
  Draws s (authorizes now later client_id secrets params) = secrets.state ≡ s
  Draws s (calls_back clock raw query) = ⊥
  Draws s (consumes now state) = ⊥
  Draws s (exchanges_code now access_raw refresh_raw family client_id code) = ⊥
  Draws s (exchanges_refresh now access_raw refresh_raw client_id refresh scopes) = ⊥
  Draws s (stores st n) = ⊥
  Draws s (restarts now) = ⊥

  pub data BrokerReach (b : Broker) : Broker → Type 0 where
    here : BrokerReach b b
    next : {d e : Broker} → BrokerReach b d → BrokerStep d e → BrokerReach b e
    -- The end of a callback, for a login that waits in any state of that kind.
    issues_for :
        {d e : Broker} (s : Text) (txn : LoginTransaction) (clock : CallbackClock) (raw sub : Text)
        → BrokerReach b d
        → BrokerReach b e
        → lookup s e.transactions ≡ some txn
        → BrokerReach b (record d {
          db = (issue_authorization_code digest raw (code_row cfg clock.issued sub txn) d.db).0;
        })

  -- Calls that follow one another, none of which draws the state `s`.
  pub data Undrawn (s : Text) (b : Broker) : Broker → Type 0 where
    here : Undrawn s b b
    next : {d e : Broker} → Undrawn s b d → (st : BrokerStep d e) → ¬ Draws s st → Undrawn s b e
    issues_for :
        {d : Broker} (raw : Text) (row : CodeRow)
        → Undrawn s b d
        → Undrawn s b (record d { db = (issue_authorization_code digest raw row d.db).0 })
