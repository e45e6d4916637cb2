-- ===== src/OAuth/Broker/Login.antt =====
-- The login of src/syllva/mcp/transports/oauth.py: its state serves once, and a code is issued only to
-- the verified owner.
use syllva.Prelude.{
  Text, teq_iff, teq_refl, Option, none, some, ◌≡◌, ◌⊎◌, refl, arith, inl, inr, leb,
}
use syllva.Prelude.Dict.{lookup, keep_values, lookup-keep_values-none, lookup-insert, lookup-remove}
use syllva.OAuth.Broker.{
  BrokerSettings, Broker, LoginTransaction, authorize, new_transaction, consume_transaction,
  start_broker,
}
use syllva.OAuth.Broker.Google.{Google, given}
use syllva.OAuth.Broker.Callback.{
  CallbackQuery, CallbackClock, login_invalid, handle_google_callback, with_state,
  broker_exchange_code, broker_exchange_refresh,
}
use syllva.OAuth.Broker.Steps.{
  BrokerStep, authorizes, calls_back, consumes, exchanges_code, exchanges_refresh, stores, restarts,
  Draws, Undrawn, here, next, issues_for,
}

module _ (google : Google) (digest : Text → Text) (cfg : BrokerSettings) where
  -- No login waits under the state.
  abbrev IsConsumed : Text → Broker → Type 0
  IsConsumed s b = lookup s b.transactions ≡ none

  with_state-IsConsumed :
      (clock : CallbackClock) (raw s : Text) (query : CallbackQuery) (o : Option Text) (b : Broker)
      → (o ≡ some s) ⊎ IsConsumed s b
      → IsConsumed s (with_state google digest cfg clock raw query o b).0
  unfolding consume_transaction
  with_state-IsConsumed clock raw s query none b (inl h) = ground arith
  with_state-IsConsumed clock raw s query none b (inr h) = h
  with_state-IsConsumed clock raw s query (some k) b (inl h) =
      ground (arith, lookup-remove k s b.transactions, teq_refl s)
  with_state-IsConsumed clock raw s query (some k) b (inr h) =
      ground (arith, lookup-remove k s b.transactions)

  BrokerStep-IsConsumed :
      (s : Text) {b e : Broker} (st : BrokerStep google digest cfg b e)
      → ¬ Draws google digest cfg s st
      → IsConsumed s b
      → IsConsumed s e
  unfolding authorize broker_exchange_code broker_exchange_refresh start_broker lookup
      handle_google_callback consume_transaction
  BrokerStep-IsConsumed s {b} (authorizes now later id secrets params) n h =
      let t = new_transaction cfg now id secrets params in
      let kept = keep_values (λ (u : LoginTransaction). leb later u.expires_at) b.transactions in
      let p = lookup-insert secrets.state s t kept in
      let q =
        lookup-keep_values-none (λ (u : LoginTransaction). leb later u.expires_at) s b.transactions
          h in
      ground (arith, teq_iff secrets.state s)
  BrokerStep-IsConsumed s {b} (calls_back clock raw query) n h =
      with_state-IsConsumed clock raw s query (given query.state) b (inr h)
  BrokerStep-IsConsumed s {b} (consumes now state) n h =
      ground (arith, lookup-remove state s b.transactions)
  BrokerStep-IsConsumed s (exchanges_code now a r f id code) n h = ground arith
  BrokerStep-IsConsumed s (exchanges_refresh now a r id refresh scopes) n h = ground arith
  BrokerStep-IsConsumed s (stores st m) n h = h
  BrokerStep-IsConsumed s (restarts now) n h = refl

  Undrawn-IsConsumed :
      (s : Text) {b e : Broker} → Undrawn google digest cfg s b e → IsConsumed s b → IsConsumed s e
  Undrawn-IsConsumed s here h = h
  Undrawn-IsConsumed s (issues_for raw row u) h = Undrawn-IsConsumed s u h
  Undrawn-IsConsumed s (next u st n) h = BrokerStep-IsConsumed s st n (Undrawn-IsConsumed s u h)

  with_state-invalid :
      (clock : CallbackClock) (raw s : Text) (query : CallbackQuery) (b : Broker)
      → IsConsumed s b
      → (with_state google digest cfg clock raw query (some s) b).1 ≡ login_invalid
  unfolding consume_transaction
  with_state-invalid clock raw s query b h = rw h refl

  -- A state serves one callback, whatever its answer was: after a callback that presents it, and any
  -- calls that do not draw it for a new login, a further callback with it answers the error page.
  pub handle_google_callback-single_use :
      (s : Text) (b d : Broker) (clock later : CallbackClock) (raw again : Text)
      (query repeated : CallbackQuery)
      → given query.state ≡ some s
      → given repeated.state ≡ some s
      → Undrawn google digest cfg s (handle_google_callback google digest cfg clock raw query b).0 d
      → (handle_google_callback google digest cfg later again repeated d).1 ≡ login_invalid
  unfolding handle_google_callback
  handle_google_callback-single_use s b d clock later raw again query repeated p q u = rw q (
      with_state-invalid later again s repeated d
        (Undrawn-IsConsumed s u (with_state-IsConsumed clock raw s query _ b (inl p))))
