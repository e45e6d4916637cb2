-- ===== src/OAuth/Broker/Examples.antt =====
-- A login of the owner, with a Google that answers for one account.
use syllva.OAuth.Codes.{activate_policy}
use syllva.Prelude.Dict.{count_values, insert, keep_values, lookup, map_values}
use syllva.Prelude.{Text, codes, true, none, some, ◌≡◌, refl, any, teq}
use syllva.OAuth.{empty_db}
use syllva.OAuth.Clients.{register_client}
use syllva.OAuth.Steps.{registers}
use syllva.OAuth.Broker.{
  BrokerSettings, Broker, AuthorizationParams, LoginSecrets, authorize, start_broker,
}
use syllva.OAuth.Broker.Google.{Google, Claims}
use syllva.OAuth.Broker.Callback.{
  CallbackQuery, CallbackClock, CallbackResponse, login_invalid, code_issued,
  handle_google_callback,
}
use syllva.OAuth.Broker.Steps.{authorizes, calls_back, stores, BrokerReach, Undrawn}
use syllva.OAuth.Broker.Login.{handle_google_callback-single_use}
use syllva.OAuth.Broker.Owner.{OwnerLogin, handle_google_callback-owner}
use syllva.OAuth.Broker.ReadOnly.{OnlyReads, BrokerReach-OnlyReads}

abbrev id : Text → Text
id t = t

abbrev cfg : BrokerSettings
cfg = record {
  issuer = codes "i";
  resource_uri = codes "r";
  authorized_email = codes "me";
  policy_fingerprint = codes "p";
  access_token_ttl = 100;
  refresh_token_ttl = 1000;
  authorization_ttl = 300;
}

abbrev claims : Claims
claims = record {
  nonce = codes "n";
  email = some (codes "me");
  email_verified = true;
  sub = some (codes "o");
}

abbrev google : Google
google = record {
  post = λ c v. some (record { status = 200; body = c });
  id_token = some;
  header = λ t. some (record { alg = some (codes "RS256"); kid = some (codes "1") });
  signing_key = some;
  decode = λ t k a. some claims;
  normalize = id;
}

abbrev params : AuthorizationParams
params = record {
  scopes = none;
  state = some (codes "cs");
  code_challenge = codes "h";
  redirect_uri = codes "u";
  redirect_uri_provided_explicitly = true;
  resource = none;
}

abbrev secrets : LoginSecrets
secrets = record { state = codes "st"; nonce = codes "n"; verifier = codes "v" }

abbrev started : Broker
started = start_broker cfg 1 empty_db

abbrev registered : Broker
registered = record started { db = (register_client 5 600 (codes "c") (codes "{}") started.db).0 }

abbrev logging_in : Broker
logging_in = (authorize cfg 10 11 (codes "c") secrets params registered).0

abbrev clock : CallbackClock
clock = record { consumed = 20; promoted = 21; issued = 22 }

abbrev query : CallbackQuery
query = record { state = some (codes "st"); error = none; code = some (codes "gc") }

abbrev logged_in : Broker × CallbackResponse
logged_in = handle_google_callback google id cfg clock (codes "k") query logging_in

logged_in-code : logged_in.1 ≡ code_issued (codes "u") (codes "k") (some (codes "cs"))
unfolding handle_google_callback lookup authorize any teq insert keep_values start_broker
    register_client count_values activate_policy map_values
logged_in-code = refl

handle_google_callback-owner_example :
    OwnerLogin google id cfg clock (codes "k") (codes "st") query logging_in logged_in.0 logged_in.1
handle_google_callback-owner_example =
    handle_google_callback-owner google id cfg clock (codes "k") query (codes "st") logging_in
      (codes "u") (codes "k") (some (codes "cs")) refl logged_in-code

handle_google_callback-single_use_example :
    (handle_google_callback google id cfg clock (codes "k2") query logged_in.0).1 ≡ login_invalid
handle_google_callback-single_use_example =
    handle_google_callback-single_use google id cfg (codes "st") logging_in logged_in.0 clock clock
      (codes "k") (codes "k2") query query refl refl Undrawn.here

logged_in-BrokerReach : BrokerReach google id cfg started logged_in.0
logged_in-BrokerReach =
    BrokerReach.next
      (BrokerReach.next
        (BrokerReach.next BrokerReach.here
          (stores (registers 5 600 (codes "c") (codes "{}")) (λ row n. n)))
        (authorizes 10 11 (codes "c") secrets params))
      (calls_back clock (codes "k") query)

BrokerReach-OnlyReads_example : OnlyReads (codes "r") logged_in.0
BrokerReach-OnlyReads_example =
    BrokerReach-OnlyReads google id cfg 1 logged_in.0 logged_in-BrokerReach
