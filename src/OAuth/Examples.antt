-- ===== src/OAuth/Examples.antt =====
-- Runs of the OAuth store and of its broker, with a text as its own digest.
use syllva.Prelude.{Text, codes, true, none, some, [], ◌∷◌, ◌≡◌, refl, any, teq, inr}
use syllva.Prelude.Dict.{lookup, insert}
use syllva.OAuth.{OAuthDb, CodeRow, RefreshRow, OAuthToken, TokenResult, token, empty_db}
use syllva.OAuth.Codes.{
  BrokerAuthorizationCode, issue_authorization_code, exchange_authorization_code,
}
use syllva.OAuth.Tokens.{
  BrokerRefreshToken, load_refresh_token, exchange_refresh_token, revoke_token,
}
use syllva.OAuth.Clients.{register_client}
use syllva.OAuth.Steps.{Reach, Later, registers}
use syllva.OAuth.SingleUse.{
  exchange_authorization_code-single_use, exchange_refresh_token-single_use,
}
use syllva.OAuth.Families.{IsSilent, IsOfFamily, load_refresh_token-reuse, revoke_token-ends}
use syllva.OAuth.Outcomes.{NoToken}
use syllva.OAuth.RoundTrip.{IsRefreshed, exchange_refresh_token-loads}
use syllva.OAuth.Caps.{WithinCaps, Reach-WithinCaps}

abbrev id : Text → Text
id t = t

abbrev sample_row : CodeRow
sample_row = record {
  client_id = codes "c";
  scopes = codes "uls:read" ∷ [];
  expires_at = 600;
  code_challenge = codes "h";
  redirect_uri = codes "u";
  redirect_uri_explicit = true;
  resource = codes "r";
  subject = codes "s";
  policy_fingerprint = codes "p";
  consumed_at = none;
}

abbrev code : BrokerAuthorizationCode
code = record {
  code = codes "k";
  client_id = codes "c";
  scopes = codes "uls:read" ∷ [];
  expires_at = 600;
  code_challenge = codes "h";
  redirect_uri = codes "u";
  redirect_uri_provided_explicitly = true;
  resource = codes "r";
  subject = codes "s";
  digest = codes "k";
  policy_fingerprint = codes "p";
}

abbrev issued : OAuthDb
issued = (issue_authorization_code id (codes "k") sample_row empty_db).0

abbrev granted : OAuthDb × TokenResult
granted =
    exchange_authorization_code id 10 100 1000 (codes "a") (codes "f") (codes "fam") code
      (codes "p") issued

abbrev first_token : OAuthToken
first_token = record {
  access_token = codes "a";
  expires_in = 100;
  scope = codes "uls:read";
  refresh_token = codes "f";
}

granted-token : granted.1 ≡ token first_token
unfolding exchange_authorization_code lookup issue_authorization_code insert teq
granted-token = refl

exchange_authorization_code-single_use_example :
    NoToken
      (exchange_authorization_code id 20 100 1000
        (codes "a2")
        (codes "f2")
        (codes "fam2")
        code
        (codes "p")
        granted.0).1
exchange_authorization_code-single_use_example =
    exchange_authorization_code-single_use id 10 100 1000 (codes "a") (codes "f") (codes "fam") code
      (codes "p") issued granted.0 first_token granted-token Reach.here 20 100 1000 (codes "a2")
      (codes "f2") (codes "fam2") code (codes "p") refl

abbrev refresh : BrokerRefreshToken
refresh = record {
  token = codes "f";
  client_id = codes "c";
  scopes = codes "uls:read" ∷ [];
  expires_at = 1010;
  resource = codes "r";
  subject = codes "s";
  digest = codes "f";
  family_id = codes "fam";
  generation = 0;
  policy_fingerprint = codes "p";
}

loaded-refresh :
    (load_refresh_token id 20 (codes "f") (codes "c") (codes "p") granted.0).1 ≡ some refresh
unfolding load_refresh_token lookup exchange_authorization_code issue_authorization_code insert teq
loaded-refresh = refl

abbrev refreshed : OAuthDb × TokenResult
refreshed =
    exchange_refresh_token id 30 100 1000 (codes "b") (codes "g") refresh refresh.scopes (codes "p")
      granted.0

abbrev second_token : OAuthToken
second_token = record {
  access_token = codes "b";
  expires_in = 100;
  scope = codes "uls:read";
  refresh_token = codes "g";
}

refreshed-token : refreshed.1 ≡ token second_token
unfolding exchange_refresh_token lookup exchange_authorization_code issue_authorization_code insert
    teq any
refreshed-token = refl

exchange_refresh_token-single_use_example :
    NoToken
      (exchange_refresh_token id 40 100 1000
        (codes "b2")
        (codes "g2")
        refresh
        refresh.scopes
        (codes "p")
        refreshed.0).1
exchange_refresh_token-single_use_example =
    exchange_refresh_token-single_use id 30 100 1000 (codes "b") (codes "g") refresh refresh.scopes
      (codes "p") granted.0 refreshed.0 second_token refreshed-token Reach.here 40 100 1000
      (codes "b2") (codes "g2") refresh refresh.scopes (codes "p") refl

exchange_refresh_token-loads_example :
    IsRefreshed id 30 100 1000
      (codes "b")
      (codes "g")
      refresh
      refresh.scopes
      (codes "p")
      granted.0
      second_token
exchange_refresh_token-loads_example =
    exchange_refresh_token-loads id 30 100 1000 (codes "b") (codes "g") refresh refresh.scopes
      (codes "p") granted.0 second_token refreshed-token

abbrev spent_row : RefreshRow
spent_row = record {
  client_id = codes "c";
  scopes = codes "uls:read" ∷ [];
  expires_at = 1010;
  resource = codes "r";
  subject = codes "s";
  policy_fingerprint = codes "p";
  family_id = codes "fam";
  generation = 0;
  consumed_at = some 30;
  revoked_at = none;
}

spent_row-found : lookup (codes "f") refreshed.0.refresh_tokens ≡ some spent_row
unfolding lookup exchange_refresh_token exchange_authorization_code issue_authorization_code insert
    teq any
spent_row-found = refl

load_refresh_token-reuse_example :
    IsSilent id
      (codes "fam")
      (load_refresh_token id 50 (codes "f") (codes "c") (codes "p") refreshed.0).0
load_refresh_token-reuse_example =
    load_refresh_token-reuse id 50 (codes "f") (codes "c") (codes "p") spent_row refreshed.0
      (load_refresh_token id 50 (codes "f") (codes "c") (codes "p") refreshed.0).0 spent_row-found
      refl refl Later.here

-- The row of the refresh token, which no access token shares its digest with.
abbrev fresh_row : RefreshRow
fresh_row = record spent_row { consumed_at = none }

f-IsOfFamily : IsOfFamily id (codes "f") (codes "fam") granted.0
unfolding lookup exchange_authorization_code issue_authorization_code insert teq
f-IsOfFamily = inr (refl, (fresh_row, refl, refl))

revoke_token-ends_example : IsSilent id (codes "fam") (revoke_token id 20 (codes "f") granted.0)
revoke_token-ends_example =
    revoke_token-ends id 20 (codes "f") (codes "fam") granted.0
      (revoke_token id 20 (codes "f") granted.0) f-IsOfFamily Later.here

Reach-WithinCaps_example : WithinCaps (register_client 5 600 (codes "c") (codes "{}") empty_db).0
Reach-WithinCaps_example =
    Reach-WithinCaps id (Reach.next Reach.here (registers 5 600 (codes "c") (codes "{}")))
