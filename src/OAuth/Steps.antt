-- ===== src/OAuth/Steps.antt =====
-- The calls of `OAuthStore` (src/syllva/mcp/transports/oauth.py) as a relation on databases.
use syllva.Prelude.{ℕ, Text, List, ◌≡◌}
use syllva.OAuth.{OAuthDb, CodeRow}
use syllva.OAuth.Codes.{
  activate_policy, BrokerAuthorizationCode, issue_authorization_code, exchange_authorization_code,
}
use syllva.OAuth.Tokens.{
  BrokerRefreshToken, load_refresh_token, exchange_refresh_token, load_access_token, revoke_token,
}
use syllva.OAuth.Clients.{get_client, register_client, promote_client}

module _ (digest : Text → Text) where
  -- One call of a method that writes. `load_authorization_code` only reads.
  pub data Step (db : OAuthDb) : OAuthDb → Type 0 where
    activates : (policy : Text) (now : ℕ) → Step db (activate_policy policy now db)
    gets : (now ttl : ℕ) (client_id : Text) → Step db (get_client now ttl client_id db).0
    registers :
        (now ttl : ℕ) (client_id json : Text)
        → Step db (register_client now ttl client_id json db).0
    promotes : (now ttl : ℕ) (client_id : Text) → Step db (promote_client now ttl client_id db).0
    issues : (raw : Text) (row : CodeRow) → Step db (issue_authorization_code digest raw row db).0
    exchanges :
        (now access_ttl refresh_ttl : ℕ) (access_raw refresh_raw family : Text)
        (code : BrokerAuthorizationCode) (policy : Text)
        → Step db
            (exchange_authorization_code digest now access_ttl refresh_ttl access_raw refresh_raw
              family code policy db).0
    loads_refresh :
        (now : ℕ) (raw client_id policy : Text)
        → Step db (load_refresh_token digest now raw client_id policy db).0
    refreshes :
        (now access_ttl refresh_ttl : ℕ) (access_raw refresh_raw : Text)
        (refresh : BrokerRefreshToken) (scopes : List Text) (policy : Text)
        → Step db
            (exchange_refresh_token digest now access_ttl refresh_ttl access_raw refresh_raw refresh
              scopes policy db).0
    loads_access :
        (now : ℕ) (raw policy issuer : Text)
        → Step db (load_access_token digest now raw policy issuer db).0
    revokes : (now : ℕ) (raw : Text) → Step db (revoke_token digest now raw db)

  -- Does this call start a family under this id?
  abbrev pub Starts : (f : Text) {db e : OAuthDb} → Step db e → Type 0
  Starts f (exchanges now access_ttl refresh_ttl access_raw refresh_raw family code policy) =
      family ≡ f
  Starts f (activates policy now) = ⊥
  Starts f (gets now ttl client_id) = ⊥
  Starts f (registers now ttl client_id json) = ⊥
  Starts f (promotes now ttl client_id) = ⊥
  Starts f (issues raw row) = ⊥
  Starts f (loads_refresh now raw client_id policy) = ⊥
  Starts f (refreshes now access_ttl refresh_ttl access_raw refresh_raw refresh scopes policy) = ⊥
  Starts f (loads_access now raw policy issuer) = ⊥
  Starts f (revokes now raw) = ⊥

  -- Does this call store a code with this row?
  abbrev pub Issues : (row : CodeRow) {db e : OAuthDb} → Step db e → Type 0
  Issues row (issues raw r) = r ≡ row
  Issues row (exchanges now access_ttl refresh_ttl access_raw refresh_raw family code policy) = ⊥
  Issues row (activates policy now) = ⊥
  Issues row (gets now ttl client_id) = ⊥
  Issues row (registers now ttl client_id json) = ⊥
  Issues row (promotes now ttl client_id) = ⊥
  Issues row (loads_refresh now raw client_id policy) = ⊥
  Issues row (refreshes now access_ttl refresh_ttl access_raw refresh_raw refresh scopes policy) = ⊥
  Issues row (loads_access now raw policy issuer) = ⊥
  Issues row (revokes now raw) = ⊥

  -- Calls that follow one another.
  pub data Reach (db : OAuthDb) : OAuthDb → Type 0 where
    here : Reach db db
    next : {d e : OAuthDb} → Reach db d → Step d e → Reach db e

  -- Calls that follow one another, none of which starts a family under `f`.
  pub data Later (f : Text) (db : OAuthDb) : OAuthDb → Type 0 where
    here : Later f db db
    next : {d e : OAuthDb} → Later f db d → (st : Step d e) → ¬ Starts f st → Later f db e
