-- ===== src/OAuth.antt =====
-- The OAuth grants of the remote MCP server: `OAuthStore` of src/syllva/mcp/transports/oauth.py. A
-- table is a dictionary from its primary key; a method is one SQLite transaction, a function from
-- the database to the database and its answer. `with connection` commits at the end of the block
-- and rolls back when an exception leaves it. Times are whole seconds and come as arguments, and
-- so do random tokens and ids; `digest` is the SHA-256 of a token, as hexadecimal text.
pub mod Codes
pub mod Tokens
pub mod Clients
pub mod Outcomes
pub mod RoundTrip
pub mod Steps
pub mod Effects
pub mod SingleUse
pub mod Families
pub mod Caps
pub mod Broker
mod Examples
use syllva.Prelude.{ℕ, Text, Bool, true, false, Option, none, some, List, [], ◌∷◌, ◌++◌}
use syllva.Prelude.Dict.{Dict}

-- A client row: `state` is OWNER_AUTHORIZED where the flag is set, else PENDING_OWNER.
pub record ClientRow : Type 0 where
  pub client_json : Text
  pub owner_authorized : Bool
  pub created_at : ℕ
  pub owner_authorized_at : Option ℕ

pub record CodeRow : Type 0 where
  pub client_id : Text
  pub scopes : List Text
  pub expires_at : ℕ
  pub code_challenge : Text
  pub redirect_uri : Text
  pub redirect_uri_explicit : Bool
  pub resource : Text
  pub subject : Text
  pub policy_fingerprint : Text
  pub consumed_at : Option ℕ

pub record RefreshRow : Type 0 where
  pub client_id : Text
  pub scopes : List Text
  pub expires_at : ℕ
  pub resource : Text
  pub subject : Text
  pub policy_fingerprint : Text
  pub family_id : Text
  pub generation : ℕ
  pub consumed_at : Option ℕ
  pub revoked_at : Option ℕ

pub record AccessRow : Type 0 where
  pub client_id : Text
  pub scopes : List Text
  pub expires_at : ℕ
  pub resource : Text
  pub subject : Text
  pub policy_fingerprint : Text
  pub family_id : Text
  pub revoked_at : Option ℕ

pub record OAuthDb : Type 0 where
  pub clients : Dict ClientRow
  pub codes : Dict CodeRow
  pub refresh_tokens : Dict RefreshRow
  pub access_tokens : Dict AccessRow

abbrev pub empty_db : OAuthDb
empty_db = record { clients = []; codes = []; refresh_tokens = []; access_tokens = [] }

-- `_LoginTransaction.scopes` and the scope columns are lists; a response joins them by spaces.
abbrev pub join_scopes : List Text → Text
join_scopes [] = []
join_scopes (s ∷ []) = s
join_scopes (s ∷ t ∷ ss) = s ++ (32 ∷ join_scopes (t ∷ ss))

pub record OAuthToken : Type 0 where
  pub access_token : Text
  pub expires_in : ℕ
  pub scope : Text
  pub refresh_token : Text

-- A token request answers a token, a `TokenError`, or fails with an `sqlite3.Error`.
pub data TokenResult : Type 0 where
  token : OAuthToken → TokenResult
  invalid_grant invalid_scope database_error : TokenResult

-- `COALESCE(stamp, now)`
abbrev pub coalesce : Option ℕ → ℕ → Option ℕ
coalesce none now = some now
coalesce (some t) now = some t

abbrev pub is_set : Option ℕ → Bool
is_set none = false
is_set (some t) = true

-- `with self._connect() as conn`, around a block that started on `before`: the connection commits where
-- the block returns, and rolls back where an exception leaves it.
abbrev pub with_connection : (before : OAuthDb) → OAuthDb × TokenResult → OAuthDb × TokenResult
with_connection before (after, token t) = (after, token t)
with_connection before (after, invalid_grant) = (before, invalid_grant)
with_connection before (after, invalid_scope) = (before, invalid_scope)
with_connection before (after, database_error) = (before, database_error)
