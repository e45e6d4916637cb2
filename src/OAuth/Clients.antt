-- ===== src/OAuth/Clients.antt =====
-- Registered clients of `OAuthStore` (src/syllva/mcp/transports/oauth.py): `get_client`,
-- `register_client`, `promote_client` and `_prune_pending`.
use syllva.Prelude.{
  text_lt, ℕ, ◌+◌, Text, Bool, true, false, ◌&&◌, ◌||◌, not, Option, none, some, [], ◌∷◌, ltb, leb,
  ◌==◌, if◌then◌else◌,
}
use syllva.Prelude.Dict.{Dict, lookup, insert, remove, keep_values, insert_new, count_values}
use syllva.OAuth.{ClientRow, OAuthDb}

abbrev pub pending_client_cap : ℕ
pending_client_cap = 32

abbrev pub durable_client_cap : ℕ
durable_client_cap = 32

abbrev pub is_pending : ClientRow → Bool
is_pending c = not c.owner_authorized

abbrev pub is_durable : ClientRow → Bool
is_durable c = c.owner_authorized

-- `created_at < now - pending_ttl`
abbrev pub is_stale : (now ttl : ℕ) → ClientRow → Bool
is_stale now ttl c = ltb (c.created_at + ttl) now

unfoldable pub prune_pending : (now ttl : ℕ) → OAuthDb → OAuthDb
prune_pending now ttl db = record db {
  clients = keep_values (λ c. not (is_pending c && is_stale now ttl c)) db.clients;
}

unfoldable pub get_client :
    (now ttl : ℕ) → (client_id : Text) → OAuthDb → OAuthDb × Option ClientRow
unfolding prune_pending
get_client now ttl client_id db =
    let db' = prune_pending now ttl db in (db', lookup client_id db'.clients)

abbrev pub is_before : Text × ℕ → Text × ℕ → Bool
is_before (j, t) (k, u) = ltb t u || t == u && text_lt j k

abbrev pub earlier : Text × ℕ → Option (Text × ℕ) → Text × ℕ
earlier a none = a
earlier a (some b) = if is_before a b then a else b

abbrev pub key_of : Option (Text × ℕ) → Option Text
key_of none = none
key_of (some (k, t)) = some k

-- `ORDER BY created_at ASC, client_id ASC LIMIT 1` over the pending clients.
unfoldable pub oldest : Dict ClientRow → Option (Text × ℕ)
unfolding text_lt
oldest [] = none
oldest ((k, c) ∷ d) =
    let rest = oldest d in if is_pending c then some (earlier (k, c.created_at) rest) else rest

abbrev pub drop_key : Option Text → Dict ClientRow → Dict ClientRow
drop_key none d = d
drop_key (some k) d = remove k d

unfoldable pub make_room : Dict ClientRow → Dict ClientRow
unfolding oldest
make_room d =
    if leb pending_client_cap (count_values is_pending d) then drop_key (key_of (oldest d)) d else d

abbrev pub new_client : ℕ → Text → ClientRow
new_client now json = record {
  client_json = json;
  owner_authorized = false;
  created_at = now;
  owner_authorized_at = none;
}

abbrev pub store_client : OAuthDb → Option (Dict ClientRow) → OAuthDb × Bool
store_client db none = (db, false)
store_client db (some d) = (record db { clients = d }, true)

-- `false` is an `sqlite3.Error`: the id is registered already.
unfoldable pub register_client :
    (now ttl : ℕ) → (client_id client_json : Text) → OAuthDb → OAuthDb × Bool
unfolding prune_pending make_room insert_new
register_client now ttl client_id json db =
    store_client db
      (insert_new client_id (new_client now json) (make_room (prune_pending now ttl db).clients))

abbrev pub promote_row :
    (now ttl : ℕ) → (client_id : Text) → Option ClientRow → OAuthDb → OAuthDb × Bool
promote_row now ttl client_id none db = (db, false)
promote_row now ttl client_id (some c) db =
    if is_pending c && is_stale now ttl c
    then (record db { clients = remove client_id db.clients }, false)
    else if c.owner_authorized
    then (db, true)
    else if leb durable_client_cap (count_values is_durable db.clients)
    then (db, false)
    else (
      record db {
        clients =
            insert client_id (record c { owner_authorized = true; owner_authorized_at = some now })
              db.clients;
      },
      true,
    )

unfoldable pub promote_client : (now ttl : ℕ) → (client_id : Text) → OAuthDb → OAuthDb × Bool
promote_client now ttl client_id db = promote_row now ttl client_id (lookup client_id db.clients) db
