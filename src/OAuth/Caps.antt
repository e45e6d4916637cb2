-- ===== src/OAuth/Caps.antt =====
-- The client table of src/syllva/mcp/transports/oauth.py stays within its two caps.
use syllva.Prelude.{
  ℕ, ◌≤◌, ◌<◌, Text, teq, teq_refl, Bool, true, false, ◌||◌, ◌&&◌, Option, none, some, [], ◌∷◌, ◌≡◌,
  refl, ap, arith, inl, inr, Bool-cases, Option-cases, leb,
}
use syllva.Prelude.Dict.{
  Dict, lookup, remove, insert_new, insert_new_lem, count_values, count-insert, count-insert_not,
  count-remove, count-keep_values,
}
use syllva.OAuth.{OAuthDb, ClientRow, empty_db}
use syllva.OAuth.Clients.{
  is_pending, is_durable, is_stale, prune_pending, get_client, oldest, is_before, make_room,
  new_client, register_client, promote_row, promote_client, pending_client_cap, durable_client_cap,
}
use syllva.OAuth.{CodeRow, RefreshRow, AccessRow}
use syllva.OAuth.Codes.{activate_policy, issue_authorization_code, exchange_authorization_code}
use syllva.OAuth.Tokens.{
  load_refresh_token, load_refresh_row, exchange_refresh_token, load_access_token, load_access_row,
  revoke_token, revoke_some, revoke_family,
}
use syllva.OAuth.Outcomes.{exchange_code_row-cases, exchange_refresh_row-cases}
use syllva.OAuth.Steps.{
  Step, activates, gets, registers, promotes, issues, exchanges, loads_refresh, refreshes,
  loads_access, revokes, Reach, here, next,
}

pub record WithinCaps (db : OAuthDb) : Type 0 where
  pub pending : count_values is_pending db.clients ≤ pending_client_cap
  pub durable : count_values is_durable db.clients ≤ durable_client_cap

has_pending : Text → Dict ClientRow → Bool
has_pending k [] = false
has_pending k ((j, c) ∷ d) = teq j k && is_pending c || has_pending k d

count-remove_pending :
    (k : Text) (d : Dict ClientRow)
    → has_pending k d ≡ true
    → count_values is_pending (remove k d) < count_values is_pending d
unfolding has_pending count_values remove
count-remove_pending k [] h = ground arith
count-remove_pending k ((j, c) ∷ d) h =
    ground (arith, count-remove_pending k d, count-remove is_pending k d)

oldest-pending :
    (d : Dict ClientRow) (k : Text) (t : ℕ) → oldest d ≡ some (k, t) → has_pending k d ≡ true
unfolding has_pending oldest
oldest-pending [] k t h = ground arith
oldest-pending ((j, c) ∷ d) k t h = elim (Option-cases (oldest d)) [
  | inl n ↦ ground (arith, teq_refl j)
  | inr ((i, u), n) ↦
      let p = oldest-pending d i u n in
      elim (Bool-cases (is_before (j, c.created_at) (i, u))) [
        | inl b ↦ ground (arith, teq_refl j)
        | inr b ↦ ground (arith, teq_refl j)
      ]
]

oldest-none : (d : Dict ClientRow) → oldest d ≡ none → count_values is_pending d ≡ 0
unfolding count_values oldest
oldest-none [] h = refl
oldest-none ((j, c) ∷ d) h = ground (arith, oldest-none d)

make_room-count :
    (d : Dict ClientRow)
    → count_values is_pending d ≤ pending_client_cap
    → count_values is_pending (make_room d) < pending_client_cap
unfolding make_room
make_room-count d h = elim (Bool-cases (leb pending_client_cap (count_values is_pending d))) [
  | inr e ↦ rw e (ground arith)
  | inl e ↦ elim (Option-cases (oldest d)) [
    | inl n ↦ ground (arith, oldest-none d)
    | inr ((k, t), n) ↦
        let p = count-remove_pending k d (oldest-pending d k t n) in rw (e, n) (ground arith)
  ]
]

make_room-durable :
    (d : Dict ClientRow) → count_values is_durable (make_room d) ≤ count_values is_durable d
unfolding make_room
make_room-durable d = elim (Bool-cases (leb pending_client_cap (count_values is_pending d))) [
  | inr e ↦ rw e (ground arith)
  | inl e ↦ elim (Option-cases (oldest d)) [
    | inl n ↦ rw (e, n) (ground arith)
    | inr ((k, t), n) ↦ rw (e, n) (count-remove is_durable k d)
  ]
]

-- Fewer pending clients in `e` than the cap or than in `db`, and no more durable ones.
fewer-WithinCaps :
    (db e : OAuthDb)
    → count_values is_pending e.clients ≤ count_values is_pending db.clients
    → count_values is_durable e.clients ≤ count_values is_durable db.clients
    → WithinCaps db
    → WithinCaps e
fewer-WithinCaps db e p q w = record {
  pending = ground (arith, w.pending);
  durable = ground (arith, w.durable);
}

same-WithinCaps : (db e : OAuthDb) → e.clients ≡ db.clients → WithinCaps db → WithinCaps e
same-WithinCaps db e h w = fewer-WithinCaps db e (ground arith) (ground arith) w

prune_pending-WithinCaps :
    (now ttl : ℕ) (db : OAuthDb) → WithinCaps db → WithinCaps (prune_pending now ttl db)
unfolding prune_pending
prune_pending-WithinCaps now ttl db =
    fewer-WithinCaps db (prune_pending now ttl db) (count-keep_values is_pending _ db.clients)
      (count-keep_values is_durable _ db.clients)

register_client-WithinCaps :
    (now ttl : ℕ) (id json : Text) (db : OAuthDb)
    → WithinCaps db
    → WithinCaps (register_client now ttl id json db).0
unfolding register_client
register_client-WithinCaps now ttl id json db w =
    let v = prune_pending-WithinCaps now ttl db w in
    let d = make_room (prune_pending now ttl db).clients in
    elim (Option-cases (insert_new id (new_client now json) d)) [
      | inl n ↦ rw n w
      | inr (e, n) ↦
          let q = insert_new_lem id (new_client now json) d e n in
          let p = make_room-count _ v.pending in
          let r = make_room-durable (prune_pending now ttl db).clients in
          let i = count-insert is_pending id (new_client now json) d in
          let j = count-insert_not is_durable id (new_client now json) d refl in
          rw (n, q.1) (record { pending = omega arith; durable = ground (arith, v.durable) })
    ]

promote_row-WithinCaps :
    (now ttl : ℕ) (id : Text) (o : Option ClientRow) (db : OAuthDb)
    → WithinCaps db
    → WithinCaps (promote_row now ttl id o db).0
promote_row-WithinCaps now ttl id none db w = w
promote_row-WithinCaps now ttl id (some c) db w =
    let made = record c { owner_authorized = true; owner_authorized_at = some now } in
    let i = count-insert_not is_pending id made db.clients refl in
    let j = count-insert is_durable id made db.clients in
    elim (Bool-cases (is_pending c && is_stale now ttl c)) [
      | inl s ↦ rw s (
          fewer-WithinCaps db _ (count-remove is_pending id db.clients)
            (count-remove is_durable id db.clients) w)
      | inr s ↦ elim (Bool-cases c.owner_authorized) [
        | inl o ↦ rw (s, o) w
        | inr o ↦ elim (Bool-cases (leb durable_client_cap (count_values is_durable db.clients))) [
          | inl f ↦ rw (s, o, f) w
          | inr f ↦
              rw (s, o, f)
                (record {
                  pending = ground (arith, w.pending);
                  durable = ground (arith, w.durable);
                })
        ]
      ]
    ]

module _ (digest : Text → Text) where
  issue_authorization_code-clients :
      (raw : Text) (row : CodeRow) (db : OAuthDb)
      → (issue_authorization_code digest raw row db).0.clients ≡ db.clients
  unfolding issue_authorization_code
  issue_authorization_code-clients raw row db =
      elim (Option-cases (insert_new (digest raw) (record row { consumed_at = none }) db.codes)) [
        | inl e ↦ rw (issue_authorization_code, e) refl
        | inr (codes, e) ↦ rw (issue_authorization_code, e) refl
      ]

  load_refresh_row-clients :
      (now : ℕ) (raw client_id policy : Text) (o : Option RefreshRow) (db : OAuthDb)
      → (load_refresh_row digest now raw client_id policy o db).0.clients ≡ db.clients
  unfolding load_refresh_row revoke_family
  load_refresh_row-clients now raw client_id policy none db = refl
  load_refresh_row-clients now raw client_id policy (some r) db = ground arith

  load_access_row-clients :
      (now : ℕ) (raw policy issuer : Text) (o : Option AccessRow) (db : OAuthDb)
      → (load_access_row digest now raw policy issuer o db).0.clients ≡ db.clients
  unfolding load_access_row revoke_family
  load_access_row-clients now raw policy issuer none db = refl
  load_access_row-clients now raw policy issuer (some r) db = ground arith

  revoke_some-clients :
      (now : ℕ) (o : Option Text) (db : OAuthDb) → (revoke_some now o db).clients ≡ db.clients
  unfolding revoke_family
  revoke_some-clients now none db = refl
  revoke_some-clients now (some family) db = refl

  Step-WithinCaps : {db e : OAuthDb} → Step digest db e → WithinCaps db → WithinCaps e
  unfolding activate_policy get_client promote_client load_refresh_token load_access_token
      revoke_token exchange_authorization_code exchange_refresh_token
  Step-WithinCaps {db} (activates policy now) w = same-WithinCaps db _ refl w
  Step-WithinCaps {db} (gets now ttl id) w = prune_pending-WithinCaps now ttl db w
  Step-WithinCaps {db} (registers now ttl id json) w =
      register_client-WithinCaps now ttl id json db w
  Step-WithinCaps {db} (promotes now ttl id) w = promote_row-WithinCaps now ttl id _ db w
  Step-WithinCaps {db} (issues raw row) w =
      same-WithinCaps db _ (issue_authorization_code-clients raw row db) w
  Step-WithinCaps {db} (exchanges now a r x y family code policy) w =
      elim (exchange_code_row-cases digest now a r x y family code.digest code.client_id policy
        (lookup code.digest db.codes) db) [
          | inl h ↦ same-WithinCaps db _ (ap (λ d. d.clients) h.0) w
          | inr g ↦ same-WithinCaps db _ (ap (λ d. d.clients) g.written) w
        ]
  Step-WithinCaps {db} (loads_refresh now raw id policy) w =
      same-WithinCaps db _ (load_refresh_row-clients now raw id policy _ db) w
  Step-WithinCaps {db} (refreshes now a r x y refresh scopes policy) w =
      elim (exchange_refresh_row-cases digest now a r x y refresh.digest refresh.client_id policy
        scopes (lookup refresh.digest db.refresh_tokens) db) [
          | inl h ↦ same-WithinCaps db _ (ap (λ d. d.clients) h.0) w
          | inr g ↦ same-WithinCaps db _ (ap (λ d. d.clients) g.written) w
        ]
  Step-WithinCaps {db} (loads_access now raw policy issuer) w =
      same-WithinCaps db _ (load_access_row-clients now raw policy issuer _ db) w
  Step-WithinCaps {db} (revokes now raw) w = same-WithinCaps db _ (revoke_some-clients now _ db) w

  -- From an empty database, whatever calls are made, at most 32 clients are pending and at most 32 are
  -- owner-authorized.
  pub Reach-WithinCaps : {db : OAuthDb} → Reach digest empty_db db → WithinCaps db
  unfolding count_values
  Reach-WithinCaps here = record { pending = omega arith; durable = omega arith }
  Reach-WithinCaps (next p st) = Step-WithinCaps st (Reach-WithinCaps p)
