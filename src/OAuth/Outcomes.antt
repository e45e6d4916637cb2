-- ===== src/OAuth/Outcomes.antt =====
-- What the two exchanges of src/syllva/mcp/transports/oauth.py leave in the database.
use syllva.Prelude.{
  ℕ, ◌+◌, Text, teq, true, false, ◌||◌, not, Option, none, some, List, ◌≡◌, ◌⊎◌, refl, arith, inl,
  inr, Bool-cases, Option-cases,
}
use syllva.Prelude.Dict.{Dict, lookup, insert, insert_new, insert_new_lem}
use syllva.OAuth.{
  OAuthDb, CodeRow, RefreshRow, AccessRow, OAuthToken, TokenResult, token, with_connection,
}
use syllva.OAuth.Codes.{
  exchange_code_row, insert_pair, settle_token, refuses_code, access_of_code, refresh_of_code,
}
use syllva.OAuth.Tokens.{
  exchange_refresh_row, exchange_refresh_block, spent_refresh, exceeds, next_access, next_refresh,
}

abbrev pub add_pair :
    (access_digest refresh_digest : Text) → AccessRow → RefreshRow → OAuthDb → OAuthDb
add_pair j k a r db = record db {
  access_tokens = insert j a db.access_tokens;
  refresh_tokens = insert k r db.refresh_tokens;
}

-- The two inserts succeed only with digests that are not there.
pub insert_pair_lem :
    (j k : Text) (a : AccessRow) (r : RefreshRow) (db e : OAuthDb)
    → insert_pair j k a r db ≡ some e
    → (lookup j db.access_tokens ≡ none)
      × (lookup k db.refresh_tokens ≡ none)
      × (e ≡ add_pair j k a r db)
unfolding insert_pair
insert_pair_lem j k a r db e h = elim (Option-cases (insert_new j a db.access_tokens)) [
  | inl n ↦ absurd (stops n h)
  | inr (x, n) ↦ elim (Option-cases (insert_new k r db.refresh_tokens)) [
    | inl m ↦ absurd (stops_later x n m h)
    | inr (y, m) ↦
        let p = insert_new_lem j a db.access_tokens x n in
        let q = insert_new_lem k r db.refresh_tokens y m in (p.0, q.0, ground arith)
  ]
]
  where
    stops : insert_new j a db.access_tokens ≡ none → insert_pair j k a r db ≡ some e → ⊥
    stops n h = ground arith

    stops_later :
        (x : Dict AccessRow)
        → insert_new j a db.access_tokens ≡ some x
        → insert_new k r db.refresh_tokens ≡ none
        → insert_pair j k a r db ≡ some e
        → ⊥
    stops_later x n m h = ground arith

-- The result is an error, which is no token.
abbrev pub NoToken : TokenResult → Type 0
NoToken (token t) = ⊥
NoToken r = Unit

settle_token-cases :
    (P : OAuthDb → Type 0) (t : OAuthToken) (old work : OAuthDb) (o : Option OAuthDb)
    → ((e : OAuthDb) → o ≡ some e → P e)
    → ((with_connection old (settle_token t work o)).0 ≡ old)
        × NoToken (with_connection old (settle_token t work o)).1
      ⊎ P (with_connection old (settle_token t work o)).0
settle_token-cases P t old work none h = inl (refl, tt)
settle_token-cases P t old work (some e) h = inr (h e refl)

module _ (digest : Text → Text) (now access_ttl refresh_ttl : ℕ)
    (access_raw refresh_raw : Text) where
  -- What the exchange of a code writes, where it answers a token.
  pub record CodeGranted (family k client_id policy : Text) (o : Option CodeRow) (db : OAuthDb)
      (e : OAuthDb) : Type 0 where
    pub row : CodeRow
    pub found : o ≡ some row
    pub accepted : refuses_code now client_id policy row ≡ false
    pub new_access : lookup (digest access_raw) db.access_tokens ≡ none
    pub new_refresh : lookup (digest refresh_raw) db.refresh_tokens ≡ none
    pub written :
        e
        ≡ add_pair
            (digest access_raw)
            (digest refresh_raw)
            (access_of_code (now + access_ttl) policy family row)
            (refresh_of_code (now + refresh_ttl) policy family row)
            (record db { codes = insert k (record row { consumed_at = some now }) db.codes })

  pub exchange_code_row-cases :
      (family k client_id policy : Text) (o : Option CodeRow) (db : OAuthDb)
      → ((exchange_code_row digest now access_ttl refresh_ttl access_raw refresh_raw family k
              client_id policy o db).0
            ≡ db)
          × NoToken
              (exchange_code_row digest now access_ttl refresh_ttl access_raw refresh_raw family k
                client_id policy o db).1
        ⊎ CodeGranted family k client_id policy o db
            (exchange_code_row digest now access_ttl refresh_ttl access_raw refresh_raw family k
              client_id policy o db).0
  unfolding exchange_code_row
  exchange_code_row-cases family k client_id policy none db = inl (refl, tt)
  exchange_code_row-cases family k client_id policy (some r) db =
      elim (Bool-cases (refuses_code now client_id policy r)) [
        | inl e ↦ rw e (inl (refl, tt))
        | inr e ↦ rw e (
            settle_token-cases (CodeGranted family k client_id policy (some r) db) _ db _ _ (λ d h.
              let p = insert_pair_lem _ _ _ _ _ d h in
              record {
                row = r;
                found = refl;
                accepted = e;
                new_access = p.0;
                new_refresh = p.1;
                written = p.2;
              }))
      ]

  -- What the exchange of a refresh token writes, where it answers a token.
  pub record RefreshGranted (k client_id policy : Text) (scopes : List Text) (o : Option RefreshRow)
      (db : OAuthDb) (e : OAuthDb) : Type 0 where
    pub row : RefreshRow
    pub found : o ≡ some row
    pub unspent : spent_refresh now policy row ≡ false
    pub same_client : teq row.client_id client_id ≡ true
    pub within_scopes : exceeds scopes row.scopes ≡ false
    pub new_access : lookup (digest access_raw) db.access_tokens ≡ none
    pub new_refresh :
        lookup
          (digest refresh_raw)
          (insert k (record row { consumed_at = some now }) db.refresh_tokens)
        ≡ none
    pub written :
        e
        ≡ add_pair
            (digest access_raw)
            (digest refresh_raw)
            (next_access (now + access_ttl) policy scopes row)
            (next_refresh (now + refresh_ttl) policy scopes row)
            (record db {
              refresh_tokens = insert k (record row { consumed_at = some now }) db.refresh_tokens;
            })

  pub exchange_refresh_row-cases :
      (k client_id policy : Text) (scopes : List Text) (o : Option RefreshRow) (db : OAuthDb)
      → ((exchange_refresh_row digest now access_ttl refresh_ttl access_raw refresh_raw k client_id
              policy scopes o db).0
            ≡ db)
          × NoToken
              (exchange_refresh_row digest now access_ttl refresh_ttl access_raw refresh_raw k
                client_id policy scopes o db).1
        ⊎ RefreshGranted k client_id policy scopes o db
            (exchange_refresh_row digest now access_ttl refresh_ttl access_raw refresh_raw k
              client_id policy scopes o db).0
  unfolding exchange_refresh_row exchange_refresh_block
  exchange_refresh_row-cases k client_id policy scopes none db = inl (refl, tt)
  exchange_refresh_row-cases k client_id policy scopes (some r) db =
      elim (Bool-cases (spent_refresh now policy r || not (teq r.client_id client_id))) [
        | inl e ↦ rw e (inl (refl, tt))
        | inr e ↦ elim (Bool-cases (exceeds scopes r.scopes)) [
          | inl x ↦ rw (e, x) (inl (refl, tt))
          | inr x ↦
              rw (e, x)
                (settle_token-cases (RefreshGranted k client_id policy scopes (some r) db) _ db _ _
                  (λ d h.
                    let p = insert_pair_lem _ _ _ _ _ d h in
                    record {
                      row = r;
                      found = refl;
                      unspent = ground arith;
                      same_client = ground arith;
                      within_scopes = x;
                      new_access = p.0;
                      new_refresh = p.1;
                      written = p.2;
                    }))
        ]
      ]
