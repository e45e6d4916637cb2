-- ===== src/OAuth/SingleUse.antt =====
-- Authorization codes and refresh tokens of src/syllva/mcp/transports/oauth.py are single use.
use syllva.Prelude.{
  ℕ, ◌+◌, Text, teq_iff, teq_refl, Bool, true, false, Option, none, some, List, ◌≡◌, arith, inl,
  inr,
}
use syllva.Prelude.Dict.{lookup, insert, lookup-insert, lookup-map_values}
use syllva.OAuth.{
  OAuthDb, CodeRow, RefreshRow, OAuthToken, TokenResult, token, invalid_grant, invalid_scope,
  database_error, is_set,
}
use syllva.OAuth.Codes.{
  activate_policy, BrokerAuthorizationCode, exchange_authorization_code, refresh_of_code,
  refuses_code, retire_code, retire_refresh,
}
use syllva.OAuth.Tokens.{
  revoke_family, BrokerRefreshToken, exchange_refresh_token, spent_refresh, next_refresh,
  revoke_refresh,
}
use syllva.OAuth.Effects.{
  Effect, keeps, retires, revokes_family, issues_code, grants_code, grants_refresh, Step-Effect,
}
use syllva.OAuth.Outcomes.{
  CodeGranted, RefreshGranted, NoToken, exchange_code_row-cases, exchange_refresh_row-cases,
}
use syllva.OAuth.Steps.{Reach, here, next}

abbrev code_spent : Option CodeRow → Bool
code_spent none = false
code_spent (some r) = is_set r.consumed_at

abbrev refresh_spent : Option RefreshRow → Bool
refresh_spent none = false
refresh_spent (some r) = is_set r.consumed_at

abbrev CodeSpent : Text → OAuthDb → Type 0
CodeSpent k db = code_spent (lookup k db.codes) ≡ true

abbrev RefreshSpent : Text → OAuthDb → Type 0
RefreshSpent k db = refresh_spent (lookup k db.refresh_tokens) ≡ true

Effect-CodeSpent :
    (digest : Text → Text) (F : Text → Type 0) (G : CodeRow → Type 0) (k : Text) (db e : OAuthDb)
    → Effect digest F G db e
    → CodeSpent k db
    → CodeSpent k e
Effect-CodeSpent digest F G k db e (keeps g) h = rw g.codes h
Effect-CodeSpent digest F G k db e (retires policy now p) h =
    unfold activate_policy in
    rw p (ground (arith, lookup-map_values (retire_code policy now) k db.codes))
Effect-CodeSpent digest F G k db e (revokes_family family now p) h = unfold revoke_family in rw p h
Effect-CodeSpent digest F G k db e (issues_code j row _ n p) h =
    rw p
      (ground (arith, lookup-insert j k (record row { consumed_at = none }) db.codes, teq_iff j k))
Effect-CodeSpent digest F G k db e (grants_code now a r x y family j id policy _ g) h =
    rw g.written
      (ground (arith, lookup-insert j k (record g.row { consumed_at = some now }) db.codes))
Effect-CodeSpent digest F G k db e (grants_refresh now a r x y j id policy scopes g) h =
    rw g.written h

Effect-RefreshSpent :
    (digest : Text → Text) (F : Text → Type 0) (G : CodeRow → Type 0) (k : Text) (db e : OAuthDb)
    → Effect digest F G db e
    → RefreshSpent k db
    → RefreshSpent k e
Effect-RefreshSpent digest F G k db e (keeps g) h = rw g.refresh_tokens h
Effect-RefreshSpent digest F G k db e (retires policy now p) h =
    unfold activate_policy in
    rw p (ground (arith, lookup-map_values (retire_refresh policy now) k db.refresh_tokens))
Effect-RefreshSpent digest F G k db e (revokes_family family now p) h =
    unfold revoke_family in
    rw p (ground (arith, lookup-map_values (revoke_refresh family now) k db.refresh_tokens))
Effect-RefreshSpent digest F G k db e (issues_code j row _ n p) h = rw p h
Effect-RefreshSpent digest F G k db e (grants_code now a r x y family j id policy _ g) h =
    rw g.written (
      ground (
        arith,
        lookup-insert (digest y) k (refresh_of_code (now + r) policy family g.row)
            db.refresh_tokens,
        g.new_refresh,
        teq_iff (digest y) k,
      ))
Effect-RefreshSpent digest F G k db e (grants_refresh now a r x y j id policy scopes g) h =
    rw g.written (
      ground (
        arith,
        lookup-insert (digest y) k (next_refresh (now + r) policy scopes g.row)
            (insert j (record g.row { consumed_at = some now }) db.refresh_tokens),
        lookup-insert j k (record g.row { consumed_at = some now }) db.refresh_tokens,
        g.new_refresh,
        teq_iff (digest y) k,
        teq_iff j k,
      ))

-- A result with a token is not one without.
token-NoToken : (r : TokenResult) (t : OAuthToken) → r ≡ token t → NoToken r → ⊥
token-NoToken (token s) t h n = n
token-NoToken invalid_grant t h n = ground arith
token-NoToken invalid_scope t h n = ground arith
token-NoToken database_error t h n = ground arith

module _ (digest : Text → Text) where
  Reach-CodeSpent : (k : Text) {db e : OAuthDb} → Reach digest db e → CodeSpent k db → CodeSpent k e
  Reach-CodeSpent k here h = h
  Reach-CodeSpent k (next {d} {e} r st) h =
      Effect-CodeSpent digest _ _ k d e (Step-Effect digest st) (Reach-CodeSpent k r h)

  Reach-RefreshSpent :
      (k : Text) {db e : OAuthDb} → Reach digest db e → RefreshSpent k db → RefreshSpent k e
  Reach-RefreshSpent k here h = h
  Reach-RefreshSpent k (next {d} {e} r st) h =
      Effect-RefreshSpent digest _ _ k d e (Step-Effect digest st) (Reach-RefreshSpent k r h)

  CodeGranted-CodeSpent :
      (now a r : ℕ) (x y family k id policy : Text) (o : Option CodeRow) (db e : OAuthDb)
      → CodeGranted digest now a r x y family k id policy o db e
      → CodeSpent k e
  CodeGranted-CodeSpent now a r x y family k id policy o db e g = rw g.written (
      ground
        (arith, lookup-insert k k (record g.row { consumed_at = some now }) db.codes, teq_refl k))

  RefreshGranted-RefreshSpent :
      (now a r : ℕ) (x y k id policy : Text) (scopes : List Text) (o : Option RefreshRow)
      (db e : OAuthDb)
      → RefreshGranted digest now a r x y k id policy scopes o db e
      → RefreshSpent k e
  RefreshGranted-RefreshSpent now a r x y k id policy scopes o db e g = rw g.written (
      ground (
        arith,
        lookup-insert (digest y) k (next_refresh (now + r) policy scopes g.row)
            (insert k (record g.row { consumed_at = some now }) db.refresh_tokens),
        lookup-insert k k (record g.row { consumed_at = some now }) db.refresh_tokens,
        g.new_refresh,
        teq_iff (digest y) k,
        teq_refl k,
      ))

  CodeSpent-refused :
      (now a r : ℕ) (x y family : Text) (code : BrokerAuthorizationCode) (policy : Text)
      (db : OAuthDb)
      → CodeSpent code.digest db
      → NoToken (exchange_authorization_code digest now a r x y family code policy db).1
  unfolding exchange_authorization_code
  CodeSpent-refused now a r x y family code policy db h =
      elim (exchange_code_row-cases digest now a r x y family code.digest code.client_id policy
        (lookup code.digest db.codes) db) [
          | inl c ↦ c.1
          | inr g ↦ absurd (clash g.row g.found g.accepted)
        ]
    where
      clash :
          (row : CodeRow)
          → lookup code.digest db.codes ≡ some row
          → refuses_code now code.client_id policy row ≡ false
          → ⊥
      clash row e f = ground (arith, h)

  RefreshSpent-refused :
      (now a r : ℕ) (x y : Text) (refresh : BrokerRefreshToken) (scopes : List Text) (policy : Text)
      (db : OAuthDb)
      → RefreshSpent refresh.digest db
      → NoToken (exchange_refresh_token digest now a r x y refresh scopes policy db).1
  unfolding exchange_refresh_token
  RefreshSpent-refused now a r x y refresh scopes policy db h =
      elim (exchange_refresh_row-cases digest now a r x y refresh.digest refresh.client_id policy
        scopes (lookup refresh.digest db.refresh_tokens) db) [
          | inl c ↦ c.1
          | inr g ↦ absurd (clash g.row g.found g.unspent)
        ]
    where
      clash :
          (row : RefreshRow)
          → lookup refresh.digest db.refresh_tokens ≡ some row
          → spent_refresh now policy row ≡ false
          → ⊥
      clash row e f = ground (arith, h)

  -- An authorization code is exchanged at most once. After an exchange that answered a token, and
  -- any calls of the store after it, no exchange under the same digest answers a token, at any time,
  -- for any client, policy and new token texts.
  pub exchange_authorization_code-single_use :
      (now a r : ℕ) (x y family : Text) (code : BrokerAuthorizationCode) (policy : Text)
      (db d : OAuthDb) (t : OAuthToken)
      → (exchange_authorization_code digest now a r x y family code policy db).1 ≡ token t
      → Reach digest (exchange_authorization_code digest now a r x y family code policy db).0 d
      → (now' a' r' : ℕ) (x' y' family' : Text) (code' : BrokerAuthorizationCode) (policy' : Text)
      → code'.digest ≡ code.digest
      → NoToken (exchange_authorization_code digest now' a' r' x' y' family' code' policy' d).1
  unfolding exchange_authorization_code
  exchange_authorization_code-single_use now a r x y family code policy db d t h reach now' a' r' x'
        y' family' code' policy' same =
      elim (exchange_code_row-cases digest now a r x y family code.digest code.client_id policy
        (lookup code.digest db.codes) db) [
          | inl c ↦ absurd (token-NoToken _ t h c.1)
          | inr g ↦ CodeSpent-refused now' a' r' x' y' family' code' policy' d (
              rw same (
                Reach-CodeSpent code.digest reach (
                  CodeGranted-CodeSpent now a r x y family code.digest code.client_id policy
                    (lookup code.digest db.codes) db _ g)))
        ]

  -- A refresh token is exchanged at most once. After an exchange that answered a token, and any calls
  -- of the store after it, no exchange under the same digest answers a token.
  pub exchange_refresh_token-single_use :
      (now a r : ℕ) (x y : Text) (refresh : BrokerRefreshToken) (scopes : List Text) (policy : Text)
      (db d : OAuthDb) (t : OAuthToken)
      → (exchange_refresh_token digest now a r x y refresh scopes policy db).1 ≡ token t
      → Reach digest (exchange_refresh_token digest now a r x y refresh scopes policy db).0 d
      → (now' a' r' : ℕ) (x' y' : Text) (refresh' : BrokerRefreshToken) (scopes' : List Text)
        (policy' : Text)
      → refresh'.digest ≡ refresh.digest
      → NoToken (exchange_refresh_token digest now' a' r' x' y' refresh' scopes' policy' d).1
  unfolding exchange_refresh_token
  exchange_refresh_token-single_use now a r x y refresh scopes policy db d t h reach now' a' r' x'
        y' refresh' scopes' policy' same =
      elim (exchange_refresh_row-cases digest now a r x y refresh.digest refresh.client_id policy
        scopes (lookup refresh.digest db.refresh_tokens) db) [
          | inl c ↦ absurd (token-NoToken _ t h c.1)
          | inr g ↦ RefreshSpent-refused now' a' r' x' y' refresh' scopes' policy' d (
              rw same (
                Reach-RefreshSpent refresh.digest reach (
                  RefreshGranted-RefreshSpent now a r x y refresh.digest refresh.client_id policy
                    scopes (lookup refresh.digest db.refresh_tokens) db _ g)))
        ]
