-- ===== src/OAuth/Broker/Owner/Parts.antt =====
-- The verification, the promotion and the code of a callback in src/syllva/mcp/transports/oauth.py.
use syllva.Prelude.{
  ℕ, Text, teq, true, ◌&&◌, Option, none, some, ◌≡◌, ◌⊎◌, refl, arith, inl, inr, Bool-cases,
  Option-cases, leb,
}
use syllva.Prelude.Dict.{lookup, lookup-insert_self, insert_new, insert_new_lem, count_values}
use syllva.OAuth.{OAuthDb, CodeRow, ClientRow}
use syllva.OAuth.Codes.{issue_authorization_code}
use syllva.OAuth.Clients.{
  promote_client, promote_row, is_pending, is_stale, is_durable, durable_client_cap,
}
use syllva.OAuth.Broker.{BrokerSettings, LoginTransaction, pending_client_ttl}
use syllva.OAuth.Broker.Google.{Google, Claims, given, subject, check_claims, subject_of}
use syllva.OAuth.Broker.Callback.{
  CallbackClock, CallbackResponse, code_issued, grant_code, code_row,
}

-- The claims name the owner: the nonce is that of the login, and the e-mail address is verified and
-- the authorized one.
pub record IsOwner (google : Google) (authorized_email nonce sub : Text) (o : Option Claims)
    : Type 0 where
  pub claims : Claims
  pub decoded : o ≡ some claims
  pub same_nonce : teq claims.nonce nonce ≡ true
  pub email : Text
  pub has_email : claims.email ≡ some email
  pub verified : claims.email_verified ≡ true
  pub authorized : teq (google.normalize email) authorized_email ≡ true
  pub is_subject : given claims.sub ≡ some sub

module _ (google : Google) where
  subject_of-some : (o : Option Text) (sub : Text) → subject_of o ≡ subject sub → o ≡ some sub
  subject_of-some o sub h = ground arith

  pub check_claims-IsOwner :
      (nonce authorized sub : Text) (o : Option Claims)
      → check_claims google nonce authorized o ≡ subject sub
      → IsOwner google authorized nonce sub o
  unfolding check_claims
  check_claims-IsOwner nonce authorized sub none h = ground arith
  check_claims-IsOwner nonce authorized sub (some c) h = elim (Option-cases c.email) [
    | inl m ↦ absurd (no_email m)
    | inr (email, m) ↦ record {
      claims = c;
      decoded = refl;
      same_nonce = ground arith;
      email = email;
      has_email = m;
      verified = ground arith;
      authorized = ground arith;
      is_subject = subject_of-some (given c.sub) sub (ground arith);
    }
  ]
    where
      no_email : c.email ≡ none → ⊥
      no_email m = ground arith

-- What a client row shows after its promotion.
pub record IsPromoted (id : Text) (db : OAuthDb) : Type 0 where
  pub client : ClientRow
  pub stored : lookup id db.clients ≡ some client
  pub owner : client.owner_authorized ≡ true

promote_row-IsPromoted :
    (now ttl : ℕ) (id : Text) (o : Option ClientRow) (db : OAuthDb)
    → lookup id db.clients ≡ o
    → (promote_row now ttl id o db).1 ≡ true
    → IsPromoted id (promote_row now ttl id o db).0
promote_row-IsPromoted now ttl id none db l = λ h. ground arith
promote_row-IsPromoted now ttl id (some c) db l =
    elim (Bool-cases (is_pending c && is_stale now ttl c)) [
      | inl s ↦ rw s (λ h. ground arith)
      | inr s ↦ elim (Bool-cases c.owner_authorized) [
        | inl o ↦ rw (s, o) (λ h. record { client = c; stored = l; owner = o })
        | inr o ↦ elim (Bool-cases (leb durable_client_cap (count_values is_durable db.clients))) [
          | inl f ↦ rw (s, o, f) (λ h. ground arith)
          | inr f ↦
              rw (s, o, f)
                (λ h. record {
                  client = record c { owner_authorized = true; owner_authorized_at = some now };
                  stored = lookup-insert_self id _ db.clients;
                  owner = refl;
                })
        ]
      ]
    ]

-- The code that a callback issues, and the client it is for.
pub record CodeIssued (digest : Text → Text) (cfg : BrokerSettings) (clock : CallbackClock)
    (raw sub : Text) (txn : LoginTransaction) (response : CallbackResponse) (db : OAuthDb)
    : Type 0 where
  pub answered : response ≡ code_issued txn.redirect_uri raw txn.client_state
  pub promoted : IsPromoted txn.client_id db
  pub stored : lookup (digest raw) db.codes ≡ some (code_row cfg clock.issued sub txn)

-- What a stored code leaves behind.
record IsStored (digest : Text → Text) (raw : Text) (row : CodeRow) (db e : OAuthDb)
    (o : Option Text) : Type 0 where
  same_raw : o ≡ some raw
  code : lookup (digest raw) e.codes ≡ some (record row { consumed_at = none })
  same_clients : e.clients ≡ db.clients

issue_authorization_code-IsStored :
    (digest : Text → Text) (raw : Text) (row : CodeRow) (db : OAuthDb)
    → ((issue_authorization_code digest raw row db).1 ≡ none)
      ⊎ IsStored digest raw row db
          (issue_authorization_code digest raw row db).0
          (issue_authorization_code digest raw row db).1
unfolding issue_authorization_code
issue_authorization_code-IsStored digest raw row db =
    let fresh = record row { consumed_at = none } in
    elim (Option-cases (insert_new (digest raw) fresh db.codes)) [
      | inl n ↦ inl (rw (issue_authorization_code, n) refl)
      | inr (x, n) ↦
          let q = insert_new_lem (digest raw) fresh db.codes x n in
          inr (
            rw (issue_authorization_code, n)
              (record {
                same_raw = refl;
                code = rw q.1 (lookup-insert_self (digest raw) fresh db.codes);
                same_clients = refl;
              }))
    ]

module _ (digest : Text → Text) (cfg : BrokerSettings) (clock : CallbackClock) (raw : Text) where
  pub grant_code-CodeIssued :
      (sub : Text) (txn : LoginTransaction) (db : OAuthDb) (u c : Text) (st : Option Text)
      → (grant_code digest cfg clock raw sub txn db).1 ≡ code_issued u c st
      → CodeIssued digest cfg clock raw sub txn
          (grant_code digest cfg clock raw sub txn db).1
          (grant_code digest cfg clock raw sub txn db).0
  unfolding grant_code promote_client
  grant_code-CodeIssued sub txn db u c st =
      let promotion = promote_client clock.promoted pending_client_ttl txn.client_id db in
      elim (Bool-cases promotion.1) [
        | inr e ↦ rw e (λ h. ground arith)
        | inl e ↦
            let p =
              promote_row-IsPromoted clock.promoted pending_client_ttl txn.client_id _ db refl e in
            elim (issue_authorization_code-IsStored digest raw (code_row cfg clock.issued sub txn)
              promotion.0) [
                | inl n ↦ rw (e, n) (λ h. ground arith)
                | inr q ↦ rw e (λ h. record {
                  answered = rw q.same_raw refl;
                  promoted = record {
                    client = p.client;
                    stored = rw q.same_clients p.stored;
                    owner = p.owner;
                  };
                  stored = q.code;
                })
              ]
      ]
