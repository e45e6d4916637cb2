-- ===== src/OAuth/Broker/Google.antt =====
-- The exchange with Google of src/syllva/mcp/transports/oauth.py: `_exchange_google_code_sync` and
-- `_verify_google_identity`. The HTTP call, the JWT library, the JSON reader and Python's
-- `str.strip().lower()` are the fields of `Google`; an exception of a failed verification is `unavailable`.
use syllva.Prelude.{
  ℕ, Text, codes, teq, Bool, ◌||◌, not, Option, none, some, [], ◌∷◌, ltb, ◌==◌, if◌then◌else◌,
  length,
}
use syllva.OAuth.Broker.{LoginTransaction, BrokerSettings, google_response_limit}

pub record GoogleResponse : Type 0 where
  pub status : ℕ
  pub body : Text

pub record TokenHeader : Type 0 where
  pub alg : Option Text
  pub kid : Option Text

-- The claims of a decoded ID token: `nonce` is `str(claims.get("nonce", ""))`, and `email` and `sub`
-- are present where they are strings. A nonce is ASCII: `compare_digest` takes no other text.
pub record Claims : Type 0 where
  pub nonce : Text
  pub email : Option Text
  pub email_verified : Bool
  pub sub : Option Text

-- What the provider calls: the POST to Google's token endpoint, the field `id_token` of a JSON body
-- where it is a string, `jwt.get_unverified_header`, the signing key of a key id, `jwt.decode` with its
-- checks, `str.strip().lower()`.
pub record Google : Type 0 where
  pub post : (code verifier : Text) → Option GoogleResponse
  pub id_token : Text → Option Text
  pub header : Text → Option TokenHeader
  pub signing_key : Text → Option Text
  pub decode : (id_token key alg : Text) → Option Claims
  pub normalize : Text → Text

pub data Verified : Type 0 where
  subject : Text → Verified
  owner_denied unavailable : Verified

-- A text that is present and not empty.
abbrev pub given : Option Text → Option Text
given none = none
given (some []) = none
given (some (c ∷ cs)) = some (c ∷ cs)

abbrev pub is_allowed_algorithm : Text → Bool
is_allowed_algorithm alg = teq alg (codes "RS256") || teq alg (codes "ES256")

abbrev pub subject_of : Option Text → Verified
subject_of none = unavailable
subject_of (some s) = subject s

module _ (google : Google) where
  abbrev pub token_of_response : Option GoogleResponse → Option Text
  token_of_response none = none
  token_of_response (some r) =
      if not (r.status == 200) || ltb google_response_limit (length r.body)
      then none
      else given (google.id_token r.body)

  unfoldable pub exchange_google_code : (code : Text) → LoginTransaction → Option Text
  exchange_google_code code txn = token_of_response (google.post code txn.upstream_code_verifier)

  abbrev pub check_owner : (email : Text) → Option Text → Claims → Verified
  check_owner authorized none claims = owner_denied
  check_owner authorized (some email) claims =
      if not claims.email_verified
      then owner_denied
      else if not (teq (google.normalize email) authorized)
      then owner_denied
      else subject_of (given claims.sub)

  unfoldable pub check_claims : (nonce authorized_email : Text) → Option Claims → Verified
  check_claims nonce authorized none = unavailable
  check_claims nonce authorized (some claims) =
      if not (teq claims.nonce nonce)
      then unavailable
      else check_owner authorized claims.email claims

  abbrev pub decode_with : (id_token alg : Text) → Option Text → Option Claims
  decode_with t alg none = none
  decode_with t alg (some key) = google.decode t key alg

  abbrev pub decode_signed : (id_token : Text) → (alg kid : Option Text) → Option Claims
  decode_signed t none kid = none
  decode_signed t (some alg) none = none
  decode_signed t (some alg) (some kid) =
      if is_allowed_algorithm alg then decode_with t alg (google.signing_key kid) else none

  abbrev pub decode_header : (id_token : Text) → Option TokenHeader → Option Claims
  decode_header t none = none
  decode_header t (some h) = decode_signed t h.alg (given h.kid)

  unfoldable pub verify_google_identity : BrokerSettings → (nonce id_token : Text) → Verified
  unfolding check_claims
  verify_google_identity cfg nonce t =
      check_claims nonce cfg.authorized_email (decode_header t (google.header t))
