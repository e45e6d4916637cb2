-- ===== src/Gate/Mac.antt =====
-- The Shell's message authentication code: src/syllva/gate/mac.py, and `_b64` of
-- src/syllva/gate/service.py.
use syllva.Prelude.{
  ℕ, ◌+◌, ◌-◌, ◌*◌, ◌/◌, ◌%◌, ◌^◌, Text, codes, teq, Bool, ◌&&◌, Option, none, some, [], ◌∷◌, ◌++◌,
  leb, ◌==◌, if◌then◌else◌, length,
}
use syllva.Platform.{Platform}

-- `DOMAIN`: "syllva-gate-v1" and a zero byte.
abbrev pub domain : Text
domain = codes "syllva-gate-v1" ++ 0 ∷ []

-- `to_bytes(4, "big")` of a length; Python refuses a length of 2 ** 32 or more.
unfoldable pub len32 : Text → Text
len32 bytes =
    let n = length bytes in n / 2 ^ 24 % 256 ∷ n / 2 ^ 16 % 256 ∷ n / 2 ^ 8 % 256 ∷ n % 256 ∷ []

unfoldable pub message : (nonce digest : Text) → Text
unfolding len32
message nonce digest = domain ++ (len32 nonce ++ (nonce ++ (len32 digest ++ digest)))

module _ (p : Platform) where
  unfoldable pub compute : (key nonce_id request_hash : Text) → Text
  compute key nonce_id request_hash =
      p.hmac_sha256 key (message (p.utf8 nonce_id) (p.utf8 request_hash))

  unfoldable pub verify : (key nonce_id request_hash presented : Text) → Bool
  verify key nonce_id request_hash presented = teq (compute key nonce_id request_hash) presented

-- The value of a character of the URL-safe alphabet.
abbrev digit64 : ℕ → Option ℕ
digit64 c =
    if leb 65 c && leb c 90
    then some (c - 65)
    else if leb 97 c && leb c 122
    then some (c - 71)
    else if leb 48 c && leb c 57
    then some (c + 4)
    else if c == 45
    then some 62
    else if c == 95
    then some 63
    else none

-- `[A-Za-z0-9_-]{1,100}` as a list of values.
unfoldable pub digits64 : Text → Option Text
digits64 [] = some []
digits64 (c ∷ cs) = elim (digit64 c) [
  | none ↦ none
  | some d ↦ elim (digits64 cs) [ none ↦ none | some ds ↦ some (d ∷ ds) ]
]

-- `urlsafe_b64decode` with the padding added: one digit left over is a `ValueError`.
unfoldable pub decode64 : Text → Option Text
decode64 [] = some []
decode64 (a ∷ []) = none
decode64 (a ∷ b ∷ []) = some ((a * 4 + b / 16) ∷ [])
decode64 (a ∷ b ∷ c ∷ []) = some ((a * 4 + b / 16) ∷ (b % 16 * 16 + c / 4) ∷ [])
decode64 (a ∷ b ∷ c ∷ d ∷ ds) = elim (decode64 ds) [
  | none ↦ none
  | some rest ↦ some ((a * 4 + b / 16) ∷ (b % 16 * 16 + c / 4) ∷ (c % 4 * 64 + d) ∷ rest)
]

unfoldable pub b64 : Text → Option Text
unfolding digits64 decode64
b64 text =
    if leb 1 (length text) && leb (length text) 100
    then elim (digits64 text) [ none ↦ none | some ds ↦ decode64 ds ]
    else none
