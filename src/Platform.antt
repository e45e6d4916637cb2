-- ===== src/Platform.antt =====
-- What the program takes from Python's `hashlib`, `hmac` and `unicodedata`, as a parameter: SHA-256
-- as a hex digest of a text's UTF-8 encoding, HMAC-SHA-256, UTF-8, and the Unicode database (NFC
-- normalisation, the categories that begin with C, and the white space of `re` and `str.strip`).
use syllva.Prelude.{ℕ, Text, Bool}

pub record Platform : Type 0 where
  pub sha256_hex : Text → Text
  pub hmac_sha256 : (key message : Text) → Text
  pub utf8 : Text → Text
  pub nfc : Text → Text
  pub is_category_c : ℕ → Bool
  pub is_space : ℕ → Bool
