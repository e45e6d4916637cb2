-- ===== src/Core.antt =====
-- The Core's side of the Shell protocol: src/syllva/core/stdio.py. Messages are JSON objects, one on
-- a line; `loads` in `Framing` stands for `json.loads` on a line of bytes.
pub mod Handshake
pub mod Framing
pub mod Loop
pub mod Liveness
pub mod Moves
pub mod Composition
mod Examples
use syllva.Prelude.{
  ℕ, ◌+◌, Text, codes, teq, Bool, true, false, ◌&&◌, ◌||◌, not, Option, none, some, List, [], ◌∷◌,
  leb, ◌==◌, if◌then◌else◌, length, any,
}
use syllva.Gate.Canonical.{Json, str, int, dict, Fields, end, field}
use syllva.Gate.Mac.{digits64, decode64}

abbrev pub protocol_version : ℕ
protocol_version = 1

abbrev pub max_line : ℕ
max_line = 65536

-- In milliseconds.
abbrev pub ping_timeout : ℕ
ping_timeout = 30_000

-- The exit codes of the loop, and 1 for an exception that leaves it.
abbrev pub exit_ok : ℕ
exit_ok = 0

abbrev pub exit_crash : ℕ
exit_crash = 1

abbrev pub exit_protocol : ℕ
exit_protocol = 2

abbrev pub exit_shell_gone : ℕ
exit_shell_gone = 5

-- `message.get(key)`
unfoldable pub get : Text → Fields → Option Json
get key end = none
get key (field k v fs) = if teq k key then some v else get key fs

abbrev pub string_of : Option Json → Option Text
string_of (some (str t)) = some t
string_of _ = none

-- `type(x) is int and x == PROTOCOL_VERSION`
abbrev pub is_version : Option Json → Bool
is_version (some (int n)) = n == protocol_version
is_version _ = false

abbrev pub is_lower_alnum : ℕ → Bool
is_lower_alnum c = leb 97 c && leb c 122 || leb 48 c && leb c 57

abbrev pub is_label_char : ℕ → Bool
is_label_char c = is_lower_alnum c || c == 45

abbrev pub is_hex : ℕ → Bool
is_hex c = leb 48 c && leb c 57 || leb 97 c && leb c 102

-- `[a-z0-9][a-z0-9-]{0,31}`
unfoldable pub is_window_label : Text → Bool
is_window_label [] = false
is_window_label (c ∷ cs) =
    is_lower_alnum c && not (any (λ d. not (is_label_char d)) cs) && leb (length cs) 31

-- `[0-9a-f]{32}`
unfoldable pub is_nonce_id : Text → Bool
is_nonce_id t = not (any (λ d. not (is_hex d)) t) && length t == 32

-- A text that passes the test, as the guards of the loop read one.
abbrev pub matched : (Text → Bool) → Option Text → Option Text
matched p none = none
matched p (some t) = if p t then some t else none

pub record Hello : Type 0 where
  pub secret : Text
  pub shell_version : Text
  pub platform : Text

abbrev pub decode_secret : Option Text → Option Text
decode_secret none = none
decode_secret (some []) = none
decode_secret (some (c ∷ cs)) = elim (digits64 (c ∷ cs)) [ none ↦ none | some ds ↦ decode64 ds ]

-- `Secret` takes 32 bytes.
abbrev pub is_secret : Text → Bool
is_secret bytes = length bytes == 32

abbrev pub is_shell_version : Text → Bool
is_shell_version t = leb 1 (length t) && leb (length t) 64

abbrev pub is_platform : Text → Bool
is_platform t = teq t (codes "darwin") || teq t (codes "win32") || teq t (codes "linux")

abbrev pub make_hello : (secret version platform : Option Text) → Option Hello
make_hello (some secret) (some version) (some platform) =
    some (record { secret = secret; shell_version = version; platform = platform })
make_hello _ _ _ = none

abbrev pub is_hello : Option Text → Bool
is_hello none = false
is_hello (some t) = teq t (codes "hello")

-- `none` is a `ProtocolViolation`.
unfoldable pub parse_hello : Fields → Option Hello
unfolding get digits64 decode64
parse_hello m =
    if is_hello (string_of (get (codes "t") m)) && is_version (get (codes "v") m)
    then make_hello (matched is_secret (decode_secret (string_of (get (codes "secret_b64") m))))
        (matched is_shell_version (string_of (get (codes "shell_version") m)))
        (matched is_platform (string_of (get (codes "platform") m)))
    else none

-- What the reader thread puts in the inbox: a message, the end of the input (`None`), or a
-- `ProtocolViolation`.
pub data Item : Type 0 where
  message : Fields → Item
  eof violation : Item

-- What the first read gives: the hello, or the exit code without it. A read that dies is a crash.
pub data Greeting : Type 0 where
  greeted : Hello → Greeting
  stopped : ℕ → Greeting

abbrev pub greeting_of : Option Hello → Greeting
greeting_of none = stopped exit_protocol
greeting_of (some h) = greeted h

unfoldable pub handshake : Item → Greeting
unfolding parse_hello
handshake eof = stopped exit_shell_gone
handshake violation = stopped exit_protocol
handshake (message m) = greeting_of (parse_hello m)
