-- ===== src/Core/Examples.antt =====
-- A run of the Core: a bootstrap over the pipe, the exchange over HTTP, a gate request and its
-- confirmation over the pipe, with easy stand-ins for the hash functions and the JSON reader.
use syllva.Prelude.{
  ℕ, Text, codes, true, false, none, some, [], ◌∷◌, ◌≡◌, ◌⊎◌, ◌==◌, refl, teq, arith, any,
  if◌then◌else◌,
}
use syllva.Prelude.Dict.{lookup, keys_where}
use syllva.Platform.{Platform}
use syllva.State.{Database}
use syllva.State.Commit.{no_fault}
use syllva.Gate.Canonical.{str, int, dict, Fields, field, end}
use syllva.Core.{Hello, message, get, handshake, greeted}
use syllva.Core.Handshake.{IsGreeting, handshake-IsGreeting}
use syllva.Core.{handshake, greeted}
use syllva.Core.Handshake.{IsGreeting, handshake-IsGreeting}
use syllva.Core.Framing.{Loaded, loaded, recursion_error}
use syllva.Core.Loop.{Core, Turn, empty, item, core_of, serve, loop}
use syllva.Core.Liveness.{HasExited, loop-ping_timeout, any_shutdown, loop-exit_ok}
use syllva.Core.Composition.{CoreReach, turns, exchanges, begins, ShellApproved, serve-writes}
use syllva.Sessions.{new_store, exchange, prune}
use syllva.Gate.{new_gate}
use syllva.Gate.Service.{begin}

abbrev id : Text → Text
id t = t

abbrev zero_hash : Text
zero_hash = codes "0000000000000000000000000000000000000000000000000000000000000000"

abbrev plain : Platform
plain = record {
  sha256_hex = λ t. zero_hash;
  hmac_sha256 = λ key message. 0 ∷ [];
  utf8 = id;
  nfc = id;
  is_category_c = λ c. false;
  is_space = λ c. c == 32;
}

abbrev shelf : Database
shelf = record {
  courses = record { id = 1; name = codes "Networks" } ∷ [];
  source_files =
      record { id = 1; source_id = codes "s1"; display_name = codes "Week 1"; deleted_at = none }
      ∷ [];
  source_versions =
      record { id = 1; source_file_id = 1; source_version = 1; source_hash = codes "sha256:ab" }
      ∷ [];
  derivatives = [];
  materials =
      record { id = 7; material_id = codes "NET-M01"; course_id = 1; source_file_id = 1 } ∷ [];
  material_usage = [];
  human_gate_log = [];
  human_gate_uses = [];
}

abbrev hello : Hello
hello = record { secret = codes "key"; shell_version = codes "1"; platform = codes "linux" }

abbrev at_time : ℕ → Turn
at_time now = record {
  now = now;
  pruned = now;
  issued = now;
  token = codes "tok";
  gate_now = now;
  alive_now = now;
  busy = false;
  fault = no_fault;
  confirmed_at = codes "2026-11-27";
  pipe_open = true;
}

abbrev ping : Fields
ping = field (codes "t") (str (codes "ping")) (field (codes "v") (int 1) end)

abbrev shutdown : Fields
shutdown = field (codes "t") (str (codes "shutdown")) (field (codes "v") (int 1) end)

abbrev bootstrap : Fields
bootstrap =
    field (codes "t") (str (codes "session.bootstrap"))
      (field (codes "v") (int 1) (field (codes "window_label") (str (codes "main")) end))

abbrev nonce_id : Text
nonce_id = codes "0123456789abcdef0123456789abcdef"

abbrev confirmation : Fields
confirmation = field (codes "t") (str (codes "gate.confirm")) (
    field (codes "v") (int 1) (
      field (codes "nonce_id") (str nonce_id) (
        field (codes "window_label") (str (codes "main"))
          (field (codes "mac_b64") (str (codes "AA")) end))))

-- Every line is a ping.
abbrev all_pings : Text → Loaded
all_pings line = loaded (dict ping)

-- A line of two brackets is nested too deep.
abbrev shallow : Text → Loaded
shallow line = if teq line (91 ∷ 91 ∷ 10 ∷ []) then recursion_error else loaded (dict ping)

abbrev deep_input : Text
deep_input = 123 ∷ 125 ∷ 10 ∷ 91 ∷ 91 ∷ 10 ∷ []

abbrev fresh : Core
fresh = record { sessions = new_store; gate = new_gate; db = shelf; last_ping = 0 }

loop-ping_timeout_example : HasExited (
    loop plain id hello
      ((item (message bootstrap), at_time 5) ∷ (empty, at_time 30_001) ∷ [])
      fresh)
unfolding get teq
loop-ping_timeout_example =
    loop-ping_timeout plain id hello ((item (message bootstrap), at_time 5) ∷ []) (at_time 30_001)
      fresh refl (omega arith)

stops : (loop plain id hello ((item (message shutdown), at_time 5) ∷ []) fresh).1 ≡ some 0
unfolding loop teq
stops = refl

loop-exit_ok_example : any_shutdown ((item (message shutdown), at_time 5) ∷ []) ≡ true
loop-exit_ok_example =
    loop-exit_ok plain id hello ((item (message shutdown), at_time 5) ∷ []) fresh stops

abbrev with_token : Core
with_token = core_of (serve plain id hello (item (message bootstrap)) (at_time 5) fresh)

unused : lookup (codes "sid") with_token.sessions.sessions ≡ none
unfolding lookup serve teq any prune keys_where
unused = refl

with_token-CoreReach : CoreReach plain id hello with_token
with_token-CoreReach =
    CoreReach.next (CoreReach.started shelf 0) (turns (item (message bootstrap)) (at_time 5))

abbrev with_session : Core
with_session = record with_token {
  sessions =
      (exchange id 6 6 6 (codes "sid") (codes "csrf") (codes "tok") none with_token.sessions).0;
}

abbrev asked : Core
asked = record with_session {
  gate =
      (begin plain (some (codes "key")) 7 nonce_id (codes "sid") (codes "main")
        (codes "VERIFY_MATERIAL") (codes "NET-M01")
        (dict (field (codes "material_id") (str (codes "NET-M01")) end)) shelf with_session.gate).0;
}

asked-CoreReach : CoreReach plain id hello asked
unfolding serve teq any
asked-CoreReach =
    CoreReach.next
      (CoreReach.next with_token-CoreReach
        (exchanges 6 6 6 (codes "sid") (codes "csrf") (codes "tok") none unused))
      (begins 7 nonce_id (codes "sid") (codes "main") (codes "VERIFY_MATERIAL") (codes "NET-M01")
        (dict (field (codes "material_id") (str (codes "NET-M01")) end)))

serve-writes_example :
    ((core_of (serve plain id hello (item (message confirmation)) (at_time 8) asked)).db ≡ asked.db)
    ⊎ ShellApproved plain id hello
        (item (message confirmation))
        (at_time 8)
        asked
        (core_of (serve plain id hello (item (message confirmation)) (at_time 8) asked)).db
serve-writes_example =
    serve-writes plain id hello (item (message confirmation)) (at_time 8) asked asked-CoreReach

-- 43 digits of the URL-safe alphabet, which are 32 bytes.
abbrev secret_text : Text
secret_text = codes "AAAAAAAAAAAAAAAAAAAAAAAAAAAAAAAAAAAAAAAAAAA"

abbrev zeros : Text
zeros =
    0 ∷ 0 ∷ 0 ∷ 0 ∷ 0 ∷ 0 ∷ 0 ∷ 0 ∷ 0 ∷ 0 ∷ 0 ∷ 0 ∷ 0 ∷ 0 ∷ 0 ∷ 0 ∷ 0 ∷ 0 ∷ 0 ∷ 0 ∷ 0 ∷ 0 ∷ 0 ∷ 0
    ∷ 0 ∷ 0 ∷ 0 ∷ 0 ∷ 0 ∷ 0 ∷ 0 ∷ 0 ∷ []

abbrev greeting : Fields
greeting = field (codes "t") (str (codes "hello")) (
    field (codes "v") (int 1) (
      field (codes "secret_b64") (str secret_text) (
        field (codes "shell_version") (str (codes "1"))
          (field (codes "platform") (str (codes "linux")) end))))

abbrev greeted_by : Hello
greeted_by = record { secret = zeros; shell_version = codes "1"; platform = codes "linux" }

greets : handshake (message greeting) ≡ greeted greeted_by
unfolding handshake teq
greets = refl

handshake-IsGreeting_example :
    (m : Fields) × (message greeting ≡ message m) × IsGreeting m greeted_by
handshake-IsGreeting_example = handshake-IsGreeting (message greeting) greeted_by greets
