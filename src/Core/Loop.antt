-- ===== src/Core/Loop.antt =====
-- `_loop` and `_gate_message` of src/syllva/core/stdio.py, over the session store and the gate. A turn
-- of the loop takes one result of `inbox.get`; its clock readings, its token and the circumstances of a
-- commit come with it. The gate is always given, as `run_stdio` does.
use syllva.Prelude.{
  ℕ, ◌-◌, Text, codes, teq, Bool, ◌||◌, not, Option, none, some, List, [], ◌∷◌, ltb, if◌then◌else◌,
}
use syllva.Platform.{Platform}
use syllva.State.{Database}
use syllva.State.Commit.{Fault}
use syllva.Sessions.{SessionStore, issue_bootstrap, end_window, alive}
use syllva.Gate.{Gate}
use syllva.Gate.Canonical.{Json, int, neg, Fields}
use syllva.Gate.Service.{Answer, View, Circumstance, Confirmed, view, deny, confirm}
use syllva.Core.{
  Hello, Item, message, eof, violation, get, string_of, is_version, is_window_label, is_nonce_id,
  matched, ping_timeout, exit_ok, exit_crash, exit_protocol, exit_shell_gone,
}

pub record Core : Type 0 where
  pub sessions : SessionStore
  pub gate : Gate
  pub db : Database
  pub last_ping : ℕ

-- What happens around a turn: the clock of the loop, the clock of each part where it is called, the
-- token drawn, the database, and whether the Shell still reads what is written.
pub record Turn : Type 0 where
  pub now : ℕ
  pub pruned : ℕ
  pub issued : ℕ
  pub token : Text
  pub gate_now : ℕ
  pub alive_now : ℕ
  pub busy : Bool
  pub fault : Fault
  pub confirmed_at : Text
  pub pipe_open : Bool

pub data ErrorCode : Type 0 where
  bad_nonce bad_window_label unknown_type : ErrorCode

pub data Reply : Type 0 where
  pong : Option Json → Reply
  bye : Reply
  error : ErrorCode → Reply
  session_ended : (window_label : Text) → (ended : Bool) → Reply
  bootstrap_ok : (window_label bootstrap : Text) → Reply
  gate_view : View → Reply
  gate_result : Answer → Reply

-- A turn goes on, or the process ends with a code, after what it sent.
pub data Turned : Type 0 where
  goes_on : Core → List Reply → Turned
  exits : ℕ → Core → List Reply → Turned

abbrev pub core_of : Turned → Core
core_of (goes_on core sent) = core
core_of (exits code core sent) = core

-- `channel.send`: a broken pipe is a `ShellGone`, which ends the process.
abbrev pub send : Turn → Reply → Core → Turned
send t reply core = if t.pipe_open then goes_on core (reply ∷ []) else exits exit_shell_gone core []

abbrev pub int_of : Option Json → Option Json
int_of (some (int n)) = some (int n)
int_of (some (neg n)) = some (neg n)
int_of _ = none

-- `queue.Empty`, or an item of the inbox.
pub data Received : Type 0 where
  empty : Received
  item : Item → Received

abbrev pub is_gate_kind : Text → Bool
is_gate_kind kind =
    teq kind (codes "gate.get") || teq kind (codes "gate.confirm") || teq kind (codes "gate.deny")

abbrev pub end_session : Turn → Option Text → Core → Turned
end_session t none core = send t (error bad_window_label) core
end_session t (some label) core =
    let ended = end_window label core.sessions in
    send t (session_ended label ended.1) (record core { sessions = ended.0 })

-- The exit code, where the loop has returned, and the state with which it waits or has returned.
abbrev pub continue_with : Turned → (Core → Core × Option ℕ) → Core × Option ℕ
continue_with (goes_on core sent) rest = rest core
continue_with (exits code core sent) rest = (core, some code)

module _ (p : Platform) (digest : Text → Text) (hello : Hello) where
  abbrev pub circumstance : Turn → Core → Circumstance
  circumstance t core = record {
    secret = some hello.secret;
    shell_version = hello.shell_version;
    now = t.gate_now;
    alive = λ sid. alive digest t.alive_now sid core.sessions;
    busy = t.busy;
    fault = t.fault;
    confirmed_at = t.confirmed_at;
  }

  -- An interrupt that `confirm` raises again leaves the loop.
  abbrev pub answer_confirm : Turn → Core → Confirmed → Turned
  answer_confirm t core done = elim done.answer [
    | none ↦ exits exit_crash (record core { gate = done.gate; db = done.db }) []
    | some a ↦ send t (gate_result a) (record core { gate = done.gate; db = done.db })
  ]

  abbrev pub gate_window : Turn → Fields → (kind nonce_id : Text) → Option Text → Core → Turned
  gate_window t m kind nonce_id none core = send t (error bad_window_label) core
  gate_window t m kind nonce_id (some window) core =
      if teq kind (codes "gate.get")
      then (let seen = view t.gate_now (circumstance t core).alive nonce_id window core.gate in
          send t (gate_view seen.1) (record core { gate = seen.0 }))
      else answer_confirm t core (
          confirm p (circumstance t core) nonce_id window (string_of (get (codes "mac_b64") m))
            core.gate core.db)

  abbrev pub gate_nonce : Turn → Fields → (kind : Text) → Option Text → Core → Turned
  gate_nonce t m kind none core = send t (error bad_nonce) core
  gate_nonce t m kind (some nonce_id) core =
      if teq kind (codes "gate.deny")
      then (let denied = deny t.gate_now nonce_id core.gate in
          send t (gate_result denied.1) (record core { gate = denied.0 }))
      else gate_window t m kind nonce_id
          (matched is_window_label (string_of (get (codes "window_label") m))) core

  unfoldable pub gate_message : Turn → Fields → (kind : Text) → Core → Turned
  unfolding get is_window_label is_nonce_id view deny confirm
  gate_message t m kind core =
      gate_nonce t m kind (matched is_nonce_id (string_of (get (codes "nonce_id") m))) core

  abbrev pub bootstrap_session : Turn → Option Text → Core → Turned
  bootstrap_session t none core = send t (error bad_window_label) core
  bootstrap_session t (some label) core = send t (bootstrap_ok label t.token) (record core {
    sessions = issue_bootstrap digest t.pruned t.issued t.token label core.sessions;
  })

  -- The branches of the loop by the type of the message.
  unfoldable pub serve_kind : Turn → Fields → (kind : Text) → Core → Turned
  unfolding gate_message end_window issue_bootstrap get is_window_label
  serve_kind t m kind core =
      if teq kind (codes "ping")
      then send t (pong (int_of (get (codes "seq") m))) (record core { last_ping = t.now })
      else if teq kind (codes "shutdown")
      then (if t.pipe_open then exits exit_ok core (bye ∷ []) else exits exit_shell_gone core [])
      else if teq kind (codes "session.end")
      then end_session t (matched is_window_label (string_of (get (codes "window_label") m))) core
      else if teq kind (codes "session.bootstrap")
      then bootstrap_session t (matched is_window_label (string_of (get (codes "window_label") m)))
          core
      else if is_gate_kind kind
      then gate_message t m kind core
      else send t (error unknown_type) core

  abbrev pub serve_message : Turn → Fields → Option Text → Core → Turned
  serve_message t m none core = exits exit_protocol core []
  serve_message t m (some kind) core =
      if not (is_version (get (codes "v") m)) || teq kind (codes "hello")
      then exits exit_protocol core []
      else serve_kind t m kind core

  unfoldable pub serve : Received → Turn → Core → Turned
  unfolding serve_kind get
  serve empty t core =
      if ltb ping_timeout (t.now - core.last_ping)
      then exits exit_shell_gone core []
      else goes_on core []
  serve (item eof) t core = exits exit_shell_gone core []
  serve (item violation) t core = exits exit_protocol core []
  serve (item (message m)) t core = serve_message t m (string_of (get (codes "t") m)) core

  unfoldable pub loop : List (Received × Turn) → Core → Core × Option ℕ
  unfolding serve
  loop [] core = (core, none)
  loop ((r, t) ∷ turns) core = continue_with (serve r t core) (loop turns)
