-- ===== src/Core/Liveness.antt =====
-- When the loop of src/syllva/core/stdio.py returns.
use syllva.Prelude.{
  ℕ, ◌+◌, ◌-◌, ◌<◌, Text, codes, teq, Bool, true, false, ◌||◌, ◌&&◌, not, Option, none, some, List,
  [], ◌∷◌, ◌++◌, ◌≡◌, ◌≢◌, refl, ap, ◌∙◌, arith, inl, inr, Bool-cases, Option-cases, ltb,
}
use syllva.Platform.{Platform}
use syllva.Gate.Canonical.{Fields}
use syllva.Gate.Service.{Confirmed}
use syllva.Core.{
  Hello, message, eof, violation, get, string_of, is_version, ping_timeout, exit_ok,
  exit_shell_gone,
}
use syllva.Core.Loop.{
  Core, Turn, Turned, goes_on, exits, core_of, Received, empty, item, send, Reply, is_gate_kind,
  answer_confirm, gate_window, gate_nonce, gate_message, end_session, bootstrap_session, serve_kind,
  serve_message, serve, loop, continue_with,
}

-- A message of this type and of the protocol's version.
abbrev pub is_kind : Text → Fields → Bool
is_kind kind m = elim (string_of (get (codes "t") m)) [ none ↦ false | some k ↦ teq k kind ]

abbrev pub is_ping : Received → Bool
is_ping (item (message m)) = is_kind (codes "ping") m
is_ping _ = false

abbrev pub no_ping : List (Received × Turn) → Bool
no_ping [] = true
no_ping ((r, t) ∷ turns) = not (is_ping r) && no_ping turns

-- The loop has returned.
abbrev pub HasExited : Core × Option ℕ → Type 0
HasExited run = (code : ℕ) × (run.1 ≡ some code)

continue_with-HasExited :
    (u : Turned) (rest : Core → Core × Option ℕ)
    → ((core : Core) → core ≡ core_of u → HasExited (rest core))
    → HasExited (continue_with u rest)
continue_with-HasExited (goes_on core sent) rest h = h core refl
continue_with-HasExited (exits code core sent) rest h = (code, refl)

abbrev pub is_shutdown : Received → Bool
is_shutdown (item (message m)) = is_kind (codes "shutdown") m
is_shutdown _ = false

abbrev pub any_shutdown : List (Received × Turn) → Bool
any_shutdown [] = false
any_shutdown ((r, t) ∷ turns) = is_shutdown r || any_shutdown turns

abbrev exit_of : Turned → Option ℕ
exit_of (goes_on core sent) = none
exit_of (exits code core sent) = some code

continue_with-exit :
    (u : Turned) (rest : Core → Core × Option ℕ)
    → exit_of u ≢ some exit_ok
    → (continue_with u rest).1 ≡ some exit_ok
    → (core : Core) × ((rest core).1 ≡ some exit_ok)
continue_with-exit (goes_on core sent) rest n h = (core, h)
continue_with-exit (exits code core sent) rest n h = absurd (n h)

-- A turn that is neither a ping nor a shutdown.
record IsOrdinary (core : Core) (u : Turned) : Type 0 where
  kept : (core_of u).last_ping ≡ core.last_ping
  busy : exit_of u ≢ some exit_ok

module _ (p : Platform) (digest : Text → Text) (hello : Hello) where
  send-IsOrdinary :
      (t : Turn) (reply : Reply) (core next : Core)
      → next.last_ping ≡ core.last_ping
      → IsOrdinary core (send t reply next)
  send-IsOrdinary t reply core next h = elim (Bool-cases t.pipe_open) [
    | inl e ↦ rw e (record { kept = h; busy = λ q. ground arith })
    | inr e ↦ rw e (record { kept = h; busy = λ q. ground arith })
  ]

  answer_confirm-IsOrdinary :
      (t : Turn) (core : Core) (done : Confirmed)
      → IsOrdinary core (answer_confirm p digest hello t core done)
  answer_confirm-IsOrdinary t core done = elim (Option-cases done.answer) [
    | inl n ↦ rw n (record { kept = refl; busy = λ q. ground arith })
    | inr (a, n) ↦ rw n (send-IsOrdinary t _ core _ refl)
  ]

  gate_window-IsOrdinary :
      (t : Turn) (m : Fields) (kind nonce_id : Text) (window : Option Text) (core : Core)
      → IsOrdinary core (gate_window p digest hello t m kind nonce_id window core)
  gate_window-IsOrdinary t m kind nonce_id none core = send-IsOrdinary t _ core _ refl
  gate_window-IsOrdinary t m kind nonce_id (some window) core =
      elim (Bool-cases (teq kind (codes "gate.get"))) [
        | inl e ↦ rw e (send-IsOrdinary t _ core _ refl)
        | inr e ↦ rw e (answer_confirm-IsOrdinary t core _)
      ]

  gate_nonce-IsOrdinary :
      (t : Turn) (m : Fields) (kind : Text) (nonce_id : Option Text) (core : Core)
      → IsOrdinary core (gate_nonce p digest hello t m kind nonce_id core)
  gate_nonce-IsOrdinary t m kind none core = send-IsOrdinary t _ core _ refl
  gate_nonce-IsOrdinary t m kind (some nonce_id) core =
      elim (Bool-cases (teq kind (codes "gate.deny"))) [
        | inl e ↦ rw e (send-IsOrdinary t _ core _ refl)
        | inr e ↦ rw e (gate_window-IsOrdinary t m kind nonce_id _ core)
      ]

  end_session-IsOrdinary :
      (t : Turn) (label : Option Text) (core : Core) → IsOrdinary core (end_session t label core)
  end_session-IsOrdinary t none core = send-IsOrdinary t _ core _ refl
  end_session-IsOrdinary t (some label) core = send-IsOrdinary t _ core _ refl

  bootstrap_session-IsOrdinary :
      (t : Turn) (label : Option Text) (core : Core)
      → IsOrdinary core (bootstrap_session p digest hello t label core)
  bootstrap_session-IsOrdinary t none core = send-IsOrdinary t _ core _ refl
  bootstrap_session-IsOrdinary t (some label) core = send-IsOrdinary t _ core _ refl

  serve_kind-last_ping :
      (t : Turn) (m : Fields) (kind : Text) (core : Core)
      → teq kind (codes "ping") ≡ false
      → (core_of (serve_kind p digest hello t m kind core)).last_ping ≡ core.last_ping
  unfolding serve_kind gate_message
  serve_kind-last_ping t m kind core n = rw n (elim (Bool-cases (teq kind (codes "shutdown"))) [
    | inl s ↦ rw s (ground arith)
    | inr s ↦ elim (Bool-cases (teq kind (codes "session.end"))) [
      | inl e ↦ rw (s, e) (end_session-IsOrdinary t _ core).kept
      | inr e ↦ elim (Bool-cases (teq kind (codes "session.bootstrap"))) [
        | inl b ↦ rw (s, e, b) (bootstrap_session-IsOrdinary t _ core).kept
        | inr b ↦ elim (Bool-cases (is_gate_kind kind)) [
          | inl g ↦ rw (s, e, b, g) (gate_nonce-IsOrdinary t m kind _ core).kept
          | inr g ↦ rw (s, e, b, g) (send-IsOrdinary t _ core core refl).kept
        ]
      ]
    ]
  ])

  serve_message-last_ping :
      (t : Turn) (m : Fields) (kind : Option Text) (core : Core)
      → ((k : Text) → kind ≡ some k → teq k (codes "ping") ≡ false)
      → (core_of (serve_message p digest hello t m kind core)).last_ping ≡ core.last_ping
  serve_message-last_ping t m none core n = refl
  serve_message-last_ping t m (some kind) core n =
      elim (Bool-cases (not (is_version (get (codes "v") m)) || teq kind (codes "hello"))) [
        | inl e ↦ rw e refl
        | inr e ↦ rw e (serve_kind-last_ping t m kind core (n kind refl))
      ]

  -- Only a ping moves the clock of the last ping.
  serve-last_ping :
      (r : Received) (t : Turn) (core : Core)
      → is_ping r ≡ false
      → (core_of (serve p digest hello r t core)).last_ping ≡ core.last_ping
  unfolding serve
  serve-last_ping empty t core n = ground arith
  serve-last_ping (item eof) t core n = refl
  serve-last_ping (item violation) t core n = refl
  serve-last_ping (item (message m)) t core n =
      serve_message-last_ping t m (string_of (get (codes "t") m)) core (λ k e. ground arith)

  -- The Core does not outlive its Shell: where no ping comes, whatever else is received, the loop has
  -- returned once its inbox is found empty more than 30 seconds after the last ping.
  pub loop-ping_timeout :
      (turns : List (Received × Turn)) (t : Turn) (core : Core)
      → no_ping turns ≡ true
      → core.last_ping + ping_timeout < t.now
      → HasExited (loop p digest hello (turns ++ ((empty, t) ∷ [])) core)
  unfolding loop serve
  loop-ping_timeout [] t core n h =
      let e : ltb ping_timeout (t.now - core.last_ping) ≡ true = ground arith in
      rw e (exit_shell_gone, refl)
  loop-ping_timeout ((r, s) ∷ turns) t core n h =
      continue_with-HasExited (serve p digest hello r s core) _ (λ d e.
        let k = serve-last_ping r s core (ground arith) in
        let l : d.last_ping ≡ core.last_ping = ap (λ c. c.last_ping) e ∙ k in
        loop-ping_timeout turns t d (ground arith) (omega arith))

  serve_kind-exit :
      (t : Turn) (m : Fields) (kind : Text) (core : Core)
      → teq kind (codes "shutdown") ≡ false
      → exit_of (serve_kind p digest hello t m kind core) ≢ some exit_ok
  unfolding serve_kind gate_message
  serve_kind-exit t m kind core n = elim (Bool-cases (teq kind (codes "ping"))) [
    | inl i ↦ rw i (send-IsOrdinary t _ (record core { last_ping = t.now }) _ refl).busy
    | inr i ↦
        rw (i, n)
          (elim (Bool-cases (teq kind (codes "session.end"))) [
            | inl e ↦ rw e (end_session-IsOrdinary t _ core).busy
            | inr e ↦ elim (Bool-cases (teq kind (codes "session.bootstrap"))) [
              | inl b ↦ rw (e, b) (bootstrap_session-IsOrdinary t _ core).busy
              | inr b ↦ elim (Bool-cases (is_gate_kind kind)) [
                | inl g ↦ rw (e, b, g) (gate_nonce-IsOrdinary t m kind _ core).busy
                | inr g ↦ rw (e, b, g) (send-IsOrdinary t _ core core refl).busy
              ]
            ]
          ])
  ]

  serve_message-exit :
      (t : Turn) (m : Fields) (kind : Option Text) (core : Core)
      → ((k : Text) → kind ≡ some k → teq k (codes "shutdown") ≡ false)
      → exit_of (serve_message p digest hello t m kind core) ≢ some exit_ok
  serve_message-exit t m none core n = λ q. ground arith
  serve_message-exit t m (some kind) core n =
      elim (Bool-cases (not (is_version (get (codes "v") m)) || teq kind (codes "hello"))) [
        | inl e ↦ rw e (λ q. ground arith)
        | inr e ↦ rw e (serve_kind-exit t m kind core (n kind refl))
      ]

  serve-exit :
      (r : Received) (t : Turn) (core : Core)
      → is_shutdown r ≡ false
      → exit_of (serve p digest hello r t core) ≢ some exit_ok
  unfolding serve
  serve-exit empty t core n = elim (Bool-cases (ltb ping_timeout (t.now - core.last_ping))) [
    | inl e ↦ rw e (λ q. ground arith)
    | inr e ↦ rw e (λ q. ground arith)
  ]
  serve-exit (item eof) t core n = λ q. ground arith
  serve-exit (item violation) t core n = λ q. ground arith
  serve-exit (item (message m)) t core n =
      serve_message-exit t m (string_of (get (codes "t") m)) core (λ k e. ground arith)

  -- The loop returns 0 only where a message of the type "shutdown" was received.
  pub loop-exit_ok :
      (turns : List (Received × Turn)) (core : Core)
      → (loop p digest hello turns core).1 ≡ some exit_ok
      → any_shutdown turns ≡ true
  unfolding loop
  loop-exit_ok [] core h = ground arith
  loop-exit_ok ((r, t) ∷ turns) core h = elim (Bool-cases (is_shutdown r)) [
    | inl e ↦ ground arith
    | inr e ↦
        let i =
          continue_with-exit (serve p digest hello r t core) (loop p digest hello turns)
            (serve-exit r t core e) h in
        let j = loop-exit_ok turns i.0 i.1 in ground arith
  ]
