-- ===== src/Core/Moves.antt =====
-- A turn of the loop of src/syllva/core/stdio.py makes at most one call, of the sessions or of the gate.
use syllva.Prelude.{
  ◌-◌, Text, codes, teq, teq_iff, Bool, true, false, ap, ◌∙◌, Option, none, some, ◌≡◌, refl, subst,
  sym, arith, inl, inr, Bool-cases, Option-cases, ltb,
}
use syllva.Platform.{Platform}
use syllva.Sessions.{issue_bootstrap, end_window}
use syllva.Gate.Canonical.{Fields}
use syllva.Gate.Service.{Confirmed, confirm, view, deny}
use syllva.Core.{
  Hello, message, eof, violation, get, string_of, is_version, is_window_label, is_nonce_id, matched,
  ping_timeout,
}
use syllva.Core.Loop.{
  Core, Turn, core_of, Received, empty, item, send, Reply, is_gate_kind, circumstance,
  answer_confirm, gate_window, gate_nonce, gate_message, end_session, bootstrap_session, serve_kind,
  serve_message, serve,
}

-- What the loop has read of a message before it lets the gate commit: it is a "gate.confirm".
pub record ConfirmMessage (r : Received) (fields : Fields) (nonce_id : Text) : Type 0 where
  pub received : r ≡ item (message fields)
  pub kind : string_of (get (codes "t") fields) ≡ some (codes "gate.confirm")
  pub versioned : is_version (get (codes "v") fields) ≡ true
  pub named : string_of (get (codes "nonce_id") fields) ≡ some nonce_id
  pub nonce_form : is_nonce_id nonce_id ≡ true

pub record WindowNamed (fields : Fields) (window : Text) : Type 0 where
  pub named : string_of (get (codes "window_label") fields) ≡ some window
  pub window_form : is_window_label window ≡ true

matched-some :
    (f : Text → Bool) (o : Option Text) (x : Text)
    → matched f o ≡ some x
    → (o ≡ some x) × (f x ≡ true)
matched-some f none x h = ground arith
matched-some f (some y) x h = ground arith

confirm_kind :
    (kind : Text)
    → is_gate_kind kind ≡ true
    → teq kind (codes "gate.deny") ≡ false
    → teq kind (codes "gate.get") ≡ false
    → kind ≡ codes "gate.confirm"
confirm_kind kind g deny view = (teq_iff kind (codes "gate.confirm")).0 (ground arith)

module _ (p : Platform) (digest : Text → Text) (hello : Hello) where
  pub data Move (r : Received) (t : Turn) (core : Core) : Core → Type 0 where
    stays : Move r t core core
    pings : Move r t core (record core { last_ping = t.now })
    ends :
        (label : Text)
        → Move r t core (record core { sessions = (end_window label core.sessions).0 })
    bootstraps :
        (label : Text)
        → Move r t core (record core {
          sessions = issue_bootstrap digest t.pruned t.issued t.token label core.sessions;
        })
    views :
        (nonce_id window : Text)
        → Move r t core (record core {
          gate =
              (view t.gate_now
                (circumstance p digest hello t core).alive
                nonce_id
                window
                core.gate).0;
        })
    denies :
        (nonce_id : Text)
        → Move r t core (record core { gate = (deny t.gate_now nonce_id core.gate).0 })
    confirms :
        (m : Fields) (nonce_id window : Text)
        → ConfirmMessage r m nonce_id
        → WindowNamed m window
        → (done : Confirmed)
        → done
          ≡ confirm p
              (circumstance p digest hello t core)
              nonce_id
              window
              (string_of (get (codes "mac_b64") m))
              core.gate
              core.db
        → Move r t core (record core { gate = done.gate; db = done.db })

  core_of-send : (t : Turn) (reply : Reply) (core : Core) → core_of (send t reply core) ≡ core
  core_of-send t reply core = ground arith

  send-Move :
      (r : Received) (t : Turn) (reply : Reply) (core next : Core)
      → Move r t core next
      → Move r t core (core_of (send t reply next))
  send-Move r t reply core next m = subst (Move r t core) (sym (core_of-send t reply next)) m

  answer_confirm-Move :
      (r : Received) (t : Turn) (core : Core) (done : Confirmed)
      → Move r t core (record core { gate = done.gate; db = done.db })
      → Move r t core (core_of (answer_confirm p digest hello t core done))
  answer_confirm-Move r t core done m = elim (Option-cases done.answer) [
    | inl n ↦ rw n m
    | inr (a, n) ↦ rw n (send-Move r t _ core _ m)
  ]

  gate_window-Move :
      (r : Received) (t : Turn) (m : Fields) (kind nonce_id : Text) (o : Option Text) (core : Core)
      → (teq kind (codes "gate.get") ≡ false → ConfirmMessage r m nonce_id)
      → ((window : Text) → o ≡ some window → WindowNamed m window)
      → Move r t core (core_of (gate_window p digest hello t m kind nonce_id o core))
  gate_window-Move r t m kind nonce_id none core g w = send-Move r t _ core core stays
  gate_window-Move r t m kind nonce_id (some window) core g w =
      elim (Bool-cases (teq kind (codes "gate.get"))) [
        | inl e ↦ rw e (send-Move r t _ core _ (views nonce_id window))
        | inr e ↦ rw e (
            answer_confirm-Move r t core _ (
              confirms m nonce_id window (g e) (w window refl)
                (confirm p (circumstance p digest hello t core) nonce_id window
                  (string_of (get (codes "mac_b64") m)) core.gate core.db)
                refl))
      ]

  gate_nonce-Move :
      (r : Received) (t : Turn) (m : Fields) (kind : Text) (o : Option Text) (core : Core)
      → ((nonce_id : Text)
          → o ≡ some nonce_id
          → teq kind (codes "gate.deny") ≡ false
          → teq kind (codes "gate.get") ≡ false
          → ConfirmMessage r m nonce_id)
      → Move r t core (core_of (gate_nonce p digest hello t m kind o core))
  gate_nonce-Move r t m kind none core g = send-Move r t _ core core stays
  gate_nonce-Move r t m kind (some nonce_id) core g =
      elim (Bool-cases (teq kind (codes "gate.deny"))) [
        | inl e ↦ rw e (send-Move r t _ core _ (denies nonce_id))
        | inr e ↦ rw e (
            gate_window-Move r t m kind nonce_id _ core (g nonce_id refl e) (λ window h.
              let c = matched-some is_window_label _ window h in
              record { named = c.0; window_form = c.1 }))
      ]

  end_session-Move :
      (r : Received) (t : Turn) (o : Option Text) (core : Core)
      → Move r t core (core_of (end_session t o core))
  end_session-Move r t none core = send-Move r t _ core core stays
  end_session-Move r t (some label) core = send-Move r t _ core _ (ends label)

  bootstrap_session-Move :
      (r : Received) (t : Turn) (o : Option Text) (core : Core)
      → Move r t core (core_of (bootstrap_session p digest hello t o core))
  bootstrap_session-Move r t none core = send-Move r t _ core core stays
  bootstrap_session-Move r t (some label) core = send-Move r t _ core _ (bootstraps label)

  serve_kind-Move :
      (r : Received) (t : Turn) (m : Fields) (kind : Text) (core : Core)
      → r ≡ item (message m)
      → is_version (get (codes "v") m) ≡ true
      → string_of (get (codes "t") m) ≡ some kind
      → Move r t core (core_of (serve_kind p digest hello t m kind core))
  unfolding serve_kind gate_message
  serve_kind-Move r t m kind core at v typed = elim (Bool-cases (teq kind (codes "ping"))) [
    | inl i ↦ rw i (send-Move r t _ core _ pings)
    | inr i ↦ elim (Bool-cases (teq kind (codes "shutdown"))) [
      | inl s ↦ elim (Bool-cases t.pipe_open) [
        | inl o ↦ rw (i, s, o) stays
        | inr o ↦ rw (i, s, o) stays
      ]
      | inr s ↦ elim (Bool-cases (teq kind (codes "session.end"))) [
        | inl e ↦ rw (i, s, e) (end_session-Move r t _ core)
        | inr e ↦ elim (Bool-cases (teq kind (codes "session.bootstrap"))) [
          | inl b ↦ rw (i, s, e, b) (bootstrap_session-Move r t _ core)
          | inr b ↦ elim (Bool-cases (is_gate_kind kind)) [
            | inl g ↦
                rw (i, s, e, b, g)
                  (gate_nonce-Move r t m kind _ core (λ nonce_id h deny view.
                    let c = matched-some is_nonce_id _ nonce_id h in
                    record {
                      received = at;
                      kind = typed ∙ ap some (confirm_kind kind g deny view);
                      versioned = v;
                      named = c.0;
                      nonce_form = c.1;
                    }))
            | inr g ↦ rw (i, s, e, b, g) (send-Move r t _ core core stays)
          ]
        ]
      ]
    ]
  ]

  serve_message-Move :
      (r : Received) (t : Turn) (m : Fields) (kind : Option Text) (core : Core)
      → r ≡ item (message m)
      → string_of (get (codes "t") m) ≡ kind
      → Move r t core (core_of (serve_message p digest hello t m kind core))
  serve_message-Move r t m none core at typed = stays
  serve_message-Move r t m (some kind) core at typed =
      elim (Bool-cases (is_version (get (codes "v") m))) [
        | inr v ↦ rw v stays
        | inl v ↦ elim (Bool-cases (teq kind (codes "hello"))) [
          | inl h ↦ rw (v, h) stays
          | inr h ↦ rw (v, h) (serve_kind-Move r t m kind core at v typed)
        ]
      ]

  pub serve-Move :
      (r : Received) (t : Turn) (core : Core)
      → Move r t core (core_of (serve p digest hello r t core))
  unfolding serve
  serve-Move empty t core = elim (Bool-cases (ltb ping_timeout (t.now - core.last_ping))) [
    | inl e ↦ rw e stays
    | inr e ↦ rw e stays
  ]
  serve-Move (item eof) t core = stays
  serve-Move (item violation) t core = stays
  serve-Move (item (message m)) t core =
      serve_message-Move (item (message m)) t m (string_of (get (codes "t") m)) core refl refl
