-- ===== src/Core/Composition.antt =====
-- The loop of src/syllva/core/stdio.py joins the sessions, the gate and the database.
use syllva.Prelude.{ℕ, Text, codes, true, Option, none, some, ◌≡◌, ◌⊎◌, refl, inl, inr}
use syllva.Prelude.Dict.{lookup}
use syllva.Platform.{Platform}
use syllva.State.{Database}
use syllva.Sessions.{new_store, alive, exchange, find, logout}
use syllva.Sessions.Invariant as SessionCalls
use syllva.Gate.{NonceRecord, new_gate}
use syllva.Gate.Canonical.{Json, Fields}
use syllva.Gate.Service.{begin}
use syllva.Gate.Invariant as GateInvariant
use syllva.Gate.Steps as GateCalls
use syllva.Gate.Approval.{Approved, confirm-writes}
use syllva.Core.{Hello, get, string_of}
use syllva.Core.Loop.{Core, Turn, core_of, Received, circumstance, serve}
use syllva.Core.Moves.{
  ConfirmMessage, WindowNamed, Move, stays, pings, ends, bootstraps, views, denies, confirms,
  serve-Move,
}

module _ (p : Platform) (digest : Text → Text) (hello : Hello) where
  -- A turn of the loop, or a call that the UI's HTTP server makes between two turns. `writes` is any
  -- change of the database by the other writers.
  pub data CoreStep (core : Core) : Core → Type 0 where
    turns : (r : Received) (t : Turn) → CoreStep core (core_of (serve p digest hello r t core))
    exchanges :
        (pruned now used : ℕ) (sid csrf token : Text) (label : Option Text)
        → lookup (digest sid) core.sessions.sessions ≡ none
        → CoreStep core (record core {
          sessions = (exchange digest pruned now used sid csrf token label core.sessions).0;
        })
    finds :
        (now : ℕ) (sid label : Option Text)
        → CoreStep core (record core { sessions = (find digest now sid label core.sessions).0 })
    logs_out :
        (sid : Text) → CoreStep core (record core { sessions = logout digest sid core.sessions })
    begins :
        (now : ℕ) (nonce_id session_id window action target_id : Text) (params : Json)
        → CoreStep core (record core {
          gate =
              (begin p
                (some hello.secret)
                now
                nonce_id
                session_id
                window
                action
                target_id
                params
                core.db
                core.gate).0;
        })
    writes : (db : Database) → CoreStep core (record core { db = db })

  -- From a Core that has just started on a database.
  pub data CoreReach : Core → Type 0 where
    started :
        (db : Database) (now : ℕ)
        → CoreReach (record { sessions = new_store; gate = new_gate; db = db; last_ping = now })
    next : {core later : Core} → CoreReach core → CoreStep core later → CoreReach later

  record IsSound (core : Core) : Type 0 where
    sessions : SessionCalls.Inv digest core.sessions
    gate : GateInvariant.Inv core.gate

  Move-IsSound :
      (r : Received) (t : Turn) (core later : Core)
      → Move p digest hello r t core later
      → IsSound core
      → IsSound later
  Move-IsSound r t core later stays s = s
  Move-IsSound r t core later pings s = record { sessions = s.sessions; gate = s.gate }
  Move-IsSound r t core later (ends label) s = record {
    sessions = SessionCalls.Step-Inv digest s.sessions (SessionCalls.ends label);
    gate = s.gate;
  }
  Move-IsSound r t core later (bootstraps label) s = record {
    sessions =
        SessionCalls.Step-Inv digest s.sessions
          (SessionCalls.issues t.pruned t.issued t.token label);
    gate = s.gate;
  }
  Move-IsSound r t core later (views nonce_id window) s = record {
    sessions = s.sessions;
    gate =
        GateCalls.Step-Inv p s.gate
          (GateCalls.views t.gate_now (circumstance p digest hello t core).alive nonce_id window);
  }
  Move-IsSound r t core later (denies nonce_id) s = record {
    sessions = s.sessions;
    gate = GateCalls.Step-Inv p s.gate (GateCalls.denies t.gate_now nonce_id);
  }
  Move-IsSound r t core later (confirms m nonce_id window g w done e) s = record {
    sessions = s.sessions;
    gate = rw e (
        GateCalls.Step-Inv p s.gate (
          GateCalls.confirms (circumstance p digest hello t core) nonce_id window
            (string_of (get (codes "mac_b64") m)) core.db));
  }

  CoreStep-IsSound : {core later : Core} → CoreStep core later → IsSound core → IsSound later
  CoreStep-IsSound {core} (turns r t) s =
      Move-IsSound r t core _ (serve-Move p digest hello r t core) s
  CoreStep-IsSound (exchanges pruned now used sid csrf token label fresh) s = record {
    sessions =
        SessionCalls.Step-Inv digest s.sessions
          (SessionCalls.exchanges pruned now used sid csrf token label fresh);
    gate = s.gate;
  }
  CoreStep-IsSound (finds now sid label) s = record {
    sessions = SessionCalls.Step-Inv digest s.sessions (SessionCalls.finds now sid label);
    gate = s.gate;
  }
  CoreStep-IsSound (logs_out sid) s = record {
    sessions = SessionCalls.Step-Inv digest s.sessions (SessionCalls.logs_out sid);
    gate = s.gate;
  }
  CoreStep-IsSound {core} (begins now nonce_id session_id window action target_id params) s =
      record {
        sessions = s.sessions;
        gate = GateCalls.Step-Inv p s.gate (
            GateCalls.begins (some hello.secret) now nonce_id session_id window action target_id
              params core.db);
      }
  CoreStep-IsSound (writes db) s = record { sessions = s.sessions; gate = s.gate }

  CoreReach-IsSound : {core : Core} → CoreReach core → IsSound core
  CoreReach-IsSound (started db now) = record {
    sessions = SessionCalls.sessions-Inv digest SessionCalls.Reach.here;
    gate = GateInvariant.new_gate-Inv;
  }
  CoreReach-IsSound (next r st) = CoreStep-IsSound st (CoreReach-IsSound r)

  -- An approval that came through the Shell's pipe, of a record whose session is alive in the store.
  pub record ShellApproved (r : Received) (t : Turn) (core : Core) (after : Database) : Type 0 where
    pub fields : Fields
    pub nonce_id : Text
    pub from_shell : ConfirmMessage r fields nonce_id
    pub window : Text
    pub window_named : WindowNamed fields window
    pub entry : NonceRecord
    pub approved :
        Approved p
          (circumstance p digest hello t core)
          nonce_id
          window
          (string_of (get (codes "mac_b64") fields))
          core.gate
          core.db
          after
          entry
    pub session_alive : alive digest t.alive_now entry.session_id core.sessions ≡ true

  -- In every reachable state, a turn of the loop leaves the database as it is, or it received a
  -- message of the type "gate.confirm" and of the protocol's version, with a nonce id and a window label
  -- of their forms, the gate approved it in full, and the session of the approved record is alive in the
  -- session store. Reachable are the states after any turns and any calls of the HTTP server in between
  -- in which each exchange draws a session id whose hash is not in use.
  pub serve-writes :
      (r : Received) (t : Turn) (core : Core)
      → CoreReach core
      → ((core_of (serve p digest hello r t core)).db ≡ core.db)
        ⊎ ShellApproved r t core (core_of (serve p digest hello r t core)).db
  serve-writes r t core reach = decide _ (serve-Move p digest hello r t core)
    where
      decide :
          (later : Core)
          → Move p digest hello r t core later
          → (later.db ≡ core.db) ⊎ ShellApproved r t core later.db
      decide later stays = inl refl
      decide later pings = inl refl
      decide later (ends label) = inl refl
      decide later (bootstraps label) = inl refl
      decide later (views nonce_id window) = inl refl
      decide later (denies nonce_id) = inl refl
      decide later (confirms m nonce_id window g w done e) =
          rw e
            (elim (confirm-writes p (circumstance p digest hello t core) nonce_id window
              (string_of (get (codes "mac_b64") m)) core.gate core.db
              (CoreReach-IsSound reach).gate) [
                | inl n ↦ inl n
                | inr (x, y) ↦ inr (record {
                  fields = m;
                  nonce_id = nonce_id;
                  from_shell = g;
                  window = window;
                  window_named = w;
                  entry = x;
                  approved = y;
                  session_alive = y.session_alive;
                })
              ])
