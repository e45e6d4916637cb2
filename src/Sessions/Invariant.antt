-- ===== src/Sessions/Invariant.antt =====
-- The three dictionaries of src/syllva/ui/sessions.py agree with each other.
mod Defs
mod Exchange
mod Lookup
pub use Defs.{Inv}
pub use Exchange.{exchange-Inv}
use syllva.Prelude.{
  ℕ, Text, teq, teq_iff, ◌≡◌, Bool, Option, none, some, List, [], ◌∷◌, arith, inl, inr,
  Option-cases, Bool-cases, not, ltb, ◌+◌, ◌≢◌, ◌||◌, teq_refl,
}
use syllva.Prelude.Dict.{
  lookup, insert, remove, keep_values, keys_where, IsUnique, lookup-insert, lookup-remove,
  lookup-keep_values, keep_values-IsUnique, insert-IsUnique, remove-IsUnique,
}
use syllva.Sessions.{
  Session, SessionStore, new_store, mismatch, drop_session, drop_all, prune_tokens, prune, is_idle,
  bootstrap_ttl, issue_bootstrap, exchange, redeem, replace_old, add_session, fresh_session, find,
  touch, logout, end_window,
}
use Defs.{drop_session-Inv}
use Exchange.{issue_bootstrap-Inv}
use Lookup.{find-Inv}

module _ (digest : Text → Text) where
  -- One call of the store by the Core. `exchange` draws an id whose hash is not in use.
  pub data Step (s : SessionStore) : SessionStore → Type 0 where
    issues :
        (pruned now : ℕ) (token window : Text)
        → Step s (issue_bootstrap digest pruned now token window s)
    exchanges :
        (pruned now used : ℕ) (sid csrf token : Text) (label : Option Text)
        → lookup (digest sid) s.sessions ≡ none
        → Step s (exchange digest pruned now used sid csrf token label s).0
    finds : (now : ℕ) (sid label : Option Text) → Step s (find digest now sid label s).0
    logs_out : (sid : Text) → Step s (logout digest sid s)
    ends : (window : Text) → Step s (end_window window s).0

  pub data Reach : SessionStore → Type 0 where
    here : Reach new_store
    next : {s t : SessionStore} → Reach s → Step s t → Reach t

  end_window-Inv :
      (window : Text) (s : SessionStore) → Inv digest s → Inv digest (end_window window s).0
  unfolding end_window
  end_window-Inv window s v = elim (Option-cases (lookup window s.by_window)) [
    | inl e ↦ rw e v
    | inr (k, e) ↦ rw e (drop_session-Inv digest k s v)
  ]

  pub Step-Inv : {s t : SessionStore} → Inv digest s → Step s t → Inv digest t
  unfolding logout
  Step-Inv {s} v (issues pruned now token window) =
      issue_bootstrap-Inv digest pruned now token window s v
  Step-Inv {s} v (exchanges pruned now used sid csrf token label fresh) =
      exchange-Inv digest pruned now used sid csrf token label s v fresh
  Step-Inv {s} v (finds now sid label) = find-Inv digest now sid label s v
  Step-Inv {s} v (logs_out sid) = drop_session-Inv digest (digest sid) s v
  Step-Inv {s} v (ends window) = end_window-Inv window s v

  new_store-Inv : Inv digest new_store
  unfolding lookup
  new_store-Inv = record {
    boots_unique = tt;
    sessions_unique = tt;
    one_token = λ j k e f h. cc;
    keyed = λ k x h. cc;
    to_window = λ k x h. cc;
    to_session = λ w k h. cc;
  }

  -- After any sequence of calls from an empty store, in which each exchange draws a session id
  -- whose hash is not in use, the dictionaries satisfy `Inv digest`: each dictionary holds a key once, a
  -- window has at most one outstanding bootstrap token and at most one session, every session
  -- stands under the hash of its id, and `by_window` and the sessions point at each other.
  pub sessions-Inv : {s : SessionStore} → Reach s → Inv digest s
  sessions-Inv here = new_store-Inv
  sessions-Inv (next r st) = Step-Inv (sessions-Inv r) st
