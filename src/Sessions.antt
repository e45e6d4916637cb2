-- ===== src/Sessions.antt =====
-- UI sessions: src/syllva/ui/sessions.py (`SessionStore`). The store's lock makes each method one
-- step, so a method is a function from the store to the store and its result. The monotonic clock
-- is read in milliseconds and comes as an argument, once for each read in the source; tokens from
-- `secrets` are arguments too. `digest` stands for `_key`, the SHA-256 of the text.
pub mod Invariant
pub mod Tokens
pub mod Windows
pub mod Bootstraps
mod Examples
use syllva.Prelude.{
  ℕ, ◌+◌, ◌-◌, Text, teq, Bool, true, false, not, ◌||◌, Option, none, some, List, [], ◌∷◌, ltb, leb,
  length, if◌then◌else◌,
}
use syllva.Prelude.Dict.{Dict, lookup, insert, remove, keep_values, keys_where}

abbrev pub bootstrap_ttl : ℕ
bootstrap_ttl = 60_000

abbrev pub idle_ttl : ℕ
idle_ttl = 28_800_000

pub record Session : Type 0 where
  pub session_id : Text
  pub csrf : Text
  pub window_label : Text
  pub last_used : ℕ

unfoldable pub csrf_ok : Session → Option Text → Bool
csrf_ok s none = false
csrf_ok s (some presented) = teq s.csrf presented

-- A bootstrap entry is the token's window and its deadline.
pub record SessionStore : Type 0 where
  pub bootstrap : Dict (Text × ℕ)
  pub sessions : Dict Session
  pub by_window : Dict Text

abbrev pub new_store : SessionStore
new_store = record { bootstrap = []; sessions = []; by_window = [] }

abbrev pub is_key : Text → Option Text → Bool
is_key k none = false
is_key k (some j) = teq j k

-- The part of `_drop` behind its `pop`, at the session that was there.
forget : Text → Option Session → SessionStore → SessionStore
forget key none s = s
forget key (some x) s = record s {
  sessions = remove key s.sessions;
  by_window =
      if is_key key (lookup x.window_label s.by_window)
      then remove x.window_label s.by_window
      else s.by_window;
}

unfoldable pub drop_session : Text → SessionStore → SessionStore
unfolding forget
drop_session key s = forget key (lookup key s.sessions) s

drop_all : List Text → SessionStore → SessionStore
drop_all [] s = s
drop_all (k ∷ ks) s = drop_all ks (drop_session k s)

abbrev pub is_idle : ℕ → Session → Bool
is_idle now x = ltb idle_ttl (now - x.last_used)

prune_tokens : ℕ → SessionStore → SessionStore
prune_tokens now s = record s { bootstrap = keep_values (λ e. not (ltb e.1 now)) s.bootstrap }

unfoldable pub prune : ℕ → SessionStore → SessionStore
unfolding prune_tokens drop_all
prune now s = let t = prune_tokens now s in drop_all (keys_where (is_idle now) t.sessions) t

-- `lookup` returns nothing, raises `WrongWindow`, or returns the refreshed session.
pub data Found : Type 0 where
  missing wrong_window : Found
  found : Session → Found

abbrev mismatch : Option Text → Text → Bool
mismatch none window = false
mismatch (some w) window = not (teq window w)

-- `by_window.pop(window)`, then `sessions.pop` of the key that was there.
replace_old : Text → SessionStore → SessionStore
replace_old window s = record s {
  by_window = remove window s.by_window;
  sessions = elim (lookup window s.by_window) [
    | none ↦ s.sessions
    | some old ↦ remove old s.sessions
  ];
}

abbrev fresh_session : ℕ → (sid csrf window : Text) → Session
fresh_session now sid csrf window = record {
  session_id = sid;
  csrf = csrf;
  window_label = window;
  last_used = now;
}

abbrev fresh_enough : ℕ → Option Session → Bool
fresh_enough now none = false
fresh_enough now (some x) = leb (now - x.last_used) idle_ttl

module _ (digest : Text → Text) where
  unfoldable pub issue_bootstrap :
      (pruned now : ℕ) (token window : Text) → SessionStore → SessionStore
  issue_bootstrap pruned now token window s =
      let t = prune pruned s in
      record t {
        bootstrap =
            insert (digest token) (window, now + bootstrap_ttl)
              (keep_values (λ e. not (teq e.0 window)) t.bootstrap);
      }

  add_session : Session → SessionStore → SessionStore
  add_session x s = record s {
    sessions = insert (digest x.session_id) x s.sessions;
    by_window = insert x.window_label (digest x.session_id) s.by_window;
  }

  -- The token is consumed before its entry is judged. `now` is read for the deadline and `used` for the
  -- new session.
  pub redeem :
      (now used : ℕ)
      → (sid csrf : Text) → Option Text
      → Option (Text × ℕ)
      → SessionStore
      → SessionStore × Option Session
  unfolding replace_old add_session
  redeem now used sid csrf label none s = (s, none)
  redeem now used sid csrf label (some (window, deadline)) s =
      if ltb deadline now || mismatch label window then (s, none) else (
        add_session (fresh_session used sid csrf window) (replace_old window s),
        some (fresh_session used sid csrf window),
      )

  unfoldable pub exchange :
      (pruned now used : ℕ) (sid csrf token : Text)
      → Option Text
      → SessionStore
      → SessionStore × Option Session
  unfolding redeem
  exchange pruned now used sid csrf [] label s = (s, none)
  exchange pruned now used sid csrf (c ∷ token) label s =
      let t = prune pruned s in
      redeem now used sid csrf label (lookup (digest (c ∷ token)) t.bootstrap)
        (record t { bootstrap = remove (digest (c ∷ token)) t.bootstrap })

  touch : ℕ → Text → Option Text → Option Session → SessionStore → SessionStore × Found
  touch now key label none s = (s, missing)
  touch now key label (some x) s =
      if is_idle now x
      then (drop_session key s, missing)
      else if mismatch label x.window_label
      then (s, wrong_window)
      else (
        record s { sessions = insert key (record x { last_used = now }) s.sessions },
        found (record x { last_used = now }),
      )

  unfoldable pub find : ℕ → Option Text → Option Text → SessionStore → SessionStore × Found
  unfolding touch
  find now none label s = (s, missing)
  find now (some []) label s = (s, missing)
  find now (some (c ∷ sid)) label s =
      touch now (digest (c ∷ sid)) label (lookup (digest (c ∷ sid)) s.sessions) s

  unfoldable pub alive : ℕ → Text → SessionStore → Bool
  alive now sid s = fresh_enough now (lookup (digest sid) s.sessions)

  unfoldable pub logout : Text → SessionStore → SessionStore
  logout sid s = drop_session (digest sid) s

end_at : Option Text → SessionStore → SessionStore × Bool
end_at none s = (s, false)
end_at (some key) s = (drop_session key s, true)

unfoldable pub end_window : Text → SessionStore → SessionStore × Bool
unfolding end_at
end_window window s = end_at (lookup window s.by_window) s

unfoldable pub counts : SessionStore → ℕ × ℕ
counts s = (length s.bootstrap, length s.sessions)
