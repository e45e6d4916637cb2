-- ===== src/Settings.antt =====
-- The session of the settings window: `SessionSecurity` of src/syllva/settings/security.py. Each method
-- is one step. The clock is an argument, in whole seconds and once for each reading; `digest` is the SHA-256 of a text.
pub mod Epochs
mod Examples
use syllva.Prelude.{
  ℕ, ◌+◌, ◌-◌, Text, teq, Bool, true, false, ◌&&◌, ◌||◌, not, Option, none, some, [], ◌∷◌, ltb, leb,
  if◌then◌else◌,
}

abbrev pub bootstrap_ttl_seconds : ℕ
bootstrap_ttl_seconds = 30

pub record SessionRecord : Type 0 where
  pub handle_digest : Text
  pub csrf_value : Text
  pub last_activity : ℕ

pub data Lifecycle : Type 0 where
  fresh active expired closed replaced bootstrap_expired : Lifecycle

pub record SessionSecurity : Type 0 where
  pub idle_seconds : ℕ
  pub bootstrap_digest : Text
  pub bootstrap_expires : ℕ
  pub bootstrap_used : Bool
  pub session : Option SessionRecord
  pub state : Lifecycle
  pub epoch : ℕ

abbrev pub is_new : Lifecycle → Bool
is_new fresh = true
is_new _ = false

abbrev pub is_active : Lifecycle → Bool
is_active active = true
is_active _ = false

abbrev pub is_replaced : Lifecycle → Bool
is_replaced replaced = true
is_replaced _ = false

pub data SessionCode : Type 0 where
  session_replaced session_expired : SessionCode

abbrev pub elapsed : (now idle : ℕ) → Option SessionRecord → Bool
elapsed now idle none = false
elapsed now idle (some r) = leb idle (now - r.last_activity)

-- `_idle_elapsed`
unfoldable pub idle_elapsed : ℕ → SessionSecurity → Bool
idle_elapsed now s = elapsed now s.idle_seconds s.session

abbrev pub live_of : Bool → ℕ → Option SessionRecord → Option ℕ
live_of dead epoch none = none
live_of dead epoch (some r) = if dead then none else some epoch

unfoldable pub live_epoch : ℕ → SessionSecurity → Option ℕ
unfolding idle_elapsed
live_epoch now s = live_of (is_replaced s.state || idle_elapsed now s) s.epoch s.session

unfoldable pub replace : SessionSecurity → SessionSecurity
replace s = record s {
  session = none;
  bootstrap_used = true;
  bootstrap_digest = [];
  state = replaced;
  epoch = s.epoch + 1;
}

unfoldable pub expire_session : SessionSecurity → SessionSecurity
expire_session s =
    if is_active s.state
    then record s { session = none; state = expired; epoch = s.epoch + 1 }
    else s

unfoldable pub expire_bootstrap : SessionSecurity → SessionSecurity
expire_bootstrap s =
    if is_new s.state then record s { bootstrap_used = true; state = bootstrap_expired } else s

unfoldable pub lifecycle_pending : ℕ → SessionSecurity → Option Lifecycle
unfolding idle_elapsed
lifecycle_pending now s =
    if is_new s.state && ltb s.bootstrap_expires now
    then some bootstrap_expired
    else if is_active s.state && idle_elapsed now s
    then some expired
    else none

-- An expiry by idleness is reported and not applied.
unfoldable pub lifecycle_state : ℕ → SessionSecurity → SessionSecurity × Lifecycle
unfolding idle_elapsed
lifecycle_state now s =
    if is_new s.state && ltb s.bootstrap_expires now
    then (record s { bootstrap_used = true; state = bootstrap_expired }, bootstrap_expired)
    else if is_active s.state && idle_elapsed now s
    then (s, expired)
    else (s, s.state)

abbrev pub csrf_of : Option SessionCode → Option SessionRecord → Option Text
csrf_of none (some r) = some r.csrf_value
csrf_of _ _ = none

-- The caller has decoded the submitted value as ASCII, which `compare_digest` asks for.
abbrev pub both_equal : Option Text → Option Text → Bool
both_equal (some (c ∷ cs)) (some (d ∷ ds)) = teq (c ∷ cs) (d ∷ ds)
both_equal _ _ = false

abbrev pub touch_record :
    ℕ → Option SessionCode → Option SessionRecord → SessionSecurity → SessionSecurity × Bool
touch_record later none (some r) s =
    (record s { session = some (record r { last_activity = later }) }, true)
touch_record later _ _ s = (s, false)

abbrev pub close_with : Option SessionCode → SessionSecurity → SessionSecurity × Bool
close_with none s = (record s { session = none; state = closed; epoch = s.epoch + 1 }, true)
close_with (some code) s = (s, false)

module _ (digest : Text → Text) where
  unfoldable pub new_security : (now idle : ℕ) → (bootstrap_token : Text) → SessionSecurity
  new_security now idle token = record {
    idle_seconds = idle;
    bootstrap_digest = digest token;
    bootstrap_expires = now + bootstrap_ttl_seconds;
    bootstrap_used = false;
    session = none;
    state = fresh;
    epoch = 0;
  }

  unfoldable pub consume_bootstrap :
      (now later : ℕ) → (token handle csrf : Text) → SessionSecurity → SessionSecurity × Option Text
  consume_bootstrap now later token handle csrf s =
      if s.bootstrap_used || ltb s.bootstrap_expires now
      then (s, none)
      else if not (teq (digest token) s.bootstrap_digest)
      then (s, none)
      else (
        record s {
          bootstrap_used = true;
          session =
              some (record {
                handle_digest = digest handle;
                csrf_value = csrf;
                last_activity = later;
              });
          state = active;
          epoch = s.epoch + 1;
        },
        some handle,
      )

  abbrev pub has_handle : Option Text → SessionRecord → Bool
  has_handle none r = false
  has_handle (some h) r = teq (digest h) r.handle_digest

  abbrev pub record_code :
      ℕ → Option Text → SessionSecurity → Option SessionRecord → Option SessionCode
  record_code now handle s none = some session_expired
  record_code now handle s (some r) =
      if idle_elapsed now s || not (has_handle handle r) then some session_expired else none

  -- `none` is a valid handle.
  unfoldable pub session_code : ℕ → Option Text → SessionSecurity → Option SessionCode
  unfolding idle_elapsed
  session_code now handle s =
      if is_replaced s.state then some session_replaced else record_code now handle s s.session

  unfoldable pub csrf_for : ℕ → Option Text → SessionSecurity → Option Text
  unfolding session_code
  csrf_for now handle s = csrf_of (session_code now handle s) s.session

  unfoldable pub validate_csrf : ℕ → (handle submitted : Option Text) → SessionSecurity → Bool
  unfolding csrf_for
  validate_csrf now handle submitted s = both_equal (csrf_for now handle s) submitted

  unfoldable pub record_explicit_activity :
      (now later : ℕ) → Option Text → SessionSecurity → SessionSecurity × Bool
  unfolding session_code
  record_explicit_activity now later handle s =
      touch_record later (session_code now handle s) s.session s

  unfoldable pub close : ℕ → Option Text → SessionSecurity → SessionSecurity × Bool
  unfolding session_code
  close now handle s = close_with (session_code now handle s) s
