-- ===== src/Ephemeral.antt =====
-- The process-local capabilities of src/syllva/ephemeral: the records of models.py, and of memory.py
-- `MemoryEphemeralStore` with its locks left out, since the store's lock makes each method one step.
-- The clock is an argument, in milliseconds; ids from `secrets` are arguments too.
pub mod Contexts
pub mod Resolutions
mod Examples
use syllva.Prelude.{ℕ, ◌+◌, Text, Option, List, [], Bool, leb, if◌then◌else◌}
use syllva.Prelude.Dict.{Dict, lookup, remove}
use syllva.Domain.Locators.{Locator}

abbrev pub max_ttl : ℕ
max_ttl = 86_400_000

pub record SourceFingerprint : Type 0 where
  pub source_version : ℕ
  pub source_hash : Text

pub record AllowedLocator : Type 0 where
  pub locator : Locator
  pub source_hash : Text
  pub source_version : ℕ

pub record ContextCapability : Type 0 where
  pub context_id : Text
  pub allowed_locators : List AllowedLocator
  pub caller_scope : Option Text
  pub expires_at : ℕ

pub record ResolutionCandidate : Type 0 where
  pub candidate_id : Text
  pub entity_type : Text
  pub entity_id : Text
  pub label : Text
  pub reason : Option Text

pub record ResolutionHandle : Type 0 where
  pub resolution_id : Text
  pub expires_at : ℕ
  pub candidates : List ResolutionCandidate

pub record MemoryEphemeralStore : Type 0 where
  pub resolutions : Dict ResolutionHandle
  pub contexts : Dict ContextCapability
  pub candidate_ids : List Text

abbrev pub new_store : MemoryEphemeralStore
new_store = record { resolutions = []; contexts = []; candidate_ids = [] }

-- `is_expired` of a handle and of a capability, at its deadline.
abbrev pub is_expired : (now deadline : ℕ) → Bool
is_expired now deadline = leb deadline now

-- `_bounded_ttl`, for a number that is neither negative nor infinite.
abbrev pub bounded_ttl : ℕ → ℕ
bounded_ttl ttl = if leb ttl max_ttl then ttl else max_ttl
