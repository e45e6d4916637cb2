-- ===== src/Ephemeral/Examples.antt =====
-- Runs of the ephemeral store with one context capability and one resolution.
use syllva.Prelude.Decimal.{decimal}
use syllva.Prelude.{
  ℕ, Text, codes, teq, none, some, List, [], ◌∷◌, ◌≡◌, ◌↔◌, refl, ap, subst, true, false, any, keep,
}
use syllva.Prelude.Dict.{lookup, insert}
use syllva.Domain.Locators.{Locator, page, is_contained, serialize_locator}
use syllva.Ephemeral.{
  MemoryEphemeralStore, AllowedLocator, ContextCapability, SourceFingerprint, ResolutionCandidate,
  ResolutionHandle, new_store,
}
use syllva.Ephemeral.Contexts.{
  authorize_locator, create_context_capability, value, allowed, canonical, scope_ok,
}
use syllva.Ephemeral.Contexts.Authorization.{Permits, authorize_locator-allowed}
use syllva.Ephemeral.Resolutions.{
  create_resolution, consume_resolution_choice, resolved, resolution_expired, entity_of, choose_id,
}
use syllva.Ephemeral.Resolutions.SingleUse.{here, creates, consume_resolution_choice-single_use}
use syllva.Ephemeral.Resolutions.Scoping.{FreshIds, Scopes}
use syllva.Ephemeral.Resolutions.Reserved.{Reach, holds, create_resolution-IsUnshared}

abbrev pages : ℕ → ℕ → Locator
pages a b =
    page (record { entity_id = codes "CS101-L03"; start_page = a; end_page = b; subtype = none })

abbrev entry : AllowedLocator
entry = record { locator = pages 4 12; source_hash = codes "sha256:ab"; source_version = 2 }

abbrev print : SourceFingerprint
print = record { source_version = 2; source_hash = codes "sha256:ab" }

abbrev with_context : MemoryEphemeralStore
with_context =
    (create_context_capability 0 900_000 (codes "ctx_1") (entry ∷ entry ∷ []) none new_store).0

page_five :
    (authorize_locator 5 (codes "ctx_1") (value (pages 5 6)) none (some print) none with_context).1
    ≡ allowed
unfolding authorize_locator create_context_capability lookup canonical serialize_locator decimal any
    teq insert scope_ok keep is_contained
page_five = refl

authorize_locator-allowed_example :
    ((authorize_locator 5 (codes "ctx_1") (value (pages 5 6)) none (some print) none with_context).1
      ≡ allowed)
    ↔ ((c : ContextCapability) × (lookup (codes "ctx_1") with_context.contexts ≡ some c)
        × Permits 5 (value (pages 5 6)) none (some print) c)
authorize_locator-allowed_example =
    authorize_locator-allowed 5 (codes "ctx_1") (value (pages 5 6)) none (some print) with_context

abbrev candidate : Text → Text → ResolutionCandidate
candidate id entity = record {
  candidate_id = id;
  entity_type = codes "material";
  entity_id = entity;
  label = entity;
  reason = none;
}

abbrev given : List ResolutionCandidate
given =
    candidate (codes "cand_a") (codes "CS101-L03")
    ∷ candidate (codes "cand_a") (codes "CS101-L04")
    ∷ []

abbrev scoped : List ResolutionCandidate
scoped =
    candidate (codes "cand_a") (codes "CS101-L03")
    ∷ candidate (codes "cand_b") (codes "CS101-L04")
    ∷ []

abbrev handle : ResolutionHandle
handle = record { resolution_id = codes "res_1"; expires_at = 900_000; candidates = scoped }

abbrev with_resolution : MemoryEphemeralStore
with_resolution = record new_store {
  resolutions = (codes "res_1", handle) ∷ [];
  candidate_ids = codes "cand_a" ∷ codes "cand_b" ∷ [];
}

two_candidates :
    create_resolution 0 900_000
      (codes "res_1")
      (codes "cand_a" ∷ codes "cand_b" ∷ [])
      given
      new_store
    ≡ (with_resolution, some handle)
unfolding create_resolution choose_id teq any insert
two_candidates = refl

-- A second resolution in the store of the first: its "cand_b" is taken, and "cand_c" is drawn.
abbrev other : List ResolutionCandidate
other = candidate (codes "cand_b") (codes "CS101-L04") ∷ []

abbrev other_scoped : List ResolutionCandidate
other_scoped = candidate (codes "cand_c") (codes "CS101-L04") ∷ []

abbrev other_handle : ResolutionHandle
other_handle = record {
  resolution_id = codes "res_2";
  expires_at = 900_001;
  candidates = other_scoped;
}

other_created :
    (create_resolution 1 900_000 (codes "res_2") (codes "cand_c" ∷ []) other with_resolution).1
    ≡ some other_handle
unfolding create_resolution choose_id teq any insert
other_created = refl

with_resolution-Reach : Reach with_resolution
with_resolution-Reach = subst Reach (ap (λ r. r.0) two_candidates) (
    Reach.next Reach.here
      (creates 0 900_000 (codes "res_1") (codes "cand_a" ∷ codes "cand_b" ∷ []) given))

create_resolution-IsUnshared_example :
    Scopes other other_scoped
    × FreshIds [] other_scoped
    × ((k c : Text) (g : ResolutionHandle)
        → lookup k with_resolution.resolutions ≡ some g
        → holds c g ≡ true
        → holds c other_handle ≡ false)
create_resolution-IsUnshared_example =
    create_resolution-IsUnshared 1 900_000 (codes "res_2") (codes "cand_c" ∷ []) other
      with_resolution other_handle with_resolution-Reach other_created

chosen :
    (consume_resolution_choice 10 (codes "res_1") (codes "cand_b") with_resolution).1
    ≡ resolved (entity_of (candidate (codes "cand_b") (codes "CS101-L04")))
unfolding consume_resolution_choice lookup teq
chosen = refl

consume_resolution_choice-single_use_example :
    (consume_resolution_choice 11
      (codes "res_1")
      (codes "cand_a")
      (consume_resolution_choice 10 (codes "res_1") (codes "cand_b") with_resolution).0).1
    ≡ resolution_expired
consume_resolution_choice-single_use_example =
    consume_resolution_choice-single_use 10 (codes "res_1") (codes "cand_b")
      (entity_of (candidate (codes "cand_b") (codes "CS101-L04"))) with_resolution
      (consume_resolution_choice 10 (codes "res_1") (codes "cand_b") with_resolution).0 chosen here
      11 (codes "cand_a")
