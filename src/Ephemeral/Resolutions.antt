-- ===== src/Ephemeral/Resolutions.antt =====
-- Resolution handles: `create_resolution`, `get_resolution`, `consume_resolution_choice`,
-- `purge_expired` and `_drop_resolution` of src/syllva/ephemeral/memory.py, on candidates that are
-- `ResolutionCandidate` values. The ids that `_new_id` draws come as a list.
pub mod SingleUse
pub mod Scoping
pub mod Reserved
use syllva.Prelude.{
  ℕ, ◌+◌, Text, codes, teq, Bool, true, false, ◌&&◌, ◌||◌, not, Option, none, some, List, [], ◌∷◌,
  ◌++◌, if◌then◌else◌, length, take, keep, any,
}
use syllva.Prelude.Dict.{lookup, insert, remove, keep_values, keys_where}
use syllva.Ephemeral.{
  ContextCapability, ResolutionCandidate, ResolutionHandle, MemoryEphemeralStore, is_expired,
  bounded_ttl,
}

pub record ResolvedEntity : Type 0 where
  pub entity_type : Text
  pub entity_id : Text
  pub label : Text
  pub candidate_id : Text
  pub reason : Option Text

unfoldable pub is_in : List Text → Text → Bool
is_in ids id = any (teq id) ids

abbrev pub has_id : Text → ResolutionCandidate → Bool
has_id id c = teq c.candidate_id id

abbrev pub with_handle :
    Text → Option ResolutionHandle → MemoryEphemeralStore → MemoryEphemeralStore
with_handle id none s = s
with_handle id (some h) s = record s {
  resolutions = remove id s.resolutions;
  candidate_ids = keep (λ k. not (any (has_id k) h.candidates)) s.candidate_ids;
}

unfoldable pub drop_resolution : Text → MemoryEphemeralStore → MemoryEphemeralStore
drop_resolution id s = with_handle id (lookup id s.resolutions) s

-- The first id that is not taken, and the draws behind it; `none` if every draw is taken.
unfoldable pub draw : (taken : Text → Bool) → List Text → Option (Text × List Text)
draw taken [] = none
draw taken (d ∷ ds) = let rest = draw taken ds in if taken d then rest else some (d, ds)

abbrev keeps_id : (taken : Text → Bool) → Text → Bool
keeps_id taken id = teq (take 5 id) (codes "cand_") && not (taken id)

-- The id under which a candidate is scoped, and the draws that are left.
unfoldable pub choose_id : (taken : Text → Bool) → Text → List Text → Option (Text × List Text)
unfolding draw
choose_id taken id draws = if keeps_id taken id then some (id, draws) else draw taken draws

abbrev add_candidate :
    ResolutionCandidate → Option (List ResolutionCandidate) → Option (List ResolutionCandidate)
add_candidate c none = none
add_candidate c (some cs) = some (c ∷ cs)

-- The loop over the candidates; `ids` are the ids in use, those of this call included.
unfoldable pub scope_candidates :
    List Text → List Text → List ResolutionCandidate → Option (List ResolutionCandidate)
unfolding is_in
scope_candidates ids draws [] = some []
scope_candidates ids draws (c ∷ cs) = elim (choose_id (is_in ids) c.candidate_id draws) [
  | none ↦ none
  | some (id, left) ↦
      add_candidate (record c { candidate_id = id }) (scope_candidates (id ∷ ids) left cs)
]

abbrev pub ids_of : List ResolutionCandidate → List Text
ids_of [] = []
ids_of (c ∷ cs) = c.candidate_id ∷ ids_of cs

abbrev pub store_handle :
    ℕ
    → Text
    → Option (List ResolutionCandidate)
    → MemoryEphemeralStore
    → MemoryEphemeralStore × Option ResolutionHandle
store_handle deadline id none s = (s, none)
store_handle deadline id (some cs) s =
    let h : ResolutionHandle = record {
      resolution_id = id;
      expires_at = deadline;
      candidates = cs;
    } in
    (
      record s {
        resolutions = insert id h s.resolutions;
        candidate_ids = s.candidate_ids ++ ids_of cs;
      },
      some h,
    )

-- No handle means that the draws ran out while the loop was still drawing.
unfoldable pub create_resolution :
    (now ttl : ℕ)
    → Text
    → (draws : List Text) → List ResolutionCandidate
    → MemoryEphemeralStore
    → MemoryEphemeralStore × Option ResolutionHandle
unfolding scope_candidates
create_resolution now ttl id draws cs s =
    store_handle (now + bounded_ttl ttl) id (scope_candidates s.candidate_ids draws cs) s

abbrev pub get_handle :
    ℕ
    → Text
    → Option ResolutionHandle
    → MemoryEphemeralStore
    → MemoryEphemeralStore × Option ResolutionHandle
get_handle now id none s = (s, none)
get_handle now id (some h) s =
    if is_expired now h.expires_at then (drop_resolution id s, none) else (s, some h)

unfoldable pub get_resolution :
    ℕ → Text → MemoryEphemeralStore → MemoryEphemeralStore × Option ResolutionHandle
unfolding drop_resolution
get_resolution now id s = get_handle now id (lookup id s.resolutions) s

-- `consume_resolution_choice` returns the entity or raises one of two errors.
pub data Chosen : Type 0 where
  resolved : ResolvedEntity → Chosen
  resolution_expired invalid_candidate : Chosen

unfoldable pub select : Text → List ResolutionCandidate → Option ResolutionCandidate
select id [] = none
select id (c ∷ cs) = let rest = select id cs in if has_id id c then some c else rest

abbrev pub entity_of : ResolutionCandidate → ResolvedEntity
entity_of c = record {
  entity_type = c.entity_type;
  entity_id = c.entity_id;
  label = c.label;
  candidate_id = c.candidate_id;
  reason = c.reason;
}

abbrev choose :
    Text → Option ResolutionCandidate → MemoryEphemeralStore → MemoryEphemeralStore × Chosen
choose id none s = (s, invalid_candidate)
choose id (some c) s = (drop_resolution id s, resolved (entity_of c))

abbrev pub consume_handle :
    ℕ
    → (resolution_id candidate_id : Text) → Option ResolutionHandle
    → MemoryEphemeralStore
    → MemoryEphemeralStore × Chosen
consume_handle now id candidate_id none s = (s, resolution_expired)
consume_handle now id candidate_id (some h) s =
    if is_expired now h.expires_at
    then (drop_resolution id s, resolution_expired)
    else choose id (select candidate_id h.candidates) s

unfoldable pub consume_resolution_choice :
    ℕ → (resolution_id candidate_id : Text) → MemoryEphemeralStore → MemoryEphemeralStore × Chosen
unfolding drop_resolution select
consume_resolution_choice now id candidate_id s =
    consume_handle now id candidate_id (lookup id s.resolutions) s

unfoldable pub drop_resolutions : List Text → MemoryEphemeralStore → MemoryEphemeralStore
unfolding drop_resolution
drop_resolutions [] s = s
drop_resolutions (k ∷ ks) s = drop_resolutions ks (drop_resolution k s)

abbrev pub old_handle : ℕ → ResolutionHandle → Bool
old_handle now h = is_expired now h.expires_at

abbrev old_context : ℕ → ContextCapability → Bool
old_context now c = is_expired now c.expires_at

unfoldable pub purge_expired : ℕ → MemoryEphemeralStore → MemoryEphemeralStore × ℕ
unfolding drop_resolutions
purge_expired now s =
    let ks = keys_where (old_handle now) s.resolutions in
    let cs = keys_where (old_context now) s.contexts in
    (
      record (drop_resolutions ks s) {
        contexts = keep_values (λ c. not (old_context now c)) s.contexts;
      },
      length ks + length cs,
    )
