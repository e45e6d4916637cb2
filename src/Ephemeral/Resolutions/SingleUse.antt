-- ===== src/Ephemeral/Resolutions/SingleUse.antt =====
-- A resolution of src/syllva/ephemeral/memory.py can be consumed once.
use syllva.Prelude.{
  ℕ, ◌+◌, Text, teq_iff, teq_refl, false, Option, none, some, List, [], ◌∷◌, ◌≡◌, refl, arith, inl,
  inr, Bool-cases, Option-cases,
}
use syllva.Prelude.Dict.{lookup, lookup-insert, lookup-remove, keys_where}
use syllva.Ephemeral.{
  MemoryEphemeralStore, ResolutionCandidate, ResolutionHandle, ContextCapability, AllowedLocator,
  SourceFingerprint, is_expired, bounded_ttl,
}
use syllva.Ephemeral.Contexts.{
  create_context_capability, get_context_capability, authorize_locator, store_context, drop_expired,
  live, normalize, LocatorArgument,
}
use syllva.Ephemeral.Resolutions.{
  drop_resolution, drop_resolutions, create_resolution, store_handle, get_resolution, get_handle,
  consume_resolution_choice, consume_handle, select, resolved, resolution_expired, ResolvedEntity,
  purge_expired, old_handle,
}

Absent : Text → MemoryEphemeralStore → Type 0
Absent k s = lookup k s.resolutions ≡ none

-- One call of a method of the store.
pub data Step (s : MemoryEphemeralStore) : MemoryEphemeralStore → Type 0 where
  creates :
      (now ttl : ℕ) (id : Text) (draws : List Text) (cs : List ResolutionCandidate)
      → Step s (create_resolution now ttl id draws cs s).0
  gets : (now : ℕ) (id : Text) → Step s (get_resolution now id s).0
  consumes :
      (now : ℕ) (id candidate_id : Text)
      → Step s (consume_resolution_choice now id candidate_id s).0
  purges : (now : ℕ) → Step s (purge_expired now s).0
  creates_context :
      (now ttl : ℕ) (id : Text) (es : List AllowedLocator) (scope : Option Text)
      → Step s (create_context_capability now ttl id es scope s).0
  gets_context : (now : ℕ) (id : Text) → Step s (get_context_capability now id s).0
  authorizes :
      (now : ℕ) (id : Text) (l : LocatorArgument) (caller : Option Text)
      (current : Option SourceFingerprint) (issued : Option AllowedLocator)
      → Step s (authorize_locator now id l caller current issued s).0

-- Does this call create a handle under this id?
abbrev pub Recreates : (k : Text) {s t : MemoryEphemeralStore} → Step s t → Type 0
Recreates k (creates now ttl id draws cs) = id ≡ k
Recreates k (gets now id) = ⊥
Recreates k (consumes now id candidate_id) = ⊥
Recreates k (purges now) = ⊥
Recreates k (creates_context now ttl id es scope) = ⊥
Recreates k (gets_context now id) = ⊥
Recreates k (authorizes now id l caller current issued) = ⊥

-- Calls that follow one another from `s`, none of which creates a handle under `k` again.
pub data Later (k : Text) (s : MemoryEphemeralStore) : MemoryEphemeralStore → Type 0 where
  here : Later k s s
  next :
      {t u : MemoryEphemeralStore} → Later k s t → (st : Step t u) → ¬ Recreates k st → Later k s u

drop-Absent : (j k : Text) (s : MemoryEphemeralStore) → Absent k s → Absent k (drop_resolution j s)
unfolding Absent drop_resolution
drop-Absent j k s h = elim (Option-cases (lookup j s.resolutions)) [
  | inl e ↦ rw e h
  | inr (x, e) ↦ rw e (ground (arith, lookup-remove j k s.resolutions))
]

drop_self-Absent : (k : Text) (s : MemoryEphemeralStore) → Absent k (drop_resolution k s)
unfolding Absent drop_resolution
drop_self-Absent k s = elim (Option-cases (lookup k s.resolutions)) [
  | inl e ↦ rw e e
  | inr (x, e) ↦ rw e (ground (arith, lookup-remove k k s.resolutions, teq_refl k))
]

drop_resolutions-Absent :
    (ks : List Text) (k : Text) (s : MemoryEphemeralStore)
    → Absent k s
    → Absent k (drop_resolutions ks s)
unfolding drop_resolutions
drop_resolutions-Absent [] k s h = h
drop_resolutions-Absent (j ∷ ks) k s h =
    drop_resolutions-Absent ks k (drop_resolution j s) (drop-Absent j k s h)

store_handle-Absent :
    (deadline : ℕ) (id k : Text) (cs : Option (List ResolutionCandidate)) (s : MemoryEphemeralStore)
    → ¬ (id ≡ k)
    → Absent k s
    → Absent k (store_handle deadline id cs s).0
unfolding Absent
store_handle-Absent deadline id k none s n h = h
store_handle-Absent deadline id k (some cs) s n h = ground (
  arith,
  lookup-insert id k (record { resolution_id = id; expires_at = deadline; candidates = cs })
      s.resolutions,
  teq_iff id k,
)

get_handle-Absent :
    (now : ℕ) (id k : Text) (o : Option ResolutionHandle) (s : MemoryEphemeralStore)
    → Absent k s
    → Absent k (get_handle now id o s).0
get_handle-Absent now id k none s h = h
get_handle-Absent now id k (some x) s h = elim (Bool-cases (is_expired now x.expires_at)) [
  | inl e ↦ rw e (drop-Absent id k s h)
  | inr e ↦ rw e h
]

consume_handle-Absent :
    (now : ℕ) (id c k : Text) (o : Option ResolutionHandle) (s : MemoryEphemeralStore)
    → Absent k s
    → Absent k (consume_handle now id c o s).0
consume_handle-Absent now id c k none s h = h
consume_handle-Absent now id c k (some x) s h = elim (Bool-cases (is_expired now x.expires_at)) [
  | inl e ↦ rw e (drop-Absent id k s h)
  | inr e ↦ elim (Option-cases (select c x.candidates)) [
    | inl m ↦ rw (e, m) h
    | inr (d, m) ↦ rw (e, m) (drop-Absent id k s h)
  ]
]

-- The methods on capabilities leave the resolutions and the candidate ids alone.
pub record SameResolutions (s t : MemoryEphemeralStore) : Type 0 where
  pub resolutions : t.resolutions ≡ s.resolutions
  pub candidate_ids : t.candidate_ids ≡ s.candidate_ids

pub store_context-SameResolutions :
    (deadline : ℕ) (id : Text) (scope : Option Text) (o : Option (List AllowedLocator))
    (s : MemoryEphemeralStore)
    → SameResolutions s (store_context deadline id scope o s).0
store_context-SameResolutions deadline id scope none s = record {
  resolutions = refl;
  candidate_ids = refl;
}
store_context-SameResolutions deadline id scope (some es) s = record {
  resolutions = refl;
  candidate_ids = refl;
}

pub drop_expired-SameResolutions :
    (id : Text) (o : Option ContextCapability) (s : MemoryEphemeralStore)
    → SameResolutions s (drop_expired id o s)
drop_expired-SameResolutions id none s = record { resolutions = refl; candidate_ids = refl }
drop_expired-SameResolutions id (some c) s = record { resolutions = refl; candidate_ids = refl }

same-Absent :
    (k : Text) (s t : MemoryEphemeralStore) → SameResolutions s t → Absent k s → Absent k t
unfolding Absent
same-Absent k s t e h = rw e.resolutions h

Step-Absent :
    (k : Text) {s t : MemoryEphemeralStore} (st : Step s t)
    → ¬ Recreates k st
    → Absent k s
    → Absent k t
unfolding create_resolution get_resolution consume_resolution_choice create_context_capability
    get_context_capability authorize_locator
Step-Absent k {s} (creates now ttl id draws cs) n h = store_handle-Absent _ id k _ s n h
Step-Absent k {s} (gets now id) n h = get_handle-Absent now id k (lookup id s.resolutions) s h
Step-Absent k {s} (consumes now id c) n h =
    consume_handle-Absent now id c k (lookup id s.resolutions) s h
Step-Absent k {s} (purges now) n h =
    unfold Absent purge_expired in
    drop_resolutions-Absent (keys_where (old_handle now) s.resolutions) k s h
Step-Absent k {s} (creates_context now ttl id es scope) n h =
    same-Absent k s _
      (store_context-SameResolutions (now + bounded_ttl ttl) id scope (normalize [] es) s) h
Step-Absent k {s} (gets_context now id) n h =
    same-Absent k s _ (drop_expired-SameResolutions id (live now (lookup id s.contexts)) s) h
Step-Absent k {s} (authorizes now id l caller current issued) n h =
    same-Absent k s _ (drop_expired-SameResolutions id (live now (lookup id s.contexts)) s) h

Later-Absent : (k : Text) {s t : MemoryEphemeralStore} → Later k s t → Absent k s → Absent k t
Later-Absent k here h = h
Later-Absent k (next l st n) h = Step-Absent k st n (Later-Absent k l h)

consumed-Absent :
    (now : ℕ) (id c : Text) (o : Option ResolutionHandle) (e : ResolvedEntity)
    (s : MemoryEphemeralStore)
    → (consume_handle now id c o s).1 ≡ resolved e
    → Absent id (consume_handle now id c o s).0
consumed-Absent now id c none e s h = ground arith
consumed-Absent now id c (some x) e s h = elim (Bool-cases (is_expired now x.expires_at)) [
  | inl q ↦ rw q (drop_self-Absent id s)
  | inr q ↦ elim (Option-cases (select c x.candidates)) [
    | inl m ↦ absurd (clash q m h)
    | inr (d, m) ↦ rw (q, m) (drop_self-Absent id s)
  ]
]
  where
    clash :
        is_expired now x.expires_at ≡ false
        → select c x.candidates ≡ none
        → (consume_handle now id c (some x) s).1 ≡ resolved e
        → ⊥
    clash q m h = ground arith

-- A resolution is a one-shot capability. Once a choice from it has been answered with an entity,
-- every later choice from the same resolution is answered as expired, after any calls of the store in
-- between that do not create a resolution under the same id.
pub consume_resolution_choice-single_use :
    (now : ℕ) (id c : Text) (e : ResolvedEntity) (s t : MemoryEphemeralStore)
    → (consume_resolution_choice now id c s).1 ≡ resolved e
    → Later id (consume_resolution_choice now id c s).0 t
    → (now' : ℕ) (c' : Text) → (consume_resolution_choice now' id c' t).1 ≡ resolution_expired
unfolding consume_resolution_choice
consume_resolution_choice-single_use now id c e s t h l now' c' =
    unfold Absent in
    let gone = Later-Absent id l (consumed-Absent now id c (lookup id s.resolutions) e s h) in
    rw gone refl
