-- ===== src/Ephemeral/Resolutions/Reserved.antt =====
-- `_candidate_ids` of src/syllva/ephemeral/memory.py has the ids of all stored candidates.
use syllva.Prelude.{
  ℕ, ◌+◌, Text, teq, teq_iff, Bool, true, false, not, Option, none, some, List, [], ◌∷◌, ◌≡◌, refl,
  sym, subst, ap, ◌∙◌, arith, inl, inr, any, any-append, keep, Bool-cases, Option-cases,
}
use syllva.Prelude.Dict.{lookup, lookup-insert, lookup-remove, keys_where}
use syllva.Ephemeral.{
  MemoryEphemeralStore, ResolutionCandidate, ResolutionHandle, new_store, is_expired, bounded_ttl,
}
use syllva.Ephemeral.Contexts.{
  create_context_capability, get_context_capability, authorize_locator, normalize, live,
}
use syllva.Ephemeral.Resolutions.{
  is_in, has_id, ids_of, drop_resolution, drop_resolutions, create_resolution, store_handle,
  scope_candidates, get_resolution, get_handle, consume_resolution_choice, consume_handle, select,
  purge_expired, old_handle,
}
use syllva.Ephemeral.Resolutions.SingleUse.{
  Step, creates, gets, consumes, purges, creates_context, gets_context, authorizes, SameResolutions,
  store_context-SameResolutions, drop_expired-SameResolutions,
}
use syllva.Ephemeral.Resolutions.Scoping.{
  FreshIds, Scopes, IsScoped, scope_candidates-IsScoped, create_resolution-IsScoped,
}

abbrev pub holds : Text → ResolutionHandle → Bool
holds id h = any (has_id id) h.candidates

-- Every id of a stored candidate is reserved, and belongs to one handle only.
pub record AreReserved (s : MemoryEphemeralStore) : Type 0 where
  pub reserved :
      (k id : Text) (h : ResolutionHandle)
      → lookup k s.resolutions ≡ some h
      → holds id h ≡ true
      → is_in s.candidate_ids id ≡ true
  pub own :
      (j k id : Text) (g h : ResolutionHandle)
      → lookup j s.resolutions ≡ some g
      → lookup k s.resolutions ≡ some h
      → holds id g ≡ true
      → holds id h ≡ true
      → j ≡ k

is_in-keep :
    (f : Text → Bool) (id : Text) (ids : List Text)
    → is_in ids id ≡ true
    → f id ≡ true
    → is_in (keep f ids) id ≡ true
unfolding is_in keep any
is_in-keep f id [] h g = h
is_in-keep f id (k ∷ ids) h g = elim (Bool-cases (teq id k)) [
  | inl e ↦ let q : f k ≡ true = ap f (sym ((teq_iff id k).0 e)) ∙ g in rw q (ground (arith, e))
  | inr e ↦
      let i = is_in-keep f id ids (ground arith) g in
      elim (Bool-cases (f k)) [ inl t ↦ rw t (ground arith) | inr t ↦ rw t i ]
]

is_in-ids_of :
    (id : Text) (cs : List ResolutionCandidate)
    → any (has_id id) cs ≡ true
    → is_in (ids_of cs) id ≡ true
unfolding is_in any
is_in-ids_of id [] h = h
is_in-ids_of id (c ∷ cs) h =
    ground (arith, is_in-ids_of id cs, teq_iff id c.candidate_id, teq_iff c.candidate_id id)

-- Fresh candidates have no id that was in use.
FreshIds-unused :
    (ids : List Text) (cs : List ResolutionCandidate) (id : Text)
    → FreshIds ids cs
    → is_in ids id ≡ true
    → any (has_id id) cs ≡ false
unfolding FreshIds is_in any
FreshIds-unused ids [] id f h = refl
FreshIds-unused ids (c ∷ cs) id f h = elim (Bool-cases (teq c.candidate_id id)) [
  | inl e ↦ absurd (clash (subst (λ k. is_in ids k ≡ false) ((teq_iff c.candidate_id id).0 e) f.0))
  | inr e ↦
      let i = FreshIds-unused (c.candidate_id ∷ ids) cs id f.1 (ground arith) in
      ground (arith, e, i)
]
  where
    clash : is_in ids id ≡ false → ⊥
    clash q = ground (arith, h)

drop-AreReserved :
    (k : Text) (s : MemoryEphemeralStore) → AreReserved s → AreReserved (drop_resolution k s)
unfolding drop_resolution
drop-AreReserved k s v = elim (Option-cases (lookup k s.resolutions)) [
  | inl e ↦ rw e v
  | inr (g, e) ↦ rw e (record {
    reserved = λ j id h at has.
        let r = lookup-remove k j s.resolutions in
        let was : lookup j s.resolutions ≡ some h = ground arith in
        is_in-keep (λ i. not (any (has_id i) g.candidates)) id s.candidate_ids
          (v.reserved j id h was has)
          (elim (Bool-cases (holds id g)) [
            | inl c ↦ ground (arith, teq_iff k j, v.own k j id g h e was c has)
            | inr c ↦ rw c refl
          ]);
    own = λ i j id a b at at' has has'.
        v.own i j id a b (ground (arith, lookup-remove k i s.resolutions))
          (ground (arith, lookup-remove k j s.resolutions)) has has';
  })
]

drops-AreReserved :
    (ks : List Text) (s : MemoryEphemeralStore)
    → AreReserved s
    → AreReserved (drop_resolutions ks s)
unfolding drop_resolutions
drops-AreReserved [] s v = v
drops-AreReserved (k ∷ ks) s v = drops-AreReserved ks (drop_resolution k s) (drop-AreReserved k s v)

same-AreReserved :
    (s t : MemoryEphemeralStore) → SameResolutions s t → AreReserved s → AreReserved t
same-AreReserved s t e v = record {
  reserved = λ k id h at has.
      rw e.candidate_ids
        (v.reserved k id h (subst (λ d. lookup k d ≡ some h) e.resolutions at) has);
  own = λ j k id g h at at' has has'.
      v.own j k id g h (subst (λ d. lookup j d ≡ some g) e.resolutions at)
        (subst (λ d. lookup k d ≡ some h) e.resolutions at') has has';
}

store_handle-AreReserved :
    (deadline : ℕ) (id : Text) (given : List ResolutionCandidate)
    (o : Option (List ResolutionCandidate)) (s : MemoryEphemeralStore)
    → IsScoped s.candidate_ids given o
    → AreReserved s
    → AreReserved (store_handle deadline id o s).0
store_handle-AreReserved deadline id given none s i v = v
store_handle-AreReserved deadline id given (some cs) s (fresh, _) v = record {
  reserved = λ k c h at has.
      let l = lookup-insert id k new s.resolutions in
      unfold is_in in
      rw (any-append (teq c) s.candidate_ids (ids_of cs)) (elim (Bool-cases (teq id k)) [
        | inl e ↦
            let q : h ≡ new = ground (arith, e) in
            ground (arith, is_in-ids_of c cs (subst (λ x. holds c x ≡ true) q has))
        | inr e ↦ ground (arith, v.reserved k c h (ground (arith, e)) has)
      ]);
  own = λ j k c g h at at' has has'.
      let l = lookup-insert id j new s.resolutions in
      let m = lookup-insert id k new s.resolutions in
      elim (Bool-cases (teq id j)) [
        | inl a ↦ elim (Bool-cases (teq id k)) [
          | inl b ↦ sym ((teq_iff id j).0 a) ∙ (teq_iff id k).0 b
          | inr b ↦
              let q : g ≡ new = ground (arith, a) in
              absurd (
                clash c (subst (λ x. holds c x ≡ true) q has)
                  (v.reserved k c h (ground (arith, b)) has'))
        ]
        | inr a ↦ elim (Bool-cases (teq id k)) [
          | inl b ↦
              let q : h ≡ new = ground (arith, b) in
              absurd (
                clash c (subst (λ x. holds c x ≡ true) q has')
                  (v.reserved j c g (ground (arith, a)) has))
          | inr b ↦ v.own j k c g h (ground (arith, a)) (ground (arith, b)) has has'
        ]
      ];
}
  where
    new : ResolutionHandle
    new = record { resolution_id = id; expires_at = deadline; candidates = cs }

    clash : (c : Text) → any (has_id c) cs ≡ true → is_in s.candidate_ids c ≡ true → ⊥
    clash c has used =
        let f = FreshIds-unused s.candidate_ids cs c fresh used in ground (arith, has, f)

get_handle-AreReserved :
    (now : ℕ) (id : Text) (o : Option ResolutionHandle) (s : MemoryEphemeralStore)
    → AreReserved s
    → AreReserved (get_handle now id o s).0
get_handle-AreReserved now id none s v = v
get_handle-AreReserved now id (some x) s v = elim (Bool-cases (is_expired now x.expires_at)) [
  | inl e ↦ rw e (drop-AreReserved id s v)
  | inr e ↦ rw e v
]

consume_handle-AreReserved :
    (now : ℕ) (id c : Text) (o : Option ResolutionHandle) (s : MemoryEphemeralStore)
    → AreReserved s
    → AreReserved (consume_handle now id c o s).0
consume_handle-AreReserved now id c none s v = v
consume_handle-AreReserved now id c (some x) s v = elim (Bool-cases (is_expired now x.expires_at)) [
  | inl e ↦ rw e (drop-AreReserved id s v)
  | inr e ↦ elim (Option-cases (select c x.candidates)) [
    | inl m ↦ rw (e, m) v
    | inr (d, m) ↦ rw (e, m) (drop-AreReserved id s v)
  ]
]

Step-AreReserved : {s t : MemoryEphemeralStore} → Step s t → AreReserved s → AreReserved t
unfolding create_resolution get_resolution consume_resolution_choice create_context_capability
    get_context_capability authorize_locator purge_expired
Step-AreReserved {s} (creates now ttl id draws cs) v =
    store_handle-AreReserved (now + bounded_ttl ttl) id cs
      (scope_candidates s.candidate_ids draws cs) s
      (scope_candidates-IsScoped s.candidate_ids draws cs) v
Step-AreReserved {s} (gets now id) v = get_handle-AreReserved now id (lookup id s.resolutions) s v
Step-AreReserved {s} (consumes now id c) v =
    consume_handle-AreReserved now id c (lookup id s.resolutions) s v
Step-AreReserved {s} (purges now) v =
    let ks = keys_where (old_handle now) s.resolutions in
    same-AreReserved (drop_resolutions ks s) _ (record { resolutions = refl; candidate_ids = refl })
      (drops-AreReserved ks s v)
Step-AreReserved {s} (creates_context now ttl id es scope) v =
    same-AreReserved s _
      (store_context-SameResolutions (now + bounded_ttl ttl) id scope (normalize [] es) s) v
Step-AreReserved {s} (gets_context now id) v =
    same-AreReserved s _ (drop_expired-SameResolutions id (live now (lookup id s.contexts)) s) v
Step-AreReserved {s} (authorizes now id l caller current issued) v =
    same-AreReserved s _ (drop_expired-SameResolutions id (live now (lookup id s.contexts)) s) v

-- The stores that the methods reach from an empty one.
pub data Reach : MemoryEphemeralStore → Type 0 where
  here : Reach new_store
  next : {s t : MemoryEphemeralStore} → Reach s → Step s t → Reach t

Reach-AreReserved : {s : MemoryEphemeralStore} → Reach s → AreReserved s
unfolding lookup
Reach-AreReserved here = record { reserved = λ k id h at. cc; own = λ j k id g h at. cc }
Reach-AreReserved (next r st) = Step-AreReserved st (Reach-AreReserved r)

FreshIds-fewer :
    (ids js : List Text) (cs : List ResolutionCandidate)
    → ((id : Text) → is_in ids id ≡ false → is_in js id ≡ false)
    → FreshIds ids cs
    → FreshIds js cs
unfolding FreshIds is_in any
FreshIds-fewer ids js [] f h = tt
FreshIds-fewer ids js (c ∷ cs) f h = (
  f c.candidate_id h.0,
  FreshIds-fewer (c.candidate_id ∷ ids) (c.candidate_id ∷ js) cs (λ id n. ground (arith, f id)) h.1,
)

-- In every store that the methods reach from an empty one: a new resolution holds the given candidates
-- in their order, each with its own type, entity, label and reason; their ids differ from one another,
-- and no candidate of a stored resolution has one of them.
pub create_resolution-IsUnshared :
    (now ttl : ℕ) (id : Text) (draws : List Text) (cs : List ResolutionCandidate)
    (s : MemoryEphemeralStore) (h : ResolutionHandle)
    → Reach s
    → (create_resolution now ttl id draws cs s).1 ≡ some h
    → Scopes cs h.candidates
      × FreshIds [] h.candidates
      × ((k c : Text) (g : ResolutionHandle)
          → lookup k s.resolutions ≡ some g
          → holds c g ≡ true
          → holds c h ≡ false)
create_resolution-IsUnshared now ttl id draws cs s h r e =
    let i = create_resolution-IsScoped now ttl id draws cs s h e in
    (
      i.1,
      FreshIds-fewer s.candidate_ids [] h.candidates (λ id n. unfold is_in any in refl) i.0,
      λ k c g at has.
          FreshIds-unused s.candidate_ids h.candidates c i.0
            ((Reach-AreReserved r).reserved k c g at has),
    )
