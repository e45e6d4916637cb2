-- ===== src/Ephemeral/Resolutions/Scoping.antt =====
-- The candidate ids that `create_resolution` of src/syllva/ephemeral/memory.py hands out.
use syllva.Prelude.{
  ℕ, Text, Bool, false, Option, none, some, List, [], ◌∷◌, ◌≡◌, refl, subst, ◌+◌, arith, inl, inr,
  Bool-cases, Option-cases,
}
use syllva.Ephemeral.{MemoryEphemeralStore, ResolutionCandidate, ResolutionHandle, bounded_ttl}
use syllva.Ephemeral.Resolutions.{
  is_in, draw, choose_id, keeps_id, scope_candidates, add_candidate, create_resolution,
  store_handle,
}

-- Candidates whose ids differ from one another and from all of `ids`.
unfoldable pub FreshIds : List Text → List ResolutionCandidate → Type 0
FreshIds ids [] = Unit
FreshIds ids (c ∷ cs) = (is_in ids c.candidate_id ≡ false) × FreshIds (c.candidate_id ∷ ids) cs

-- The scoped candidates stand in the order of the given ones and differ at most in the id.
pub Scopes : (given scoped : List ResolutionCandidate) → Type 0
Scopes [] [] = Unit
Scopes (c ∷ cs) (k ∷ ks) = (k ≡ record c { candidate_id = k.candidate_id }) × Scopes cs ks
Scopes cs ks = ⊥

draw-free :
    (taken : Text → Bool) (ds left : List Text) (k : Text)
    → draw taken ds ≡ some (k, left)
    → taken k ≡ false
unfolding draw
draw-free taken [] left k h = ground arith
draw-free taken (d ∷ ds) left k h = elim (Bool-cases (taken d)) [
  | inl e ↦ draw-free taken ds left k (ground arith)
  | inr e ↦ ground arith
]

choose_id-free :
    (taken : Text → Bool) (id : Text) (ds left : List Text) (k : Text)
    → choose_id taken id ds ≡ some (k, left)
    → taken k ≡ false
unfolding choose_id
choose_id-free taken id ds left k h = elim (Bool-cases (keeps_id taken id)) [
  | inl e ↦ ground arith
  | inr e ↦ draw-free taken ds left k (ground arith)
]

abbrev pub IsScoped :
    List Text → List ResolutionCandidate → Option (List ResolutionCandidate) → Type 0
IsScoped ids cs none = Unit
IsScoped ids cs (some ks) = FreshIds ids ks × Scopes cs ks

add_candidate-IsScoped :
    (ids : List Text) (k : Text) (c : ResolutionCandidate) (cs : List ResolutionCandidate)
    (o : Option (List ResolutionCandidate))
    → is_in ids k ≡ false
    → IsScoped (k ∷ ids) cs o
    → IsScoped ids (c ∷ cs) (add_candidate (record c { candidate_id = k }) o)
unfolding FreshIds Scopes
add_candidate-IsScoped ids k c cs none n h = tt
add_candidate-IsScoped ids k c cs (some ks) n h = ((n, h.0), (refl, h.1))

pub scope_candidates-IsScoped :
    (ids ds : List Text) (cs : List ResolutionCandidate)
    → IsScoped ids cs (scope_candidates ids ds cs)
unfolding scope_candidates
scope_candidates-IsScoped ids ds [] = unfold FreshIds Scopes in (tt, tt)
scope_candidates-IsScoped ids ds (c ∷ cs) =
    elim (Option-cases (choose_id (is_in ids) c.candidate_id ds)) [
      | inl e ↦ rw (scope_candidates, e) tt
      | inr ((k, left), e) ↦
          rw (scope_candidates, e)
            (add_candidate-IsScoped ids k c cs (scope_candidates (k ∷ ids) left cs)
              (choose_id-free (is_in ids) c.candidate_id ds left k e)
              (scope_candidates-IsScoped (k ∷ ids) left cs))
    ]

store_handle-IsScoped :
    (deadline : ℕ) (id : Text) (cs : List ResolutionCandidate)
    (o : Option (List ResolutionCandidate)) (s : MemoryEphemeralStore) (h : ResolutionHandle)
    → IsScoped s.candidate_ids cs o
    → (store_handle deadline id o s).1 ≡ some h
    → FreshIds s.candidate_ids h.candidates × Scopes cs h.candidates
store_handle-IsScoped deadline id cs none s h i e = ground arith
store_handle-IsScoped deadline id cs (some ks) s h i e =
    let same : ks ≡ h.candidates = ground arith in
    subst (λ q. FreshIds s.candidate_ids q × Scopes cs q) same i

pub create_resolution-IsScoped :
    (now ttl : ℕ) (id : Text) (draws : List Text) (cs : List ResolutionCandidate)
    (s : MemoryEphemeralStore) (h : ResolutionHandle)
    → (create_resolution now ttl id draws cs s).1 ≡ some h
    → FreshIds s.candidate_ids h.candidates × Scopes cs h.candidates
unfolding create_resolution
create_resolution-IsScoped now ttl id draws cs s h e =
    store_handle-IsScoped (now + bounded_ttl ttl) id cs (scope_candidates s.candidate_ids draws cs)
      s h (scope_candidates-IsScoped s.candidate_ids draws cs) e
