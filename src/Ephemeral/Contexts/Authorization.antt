-- ===== src/Ephemeral/Contexts/Authorization.antt =====
-- When `authorize_locator` of src/syllva/ephemeral/memory.py says yes.
use syllva.Prelude.{
  ℕ, ◌<◌, Text, Bool, true, false, not, Option, none, some, List, [], ◌∷◌, if◌then◌else◌, keep, any,
  ◌≡◌, refl, subst, arith, inl, inr, Bool-cases, ◌⊎◌,
}
use mathlib.Core.Logic.{◌↔◌, ◌≢◌}
use syllva.Prelude.Dict.{lookup}
use syllva.Domain.Locators.{Locator, Parsed, parsed, locator_error, value_error, is_contained}
use syllva.Ephemeral.{
  SourceFingerprint, AllowedLocator, ContextCapability, MemoryEphemeralStore, is_expired,
}
use syllva.Ephemeral.Contexts.{
  allowed, LocatorArgument, requested, scope_ok, is_fresh, check_fresh, check_entries, check_parsed,
  check_capability, authorize_locator, get_context_capability, freshness, some_match, live,
}

-- An entry of the capability that contains the requested locator and has the current fingerprint.
pub Grants : Locator → SourceFingerprint → List AllowedLocator → Type 0
Grants l f [] = ⊥
Grants l f (e ∷ es) = ((is_contained l e.locator ≡ true) × (is_fresh f e ≡ true)) ⊎ Grants l f es

-- No entry that contains the locator has another fingerprint.
pub NoneStale : Locator → SourceFingerprint → List AllowedLocator → Type 0
NoneStale l f [] = Unit
NoneStale l f (e ∷ es) = (is_contained l e.locator ≡ true → is_fresh f e ≡ true) × NoneStale l f es

-- The entries that contain the locator, and the test that none of them is stale.
stale : SourceFingerprint → AllowedLocator → Bool
stale f e = not (is_fresh f e)

kept-NoneStale :
    (es : List AllowedLocator) (l : Locator) (f : SourceFingerprint)
    → (any (stale f) (keep (λ e. is_contained l e.locator) es) ≡ false) ↔ NoneStale l f es
unfolding NoneStale keep any stale
kept-NoneStale [] l f = (λ _. tt, λ _. refl)
kept-NoneStale (e ∷ es) l f = elim (Bool-cases (is_contained l e.locator)) [
  | inl c ↦ rw c (
    λ h. (λ _. ground arith, (kept-NoneStale es l f).0 (ground arith)),
    λ h. ground (arith, h.0 refl, (kept-NoneStale es l f).1 h.1),
  )
  | inr c ↦
      rw c
        (λ h. (λ k. ground arith, (kept-NoneStale es l f).0 h), λ h. (kept-NoneStale es l f).1 h.1)
]

-- If nothing that contains the locator is stale, an entry grants it once one contains it.
kept-Grants :
    (es : List AllowedLocator) (l : Locator) (f : SourceFingerprint)
    → NoneStale l f es
    → (keep (λ e. is_contained l e.locator) es ≡ []) ⊎ Grants l f es
unfolding NoneStale Grants keep
kept-Grants [] l f n = inl refl
kept-Grants (e ∷ es) l f n = elim (Bool-cases (is_contained l e.locator)) [
  | inl c ↦ inr (inl (c, n.0 c))
  | inr c ↦ elim (kept-Grants es l f n.1) [ inl k ↦ inl (rw c k) | inr g ↦ inr (inr g) ]
]

Grants-kept :
    (es : List AllowedLocator) (l : Locator) (f : SourceFingerprint)
    → Grants l f es
    → keep (λ e. is_contained l e.locator) es ≢ []
unfolding Grants keep
Grants-kept [] l f g h = g
Grants-kept (e ∷ es) l f (inl g) h = ground arith
Grants-kept (e ∷ es) l f (inr g) h = elim (Bool-cases (is_contained l e.locator)) [
  | inl c ↦ ground arith
  | inr c ↦ Grants-kept es l f g (ground arith)
]

freshness-allowed : (b : Bool) → (freshness (not b) ≡ allowed) ↔ (b ≡ false)
freshness-allowed true = (λ h. ground arith, λ h. ground arith)
freshness-allowed false = (λ h. refl, λ h. refl)

some_match-any :
    (ks : List AllowedLocator) (f : SourceFingerprint)
    → (some_match (some f) ks ≡ allowed) ↔ ((ks ≢ []) × (any (stale f) ks ≡ false))
unfolding check_fresh stale
some_match-any [] f = (λ h. ground arith, λ h. absurd (h.0 refl))
some_match-any (k ∷ ks) f = (
  λ h. (λ q. ground arith, (freshness-allowed (any (stale f) (k ∷ ks))).0 h),
  λ h. (freshness-allowed (any (stale f) (k ∷ ks))).1 h.1,
)

entries-allowed :
    (es : List AllowedLocator) (l : Locator) (f : SourceFingerprint)
    → (check_entries es l (some f) none ≡ allowed) ↔ (Grants l f es × NoneStale l f es)
unfolding check_entries
entries-allowed es l f =
    let kept = keep (λ e. is_contained l e.locator) es in
    (
      λ h.
          let k = (some_match-any kept f).0 h in
          let n = (kept-NoneStale es l f).0 k.1 in
          (elim (kept-Grants es l f n) [ inl q ↦ absurd (k.0 q) | inr g ↦ g ], n),
      λ h. (some_match-any kept f).1 (Grants-kept es l f h.0, (kept-NoneStale es l f).1 h.1),
    )

some_match-none : (ks : List AllowedLocator) → some_match none ks ≡ allowed → ⊥
unfolding check_fresh
some_match-none [] h = ground arith
some_match-none (k ∷ ks) h = ground arith

-- What `authorize_locator` asks for, of a capability `c` and a request without a selected entry.
pub record Permits (now : ℕ) (l : LocatorArgument) (scope : Option Text)
    (current : Option SourceFingerprint) (c : ContextCapability) : Type 0 where
  pub locator : Locator
  pub fingerprint : SourceFingerprint
  pub live : now < c.expires_at
  pub in_scope : scope_ok c.caller_scope scope ≡ true
  pub names : requested l ≡ parsed locator
  pub given : current ≡ some fingerprint
  pub grants : Grants locator fingerprint c.allowed_locators
  pub none_stale : NoneStale locator fingerprint c.allowed_locators

Finds : List AllowedLocator → Option SourceFingerprint → Parsed → Type 0
Finds es current q =
    (r : Locator) × (f : SourceFingerprint) × (q ≡ parsed r)
    × (current ≡ some f)
    × Grants r f es
    × NoneStale r f es

parsed-Finds :
    (es : List AllowedLocator) (current : Option SourceFingerprint) (q : Parsed)
    → check_parsed es current none q ≡ allowed
    → Finds es current q
unfolding check_parsed check_entries Finds
parsed-Finds es current locator_error h = ground arith
parsed-Finds es current value_error h = ground arith
parsed-Finds es none (parsed r) h =
    absurd (some_match-none (keep (λ e. is_contained r e.locator) es) h)
parsed-Finds es (some f) (parsed r) h =
    let k = (entries-allowed es r f).0 h in (r, f, refl, refl, k.0, k.1)

capability-Permits :
    (now : ℕ) (l : LocatorArgument) (scope : Option Text) (current : Option SourceFingerprint)
    (c : ContextCapability)
    → now < c.expires_at
    → check_capability l scope current none (some c) ≡ allowed
    → Permits now l scope current c
unfolding check_capability Finds
capability-Permits now l scope current c before h =
    elim (Bool-cases (scope_ok c.caller_scope scope)) [
      | inl e ↦
          let (r, f, a, b, g, n) =
            parsed-Finds c.allowed_locators current (requested l) (ground arith) in
          record {
            locator = r;
            fingerprint = f;
            live = before;
            in_scope = e;
            names = a;
            given = b;
            grants = g;
            none_stale = n;
          }
      | inr e ↦ absurd (denial h e)
    ]
  where
    denial :
        check_capability l scope current none (some c) ≡ allowed
        → scope_ok c.caller_scope scope ≡ false
        → ⊥
    denial a b = ground arith

Permits-capability :
    (now : ℕ) (l : LocatorArgument) (scope : Option Text) (current : Option SourceFingerprint)
    (c : ContextCapability)
    → Permits now l scope current c
    → check_capability l scope current none (some c) ≡ allowed
unfolding check_capability check_parsed
Permits-capability now l scope current c p =
    rw (p.in_scope, p.names, p.given)
      ((entries-allowed c.allowed_locators p.locator p.fingerprint).1 (p.grants, p.none_stale))

no_capability :
    (l : LocatorArgument) (scope : Option Text) (current : Option SourceFingerprint)
    → check_capability l scope current none none ≡ allowed
    → ⊥
unfolding check_capability
no_capability l scope current h = ground arith

live-Permits :
    (now : ℕ) (l : LocatorArgument) (scope : Option Text) (current : Option SourceFingerprint)
    (o : Option ContextCapability)
    → check_capability l scope current none (live now o) ≡ allowed
    → (c : ContextCapability) × (o ≡ some c) × Permits now l scope current c
live-Permits now l scope current none h = absurd (no_capability l scope current h)
live-Permits now l scope current (some c) h = elim (Bool-cases (is_expired now c.expires_at)) [
  | inl e ↦ absurd (
      no_capability l scope current (
        subst (λ b. check_capability l scope current none (if b then none else some c) ≡ allowed) e
          h))
  | inr e ↦ (
    c,
    refl,
    capability-Permits now l scope current c (ground arith) (
        subst (λ b. check_capability l scope current none (if b then none else some c) ≡ allowed) e
          h),
  )
]

Permits-live :
    (now : ℕ) (l : LocatorArgument) (scope : Option Text) (current : Option SourceFingerprint)
    (o : Option ContextCapability) (c : ContextCapability)
    → o ≡ some c
    → Permits now l scope current c
    → check_capability l scope current none (live now o) ≡ allowed
Permits-live now l scope current o c e p =
    let q : is_expired now c.expires_at ≡ false = ground (arith, p.live) in
    rw (e, q) (Permits-capability now l scope current c p)

-- `authorize_locator` without a selected entry says yes exactly if the capability exists, is not
-- expired and admits the caller's scope, the request names a locator, the current fingerprint is
-- given, some entry contains the locator with that fingerprint, and no entry that contains it has
-- another fingerprint.
pub authorize_locator-allowed :
    (now : ℕ) (id : Text) (l : LocatorArgument) (scope : Option Text)
    (current : Option SourceFingerprint) (s : MemoryEphemeralStore)
    → ((authorize_locator now id l scope current none s).1 ≡ allowed)
      ↔ ((c : ContextCapability) × (lookup id s.contexts ≡ some c) × Permits now l scope current c)
unfolding authorize_locator get_context_capability
authorize_locator-allowed now id l scope current s = (
  live-Permits now l scope current (lookup id s.contexts),
  λ (c, e, p). Permits-live now l scope current (lookup id s.contexts) c e p,
)
