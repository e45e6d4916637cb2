-- ===== src/Ephemeral/Contexts.antt =====
-- Context capabilities: `create_context_capability`, `get_context_capability` and
-- `authorize_locator` of src/syllva/ephemeral/memory.py, on entries that are `AllowedLocator` values.
pub mod Authorization
use syllva.Prelude.{
  ℕ, ◌+◌, Text, teq, Bool, true, false, ◌&&◌, not, Option, none, some, List, [], ◌∷◌, ◌++◌, ltb,
  ◌==◌, if◌then◌else◌, length, keep, any,
}
use syllva.Prelude.Decimal.{decimal}
use syllva.Prelude.Dict.{lookup, insert, remove}
use syllva.Domain.Locators.{
  Locator, Parsed, parsed, locator_error, value_error, parse_locator, serialize_locator,
  is_contained, max_str_digits,
}
use syllva.Ephemeral.{
  SourceFingerprint, AllowedLocator, ContextCapability, MemoryEphemeralStore, is_expired,
  bounded_ttl,
}

abbrev number_text : ℕ → Option Text
number_text n = if ltb max_str_digits (length (decimal n)) then none else some (decimal n)

abbrev join_key : Option Text → Text → Option Text → Option Text
join_key (some l) hash (some v) = some (l ++ 31 ∷ (hash ++ 31 ∷ v))
join_key l hash v = none

-- The text under which a capability keeps an entry once; `none` is a `ValueError`.
unfoldable pub canonical : AllowedLocator → Option Text
canonical e = join_key (serialize_locator e.locator) e.source_hash (number_text e.source_version)

abbrev add_entry : AllowedLocator → Option (List AllowedLocator) → Option (List AllowedLocator)
add_entry e none = none
add_entry e (some es) = some (e ∷ es)

-- `ContextCapability.__post_init__` behind the entries whose texts are `seen`.
unfoldable pub normalize : List Text → List AllowedLocator → Option (List AllowedLocator)
normalize seen [] = some []
normalize seen (e ∷ es) = elim (canonical e) [
  | none ↦ none
  | some k ↦
      let skip = normalize seen es in
      let rest = normalize (k ∷ seen) es in if any (teq k) seen then skip else add_entry e rest
]

abbrev pub store_context :
    ℕ
    → Text
    → Option Text
    → Option (List AllowedLocator)
    → MemoryEphemeralStore
    → MemoryEphemeralStore × Option ContextCapability
store_context deadline context_id scope none s = (s, none)
store_context deadline context_id scope (some es) s =
    let c : ContextCapability = record {
      context_id = context_id;
      allowed_locators = es;
      caller_scope = scope;
      expires_at = deadline;
    } in
    (record s { contexts = insert context_id c s.contexts }, some c)

unfoldable pub create_context_capability :
    (now ttl : ℕ)
    → Text
    → List AllowedLocator
    → Option Text
    → MemoryEphemeralStore
    → MemoryEphemeralStore × Option ContextCapability
unfolding normalize
create_context_capability now ttl context_id es scope s =
    store_context (now + bounded_ttl ttl) context_id scope (normalize [] es) s

abbrev pub live : ℕ → Option ContextCapability → Option ContextCapability
live now none = none
live now (some c) = if is_expired now c.expires_at then none else some c

-- An expired capability is deleted when it is met.
abbrev pub drop_expired :
    Text → Option ContextCapability → MemoryEphemeralStore → MemoryEphemeralStore
drop_expired context_id none s = record s { contexts = remove context_id s.contexts }
drop_expired context_id (some c) s = s

unfoldable pub get_context_capability :
    ℕ → Text → MemoryEphemeralStore → MemoryEphemeralStore × Option ContextCapability
get_context_capability now context_id s =
    let c = live now (lookup context_id s.contexts) in (drop_expired context_id c s, c)

-- The answers of `authorize_locator`: true, false, and the three errors that it raises.
pub data Authorized : Type 0 where
  allowed denied context_expired locator_stale value_error_raised : Authorized

-- A caller names a locator by its text, or passes one.
pub data LocatorArgument : Type 0 where
  text : Text → LocatorArgument
  value : Locator → LocatorArgument

unfoldable pub requested : LocatorArgument → Parsed
requested (text t) = parse_locator t
requested (value l) = parsed l

unfoldable pub scope_ok : Option Text → Option Text → Bool
scope_ok none caller = true
scope_ok (some scope) none = false
scope_ok (some scope) (some caller) = teq scope caller

unfoldable pub is_fresh : SourceFingerprint → AllowedLocator → Bool
is_fresh f e = teq e.source_hash f.source_hash && e.source_version == f.source_version

abbrev same_texts : Option Text → Option Text → Option Bool
same_texts (some a) (some b) = some (teq a b)
same_texts a b = none

abbrev and_also : Option Bool → Bool → Option Bool
and_also none b = none
and_also (some a) b = some (a && b)

-- Equality of two canonical keys; `none` is a `ValueError`.
unfoldable pub same_key : AllowedLocator → AllowedLocator → Option Bool
same_key e i =
    and_also (same_texts (serialize_locator e.locator) (serialize_locator i.locator))
      (teq e.source_hash i.source_hash && e.source_version == i.source_version)

abbrev keep_entry :
    Option Bool → AllowedLocator → Option (List AllowedLocator) → Option (List AllowedLocator)
keep_entry none e rest = none
keep_entry (some true) e none = none
keep_entry (some true) e (some es) = some (e ∷ es)
keep_entry (some false) e rest = rest

unfoldable pub with_key : AllowedLocator → List AllowedLocator → Option (List AllowedLocator)
unfolding same_key
with_key i [] = some []
with_key i (e ∷ es) = keep_entry (same_key e i) e (with_key i es)

abbrev freshness : Bool → Authorized
freshness true = allowed
freshness false = locator_stale

-- The last check, on the entries that the request falls under.
unfoldable pub check_fresh : Option SourceFingerprint → List AllowedLocator → Authorized
unfolding is_fresh
check_fresh none es = denied
check_fresh (some f) es = freshness (not (any (λ e. not (is_fresh f e)) es))

-- The entry that the caller selected must be one entry of the capability.
unfoldable pub check_issued :
    Locator → Option SourceFingerprint → Option (List AllowedLocator) → Authorized
unfolding check_fresh
check_issued l current none = value_error_raised
check_issued l current (some (e ∷ [])) =
    if is_contained l e.locator then check_fresh current (e ∷ []) else denied
check_issued l current (some es) = denied

abbrev some_match : Option SourceFingerprint → List AllowedLocator → Authorized
some_match current [] = denied
some_match current (e ∷ es) = check_fresh current (e ∷ es)

unfoldable pub check_entries :
    List AllowedLocator
    → Locator
    → Option SourceFingerprint
    → (issued_entry : Option AllowedLocator) → Authorized
unfolding check_issued with_key
check_entries es l current (some i) = check_issued l current (with_key i es)
check_entries es l current none = some_match current (keep (λ e. is_contained l e.locator) es)

unfoldable pub check_parsed :
    List AllowedLocator
    → Option SourceFingerprint
    → (issued_entry : Option AllowedLocator) → Parsed
    → Authorized
unfolding check_entries
check_parsed es current issued (parsed l) = check_entries es l current issued
check_parsed es current issued locator_error = denied
check_parsed es current issued value_error = value_error_raised

unfoldable pub check_capability :
    LocatorArgument
    → (caller_scope : Option Text) → Option SourceFingerprint
    → (issued_entry : Option AllowedLocator) → Option ContextCapability
    → Authorized
unfolding check_parsed requested
check_capability l scope current issued none = context_expired
check_capability l scope current issued (some c) =
    if scope_ok c.caller_scope scope
    then check_parsed c.allowed_locators current issued (requested l)
    else denied

unfoldable pub authorize_locator :
    ℕ
    → Text
    → LocatorArgument
    → (caller_scope : Option Text) → (current : Option SourceFingerprint)
    → (issued_entry : Option AllowedLocator) → MemoryEphemeralStore
    → MemoryEphemeralStore × Authorized
unfolding check_capability get_context_capability
authorize_locator now context_id l scope current issued s =
    let (s', c) = get_context_capability now context_id s in
    (s', check_capability l scope current issued c)
