-- ===== src/Domain/Locators/Order.antt =====
-- `is_contained` of src/syllva/domain/models.py as an order, and against the points of a locator.
use syllva.Prelude.{ℕ, Text, teq_iff, Bool, true, Option, none, some, ◌≡◌, ◌↔◌, arith, ◌≤◌, refl}
use syllva.Domain.Locators.{
  Locator, page, time, Subtype, source, user, same_subtype, is_contained, page_valid, time_valid,
}

unfoldable pub is_valid : Locator → Bool
is_valid (page l) = page_valid l
is_valid (time l) = time_valid l

-- A page or a second of an entity, as a locator of one point names it.
pub data Point : Type 0 where
  page_point time_point : Text → Option Subtype → ℕ → Point

-- The point lies in the range of the locator.
unfoldable pub Covers : Locator → Point → Type 0
Covers (page l) (page_point id s n) =
    (l.entity_id ≡ id) × (l.subtype ≡ s) × (l.start_page ≤ n) × (n ≤ l.end_page)
Covers (time l) (time_point id s n) =
    (l.entity_id ≡ id) × (l.subtype ≡ s) × (l.start_seconds ≤ n) × (n ≤ l.end_seconds)
Covers l x = ⊥

pub same_subtype_iff : (a b : Option Subtype) → (same_subtype a b ≡ true) ↔ (a ≡ b)
same_subtype_iff none none = ground arith
same_subtype_iff none (some b) = ground arith
same_subtype_iff (some source) none = ground arith
same_subtype_iff (some user) none = ground arith
same_subtype_iff (some source) (some source) = ground arith
same_subtype_iff (some source) (some user) = ground arith
same_subtype_iff (some user) (some source) = ground arith
same_subtype_iff (some user) (some user) = ground arith

contained-Covers : (r a : Locator) (x : Point) → is_contained r a ≡ true → Covers r x → Covers a x
unfolding is_contained Covers
contained-Covers (page r) (page a) (page_point id s n) h c =
    ground (arith, teq_iff r.entity_id a.entity_id, same_subtype_iff r.subtype a.subtype)
contained-Covers (time r) (time a) (time_point id s n) h c =
    ground (arith, teq_iff r.entity_id a.entity_id, same_subtype_iff r.subtype a.subtype)
contained-Covers (page r) (time a) x h c = ground arith
contained-Covers (time r) (page a) x h c = ground arith
contained-Covers (page r) (page a) (time_point id s n) h c = c
contained-Covers (time r) (time a) (page_point id s n) h c = c

Covers-contained :
    (r a : Locator)
    → is_valid r ≡ true
    → ((x : Point) → Covers r x → Covers a x)
    → is_contained r a ≡ true
unfolding is_contained Covers is_valid page_valid time_valid
Covers-contained (page r) (page a) v h =
    let low =
      h (page_point r.entity_id r.subtype r.start_page) (refl, refl, ground arith, ground arith) in
    let high =
      h (page_point r.entity_id r.subtype r.end_page) (refl, refl, ground arith, ground arith) in
    ground (arith, low, high, teq_iff r.entity_id a.entity_id, same_subtype_iff r.subtype a.subtype)
Covers-contained (time r) (time a) v h =
    let low =
      h (time_point r.entity_id r.subtype r.start_seconds)
        (refl, refl, ground arith, ground arith) in
    let high =
      h (time_point r.entity_id r.subtype r.end_seconds) (refl, refl, ground arith, ground arith) in
    ground (arith, low, high, teq_iff r.entity_id a.entity_id, same_subtype_iff r.subtype a.subtype)
Covers-contained (page r) (time a) v h =
    absurd
      (h (page_point r.entity_id r.subtype r.start_page) (refl, refl, ground arith, ground arith))
Covers-contained (time r) (page a) v h =
    absurd (
      h (time_point r.entity_id r.subtype r.start_seconds) (refl, refl, ground arith, ground arith))

-- A valid locator is contained in another exactly if every page (every second) that it covers is
-- covered by the other, for the same entity, the same kind and the same subtype.
pub is_contained-Covers :
    (r a : Locator)
    → is_valid r ≡ true
    → (is_contained r a ≡ true) ↔ ((x : Point) → Covers r x → Covers a x)
is_contained-Covers r a v = (λ h x c. contained-Covers r a x h c, Covers-contained r a v)
