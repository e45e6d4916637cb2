-- ===== src/Domain/Locators/Canonical.antt =====
-- What `parse_locator` of src/syllva/domain/models.py returns is valid and has a canonical text.
use syllva.Prelude.{
  ℕ, Text, Bool, true, false, ◌&&◌, ◌||◌, not, Option, none, some, [], ◌∷◌, ◌++◌, ltb, ◌==◌, length,
  ◌≡◌, refl, subst, arith, inl, inr, Bool-cases, Option-cases,
}
use syllva.Prelude.Decimal.{decimal, is_number, all_digits, decimal-read_number}
use syllva.Domain.Ids.{matches_entity_id}
use syllva.Domain.Locators.{
  Locator, page, time, PageLocator, TimeLocator, Subtype, Parsed, parsed, page_valid, time_valid,
  make_page, make_time, span_digits, parse_subtype, page_target, page_rest, timestamp, time_target,
  time_rest, parse_target, parse_from, parse_locator, read_page, serialize_locator, max_str_digits,
  time_end, strip_p,
}
use syllva.Domain.Locators.Order.{is_valid}
use syllva.Domain.Locators.RoundTrip.{parse_locator-serialize_locator}

abbrev has_text : Option Text → Bool
has_text none = false
has_text (some t) = true

-- Nothing is said of an error.
IsGood : Parsed → Type 0
IsGood (parsed l) = (is_valid l ≡ true) × (has_text (serialize_locator l) ≡ true)
IsGood r = Unit

span_digits-all : (cs : Text) → all_digits (span_digits cs).0 ≡ true
unfolding span_digits all_digits
span_digits-all [] = refl
span_digits-all (c ∷ cs) = ground (arith, span_digits-all cs)

serialize-page :
    (l : PageLocator)
    → ltb max_str_digits (length (decimal l.start_page)) ≡ false
    → ltb max_str_digits (length (decimal l.end_page)) ≡ false
    → has_text (serialize_locator (page l)) ≡ true
unfolding serialize_locator
serialize-page l h k = ground arith

serialize-time : (l : TimeLocator) → has_text (serialize_locator (time l)) ≡ true
unfolding serialize_locator
serialize-time l = ground arith

make_page-IsGood :
    (l : PageLocator) → has_text (serialize_locator (page l)) ≡ true → IsGood (make_page l)
unfolding make_page IsGood is_valid
make_page-IsGood l h = elim (Bool-cases (page_valid l)) [ inl e ↦ rw e (e, h) | inr e ↦ rw e tt ]

make_time-IsGood : (l : TimeLocator) → IsGood (make_time l)
unfolding make_time IsGood is_valid
make_time-IsGood l = elim (Bool-cases (time_valid l)) [
  | inl e ↦ rw e (e, serialize-time l)
  | inr e ↦ rw e tt
]

read_page-IsGood :
    (id first second : Text) (s : Option Subtype)
    → all_digits first ≡ true
    → all_digits second ≡ true
    → not (is_number first && is_number second) ≡ false
    → ltb max_str_digits (length first) || ltb max_str_digits (length second) ≡ false
    → IsGood (make_page (read_page id first second s))
read_page-IsGood id first second s h k n g = make_page-IsGood (read_page id first second s) (
    serialize-page (read_page id first second s) (ground (arith, decimal-read_number first))
      (ground (arith, decimal-read_number second)))

page_target-IsGood :
    (id first second : Text) (s : Option (Option Subtype))
    → all_digits first ≡ true
    → all_digits second ≡ true
    → IsGood (page_target id first second s)
unfolding page_target IsGood
page_target-IsGood id first second none h k = tt
page_target-IsGood id first second (some s) h k =
    elim (Bool-cases (not (is_number first && is_number second))) [
      | inl e ↦ rw e tt
      | inr e ↦ elim (Bool-cases (not (matches_entity_id id))) [
        | inl m ↦ rw (e, m) tt
        | inr m ↦
            elim (Bool-cases
              (ltb max_str_digits (length first) || ltb max_str_digits (length second))) [
                | inl g ↦ rw (e, m, g) tt
                | inr g ↦ rw (e, m, g) (read_page-IsGood id first second s h k e g)
              ]
      ]
    ]

page_rest-IsGood :
    (id first rest : Text) → all_digits first ≡ true → IsGood (page_rest id first rest)
unfolding page_rest
page_rest-IsGood id first [] h = page_target-IsGood id first first (some none) h h
page_rest-IsGood id first (c ∷ cs) h = elim (Bool-cases (c == 45)) [
  | inl e ↦ rw e (
      page_target-IsGood id first (span_digits (strip_p cs)).0
        (parse_subtype (span_digits (strip_p cs)).1) h (span_digits-all (strip_p cs)))
  | inr e ↦ rw e (page_target-IsGood id first first (parse_subtype (c ∷ cs)) h h)
]

time_target-IsGood :
    (id : Text) (a b : ℕ) (s : Option (Option Subtype)) → IsGood (time_target id a b s)
unfolding time_target IsGood
time_target-IsGood id a b none = tt
time_target-IsGood id a b (some s) = make_time-IsGood _

time_end-IsGood : (id : Text) (a : ℕ) (o : Option (ℕ × Text)) → IsGood (time_end id a o)
unfolding IsGood
time_end-IsGood id a none = tt
time_end-IsGood id a (some (b, rest)) = time_target-IsGood id a b (parse_subtype rest)

time_rest-IsGood : (id : Text) (o : Option (ℕ × Text)) → IsGood (time_rest id o)
unfolding time_rest IsGood
time_rest-IsGood id none = tt
time_rest-IsGood id (some (a, [])) = time_target-IsGood id a a (some none)
time_rest-IsGood id (some (a, c ∷ cs)) = elim (Bool-cases (c == 45)) [
  | inl e ↦ rw e (time_end-IsGood id a (timestamp cs))
  | inr e ↦ rw e (time_target-IsGood id a a (parse_subtype (c ∷ cs)))
]

parse_target-IsGood : (id cs : Text) → IsGood (parse_target id cs)
unfolding parse_target IsGood
parse_target-IsGood id [] = tt
parse_target-IsGood id (c ∷ cs) = elim (Bool-cases (c == 112)) [
  | inl e ↦ rw e (page_rest-IsGood id (span_digits cs).0 (span_digits cs).1 (span_digits-all cs))
  | inr e ↦ elim (Bool-cases (c == 116)) [
    | inl k ↦ rw (e, k) (time_rest-IsGood id (timestamp cs))
    | inr k ↦ rw (e, k) tt
  ]
]

parse_from-IsGood : (seen cs : Text) → IsGood (parse_from seen cs)
unfolding parse_from IsGood
parse_from-IsGood seen [] = tt
parse_from-IsGood seen (c ∷ cs) = elim (Bool-cases (c == 58)) [
  | inl e ↦ rw e (parse_target-IsGood seen cs)
  | inr e ↦ rw e (parse_from-IsGood (seen ++ c ∷ []) cs)
]

-- A locator that `parse_locator` returns is valid, `serialize_locator` writes it, and reading that
-- canonical text gives the same locator again.
pub parse_locator-canonical :
    (text : Text) (l : Locator)
    → parse_locator text ≡ parsed l
    → (is_valid l ≡ true)
      × ((t : Text) × (serialize_locator l ≡ some t) × (parse_locator t ≡ parsed l))
unfolding parse_locator IsGood
parse_locator-canonical text l h =
    let good = subst IsGood h (parse_from-IsGood [] text) in
    elim (Option-cases (serialize_locator l)) [
      | inl e ↦ absurd (clash e good.1)
      | inr (t, e) ↦ (good.0, (t, e, parse_locator-serialize_locator l t good.0 e))
    ]
  where
    clash : serialize_locator l ≡ none → has_text (serialize_locator l) ≡ true → ⊥
    clash e g = cc
