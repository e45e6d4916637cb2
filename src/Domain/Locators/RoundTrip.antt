-- ===== src/Domain/Locators/RoundTrip.antt =====
-- `parse_locator` reads what `serialize_locator` writes (src/syllva/domain/models.py).
use syllva.Prelude.{
  ℕ, ◌≤◌, Text, teq, Bool, true, false, not, Option, none, some, [], ◌∷◌, ◌++◌, ltb, ◌==◌, length,
  any, ◌≡◌, refl, ap, ◌∙◌, sym, arith, inl, inr, Bool-cases,
}
use mathlib.Core.List.{append-nil, append_assoc}
use syllva.Prelude.Decimal.{decimal, all_digits, decimal-read, decimal-digits, decimal-is_number}
use syllva.Domain.Ids.{parse_suffix, parse_code, parse_entity_id, matches_entity_id}
use syllva.Domain.Locators.{
  Locator, page, time, PageLocator, TimeLocator, Subtype, source, user, parsed, page_valid,
  time_valid, make_page, make_time, span_digits, parse_subtype, page_target, page_rest, timestamp,
  time_target, time_rest, parse_target, parse_from, parse_locator, format_timestamp, subtype_text,
  serialize_locator, max_str_digits, max_timestamp_seconds,
}
use syllva.Domain.Locators.Order.{is_valid}

abbrev is_colon : ℕ → Bool
is_colon c = c == 58

abbrev has_value {ℓ} : {A : Type ℓ} → Option A → Bool
has_value none = false
has_value (some a) = true

suffix-colon : (code cs : Text) → has_value (parse_suffix code cs) ≡ true → any is_colon cs ≡ false
unfolding any
suffix-colon code (t ∷ d ∷ e ∷ []) h = ground arith
suffix-colon code [] h = ground arith
suffix-colon code (t ∷ []) h = ground arith
suffix-colon code (t ∷ d ∷ []) h = ground arith
suffix-colon code (t ∷ d ∷ e ∷ f ∷ cs) h = ground arith

parse_code-colon :
    (code cs : Text) → has_value (parse_code code cs) ≡ true → any is_colon cs ≡ false
unfolding parse_code any
parse_code-colon code [] h = refl
parse_code-colon code (c ∷ cs) h = elim (Bool-cases (c == 45)) [
  | inl e ↦ ground (arith, suffix-colon code cs)
  | inr e ↦ ground (arith, parse_code-colon (code ++ c ∷ []) cs)
]

-- An identifier has no colon.
matches-colon : (id : Text) → matches_entity_id id ≡ true → any is_colon id ≡ false
unfolding matches_entity_id parse_entity_id any
matches-colon [] h = refl
matches-colon (c ∷ cs) h = ground (arith, parse_code-colon (c ∷ []) cs)

parse_from-append :
    (seen id rest : Text)
    → any is_colon id ≡ false
    → parse_from seen (id ++ 58 ∷ rest) ≡ parse_target (seen ++ id) rest
unfolding parse_from any
parse_from-append seen [] rest h = ap (λ t. parse_target t rest) (sym (append-nil seen))
parse_from-append seen (c ∷ id) rest h =
    ground (arith, parse_from-append (seen ++ c ∷ []) id rest, append_assoc seen (c ∷ []) id)

span_digits-append :
    (ds rest : Text)
    → all_digits ds ≡ true
    → span_digits rest ≡ ([], rest)
    → span_digits (ds ++ rest) ≡ (ds, rest)
unfolding span_digits all_digits
span_digits-append [] rest h e = e
span_digits-append (d ∷ ds) rest h e = ground (arith, span_digits-append ds rest)

subtype_text-parse : (s : Option Subtype) → parse_subtype (subtype_text s) ≡ some s
unfolding parse_subtype teq
subtype_text-parse none = refl
subtype_text-parse (some source) = refl
subtype_text-parse (some user) = refl

timestamp-format :
    (n : ℕ) (rest : Text)
    → n ≤ max_timestamp_seconds
    → timestamp (format_timestamp n rest) ≡ some (n, rest)
unfolding timestamp
timestamp-format n rest h = ground arith

-- What follows a number does not start with a digit.
subtype-span : (s : Option Subtype) → span_digits (subtype_text s) ≡ ([], subtype_text s)
unfolding span_digits
subtype-span none = refl
subtype-span (some source) = refl
subtype-span (some user) = refl

dash-span : (cs : Text) → span_digits (45 ∷ cs) ≡ ([], 45 ∷ cs)
unfolding span_digits
dash-span cs = refl

page_rest-subtype :
    (id d : Text) (s : Option Subtype)
    → page_rest id d (subtype_text s) ≡ page_target id d d (some s)
unfolding page_rest parse_subtype teq
page_rest-subtype id d none = refl
page_rest-subtype id d (some source) = refl
page_rest-subtype id d (some user) = refl

short : ℕ → Bool
short n = not (ltb max_str_digits (length (decimal n)))

page_target-valid :
    (l : PageLocator)
    → page_valid l ≡ true
    → short l.start_page ≡ true
    → short l.end_page ≡ true
    → page_target l.entity_id (decimal l.start_page) (decimal l.end_page) (some l.subtype)
      ≡ parsed (page l)
unfolding page_target make_page page_valid short
page_target-valid l v h k = ground (
  arith,
  decimal-is_number l.start_page,
  decimal-is_number l.end_page,
  decimal-read l.start_page,
  decimal-read l.end_page,
)

parse_target-page :
    (l : PageLocator)
    → page_valid l ≡ true
    → short l.start_page ≡ true
    → short l.end_page ≡ true
    → l.start_page ≡ l.end_page
    → parse_target l.entity_id (112 ∷ (decimal l.start_page ++ subtype_text l.subtype))
      ≡ parsed (page l)
unfolding parse_target
parse_target-page l v h k e =
    rw
      (span_digits-append (decimal l.start_page) (subtype_text l.subtype)
        (decimal-digits l.start_page) (subtype-span l.subtype))
      (page_rest-subtype l.entity_id (decimal l.start_page) l.subtype
        ∙ ap (λ n. page_target l.entity_id (decimal l.start_page) (decimal n) (some l.subtype)) e
        ∙ page_target-valid l v h k)

parse_target-pages :
    (l : PageLocator)
    → page_valid l ≡ true
    → short l.start_page ≡ true
    → short l.end_page ≡ true
    → parse_target l.entity_id
        (112 ∷ (decimal l.start_page ++ 45 ∷ 112 ∷ (decimal l.end_page ++ subtype_text l.subtype)))
      ≡ parsed (page l)
unfolding parse_target page_rest
parse_target-pages l v h k =
    rw
      (
        span_digits-append (decimal l.start_page)
            (45 ∷ 112 ∷ (decimal l.end_page ++ subtype_text l.subtype))
            (decimal-digits l.start_page)
            (dash-span (112 ∷ (decimal l.end_page ++ subtype_text l.subtype))),
        span_digits-append (decimal l.end_page) (subtype_text l.subtype) (decimal-digits l.end_page)
            (subtype-span l.subtype),
        subtype_text-parse l.subtype,
      )
      (page_target-valid l v h k)

parse_locator-entity :
    (id rest : Text)
    → matches_entity_id id ≡ true
    → parse_locator (id ++ 58 ∷ rest) ≡ parse_target id rest
unfolding parse_locator
parse_locator-entity id rest h = parse_from-append [] id rest (matches-colon id h)

page-round :
    (l : PageLocator) (t : Text)
    → page_valid l ≡ true
    → serialize_locator (page l) ≡ some t
    → parse_locator t ≡ parsed (page l)
unfolding serialize_locator page_valid short
page-round l t v h = elim (Bool-cases (l.start_page == l.end_page)) [
  | inl e ↦ ground (
    arith,
    parse_target-page l v,
    parse_locator-entity l.entity_id (112 ∷ (decimal l.start_page ++ subtype_text l.subtype)),
  )
  | inr e ↦ ground (
    arith,
    parse_target-pages l v,
    parse_locator-entity l.entity_id
        (112 ∷ (decimal l.start_page ++ 45 ∷ 112 ∷ (decimal l.end_page ++ subtype_text l.subtype))),
  )
]

time_rest-subtype :
    (id : Text) (n : ℕ) (s : Option Subtype)
    → time_rest id (some (n, subtype_text s)) ≡ time_target id n n (some s)
unfolding time_rest parse_subtype teq
time_rest-subtype id n none = refl
time_rest-subtype id n (some source) = refl
time_rest-subtype id n (some user) = refl

time-round :
    (l : TimeLocator) (t : Text)
    → time_valid l ≡ true
    → serialize_locator (time l) ≡ some t
    → parse_locator t ≡ parsed (time l)
unfolding serialize_locator time_valid parse_target time_rest time_target make_time
time-round l t v h = elim (Bool-cases (l.start_seconds == l.end_seconds)) [
  | inl e ↦ ground (
    arith,
    parse_locator-entity l.entity_id
        (116 ∷ format_timestamp l.start_seconds (subtype_text l.subtype)),
    timestamp-format l.start_seconds (subtype_text l.subtype),
    time_rest-subtype l.entity_id l.start_seconds l.subtype,
  )
  | inr e ↦ ground (
    arith,
    parse_locator-entity l.entity_id (
        116
        ∷ format_timestamp l.start_seconds
            (45 ∷ format_timestamp l.end_seconds (subtype_text l.subtype))),
    timestamp-format l.start_seconds (45 ∷ format_timestamp l.end_seconds (subtype_text l.subtype)),
    timestamp-format l.end_seconds (subtype_text l.subtype),
    subtype_text-parse l.subtype,
  )
]

-- Whatever a valid locator is written as, `parse_locator` reads that locator back from the text.
pub parse_locator-serialize_locator :
    (l : Locator) (t : Text)
    → is_valid l ≡ true
    → serialize_locator l ≡ some t
    → parse_locator t ≡ parsed l
unfolding is_valid
parse_locator-serialize_locator (page l) t v h = page-round l t v h
parse_locator-serialize_locator (time l) t v h = time-round l t v h
