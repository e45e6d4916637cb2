-- ===== src/Domain/Locators.antt =====
-- Locators, the page and time ranges of src/syllva/domain/models.py: `PageLocator`, `TimeLocator`,
-- `parse_locator`, `serialize_locator` and `is_contained`. The numbers of a locator are natural
-- numbers, so that the checks against negative ones have nothing to do. Python's `int` and `str`
-- refuse numbers of more than 4300 digits with a `ValueError`, which is a result of its own.
pub mod Order
pub mod Canonical
pub mod RoundTrip
mod Examples
use syllva.Prelude.{
  ℕ, ◌+◌, ◌*◌, ◌-◌, ◌/◌, ◌%◌, Text, codes, teq, Bool, true, false, ◌&&◌, ◌||◌, not, Option, none,
  some, [], ◌∷◌, ◌++◌, ltb, leb, ◌==◌, if◌then◌else◌, length,
}
use syllva.Prelude.Decimal.{decimal, read_digits, is_number}
use syllva.Domain.Ids.{is_digit, matches_entity_id}

pub data Subtype : Type 0 where
  source user : Subtype

pub record PageLocator : Type 0 where
  pub entity_id : Text
  pub start_page : ℕ
  pub end_page : ℕ
  pub subtype : Option Subtype

pub record TimeLocator : Type 0 where
  pub entity_id : Text
  pub start_seconds : ℕ
  pub end_seconds : ℕ
  pub subtype : Option Subtype

pub data Locator : Type 0 where
  page : PageLocator → Locator
  time : TimeLocator → Locator

-- A call returns, raises `LocatorParseError`, or raises the `ValueError` of a number that is too long.
pub data Parsed : Type 0 where
  parsed : Locator → Parsed
  locator_error value_error : Parsed

abbrev pub max_timestamp_seconds : ℕ
max_timestamp_seconds = 359_999

abbrev pub max_str_digits : ℕ
max_str_digits = 4300

-- `PageLocator.__post_init__`
unfoldable pub page_valid : PageLocator → Bool
page_valid l =
    matches_entity_id l.entity_id
    && (leb 1 l.start_page && leb 1 l.end_page)
    && leb l.start_page l.end_page

-- `TimeLocator.__post_init__`
unfoldable pub time_valid : TimeLocator → Bool
time_valid l =
    matches_entity_id l.entity_id
    && (leb l.start_seconds max_timestamp_seconds && leb l.end_seconds max_timestamp_seconds)
    && leb l.start_seconds l.end_seconds

unfoldable pub make_page : PageLocator → Parsed
make_page l = if page_valid l then parsed (page l) else locator_error

unfoldable pub make_time : TimeLocator → Parsed
make_time l = if time_valid l then parsed (time l) else locator_error

-- The longest run of digits in front, and what follows it.
unfoldable pub span_digits : Text → Text × Text
span_digits [] = ([], [])
span_digits (c ∷ cs) =
    let rest = span_digits cs in if is_digit c then (c ∷ rest.0, rest.1) else ([], c ∷ cs)

-- `(?::(?P<subtype>source|user))?\Z`
unfoldable pub parse_subtype : Text → Option (Option Subtype)
parse_subtype [] = some none
parse_subtype (c ∷ cs) =
    if teq (c ∷ cs) (codes ":source")
    then some (some source)
    else if teq (c ∷ cs) (codes ":user")
    then some (some user)
    else none

abbrev pub strip_p : Text → Text
strip_p [] = []
strip_p (c ∷ cs) = if c == 112 then cs else c ∷ cs

abbrev pub read_page : Text → (first second : Text) → Option Subtype → PageLocator
read_page entity_id first second subtype = record {
  entity_id = entity_id;
  start_page = read_digits 0 first;
  end_page = read_digits 0 second;
  subtype = subtype;
}

-- `_parse_page_target` on the digits of the two numbers, and `PageLocator`.
unfoldable pub page_target : Text → (first second : Text) → Option (Option Subtype) → Parsed
unfolding make_page
page_target entity_id first second none = locator_error
page_target entity_id first second (some subtype) =
    if not (is_number first && is_number second)
    then locator_error
    else if not (matches_entity_id entity_id)
    then locator_error
    else if ltb max_str_digits (length first) || ltb max_str_digits (length second)
    then value_error
    else make_page (read_page entity_id first second subtype)

-- What follows the first number of a page target.
unfoldable pub page_rest : Text → Text → Text → Parsed
unfolding page_target
page_rest entity_id first [] = page_target entity_id first first (some none)
page_rest entity_id first (c ∷ cs) =
    if c == 45
    then page_target entity_id first (span_digits (strip_p cs)).0
        (parse_subtype (span_digits (strip_p cs)).1)
    else page_target entity_id first first (parse_subtype (c ∷ cs))

abbrev pub two_digits : ℕ → ℕ → ℕ
two_digits a b = (a - 48) * 10 + (b - 48)

abbrev pub seconds_of : ℕ → ℕ → ℕ → ℕ
seconds_of h m s = h * 60 * 60 + m * 60 + s

-- `[0-9]{2}:[0-9]{2}:[0-9]{2}` in front, read by `_parse_timestamp`, and what follows it.
unfoldable pub timestamp : Text → Option (ℕ × Text)
timestamp (a ∷ b ∷ c ∷ d ∷ e ∷ f ∷ g ∷ h ∷ rest) =
    if (is_digit a && is_digit b && c == 58 && is_digit d)
      && (is_digit e && f == 58 && is_digit g && is_digit h)
      && (leb (two_digits d e) 59 && leb (two_digits g h) 59)
    then some (seconds_of (two_digits a b) (two_digits d e) (two_digits g h), rest)
    else none
timestamp _ = none

unfoldable pub time_target :
    Text → (start : ℕ) → (end_seconds : ℕ) → Option (Option Subtype) → Parsed
unfolding make_time
time_target entity_id start end_seconds none = locator_error
time_target entity_id start end_seconds (some subtype) = make_time (record {
  entity_id = entity_id;
  start_seconds = start;
  end_seconds = end_seconds;
  subtype = subtype;
})

abbrev pub time_end : Text → ℕ → Option (ℕ × Text) → Parsed
time_end entity_id start none = locator_error
time_end entity_id start (some (end_seconds, rest)) =
    time_target entity_id start end_seconds (parse_subtype rest)

unfoldable pub time_rest : Text → Option (ℕ × Text) → Parsed
unfolding time_target
time_rest entity_id none = locator_error
time_rest entity_id (some (start, [])) = time_target entity_id start start (some none)
time_rest entity_id (some (start, c ∷ cs)) =
    if c == 45
    then time_end entity_id start (timestamp cs)
    else time_target entity_id start start (parse_subtype (c ∷ cs))

unfoldable pub parse_target : Text → Text → Parsed
unfolding page_rest time_rest
parse_target entity_id [] = locator_error
parse_target entity_id (c ∷ cs) =
    if c == 112
    then page_rest entity_id (span_digits cs).0 (span_digits cs).1
    else if c == 116
    then time_rest entity_id (timestamp cs)
    else locator_error

-- `[^:]+:` in front; `seen` is what is read so far.
unfoldable pub parse_from : Text → Text → Parsed
unfolding parse_target
parse_from seen [] = locator_error
parse_from seen (c ∷ cs) =
    let more = parse_from (seen ++ c ∷ []) cs in if c == 58 then parse_target seen cs else more

unfoldable pub parse_locator : Text → Parsed
unfolding parse_from
parse_locator text = parse_from [] text

abbrev pub pad2 : ℕ → Text → Text
pad2 n rest = (48 + n / 10) ∷ (48 + n % 10) ∷ rest

-- `_format_timestamp` in front of `rest`, for at most `max_timestamp_seconds`.
abbrev pub format_timestamp : ℕ → Text → Text
format_timestamp n rest = pad2 (n / 3600) (58 ∷ pad2 (n % 3600 / 60) (58 ∷ pad2 (n % 60) rest))

abbrev pub subtype_text : Option Subtype → Text
subtype_text none = []
subtype_text (some source) = codes ":source"
subtype_text (some user) = codes ":user"

-- `serialize_locator`; `none` is the `ValueError` of a page number that is too long, and of a
-- time locator that its constructor refuses.
unfoldable pub serialize_locator : Locator → Option Text
serialize_locator (page l) =
    if ltb max_str_digits (length (decimal l.start_page))
      || ltb max_str_digits (length (decimal l.end_page))
    then none
    else if l.start_page == l.end_page
    then some (l.entity_id ++ 58 ∷ 112 ∷ (decimal l.start_page ++ subtype_text l.subtype))
    else some (
        l.entity_id
        ++ 58
          ∷ 112
          ∷ (decimal l.start_page ++ 45 ∷ 112 ∷ (decimal l.end_page ++ subtype_text l.subtype)))
serialize_locator (time l) =
    if l.start_seconds == l.end_seconds
    then some (l.entity_id ++ 58 ∷ 116 ∷ format_timestamp l.start_seconds (subtype_text l.subtype))
    else some (
        l.entity_id
        ++ 58
          ∷ 116
          ∷ format_timestamp l.start_seconds
              (45 ∷ format_timestamp l.end_seconds (subtype_text l.subtype)))

abbrev pub same_subtype : Option Subtype → Option Subtype → Bool
same_subtype none none = true
same_subtype (some source) (some source) = true
same_subtype (some user) (some user) = true
same_subtype a b = false

unfoldable pub is_contained : (requested allowed : Locator) → Bool
is_contained (page r) (page a) =
    teq r.entity_id a.entity_id
    && same_subtype r.subtype a.subtype
    && (leb a.start_page r.start_page && leb r.end_page a.end_page)
is_contained (time r) (time a) =
    teq r.entity_id a.entity_id
    && same_subtype r.subtype a.subtype
    && (leb a.start_seconds r.start_seconds && leb r.end_seconds a.end_seconds)
is_contained r a = false
