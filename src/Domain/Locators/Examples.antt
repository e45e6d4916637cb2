-- ===== src/Domain/Locators/Examples.antt =====
-- Locators of one entity, written and read.
use syllva.Domain.Ids.{matches_entity_id}
use syllva.Prelude.Decimal.{decimal, is_number, read_digits}
use syllva.Prelude.{Text, codes, true, none, some, ◌≡◌, ◌↔◌, refl, teq}
use syllva.Domain.Locators.{
  Locator, page, time, source, parsed, locator_error, page_valid, time_valid, parse_locator,
  serialize_locator, is_contained, parse_subtype, span_digits, timestamp,
}
use syllva.Domain.Locators.Order.{is_valid, Point, Covers, is_contained-Covers}
use syllva.Domain.Locators.RoundTrip.{parse_locator-serialize_locator}
use syllva.Domain.Locators.Canonical.{parse_locator-canonical}

abbrev pages : Locator
pages =
    page (record {
      entity_id = codes "CS101-L03";
      start_page = 4;
      end_page = 12;
      subtype = some source;
    })

abbrev inner : Locator
inner =
    page (record {
      entity_id = codes "CS101-L03";
      start_page = 5;
      end_page = 5;
      subtype = some source;
    })

abbrev lecture : Locator
lecture = time (record {
  entity_id = codes "CS101-T01";
  start_seconds = 61;
  end_seconds = 3_725;
  subtype = none;
})

pages_text : serialize_locator pages ≡ some (codes "CS101-L03:p4-p12:source")
unfolding serialize_locator decimal
pages_text = refl

lecture_text : serialize_locator lecture ≡ some (codes "CS101-T01:t00:01:01-01:02:05")
unfolding serialize_locator
lecture_text = refl

short_range : parse_locator (codes "CS101-L03:p4-12:source") ≡ parsed pages
unfolding parse_locator span_digits parse_subtype teq is_number matches_entity_id page_valid
    read_digits
short_range = refl

reversed_range : parse_locator (codes "CS101-L03:p12-4") ≡ locator_error
unfolding parse_locator span_digits parse_subtype is_number matches_entity_id page_valid read_digits
reversed_range = refl

bad_minute : parse_locator (codes "CS101-T01:t00:60:00") ≡ locator_error
unfolding parse_locator timestamp
bad_minute = refl

inner_valid : is_valid inner ≡ true
unfolding is_valid page_valid matches_entity_id
inner_valid = refl

lecture_valid : is_valid lecture ≡ true
unfolding is_valid time_valid matches_entity_id
lecture_valid = refl

parse_locator-serialize_locator_example :
    parse_locator (codes "CS101-T01:t00:01:01-01:02:05") ≡ parsed lecture
parse_locator-serialize_locator_example =
    parse_locator-serialize_locator lecture (codes "CS101-T01:t00:01:01-01:02:05") lecture_valid
      lecture_text

parse_locator-canonical_example :
    (is_valid pages ≡ true)
    × ((t : Text) × (serialize_locator pages ≡ some t) × (parse_locator t ≡ parsed pages))
parse_locator-canonical_example =
    parse_locator-canonical (codes "CS101-L03:p4-12:source") pages short_range

is_contained-Covers_example :
    (is_contained inner pages ≡ true) ↔ ((x : Point) → Covers inner x → Covers pages x)
is_contained-Covers_example = is_contained-Covers inner pages inner_valid
