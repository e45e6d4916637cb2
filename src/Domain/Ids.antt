-- ===== src/Domain/Ids.antt =====
-- The entity identifiers of src/syllva/domain/ids.py: `{COURSE_CODE}-{TYPE}{NN}`. The pattern is
-- the one that src/syllva/gate/service.py compiles as `ENTITY_ID`.
use syllva.Prelude.{
  ℕ, ◌+◌, ◌-◌, ◌*◌, Text, Bool, true, false, ◌&&◌, ◌||◌, Option, none, some, [], ◌∷◌, ◌++◌, leb,
  ◌==◌, if◌then◌else◌,
}

abbrev pub is_digit : ℕ → Bool
is_digit c = leb 48 c && leb c 57

abbrev pub is_upper : ℕ → Bool
is_upper c = leb 65 c && leb c 90

pub record EntityId : Type 0 where
  pub course_code : Text
  pub entity_type : ℕ
  pub sequence : ℕ

-- `-[A-Z][0-9]{2}` up to the end, behind a course code that is given in full.
abbrev pub parse_suffix : Text → Text → Option EntityId
parse_suffix code (t ∷ d ∷ e ∷ []) =
    if is_upper t && (is_digit d && is_digit e)
    then some (record { course_code = code; entity_type = t; sequence = (d - 48) * 10 + (e - 48) })
    else none
parse_suffix code _ = none

-- `[A-Z0-9]*` and what follows; `code` is what is read so far.
unfoldable pub parse_code : Text → Text → Option EntityId
parse_code code [] = none
parse_code code (c ∷ cs) =
    let more = parse_code (code ++ c ∷ []) cs in
    if c == 45 then parse_suffix code cs else if is_upper c || is_digit c then more else none

unfoldable pub parse_entity_id : Text → Option EntityId
unfolding parse_code
parse_entity_id [] = none
parse_entity_id (c ∷ cs) = if is_upper c then parse_code (c ∷ []) cs else none

-- `ENTITY_ID.fullmatch(text)`
unfoldable pub matches_entity_id : Text → Bool
unfolding parse_entity_id
matches_entity_id text = elim (parse_entity_id text) [ none ↦ false | some e ↦ true ]
