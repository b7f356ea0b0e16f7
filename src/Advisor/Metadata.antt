-- ===== src/Advisor/Metadata.antt =====
-- Handbook identity and metadata confirmation of app/agents/state.py. The functions that return a
-- dictionary of updates return the state with the updates applied.
use intelli_study_planner_br.Base.{
  Bool, true, false, not, ◌&&◌, ◌||◌, Option, none, some, List, [], ◌∷◌, Text, codes, ℤ, pos,
  is_empty, elem, strip, lower, squeeze, contains, if◌then◌else◌, ◌==◌, text_eq, int_eq, map,
}
use intelli_study_planner_br.Json.{
  Value, Fields, null, str, arr, nil, truthy, is_null, get, list_of, items_of, str_of, int_of, same,
}
use intelli_study_planner_br.Advisor.State.{AdvisorState, Meta, meta_or_empty, has_text}
use intelli_study_planner_br.Advisor.Messages.{student_conversation_text}

-- The identity of a handbook: degree code, year, campus.
pub record HandbookKey : Type 0 where
  pub degree_code : Text
  pub year : ℤ
  pub campus : Text

abbrev pub key_beq : HandbookKey → HandbookKey → Bool
key_beq a b = a.degree_code == b.degree_code && a.year == b.year && a.campus == b.campus

abbrev key_of_year : Text → Text → Option ℤ → Option HandbookKey
key_of_year degree campus none = none
key_of_year degree campus (some year) =
    some (record { degree_code = degree; year = year; campus = campus })

-- metadata_handbook_key
unfoldable pub metadata_handbook_key : Option Meta → Option HandbookKey
unfolding str_of int_of
metadata_handbook_key none = none
metadata_handbook_key (some m) =
    if truthy m.degree_code && truthy m.year && truthy m.campus
    then key_of_year (str_of m.degree_code) (str_of m.campus) (int_of m.year)
    else none

abbrev stored_key : Option Text → Option ℤ → Option Text → Option HandbookKey
stored_key (some degree) (some year) (some campus) =
    if not (is_empty degree) && not (year == pos 0) && not (is_empty campus)
    then some (record { degree_code = degree; year = year; campus = campus })
    else none
stored_key _ _ _ = none

-- state_handbook_key
unfoldable pub state_handbook_key : AdvisorState → Option HandbookKey
state_handbook_key s =
    if s.handbook_valid
    then stored_key s.handbook_degree_code s.handbook_year s.handbook_campus
    else none

abbrev pub keys_match : Option HandbookKey → Option HandbookKey → Bool
keys_match (some a) (some b) = key_beq a b
keys_match _ _ = false

-- handbook_matches_current_meta
unfoldable pub handbook_matches_current_meta : AdvisorState → Bool
handbook_matches_current_meta s =
    keys_match (metadata_handbook_key s.meta) (state_handbook_key s) && has_text s.handbook

-- _value_explicitly_stated_by_student, at a candidate that is not None
unfoldable pub explicitly_stated : Text → Text → Bool
unfolding strip squeeze lower contains
explicitly_stated value text =
    let candidate : Text = strip value in
    if is_empty candidate
    then false
    else contains (squeeze (lower text)) (squeeze (lower candidate))

abbrev pub is_blank : Value → Bool
is_blank null = true
is_blank (str []) = true
is_blank _ = false

-- One field of `sanitize_confirmed_metadata`.
unfoldable pub accepted : (prior candidate : Value) → Text → Value
unfolding str_of
accepted prior candidate text =
    if is_blank candidate
    then prior
    else if not (is_null prior) && same candidate prior
    then prior
    else if explicitly_stated (str_of candidate) text
    then candidate
    else prior

-- A value given as a text or as a list.
abbrev pub as_list : Value → List Value
as_list (str s) = str s ∷ []
as_list (arr vs) = list_of vs
as_list _ = []

abbrev if_null : Value → Value → Value
if_null null w = w
if_null v w = v

-- The stripped texts of the values that are not None, without the blank ones.
unfoldable pub stripped_texts : List Value → List Text
unfolding strip str_of
stripped_texts [] = []
stripped_texts (v ∷ vs) =
    let rest = stripped_texts vs in
    let t : Text = strip (str_of v) in if is_null v || is_empty t then rest else t ∷ rest

unique_folded_from : List Text → List Text → List Text
unfolding lower
unique_folded_from seen [] = []
unique_folded_from seen (t ∷ ts) =
    let kept = unique_folded_from (lower t ∷ seen) ts in
    let skipped = unique_folded_from seen ts in if elem (lower t) seen then skipped else t ∷ kept

-- The first of the texts that differ in case only.
unfoldable pub unique_folded : List Text → List Text
unfolding unique_folded_from
unique_folded ts = unique_folded_from [] ts

abbrev is_empty_list : Value → Bool
is_empty_list (arr nil) = true
is_empty_list _ = false

abbrev pub texts_value : List Text → Value
texts_value ts = arr (items_of (map str ts))

-- The majors that confirmation stores, from the prior dictionary and the tool's arguments.
unfoldable pub sanitized_majors : Meta → Fields → Value
unfolding get stripped_texts unique_folded
sanitized_majors prior candidate =
    let majors : Value = get candidate (codes "majors") in
    let major : Value = get candidate (codes "major") in
    let chosen : List Text = unique_folded (stripped_texts (as_list (if_null majors major))) in
    let before : List Value = as_list (if_null prior.majors prior.major) in
    if is_empty_list majors || is_null majors && is_empty_list major
    then texts_value []
    else if not (is_empty chosen)
    then texts_value chosen
    else texts_value (stripped_texts before)

-- sanitize_confirmed_metadata
unfoldable pub sanitize_confirmed_metadata : Option Meta → Fields → AdvisorState → Meta
unfolding accepted get sanitized_majors student_conversation_text
sanitize_confirmed_metadata prior_meta candidate s =
    let prior : Meta = meta_or_empty prior_meta in
    let text : Text = student_conversation_text s in
    record {
      degree_code = accepted prior.degree_code (get candidate (codes "degree_code")) text;
      year = accepted prior.year (get candidate (codes "year")) text;
      campus = accepted prior.campus (get candidate (codes "campus")) text;
      session = accepted prior.session (get candidate (codes "session")) text;
      elective_limit = accepted prior.elective_limit (get candidate (codes "elective_limit")) text;
      interests = accepted prior.interests (get candidate (codes "interests")) text;
      majors = sanitized_majors prior candidate;
      major = null;
    }
