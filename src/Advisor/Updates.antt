-- ===== src/Advisor/Updates.antt =====
-- The deterministic updates of app/agents/state.py: confirmation of metadata, plan-change requests, and
-- the two constant updates. Each returns the state with its dictionary of updates applied.
use intelli_study_planner_br.Base.{
  Bool, true, false, not, ◌&&◌, Option, none, some, List, [], ◌∷◌, Text, codes, is_empty, unique,
  strip, if◌then◌else◌, ◌==◌, text_eq,
}
use intelli_study_planner_br.Json.{
  Value, Fields, null, int, str, arr, truthy, get, list_of, str_of, int_of,
}
use intelli_study_planner_br.Advisor.State.{AdvisorState, Meta, meta_or_empty, planning}
use intelli_study_planner_br.Advisor.Metadata.{
  HandbookKey, key_beq, metadata_handbook_key, texts_value,
}

pub data Required : Type 0 where
  degree_code year campus : Required

abbrev pub missing_if : Bool → Required → List Required → List Required
missing_if true r rest = rest
missing_if false r rest = r ∷ rest

-- validate_metadata
unfoldable pub validate_metadata : Option Meta → List Required
validate_metadata none = degree_code ∷ year ∷ campus ∷ []
validate_metadata (some m) =
    missing_if (truthy m.degree_code) degree_code
      (missing_if (truthy m.year) year (missing_if (truthy m.campus) campus []))

-- HANDBOOK_CLEARED
unfoldable pub clear_handbook : AdvisorState → AdvisorState
clear_handbook s = record s {
  handbook = none;
  handbook_degree_code = none;
  handbook_year = none;
  handbook_campus = none;
  handbook_valid = false;
}

-- PLANNING_RESET
unfoldable pub reset_planning : AdvisorState → AdvisorState
reset_planning s = record s {
  electives = none;
  remaining_subjects = none;
  remaining_feedback = null;
  stage1_retry_count = 0;
  plan = none;
  plan_feedback = null;
  stage2_retry_count = 0;
  stage2_tool_loop_count = 0;
}

-- old_key == new_key
abbrev pub same_key : Option HandbookKey → Option HandbookKey → Bool
same_key none none = true
same_key (some a) (some b) = key_beq a b
same_key _ _ = false

-- The updates of a confirmed change: new metadata, no generated data, and no handbook of another
-- identity.
unfoldable pub confirm_meta : Option Meta → Meta → AdvisorState → AdvisorState
unfolding clear_handbook reset_planning
confirm_meta prior_meta new_meta s =
    let confirmed : AdvisorState = record (reset_planning s) {
      meta = some new_meta;
      meta_confirmed = true;
      planning_requested = true;
      conversation_mode = planning;
    } in
    if same_key (metadata_handbook_key prior_meta) (metadata_handbook_key (some new_meta))
    then confirmed
    else clear_handbook confirmed

abbrev unconfirmed : AdvisorState → AdvisorState
unconfirmed s = record s { meta_confirmed = false; planning_requested = false }

-- apply_confirm_metadata
unfoldable pub apply_confirm_metadata : Option Meta → Meta → AdvisorState → AdvisorState
unfolding validate_metadata confirm_meta
apply_confirm_metadata prior_meta new_meta s =
    if is_empty (validate_metadata (some new_meta))
    then confirm_meta prior_meta new_meta s
    else unconfirmed s

-- The stripped texts of the truthy values, without the blank ones.
unfoldable pub truthy_texts : List Value → List Text
unfolding strip str_of
truthy_texts [] = []
truthy_texts (v ∷ vs) =
    let rest = truthy_texts vs in
    let t : Text = strip (str_of v) in if truthy v && not (is_empty t) then t ∷ rest else rest

-- A value given as a list, or as one text.
abbrev listed : Value → Option (List Value)
listed (str s) = some (str s ∷ [])
listed (arr vs) = some (list_of vs)
listed _ = none

abbrev if_null : Value → Value → Value
if_null null w = w
if_null v w = v

-- What a request asks for: nothing (it is rejected), interests, or a changed dictionary of metadata.
pub data Change : Type 0 where
  rejected : Change
  new_interests : List Text → Change
  new_meta : Meta → Change

abbrev change_majors : Meta → Option (List Value) → Change
change_majors m none = rejected
change_majors m (some vs) =
    let majors : List Text = unique (truthy_texts vs) in
    if is_empty majors
    then rejected
    else new_meta (record m { majors = texts_value majors; major = null })

abbrev change_interests : Option (List Value) → Change
change_interests none = rejected
change_interests (some vs) =
    let interests : List Text = unique (truthy_texts vs) in
    if is_empty interests then rejected else new_interests interests

-- The stripped text of a value that is neither falsy nor blank.
abbrev change_text : Value → (Value → Meta) → Change
change_text v set =
    let t : Text = strip (str_of v) in
    if truthy v && not (is_empty t) then new_meta (set (str t)) else rejected

abbrev change_year : Value → Meta → Change
change_year null m = rejected
change_year v m = elim (int_of v) [
  | none ↦ rejected
  | some n ↦ new_meta (record m { year = int n })
]

-- The ladder on `change_type`.
unfoldable pub requested_change : Option Meta → Fields → Change
unfolding get truthy_texts strip str_of int_of
requested_change prior_meta request = on (get request (codes "change_type"))
  where
    m : Meta
    m = meta_or_empty prior_meta

    named : Text → Change
    named t =
        if t == codes "major"
        then change_majors m
            (listed (if_null (get request (codes "majors")) (get request (codes "major"))))
        else if t == codes "elective_interests"
        then change_interests (listed (get request (codes "elective_interests")))
        else if t == codes "course"
        then change_text (get request (codes "course")) (λ v. record m { degree_code = v })
        else if t == codes "campus"
        then change_text (get request (codes "campus")) (λ v. record m { campus = v })
        else if t == codes "commencement_year"
        then change_year (get request (codes "commencement_year")) m
        else if t == codes "session"
        then change_text (get request (codes "session")) (λ v. record m { session = v })
        else if t == codes "general_revision"
        then new_meta m
        else rejected

    on : Value → Change
    on (str t) = named t
    on _ = rejected

abbrev apply_interests : List Text → AdvisorState → AdvisorState
apply_interests interests s = record s {
  planning_requested = true;
  conversation_mode = planning;
  elective_interests = interests;
  electives = none;
  remaining_feedback = null;
  plan_feedback = null;
  stage1_retry_count = 0;
  stage2_retry_count = 0;
  stage2_tool_loop_count = 0;
}

unfoldable pub apply_change : Option Meta → Change → AdvisorState → AdvisorState
unfolding apply_confirm_metadata
apply_change prior_meta rejected s = s
apply_change prior_meta (new_interests interests) s = apply_interests interests s
apply_change prior_meta (new_meta m) s = apply_confirm_metadata prior_meta m s

-- apply_plan_change_request: a change of metadata ends as a confirmation does.
unfoldable pub apply_plan_change_request : Option Meta → Fields → AdvisorState → AdvisorState
unfolding requested_change apply_change
apply_plan_change_request prior_meta request s =
    apply_change prior_meta (requested_change prior_meta request) s
