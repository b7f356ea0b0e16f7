-- ===== src/Advisor/Stage1.antt =====
-- app/agents/nodes/stage1.py: validation of the major, electives on request, and the core subjects.
-- The ranked electives (app/services/elective_ranking.py) are an argument here, `none` where the
-- service raises.
use intelli_study_planner_br.Base.{
  ◌+◌, Bool, true, false, not, Option, none, some, List, [], ◌∷◌, ◌++◌, Text, codes, map, is_empty,
  strip, if◌then◌else◌, text_eq, nat_eq,
}
use intelli_study_planner_br.Json.{
  Value, null, bool, str, arr, obj, truthy, get, list_of, str_of, dumps,
}
use intelli_study_planner_br.Advisor.State.{
  AdvisorState, meta_or_empty, ai, ElectiveMode, degree, interest, recommend, planning, has_text,
  message_text,
}
use intelli_study_planner_br.Advisor.Messages.{extract_and_parse_json}
use intelli_study_planner_br.Advisor.Metadata.{handbook_matches_current_meta}
use intelli_study_planner_br.Advisor.Updates.{reset_planning}
use intelli_study_planner_br.Advisor.Outcome.{Reply, Outcome, done, ◌>>=◌, answer}
use intelli_study_planner_br.Advisor.Conversation.{extract_request_elective_interests}

abbrev not_validated : Text
not_validated =
    codes "Major validation could not be completed. Please confirm your major before planning."

-- The `except` branch of `start_planning`.
abbrev validation_failed : AdvisorState → AdvisorState
validation_failed s = record s { planning_requested = false; plan_feedback = str not_validated }

abbrev validation_passed : AdvisorState → AdvisorState
validation_passed s = record (reset_planning s) {
  planning_requested = false;
  major_validation_passed = true;
  conversation_mode = planning;
}

-- The validator's verdict is explained by a second call, whose failure is caught too.
abbrev pub explain : Option Reply → AdvisorState → AdvisorState
explain none s = validation_failed s
explain (some r) s = record s {
  planning_requested = false;
  major_validation_passed = false;
  messages = s.messages ++ ai (str (strip (message_text r.content))) [] ∷ [];
}

-- `result.get("valid") is not True`
abbrev pub is_true : Value → Bool
is_true (bool b) = b
is_true _ = false

-- A result that is no object raises at `result.get("reason")`, once the explanation was asked for.
abbrev pub judge : Value → Option Reply → AdvisorState → AdvisorState
judge (obj fs) explanation s =
    if is_true (get fs (codes "valid")) then validation_passed s else explain explanation s
judge _ explanation s = validation_failed s

abbrev pub validate : Option Reply → Option Reply → AdvisorState → AdvisorState
validate none explanation s = validation_failed s
validate (some r) explanation s = judge (extract_and_parse_json r.content) explanation s

-- Stage1Nodes.start_planning
unfoldable pub start_planning : Option Reply → Option Reply → AdvisorState → AdvisorState
unfolding handbook_matches_current_meta extract_and_parse_json reset_planning get message_text strip
start_planning verdict explanation s =
    if handbook_matches_current_meta s
    then validate verdict explanation s
    else record s { planning_requested = false }

abbrev each_char : Text → List Text
each_char s = map (λ c. c ∷ []) s

abbrev texts_in : Value → List Text
texts_in (arr vs) = map str_of (list_of vs)
texts_in (str s) = each_char s
texts_in _ = []

abbrev is_degree : Option ElectiveMode → Bool
is_degree (some degree) = true
is_degree _ = false

-- The interests of the request, or else the majors, or else the saved interests.
unfoldable pub effective_interests : List Text → AdvisorState → List Text
unfolding str_of
effective_interests [] s =
    if is_degree s.elective_mode
    then texts_in (meta_or_empty s.meta).majors
    else s.elective_interests
effective_interests (t ∷ ts) s = t ∷ ts

abbrev stripped : List Text → List Text
stripped [] = []
stripped (s ∷ ss) = let t : Text = strip s in if is_empty t then stripped ss else t ∷ stripped ss

abbrev or_list : List Text → List Text → List Text
or_list [] ys = ys
or_list (x ∷ xs) ys = x ∷ xs

abbrev mode_for : List Text → Option ElectiveMode → Option ElectiveMode
mode_for (t ∷ ts) m = some interest
mode_for [] none = some degree
mode_for [] (some m) = some m

-- get_ranking_preferences: the state that the ranking service is given.
unfoldable pub get_ranking_preferences : AdvisorState → List Text → AdvisorState
unfolding strip
get_ranking_preferences s request_interests =
    let interests : List Text =
      or_list (stripped request_interests) (stripped s.elective_interests) in
    record s { elective_mode = mode_for interests s.elective_mode; elective_interests = interests }

-- Stage1Nodes.fetch_elective_list
unfoldable pub fetch_elective_list :
    (AdvisorState → Option Text) → Option Reply → Option Reply → AdvisorState → Outcome AdvisorState
unfolding handbook_matches_current_meta extract_request_elective_interests effective_interests
    get_ranking_preferences message_text strip
fetch_elective_list rank interests explanation s =
    if not (handbook_matches_current_meta s) then done s else (do
      asked ← extract_request_elective_interests interests s
      let wanted = effective_interests asked s
      electives ← answer (rank (get_ranking_preferences s wanted))
      r ← answer explanation
      done (record s {
        messages = s.messages ++ ai (str (strip (message_text r.content))) [] ∷ [];
        electives = some electives;
        request_elective_interests = wanted;
        pending_elective_action = none;
      }))

-- Stage1Nodes.populate_plan_electives. The branch on empty candidates is not reached: they are the
-- text of a JSON value.
unfoldable pub populate_plan_electives :
    (AdvisorState → Option Text) → Option Reply → Option Reply → AdvisorState → Outcome AdvisorState
unfolding handbook_matches_current_meta extract_request_elective_interests effective_interests
    get_ranking_preferences message_text strip
populate_plan_electives rank interests rewritten s =
    if not (handbook_matches_current_meta s)
    then done s
    else if not (has_text s.plan)
    then done (record s { pending_elective_action = some recommend })
    else (do
      asked ← extract_request_elective_interests interests s
      candidates ← answer (rank (get_ranking_preferences s (effective_interests asked s)))
      r ← answer rewritten
      let text = strip (message_text r.content)
      done (record s {
        plan = some text;
        messages = s.messages ++ ai (str text) [] ∷ [];
        pending_elective_action = none;
        elective_lookup_results = [];
        elective_lookup_codes = [];
      }))

abbrev text_or_dump : Value → Text
text_or_dump (str s) = s
text_or_dump v = dumps v

-- Stage1Nodes.generate_core_subjects
unfoldable pub generate_core_subjects : Option Reply → AdvisorState → Outcome AdvisorState
unfolding handbook_matches_current_meta extract_and_parse_json dumps
generate_core_subjects reply s = if not (handbook_matches_current_meta s) then done s else (do
  r ← answer reply
  done (record s {
    remaining_subjects = some (text_or_dump (extract_and_parse_json r.content));
    remaining_feedback = null;
  }))

abbrev or_default : Value → Text → Value
or_default v t = if truthy v then v else str t

abbrev core_feedback : Value → Value
core_feedback (obj fs) =
    if truthy (get fs (codes "remaining_valid"))
    then null
    else or_default (get fs (codes "remaining_feedback")) (codes "Invalid core subjects.")
core_feedback _ = str (codes "Failed to parse validation output.")

-- Stage1Nodes.evaluate
unfoldable pub evaluate_core : Option Reply → AdvisorState → Outcome AdvisorState
unfolding extract_and_parse_json get
evaluate_core reply s = do
  r ← answer reply
  done (record s {
    remaining_feedback = core_feedback (extract_and_parse_json r.content);
    stage1_retry_count = s.stage1_retry_count + 1;
  })
