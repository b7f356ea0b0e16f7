-- ===== src/Advisor/Capture.antt =====
-- capture_tool_results of app/agents/nodes/conversation.py.
pub mod Induction
use intelli_study_planner_br.Base.{
  Bool, true, false, not, ◌&&◌, ◌||◌, List, [], ◌∷◌, ◌++◌, Text, codes, map, any, is_empty, elem,
  unique, ltb, strip, upper, if◌then◌else◌, ◌==◌, text_eq, nat_eq,
}
use intelli_study_planner_br.Json.{
  Value, Fields, str, arr, obj, truthy, get, has, put, list_of, str_of,
}
use intelli_study_planner_br.Advisor.State.{AdvisorState, Message, tool}
use intelli_study_planner_br.Advisor.Messages.{extract_and_parse_json, latest_tool_batch}
use intelli_study_planner_br.Advisor.Metadata.{sanitize_confirmed_metadata}
use intelli_study_planner_br.Advisor.Updates.{apply_confirm_metadata, apply_plan_change_request}

-- The lookups captured so far, and their codes.
pub record Lookups : Type 0 where
  pub results : List Fields
  pub found : List Text

-- `a or b` of two values
abbrev or_value : Value → Value → Value
or_value v w = if truthy v then v else w

abbrev subject_of : Fields → Fields
subject_of item = elim (get item (codes "subject")) [ obj fs ↦ fs | _ ↦ item ]

unfoldable pub code_of : Fields → Text
unfolding get str_of strip upper
code_of item =
    let code : Value =
      or_value (get (subject_of item) (codes "code"))
        (or_value (get item (codes "code")) (str [])) in
    upper (strip (str_of code))

-- The subject under its code, with the item's score if it has none of its own.
abbrev normalized : Fields → Text → Fields
normalized item code =
    let subject : Fields = put (subject_of item) (codes "code") (str code) in
    if has item (codes "score") && not (has subject (codes "score"))
    then put subject (codes "score") (get item (codes "score"))
    else subject

unfoldable pub capture_item : Value → Lookups → Lookups
unfolding code_of put has get
capture_item (obj item) l =
    let code : Text = code_of item in
    if is_empty code || elem code l.found
    then l
    else record { results = l.results ++ normalized item code ∷ []; found = l.found ++ code ∷ [] }
capture_item _ l = l

unfoldable pub capture_items : List Value → Lookups → Lookups
unfolding capture_item
capture_items [] l = l
capture_items (v ∷ vs) l = capture_items vs (capture_item v l)

abbrev subjects_of : Value → List Value
subjects_of (obj fs) = elim (get fs (codes "subjects")) [ arr vs ↦ list_of vs | _ ↦ [] ]
subjects_of (arr vs) = list_of vs
subjects_of _ = []

-- The metadata tools: a result that is no object is an exception, which is caught.
abbrev pub confirm_result : AdvisorState → Value → AdvisorState → AdvisorState
confirm_result s (obj fs) t =
    apply_confirm_metadata t.meta (sanitize_confirmed_metadata t.meta fs s) t
confirm_result s _ t = t

abbrev pub change_result : Value → AdvisorState → AdvisorState
change_result (obj fs) t = apply_plan_change_request t.meta fs t
change_result _ t = t

-- One message of the batch, by the tool that it comes from. The state is read as it was for what the
-- student said.
unfoldable pub capture_named :
    AdvisorState → Text → Value → AdvisorState × Lookups → AdvisorState × Lookups
unfolding capture_items sanitize_confirmed_metadata apply_confirm_metadata apply_plan_change_request
    get
capture_named s name v (t, l) =
    if name == codes "lookup_electives_tool"
    then (t, capture_items (subjects_of v) l)
    else if name == codes "confirm_metadata_tool"
    then (confirm_result s v t, l)
    else if name == codes "request_plan_change_tool"
    then (change_result v t, l)
    else (t, l)

unfoldable pub capture_message :
    AdvisorState → Message → AdvisorState × Lookups → AdvisorState × Lookups
unfolding capture_named extract_and_parse_json
capture_message s (tool name content) r = capture_named s name (extract_and_parse_json content) r
capture_message s m r = r

unfoldable pub capture_batch :
    AdvisorState → List Message → AdvisorState × Lookups → AdvisorState × Lookups
unfolding capture_message
capture_batch s [] r = r
capture_batch s (m ∷ ms) r = capture_batch s ms (capture_message s m r)

abbrev text_less : Text → Text → Bool
text_less [] [] = false
text_less [] (d ∷ t) = true
text_less (c ∷ s) [] = false
text_less (c ∷ s) (d ∷ t) = ltb c d || c == d && text_less s t

abbrev insert_text : Text → List Text → List Text
insert_text t [] = t ∷ []
insert_text t (u ∷ us) = if text_less u t then u ∷ insert_text t us else t ∷ u ∷ us

abbrev sort_texts : List Text → List Text
sort_texts [] = []
sort_texts (t ∷ ts) = insert_text t (sort_texts ts)

abbrev pub is_lookup_result : Message → Bool
is_lookup_result (tool name content) = name == codes "lookup_electives_tool"
is_lookup_result _ = false

abbrev folded_codes : List Text → List Text
folded_codes codes_ = map (λ c. upper (strip c)) codes_

abbrev pub store_lookups : Bool → AdvisorState × Lookups → AdvisorState
store_lookups false (t, l) = t
store_lookups true (t, l) = record t {
  elective_lookup_results = l.results;
  elective_lookup_codes = sort_texts l.found;
}

abbrev pub initial_lookups : AdvisorState → Lookups
initial_lookups s = record {
  results = s.elective_lookup_results;
  found = unique (folded_codes s.elective_lookup_codes);
}

-- ConversationNodes.capture_tool_results
unfoldable pub capture_tool_results : AdvisorState → AdvisorState
unfolding capture_batch latest_tool_batch upper strip
capture_tool_results s =
    let batch : List Message = latest_tool_batch s in
    store_lookups (any is_lookup_result batch) (capture_batch s batch (s, initial_lookups s))
