-- ===== src/Advisor/Messages.antt =====
-- The helpers of app/agents/state.py and app/llm/text.py that read messages.
use intelli_study_planner_br.Base.{
  Bool, true, false, ◌&&◌, Option, none, some, List, [], ◌∷◌, Text, codes, is_empty, any, strip,
  join, replace_char, if◌then◌else◌, text_eq,
}
use mathlib.Core.List.{reverse, filter_map, flatten}
use intelli_study_planner_br.Json.{
  Value, Fields, end, field, bool, str, arr, obj, get, has, list_of,
}
use intelli_study_planner_br.Json.Loads.{loads}
use intelli_study_planner_br.Regex.{
  Regex, star, lazy, group, dot, space, ilit, lit, char_where, fullmatch, is_found, word_boundary,
  group_of, ◌>>◌, opt, Scan,
}
use intelli_study_planner_br.Advisor.State.{
  AdvisorState, Message, human, tool, text_block, message_text,
}

abbrev any_char : Regex
any_char = char_where (λ c. true)

abbrev captured : Option Scan → Option Text
captured none = none
captured (some t) = group_of 1 t.groups

-- The body of a fenced block that is the whole text, or the text.
unfenced : Regex → Text → Text
unfolding fullmatch group_of
unfenced pattern s = elim (captured (fullmatch pattern s)) [ none ↦ s | some body ↦ body ]

abbrev json_fence : Regex
json_fence =
    lit (codes "```")
    >> opt (ilit (codes "json"))
    >> star space
    >> group 1 (lazy any_char)
    >> star space
    >> lit (codes "```")

parse_text : Text → Value
unfolding unfenced strip loads
parse_text raw =
    let cleaned : Text = strip (replace_char 160 32 (strip (unfenced json_fence (strip raw)))) in
    elim (loads cleaned) [ some v ↦ v | none ↦ str cleaned ]

abbrev parse_blocks : List Text → Value → Value
parse_blocks [] raw = raw
parse_blocks (t ∷ ts) raw = parse_text (join (10 ∷ []) (t ∷ ts))

-- extract_and_parse_json
unfoldable pub extract_and_parse_json : Value → Value
unfolding parse_text join get filter_map
extract_and_parse_json (arr vs) = parse_blocks (filter_map text_block (list_of vs)) (arr vs)
extract_and_parse_json (str s) = parse_text s
extract_and_parse_json v = v

-- as_text of app/llm/text.py: the blocks of a list end to end.
abbrev block_text : Value → Text
block_text (str s) = s
block_text (obj fs) = elim (get fs (codes "text")) [ str s ↦ s | _ ↦ [] ]
block_text _ = []

abbrev texts : List Value → List Text
texts [] = []
texts (v ∷ vs) = block_text v ∷ texts vs

abbrev as_text : Value → Text
as_text (str s) = s
as_text (arr vs) = flatten (texts (list_of vs))
as_text _ = []

-- The whole of it is an object with a Boolean `valid` and a text `feedback`, and nothing else.
abbrev is_verdict : Option Value → Bool
is_verdict (some (obj (field a v (field b w end)))) =
    let fs : Fields = field a v (field b w end) in
    has fs (codes "valid")
    && has fs (codes "feedback")
    && (elim (get fs (codes "valid")) [ bool x ↦ true | _ ↦ false ])
    && (elim (get fs (codes "feedback")) [ str x ↦ true | _ ↦ false ])
is_verdict _ = false

abbrev verdict_fence : Regex
verdict_fence =
    lit (codes "```")
    >> opt (ilit (codes "json"))
    >> star space
    >> group 1 (lazy any_char)
    >> lit (codes "```")

-- is_evaluation_reply
unfoldable pub is_evaluation_reply : Value → Bool
unfolding unfenced loads get has strip flatten
is_evaluation_reply content = is_verdict (loads (unfenced verdict_fence (strip (as_text content))))

abbrev user_text : List Message → Text
user_text [] = []
user_text (human (str s) ∷ ms) = s
user_text (human v ∷ ms) = []
user_text (m ∷ ms) = user_text ms

-- latest_user_request: the latest message of the student, if its content is a text.
unfoldable pub latest_user_request : AdvisorState → Text
latest_user_request s = user_text (reverse s.messages)

abbrev student_text : List Message → Text
student_text [] = []
student_text (human v ∷ ms) = message_text v
student_text (m ∷ ms) = student_text ms

-- latest_student_message
unfoldable pub latest_student_message : AdvisorState → Text
unfolding message_text
latest_student_message s = student_text (reverse s.messages)

abbrev student_parts : List Message → List Text
student_parts [] = []
student_parts (human v ∷ ms) =
    let t : Text = strip (message_text v) in
    if is_empty t then student_parts ms else t ∷ student_parts ms
student_parts (m ∷ ms) = student_parts ms

-- _student_conversation_text
unfoldable pub student_conversation_text : AdvisorState → Text
unfolding message_text strip join
student_conversation_text s = join (10 ∷ []) (student_parts s.messages)

abbrev tool_prefix : List Message → List Message
tool_prefix (tool n v ∷ ms) = tool n v ∷ tool_prefix ms
tool_prefix _ = []

-- latest_tool_batch: the tool messages at the end, oldest first.
unfoldable pub latest_tool_batch : AdvisorState → List Message
latest_tool_batch s = reverse (tool_prefix (reverse s.messages))

abbrev words : Text → Regex
words s = word_boundary >> ilit s >> word_boundary

explanation_patterns : List Regex
explanation_patterns =
    words (codes "why is") >> star dot >> words (codes "listed")
    ∷ words (codes "why is") >> star dot >> words (codes "duplicated")
    ∷ words (codes "why does") >> star dot >> words (codes "appear")
    ∷ words (codes "why are") >> star dot >> words (codes "twice")
    ∷ words (codes "explain") >> star dot >> words (codes "plan")
    ∷ words (codes "what is") >> star dot >> words (codes "subject")
    ∷ words (codes "is this") >> star dot >> words (codes "mistake")
    ∷ []

-- is_plan_explanation_question
unfoldable pub is_plan_explanation_question : Text → Bool
unfolding explanation_patterns is_found
is_plan_explanation_question text = any (λ p. is_found p text) explanation_patterns
