-- ===== src/Advisor/Stage2.antt =====
-- app/agents/nodes/stage2.py: the plan, its evaluation, and the final message.
use intelli_study_planner_br.Base.{
  ℕ, suc, ◌+◌, true, false, not, Option, none, some, List, [], ◌∷◌, ◌++◌, Text, codes, is_empty,
  take, drop, strip, starts_with, if◌then◌else◌, to_lower, ◌==◌, nat_eq,
}
use intelli_study_planner_br.Json.{Value, Fields, null, str, obj, truthy, get, has}
use intelli_study_planner_br.Advisor.State.{
  AdvisorState, Message, ai, post_plan, has_text, message_text,
}
use intelli_study_planner_br.Advisor.Messages.{extract_and_parse_json}
use intelli_study_planner_br.Advisor.Metadata.{handbook_matches_current_meta}
use intelli_study_planner_br.Advisor.Outcome.{Reply, Outcome, done, raised, ◌>>=◌, answer}

abbrev text_or : Text → Option Text → Option Text
text_or [] before = before
text_or (c ∷ s) before = some (c ∷ s)

-- A reply without tool calls ends the tool loop, and its text, if it has any, is the plan.
unfoldable pub take_plan : Reply → AdvisorState → AdvisorState
unfolding message_text strip
take_plan r s =
    let asked : AdvisorState = record s {
      messages = s.messages ++ ai r.content r.tool_calls ∷ [];
    } in
    if is_empty r.tool_calls
    then record asked {
      stage2_tool_loop_count = 0;
      plan = text_or (strip (message_text r.content)) s.plan;
    }
    else asked

-- Stage2Nodes.make_plan
unfoldable pub make_plan : Option Reply → AdvisorState → Outcome AdvisorState
unfolding take_plan
make_plan reply s =
    if not (handbook_matches_current_meta s)
    then done (record s { planning_requested = false; plan = none })
    else (do r ← answer reply; done (take_plan r s))

abbrev add_messages : Option (List Message) → AdvisorState → Outcome AdvisorState
add_messages none s = raised
add_messages (some results) s = done (record s { messages = s.messages ++ results })

-- Stage2Nodes.run_tools; the tools' messages are an argument.
unfoldable pub run_planning_tools : Option (List Message) → AdvisorState → Outcome AdvisorState
run_planning_tools results s = add_messages results s

-- Stage2Nodes.capture_tool_results
unfoldable pub count_tool_loop : AdvisorState → AdvisorState
count_tool_loop s = record s { stage2_tool_loop_count = s.stage2_tool_loop_count + 1 }

-- `data.get("feedback", "Invalid plan.")`
abbrev feedback_of : Fields → Value
feedback_of fs =
    if has fs (codes "feedback") then get fs (codes "feedback") else str (codes "Invalid plan.")

abbrev pub rejected_plan : Value → AdvisorState → AdvisorState
rejected_plan feedback s = record s {
  plan_feedback = feedback;
  stage2_retry_count = s.stage2_retry_count + 1;
}

abbrev pub judge_plan : Value → AdvisorState → AdvisorState
judge_plan (obj fs) s =
    if truthy (get fs (codes "valid"))
    then record s { plan_feedback = null; stage2_retry_count = 0 }
    else rejected_plan (feedback_of fs) s
judge_plan _ s = rejected_plan (str (codes "Failed to parse evaluation output.")) s

-- `str.replace` raises where the handbook or the record is None.
abbrev pub prompt_inputs : Option Text → Option Text → Outcome (Unit {0})
prompt_inputs (some handbook) (some raw_sols) = done tt
prompt_inputs _ _ = raised

-- Stage2Nodes.evaluate
unfoldable pub evaluate_plan : Option Reply → AdvisorState → Outcome AdvisorState
unfolding extract_and_parse_json get has
evaluate_plan reply s =
    if not (has_text s.plan)
    then done (rejected_plan (str (codes "No plan was generated.")) s)
    else (do
      _ ← prompt_inputs s.handbook s.raw_sols
      r ← answer reply
      done (judge_plan (extract_and_parse_json r.content) s))

-- str.find: the position of the first occurrence.
unfoldable pub find_text : Text → Text → Option ℕ
unfolding starts_with
find_text [] p = if starts_with [] p then some 0 else none
find_text (c ∷ s) p = elim (starts_with (c ∷ s) p) [
  | true ↦ some 0
  | false ↦ elim (find_text s p) [ none ↦ none | some n ↦ some (suc n) ]
]

abbrev pub passed_section : Text
passed_section =
    codes
      "**Plan feedback:**\nNone! Your generated plan has passed the evaluation checks and is considered valid. However, the LLM and validator can still make mistakes, so please check your plan against the official UOW handbook. Best of luck with your studies!\n\n"

abbrev pub issues_heading : Text
issues_heading =
    codes
      "**Plan feedback:**\n*Your generated plan **currently contains issues**. To ensure Courseo's compatability with free LLM key limits, the plan evaluation loop has been limited. Please ask for your plan to be fixed with the following feedback:*\n"

-- The section put into the message; `feedback.strip()` raises on a value that is no text.
unfoldable pub feedback_section : Value → Outcome Text
unfolding strip
feedback_section v = if truthy v then on v else done passed_section
  where
    on : Value → Outcome Text
    on (str s) = done (issues_heading ++ strip s ++ 10 ∷ 10 ∷ [])
    on _ = raised

abbrev pub insert_at : Option ℕ → Text → Text → Text
insert_at none section plan = section ++ plan
insert_at (some n) section plan = take n plan ++ section ++ drop n plan

-- str.lower() of a character, as far as the fence tells: 'İ' (304) becomes two characters, and any other
-- character outside of ASCII becomes one, which is none of the fence's.
abbrev pub lower_char : ℕ → Text
lower_char c = if c == 304 then 105 ∷ 775 ∷ [] else to_lower c ∷ []

unfoldable pub lowered : Text → Text
lowered [] = []
lowered (c ∷ s) = lower_char c ++ lowered s

-- The section at the index of the JSON fence in the lower-case plan, or at the start.
unfoldable pub insert_feedback : Text → Text → Text
unfolding find_text lowered to_lower
insert_feedback section plan = insert_at (find_text (lowered plan) (codes "```json")) section plan

abbrev pub plan_or_apology : Option Text → Text
plan_or_apology (some (c ∷ s)) = c ∷ s
plan_or_apology _ =
    codes
      "Unable to complete plan generation. Please provide or confirm the required degree information."

-- Stage2Nodes.format_output
unfoldable pub format_output : AdvisorState → Outcome AdvisorState
unfolding feedback_section insert_feedback
format_output s = do
  section ← feedback_section s.plan_feedback
  done (record s {
    messages = s.messages ++ ai (str (insert_feedback section (plan_or_apology s.plan))) [] ∷ [];
    planning_requested = false;
    conversation_mode = post_plan;
  })
