-- ===== src/Advisor/Conversation.antt =====
-- app/agents/nodes/conversation.py: the agent, its tools, and the folding of their results.
use intelli_study_planner_br.Base.{
  ℕ, ◌+◌, Bool, true, false, not, ◌&&◌, ◌||◌, Option, none, some, List, [], ◌∷◌, ◌++◌, Text, codes,
  leb, length, is_empty, any, keep, unique, strip, lower, join, if◌then◌else◌, ◌==◌, text_eq,
}
use intelli_study_planner_br.Json.{Value, str, arr, obj, get, put, list_of}
use intelli_study_planner_br.Regex.{Regex, dot, lit, is_found, word_boundary, ◌>>◌, opt, upto}
use intelli_study_planner_br.Advisor.State.{
  AdvisorState, Meta, meta_or_empty, Message, ai, ToolCall, ElectiveMode, interest, ElectiveAction,
  recommend, populate_plan, ConversationMode, post_plan, Kind, confirm, full, qa, has_text,
  last_message, calls_of,
}
use intelli_study_planner_br.Advisor.Messages.{
  extract_and_parse_json, is_evaluation_reply, latest_user_request, latest_student_message,
  is_plan_explanation_question,
}
use intelli_study_planner_br.Advisor.Outcome.{Reply, Outcome, done, raised, ◌>>=◌, answer}

abbrev pub max_tool_calls_per_turn : ℕ
max_tool_calls_per_turn = 2

abbrev strings : List Value → List Text
strings [] = []
strings (str s ∷ vs) = let t : Text = strip s in if is_empty t then strings vs else t ∷ strings vs
strings (v ∷ vs) = strings vs

-- `clean_list`, and the clean-up of extracted interests: distinct stripped texts.
unfoldable pub clean_list : Value → List Text
unfolding strip
clean_list (str s) = unique (strings (str s ∷ []))
clean_list (arr vs) = unique (strings (list_of vs))
clean_list _ = []

abbrev interests_of : Value → List Text
interests_of (obj fs) = clean_list (get fs (codes "interests"))
interests_of _ = []

-- extract_request_elective_interests: the model is not asked about an empty message.
unfoldable pub extract_request_elective_interests :
    Option Reply → AdvisorState → Outcome (List Text)
unfolding clean_list extract_and_parse_json get latest_user_request strip
extract_request_elective_interests reply s =
    if is_empty (strip (latest_user_request s))
    then done []
    else (do r ← answer reply; done (interests_of (extract_and_parse_json r.content)))

abbrev is_interest : Option ElectiveMode → Bool
is_interest (some interest) = true
is_interest _ = false

abbrev or_list : List Text → List Text → List Text
or_list [] ys = ys
or_list (x ∷ xs) ys = x ∷ xs

abbrev stripped : List Text → List Text
stripped [] = []
stripped (s ∷ ss) = let t : Text = strip s in if is_empty t then stripped ss else t ∷ stripped ss

-- build_elective_lookup_query
unfoldable pub build_elective_lookup_query : AdvisorState → List Text → List Text
unfolding clean_list strip
build_elective_lookup_query s request_interests =
    let m : Meta = meta_or_empty s.meta in
    if not (is_empty request_interests)
    then unique (stripped request_interests)
    else if is_interest s.elective_mode
    then unique (stripped s.elective_interests)
    else or_list (clean_list m.majors) (clean_list m.major)

elective_patterns : List Regex
elective_patterns =
    word_boundary >> lit (codes "elective") >> opt (lit (codes "s")) >> word_boundary
    ∷ word_boundary >> lit (codes "elective subject") >> opt (lit (codes "s")) >> word_boundary
    ∷ word_boundary
      >> lit (codes "recommend ")
      >> upto 40 dot
      >> lit (codes "subject")
      >> opt (lit (codes "s"))
      >> word_boundary
    ∷ word_boundary
      >> lit (codes "suggest ")
      >> upto 40 dot
      >> lit (codes "subject")
      >> opt (lit (codes "s"))
      >> word_boundary
    ∷ []

-- user_requested_electives
unfoldable pub user_requested_electives : AdvisorState → Bool
unfolding elective_patterns is_found lower strip latest_student_message
user_requested_electives s =
    let message : Text = lower (strip (latest_student_message s)) in
    any (λ p. is_found p message) elective_patterns

-- requested_elective_action
unfoldable pub requested_elective_action : AdvisorState → Option ElectiveAction
unfolding user_requested_electives
requested_elective_action s =
    if user_requested_electives s
    then some (if has_text s.plan then populate_plan else recommend)
    else none

abbrev or_requested : AdvisorState → Option ElectiveAction → Option ElectiveAction
or_requested s none = requested_elective_action s
or_requested s (some a) = some a

abbrev asks_about_plan : ConversationMode → Text → Bool
asks_about_plan post_plan text = is_plan_explanation_question text
asks_about_plan _ text = false

unfoldable pub kind_of : AdvisorState → Kind
unfolding is_plan_explanation_question latest_student_message
kind_of s =
    if not s.meta_confirmed
    then confirm
    else if asks_about_plan s.conversation_mode (latest_student_message s)
    then qa
    else full

abbrev is_lookup : ToolCall → Bool
is_lookup call = call.name == codes "lookup_electives_tool"

abbrev is_stray_verdict : Reply → Bool
is_stray_verdict r = is_empty r.tool_calls && is_evaluation_reply r.content

abbrev apology : Text
apology = codes "I couldn't produce a chat reply. Please try your message again."

abbrev no_verdict : Reply → Reply
no_verdict r = if is_stray_verdict r then record r { content = str apology } else r

-- The reply, asked for a second time where it is an evaluator's verdict.
unfoldable pub chat_reply : Option Reply → Option Reply → Outcome Reply
unfolding is_evaluation_reply
chat_reply first second = do
  r ← answer first
  if is_stray_verdict r then (do again ← answer second; done (no_verdict again)) else done r

abbrev with_query : Text → List ToolCall → List ToolCall
with_query query [] = []
with_query query (call ∷ calls) =
    (if is_lookup call
      then record call { args = put call.args (codes "query") (str query) }
      else call)
    ∷ with_query query calls

abbrev ask_for_area : Text
ask_for_area =
    codes
      "I don't have a confirmed major or saved elective interests to use for this lookup. Which area would you like your electives to focus on?"

-- What becomes of a lookup that may go ahead: its query is set, or it is taken out; and whether the
-- pending elective action is over.
unfoldable pub aim_lookup : Text → Reply → Reply × Bool
unfolding put
aim_lookup query r =
    let others : List ToolCall = keep (λ call. not (is_lookup call)) r.tool_calls in
    if not (is_empty query)
    then (record r { tool_calls = with_query query r.tool_calls }, true)
    else if is_empty others
    then (record r { tool_calls = []; content = str ask_for_area }, true)
    else (record r { tool_calls = others }, false)

abbrev is_pending : Option ElectiveAction → Bool
is_pending none = false
is_pending (some a) = true

-- The part of `agent` behind the reply: lookups are taken out unless the metadata is confirmed and no
-- elective action is pending.
unfoldable pub settle_lookups : Option Reply → AdvisorState → Reply → Outcome (Reply × Bool)
unfolding aim_lookup extract_request_elective_interests build_elective_lookup_query join
settle_lookups interests s r =
    if not (any is_lookup r.tool_calls)
    then done (r, false)
    else if not s.meta_confirmed || is_pending s.pending_elective_action
    then done (record r { tool_calls = keep (λ call. not (is_lookup call)) r.tool_calls }, false)
    else (do
      asked ← extract_request_elective_interests interests s
      done (aim_lookup (join (codes ", ") (build_elective_lookup_query s asked)) r))

abbrev budget_message : Text
budget_message =
    codes
      "I've reached the tool-call limit for this request. I couldn't complete the lookup within that limit. Please try a more specific request."

-- The three answers that the node may ask for: the reply, its retry, and the interests.
pub record AgentReplies : Type 0 where
  pub first : Option Reply
  pub second : Option Reply
  pub interests : Option Reply

abbrev pending_after : Bool → Option ElectiveAction → Option ElectiveAction
pending_after true p = none
pending_after false p = p

-- ConversationNodes.agent
unfoldable pub agent : AgentReplies → AdvisorState → Outcome AdvisorState
unfolding chat_reply settle_lookups kind_of requested_elective_action
agent replies s =
    if leb max_tool_calls_per_turn s.tool_calls_this_turn
    then done (record s { messages = s.messages ++ ai (str budget_message) [] ∷ [] })
    else (do
      r ← chat_reply replies.first replies.second
      (settled, clear) ← settle_lookups replies.interests s r
      done (record s {
        messages = s.messages ++ ai settled.content settled.tool_calls ∷ [];
        active_tool_kind = some (kind_of s);
        pending_elective_action = pending_after clear (or_requested s s.pending_elective_action);
      }))

abbrev pub add_tools : Option (List Message) → ℕ → AdvisorState → Outcome AdvisorState
add_tools none attempted s = raised
add_tools (some results) attempted s = done (record s {
  messages = s.messages ++ results;
  tool_calls_this_turn = s.tool_calls_this_turn + attempted;
})

-- ConversationNodes.run_tools; the tools' messages are an argument.
unfoldable pub run_tools : Option (List Message) → AdvisorState → Outcome AdvisorState
run_tools results s =
    let calls : List ToolCall = calls_of (last_message s.messages) in
    if is_empty calls then done s else add_tools results (length calls) s
