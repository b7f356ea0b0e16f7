-- ===== src/Advisor/State.antt =====
-- AdvisorState and the message helpers of app/agents/state.py. A key that the state's type does not
-- declare (`profile`, `electives_feedback`, `planning_block_reason`) is not stored by the graph, so it
-- always reads as None. `raw_sols` is kept for the checks that read it; prompts are not modelled.
use intelli_study_planner_br.Base.{
  ℕ, Bool, false, not, Option, none, some, List, [], ◌∷◌, Text, codes, ℤ, is_empty, join, text_eq,
  int_eq,
}
use mathlib.Core.List.{filter_map}
use intelli_study_planner_br.Json.{Value, Fields, null, str, arr, obj, get, list_of, str_of}

pub record ToolCall : Type 0 where
  pub name : Text
  pub args : Fields

-- HumanMessage, AIMessage, ToolMessage; the content is a text or a list of blocks.
pub data Message : Type 0 where
  human : (content : Value) → Message
  ai : (content : Value) (tool_calls : List ToolCall) → Message
  tool : (name : Text) (content : Value) → Message

pub data ElectiveMode : Type 0 where
  degree interest : ElectiveMode

pub data ElectiveAction : Type 0 where
  recommend populate_plan : ElectiveAction

pub data ConversationMode : Type 0 where
  collecting planning post_plan : ConversationMode

pub data Kind : Type 0 where
  confirm full qa : Kind

-- The dictionary of metadata: `null` stands for a missing key.
pub record Meta : Type 0 where
  pub degree_code : Value
  pub year : Value
  pub campus : Value
  pub session : Value
  pub elective_limit : Value
  pub interests : Value
  pub majors : Value
  pub major : Value

abbrev pub no_meta : Meta
no_meta = record {
  degree_code = null;
  year = null;
  campus = null;
  session = null;
  elective_limit = null;
  interests = null;
  majors = null;
  major = null;
}

abbrev pub meta_or_empty : Option Meta → Meta
meta_or_empty none = no_meta
meta_or_empty (some m) = m

pub record AdvisorState : Type 0 where
  pub messages : List Message
  pub raw_sols : Option Text
  pub meta : Option Meta
  pub meta_confirmed : Bool
  pub planning_requested : Bool
  pub elective_mode : Option ElectiveMode
  pub elective_interests : List Text
  pub request_elective_interests : List Text
  pub elective_lookup_results : List Fields
  pub elective_lookup_codes : List Text
  pub pending_elective_action : Option ElectiveAction
  pub conversation_mode : ConversationMode
  pub handbook : Option Text
  pub handbook_degree_code : Option Text
  pub handbook_year : Option ℤ
  pub handbook_campus : Option Text
  pub handbook_valid : Bool
  pub major_validation_passed : Bool
  pub electives : Option Text
  pub remaining_subjects : Option Text
  pub remaining_feedback : Value
  pub stage1_retry_count : ℕ
  pub plan : Option Text
  pub plan_feedback : Value
  pub stage2_retry_count : ℕ
  pub stage2_tool_loop_count : ℕ
  pub tool_calls_this_turn : ℕ
  pub active_tool_kind : Option Kind

abbrev pub max_stage1_retries : ℕ
max_stage1_retries = 2

abbrev pub max_stage2_retries : ℕ
max_stage2_retries = 2

abbrev pub max_stage2_tool_loops : ℕ
max_stage2_tool_loops = 4

-- bool(text), and the text or "".
abbrev pub has_text : Option Text → Bool
has_text none = false
has_text (some s) = not (is_empty s)

abbrev pub last_message : List Message → Option Message
last_message [] = none
last_message (m ∷ []) = some m
last_message (m ∷ n ∷ rest) = last_message (n ∷ rest)

-- isinstance(last, AIMessage) and last.tool_calls
abbrev pub calls_of : Option Message → List ToolCall
calls_of (some (ai content calls)) = calls
calls_of _ = []

abbrev pub text_block : Value → Option Text
text_block (obj fs) = elim (get fs (codes "text")) [ str s ↦ some s | _ ↦ none ]
text_block _ = none

-- _message_text
unfoldable pub message_text : Value → Text
unfolding get join
message_text (str s) = s
message_text (arr vs) = join (10 ∷ []) (filter_map text_block (list_of vs))
message_text v = str_of v
