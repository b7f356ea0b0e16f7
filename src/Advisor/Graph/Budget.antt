-- ===== src/Advisor/Graph/Budget.antt =====
-- What the nodes do to the counters that bound the loops of the graph.
use intelli_study_planner_br.Base.{
  ◌<◌, ◌≡◌, refl, true, false, Option, none, some, List, [], ◌∷◌, ◌++◌, arith, leb, is_empty,
  length, Bool-cases, inl, inr, text_eq,
}
use intelli_study_planner_br.Json.{Fields}
use intelli_study_planner_br.Advisor.State.{
  AdvisorState, Meta, Message, ToolCall, last_message, calls_of,
}
use intelli_study_planner_br.Advisor.Updates.{
  Change, rejected, new_interests, new_meta, apply_confirm_metadata, apply_plan_change_request,
  apply_change, requested_change,
}
use intelli_study_planner_br.Advisor.Outcome.{done, OnDone, OnDone-bind}
use intelli_study_planner_br.Advisor.Conversation.{
  AgentReplies, agent, run_tools, chat_reply, settle_lookups, max_tool_calls_per_turn,
}

pub last_message-snoc : (ms : List Message) (m : Message) → last_message (ms ++ m ∷ []) ≡ some m
last_message-snoc [] m = refl
last_message-snoc (a ∷ []) m = refl
last_message-snoc (a ∷ b ∷ ms) m = last_message-snoc (b ∷ ms) m

length_pos : (calls : List ToolCall) → is_empty calls ≡ false → 0 < length calls
length_pos [] h = cc
length_pos (c ∷ cs) h = omega arith

-- The agent keeps the count, and asks for tools only below the limit.
abbrev AgentBudget : AdvisorState → AdvisorState → Type 0
AgentBudget s t =
    (t.tool_calls_this_turn ≡ s.tool_calls_this_turn)
    × (is_empty (calls_of (last_message t.messages)) ≡ false
        → s.tool_calls_this_turn < max_tool_calls_per_turn)

pub agent_budget : (r : AgentReplies) (s : AdvisorState) → OnDone (AgentBudget s) (agent r s)
unfolding agent
agent_budget r s = elim (Bool-cases (leb max_tool_calls_per_turn s.tool_calls_this_turn)) [
  | inl spent ↦ rw spent (refl, rw last_message-snoc (λ asked. cc))
  | inr room ↦ rw room (
      OnDone-bind (AgentBudget s) (chat_reply r.first r.second) _ λ reply.
        OnDone-bind (AgentBudget s) (settle_lookups r.interests s reply) _
          λ settled. (refl, λ asked. ground arith))
]

-- A batch of tool calls counts at least one.
pub run_tools_budget :
    (results : Option (List Message)) (s : AdvisorState)
    → is_empty (calls_of (last_message s.messages)) ≡ false
    → OnDone (λ t. s.tool_calls_this_turn < t.tool_calls_this_turn) (run_tools results s)
unfolding run_tools
run_tools_budget none s asked = rw asked tt
run_tools_budget (some ms) s asked =
    rw asked (ground (arith, length_pos (calls_of (last_message s.messages))))

pub run_tools_idle :
    (results : Option (List Message)) (s : AdvisorState)
    → is_empty (calls_of (last_message s.messages)) ≡ true
    → run_tools results s ≡ done s
unfolding run_tools
run_tools_idle results s idle = rw idle

module _ (p : Option Meta) (s : AdvisorState) where
  pub tool_calls_this_turn-confirm :
      (m : Meta) → (apply_confirm_metadata p m s).tool_calls_this_turn ≡ s.tool_calls_this_turn
  unfolding apply_confirm_metadata
  tool_calls_this_turn-confirm m = ground arith

  tool_calls_this_turn-change :
      (c : Change) → (apply_change p c s).tool_calls_this_turn ≡ s.tool_calls_this_turn
  unfolding apply_change
  tool_calls_this_turn-change rejected = refl
  tool_calls_this_turn-change (new_interests is) = refl
  tool_calls_this_turn-change (new_meta m) = tool_calls_this_turn-confirm m

  pub tool_calls_this_turn-request :
      (fs : Fields)
      → (apply_plan_change_request p fs s).tool_calls_this_turn ≡ s.tool_calls_this_turn
  unfolding apply_plan_change_request
  tool_calls_this_turn-request fs = tool_calls_this_turn-change (requested_change p fs)
