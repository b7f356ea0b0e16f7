-- ===== src/Advisor/Graph.antt =====
-- app/agents/graphAPI.py: the nodes, the edges, and a run of the graph. A world gives, at each step of
-- the run, whatever the language models, the tools, the handbook service and the ranking service
-- answer there.
pub mod Budget
pub mod Termination
pub mod Backing
pub mod Backed
use intelli_study_planner_br.Base.{
  ℕ, zero, suc, Bool, true, false, not, ◌&&◌, ◌||◌, Option, none, some, List, Text, codes, is_empty,
  any, leb, if◌then◌else◌, ◌==◌, text_eq,
}
use intelli_study_planner_br.Json.{truthy}
use intelli_study_planner_br.Advisor.State.{
  AdvisorState, Message, tool, ElectiveAction, recommend, populate_plan, last_message, calls_of,
  max_stage1_retries, max_stage2_retries, max_stage2_tool_loops,
}
use intelli_study_planner_br.Advisor.Messages.{latest_tool_batch}
use intelli_study_planner_br.Advisor.Metadata.{HandbookKey, handbook_matches_current_meta}
use intelli_study_planner_br.Advisor.Outcome.{Reply, Outcome, done, raised}
use intelli_study_planner_br.Advisor.Conversation.{AgentReplies, agent, run_tools}
use intelli_study_planner_br.Advisor.Capture.{capture_tool_results}
use intelli_study_planner_br.Advisor.Handbook.{ensure_handbook, handbook_missing}
use intelli_study_planner_br.Advisor.Stage1.{
  start_planning, fetch_elective_list, populate_plan_electives, generate_core_subjects,
  evaluate_core,
}
use intelli_study_planner_br.Advisor.Stage2.{
  make_plan, run_planning_tools, count_tool_loop, evaluate_plan, format_output,
}

pub data Node : Type 0 where
  agent_node tools_node capture_node ensure_node missing_node start_node fetch_node populate_node
        review_node eval_node plan_node plan_tools_node plan_capture_node plan_eval_node
        format_node :
      Node

-- The node that comes next; `none` is END.
abbrev pub Next : Type 0
Next = Option Node

abbrev route_pending : Bool → Option ElectiveAction → Next → Next
route_pending matches none otherwise = otherwise
route_pending matches (some populate_plan) otherwise =
    if matches then some populate_node else some ensure_node
route_pending matches (some recommend) otherwise =
    if matches then some fetch_node else some ensure_node

-- ConversationNodes.route_after_agent
unfoldable pub route_after_agent : AdvisorState → Next
route_after_agent s =
    let matches : Bool = handbook_matches_current_meta s in
    if not (is_empty (calls_of (last_message s.messages)))
    then some tools_node
    else if not s.meta_confirmed
    then none
    else route_pending matches s.pending_elective_action (
        if not s.planning_requested
        then none
        else if matches
        then some start_node
        else some ensure_node)

abbrev is_confirmation : Message → Bool
is_confirmation (tool name content) = name == codes "confirm_metadata_tool"
is_confirmation _ = false

abbrev is_pending : Option ElectiveAction → Bool
is_pending none = false
is_pending (some a) = true

-- ConversationNodes.route_after_tool_results
unfoldable pub route_after_tool_results : AdvisorState → Next
unfolding latest_tool_batch
route_after_tool_results s =
    if any is_confirmation (latest_tool_batch s)
      && s.meta_confirmed
      && (s.planning_requested || is_pending s.pending_elective_action)
      && not (handbook_matches_current_meta s)
    then some ensure_node
    else some agent_node

abbrev after_fetch : Option ElectiveAction → Node
after_fetch none = start_node
after_fetch (some populate_plan) = populate_node
after_fetch (some recommend) = fetch_node

-- HandbookNodes.route_after_fetch
unfoldable pub route_after_fetch : AdvisorState → Next
route_after_fetch s =
    if not (handbook_matches_current_meta s)
    then some missing_node
    else some (after_fetch s.pending_elective_action)

-- Stage1Nodes.route_after_start_planning
unfoldable pub route_after_start_planning : AdvisorState → Next
route_after_start_planning s = if s.major_validation_passed then some review_node else none

-- Stage1Nodes.route_stage1_eval
unfoldable pub route_stage1_eval : AdvisorState → Next
route_stage1_eval s =
    if not (truthy s.remaining_feedback)
    then some plan_node
    else if leb max_stage1_retries s.stage1_retry_count
    then some plan_node
    else some review_node

-- Stage2Nodes.route_after_make_plan
unfoldable pub route_after_make_plan : AdvisorState → Next
route_after_make_plan s =
    if not (is_empty (calls_of (last_message s.messages)))
    then (if leb max_stage2_tool_loops s.stage2_tool_loop_count
        then some format_node
        else some plan_tools_node)
    else some plan_eval_node

-- Stage2Nodes.route_evaluation
unfoldable pub route_evaluation : AdvisorState → Next
route_evaluation s =
    if not (truthy s.plan_feedback)
    then some format_node
    else if leb max_stage2_retries s.stage2_retry_count
    then some format_node
    else some plan_node

-- AdvisorGraph.build: the edges.
unfoldable pub next : Node → AdvisorState → Next
unfolding route_after_agent route_after_tool_results route_after_fetch route_after_start_planning
    route_stage1_eval route_after_make_plan route_evaluation
next agent_node s = route_after_agent s
next tools_node s = some capture_node
next capture_node s = route_after_tool_results s
next ensure_node s = route_after_fetch s
next missing_node s = none
next start_node s = route_after_start_planning s
next fetch_node s = none
next populate_node s = none
next review_node s = some eval_node
next eval_node s = route_stage1_eval s
next plan_node s = route_after_make_plan s
next plan_tools_node s = some plan_capture_node
next plan_capture_node s = some plan_node
next plan_eval_node s = route_evaluation s
next format_node s = none

pub record World : Type 0 where
  pub agent_replies : ℕ → AgentReplies
  -- A call of a model that is not the conversational one, numbered within its step.
  pub reply : ℕ → ℕ → Option Reply
  pub tools : ℕ → Option (List Message)
  pub fetch : ℕ → HandbookKey → Option (Option Text)
  pub rank : ℕ → AdvisorState → Option Text

-- AdvisorGraph.build: the nodes.
unfoldable pub perform : World → ℕ → Node → AdvisorState → Outcome AdvisorState
unfolding agent run_tools capture_tool_results ensure_handbook handbook_missing start_planning
    fetch_elective_list populate_plan_electives generate_core_subjects evaluate_core make_plan
    run_planning_tools count_tool_loop evaluate_plan format_output
perform w n agent_node s = agent (w.agent_replies n) s
perform w n tools_node s = run_tools (w.tools n) s
perform w n capture_node s = done (capture_tool_results s)
perform w n ensure_node s = done (ensure_handbook (w.fetch n) s)
perform w n missing_node s = done (handbook_missing s)
perform w n start_node s = done (start_planning (w.reply n 0) (w.reply n 1) s)
perform w n fetch_node s = fetch_elective_list (w.rank n) (w.reply n 0) (w.reply n 1) s
perform w n populate_node s = populate_plan_electives (w.rank n) (w.reply n 0) (w.reply n 1) s
perform w n review_node s = generate_core_subjects (w.reply n 0) s
perform w n eval_node s = evaluate_core (w.reply n 0) s
perform w n plan_node s = make_plan (w.reply n 0) s
perform w n plan_tools_node s = run_planning_tools (w.tools n) s
perform w n plan_capture_node s = done (count_tool_loop s)
perform w n plan_eval_node s = evaluate_plan (w.reply n 0) s
perform w n format_node s = format_output s

-- How a run ends: at END with a state, by an exception, or because the steps allowed are used up.
pub data End : Type 0 where
  finished : AdvisorState → End
  failed : End
  out_of_steps : End

abbrev pub continue : Next → AdvisorState → (Node → End) → End
continue none s go = finished s
continue (some node) s go = go node

abbrev pub resume : Outcome AdvisorState → (AdvisorState → End) → End
resume raised go = failed
resume (done s) go = go s

-- A run from a node, at most `fuel` nodes long; `n` numbers the steps.
unfoldable pub run_from : World → ℕ → ℕ → Node → AdvisorState → End
unfolding perform next
run_from w zero n node s = out_of_steps
run_from w (suc fuel) n node s =
    resume (perform w n node s)
      (λ t. continue (next node t) t (λ node'. run_from w fuel (suc n) node' t))

-- graph.ainvoke: START leads to the agent.
unfoldable pub run_graph : World → ℕ → AdvisorState → End
unfolding run_from
run_graph w fuel s = run_from w fuel 0 agent_node s
