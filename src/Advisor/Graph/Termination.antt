-- ===== src/Advisor/Graph/Termination.antt =====
-- The loops of the graph of app/agents/graphAPI.py: a rank of nodes and states, and what each node
-- does to it.
use intelli_study_planner_br.Base.{
  ℕ, zero, codes, suc, ◌+◌, ◌-◌, ◌*◌, ◌≤◌, ◌<◌, ◌≡◌, ◌≢◌, ◌∙◌, refl, subst, false, Option, none,
  some, List, arith, is_empty, if◌then◌else◌, Bool-cases, inl, inr, ◌⊎◌,
}
use intelli_study_planner_br.Json.{Value, truthy, null, bool, int, float, str, arr, obj, get}
use intelli_study_planner_br.Advisor.State.{
  AdvisorState, has_text, Message, ElectiveAction, recommend, populate_plan, last_message, calls_of,
}
use intelli_study_planner_br.Advisor.Metadata.{handbook_matches_current_meta}
use intelli_study_planner_br.Advisor.Messages.{extract_and_parse_json}
use intelli_study_planner_br.Advisor.Outcome.{
  Reply, Outcome, done, raised, OnDone, OnDone-bind, OnDone-map, answer,
}
use intelli_study_planner_br.Advisor.Conversation.{AgentReplies, agent, run_tools}
use intelli_study_planner_br.Advisor.Capture.{capture_tool_results}
use intelli_study_planner_br.Advisor.Capture.Induction.{capture_tool_results-kept}
use intelli_study_planner_br.Advisor.Stage1.{generate_core_subjects, evaluate_core}
use intelli_study_planner_br.Advisor.Stage2.{
  run_planning_tools, prompt_inputs, judge_plan, make_plan, take_plan, count_tool_loop,
  evaluate_plan,
}
use intelli_study_planner_br.Advisor.Graph.{
  after_fetch, Node, agent_node, tools_node, capture_node, ensure_node, missing_node, start_node,
  fetch_node, populate_node, review_node, eval_node, plan_node, plan_tools_node, plan_capture_node,
  plan_eval_node, format_node, Next, next, World, perform, run_from, run_graph, End, out_of_steps,
  resume, continue,
}
use intelli_study_planner_br.Advisor.Graph.Budget.{
  last_message-snoc, agent_budget, run_tools_budget, run_tools_idle, tool_calls_this_turn-confirm,
  tool_calls_this_turn-request,
}

-- What is left of the three budgets.
abbrev turns_left : AdvisorState → ℕ
turns_left s = 2 - s.tool_calls_this_turn

abbrev reviews_left : AdvisorState → ℕ
reviews_left s = 1 - s.stage1_retry_count

abbrev attempts_left : AdvisorState → ℕ
attempts_left s = 1 - s.stage2_retry_count

abbrev loops_left : AdvisorState → ℕ
loops_left s = 4 - s.stage2_tool_loop_count

-- At most how many nodes a run from a node still visits, that node included.
abbrev pub rank : Node → AdvisorState → ℕ
rank agent_node s = 36 + 3 * turns_left s
rank tools_node s =
    if is_empty (calls_of (last_message s.messages))
    then 38 + 3 * turns_left s
    else 38 + 3 * (turns_left s - 1)
rank capture_node s = 37 + 3 * turns_left s
rank ensure_node s = 35
rank start_node s = 34
rank review_node s = 31 + 2 * reviews_left s
rank eval_node s = 30 + 2 * reviews_left s
rank plan_node s = 3 + 3 * loops_left s + 14 * attempts_left s
rank plan_tools_node s = 5 + 3 * (loops_left s - 1) + 14 * attempts_left s
rank plan_capture_node s = 4 + 3 * (loops_left s - 1) + 14 * attempts_left s
rank plan_eval_node s = 2 + 14 * attempts_left s
rank _ s = 1

-- The rank of what comes next, and 0 at END.
abbrev next_rank : Next → AdvisorState → ℕ
next_rank none t = 0
next_rank (some node) t = rank node t

abbrev Descends : Node → AdvisorState → AdvisorState → Type 0
Descends node s t = next_rank (next node t) t < rank node s

agent-Descends : (r : AgentReplies) (s : AdvisorState) → OnDone (Descends agent_node s) (agent r s)
unfolding next
agent-Descends r s = OnDone-map (agent r s) (λ t b. ground (arith, b)) (agent_budget r s)

tools-Descends :
    (ms : Option (List Message)) (s : AdvisorState)
    → OnDone (Descends tools_node s) (run_tools ms s)
unfolding next
tools-Descends ms s = elim (Bool-cases (is_empty (calls_of (last_message s.messages)))) [
  | inl idle ↦ rw (run_tools_idle ms s idle) (ground arith)
  | inr asked ↦ OnDone-map (run_tools ms s) (λ t b. ground (arith, b)) (run_tools_budget ms s asked)
]

-- Folding the tools' results leaves the count of the turn.
tool_calls_this_turn-capture :
    (s : AdvisorState) → (capture_tool_results s).tool_calls_this_turn ≡ s.tool_calls_this_turn
tool_calls_this_turn-capture s =
    capture_tool_results-kept {P = λ t. t.tool_calls_this_turn ≡ s.tool_calls_this_turn}
      (record {
        confirm = λ m t h. tool_calls_this_turn-confirm t.meta t m ∙ h;
        change = λ fs t h. tool_calls_this_turn-request t.meta t fs ∙ h;
        lookups = λ ls cs t h. h;
      })
      s refl

capture-Descends : (s : AdvisorState) → Descends capture_node s (capture_tool_results s)
unfolding next
capture-Descends s = ground (arith, tool_calls_this_turn-capture s)

-- What follows an evaluation of the core subjects that counts itself.
after_review :
    (t : AdvisorState) (tried : ℕ)
    → t.stage1_retry_count ≡ tried + 1
    → next_rank (next eval_node t) t < 30 + 2 * (1 - tried)
unfolding next
after_review t tried counted = elim (Bool-cases (truthy t.remaining_feedback)) [
  | inl wrong ↦ rw wrong (ground (arith, counted))
  | inr right ↦ rw right (ground arith)
]

eval-Descends :
    (r : Option Reply) (s : AdvisorState) → OnDone (Descends eval_node s) (evaluate_core r s)
unfolding evaluate_core
eval-Descends none s = tt
eval-Descends (some r) s = after_review _ s.stage1_retry_count refl

-- A reply that asks for tools goes to the tools, and any other to the evaluation.
after_plan : (r : Reply) (s : AdvisorState) → Descends plan_node s (take_plan r s)
unfolding next take_plan
after_plan r s = elim (Bool-cases (is_empty r.tool_calls)) [
  | inl text ↦ rw text (rw last_message-snoc (rw text (ground arith)))
  | inr asked ↦ rw asked (rw last_message-snoc (rw asked (ground arith)))
]

-- Without a handbook the messages stay, and so may an older request for tools.
plan_refused :
    (s : AdvisorState) → Descends plan_node s (record s { planning_requested = false; plan = none })
unfolding next
plan_refused s = elim (Bool-cases (is_empty (calls_of (last_message s.messages)))) [
  | inl idle ↦ rw idle (ground arith)
  | inr asked ↦ rw asked (ground arith)
]

plan-Descends :
    (r : Option Reply) (s : AdvisorState) → OnDone (Descends plan_node s) (make_plan r s)
unfolding make_plan
plan-Descends r s = elim (Bool-cases (handbook_matches_current_meta s)) [
  | inl held ↦ rw held (OnDone-bind (Descends plan_node s) (answer r) _ (λ a. after_plan a s))
  | inr lost ↦ rw lost (plan_refused s)
]

-- What follows an evaluation of the plan that passed, or counts itself.
after_verdict :
    (t : AdvisorState) (tried : ℕ)
    → (truthy t.plan_feedback ≡ false) ⊎ (t.stage2_retry_count ≡ tried + 1)
    → next_rank (next plan_eval_node t) t < 2 + 14 * (1 - tried)
unfolding next
after_verdict t tried h = elim (Bool-cases (truthy t.plan_feedback)) [
  | inl wrong ↦ rw wrong (ground (arith, h, wrong))
  | inr right ↦ rw right (ground arith)
]

judged : (v : Value) (s : AdvisorState) → Descends plan_eval_node s (judge_plan v s)
judged (obj fs) s = elim (Bool-cases (truthy (get fs (codes "valid")))) [
  | inl valid ↦ rw valid (after_verdict _ s.stage2_retry_count (inl refl))
  | inr faulty ↦ rw faulty (after_verdict _ s.stage2_retry_count (inr refl))
]
judged null s = after_verdict _ s.stage2_retry_count (inr refl)
judged (bool b) s = after_verdict _ s.stage2_retry_count (inr refl)
judged (int i) s = after_verdict _ s.stage2_retry_count (inr refl)
judged (float x y z) s = after_verdict _ s.stage2_retry_count (inr refl)
judged (str x) s = after_verdict _ s.stage2_retry_count (inr refl)
judged (arr vs) s = after_verdict _ s.stage2_retry_count (inr refl)

plan_eval-Descends :
    (r : Option Reply) (s : AdvisorState) → OnDone (Descends plan_eval_node s) (evaluate_plan r s)
unfolding evaluate_plan
plan_eval-Descends r s = elim (Bool-cases (has_text s.plan)) [
  | inl some_plan ↦ rw some_plan (
      OnDone-bind (Descends plan_eval_node s) (prompt_inputs s.handbook s.raw_sols) _ λ _.
        OnDone-bind (Descends plan_eval_node s) (answer r) _
          λ a. judged (extract_and_parse_json a.content) s)
  | inr no_plan ↦ rw no_plan (after_verdict _ s.stage2_retry_count (inr refl))
]

add-Descends :
    (ms : Option (List Message)) (s : AdvisorState)
    → OnDone (Descends plan_tools_node s) (run_planning_tools ms s)
unfolding next run_planning_tools
add-Descends none s = tt
add-Descends (some ms) s = ground arith

-- A node that leads to END alone has the least rank.
at_end : (m : Outcome AdvisorState) → OnDone (λ t. 0 < 1) m
at_end (done t) = omega arith
at_end raised = tt

rank-after_fetch : (a : Option ElectiveAction) (t : AdvisorState) → rank (after_fetch a) t < 35
rank-after_fetch none t = omega arith
rank-after_fetch (some recommend) t = omega arith
rank-after_fetch (some populate_plan) t = omega arith

-- After the handbook gate and after the validation, only lower parts of the graph are left.
after_handbook : (s t : AdvisorState) → Descends ensure_node s t
unfolding next
after_handbook s t = elim (Bool-cases (handbook_matches_current_meta t)) [
  | inl held ↦ rw held (rank-after_fetch t.pending_elective_action t)
  | inr lost ↦ rw lost (omega arith)
]

after_start : (s t : AdvisorState) → Descends start_node s t
unfolding next
after_start s t = elim (Bool-cases t.major_validation_passed) [
  | inl passed ↦ rw passed (ground arith)
  | inr stale ↦ rw stale (omega arith)
]

review-Descends :
    (r : Option Reply) (s : AdvisorState)
    → OnDone (Descends review_node s) (generate_core_subjects r s)
unfolding next generate_core_subjects
review-Descends r s = elim (Bool-cases (handbook_matches_current_meta s)) [
  | inl held ↦ rw held (OnDone-bind (Descends review_node s) (answer r) _ (λ a. ground arith))
  | inr lost ↦ rw lost (ground arith)
]

module _ (w : World) (n : ℕ) where
  descends : (node : Node) (s : AdvisorState) → OnDone (Descends node s) (perform w n node s)
  unfolding perform next count_tool_loop
  descends agent_node s = agent-Descends (w.agent_replies n) s
  descends tools_node s = tools-Descends (w.tools n) s
  descends capture_node s = capture-Descends s
  descends ensure_node s = after_handbook s _
  descends missing_node s = omega arith
  descends start_node s = after_start s _
  descends fetch_node s = at_end _
  descends populate_node s = at_end _
  descends review_node s = review-Descends (w.reply n 0) s
  descends eval_node s = eval-Descends (w.reply n 0) s
  descends plan_node s = plan-Descends (w.reply n 0) s
  descends plan_tools_node s = add-Descends (w.tools n) s
  descends plan_capture_node s = ground arith
  descends plan_eval_node s = plan_eval-Descends (w.reply n 0) s
  descends format_node s = at_end _

rank_pos : (node : Node) (s : AdvisorState) → 0 < rank node s
rank_pos node s = ground arith

-- No exception and no END runs out of steps.
resume_ends :
    (m : Outcome AdvisorState) (go : AdvisorState → End)
    → OnDone (λ t. go t ≢ out_of_steps) m
    → resume m go ≢ out_of_steps
resume_ends (done t) go h = h
resume_ends raised go h = cc

continue_ends :
    (x : Next) (t : AdvisorState) (go : Node → End)
    → ((node : Node) → x ≡ some node → go node ≢ out_of_steps)
    → continue x t go ≢ out_of_steps
continue_ends none t go h = cc
continue_ends (some node) t go h = h node refl

run_from_ends :
    (w : World) (fuel n : ℕ) (node : Node) (s : AdvisorState)
    → rank node s ≤ fuel
    → run_from w fuel n node s ≢ out_of_steps
unfolding run_from
run_from_ends w zero n node s h = ground (arith, rank_pos node s)
run_from_ends w (suc fuel) n node s h = resume_ends (perform w n node s) _ (
    OnDone-map (perform w n node s)
      (λ t falls.
        continue_ends (next node t) t _
          λ node' is. run_from_ends w fuel (suc n) node' t (falls_to t is falls h))
      (descends w n node s))
  where
    falls_to :
        {x : Next} {node' : Node} (t : AdvisorState)
        → x ≡ some node'
        → next_rank x t < rank node s
        → rank node s ≤ suc fuel
        → rank node' t ≤ fuel
    falls_to t is falls h = omega (arith, subst (λ x. next_rank x t < rank node s) is falls, h)

-- Whatever the language models, the tools, the handbook service and the ranking service answer at each
-- step, exceptions included, and in whatever state a request starts, a run of the graph reaches END or
-- an exception within 42 nodes: no cycle of the graph goes on for ever.
pub run_graph_ends : (w : World) (s : AdvisorState) → run_graph w 42 s ≢ out_of_steps
unfolding run_graph
run_graph_ends w s = run_from_ends w 42 0 agent_node s (ground arith)
