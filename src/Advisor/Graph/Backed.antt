-- ===== src/Advisor/Graph/Backed.antt =====
-- Stored plans and the handbook of the metadata along runs of the graph of app/agents/graphAPI.py.
use intelli_study_planner_br.Base.{ℕ, zero, suc, refl, Option, none, some, inl, inr}
use intelli_study_planner_br.Advisor.State.{AdvisorState}
use intelli_study_planner_br.Advisor.Metadata.{handbook_matches_current_meta, state_handbook_key}
use intelli_study_planner_br.Advisor.Outcome.{
  Reply, Outcome, done, raised, OnDone, OnDone-bind, OnDone-map, answer,
}
use intelli_study_planner_br.Advisor.Stage1.{evaluate_core}
use intelli_study_planner_br.Advisor.Stage2.{
  run_planning_tools, format_output, count_tool_loop, feedback_section,
}
use intelli_study_planner_br.Advisor.Graph.{
  Node, agent_node, tools_node, capture_node, ensure_node, missing_node, start_node, fetch_node,
  populate_node, review_node, eval_node, plan_node, plan_tools_node, plan_capture_node,
  plan_eval_node, format_node, Next, next, World, perform, run_from, run_graph, End, finished,
  resume, continue,
}
use intelli_study_planner_br.Advisor.Graph.Backing.{
  IsBacked, IsBackedAt, IsBacked-agent, IsBacked-run_tools, IsBacked-capture, IsBackedAt-ensure,
  IsBacked-start_planning, IsBacked-fetch_elective_list, IsBacked-populate, IsBacked-review,
  IsBacked-make_plan, IsBacked-evaluate_plan,
}

-- A node's state is fit for whatever comes next.
abbrev IsFitAfter : Node → AdvisorState → Type 0
IsFitAfter node t = IsBackedAt (next node t) t

fit : (m : Outcome AdvisorState) (node : Node) → OnDone IsBacked m → OnDone (IsFitAfter node) m
fit m node h = OnDone-map m (λ t b. inr b) h

IsBacked-evaluate_core :
    (r : Option Reply) (s : AdvisorState) → IsBacked s → OnDone IsBacked (evaluate_core r s)
unfolding evaluate_core handbook_matches_current_meta state_handbook_key
IsBacked-evaluate_core r s h = OnDone-bind IsBacked (answer r) _ λ a. h

IsBacked-run_planning_tools :
    (ms : Option _) (s : AdvisorState) → IsBacked s → OnDone IsBacked (run_planning_tools ms s)
unfolding run_planning_tools handbook_matches_current_meta state_handbook_key
IsBacked-run_planning_tools none s h = tt
IsBacked-run_planning_tools (some ms) s h = h

IsBacked-count_tool_loop : (s : AdvisorState) → IsBacked s → IsBacked (count_tool_loop s)
unfolding count_tool_loop handbook_matches_current_meta state_handbook_key
IsBacked-count_tool_loop s h = h

IsBacked-format_output : (s : AdvisorState) → IsBacked s → OnDone IsBacked (format_output s)
unfolding format_output handbook_matches_current_meta state_handbook_key
IsBacked-format_output s h = OnDone-bind IsBacked (feedback_section s.plan_feedback) _ λ section. h

module _ (w : World) (n : ℕ) where
  IsBacked-perform :
      (node : Node) (s : AdvisorState) → IsBacked s → OnDone (IsFitAfter node) (perform w n node s)
  unfolding perform
  IsBacked-perform agent_node s h = fit _ agent_node (IsBacked-agent (w.agent_replies n) s h)
  IsBacked-perform tools_node s h = fit _ tools_node (IsBacked-run_tools (w.tools n) s h)
  IsBacked-perform capture_node s h = inr (IsBacked-capture s h)
  IsBacked-perform ensure_node s h = IsBackedAt-ensure _
  IsBacked-perform missing_node s h = inr (inl refl)
  IsBacked-perform start_node s h = inr (IsBacked-start_planning (w.reply n 0) (w.reply n 1) s h)
  IsBacked-perform fetch_node s h =
      fit _ fetch_node (IsBacked-fetch_elective_list (w.rank n) (w.reply n 0) (w.reply n 1) s h)
  IsBacked-perform populate_node s h =
      fit _ populate_node (IsBacked-populate (w.rank n) (w.reply n 0) (w.reply n 1) s h)
  IsBacked-perform review_node s h = fit _ review_node (IsBacked-review (w.reply n 0) s h)
  IsBacked-perform eval_node s h = fit _ eval_node (IsBacked-evaluate_core (w.reply n 0) s h)
  IsBacked-perform plan_node s h = fit _ plan_node (IsBacked-make_plan (w.reply n 0) s)
  IsBacked-perform plan_tools_node s h =
      fit _ plan_tools_node (IsBacked-run_planning_tools (w.tools n) s h)
  IsBacked-perform plan_capture_node s h = inr (IsBacked-count_tool_loop s h)
  IsBacked-perform plan_eval_node s h =
      fit _ plan_eval_node (IsBacked-evaluate_plan (w.reply n 0) s h)
  IsBacked-perform format_node s h = fit _ format_node (IsBacked-format_output s h)

  -- The node that clears the plan needs nothing.
  IsFitAfter-perform :
      (node : Node) (s : AdvisorState)
      → IsBackedAt (some node) s
      → OnDone (IsFitAfter node) (perform w n node s)
  unfolding perform
  IsFitAfter-perform missing_node s h = inr (inl refl)
  IsFitAfter-perform node s (inr h) = IsBacked-perform node s h
  IsFitAfter-perform node s (inl h) = cc

-- What holds of the state in which a run ends, if it reaches END.
abbrev pub OnFinish : (AdvisorState → Type 0) → End → Type 0
OnFinish P (finished s) = P s
OnFinish P _ = Unit

resume_finish :
    (P : AdvisorState → Type 0) (m : Outcome AdvisorState) (go : AdvisorState → End)
    → OnDone (λ t. OnFinish P (go t)) m
    → OnFinish P (resume m go)
resume_finish P (done t) go h = h
resume_finish P raised go h = tt

continue_finish :
    (x : Next) (t : AdvisorState) (go : Node → End)
    → ((node : Node) → IsBackedAt (some node) t → OnFinish IsBacked (go node))
    → IsBackedAt x t
    → OnFinish IsBacked (continue x t go)
continue_finish none t go h (inl e) = cc
continue_finish none t go h (inr b) = b
continue_finish (some node) t go h b = h node b

run_from-IsBacked :
    (w : World) (fuel n : ℕ) (node : Node) (s : AdvisorState)
    → IsBackedAt (some node) s
    → OnFinish IsBacked (run_from w fuel n node s)
unfolding run_from
run_from-IsBacked w zero n node s h = tt
run_from-IsBacked w (suc fuel) n node s h = resume_finish IsBacked (perform w n node s) _ (
    OnDone-map (perform w n node s)
      (λ t b.
        continue_finish (next node t) t _ (λ node' c. run_from-IsBacked w fuel (suc n) node' t c) b)
      (IsFitAfter-perform w n node s h))

-- If a request starts without a plan, or with a handbook that matches the metadata, then the same holds
-- of the state in which its run of the graph ends, however many steps it takes and whatever the
-- models, the tools, the handbook service and the ranking service answer: no plan outlives the handbook
-- it was made for.
pub run_graph-IsBacked :
    (w : World) (fuel : ℕ) (s : AdvisorState) → IsBacked s → OnFinish IsBacked (run_graph w fuel s)
unfolding run_graph
run_graph-IsBacked w fuel s h = run_from-IsBacked w fuel 0 agent_node s (inr h)
