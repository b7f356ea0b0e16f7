-- ===== src/Advisor/Graph/Backing.antt =====
-- Whether a stored plan stands beside the handbook of the confirmed metadata, node by node
-- (handbook_matches_current_meta of app/agents/state.py).
use intelli_study_planner_br.Base.{
  leb, length, codes, ◌≡◌, refl, true, Option, none, some, List, is_empty, Bool-cases, inl, inr,
  ◌⊎◌, Text,
}
use intelli_study_planner_br.Json.{Value, null, bool, int, float, str, arr, obj, get, truthy}
use intelli_study_planner_br.Advisor.State.{
  AdvisorState, Meta, Message, last_message, calls_of, has_text,
}
use intelli_study_planner_br.Advisor.Metadata.{
  metadata_handbook_key, handbook_matches_current_meta, state_handbook_key,
}
use intelli_study_planner_br.Advisor.Updates.{
  reset_planning, confirm_meta, same_key, validate_metadata, apply_confirm_metadata,
  apply_plan_change_request, apply_change, requested_change, Change, rejected, new_interests,
  new_meta,
}
use intelli_study_planner_br.Advisor.Outcome.{Reply, OnDone, OnDone-bind, answer}
use intelli_study_planner_br.Advisor.Conversation.{
  extract_request_elective_interests, max_tool_calls_per_turn, add_tools, AgentReplies, agent,
  run_tools, chat_reply, settle_lookups,
}
use intelli_study_planner_br.Advisor.Capture.{capture_tool_results}
use intelli_study_planner_br.Advisor.Capture.Induction.{capture_tool_results-kept}
use intelli_study_planner_br.Advisor.Messages.{extract_and_parse_json}
use intelli_study_planner_br.Advisor.Stage1.{
  fetch_elective_list, populate_plan_electives, generate_core_subjects, effective_interests,
  get_ranking_preferences, start_planning, validate, judge, explain, is_true,
}
use intelli_study_planner_br.Advisor.Stage2.{
  take_plan, make_plan, evaluate_plan, judge_plan, prompt_inputs,
}
use intelli_study_planner_br.Advisor.Graph.{ensure_node, missing_node, Next, next}

-- A plan is stored only beside the handbook of the metadata.
abbrev pub IsBacked : AdvisorState → Type 0
IsBacked s = (s.plan ≡ none) ⊎ (handbook_matches_current_meta s ≡ true)

-- Between the failed fetch of a handbook and the node that clears the plan, it may stand alone.
abbrev pub IsBackedAt : Next → AdvisorState → Type 0
IsBackedAt x s = (x ≡ some missing_node) ⊎ IsBacked s

pub IsBacked-agent :
    (r : AgentReplies) (s : AdvisorState) → IsBacked s → OnDone IsBacked (agent r s)
unfolding agent handbook_matches_current_meta state_handbook_key
IsBacked-agent r s h = elim (Bool-cases (leb max_tool_calls_per_turn s.tool_calls_this_turn)) [
  | inl spent ↦ rw spent h
  | inr room ↦ rw room (
      OnDone-bind IsBacked (chat_reply r.first r.second) _
        λ reply. OnDone-bind IsBacked (settle_lookups r.interests s reply) _ λ settled. h)
]

pub IsBacked-run_tools :
    (ms : Option (List Message)) (s : AdvisorState) → IsBacked s → OnDone IsBacked (run_tools ms s)
unfolding run_tools handbook_matches_current_meta state_handbook_key
IsBacked-run_tools ms s h = elim (Bool-cases (is_empty (calls_of (last_message s.messages)))) [
  | inl idle ↦ rw idle h
  | inr asked ↦ rw asked (added ms)
]
  where
    added :
        (ms : Option (List Message))
        → OnDone IsBacked (add_tools ms (length (calls_of (last_message s.messages))) s)
    added none = tt
    added (some rs) = h

IsBacked-confirm_meta :
    (p : Option Meta) (m : Meta) (s : AdvisorState) → IsBacked (confirm_meta p m s)
unfolding confirm_meta
IsBacked-confirm_meta p m s =
    elim (Bool-cases (same_key (metadata_handbook_key p) (metadata_handbook_key (some m)))) [
      | inl same ↦ rw same (inl refl)
      | inr other ↦ rw other (inl refl)
    ]

IsBacked-confirm :
    (p : Option Meta) (m : Meta) (s : AdvisorState)
    → IsBacked s
    → IsBacked (apply_confirm_metadata p m s)
unfolding apply_confirm_metadata handbook_matches_current_meta state_handbook_key
IsBacked-confirm p m s h = elim (Bool-cases (is_empty (validate_metadata (some m)))) [
  | inl valid ↦ rw valid (IsBacked-confirm_meta p m s)
  | inr lacking ↦ rw lacking h
]

IsBacked-change :
    (p : Option Meta) (c : Change) (s : AdvisorState) → IsBacked s → IsBacked (apply_change p c s)
unfolding apply_change handbook_matches_current_meta state_handbook_key
IsBacked-change p rejected s h = h
IsBacked-change p (new_interests is) s h = h
IsBacked-change p (new_meta m) s h = IsBacked-confirm p m s h

pub IsBacked-capture : (s : AdvisorState) → IsBacked s → IsBacked (capture_tool_results s)
unfolding handbook_matches_current_meta state_handbook_key apply_plan_change_request
IsBacked-capture s h =
    capture_tool_results-kept {P = IsBacked}
      (record {
        confirm = λ m t. IsBacked-confirm t.meta m t;
        change = λ fs t. IsBacked-change t.meta (requested_change t.meta fs) t;
        lookups = λ ls cs t g. g;
      })
      s h

-- Behind the gate the handbook matches, or the next node is the one that clears the plan.
pub IsBackedAt-ensure : (t : AdvisorState) → IsBackedAt (next ensure_node t) t
unfolding next
IsBackedAt-ensure t = elim (Bool-cases (handbook_matches_current_meta t)) [
  | inl held ↦ inr (inr held)
  | inr lost ↦ rw lost (inl refl)
]

module _ (verdict explanation : Option Reply) (s : AdvisorState) (h : IsBacked s) where
  IsBacked-explain : (r : Option Reply) → IsBacked (explain r s)
  unfolding handbook_matches_current_meta state_handbook_key
  IsBacked-explain none = h
  IsBacked-explain (some r) = h

  IsBacked-judge : (v : Value) → IsBacked (judge v explanation s)
  unfolding handbook_matches_current_meta state_handbook_key reset_planning
  IsBacked-judge (obj fs) = elim (Bool-cases (is_true (get fs (codes "valid")))) [
    | inl valid ↦ rw valid (inl refl)
    | inr faulty ↦ rw faulty (IsBacked-explain explanation)
  ]
  IsBacked-judge null = h
  IsBacked-judge (bool b) = h
  IsBacked-judge (int i) = h
  IsBacked-judge (float x y z) = h
  IsBacked-judge (str x) = h
  IsBacked-judge (arr vs) = h

  IsBacked-validate : (r : Option Reply) → IsBacked (validate r explanation s)
  unfolding handbook_matches_current_meta state_handbook_key
  IsBacked-validate none = h
  IsBacked-validate (some r) = IsBacked-judge (extract_and_parse_json r.content)

  pub IsBacked-start_planning : IsBacked (start_planning verdict explanation s)
  unfolding start_planning state_handbook_key
  IsBacked-start_planning = elim (Bool-cases (handbook_matches_current_meta s)) [
    | inl held ↦ rw held (IsBacked-validate verdict)
    | inr lost ↦ rw lost h
  ]

pub IsBacked-fetch_elective_list :
    (rank : AdvisorState → Option Text) (a b : Option Reply) (s : AdvisorState)
    → IsBacked s
    → OnDone IsBacked (fetch_elective_list rank a b s)
unfolding fetch_elective_list handbook_matches_current_meta state_handbook_key
IsBacked-fetch_elective_list rank a b s h = elim (Bool-cases (handbook_matches_current_meta s)) [
  | inl held ↦ rw held (
      OnDone-bind IsBacked (extract_request_elective_interests a s) _ λ asked.
        OnDone-bind IsBacked
          (answer (rank (get_ranking_preferences s (effective_interests asked s)))) _
          λ electives. OnDone-bind IsBacked (answer b) _ λ r. h)
  | inr lost ↦ rw lost h
]

pub IsBacked-populate :
    (rank : AdvisorState → Option Text) (a b : Option Reply) (s : AdvisorState)
    → IsBacked s
    → OnDone IsBacked (populate_plan_electives rank a b s)
unfolding populate_plan_electives handbook_matches_current_meta state_handbook_key
IsBacked-populate rank a b s h = elim (Bool-cases (handbook_matches_current_meta s)) [
  | inr lost ↦ rw lost h
  | inl held ↦ rw held (elim (Bool-cases (has_text s.plan)) [
    | inr no_plan ↦ rw no_plan h
    | inl planned ↦ rw planned (
        OnDone-bind IsBacked (extract_request_elective_interests a s) _ λ asked.
          OnDone-bind IsBacked
            (answer (rank (get_ranking_preferences s (effective_interests asked s)))) _
            λ ranked. OnDone-bind IsBacked (answer b) _ λ r. inr held)
  ])
]

pub IsBacked-review :
    (r : Option Reply) (s : AdvisorState)
    → IsBacked s
    → OnDone IsBacked (generate_core_subjects r s)
unfolding generate_core_subjects handbook_matches_current_meta state_handbook_key
IsBacked-review r s h = elim (Bool-cases (handbook_matches_current_meta s)) [
  | inl held ↦ rw held (OnDone-bind IsBacked (answer r) _ λ a. h)
  | inr lost ↦ rw lost h
]

IsBacked-take_plan :
    (r : Reply) (s : AdvisorState)
    → handbook_matches_current_meta s ≡ true
    → IsBacked (take_plan r s)
unfolding take_plan handbook_matches_current_meta state_handbook_key
IsBacked-take_plan r s held = elim (Bool-cases (is_empty r.tool_calls)) [
  | inl text ↦ rw text (inr held)
  | inr asked ↦ rw asked (inr held)
]

-- Without its handbook the plan is dropped.
pub IsBacked-make_plan : (r : Option Reply) (s : AdvisorState) → OnDone IsBacked (make_plan r s)
unfolding make_plan
IsBacked-make_plan r s = elim (Bool-cases (handbook_matches_current_meta s)) [
  | inl held ↦ rw held (OnDone-bind IsBacked (answer r) _ λ a. IsBacked-take_plan a s held)
  | inr lost ↦ rw lost (inl refl)
]

IsBacked-judge_plan : (v : Value) (s : AdvisorState) → IsBacked s → IsBacked (judge_plan v s)
unfolding handbook_matches_current_meta state_handbook_key
IsBacked-judge_plan (obj fs) s h = elim (Bool-cases (truthy (get fs (codes "valid")))) [
  | inl valid ↦ rw valid h
  | inr faulty ↦ rw faulty h
]
IsBacked-judge_plan null s h = h
IsBacked-judge_plan (bool b) s h = h
IsBacked-judge_plan (int i) s h = h
IsBacked-judge_plan (float x y z) s h = h
IsBacked-judge_plan (str x) s h = h
IsBacked-judge_plan (arr vs) s h = h

pub IsBacked-evaluate_plan :
    (r : Option Reply) (s : AdvisorState) → IsBacked s → OnDone IsBacked (evaluate_plan r s)
unfolding evaluate_plan handbook_matches_current_meta state_handbook_key
IsBacked-evaluate_plan r s h = elim (Bool-cases (has_text s.plan)) [
  | inl planned ↦ rw planned (
      OnDone-bind IsBacked (prompt_inputs s.handbook s.raw_sols) _ λ _.
        OnDone-bind IsBacked (answer r) _
          λ a. IsBacked-judge_plan (extract_and_parse_json a.content) s h)
  | inr no_plan ↦ rw no_plan h
]
