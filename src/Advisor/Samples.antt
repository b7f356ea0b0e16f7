-- ===== src/Advisor/Samples.antt =====
-- A request that plans a degree, run through the graph; tests and witnesses.
use intelli_study_planner_br.Base.{
  ℕ, zero, ◌≡◌, ◌≢◌, refl, Bool, true, false, none, some, List, [], ◌∷◌, ◌++◌, ◌⊎◌, length, Text,
  codes, pos, inl, if◌then◌else◌,
}
use intelli_study_planner_br.Json.{Fields, null, int, str, same}
use intelli_study_planner_br.Advisor.State.{
  AdvisorState, Meta, no_meta, Message, human, tool, ai, ToolCall, collecting, post_plan,
}
use intelli_study_planner_br.Advisor.Metadata.{
  sanitize_confirmed_metadata, explicitly_stated, metadata_handbook_key, state_handbook_key,
}
use intelli_study_planner_br.Advisor.Outcome.{Reply, done}
use intelli_study_planner_br.Advisor.Graph.{
  next, start_node, review_node, plan_eval_node, format_node, World, End, finished, out_of_steps,
  run_graph,
}
use intelli_study_planner_br.Advisor.Messages.{student_conversation_text, extract_and_parse_json}
use intelli_study_planner_br.Advisor.Updates.{apply_confirm_metadata}
use intelli_study_planner_br.Advisor.Confirmation.{
  IsGrounded, is_complete, handbook_after, sanitize_confirmed_metadata-IsGrounded,
  apply_confirm_metadata-exact,
}
use intelli_study_planner_br.Advisor.Output.{fence_before, IsInserted, insert_feedback-IsInserted}
use intelli_study_planner_br.Advisor.Stage1.{start_planning}
use intelli_study_planner_br.Advisor.Stage2.{
  insert_feedback, passed_section, format_output, evaluate_plan,
}
use intelli_study_planner_br.Advisor.Verdicts.{
  stale_validation-plans, is_shown_as_passed, Emits, issues_section, format_output-evaluate_plan,
}
use intelli_study_planner_br.Advisor.Graph.Termination.{run_graph_ends}
use intelli_study_planner_br.Advisor.Graph.Backed.{run_graph-IsBacked, OnFinish}
use intelli_study_planner_br.Advisor.Graph.Backing.{IsBacked}

abbrev said : Text → List ToolCall → Reply
said t calls = record { content = str t; tool_calls = calls }

abbrev student : AdvisorState
student = record {
  messages = human (str (codes "Plan 877, 2026, Wollongong please")) ∷ [];
  raw_sols = some (codes "sols");
  meta = none;
  meta_confirmed = false;
  planning_requested = false;
  elective_mode = none;
  elective_interests = [];
  request_elective_interests = [];
  elective_lookup_results = [];
  elective_lookup_codes = [];
  pending_elective_action = none;
  conversation_mode = collecting;
  handbook = none;
  handbook_degree_code = none;
  handbook_year = none;
  handbook_campus = none;
  handbook_valid = false;
  major_validation_passed = false;
  electives = none;
  remaining_subjects = none;
  remaining_feedback = null;
  stage1_retry_count = 0;
  plan = none;
  plan_feedback = null;
  stage2_retry_count = 0;
  stage2_tool_loop_count = 0;
  tool_calls_this_turn = 0;
  active_tool_kind = none;
}

abbrev confirm_call : ToolCall
confirm_call = record { name = codes "confirm_metadata_tool"; args = Fields.end }

abbrev confirmation : Message
confirmation =
    tool (codes "confirm_metadata_tool")
      (str (codes "{\"degree_code\": \"877\", \"year\": 2026, \"campus\": \"Wollongong\"}"))

-- The agent confirms first, and later talks; the validators accept everything.
abbrev agent_says : ℕ → Reply
agent_says zero = said (codes "") (confirm_call ∷ [])
agent_says _ = said (codes "On it.") []

abbrev accepting : Text
accepting = codes "{\"valid\": true, \"remaining_valid\": true}"

abbrev helpful : World
helpful = record {
  agent_replies = λ n. record { first = some (agent_says n); second = none; interests = none };
  reply = λ n k. some (said accepting []);
  tools = λ n. some (confirmation ∷ []);
  fetch = λ n key. some (some (codes "Handbook of 877"));
  rank = λ n s. none;
}

-- The mode and the number of messages at the end of a run.
abbrev planned : End → Bool
planned (finished s) = elim s.plan [ none ↦ false | some p ↦ true ]
planned _ = false

helpful_plans : planned (run_graph helpful 42 student) ≡ true
unfolding run_graph explicitly_stated metadata_handbook_key state_handbook_key
helpful_plans = refl

run_graph_ends_example : run_graph helpful 42 student ≢ out_of_steps
run_graph_ends_example = run_graph_ends helpful student

run_graph-IsBacked_example : OnFinish IsBacked (run_graph helpful 42 student)
run_graph-IsBacked_example = run_graph-IsBacked helpful 42 student (inl refl)

abbrev old_meta : Meta
old_meta = record no_meta {
  degree_code = str (codes "877");
  year = int (pos 2025);
  campus = str (codes "Wollongong");
}

abbrev claims : Fields
claims =
    Fields.field (codes "year") (int (pos 2026))
      (Fields.field (codes "session") (str (codes "Spring")) Fields.end)

-- The year stands in the message, and the session does not.
claims_checked : (sanitize_confirmed_metadata (some old_meta) claims student).year ≡ int (pos 2026)
unfolding sanitize_confirmed_metadata explicitly_stated same
claims_checked = refl

session_dropped : (sanitize_confirmed_metadata (some old_meta) claims student).session ≡ null
unfolding sanitize_confirmed_metadata explicitly_stated same
session_dropped = refl

abbrev heard : Text
heard = student_conversation_text student

abbrev stored : Meta
stored = sanitize_confirmed_metadata (some old_meta) claims student

sanitize_confirmed_metadata-IsGrounded_example :
    (IsGrounded heard old_meta.degree_code stored.degree_code)
    × ((IsGrounded heard old_meta.year stored.year)
        × ((IsGrounded heard old_meta.campus stored.campus)
            × ((IsGrounded heard old_meta.session stored.session)
                × ((IsGrounded heard old_meta.elective_limit stored.elective_limit)
                    × (IsGrounded heard old_meta.interests stored.interests)))))
sanitize_confirmed_metadata-IsGrounded_example =
    sanitize_confirmed_metadata-IsGrounded (some old_meta) claims student

apply_confirm_metadata-exact_example :
    ((apply_confirm_metadata none old_meta student).meta_confirmed ≡ is_complete old_meta)
    × (((apply_confirm_metadata none old_meta student).meta
          ≡ (if is_complete old_meta then some old_meta else student.meta))
        × (((apply_confirm_metadata none old_meta student).plan
              ≡ (if is_complete old_meta then none else student.plan))
            × ((apply_confirm_metadata none old_meta student).handbook ≡ (
                if is_complete old_meta
                then handbook_after none old_meta student
                else student.handbook))))
apply_confirm_metadata-exact_example = apply_confirm_metadata-exact none old_meta student

abbrev plan_text : Text
plan_text = codes "Plan: ```JSON {} ```"

fence_found : insert_feedback (codes "ok ") plan_text ≡ codes "Plan: ok ```JSON {} ```"
unfolding insert_feedback
fence_found = refl

-- 'İ' has two characters in lower case, so that the section lands inside of the fence.
fence_missed : insert_feedback (codes "ok ") (304 ∷ codes "```json") ≡ 304 ∷ codes "`ok ``json"
unfolding insert_feedback
fence_missed = refl

insert_feedback-IsInserted_example :
    ((fence_before (length plan_text) plan_text ≡ false)
      × (insert_feedback passed_section plan_text ≡ passed_section ++ plan_text))
    ⊎ IsInserted passed_section plan_text (insert_feedback passed_section plan_text)
insert_feedback-IsInserted_example = insert_feedback-IsInserted passed_section plan_text refl

abbrev once_valid : AdvisorState
once_valid = record student { major_validation_passed = true }

stale_validation-plans_example :
    next start_node (start_planning none none once_valid) ≡ some review_node
stale_validation-plans_example = stale_validation-plans none once_valid refl

abbrev silent : Reply
silent = said (codes "{\"valid\": false, \"feedback\": \"\"}") []

abbrev with_plan : AdvisorState
with_plan = record student { plan = some plan_text; handbook = some (codes "Handbook of 877") }

abbrev judged : AdvisorState
judged = record with_plan { plan_feedback = str []; stage2_retry_count = 1 }

judges_silent : evaluate_plan (some silent) with_plan ≡ done judged
unfolding evaluate_plan
judges_silent = refl

abbrev emitted : AdvisorState
emitted = record judged {
  messages =
      judged.messages
      ++ ai (str (codes "Plan: " ++ passed_section ++ codes "```JSON {} ```")) [] ∷ [];
  planning_requested = false;
  conversation_mode = post_plan;
}

emits_passed : format_output judged ≡ done emitted
unfolding format_output
emits_passed = refl

format_output-evaluate_plan_example :
    ((is_shown_as_passed (extract_and_parse_json silent.content) ≡ true)
      × (next plan_eval_node judged ≡ some format_node)
      × Emits with_plan passed_section emitted)
    ⊎ (feedback : Text) × (is_shown_as_passed (extract_and_parse_json silent.content) ≡ false)
      × (judged.plan_feedback ≡ str feedback)
      × Emits with_plan (issues_section feedback) emitted
format_output-evaluate_plan_example =
    format_output-evaluate_plan silent with_plan judged emitted refl judges_silent emits_passed
