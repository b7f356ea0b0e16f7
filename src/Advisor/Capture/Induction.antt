-- ===== src/Advisor/Capture/Induction.antt =====
-- A proof rule for `capture_tool_results`: a property that confirmation and plan changes keep, and
-- that does not speak of the lookups, holds after the whole batch.
use intelli_study_planner_br.Base.{
  Bool, true, false, List, [], ◌∷◌, Text, codes, Bool-cases, inl, inr, any, ◌==◌, text_eq,
}
use intelli_study_planner_br.Json.{Value, Fields, obj}
use intelli_study_planner_br.Advisor.State.{AdvisorState, Meta, Message, human, ai, tool}
use intelli_study_planner_br.Advisor.Messages.{latest_tool_batch, extract_and_parse_json}
use intelli_study_planner_br.Advisor.Updates.{apply_confirm_metadata, apply_plan_change_request}
use intelli_study_planner_br.Advisor.Capture.{
  Lookups, confirm_result, change_result, capture_named, capture_message, capture_batch,
  capture_tool_results, store_lookups, is_lookup_result, initial_lookups,
}

-- What to show of a property of states.
pub record IsKept (P : AdvisorState → Type 0) : Type 0 where
  pub confirm : (m : Meta) (t : AdvisorState) → P t → P (apply_confirm_metadata t.meta m t)
  pub change : (fs : Fields) (t : AdvisorState) → P t → P (apply_plan_change_request t.meta fs t)
  pub lookups :
      (ls : List Fields) (cs : List Text) (t : AdvisorState)
      → P t
      → P (record t { elective_lookup_results = ls; elective_lookup_codes = cs })

module _ {P : AdvisorState → Type 0} (kept : IsKept P) (s : AdvisorState) where
  confirm_result-kept : (v : Value) (t : AdvisorState) → P t → P (confirm_result s v t)
  confirm_result-kept (obj fs) t h = kept.confirm _ t h
  confirm_result-kept _ t h = h

  change_result-kept : (v : Value) (t : AdvisorState) → P t → P (change_result v t)
  change_result-kept (obj fs) t h = kept.change fs t h
  change_result-kept _ t h = h

  capture_named-kept :
      (name : Text) (v : Value) (t : AdvisorState) (l : Lookups)
      → P t
      → P (capture_named s name v (t, l)).0
  unfolding capture_named
  capture_named-kept name v t l h = elim (Bool-cases (name == codes "lookup_electives_tool")) [
    | inl a ↦ rw a h
    | inr a ↦ rw a (elim (Bool-cases (name == codes "confirm_metadata_tool")) [
      | inl b ↦ rw b (confirm_result-kept v t h)
      | inr b ↦ rw b (elim (Bool-cases (name == codes "request_plan_change_tool")) [
        | inl c ↦ rw c (change_result-kept v t h)
        | inr c ↦ rw c h
      ])
    ])
  ]

  capture_message-kept :
      (m : Message) (r : AdvisorState × Lookups) → P r.0 → P (capture_message s m r).0
  unfolding capture_message
  capture_message-kept (tool name content) (t, l) h =
      capture_named-kept name (extract_and_parse_json content) t l h
  capture_message-kept (human v) r h = h
  capture_message-kept (ai v c) r h = h

  capture_batch-kept :
      (ms : List Message) (r : AdvisorState × Lookups) → P r.0 → P (capture_batch s ms r).0
  unfolding capture_batch
  capture_batch-kept [] r h = h
  capture_batch-kept (m ∷ ms) r h =
      capture_batch-kept ms (capture_message s m r) (capture_message-kept m r h)

  store_lookups-kept : (b : Bool) (r : AdvisorState × Lookups) → P r.0 → P (store_lookups b r)
  store_lookups-kept true (t, l) h = kept.lookups _ _ t h
  store_lookups-kept false (t, l) h = h

  pub capture_tool_results-kept : P s → P (capture_tool_results s)
  unfolding capture_tool_results
  capture_tool_results-kept h =
      let found : Lookups = initial_lookups s in
      store_lookups-kept (any is_lookup_result (latest_tool_batch s))
        (capture_batch s (latest_tool_batch s) (s, found))
        (capture_batch-kept (latest_tool_batch s) (s, found) h)
