-- ===== src/Advisor/Handbook.antt =====
-- app/agents/nodes/handbook.py: the handbook gate. What the handbook service answers is an argument:
-- `none` where it raises, `some none` where it finds no handbook.
use intelli_study_planner_br.Base.{
  true, false, Option, none, some, Text, is_empty, strip, if◌then◌else◌,
}
use intelli_study_planner_br.Json.{null}
use intelli_study_planner_br.Advisor.State.{AdvisorState}
use intelli_study_planner_br.Advisor.Metadata.{HandbookKey, metadata_handbook_key}
use intelli_study_planner_br.Advisor.Updates.{clear_handbook}

abbrev no_handbook : AdvisorState → AdvisorState
no_handbook s = record (clear_handbook s) { planning_requested = false }

abbrev store_handbook : HandbookKey → Text → AdvisorState → AdvisorState
store_handbook key content s = if is_empty (strip content) then no_handbook s else record s {
  handbook = some content;
  handbook_degree_code = some key.degree_code;
  handbook_year = some key.year;
  handbook_campus = some key.campus;
  handbook_valid = true;
}

abbrev fetched : HandbookKey → Option (Option Text) → AdvisorState → AdvisorState
fetched key (some (some content)) s = store_handbook key content s
fetched key _ s = no_handbook s

abbrev ensure :
    (HandbookKey → Option (Option Text)) → Option HandbookKey → AdvisorState → AdvisorState
ensure fetch none s = no_handbook s
ensure fetch (some key) s = fetched key (fetch key) s

-- HandbookNodes.ensure_handbook
unfoldable pub ensure_handbook : (HandbookKey → Option (Option Text)) → AdvisorState → AdvisorState
unfolding clear_handbook strip
ensure_handbook fetch s = ensure fetch (metadata_handbook_key s.meta) s

-- HandbookNodes.handbook_missing
unfoldable pub handbook_missing : AdvisorState → AdvisorState
handbook_missing s = record s {
  planning_requested = false;
  electives = none;
  remaining_subjects = none;
  plan = none;
  remaining_feedback = null;
  plan_feedback = null;
}
