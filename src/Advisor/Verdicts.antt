-- ===== src/Advisor/Verdicts.antt =====
-- What app/agents/nodes/stage1.py and stage2.py make of the verdicts of their evaluators.
use intelli_study_planner_br.Base.{
  ◌≡◌, refl, sym, ap, ◌∙◌, subst, [], ◌∷◌, ◌++◌, strip, arith, ◌⊎◌, Bool, true, false, not, ◌&&◌,
  ◌||◌, Option, none, some, Text, codes, Bool-cases, inl, inr,
}
use intelli_study_planner_br.Json.{
  Value, null, bool, int, float, str, arr, obj, nil, cons, end, field, truthy, get, has,
}
use intelli_study_planner_br.Advisor.State.{AdvisorState, ai, has_text}
use intelli_study_planner_br.Advisor.Messages.{extract_and_parse_json}
use intelli_study_planner_br.Advisor.Metadata.{handbook_matches_current_meta}
use intelli_study_planner_br.Advisor.Outcome.{Reply, Outcome, done, raised, ◌>>=◌}
use intelli_study_planner_br.Advisor.Stage1.{start_planning}
use intelli_study_planner_br.Advisor.Stage2.{
  judge_plan, prompt_inputs, issues_heading, plan_or_apology, insert_feedback, format_output,
  evaluate_plan, feedback_section, passed_section,
}
use intelli_study_planner_br.Advisor.Graph.{
  next, start_node, plan_eval_node, review_node, format_node,
}

-- A request whose major was once validated goes on to plan even if the validator's call fails now: the
-- node leaves the earlier pass in place, and the route reads it.
pub stale_validation-plans :
    (explanation : Option Reply) (s : AdvisorState)
    → s.major_validation_passed ≡ true
    → next start_node (start_planning none explanation s) ≡ some review_node
unfolding next start_planning
stale_validation-plans explanation s passed = elim (Bool-cases (handbook_matches_current_meta s)) [
  | inl held ↦ rw held (rw passed refl)
  | inr lost ↦ rw lost (rw passed refl)
]

-- Whether an evaluator's answer is shown as a pass: a valid plan, or feedback that is there and null,
-- empty or otherwise falsy.
abbrev pub is_shown_as_passed : Value → Bool
is_shown_as_passed (obj fs) =
    truthy (get fs (codes "valid"))
    || (has fs (codes "feedback") && not (truthy (get fs (codes "feedback"))))
is_shown_as_passed _ = false

judge_plan-verdict :
    (v : Value) (s : AdvisorState)
    → truthy (judge_plan v s).plan_feedback ≡ not (is_shown_as_passed v)
judge_plan-verdict (obj fs) s = elim (Bool-cases (truthy (get fs (codes "valid")))) [
  | inl valid ↦ rw valid refl
  | inr rejects ↦ elim (Bool-cases (has fs (codes "feedback"))) [
    | inl given ↦ rw (rejects, given) (double (truthy (get fs (codes "feedback"))))
    | inr missing ↦ rw (rejects, missing) refl
  ]
]
  where
    double : (b : Bool) → b ≡ not (not b)
    double true = refl
    double false = refl
judge_plan-verdict null s = refl
judge_plan-verdict (bool b) s = refl
judge_plan-verdict (int n) s = refl
judge_plan-verdict (float n nonzero literal) s = refl
judge_plan-verdict (str t) s = refl
judge_plan-verdict (arr vs) s = refl

judge_plan-keeps :
    (v : Value) (s : AdvisorState)
    → ((judge_plan v s).messages ≡ s.messages) × ((judge_plan v s).plan ≡ s.plan)
judge_plan-keeps (obj fs) s = elim (Bool-cases (truthy (get fs (codes "valid")))) [
  | inl valid ↦ rw valid (refl, refl)
  | inr rejects ↦ rw rejects (refl, refl)
]
judge_plan-keeps null s = (refl, refl)
judge_plan-keeps (bool b) s = (refl, refl)
judge_plan-keeps (int n) s = (refl, refl)
judge_plan-keeps (float n nonzero literal) s = (refl, refl)
judge_plan-keeps (str t) s = (refl, refl)
judge_plan-keeps (arr vs) s = (refl, refl)

-- The section about the issues that a feedback names.
abbrev pub issues_section : Text → Text
issues_section feedback = issues_heading ++ strip feedback ++ 10 ∷ 10 ∷ []

IsSection : Value → Text → Type 0
IsSection v section =
    ((truthy v ≡ false) × (section ≡ passed_section))
    ⊎ (feedback : Text) × (v ≡ str feedback)
      × (truthy v ≡ true)
      × (section ≡ issues_section feedback)

done_path : {A : Type 0} {a b : A} → done a ≡ done b → a ≡ b
done_path e = grind arith

-- The two sections; other truthy feedback than a text raises.
feedback_section-cases :
    (v : Value) (section : Text) → feedback_section v ≡ done section → IsSection v section
unfolding feedback_section IsSection
feedback_section-cases null section e = inl (refl, sym (done_path e))
feedback_section-cases (bool true) section e = absurd (grind arith)
feedback_section-cases (bool false) section e = inl (refl, sym (done_path e))
feedback_section-cases (int n) section e = elim (Bool-cases (truthy (int n))) [
  | inl is ↦ absurd (grind (arith, rw is at e))
  | inr not_it ↦ inl (not_it, sym (done_path (rw not_it at e)))
]
feedback_section-cases (float n true literal) section e = absurd (grind arith)
feedback_section-cases (float n false literal) section e = inl (refl, sym (done_path e))
feedback_section-cases (str []) section e = inl (refl, sym (done_path e))
feedback_section-cases (str (c ∷ s)) section e = inr (c ∷ s, refl, refl, sym (done_path e))
feedback_section-cases (arr nil) section e = inl (refl, sym (done_path e))
feedback_section-cases (arr (cons v vs)) section e = absurd (grind arith)
feedback_section-cases (obj end) section e = inl (refl, sym (done_path e))
feedback_section-cases (obj (field k v fs)) section e = absurd (grind arith)

bind-done :
    {A B : Type 0} (m : Outcome A) (f : A → Outcome B) (b : B)
    → (m >>= f) ≡ done b
    → (a : A) × (m ≡ done a) × (f a ≡ done b)
bind-done (done a) f b e = (a, refl, e)
bind-done raised f b e = absurd (grind arith)

evaluated :
    (reply : Reply) (s s' : AdvisorState)
    → has_text s.plan ≡ true
    → evaluate_plan (some reply) s ≡ done s'
    → judge_plan (extract_and_parse_json reply.content) s ≡ s'
unfolding evaluate_plan
evaluated reply s s' planned e =
    let (u, ready, rest) = bind-done (prompt_inputs s.handbook s.raw_sols) _ s' (rw planned at e) in
    done_path rest

-- The message that is appended, with a section.
abbrev pub Emits : AdvisorState → Text → AdvisorState → Type 0
Emits s section s' =
    s'.messages ≡ s.messages ++ ai (str (insert_feedback section (plan_or_apology s.plan))) [] ∷ []

emitted :
    (s s' : AdvisorState)
    → format_output s ≡ done s'
    → (section : Text) × (IsSection s.plan_feedback section) × Emits s section s'
unfolding format_output
emitted s s' e =
    let (section, given, rest) = bind-done (feedback_section s.plan_feedback) _ s' e in
    (
      section,
      feedback_section-cases s.plan_feedback section given,
      ap (λ x. x.messages) (sym (done_path rest)),
    )

shown :
    (v : Value) (s s'' : AdvisorState) (section : Text)
    → IsSection (judge_plan v s).plan_feedback section
    → Emits (judge_plan v s) section s''
    → ((is_shown_as_passed v ≡ true)
        × (next plan_eval_node (judge_plan v s) ≡ some format_node)
        × Emits s passed_section s'')
      ⊎ (feedback : Text) × (is_shown_as_passed v ≡ false)
        × ((judge_plan v s).plan_feedback ≡ str feedback)
        × Emits s (issues_section feedback) s''
unfolding IsSection next
shown v s s'' section (inl (falsy, same)) e = inl (
  opposite (is_shown_as_passed v) (sym (judge_plan-verdict v s) ∙ falsy),
  rw falsy refl,
  subst (λ t. Emits s t s'') same (kept e),
)
  where
    opposite : (b : Bool) → not b ≡ false → b ≡ true
    opposite true e = refl
    opposite false e = absurd (grind arith)

    kept : Emits (judge_plan v s) section s'' → Emits s section s''
    kept e = let (ms, p) = judge_plan-keeps v s in rw (ms, p) at e
shown v s s'' section (inr (feedback, is, truth, same)) e = inr (
  feedback,
  opposite (is_shown_as_passed v) (sym (judge_plan-verdict v s) ∙ truth),
  is,
  subst (λ t. Emits s t s'') same (kept e),
)
  where
    opposite : (b : Bool) → not b ≡ true → b ≡ false
    opposite true e = absurd (grind arith)
    opposite false e = refl

    kept : Emits (judge_plan v s) section s'' → Emits s section s''
    kept e = let (ms, p) = judge_plan-keeps v s in rw (ms, p) at e

-- Of a plan that a model has evaluated and that is then emitted: the message says that the plan has
-- passed, and no further attempt is made, exactly where the answer calls the plan valid or gives a falsy
-- feedback (null, an empty text); for every other answer, also one that is no object, the message has the
-- feedback that the state then holds, which is a text.
pub format_output-evaluate_plan :
    (reply : Reply) (s s' s'' : AdvisorState)
    → has_text s.plan ≡ true
    → evaluate_plan (some reply) s ≡ done s'
    → format_output s' ≡ done s''
    → ((is_shown_as_passed (extract_and_parse_json reply.content) ≡ true)
        × (next plan_eval_node s' ≡ some format_node)
        × Emits s passed_section s'')
      ⊎ (feedback : Text) × (is_shown_as_passed (extract_and_parse_json reply.content) ≡ false)
        × (s'.plan_feedback ≡ str feedback)
        × Emits s (issues_section feedback) s''
format_output-evaluate_plan reply s s' s'' planned judged formatted =
    let v : Value = extract_and_parse_json reply.content in
    let same = evaluated reply s s' planned judged in
    let (section, is_one, said) =
      emitted (judge_plan v s) s'' (ap format_output same ∙ formatted) in
    subst
      (λ x.
        ((is_shown_as_passed v ≡ true)
          × (next plan_eval_node x ≡ some format_node)
          × Emits s passed_section s'')
        ⊎ (feedback : Text) × (is_shown_as_passed v ≡ false)
          × (x.plan_feedback ≡ str feedback)
          × Emits s (issues_section feedback) s'')
      same (shown v s s'' section is_one said)
