-- ===== src/Advisor/Outcome.antt =====
-- What a node returns: a state, or an exception that ends the run of the graph. What the node asks of
-- a language model is not modelled: the answer is an argument, and `none` stands for a call that raises.
use intelli_study_planner_br.Base.{Option, none, some, List}
use intelli_study_planner_br.Json.{Value}
use intelli_study_planner_br.Advisor.State.{ToolCall}

pub record Reply : Type 0 where
  pub content : Value
  pub tool_calls : List ToolCall

pub data Outcome {ℓ} (A : Type ℓ) : Type ℓ where
  done : A → Outcome A
  raised : Outcome A

infixl 5 ◌>>=◌
abbrev pub ◌>>=◌ {ℓ κ} : {A : Type ℓ} {B : Type κ} → Outcome A → (A → Outcome B) → Outcome B
done a >>= f = f a
raised >>= f = raised

-- await llm.ainvoke(...)
abbrev pub answer {ℓ} : {A : Type ℓ} → Option A → Outcome A
answer none = raised
answer (some r) = done r

-- What holds of the state that a node returns, if it returns one.
abbrev pub OnDone {ℓ κ} : {A : Type ℓ} → (A → Type κ) → Outcome A → Type κ
OnDone P (done a) = P a
OnDone P raised = Unit

-- Whatever the first step returns, `P` holds of what follows.
pub OnDone-bind {ℓ κ μ} :
    {A : Type ℓ} {B : Type κ} (P : B → Type μ) (m : Outcome A) (f : A → Outcome B)
    → ((a : A) → OnDone P (f a))
    → OnDone P (m >>= f)
OnDone-bind P (done a) f h = h a
OnDone-bind P raised f h = tt

pub OnDone-map {ℓ κ} :
    {A : Type ℓ} {P Q : A → Type κ} (m : Outcome A)
    → ((a : A) → P a → Q a)
    → OnDone P m
    → OnDone Q m
OnDone-map (done a) f h = f a h
OnDone-map raised f h = tt
