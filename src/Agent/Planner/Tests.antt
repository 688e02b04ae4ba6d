-- ===== src/Agent/Planner/Tests.antt =====
-- A planner whose model changes its mind: tests, and the witnesses of the theorems on
-- ron/agent/planner.py.
use ron_personal_assistant.Prelude.{
  ◌≡◌, ◌⊎◌, ◌≤◌, ◌<◌, refl, true, false, none, some, [], ◌∷◌, All, length, strip, is_space, decimal,
  str_eq, if◌then◌else◌,
}
use ron_personal_assistant.Prelude.Dict.{text_key, get, remove}
use ron_personal_assistant.Agent.Planner.{
  AgentPlanner, unavailable, named, Texts, Moment, plan_of, plan_steps, has_steps, can_handle,
  build_plan_steps, deterministic_plan, contextual_plan, recent_plans, first_with, media_reference,
  all_steps, model_plan, purged, purge, cache_key, kept, shorten,
}
use ron_personal_assistant.Agent.Planner.Reuse.{plan_steps-can_handle}
use ron_personal_assistant.Agent.Planner.Bounds.{IsFounded, build_plan_steps-IsSound}

abbrev texts : Texts
texts = record {
  with_quotes = λ text. text;
  casefold = λ text. text;
  clean = λ text. text;
  segments = λ text. if str_eq text "time then date" then "time" ∷ "date" ∷ [] else text ∷ [];
  pauses = λ text. false;
  resumes = λ text. false;
  is_spotify = λ text. false;
  rules = λ text. if str_eq text "time" then some (plan_of "get_local_time" [] "clock") else none;
}

abbrev before : Moment
before = record {
  now = 5;
  names = "open_application" ∷ [];
  answer = λ recent prompt. named "open_application" (some []);
}

abbrev after : Moment
after = record { now = 6; names = []; answer = λ recent prompt. unavailable }

abbrev planner : AgentPlanner
planner = record {
  context_ttl_seconds = 900;
  prepared = [];
  context_version = 0;
  last_successful_plans = [];
  recent_successes = [];
}

handles : (can_handle texts planner before "brave").0 ≡ true
unfolding can_handle build_plan_steps deterministic_plan contextual_plan recent_plans first_with
    media_reference model_plan purged purge cache_key kept shorten get remove strip is_space decimal
handles = refl

-- One of two segments has no rule.
all_or_nothing : (build_plan_steps texts before [] "time then date").steps ≡ []
unfolding build_plan_steps all_steps deterministic_plan contextual_plan recent_plans first_with
    media_reference
all_or_nothing = refl

plan_steps-can_handle_example :
    let (handles, p') = can_handle texts planner before "brave" in
    let plan = (plan_steps texts planner before "brave").0 in
    (handles ≡ has_steps plan) × ((plan_steps texts p' after "brave").0 ≡ plan)
plan_steps-can_handle_example =
    plan_steps-can_handle texts planner before after "brave" (unfold strip is_space in refl)

build_plan_steps-IsSound_example :
    let plan = build_plan_steps texts before [] "time then date" in
    (length plan.steps ≤ 4)
    × All (IsFounded texts before []) plan.steps
    × (1 < 2 → (plan.steps ≡ []) ⊎ (length plan.steps ≡ 2))
build_plan_steps-IsSound_example = build_plan_steps-IsSound texts before [] "time then date"
