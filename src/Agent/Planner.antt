-- ===== src/Agent/Planner.antt =====
-- ron/agent/planner.py: `AgentPlanner`, which makes plans and runs nothing. What its regular expressions
-- find, the rules of `_deterministic_plan` behind the context, and the model's answer are arguments; the
-- clock stands still during a call.
pub mod Reuse
pub mod Bounds
mod Tests
use ron_personal_assistant.Prelude.{
  ℕ, ◌+◌, ◌-◌, String, Bool, true, false, ◌&&◌, ◌||◌, not, Option, none, some, List, [], ◌∷◌, ◌++◌,
  reverse, ltb, if◌then◌else◌, length, drop, is_truthy, strip, squeeze, take_text, f_string,
  decimal, mem_text, str_eq,
}
use ron_personal_assistant.Prelude.Dict.{Dict, text_key, get, remove}
use ron_personal_assistant.Agent.Models.{
  Value, text, Arguments, AgentPlan, deterministic, local_model, no_source,
}

pub record AgentTaskPlan : Type 0 where
  pub steps : List AgentPlan
  pub reason : String

pub record RecentAction : Type 0 where
  pub plans : List AgentPlan
  pub prompt : String
  pub recorded_at : ℕ

pub record AgentPlanner : Type 0 where
  pub context_ttl_seconds : ℕ
  pub prepared : Dict String AgentTaskPlan
  pub context_version : ℕ
  pub last_successful_plans : List AgentPlan
  pub recent_successes : List RecentAction

-- "tool" and "arguments" of the first JSON object in the model's answer; `unavailable` is an `AIError`.
pub data Answer : Type 0 where
  unavailable no_object no_tool not_text : Answer
  named : String → Option Arguments → Answer

-- What texts are read as, the same at all times.
pub record Texts : Type 0 where
  -- the two kinds of apostrophes replaced
  pub with_quotes : String → String
  pub casefold : String → String
  -- `casefold().strip(" .!?")`
  pub clean : String → String
  -- the parts between the separators of `ACTION_SPLIT_PATTERN`, stripped, but for empty ones
  pub segments : String → List String
  -- "pause it" and "resume it", of a text in its clean form; and whether it starts with "spotify_"
  pub pauses : String → Bool
  pub resumes : String → Bool
  pub is_spotify : String → Bool
  -- `_deterministic_plan` behind the context
  pub rules : String → Option AgentPlan

-- The time of a call, the names in the registry, and what the model answers.
pub record Moment : Type 0 where
  pub now : ℕ
  pub names : List String
  pub answer : List RecentAction → String → Answer

abbrev pub max_plan_steps : ℕ
max_plan_steps = 4

abbrev pub prepared_limit : ℕ
prepared_limit = 16

-- `sequence[-n:]`, of a positive n
abbrev pub last_of {ℓ} : {A : Type ℓ} → ℕ → List A → List A
last_of n xs = drop (length xs - n) xs

-- `_purge_expired_context_locked`, where `cutoff` is `now - ttl`
unfoldable pub purge : ℕ → ℕ → List RecentAction → List RecentAction
purge now ttl [] = []
purge now ttl (item ∷ items) =
    let rest = purge now ttl items in
    if ltb (item.recorded_at + ttl) now then rest else item ∷ items

unfoldable pub purged : AgentPlanner → ℕ → AgentPlanner
purged p now = record p { recent_successes = purge now p.context_ttl_seconds p.recent_successes }

-- `record_success`
unfoldable pub record_success : AgentPlanner → List AgentPlan → String → ℕ → AgentPlanner
unfolding purged
record_success p [] prompt now = p
record_success p (plan ∷ plans) prompt now =
    let kept = last_of max_plan_steps (plan ∷ plans) in
    let p' = purged p now in
    record p' {
      last_successful_plans = kept;
      recent_successes = last_of 12 (
          p'.recent_successes
          ++ record { plans = kept; prompt = take_text 240 (squeeze prompt); recorded_at = now }
            ∷ []);
      context_version = p.context_version + 1;
      prepared = [];
    }

-- `_no_plan` and `_plan`
abbrev pub no_plan : String → AgentPlan
no_plan reason = record { tool_name = none; arguments = []; reason = reason; source = no_source }

abbrev pub plan_of : String → Arguments → String → AgentPlan
plan_of tool arguments reason = record {
  tool_name = some tool;
  arguments = arguments;
  reason = reason;
  source = deterministic;
}

-- The plans with a tool, the newest first.
unfoldable pub recent_plans : List RecentAction → List (String × AgentPlan)
recent_plans [] = []
recent_plans (item ∷ items) = recent_plans items ++ newest item.plans
  where
    newest : List AgentPlan → List (String × AgentPlan)
    newest [] = []
    newest (plan ∷ plans) =
        newest plans ++ elim plan.tool_name [ none ↦ [] | some tool ↦ (tool, plan) ∷ [] ]

-- The first of them with one of these tools.
unfoldable pub first_with : List String → List (String × AgentPlan) → Option (String × AgentPlan)
first_with tools [] = none
first_with tools ((tool, plan) ∷ plans) =
    let rest = first_with tools plans in if mem_text tool tools then some (tool, plan) else rest

-- The checks of a tool that the model has named; the flag is whether the registry has it.
abbrev pub allowed_plan : Bool → String → Option Arguments → AgentPlan
allowed_plan false tool arguments = no_plan "The planner requested a tool outside the allowlist."
allowed_plan true tool none = no_plan "The planner returned invalid tool arguments."
allowed_plan true tool (some arguments) = record {
  tool_name = some tool;
  arguments = arguments;
  reason = "The AI planner selected an approved tool.";
  source = local_model;
}

-- `_model_plan`, behind the model's answer
unfoldable pub model_plan : List String → Answer → AgentPlan
model_plan names unavailable = no_plan "The configured AI planner was unavailable."
model_plan names no_object = no_plan "The AI planner returned invalid structured data."
model_plan names no_tool = no_plan "No approved tool can safely complete the request."
model_plan names not_text = no_plan "The planner requested a tool outside the allowlist."
model_plan names (named tool arguments) = allowed_plan (mem_text tool names) tool arguments

abbrev pub or_plan : Option AgentPlan → Option AgentPlan → Option AgentPlan
or_plan none other = other
or_plan (some plan) other = some plan

abbrev pub with_tool : Option AgentPlan → Option AgentPlan
with_tool none = none
with_tool (some plan) = elim plan.tool_name [ none ↦ none | some tool ↦ some plan ]

abbrev pub step_first : Option AgentPlan → Option (List AgentPlan) → Option (List AgentPlan)
step_first (some plan) (some plans) = some (plan ∷ plans)
step_first _ _ = none

abbrev pub mapped : Option (List AgentPlan) → AgentTaskPlan
mapped none = record {
  steps = [];
  reason = "I could not safely map every requested step, so no step was run.";
}
mapped (some steps) = record {
  steps = steps;
  reason =
      f_string (
        "Mapped all "
        ∷ decimal (length steps)
        ∷ " requested steps using deterministic rules."
        ∷ []);
}

-- `AgentTaskPlan((plan,) if plan.tool_name is not None else (), plan.reason)`
abbrev pub single : AgentPlan → AgentTaskPlan
single plan = record {
  steps = elim (with_tool (some plan)) [ none ↦ [] | some step ↦ step ∷ [] ];
  reason = plan.reason;
}

abbrev pub or_model : AgentPlan → Option AgentPlan → AgentPlan
or_model model none = model
or_model model (some plan) = plan

-- `while len(self._prepared) > self._prepared_limit: self._prepared.popitem(last=False)`
unfoldable pub shorten : Dict String AgentTaskPlan → Dict String AgentTaskPlan
shorten [] = []
shorten (entry ∷ entries) =
    let rest = shorten entries in
    if ltb prepared_limit (length (entry ∷ entries)) then rest else entry ∷ entries

abbrev pub has_steps : AgentTaskPlan → Bool
has_steps plan = elim plan.steps [ [] ↦ false | step ∷ steps ↦ true ]

-- The new plan goes to the end of the `OrderedDict`.
unfoldable pub kept : String → AgentTaskPlan × AgentPlanner → Bool × AgentPlanner
unfolding shorten
kept key (plan, p) =
    (has_steps plan, record p { prepared = shorten (remove p.prepared key ++ (key, plan) ∷ []) })

module _ (texts : Texts) where
  abbrev media_plan : String → String → AgentPlan
  media_plan previous action =
      plan_of (if texts.is_spotify previous then "spotify_control_playback" else "control_media")
        (("action", text action) ∷ [])
        "Resolved the media reference from the last successful action."

  abbrev track_plan : String → String → AgentPlan
  track_plan previous action =
      plan_of (if texts.is_spotify previous then "spotify_control_playback" else "control_media")
        (("action", text action) ∷ [])
        "Resolved the track reference from the last successful media action."

  -- `_contextual_plan`, behind the words for "open it again".
  unfoldable pub media_reference : String → Option (String × AgentPlan) → Option AgentPlan
  media_reference clean none = none
  media_reference clean (some (tool, previous)) =
      if texts.pauses clean
      then some (media_plan tool "pause")
      else if texts.resumes clean
      then some (media_plan tool "resume")
      else if mem_text clean ("next one" ∷ "the next one" ∷ "skip that" ∷ "play the next one" ∷ [])
      then some (track_plan tool "next")
      else if mem_text clean ("previous one" ∷ "the previous one" ∷ "go back to the last one" ∷ [])
      then some (track_plan tool "previous")
      else none

  abbrev open_again : List String
  open_again = "open it again" ∷ "open that again" ∷ "open the same one again" ∷ []

  abbrev reopened : Option (String × AgentPlan) → Option AgentPlan
  reopened none = none
  reopened (some (tool, plan)) =
      some
        (plan_of tool plan.arguments "Resolved the reference from the last successful open action.")

  -- `_contextual_plan`
  unfoldable pub contextual_plan : List RecentAction → String → Option AgentPlan
  unfolding media_reference recent_plans
  contextual_plan recent prompt =
      let clean = texts.clean prompt in
      let plans = recent_plans recent in
      or_plan
        (if mem_text clean open_again
          then reopened (first_with ("open_application" ∷ "open_folder" ∷ []) plans)
          else none)
        (media_reference clean (
          first_with ("control_media" ∷ "spotify_control_playback" ∷ "spotify_play_track" ∷ [])
            plans))

  -- `_deterministic_plan`
  unfoldable pub deterministic_plan : List RecentAction → String → Option AgentPlan
  deterministic_plan recent prompt = or_plan (contextual_plan recent prompt) (texts.rules prompt)

  -- The loop over the segments: all of them, or `none`.
  unfoldable pub all_steps : List RecentAction → List String → Option (List AgentPlan)
  all_steps recent [] = some []
  all_steps recent (segment ∷ segments) =
      step_first (with_tool (deterministic_plan recent segment)) (all_steps recent segments)

  -- `_build_plan_steps`, once the context is purged
  unfoldable pub build_plan_steps : Moment → List RecentAction → String → AgentTaskPlan
  unfolding all_steps
  build_plan_steps moment recent clean_prompt =
      let segments = texts.segments clean_prompt in
      if ltb max_plan_steps (length segments)
      then record { steps = []; reason = "A task can contain at most 4 steps." }
      else if ltb 1 (length segments)
      then mapped (all_steps recent segments)
      else single (
          or_model (model_plan moment.names (moment.answer recent clean_prompt))
            (deterministic_plan recent clean_prompt))

  -- `_cache_key`
  unfoldable pub cache_key : AgentPlanner → String → String
  cache_key p prompt = f_string (decimal p.context_version ∷ ":" ∷ texts.casefold prompt ∷ [])

  abbrev pub built : AgentPlanner → Moment → String → AgentTaskPlan × AgentPlanner
  built p moment clean_prompt =
      let p' = purged p moment.now in (build_plan_steps moment p'.recent_successes clean_prompt, p')

  abbrev pub clean_text : String → String
  clean_text prompt = texts.with_quotes (strip prompt)

  -- `plan_steps`
  unfoldable pub plan_steps : AgentPlanner → Moment → String → AgentTaskPlan × AgentPlanner
  unfolding build_plan_steps purged
  plan_steps p moment prompt =
      let clean_prompt = clean_text prompt in
      let key = cache_key p clean_prompt in
      elim (get p.prepared key) [
        | some prepared ↦ (prepared, record p { prepared = remove p.prepared key })
        | none ↦ built p moment clean_prompt
      ]

  -- `can_handle`
  unfoldable pub can_handle : AgentPlanner → Moment → String → Bool × AgentPlanner
  unfolding build_plan_steps purged
  can_handle p moment prompt =
      let clean_prompt = clean_text prompt in
      let key = cache_key p clean_prompt in
      if not (is_truthy clean_prompt) then (false, p) else elim (get p.prepared key) [
        | some prepared ↦ (has_steps prepared, p)
        | none ↦ kept key (built p moment clean_prompt)
      ]

  -- `plan`
  unfoldable pub plan : AgentPlanner → Moment → String → AgentPlan × AgentPlanner
  unfolding plan_steps
  plan p moment prompt =
      let (task_plan, p') = plan_steps p moment prompt in
      (
        elim task_plan.steps [
          | [] ↦ no_plan task_plan.reason
          | step ∷ [] ↦ step
          | step ∷ step' ∷ steps ↦ no_plan (
              f_string (
                "The single-step interface will not partially execute this multi-step request; "
                ∷ "use the bounded task runner." ∷ []))
        ],
        p',
      )
