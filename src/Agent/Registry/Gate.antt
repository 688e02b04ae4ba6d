-- ===== src/Agent/Registry/Gate.antt =====
-- The gate of ron/agent/registry.py: what must hold before a handler is called, and what a
-- SUCCESS means.
use ron_personal_assistant.Prelude.{
  ℕ, ◌+◌, ◌≤◌, ◌<◌, String, ◌≡◌, ◌≢◌, ◌↔◌, ◌⊎◌, refl, ap, ◌∙◌, inl, inr, Bool, true, false, ◌&&◌,
  not, Option, none, some, [], ◌∷◌, arith, Bool-cases, Option-cases, Result-cases, ok,
}
use ron_personal_assistant.Prelude.Dict.{text_key, get}
use ron_personal_assistant.Agent.Models.{ToolStatus, Arguments, ToolResult}
use ron_personal_assistant.Agent.Registry.{
  ToolSpec, ToolRegistry, validate_arguments, availability_at, preflight, preflight_tool, is_ready,
  Run, checkpoint, Calls, attempt, settle, run_tool, bounded, handled, execute,
}

-- What clears a call: the tool is registered under the name, the arguments are valid, a needed
-- confirmation is there, and the tool says that it is available.
pub record IsCleared (tools : ToolRegistry) (name : String) (arguments : Arguments)
    (confirmed : Bool) (now : ℕ) (tool : ToolSpec) (validated : Arguments) : Type 0 where
  pub found : get tools name ≡ some tool
  pub valid : validate_arguments tool arguments ≡ ok validated
  pub permitted : (tool.requires_confirmation && not confirmed) ≡ false
  pub available :
      (availability_at tool "Its required local integration is unavailable." now).0 ≡ true

module _ (tools : ToolRegistry) (name : String) (arguments : Arguments) (confirmed : Bool)
    (now : ℕ) where
  preflight_tool-IsCleared :
      (tool : ToolSpec)
      → get tools name ≡ some tool
      → is_ready (preflight_tool (some tool) name arguments confirmed now).status ≡ true
      → (validated : Arguments) × IsCleared tools name arguments confirmed now tool validated
  unfolding preflight_tool
  preflight_tool-IsCleared tool found h = elim (Result-cases (validate_arguments tool arguments)) [
    | inl (validated, valid) ↦ (
      validated,
      record { found = found; valid = valid; permitted = ground arith; available = ground arith },
    )
    | inr (e, invalid) ↦ ground arith
  ]

  preflight-IsCleared :
      is_ready (preflight tools name arguments confirmed now).status ≡ true
      → (tool : ToolSpec) × (validated : Arguments) × IsCleared tools name arguments confirmed now
          tool validated
  preflight-IsCleared h = elim (Option-cases (get tools name)) [
    | inl missing ↦ absurd (unfold preflight preflight_tool in ground arith)
    | inr (tool, found) ↦
        let (validated, cleared) =
          preflight_tool-IsCleared tool found (unfold preflight in rw found at h) in
        (tool, validated, cleared)
  ]

  IsCleared-preflight :
      (tool : ToolSpec) (validated : Arguments)
      → IsCleared tools name arguments confirmed now tool validated
      → is_ready (preflight tools name arguments confirmed now).status ≡ true
  unfolding preflight preflight_tool
  IsCleared-preflight tool validated c =
      rw (c.found, preflight_tool, c.valid, c.permitted, c.available)

  -- A preflight is READY exactly when the call is cleared: the tool is registered, its arguments
  -- are valid, a confirmation that it requires is given, and it is available.
  pub preflight_ready_iff :
      (is_ready (preflight tools name arguments confirmed now).status ≡ true) ↔ (
        (tool : ToolSpec) × (validated : Arguments) × IsCleared tools name arguments confirmed now
          tool validated)
  preflight_ready_iff =
      (preflight-IsCleared, λ (tool, validated, c). IsCleared-preflight tool validated c)

-- There is a size, and it is within the limit.
abbrev pub FitsIn : ℕ → Option ℕ → Type 0
FitsIn limit none = ⊥
FitsIn limit (some size) = size ≤ limit

module _ (json_size : String → Arguments → Option ℕ) (tools : ToolRegistry) (name : String)
    (arguments : Arguments) (confirmed : Bool) (run : Run) where
  execute-cleared :
      (tool : ToolSpec) (validated : Arguments)
      → IsCleared tools name arguments confirmed run.started tool validated
      → execute json_size tools name arguments confirmed run
        ≡ run_tool json_size tool name validated run
  unfolding execute
  execute-cleared tool validated c =
      rw (IsCleared-preflight tools name arguments confirmed run.started tool validated c)
        (rw c.found (rw c.valid refl))

  execute-not-cleared :
      is_ready (preflight tools name arguments confirmed run.started).status ≡ false
      → execute json_size tools name arguments confirmed run
        ≡ (preflight tools name arguments confirmed run.started, [])
  unfolding execute
  execute-not-cleared h = rw h

  abbrev calls : Calls
  calls = (execute json_size tools name arguments confirmed run).1

  abbrev outcome : ToolResult
  outcome = (execute json_size tools name arguments confirmed run).0

  calls-run_tool :
      (tool : ToolSpec) (validated : Arguments)
      → ((run_tool json_size tool name validated run).1 ≡ [])
        ⊎ ((run.cancelled_before ≡ false)
            × ((run_tool json_size tool name validated run).1 ≡ (tool.name, validated) ∷ []))
  unfolding run_tool attempt checkpoint
  calls-run_tool tool validated = ground arith

  -- A handler is called at most once, and only in a cleared call that was not cancelled before it:
  -- then it gets exactly the validated arguments.
  pub execute_calls :
      (calls ≡ [])
      ⊎ ((tool : ToolSpec) × (validated : Arguments) × IsCleared tools name arguments confirmed
            run.started tool validated
          × (run.cancelled_before ≡ false)
          × (calls ≡ (tool.name, validated) ∷ []))
  execute_calls =
      elim (Bool-cases (is_ready (preflight tools name arguments confirmed run.started).status)) [
        | inr stopped ↦ inl (ap (λ (r : ToolResult × Calls). r.1) (execute-not-cleared stopped))
        | inl passed ↦
            let (tool, validated, c) =
              preflight-IsCleared tools name arguments confirmed run.started passed in
            elim (calls-run_tool tool validated) [
              | inl nothing ↦ inl (
                  ap (λ (r : ToolResult × Calls). r.1) (execute-cleared tool validated c) ∙ nothing)
              | inr (live, once) ↦ inr (
                tool,
                validated,
                c,
                live,
                ap (λ (r : ToolResult × Calls). r.1) (execute-cleared tool validated c) ∙ once,
              )
            ]
      ]

  -- What a SUCCESS of a cleared call comes with.
  abbrev IsSuccessful : ToolSpec → Arguments → ToolResult × Calls → Type 0
  IsSuccessful tool validated (result, made) =
      (made ≡ (tool.name, validated) ∷ [])
      × (run.cancelled_before ≡ false)
      × (run.cancelled_after ≡ false)
      × (run.returned < run.started + tool.timeout_seconds)
      × FitsIn tool.max_output_bytes (json_size result.message result.data_fields)

  success-run_tool :
      (tool : ToolSpec) (validated : Arguments)
      → (run_tool json_size tool name validated run).0.status ≡ ToolStatus.success
      → IsSuccessful tool validated (run_tool json_size tool name validated run)
  unfolding run_tool attempt checkpoint settle bounded handled
  success-run_tool tool validated h = ground arith

  success-of_eq :
      (tool : ToolSpec) (validated : Arguments) (r : ToolResult × Calls)
      → r ≡ run_tool json_size tool name validated run
      → r.0.status ≡ ToolStatus.success
      → IsSuccessful tool validated r
  success-of_eq tool validated r e h = rw e (success-run_tool tool validated (rw e at h))

  preflight_tool-ne-success :
      (o : Option ToolSpec) (now : ℕ)
      → (preflight_tool o name arguments confirmed now).status ≢ ToolStatus.success
  unfolding preflight_tool
  preflight_tool-ne-success none now h = cc
  preflight_tool-ne-success (some tool) now h = ground arith

  stopped-ne-success :
      (r : ToolResult × Calls)
      → r ≡ (preflight tools name arguments confirmed run.started, [])
      → r.0.status ≢ ToolStatus.success
  unfolding preflight
  stopped-ne-success r e h = preflight_tool-ne-success (get tools name) run.started (rw e at h)

  -- A SUCCESS means that a cleared call was made of the handler, once and with the validated
  -- arguments; that no cancellation was requested before or after it and that it returned before
  -- its deadline; and that its message and data, as JSON, fit the tool's output limit.
  pub execute_success :
      outcome.status ≡ ToolStatus.success
      → (tool : ToolSpec) × (validated : Arguments) × IsCleared tools name arguments confirmed
          run.started tool validated
        × (calls ≡ (tool.name, validated) ∷ [])
        × (run.cancelled_before ≡ false)
        × (run.cancelled_after ≡ false)
        × (run.returned < run.started + tool.timeout_seconds)
        × FitsIn tool.max_output_bytes (json_size outcome.message outcome.data_fields)
  execute_success h =
      elim (Bool-cases (is_ready (preflight tools name arguments confirmed run.started).status)) [
        | inr stopped ↦ absurd (stopped-ne-success _ (execute-not-cleared stopped) h)
        | inl passed ↦
            let (tool, validated, c) =
              preflight-IsCleared tools name arguments confirmed run.started passed in
            let facts = success-of_eq tool validated _ (execute-cleared tool validated c) h in
            (tool, validated, c, facts.0, facts.1, facts.2, facts.3, facts.4)
      ]
