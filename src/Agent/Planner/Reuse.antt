-- ===== src/Agent/Planner/Reuse.antt =====
-- The plan that `can_handle` of ron/agent/planner.py has judged is the one that is run.
use ron_personal_assistant.Prelude.{
  String, ◌≡◌, refl, ap, ◌∙◌, Bool, true, false, none, some, [], ◌∷◌, ◌++◌, arith, if◌then◌else◌,
  is_truthy, inl, inr, Option-cases,
}
use ron_personal_assistant.Prelude.Dict.{Dict, text_key, beq_refl, get, remove, get-remove_self}
use ron_personal_assistant.Agent.Planner.{
  AgentTaskPlan, AgentPlanner, Texts, Moment, cache_key, built, clean_text, purged, plan_steps,
  shorten, has_steps, kept, can_handle,
}

get-append_last :
    (d : Dict String AgentTaskPlan) (key : String) (plan : AgentTaskPlan)
    → get d key ≡ none
    → get (d ++ (key, plan) ∷ []) key ≡ some plan
unfolding get
get-append_last [] key plan e = ground (arith, beq_refl key)
get-append_last ((k, v) ∷ d) key plan e = ground (arith, get-append_last d key plan)

get_either :
    (b : Bool) (x y : Dict String AgentTaskPlan) (key : String) (plan : AgentTaskPlan)
    → get x key ≡ some plan
    → get y key ≡ some plan
    → get (if b then x else y) key ≡ some plan
get_either true x y key plan h k = h
get_either false x y key plan h k = k

get_rest :
    (k : String) (v : AgentTaskPlan) (d : Dict String AgentTaskPlan) (key : String)
    → get ((k, v) ∷ d) key ≡ none
    → get d key ≡ none
unfolding get
get_rest k v d key e = ground (arith, e)

-- The newest entry is never dropped.
shorten_keeps :
    (d : Dict String AgentTaskPlan) (key : String) (plan : AgentTaskPlan)
    → get d key ≡ none
    → get (shorten (d ++ (key, plan) ∷ [])) key ≡ some plan
unfolding shorten
shorten_keeps [] key plan e = get-append_last [] key plan e
shorten_keeps ((k, v) ∷ d) key plan e =
    get_either _ _ _ key plan (shorten_keeps d key plan (get_rest k v d key e))
      (get-append_last ((k, v) ∷ d) key plan e)

module _ (texts : Texts) where
  -- A prepared plan is what `plan_steps` gives, whatever the model would say now.
  prepared_plan :
      (p : AgentPlanner) (moment : Moment) (prompt : String) (plan : AgentTaskPlan)
      → get p.prepared (cache_key texts p (clean_text texts prompt)) ≡ some plan
      → (plan_steps texts p moment prompt).0 ≡ plan
  unfolding plan_steps
  prepared_plan p moment prompt plan e = rw (e, plan_steps) refl

  same_key :
      (p p' : AgentPlanner) (text : String)
      → p'.context_version ≡ p.context_version
      → cache_key texts p' text ≡ cache_key texts p text
  unfolding cache_key
  same_key p p' text e = rw e refl

  kept-plan_steps :
      (p : AgentPlanner) (prompt : String) (x : AgentTaskPlan × AgentPlanner) (moment : Moment)
      → x.1.context_version ≡ p.context_version
      → let (handles, p') = kept (cache_key texts p (clean_text texts prompt)) x in
        (handles ≡ has_steps x.0) × ((plan_steps texts p' moment prompt).0 ≡ x.0)
  unfolding kept
  kept-plan_steps p prompt (plan, p') moment same =
      let key = cache_key texts p (clean_text texts prompt) in
      let p'' = (kept key (plan, p')).1 in
      (
        refl,
        prepared_plan p'' moment prompt plan (
            ap (λ k. get p''.prepared k) (same_key p p'' (clean_text texts prompt) same)
            ∙ shorten_keeps (remove p'.prepared key) key plan (get-remove_self p'.prepared key)),
      )

  can_handle-new :
      (p : AgentPlanner) (moment : Moment) (prompt : String)
      → is_truthy (clean_text texts prompt) ≡ true
      → get p.prepared (cache_key texts p (clean_text texts prompt)) ≡ none
      → (can_handle texts p moment prompt
          ≡ kept
              (cache_key texts p (clean_text texts prompt))
              (built texts p moment (clean_text texts prompt)))
        × ((plan_steps texts p moment prompt).0
            ≡ (built texts p moment (clean_text texts prompt)).0)
  unfolding can_handle plan_steps
  can_handle-new p moment prompt filled absent =
      (rw (filled, absent, can_handle) refl, rw (absent, plan_steps) refl)

  can_handle-prepared :
      (p : AgentPlanner) (moment : Moment) (prompt : String) (plan : AgentTaskPlan)
      → is_truthy (clean_text texts prompt) ≡ true
      → get p.prepared (cache_key texts p (clean_text texts prompt)) ≡ some plan
      → can_handle texts p moment prompt ≡ (has_steps plan, p)
  unfolding can_handle
  can_handle-prepared p moment prompt plan filled found = rw (filled, found, can_handle) refl

  -- What `can_handle` says of a prompt that is not empty is whether the plan has steps that
  -- `plan_steps` gives for the prompt afterwards; and this plan is the same at any later moment, also
  -- where the model would answer otherwise by then.
  pub plan_steps-can_handle :
      (p : AgentPlanner) (moment later : Moment) (prompt : String)
      → is_truthy (clean_text texts prompt) ≡ true
      → let (handles, p') = can_handle texts p moment prompt in
        let plan = (plan_steps texts p moment prompt).0 in
        (handles ≡ has_steps plan) × ((plan_steps texts p' later prompt).0 ≡ plan)
  unfolding purged
  plan_steps-can_handle p moment later prompt filled =
      elim (Option-cases (get p.prepared (cache_key texts p (clean_text texts prompt)))) [
        | inl absent ↦
            let (handled, now) = can_handle-new p moment prompt filled absent in
            rw (handled, now)
              (kept-plan_steps p prompt (built texts p moment (clean_text texts prompt)) later refl)
        | inr (plan, found) ↦
            rw
              (
                can_handle-prepared p moment prompt plan filled found,
                prepared_plan p moment prompt plan found,
              )
              (refl, prepared_plan p later prompt plan found)
      ]
