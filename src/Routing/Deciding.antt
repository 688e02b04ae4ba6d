-- ===== src/Routing/Deciding.antt =====
-- Why a prompt is routed to the agent, and that `route` of ron/routing.py decides every prompt.
use ron_personal_assistant.Prelude.{
  ℕ, String, count, ◌≡◌, ◌⊎◌, inl, inr, ◌≤◌, ◌<◌, refl, sym, Bool, true, false, ◌&&◌, not, Option,
  none, some, List, [], ◌∷◌, arith, leb, ltb, if◌then◌else◌, is_truthy, strip, all, subst,
  Bool-cases, Result, ok, err, ◌>>=◌, ◌∙◌,
}
use ron_personal_assistant.Routing.Rules.{
  RoutingRule, explanation_rules, external_state_rules, destructive_rules, direct_action_rules,
  obvious_chat_rules,
}
use ron_personal_assistant.Routing.{
  RouteDestination, chat, agent, RoutingDecision, RoutingError, empty_prompt, over_limit, decision,
  deterministic, Classified, unavailable, raised, no_label, labelled, Readings, PromptRouter,
  is_yes, decided, or_else, plain, first_match, looks_like_command, classified, resolved,
  ambiguous_or_chat, resolve, by_rules, route,
}

-- What `__post_init__` asks of a decision.
abbrev pub is_valid : RoutingDecision → Bool
is_valid d = leb d.confidence 100 && (is_truthy d.reason && leb (count d.reason) 240)

abbrev has_reason : RoutingRule → Bool
has_reason rule = is_truthy rule.reason && leb (count rule.reason) 240

tables_have_reasons :
    (all has_reason explanation_rules ≡ true)
    × (all has_reason external_state_rules ≡ true)
    × (all has_reason destructive_rules ≡ true)
    × (all has_reason direct_action_rules ≡ true)
    × (all has_reason obvious_chat_rules ≡ true)
tables_have_reasons = (refl, refl, refl, refl, refl)

decision-is_valid : (d : RoutingDecision) → is_valid d ≡ true → decision d ≡ ok d
unfolding decision
decision-is_valid d h = ground arith

-- The guards of `route`.
guarded_ok :
    (filled : Bool) (limit size : ℕ) (x : Result RoutingError RoutingDecision) (d : RoutingDecision)
    → (if not filled then err empty_prompt else if ltb limit size then err over_limit else x) ≡ ok d
    → x ≡ ok d
guarded_ok true limit size x d e = ground arith
guarded_ok false limit size x d e = cc

guards :
    (filled : Bool) (limit size : ℕ) (decides : Result RoutingError RoutingDecision)
    → let x : Result RoutingError RoutingDecision =
        if not filled
        then err empty_prompt
        else if ltb limit size
        then err over_limit
        else decides in
      (filled ≡ true → size ≤ limit → x ≡ decides)
      × ((error : RoutingError)
          → x ≡ err error
          → (filled ≡ false) ⊎ (limit < size) ⊎ (decides ≡ err error))
guards true limit size decides = (
  λ h k. ground arith,
  λ error e. elim (Bool-cases (ltb limit size)) [
    | inl over ↦ inr (inl (ground arith))
    | inr within ↦ inr (inr (rw within at e))
  ],
)
guards false limit size decides = (λ h k. cc, λ error e. inl refl)

or_else_lem :
    (P : Result RoutingError RoutingDecision → Type 0) (destination : RouteDestination)
    (confidence : ℕ) (o : Option RoutingRule) (other : Result RoutingError RoutingDecision)
    → ((rule : RoutingRule) → o ≡ some rule → P (ok (decided destination rule confidence)))
    → (o ≡ none → P other)
    → P (or_else o destination confidence other)
or_else_lem P destination confidence none other h k = k refl
or_else_lem P destination confidence (some rule) other h k = h rule refl

module _ (read : Readings) where
  first_match_has :
      (rules : List RoutingRule) (prompt : String) (rule : RoutingRule)
      → all has_reason rules ≡ true
      → first_match read rules prompt ≡ some rule
      → has_reason rule ≡ true
  unfolding first_match
  first_match_has [] prompt rule h e = cc
  first_match_has (r ∷ rules) prompt rule h e = ground (arith, first_match_has rules prompt rule)

  decided-is_valid :
      (destination : RouteDestination) (rule : RoutingRule) (confidence : ℕ)
      → leb confidence 100 ≡ true
      → has_reason rule ≡ true
      → is_valid (decided destination rule confidence) ≡ true
  decided-is_valid destination rule confidence h k = rw (h, k) refl

  -- A decision that the constructor accepts, or an exception of the classifier's client.
  abbrev pub IsDecided : String → String → Result RoutingError RoutingDecision → Type 0
  IsDecided clean_prompt t (ok d) = is_valid d ≡ true
  IsDecided clean_prompt t (err e) =
      (read.ambiguous t ≡ true) × (read.classifier clean_prompt ≡ raised)

  classified-IsDecided :
      (clean_prompt t : String) (c : Classified)
      → read.ambiguous t ≡ true
      → read.classifier clean_prompt ≡ c
      → IsDecided clean_prompt t (classified read clean_prompt c)
  classified-IsDecided clean_prompt t unavailable h e = refl
  classified-IsDecided clean_prompt t raised h e = (h, e)
  classified-IsDecided clean_prompt t no_label h e = refl
  classified-IsDecided clean_prompt t (labelled destination) h e = refl

  resolved-is_valid : (answer : Bool) → is_valid (resolved read answer) ≡ true
  resolved-is_valid true = refl
  resolved-is_valid false = refl

  otherwise-IsDecided :
      (clean_prompt t : String) → IsDecided clean_prompt t (ambiguous_or_chat read clean_prompt t)
  unfolding ambiguous_or_chat
  otherwise-IsDecided clean_prompt t = go (read.ambiguous t) refl
    where
      go :
          (b : Bool)
          → read.ambiguous t ≡ b
          → IsDecided clean_prompt t (
              if b
              then classified read clean_prompt (read.classifier clean_prompt)
              else ok (
                  plain chat 80 "No external action or live-state requirement was detected."
                    deterministic))
      go true e = classified-IsDecided clean_prompt t (read.classifier clean_prompt) e refl
      go false e = refl

  resolve-IsDecided :
      (clean_prompt t : String) (resolver : Option (String → Result String Bool))
      → IsDecided clean_prompt t (resolve read clean_prompt t resolver)
  unfolding resolve
  resolve-IsDecided clean_prompt t none = otherwise-IsDecided clean_prompt t
  resolve-IsDecided clean_prompt t (some resolver) = go (looks_like_command read t)
    where
      go :
          (b : Bool)
          → IsDecided clean_prompt t (
              if b
              then ok (resolved read (is_yes (resolver clean_prompt)))
              else ambiguous_or_chat read clean_prompt t)
      go true = resolved-is_valid (is_yes (resolver clean_prompt))
      go false = otherwise-IsDecided clean_prompt t

  -- A predicate of decisions that holds for what every table and the resolver decide.
  by_rules_cases :
      (P : Result RoutingError RoutingDecision → Type 0) (clean_prompt t : String)
      → ((rule : RoutingRule)
          → first_match read explanation_rules t ≡ some rule
          → P (ok (decided chat rule 98)))
      → ((rule : RoutingRule)
          → first_match read explanation_rules t ≡ none
          → (first_match read external_state_rules t ≡ some rule)
            ⊎ (first_match read destructive_rules t ≡ some rule)
            ⊎ (first_match read direct_action_rules t ≡ some rule)
          → P (ok (decided agent rule 98)))
      → ((rule : RoutingRule)
          → first_match read obvious_chat_rules t ≡ some rule
          → P (ok (decided chat rule 96)))
      → (first_match read explanation_rules t ≡ none
          → P (resolve read clean_prompt t read.action_resolver))
      → P (by_rules read clean_prompt t)
  unfolding by_rules
  by_rules_cases P clean_prompt t explains acts chats resolves =
      or_else_lem P chat 98 (first_match read explanation_rules t) _ explains (λ unexplained.
        or_else_lem P agent 98 (first_match read external_state_rules t) _
          (λ r e. acts r unexplained (inl e))
          (λ no_state.
            or_else_lem P agent 98 (first_match read destructive_rules t) _
              (λ r e. acts r unexplained (inr (inl e)))
              (λ harmless.
                or_else_lem P agent 98 (first_match read direct_action_rules t) _
                  (λ r e. acts r unexplained (inr (inr e)))
                  (λ no_action.
                    or_else_lem P chat 96 (first_match read obvious_chat_rules t) _ chats
                      (λ not_obvious. resolves unexplained)))))

  by_rules-IsDecided :
      (clean_prompt t : String) → IsDecided clean_prompt t (by_rules read clean_prompt t)
  by_rules-IsDecided clean_prompt t =
      let (explanation, external, destructive, direct, obvious) = tables_have_reasons in
      by_rules_cases (IsDecided clean_prompt t) clean_prompt t
        (λ r e.
          decided-is_valid chat r 98 refl (first_match_has explanation_rules t r explanation e))
        (λ r n o. decided-is_valid agent r 98 refl (elim o [
          | inl e ↦ first_match_has external_state_rules t r external e
          | inr (inl e) ↦ first_match_has destructive_rules t r destructive e
          | inr (inr e) ↦ first_match_has direct_action_rules t r direct e
        ]))
        (λ r e. decided-is_valid chat r 96 refl (first_match_has obvious_chat_rules t r obvious e))
        (λ n. resolve-IsDecided clean_prompt t read.action_resolver)

  accepted :
      (clean_prompt t : String) (x : Result RoutingError RoutingDecision)
      → IsDecided clean_prompt t x
      → (x >>= decision) ≡ x
  accepted clean_prompt t (ok d) h = decision-is_valid d h
  accepted clean_prompt t (err e) h = refl

  raised_by :
      (clean_prompt t : String) (x : Result RoutingError RoutingDecision) (error : RoutingError)
      → IsDecided clean_prompt t x
      → x ≡ err error
      → (read.ambiguous t ≡ true) × (read.classifier clean_prompt ≡ raised)
  raised_by clean_prompt t (ok d) error h e = cc
  raised_by clean_prompt t (err e) error h same = h

  -- `route` raises for an empty prompt, for one beyond the limit, and where an ambiguous prompt was
  -- given to the classifier's client and that raised something other than an `AIError`, and for
  -- nothing else: the constructor accepts every decision that the tables, the resolver or the
  -- classifier make.
  pub route_decides :
      (router : PromptRouter) (prompt : String)
      → let clean = strip prompt in
        let t = read.route_text clean in
        (is_truthy clean ≡ true
          → count clean ≤ router.max_prompt_characters
          → route read router prompt ≡ by_rules read clean t)
        × ((error : RoutingError)
            → route read router prompt ≡ err error
            → (is_truthy clean ≡ false)
              ⊎ (router.max_prompt_characters < count clean)
              ⊎ ((read.ambiguous t ≡ true) × (read.classifier clean ≡ raised)))
  unfolding route
  route_decides router prompt =
      let clean = strip prompt in
      let t = read.route_text clean in
      let h = by_rules-IsDecided clean t in
      let (fine, fails) =
        guards (is_truthy clean) router.max_prompt_characters (count clean)
          (by_rules read clean t >>= decision) in
      (
        λ filled within. fine filled within ∙ accepted clean t (by_rules read clean t) h,
        λ error e. elim (fails error e) [
          | inl empty ↦ inl empty
          | inr (inl over) ↦ inr (inl over)
          | inr (inr decides) ↦ inr (
              inr (
                raised_by clean t (by_rules read clean t) error h
                  (sym (accepted clean t (by_rules read clean t) h) ∙ decides)))
        ],
      )

  -- Why a prompt goes to the agent: a rule of an action table, the resolver, or the classifier.
  abbrev pub IsAsked : String → String → Type 0
  IsAsked clean_prompt t =
      ((rule : RoutingRule) × ((first_match read external_state_rules t ≡ some rule)
          ⊎ (first_match read destructive_rules t ≡ some rule)
          ⊎ (first_match read direct_action_rules t ≡ some rule)))
      ⊎ ((resolver : String → Result String Bool) × (read.action_resolver ≡ some resolver)
          × (looks_like_command read t ≡ true)
          × (resolver clean_prompt ≡ ok true))
      ⊎ ((read.ambiguous t ≡ true) × (read.classifier clean_prompt ≡ labelled agent))

  abbrev pub NeedsReason : String → String → Result RoutingError RoutingDecision → Type 0
  NeedsReason clean_prompt t (ok d) = d.destination ≡ agent → IsAsked clean_prompt t
  NeedsReason clean_prompt t (err e) = Unit

  classified_reason :
      (clean_prompt t : String) (c : Classified)
      → read.ambiguous t ≡ true
      → read.classifier clean_prompt ≡ c
      → NeedsReason clean_prompt t (classified read clean_prompt c)
  classified_reason clean_prompt t unavailable h e = λ k. cc
  classified_reason clean_prompt t raised h e = tt
  classified_reason clean_prompt t no_label h e = λ k. cc
  classified_reason clean_prompt t (labelled chat) h e = λ k. cc
  classified_reason clean_prompt t (labelled agent) h e = λ k. inr (inr (h, e))

  otherwise_reason :
      (clean_prompt t : String) → NeedsReason clean_prompt t (ambiguous_or_chat read clean_prompt t)
  unfolding ambiguous_or_chat
  otherwise_reason clean_prompt t = go (read.ambiguous t) refl
    where
      go :
          (b : Bool)
          → read.ambiguous t ≡ b
          → NeedsReason clean_prompt t (
              if b
              then classified read clean_prompt (read.classifier clean_prompt)
              else ok (
                  plain chat 80 "No external action or live-state requirement was detected."
                    deterministic))
      go true e = classified_reason clean_prompt t (read.classifier clean_prompt) e refl
      go false e = λ k. cc

  resolved_reason :
      (clean_prompt t : String) (resolver : String → Result String Bool)
      (answer : Result String Bool)
      → read.action_resolver ≡ some resolver
      → looks_like_command read t ≡ true
      → resolver clean_prompt ≡ answer
      → NeedsReason clean_prompt t (ok (resolved read (is_yes answer)))
  resolved_reason clean_prompt t resolver (ok true) e c a k = inr (inl (resolver, e, c, a))
  resolved_reason clean_prompt t resolver (ok false) e c a k = cc
  resolved_reason clean_prompt t resolver (err error) e c a k = cc

  resolve_reason :
      (clean_prompt t : String) (resolver : Option (String → Result String Bool))
      → read.action_resolver ≡ resolver
      → NeedsReason clean_prompt t (resolve read clean_prompt t resolver)
  unfolding resolve
  resolve_reason clean_prompt t none e = otherwise_reason clean_prompt t
  resolve_reason clean_prompt t (some resolver) e = go (looks_like_command read t) refl
    where
      go :
          (b : Bool)
          → looks_like_command read t ≡ b
          → NeedsReason clean_prompt t (
              if b
              then ok (resolved read (is_yes (resolver clean_prompt)))
              else ambiguous_or_chat read clean_prompt t)
      go true c = resolved_reason clean_prompt t resolver (resolver clean_prompt) e c refl
      go false c = otherwise_reason clean_prompt t

  abbrev pub Unexplained : String → String → Result RoutingError RoutingDecision → Type 0
  Unexplained clean_prompt t (ok d) =
      d.destination ≡ agent → (first_match read explanation_rules t ≡ none) × IsAsked clean_prompt t
  Unexplained clean_prompt t (err e) = Unit

  Unexplained-of :
      (clean_prompt t : String) (x : Result RoutingError RoutingDecision)
      → first_match read explanation_rules t ≡ none
      → NeedsReason clean_prompt t x
      → Unexplained clean_prompt t x
  Unexplained-of clean_prompt t (ok d) n h = λ k. (n, h k)
  Unexplained-of clean_prompt t (err e) n h = tt

  by_rules_reason :
      (clean_prompt t : String) → Unexplained clean_prompt t (by_rules read clean_prompt t)
  by_rules_reason clean_prompt t =
      by_rules_cases (Unexplained clean_prompt t) clean_prompt t (λ r e k. cc)
        (λ r n o k. (n, inl (r, o))) (λ r e k. cc)
        (λ n.
          Unexplained-of clean_prompt t _ n
            (resolve_reason clean_prompt t read.action_resolver refl))

  -- A prompt goes to the agent only if it asks for no explanation, and a rule of the three action
  -- tables matches it, or it looks like a command and the resolver knows an action for it, or it is
  -- ambiguous and the classifier's model has said AGENT: no failure of the resolver or of the model
  -- sends it there.
  pub agent_needs_reason :
      (router : PromptRouter) (prompt : String) (d : RoutingDecision)
      → route read router prompt ≡ ok d
      → d.destination ≡ agent
      → let t = read.route_text (strip prompt) in
        (first_match read explanation_rules t ≡ none) × IsAsked (strip prompt) t
  unfolding route
  agent_needs_reason router prompt d e =
      let clean = strip prompt in
      let t = read.route_text clean in
      let decides =
        guarded_ok (is_truthy clean) router.max_prompt_characters (count clean)
          (by_rules read clean t >>= decision) d e in
      let same : by_rules read clean t ≡ ok d =
        sym (accepted clean t (by_rules read clean t) (by_rules-IsDecided clean t)) ∙ decides in
      subst (Unexplained clean t) same (by_rules_reason clean t)
