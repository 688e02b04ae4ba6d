-- ===== src/Agent/Registry/Admission.antt =====
-- `_validate_arguments` and `register` of ron/agent/registry.py: what reaches a handler, and that a
-- registered tool is never replaced.
use ron_personal_assistant.Prelude.{
  String, ◌≡◌, ◌⊎◌, refl, inl, inr, true, false, Option, none, some, List, [], ◌∷◌, arith,
  if◌then◌else◌, f_string, str_eq, All, Bool-cases, Option-cases, Result-cases, ok, err,
}
use ron_personal_assistant.Prelude.Dict.{text_key, get, put, get-put, contains}
use ron_personal_assistant.Agent.Models.{ToolArgument, Value, Arguments, validate}
use ron_personal_assistant.Agent.Models.Validation.{IsAdmissible, validate-IsAdmissible}
use ron_personal_assistant.Agent.Registry.{
  ToolSpec, ToolRegistry, register, unknown_argument, validated_value, validated_values,
  validate_arguments, with_value,
}

abbrev pub Declared : Type 0
Declared = List (String × ToolArgument)

-- One validated value for each declared argument that was given, in the order of declaration; one
-- that was not given need not be.
abbrev pub IsAdmitted : Declared → Arguments → Arguments → Type 0
IsAdmitted [] given vs = vs ≡ []
IsAdmitted ((name, argument) ∷ declared) given vs =
    ((get given name ≡ none) × (argument.required ≡ false) × IsAdmitted declared given vs)
    ⊎ ((v : Value) × (w : Value) × (rest : Arguments) × (get given name ≡ some v)
        × (vs ≡ (name, w) ∷ rest)
        × IsAdmissible argument.kind argument w
        × IsAdmitted declared given rest)

unknown_argument-none :
    (declared : Declared) (given : Arguments)
    → unknown_argument declared given ≡ none
    → All (λ entry. contains declared entry.0 ≡ true) given
unfolding unknown_argument
unknown_argument-none declared [] h = tt
unknown_argument-none declared ((name, value) ∷ given) h =
    elim (Bool-cases (contains declared name)) [
      | inl known ↦ (known, unknown_argument-none declared given (rw known at h))
      | inr unknown ↦ (unfold unknown_argument in ground arith)
    ]

-- A list that validation builds, by what it did with the first declared argument.
validated_values-cons :
    (name : String) (argument : ToolArgument) (declared : Declared) (given : Arguments)
    {vs : Arguments}
    → validated_values ((name, argument) ∷ declared) given ≡ ok vs
    → (o : Option Value) × (rest : Arguments) × (validated_value name argument (get given name)
        ≡ ok o)
      × (validated_values declared given ≡ ok rest)
      × (vs ≡ with_value name o rest)
unfolding validated_values
validated_values-cons name argument declared given h =
    elim (Result-cases (validated_value name argument (get given name))) [
      | inl (o, first) ↦ elim (Result-cases (validated_values declared given)) [
        | inl (rest, others) ↦ (o, rest, first, others, ground arith)
        | inr (e, failed) ↦ absurd (ground arith)
      ]
      | inr (e, failed) ↦ absurd (ground arith)
    ]

validated_value-cases :
    (name : String) (argument : ToolArgument) (given : Option Value) {o : Option Value}
    → validated_value name argument given ≡ ok o
    → ((given ≡ none) × (argument.required ≡ false) × (o ≡ none))
      ⊎ ((v : Value) × (w : Value) × (given ≡ some v)
          × (o ≡ some w)
          × IsAdmissible argument.kind argument w)
unfolding validated_value
validated_value-cases name argument none h = ground arith
validated_value-cases name argument (some v) h = elim (Result-cases (validate argument name v)) [
  | inl (w, valid) ↦ inr (v, w, refl, ground arith, validate-IsAdmissible argument name v valid)
  | inr (e, invalid) ↦ absurd (ground arith)
]

validated_values-IsAdmitted :
    (declared : Declared) (given : Arguments) {vs : Arguments}
    → validated_values declared given ≡ ok vs
    → IsAdmitted declared given vs
validated_values-IsAdmitted [] given h = unfold validated_values in ground arith
validated_values-IsAdmitted ((name, argument) ∷ declared) given h =
    let (o, rest, first, others, built) = validated_values-cons name argument declared given h in
    let admitted = validated_values-IsAdmitted declared given others in
    elim (validated_value-cases name argument (get given name) first) [
      | inl (absent, free, nothing) ↦ inl (absent, free, rw (built, nothing) admitted)
      | inr (v, w, present, value, admissible) ↦
          inr (v, w, rest, present, rw (built, value), admissible, admitted)
    ]

-- Arguments that are accepted name declared arguments only; and what the handler gets is one
-- admissible value for each declared argument that was given, in the order of declaration, where
-- every argument left out need not be given.
pub validate_arguments-IsAdmitted :
    (tool : ToolSpec) (given : Arguments) {vs : Arguments}
    → validate_arguments tool given ≡ ok vs
    → All (λ entry. contains tool.arguments entry.0 ≡ true) given
      × IsAdmitted tool.arguments given vs
unfolding validate_arguments
validate_arguments-IsAdmitted tool given h =
    elim (Option-cases (unknown_argument tool.arguments given)) [
      | inl all_known ↦ (
        unknown_argument-none tool.arguments given all_known,
        validated_values-IsAdmitted tool.arguments given (rw (all_known, validate_arguments) at h),
      )
      | inr (name, unknown) ↦ absurd (ground arith)
    ]

-- Registering a tool is refused exactly when its name is taken; otherwise the name finds that tool
-- and every other name what it found before.
pub register_lem :
    (tools : ToolRegistry) (tool : ToolSpec)
    → ((contains tools tool.name ≡ true) × ((e : String) × (register tools tool ≡ err e)))
      ⊎ ((contains tools tool.name ≡ false)
          × ((tools' : ToolRegistry) × (register tools tool ≡ ok tools')
              × ((j : String)
                  → get tools' j ≡ (if str_eq tool.name j then some tool else get tools j))))
unfolding register
register_lem tools tool = elim (Bool-cases (contains tools tool.name)) [
  | inl taken ↦
      inl (taken, (f_string ("Tool '" ∷ tool.name ∷ "' is already registered" ∷ []), rw taken))
  | inr free ↦ inr (free, (put tools tool.name tool, rw free, λ j. get-put tools tool.name j tool))
]
