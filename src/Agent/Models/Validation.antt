-- ===== src/Agent/Models/Validation.antt =====
-- What `ToolArgument.validate` of ron/agent/models.py lets through.
use ron_personal_assistant.Prelude.{
  ℕ, ◌≤◌, String, count, ◌≡◌, true, false, Option, none, some, arith, is_truthy, mem_text, ok,
}
use ron_personal_assistant.Prelude.Int.{ℤ, ◌≤ℤ◌}
use ron_personal_assistant.Agent.Models.{
  ToolArgumentKind, enum, integer, ToolArgument, Value, whole, has_control, validate, validate_kind,
  validate_enum, validate_integer, validate_text,
}

abbrev pub AtLeast : Option ℤ → ℤ → Type 0
AtLeast none z = Unit
AtLeast (some minimum) z = minimum ≤ℤ z

abbrev pub AtMost : Option ℤ → ℤ → Type 0
AtMost none z = Unit
AtMost (some maximum) z = z ≤ℤ maximum

abbrev pub NoShorter : Option ℕ → ℕ → Type 0
NoShorter none n = Unit
NoShorter (some minimum) n = minimum ≤ n

abbrev pub NoLonger : Option ℕ → ℕ → Type 0
NoLonger none n = Unit
NoLonger (some maximum) n = n ≤ maximum

-- What a tool may be handed for an argument.
abbrev pub IsAdmissible : ToolArgumentKind → ToolArgument → Value → Type 0
IsAdmissible enum argument w =
    (s : String) × (w ≡ Value.text s) × (mem_text s argument.choices ≡ true)
IsAdmissible integer argument w =
    (z : ℤ) × (w ≡ whole z) × AtLeast argument.minimum z × AtMost argument.maximum z
IsAdmissible ToolArgumentKind.text argument w =
    (s : String) × (w ≡ Value.text s)
    × (is_truthy s ≡ true)
    × NoShorter argument.minimum_length (count s)
    × NoLonger argument.maximum_length (count s)
    × (has_control s ≡ false)

module _ (argument : ToolArgument) (name : String) where
  validate_enum-IsAdmissible :
      (v : Value) {w : Value} → validate_enum argument name v ≡ ok w → IsAdmissible enum argument w
  unfolding validate_enum
  validate_enum-IsAdmissible (Value.text s) e = ground arith
  validate_enum-IsAdmissible _ e = cc

  validate_integer-IsAdmissible :
      (v : Value) {w : Value}
      → validate_integer argument name v ≡ ok w
      → IsAdmissible integer argument w
  unfolding validate_integer
  validate_integer-IsAdmissible (whole z) e = (z, ground arith, ground arith, ground arith)
  validate_integer-IsAdmissible _ e = cc

  validate_text-IsAdmissible :
      (v : Value) {w : Value}
      → validate_text argument name v ≡ ok w
      → IsAdmissible ToolArgumentKind.text argument w
  unfolding validate_text
  validate_text-IsAdmissible (Value.text s) e = ground arith
  validate_text-IsAdmissible _ e = cc

  validate_kind-IsAdmissible :
      (kind : ToolArgumentKind) (v : Value) {w : Value}
      → validate_kind kind argument name v ≡ ok w
      → IsAdmissible kind argument w
  unfolding validate_kind
  validate_kind-IsAdmissible enum v e = validate_enum-IsAdmissible v e
  validate_kind-IsAdmissible integer v e = validate_integer-IsAdmissible v e
  validate_kind-IsAdmissible ToolArgumentKind.text v e = validate_text-IsAdmissible v e

  -- An accepted value is admissible for the argument's kind: a text among the choices, an integer
  -- within both bounds, or a text that is not empty, has a length within both bounds and holds no
  -- control character that the check names.
  pub validate-IsAdmissible :
      (v : Value) {w : Value}
      → validate argument name v ≡ ok w
      → IsAdmissible argument.kind argument w
  validate-IsAdmissible v e =
      validate_kind-IsAdmissible argument.kind v
        (unfold validate validate_kind validate_enum validate_integer validate_text in e)
