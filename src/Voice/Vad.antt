-- ===== src/Voice/Vad.antt =====
-- ron/voice/vad.py: `SileroEndpointDetector`. The voice-activity detector of sherpa-onnx is an argument.
pub mod Feeding
mod Tests
use ron_personal_assistant.Prelude.{
  ℕ, zero, suc, Bool, false, not, Option, none, some, List, [], ◌∷◌, ◌++◌, leb, ◌==◌, if◌then◌else◌,
  take, drop, length, Result, ok, err,
}

-- The methods of `sherpa_onnx.VoiceActivityDetector` on its states; it may lack `reset`.
pub record VoiceActivityDetector {ℓ} (V A : Type ℓ) : Type ℓ where
  pub accept_waveform : V → List A → V
  pub is_speech_detected : V → Bool
  pub empty : V → Bool
  pub front : V → List A
  pub pop : V → V
  pub resetter : Option (V → V)

pub record SileroEndpointDetector {ℓ} (V A : Type ℓ) : Type ℓ where
  pub vad : Option V
  pub window_size : ℕ
  pub pending : List A

pub data VadModelError : Type 0 where
  model_missing not_loaded could_not_start : VadModelError
  -- the `VoiceDependencyError`
  library_missing : VadModelError

-- What `load` meets: no model file, no library, a failure of the library before or after the window
-- size is known, or a detector with its window size.
pub data Loading {ℓ} (V : Type ℓ) : Type ℓ where
  no_file no_library : Loading V
  fails : Option ℕ → Loading V
  starts : V → ℕ → Loading V

module _ {ℓ} {V A : Type ℓ} (detector : VoiceActivityDetector V A) where
  -- `__init__`
  abbrev pub new_detector : SileroEndpointDetector V A
  new_detector = record { vad = none; window_size = 512; pending = [] }

  -- `load`, with what it raises.
  unfoldable pub load :
      SileroEndpointDetector V A → Loading V → Option VadModelError × SileroEndpointDetector V A
  load s no_file = (some model_missing, s)
  load s no_library = (some library_missing, s)
  load s (fails none) = (some could_not_start, s)
  load s (fails (some window_size)) = (some could_not_start, record s { window_size = window_size })
  load s (starts vad window_size) = (none, record s { vad = some vad; window_size = window_size })

  unfoldable pub speech_detected : SileroEndpointDetector V A → Bool
  speech_detected s = elim s.vad [ none ↦ false | some vad ↦ detector.is_speech_detected vad ]

  -- The first loop of `feed`, within a number of tests of its condition.
  unfoldable pub accept_windows : ℕ → ℕ → V → List A → Option (V × List A)
  accept_windows zero size vad pending = none
  accept_windows (suc fuel) size vad pending =
      let rest =
        accept_windows fuel size (detector.accept_waveform vad (take size pending))
          (drop size pending) in
      if leb size (length pending) then rest else some (vad, pending)

  abbrev pub completed : List A → Option (List (List A) × V) → Option (List (List A) × V)
  completed segment none = none
  completed segment (some (segments, vad)) =
      some (if length segment == 0 then segments else segment ∷ segments, vad)

  -- The second loop of `feed`.
  unfoldable pub take_segments : ℕ → V → Option (List (List A) × V)
  take_segments zero vad = none
  take_segments (suc fuel) vad =
      let rest = take_segments fuel (detector.pop vad) in
      if not (detector.empty vad) then completed (detector.front vad) rest else some ([], vad)

  abbrev pub Fed : Type ℓ
  Fed = Result VadModelError (List (List A)) × SileroEndpointDetector V A

  abbrev pub with_segments :
      SileroEndpointDetector V A → List A → Option (List (List A) × V) → Option Fed
  with_segments s pending none = none
  with_segments s pending (some (segments, vad)) =
      some (ok segments, record s { vad = some vad; pending = pending })

  abbrev pub then_segments : ℕ → SileroEndpointDetector V A → Option (V × List A) → Option Fed
  then_segments fuel s none = none
  then_segments fuel s (some (vad, pending)) = with_segments s pending (take_segments fuel vad)

  -- `feed`, within so many tests of the two loops' conditions; `none` if they do not end.
  unfoldable pub feed : ℕ → ℕ → SileroEndpointDetector V A → List A → Option Fed
  feed fuel fuel' s samples = elim s.vad [
    | none ↦ some (err not_loaded, s)
    | some vad ↦
        then_segments fuel' s (accept_windows fuel s.window_size vad (s.pending ++ samples))
  ]

  abbrev pub reset_by : Option (V → V) → Option V → Option V
  reset_by none vad = vad
  reset_by (some resetter) none = none
  reset_by (some resetter) (some vad) = some (resetter vad)

  unfoldable pub reset : SileroEndpointDetector V A → SileroEndpointDetector V A
  reset s = record s { pending = []; vad = reset_by detector.resetter s.vad }
