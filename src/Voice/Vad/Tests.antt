-- ===== src/Voice/Vad/Tests.antt =====
-- A detector that makes every window a segment, and the witness of the theorem on ron/voice/vad.py.
use ron_personal_assistant.Prelude.{
  ℕ, ◌<◌, ◌≡◌, refl, suc, Bool, true, false, none, some, List, [], ◌∷◌, ◌++◌, All, arith, keep,
  length, ok,
}
use ron_personal_assistant.Voice.Vad.{VoiceActivityDetector, SileroEndpointDetector, feed}
use ron_personal_assistant.Voice.Vad.Feeding.{IsQueue, accepted, whole, is_nonempty, feed_ends}

-- Its state is the queue of its segments.
abbrev first_of : List (List ℕ) → List ℕ
first_of [] = []
first_of (segment ∷ segments) = segment

abbrev rest_of : List (List ℕ) → List (List ℕ)
rest_of [] = []
rest_of (segment ∷ segments) = segments

abbrev is_empty : List (List ℕ) → Bool
is_empty [] = true
is_empty (segment ∷ segments) = false

abbrev echo : VoiceActivityDetector (List (List ℕ)) ℕ
echo = record {
  accept_waveform = λ queue window. queue ++ window ∷ [];
  is_speech_detected = λ queue. false;
  empty = is_empty;
  front = first_of;
  pop = rest_of;
  resetter = none;
}

echo-IsQueue : IsQueue echo (λ queue. queue)
echo-IsQueue = record { empties = λ v e. rw e refl; fills = λ v x xs e. rw e (refl, refl, refl) }

abbrev loaded : SileroEndpointDetector (List (List ℕ)) ℕ
loaded = record { vad = some []; window_size = 2; pending = 7 ∷ [] }

feed_ends_example :
    (windows : List (List ℕ)) × (rest : List ℕ) × (v' : List (List ℕ)) × (let segments =
        accepted echo [] windows in
      (7 ∷ 1 ∷ 2 ∷ 3 ∷ 4 ∷ [] ≡ whole windows rest)
      × All (λ window. length window ≡ 2) windows
      × (length rest < 2)
      × (v' ≡ [])
      × (feed echo 6 (suc (length segments)) loaded (1 ∷ 2 ∷ 3 ∷ 4 ∷ [])
          ≡ some (ok (keep is_nonempty segments), record loaded { vad = some v'; pending = rest })))
feed_ends_example =
    feed_ends echo (λ queue. queue) echo-IsQueue loaded (1 ∷ 2 ∷ 3 ∷ 4 ∷ []) [] refl (omega arith)
