-- ===== src/Voice/Audio/Tests.antt =====
-- A ring buffer of three samples: tests, and the witness of the theorem on ron/voice/audio.py.
use ron_personal_assistant.Prelude.{ℕ, ◌≤◌, ◌≡◌, refl, none, some, List, [], ◌∷◌, length}
use ron_personal_assistant.Prelude.Drop.{latest}
use ron_personal_assistant.Voice.Audio.{
  SampleRingBuffer, new_buffer, append, shrink, joined, snapshot,
}
use ron_personal_assistant.Voice.Audio.Buffer.{
  Call, appends, clears, operate, heard, buffer_holds_latest,
}

abbrev three : SampleRingBuffer ℕ
three = record { maximum_samples = 3; chunks = []; sample_count = 0 }

abbrev calls : List (Call ℕ)
calls =
    appends (9 ∷ 9 ∷ [])
    ∷ clears
    ∷ appends (1 ∷ 2 ∷ [])
    ∷ appends (3 ∷ [])
    ∷ appends (4 ∷ 5 ∷ [])
    ∷ []

-- The oldest chunk is cut, not dropped as a whole.
cuts_the_first :
    (append (append three (1 ∷ 2 ∷ [])) (3 ∷ 4 ∷ [])).chunks ≡ (2 ∷ []) ∷ (3 ∷ 4 ∷ []) ∷ []
unfolding append shrink
cuts_the_first = refl

-- None of the samples are asked for, and all are given.
no_samples : snapshot (append three (1 ∷ 2 ∷ [])) (some 0) ≡ 1 ∷ 2 ∷ []
unfolding append shrink snapshot joined
no_samples = refl

buffer_holds_latest_example :
    let s' = operate three calls in
    (snapshot s' none ≡ latest 3 (heard [] calls))
    × (s'.sample_count ≡ length (snapshot s' none))
    × (s'.sample_count ≤ 3)
    × ((n : ℕ) → 1 ≤ n → n ≤ 3 → snapshot s' (some n) ≡ latest n (heard [] calls))
buffer_holds_latest_example = buffer_holds_latest 3 three calls (unfold new_buffer in refl)

heard_example : latest 3 (heard [] calls) ≡ 3 ∷ 4 ∷ 5 ∷ []
unfolding heard
heard_example = refl
