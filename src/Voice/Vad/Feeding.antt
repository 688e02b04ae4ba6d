-- ===== src/Voice/Vad/Feeding.antt =====
-- The loops of `feed` in ron/voice/vad.py end, and what they make of a stream of samples.
use ron_personal_assistant.Prelude.{
  ℕ, zero, suc, ◌≤◌, ◌<◌, ◌≡◌, refl, ap, ◌∙◌, Bool, true, false, not, some, List, [], ◌∷◌, ◌++◌,
  All, arith, leb, ◌==◌, if◌then◌else◌, keep, take, drop, length, inl, inr, Bool-cases, ok,
}
use ron_personal_assistant.Prelude.Drop.{length-drop}
use ron_personal_assistant.Voice.Vad.{
  VoiceActivityDetector, SileroEndpointDetector, accept_windows, take_segments, feed,
}

module _ {ℓ} {A : Type ℓ} where
  abbrev pub whole : List (List A) → List A → List A
  whole [] rest = rest
  whole (window ∷ windows) rest = window ++ whole windows rest

  abbrev pub is_nonempty : List A → Bool
  is_nonempty segment = not (length segment == 0)

  take-drop : (n : ℕ) (xs : List A) → xs ≡ take n xs ++ drop n xs
  take-drop zero xs = refl
  take-drop (suc n) [] = refl
  take-drop (suc n) (x ∷ xs) = ap (λ t. x ∷ t) (take-drop n xs)

  length-take : (n : ℕ) (xs : List A) → n ≤ length xs → length (take n xs) ≡ n
  length-take zero xs h = refl
  length-take (suc n) [] h = omega (arith, h)
  length-take (suc n) (x ∷ xs) h = omega (arith, length-take n xs (omega (arith, h)))

  swap_branches :
      (xs ys : List (List A)) (b : Bool) → (if b then xs else ys) ≡ (if not b then ys else xs)
  swap_branches xs ys true = refl
  swap_branches xs ys false = refl

module _ {ℓ} {V A : Type ℓ} (detector : VoiceActivityDetector V A) where
  -- What the library promises of its queue of segments: it is a queue.
  pub record IsQueue (queue : V → List (List A)) : Type ℓ where
    pub empties : (v : V) → queue v ≡ [] → detector.empty v ≡ true
    pub fills :
        (v : V) (segment : List A) (segments : List (List A))
        → queue v ≡ segment ∷ segments
        → (detector.empty v ≡ false)
          × (detector.front v ≡ segment)
          × (queue (detector.pop v) ≡ segments)

  -- The detector after some windows.
  abbrev pub accepted : V → List (List A) → V
  accepted v [] = v
  accepted v (window ∷ windows) = accepted (detector.accept_waveform v window) windows

  -- The first loop ends within so many tests: the stream was cut into windows of the size and a
  -- shorter rest, and the detector has taken the windows.
  pub record Cuts (fuel size : ℕ) (v : V) (stream : List A) : Type ℓ where
    pub windows : List (List A)
    pub rest : List A
    pub ends : accept_windows detector fuel size v stream ≡ some (accepted v windows, rest)
    pub sized : All (λ window. length window ≡ size) windows
    pub same : stream ≡ whole windows rest
    pub short : length rest < size

  accept_windows_end :
      (fuel size : ℕ) (v : V) (stream : List A)
      → 1 ≤ size
      → length stream < fuel
      → Cuts fuel size v stream
  unfolding accept_windows
  accept_windows_end zero size v stream positive h = absurd (omega (arith, h))
  accept_windows_end (suc fuel) size v stream positive h =
      elim (Bool-cases (leb size (length stream))) [
        | inl long ↦
            let next = detector.accept_waveform v (take size stream) in
            let fewer : length (drop size stream) < fuel =
              ground (arith, length-drop size stream) in
            let cut = accept_windows_end fuel size next (drop size stream) positive fewer in
            record {
              windows = take size stream ∷ cut.windows;
              rest = cut.rest;
              ends = rw long cut.ends;
              sized = (length-take size stream (ground arith), cut.sized);
              same = take-drop size stream ∙ ap (λ t. take size stream ++ t) cut.same;
              short = cut.short;
            }
        | inr short ↦ record {
          windows = [];
          rest = stream;
          ends = rw short refl;
          sized = tt;
          same = refl;
          short = ground arith;
        }
      ]

  module _ (queue : V → List (List A)) (law : IsQueue queue) where
    -- The second loop of `feed` takes what is queued, and ends.
    take_segments_end :
        (fuel : ℕ) (v : V) (segments : List (List A))
        → queue v ≡ segments
        → length segments < fuel
        → (v' : V) × (take_segments detector fuel v ≡ some (keep is_nonempty segments, v'))
          × (queue v' ≡ [])
    unfolding take_segments
    take_segments_end zero v segments e h = absurd (omega (arith, h))
    take_segments_end (suc fuel) v [] e h = (v, rw (law.empties v e) refl, e)
    take_segments_end (suc fuel) v (segment ∷ segments) e h =
        let (filled, first, others) = law.fills v segment segments e in
        let (v', taken, emptied) =
          take_segments_end fuel (detector.pop v) segments others (omega (arith, h)) in
        (
          v',
          rw (filled, first, taken)
              (ap (λ t. some (t, v')) (swap_branches _ _ (length segment == 0))),
          emptied,
        )

    -- Where a detector is loaded with a positive window size, both loops of `feed` end, and these
    -- numbers of tests of their conditions are enough: what was pending and the new samples are cut
    -- into windows of the size, which the detector takes in order, and a shorter rest, which is pending
    -- now; the segments that the detector has completed by then are returned but for empty ones, and
    -- its queue is empty.
    pub feed_ends :
        (s : SileroEndpointDetector V A) (samples : List A) (v : V)
        → s.vad ≡ some v
        → 1 ≤ s.window_size
        → (windows : List (List A)) × (rest : List A) × (v' : V) × (let segments =
              queue (accepted v windows) in
            (s.pending ++ samples ≡ whole windows rest)
            × All (λ window. length window ≡ s.window_size) windows
            × (length rest < s.window_size)
            × (queue v' ≡ [])
            × (feed detector (suc (length (s.pending ++ samples))) (suc (length segments)) s samples
                ≡ some
                    (ok (keep is_nonempty segments), record s { vad = some v'; pending = rest })))
    unfolding feed
    feed_ends s samples v e positive =
        let cut =
          accept_windows_end (suc (length (s.pending ++ samples))) s.window_size v
            (s.pending ++ samples) positive (omega arith) in
        let vad = accepted v cut.windows in
        let (v', taken, emptied) =
          take_segments_end (suc (length (queue vad))) vad (queue vad) refl (omega arith) in
        (
          cut.windows,
          cut.rest,
          v',
          (cut.same, cut.sized, cut.short, emptied, rw (e, cut.ends, taken, feed) refl),
        )
