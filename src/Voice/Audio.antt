-- ===== src/Voice/Audio.antt =====
-- ron/voice/audio.py: `SampleRingBuffer`.
pub mod Buffer
mod Tests
use ron_personal_assistant.Prelude.{
  ℕ, ◌+◌, ◌-◌, Option, none, some, List, [], ◌∷◌, ◌++◌, ltb, leb, ◌==◌, if◌then◌else◌, drop, length,
}

-- `values[-n:]`, where `-0` is 0.
abbrev pub from_end {ℓ} : {A : Type ℓ} → ℕ → List A → List A
from_end n xs = if n == 0 then xs else drop (length xs - n) xs

pub record SampleRingBuffer {ℓ} (A : Type ℓ) : Type ℓ where
  pub maximum_samples : ℕ
  pub chunks : List (List A)
  pub sample_count : ℕ

module _ {ℓ} {A : Type ℓ} where
  -- `__init__`; `none` is its `ValueError`.
  unfoldable pub new_buffer : ℕ → Option (SampleRingBuffer A)
  new_buffer maximum =
      if ltb maximum 1
      then none
      else some (record { maximum_samples = maximum; chunks = []; sample_count = 0 })

  -- The loop of `append`. After the last branch the count is the maximum, so the loop ends.
  unfoldable pub shrink : ℕ → List (List A) → ℕ → List (List A) × ℕ
  shrink maximum [] count = ([], count)
  shrink maximum (first ∷ rest) count =
      let excess = count - maximum in
      let shorter = shrink maximum rest (count - length first) in
      if leb count maximum
      then (first ∷ rest, count)
      else if leb (length first) excess
      then shorter
      else (drop excess first ∷ rest, count - excess)

  abbrev pub with_chunks : SampleRingBuffer A → List (List A) × ℕ → SampleRingBuffer A
  with_chunks s (chunks, count) = record s { chunks = chunks; sample_count = count }

  unfoldable pub append : SampleRingBuffer A → List A → SampleRingBuffer A
  append s chunk =
      if length chunk == 0
      then s
      else if leb s.maximum_samples (length chunk)
      then record s {
        chunks = from_end s.maximum_samples chunk ∷ [];
        sample_count = s.maximum_samples;
      }
      else with_chunks s
          (shrink s.maximum_samples (s.chunks ++ chunk ∷ []) (s.sample_count + length chunk))

  unfoldable pub joined : List (List A) → List A
  joined [] = []
  joined (chunk ∷ chunks) = chunk ++ joined chunks

  unfoldable pub snapshot : SampleRingBuffer A → Option ℕ → List A
  unfolding joined
  snapshot s none = joined s.chunks
  snapshot s (some maximum) =
      let result = joined s.chunks in
      if ltb maximum (length result) then from_end maximum result else result

  unfoldable pub clear : SampleRingBuffer A → SampleRingBuffer A
  clear s = record s { chunks = []; sample_count = 0 }
