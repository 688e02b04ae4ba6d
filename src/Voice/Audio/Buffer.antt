-- ===== src/Voice/Audio/Buffer.antt =====
-- The ring buffer of ron/voice/audio.py against what it promises: the latest samples, in order.
use ron_personal_assistant.Prelude.{
  ℕ, ◌+◌, ◌-◌, ◌≤◌, ◌≡◌, refl, sym, ap, ◌∙◌, false, none, some, List, [], ◌∷◌, ◌++◌, arith, ltb,
  leb, ◌==◌, drop, length, length-append, inl, inr, Bool-cases,
}
use ron_personal_assistant.Voice.Audio.{
  from_end, SampleRingBuffer, new_buffer, shrink, append, joined, snapshot, clear,
}
use ron_personal_assistant.Prelude.Drop.{
  append_nil, append_assoc, drop-append_le, drop-append_ge, length-drop, drop_nil, drop_none,
  latest, latest_all, latest-append, latest-latest, latest_shorter,
}

module _ {ℓ} {A : Type ℓ} where
  joined-append :
      (chunks : List (List A)) (chunk : List A)
      → joined (chunks ++ chunk ∷ []) ≡ joined chunks ++ chunk
  unfolding joined
  joined-append [] chunk = append_nil chunk
  joined-append (c ∷ chunks) chunk =
      ap (λ t. c ++ t) (joined-append chunks chunk) ∙ sym (append_assoc c (joined chunks) chunk)

  from_end-latest : (n : ℕ) (xs : List A) → 1 ≤ n → from_end n xs ≡ latest n xs
  from_end-latest n xs h = ground arith

  -- The count is the number of samples, and within the bound.
  pub record IsCounted (s : SampleRingBuffer A) : Type ℓ where
    pub positive : 1 ≤ s.maximum_samples
    pub counted : s.sample_count ≡ length (joined s.chunks)
    pub bounded : s.sample_count ≤ s.maximum_samples

  shrink_lem :
      (maximum : ℕ) (chunks : List (List A)) (count : ℕ)
      → count ≡ length (joined chunks)
      → let (chunks', count') = shrink maximum chunks count in
        (joined chunks' ≡ latest maximum (joined chunks))
        × (count' ≡ length (joined chunks'))
        × (count' ≤ maximum)
  unfolding shrink joined
  shrink_lem maximum [] count e = (ground arith, ground arith, ground arith)
  shrink_lem maximum (first ∷ rest) count e =
      let J = joined rest in
      let total = e ∙ length-append first J in
      elim (Bool-cases (leb count maximum)) [
        | inl fits ↦ rw fits (
          sym (drop_none (first ++ J) (length (first ++ J) - maximum) (ground arith)),
          e,
          ground arith,
        )
        | inr over ↦ elim (Bool-cases (leb (length first) (count - maximum))) [
          | inl whole ↦
              let (same, counted, bounded) =
                shrink_lem maximum rest (count - length first) (ground arith) in
              rw (over, whole)
                (
                  same
                      ∙ ap (λ n. drop n J) (ground arith)
                      ∙ sym (drop-append_ge (length (first ++ J) - maximum) first J (ground arith)),
                  counted,
                  bounded,
                )
          | inr part ↦
              rw (over, part)
                (
                  sym (drop-append_le (count - maximum) first J (ground arith))
                      ∙ ap (λ n. drop n (first ++ J)) (ground arith),
                  ground (
                    arith,
                    length-append (drop (count - maximum) first) J,
                    length-drop (count - maximum) first,
                  ),
                  ground arith,
                )
        ]
      ]

  -- What `append` leaves is what the buffer is to hold of its samples and the new ones.
  Keeps : SampleRingBuffer A → List A → SampleRingBuffer A → Type ℓ
  Keeps s chunk s' =
      (s'.maximum_samples ≡ s.maximum_samples)
      × (joined s'.chunks ≡ latest s.maximum_samples (joined s.chunks ++ chunk))
      × (s'.sample_count ≡ length (joined s'.chunks))
      × (s'.sample_count ≤ s.maximum_samples)

  append-Keeps :
      (s : SampleRingBuffer A) (chunk : List A) → IsCounted s → Keeps s chunk (append s chunk)
  unfolding append Keeps joined
  append-Keeps s [] h = (
    refl,
    sym (
        ap (λ t. latest s.maximum_samples t) (append_nil (joined s.chunks))
        ∙ latest_all s.maximum_samples (joined s.chunks) (omega (arith, h.counted, h.bounded))),
    h.counted,
    h.bounded,
  )
  append-Keeps s (x ∷ chunk) h =
      let filled : (length (x ∷ chunk) == 0) ≡ false = ground arith in
      elim (Bool-cases (leb s.maximum_samples (length (x ∷ chunk)))) [
        | inl long ↦
            let same =
              append_nil (from_end s.maximum_samples (x ∷ chunk))
              ∙ from_end-latest s.maximum_samples (x ∷ chunk) h.positive in
            rw (filled, long)
              (
                refl,
                same
                    ∙ sym (
                        latest-append s.maximum_samples (joined s.chunks) (x ∷ chunk)
                          (ground arith)),
                ground (
                  arith,
                  ap length same,
                  length-drop (length (x ∷ chunk) - s.maximum_samples) (x ∷ chunk),
                ),
                ground arith,
              )
        | inr short ↦
            let together = joined-append s.chunks (x ∷ chunk) in
            let (same, counted, bounded) =
              shrink_lem s.maximum_samples (s.chunks ++ (x ∷ chunk) ∷ [])
                (s.sample_count + length (x ∷ chunk))
                (omega (
                  arith,
                  h.counted,
                  ap length together,
                  length-append (joined s.chunks) (x ∷ chunk),
                )) in
            rw (filled, short)
              (refl, same ∙ ap (λ t. latest s.maximum_samples t) together, counted, bounded)
      ]

-- What happens to a buffer.
pub data Call {ℓ} (A : Type ℓ) : Type ℓ where
  appends : List A → Call A
  clears : Call A

module _ {ℓ} {A : Type ℓ} where
  unfoldable pub operate : SampleRingBuffer A → List (Call A) → SampleRingBuffer A
  operate s [] = s
  operate s (appends chunk ∷ rest) = operate (append s chunk) rest
  operate s (clears ∷ rest) = operate (clear s) rest

  -- All samples since the last `clear`, after those that are there already.
  unfoldable pub heard : List A → List (Call A) → List A
  heard before [] = before
  heard before (appends chunk ∷ rest) = heard (before ++ chunk) rest
  heard before (clears ∷ rest) = heard [] rest

  abbrev pub Holds : SampleRingBuffer A → List A → Type ℓ
  Holds s samples =
      (snapshot s none ≡ latest s.maximum_samples samples)
      × (s.sample_count ≡ length (snapshot s none))
      × (s.sample_count ≤ s.maximum_samples)

  append-Holds :
      (s : SampleRingBuffer A) (samples chunk : List A)
      → 1 ≤ s.maximum_samples
      → Holds s samples
      → (append s chunk).maximum_samples ≡ s.maximum_samples
        × Holds (append s chunk) (samples ++ chunk)
  unfolding snapshot Keeps
  append-Holds s samples chunk positive (same, counted, bounded) =
      let (kept, now, counted', bounded') =
        append-Keeps s chunk
          (record { positive = positive; counted = counted; bounded = bounded }) in
      let still = sym kept in
      (
        kept,
        (
          now
              ∙ ap (λ t. latest s.maximum_samples (t ++ chunk)) same
              ∙ latest-latest s.maximum_samples samples chunk
              ∙ ap (λ n. latest n (samples ++ chunk)) still,
          counted',
          omega (arith, kept, bounded'),
        ),
      )

  operate-Holds :
      (s : SampleRingBuffer A) (samples : List A) (calls : List (Call A))
      → 1 ≤ s.maximum_samples
      → Holds s samples
      → (operate s calls).maximum_samples ≡ s.maximum_samples
        × Holds (operate s calls) (heard samples calls)
  unfolding operate heard clear snapshot joined
  operate-Holds s samples [] positive h = (refl, h)
  operate-Holds s samples (appends chunk ∷ rest) positive h =
      let (kept, held) = append-Holds s samples chunk positive h in
      let (same, later) =
        operate-Holds (append s chunk) (samples ++ chunk) rest (omega (arith, kept, positive))
          held in
      (same ∙ kept, later)
  operate-Holds s samples (clears ∷ rest) positive h =
      operate-Holds (clear s) [] rest positive
        (sym (drop_nil (0 - s.maximum_samples)), refl, omega arith)

  snapshot_some :
      (s : SampleRingBuffer A) (n : ℕ) → 1 ≤ n → snapshot s (some n) ≡ latest n (snapshot s none)
  unfolding snapshot
  snapshot_some s n positive = elim (Bool-cases (ltb n (length (joined s.chunks)))) [
    | inl longer ↦ rw longer (from_end-latest n (joined s.chunks) positive)
    | inr all_of_it ↦ rw all_of_it (sym (latest_all n (joined s.chunks) (ground arith)))
  ]

  new_buffer_lem :
      (maximum : ℕ) (s : SampleRingBuffer A)
      → new_buffer maximum ≡ some s
      → (s.maximum_samples ≡ maximum) × (1 ≤ maximum) × Holds s []
  unfolding new_buffer snapshot joined
  new_buffer_lem maximum s e = (
    ground arith,
    ground arith,
    (
      ground (arith, drop_nil {A = A} (0 - maximum), drop_nil {A = A} (0 - s.maximum_samples)),
      ground arith,
      ground arith,
    ),
  )

  -- Whatever is appended to a new ring buffer, however it is cut into chunks, and whenever it is
  -- cleared: it holds the latest samples since, as many as its maximum if there are that many, and
  -- its count is their number, within the maximum; asked for some of them, it gives the last ones.
  pub buffer_holds_latest :
      (maximum : ℕ) (s : SampleRingBuffer A) (calls : List (Call A))
      → new_buffer maximum ≡ some s
      → let s' = operate s calls in
        (snapshot s' none ≡ latest maximum (heard [] calls))
        × (s'.sample_count ≡ length (snapshot s' none))
        × (s'.sample_count ≤ maximum)
        × ((n : ℕ) → 1 ≤ n → n ≤ maximum → snapshot s' (some n) ≡ latest n (heard [] calls))
  buffer_holds_latest maximum s calls e =
      let (same, positive, holds) = new_buffer_lem maximum s e in
      let (still, (held, counted, bounded)) =
        operate-Holds s [] calls (omega (arith, same, positive)) holds in
      let there = still ∙ same in
      let now = held ∙ ap (λ n. latest n (heard [] calls)) there in
      (
        now,
        counted,
        omega (arith, there, bounded),
        λ n h k.
            snapshot_some (operate s calls) n h
            ∙ ap (λ t. latest n t) now
            ∙ latest_shorter n maximum (heard [] calls) k,
      )
