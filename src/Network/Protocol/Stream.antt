-- ===== src/Network/Protocol/Stream.antt =====
-- The decoder of ron/network/protocol.py against the stream: how it is cut makes no difference.
use ron_personal_assistant.Prelude.{
  ℕ, ◌≡◌, refl, sym, ap, ◌∙◌, inl, inr, Bool, true, false, ◌&&◌, ◌||◌, not, List, [], ◌∷◌, ◌++◌,
  arith, ltb, ◌==◌, if◌then◌else◌, Bool-cases, length, Result, ok, err,
}
use ron_personal_assistant.Network.Protocol.{
  Bytes, max_message_bytes, newline, ProtocolError, too_large, unterminated, malformed_json,
  not_an_object, Loaded, an_object, another_value, no_json, Json, has_newline, with_message,
  end_line, drain, feed,
}

append_assoc : (xs ys zs : Bytes) → (xs ++ ys) ++ zs ≡ xs ++ (ys ++ zs)
append_assoc [] ys zs = refl
append_assoc (x ∷ xs) ys zs = ap (λ l. x ∷ l) (append_assoc xs ys zs)

append-nil : (xs : Bytes) → xs ++ [] ≡ xs
append-nil [] = refl
append-nil (x ∷ xs) = ap (λ l. x ∷ l) (append-nil xs)

module _ {Message : Type 0} (json : Json Message) where
  -- Messages before those that follow.
  abbrev pub after :
      List Message
      → Result ProtocolError (List Message) × Bytes
      → Result ProtocolError (List Message) × Bytes
  after messages (ok more, buffer) = (ok (messages ++ more), buffer)
  after messages (err e, buffer) = (err e, buffer)

  pub drain-quiet :
      (raw xs : Bytes) → has_newline xs ≡ false → drain json raw xs ≡ (ok [], raw ++ xs)
  unfolding drain has_newline
  drain-quiet raw [] h = ap (λ b. (ok [], b)) (sym (append-nil raw))
  drain-quiet raw (x ∷ xs) h =
      let other : (x == newline) ≡ false = ground arith in
      rw other (
        drain-quiet (raw ++ x ∷ []) xs (ground arith)
        ∙ ap (λ b. (ok [], b)) (append_assoc raw (x ∷ []) xs))

  -- Reading on from where a part of the stream ended, or failed.
  abbrev pub onward :
      Result ProtocolError (List Message) × Bytes
      → Bytes
      → Result ProtocolError (List Message) × Bytes
  onward (ok messages, buffer) ys = after messages (drain json buffer ys)
  onward (err e, buffer) ys = (err e, buffer ++ ys)

  after-nil : (r : Result ProtocolError (List Message) × Bytes) → after [] r ≡ r
  after-nil (ok more, buffer) = refl
  after-nil (err e, buffer) = refl

  with_message-after :
      (message : Message) (ms : List Message) (r : Result ProtocolError (List Message) × Bytes)
      → with_message json message (after ms r) ≡ after (message ∷ ms) r
  with_message-after message ms (ok more, buffer) = refl
  with_message-after message ms (err e, buffer) = refl

  with_message-onward :
      (message : Message) (r : Result ProtocolError (List Message) × Bytes) (ys : Bytes)
      → with_message json message (onward r ys) ≡ onward (with_message json message r) ys
  with_message-onward message (ok ms, buffer) ys =
      with_message-after message ms (drain json buffer ys)
  with_message-onward message (err e, buffer) ys = refl

  end_line-onward :
      (raw rest ys : Bytes) (r : Result ProtocolError (List Message) × Bytes)
      → end_line json raw (rest ++ ys) (onward r ys) ≡ onward (end_line json raw rest r) ys
  unfolding end_line
  end_line-onward [] rest ys r = refl
  end_line-onward (x ∷ raw) rest ys r =
      go (ltb max_message_bytes (length (x ∷ raw))) (json.loads (x ∷ raw))
    where
      go :
          (b : Bool) (l : Loaded Message)
          → (if b
              then (err too_large, rest ++ ys)
              else elim l as (λ x. Result ProtocolError (List Message) × Bytes) [
                | no_json ↦ (err malformed_json, rest ++ ys)
                | another_value ↦ (err not_an_object, rest ++ ys)
                | an_object message ↦ with_message json message (onward r ys)
              ])
            ≡ onward
                (if b
                  then (err too_large, rest)
                  else elim l as (λ x. Result ProtocolError (List Message) × Bytes) [
                    | no_json ↦ (err malformed_json, rest)
                    | another_value ↦ (err not_an_object, rest)
                    | an_object message ↦ with_message json message r
                  ])
                ys
      go true l = refl
      go false no_json = refl
      go false another_value = refl
      go false (an_object message) = with_message-onward message r ys

  pub drain-append : (raw xs ys : Bytes) → drain json raw (xs ++ ys) ≡ onward (drain json raw xs) ys
  unfolding drain
  drain-append raw [] ys = sym (after-nil (drain json raw ys))
  drain-append raw (x ∷ xs) ys = elim (Bool-cases (x == newline)) [
    | inl ends ↦ rw ends (
        ap (end_line json raw (xs ++ ys)) (drain-append [] xs ys)
        ∙ end_line-onward raw xs ys (drain json [] xs))
    | inr other ↦ rw other (drain-append (raw ++ x ∷ []) xs ys)
  ]

  -- The buffer between two calls holds no newline.
  after-nothing : (s d : Bytes) → has_newline s ≡ false → drain json [] (s ++ d) ≡ drain json s d
  after-nothing s d quiet =
      drain-append [] s d
      ∙ ap (λ r. onward r d) (drain-quiet [] s quiet)
      ∙ after-nil (drain json s d)

  pub has_newline-append :
      (xs ys : Bytes) → has_newline (xs ++ ys) ≡ (has_newline xs || has_newline ys)
  unfolding has_newline
  has_newline-append [] ys = refl
  has_newline-append (x ∷ xs) ys = ground (arith, has_newline-append xs ys)

  -- A result without an error leaves a buffer without a newline.
  abbrev IsQuiet : Result ProtocolError (List Message) × Bytes → Type 0
  IsQuiet (ok _, buffer) = has_newline buffer ≡ false
  IsQuiet (err _, buffer) = Unit

  with_message-IsQuiet :
      (message : Message) (r : Result ProtocolError (List Message) × Bytes)
      → IsQuiet r
      → IsQuiet (with_message json message r)
  with_message-IsQuiet message (ok ms, buffer) q = q
  with_message-IsQuiet message (err e, buffer) q = tt

  end_line-IsQuiet :
      (raw rest : Bytes) (r : Result ProtocolError (List Message) × Bytes)
      → IsQuiet r
      → IsQuiet (end_line json raw rest r)
  unfolding end_line
  end_line-IsQuiet [] rest r q = q
  end_line-IsQuiet (x ∷ raw) rest r q =
      go (ltb max_message_bytes (length (x ∷ raw))) (json.loads (x ∷ raw))
    where
      go :
          (b : Bool) (l : Loaded Message)
          → IsQuiet (
              if b
              then (err too_large, rest)
              else elim l as (λ x. Result ProtocolError (List Message) × Bytes) [
                | no_json ↦ (err malformed_json, rest)
                | another_value ↦ (err not_an_object, rest)
                | an_object message ↦ with_message json message r
              ])
      go true l = tt
      go false no_json = tt
      go false another_value = tt
      go false (an_object message) = with_message-IsQuiet message r q

  drain-IsQuiet : (raw xs : Bytes) → has_newline raw ≡ false → IsQuiet (drain json raw xs)
  unfolding drain
  drain-IsQuiet raw [] q = q
  drain-IsQuiet raw (x ∷ xs) q = elim (Bool-cases (x == newline)) [
    | inl ends ↦
        rw ends (end_line-IsQuiet raw xs _ (drain-IsQuiet [] xs (unfold has_newline in refl)))
    | inr other ↦ rw other (
        drain-IsQuiet (raw ++ x ∷ []) xs
          (has_newline-append raw (x ∷ []) ∙ (unfold has_newline in ground (arith, q, other))))
  ]

  abbrev is_overflow : Bytes → Bool
  is_overflow buffer = ltb max_message_bytes (length buffer) && not (has_newline buffer)

  feed_ok :
      (s : Bytes) (x : ℕ) (d : Bytes) {ms : List Message} {b : Bytes}
      → feed json s (x ∷ d) ≡ (ok ms, b)
      → (is_overflow (s ++ x ∷ d) ≡ false) × (drain json [] (s ++ x ∷ d) ≡ (ok ms, b))
  unfolding feed
  feed_ok s x d {ms} {b} e = go (is_overflow (s ++ x ∷ d)) e
    where
      go :
          (o : Bool)
          → (if o then (err unterminated, []) else drain json [] (s ++ x ∷ d)) ≡ (ok ms, b)
          → (o ≡ false) × (drain json [] (s ++ x ∷ d) ≡ (ok ms, b))
      go true h = absurd (ground arith)
      go false h = (refl, h)

  feed_fits :
      (s : Bytes) (x : ℕ) (d : Bytes)
      → is_overflow (s ++ x ∷ d) ≡ false
      → feed json s (x ∷ d) ≡ drain json [] (s ++ x ∷ d)
  unfolding feed
  feed_fits s x d fits = rw fits refl

  no_overflow :
      (s : Bytes) (x : ℕ) (d : Bytes) (y : ℕ) (d' b : Bytes) {ms : List Message}
      → is_overflow (b ++ y ∷ d') ≡ false
      → drain json [] (s ++ x ∷ d) ≡ (ok ms, b)
      → is_overflow (s ++ x ∷ (d ++ y ∷ d')) ≡ false
  no_overflow s x d y d' b {ms} fits first = elim (Bool-cases (has_newline (s ++ x ∷ d))) [
    | inl some_line ↦
        let whole : has_newline (s ++ x ∷ (d ++ y ∷ d')) ≡ true =
          ap has_newline (sym (append_assoc s (x ∷ d) (y ∷ d')))
          ∙ (has_newline-append (s ++ x ∷ d) (y ∷ d') ∙ ground (arith, some_line)) in
        ground (arith, whole)
    | inr quiet ↦
        let same : (ok [], s ++ x ∷ d) ≡ (ok ms, b) =
          sym (drain-quiet [] (s ++ x ∷ d) quiet) ∙ first in
        let left : s ++ x ∷ d ≡ b = ap (λ r. r.1) same in
        ap is_overflow (sym (append_assoc s (x ∷ d) (y ∷ d')) ∙ ap (λ l. l ++ y ∷ d') left) ∙ fits
  ]

  -- The two pieces of a stream as one.
  joined :
      (s : Bytes) (x : ℕ) (d : Bytes) (y : ℕ) (d' : Bytes) {ms ms' : List Message} {b b' : Bytes}
      → feed json s (x ∷ d) ≡ (ok ms, b)
      → feed json b (y ∷ d') ≡ (ok ms', b')
      → feed json s (x ∷ (d ++ y ∷ d')) ≡ (ok (ms ++ ms'), b')
  joined s x d y d' {ms} {ms'} {b} {b'} e e' =
      let (fits, first) = feed_ok s x d e in
      let (fits', second) = feed_ok b y d' e' in
      let quiet : has_newline b ≡ false =
        rw first at (drain-IsQuiet [] (s ++ x ∷ d) (unfold has_newline in refl)) in
      let assoc = append_assoc s (x ∷ d) (y ∷ d') in
      let drained : drain json [] (s ++ x ∷ (d ++ y ∷ d')) ≡ (ok (ms ++ ms'), b') =
        ap (drain json []) (sym assoc)
        ∙ (drain-append [] (s ++ x ∷ d) (y ∷ d')
            ∙ (ap (λ r. onward r (y ∷ d')) first
                ∙ ap (after ms) (sym (after-nothing b (y ∷ d') quiet) ∙ second))) in
      feed_fits s x (d ++ y ∷ d') (no_overflow s x d y d' b fits' first) ∙ drained

  append-nil_messages : (ms : List Message) → ms ++ [] ≡ ms
  append-nil_messages [] = refl
  append-nil_messages (m ∷ ms) = ap (λ l. m ∷ l) (append-nil_messages ms)

  -- Two pieces of a stream that the decoder takes one after the other without an error give the same
  -- messages in the same order, and leave the same buffer, as when they arrive in one piece.
  pub feed-append :
      (s d d' : Bytes) {ms ms' : List Message} {b b' : Bytes}
      → feed json s d ≡ (ok ms, b)
      → feed json b d' ≡ (ok ms', b')
      → feed json s (d ++ d') ≡ (ok (ms ++ ms'), b')
  unfolding feed
  feed-append s [] d' {ms} {ms'} {b} {b'} e e' =
      let no_message : [] ≡ ms = ground (arith, e) in
      let same : s ≡ b = ap (λ r. r.1) e in
      ap (λ z. feed json z d') same ∙ (e' ∙ ap (λ l. (ok (l ++ ms'), b')) no_message)
  feed-append s (x ∷ d) [] {ms} {ms'} {b} {b'} e e' =
      ap (feed json s) (append-nil (x ∷ d))
      ∙ (e ∙ (ap (λ l. (ok l, b)) (sym (append-nil_messages ms)) ∙ ap (after ms) e'))
  feed-append s (x ∷ d) (y ∷ d') e e' = joined s x d y d' e e'
