-- ===== src/Network/Protocol/RoundTrip.antt =====
-- `encode_message` of ron/network/protocol.py against the decoder.
use ron_personal_assistant.Prelude.{
  ◌≤◌, ◌≡◌, refl, ◌∙◌, inl, inr, true, false, Option, none, some, List, [], ◌∷◌, ◌++◌, arith, ltb,
  if◌then◌else◌, Bool-cases, length, Result, Result-cases, ok, err, ◌>>=◌,
}
use ron_personal_assistant.Network.Protocol.{
  Bytes, max_message_bytes, newline, ProtocolError, too_large, not_valid_json, an_object, Json,
  has_newline, encode_message, end_line, drain, feed,
}
use ron_personal_assistant.Network.Protocol.Stream.{
  drain-append, drain-quiet, has_newline-append, feed-append,
}

-- What is used of `json`: a text that `dumps` writes is not empty, has no newline, and is read back by
-- `loads` as the same object.
pub record IsFaithful {Message : Type 0} (json : Json Message) : Type 0 where
  pub not_empty : (m : Message) (b : Bytes) → json.dumps m ≡ some b → 1 ≤ length b
  pub one_line : (m : Message) (b : Bytes) → json.dumps m ≡ some b → has_newline b ≡ false
  pub reads_back : (m : Message) (b : Bytes) → json.dumps m ≡ some b → json.loads b ≡ an_object m

module _ {Message : Type 0} (json : Json Message) (faithful : IsFaithful json) where
  encode_message_lem :
      (m : Message) {bytes : Bytes}
      → encode_message json m ≡ ok bytes
      → (payload : Bytes) × (json.dumps m ≡ some payload)
        × (ltb max_message_bytes (length payload) ≡ false)
        × (payload ++ newline ∷ [] ≡ bytes)
  unfolding encode_message
  encode_message_lem m {bytes} e = go (json.dumps m) refl e
    where
      go :
          (o : Option Bytes)
          → json.dumps m ≡ o
          → (elim o as (λ x. Result ProtocolError Bytes) [
            | none ↦ err not_valid_json
            | some payload ↦
                if ltb max_message_bytes (length payload)
                then err too_large
                else ok (payload ++ newline ∷ [])
          ])
            ≡ ok bytes
          → (payload : Bytes) × (json.dumps m ≡ some payload)
            × (ltb max_message_bytes (length payload) ≡ false)
            × (payload ++ newline ∷ [] ≡ bytes)
      go none d h = absurd (ground arith)
      go (some payload) d h = elim (Bool-cases (ltb max_message_bytes (length payload))) [
        | inl big ↦ absurd (ground (arith, big, h))
        | inr fits ↦ (payload, d, fits, ground (arith, fits, h))
      ]

  line :
      (m : Message) (payload : Bytes)
      → ltb max_message_bytes (length payload) ≡ false
      → 1 ≤ length payload
      → json.loads payload ≡ an_object m
      → drain json payload (newline ∷ []) ≡ (ok (m ∷ []), [])
  unfolding drain end_line
  line m [] fits some_byte reads = absurd (ground arith)
  line m (x ∷ payload) fits some_byte reads = rw (fits, end_line) (rw (reads, end_line) refl)

  drain_line :
      (m : Message) (payload : Bytes)
      → has_newline payload ≡ false
      → drain json payload (newline ∷ []) ≡ (ok (m ∷ []), [])
      → drain json [] (payload ++ newline ∷ []) ≡ (ok (m ∷ []), [])
  drain_line m payload quiet last =
      drain-append json [] payload (newline ∷ [])
      ∙ (rw (drain-quiet json [] payload quiet) (rw last refl))

  feed_line :
      (payload : Bytes) (r : Result ProtocolError (List Message) × Bytes)
      → drain json [] (payload ++ newline ∷ []) ≡ r
      → feed json [] (payload ++ newline ∷ []) ≡ r
  unfolding feed
  feed_line [] r e = e
  feed_line (x ∷ payload) r e =
      let ends : has_newline ((x ∷ payload) ++ newline ∷ []) ≡ true =
        has_newline-append json (x ∷ payload) (newline ∷ [])
        ∙ (unfold has_newline in ground arith) in
      ground (arith, ends, e)

  feed-encode_message :
      (m : Message) {bytes : Bytes}
      → encode_message json m ≡ ok bytes
      → feed json [] bytes ≡ (ok (m ∷ []), [])
  feed-encode_message m {bytes} e =
      let (payload, d, fits, same) = encode_message_lem m e in
      rw⁻¹ same (
        feed_line payload _ (
          drain_line m payload (faithful.one_line m payload d) (
            line m payload fits (faithful.not_empty m payload d)
              (faithful.reads_back m payload d))))

  -- The bytes of several messages, one after the other.
  unfoldable pub encode_all : List Message → Result ProtocolError Bytes
  encode_all [] = ok []
  encode_all (m ∷ ms) =
      let rest = encode_all ms in do bytes ← encode_message json m; more ← rest; ok (bytes ++ more)

  -- What one side sends, the other side reads: if all messages can be encoded, a decoder that is fed
  -- the stream of their bytes gives exactly these messages, in order, and leaves nothing behind.
  pub feed-encode_all :
      (ms : List Message) {stream : Bytes}
      → encode_all ms ≡ ok stream
      → feed json [] stream ≡ (ok ms, [])
  unfolding encode_all
  feed-encode_all [] {stream} e =
      let empty : [] ≡ stream = ground arith in rw⁻¹ empty (unfold feed in refl)
  feed-encode_all (m ∷ ms) {stream} e = elim (Result-cases (encode_message json m)) [
    | inr (error, failed) ↦ absurd (ground (arith, failed, e))
    | inl (bytes, first) ↦ elim (Result-cases (encode_all ms)) [
      | inr (error, failed) ↦ absurd (ground (arith, first, failed, e))
      | inl (more, others) ↦
          let whole : bytes ++ more ≡ stream = ground (arith, first, others, e) in
          rw⁻¹ whole (
            feed-append json [] bytes more (feed-encode_message m first)
              (feed-encode_all ms others))
    ]
  ]
