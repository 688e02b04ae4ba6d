-- ===== src/Network/Protocol.antt =====
-- ron/network/protocol.py: messages as lines of JSON, and the decoder that rebuilds them from a stream.
-- `json` and the text encoding are an argument: what `dumps` writes and what `loads` reads.
pub mod Stream
pub mod RoundTrip
mod Tests
use ron_personal_assistant.Prelude.{
  ℕ, Bool, true, false, ◌&&◌, ◌||◌, not, Option, none, some, List, [], ◌∷◌, ◌++◌, ltb, ◌==◌,
  if◌then◌else◌, length, Result, ok, err,
}

abbrev pub Bytes : Type 0
Bytes = List ℕ

-- `MAX_MESSAGE_BYTES`
abbrev pub max_message_bytes : ℕ
max_message_bytes = 8192

-- the byte of "\n"
abbrev pub newline : ℕ
newline = 10

pub data ProtocolError : Type 0 where
  not_valid_json too_large unterminated malformed_json not_an_object : ProtocolError

-- What `json.loads` makes of a text.
pub data Loaded (Message : Type 0) : Type 0 where
  an_object : Message → Loaded Message
  another_value : Loaded Message
  no_json : Loaded Message

pub record Json (Message : Type 0) : Type 0 where
  pub dumps : Message → Option Bytes
  pub loads : Bytes → Loaded Message

unfoldable pub has_newline : Bytes → Bool
has_newline [] = false
has_newline (x ∷ xs) = x == newline || has_newline xs

module _ {Message : Type 0} (json : Json Message) where
  -- `encode_message`
  unfoldable pub encode_message : Message → Result ProtocolError Bytes
  encode_message message = elim (json.dumps message) [
    | none ↦ err not_valid_json
    | some payload ↦
        if ltb max_message_bytes (length payload)
        then err too_large
        else ok (payload ++ newline ∷ [])
  ]

  -- A message before those that follow; an error loses them all.
  abbrev pub with_message :
      Message
      → Result ProtocolError (List Message) × Bytes
      → Result ProtocolError (List Message) × Bytes
  with_message message (ok messages, buffer) = (ok (message ∷ messages), buffer)
  with_message message (err e, buffer) = (err e, buffer)

  -- One line that ends, and what the lines after it give, from a buffer that starts after it.
  unfoldable pub end_line :
      Bytes
      → Bytes
      → Result ProtocolError (List Message) × Bytes
      → Result ProtocolError (List Message) × Bytes
  end_line [] after following = following
  end_line (x ∷ raw) after following =
      if ltb max_message_bytes (length (x ∷ raw))
      then (err too_large, after)
      else elim (json.loads (x ∷ raw)) [
        | no_json ↦ (err malformed_json, after)
        | another_value ↦ (err not_an_object, after)
        | an_object message ↦ with_message message following
      ]

  -- The `while` loop over the buffer: the bytes before the next newline, and those from there on. It
  -- gives the messages, or the error, and the buffer that is left.
  unfoldable pub drain : Bytes → Bytes → Result ProtocolError (List Message) × Bytes
  unfolding end_line
  drain raw [] = (ok [], raw)
  drain raw (x ∷ rest) =
      let following = drain [] rest in
      let further = drain (raw ++ x ∷ []) rest in
      if x == newline then end_line raw rest following else further

  -- `feed`
  unfoldable pub feed : Bytes → Bytes → Result ProtocolError (List Message) × Bytes
  feed buffer [] = (ok [], buffer)
  feed buffer (x ∷ data_fed) =
      if ltb max_message_bytes (length (buffer ++ x ∷ data_fed))
        && not (has_newline (buffer ++ x ∷ data_fed))
      then (err unterminated, [])
      else drain [] (buffer ++ x ∷ data_fed)
