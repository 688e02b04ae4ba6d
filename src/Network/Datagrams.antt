-- ===== src/Network/Datagrams.antt =====
-- ron/network/protocol.py: the datagrams of the discovery, and the comparison of pairing tokens. What
-- `json` and `ipaddress` make of bytes and texts are arguments; so is the lower case of a text, which the
-- source takes by `str.lower`.
pub mod Bounded
mod Tests
use ron_personal_assistant.Prelude.{
  ℕ, String, count, Bool, true, false, ◌&&◌, ◌||◌, not, Option, none, some, List, [], ◌∷◌, ltb, leb,
  ◌==◌, if◌then◌else◌, length, take, is_truthy, strip, str_eq, Result, ok, err, ◌>>=◌, ◌>>◌,
}
use ron_personal_assistant.Prelude.Int.{ℤ, pos, negsuc}
use ron_personal_assistant.Prelude.Dict.{Dict, text_key, get}
use ron_personal_assistant.Network.Protocol.{Bytes, max_message_bytes}

-- A simple value, a float by its `repr`; `other` is null, or a value that is looked into no further.
pub data Simple : Type 0 where
  text : String → Simple
  whole : ℤ → Simple
  boolean : Bool → Simple
  floating : String → Simple
  other : Simple

-- A value of a message; of a list, the elements that are texts.
pub data Value : Type 0 where
  plain : Simple → Value
  texts : List (Option String) → Value
  object : Dict String Simple → Value

abbrev pub Message : Type 0
Message = Dict String Value

pub data DatagramError : Type 0 where
  bad_request_id too_large not_valid_json bad_size malformed_json not_an_object : DatagramError
  wrong_type wrong_version wrong_request not_text bad_length bad_address bad_port : DatagramError
  bad_capabilities bad_metadata : DatagramError

pub data Decoded : Type 0 where
  an_object : Message → Decoded
  another_value no_json : Decoded

-- What the standard library makes of bytes and texts.
pub record Codec : Type 0 where
  pub dumps : Message → Option Bytes
  pub loads : Bytes → Decoded
  pub lower : String → String
  -- `str(ipaddress.ip_address(…))`
  pub address : String → Option String

pub record DiscoveryReply : Type 0 where
  pub device_id : String
  pub friendly_name : String
  pub device_type : String
  pub ip_address : String
  pub port : ℕ
  pub capabilities : List String
  pub metadata : Dict String Simple

-- `message.get(key, default)`
abbrev pub found : Message → String → Value → Value
found message key missing = elim (get message key) [ none ↦ missing | some value ↦ value ]

-- `_bounded_string`
abbrev pub bounded_text : ℕ → String → Result DatagramError String
bounded_text maximum cleaned =
    if not (is_truthy cleaned) || ltb maximum (count cleaned) then err bad_length else ok cleaned

unfoldable pub bounded_string : ℕ → Value → Result DatagramError String
bounded_string maximum (plain (text value)) = bounded_text maximum (strip value)
bounded_string maximum _ = err not_text

-- The port, a whole number from 1 to 65535.
unfoldable pub port_of : Option Value → Result DatagramError ℕ
port_of (some (plain (whole (pos port)))) =
    if leb 1 port && leb port 65535 then ok port else err bad_port
port_of _ = err bad_port

-- The values that a device may say of itself: of the first sixteen, those of a simple kind.
abbrev is_simple : Simple → Bool
is_simple (text _) = true
is_simple (whole _) = true
is_simple (boolean _) = true
is_simple (floating _) = true
is_simple other = false

unfoldable pub simple_items : Dict String Simple → Dict String Simple
simple_items [] = []
simple_items ((key, value) ∷ items) =
    let rest = simple_items items in
    if leb (count key) 80 && is_simple value then (key, value) ∷ rest else rest

unfoldable pub metadata_of : Value → Result DatagramError (Dict String Simple)
unfolding simple_items
metadata_of (object items) = ok (simple_items (take 16 items))
metadata_of _ = err bad_metadata

abbrev pub is_text : String → Option Value → Bool
is_text expected (some (plain (text value))) = str_eq value expected
is_text expected _ = false

-- `message.get("protocol") != PROTOCOL_VERSION`; Python counts `True` and 1.0 as 1.
abbrev pub is_version : Option Value → Bool
is_version (some (plain (whole (pos n)))) = n == 1
is_version (some (plain (boolean b))) = b
is_version (some (plain (floating repr))) = str_eq repr "1.0"
is_version _ = false

abbrev pub is_expected : Option String → Option Value → Bool
is_expected none given = true
is_expected (some expected) given = is_text expected given

abbrev pub require : Bool → DatagramError → Result DatagramError (Unit {0})
require true e = ok tt
require false e = err e

abbrev pub given_address : Option String → Result DatagramError String
given_address none = err bad_address
given_address (some address) = ok address

module _ (codec : Codec) where
  -- `encode_message` without its newline
  unfoldable pub encode_datagram : Message → Result DatagramError Bytes
  encode_datagram message = elim (codec.dumps message) [
    | none ↦ err not_valid_json
    | some payload ↦ if ltb max_message_bytes (length payload) then err too_large else ok payload
  ]

  -- `build_discovery_request`
  unfoldable pub build_discovery_request : String → Result DatagramError Bytes
  unfolding encode_datagram
  build_discovery_request request_id =
      if not (is_truthy request_id) || ltb 80 (count request_id)
      then err bad_request_id
      else encode_datagram (
          ("type", plain (text "ron_discover"))
          ∷ ("protocol", plain (whole (pos 1)))
          ∷ ("request_id", plain (text request_id))
          ∷ ("requester", plain (text "ron-brain"))
          ∷ [])

  -- `decode_datagram`
  unfoldable pub decode_datagram : Bytes → Result DatagramError Message
  decode_datagram payload =
      if length payload == 0 || ltb max_message_bytes (length payload)
      then err bad_size
      else elim (codec.loads payload) [
        | no_json ↦ err malformed_json
        | another_value ↦ err not_an_object
        | an_object message ↦ ok message
      ]

  abbrev pub lowered : Result DatagramError String → Result DatagramError String
  lowered value = do cleaned ← value; ok (codec.lower cleaned)

  -- The texts of the capabilities; the source makes a set of them.
  unfoldable pub capability_texts : List (Option String) → Result DatagramError (List String)
  unfolding bounded_string
  capability_texts [] = ok []
  capability_texts (none ∷ values) = err not_text
  capability_texts (some value ∷ values) = do
    capability ← lowered (bounded_string 80 (plain (text value)))
    rest ← capability_texts values
    ok (capability ∷ rest)

  unfoldable pub capabilities_of : Value → Result DatagramError (List String)
  unfolding capability_texts
  capabilities_of (texts values) =
      if ltb 32 (length values) then err bad_capabilities else capability_texts values
  capabilities_of _ = err bad_capabilities

  -- `parse_discovery_reply`, of a message
  unfoldable pub parse_message :
      Message → String → Option String → Result DatagramError DiscoveryReply
  unfolding bounded_string port_of capabilities_of metadata_of
  parse_message message source_ip expected = do
    require (is_text "ron_device" (get message "type")) wrong_type
    require (is_version (get message "protocol")) wrong_version
    require (is_expected expected (get message "request_id")) wrong_request
    device_id ← lowered (bounded_string 80 (found message "device_id" (plain other)))
    friendly_name ← bounded_string 120 (found message "friendly_name" (plain (text device_id)))
    device_type ← lowered (bounded_string 60 (found message "device_type" (plain (text "unknown"))))
    address ← given_address (codec.address source_ip)
    port ← port_of (get message "port")
    capabilities ← capabilities_of (found message "capabilities" (texts []))
    metadata ← metadata_of (found message "metadata" (object []))
    ok (record {
      device_id = device_id;
      friendly_name = friendly_name;
      device_type = device_type;
      ip_address = address;
      port = port;
      capabilities = capabilities;
      metadata = metadata;
    })

  -- `parse_discovery_reply`
  unfoldable pub parse_discovery_reply :
      Bytes → String → Option String → Result DatagramError DiscoveryReply
  unfolding decode_datagram parse_message
  parse_discovery_reply payload source_ip expected = do
    message ← decode_datagram payload
    parse_message message source_ip expected

-- `pairing_tokens_match`, of two texts
unfoldable pub pairing_tokens_match : String → String → Bool
pairing_tokens_match expected presented =
    if ltb (count expected) 32 || ltb (count presented) 32 then false else str_eq expected presented
