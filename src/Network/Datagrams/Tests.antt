-- ===== src/Network/Datagrams/Tests.antt =====
-- A reply of a tablet: a test, and the witness of the theorem on the datagrams of
-- ron/network/protocol.py.
use ron_personal_assistant.Prelude.{◌≡◌, refl, true, none, some, [], ◌∷◌, strip, is_space, ok}
use ron_personal_assistant.Prelude.Int.{pos}
use ron_personal_assistant.Prelude.Dict.{text_key, get}
use ron_personal_assistant.Network.Protocol.{Bytes}
use ron_personal_assistant.Network.Datagrams.{
  text, whole, boolean, other, plain, texts, object, Message, Codec, an_object, DiscoveryReply,
  decode_datagram, parse_message, parse_discovery_reply, bounded_string, port_of, capabilities_of,
  capability_texts, metadata_of, simple_items,
}
use ron_personal_assistant.Network.Datagrams.Bounded.{IsBounded, parse_discovery_reply-IsBounded}

abbrev message : Message
message =
    ("type", plain (text "ron_device"))
    ∷ ("protocol", plain (whole (pos 1)))
    ∷ ("device_id", plain (text " tablet "))
    ∷ ("port", plain (whole (pos 8765)))
    ∷ ("capabilities", texts (some "face" ∷ []))
    ∷ ("metadata", object (("secure", boolean true) ∷ ("nothing", other) ∷ []))
    ∷ []

abbrev codec : Codec
codec = record {
  dumps = λ message. none;
  loads = λ payload. an_object message;
  lower = λ text. text;
  address = λ source_ip. some source_ip;
}

abbrev payload : Bytes
payload = 1 ∷ []

abbrev tablet : DiscoveryReply
tablet = record {
  device_id = "tablet";
  friendly_name = "tablet";
  device_type = "unknown";
  ip_address = "10.0.0.7";
  port = 8765;
  capabilities = "face" ∷ [];
  metadata = ("secure", boolean true) ∷ [];
}

parses : parse_discovery_reply codec payload "10.0.0.7" none ≡ ok tablet
unfolding parse_discovery_reply decode_datagram parse_message bounded_string port_of capabilities_of
    capability_texts metadata_of simple_items get strip is_space
parses = refl

parse_discovery_reply-IsBounded_example : IsBounded codec tablet
parse_discovery_reply-IsBounded_example =
    parse_discovery_reply-IsBounded codec payload "10.0.0.7" none tablet parses
