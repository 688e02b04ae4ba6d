-- ===== src/Network/Datagrams/Bounded.antt =====
-- What ron/network/protocol.py lets through of a datagram from the network.
use ron_personal_assistant.Prelude.{
  ℕ, zero, suc, ◌≤◌, String, count, ◌≡◌, refl, true, Option, none, some, List, [], ◌∷◌, arith,
  length, take, is_truthy, strip, Result, ok, err, ◌>>=◌, subst,
}
use ron_personal_assistant.Prelude.Dict.{Dict, text_key, get}
use ron_personal_assistant.Network.Protocol.{Bytes}
use ron_personal_assistant.Network.Datagrams.{
  Simple, text, whole, boolean, floating, other, Value, plain, texts, object, Message, Codec,
  DiscoveryReply, found, bounded_text, bounded_string, port_of, simple_items, metadata_of, is_text,
  is_version, is_expected, require, given_address, lowered, capability_texts, capabilities_of,
  decode_datagram, parse_message, parse_discovery_reply, wrong_type, wrong_version, wrong_request,
}

bind_ok {ℓ κ} :
    {E : Type 0} {A : Type ℓ} {B : Type κ} (r : Result E A) (f : A → Result E B) (b : B)
    → (r >>= f) ≡ ok b
    → (a : A) × (r ≡ ok a) × (f a ≡ ok b)
bind_ok (ok a) f b e = (a, refl, e)
bind_ok (err x) f b e = cc

-- If a result is returned, it has the property.
abbrev pub Returns {ℓ} : {E : Type 0} {A : Type ℓ} → (A → Type 0) → Result E A → Type 0
Returns P (ok a) = P a
Returns P (err e) = Unit

bind-Returns {ℓ κ} :
    {E : Type 0} {A : Type ℓ} {B : Type κ} (P : B → Type 0) (r : Result E A) (f : A → Result E B)
    → ((a : A) → r ≡ ok a → Returns P (f a))
    → Returns P (r >>= f)
bind-Returns P (ok a) f h = h a refl
bind-Returns P (err e) f h = tt

returned {ℓ} :
    {E : Type 0} {A : Type ℓ} (P : A → Type 0) {r : Result E A} {a : A}
    → Returns P r
    → r ≡ ok a
    → P a
returned P h e = subst (Returns P) e h

abbrev IsText : ℕ → String → Type 0
IsText maximum value = (is_truthy value ≡ true) × (count value ≤ maximum)

bounded_text-IsText :
    (maximum : ℕ) (cleaned value : String)
    → bounded_text maximum cleaned ≡ ok value
    → IsText maximum value
bounded_text-IsText maximum cleaned value e = ground arith

bounded_string-IsText :
    (maximum : ℕ) (v : Value) (value : String)
    → bounded_string maximum v ≡ ok value
    → IsText maximum value
unfolding bounded_string
bounded_string-IsText maximum (plain (text s)) value e =
    bounded_text-IsText maximum (strip s) value e
bounded_string-IsText maximum (plain (whole n)) value e = cc
bounded_string-IsText maximum (plain (boolean b)) value e = cc
bounded_string-IsText maximum (plain (floating s)) value e = cc
bounded_string-IsText maximum (plain other) value e = cc
bounded_string-IsText maximum (texts xs) value e = cc
bounded_string-IsText maximum (object items) value e = cc

port_of-le : (o : Option Value) (port : ℕ) → port_of o ≡ ok port → (1 ≤ port) × (port ≤ 65535)
unfolding port_of
port_of-le o port e = ground arith

items-le : (items : Dict String Simple) → length (simple_items items) ≤ length items
unfolding simple_items
items-le [] = omega arith
items-le ((key, value) ∷ items) = ground (arith, items-le items)

take-le {ℓ} : {A : Type ℓ} (n : ℕ) (xs : List A) → length (take n xs) ≤ n
take-le zero xs = omega arith
take-le (suc n) [] = omega arith
take-le (suc n) (x ∷ xs) = omega (arith, take-le n xs)

metadata_of-le :
    (v : Value) (items : Dict String Simple) → metadata_of v ≡ ok items → length items ≤ 16
unfolding metadata_of
metadata_of-le (object given) items e =
    ground (arith, e, items-le (take 16 given), take-le 16 given)
metadata_of-le (plain s) items e = cc
metadata_of-le (texts xs) items e = cc

module _ (codec : Codec) where
  capability_texts-length :
      (values : List (Option String)) (capabilities : List String)
      → capability_texts codec values ≡ ok capabilities
      → length capabilities ≡ length values
  unfolding capability_texts
  capability_texts-length [] capabilities e = ground (arith, e)
  capability_texts-length (none ∷ values) capabilities e = cc
  capability_texts-length (some value ∷ values) capabilities e =
      let (capability, _, then_rest) =
        bind_ok (lowered codec (bounded_string 80 (plain (text value)))) _ capabilities e in
      let (rest, given, last) = bind_ok (capability_texts codec values) _ capabilities then_rest in
      ground (arith, last, capability_texts-length values rest given)

  capabilities_of-le :
      (v : Value) (capabilities : List String)
      → capabilities_of codec v ≡ ok capabilities
      → length capabilities ≤ 32
  unfolding capabilities_of
  capabilities_of-le (texts values) capabilities e =
      ground (arith, e, capability_texts-length values capabilities)
  capabilities_of-le (plain s) capabilities e = cc
  capabilities_of-le (object items) capabilities e = cc

  -- What a reply says is bounded.
  pub record IsBounded (reply : DiscoveryReply) : Type 0 where
    pub named_at_source :
        (cleaned : String) × (reply.device_id ≡ codec.lower cleaned) × IsText 80 cleaned
    pub friendly : IsText 120 reply.friendly_name
    pub typed : (cleaned : String) × (reply.device_type ≡ codec.lower cleaned) × IsText 60 cleaned
    pub ported : (1 ≤ reply.port) × (reply.port ≤ 65535)
    pub few_capabilities : length reply.capabilities ≤ 32
    pub few_items : length reply.metadata ≤ 16

  lowered-IsText :
      (maximum : ℕ) (v : Value) (value : String)
      → lowered codec (bounded_string maximum v) ≡ ok value
      → (cleaned : String) × (value ≡ codec.lower cleaned) × IsText maximum cleaned
  lowered-IsText maximum v value e =
      let (cleaned, bounded, same) = bind_ok (bounded_string maximum v) _ value e in
      (cleaned, ground (arith, same), bounded_string-IsText maximum v cleaned bounded)

  reply-IsBounded :
      (id_value friendly_value type_value : Value) (port_value : Option Value)
      (listed_value items_value : Value) (device_id friendly device_type address : String)
      (port : ℕ) (capabilities : List String) (metadata : Dict String Simple)
      → lowered codec (bounded_string 80 id_value) ≡ ok device_id
      → bounded_string 120 friendly_value ≡ ok friendly
      → lowered codec (bounded_string 60 type_value) ≡ ok device_type
      → port_of port_value ≡ ok port
      → capabilities_of codec listed_value ≡ ok capabilities
      → metadata_of items_value ≡ ok metadata
      → IsBounded (record {
        device_id = device_id;
        friendly_name = friendly;
        device_type = device_type;
        ip_address = address;
        port = port;
        capabilities = capabilities;
        metadata = metadata;
      })
  reply-IsBounded id_value friendly_value type_value port_value listed_value items_value device_id
        friendly device_type address port capabilities metadata a b c d e f =
      record {
        named_at_source = lowered-IsText 80 id_value device_id a;
        friendly = bounded_string-IsText 120 friendly_value friendly b;
        typed = lowered-IsText 60 type_value device_type c;
        ported = port_of-le port_value port d;
        few_capabilities = capabilities_of-le listed_value capabilities e;
        few_items = metadata_of-le items_value metadata f;
      }

  parse_message-Returns :
      (message : Message) (source_ip : String) (expected : Option String)
      → Returns IsBounded (parse_message codec message source_ip expected)
  unfolding parse_message
  parse_message-Returns message source_ip expected =
      let id_value = found message "device_id" (plain other) in
      let type_value = found message "device_type" (plain (text "unknown")) in
      let listed = found message "capabilities" (texts []) in
      let items = found message "metadata" (object []) in
      bind-Returns IsBounded (require (is_text "ron_device" (get message "type")) wrong_type) _
        (λ _ _.
          bind-Returns IsBounded (require (is_version (get message "protocol")) wrong_version) _
            (λ _ _.
              bind-Returns IsBounded
                (require (is_expected expected (get message "request_id")) wrong_request) _
                (λ _ _.
                  bind-Returns IsBounded (lowered codec (bounded_string 80 id_value)) _ (λ id a.
                    bind-Returns IsBounded
                      (bounded_string 120 (found message "friendly_name" (plain (text id)))) _
                      (λ friendly b.
                        bind-Returns IsBounded (lowered codec (bounded_string 60 type_value)) _
                          (λ type c.
                            bind-Returns IsBounded (given_address (codec.address source_ip)) _
                              (λ address _.
                                bind-Returns IsBounded (port_of (get message "port")) _ (λ port d.
                                  bind-Returns IsBounded (capabilities_of codec listed) _
                                    (λ capabilities f.
                                      bind-Returns IsBounded (metadata_of items) _ (λ metadata g.
                                        reply-IsBounded id_value
                                          (found message "friendly_name" (plain (text id)))
                                          type_value (get message "port") listed items id friendly
                                          type address port capabilities metadata a b c d f
                                          g))))))))))

  -- Whatever bytes come from the network: if they are taken for a reply, its id, name and type are not
  -- empty and within their lengths (the id and the type before they are put in lower case), its port is
  -- one from 1 to 65535, and it has at most 32 capabilities and 16 items of metadata.
  pub parse_discovery_reply-IsBounded :
      (payload : Bytes) (source_ip : String) (expected : Option String) (reply : DiscoveryReply)
      → parse_discovery_reply codec payload source_ip expected ≡ ok reply
      → IsBounded reply
  unfolding parse_discovery_reply
  parse_discovery_reply-IsBounded payload source_ip expected reply = returned IsBounded (
      bind-Returns IsBounded (decode_datagram codec payload) _
        (λ message decoded. parse_message-Returns message source_ip expected))
