-- ===== src/Network/Protocol/Tests.antt =====
-- A codec of one-byte texts, and the witnesses of the theorems on the protocol.
use ron_personal_assistant.Prelude.{
  ℕ, ◌≡◌, refl, false, none, some, [], ◌∷◌, arith, ◌==◌, if◌then◌else◌, ok,
}
use ron_personal_assistant.Network.Protocol.{
  Bytes, newline, Loaded, an_object, no_json, Json, has_newline, encode_message, drain, feed,
}
use ron_personal_assistant.Network.Protocol.Stream.{feed-append}
use ron_personal_assistant.Network.Protocol.RoundTrip.{IsFaithful, encode_all, feed-encode_all}

abbrev read_byte : Bytes → Loaded ℕ
read_byte (x ∷ []) = an_object x
read_byte _ = no_json

abbrev one_byte : Json ℕ
one_byte = record { dumps = λ m. if m == newline then none else some (m ∷ []); loads = read_byte }

dumped : (m : ℕ) (b : Bytes) → one_byte.dumps m ≡ some b → ((m == newline) ≡ false) × (m ∷ [] ≡ b)
dumped m b e = (ground (arith, e), ground (arith, e))

one_byte-IsFaithful : IsFaithful one_byte
one_byte-IsFaithful = record {
  not_empty = λ m b e. rw⁻¹ (dumped m b e).1 (omega arith);
  one_line =
      λ m b e. rw⁻¹ (dumped m b e).1 (unfold has_newline in ground (arith, (dumped m b e).0));
  reads_back = λ m b e. rw⁻¹ (dumped m b e).1 refl;
}

two_sent : encode_all one_byte one_byte-IsFaithful (65 ∷ 66 ∷ []) ≡ ok (65 ∷ 10 ∷ 66 ∷ 10 ∷ [])
unfolding encode_all encode_message
two_sent = refl

feed-encode_all_example : feed one_byte [] (65 ∷ 10 ∷ 66 ∷ 10 ∷ []) ≡ (ok (65 ∷ 66 ∷ []), [])
feed-encode_all_example = feed-encode_all one_byte one_byte-IsFaithful (65 ∷ 66 ∷ []) two_sent

first_piece : feed one_byte [] (65 ∷ 10 ∷ 66 ∷ []) ≡ (ok (65 ∷ []), 66 ∷ [])
unfolding feed drain has_newline
first_piece = refl

second_piece : feed one_byte (66 ∷ []) (10 ∷ []) ≡ (ok (66 ∷ []), [])
unfolding feed drain has_newline
second_piece = refl

feed-append_example : feed one_byte [] (65 ∷ 10 ∷ 66 ∷ 10 ∷ []) ≡ (ok (65 ∷ 66 ∷ []), [])
feed-append_example = feed-append one_byte [] (65 ∷ 10 ∷ 66 ∷ []) (10 ∷ []) first_piece second_piece
