-- ===== src/Ai/Hybrid/Tests.antt =====
-- A cloud that is out, and a local model that answers: a test, and the witness.
use ron_personal_assistant.Prelude.{String, ◌≡◌, ◌⊎◌, refl, true, [], ◌∷◌, ok, err}
use ron_personal_assistant.Ai.Hybrid.{
  ai_connection_error, AiClient, HybridAiClient, stream_chat, visible_output, settle_primary,
  try_fallback, settle_fallback,
}
use ron_personal_assistant.Ai.Hybrid.Provenance.{FromCloud, FromLocal, one_voice}

abbrev cloud_client : AiClient String
cloud_client = record {
  provider_label = "cloud";
  stream_chat = λ request. record {
    tokens = "" ∷ [];
    outcome = err (ai_connection_error "AIConnectionError");
  };
}

abbrev local_client : AiClient String
local_client = record {
  provider_label = "local";
  stream_chat = λ request. record { tokens = "Hi" ∷ []; outcome = ok "Hi" };
}

abbrev hybrid : HybridAiClient String
hybrid = record { primary = cloud_client; fallback = local_client; last_provider = "cloud" }

falls_back : (stream_chat hybrid "Hello" true).0.0 ≡ ok "Hi"
unfolding stream_chat visible_output settle_primary try_fallback settle_fallback
falls_back = refl

one_voice_example :
    let turn = stream_chat hybrid "Hello" true in
    FromCloud hybrid "Hello" turn ⊎ FromLocal hybrid "Hello" turn
one_voice_example = one_voice hybrid "Hello"
