-- ===== src/Memory/Service/Tests.antt =====
-- A memory of ron/memory/service.py that is stored, read and forgotten: tests, and the witnesses of
-- the theorems on it.
use ron_personal_assistant.Prelude.{
  String, ◌≡◌, ◌≢◌, refl, true, false, none, some, [], ◌∷◌, arith, ok, strip, squeeze, is_space,
}
use ron_personal_assistant.Prelude.Int.{pos}
use ron_personal_assistant.Prelude.Dict.{text_key, get, put, remove}
use ron_personal_assistant.Storage.{
  Bytes, online, verified, undeleted, kept_locally, save_bytes, save_at, set_state,
}
use ron_personal_assistant.Storage.Sync.{read_bytes}
use ron_personal_assistant.Storage.View.{IsConsistent}
use ron_personal_assistant.Storage.Deleting.{IsDeleted}
use ron_personal_assistant.Memory.{knowledge, MemoryRecord, Texts, upsert_memory, path_taken}
use ron_personal_assistant.Memory.Service.{
  MemoryService, an_object, Around, Noted, memory_path, payload_of, record_for, remember, load,
  forget, clamp_importance, compact,
}
use ron_personal_assistant.Memory.Service.Remembering.{load-remember}
use ron_personal_assistant.Memory.Service.Forgetting.{forget_lem}

abbrev pub exact_texts : Texts
exact_texts = record {
  casefold = λ text. text;
  search_tokens = λ text. text ∷ [];
  like = λ token summary. true;
  has_prefix = λ prefix text. false;
  exact_key = λ text. text;
  strip_marks = λ text. text;
  is_hexadecimal = λ text. false;
}

-- Every JSON text is that of one memory.
abbrev pub around : Around
around = record {
  db = exact_texts;
  sha256 = λ contents. "h";
  dumps = λ payload. 1 ∷ 2 ∷ [];
  loads = λ contents. an_object (some "I like tea");
  new_id = "abcdef01";
  created = "2025-01-01";
  year_month = "2025/01";
  safe_component = λ text. text;
  contains_secret = λ text. false;
  mentions_ron = λ text. false;
  written = verified;
  kept = kept_locally;
  erased = undeleted "busy";
}

abbrev pub empty_memory : MemoryService
empty_memory = record {
  storage = record {
    queue_limit_bytes = 4;
    state = online;
    external_root = some "/drive";
    detail = "";
    last_notice_state = some online;
    notices = [];
    queue = [];
    deletions = [];
    objects = [];
    external = [];
  };
  catalog = [];
}

abbrev plain : Noted
plain = record { summary = none; project = none; importance = pos 120; metadata = [] }

abbrev tea_path : String
tea_path = "Memory/Knowledge/2025/01/abcdef01.json"

abbrev pub tea : MemoryRecord
tea = record {
  memory_id = "abcdef01";
  kind = knowledge;
  summary = "I like tea";
  relative_path = tea_path;
  created_utc = "2025-01-01";
  project = none;
  importance = 100;
  queued = false;
  sha256 = "h";
  metadata = [];
}

abbrev pub with_tea : MemoryService
with_tea = record empty_memory {
  storage = record empty_memory.storage { external = (tea_path, 1 ∷ 2 ∷ []) ∷ [] };
  catalog = ("abcdef01", tea) ∷ [];
}

remembers_tea : remember around empty_memory knowledge " I like tea " plain ≡ (ok tea, with_tea)
unfolding remember payload_of record_for memory_path compact clamp_importance upsert_memory
    path_taken save_bytes save_at set_state strip squeeze is_space get put remove
remembers_tea = refl

load-remember_example : load around with_tea "abcdef01" ≡ ok (some (strip " I like tea "))
load-remember_example =
    load-remember around empty_memory knowledge " I like tea " plain tea with_tea
      (unfold payload_of strip in refl) (unfold get in refl) remembers_tea

with_tea-IsConsistent : IsConsistent with_tea.storage
unfolding get
with_tea-IsConsistent = record { covered = λ p b e. ground arith; disjoint = λ p e. ground arith }

forget_lem_example :
    let s' = (forget around with_tea "abcdef01").1 in
    (get s'.catalog "abcdef01" ≡ none)
    × ((other : String) → "abcdef01" ≢ other → get s'.catalog other ≡ get with_tea.catalog other)
    × IsDeleted with_tea.storage tea_path s'.storage
    × ((b : Bytes) → read_bytes s'.storage tea_path ≢ ok b)
forget_lem_example =
    forget_lem around with_tea "abcdef01" tea with_tea-IsConsistent (unfold get in refl)
