-- ===== src/Memory/Service.antt =====
-- ron/memory/service.py: `MemoryService`, over the storage manager and the catalog.
-- JSON, the id and the time of a new memory, and what regular expressions find are arguments.
pub mod Forgetting
pub mod Remembering
pub mod Tests
use ron_personal_assistant.Prelude.{
  ℕ, ◌-◌, String, count, Bool, true, false, ◌&&◌, ◌||◌, not, Option, none, some, List, [], ◌∷◌, ltb,
  leb, if◌then◌else◌, is_truthy, strip, rstrip, squeeze, take_text, f_string, join, str_eq, map,
  length, ◌==◌, Result, ok, err,
}
use ron_personal_assistant.Prelude.Int.{ℤ, pos, negsuc}
use ron_personal_assistant.Prelude.Dict.{Dict, text_key, get}
use ron_personal_assistant.Storage.{
  Bytes, StorageManager, StorageError, StoredObject, WriteOutcome, DeleteOutcome, LocalOutcome,
  save_bytes, is_pending,
}
use ron_personal_assistant.Storage.Sync.{read_bytes, delete}
use ron_personal_assistant.Memory.{
  MemoryKind, conversation, knowledge, person, project, experience, Metadatum, text, texts,
  MemoryRecord, RecalledMemory, kind_text, MemoryCatalog, upsert_memory, delete_memory,
  set_memory_queued, recent_memories, Texts, search_rows, get_memory_by_prefix, find_exact_summary,
}

pub record MemoryService : Type 0 where
  pub storage : StorageManager
  pub catalog : MemoryCatalog

-- The JSON object of one memory, but for its schema number.
pub record Payload : Type 0 where
  pub memory_id : String
  pub kind : String
  pub created_utc : String
  pub project : Option String
  pub importance : ℕ
  pub summary : String
  pub content : String
  pub metadata : Dict String Metadatum

-- What `json.loads` makes of the bytes: an object, with its "content" if it has one, as text.
pub data Parsed : Type 0 where
  an_object : Option String → Parsed
  another_value no_json : Parsed

-- What the service is given, at the time of a call.
pub record Around : Type 0 where
  pub db : Texts
  pub sha256 : Bytes → String
  pub dumps : Payload → Bytes
  pub loads : Bytes → Parsed
  -- `uuid.uuid4().hex`, the time in ISO format, and "YYYY/MM"
  pub new_id : String
  pub created : String
  pub year_month : String
  -- `_safe_component`
  pub safe_component : String → String
  -- `contains_secret`, and `\bRon\b`
  pub contains_secret : String → Bool
  pub mentions_ron : String → Bool
  -- how the two disks take the next write, and the drive the next deletion
  pub written : WriteOutcome
  pub kept : LocalOutcome
  pub erased : DeleteOutcome

-- `value_error` has the text of a `ValueError`.
pub data MemoryError : Type 0 where
  value_error : String → MemoryError
  storage_failed : StorageError → MemoryError
  unknown_memory checksum_mismatch invalid_record integrity_error : MemoryError

-- `_compact`
unfoldable pub compact : String → ℕ → String
compact value limit =
    let clean = squeeze value in
    if leb (count clean) limit
    then clean
    else f_string (rstrip (take_text (limit - 1) clean) ∷ "…" ∷ [])

-- `min(max(importance, 0), 100)`
unfoldable pub clamp_importance : ℤ → ℕ
clamp_importance (negsuc _) = 0
clamp_importance (pos n) = if ltb 100 n then 100 else n

abbrev or_else : Option String → String → String
or_else none other = other
or_else (some value) other = if is_truthy value then value else other

abbrev context_kinds : List MemoryKind
context_kinds = knowledge ∷ person ∷ project ∷ experience ∷ []

-- The keyword arguments of `remember`.
pub record Noted : Type 0 where
  pub summary : Option String
  pub project : Option String
  pub importance : ℤ
  pub metadata : Dict String Metadatum

-- `payload.get("content", record.summary)`
abbrev got : Option String → String → String
got none other = other
got (some value) other = value

-- `MemoryCandidate` of ron/memory/policy.py
pub record MemoryCandidate : Type 0 where
  pub content : String
  pub kind : MemoryKind
  pub project : Option String
  pub importance : ℕ
  pub metadata : Dict String Metadatum

abbrev considered :
    Result MemoryError (MemoryRecord × Bool) × MemoryService
    → Result MemoryError (Option MemoryRecord) × MemoryService
considered (ok (r, created), s) = (ok (if created then some r else none), s)
considered (err e, s) = (err e, s)

module _ (around : Around) where
  -- `_memory_path`
  unfoldable pub memory_path : MemoryKind → Option String → String
  memory_path kind name =
      let base : String = elim kind [
        | conversation ↦ "Memory/Conversations"
        | knowledge ↦ "Memory/Knowledge"
        | person ↦ "Memory/People"
        | experience ↦ "Memory/Experiences"
        | project ↦
            f_string ("Memory/Projects/" ∷ around.safe_component (or_else name "General") ∷ [])
      ] in
      f_string (base ∷ "/" ∷ around.year_month ∷ "/" ∷ around.new_id ∷ ".json" ∷ [])

  unfoldable pub payload_of : MemoryKind → String → Noted → Payload
  unfolding compact clamp_importance
  payload_of kind clean n = record {
    memory_id = around.new_id;
    kind = kind_text kind;
    created_utc = around.created;
    project = n.project;
    importance = clamp_importance n.importance;
    summary = compact (or_else n.summary clean) 600;
    content = clean;
    metadata = n.metadata;
  }

  unfoldable pub record_for : MemoryKind → Payload → Noted → StoredObject → MemoryRecord
  unfolding memory_path
  record_for kind payload n stored = record {
    memory_id = around.new_id;
    kind = kind;
    summary = payload.summary;
    relative_path = memory_path kind n.project;
    created_utc = around.created;
    project = n.project;
    importance = payload.importance;
    queued = stored.queued;
    sha256 = stored.sha256;
    metadata = n.metadata;
  }

  -- The end of `remember`: the catalog gets the record of what the storage has.
  abbrev pub listed :
      MemoryCatalog
      → MemoryKind
      → Payload
      → Noted
      → Result StorageError StoredObject × StorageManager
      → Result MemoryError MemoryRecord × MemoryService
  listed rows kind payload n (err e, storage) =
      (err (storage_failed e), record { storage = storage; catalog = rows })
  listed rows kind payload n (ok stored, storage) =
      let r = record_for kind payload n stored in
      elim (upsert_memory rows r) [
        | none ↦ (err integrity_error, record { storage = storage; catalog = rows })
        | some rows' ↦ (ok r, record { storage = storage; catalog = rows' })
      ]

  -- `remember`
  unfoldable pub remember :
      MemoryService → MemoryKind → String → Noted → Result MemoryError MemoryRecord × MemoryService
  remember s kind content n =
      let clean = strip content in
      if not (is_truthy clean)
      then (err (value_error "Memory content cannot be empty"), s)
      else let payload = payload_of kind clean n in
        listed s.catalog kind payload n (
          save_bytes around.sha256 s.storage (memory_path kind n.project) (around.dumps payload)
            around.written around.kept)

  abbrev as_created :
      Result MemoryError MemoryRecord × MemoryService
      → Result MemoryError (MemoryRecord × Bool) × MemoryService
  as_created (ok r, s) = (ok (r, true), s)
  as_created (err e, s) = (err e, s)

  -- `remember_unique`
  unfoldable pub remember_unique :
      MemoryService
      → MemoryKind
      → String
      → Noted
      → Result MemoryError (MemoryRecord × Bool) × MemoryService
  remember_unique s kind content n =
      let compact_summary = compact (or_else n.summary content) 600 in
      elim (find_exact_summary around.db s.catalog compact_summary) [
        | some existing ↦ (ok (existing, false), s)
        | none ↦ as_created (remember s kind content (record n { summary = some compact_summary }))
      ]

  -- `remember_explicit`
  unfoldable pub remember_explicit :
      MemoryService → String → Result MemoryError (MemoryRecord × Bool) × MemoryService
  remember_explicit s content =
      let clean = squeeze content in
      if not (is_truthy clean)
      then (err (value_error "Tell me what you want me to remember."), s)
      else if around.contains_secret clean
      then (
        err (
            value_error (
              f_string (
                "I won't store passwords, PINs, API keys, access tokens, or similar "
                ∷ "secrets in long-term memory." ∷ []))),
        s,
      )
      else let about_ron = around.mentions_ron clean in
        remember_unique s (if about_ron then project else knowledge) clean (record {
          summary = none;
          project = if about_ron then some "Ron" else none;
          importance = pos 90;
          metadata = ("source", text "explicit") ∷ [];
        })

  -- `consider_user_statement`, of what the policy makes of a statement; only a new memory counts.
  unfoldable pub consider_user_statement :
      MemoryService
      → Option MemoryCandidate
      → Result MemoryError (Option MemoryRecord) × MemoryService
  consider_user_statement s none = (ok none, s)
  consider_user_statement s (some c) = considered (
      remember_unique s c.kind c.content (record {
        summary = none;
        project = c.project;
        importance = pos c.importance;
        metadata = c.metadata;
      }))

  -- `remember_conversation`
  unfoldable pub remember_conversation :
      MemoryService
      → String
      → String
      → Option String
      → Result MemoryError MemoryRecord × MemoryService
  unfolding compact
  remember_conversation s user assistant project_name =
      let user_clean = strip user in
      let assistant_clean = strip assistant in
      remember s conversation
        (f_string ("USER\n" ∷ user_clean ∷ "\n\nRON\n" ∷ assistant_clean ∷ []))
        (record {
          summary = some (
              f_string (
                "User: " ∷ compact user_clean 220 ∷ " | Ron: " ∷ compact assistant_clean 300 ∷ []));
          project = project_name;
          importance = pos 35;
          metadata = ("source", text "episodic") ∷ [];
        })

  -- `remember_experience`
  unfoldable pub remember_experience :
      MemoryService
      → String
      → String
      → Option String
      → List String
      → String
      → ℤ
      → Result MemoryError MemoryRecord × MemoryService
  unfolding compact
  remember_experience s problem solution project_name visual_ids outcome importance =
      let problem_clean = strip problem in
      let solution_clean = strip solution in
      if not (is_truthy problem_clean) || not (is_truthy solution_clean)
      then (err (value_error "Experience memories need both a problem and a solution"), s)
      else remember s experience
          (f_string ("PROBLEM\n" ∷ problem_clean ∷ "\n\nSOLUTION\n" ∷ solution_clean ∷ []))
          (record {
            summary = some (
                f_string (
                  "Problem: "
                  ∷ compact problem_clean 260
                  ∷ " | Solution: "
                  ∷ compact solution_clean 300
                  ∷ []));
            project = project_name;
            importance = importance;
            metadata =
                ("source", text "experience")
                ∷ ("visual_ids", texts visual_ids)
                ∷ ("outcome", text (or_else (some (strip outcome)) "resolved"))
                ∷ [];
          })

  abbrev pub read_content : MemoryRecord → Bytes → Parsed → Result MemoryError (Option String)
  read_content r payload (an_object content) = ok content
  read_content r payload another_value = err invalid_record
  read_content r payload no_json = err (value_error "JSON")

  abbrev pub loaded : MemoryRecord → Result StorageError Bytes → Result MemoryError (Option String)
  loaded r (err e) = err (storage_failed e)
  loaded r (ok payload) =
      if is_truthy r.sha256 && not (str_eq (around.sha256 payload) r.sha256)
      then err checksum_mismatch
      else read_content r payload (around.loads payload)

  -- `load`, as far as its callers use it: the "content" of the object.
  unfoldable pub load : MemoryService → String → Result MemoryError (Option String)
  load s memory_id = elim (get s.catalog memory_id) [
    | none ↦ err unknown_memory
    | some r ↦ loaded r (read_bytes s.storage r.relative_path)
  ]

  abbrev pub recalled_from : MemoryRecord → Result MemoryError (Option String) → RecalledMemory
  recalled_from r (err _) = record {
    record_of = r;
    content = r.summary;
    full_content_available = false;
  }
  recalled_from r (ok content) = record {
    record_of = r;
    content = or_else (some (strip (got content r.summary))) r.summary;
    full_content_available = true;
  }

  -- `recall`
  unfoldable pub recall : MemoryService → String → ℕ → Bool → List RecalledMemory
  unfolding load
  recall s query limit include_conversations =
      let clean = squeeze query in
      map (λ r. recalled_from r (load s r.memory_id))
        (search_rows around.db s.catalog clean limit
          (if include_conversations then [] else context_kinds) 0 (not (is_truthy clean)))

  -- `recent_user_memories`
  unfoldable pub recent_user_memories : MemoryService → ℕ → List MemoryRecord
  recent_user_memories s limit = recent_memories s.catalog limit context_kinds 0

  -- `find_for_forget`
  unfoldable pub find_for_forget : MemoryService → String → ℕ → List MemoryRecord
  find_for_forget s query limit =
      let clean = strip query in
      elim (get_memory_by_prefix around.db s.catalog clean) [
        | some r ↦ r ∷ []
        | none ↦ search_rows around.db s.catalog clean limit [] 0 false
      ]

  -- `forget`
  unfoldable pub forget : MemoryService → String → Result MemoryError MemoryRecord × MemoryService
  forget s memory_id = elim (get s.catalog memory_id) [
    | none ↦ (err unknown_memory, s)
    | some r ↦ (
      ok r,
      record {
        storage = (delete s.storage r.relative_path around.erased).1;
        catalog = delete_memory s.catalog memory_id;
      },
    )
  ]

  abbrev snippet : MemoryRecord → String
  snippet r = f_string ("- [" ∷ kind_text r.kind ∷ "] " ∷ r.summary ∷ [])

  -- `context_for_prompt`; the terms are those of `_search_terms`.
  unfoldable pub context_for_prompt : MemoryService → List String → String → ℕ → String
  context_for_prompt s terms prompt limit =
      if length terms == 0
      then ""
      else elim (search_rows around.db s.catalog prompt limit context_kinds 55 false) [
        | [] ↦ ""
        | r ∷ rs ↦ f_string (
            "Relevant saved memories (retrieved by Ron; may be incomplete):\n"
            ∷ join "\n" (map snippet (r ∷ rs))
            ∷ [])
      ]

  refresh_rows : StorageManager → List MemoryRecord → MemoryCatalog → MemoryCatalog
  refresh_rows storage [] rows = rows
  refresh_rows storage (r ∷ rs) rows =
      let pending = is_pending storage r.relative_path in
      let unchanged = if pending then r.queued else not r.queued in
      refresh_rows storage rs
        (if unchanged then rows else set_memory_queued rows r.relative_path pending)

  -- `refresh_queue_flags`
  unfoldable pub refresh_queue_flags : MemoryService → MemoryService
  unfolding refresh_rows
  refresh_queue_flags s = record s {
    catalog = refresh_rows s.storage (recent_memories s.catalog 500 [] 0) s.catalog;
  }
