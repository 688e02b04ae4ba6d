-- ===== src/Memory/Service/Remembering.antt =====
-- A memory that ron/memory/service.py has remembered can be loaded again.
use ron_personal_assistant.Prelude.{
  String, ◌≡◌, refl, ◌∙◌, Bool, true, false, not, Option, none, some, arith, if◌then◌else◌,
  is_truthy, strip, subst, Result, ok, err,
}
use ron_personal_assistant.Prelude.Dict.{text_key, beq_refl, get, get-put_self}
use ron_personal_assistant.Storage.{Bytes, StorageManager, StorageError, StoredObject, save_bytes}
use ron_personal_assistant.Storage.Sync.{read_bytes}
use ron_personal_assistant.Storage.Reading.{Reads, save_bytes-Reads}
use ron_personal_assistant.Memory.{MemoryKind, MemoryRecord, MemoryCatalog, dated, upsert_memory}
use ron_personal_assistant.Memory.Service.{
  integrity_error, value_error, MemoryService, Payload, an_object, Around, MemoryError, Noted,
  memory_path, payload_of, record_for, listed, remember, loaded, load,
}

-- The record of a memory, and what `load` finds by it.
abbrev Loads : Around → String → Result MemoryError MemoryRecord × MemoryService → Type 0
Loads around content (err _, s') = Unit
Loads around content (ok r, s') = load around s' r.memory_id ≡ ok (some content)

module _ (around : Around) (kind : MemoryKind) (payload : Payload) (n : Noted)
    (law : around.loads (around.dumps payload) ≡ an_object (some payload.content)) where
  upserted :
      (rows rows' : MemoryCatalog) (r : MemoryRecord)
      → upsert_memory rows r ≡ some rows'
      → get rows' r.memory_id ≡ some (dated r (get rows r.memory_id))
  unfolding upsert_memory
  upserted rows rows' r e =
      ground (arith, e, get-put_self rows r.memory_id (dated r (get rows r.memory_id)))

  dated_same :
      (r : MemoryRecord) (o : Option MemoryRecord)
      → ((dated r o).relative_path ≡ r.relative_path) × ((dated r o).sha256 ≡ r.sha256)
  dated_same r none = (refl, refl)
  dated_same r (some old) = (refl, refl)

  -- A record whose file can be read, with the digest that it notes.
  loaded_lem :
      (r : MemoryRecord) (contents : Result StorageError Bytes)
      → contents ≡ ok (around.dumps payload)
      → r.sha256 ≡ around.sha256 (around.dumps payload)
      → loaded around r contents ≡ ok (some payload.content)
  loaded_lem r contents e digest =
      ground (arith, e, digest, beq_refl (around.sha256 (around.dumps payload)), law)

  load_found :
      (s : MemoryService) (memory_id : String) (r : MemoryRecord)
      → get s.catalog memory_id ≡ some r
      → load around s memory_id ≡ loaded around r (read_bytes s.storage r.relative_path)
  unfolding load
  load_found s memory_id r found = rw (found, load)

  stored_Loads :
      (rows rows' : MemoryCatalog) (stored : StoredObject) (storage : StorageManager)
      → Reads around.sha256
          (memory_path around kind n.project)
          (around.dumps payload)
          (ok stored, storage)
      → let r = record_for around kind payload n stored in
        upsert_memory rows r ≡ some rows'
        → load around (record { storage = storage; catalog = rows' }) r.memory_id
          ≡ ok (some payload.content)
  unfolding record_for
  stored_Loads rows rows' stored storage (readable, digest) e =
      let r = record_for around kind payload n stored in
      let r' = dated r (get rows r.memory_id) in
      let (same_path, same_digest) = dated_same r (get rows r.memory_id) in
      load_found (record { storage = storage; catalog = rows' }) r.memory_id r'
        (upserted rows rows' r e)
      ∙ loaded_lem r' (read_bytes storage r'.relative_path) (rw same_path readable)
          (same_digest ∙ digest)

  listed-Loads :
      (rows : MemoryCatalog) (x : Result StorageError StoredObject × StorageManager)
      → Reads around.sha256 (memory_path around kind n.project) (around.dumps payload) x
      → Loads around payload.content (listed around rows kind payload n x)
  listed-Loads rows (err e, storage) h = tt
  listed-Loads rows (ok stored, storage) h = go (upsert_memory rows r) refl
    where
      r : MemoryRecord
      r = record_for around kind payload n stored

      go :
          (o : Option MemoryCatalog)
          → upsert_memory rows r ≡ o
          → Loads around payload.content
              (elim o as (λ x. Result MemoryError MemoryRecord × MemoryService) [
                | none ↦ (err integrity_error, record { storage = storage; catalog = rows })
                | some rows' ↦ (ok r, record { storage = storage; catalog = rows' })
              ])
      go none e = tt
      go (some rows') e = stored_Loads rows rows' stored storage h e

remember-Loads :
    (around : Around) (s : MemoryService) (kind : MemoryKind) (content : String) (n : Noted)
    → (let payload = payload_of around kind (strip content) n in
        around.loads (around.dumps payload) ≡ an_object (some payload.content))
    → get s.storage.queue (memory_path around kind n.project) ≡ none
    → Loads around (strip content) (remember around s kind content n)
unfolding remember payload_of
remember-Loads around s kind content n law fresh = go (not (is_truthy (strip content)))
  where
    payload : Payload
    payload = payload_of around kind (strip content) n

    go :
        (empty : Bool)
        → Loads around (strip content) (
            if empty
            then (err (value_error "Memory content cannot be empty"), s)
            else listed around s.catalog kind payload n (
                save_bytes around.sha256 s.storage
                  (memory_path around kind n.project)
                  (around.dumps payload)
                  around.written
                  around.kept))
    go true = tt
    go false = listed-Loads around kind payload n law s.catalog _ (
        save_bytes-Reads around.sha256 (memory_path around kind n.project) (around.dumps payload)
          s.storage around.written around.kept fresh)

-- A memory that `remember` has stored can be loaded at once, on the drive or in the queue, and gives
-- its stripped content; the path is not queued before, and JSON reads back the "content" of the object
-- that it wrote.
pub load-remember :
    (around : Around) (s : MemoryService) (kind : MemoryKind) (content : String) (n : Noted)
    (r : MemoryRecord) (s' : MemoryService)
    → (let payload = payload_of around kind (strip content) n in
        around.loads (around.dumps payload) ≡ an_object (some payload.content))
    → get s.storage.queue (memory_path around kind n.project) ≡ none
    → remember around s kind content n ≡ (ok r, s')
    → load around s' r.memory_id ≡ ok (some (strip content))
load-remember around s kind content n r s' law fresh e =
    subst (λ x. Loads around (strip content) x) e (remember-Loads around s kind content n law fresh)
