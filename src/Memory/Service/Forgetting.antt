-- ===== src/Memory/Service/Forgetting.antt =====
-- What `forget` of ron/memory/service.py leaves, in the catalog and in the storage.
use ron_personal_assistant.Prelude.{String, ◌≡◌, ◌≢◌, refl, none, some, arith, ok}
use ron_personal_assistant.Prelude.Dict.{text_key, get, get-remove_self, get-remove_ne}
use ron_personal_assistant.Storage.{Bytes, StorageManager}
use ron_personal_assistant.Storage.Sync.{read_bytes, read_external, delete}
use ron_personal_assistant.Storage.View.{view, IsConsistent}
use ron_personal_assistant.Storage.Deleting.{IsDeleted, delete-IsDeleted}
use ron_personal_assistant.Memory.{MemoryRecord, delete_memory}
use ron_personal_assistant.Memory.Service.{MemoryService, Around, forget}

-- Where a path has no contents, no read returns.
read_bytes-none :
    (m : StorageManager) (p : String) (b : Bytes) → view m p ≡ none → read_bytes m p ≢ ok b
unfolding view read_bytes read_external
read_bytes-none m p b e h = ground arith

forgets_found :
    (around : Around) (s : MemoryService) (memory_id : String) (r : MemoryRecord)
    → get s.catalog memory_id ≡ some r
    → (forget around s memory_id).1 ≡ record {
      storage = (delete s.storage r.relative_path around.erased).1;
      catalog = delete_memory s.catalog memory_id;
    }
unfolding forget
forgets_found around s memory_id r found = rw (found, forget) refl

-- Forgetting a known memory, from consistent tables and however the drive takes the deletion: the
-- catalog loses it and keeps every other memory, its file can no longer be read, and the contents of
-- every other path stay.
pub forget_lem :
    (around : Around) (s : MemoryService) (memory_id : String) (r : MemoryRecord)
    → IsConsistent s.storage
    → get s.catalog memory_id ≡ some r
    → let s' = (forget around s memory_id).1 in
      (get s'.catalog memory_id ≡ none)
      × ((other : String) → memory_id ≢ other → get s'.catalog other ≡ get s.catalog other)
      × IsDeleted s.storage r.relative_path s'.storage
      × ((b : Bytes) → read_bytes s'.storage r.relative_path ≢ ok b)
unfolding delete_memory
forget_lem around s memory_id r c found =
    let gone = delete-IsDeleted s.storage c r.relative_path around.erased in
    rw (forgets_found around s memory_id r found) (
      get-remove_self s.catalog memory_id,
      λ other ne. get-remove_ne s.catalog memory_id other ne,
      gone,
      λ b. read_bytes-none _ r.relative_path b gone.gone,
    )
