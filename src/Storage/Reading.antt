-- ===== src/Storage/Reading.antt =====
-- What ron/storage/manager.py has saved can be read at once.
use ron_personal_assistant.Prelude.{
  ◌+◌, ◌-◌, String, ◌≡◌, refl, Bool, true, false, Option, none, some, arith, ltb, if◌then◌else◌,
  length, Result, ok, err,
}
use ron_personal_assistant.Prelude.Dict.{text_key, get, remove, get-put_self, get-remove_self}
use ron_personal_assistant.Storage.{
  Bytes, StorageManager, StorageError, StoredObject, WriteOutcome, verified, refused, corrupted,
  LocalOutcome, kept_locally, too_little_space, local_error, wrong_checksum, online_root, set_state,
  queue_full, pending_bytes, queued_size, queue_write, queue_bytes, save_at, save_bytes,
}
use ron_personal_assistant.Storage.Sync.{read_bytes, read_external}

-- A save that reports an object: the path can be read, and gives what was saved.
abbrev pub Reads :
    (Bytes → String) → String → Bytes → Result StorageError StoredObject × StorageManager → Type 0
Reads sha256 relative contents (err _, m') = Unit
Reads sha256 relative contents (ok stored, m') =
    (read_bytes m' relative ≡ ok contents) × (stored.sha256 ≡ sha256 contents)

module _ (sha256 : Bytes → String) (relative : String) (contents : Bytes) where
  queue_write-Reads :
      (m : StorageManager) (local : LocalOutcome)
      → get m.deletions relative ≡ none
      → Reads sha256 relative contents (queue_write sha256 m relative contents local)
  unfolding queue_write read_bytes
  queue_write-Reads m too_little_space free = tt
  queue_write-Reads m (local_error e) free = tt
  queue_write-Reads m wrong_checksum free = tt
  queue_write-Reads m kept_locally free = (
    ground (
      arith,
      free,
      get-put_self m.objects relative contents,
      get-put_self m.queue relative
          (record { sha256 = sha256 contents; size_bytes = length contents }),
    ),
    refl,
  )

  queue_bytes-Reads :
      (m : StorageManager) (local : LocalOutcome)
      → get m.deletions relative ≡ none
      → Reads sha256 relative contents (queue_bytes sha256 m relative contents local)
  unfolding queue_bytes
  queue_bytes-Reads m local free = go (
      ltb m.queue_limit_bytes
        (pending_bytes m.queue - queued_size m.queue relative + length contents))
    where
      go :
          (b : Bool)
          → Reads sha256 relative contents
              (if b then (err queue_full, m) else queue_write sha256 m relative contents local)
      go true = tt
      go false = queue_write-Reads m local free

  save_at-Reads :
      (m : StorageManager) (local : LocalOutcome) (root : Option String) (outcome : WriteOutcome)
      → online_root m ≡ root
      → get m.deletions relative ≡ none
      → get m.queue relative ≡ none
      → Reads sha256 relative contents (save_at sha256 m relative contents local root outcome)
  unfolding save_at
  save_at-Reads m local none outcome away free fresh = queue_bytes-Reads m local free
  save_at-Reads m local (some root) verified there free fresh = (
    unfold read_bytes read_external in
        ground (arith, there, free, fresh, get-put_self m.external relative contents),
    refl,
  )
  save_at-Reads m local (some root) (refused e) there free fresh =
      queue_bytes-Reads _ local (unfold set_state in free)
  save_at-Reads m local (some root) (corrupted other) there free fresh =
      queue_bytes-Reads _ local (unfold set_state in free)

  -- A save of a path that is not queued.
  pub save_bytes-Reads :
      (m : StorageManager) (outcome : WriteOutcome) (local : LocalOutcome)
      → get m.queue relative ≡ none
      → Reads sha256 relative contents (save_bytes sha256 m relative contents outcome local)
  unfolding save_bytes
  save_bytes-Reads m outcome local fresh =
      save_at-Reads (record m { deletions = remove m.deletions relative }) local _ outcome refl
        (get-remove_self m.deletions relative) fresh
