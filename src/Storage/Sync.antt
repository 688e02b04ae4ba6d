-- ===== src/Storage/Sync.antt =====
-- Reading, deleting and the recovery of ron/storage/manager.py.
use ron_personal_assistant.Prelude.{
  ℕ, ◌+◌, String, Bool, true, false, not, Option, none, some, List, [], ◌∷◌, ◌++◌, ltb, ◌==◌,
  if◌then◌else◌, str_eq, f_string, decimal, Result, ok, err,
}
use ron_personal_assistant.Prelude.Dict.{text_key, get, contains, put, remove}
use ron_personal_assistant.Storage.{
  online, degraded, recovering, error, Bytes, QueuedWrite, StorageManager, StorageError,
  pending_deletion, offline, not_found, os_error, DeletedObject, WriteOutcome, verified, refused,
  corrupted, DeleteOutcome, deleted, undeleted, set_state, pending_stats, online_root,
}

unfoldable pub read_external : StorageManager → String → Result StorageError Bytes
read_external m relative = elim (online_root m) [
  | none ↦ err offline
  | some root ↦ elim (get m.external relative) [
    | none ↦ err not_found
    | some contents ↦ ok contents
  ]
]

-- `read_bytes`
unfoldable pub read_bytes : StorageManager → String → Result StorageError Bytes
unfolding read_external
read_bytes m relative =
    if contains m.deletions relative then err pending_deletion else elim (get m.queue relative) [
      | none ↦ read_external m relative
      | some row ↦ elim (get m.objects relative) [
        | none ↦ read_external m relative
        | some contents ↦ ok contents
      ]
    ]

-- `_remove_queued_write`
unfoldable pub remove_queued_write : StorageManager → String → StorageManager
remove_queued_write m relative = record m {
  queue = remove m.queue relative;
  objects = if contains m.queue relative then remove m.objects relative else m.objects;
}

-- `_queue_deletion`
unfoldable pub queue_deletion : StorageManager → String → StorageManager
queue_deletion m relative = record m { deletions = put m.deletions relative tt }

unfoldable pub delete_at :
    StorageManager → String → Option String → DeleteOutcome → DeletedObject × StorageManager
delete_at m relative none outcome =
    (record { relative_path = relative; queued = true }, queue_deletion m relative)
delete_at m relative (some root) deleted = (
  record { relative_path = relative; queued = false },
  record m { external = remove m.external relative; deletions = remove m.deletions relative },
)
delete_at m relative (some root) (undeleted e) = (
  record { relative_path = relative; queued = true },
  queue_deletion
      (set_state m degraded none
        (f_string ("External deletion failed (" ∷ e ∷ "); deletion is queued locally." ∷ [])))
      relative,
)

-- `delete`
unfoldable pub delete : StorageManager → String → DeleteOutcome → DeletedObject × StorageManager
unfolding delete_at
delete m relative outcome =
    let m = remove_queued_write m relative in delete_at m relative (online_root m) outcome

-- One queued deletion: `none` where the drive raises an `OSError`.
abbrev pub sync_deletion :
    StorageManager → String → DeleteOutcome → Result StorageError (Unit {0}) × StorageManager
sync_deletion m relative (undeleted e) = (err (os_error e), m)
sync_deletion m relative deleted = (
  ok tt,
  record m { external = remove m.external relative; deletions = remove m.deletions relative },
)

abbrev pub Synced : Type 0
Synced = Result StorageError ℕ × StorageManager

-- `_sync_deletions`, from a number of deletions done
unfoldable pub sync_deletions :
    (String → DeleteOutcome)
    → List (String × Unit {0})
    → ℕ
    → StorageManager
    → Result StorageError ℕ × StorageManager
sync_deletions answer [] synced m = (ok synced, m)
sync_deletions answer ((relative, _) ∷ rows) synced m =
    let (outcome, m') = sync_deletion m relative (answer relative) in
    let rest = sync_deletions answer rows (synced + 1) m' in
    elim outcome [ err e ↦ (err e, m') | ok _ ↦ rest ]

-- One queued write with its object: whether it counts, or the `OSError`.
abbrev pub sync_payload :
    StorageManager → String → Bytes → WriteOutcome → Result StorageError Bool × StorageManager
sync_payload m relative payload (refused e) = (err (os_error e), m)
sync_payload m relative payload (corrupted other) = (
  err (os_error (f_string ("Verification failed while syncing " ∷ relative ∷ []))),
  record m { external = put m.external relative other },
)
sync_payload m relative payload verified = (
  ok true,
  record m {
    external = put m.external relative payload;
    queue = remove m.queue relative;
    objects = remove m.objects relative;
  },
)

-- What `refresh_once` finds: the discovery fails, there is no drive, or the drive at this root
-- fails or passes the checks of space, identity, layout and binding.
pub data Found : Type 0 where
  discovery_failed : String → Found
  no_drive : Found
  wrong_identity : String → Found
  unavailable : String → Found
  usable : String → Found

module _ (sha256 : Bytes → String) where
  unfoldable pub sync_row :
      StorageManager
      → String
      → QueuedWrite
      → WriteOutcome
      → Result StorageError Bool × StorageManager
  sync_row m relative row outcome = elim (get m.objects relative) [
    | none ↦ (ok false, m)
    | some payload ↦
        if not (str_eq (sha256 payload) row.sha256)
        then (ok false, m)
        else sync_payload m relative payload outcome
  ]

  -- the loop of `_sync_pending_locked` over the rows
  unfoldable pub sync_rows :
      (String → WriteOutcome)
      → List (String × QueuedWrite)
      → ℕ
      → StorageManager
      → Result StorageError ℕ × StorageManager
  sync_rows answer [] synced m = (ok synced, m)
  sync_rows answer ((relative, row) ∷ rows) synced m =
      let (outcome, m') = sync_row m relative row (answer relative) in
      let counted = sync_rows answer rows (synced + 1) m' in
      let skipped = sync_rows answer rows synced m' in
      elim outcome [ err e ↦ (err e, m') | ok true ↦ counted | ok false ↦ skipped ]

  abbrev recovered_notice : ℕ → List String
  recovered_notice synced =
      if synced == 0
      then []
      else f_string (
          "[MEMORY RECOVERED] Synced "
          ∷ decimal synced
          ∷ " queued item"
          ∷ (if synced == 1 then "" else "s")
          ∷ " to external storage."
          ∷ [])
        ∷ []

  unfoldable pub after_rows :
      Result StorageError ℕ × StorageManager → Result StorageError ℕ × StorageManager
  after_rows (err e, m) = (err e, m)
  after_rows (ok synced, m) =
      (ok synced, record m { notices = m.notices ++ recovered_notice synced })

  unfoldable pub after_deletions :
      (String → WriteOutcome)
      → Result StorageError ℕ × StorageManager
      → Result StorageError ℕ × StorageManager
  unfolding after_rows
  after_deletions writes (err e, m) = (err e, m)
  after_deletions writes (ok synced, m) = after_rows (sync_rows writes m.queue synced m)

  -- `sync_pending`
  unfoldable pub sync_pending :
      (String → DeleteOutcome)
      → (String → WriteOutcome)
      → StorageManager
      → Result StorageError ℕ × StorageManager
  unfolding after_deletions
  sync_pending deletes writes m = elim m.external_root [
    | none ↦ (ok 0, m)
    | some root ↦ after_deletions writes (sync_deletions deletes m.deletions 0 m)
  ]

  -- the text of an `OSError`, which is all that a sync raises
  abbrev error_text : StorageError → String
  error_text (os_error e) = e
  error_text _ = ""

  unfoldable pub after_sync : String → Result StorageError ℕ × StorageManager → StorageManager
  after_sync root (err e, m) =
      set_state m error (some root) (f_string ("Recovery sync failed: " ∷ error_text e ∷ []))
  after_sync root (ok _, m) = set_state m online (some root) "External memory is healthy."

  unfoldable pub use_drive :
      (String → DeleteOutcome)
      → (String → WriteOutcome)
      → Bool
      → StorageManager
      → String
      → StorageManager
  unfolding after_sync
  use_drive deletes writes sync m root =
      if not (ltb 0 (pending_stats m).0)
      then set_state m online (some root) "External memory is healthy."
      else let waiting =
          set_state m recovering (some root)
            "External memory is healthy; queued writes are waiting to sync." in
        if sync then after_sync root (sync_pending deletes writes waiting) else waiting

  -- `refresh_once`
  unfoldable pub refresh_once :
      (String → DeleteOutcome)
      → (String → WriteOutcome)
      → Bool
      → StorageManager
      → Found
      → StorageManager
  unfolding use_drive
  refresh_once deletes writes sync m (discovery_failed e) =
      set_state m error none (f_string ("Drive discovery failed: " ∷ e ∷ []))
  refresh_once deletes writes sync m no_drive =
      set_state m degraded none "External memory is disconnected; writes are queued on the laptop."
  refresh_once deletes writes sync m (wrong_identity e) = set_state m error none e
  refresh_once deletes writes sync m (unavailable e) =
      set_state m error none (f_string ("External memory is unavailable: " ∷ e ∷ []))
  refresh_once deletes writes sync m (usable root) = use_drive deletes writes sync m root
