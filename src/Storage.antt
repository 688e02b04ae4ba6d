-- ===== src/Storage.antt =====
-- ron/storage/manager.py: writes to the external drive, the local fallback queue and the recovery.
-- The drive and the laptop's disk answer each call as an argument says: a write is verified, refused
-- with an error, or leaves other bytes behind. A file of the fallback queue can be removed and read
-- back. Paths are those that `_normalise_relative_path` returns.
pub mod Sync
pub mod View
pub mod Saving
pub mod Deleting
pub mod Recovering
pub mod Limits
pub mod Reading
pub mod Calls
mod Tests
use ron_personal_assistant.Prelude.{
  ℕ, ◌+◌, ◌-◌, String, Bool, true, false, ◌&&◌, ◌||◌, not, Option, none, some, List, [], ◌∷◌, ◌++◌,
  ltb, leb, ◌==◌, if◌then◌else◌, length, str_eq, f_string, decimal, Result, ok, err,
}
use ron_personal_assistant.Prelude.Dict.{Dict, text_key, get, contains, put, remove}

pub data StorageState : Type 0 where
  online degraded recovering error : StorageState

abbrev pub is_online : StorageState → Bool
is_online online = true
is_online _ = false

abbrev is_degraded : StorageState → Bool
is_degraded degraded = true
is_degraded _ = false

abbrev is_recovering : StorageState → Bool
is_recovering recovering = true
is_recovering _ = false

abbrev is_error : StorageState → Bool
is_error error = true
is_error _ = false

abbrev is_state : StorageState → StorageState → Bool
is_state online = is_online
is_state degraded = is_degraded
is_state recovering = is_recovering
is_state error = is_error

abbrev pub Bytes : Type 0
Bytes = List ℕ

-- A row of `storage_queue`; its `local_path` is the object of the same relative path.
pub record QueuedWrite : Type 0 where
  pub sha256 : String
  pub size_bytes : ℕ

pub record StorageManager : Type 0 where
  pub queue_limit_bytes : ℕ
  pub state : StorageState
  pub external_root : Option String
  pub detail : String
  pub last_notice_state : Option StorageState
  -- what the notice handler was called with
  pub notices : List String
  -- the two tables, in the order of their ids
  pub queue : Dict String QueuedWrite
  pub deletions : Dict String (Unit {0})
  -- the files under `queue_objects` and under the external root
  pub objects : Dict String Bytes
  pub external : Dict String Bytes

pub data StorageError : Type 0 where
  queue_full low_space checksum_failed pending_deletion offline not_found : StorageError
  os_error : String → StorageError

pub record StoredObject : Type 0 where
  pub relative_path : String
  pub sha256 : String
  pub size_bytes : ℕ
  pub queued : Bool
  pub external_path : Option (String × String)

pub record DeletedObject : Type 0 where
  pub relative_path : String
  pub queued : Bool

-- How the external drive takes a write, and a deletion.
pub data WriteOutcome : Type 0 where
  verified : WriteOutcome
  refused : String → WriteOutcome
  corrupted : Bytes → WriteOutcome

pub data DeleteOutcome : Type 0 where
  deleted : DeleteOutcome
  undeleted : String → DeleteOutcome

-- How the laptop's disk takes a write.
pub data LocalOutcome : Type 0 where
  kept_locally : LocalOutcome
  too_little_space : LocalOutcome
  local_error : String → LocalOutcome
  wrong_checksum : LocalOutcome

abbrev was_troubled : Option StorageState → Bool
was_troubled (some online) = false
was_troubled (some _) = true
was_troubled none = false

-- `_emit_state_notice`: the notices that it sends
state_notice : StorageState → Option StorageState → String → List String
state_notice degraded last detail =
    f_string (
      "[MEMORY DEGRADED] External storage is offline. Ron will keep working "
      ∷ "and queue long-term writes locally." ∷ [])
    ∷ []
state_notice recovering last detail =
    f_string (
      "[MEMORY RECOVERING] External storage returned. Ron is verifying and "
      ∷ "synchronizing queued memory." ∷ [])
    ∷ []
state_notice error last detail = f_string ("[MEMORY ERROR] " ∷ detail ∷ []) ∷ []
state_notice online last detail =
    if was_troubled last
    then "[MEMORY ONLINE] External long-term memory is healthy again." ∷ []
    else []

abbrev is_none : Option StorageState → Bool
is_none none = true
is_none (some _) = false

-- `_set_state`
unfoldable pub set_state : StorageManager → StorageState → Option String → String → StorageManager
unfolding state_notice
set_state m state root detail = record m {
  state = state;
  external_root = root;
  detail = detail;
  last_notice_state = some state;
  notices =
      if not (is_state m.state state) || is_none m.last_notice_state
      then m.notices ++ state_notice state m.last_notice_state detail
      else m.notices;
}

-- `COALESCE(SUM(size_bytes), 0)`
unfoldable pub pending_bytes : Dict String QueuedWrite → ℕ
pending_bytes [] = 0
pending_bytes ((relative, row) ∷ rows) = row.size_bytes + pending_bytes rows

-- `_queued_size`
unfoldable pub queued_size : Dict String QueuedWrite → String → ℕ
queued_size queue relative = elim (get queue relative) [ none ↦ 0 | some row ↦ row.size_bytes ]

-- `pending_stats`
unfoldable pub pending_stats : StorageManager → ℕ × ℕ
pending_stats m = (length m.queue + length m.deletions, pending_bytes m.queue)

-- `is_pending`
unfoldable pub is_pending : StorageManager → String → Bool
is_pending m relative = contains m.queue relative || contains m.deletions relative

-- `self._external_root if self._state is StorageState.ONLINE else None`
abbrev pub online_root : StorageManager → Option String
online_root m = if is_online m.state then m.external_root else none

abbrev pub write_failed : StorageManager → String → StorageManager
write_failed m e =
    set_state m degraded none
      (f_string ("External write failed (" ∷ e ∷ "); new data is queued locally." ∷ []))

module _ (sha256 : Bytes → String) where
  abbrev stored : String → Bytes → Bool → Option (String × String) → StoredObject
  stored relative contents queued external_path = record {
    relative_path = relative;
    sha256 = sha256 contents;
    size_bytes = length contents;
    queued = queued;
    external_path = external_path;
  }

  queue_write :
      StorageManager
      → String
      → Bytes
      → LocalOutcome
      → Result StorageError StoredObject × StorageManager
  queue_write m relative contents too_little_space = (err low_space, m)
  queue_write m relative contents (local_error e) = (err (os_error e), m)
  queue_write m relative contents wrong_checksum =
      (err checksum_failed, record m { objects = remove m.objects relative })
  queue_write m relative contents kept_locally = (
    ok (stored relative contents true none),
    record m {
      objects = put m.objects relative contents;
      queue =
          put m.queue relative (record { sha256 = sha256 contents; size_bytes = length contents });
    },
  )

  -- `_queue_bytes`
  unfoldable pub queue_bytes :
      StorageManager
      → String
      → Bytes
      → LocalOutcome
      → Result StorageError StoredObject × StorageManager
  unfolding queue_write
  queue_bytes m relative contents local =
      if ltb m.queue_limit_bytes
        (pending_bytes m.queue - queued_size m.queue relative + length contents)
      then (err queue_full, m)
      else queue_write m relative contents local

  unfoldable pub save_at :
      StorageManager
      → String
      → Bytes
      → LocalOutcome
      → Option String
      → WriteOutcome
      → Result StorageError StoredObject × StorageManager
  save_at m relative contents local none outcome = queue_bytes m relative contents local
  save_at m relative contents local (some root) verified = (
    ok (stored relative contents false (some (root, relative))),
    record m { external = put m.external relative contents },
  )
  save_at m relative contents local (some root) (refused e) =
      queue_bytes (write_failed m e) relative contents local
  save_at m relative contents local (some root) (corrupted other) =
      queue_bytes
        (write_failed (record m { external = put m.external relative other })
          "checksum verification failed after write")
        relative contents local

  -- `save_bytes`
  unfoldable pub save_bytes :
      StorageManager
      → String
      → Bytes
      → WriteOutcome
      → LocalOutcome
      → Result StorageError StoredObject × StorageManager
  unfolding save_at
  save_bytes m relative contents outcome local =
      let m = record m { deletions = remove m.deletions relative } in
      save_at m relative contents local (online_root m) outcome
