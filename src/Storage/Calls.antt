-- ===== src/Storage/Calls.antt =====
-- Any sequence of steps of ron/storage/manager.py, from the monitor thread and the clients: whole calls,
-- the parts of a save between which another thread can come, and calls that end with an `OSError` of
-- the laptop's disk after they have changed the table.
use ron_personal_assistant.Prelude.{
  ℕ, String, refl, Bool, true, false, not, Option, none, some, List, [], ◌∷◌, if◌then◌else◌, ltb,
  Result, ok, err,
}
use ron_personal_assistant.Prelude.Dict.{Dict, text_key, remove}
use ron_personal_assistant.Storage.{
  Bytes, StorageManager, StorageState, StorageError, WriteOutcome, DeleteOutcome, LocalOutcome,
  set_state, recovering, pending_stats, online_root, queue_bytes, save_bytes,
}
use ron_personal_assistant.Storage.Sync.{
  delete, sync_deletions, after_rows, after_deletions, sync_pending, after_sync, use_drive,
  refresh_once, Found, discovery_failed, no_drive, wrong_identity, unavailable, usable,
}
use ron_personal_assistant.Storage.Limits.{
  IsWithinLimit, IsSmaller, IsSmaller-trans, IsSmaller-same, IsSmaller-limit, IsSmaller-delete,
  IsSmaller-deletions, IsSmaller-rows, save_at-IsWithinLimit, queue_bytes-IsWithinLimit,
  pending_bytes-remove,
}

-- A step, with what the disks answer to it.
pub data Call : Type 0 where
  -- the two parts of a save that are not under one lock: `_cancel_pending_deletion`, and `_queue_bytes`
  -- behind a failed write to the drive
  cancels : String → Call
  queues : String → Bytes → LocalOutcome → Call
  -- a deletion, or a row of the recovery, whose queued file cannot be removed after its row is gone
  unqueues : String → Call
  -- a write of the laptop's disk that raises while it is read back, or any other change of the files
  leaves_files : Dict String Bytes → Call
  saves : String → Bytes → WriteOutcome → LocalOutcome → Call
  deletes : String → DeleteOutcome → Call
  syncs : (String → DeleteOutcome) → (String → WriteOutcome) → Call
  refreshes : (String → DeleteOutcome) → (String → WriteOutcome) → Bool → Found → Call

module _ (sha256 : Bytes → String) (drops : String → DeleteOutcome)
    (writes : String → WriteOutcome) where
  IsSmaller-after_rows :
      (m : StorageManager) (r : Result StorageError ℕ × StorageManager)
      → IsSmaller m r.1
      → IsSmaller m (after_rows sha256 r).1
  unfolding after_rows
  IsSmaller-after_rows m (err e, m') h = h
  IsSmaller-after_rows m (ok n, m') h = IsSmaller-trans h (IsSmaller-same m' _ refl refl)

  IsSmaller-after_deletions :
      (m : StorageManager) (r : Result StorageError ℕ × StorageManager)
      → IsSmaller m r.1
      → IsSmaller m (after_deletions sha256 writes r).1
  unfolding after_deletions
  IsSmaller-after_deletions m (err e, m') h = h
  IsSmaller-after_deletions m (ok n, m') h =
      IsSmaller-after_rows m _
        (IsSmaller-trans h (IsSmaller-rows sha256 drops writes m'.queue n m'))

  IsSmaller-sync_pending : (m : StorageManager) → IsSmaller m (sync_pending sha256 drops writes m).1
  unfolding sync_pending
  IsSmaller-sync_pending m = go m.external_root
    where
      go :
          (root : Option String)
          → IsSmaller m
              (elim root as (λ x. Result StorageError ℕ × StorageManager) [
                | none ↦ (ok 0, m)
                | some _ ↦ after_deletions sha256 writes (sync_deletions drops m.deletions 0 m)
              ]).1
      go none = IsSmaller-same m m refl refl
      go (some root) =
          IsSmaller-after_deletions m _ (IsSmaller-deletions sha256 drops writes m.deletions 0 m)

  IsSmaller-set_state :
      (m m' : StorageManager) (state : StorageState) (root : Option String) (detail : String)
      → IsSmaller m m'
      → IsSmaller m (set_state m' state root detail)
  unfolding set_state
  IsSmaller-set_state m m' state root detail h = IsSmaller-trans h (IsSmaller-same m' _ refl refl)

  IsSmaller-after_sync :
      (m : StorageManager) (root : String) (r : Result StorageError ℕ × StorageManager)
      → IsSmaller m r.1
      → IsSmaller m (after_sync sha256 root r)
  unfolding after_sync
  IsSmaller-after_sync m root (err e, m') h = IsSmaller-set_state m m' _ _ _ h
  IsSmaller-after_sync m root (ok n, m') h = IsSmaller-set_state m m' _ _ _ h

  IsSmaller-branch :
      {m x y : StorageManager} (b : Bool)
      → IsSmaller m x
      → IsSmaller m y
      → IsSmaller m (if b then x else y)
  IsSmaller-branch true h k = h
  IsSmaller-branch false h k = k

  IsSmaller-same_state :
      (m : StorageManager) (state : StorageState) (root : Option String) (detail : String)
      → IsSmaller m (set_state m state root detail)
  IsSmaller-same_state m state root detail =
      IsSmaller-set_state m m state root detail (IsSmaller-same m m refl refl)

  IsSmaller-refresh :
      (sync : Bool) (m : StorageManager) (found : Found)
      → IsSmaller m (refresh_once sha256 drops writes sync m found)
  unfolding refresh_once use_drive
  IsSmaller-refresh sync m (usable root) =
      let waits =
        IsSmaller-same_state m recovering (some root)
          "External memory is healthy; queued writes are waiting to sync." in
      IsSmaller-branch (not (ltb 0 (pending_stats m).0)) (IsSmaller-same_state m _ _ _) (
        IsSmaller-branch sync
          (IsSmaller-after_sync m root _ (IsSmaller-trans waits (IsSmaller-sync_pending _))) waits)
  IsSmaller-refresh sync m (discovery_failed e) = IsSmaller-same_state m _ _ _
  IsSmaller-refresh sync m no_drive = IsSmaller-same_state m _ _ _
  IsSmaller-refresh sync m (wrong_identity e) = IsSmaller-same_state m _ _ _
  IsSmaller-refresh sync m (unavailable e) = IsSmaller-same_state m _ _ _

module _ (sha256 : Bytes → String) where
  unfoldable pub call : StorageManager → Call → StorageManager
  call m (cancels relative) = record m { deletions = remove m.deletions relative }
  call m (queues relative contents local) = (queue_bytes sha256 m relative contents local).1
  call m (unqueues relative) = record m { queue = remove m.queue relative }
  call m (leaves_files objects) = record m { objects = objects }
  call m (saves relative contents outcome local) =
      (save_bytes sha256 m relative contents outcome local).1
  call m (deletes relative outcome) = (delete m relative outcome).1
  call m (syncs drops writes) = (sync_pending sha256 drops writes m).1
  call m (refreshes drops writes sync found) = refresh_once sha256 drops writes sync m found

  unfoldable pub calls : StorageManager → List Call → StorageManager
  calls m [] = m
  calls m (c ∷ rest) = calls (call m c) rest

  call-IsWithinLimit : (m : StorageManager) (c : Call) → IsWithinLimit m → IsWithinLimit (call m c)
  unfolding call
  call-IsWithinLimit m (cancels relative) h = h
  call-IsWithinLimit m (queues relative contents local) h =
      queue_bytes-IsWithinLimit sha256 relative contents m local h
  call-IsWithinLimit m (unqueues relative) h =
      let m' : StorageManager = record m { queue = remove m.queue relative } in
      IsSmaller-limit {m = m} {m' = m'}
        (record { bytes_le = pending_bytes-remove m.queue relative; same_limit = refl }) h
  call-IsWithinLimit m (leaves_files objects) h = h
  call-IsWithinLimit m (saves relative contents outcome local) h =
      unfold save_bytes in
      save_at-IsWithinLimit sha256 relative contents
        (record m { deletions = remove m.deletions relative }) local (online_root m) outcome h
  call-IsWithinLimit m (deletes relative outcome) h =
      IsSmaller-limit (IsSmaller-delete m relative outcome) h
  call-IsWithinLimit m (syncs drops writes) h =
      IsSmaller-limit (IsSmaller-sync_pending sha256 drops writes m) h
  call-IsWithinLimit m (refreshes drops writes sync found) h =
      IsSmaller-limit (IsSmaller-refresh sha256 drops writes sync m found) h

  -- From a manager within its limit, whatever is saved, deleted, synchronised or checked, in any order
  -- and with another thread between the parts of a save, whatever the two disks answer and whichever
  -- files they leave behind: the bytes of the queued writes, by their rows, stay within the limit.
  pub calls-IsWithinLimit :
      (m : StorageManager) (cs : List Call) → IsWithinLimit m → IsWithinLimit (calls m cs)
  unfolding calls
  calls-IsWithinLimit m [] h = h
  calls-IsWithinLimit m (c ∷ rest) h =
      calls-IsWithinLimit (call m c) rest (call-IsWithinLimit m c h)
