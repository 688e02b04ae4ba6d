-- ===== src/Storage/Limits.antt =====
-- The bound of the fallback queue of ron/storage/manager.py, and which calls queue no more.
use ron_personal_assistant.Prelude.{
  ℕ, ◌+◌, ◌≤◌, String, ◌≡◌, refl, ◌∙◌, Bool, true, false, Option, none, some, List, [], ◌∷◌, arith,
  length, Result, ok, err,
}
use ron_personal_assistant.Prelude.Dict.{Dict, text_key, get, put, remove}
use ron_personal_assistant.Storage.{
  Bytes, QueuedWrite, StorageManager, StorageError, WriteOutcome, verified, refused, corrupted,
  DeleteOutcome, deleted, undeleted, LocalOutcome, set_state, online_root, pending_bytes,
  queued_size, queue_write, queue_bytes, save_at, write_failed,
}
use ron_personal_assistant.Storage.Sync.{
  remove_queued_write, queue_deletion, delete_at, delete, sync_deletion, sync_deletions, sync_row,
  sync_rows,
}

abbrev pub IsWithinLimit : StorageManager → Type 0
IsWithinLimit m = pending_bytes m.queue ≤ m.queue_limit_bytes

queued_size-le : (q : Dict String QueuedWrite) (k : String) → queued_size q k ≤ pending_bytes q
unfolding queued_size pending_bytes get
queued_size-le [] k = omega arith
queued_size-le ((j, row) ∷ q) k = ground (arith, queued_size-le q k)

pending_bytes-put :
    (q : Dict String QueuedWrite) (k : String) (row : QueuedWrite)
    → pending_bytes (put q k row) + queued_size q k ≡ pending_bytes q + row.size_bytes
unfolding queued_size pending_bytes get put
pending_bytes-put [] k row = omega arith
pending_bytes-put ((j, old) ∷ q) k row = ground (arith, pending_bytes-put q k row)

pub pending_bytes-remove :
    (q : Dict String QueuedWrite) (k : String) → pending_bytes (remove q k) ≤ pending_bytes q
unfolding pending_bytes remove
pending_bytes-remove [] k = omega arith
pending_bytes-remove ((j, old) ∷ q) k = ground (arith, pending_bytes-remove q k)

module _ (sha256 : Bytes → String) (relative : String) (contents : Bytes) where
  pub queue_bytes-IsWithinLimit :
      (m : StorageManager) (local : LocalOutcome)
      → IsWithinLimit m
      → IsWithinLimit (queue_bytes sha256 m relative contents local).1
  unfolding queue_bytes queue_write
  queue_bytes-IsWithinLimit m local h =
      let row : QueuedWrite = record { sha256 = sha256 contents; size_bytes = length contents } in
      ground (arith, h, queued_size-le m.queue relative, pending_bytes-put m.queue relative row)

  pub save_at-IsWithinLimit :
      (m : StorageManager) (local : LocalOutcome) (root : Option String) (outcome : WriteOutcome)
      → IsWithinLimit m
      → IsWithinLimit (save_at sha256 m relative contents local root outcome).1
  unfolding save_at set_state
  save_at-IsWithinLimit m local none outcome h = queue_bytes-IsWithinLimit m local h
  save_at-IsWithinLimit m local (some root) verified h = h
  save_at-IsWithinLimit m local (some root) (refused e) h =
      queue_bytes-IsWithinLimit (write_failed m e) local h
  save_at-IsWithinLimit m local (some root) (corrupted other) h =
      queue_bytes-IsWithinLimit _ local h

-- No more is queued, and the limit is the same.
pub record IsSmaller (m m' : StorageManager) : Type 0 where
  pub bytes_le : pending_bytes m'.queue ≤ pending_bytes m.queue
  pub same_limit : m'.queue_limit_bytes ≡ m.queue_limit_bytes

pub IsSmaller-trans : {a b c : StorageManager} → IsSmaller a b → IsSmaller b c → IsSmaller a c
IsSmaller-trans h k = record {
  bytes_le = ground (arith, h.bytes_le, k.bytes_le);
  same_limit = k.same_limit ∙ h.same_limit;
}

pub IsSmaller-same :
    (m m' : StorageManager)
    → m'.queue ≡ m.queue
    → m'.queue_limit_bytes ≡ m.queue_limit_bytes
    → IsSmaller m m'
IsSmaller-same m m' q l = record { bytes_le = rw q (omega arith); same_limit = l }

pub IsSmaller-limit : {m m' : StorageManager} → IsSmaller m m' → IsWithinLimit m → IsWithinLimit m'
IsSmaller-limit h w = ground (arith, h.bytes_le, h.same_limit, w)

pub IsSmaller-delete :
    (m : StorageManager) (relative : String) (outcome : DeleteOutcome)
    → IsSmaller m (delete m relative outcome).1
unfolding delete
IsSmaller-delete m relative outcome = go (online_root (remove_queued_write m relative)) outcome
  where
    unqueued : IsSmaller m (remove_queued_write m relative)
    unqueued =
        unfold remove_queued_write in
        record { bytes_le = pending_bytes-remove m.queue relative; same_limit = refl }

    go :
        (root : Option String) (outcome : DeleteOutcome)
        → IsSmaller m (delete_at (remove_queued_write m relative) relative root outcome).1
    go none outcome =
        unfold delete_at queue_deletion in IsSmaller-trans unqueued (IsSmaller-same _ _ refl refl)
    go (some root) deleted =
        unfold delete_at in IsSmaller-trans unqueued (IsSmaller-same _ _ refl refl)
    go (some root) (undeleted e) =
        unfold delete_at queue_deletion set_state in
        IsSmaller-trans unqueued (IsSmaller-same _ _ refl refl)

module _ (sha256 : Bytes → String) (deletes : String → DeleteOutcome)
    (writes : String → WriteOutcome) where
  pub IsSmaller-deletions :
      (rows : List (String × Unit {0})) (synced : ℕ) (m : StorageManager)
      → IsSmaller m (sync_deletions deletes rows synced m).1
  unfolding sync_deletions
  IsSmaller-deletions [] synced m = IsSmaller-same m m refl refl
  IsSmaller-deletions ((relative, u) ∷ rows) synced m =
      go (deletes relative) (λ m'. IsSmaller-deletions rows (synced + 1) m')
    where
      go :
          (outcome : DeleteOutcome)
          → ((m' : StorageManager) → IsSmaller m' (sync_deletions deletes rows (synced + 1) m').1)
          → IsSmaller m
              (elim (sync_deletion m relative outcome).0
                as (λ x. Result StorageError ℕ × StorageManager) [
                  | err e ↦ (err e, (sync_deletion m relative outcome).1)
                  | ok _ ↦
                      sync_deletions deletes rows (synced + 1) (sync_deletion m relative outcome).1
                ]).1
      go (undeleted e) rest = IsSmaller-same m m refl refl
      go deleted rest = IsSmaller-trans (IsSmaller-same m _ refl refl) (rest _)

  IsSmaller-row :
      (m : StorageManager) (relative : String) (row : QueuedWrite) (outcome : WriteOutcome)
      → IsSmaller m (sync_row sha256 m relative row outcome).1
  unfolding sync_row
  IsSmaller-row m relative row outcome = record {
    bytes_le = ground (arith, pending_bytes-remove m.queue relative);
    same_limit = ground arith;
  }

  pub IsSmaller-rows :
      (rows : List (String × QueuedWrite)) (synced : ℕ) (m : StorageManager)
      → IsSmaller m (sync_rows sha256 writes rows synced m).1
  unfolding sync_rows
  IsSmaller-rows [] synced m = IsSmaller-same m m refl refl
  IsSmaller-rows ((relative, row) ∷ rows) synced m =
      go (sync_row sha256 m relative row (writes relative))
        (IsSmaller-row m relative row (writes relative)) (λ n m'. IsSmaller-rows rows n m')
    where
      go :
          (r : Result StorageError Bool × StorageManager)
          → IsSmaller m r.1
          → ((n : ℕ) (m' : StorageManager) → IsSmaller m' (sync_rows sha256 writes rows n m').1)
          → IsSmaller m
              (elim r.0 as (λ x. Result StorageError ℕ × StorageManager) [
                | err e ↦ (err e, r.1)
                | ok true ↦ sync_rows sha256 writes rows (synced + 1) r.1
                | ok false ↦ sync_rows sha256 writes rows synced r.1
              ]).1
      go (err e, m') k rest = k
      go (ok true, m') k rest = IsSmaller-trans k (rest (synced + 1) m')
      go (ok false, m') k rest = IsSmaller-trans k (rest synced m')
