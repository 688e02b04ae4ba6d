-- ===== src/Storage/Recovering.antt =====
-- `sync_pending` of ron/storage/manager.py and the stored contents.
use ron_personal_assistant.Prelude.{
  ℕ, ◌+◌, String, ◌≡◌, refl, ap, ◌∙◌, inl, inr, Bool, true, false, not, Option, none, some, List,
  [], ◌∷◌, arith, str_eq, eq_iff, ltb, if◌then◌else◌, Bool-cases, Result, ok, err, All,
}
use ron_personal_assistant.Prelude.Dict.{Dict, text_key, get, contains, get-remove, beq_refl}
use ron_personal_assistant.Storage.{
  StorageState, recovering, set_state, pending_stats, Bytes, QueuedWrite, StorageManager,
  StorageError, WriteOutcome, DeleteOutcome, deleted, undeleted,
}
use ron_personal_assistant.Storage.Sync.{
  sync_row, sync_rows, sync_deletion, sync_deletions, sync_pending, after_rows, after_deletions,
  after_sync, use_drive, refresh_once, Found, discovery_failed, no_drive, wrong_identity,
  unavailable, usable,
}
use ron_personal_assistant.Storage.View.{
  view, IsConsistent, KeepsView, KeepsView-trans, KeepsView-refl, sync_row-KeepsView,
}

-- Nothing is stored or queued under the path of this row.
abbrev IsGone : StorageManager → String × Unit {0} → Type 0
IsGone m row = (get m.queue row.0 ≡ none) × (view m row.0 ≡ none)

module _ (m : StorageManager) (c : IsConsistent m) (row : String × Unit {0})
    (gone : IsGone m row) where
  sync_deletion-KeepsView :
      (outcome : DeleteOutcome) → KeepsView m (sync_deletion m row.0 outcome).1
  sync_deletion-KeepsView (undeleted e) = KeepsView-refl m c
  sync_deletion-KeepsView deleted = record {
    consistent = record {
      covered = c.covered;
      disjoint = λ p e. ground (arith, c.disjoint p, get-remove m.deletions row.0 p);
    };
    same = λ p. elim (Bool-cases (str_eq row.0 p)) [
      | inl here ↦
          let same : row.0 ≡ p = (eq_iff row.0 p).0 here in
          let empty : get m.queue p ≡ none = rw⁻¹ same gone.0 in
          let before : view m p ≡ none = rw⁻¹ same gone.1 in
          unfold view in
          ground
            (arith, empty, before, get-remove m.external row.0 p, get-remove m.deletions row.0 p)
      | inr there ↦
          unfold view in
          ground (arith, there, get-remove m.external row.0 p, get-remove m.deletions row.0 p)
    ];
  }

  queue-sync_deletion :
      (outcome : DeleteOutcome) → (sync_deletion m row.0 outcome).1.queue ≡ m.queue
  queue-sync_deletion (undeleted e) = refl
  queue-sync_deletion deleted = refl

All-IsGone :
    (m m' : StorageManager) (rows : List (String × Unit {0}))
    → m'.queue ≡ m.queue
    → KeepsView m m'
    → All (IsGone m) rows
    → All (IsGone m') rows
All-IsGone m m' [] q k h = tt
All-IsGone m m' (row ∷ rows) q k ((a, b), h) =
    ((ap (λ d. get d row.0) q ∙ a, k.same row.0 ∙ b), All-IsGone m m' rows q k h)

sync_deletions-KeepsView :
    (answer : String → DeleteOutcome) (rows : List (String × Unit {0})) (synced : ℕ)
    (m : StorageManager)
    → IsConsistent m
    → All (IsGone m) rows
    → KeepsView m (sync_deletions answer rows synced m).1
unfolding sync_deletions
sync_deletions-KeepsView answer [] synced m c h = KeepsView-refl m c
sync_deletions-KeepsView answer ((relative, u) ∷ rows) synced m c (gone, h) =
    go (answer relative) (sync_deletion-KeepsView m c (relative, u) gone (answer relative))
      (λ m' k. sync_deletions-KeepsView answer rows (synced + 1) m' k)
  where
    go :
        (outcome : DeleteOutcome)
        → KeepsView m (sync_deletion m relative outcome).1
        → ((m' : StorageManager)
            → IsConsistent m'
            → All (IsGone m') rows
            → KeepsView m' (sync_deletions answer rows (synced + 1) m').1)
        → KeepsView m
            (elim (sync_deletion m relative outcome).0
              as (λ x. Result StorageError ℕ × StorageManager) [
                | err e ↦ (err e, (sync_deletion m relative outcome).1)
                | ok _ ↦
                    sync_deletions answer rows (synced + 1) (sync_deletion m relative outcome).1
              ]).1
    go (undeleted e) k rest = k
    go deleted k rest =
        let m' = (sync_deletion m relative deleted).1 in
        KeepsView-trans k (rest m' k.consistent (All-IsGone m m' rows refl k h))

All-contains :
    (d e : Dict String (Unit {0}))
    → ((k : String) → contains d k ≡ true → contains e k ≡ true)
    → All (λ row. contains e row.0 ≡ true) d
unfolding get
All-contains [] e f = tt
All-contains ((k, u) ∷ d) e f =
    (f k (ground (arith, beq_refl k)), All-contains d e (λ j h. f j (ground arith)))

IsGone-rows :
    (m : StorageManager) (rows : List (String × Unit {0}))
    → IsConsistent m
    → All (λ row. contains m.deletions row.0 ≡ true) rows
    → All (IsGone m) rows
unfolding view
IsGone-rows m [] c h = tt
IsGone-rows m ((k, u) ∷ rows) c (in_table, h) =
    ((ground (arith, c.disjoint k), ground arith), IsGone-rows m rows c h)

module _ (sha256 : Bytes → String) (writes : String → WriteOutcome) where
  sync_rows-KeepsView :
      (rows : List (String × QueuedWrite)) (synced : ℕ) (m : StorageManager)
      → IsConsistent m
      → KeepsView m (sync_rows sha256 writes rows synced m).1
  unfolding sync_rows
  sync_rows-KeepsView [] synced m c = KeepsView-refl m c
  sync_rows-KeepsView ((relative, row) ∷ rows) synced m c =
      go (sync_row sha256 m relative row (writes relative))
        (sync_row-KeepsView m c sha256 relative row (writes relative))
        (λ n m' k. sync_rows-KeepsView rows n m' k)
    where
      go :
          (r : Result StorageError Bool × StorageManager)
          → KeepsView m r.1
          → ((n : ℕ) (m' : StorageManager)
              → IsConsistent m'
              → KeepsView m' (sync_rows sha256 writes rows n m').1)
          → KeepsView m
              (elim r.0 as (λ x. Result StorageError ℕ × StorageManager) [
                | err e ↦ (err e, r.1)
                | ok true ↦ sync_rows sha256 writes rows (synced + 1) r.1
                | ok false ↦ sync_rows sha256 writes rows synced r.1
              ]).1
      go (err e, m') k rest = k
      go (ok true, m') k rest = KeepsView-trans k (rest (synced + 1) m' k.consistent)
      go (ok false, m') k rest = KeepsView-trans k (rest synced m' k.consistent)

  after_rows-KeepsView :
      (m : StorageManager) (r : Result StorageError ℕ × StorageManager)
      → KeepsView m r.1
      → KeepsView m (after_rows sha256 r).1
  unfolding after_rows view
  after_rows-KeepsView m (err e, m') k = k
  after_rows-KeepsView m (ok n, m') k = record {
    consistent = record { covered = k.consistent.covered; disjoint = k.consistent.disjoint };
    same = k.same;
  }

  after_deletions-KeepsView :
      (m : StorageManager) (r : Result StorageError ℕ × StorageManager)
      → KeepsView m r.1
      → KeepsView m (after_deletions sha256 writes r).1
  unfolding after_deletions
  after_deletions-KeepsView m (err e, m') k = k
  after_deletions-KeepsView m (ok n, m') k =
      after_rows-KeepsView m _ (KeepsView-trans k (sync_rows-KeepsView m'.queue n m' k.consistent))

  -- Whatever the drive does during a recovery that starts from consistent tables (it takes a write or
  -- a deletion, refuses it, or leaves other bytes behind, which ends the recovery): the contents of
  -- every path stay as they were, and the tables stay consistent.
  pub sync_pending-KeepsView :
      (deletes : String → DeleteOutcome) (m : StorageManager)
      → IsConsistent m
      → KeepsView m (sync_pending sha256 deletes writes m).1
  unfolding sync_pending
  sync_pending-KeepsView deletes m c = go m.external_root
    where
      go :
          (root : Option String)
          → KeepsView m
              (elim root as (λ x. Result StorageError ℕ × StorageManager) [
                | none ↦ (ok 0, m)
                | some _ ↦ after_deletions sha256 writes (sync_deletions deletes m.deletions 0 m)
              ]).1
      go none = KeepsView-refl m c
      go (some root) = after_deletions-KeepsView m _ (
          sync_deletions-KeepsView deletes m.deletions 0 m c
            (IsGone-rows m m.deletions c (All-contains m.deletions m.deletions (λ k h. h))))

  set_state-KeepsView :
      (m m' : StorageManager) (state : StorageState) (root : Option String) (detail : String)
      → KeepsView m m'
      → KeepsView m (set_state m' state root detail)
  unfolding set_state view
  set_state-KeepsView m m' state root detail k = record {
    consistent = record { covered = k.consistent.covered; disjoint = k.consistent.disjoint };
    same = k.same;
  }

  after_sync-KeepsView :
      (m : StorageManager) (root : String) (r : Result StorageError ℕ × StorageManager)
      → KeepsView m r.1
      → KeepsView m (after_sync sha256 root r)
  unfolding after_sync
  after_sync-KeepsView m root (err e, m') k = set_state-KeepsView m m' _ _ _ k
  after_sync-KeepsView m root (ok n, m') k = set_state-KeepsView m m' _ _ _ k

  use_drive-KeepsView :
      (deletes : String → DeleteOutcome) (sync : Bool) (m : StorageManager) (root : String)
      → IsConsistent m
      → KeepsView m (use_drive sha256 deletes writes sync m root)
  unfolding use_drive
  use_drive-KeepsView deletes sync m root c =
      choose (not (ltb 0 (pending_stats m).0)) (set_state-KeepsView m m _ _ _ (KeepsView-refl m c))
        (choose sync
          (after_sync-KeepsView m root _
            (KeepsView-trans waits (sync_pending-KeepsView deletes _ waits.consistent)))
          waits)
    where
      waits : KeepsView m (
          set_state m recovering
            (some root)
            "External memory is healthy; queued writes are waiting to sync.")
      waits =
          set_state-KeepsView m m recovering (some root)
            "External memory is healthy; queued writes are waiting to sync." (KeepsView-refl m c)

      choose :
          {x y : StorageManager} (b : Bool)
          → KeepsView m x
          → KeepsView m y
          → KeepsView m (if b then x else y)
      choose true h k = h
      choose false h k = k

  -- A check of the drive from consistent tables, whatever it finds and however the recovery that it
  -- may start ends: the contents of every path stay as they were, and the tables stay consistent.
  pub refresh_once-KeepsView :
      (deletes : String → DeleteOutcome) (sync : Bool) (m : StorageManager) (found : Found)
      → IsConsistent m
      → KeepsView m (refresh_once sha256 deletes writes sync m found)
  unfolding refresh_once
  refresh_once-KeepsView deletes sync m (discovery_failed e) c =
      set_state-KeepsView m m _ _ _ (KeepsView-refl m c)
  refresh_once-KeepsView deletes sync m no_drive c =
      set_state-KeepsView m m _ _ _ (KeepsView-refl m c)
  refresh_once-KeepsView deletes sync m (wrong_identity e) c =
      set_state-KeepsView m m _ _ _ (KeepsView-refl m c)
  refresh_once-KeepsView deletes sync m (unavailable e) c =
      set_state-KeepsView m m _ _ _ (KeepsView-refl m c)
  refresh_once-KeepsView deletes sync m (usable root) c = use_drive-KeepsView deletes sync m root c
