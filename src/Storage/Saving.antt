-- ===== src/Storage/Saving.antt =====
-- What `save_bytes` of ron/storage/manager.py does to the stored contents.
use ron_personal_assistant.Prelude.{
  ◌+◌, ◌-◌, String, ◌≡◌, refl, ap, ◌∙◌, inl, inr, Bool, true, false, Option, none, some, arith,
  str_eq, eq_iff, if◌then◌else◌, Bool-cases, length, ltb, ◌<◌, Result, ok, err,
}
use ron_personal_assistant.Prelude.Dict.{
  text_key, get, contains, put, remove, get-put, get-remove, beq_refl,
}
use ron_personal_assistant.Storage.{
  Bytes, QueuedWrite, StorageManager, StorageError, queue_full, StoredObject, WriteOutcome,
  verified, refused, corrupted, LocalOutcome, kept_locally, too_little_space, local_error,
  wrong_checksum, set_state, online_root, pending_bytes, queued_size, queue_write, queue_bytes,
  save_at, save_bytes, write_failed,
}
use ron_personal_assistant.Storage.View.{view, IsConsistent}

-- The same contents everywhere else.
abbrev pub IsSameElsewhere : StorageManager → String → StorageManager → Type 0
IsSameElsewhere m relative m' = (p : String) → str_eq relative p ≡ false → view m' p ≡ view m p

-- What a reader finds under the path, if it was queued.
abbrev IsQueuedAs : String → Bytes → Result StorageError StoredObject × StorageManager → Type 0
IsQueuedAs relative contents (err _, m') = Unit
IsQueuedAs relative contents (ok o, m') = (o.queued ≡ true) × (view m' relative ≡ some contents)

record IsQueueing (m : StorageManager) (relative : String) (contents : Bytes)
    (r : Result StorageError StoredObject × StorageManager) : Type 0 where
  pub consistent : IsConsistent r.1
  pub elsewhere : IsSameElsewhere m relative r.1
  pub there : IsQueuedAs relative contents r

module _ (sha256 : Bytes → String) (m : StorageManager) (relative : String) (contents : Bytes)
    (c : IsConsistent m) (free : contains m.deletions relative ≡ false) where
  queue_write-IsQueueing :
      (local : LocalOutcome)
      → IsQueueing m relative contents (queue_write sha256 m relative contents local)
  unfolding queue_write
  queue_write-IsQueueing too_little_space = record {
    consistent = c;
    elsewhere = λ p e. refl;
    there = tt;
  }
  queue_write-IsQueueing (local_error e) = record {
    consistent = c;
    elsewhere = λ p e. refl;
    there = tt;
  }
  queue_write-IsQueueing wrong_checksum = record {
    consistent = record {
      covered = λ p b e. ground (arith, c.covered p b, get-remove m.objects relative p);
      disjoint = c.disjoint;
    };
    elsewhere = λ p e. unfold view in ground (arith, get-remove m.objects relative p);
    there = tt;
  }
  queue_write-IsQueueing kept_locally =
      let row : QueuedWrite = record { sha256 = sha256 contents; size_bytes = length contents } in
      record {
        consistent = record {
          covered = λ p b e. ground (
            arith,
            c.covered p b,
            get-put m.objects relative p contents,
            get-put m.queue relative p row,
          );
          disjoint = λ p e. elim (Bool-cases (str_eq relative p)) [
            | inl here ↦ rw ((eq_iff relative p).0 here) at free
            | inr there ↦ ground (arith, there, c.disjoint p, get-put m.queue relative p row)
          ];
        };
        elsewhere = λ p e.
            unfold view in
            ground (arith, get-put m.objects relative p contents, get-put m.queue relative p row);
        there = (
          refl,
          unfold view in
              ground (
                arith,
                free,
                beq_refl relative,
                get-put m.objects relative relative contents,
                get-put m.queue relative relative row,
              ),
        );
      }

  queue_bytes-IsQueueing :
      (local : LocalOutcome)
      → IsQueueing m relative contents (queue_bytes sha256 m relative contents local)
  unfolding queue_bytes
  queue_bytes-IsQueueing local = go (
      ltb m.queue_limit_bytes
        (pending_bytes m.queue - queued_size m.queue relative + length contents))
    where
      go :
          (b : Bool)
          → IsQueueing m relative contents
              (if b then (err queue_full, m) else queue_write sha256 m relative contents local)
      go true = record { consistent = c; elsewhere = λ p e. refl; there = tt }
      go false = queue_write-IsQueueing local

-- What a reader finds after a save that did not fail.
abbrev pub held : StorageManager → String → Bytes → Option QueuedWrite → Option Bytes
held m relative contents none = some contents
held m relative contents (some row) = elim (get m.objects relative) [
  | none ↦ some contents
  | some old ↦ some old
]

abbrev pub Shows :
    StorageManager → String → Bytes → Result StorageError StoredObject × StorageManager → Type 0
Shows m relative contents (err _, m') = Unit
Shows m relative contents (ok o, m') =
    view m' relative
    ≡ (if o.queued then some contents else held m relative contents (get m.queue relative))

pub record IsSaved (m : StorageManager) (relative : String) (contents : Bytes)
    (r : Result StorageError StoredObject × StorageManager) : Type 0 where
  pub consistent : IsConsistent r.1
  pub elsewhere : IsSameElsewhere m relative r.1
  pub shows : Shows m relative contents r

module _ (sha256 : Bytes → String) (relative : String) (contents : Bytes) where
  from_queue :
      (m m' : StorageManager) (r : Result StorageError StoredObject × StorageManager)
      → IsSameElsewhere m relative m'
      → IsQueueing m' relative contents r
      → IsSaved m relative contents r
  from_queue m m' (err e, m'') same q = record {
    consistent = q.consistent;
    elsewhere = λ p e. q.elsewhere p e ∙ same p e;
    shows = tt;
  }
  from_queue m m' (ok o, m'') same q = record {
    consistent = q.consistent;
    elsewhere = λ p e. q.elsewhere p e ∙ same p e;
    shows = rw q.there.0 q.there.1;
  }

  module _ (m : StorageManager) (c : IsConsistent m) where
    abbrev uncancelled : StorageManager
    uncancelled = record m { deletions = remove m.deletions relative }

    uncancelled-IsConsistent : IsConsistent uncancelled
    uncancelled-IsConsistent = record {
      covered = c.covered;
      disjoint = λ p e. ground (arith, c.disjoint p, get-remove m.deletions relative p);
    }

    uncancelled_free : contains uncancelled.deletions relative ≡ false
    uncancelled_free = ground (arith, beq_refl relative, get-remove m.deletions relative relative)

    uncancelled_elsewhere : IsSameElsewhere m relative uncancelled
    uncancelled_elsewhere p e = unfold view in ground (arith, get-remove m.deletions relative p)

    save_at-IsSaved :
        (local : LocalOutcome) (root : Option String) (outcome : WriteOutcome)
        → IsSaved m relative contents
            (save_at sha256 uncancelled relative contents local root outcome)
    unfolding save_at
    save_at-IsSaved local none outcome = from_queue m uncancelled _ uncancelled_elsewhere (
        queue_bytes-IsQueueing sha256 uncancelled relative contents uncancelled-IsConsistent
          uncancelled_free local)
    save_at-IsSaved local (some root) verified = record {
      consistent = record {
        covered = uncancelled-IsConsistent.covered;
        disjoint = uncancelled-IsConsistent.disjoint;
      };
      elsewhere = λ p e.
          unfold view in
          ground (arith, get-remove m.deletions relative p, get-put m.external relative p contents);
      shows =
          unfold view in
          ground (
            arith,
            beq_refl relative,
            get-remove m.deletions relative relative,
            get-put m.external relative relative contents,
          );
    }
    save_at-IsSaved local (some root) (refused e) =
        unfold set_state in
        from_queue m (write_failed uncancelled e) _
          (λ p d. unfold view in uncancelled_elsewhere p d)
          (queue_bytes-IsQueueing sha256 (write_failed uncancelled e) relative contents
            (record {
              covered = uncancelled-IsConsistent.covered;
              disjoint = uncancelled-IsConsistent.disjoint;
            })
            uncancelled_free local)
    save_at-IsSaved local (some root) (corrupted other) =
        let spoilt = record uncancelled { external = put m.external relative other } in
        let left = write_failed spoilt "checksum verification failed after write" in
        unfold set_state in
        from_queue m left _
          (λ p d.
            unfold view in
            ground
              (arith, d, get-remove m.deletions relative p, get-put m.external relative p other))
          (queue_bytes-IsQueueing sha256 left relative contents
            (record {
              covered = uncancelled-IsConsistent.covered;
              disjoint = uncancelled-IsConsistent.disjoint;
            })
            uncancelled_free local)

    -- A save of `contents` under a path, from consistent tables, whatever the two disks do. The contents of every other path
    -- stay. If it reports a queued write, the path has the new contents; if it reports a stored
    -- one, it has them unless an older write of the path is still queued, which hides them.
    pub save_bytes-IsSaved :
        (outcome : WriteOutcome) (local : LocalOutcome)
        → IsSaved m relative contents (save_bytes sha256 m relative contents outcome local)
    unfolding save_bytes
    save_bytes-IsSaved outcome local = save_at-IsSaved local (online_root uncancelled) outcome

refused_save :
    (sha256 : Bytes → String) (m : StorageManager) (relative : String) (contents : Bytes)
    (outcome : WriteOutcome) (local : LocalOutcome) (c : IsConsistent m)
    → online_root m ≡ none
    → get m.queue relative ≡ none
    → m.queue_limit_bytes < pending_bytes m.queue + length contents
    → save_bytes sha256 m relative contents outcome local
      ≡ (err queue_full, uncancelled sha256 relative contents m c)
unfolding save_bytes save_at queue_bytes queued_size
refused_save sha256 m relative contents outcome local c away empty full =
    ap
      (λ root.
        save_at sha256 (uncancelled sha256 relative contents m c) relative contents local root
          outcome)
      away
    ∙ ground (arith, empty, full)

-- From consistent tables, a save that the full queue refuses while the drive is away and the path's
-- deletion is queued: whatever is still on the drive under the path, which nobody could read before
-- the save, is found again.
pub refused_save_revives :
    (sha256 : Bytes → String) (m : StorageManager) (relative : String) (contents : Bytes)
    (outcome : WriteOutcome) (local : LocalOutcome)
    → IsConsistent m
    → contains m.deletions relative ≡ true
    → online_root m ≡ none
    → m.queue_limit_bytes < pending_bytes m.queue + length contents
    → let (result, m') = save_bytes sha256 m relative contents outcome local in
      (result ≡ err queue_full)
      × (view m relative ≡ none)
      × (view m' relative ≡ get m.external relative)
refused_save_revives sha256 m relative contents outcome local c waiting away full =
    let empty : get m.queue relative ≡ none = ground (arith, c.disjoint relative, waiting) in
    rw (refused_save sha256 m relative contents outcome local c away empty full) (
      refl,
      unfold view in rw (waiting, view) refl,
      unfold view in ground (arith, empty, uncancelled_free sha256 relative contents m c),
    )
