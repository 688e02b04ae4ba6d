-- ===== src/Storage/Deleting.antt =====
-- What `delete` of ron/storage/manager.py does to the stored contents.
use ron_personal_assistant.Prelude.{
  String, ◌≡◌, ap, inl, inr, Option, none, some, arith, str_eq, eq_iff, Bool-cases,
}
use ron_personal_assistant.Prelude.Dict.{text_key, get, contains, get-put, get-remove, beq_refl}
use ron_personal_assistant.Storage.{
  StorageManager, DeleteOutcome, deleted, undeleted, set_state, online_root,
}
use ron_personal_assistant.Storage.Sync.{remove_queued_write, queue_deletion, delete_at, delete}
use ron_personal_assistant.Storage.View.{view, IsConsistent}
use ron_personal_assistant.Storage.Saving.{IsSameElsewhere}

pub record IsDeleted (m : StorageManager) (relative : String) (m' : StorageManager) : Type 0 where
  pub consistent : IsConsistent m'
  pub elsewhere : IsSameElsewhere m relative m'
  pub gone : view m' relative ≡ none

module _ (m : StorageManager) (c : IsConsistent m) (relative : String) where
  abbrev unqueued : StorageManager
  unqueued = remove_queued_write m relative

  unqueued-IsConsistent : IsConsistent unqueued
  unfolding remove_queued_write
  unqueued-IsConsistent = record {
    covered = λ p b e. elim (Bool-cases (str_eq relative p)) [
      | inl here ↦
          let same : relative ≡ p = (eq_iff relative p).0 here in
          ground (
            arith,
            c.covered p b,
            rw same at (get-remove m.objects relative p),
            here,
            e,
            ap (λ x. contains m.queue x) same,
          )
      | inr there ↦ ground (
        arith,
        there,
        c.covered p b,
        get-remove m.objects relative p,
        get-remove m.queue relative p,
      )
    ];
    disjoint = λ p e. ground (arith, c.disjoint p, get-remove m.queue relative p);
  }

  unqueued_none : get unqueued.queue relative ≡ none
  unfolding remove_queued_write
  unqueued_none = ground (arith, beq_refl relative, get-remove m.queue relative relative)

  unqueued_elsewhere : IsSameElsewhere m relative unqueued
  unfolding remove_queued_write view
  unqueued_elsewhere p d =
      ground (arith, d, get-remove m.queue relative p, get-remove m.objects relative p)

  queue_deletion-IsDeleted :
      (m' : StorageManager)
      → IsConsistent m'
      → get m'.queue relative ≡ none
      → IsSameElsewhere m relative m'
      → IsDeleted m relative (queue_deletion m' relative)
  unfolding queue_deletion
  queue_deletion-IsDeleted m' c' empty same = record {
    consistent = record {
      covered = c'.covered;
      disjoint = λ p e. elim (Bool-cases (str_eq relative p)) [
        | inl here ↦
            let here_too : get m'.queue p ≡ none = rw ((eq_iff relative p).0 here) at empty in
            ground (arith, here_too, e)
        | inr there ↦ ground (arith, there, c'.disjoint p, get-put m'.deletions relative p tt)
      ];
    };
    elsewhere =
        λ p d. unfold view in ground (arith, d, get-put m'.deletions relative p tt, same p d);
    gone =
        unfold view in ground (arith, beq_refl relative, get-put m'.deletions relative relative tt);
  }

  delete_at-IsDeleted :
      (root : Option String) (outcome : DeleteOutcome)
      → IsDeleted m relative (delete_at unqueued relative root outcome).1
  unfolding delete_at
  delete_at-IsDeleted none outcome =
      queue_deletion-IsDeleted unqueued unqueued-IsConsistent unqueued_none unqueued_elsewhere
  delete_at-IsDeleted (some root) (undeleted e) =
      unfold set_state in
      queue_deletion-IsDeleted _
        (record {
          covered = unqueued-IsConsistent.covered;
          disjoint = unqueued-IsConsistent.disjoint;
        })
        unqueued_none (λ p d. unfold view in unqueued_elsewhere p d)
  delete_at-IsDeleted (some root) deleted = record {
    consistent = record {
      covered = unqueued-IsConsistent.covered;
      disjoint = λ p e.
          ground
            (arith, unqueued-IsConsistent.disjoint p e, get-remove unqueued.deletions relative p);
    };
    elsewhere = λ p d.
        unfold view in
        ground (
          arith,
          d,
          get-remove unqueued.deletions relative p,
          get-remove unqueued.external relative p,
          unqueued_elsewhere p d,
        );
    gone =
        unfold view in
        ground (
          arith,
          beq_refl relative,
          unqueued_none,
          get-remove unqueued.deletions relative relative,
          get-remove unqueued.external relative relative,
        );
  }

  -- A deletion from consistent tables, whether the drive is there, takes it or refuses it: nothing is found under the path
  -- any more, and the contents of every other path stay.
  pub delete-IsDeleted :
      (outcome : DeleteOutcome) → IsDeleted m relative (delete m relative outcome).1
  unfolding delete
  delete-IsDeleted outcome = delete_at-IsDeleted (online_root unqueued) outcome
