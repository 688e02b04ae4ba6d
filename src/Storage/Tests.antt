-- ===== src/Storage/Tests.antt =====
-- A laptop with one queued write and one queued deletion, and the witnesses of the theorems on the storage.
use ron_personal_assistant.Prelude.{
  List, String, ◌≡◌, refl, true, none, some, [], ◌∷◌, arith, err, str_eq, eq_iff, sym, ap, inl, inr,
  Bool-cases,
}
use ron_personal_assistant.Prelude.Dict.{text_key, get, contains, put, remove}
use ron_personal_assistant.Storage.{
  Bytes, StorageManager, online, degraded, queue_full, verified, corrupted, deleted, undeleted,
  kept_locally, save_bytes, save_at, pending_bytes,
}
use ron_personal_assistant.Storage.Sync.{delete, sync_pending, usable}
use ron_personal_assistant.Storage.View.{view, IsConsistent, KeepsView}
use ron_personal_assistant.Storage.Saving.{IsSaved, save_bytes-IsSaved, refused_save_revives}
use ron_personal_assistant.Storage.Deleting.{IsDeleted, delete-IsDeleted}
use ron_personal_assistant.Storage.Recovering.{sync_pending-KeepsView}
use ron_personal_assistant.Storage.Limits.{IsWithinLimit}
use ron_personal_assistant.Storage.Calls.{
  Call, cancels, queues, unqueues, leaves_files, saves, deletes, refreshes, calls,
  calls-IsWithinLimit,
}

abbrev hash : Bytes → String
hash contents = "h"

abbrev away : StorageManager
away = record {
  queue_limit_bytes = 4;
  state = degraded;
  external_root = some "/drive";
  detail = "";
  last_notice_state = some degraded;
  notices = [];
  queue = ("a", record { sha256 = "h"; size_bytes = 2 }) ∷ [];
  deletions = ("b", tt) ∷ [];
  objects = ("a", 7 ∷ 8 ∷ []) ∷ [];
  external = ("a", 1 ∷ []) ∷ ("b", 2 ∷ []) ∷ ("c", 3 ∷ []) ∷ [];
}

away-IsConsistent : IsConsistent away
unfolding get
away-IsConsistent = record {
  covered = λ p b e. ground arith;
  disjoint = λ p e. elim (Bool-cases (str_eq "a" p)) [
    | inl here ↦ ap (λ x. contains away.deletions x) (sym ((eq_iff "a" p).0 here))
    | inr there ↦ ground (arith, there, e)
  ];
}

-- The drive is back, and the write of "a" still queued.
abbrev back : StorageManager
back = record away { state = online }

back-IsConsistent : IsConsistent back
back-IsConsistent = record {
  covered = away-IsConsistent.covered;
  disjoint = away-IsConsistent.disjoint;
}

save_bytes-IsSaved_example :
    IsSaved back "a" (5 ∷ []) (save_bytes hash back "a" (5 ∷ []) verified kept_locally)
save_bytes-IsSaved_example =
    save_bytes-IsSaved hash "a" (5 ∷ []) back back-IsConsistent verified kept_locally

-- The stored bytes are hidden by those that were queued before.
hidden : view (save_bytes hash back "a" (5 ∷ []) verified kept_locally).1 "a" ≡ some (7 ∷ 8 ∷ [])
unfolding save_bytes save_at view get put remove
hidden = refl

delete-IsDeleted_example : IsDeleted away "a" (delete away "a" (undeleted "busy")).1
delete-IsDeleted_example = delete-IsDeleted away away-IsConsistent "a" (undeleted "busy")

sync_pending-KeepsView_example :
    KeepsView away (sync_pending hash (λ p. deleted) (λ p. verified) away).1
sync_pending-KeepsView_example =
    sync_pending-KeepsView hash (λ p. verified) (λ p. deleted) away away-IsConsistent

refused_save_revives_example :
    let (result, m') = save_bytes hash away "b" (4 ∷ 5 ∷ 6 ∷ []) verified kept_locally in
    (result ≡ err queue_full) × (view away "b" ≡ none) × (view m' "b" ≡ get away.external "b")
refused_save_revives_example =
    refused_save_revives hash away "b" (4 ∷ 5 ∷ 6 ∷ []) verified kept_locally away-IsConsistent
      (unfold get in refl) refl (unfold pending_bytes in omega arith)

away-IsWithinLimit : IsWithinLimit away
away-IsWithinLimit = unfold pending_bytes in omega arith

-- A deletion comes into a save, and its file cannot be removed.
abbrev troubled : List Call
troubled =
    cancels "a"
    ∷ unqueues "a"
    ∷ queues "a" (5 ∷ []) kept_locally
    ∷ saves "c" (5 ∷ []) verified kept_locally
    ∷ refreshes (λ p. deleted) (λ p. corrupted []) true (usable "/drive")
    ∷ leaves_files []
    ∷ deletes "a" deleted
    ∷ []

calls-IsWithinLimit_example : IsWithinLimit (calls hash away troubled)
calls-IsWithinLimit_example = calls-IsWithinLimit hash away troubled away-IsWithinLimit
