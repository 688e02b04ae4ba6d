-- ===== src/Storage/View.antt =====
-- What ron/storage/manager.py stores, wherever the bytes lie: the contents of a path are those of
-- the queued write if there is one, and those on the drive if not.
use ron_personal_assistant.Prelude.{
  String, ◌≡◌, ◌↔◌, refl, ◌∙◌, inl, inr, Bool, true, false, not, Option, none, some, arith, str_eq,
  eq_iff, if◌then◌else◌, Bool-cases, Result, ok,
}
use ron_personal_assistant.Prelude.Dict.{text_key, get, contains, get-put, get-remove}
use ron_personal_assistant.Storage.{
  Bytes, QueuedWrite, StorageManager, StorageError, online_root, WriteOutcome, verified, refused,
  corrupted,
}
use ron_personal_assistant.Storage.Sync.{read_bytes, read_external, sync_payload, sync_row}

abbrev pub queued_view : StorageManager → String → Option QueuedWrite → Option Bytes
queued_view m p none = get m.external p
queued_view m p (some row) = elim (get m.objects p) [ none ↦ get m.external p | some b ↦ some b ]

-- The contents of a path, for a reader that reaches the drive.
unfoldable pub view : StorageManager → String → Option Bytes
view m p = if contains m.deletions p then none else queued_view m p (get m.queue p)

-- An object belongs to a queued write, and no path has both a queued write and a queued deletion.
pub record IsConsistent (m : StorageManager) : Type 0 where
  pub covered : (p : String) (b : Bytes) → get m.objects p ≡ some b → contains m.queue p ≡ true
  pub disjoint : (p : String) → contains m.queue p ≡ true → contains m.deletions p ≡ false

-- The same contents at every path, and still consistent.
pub record KeepsView (m m' : StorageManager) : Type 0 where
  pub consistent : IsConsistent m'
  pub same : (p : String) → view m' p ≡ view m p

pub KeepsView-trans : {a b c : StorageManager} → KeepsView a b → KeepsView b c → KeepsView a c
KeepsView-trans h k = record { consistent = k.consistent; same = λ p. k.same p ∙ h.same p }

module _ (m : StorageManager) (c : IsConsistent m) where
  pub KeepsView-refl : KeepsView m m
  KeepsView-refl = record { consistent = c; same = λ p. refl }

  module _ (relative : String) (payload : Bytes) (at : get m.objects relative ≡ some payload) where
    sync_payload-KeepsView :
        (outcome : WriteOutcome) → KeepsView m (sync_payload m relative payload outcome).1
    sync_payload-KeepsView (refused e) = KeepsView-refl
    sync_payload-KeepsView (corrupted other) = record {
      consistent = record { covered = c.covered; disjoint = c.disjoint };
      same = λ p. elim (Bool-cases (str_eq relative p)) [
        | inl here ↦
            let same : relative ≡ p = (eq_iff relative p).0 here in
            unfold view in
            ground (arith, rw same at at, c.covered p payload, get-put m.external relative p other)
        | inr there ↦ unfold view in ground (arith, there, get-put m.external relative p other)
      ];
    }
    sync_payload-KeepsView verified = record {
      consistent = record {
        covered = λ p b e.
            ground (
              arith,
              c.covered p b,
              get-remove m.objects relative p,
              get-remove m.queue relative p,
            );
        disjoint = λ p e. ground (arith, c.disjoint p, get-remove m.queue relative p);
      };
      same = λ p. elim (Bool-cases (str_eq relative p)) [
        | inl here ↦
            let same : relative ≡ p = (eq_iff relative p).0 here in
            unfold view in
            ground (
              arith,
              rw same at at,
              c.covered p payload,
              c.disjoint p,
              get-put m.external relative p payload,
              get-remove m.queue relative p,
              get-remove m.objects relative p,
            )
        | inr there ↦
            unfold view in
            ground (
              arith,
              there,
              get-put m.external relative p payload,
              get-remove m.queue relative p,
              get-remove m.objects relative p,
            )
      ];
    }

  pub sync_row-KeepsView :
      (sha256 : Bytes → String) (relative : String) (row : QueuedWrite) (outcome : WriteOutcome)
      → KeepsView m (sync_row sha256 m relative row outcome).1
  unfolding sync_row
  sync_row-KeepsView sha256 relative row outcome = go (get m.objects relative) refl
    where
      checked :
          (payload : Bytes) (b : Bool)
          → get m.objects relative ≡ some payload
          → KeepsView m (if not b then (ok false, m) else sync_payload m relative payload outcome).1
      checked payload true at = sync_payload-KeepsView relative payload at outcome
      checked payload false at = KeepsView-refl

      go :
          (o : Option Bytes)
          → get m.objects relative ≡ o
          → KeepsView m
              (elim o as (λ x. Result StorageError Bool × StorageManager) [
                | none ↦ (ok false, m)
                | some payload ↦
                    if not (str_eq (sha256 payload) row.sha256)
                    then (ok false, m)
                    else sync_payload m relative payload outcome
              ]).1
      go none at = KeepsView-refl
      go (some payload) at = checked payload (str_eq (sha256 payload) row.sha256) at

-- While the drive is in use, a read returns exactly the contents of the path, and it raises where
-- there are none.
pub read_bytes_iff :
    (m : StorageManager) (p : String) (b : Bytes) (root : String)
    → online_root m ≡ some root
    → (read_bytes m p ≡ ok b) ↔ (view m p ≡ some b)
unfolding read_bytes read_external view
read_bytes_iff m p b root e = (λ h. ground (arith, e, h), λ h. ground (arith, e, h))
