-- ===== src/Agent/Tasks/Keeping.antt =====
-- What every step of ron/agent/task_manager.py keeps: no record gets another prompt or other steps, a
-- request to cancel is never withdrawn, and all but a submission leave the table's ids as they are.
use ron_personal_assistant.Prelude.{
  ℕ, ◌<◌, ◌≡◌, refl, sym, ap, ◌∙◌, inl, inr, true, some, arith, ◌==◌, ==_iff, if◌then◌else◌,
  Bool-cases,
}
use ron_personal_assistant.Prelude.Dict.{nat_key, get, get-put}
use ron_personal_assistant.Agent.Tasks.{TaskRecord, TaskManager}
use ron_personal_assistant.Agent.Tasks.Fields.{IsWrite}

-- A record object's identity and orders, across a step.
pub record IsLater (r r' : TaskRecord) : Type 0 where
  pub task_id : r'.task_id ≡ r.task_id
  pub prompt : r'.prompt ≡ r.prompt
  pub steps : r'.steps ≡ r.steps
  pub confirmed : r'.confirmed ≡ r.confirmed
  pub requested : r.cancel_requested ≡ true → r'.cancel_requested ≡ true

pub IsLater-refl : (r : TaskRecord) → IsLater r r
IsLater-refl r = record {
  task_id = refl;
  prompt = refl;
  steps = refl;
  confirmed = refl;
  requested = λ h. h;
}

pub IsLater-trans : {r s t : TaskRecord} → IsLater r s → IsLater s t → IsLater r t
IsLater-trans h k = record {
  task_id = k.task_id ∙ h.task_id;
  prompt = k.prompt ∙ h.prompt;
  steps = k.steps ∙ h.steps;
  confirmed = k.confirmed ∙ h.confirmed;
  requested = λ q. k.requested (h.requested q);
}

-- Every record stands under its own id, and the next id is new.
abbrev pub IsKeyed : TaskManager → Type 0
IsKeyed m = (j : ℕ) (r : TaskRecord) → get m.records j ≡ some r → (r.task_id ≡ j) × (j < m.next_id)

-- The record objects, over any step.
pub record KeepsRecords (m m' : TaskManager) : Type 0 where
  pub keyed : IsKeyed m → IsKeyed m'
  pub persists :
      IsKeyed m
      → (j : ℕ) (r : TaskRecord) → get m.records j ≡ some r
      → (r' : TaskRecord) × (get m'.records j ≡ some r') × IsLater r r'

pub KeepsRecords-trans :
    {a b c : TaskManager} → KeepsRecords a b → KeepsRecords b c → KeepsRecords a c
KeepsRecords-trans h k = record {
  keyed = λ w. k.keyed (h.keyed w);
  persists = λ w j r e.
      let (s, f, l) = h.persists w j r e in
      let (t, g, n) = k.persists (h.keyed w) j s f in (t, g, IsLater-trans l n);
}

-- The records and the ids of the table, over a step that is no submission.
pub record Keeps (m m' : TaskManager) : Type 0 where
  pub of_records : KeepsRecords m m'
  pub table : m'.tracked ≡ m.tracked

pub Keeps-trans : {a b c : TaskManager} → Keeps a b → Keeps b c → Keeps a c
Keeps-trans h k = record {
  of_records = KeepsRecords-trans h.of_records k.of_records;
  table = k.table ∙ h.table;
}

pub Keeps-same :
    (m m' : TaskManager)
    → m'.records ≡ m.records
    → m'.next_id ≡ m.next_id
    → m'.tracked ≡ m.tracked
    → Keeps m m'
Keeps-same m m' same next tracked = record {
  of_records = record {
    keyed = λ w j r e. rw next (w j r (rw same at e));
    persists = λ w j r e. (r, rw same e, IsLater-refl r);
  };
  table = tracked;
}

module _ (m m' : TaskManager) (i : ℕ) (r r' : TaskRecord) (at_i : get m.records i ≡ some r)
    (later : IsLater r r') (w : IsWrite m r' m') where
  get-after : (j : ℕ) → get m'.records j ≡ (if r'.task_id == j then some r' else get m.records j)
  get-after j = ap (λ d. get d j) w.records ∙ get-put m.records r'.task_id j r'

  IsKeyed-after : IsKeyed m → IsKeyed m'
  IsKeyed-after k j x e = ground (arith, get-after j, k i r at_i, k j x, later.task_id, w.next_id)

  persists-after :
      IsKeyed m
      → (j : ℕ) (x : TaskRecord) → get m.records j ≡ some x
      → (x' : TaskRecord) × (get m'.records j ≡ some x') × IsLater x x'
  persists-after k j x e = elim (Bool-cases (r'.task_id == j)) [
    | inl here ↦
        let own : r'.task_id ≡ i = later.task_id ∙ (k i r at_i).0 in
        let j_is_i : j ≡ i = sym ((==_iff r'.task_id j).0 here) ∙ own in
        let same : x ≡ r = ground arith in (r', get-after j ∙ rw here refl, rw same later)
    | inr elsewhere ↦ (x, get-after j ∙ (rw elsewhere e), IsLater-refl x)
  ]

  pub Keeps-write : Keeps m m'
  Keeps-write = record {
    of_records = record { keyed = IsKeyed-after; persists = persists-after };
    table = w.tracked;
  }
