-- ===== src/Reminders/Due.antt =====
-- That a reminder of ron/reminders.py which is due gets fired, the earliest first and none early.
use ron_personal_assistant.Prelude.{
  ℕ, ◌≤◌, ◌≡◌, ◌⊎◌, refl, sym, ap, ◌∙◌, inl, inr, Bool, true, false, Option, none, some, [], ◌∷◌,
  ◌++◌, arith, ltb, ◌==◌, ==_iff, ==_refl, if◌then◌else◌, Bool-cases, Option-cases,
}
use ron_personal_assistant.Prelude.Dict.{Dict, nat_key, get}
use ron_personal_assistant.Reminders.Firing.{IsTold, IsDistinct}
use ron_personal_assistant.Reminders.{
  is_pending, fired, Reminder, looking, ended, firing, ReminderManager, earlier, next_pending, look,
  fire_row, work_at, work,
}

-- A pending row.
abbrev pub IsWaiting : Dict ℕ Reminder → Reminder → Type 0
IsWaiting rows r = (i : ℕ) × (get rows i ≡ some r) × (is_pending r.status ≡ true)

abbrev pub IsEarliest : Reminder → Dict ℕ Reminder → Type 0
IsEarliest r rows =
    (i : ℕ) (x : Reminder) → get rows i ≡ some x → is_pending x.status ≡ true → r.due_at ≤ x.due_at

abbrev Selected : Option Reminder → Dict ℕ Reminder → Type 0
Selected none rows = (i : ℕ) (x : Reminder) → get rows i ≡ some x → is_pending x.status ≡ false
Selected (some r) rows = IsEarliest r rows

select :
    (j : ℕ) (r : Reminder) (rows : Dict ℕ Reminder) (o : Option Reminder) (b : Bool)
    → is_pending r.status ≡ b
    → Selected o rows
    → Selected (if b then some (earlier r o) else o) ((j, r) ∷ rows)
unfolding get
select j r rows none true p h = λ i x e q. ground (arith, h i x, e, q)
select j r rows none false p h = λ i x e. ground (arith, h i x, e, p)
select j r rows (some best) true p h = λ i x e q. ground (arith, h i x, e, q)
select j r rows (some best) false p h = λ i x e q. ground (arith, h i x, e, q, p)

next_pending-Selected : (rows : Dict ℕ Reminder) → Selected (next_pending rows) rows
unfolding next_pending
next_pending-Selected [] = λ i x e. unfold get in ground arith
next_pending-Selected ((j, r) ∷ rows) =
    select j r rows (next_pending rows) (is_pending r.status) refl (next_pending-Selected rows)

origin :
    (x : Reminder) (o : Option Reminder) (b : Bool) (r : Reminder)
    → (if b then some (earlier x o) else o) ≡ some r
    → ((x ≡ r) × (b ≡ true)) ⊎ (o ≡ some r)
origin x none true r e = inl (ground arith, refl)
origin x none false r e = ground arith
origin x (some best) true r e = elim (Bool-cases (ltb best.due_at x.due_at)) [
  | inl before ↦ inr (rw before at e)
  | inr after ↦ inl (ground (arith, rw after at e), refl)
]
origin x (some best) false r e = inr e

next_pending-IsWaiting :
    (rows : Dict ℕ Reminder) (r : Reminder)
    → IsDistinct rows
    → next_pending rows ≡ some r
    → IsWaiting rows r
unfolding next_pending get
next_pending-IsWaiting [] r d e = ground arith
next_pending-IsWaiting ((j, x) ∷ rows) r (free, d) e =
    elim (origin x (next_pending rows) (is_pending x.status) r e) [
      | inl (same, open_still) ↦ (
        j,
        ground (arith, ==_refl j, same),
        ap (λ (y : Reminder). is_pending y.status) (sym same) ∙ open_still,
      )
      | inr best ↦
          let (i, found, open_still) = next_pending-IsWaiting rows r d best in
          (
            i,
            elim (Bool-cases (j == i)) [
              | inl same ↦
                  let gone : get rows i ≡ none = rw ((==_iff j i).0 same) at free in
                  ground (arith, gone, found)
              | inr other ↦ ground (arith, other, found)
            ],
            open_still,
          )
    ]

looked :
    (m : ReminderManager) (now : ℕ) (r : Reminder)
    → m.place ≡ looking
    → m.stopping ≡ false
    → next_pending m.rows ≡ some r
    → r.due_at ≤ now
    → work m now ≡ record m { place = firing r }
unfolding work work_at look
looked m now r p on e due =
    ap (work_at m now) p
    ∙ (ap (λ b. if b then record m { place = ended } else look m now (next_pending m.rows)) on
        ∙ (ap (look m now) e ∙ ground arith))

fires :
    (m : ReminderManager) (r : Reminder) (later : ℕ)
    → get m.rows r.reminder_id ≡ some r
    → is_pending r.status ≡ true
    → (work (record m { place = firing r }) later).told ≡ m.told ++ record r { status = fired } ∷ []
unfolding work work_at fire_row
fires m r later found open_still =
    ap (λ o. (fire_row (record m { place = firing r }) r o).told) found
    ∙ rw (open_still, fire_row) refl

-- A running worker that is about to look, with a pending row that is due: in its next two steps it
-- tells of the pending row that is due first, which is due by then.
pub due_gets_fired :
    (m : ReminderManager) (now later : ℕ) (x : Reminder)
    → IsTold m
    → m.place ≡ looking
    → m.stopping ≡ false
    → IsWaiting m.rows x
    → x.due_at ≤ now
    → (r : Reminder) × IsWaiting m.rows r
      × IsEarliest r m.rows
      × (r.due_at ≤ now)
      × ((work (work m now) later).told ≡ m.told ++ record r { status = fired } ∷ [])
due_gets_fired m now later x t p on (i, found, open_still) due =
    elim (Option-cases (next_pending m.rows)) [
      | inl nothing ↦
          let all_closed : Selected none m.rows = rw nothing at (next_pending-Selected m.rows) in
          ground (arith, all_closed i x found, open_still)
      | inr (r, e) ↦
          let first : IsEarliest r m.rows = rw e at (next_pending-Selected m.rows) in
          let (j, found_r, open_r) = next_pending-IsWaiting m.rows r t.distinct e in
          let own : r.reminder_id ≡ j = (t.fresh j r found_r).1 in
          let r_due : r.due_at ≤ now = ground (arith, first i x found open_still, due) in
          (
            r,
            (j, found_r, open_r),
            first,
            r_due,
            ap (λ y. (work y later).told) (looked m now r p on e r_due)
                ∙ fires m r later (ap (get m.rows) own ∙ found_r) open_r,
          )
    ]
