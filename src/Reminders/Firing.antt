-- ===== src/Reminders/Firing.antt =====
-- How often ron/reminders.py tells of a reminder.
use ron_personal_assistant.Prelude.{
  ℕ, ◌+◌, ◌<◌, ◌≤◌, String, ◌≡◌, refl, sym, ap, ◌∙◌, inl, inr, Bool, true, false, ◌&&◌, ◌||◌, not,
  Option, none, some, List, [], ◌∷◌, ◌++◌, arith, leb, ltb, ◌==◌, ==_iff, ==_refl, subst, any,
  if◌then◌else◌, Bool-cases, Option-cases, strip, is_truthy, count,
}
use ron_personal_assistant.Prelude.Dict.{Dict, nat_key, get, put, get-put}
use ron_personal_assistant.Reminders.{
  ReminderStatus, pending, cancelled, fired, is_pending, is_fired, Reminder, Place, looking, firing,
  ended, ReminderManager, new_manager, start, stop, create, cancel, cancel_row, cancel_found,
  cancel_update, drain_notifications, look, fire_row, next_pending, work_at, work, Action, creates,
  cancels, updates, drains, starts, stops, works, act,
}

-- How often the listeners were told of this id.
unfoldable pub times_told : ℕ → List Reminder → ℕ
times_told i [] = 0
times_told i (r ∷ rs) = let rest = times_told i rs in if r.reminder_id == i then rest + 1 else rest

pub times_told-append :
    (i : ℕ) (xs ys : List Reminder) → times_told i (xs ++ ys) ≡ times_told i xs + times_told i ys
unfolding times_told
times_told-append i [] ys = omega arith
times_told-append i (x ∷ xs) ys = ground (arith, times_told-append i xs ys)

-- How often the listeners must, and may, have been told of a row: once if it says that it was fired,
-- never if it is pending; a cancelled one may have been fired before, when the worker came first.
abbrev pub least_tellings : Option Reminder → ℕ
least_tellings none = 0
least_tellings (some r) = if is_fired r.status then 1 else 0

abbrev pub most_tellings : Option Reminder → ℕ
most_tellings none = 0
most_tellings (some r) = if is_pending r.status then 0 else 1

abbrev pub IsToldRight : Option Reminder → ℕ → Type 0
IsToldRight o n = (least_tellings o ≤ n) × (n ≤ most_tellings o)

-- No id has two rows.
abbrev pub IsDistinct : Dict ℕ Reminder → Type 0
IsDistinct [] = Unit
IsDistinct ((i, r) ∷ rows) = (get rows i ≡ none) × IsDistinct rows

put-IsDistinct :
    (rows : Dict ℕ Reminder) (k : ℕ) (r : Reminder) → IsDistinct rows → IsDistinct (put rows k r)
unfolding put get
put-IsDistinct [] k r h = (refl, tt)
put-IsDistinct ((i, x) ∷ rows) k r (free, h) = elim (Bool-cases (i == k)) [
  | inl same ↦ rw (same, put) (rw ((==_iff i k).0 same) at free, h)
  | inr other ↦
      rw (other, put)
        (
          get-put rows k i r ∙ ground (arith, free, other, ==_iff k i, ==_iff i k),
          put-IsDistinct rows k r h,
        )
]

pub record IsTold (m : ReminderManager) : Type 0 where
  pub told_right : (i : ℕ) → IsToldRight (get m.rows i) (times_told i m.told)
  pub fresh : (i : ℕ) (r : Reminder) → get m.rows i ≡ some r → (i < m.next_id) × (r.reminder_id ≡ i)
  pub distinct : IsDistinct m.rows

-- One row is written, and the tellings of its id are as it says.
IsTold-put :
    (m m' : ReminderManager) (k : ℕ) (row : Reminder)
    → IsTold m
    → m'.rows ≡ put m.rows k row
    → row.reminder_id ≡ k
    → k < m'.next_id
    → m.next_id ≤ m'.next_id
    → IsToldRight (some row) (times_told k m'.told)
    → ((i : ℕ) → (k == i) ≡ false → times_told i m'.told ≡ times_told i m.told)
    → IsTold m'
IsTold-put m m' k row h w own below le right others =
    let at : (i : ℕ) → get m'.rows i ≡ (if k == i then some row else get m.rows i) =
      λ i. ap (λ d. get d i) w ∙ get-put m.rows k i row in
    record {
      told_right = λ i. elim (Bool-cases (k == i)) [
        | inl same ↦
            let here : k ≡ i = (==_iff k i).0 same in
            let now : get m'.rows i ≡ some row = at i ∙ rw same refl in
            subst (λ o. IsToldRight o (times_told i m'.told)) (sym now)
              (subst (λ j. IsToldRight (some row) (times_told j m'.told)) here right)
        | inr other ↦
            let still : get m'.rows i ≡ get m.rows i = at i ∙ rw other refl in
            subst (λ o. IsToldRight o (times_told i m'.told)) (sym still)
              (subst (λ n. IsToldRight (get m.rows i) n) (sym (others i other)) (h.told_right i))
      ];
      fresh = λ i r e. ground (arith, at i, e, h.fresh i r, own, below, le, ==_iff k i);
      distinct = rw w (put-IsDistinct m.rows k row h.distinct);
    }

IsTold-same :
    (m m' : ReminderManager)
    → IsTold m
    → m'.rows ≡ m.rows
    → m'.told ≡ m.told
    → m'.next_id ≡ m.next_id
    → IsTold m'
IsTold-same m m' h r t n = record {
  told_right = λ i. rw (ap (λ d. get d i) r) (rw (ap (times_told i) t) (h.told_right i));
  fresh = λ i x e. ground (arith, ap (λ d. get d i) r, e, h.fresh i x, n);
  distinct = rw r h.distinct;
}

IsTold-branch :
    {A : Type 0} (x y : A × ReminderManager) (b : Bool)
    → IsTold x.1
    → IsTold y.1
    → IsTold (if b then x else y).1
IsTold-branch x y true h k = h
IsTold-branch x y false h k = k

create-IsTold :
    (m : ReminderManager) (now seconds : ℕ) (message : String)
    → IsTold m
    → IsTold (create m now seconds message).1
unfolding create
create-IsTold m now seconds message h =
    IsTold-branch _ _ (not (leb 1 seconds && leb seconds 31536000)) h (
      IsTold-branch _ _ (not (is_truthy (strip message)) || ltb 240 (count (strip message))) h (
        IsTold-put m _ m.next_id _ h refl refl (omega arith) (omega arith)
          (ground (arith, h.told_right m.next_id, unknown)) (λ i other. refl)))
  where
    unknown : get m.rows m.next_id ≡ none
    unknown = elim (Option-cases (get m.rows m.next_id)) [
      | inl none_yet ↦ none_yet
      | inr (r, e) ↦ ground (arith, h.fresh m.next_id r e)
    ]

-- The tellings of a row that has not been fired.
untold_row :
    (m : ReminderManager) (k : ℕ) (row : Reminder)
    → IsTold m
    → get m.rows k ≡ some row
    → row.status ≡ pending
    → times_told k m.told ≡ 0
untold_row m k row h e p =
    let right : IsToldRight (some row) (times_told k m.told) = rw e at (h.told_right k) in
    ground (arith, right, p)

at_most_once :
    (m : ReminderManager) (k : ℕ) (row : Reminder)
    → IsTold m
    → get m.rows k ≡ some row
    → times_told k m.told ≤ 1
at_most_once m k row h e =
    let right : IsToldRight (some row) (times_told k m.told) = rw e at (h.told_right k) in
    ground (arith, right)

cancel_row-IsTold :
    (m : ReminderManager) (k : ℕ) (row : Reminder) (status : ReminderStatus)
    → IsTold m
    → IsTold (cancel_row m k row status).1
unfolding cancel_row
cancel_row-IsTold m k row pending h = IsTold-same m _ h refl refl refl
cancel_row-IsTold m k row cancelled h = IsTold-same m _ h refl refl refl
cancel_row-IsTold m k row fired h = IsTold-same m _ h refl refl refl

cancel-IsTold : (m : ReminderManager) (i : ℕ) → IsTold m → IsTold (cancel m i).1
unfolding cancel
cancel-IsTold m i h = go (get m.rows i)
  where
    go :
        (o : Option Reminder)
        → IsTold
            (elim o as (λ x. Option Reminder × ReminderManager) [
              | none ↦ (none, m)
              | some row ↦ cancel_row m i row row.status
            ]).1
    go none = h
    go (some row) = cancel_row-IsTold m i row row.status h

IsTold-if :
    {x y : ReminderManager} (b : Bool)
    → (b ≡ true → IsTold x)
    → (b ≡ false → IsTold y)
    → IsTold (if b then x else y)
IsTold-if true h k = h refl
IsTold-if false h k = k refl

cancel_found-IsTold :
    (m : ReminderManager) (k : ℕ) (o : Option Reminder)
    → IsTold m
    → get m.rows k ≡ o
    → IsTold (cancel_found m k o)
unfolding cancel_found
cancel_found-IsTold m k none h e = h
cancel_found-IsTold m k (some row) h e =
    let (below, own) = h.fresh k row e in
    IsTold-put m _ k (record row { status = cancelled }) h refl own below (omega arith)
      (ground (arith, at_most_once m k row h e)) (λ i other. refl)

cancel_update-IsTold : (m : ReminderManager) (k : ℕ) → IsTold m → IsTold (cancel_update m k)
unfolding cancel_update
cancel_update-IsTold m k h =
    IsTold-if (not (any (λ i. i == k) m.cancelling)) (λ n. h)
      (λ found. IsTold-same _ _ (cancel_found-IsTold m k (get m.rows k) h refl) refl refl refl)

pending_of : (s : ReminderStatus) → not (is_pending s) ≡ false → s ≡ pending
pending_of pending h = refl
pending_of cancelled h = ground arith
pending_of fired h = ground arith

fire_row-IsTold :
    (m : ReminderManager) (reminder : Reminder) (o : Option Reminder)
    → IsTold m
    → get m.rows reminder.reminder_id ≡ o
    → IsTold (fire_row m reminder o)
unfolding fire_row
fire_row-IsTold m reminder none h e = IsTold-same m _ h refl refl refl
fire_row-IsTold m reminder (some row) h e =
    IsTold-if (not (is_pending row.status)) (λ other. IsTold-same m _ h refl refl refl)
      (λ open_still.
        let k = reminder.reminder_id in
        let (below, own) = h.fresh k row e in
        let p : row.status ≡ pending = pending_of row.status open_still in
        let told_now = times_told-append k m.told (record reminder { status = fired } ∷ []) in
        let right : IsToldRight (some (record row { status = fired }))
            (times_told k (m.told ++ record reminder { status = fired } ∷ [])) =
          unfold times_told in
          ground (arith, told_now, untold_row m k row h e p, ==_refl reminder.reminder_id) in
        IsTold-put m _ k (record row { status = fired }) h refl own below (omega arith) right
          (λ i other.
            times_told-append i m.told (record reminder { status = fired } ∷ [])
            ∙ (unfold times_told in ground (arith, other))))

look-IsTold :
    (m : ReminderManager) (now : ℕ) (o : Option Reminder) → IsTold m → IsTold (look m now o)
unfolding look
look-IsTold m now none h = h
look-IsTold m now (some r) h =
    IsTold-if (ltb now r.due_at) (λ later. h) (λ due. IsTold-same m _ h refl refl refl)

work_at-IsTold : (m : ReminderManager) (now : ℕ) (p : Place) → IsTold m → IsTold (work_at m now p)
unfolding work_at
work_at-IsTold m now looking h =
    IsTold-if m.stopping (λ halt. IsTold-same m _ h refl refl refl)
      (λ on. look-IsTold m now (next_pending m.rows) h)
work_at-IsTold m now (firing reminder) h = fire_row-IsTold m reminder _ h refl
work_at-IsTold m now ended h = h

pub act-IsTold : (m : ReminderManager) (a : Action) → IsTold m → IsTold (act m a)
unfolding act
act-IsTold m (creates now seconds message) h = create-IsTold m now seconds message h
act-IsTold m (cancels i) h = cancel-IsTold m i h
act-IsTold m (updates i) h = cancel_update-IsTold m i h
act-IsTold m drains h = unfold drain_notifications in IsTold-same m _ h refl refl refl
act-IsTold m starts h =
    IsTold-same m _ h (unfold start in ground arith) (unfold start in ground arith)
      (unfold start in ground arith)
act-IsTold m stops h = unfold stop in IsTold-same m _ h refl refl refl
act-IsTold m (works now) h = unfold work in work_at-IsTold m now m.place h

pub new-IsTold : IsTold new_manager
unfolding times_told get
new-IsTold = record { told_right = λ i. ground arith; fresh = λ i r e. ground arith; distinct = tt }
