-- ===== src/Reminders/Tests.antt =====
-- Two reminders, one due, and the witnesses of the theorems on the reminders.
use ron_personal_assistant.Prelude.{
  List, some, strip, is_space, ◌≤◌, ◌≡◌, refl, false, [], ◌∷◌, ◌++◌, arith, ==_iff,
}
use ron_personal_assistant.Prelude.Dict.{nat_key, get, put}
use ron_personal_assistant.Reminders.{
  pending, cancelled, fired, Reminder, looking, ReminderManager, new_manager, Action, work, creates,
  cancels, updates, starts, works, run, act, create, start, work_at, look, next_pending, cancel,
  cancel_update, fire_row,
}
use ron_personal_assistant.Reminders.Firing.{IsTold, times_told}
use ron_personal_assistant.Reminders.Due.{IsWaiting, IsEarliest, due_gets_fired}

abbrev tea : Reminder
tea = record { reminder_id = 1; message = "tea"; due_at = 5; status = pending }

abbrev call_home : Reminder
call_home = record { reminder_id = 2; message = "call home"; due_at = 3; status = pending }

abbrev two : ReminderManager
two = record {
  rows = (1, tea) ∷ (2, call_home) ∷ [];
  next_id = 3;
  notifications = [];
  told = [];
  stopping = false;
  change_version = 2;
  place = looking;
  cancelling = [];
}

two-IsTold : IsTold two
unfolding times_told get
two-IsTold = record {
  told_right = λ i. ground arith;
  fresh = λ i r e. ground (arith, ==_iff 1 i, ==_iff 2 i);
  distinct = (refl, (refl, tt));
}

-- The worker fires the reminder between the SELECT and the UPDATE of a cancellation.
abbrev race : List Action
race = creates 0 60 "tea" ∷ starts ∷ works 60 ∷ cancels 1 ∷ works 60 ∷ updates 1 ∷ []

told_and_cancelled :
    (times_told 1 (run new_manager race).told ≡ 1)
    × (get (run new_manager race).rows 1
        ≡ some (record { reminder_id = 1; message = "tea"; due_at = 60; status = cancelled }))
unfolding run act create start work work_at look next_pending cancel cancel_update fire_row put get
    times_told strip is_space
told_and_cancelled = (refl, refl)

tea_waits : IsWaiting two.rows tea
unfolding get
tea_waits = (1, refl, refl)

due_gets_fired_example :
    (r : Reminder) × IsWaiting two.rows r
    × IsEarliest r two.rows
    × (r.due_at ≤ 6)
    × ((work (work two 6) 7).told ≡ two.told ++ record r { status = fired } ∷ [])
due_gets_fired_example = due_gets_fired two 6 7 tea two-IsTold refl refl tea_waits (omega arith)
