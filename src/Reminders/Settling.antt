-- ===== src/Reminders/Settling.antt =====
-- That ron/reminders.py tells of a reminder at most once, and of a settled one no more.
use ron_personal_assistant.Prelude.{ℕ, ◌≡◌, false, some}
use ron_personal_assistant.Prelude.Dict.{nat_key, get}
use ron_personal_assistant.Reminders.{is_pending, Reminder, ReminderManager}
use ron_personal_assistant.Reminders.Firing.{times_told}

-- The reminder is not pending any more, and the listeners were told of it this often.
pub record IsSettled (i n : ℕ) (m : ReminderManager) : Type 0 where
  pub reminder : Reminder
  pub found : get m.rows i ≡ some reminder
  pub settled : is_pending reminder.status ≡ false
  pub told : times_told i m.told ≡ n
