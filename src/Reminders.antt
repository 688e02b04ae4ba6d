-- ===== src/Reminders.antt =====
-- ron/reminders.py: timers and reminders in a table, fired by one worker thread.
-- The worker is cut between its look at the table and its UPDATE, and `cancel` between its SELECT and
-- its UPDATE: no transaction holds them together, so another thread can come between. The worker's
-- UPDATE and the calls of the listeners that follow it are one step.
pub mod Firing
pub mod Settling
pub mod Due
mod Tests
use ron_personal_assistant.Prelude.{
  ℕ, ◌+◌, String, count, Bool, true, false, ◌&&◌, ◌||◌, not, Option, none, some, List, [], ◌∷◌,
  ◌++◌, ltb, leb, ◌==◌, if◌then◌else◌, any, take, strip, is_truthy, Result, ok, err,
}
use ron_personal_assistant.Prelude.Dict.{Dict, nat_key, get, put}

pub data ReminderStatus : Type 0 where
  pending cancelled fired : ReminderStatus

abbrev pub is_pending : ReminderStatus → Bool
is_pending pending = true
is_pending _ = false

abbrev pub is_fired : ReminderStatus → Bool
is_fired fired = true
is_fired _ = false

pub record Reminder : Type 0 where
  pub reminder_id : ℕ
  pub message : String
  pub due_at : ℕ
  pub status : ReminderStatus

-- Where the worker stands.
pub data Place : Type 0 where
  looking : Place
  firing : Reminder → Place
  ended : Place

pub record ReminderManager : Type 0 where
  -- the table, in the order of the ids
  pub rows : Dict ℕ Reminder
  pub next_id : ℕ
  pub notifications : List Reminder
  -- what the listeners were called with
  pub told : List Reminder
  pub stopping : Bool
  pub change_version : ℕ
  pub place : Place
  -- the ids for which a `cancel` has seen a pending row, and will make its UPDATE
  pub cancelling : List ℕ

abbrev pub new_manager : ReminderManager
new_manager = record {
  rows = [];
  next_id = 1;
  notifications = [];
  told = [];
  stopping = false;
  change_version = 0;
  place = ended;
  cancelling = [];
}

pub data ReminderError : Type 0 where
  invalid_duration invalid_message : ReminderError

-- `start`
unfoldable pub start : ReminderManager → ReminderManager
start m = elim m.place [ ended ↦ record m { stopping = false; place = looking } | _ ↦ m ]

-- `stop`, up to the wait for the worker
unfoldable pub stop : ReminderManager → ReminderManager
stop m = record m { stopping = true }

-- `create`, at a time
unfoldable pub create :
    ReminderManager → ℕ → ℕ → String → Result ReminderError Reminder × ReminderManager
create m now seconds message =
    let clean_message = strip message in
    if not (leb 1 seconds && leb seconds 31536000)
    then (err invalid_duration, m)
    else if not (is_truthy clean_message) || ltb 240 (count clean_message)
    then (err invalid_message, m)
    else let reminder : Reminder = record {
      reminder_id = m.next_id;
      message = clean_message;
      due_at = now + seconds;
      status = pending;
    } in
      (
        ok reminder,
        record m {
          rows = put m.rows m.next_id reminder;
          next_id = m.next_id + 1;
          change_version = m.change_version + 1;
        },
      )

cancel_row : ReminderManager → ℕ → Reminder → ReminderStatus → Option Reminder × ReminderManager
cancel_row m reminder_id row pending =
    (some (record row { status = cancelled }), record m { cancelling = reminder_id ∷ m.cancelling })
cancel_row m reminder_id row _ = (some row, record m { change_version = m.change_version + 1 })

-- `cancel`, up to its UPDATE, with the reminder that it will return
unfoldable pub cancel : ReminderManager → ℕ → Option Reminder × ReminderManager
unfolding cancel_row
cancel m reminder_id = elim (get m.rows reminder_id) [
  | none ↦ (none, m)
  | some row ↦ cancel_row m reminder_id row row.status
]

pub remove_one : ℕ → List ℕ → List ℕ
remove_one n [] = []
remove_one n (k ∷ ks) = let rest = remove_one n ks in if n == k then ks else k ∷ rest

-- `UPDATE reminders SET status='cancelled' WHERE reminder_id=?`, whatever the row says by now
unfoldable pub cancel_found : ReminderManager → ℕ → Option Reminder → ReminderManager
cancel_found m reminder_id none = m
cancel_found m reminder_id (some row) = record m {
  rows = put m.rows reminder_id (record row { status = cancelled });
}

-- The rest of `cancel`.
unfoldable pub cancel_update : ReminderManager → ℕ → ReminderManager
unfolding cancel_found remove_one
cancel_update m reminder_id =
    if not (any (λ i. i == reminder_id) m.cancelling)
    then m
    else let m = cancel_found m reminder_id (get m.rows reminder_id) in
      record m {
        cancelling = remove_one reminder_id m.cancelling;
        change_version = m.change_version + 1;
      }

-- The earlier of two, the first on a tie.
abbrev earlier : Reminder → Option Reminder → Reminder
earlier r none = r
earlier r (some other) = if ltb other.due_at r.due_at then other else r

-- `_next_pending`: ORDER BY due_at ASC LIMIT 1
unfoldable pub next_pending : Dict ℕ Reminder → Option Reminder
next_pending [] = none
next_pending ((i, r) ∷ rows) =
    let rest = next_pending rows in if is_pending r.status then some (earlier r rest) else rest

-- `drain_notifications`
unfoldable pub drain_notifications : ReminderManager → List Reminder × ReminderManager
drain_notifications m = (m.notifications, record m { notifications = [] })

-- `UPDATE reminders SET status='fired' WHERE reminder_id=? AND status='pending'`, and what follows
-- when a row has changed.
unfoldable pub fire_row : ReminderManager → Reminder → Option Reminder → ReminderManager
fire_row m reminder none = record m { place = looking }
fire_row m reminder (some row) =
    if not (is_pending row.status)
    then record m { place = looking }
    else let fired_reminder = record reminder { status = fired } in
      record m {
        rows = put m.rows reminder.reminder_id (record row { status = fired });
        notifications = m.notifications ++ fired_reminder ∷ [];
        told = m.told ++ fired_reminder ∷ [];
        place = looking;
      }

-- One round of the loop of `_run` up to the UPDATE; waiting is another round.
unfoldable pub look : ReminderManager → ℕ → Option Reminder → ReminderManager
look m now none = m
look m now (some reminder) =
    if ltb now reminder.due_at then m else record m { place = firing reminder }

-- One step of the worker at a time.
unfoldable pub work_at : ReminderManager → ℕ → Place → ReminderManager
unfolding fire_row
work_at m now looking =
    if m.stopping then record m { place = ended } else look m now (next_pending m.rows)
work_at m now (firing reminder) = fire_row m reminder (get m.rows reminder.reminder_id)
work_at m now ended = m

unfoldable pub work : ReminderManager → ℕ → ReminderManager
work m now = work_at m now m.place

-- A call of a client, or a step of the worker.
pub data Action : Type 0 where
  creates : ℕ → ℕ → String → Action
  cancels updates : ℕ → Action
  drains starts stops : Action
  works : ℕ → Action

unfoldable pub act : ReminderManager → Action → ReminderManager
act m (creates now seconds message) = (create m now seconds message).1
act m (cancels reminder_id) = (cancel m reminder_id).1
act m (updates reminder_id) = cancel_update m reminder_id
act m drains = (drain_notifications m).1
act m starts = start m
act m stops = stop m
act m (works now) = work m now

unfoldable pub run : ReminderManager → List Action → ReminderManager
run m [] = m
run m (a ∷ rest) = run (act m a) rest
