-- ===== src/Ai/Scheduler.antt =====
-- ron/ai/scheduler.py: the gate that lets one model request run at a time, by priority.
-- A thread is its ticket; `run` is cut at each test of its condition and where the operation runs.
pub mod Order
mod Tests
use ron_personal_assistant.Prelude.{
  ℕ, ◌+◌, String, Bool, true, false, ◌&&◌, ◌||◌, not, Option, none, some, List, [], ◌∷◌, ltb, ◌==◌,
  if◌then◌else◌, keep, any, length, f_string, ◌≡◌,
}

pub data InferencePriority : Type 0 where
  transcription speech conversation routing planning background : InferencePriority

-- `int(priority)`
abbrev pub level : InferencePriority → ℕ
level transcription = 0
level speech = 1
level conversation = 2
level routing = 3
level planning = 4
level background = 5

-- An entry of the heap; the third component, the ticket object, is known by its sequence number.
pub record Ticket : Type 0 where
  pub priority : ℕ
  pub sequence : ℕ

-- The order of the tuples.
unfoldable pub is_before : Ticket → Ticket → Bool
is_before t u = ltb t.priority u.priority || (t.priority == u.priority && ltb t.sequence u.sequence)

-- `heapq.heappush`: only the least entry of the heap is ever read, so it is kept in order.
unfoldable pub push : List Ticket → Ticket → List Ticket
push [] t = t ∷ []
push (w ∷ ws) t = let rest = push ws t in if is_before t w then t ∷ w ∷ ws else w ∷ rest

pub record InferenceScheduler : Type 0 where
  pub waiting : List Ticket
  pub next_sequence : ℕ
  pub active : Bool
  pub last_success_at : Option ℕ
  pub last_error : Option String
  -- the threads that are inside `operation()`
  pub running : List Ticket
  -- the threads that are inside `self._condition.wait()`, which ends only by a notification
  pub sleeping : List Ticket

-- `__init__`
abbrev pub new_scheduler : InferenceScheduler
new_scheduler = record {
  waiting = [];
  next_sequence = 0;
  active = false;
  last_success_at = none;
  last_error = none;
  running = [];
  sleeping = [];
}

-- `run`, up to the first test of the condition
unfoldable pub arrive : InferenceScheduler → InferencePriority → InferenceScheduler
arrive s priority = record s {
  waiting = push s.waiting (record { priority = level priority; sequence = s.next_sequence });
  next_sequence = s.next_sequence + 1;
}

abbrev pub is_ticket : Ticket → Ticket → Bool
is_ticket t u = t.sequence == u.sequence

take_turn : InferenceScheduler → Ticket → List Ticket → Option InferenceScheduler
take_turn s ticket [] = none
take_turn s ticket (w ∷ ws) =
    if is_ticket w ticket
    then some (record s { waiting = ws; active = true; running = ticket ∷ s.running })
    else none

-- A thread past its wait; `none` while the condition of the `while` holds.
unfoldable pub enter : InferenceScheduler → Ticket → Option InferenceScheduler
unfolding take_turn
enter s ticket = if s.active then none else take_turn s ticket s.waiting

-- The wait of a thread whose test has failed.
unfoldable pub sleep : InferenceScheduler → Ticket → InferenceScheduler
sleep s ticket = record s { sleeping = ticket ∷ s.sleeping }

-- `notify_all`
unfoldable pub notify_all : InferenceScheduler → InferenceScheduler
notify_all s = record s { sleeping = [] }

-- How the operation ends: at a time, or with an exception of this class.
pub data Outcome : Type 0 where
  returned : ℕ → Outcome
  raised : String → Outcome

abbrev noted : InferenceScheduler → Outcome → InferenceScheduler
noted s (returned now) = record s { last_success_at = some now; last_error = none }
noted s (raised name) = record s { last_error = some name }

-- The rest of `run`, the `finally` included.
unfoldable pub leave : InferenceScheduler → Ticket → Outcome → InferenceScheduler
unfolding notify_all
leave s ticket outcome =
    let s = noted s outcome in
    notify_all
      (record s { active = false; running = keep (λ t. not (is_ticket t ticket)) s.running })

abbrev pub is_asleep : InferenceScheduler → Ticket → Bool
is_asleep s ticket = any (is_ticket ticket) s.sleeping

-- `status`
unfoldable pub status : InferenceScheduler → Bool × ℕ
status s = (s.active, length s.waiting)

-- `health_label`
unfoldable pub health_label : InferenceScheduler → String
health_label s = elim s.last_error [
  | some error ↦ f_string ("last request failed (" ∷ error ∷ ")" ∷ [])
  | none ↦ elim s.last_success_at [ some _ ↦ "ready" | none ↦ "not checked yet" ]
]

-- What the threads can do next, in any order.
pub data Step : InferenceScheduler → InferenceScheduler → Type 0 where
  arrives : (s : InferenceScheduler) (priority : InferencePriority) → Step s (arrive s priority)
  enters :
      {s s' : InferenceScheduler} (ticket : Ticket)
      → is_asleep s ticket ≡ false
      → enter s ticket ≡ some s'
      → Step s s'
  sleeps :
      (s : InferenceScheduler) (ticket : Ticket)
      → any (is_ticket ticket) s.waiting ≡ true
      → is_asleep s ticket ≡ false
      → enter s ticket ≡ none
      → Step s (sleep s ticket)
  leaves :
      (s : InferenceScheduler) (ticket : Ticket) (outcome : Outcome)
      → any (is_ticket ticket) s.running ≡ true
      → Step s (leave s ticket outcome)

pub data Reaches : InferenceScheduler → InferenceScheduler → Type 0 where
  stays : (s : InferenceScheduler) → Reaches s s
  steps : {s t u : InferenceScheduler} → Reaches s t → Step t u → Reaches s u
