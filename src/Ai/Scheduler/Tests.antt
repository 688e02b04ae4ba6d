-- ===== src/Ai/Scheduler/Tests.antt =====
-- Two requests that wait, and the witnesses of the theorems on the gate.
use ron_personal_assistant.Prelude.{◌≡◌, ◌⊎◌, refl, true, none, some, [], ◌∷◌, All, any, false}
use ron_personal_assistant.Ai.Scheduler.{
  planning, speech, Ticket, is_before, push, InferenceScheduler, new_scheduler, arrive, enter,
  take_turn, leave, Outcome, arrives, enters, sleep, sleeps, is_asleep, is_ticket, Reaches, stays,
  steps,
}
use ron_personal_assistant.Ai.Scheduler.Order.{
  IsBefore, IsExclusive, one_at_a_time, enters_in_order, never_blocks,
}

abbrev two_wait : InferenceScheduler
two_wait = arrive (arrive new_scheduler planning) speech

two_wait_reached : Reaches new_scheduler two_wait
two_wait_reached = steps (steps (stays new_scheduler) (arrives _ planning)) (arrives _ speech)

abbrev spoken : Ticket
spoken = record { priority = 1; sequence = 1 }

abbrev planned : Ticket
planned = record { priority = 4; sequence = 0 }

abbrev one_runs : InferenceScheduler
one_runs = record {
  waiting = planned ∷ [];
  next_sequence = 2;
  active = true;
  last_success_at = none;
  last_error = none;
  running = spoken ∷ [];
  sleeping = planned ∷ [];
}

planning_waits : enter two_wait planned ≡ none
unfolding enter take_turn arrive push is_before
planning_waits = refl

-- The planning thread has tested its condition, and sleeps.
abbrev one_sleeps : InferenceScheduler
one_sleeps = sleep two_wait planned

here : any (is_ticket planned) two_wait.waiting ≡ true
unfolding arrive push is_before
here = refl

nobody_sleeps : is_asleep two_wait planned ≡ false
unfolding arrive
nobody_sleeps = refl

one_sleeps_reached : Reaches new_scheduler one_sleeps
one_sleeps_reached =
    steps two_wait_reached (sleeps two_wait planned here nobody_sleeps planning_waits)

speech_awake : is_asleep one_sleeps spoken ≡ false
unfolding sleep arrive
speech_awake = refl

speech_first : enter one_sleeps spoken ≡ some one_runs
unfolding enter take_turn arrive push is_before sleep
speech_first = refl

one_runs_reached : Reaches new_scheduler one_runs
one_runs_reached = steps one_sleeps_reached (enters spoken speech_awake speech_first)

one_at_a_time_example : IsExclusive one_runs
one_at_a_time_example = one_at_a_time one_runs one_runs_reached

enters_in_order_example :
    (one_sleeps.running ≡ [])
    × (w : Ticket) × (w.sequence ≡ spoken.sequence)
    × (one_sleeps.waiting ≡ w ∷ one_runs.waiting)
    × All (IsBefore w) one_runs.waiting
enters_in_order_example = enters_in_order one_sleeps one_runs spoken one_sleeps_reached speech_first

never_blocks_example :
    ((is_asleep one_runs planned ≡ false)
      × (s' : InferenceScheduler) × (enter one_runs planned ≡ some s'))
    ⊎ ((t : Ticket) × (one_runs.running ≡ t ∷ [])
        × ((outcome : Outcome)
            → (is_asleep (leave one_runs t outcome) planned ≡ false)
              × (s' : InferenceScheduler) × (enter (leave one_runs t outcome) planned ≡ some s')))
never_blocks_example = never_blocks one_runs planned [] one_runs_reached refl
