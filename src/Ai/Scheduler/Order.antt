-- ===== src/Ai/Scheduler/Order.antt =====
-- What the gate of ron/ai/scheduler.py promises: one request at a time, the most urgent first.
use ron_personal_assistant.Prelude.{
  ℕ, ◌+◌, ◌<◌, ◌≡◌, ◌⊎◌, refl, ap, ◌∙◌, inl, inr, true, false, not, none, some, List, [], ◌∷◌,
  arith, ==_iff, ==_refl, keep, any, All, Bool-cases,
}
use ron_personal_assistant.Ai.Scheduler.{
  InferencePriority, level, Ticket, is_before, push, InferenceScheduler, new_scheduler, arrive,
  enter, take_turn, leave, Outcome, returned, raised, noted, is_ticket, Step, arrives, enters,
  sleep, sleeps, is_asleep, notify_all, leaves, Reaches, stays, steps,
}

-- More urgent, or as urgent and earlier.
abbrev pub IsBefore : Ticket → Ticket → Type 0
IsBefore t u = (t.priority < u.priority) ⊎ ((t.priority ≡ u.priority) × (t.sequence < u.sequence))

abbrev pub IsInOrder : List Ticket → Type 0
IsInOrder [] = Unit
IsInOrder (t ∷ ts) = All (IsBefore t) ts × IsInOrder ts

abbrev IsFresh : ℕ → Ticket → Type 0
IsFresh n t = t.sequence < n

All-push :
    (P : Ticket → Type 0) (t : Ticket) (ts : List Ticket) → P t → All P ts → All P (push ts t)
unfolding push
All-push P t [] p h = (p, tt)
All-push P t (w ∷ ws) p (q, h) = elim (Bool-cases (is_before t w)) [
  | inl earlier ↦ rw (earlier, push) (p, (q, h))
  | inr later ↦ rw (later, push) (q, All-push P t ws p h)
]

All-map :
    (P Q : Ticket → Type 0) (ts : List Ticket) → ((t : Ticket) → P t → Q t) → All P ts → All Q ts
All-map P Q [] f h = tt
All-map P Q (t ∷ ts) f (p, h) = (f t p, All-map P Q ts f h)

push-IsInOrder :
    (t : Ticket) (ts : List Ticket)
    → All (IsFresh t.sequence) ts
    → IsInOrder ts
    → IsInOrder (push ts t)
unfolding push
push-IsInOrder t [] f h = (tt, tt)
push-IsInOrder t (w ∷ ws) (f, fs) (first, h) = elim (Bool-cases (is_before t w)) [
  | inl earlier ↦
      let before : IsBefore t w =
        unfold is_before in ground (arith, earlier, ==_iff t.priority w.priority) in
      rw (earlier, push)
        ((before, All-map (IsBefore w) (IsBefore t) ws (λ u p. ground arith) first), (first, h))
  | inr later ↦
      let before : IsBefore w t =
        unfold is_before in ground (arith, later, f, ==_iff t.priority w.priority) in
      rw (later, push) (All-push (IsBefore w) t ws before first, push-IsInOrder t ws fs h)
]

-- Nobody runs and the flag is off, or one thread runs and it is on.
abbrev pub IsExclusive : InferenceScheduler → Type 0
IsExclusive s =
    ((s.running ≡ []) × (s.active ≡ false))
    ⊎ ((t : Ticket) × (s.running ≡ t ∷ []) × (s.active ≡ true))

-- While nobody runs, the first in the order does not sleep.
abbrev pub IsAwake : InferenceScheduler → Type 0
IsAwake s =
    (w : Ticket) (ws : List Ticket) → s.active ≡ false → s.waiting ≡ w ∷ ws → is_asleep s w ≡ false

pub record IsValid (s : InferenceScheduler) : Type 0 where
  pub exclusive : IsExclusive s
  pub in_order : IsInOrder s.waiting
  pub fresh : All (IsFresh s.next_sequence) s.waiting
  pub sleepers : All (IsFresh s.next_sequence) s.sleeping
  pub awake : IsAwake s

fresh_awake :
    (t : Ticket) (ts : List Ticket) → All (IsFresh t.sequence) ts → any (is_ticket t) ts ≡ false
fresh_awake t [] h = refl
fresh_awake t (u ∷ ts) (f, h) = ground (arith, fresh_awake t ts h, ==_iff t.sequence u.sequence)

-- The head after a request has arrived: the new one, or the old head.
push_head :
    (ts : List Ticket) (t w : Ticket) (ws : List Ticket)
    → push ts t ≡ w ∷ ws
    → (w ≡ t) ⊎ ((rest : List Ticket) × (ts ≡ w ∷ rest))
unfolding push
push_head [] t w ws e = inl (ground arith)
push_head (u ∷ us) t w ws e = elim (Bool-cases (is_before t u)) [
  | inl earlier ↦ inl (ground (arith, rw (earlier, push) at e))
  | inr later ↦ inr (us, ground (arith, rw (later, push) at e))
]

arrive-IsAwake :
    (s : InferenceScheduler) (priority : InferencePriority)
    → IsValid s
    → IsAwake (arrive s priority)
unfolding arrive
arrive-IsAwake s priority v w ws idle head =
    elim (push_head s.waiting (record { priority = level priority; sequence = s.next_sequence }) w
      ws head) [
        | inl new ↦
            let t : Ticket = record { priority = level priority; sequence = s.next_sequence } in
            ap (λ x. any (is_ticket x) s.sleeping) new ∙ fresh_awake t s.sleeping v.sleepers
        | inr (rest, old) ↦ v.awake w rest idle old
      ]

arrive-IsValid :
    (s : InferenceScheduler) (priority : InferencePriority)
    → IsValid s
    → IsValid (arrive s priority)
unfolding arrive
arrive-IsValid s priority v = record {
  exclusive = v.exclusive;
  in_order = push-IsInOrder _ s.waiting v.fresh v.in_order;
  fresh = All-push (IsFresh (s.next_sequence + 1)) _ s.waiting (omega arith) (
      All-map (IsFresh s.next_sequence) (IsFresh (s.next_sequence + 1)) s.waiting
        (λ t p. omega arith) v.fresh);
  sleepers =
      All-map (IsFresh s.next_sequence) (IsFresh (s.next_sequence + 1)) s.sleeping
        (λ t p. omega arith) v.sleepers;
  awake = arrive-IsAwake s priority v;
}

take_turn_lem :
    (s : InferenceScheduler) (ticket : Ticket) (ws : List Ticket) {s' : InferenceScheduler}
    → take_turn s ticket ws ≡ some s'
    → (w : Ticket) × (ws ≡ w ∷ s'.waiting)
      × (w.sequence ≡ ticket.sequence)
      × (s' ≡ record s { waiting = s'.waiting; active = true; running = ticket ∷ s.running })
unfolding take_turn
take_turn_lem s ticket [] e = ground arith
take_turn_lem s ticket (w ∷ ws) e =
    (w, ground arith, ground (arith, ==_iff w.sequence ticket.sequence), ground arith)

-- Entering takes the head of the order from an idle gate.
enter_lem :
    (s : InferenceScheduler) (ticket : Ticket) {s' : InferenceScheduler}
    → enter s ticket ≡ some s'
    → (s.active ≡ false)
      × (w : Ticket) × (s.waiting ≡ w ∷ s'.waiting)
      × (w.sequence ≡ ticket.sequence)
      × (s' ≡ record s { waiting = s'.waiting; active = true; running = ticket ∷ s.running })
unfolding enter
enter_lem s ticket e =
    let (w, head, own, is) = take_turn_lem s ticket s.waiting (ground arith) in
    (ground arith, w, head, own, is)

enter-IsValid :
    (s : InferenceScheduler) (ticket : Ticket) {s' : InferenceScheduler}
    → enter s ticket ≡ some s'
    → IsValid s
    → IsValid s'
enter-IsValid s ticket {s'} e v =
    let (idle, w, head, own, is) = enter_lem s ticket e in
    let alone : s.running ≡ [] = ground (arith, v.exclusive) in
    record {
      exclusive =
          inr (ticket, ap (λ x. x.running) is ∙ ap (λ r. ticket ∷ r) alone, ap (λ x. x.active) is);
      in_order = (rw head at v.in_order).1;
      fresh = rw (ap (λ x. x.next_sequence) is) ((rw head at v.fresh).1);
      sleepers = rw (ap (λ x. x.next_sequence) is, ap (λ x. x.sleeping) is) v.sleepers;
      awake = λ w ws off first. ground (arith, ap (λ x. x.active) is, off);
    }

enter_head :
    (s : InferenceScheduler) (w : Ticket) (ws : List Ticket)
    → s.active ≡ false
    → s.waiting ≡ w ∷ ws
    → enter s w ≡ some (record s { waiting = ws; active = true; running = w ∷ s.running })
unfolding enter take_turn
enter_head s w ws idle head = ground (arith, ==_refl w.sequence)

-- A thread that may enter does not sleep.
refused_head :
    (s : InferenceScheduler) (ticket w : Ticket) (ws : List Ticket)
    → enter s ticket ≡ none
    → s.active ≡ false
    → s.waiting ≡ w ∷ ws
    → is_ticket w ticket ≡ false
unfolding enter take_turn
refused_head s ticket w ws e idle head =
    let held : take_turn s ticket (w ∷ ws) ≡ none = ground arith in ground arith

found_fresh :
    (n : ℕ) (t : Ticket) (ts : List Ticket)
    → any (is_ticket t) ts ≡ true
    → All (IsFresh n) ts
    → IsFresh n t
found_fresh n t [] h f = ground arith
found_fresh n t (u ∷ ts) h (f, fs) =
    ground (arith, found_fresh n t ts, fs, ==_iff t.sequence u.sequence)

sleep-IsValid :
    (s : InferenceScheduler) (ticket : Ticket)
    → enter s ticket ≡ none
    → any (is_ticket ticket) s.waiting ≡ true
    → IsValid s
    → IsValid (sleep s ticket)
unfolding sleep
sleep-IsValid s ticket e h v = record {
  exclusive = v.exclusive;
  in_order = v.in_order;
  fresh = v.fresh;
  sleepers = (found_fresh s.next_sequence ticket s.waiting h v.fresh, v.sleepers);
  awake = λ w ws idle head. ground (
    arith,
    refused_head s ticket w ws e idle head,
    v.awake w ws idle head,
    ==_iff w.sequence ticket.sequence,
    ==_iff ticket.sequence w.sequence,
  );
}

keep_self :
    (t u : Ticket)
    → any (is_ticket u) (t ∷ []) ≡ true
    → keep (λ x. not (is_ticket x u)) (t ∷ []) ≡ []
keep_self t u h = ground (arith, ==_iff u.sequence t.sequence, ==_iff t.sequence u.sequence)

noted_same :
    (s : InferenceScheduler) (outcome : Outcome)
    → ((noted s outcome).waiting ≡ s.waiting)
      × ((noted s outcome).next_sequence ≡ s.next_sequence)
      × ((noted s outcome).running ≡ s.running)
noted_same s (returned now) = (refl, refl, refl)
noted_same s (raised name) = (refl, refl, refl)

keeps_nobody :
    (s : InferenceScheduler) (ticket : Ticket)
    → any (is_ticket ticket) s.running ≡ true
    → IsExclusive s
    → keep (λ t. not (is_ticket t ticket)) s.running ≡ []
keeps_nobody s ticket h (inl (nobody, idle)) = rw nobody refl
keeps_nobody s ticket h (inr (t, one, busy)) = rw one (keep_self t ticket (rw one at h))

leave-IsValid :
    (s : InferenceScheduler) (ticket : Ticket) (outcome : Outcome)
    → any (is_ticket ticket) s.running ≡ true
    → IsValid s
    → IsValid (leave s ticket outcome)
unfolding leave notify_all
leave-IsValid s ticket outcome h v =
    let (w, n, r) = noted_same s outcome in
    record {
      exclusive = inl (
        ap (λ ts. keep (λ t. not (is_ticket t ticket)) ts) r ∙ keeps_nobody s ticket h v.exclusive,
        refl,
      );
      in_order = rw w v.in_order;
      fresh = rw (w, n) v.fresh;
      sleepers = tt;
      awake = λ w ws idle head. refl;
    }

Step-IsValid : {s s' : InferenceScheduler} → Step s s' → IsValid s → IsValid s'
Step-IsValid (arrives s priority) v = arrive-IsValid s priority v
Step-IsValid {s} {s'} (enters ticket up e) v = enter-IsValid s ticket e v
Step-IsValid (sleeps s ticket here up e) v = sleep-IsValid s ticket e here v
Step-IsValid (leaves s ticket outcome h) v = leave-IsValid s ticket outcome h v

new-IsValid : IsValid new_scheduler
new-IsValid = record {
  exclusive = inl (refl, refl);
  in_order = tt;
  fresh = tt;
  sleepers = tt;
  awake = λ w ws idle head. refl;
}

Reaches-IsValid : {s s' : InferenceScheduler} → Reaches s s' → IsValid s → IsValid s'
Reaches-IsValid (stays s) v = v
Reaches-IsValid (steps r step) v = Step-IsValid step (Reaches-IsValid r v)

-- However the threads interleave, at most one request runs at a time, and the flag that `status`
-- reports says whether one does.
pub one_at_a_time : (s : InferenceScheduler) → Reaches new_scheduler s → IsExclusive s
one_at_a_time s r = (Reaches-IsValid r new-IsValid).exclusive

-- Whenever a thread gets its turn, nobody runs, its request is the head of the order, and every other
-- waiting request is less urgent than that one, or as urgent and later.
pub enters_in_order :
    (s s' : InferenceScheduler) (ticket : Ticket)
    → Reaches new_scheduler s
    → enter s ticket ≡ some s'
    → (s.running ≡ [])
      × (w : Ticket) × (w.sequence ≡ ticket.sequence)
      × (s.waiting ≡ w ∷ s'.waiting)
      × All (IsBefore w) s'.waiting
enters_in_order s s' ticket r e =
    let v = Reaches-IsValid r new-IsValid in
    let (idle, w, head, own, is) = enter_lem s ticket e in
    (ground (arith, v.exclusive), w, own, head, (rw head at v.in_order).0)

-- No wake-up is lost: if a request waits, either nobody runs, and then the first in the order does not
-- sleep and can enter now, or one other request runs, and as soon as it ends, however it ends, the
-- first has been woken and can enter.
pub never_blocks :
    (s : InferenceScheduler) (w : Ticket) (ws : List Ticket)
    → Reaches new_scheduler s
    → s.waiting ≡ w ∷ ws
    → ((is_asleep s w ≡ false) × (s' : InferenceScheduler) × (enter s w ≡ some s'))
      ⊎ ((t : Ticket) × (s.running ≡ t ∷ [])
          × ((outcome : Outcome)
              → (is_asleep (leave s t outcome) w ≡ false)
                × (s' : InferenceScheduler) × (enter (leave s t outcome) w ≡ some s')))
unfolding leave notify_all
never_blocks s w ws r head =
    let v = Reaches-IsValid r new-IsValid in
    elim v.exclusive [
      | inl (nobody, idle) ↦ inl (v.awake w ws idle head, _, enter_head s w ws idle head)
      | inr (t, one, busy) ↦ inr (
        t,
        one,
        λ outcome.
            (refl, _, enter_head (leave s t outcome) w ws refl ((noted_same s outcome).0 ∙ head)),
      )
    ]
