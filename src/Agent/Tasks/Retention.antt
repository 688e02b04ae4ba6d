-- ===== src/Agent/Tasks/Retention.antt =====
-- `_trim_locked` of ron/agent/task_manager.py: which tasks it forgets.
use ron_personal_assistant.Prelude.{
  ℕ, ◌-◌, ◌≡◌, refl, ap, inl, inr, Bool, true, false, ◌&&◌, not, List, [], ◌∷◌, zero, suc, arith,
  ◌==◌, ==_iff, length, take, keep, Bool-cases,
}
use ron_personal_assistant.Prelude.Dict.{nat_key}
use ron_personal_assistant.Agent.Tasks.{TaskManager, closed_at, mem_nat, sorted, surplus, trim}

mem-take : (n i : ℕ) (xs : List ℕ) → mem_nat i (take n xs) ≡ true → mem_nat i xs ≡ true
unfolding mem_nat
mem-take zero i xs h = cc
mem-take (suc n) i [] h = cc
mem-take (suc n) i (x ∷ xs) h = ground (arith, mem-take n i xs)

mem-keep : (p : ℕ → Bool) (i : ℕ) (xs : List ℕ) → mem_nat i (keep p xs) ≡ (mem_nat i xs && p i)
unfolding mem_nat
mem-keep p i [] = refl
mem-keep p i (x ∷ xs) = elim (Bool-cases (i == x)) [
  | inl same ↦ let here : p i ≡ p x = ap p ((==_iff i x).0 same) in ground (arith, mem-keep p i xs)
  | inr other ↦ ground (arith, mem-keep p i xs)
]

surplus_closed :
    (m : TaskManager) (i : ℕ) → mem_nat i (surplus m) ≡ true → closed_at m.records i ≡ true
unfolding surplus
surplus_closed m i h =
    let p = closed_at m.records in
    let completed_ids = keep p (sorted m.tracked) in
    let among = mem-take (length completed_ids - m.retained_tasks) i completed_ids h in
    ground (arith, mem-keep p i (sorted m.tracked), among)

-- A task that is open, whatever its age and however many there are, is never forgotten.
pub trim_keeps_open :
    (m : TaskManager) (i : ℕ)
    → mem_nat i m.tracked ≡ true
    → closed_at m.records i ≡ false
    → mem_nat i (trim m).tracked ≡ true
unfolding trim
trim_keeps_open m i h o =
    ground (arith, mem-keep (λ i. not (mem_nat i (surplus m))) i m.tracked, surplus_closed m i)
