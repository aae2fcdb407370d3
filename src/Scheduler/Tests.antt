-- ===== src/Scheduler/Tests.antt =====
-- Runs of the scheduler, and its theorems at concrete states.
use hypervisor.Prelude.{ℕ, ◌≡◌, ◌≤◌, refl, subst, arith, none, some, List, [], ◌∷◌}
use hypervisor.Scheduler.{
  Scheduler, RunState, absent, ready, running, blocked, state_at, new, add_vcpu, pick_next,
}
use hypervisor.Scheduler
use hypervisor.Scheduler.Invariant.{IsValid}
use hypervisor.Scheduler.Pick.{
  Call, adds, picks, yields, blocks, step, run, run-new-IsValid, Picked, pick_next-Picked,
}
use hypervisor.Scheduler.Fairness.{turns, turns-pick_next}

abbrev history : List Call
history = adds 0 ∷ adds 1 ∷ adds 2 ∷ picks ∷ blocks ∷ picks ∷ yields ∷ []

-- vCPU 0 blocked, 1 and 2 ready, and the search starts at 2.
abbrev waiting : Scheduler
waiting = record {
  states = blocked ∷ ready ∷ ready ∷ absent ∷ absent ∷ absent ∷ absent ∷ absent ∷ [];
  current = none;
  next_idx = 2;
}

run-history : run new history ≡ waiting
unfolding run step new add_vcpu pick_next Scheduler.pick_from Scheduler.yield_current
    Scheduler.block_current
run-history = refl

waiting-IsValid : IsValid waiting
waiting-IsValid = subst IsValid run-history (run-new-IsValid history)

pick_next-Picked_example : Picked waiting (pick_next waiting)
pick_next-Picked_example = pick_next-Picked waiting waiting-IsValid

turns-pick_next_example : (k : ℕ) × (k ≤ 7) × ((pick_next (turns k waiting)).1 ≡ some 1)
turns-pick_next_example = turns-pick_next waiting 1 waiting-IsValid refl (omega arith) refl
