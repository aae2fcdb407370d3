-- ===== src/Vm/Narrowing.antt =====
-- src/vm.rs: what the run loop does to the scheduler.
use hypervisor.Prelude.{
  ℕ, zero, suc, ◌+◌, ◌≡◌, sym, subst, Bool, true, false, ◌&&◌, some, if◌then◌else◌, Bool-cases, inl,
  inr,
}
use hypervisor.Scheduler.{
  Scheduler, ready, running, blocked, state_at, unblock, leave_current, yield_current,
  block_current,
}
use hypervisor.Scheduler.Invariant
use hypervisor.Scheduler.Invariant.{
  unblock-IsValid, remove_vcpu-IsValid, add_vcpu-IsValid, yield_current-IsValid,
  block_current-IsValid,
}
use hypervisor.Vm.Vcpu.{RunResult, finished, wfi, failed, not_ready}
use hypervisor.Vm.Global.{VmGlobalState}
use hypervisor.Vm.Lifecycle.{Vm, vcpu_at, exists}
use hypervisor.Vm.Run.{has_work, wake_from, is_online, flag_of, unblock_online, after_turn}
use hypervisor.Vm.Valid.{
  KnowsLess, unblock-KnowsLess, remove_vcpu-KnowsLess, leave_current-KnowsLess,
}

-- A valid scheduler that knows no further vCPU.
abbrev pub Narrows : Scheduler → Scheduler → Type 0
Narrows s s' = Invariant.IsValid s' × KnowsLess s s'

pub Narrows-trans : (s t u : Scheduler) → KnowsLess s t → Narrows t u → Narrows s u
Narrows-trans s t u less (valid, less') = (valid, λ i n. less i (less' i n))

unblock-Narrows : (s : Scheduler) (i : ℕ) → Invariant.IsValid s → Narrows s (unblock s i)
unblock-Narrows s i valid = (unblock-IsValid s i valid, unblock-KnowsLess s i)

-- One step of a loop that unblocks some vCPUs.
unblock_if-Narrows :
    (b : Bool) (s : Scheduler) (i : ℕ)
    → Invariant.IsValid s
    → Narrows s (if b then unblock s i else s)
unblock_if-Narrows true s i valid = unblock-Narrows s i valid
unblock_if-Narrows false s i valid = (valid, λ j n. n)

pub wake_from-Narrows :
    (n id : ℕ) (vm : Vm) (g : VmGlobalState) (s : Scheduler)
    → Invariant.IsValid s
    → Narrows s (wake_from n id vm g s)
unfolding wake_from
wake_from-Narrows zero id vm g s valid = (valid, λ i n. n)
wake_from-Narrows (suc n) id vm g s valid =
    let step = unblock_if-Narrows (exists (vcpu_at vm id) && has_work g id) s id valid in
    Narrows-trans s (if exists (vcpu_at vm id) && has_work g id then unblock s id else s) _ step.1
      (wake_from-Narrows n (id + 1) vm g _ step.0)

pub unblock_online-Narrows :
    (n id : ℕ) (vm : Vm) (online : ℕ) (s : Scheduler) (found : Bool)
    → Invariant.IsValid s
    → Narrows s (unblock_online n id vm online s found).0
unfolding unblock_online
unblock_online-Narrows zero id vm online s found valid = (valid, λ i n. n)
unblock_online-Narrows (suc n) id vm online s found valid =
    let step = unblock_if-Narrows (is_online vm online id) s id valid in
    Narrows-trans s (if is_online vm online id then unblock s id else s) _ step.1
      (unblock_online-Narrows n (id + 1) vm online _ _ step.0)

module _ (s : Scheduler) (id : ℕ) (valid : Invariant.IsValid s) (current : s.current ≡ some id)
    (runs : state_at s id ≡ running) where
  yield_current-Narrows : Narrows s (yield_current s)
  unfolding yield_current
  yield_current-Narrows = (
    yield_current-IsValid s valid,
    subst (λ o. KnowsLess s (leave_current ready o s)) (sym current)
        (leave_current-KnowsLess ready s id runs),
  )

  block_current-Narrows : Narrows s (block_current s)
  unfolding block_current
  block_current-Narrows = (
    block_current-IsValid s valid,
    subst (λ o. KnowsLess s (leave_current blocked o s)) (sym current)
        (leave_current-KnowsLess blocked s id runs),
  )

-- The scheduler after the turn of vCPU `id`, which is its current one.
pub after_turn-Narrows :
    (r : RunResult) (id : ℕ) (s : Scheduler) (g : VmGlobalState)
    → Invariant.IsValid s
    → s.current ≡ some id
    → state_at s id ≡ running
    → Narrows s (after_turn r id s g).0
unfolding after_turn
after_turn-Narrows finished id s g valid current runs =
    elim (Bool-cases (flag_of g.terminal_exit id)) [
      | inl ends ↦ rw ends (remove_vcpu-IsValid s id valid, remove_vcpu-KnowsLess s id)
      | inr stays ↦ rw stays (elim (Bool-cases g.pending_cpu_on.requested) [
        | inl asked ↦ rw asked (yield_current-Narrows s id valid current runs)
        | inr quiet ↦ rw quiet (elim (Bool-cases g.preemption_exit) [
          | inl preempted ↦ rw preempted (yield_current-Narrows s id valid current runs)
          | inr plain ↦ rw plain (yield_current-Narrows s id valid current runs)
        ])
      ])
    ]
after_turn-Narrows wfi id s g valid current runs = block_current-Narrows s id valid current runs
after_turn-Narrows failed id s g valid current runs = yield_current-Narrows s id valid current runs
after_turn-Narrows not_ready id s g valid current runs =
    yield_current-Narrows s id valid current runs
