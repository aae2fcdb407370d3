-- ===== src/Vm/Iteration.antt =====
-- src/vm.rs: what one iteration of the run loop keeps.
use hypervisor.Prelude.{
  ℕ, ◌+◌, ◌<◌, ◌≡◌, ◌≢◌, refl, ◌∙◌, arith, subst, Bool, false, not, ◌&&◌, Option, none, some,
  Result, ok, err, ltb, Bool-cases, inl, inr, ◌⊎◌, ℕ_discrete, bit_and,
}
use hypervisor.Scheduler.{Scheduler, absent, ready, running, max_vcpus, state_at}
use hypervisor.Scheduler.Invariant
use hypervisor.Scheduler.Invariant.{
  unblock-IsValid, remove_vcpu-IsValid, add_vcpu-IsValid, yield_current-IsValid,
  block_current-IsValid,
}
use hypervisor.Scheduler.Pick.{Picked, pick_next-Picked, pick_next-IsValid}
use hypervisor.Devices.Virtio.Queue.{Stop}
use hypervisor.Vm.Vcpu.{
  Vcpu, Processor, Guest, Turn, RunResult, finished, wfi, failed, not_ready, run, come_back,
  GuestExit,
}
use hypervisor.Vm.Vcpu
use hypervisor.Vm.Interrupts.{has_pending_interrupt}
use hypervisor.Vm.Machine.{World, vm_state, drain_net_rx}
use hypervisor.Vm.Lifecycle.{Vm, vcpu_at, exists}
use hypervisor.Vm.Run.{
  Host, Panic, device, no_vcpu, booted, boot, boot_secondary_vcpu, boot_requested, after_take,
  taken, wake_pending_vcpus, after_turn, finish_turn, run_vcpu, run_picked, run_one_iteration,
  drained, drained_uart, with_pending, not_done, scheduled, with_scheduler,
}
use hypervisor.Vm.Valid.{IsValid, KnowsLess, with_scheduler-IsValid, put-IsValid, add-IsValid}
use hypervisor.Vm.Narrowing.{
  Narrows, Narrows-trans, wake_from-Narrows, unblock_online-Narrows, after_turn-Narrows,
}

booted_vcpu :
    (mpidr id entry ctx : ℕ)
    → ((booted mpidr id entry ctx).id ≡ id) × ((booted mpidr id entry ctx).state ≡ Vcpu.ready)
unfolding booted Vcpu.new
booted_vcpu mpidr id entry ctx = (refl, refl)

boot_secondary_vcpu-IsValid :
    (h : Host) (id entry ctx : ℕ)
    → id < max_vcpus
    → IsValid h.vm
    → IsValid (boot_secondary_vcpu h id entry ctx).vm
unfolding boot_secondary_vcpu
boot_secondary_vcpu-IsValid h id entry ctx below valid =
    let own = booted_vcpu h.processor.mpidr id entry ctx in
    add-IsValid h.vm id (booted h.processor.mpidr id entry ctx) (h.vm.vcpu_count + 1) h.vm.state
      below valid own.0 own.1

boot-IsValid : (h : Host) (o : Option (ℕ × ℕ × ℕ)) → IsValid h.vm → IsValid (boot h o).vm
boot-IsValid h none valid = valid
boot-IsValid h (some (target, entry, ctx)) valid =
    elim (Bool-cases
      (ltb (bit_and target 0xFF) max_vcpus && not (exists (vcpu_at h.vm (bit_and target 0xFF))))) [
        | inl goes ↦
            rw goes
              (boot_secondary_vcpu-IsValid h (bit_and target 0xFF) entry ctx (ground arith) valid)
        | inr stays ↦ rw stays valid
      ]

boot_requested-IsValid : (h : Host) → IsValid h.vm → IsValid (boot_requested h).vm
unfolding boot_requested
boot_requested-IsValid h valid = boot-IsValid (after_take h) (taken h).1 valid

-- A vCPU that is ready is itself and ready after its turn.
run-whole :
    (guest : Guest World) (v : Vcpu) (p : Processor) (w : World)
    → v.state ≡ Vcpu.ready
    → ((run guest v p w).vcpu.id ≡ v.id) × ((run guest v p w).vcpu.state ≡ Vcpu.ready)
unfolding run come_back
run-whole guest v p w r = elim (Bool-cases (has_pending_interrupt v.virt_irq)) [
  | inl waits ↦ rw (r, waits) (refl, refl)
  | inr quiet ↦ rw (r, quiet) (refl, refl)
]

pub finish_turn-IsValid :
    (vm : Vm) (id : ℕ) (t : Turn World)
    → IsValid vm
    → vm.scheduler.current ≡ some id
    → state_at vm.scheduler id ≡ running
    → t.vcpu.id ≡ id
    → t.vcpu.state ≡ Vcpu.ready
    → IsValid (finish_turn vm id t).vm
unfolding finish_turn
finish_turn-IsValid vm id t valid current runs own is_ready =
    let ended =
      after_turn-Narrows t.result id vm.scheduler (vm_state t.world vm.id) valid.schedules current
        runs in
    let narrowed = with_scheduler-IsValid vm _ valid ended.0 ended.1 in
    put-IsValid
      (record vm { scheduler = (after_turn t.result id vm.scheduler (vm_state t.world vm.id)).0 })
      id t.vcpu narrowed own is_ready

-- No iteration runs into an empty slot, and one that ends leaves the VM valid.
abbrev pub Keeps : Result Panic Host → Type 0
Keeps (err (device e)) = Unit {0}
Keeps (err no_vcpu) = ⊥
Keeps (ok h) = IsValid h.vm

abbrev pub Goes : Result Panic (Bool × Host) → Type 0
Goes (err (device e)) = Unit {0}
Goes (err no_vcpu) = ⊥
Goes (ok (done, h)) = IsValid h.vm

pub Picked-KnowsLess : (s s' : Scheduler) (id : ℕ) → Picked s (s', some id) → KnowsLess s s'
Picked-KnowsLess s s' id (below, current, runs, was, rest) i n e = elim (ℕ_discrete i id) [
  | yes q ↦ not_absent was (subst (λ x. state_at s x ≡ absent) q e)
  | no q ↦ n (rest i q ∙ e)
]
  where
    not_absent : (state_at s id ≡ running) ⊎ (state_at s id ≡ ready) → state_at s id ≢ absent
    not_absent (inl a) b = cc
    not_absent (inr a) b = cc

module _ (guest : Guest World) where
  Keeps→Goes : (r : Result Panic Host) → Keeps r → Goes (not_done guest r)
  Keeps→Goes (err (device e)) k = tt
  Keeps→Goes (err no_vcpu) k = k
  Keeps→Goes (ok h) k = k

  run_vcpu-Keeps :
      (h : Host) (id : ℕ) (o : Option Vcpu)
      → IsValid h.vm
      → h.vm.scheduler.current ≡ some id
      → state_at h.vm.scheduler id ≡ running
      → vcpu_at h.vm id ≡ o
      → Keeps (run_vcpu guest h id o)
  unfolding run_vcpu
  run_vcpu-Keeps h id none valid current runs here =
      absurd (ground (arith, valid.scheduled id, runs, here))
  run_vcpu-Keeps h id (some v) valid current runs here =
      let whole = valid.whole id v here in
      let loaded = with_pending v h.world in
      let turn = run-whole guest loaded.0 h.processor loaded.1 whole.1 in
      finish_turn-IsValid h.vm id (run guest loaded.0 h.processor loaded.1) valid current runs
        (turn.0 ∙ whole.0) turn.1

  run_picked-Keeps :
      (h : Host) (id : ℕ)
      → IsValid h.vm
      → h.vm.scheduler.current ≡ some id
      → state_at h.vm.scheduler id ≡ running
      → Keeps (run_picked guest h id)
  unfolding run_picked
  run_picked-Keeps h id valid current runs = on_uart _
    where
      on_net : (r : Result Stop World) → Keeps (drained guest h id r)
      on_net (err e) = tt
      on_net (ok w) =
          run_vcpu-Keeps (record h { world = w }) id (vcpu_at h.vm id) valid current runs refl

      on_uart : (r : Result Stop World) → Keeps (drained_uart guest h id r)
      on_uart (err e) = tt
      on_uart (ok w) = on_net (drain_net_rx w h.vm.id)

  scheduled-Goes :
      (h : Host) (s : Scheduler)
      → IsValid h.vm
      → Narrows h.vm.scheduler s
      → (r : Scheduler × Option ℕ) → Invariant.IsValid r.0
      → Picked s r
      → Goes (scheduled guest h r)
  scheduled-Goes h s valid narrow (s', none) valid' (same, idle) =
      let less : KnowsLess h.vm.scheduler s' =
        λ i n. narrow.1 i (subst (λ x. state_at x i ≢ absent) same n) in
      let freed =
        unblock_online-Narrows max_vcpus 0 h.vm (vm_state h.world h.vm.id).vcpu_online_mask s' false
          valid' in
      let all = Narrows-trans h.vm.scheduler s' _ less freed in
      with_scheduler-IsValid h.vm _ valid all.0 all.1
  scheduled-Goes h s valid narrow (s', some id) valid' picked =
      let less : KnowsLess h.vm.scheduler s' =
        λ i n. narrow.1 i (Picked-KnowsLess s s' id picked i n) in
      let chosen = with_scheduler-IsValid h.vm s' valid valid' less in
      Keeps→Goes _ (run_picked-Keeps (with_scheduler guest h s') id chosen picked.1 picked.2)

  -- Whatever the guest and the handlers do, from a valid VM an iteration of the run loop never meets
  -- an empty slot, and a VM that it leaves is valid: the scheduler is, it knows only vCPUs that
  -- exist, and each of these is in its slot and ready to be entered.
  pub run_one_iteration-Goes : (h : Host) → IsValid h.vm → Goes (run_one_iteration guest h)
  unfolding run_one_iteration wake_pending_vcpus
  run_one_iteration-Goes h valid =
      let b = boot_requested h in
      let bv = boot_requested-IsValid h valid in
      let woken =
        wake_from-Narrows max_vcpus 0 b.vm (vm_state b.world b.vm.id) b.vm.scheduler bv.schedules in
      scheduled-Goes b _ bv woken _ (pick_next-IsValid _ woken.0) (pick_next-Picked _ woken.0)
