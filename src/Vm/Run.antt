-- ===== src/Vm/Run.antt =====
-- src/vm.rs: the run loop of a VM on one processor. The preemption timer, the wake-up of the physical
-- redistributor and the counters of exceptions hold no state here.
use hypervisor.Prelude.{
  ℕ, zero, suc, ◌+◌, ◌*◌, ◌^◌, Bool, true, false, not, Option, none, some, List, get_or, set,
  Result, ok, err, bit_and, bit_or, ltb, ◌==◌, ◌&&◌, ◌||◌, if◌then◌else◌,
}
use hypervisor.Scheduler.{
  Scheduler, max_vcpus, add_vcpu, remove_vcpu, pick_next, yield_current, block_current, unblock,
}
use hypervisor.Arch.Regs.{set_reg, spsr_el1h_daif_masked}
use hypervisor.Devices.Virtio.Queue.{Stop, out_of_fuel}
use hypervisor.Vm.ArchState.{init_for_vcpu}
use hypervisor.Vm.Vcpu.{
  Vcpu, Processor, Guest, Turn, RunResult, finished, wfi, failed, not_ready, run,
}
use hypervisor.Vm.Vcpu
use hypervisor.Vm.Global.{VmGlobalState, PendingCpuOn, take_request}
use hypervisor.Vm.Machine.{World, vm_state, with_state, drain_uart_rx, drain_net_rx}
use hypervisor.Vm.Pending.{inject_pending_sgis, inject_pending_spis}
use hypervisor.Vm.Lifecycle.{Vm, vcpu_at, exists}

-- A VM on its processor.
pub record Host : Type 0 where
  pub vm : Vm
  pub processor : Processor
  pub world : World

-- What ends the code: a device that stops it, or `unwrap` on a slot without a vCPU.
pub data Panic : Type 0 where
  device : Stop → Panic
  no_vcpu : Panic

-- The vCPU that `boot_secondary_vcpu` makes.
unfoldable pub booted : (mpidr : ℕ) → (id entry ctx_id : ℕ) → Vcpu
booted mpidr id entry ctx_id =
    let v = Vcpu.new mpidr id entry 0 in
    record v {
      context = record v.context {
        gp_regs = set_reg v.context.gp_regs 0 ctx_id;
        spsr_el2 = spsr_el1h_daif_masked;
      };
      arch_state =
          init_for_vcpu mpidr
            (record v.arch_state { sctlr_el1 = 0x30D00800; cpacr_el1 = 3 * 2 ^ 20 }) id;
    }

abbrev pub bring_online : VmGlobalState → ℕ → VmGlobalState
bring_online g id = record g { vcpu_online_mask = bit_or g.vcpu_online_mask (2 ^ id) }

unfoldable pub boot_secondary_vcpu : Host → (id entry ctx_id : ℕ) → Host
unfolding booted
boot_secondary_vcpu h id entry ctx_id = record h {
  vm = record h.vm {
    vcpus = set h.vm.vcpus id (some (booted h.processor.mpidr id entry ctx_id));
    vcpu_count = h.vm.vcpu_count + 1;
    scheduler = add_vcpu h.vm.scheduler id;
  };
  world = with_state h.world h.vm.id (bring_online (vm_state h.world h.vm.id) id);
}

abbrev pub boot : Host → Option (ℕ × ℕ × ℕ) → Host
boot h none = h
boot h (some (target, entry, ctx_id)) =
    let id = bit_and target 0xFF in
    if ltb id max_vcpus && not (exists (vcpu_at h.vm id))
    then boot_secondary_vcpu h id entry ctx_id
    else h

-- The slot of requests after a take, with the request that was in it.
abbrev pub taken : Host → PendingCpuOn × Option (ℕ × ℕ × ℕ)
taken h = take_request (vm_state h.world h.vm.id).pending_cpu_on

abbrev pub after_take : Host → Host
after_take h = record h {
  world =
      with_state h.world h.vm.id
        (record (vm_state h.world h.vm.id) { pending_cpu_on = (taken h).0 });
}

-- The request to boot a vCPU, if one waits.
unfoldable pub boot_requested : Host → Host
unfolding boot_secondary_vcpu
boot_requested h = boot (after_take h) (taken h).1

abbrev pub has_work : VmGlobalState → ℕ → Bool
has_work g id = not (get_or g.pending_sgis id 0 == 0) || not (get_or g.pending_spis id 0 == 0)

-- `wake_pending_vcpus`, for the `n` vCPUs from `id` on.
unfoldable pub wake_from : (n id : ℕ) → Vm → VmGlobalState → Scheduler → Scheduler
wake_from zero id vm g s = s
wake_from (suc n) id vm g s =
    wake_from n (id + 1) vm g (if exists (vcpu_at vm id) && has_work g id then unblock s id else s)

unfoldable pub wake_pending_vcpus : Vm → VmGlobalState → Scheduler
unfolding wake_from
wake_pending_vcpus vm g = wake_from max_vcpus 0 vm g vm.scheduler

abbrev pub is_online : Vm → (online id : ℕ) → Bool
is_online vm online id = not (bit_and online (2 ^ id) == 0) && exists (vcpu_at vm id)

-- The loop that unblocks all vCPUs that are online, and whether there is one.
unfoldable pub unblock_online : (n id : ℕ) → Vm → (online : ℕ) → Scheduler → Bool → Scheduler × Bool
unblock_online zero id vm online s found = (s, found)
unblock_online (suc n) id vm online s found =
    unblock_online n (id + 1) vm online (if is_online vm online id then unblock s id else s)
      (is_online vm online id || found)

abbrev pub flag_of : List Bool → ℕ → Bool
flag_of flags i = get_or flags i false

-- What the scheduler and the flags are after a turn.
unfoldable pub after_turn : RunResult → ℕ → Scheduler → VmGlobalState → Scheduler × VmGlobalState
after_turn finished id s g =
    if flag_of g.terminal_exit id
    then (remove_vcpu s id, record g { terminal_exit = set g.terminal_exit id false })
    else (if g.pending_cpu_on.requested
        then (yield_current s, g)
        else (if g.preemption_exit
            then (yield_current s, record g { preemption_exit = false })
            else (yield_current s, g)))
after_turn wfi id s g = (block_current s, g)
after_turn failed id s g = (yield_current s, g)
after_turn not_ready id s g = (yield_current s, g)

-- The pending interrupts of the vCPU go to its saved registers.
abbrev pub with_pending : Vcpu → World → Vcpu × World
with_pending v w =
    let i = w.current_vm_id in
    let a = inject_pending_sgis v.id v.arch_state.ich_lr (vm_state w i) in
    let b = inject_pending_spis v.id a.0 a.1 in
    (record v { arch_state = record v.arch_state { ich_lr = b.0 } }, with_state w i b.1)

abbrev put_vcpu : Vm → ℕ → Vcpu → Scheduler → Vm
put_vcpu vm id v s = record vm { vcpus = set vm.vcpus id (some v); scheduler = s }

-- The end of an iteration, after the turn of vCPU `id`.
unfoldable pub finish_turn : Vm → ℕ → Turn World → Host
unfolding after_turn
finish_turn vm id t =
    let ended = after_turn t.result id vm.scheduler (vm_state t.world vm.id) in
    record {
      vm = put_vcpu vm id t.vcpu ended.0;
      processor = t.processor;
      world = with_state t.world vm.id ended.1;
    }

module _ (guest : Guest World) where
  unfoldable pub run_vcpu : Host → ℕ → Option Vcpu → Result Panic Host
  unfolding finish_turn run inject_pending_sgis inject_pending_spis
  run_vcpu h id none = err no_vcpu
  run_vcpu h id (some v) =
      let loaded = with_pending v h.world in
      ok (finish_turn h.vm id (run guest loaded.0 h.processor loaded.1))

  -- The input goes to the devices, and then vCPU `id` has its turn.
  abbrev pub drained : Host → ℕ → Result Stop World → Result Panic Host
  drained h id (err e) = err (device e)
  drained h id (ok w) = run_vcpu (record h { world = w }) id (vcpu_at h.vm id)

  abbrev pub drained_uart : Host → ℕ → Result Stop World → Result Panic Host
  drained_uart h id (err e) = err (device e)
  drained_uart h id (ok w) = drained h id (drain_net_rx w h.vm.id)

  unfoldable pub run_picked : Host → ℕ → Result Panic Host
  unfolding run_vcpu drain_uart_rx drain_net_rx
  run_picked h id =
      let g = vm_state h.world h.vm.id in
      let w = with_state h.world h.vm.id (record g { current_vcpu_id = id }) in
      drained_uart h id (drain_uart_rx w h.vm.id)

  abbrev pub not_done : Result Panic Host → Result Panic (Bool × Host)
  not_done (err e) = err e
  not_done (ok h) = ok (false, h)

  abbrev pub with_scheduler : Host → Scheduler → Host
  with_scheduler h s = record h { vm = record h.vm { scheduler = s } }

  -- What follows the choice of the scheduler.
  abbrev pub scheduled : Host → Scheduler × Option ℕ → Result Panic (Bool × Host)
  scheduled h (s, some id) = not_done (run_picked (with_scheduler h s) id)
  scheduled h (s, none) =
      let freed =
        unblock_online max_vcpus 0 h.vm (vm_state h.world h.vm.id).vcpu_online_mask s false in
      ok (not freed.1, with_scheduler h freed.0)

  -- Whether the VM has nothing left to run, and what became of it.
  unfoldable pub run_one_iteration : Host → Result Panic (Bool × Host)
  unfolding run_picked boot_requested wake_pending_vcpus unblock_online
  run_one_iteration h =
      let b = boot_requested h in
      let s = wake_pending_vcpus b.vm (vm_state b.world b.vm.id) in scheduled b (pick_next s)

  abbrev pub then_again :
      (Host → Result Panic Host) → Result Panic (Bool × Host) → Result Panic Host
  then_again k (err e) = err e
  then_again k (ok (true, h)) = ok h
  then_again k (ok (false, h)) = k h

  -- The loop of `run_smp`, with `n` rounds left.
  unfoldable pub run_loop : (n : ℕ) → Host → Result Panic Host
  unfolding run_one_iteration
  run_loop zero h = err (device out_of_fuel)
  run_loop (suc n) h = then_again (run_loop n) (run_one_iteration h)
