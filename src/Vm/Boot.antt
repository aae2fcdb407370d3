-- ===== src/Vm/Boot.antt =====
-- src/arch/aarch64/hypervisor/exception.rs, src/global.rs and src/vm.rs: the way of a request to boot a
-- vCPU, from the handler through the slot of requests to the run loop.
use hypervisor.Prelude.{ℕ, ◌≡◌, ◌≢◌, true, some, bit_and}
use hypervisor.Bits.Test.{bit}
use hypervisor.Scheduler.{Scheduler, ready, state_at, pick_next}
use hypervisor.Arch.Regs.{VcpuContext, get_reg}
use hypervisor.Vm.Vcpu.{Vcpu, Guest, Turn}
use hypervisor.Vm.Vcpu
use hypervisor.Vm.Global
use hypervisor.Vm.Global.{VmGlobalState, PendingCpuOn}
use hypervisor.Vm.Machine.{World, vm_state, with_state}
use hypervisor.Vm.Lifecycle.{Vm, vcpu_at}
use hypervisor.Vm.Run.{Host, wake_pending_vcpus, scheduled, run_one_iteration}
use hypervisor.Vm.Psci.{x, handle_psci, affinity}

-- The request in the slot of the VM.
abbrev pub pending_of : Host → PendingCpuOn
pending_of h = (vm_state h.world h.vm.id).pending_cpu_on

abbrev waiting : (target entry ctx : ℕ) → PendingCpuOn
waiting target entry ctx = record {
  requested = true;
  target_cpu = target;
  entry_point = entry;
  context_id = ctx;
}

-- The vCPU `id` was booted at `entry` with `ctx` in x0: it is in its slot, waits for its turn, and is
-- online; no other vCPU has changed.
pub record IsBooted (before : Vm) (after : Host) (id entry ctx : ℕ) : Type 0 where
  pub vcpu : Vcpu
  pub here : vcpu_at after.vm id ≡ some vcpu
  pub own : vcpu.id ≡ id
  pub starts_at : vcpu.context.pc ≡ entry
  pub given : get_reg vcpu.context.gp_regs 0 ≡ ctx
  pub waits : state_at after.vm.scheduler id ≡ ready
  pub online : bit id (vm_state after.world before.id).vcpu_online_mask ≡ 1
  pub others :
      (i : ℕ)
      → i ≢ id
      → (vcpu_at after.vm i ≡ vcpu_at before i)
        × (state_at after.vm.scheduler i ≡ state_at before.scheduler i)

-- The answer of the handler, and the state with the request.
abbrev asked : VcpuContext → VmGlobalState → VmGlobalState
asked c g = record g { pending_cpu_on = waiting (x c 1) (x c 2) (x c 3) }

-- The turn `t` with the call as the last thing in it.
abbrev pub after_call : VcpuContext → (function_id : ℕ) → Vm → Turn World → Turn World
after_call c fid vm t = record t {
  world = with_state t.world vm.id (handle_psci c (vm_state t.world vm.id) fid).2;
}

-- The next iteration from `h` starts by booting vCPU `id`, which AFFINITY_INFO then reports as on.
pub record IsNext (guest : Guest World) (h : Host) (id entry ctx : ℕ) : Type 0 where
  pub booted_host : Host
  pub first :
      run_one_iteration guest h
      ≡ scheduled guest booted_host (
          pick_next
            (wake_pending_vcpus booted_host.vm (vm_state booted_host.world booted_host.vm.id)))
  pub up : IsBooted h.vm booted_host id entry ctx
  pub reported :
      (target : ℕ)
      → bit_and target 0xFF ≡ id
      → affinity (vm_state booted_host.world h.vm.id) target ≡ 0
