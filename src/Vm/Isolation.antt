-- ===== src/Vm/Isolation.antt =====
-- src/arch/aarch64/hypervisor/exception.rs: what an exception of a guest leaves alone.
use hypervisor.Prelude.{
  ℕ, ◌+◌, ◌/◌, ◌%◌, ◌^◌, ◌≡◌, refl, ◌∙◌, ap, arith, if◌then◌else◌, Bool, true, false, ◌||◌, ◌==◌,
  ltb, leb, Option, List, [], ◌∷◌, get_or-set, get_or_out, Result, ok, err, Bool-cases, inl, inr,
  bit_and,
}
use hypervisor.Scheduler.{max_vcpus}
use hypervisor.Arch.Regs.{
  VcpuContext, ExitReason, unknown, wfi_wfe, hvc_call, smc_call, trap_msr_mrs, instruction_abort,
  data_abort, other, exit_reason, get_reg,
}
use hypervisor.Ffa.Proxy.State.{Regs, Proxy}
use hypervisor.Devices.Virtio.Queue.{Stop}
use hypervisor.Devices.Board.{Device, Board, Platform, route_spi}
use hypervisor.Devices.Manager.{DeviceManager}
use hypervisor.Devices.Manager
use hypervisor.Vm.Global.{VmGlobalState}
use hypervisor.Vm.Global
use hypervisor.Vm.Machine.{
  World, vm_state, manager_of, devices_of, with_devices, inject_spi, inject_spis,
}
use hypervisor.Vm.Pending.{flush_pending_spis_to_hardware}
use hypervisor.Vm.Psci.{
  PsciFunction, version, features, cpu_off, cpu_on, affinity_info, migrate_info_type, system_off,
  system_reset, cpu_suspend, function_of, is_psci_function, is_ffa_function, x, call, handle_psci,
  handle_jailhouse_debug_console, handle_hypercall_with_imm, handle_hypercall, handle_smc,
}
use hypervisor.Vm.Psci
use hypervisor.Vm.Vcpu.{Processor}
use hypervisor.Vm.Traps.{handle_wfi_with_timer_injection, multi_vcpu}
use hypervisor.Vm.Targets.{handle_sgi_trap-Rest}
use hypervisor.Vm.Exceptions.{
  SysReg, sys_reg, emulate_msr, handle_msr_mrs_trap, Handlers, Halt, Trapped, current_vm_state,
  with_current, proxy_of, on_wfi, on_hvc, on_smc, on_msr_mrs, after_access, aborted, on_data_abort,
  max_consecutive_exceptions, handle_reason, handle_exception,
}

-- The current VM is the same, no VM has another word of online vCPUs, and the state and the devices of
-- every VM but the current one are as they were.
pub record Confined (w w' : World) : Type 0 where
  pub current : w'.current_vm_id ≡ w.current_vm_id
  pub online : (i : ℕ) → (vm_state w' i).vcpu_online_mask ≡ (vm_state w i).vcpu_online_mask
  pub state : (i : ℕ) → (i == w.current_vm_id) ≡ false → vm_state w' i ≡ vm_state w i
  pub devices : (i : ℕ) → (i == w.current_vm_id) ≡ false → manager_of w' i ≡ manager_of w i

Confined-refl : (w : World) → Confined w w
Confined-refl w = record {
  current = refl;
  online = λ i. refl;
  state = λ i other_vm. refl;
  devices = λ i other_vm. refl;
}

Confined-trans : {u v w : World} → Confined u v → Confined v w → Confined u w
Confined-trans a b = record {
  current = b.current ∙ a.current;
  online = λ i. b.online i ∙ a.online i;
  state = λ i n. b.state i (ap (λ c. i == c) a.current ∙ n) ∙ a.state i n;
  devices = λ i n. b.devices i (ap (λ c. i == c) a.current ∙ n) ∙ a.devices i n;
}

with_current-Confined :
    (w : World) (g : VmGlobalState)
    → g.vcpu_online_mask ≡ (current_vm_state w).vcpu_online_mask
    → Confined w (with_current w g)
with_current-Confined w g e = record {
  current = refl;
  online = λ i. ground (
    arith,
    get_or-set w.vm_states w.current_vm_id i g Global.new,
    get_or_out w.vm_states i Global.new,
    e,
  );
  state = λ i n. ground (arith, get_or-set w.vm_states w.current_vm_id i g Global.new, n);
  devices = λ i n. refl;
}

with_devices-Confined :
    (w : World) (slots : List (Option Device)) (b : Board)
    → Confined w (record (with_devices w w.current_vm_id slots) { board = b })
with_devices-Confined w slots b = record {
  current = refl;
  online = λ i. refl;
  state = λ i n. refl;
  devices = λ i n. ground (
    arith,
    get_or-set w.devices w.current_vm_id i
        (record (manager_of w w.current_vm_id) { devices = slots }) Manager.new,
    n,
  );
}

inject_spi-Confined : (w : World) (intid : ℕ) → Confined w (inject_spi w intid)
unfolding inject_spi
inject_spi-Confined w intid = elim (Bool-cases (ltb intid 32 || ltb 63 intid)) [
  | inl out ↦ rw out (Confined-refl w)
  | inr inside ↦
      rw inside
        (elim (Bool-cases (ltb (route_spi (devices_of w w.current_vm_id) intid) max_vcpus)) [
          | inl known ↦ rw known (with_current-Confined w _ refl)
          | inr unknown_vcpu ↦ rw unknown_vcpu (Confined-refl w)
        ])
]

inject_spis-Confined : (w : World) (spis : List ℕ) → Confined w (inject_spis w spis)
unfolding inject_spis
inject_spis-Confined w [] = Confined-refl w
inject_spis-Confined w (intid ∷ spis) =
    Confined-trans (inject_spi-Confined w intid) (inject_spis-Confined (inject_spi w intid) spis)

after_access-Confined :
    (w : World) (slots : List (Option Device)) (b : Board) → Confined w (after_access w slots b)
after_access-Confined w slots b =
    Confined-trans (with_devices-Confined w slots _) (inject_spis-Confined _ b.machine.spis)

-- The calls of a guest leave the word of the online vCPUs as it is.
call-online :
    (f : PsciFunction) (c : VcpuContext) (g : VmGlobalState)
    → (call f c g).2.vcpu_online_mask ≡ g.vcpu_online_mask
unfolding call
call-online version c g = refl
call-online features c g = refl
call-online cpu_off c g = refl
call-online cpu_on c g = refl
call-online affinity_info c g = refl
call-online migrate_info_type c g = refl
call-online system_off c g = refl
call-online system_reset c g = refl
call-online cpu_suspend c g = refl
call-online Psci.unknown c g = refl

handle_psci-online :
    (c : VcpuContext) (g : VmGlobalState) (fid : ℕ)
    → (handle_psci c g fid).2.vcpu_online_mask ≡ g.vcpu_online_mask
unfolding handle_psci
handle_psci-online c g fid = call-online (function_of fid) c g

handle_jailhouse_debug_console-online :
    (input : Option ℕ) (c : VcpuContext) (g : VmGlobalState)
    → (handle_jailhouse_debug_console input c g).2.vcpu_online_mask ≡ g.vcpu_online_mask
unfolding handle_jailhouse_debug_console
handle_jailhouse_debug_console-online input c g = ground arith

handle_hypercall-online :
    (input : Option ℕ) (c : VcpuContext) (g : VmGlobalState)
    → (handle_hypercall input c g).2.vcpu_online_mask ≡ g.vcpu_online_mask
unfolding handle_hypercall handle_hypercall_with_imm
handle_hypercall-online input c g =
    ground (arith, handle_jailhouse_debug_console-online input c g, handle_psci-online c g (x c 0))

handle_smc-online :
    (smc : Regs → Regs) (c : VcpuContext) (g : VmGlobalState) (p : Proxy)
    → (handle_smc smc c g p).2.vcpu_online_mask ≡ g.vcpu_online_mask
unfolding handle_smc
handle_smc-online smc c g p = elim (Bool-cases (is_psci_function (x c 0))) [
  | inl psci ↦ rw psci (handle_psci-online c g (x c 0))
  | inr no_psci ↦ rw no_psci (ground arith)
]

emulate_msr-online :
    (r : SysReg) (value : ℕ) (p : Processor) (g : VmGlobalState)
    → (emulate_msr r value p g).1.vcpu_online_mask ≡ g.vcpu_online_mask
unfolding emulate_msr
emulate_msr-online r value p g =
    ground (arith, (handle_sgi_trap-Rest p.vtr value p.live.ich_lr g).2)

handle_msr_mrs_trap-online :
    (esr : ℕ) (c : VcpuContext) (p : Processor) (g : VmGlobalState)
    → (handle_msr_mrs_trap esr c p g).2.vcpu_online_mask ≡ g.vcpu_online_mask
unfolding handle_msr_mrs_trap
handle_msr_mrs_trap-online esr c p g =
    let iss = bit_and esr 0x1FFFFFF in
    let rt = bit_and (iss / 2 ^ 5) 0x1F in
    let value = if ltb rt 31 then get_reg c.gp_regs rt else 0 in
    elim (Bool-cases (bit_and iss 1 == 1)) [
      | inl read ↦ rw read refl
      | inr written ↦ rw written (emulate_msr-online (sys_reg iss) value p g)
    ]

flush-online :
    (vtr i : ℕ) (lrs : List ℕ) (g : VmGlobalState)
    → (flush_pending_spis_to_hardware vtr i lrs g).1.vcpu_online_mask ≡ g.vcpu_online_mask
unfolding flush_pending_spis_to_hardware
flush-online vtr i lrs g = elim (Bool-cases (leb max_vcpus i)) [
  | inl out ↦ rw out refl
  | inr inside ↦ rw inside refl
]

-- Whether what an exception leads to is confined, where it does not end the code.
abbrev pub IsConfined : World → Result Halt Trapped → Type 0
IsConfined w (err e) = Unit {0}
IsConfined w (ok (goes_on, c, s)) = Confined w s.world

aborted-IsConfined :
    (s : Handlers) (r : Result Stop (Bool × VcpuContext × List (Option Device) × Board))
    → IsConfined s.world (aborted s r)
aborted-IsConfined s (err e) = tt
aborted-IsConfined s (ok (false, c, slots, b)) = after_access-Confined s.world slots b
aborted-IsConfined s (ok (true, c, slots, b)) =
    let w = after_access s.world slots b in
    Confined-trans (after_access-Confined s.world slots b)
      (with_current-Confined w _ (flush-online _ _ _ (current_vm_state w)))

module _ (platform : Platform) (smc : Regs → Regs) (input : Option ℕ) (hpfar : ℕ) where
  handle_reason-IsConfined :
      (r : ExitReason) (c : VcpuContext) (s : Handlers)
      → IsConfined s.world (handle_reason platform smc input hpfar r c s)
  unfolding handle_reason on_wfi on_hvc on_smc on_msr_mrs on_data_abort
  handle_reason-IsConfined unknown c s = Confined-refl s.world
  handle_reason-IsConfined wfi_wfe c s =
      elim (Bool-cases (multi_vcpu (current_vm_state s.world).vcpu_online_mask)) [
        | inl several ↦ rw several (Confined-refl s.world)
        | inr one ↦
            rw one (elim (Bool-cases (handle_wfi_with_timer_injection c.pc s.wfi s.processor).0) [
              | inl goes ↦ rw goes (Confined-refl s.world)
              | inr stays ↦ rw stays (Confined-refl s.world)
            ])
      ]
  handle_reason-IsConfined hvc_call c s =
      with_current-Confined s.world _ (handle_hypercall-online input c (current_vm_state s.world))
  handle_reason-IsConfined smc_call c s =
      let kept =
        with_current-Confined s.world _
          (handle_smc-online smc c (current_vm_state s.world) (proxy_of s)) in
      record {
        current = kept.current;
        online = kept.online;
        state = kept.state;
        devices = kept.devices;
      }
  handle_reason-IsConfined trap_msr_mrs c s =
      with_current-Confined s.world _
        (handle_msr_mrs_trap-online c.sys_regs.esr_el2 c s.processor (current_vm_state s.world))
  handle_reason-IsConfined instruction_abort c s = Confined-refl s.world
  handle_reason-IsConfined data_abort c s = aborted-IsConfined s _
  handle_reason-IsConfined (other ec) c s =
      elim (Bool-cases (ec == 0x07 || ec == 0x09 || ec == 0x19)) [
        | inl skipped ↦ rw skipped (Confined-refl s.world)
        | inr fatal ↦ rw fatal (Confined-refl s.world)
      ]

  -- Whatever exception a guest takes, and whatever its registers and its memory, the handlers, where
  -- they do not end the code, change the state and the devices of no VM but the current one, which
  -- stays the current one, and no VM's word of online vCPUs.
  pub handle_exception-IsConfined :
      (esr far : ℕ) (c : VcpuContext) (s : Handlers)
      → IsConfined s.world (handle_exception platform smc input hpfar esr far c s)
  unfolding handle_exception
  handle_exception-IsConfined esr far c s =
      let c' = record c { sys_regs = record c.sys_regs { esr_el2 = esr; far_el2 = far } } in
      let count = (s.exception_count + 1) % 2 ^ 32 in
      elim (Bool-cases (ltb max_consecutive_exceptions count)) [
        | inl halts ↦ rw halts tt
        | inr goes ↦
            rw goes
              (handle_reason-IsConfined (exit_reason c') c' (record s { exception_count = count }))
      ]
