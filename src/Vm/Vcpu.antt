-- ===== src/Vm/Vcpu.antt =====
-- src/vcpu.rs: a virtual CPU and its turn on the processor.
use hypervisor.Prelude.{ℕ, Bool, true, false, List, ◌==◌, if◌then◌else◌}
use hypervisor.Arch.Regs.{VcpuContext, new_context}
use hypervisor.Vm.ArchState.{VcpuArchState, init_for_vcpu, save, restore}
use hypervisor.Vm.ArchState
use hypervisor.Vm.Interrupts.{VirtualInterruptState, apply_to_hcr, has_pending_interrupt, clear_irq}
use hypervisor.Vm.Interrupts

pub data VcpuState : Type 0 where
  uninitialized ready running stopped : VcpuState

pub record Vcpu : Type 0 where
  pub id : ℕ
  pub state : VcpuState
  pub context : VcpuContext
  pub virt_irq : VirtualInterruptState
  pub arch_state : VcpuArchState

-- The registers of the processor that the code reads and writes.
pub record Processor : Type 0 where
  pub live : VcpuArchState
  pub hcr_el2 : ℕ
  pub vttbr_el2 : ℕ
  pub vtr : ℕ
  pub mpidr : ℕ

unfoldable pub new : (mpidr : ℕ) → (id entry_point stack_pointer : ℕ) → Vcpu
new mpidr id entry_point stack_pointer = record {
  id = id;
  state = ready;
  context = new_context entry_point stack_pointer;
  virt_irq = Interrupts.new;
  arch_state = init_for_vcpu mpidr ArchState.new id;
}

unfoldable pub stop : Vcpu → Vcpu
stop v = record v { state = stopped }

unfoldable pub reset : Vcpu → (entry_point stack_pointer : ℕ) → Vcpu
reset v entry_point stack_pointer = record v {
  context = new_context entry_point stack_pointer;
  state = ready;
}

abbrev pub is_ready : VcpuState → Bool
is_ready ready = true
is_ready _ = false

-- The result of `run`; all but the first are errors.
pub data RunResult : Type 0 where
  finished wfi failed not_ready : RunResult

-- The processor and the rest of the machine, `W`, when the guest comes back.
pub record GuestExit (W : Type 0) : Type 0 where
  pub code : ℕ
  pub context : VcpuContext
  pub processor : Processor
  pub world : W

-- `enter_guest`, with the handlers that run before it comes back.
abbrev pub Guest : Type 0 → Type 0
Guest W = VcpuContext → Processor → W → GuestExit W

pub record Turn (W : Type 0) : Type 0 where
  pub result : RunResult
  pub vcpu : Vcpu
  pub processor : Processor
  pub world : W

abbrev result_of : ℕ → RunResult
result_of code = if code == 0 then finished else (if code == 1 then wfi else failed)

-- The processor when the guest is entered.
abbrev loaded : Vcpu → Processor → Processor
loaded v p = record p { live = restore v.arch_state; hcr_el2 = apply_to_hcr v.virt_irq p.hcr_el2 }

abbrev saved : {W : Type 0} → Vcpu → GuestExit W → Vcpu
saved v e = record v {
  state = ready;
  context = e.context;
  arch_state = save e.processor.live v.arch_state;
}

abbrev freed : Processor → List ℕ → Processor
freed p lrs = record p { live = record p.live { ich_lr = lrs } }

-- What is left to do when the guest has come back.
unfoldable pub come_back : {W : Type 0} → Vcpu → GuestExit W → Turn W
unfolding save
come_back v e =
    let back = clear_irq e.processor.vtr e.processor.live.ich_lr v.virt_irq in
    if has_pending_interrupt v.virt_irq
    then record {
      result = result_of e.code;
      vcpu = record (saved v e) { virt_irq = back.0 };
      processor = freed e.processor back.1;
      world = e.world;
    }
    else record {
      result = result_of e.code;
      vcpu = saved v e;
      processor = e.processor;
      world = e.world;
    }

unfoldable pub run : {W : Type 0} → Guest W → Vcpu → Processor → W → Turn W
unfolding restore come_back
run guest v p w =
    if is_ready v.state
    then come_back v (guest v.context (loaded v p) w)
    else record { result = not_ready; vcpu = v; processor = p; world = w }
