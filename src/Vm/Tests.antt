-- ===== src/Vm/Tests.antt =====
-- The theorems on virtual machines at concrete states, and runs of the handlers.
use hypervisor.Prelude.{
  ℕ, ◌^◌, ◌<◌, ◌≡◌, refl, arith, false, none, some, List, [], ◌∷◌, replicate, set, get_or,
}
use hypervisor.Scheduler.{Scheduler, max_vcpus, add_vcpu, pick_next}
use hypervisor.Scheduler
use hypervisor.Arch.Regs.{VcpuContext, default_context}
use hypervisor.Devices.Manager
use hypervisor.Ffa.StubSpmc
use hypervisor.Ffa.Notifications
use hypervisor.Devices.Board.{Board, Platform}
use hypervisor.Vswitch.RxRing
use hypervisor.Vswitch.MacTable
use hypervisor.Vm.ArchState
use hypervisor.Vm.Vcpu.{Vcpu, Processor, Guest, GuestExit, Turn}
use hypervisor.Vm.Vcpu
use hypervisor.Vm.Global.{VmGlobalState}
use hypervisor.Vm.Global
use hypervisor.Vm.Machine.{World}
use hypervisor.Vm.Lifecycle.{Vm, empty_vm, create_vcpu}
use hypervisor.Vm.Lifecycle
use hypervisor.Vm.Pending.{inject_pending_sgis, inject_pending_spis}
use hypervisor.Vm.Delivery.{Moved, sgi_value, spi_value, inject_pending-Moved}
use hypervisor.Vm.Traps.{handle_sgi_trap}
use hypervisor.Vm.Targets.{word_after, is_target, intid_of, Rest, handle_sgi_trap-Reaches}
use hypervisor.Vm.Exceptions.{Handlers, handle_exception}
use hypervisor.Vm.Isolation.{IsConfined, handle_exception-IsConfined}
use hypervisor.Vm.Run.{Host}
use hypervisor.Vm.Loops.{run_smp}
use hypervisor.Vm.Valid.{IsValid, add-IsValid}
use hypervisor.Vm.Running.{NoEmptySlot, empty_vm-IsValid, run_smp-NoEmptySlot}
use hypervisor.Vm.Endless.{NeverBack, run_smp-NeverBack}

-- SGI 2 and the SPI 48 wait for vCPU 0; vCPU 0 and vCPU 1 are online.
abbrev state : VmGlobalState
state = record Global.new {
  pending_sgis = 4 ∷ 0 ∷ 0 ∷ 0 ∷ 0 ∷ 0 ∷ 0 ∷ 0 ∷ [];
  pending_spis = 0x10000 ∷ 0 ∷ 0 ∷ 0 ∷ 0 ∷ 0 ∷ 0 ∷ 0 ∷ [];
  vcpu_online_mask = 3;
}

-- Register 0 is in use.
abbrev registers : List ℕ
registers = 2 ^ 62 ∷ 0 ∷ 0 ∷ 0 ∷ []

inject_pending-Moved_example :
    Moved sgi_value 0 registers state.pending_sgis
      (inject_pending_sgis 0 registers state).0
      (inject_pending_sgis 0 registers state).1.pending_sgis
    × Moved spi_value 0 registers state.pending_spis
        (inject_pending_spis 0 registers state).0
        (inject_pending_spis 0 registers state).1.pending_spis
inject_pending-Moved_example =
    inject_pending-Moved 0 registers state (omega arith) (omega arith) (omega arith) (omega arith)

-- vCPU 0 sends SGI 5 to the vCPUs 0 and 1.
handle_sgi_trap-Reaches_example :
    ((j : ℕ)
      → j < max_vcpus
      → get_or (handle_sgi_trap 3 0x5000003 registers state).1.pending_sgis j 0
        ≡ word_after (is_target 0x5000003 state j) (intid_of 0x5000003) j state)
    × Rest state (handle_sgi_trap 3 0x5000003 registers state).1
handle_sgi_trap-Reaches_example = handle_sgi_trap-Reaches 3 0x5000003 registers state refl

abbrev board : Board
board = record {
  machine = record {
    ram = λ a. 0;
    switch = MacTable.new;
    ports = RxRing.new ∷ RxRing.new ∷ [];
    spis = [];
  };
  counter = record { ticks = 0; freq = 62500000 };
  sent = [];
  passed = [];
}

abbrev world : World
world = record {
  vm_states = state ∷ Global.new ∷ [];
  current_vm_id = 0;
  devices = Manager.new ∷ Manager.new ∷ [];
  uart_rx = Global.new_ring;
  board = board;
}

abbrev processor : Processor
processor = record {
  live = ArchState.new;
  hcr_el2 = 0x80000000;
  vttbr_el2 = 0;
  vtr = 3;
  mpidr = 0x80000000;
}

abbrev first : Vcpu
first = Vcpu.new 0x80000000 0 0x40080000 0

-- A VM with vCPU 0.
abbrev vm : Vm
vm = record (empty_vm 0) {
  vcpus = set (replicate 8 none) 0 (some first);
  vcpu_count = 1;
  scheduler = add_vcpu Scheduler.new 0;
  state = Lifecycle.ready;
}

abbrev host : Host
host = record { vm = vm; processor = processor; world = world }

first_whole : (first.id ≡ 0) × (first.state ≡ Vcpu.ready)
unfolding Vcpu.new
first_whole = (refl, refl)

vm-IsValid : IsValid vm
vm-IsValid =
    add-IsValid (empty_vm 0) 0 first 1 Lifecycle.ready (omega arith) (empty_vm-IsValid 0)
      first_whole.0 first_whole.1

-- A guest that comes back at once.
abbrev guest : Guest World
guest c p w = record { code = 0; context = c; processor = p; world = w }

run_smp-NoEmptySlot_example : NoEmptySlot (run_smp guest 3 host)
run_smp-NoEmptySlot_example = run_smp-NoEmptySlot guest 3 host vm-IsValid

run_smp-NeverBack_example : NeverBack (run_smp guest 3 host)
run_smp-NeverBack_example =
    run_smp-NeverBack guest (λ c p w i. refl) 3 host vm-IsValid refl refl (omega arith) refl

-- CPU_ON of vCPU 1 at 0x40080000 with the argument 7.
abbrev call : VcpuContext
call = record default_context { gp_regs = 0xC4000003 ∷ 1 ∷ 0x40080000 ∷ 7 ∷ replicate 27 0 }

-- The VM while its vCPU 0 has its turn.
abbrev vm_in_turn : Vm
vm_in_turn = record vm { scheduler = (pick_next vm.scheduler).0 }

-- Its turn ends by the call.
abbrev turn : Turn World
turn = record { result = Vcpu.finished; vcpu = first; processor = processor; world = world }

-- The VM takes the exception of an HVC, with the call of CPU_ON in its registers.
abbrev handlers : Handlers
handlers = record {
  processor = processor;
  world = world;
  proxy = record {
    vm = 0;
    spmc_present = false;
    boxes = [];
    spmc = StubSpmc.init;
    notifications = Notifications.init;
    tables = record {
      bump = record { next = 0x10000; end = 0x20000; allocated = 0; free_head = 0 };
      mem = λ a. 0;
    };
    vttbr = 0;
    vm_tables = 0 ∷ 0 ∷ [];
    ram = λ a. 0;
  };
  wfi = record { count = 0; last_pc = 0 };
  exception_count = 0;
  printed = [];
}

abbrev platform : Platform
platform = record { uart_base = 0x09000000; gicd_base = 0x08000000; gicr_base = 0x080A0000 }

handle_exception-IsConfined_example :
    IsConfined world (handle_exception platform (λ r. r) none 0 0x58000000 0 call handlers)
handle_exception-IsConfined_example =
    handle_exception-IsConfined platform (λ r. r) none 0 0x58000000 0 call handlers
