-- ===== src/Vm/Lifecycle.antt =====
-- src/vm.rs: a virtual machine, its vCPUs and its lifecycle. An error is a value of `VmError`.
use hypervisor.Prelude.{
  ℕ, ◌+◌, Bool, true, false, Option, none, some, List, replicate, get_or, set, map, Result, ok, err,
  ltb, leb, if◌then◌else◌,
}
use hypervisor.Scheduler.{Scheduler, max_vcpus, remove_vcpu}
use hypervisor.Scheduler
use hypervisor.Devices.Manager.{DeviceManager, register_device}
use hypervisor.Devices.Manager
use hypervisor.Devices.Pl011
use hypervisor.Devices.Pl031
use hypervisor.Devices.Gic.Distributor
use hypervisor.Devices.Gic.Redistributor
use hypervisor.Devices.Gic.Redistributor.{VirtualGicr}
use hypervisor.Devices.Pl031.{Counter}
use hypervisor.Devices.Board.{Device, uart, gicd, gicr, pl031}
use hypervisor.Vm.Vcpu.{Vcpu}
use hypervisor.Vm.Vcpu
use hypervisor.Vm.Machine.{World, manager_of, with_manager}

pub data VmState : Type 0 where
  uninitialized ready running paused stopped : VmState

pub record Vm : Type 0 where
  pub id : ℕ
  pub state : VmState
  pub vcpus : List (Option Vcpu)
  pub vcpu_count : ℕ
  pub memory_initialized : Bool
  pub scheduler : Scheduler
  pub vttbr : ℕ
  pub vtcr : ℕ

-- The messages of the errors.
pub data VmError : Type 0 where
  id_out_of_range already_exists too_many not_ready no_vcpus not_running not_paused : VmError

abbrev default_devices :
    (num_cpus : ℕ) → Counter → DeviceManager Device → VirtualGicr → DeviceManager Device
default_devices num_cpus c m g =
    let a = register_device (Manager.reset m) (uart Pl011.new) in
    let b = register_device a.0 (gicd (Distributor.new num_cpus)) in
    let d = register_device b.0 (gicr g) in (register_device d.0 (pl031 (Pl031.new c))).0

abbrev pub empty_vm : ℕ → Vm
empty_vm id = record {
  id = id;
  state = uninitialized;
  vcpus = replicate max_vcpus none;
  vcpu_count = 0;
  memory_initialized = false;
  scheduler = Scheduler.new;
  vttbr = 0;
  vtcr = 0;
}

abbrev made : (num_cpus : ℕ) → World → ℕ → Option VirtualGicr → Option (Vm × World)
made num_cpus w id none = none
made num_cpus w id (some g) =
    some (
      empty_vm id,
      with_manager w id (default_devices num_cpus w.board.counter (manager_of w id) g),
    )

-- The VM, and the world in which it has its devices; `none` if there are more processors than the
-- redistributor has room for, which panics.
unfoldable pub new : (num_cpus : ℕ) → World → (id : ℕ) → Option (Vm × World)
new num_cpus w id = made num_cpus w id (Redistributor.new max_vcpus num_cpus)

abbrev pub vcpu_at : Vm → ℕ → Option Vcpu
vcpu_at vm i = get_or vm.vcpus i none

abbrev pub exists : Option Vcpu → Bool
exists none = false
exists (some v) = true

abbrev pub started : VmState → VmState
started uninitialized = ready
started s = s

unfoldable pub create_vcpu : (mpidr : ℕ) → Vm → (vcpu_id : ℕ) → Result VmError Vm
create_vcpu mpidr vm i =
    if leb max_vcpus i
    then err id_out_of_range
    else (if exists (vcpu_at vm i)
        then err already_exists
        else ok (record vm {
          vcpus = set vm.vcpus i (some (Vcpu.new mpidr i 0 0));
          vcpu_count = vm.vcpu_count + 1;
          scheduler = Scheduler.add_vcpu vm.scheduler i;
          state = started vm.state;
        }))

-- This one leaves the scheduler as it is.
unfoldable pub add_vcpu :
    (mpidr : ℕ) → Vm → (entry_point stack_pointer : ℕ) → Result VmError (Vm × ℕ)
add_vcpu mpidr vm entry_point stack_pointer =
    if leb max_vcpus vm.vcpu_count
    then err too_many
    else ok (
      record vm {
        vcpus =
            set vm.vcpus vm.vcpu_count
              (some (Vcpu.new mpidr vm.vcpu_count entry_point stack_pointer));
        vcpu_count = vm.vcpu_count + 1;
        state = started vm.state;
      },
      vm.vcpu_count,
    )

unfoldable pub vcpu : Vm → ℕ → Option Vcpu
vcpu vm i = if ltb i vm.vcpu_count then vcpu_at vm i else none

abbrev paused_from : Vm → VmState → Result VmError Vm
paused_from vm running = ok (record vm { state = paused })
paused_from vm _ = err not_running

unfoldable pub pause : Vm → Result VmError Vm
pause vm = paused_from vm vm.state

abbrev resumed_from : Vm → VmState → Result VmError Vm
resumed_from vm paused = ok (record vm { state = running })
resumed_from vm _ = err not_paused

unfoldable pub resume : Vm → Result VmError Vm
resume vm = resumed_from vm vm.state

abbrev stopped_slot : Option Vcpu → Option Vcpu
stopped_slot none = none
stopped_slot (some v) = some (Vcpu.stop v)

unfoldable pub stop : Vm → Vm
stop vm = record vm { vcpus = map stopped_slot vm.vcpus; state = stopped }

abbrev removed : Scheduler → Option ℕ → Scheduler
removed s none = s
removed s (some i) = remove_vcpu s i

unfoldable pub mark_current_done : Vm → Vm
mark_current_done vm = record vm { scheduler = removed vm.scheduler vm.scheduler.current }
