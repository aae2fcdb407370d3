-- ===== src/Vm/Global.antt =====
-- src/global.rs: what waits for the vCPUs of a VM, and the ring of received characters. An atomic is
-- its value, since handlers and run loop take turns on one processor.
use hypervisor.Prelude.{
  ℕ, ◌+◌, ◌%◌, Bool, true, false, Option, none, some, List, replicate, get_or, set, ◌==◌,
  if◌then◌else◌,
}
use hypervisor.Scheduler.{max_vcpus}

-- A request to boot a vCPU, from the handler to the run loop.
pub record PendingCpuOn : Type 0 where
  pub requested : Bool
  pub target_cpu : ℕ
  pub entry_point : ℕ
  pub context_id : ℕ

abbrev pub no_request : PendingCpuOn
no_request = record { requested = false; target_cpu = 0; entry_point = 0; context_id = 0 }

unfoldable pub request : PendingCpuOn → (target entry ctx : ℕ) → PendingCpuOn
request p target entry ctx = record {
  requested = true;
  target_cpu = target;
  entry_point = entry;
  context_id = ctx;
}

unfoldable pub take_request : PendingCpuOn → PendingCpuOn × Option (ℕ × ℕ × ℕ)
take_request p =
    if p.requested
    then (record p { requested = false }, some (p.target_cpu, p.entry_point, p.context_id))
    else (p, none)

-- `VmGlobalState`, with one entry for each vCPU in the first three.
pub record VmGlobalState : Type 0 where
  pub pending_sgis : List ℕ
  pub pending_spis : List ℕ
  pub terminal_exit : List Bool
  pub vcpu_online_mask : ℕ
  pub current_vcpu_id : ℕ
  pub pending_cpu_on : PendingCpuOn
  pub preemption_exit : Bool

unfoldable pub new : VmGlobalState
new = record {
  pending_sgis = replicate max_vcpus 0;
  pending_spis = replicate max_vcpus 0;
  terminal_exit = replicate max_vcpus false;
  vcpu_online_mask = 0;
  current_vcpu_id = 0;
  pending_cpu_on = no_request;
  preemption_exit = false;
}

-- `UART_RX_RING_SIZE`.
abbrev pub uart_rx_ring_size : ℕ
uart_rx_ring_size = 64

pub record UartRxRing : Type 0 where
  pub buf : List ℕ
  pub head : ℕ
  pub tail : ℕ

unfoldable pub new_ring : UartRxRing
new_ring = record { buf = replicate uart_rx_ring_size 0; head = 0; tail = 0 }

unfoldable pub push : UartRxRing → ℕ → UartRxRing
push r ch =
    let next = (r.tail + 1) % uart_rx_ring_size in
    if next == r.head then r else record r { buf = set r.buf r.tail ch; tail = next }

unfoldable pub pop : UartRxRing → Option ℕ × UartRxRing
pop r =
    if r.head == r.tail
    then (none, r)
    else (some (get_or r.buf r.head 0), record r { head = (r.head + 1) % uart_rx_ring_size })
