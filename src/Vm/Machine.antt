-- ===== src/Vm/Machine.antt =====
-- src/global.rs and src/vm.rs: the global state, the interrupts that devices raise, and the input that
-- is moved to the devices before a vCPU runs.
use hypervisor.Prelude.{
  ℕ, zero, suc, ◌-◌, ◌^◌, Bool, true, false, Option, none, some, List, [], ◌∷◌, replicate, get_or,
  set, take, Result, ok, err, bit_or, ltb, ◌||◌, if◌then◌else◌,
}
use hypervisor.Scheduler.{max_vcpus}
use hypervisor.Vswitch.RxRing.{NetRxRing, take_frame, is_empty, max_frame_size}
use hypervisor.Vswitch.RxRing
use hypervisor.Devices.Virtio.Queue.{Stop, out_of_fuel}
use hypervisor.Devices.Virtio.Mmio.{Transport}
use hypervisor.Devices.Virtio.Net.{VirtioNet}
use hypervisor.Devices.Virtio.Inject.{Injected, inject_rx}
use hypervisor.Devices.Board.{
  Device, Board, uart, virtio_net, receive, virtio_net_of, pending_irq, route_spi,
}
use hypervisor.Devices.Manager.{DeviceManager}
use hypervisor.Devices.Manager
use hypervisor.Vm.Global.{VmGlobalState, UartRxRing, pop, uart_rx_ring_size}
use hypervisor.Vm.Global

-- What the VMs share: `VM_STATE`, `CURRENT_VM_ID`, `DEVICES` and `UART_RX`, and the machine with its
-- memory and the rings of the switch.
pub record World : Type 0 where
  pub vm_states : List VmGlobalState
  pub current_vm_id : ℕ
  pub devices : List (DeviceManager Device)
  pub uart_rx : UartRxRing
  pub board : Board

-- `vm_state`.
abbrev pub vm_state : World → ℕ → VmGlobalState
vm_state w i = get_or w.vm_states i Global.new

abbrev pub with_state : World → ℕ → VmGlobalState → World
with_state w i g = record w { vm_states = set w.vm_states i g }

abbrev pub manager_of : World → ℕ → DeviceManager Device
manager_of w i = get_or w.devices i Manager.new

abbrev pub with_manager : World → ℕ → DeviceManager Device → World
with_manager w i m = record w { devices = set w.devices i m }

abbrev pub devices_of : World → ℕ → List (Option Device)
devices_of w i = (manager_of w i).devices

abbrev pub with_devices : World → ℕ → List (Option Device) → World
with_devices w i ds = with_manager w i (record (manager_of w i) { devices = ds })

abbrev pub pend_spi : VmGlobalState → (target bit : ℕ) → VmGlobalState
pend_spi g target bit = record g {
  pending_spis = set g.pending_spis target (bit_or (get_or g.pending_spis target 0) (2 ^ bit));
}

-- The interrupts 32 to 63, for the current VM.
unfoldable pub inject_spi : World → (intid : ℕ) → World
inject_spi w intid =
    let target = route_spi (devices_of w w.current_vm_id) intid in
    if ltb intid 32 || ltb 63 intid
    then w
    else (if ltb target max_vcpus
        then with_state w w.current_vm_id
            (pend_spi (vm_state w w.current_vm_id) target (intid - 32))
        else w)

unfoldable pub inject_spis : World → List ℕ → World
unfolding inject_spi
inject_spis w [] = w
inject_spis w (intid ∷ spis) = inject_spis (inject_spi w intid) spis

-- The transport in the place of the one that `virtio_net_of` finds.
unfoldable pub put_virtio_net : List (Option Device) → Transport VirtioNet → List (Option Device)
put_virtio_net [] t = []
put_virtio_net (some (virtio_net _) ∷ slots) t = some (virtio_net t) ∷ slots
put_virtio_net (slot ∷ slots) t = slot ∷ put_virtio_net slots t

-- The machine after a frame was put into the buffers of a VM.
abbrev pub after_injection : World → ℕ → Injected VirtioNet → World
after_injection w vm_id r =
    let t = with_devices w vm_id (put_virtio_net (devices_of w vm_id) r.transport) in
    inject_spis
      (record t { board = record t.board { machine = record t.board.machine { ram = r.ram } } })
      r.spis

abbrev pub injected : World → ℕ → Result Stop (Injected VirtioNet) → Result Stop World
injected w vm_id (err e) = err e
injected w vm_id (ok r) = ok (after_injection w vm_id r)

abbrev pub inject_into : World → ℕ → List ℕ → Option (Transport VirtioNet) → Result Stop World
inject_into w vm_id frame none = ok w
inject_into w vm_id frame (some t) = injected w vm_id (inject_rx t w.board.machine.ram frame)

-- `GlobalDeviceManager::inject_net_rx`; its answer is not used.
unfoldable pub inject_net_rx : World → (vm_id : ℕ) → List ℕ → Result Stop World
unfolding inject_spis put_virtio_net
inject_net_rx w vm_id frame = inject_into w vm_id frame (virtio_net_of (devices_of w vm_id))

abbrev pub port_of : World → ℕ → NetRxRing
port_of w vm_id = get_or w.board.machine.ports vm_id RxRing.new

abbrev pub with_port : World → ℕ → NetRxRing → World
with_port w vm_id r = record w {
  board = record w.board {
    machine = record w.board.machine { ports = set w.board.machine.ports vm_id r };
  };
}

abbrev pub go_on : (World → Result Stop World) → Result Stop World → Result Stop World
go_on k (err e) = err e
go_on k (ok w) = k w

-- What follows a take from the ring of the VM.
abbrev pub after_take :
    (World → List ℕ → Result Stop World)
    → World
    → (vm_id : ℕ) → NetRxRing × Option ℕ × List ℕ
    → Result Stop World
after_take k w vm_id (ring, none, buf) = ok w
after_take k w vm_id (ring, some len, buf) =
    go_on (λ w'. k w' buf) (inject_net_rx (with_port w vm_id ring) vm_id (take len buf))

-- The loop of `drain_net_rx`, with `n` rounds left.
unfoldable pub drain_frames : (n : ℕ) → World → (vm_id : ℕ) → (buf : List ℕ) → Result Stop World
unfolding inject_net_rx
drain_frames zero w vm_id buf = err out_of_fuel
drain_frames (suc n) w vm_id buf =
    after_take (λ w' buf'. drain_frames n w' vm_id buf') w vm_id (take_frame (port_of w vm_id) buf)

-- A ring holds at most eight frames, so nine rounds see it empty.
unfoldable pub drain_net_rx : World → (vm_id : ℕ) → Result Stop World
unfolding drain_frames
drain_net_rx w vm_id =
    if is_empty (port_of w vm_id) then ok w else drain_frames 9 w vm_id (replicate max_frame_size 0)

-- The loop that takes the received characters, with `n` rounds left.
unfoldable pub drain_chars :
    (n : ℕ) → UartRxRing → List (Option Device) → Option (UartRxRing × List (Option Device))
drain_chars zero r ds = none
drain_chars (suc n) r ds =
    let (ch, r') = pop r in
    elim ch [ none ↦ some (r, ds) | some c ↦ drain_chars n r' (receive ds c) ]

-- Whether the serial port of the list, the first one, asks for its interrupt.
unfoldable pub uart_asks : List (Option Device) → Bool
uart_asks [] = false
uart_asks (some (uart u) ∷ slots) = elim (pending_irq (uart u)) [ none ↦ false | some i ↦ true ]
uart_asks (slot ∷ slots) = uart_asks slots

abbrev pub chars_drained :
    World → ℕ → Option (UartRxRing × List (Option Device)) → Result Stop World
chars_drained w vm_id none = err out_of_fuel
chars_drained w vm_id (some (r, ds)) =
    let w' = with_devices (record w { uart_rx = r }) vm_id ds in
    ok (if uart_asks ds then inject_spi w' 33 else w')

-- The ring holds at most 63 characters, so 64 rounds see it empty.
unfoldable pub drain_uart_rx : World → (vm_id : ℕ) → Result Stop World
unfolding drain_chars uart_asks inject_spi
drain_uart_rx w vm_id =
    chars_drained w vm_id (drain_chars uart_rx_ring_size w.uart_rx (devices_of w vm_id))
