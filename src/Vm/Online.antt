-- ===== src/Vm/Online.antt =====
-- src/vm.rs and src/global.rs: which vCPUs are online, over an iteration of the run loop.
use hypervisor.Prelude.{
  ℕ, zero, suc, ◌≡◌, refl, ◌∙◌, arith, ◌||◌, ltb, Option, none, some, List, [], ◌∷◌, take,
  get_or-set, get_or_out, Result, ok, err, Bool-cases, inl, inr,
}
use hypervisor.Scheduler.{max_vcpus}
use hypervisor.Vswitch.RxRing.{NetRxRing, take_frame, is_empty}
use hypervisor.Devices.Virtio.Queue.{Stop}
use hypervisor.Devices.Virtio.Mmio.{Transport}
use hypervisor.Devices.Virtio.Net.{VirtioNet}
use hypervisor.Devices.Virtio.Inject.{Injected, inject_rx}
use hypervisor.Devices.Board.{Device, virtio_net_of, route_spi}
use hypervisor.Vm.Global.{VmGlobalState, UartRxRing}
use hypervisor.Vm.Global
use hypervisor.Vm.Machine.{
  World, vm_state, with_state, devices_of, with_devices, inject_spi, inject_spis, inject_net_rx,
  injected, inject_into, port_of, with_port, after_take, go_on, drain_frames, drain_net_rx,
  drain_chars, drain_uart_rx, uart_asks, chars_drained,
}

-- The word of the vCPUs of VM `i` that are online.
abbrev pub online : World → ℕ → ℕ
online w i = (vm_state w i).vcpu_online_mask

pub with_state-online :
    (w : World) (k : ℕ) (g : VmGlobalState) (i : ℕ)
    → g.vcpu_online_mask ≡ online w k
    → online (with_state w k g) i ≡ online w i
with_state-online w k g i e =
    ground (arith, get_or-set w.vm_states k i g Global.new, get_or_out w.vm_states i Global.new, e)

inject_spi-online : (w : World) (intid i : ℕ) → online (inject_spi w intid) i ≡ online w i
unfolding inject_spi
inject_spi-online w intid i = elim (Bool-cases (ltb intid 32 || ltb 63 intid)) [
  | inl out ↦ rw out refl
  | inr inside ↦
      rw inside
        (elim (Bool-cases (ltb (route_spi (devices_of w w.current_vm_id) intid) max_vcpus)) [
          | inl known ↦ rw known (with_state-online w w.current_vm_id _ i refl)
          | inr unknown ↦ rw unknown refl
        ])
]

inject_spis-online :
    (w : World) (spis : List ℕ) (i : ℕ) → online (inject_spis w spis) i ≡ online w i
unfolding inject_spis
inject_spis-online w [] i = refl
inject_spis-online w (intid ∷ spis) i =
    inject_spis-online (inject_spi w intid) spis i ∙ inject_spi-online w intid i

-- What a fallible step keeps.
abbrev pub KeepsOnline : World → ℕ → Result Stop World → Type 0
KeepsOnline w i (err e) = Unit {0}
KeepsOnline w i (ok w') = online w' i ≡ online w i

KeepsOnline-trans :
    (w w' : World) (i : ℕ)
    → online w' i ≡ online w i
    → (r : Result Stop World) → KeepsOnline w' i r
    → KeepsOnline w i r
KeepsOnline-trans w w' i e (err x) kept = tt
KeepsOnline-trans w w' i e (ok w'') kept = kept ∙ e

inject_net_rx-KeepsOnline :
    (w : World) (vm_id : ℕ) (frame : List ℕ) (i : ℕ) → KeepsOnline w i (inject_net_rx w vm_id frame)
unfolding inject_net_rx
inject_net_rx-KeepsOnline w vm_id frame i = into (virtio_net_of (devices_of w vm_id))
  where
    done : (r : Result Stop (Injected VirtioNet)) → KeepsOnline w i (injected w vm_id r)
    done (err e) = tt
    done (ok r) = inject_spis-online _ r.spis i

    into : (o : Option (Transport VirtioNet)) → KeepsOnline w i (inject_into w vm_id frame o)
    into none = refl
    into (some t) = done (inject_rx t w.board.machine.ram frame)

drain_frames-KeepsOnline :
    (n : ℕ) (w : World) (vm_id : ℕ) (buf : List ℕ) (i : ℕ)
    → KeepsOnline w i (drain_frames n w vm_id buf)
unfolding drain_frames
drain_frames-KeepsOnline zero w vm_id buf i = tt
drain_frames-KeepsOnline (suc n) w vm_id buf i =
    taken (λ w' buf'. drain_frames-KeepsOnline n w' vm_id buf' i) (take_frame (port_of w vm_id) buf)
  where
    goes :
        (buf' : List ℕ)
        → ((w' : World) → KeepsOnline w' i (drain_frames n w' vm_id buf'))
        → (r : Result Stop World) → KeepsOnline w i r
        → KeepsOnline w i (go_on (λ w'. drain_frames n w' vm_id buf') r)
    goes buf' rest (err e) kept = tt
    goes buf' rest (ok w') kept = KeepsOnline-trans w w' i kept _ (rest w')

    taken :
        ((w' : World) (buf' : List ℕ) → KeepsOnline w' i (drain_frames n w' vm_id buf'))
        → (r : NetRxRing × Option ℕ × List ℕ)
        → KeepsOnline w i (after_take (λ w' buf'. drain_frames n w' vm_id buf') w vm_id r)
    taken rest (ring, none, buf') = refl
    taken rest (ring, some len, buf') =
        goes buf' (λ w'. rest w' buf')
          (inject_net_rx (with_port w vm_id ring) vm_id (take len buf'))
          (inject_net_rx-KeepsOnline (with_port w vm_id ring) vm_id (take len buf') i)

pub drain_net_rx-KeepsOnline : (w : World) (vm_id i : ℕ) → KeepsOnline w i (drain_net_rx w vm_id)
unfolding drain_net_rx
drain_net_rx-KeepsOnline w vm_id i = elim (Bool-cases (is_empty (port_of w vm_id))) [
  | inl empty ↦ rw empty refl
  | inr some_frame ↦ rw some_frame (drain_frames-KeepsOnline 9 w vm_id _ i)
]

pub drain_uart_rx-KeepsOnline : (w : World) (vm_id i : ℕ) → KeepsOnline w i (drain_uart_rx w vm_id)
unfolding drain_uart_rx
drain_uart_rx-KeepsOnline w vm_id i = drained (drain_chars 64 w.uart_rx (devices_of w vm_id))
  where
    drained :
        (o : Option (UartRxRing × List (Option Device))) → KeepsOnline w i (chars_drained w vm_id o)
    drained none = tt
    drained (some (r, ds)) = elim (Bool-cases (uart_asks ds)) [
      | inl asks ↦
          rw asks (inject_spi-online (with_devices (record w { uart_rx = r }) vm_id ds) 33 i)
      | inr quiet ↦ rw quiet refl
    ]
