-- ===== src/Vm/Pending.antt =====
-- src/vm.rs and src/arch/aarch64/hypervisor/exception.rs: the interrupts that wait for a vCPU as the
-- bits of a word, and their move into its list registers.
use hypervisor.Prelude.{
  ℕ, zero, suc, ◌+◌, ◌^◌, Option, none, some, List, [], ◌∷◌, get_or, set, bit_and, bit_or, leb,
  ◌==◌, if◌then◌else◌,
}
use hypervisor.Vm.ListRegisters.{build_lr, get_lr_state, inject_interrupt, irq_default_priority}
use hypervisor.Scheduler.{max_vcpus}
use hypervisor.Vm.Global.{VmGlobalState}

abbrev pub behind : ℕ → Option (List ℕ) → Option (List ℕ)
behind lr none = none
behind lr (some lrs) = some (lr ∷ lrs)

-- The loop over the saved registers: the first free one takes the value.
unfoldable pub put_free : ℕ → List ℕ → Option (List ℕ)
put_free value [] = none
put_free value (lr ∷ lrs) =
    let rest = behind lr (put_free value lrs) in
    if get_lr_state lr == 0 then some (value ∷ lrs) else rest

-- What became of one interrupt, the registers and the word of those that wait: one for which no
-- register is free waits again.
abbrev pub placed : List ℕ → (left k : ℕ) → Option (List ℕ) → List ℕ × ℕ
placed lrs left k none = (lrs, bit_or left (2 ^ k))
placed lrs left k (some lrs') = (lrs', left)

-- The loop over the bits of the word `all`, with `n` bits left, from bit `k` on; `put` is the way an
-- interrupt goes into a register.
unfoldable pub move_from :
    (put : ℕ → List ℕ → Option (List ℕ)) → (n k all : ℕ) → List ℕ → (left : ℕ) → List ℕ × ℕ
move_from put zero k all lrs left = (lrs, left)
move_from put (suc n) k all lrs left =
    let after = if bit_and all (2 ^ k) == 0 then (lrs, left) else placed lrs left k (put k lrs) in
    move_from put n (k + 1) all after.0 after.1

-- Bit `k` is SGI `k`.
abbrev pub put_sgi : ℕ → List ℕ → Option (List ℕ)
put_sgi k = put_free (build_lr k irq_default_priority)

-- Bit `k` is the SPI `k + 32`.
abbrev pub put_spi : ℕ → List ℕ → Option (List ℕ)
put_spi k = put_free (build_lr (k + 32) irq_default_priority)

abbrev pub put_spi_live : ℕ → ℕ → List ℕ → Option (List ℕ)
put_spi_live vtr k lrs = inject_interrupt vtr lrs (k + 32) irq_default_priority

-- The registers of the vCPU and the state of the VM afterwards.
unfoldable pub inject_pending_sgis : (vcpu_id : ℕ) → List ℕ → VmGlobalState → List ℕ × VmGlobalState
unfolding put_free move_from
inject_pending_sgis i lrs g =
    let moved = move_from put_sgi 16 0 (get_or g.pending_sgis i 0) lrs 0 in
    (moved.0, record g { pending_sgis = set g.pending_sgis i moved.1 })

unfoldable pub inject_pending_spis : (vcpu_id : ℕ) → List ℕ → VmGlobalState → List ℕ × VmGlobalState
unfolding put_free move_from
inject_pending_spis i lrs g =
    let moved = move_from put_spi 32 0 (get_or g.pending_spis i 0) lrs 0 in
    (moved.0, record g { pending_spis = set g.pending_spis i moved.1 })

-- The same on the live registers, before the return to the guest.
unfoldable pub flush_pending_spis_to_hardware :
    (vtr vcpu_id : ℕ) → List ℕ → VmGlobalState → List ℕ × VmGlobalState
unfolding move_from
flush_pending_spis_to_hardware vtr i lrs g =
    let moved = move_from (put_spi_live vtr) 32 0 (get_or g.pending_spis i 0) lrs 0 in
    if leb max_vcpus i
    then (lrs, g)
    else (moved.0, record g { pending_spis = set g.pending_spis i moved.1 })
