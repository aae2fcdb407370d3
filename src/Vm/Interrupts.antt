-- ===== src/Vm/Interrupts.antt =====
-- src/vcpu_interrupt.rs: the virtual interrupts of a vCPU.
use hypervisor.Prelude.{
  ℕ, ◌-◌, ◌^◌, Bool, true, false, Option, none, some, List, bit_and, bit_or, ◌||◌, if◌then◌else◌,
}
use hypervisor.Vm.ListRegisters.{inject_interrupt, clear_interrupt, irq_default_priority}

pub record VirtualInterruptState : Type 0 where
  pub irq_pending : Bool
  pub fiq_pending : Bool
  pub pending_irq_num : Option ℕ
  pub use_gicv3 : Bool

unfoldable pub new : VirtualInterruptState
new = record { irq_pending = false; fiq_pending = false; pending_irq_num = none; use_gicv3 = true }

abbrev or_else : List ℕ → Option (List ℕ) → List ℕ
or_else lrs none = lrs
or_else lrs (some lrs') = lrs'

-- The state and the live list registers.
unfoldable pub inject_irq :
    (vtr : ℕ) → List ℕ → VirtualInterruptState → (irq_num : ℕ) → VirtualInterruptState × List ℕ
inject_irq vtr lrs s irq_num = (
  record s { irq_pending = true; pending_irq_num = some irq_num },
  if s.use_gicv3 then or_else lrs (inject_interrupt vtr lrs irq_num irq_default_priority) else lrs,
)

unfoldable pub inject_fiq : VirtualInterruptState → VirtualInterruptState
inject_fiq s = record s { fiq_pending = true }

abbrev cleared : (vtr : ℕ) → List ℕ → Bool → Option ℕ → List ℕ
cleared vtr lrs true (some irq_num) = clear_interrupt vtr lrs irq_num
cleared vtr lrs _ _ = lrs

unfoldable pub clear_irq :
    (vtr : ℕ) → List ℕ → VirtualInterruptState → VirtualInterruptState × List ℕ
clear_irq vtr lrs s = (
  record s { irq_pending = false; pending_irq_num = none },
  cleared vtr lrs s.use_gicv3 s.pending_irq_num,
)

unfoldable pub clear_fiq : VirtualInterruptState → VirtualInterruptState
clear_fiq s = record s { fiq_pending = false }

unfoldable pub has_pending_interrupt : VirtualInterruptState → Bool
has_pending_interrupt s = s.irq_pending || s.fiq_pending

abbrev with_bit : (w : ℕ) → Bool → ℕ → ℕ
with_bit w true hcr = bit_or hcr w
with_bit w false hcr = bit_and hcr (2 ^ 64 - 1 - w)

unfoldable pub apply_to_hcr : VirtualInterruptState → ℕ → ℕ
apply_to_hcr s hcr =
    if s.use_gicv3 then hcr else with_bit (2 ^ 6) s.fiq_pending (with_bit (2 ^ 7) s.irq_pending hcr)
