-- ===== src/Vm/Delivery.antt =====
-- src/vm.rs and src/arch/aarch64/hypervisor/exception.rs: what becomes of the interrupts that wait for
-- a vCPU.
use hypervisor.Prelude.{
  ℕ, zero, suc, ◌+◌, ◌/◌, ◌^◌, ◌≤◌, ◌<◌, ◌≡◌, ◌≢◌, refl, ◌∙◌, ap, arith, inl, inr, false, Option,
  none, some, List, [], ◌∷◌, get_or, length, bit_and, ◌==◌, Bool-cases, ==_iff, subst,
  get_or-set_self, leb,
}
use native.Mathlib.Decide.{dec_lt, ℕ_discrete}
use hypervisor.Scheduler.{max_vcpus}
use hypervisor.Bits.Test.{bit, bit_above}
use hypervisor.Bits.Fields.{bit_or_low}
use hypervisor.Vm.ListRegisters.{
  build_lr, get_lr_state, inject_from, inject_interrupt, irq_default_priority, num_list_registers,
}
use hypervisor.Vm.Pending.{
  put_free, behind, put_sgi, put_spi, put_spi_live, inject_pending_sgis, inject_pending_spis,
  flush_pending_spis_to_hardware,
}
use hypervisor.Vm.Moves.{Used, Puts, IsMoved, moved}
use hypervisor.Vm.Global.{VmGlobalState}

-- A value that asks for an interrupt is not free.
build_lr-state :
    (intid : ℕ) → intid < 2 ^ 32 → get_lr_state (build_lr intid irq_default_priority) ≡ 1
unfolding get_lr_state build_lr
build_lr-state intid h = rw (bit_or_low 32 5809643519307939840 intid refl h) (shifted intid h)
  where
    shifted : (n : ℕ) → n < 2 ^ 32 → bit_and ((5809643519307939840 + n) / 4611686018427387904) 3 ≡ 1
    shifted n l =
        let one : (5809643519307939840 + n) / 4611686018427387904 ≡ 1 = omega arith in rw one

ne_zero : (a : ℕ) → (a == 0) ≡ false → a ≢ 0
ne_zero a h e = ground arith

-- The first free register of the list takes the value.
put_free-Puts : (value : ℕ) (lrs : List ℕ) → Puts (length lrs) value lrs (put_free value lrs)
unfolding put_free
put_free-Puts value [] = λ j below. absurd (omega arith)
put_free-Puts value (lr ∷ lrs) = elim (Bool-cases (get_lr_state lr == 0)) [
  | inl free ↦ rw free (0, omega arith, (==_iff _ _).0 free, refl)
  | inr used ↦ rw used (behind-Puts (put_free value lrs) used (put_free-Puts value lrs))
]
  where
    none_free :
        (get_lr_state lr == 0) ≡ false
        → ((j : ℕ) → j < length lrs → Used lrs j)
        → (j : ℕ) → j < length (lr ∷ lrs)
        → Used (lr ∷ lrs) j
    none_free used p zero below = ne_zero (get_lr_state lr) used
    none_free used p (suc j) below = p j (omega arith)

    behind-Puts :
        (o : Option (List ℕ))
        → (get_lr_state lr == 0) ≡ false
        → Puts (length lrs) value lrs o
        → Puts (length (lr ∷ lrs)) value (lr ∷ lrs) (behind lr o)
    behind-Puts none used p = λ j below. none_free used p j below
    behind-Puts (some lrs') used (j, j_in, free, e) =
        (suc j, omega arith, free, ap (λ xs. lr ∷ xs) e)

-- The first free one of `n` live registers, from register `i` on, takes the value.
inject_from-Puts :
    (n i value : ℕ) (lrs : List ℕ)
    → i + n ≤ length lrs
    → ((j : ℕ) → j < i → Used lrs j)
    → Puts (i + n) value lrs (inject_from n i value lrs)
unfolding inject_from
inject_from-Puts zero i value lrs room before = λ j below. before j (omega arith)
inject_from-Puts (suc n) i value lrs room before =
    elim (Bool-cases (get_lr_state (get_or lrs i 0) == 0)) [
      | inl free ↦ rw free (i, omega arith, (==_iff _ _).0 free, refl)
      | inr used ↦ rw used (
          subst (λ m. Puts m value lrs (inject_from n (i + 1) value lrs)) (omega arith)
            (inject_from-Puts n (i + 1) value lrs (omega arith) (before_next used)))
    ]
  where
    before_next : (get_lr_state (get_or lrs i 0) == 0) ≡ false → (j : ℕ) → j < i + 1 → Used lrs j
    before_next used j below = elim (ℕ_discrete i j) [
      | yes e ↦ subst (Used lrs) e (ne_zero _ used)
      | no n ↦ before j (omega arith)
    ]

below_width : (w all : ℕ) → all < 2 ^ w → (k : ℕ) → bit k all ≡ 1 → k < w
below_width w all small k on = elim (dec_lt k w) [
  | yes l ↦ l
  | no n ↦ absurd (omega (arith, bit_above w k all small))
]

-- The value of a register that holds SGI `k`, or the SPI `k + 32`, as pending.
abbrev pub sgi_value : ℕ → ℕ
sgi_value k = build_lr k irq_default_priority

abbrev pub spi_value : ℕ → ℕ
spi_value k = build_lr (k + 32) irq_default_priority

-- What was asked for in the entry of a vCPU is in its list registers or waits in that entry.
abbrev pub Moved :
    (value : ℕ → ℕ) → (i : ℕ) → (lrs : List ℕ) → (before : List ℕ) → List ℕ → List ℕ → Type 0
Moved value i lrs before lrs' after =
    IsMoved (length lrs) value (get_or before i 0) lrs lrs' (get_or after i 0)

-- Before a vCPU runs, no pending SGI and no pending SPI is lost: each gets a free list register, as
-- pending, or still waits, and it waits only if all registers are in use. Registers in use are kept,
-- and no other interrupt appears. The words of the vCPU have 16 and 32 bits.
pub inject_pending-Moved :
    (i : ℕ) (lrs : List ℕ) (g : VmGlobalState)
    → i < length g.pending_sgis
    → i < length g.pending_spis
    → get_or g.pending_sgis i 0 < 2 ^ 16
    → get_or g.pending_spis i 0 < 2 ^ 32
    → Moved sgi_value i lrs g.pending_sgis
        (inject_pending_sgis i lrs g).0
        (inject_pending_sgis i lrs g).1.pending_sgis
      × Moved spi_value i lrs g.pending_spis
          (inject_pending_spis i lrs g).0
          (inject_pending_spis i lrs g).1.pending_spis
unfolding inject_pending_sgis inject_pending_spis
inject_pending-Moved i lrs g in_sgis in_spis sgis spis = (
  rw (get_or-set_self g.pending_sgis i _ 0 in_sgis) (
      moved (length lrs) sgi_value put_sgi 16
        (λ k xs e.
          subst (λ m. Puts m (sgi_value k) xs (put_sgi k xs)) e (put_free-Puts (sgi_value k) xs))
        (λ k l. build_lr-state k (omega arith)) _ lrs refl (below_width 16 _ sgis)),
  rw (get_or-set_self g.pending_spis i _ 0 in_spis) (
      moved (length lrs) spi_value put_spi 32
        (λ k xs e.
          subst (λ m. Puts m (spi_value k) xs (put_spi k xs)) e (put_free-Puts (spi_value k) xs))
        (λ k l. build_lr-state (k + 32) (omega arith)) _ lrs refl (below_width 32 _ spis)),
)

-- Before the return to the guest, the same holds of the SPIs and the live registers, where the
-- processor has as many of them as the code knows.
pub flush-Moved :
    (vtr i : ℕ) (lrs : List ℕ) (g : VmGlobalState)
    → i < max_vcpus
    → i < length g.pending_spis
    → num_list_registers vtr ≡ length lrs
    → get_or g.pending_spis i 0 < 2 ^ 32
    → Moved spi_value i lrs g.pending_spis
        (flush_pending_spis_to_hardware vtr i lrs g).0
        (flush_pending_spis_to_hardware vtr i lrs g).1.pending_spis
unfolding flush_pending_spis_to_hardware inject_interrupt
flush-Moved vtr i lrs g in_range in_spis all_known spis =
    let inside : leb max_vcpus i ≡ false = ground arith in
    let from_first : 0 + num_list_registers vtr ≡ num_list_registers vtr = omega arith in
    rw inside (
      rw (get_or-set_self g.pending_spis i _ 0 in_spis) (
        moved (length lrs) spi_value (put_spi_live vtr) 32
          (λ k xs e.
            subst (λ m. Puts m (spi_value k) xs (put_spi_live vtr k xs)) (from_first ∙ all_known)
              (inject_from-Puts (num_list_registers vtr) 0 (spi_value k) xs (omega arith)
                (λ j below. absurd (omega arith))))
          (λ k l. build_lr-state (k + 32) (omega arith)) _ lrs refl (below_width 32 _ spis)))
