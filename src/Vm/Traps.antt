-- ===== src/Vm/Traps.antt =====
-- src/arch/aarch64/hypervisor/exception.rs: the traps of SGIs and WFI, and the physical interrupts, on
-- one processor. The acknowledgement of a physical interrupt holds no state here.
use hypervisor.Prelude.{
  ℕ, zero, suc, ◌+◌, ◌-◌, ◌/◌, ◌%◌, ◌^◌, Bool, true, false, not, Option, none, some, List, [], ◌∷◌,
  get_or, set, bit_and, bit_or, leb, ltb, ◌==◌, ◌&&◌, ◌||◌, if◌then◌else◌,
}
use hypervisor.Scheduler.{max_vcpus}
use hypervisor.Vm.ListRegisters.{
  inject_interrupt, inject_hw_interrupt, irq_default_priority, pending_count, vtimer_irq,
}
use hypervisor.Vm.Vcpu.{Processor}
use hypervisor.Vm.Global.{VmGlobalState, UartRxRing, push}

abbrev pub or_same : List ℕ → Option (List ℕ) → List ℕ
or_same lrs none = lrs
or_same lrs (some lrs') = lrs'

-- An interrupt that finds no free register is dropped here.
abbrev pub inject_live : ℕ → List ℕ → ℕ → List ℕ
inject_live vtr lrs intid = or_same lrs (inject_interrupt vtr lrs intid irq_default_priority)

abbrev pub pend_sgi : VmGlobalState → (id intid : ℕ) → VmGlobalState
pend_sgi g id intid = record g {
  pending_sgis = set g.pending_sgis id (bit_or (get_or g.pending_sgis id 0) (2 ^ intid));
}

-- The loop for `IRM = 1`, over the `n` vCPUs from `id` on: all that are online but this one.
unfoldable pub sgi_to_others : (n id intid : ℕ) → VmGlobalState → VmGlobalState
sgi_to_others zero id intid g = g
sgi_to_others (suc n) id intid g = sgi_to_others n (id + 1) intid (
    if not (id == g.current_vcpu_id) && not (bit_and g.vcpu_online_mask (2 ^ id) == 0)
    then pend_sgi g id intid
    else g)

-- The loop for `IRM = 0`: those of the target list; an SGI to itself goes to a list register.
unfoldable pub sgi_to_targets :
    (vtr n bit targets intid : ℕ) → List ℕ → VmGlobalState → List ℕ × VmGlobalState
sgi_to_targets vtr zero bit targets intid lrs g = (lrs, g)
sgi_to_targets vtr (suc n) bit targets intid lrs g =
    let own = bit == g.current_vcpu_id in
    let listed = not (bit_and targets (2 ^ bit) == 0) in
    sgi_to_targets vtr n (bit + 1) targets intid
      (if listed && own then inject_live vtr lrs intid else lrs)
      (if listed && not own then pend_sgi g bit intid else g)

unfoldable pub handle_sgi_trap :
    (vtr : ℕ) → (value : ℕ) → List ℕ → VmGlobalState → List ℕ × VmGlobalState
unfolding sgi_to_others sgi_to_targets
handle_sgi_trap vtr value lrs g =
    let targets = bit_and value 0xFFFF in
    let intid = bit_and (value / 2 ^ 24) 0xF in
    if bit_and (value / 2 ^ 40) 1 == 1
    then (lrs, sgi_to_others max_vcpus 0 intid g)
    else sgi_to_targets vtr max_vcpus 0 targets intid lrs g

-- `WFI_CONSECUTIVE_COUNT` and `LAST_WFI_PC`.
pub record WfiState : Type 0 where
  pub count : ℕ
  pub last_pc : ℕ

abbrev pub max_consecutive_wfi : ℕ
max_consecutive_wfi = 500000

unfoldable pub is_guest_vtimer_pending : (ctl : ℕ) → Bool
is_guest_vtimer_pending ctl =
    not (bit_and ctl 0x1 == 0) && not (bit_and ctl 0x4 == 0) && bit_and ctl 0x2 == 0

unfoldable pub mask_guest_vtimer : Processor → Processor
mask_guest_vtimer p = record p { live = record p.live { cntv_ctl = bit_or p.live.cntv_ctl 0x2 } }

unfoldable pub with_timer_irq : Processor → Processor
with_timer_irq p = record p {
  live = record p.live { ich_lr = inject_live p.vtr p.live.ich_lr vtimer_irq };
}

-- Whether the guest goes on; the counter has 32 bits.
unfoldable pub handle_wfi_with_timer_injection :
    (pc : ℕ) → WfiState → Processor → Bool × WfiState × Processor
unfolding is_guest_vtimer_pending mask_guest_vtimer with_timer_irq
handle_wfi_with_timer_injection pc s p =
    let count = (s.count + 1) % 2 ^ 32 in
    if not (pc == s.last_pc)
    then (true, record { count = 0; last_pc = pc }, with_timer_irq p)
    else (if ltb max_consecutive_wfi count
        then (false, record s { count = count }, p)
        else (if is_guest_vtimer_pending p.live.cntv_ctl
            then (true, record s { count = 0 }, with_timer_irq (mask_guest_vtimer p))
            else (if ltb 0 (pending_count p.vtr p.live.ich_lr)
                then (true, record s { count = 0 }, p)
                else (
                  true,
                  record s { count = count },
                  if count % 100 == 0 then with_timer_irq p else p,
                ))))

-- More than one vCPU is online.
unfoldable pub multi_vcpu : (online : ℕ) → Bool
multi_vcpu online = not (online == 0) && not (bit_and online (online - 1) == 0)

-- Whether another vCPU has an SGI to take.
unfoldable pub needs_switch : (n id : ℕ) → VmGlobalState → Bool
needs_switch zero id g = false
needs_switch (suc n) id g =
    (not (id == g.current_vcpu_id) && not (get_or g.pending_sgis id 0 == 0))
    || needs_switch n (id + 1) g

unfoldable pub push_all : UartRxRing → List ℕ → UartRxRing
push_all r [] = r
push_all r (ch ∷ chars) = push_all (push r (bit_and ch 0xFF)) chars

-- What an interrupt changes: the processor, the state of the VM and the received characters.
pub record Interrupted : Type 0 where
  pub goes_on : Bool
  pub processor : Processor
  pub state : VmGlobalState
  pub uart_rx : UartRxRing

abbrev with_hw_timer : Processor → Processor
with_hw_timer p =
    let out = inject_hw_interrupt p.vtr p.live.ich_lr vtimer_irq vtimer_irq irq_default_priority in
    record p { live = record p.live { ich_lr = or_same out.0 out.1 } }

module _ (p : Processor) (g : VmGlobalState) (ring : UartRxRing) where
  abbrev stay : Interrupted
  stay = record { goes_on = true; processor = p; state = g; uart_rx = ring }

  abbrev on_sgi : ℕ → Interrupted
  on_sgi intid =
      if g.current_vcpu_id == 0
      then record stay {
        processor = record p {
          live = record p.live { ich_lr = inject_live p.vtr p.live.ich_lr intid };
        };
      }
      else record stay { state = pend_sgi g 0 intid }

  -- The watchdog of the scheduler.
  abbrev on_watchdog : Interrupted
  on_watchdog =
      if multi_vcpu g.vcpu_online_mask
      then record stay { goes_on = false; state = record g { preemption_exit = true } }
      else stay

  -- The timer of the guest.
  abbrev on_vtimer : Interrupted
  on_vtimer =
      let p' = with_hw_timer (mask_guest_vtimer p) in
      if multi_vcpu g.vcpu_online_mask && needs_switch max_vcpus 0 g
      then record stay {
        goes_on = false;
        processor = p';
        state = record g { preemption_exit = true };
      }
      else record stay { processor = p' }

  -- `chars` are the characters in the physical serial port.
  unfoldable pub handle_irq : (chars : List ℕ) → (intid : ℕ) → Interrupted
  unfolding multi_vcpu needs_switch push_all mask_guest_vtimer
  handle_irq chars intid =
      if leb 1020 intid
      then stay
      else (if leb intid 15
          then on_sgi intid
          else (if intid == 26
              then on_watchdog
              else (if intid == 33
                  then record stay { goes_on = false; uart_rx = push_all ring chars }
                  else (if intid == 27 then on_vtimer else stay))))
