-- ===== src/Vm/Endless.antt =====
-- src/vm.rs: the loop that runs a VM does not come to its end.
use hypervisor.Prelude.{
  ℕ, zero, suc, ◌<◌, ◌≡◌, refl, ◌∙◌, ap, arith, subst, Bool, true, false, not, ◌==◌, Option, none,
  some, length, get_or-set_self, Result, ok, err, Bool-cases, inl, inr,
}
use hypervisor.Scheduler.{Scheduler, pick_next}
use hypervisor.Bits.Test.{bit, bit-bit_or, bit-le_one, bit-pow_self}
use hypervisor.Devices.Virtio.Queue.{Stop}
use hypervisor.Arch.Regs.{VcpuContext}
use hypervisor.Vm.Vcpu.{
  Vcpu, Processor, Guest, RunResult, finished, wfi, failed, not_ready, run, come_back, is_ready,
}
use hypervisor.Vm.Interrupts.{has_pending_interrupt}
use hypervisor.Vm.Global.{VmGlobalState, take_request}
use hypervisor.Vm.Global
use hypervisor.Vm.Machine.{World, vm_state, with_state, drain_uart_rx, drain_net_rx}
use hypervisor.Vm.Lifecycle.{Vm, VmError, vcpu_at, exists}
use hypervisor.Vm.Pending.{inject_pending_sgis, inject_pending_spis}
use hypervisor.Vm.Run.{
  Host, Panic, device, no_vcpu, boot_requested, after_take, taken, with_pending, after_turn,
  finish_turn, run_vcpu, drained, drained_uart, run_picked, not_done, scheduled, run_one_iteration,
  then_again, run_loop, wake_pending_vcpus,
}
use hypervisor.Vm.Loops.{run_smp, entered, left}
use hypervisor.Vm.Loops
use hypervisor.Vm.Valid.{IsValid}
use hypervisor.Vm.Running.{NoEmptySlot, left-NoEmptySlot, run_loop-Keeps, entered-IsValid}
use hypervisor.Vm.Online.{
  online, with_state-online, KeepsOnline, drain_net_rx-KeepsOnline, drain_uart_rx-KeepsOnline,
}
use hypervisor.Vm.Present.{
  HasOnline, put-there, boot-HasOnline, is_online-true, unblock_online-found,
}

-- A guest, with the handlers, that brings no vCPU online or offline: no handler writes that word.
abbrev pub LeavesOnline : Guest World → Type 0
LeavesOnline guest =
    (c : VcpuContext) (p : Processor) (w : World) (i : ℕ)
    → online (guest c p w).world i ≡ online w i

-- An iteration that ends is not the last one.
abbrev pub GoesOn : ℕ → Result Panic (Bool × Host) → Type 0
GoesOn i (err e) = Unit {0}
GoesOn i (ok (done, h)) = (done ≡ false) × HasOnline h.vm h.world × (h.vm.id ≡ i)

abbrev Turned : ℕ → Result Panic Host → Type 0
Turned i (err e) = Unit {0}
Turned i (ok h) = HasOnline h.vm h.world × (h.vm.id ≡ i)

after_turn-online :
    (r : RunResult) (id : ℕ) (s : Scheduler) (g : VmGlobalState)
    → (after_turn r id s g).1.vcpu_online_mask ≡ g.vcpu_online_mask
unfolding after_turn
after_turn-online finished id s g = ground arith
after_turn-online wfi id s g = refl
after_turn-online failed id s g = refl
after_turn-online not_ready id s g = refl

with_pending-online : (v : Vcpu) (w : World) (i : ℕ) → online (with_pending v w).1 i ≡ online w i
unfolding inject_pending_sgis inject_pending_spis
with_pending-online v w i = with_state-online w w.current_vm_id _ i refl

-- A result that is an error of the code or none at all.
abbrev pub NoEnd : Result Panic Host → Type 0
NoEnd (err e) = Unit {0}
NoEnd (ok h) = ⊥

-- What a start of the loop may give: nothing but a device that stops the code, or the end of the
-- rounds; neither an empty slot nor a return.
abbrev pub NeverBack : Result Panic (Result VmError Host) → Type 0
NeverBack (err (device e)) = Unit {0}
NeverBack (err no_vcpu) = ⊥
NeverBack (ok r) = ⊥

left-NeverBack : (r : Result Panic Host) → NoEnd r → NoEmptySlot (left r) → NeverBack (left r)
left-NeverBack (err (device e)) n kept = tt
left-NeverBack (err no_vcpu) n kept = kept
left-NeverBack (ok h) n kept = n

module _ (guest : Guest World) (leaves : LeavesOnline guest) where
  run-online :
      (v : Vcpu) (p : Processor) (w : World) (i : ℕ) → online (run guest v p w).world i ≡ online w i
  unfolding run come_back
  run-online v p w i = elim (Bool-cases (is_ready v.state)) [
    | inl goes ↦ rw goes (elim (Bool-cases (has_pending_interrupt v.virt_irq)) [
      | inl waits ↦ rw waits (leaves _ _ w i)
      | inr quiet ↦ rw quiet (leaves _ _ w i)
    ])
    | inr stays ↦ rw stays refl
  ]

  run_vcpu-Turned :
      (h : Host) (id : ℕ) (o : Option Vcpu)
      → HasOnline h.vm h.world
      → Turned h.vm.id (run_vcpu guest h id o)
  unfolding run_vcpu finish_turn
  run_vcpu-Turned h id none some_vcpu = tt
  run_vcpu-Turned h id (some v) some_vcpu =
      let loaded = with_pending v h.world in
      let turn = run guest loaded.0 h.processor loaded.1 in
      let same : online
            (with_state turn.world h.vm.id
              (after_turn turn.result id h.vm.scheduler (vm_state turn.world h.vm.id)).1)
            h.vm.id
          ≡ online h.world h.vm.id =
        with_state-online turn.world h.vm.id _ h.vm.id
          (after_turn-online turn.result id h.vm.scheduler (vm_state turn.world h.vm.id))
        ∙ run-online loaded.0 h.processor loaded.1 h.vm.id
        ∙ with_pending-online v h.world h.vm.id in
      (
        record {
          vcpu = some_vcpu.vcpu;
          below = some_vcpu.below;
          marked = ap (bit some_vcpu.vcpu) same ∙ some_vcpu.marked;
          there = put-there h.vm id turn.vcpu some_vcpu.vcpu some_vcpu.there;
        },
        refl,
      )

  in_world :
      (vm : Vm) (w w' : World) → online w' vm.id ≡ online w vm.id → HasOnline vm w → HasOnline vm w'
  in_world vm w w' e some_vcpu = record {
    vcpu = some_vcpu.vcpu;
    below = some_vcpu.below;
    marked = ap (bit some_vcpu.vcpu) e ∙ some_vcpu.marked;
    there = some_vcpu.there;
  }

  run_picked-Turned :
      (h : Host) (id : ℕ) → HasOnline h.vm h.world → Turned h.vm.id (run_picked guest h id)
  unfolding run_picked
  run_picked-Turned h id some_vcpu =
      on_uart (drain_uart_rx now h.vm.id) (drain_uart_rx-KeepsOnline now h.vm.id h.vm.id)
    where
      now : World
      now = with_state h.world h.vm.id (record (vm_state h.world h.vm.id) { current_vcpu_id = id })

      same : online now h.vm.id ≡ online h.world h.vm.id
      same = with_state-online h.world h.vm.id _ h.vm.id refl

      on_net :
          (w : World)
          → online w h.vm.id ≡ online h.world h.vm.id
          → (r : Result Stop World) → KeepsOnline w h.vm.id r
          → Turned h.vm.id (drained guest h id r)
      on_net w e (err x) kept = tt
      on_net w e (ok w') kept =
          run_vcpu-Turned (record h { world = w' }) id (vcpu_at h.vm id)
            (in_world h.vm h.world w' (kept ∙ e) some_vcpu)

      on_uart :
          (r : Result Stop World)
          → KeepsOnline now h.vm.id r
          → Turned h.vm.id (drained_uart guest h id r)
      on_uart (err x) kept = tt
      on_uart (ok w) kept =
          on_net w (kept ∙ same) (drain_net_rx w h.vm.id)
            (drain_net_rx-KeepsOnline w h.vm.id h.vm.id)

  Turned→GoesOn : (i : ℕ) (r : Result Panic Host) → Turned i r → GoesOn i (not_done guest r)
  Turned→GoesOn i (err e) t = tt
  Turned→GoesOn i (ok h) t = (refl, t.0, t.1)

  with_scheduler-HasOnline :
      (h : Host) (s : Scheduler)
      → HasOnline h.vm h.world
      → HasOnline (record h.vm { scheduler = s }) h.world
  with_scheduler-HasOnline h s some_vcpu = record {
    vcpu = some_vcpu.vcpu;
    below = some_vcpu.below;
    marked = some_vcpu.marked;
    there = some_vcpu.there;
  }

  scheduled-GoesOn :
      (h : Host) (r : Scheduler × Option ℕ)
      → HasOnline h.vm h.world
      → GoesOn h.vm.id (scheduled guest h r)
  scheduled-GoesOn h (s, some id) some_vcpu = Turned→GoesOn h.vm.id _ (
      run_picked-Turned (record h { vm = record h.vm { scheduler = s } }) id
        (with_scheduler-HasOnline h s some_vcpu))
  scheduled-GoesOn h (s, none) some_vcpu =
      let word = online h.world h.vm.id in
      let found =
        unblock_online-found 8 0 h.vm word s false some_vcpu.vcpu (omega arith)
          (omega (arith, some_vcpu.below))
          (is_online-true h.vm word some_vcpu.vcpu some_vcpu.marked some_vcpu.there) in
      (ap not found, with_scheduler-HasOnline h _ some_vcpu, refl)

  run_one_iteration-GoesOn :
      (h : Host) → HasOnline h.vm h.world → GoesOn h.vm.id (run_one_iteration guest h)
  unfolding run_one_iteration boot_requested
  run_one_iteration-GoesOn h some_vcpu =
      let same : online (after_take h).world h.vm.id ≡ online h.world h.vm.id =
        with_state-online h.world h.vm.id _ h.vm.id refl in
      let up =
        boot-HasOnline (after_take h) (taken h).1
          (in_world h.vm h.world (after_take h).world same some_vcpu) in
      let b = boot_requested h in
      subst (λ i. GoesOn i (run_one_iteration guest h)) up.1
        (scheduled-GoesOn b (pick_next (wake_pending_vcpus b.vm (vm_state b.world b.vm.id))) up.0)

  then_again-NoEnd :
      (k : Host → Result Panic Host) (i : ℕ)
      → ((h : Host) → HasOnline h.vm h.world → NoEnd (k h))
      → (r : Result Panic (Bool × Host)) → GoesOn i r
      → NoEnd (then_again guest k r)
  then_again-NoEnd k i next (err e) g = tt
  then_again-NoEnd k i next (ok (true, h)) g = cc (g.0)
  then_again-NoEnd k i next (ok (false, h)) g = next h g.1

  run_loop-NoEnd : (n : ℕ) (h : Host) → HasOnline h.vm h.world → NoEnd (run_loop guest n h)
  unfolding run_loop
  run_loop-NoEnd zero h some_vcpu = tt
  run_loop-NoEnd (suc n) h some_vcpu =
      then_again-NoEnd (run_loop guest n) h.vm.id (run_loop-NoEnd n) (run_one_iteration guest h)
        (run_one_iteration-GoesOn h some_vcpu)

  entered-HasOnline :
      (h : Host)
      → h.vm.id < length h.world.vm_states
      → exists (vcpu_at h.vm 0) ≡ true
      → HasOnline (entered h).vm (entered h).world
  entered-HasOnline h known there = record {
    vcpu = 0;
    below = omega arith;
    marked =
        ap (λ (g : VmGlobalState). bit 0 g.vcpu_online_mask)
          (get_or-set_self h.world.vm_states h.vm.id _ Global.new known)
        ∙ omega (
          arith,
          bit-bit_or 0 (online h.world h.vm.id) 1,
          bit-le_one 0 (online h.world h.vm.id),
          bit-pow_self 0,
        );
    there = there;
  }

  -- From a valid VM that is ready and has vCPU 0, `run_smp` comes back after no number of rounds, and
  -- never by an empty slot, whatever its vCPUs do, even when all of them have ended by CPU_OFF or
  -- SYSTEM_OFF: it uses up its rounds, or a device stops the code. The guest and the handlers leave the
  -- word of the online vCPUs as it is.
  pub run_smp-NeverBack :
      (n : ℕ) (h : Host)
      → IsValid h.vm
      → Loops.is_ready h.vm.state ≡ true
      → (h.vm.vcpu_count == 0) ≡ false
      → h.vm.id < length h.world.vm_states
      → exists (vcpu_at h.vm 0) ≡ true
      → NeverBack (run_smp guest n h)
  unfolding run_smp
  run_smp-NeverBack n h valid is_up some_vcpu known there =
      rw (is_up, some_vcpu)
        (left-NeverBack (run_loop guest n (entered h))
          (run_loop-NoEnd n (entered h) (entered-HasOnline h known there))
          (left-NoEmptySlot guest (run_loop guest n (entered h))
            (run_loop-Keeps guest n (entered h) (entered-IsValid guest h valid))))
