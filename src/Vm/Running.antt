-- ===== src/Vm/Running.antt =====
-- src/vm.rs: a VM from its creation through the loop that runs it.
use hypervisor.Prelude.{
  ℕ, zero, suc, ◌+◌, refl, arith, Bool, true, false, ◌==◌, leb, Option, none, get_or-replicate,
  length-replicate, Result, ok, err, Bool-cases, inl, inr,
}
use hypervisor.Scheduler.{Scheduler, RunState, absent, ready, max_vcpus, state_at, add_vcpu}
use hypervisor.Scheduler
use hypervisor.Scheduler.Invariant.{new-IsValid}
use hypervisor.Vm.Vcpu.{Vcpu, Guest}
use hypervisor.Vm.Vcpu
use hypervisor.Vm.Machine.{World}
use hypervisor.Vm.Lifecycle.{Vm, VmError, empty_vm, vcpu_at, exists, started, create_vcpu}
use hypervisor.Vm.Run.{Host, Panic, device, no_vcpu, run_one_iteration, run_loop, then_again}
use hypervisor.Vm.Loops.{run_smp, is_ready, entered, left}
use hypervisor.Vm.Valid.{IsValid, add-IsValid}
use hypervisor.Vm.Iteration.{Keeps, Goes, run_one_iteration-Goes}

-- What a result of the lifecycle may be.
abbrev pub Valid? : Result VmError Vm → Type 0
Valid? (err e) = Unit {0}
Valid? (ok vm) = IsValid vm

pub empty_vm-IsValid : (id : ℕ) → IsValid (empty_vm id)
unfolding Scheduler.new
empty_vm-IsValid id = record {
  schedules = new-IsValid;
  slots = length-replicate {A = Option Vcpu} 8 none;
  scheduled = λ i n. absurd (n (get_or-replicate 8 i absent));
  whole = λ i v e. absurd (ground (arith, get_or-replicate {A = Option Vcpu} 8 i none));
}

pub create_vcpu-IsValid :
    (mpidr : ℕ) (vm : Vm) (i : ℕ) → IsValid vm → Valid? (create_vcpu mpidr vm i)
unfolding create_vcpu Vcpu.new
create_vcpu-IsValid mpidr vm i valid = elim (Bool-cases (leb max_vcpus i)) [
  | inl out ↦ rw out tt
  | inr inside ↦ rw inside (elim (Bool-cases (exists (vcpu_at vm i))) [
    | inl there ↦ rw there tt
    | inr free ↦ rw free (
        add-IsValid vm i (Vcpu.new mpidr i 0 0) (vm.vcpu_count + 1) (started vm.state)
          (ground arith) valid refl refl)
  ])
]

-- What may come out of `run_smp`.
abbrev pub NoEmptySlot : Result Panic (Result VmError Host) → Type 0
NoEmptySlot (err (device e)) = Unit {0}
NoEmptySlot (err no_vcpu) = ⊥
NoEmptySlot (ok (err e)) = Unit {0}
NoEmptySlot (ok (ok h)) = IsValid h.vm

module _ (guest : Guest World) where
  then_again-Keeps :
      (k : Host → Result Panic Host)
      → ((h : Host) → IsValid h.vm → Keeps (k h))
      → (r : Result Panic (Bool × Host)) → Goes r
      → Keeps (then_again guest k r)
  then_again-Keeps k next (err (device e)) g = tt
  then_again-Keeps k next (err no_vcpu) g = g
  then_again-Keeps k next (ok (true, h)) g = g
  then_again-Keeps k next (ok (false, h)) g = next h g

  pub run_loop-Keeps : (n : ℕ) (h : Host) → IsValid h.vm → Keeps (run_loop guest n h)
  unfolding run_loop
  run_loop-Keeps zero h valid = tt
  run_loop-Keeps (suc n) h valid =
      then_again-Keeps (run_loop guest n) (run_loop-Keeps n) (run_one_iteration guest h)
        (run_one_iteration-Goes guest h valid)

  pub left-NoEmptySlot : (r : Result Panic Host) → Keeps r → NoEmptySlot (left r)
  left-NoEmptySlot (err (device e)) k = tt
  left-NoEmptySlot (err no_vcpu) k = k
  left-NoEmptySlot (ok h) k = record {
    schedules = k.schedules;
    slots = k.slots;
    scheduled = k.scheduled;
    whole = k.whole;
  }

  pub entered-IsValid : (h : Host) → IsValid h.vm → IsValid (entered h).vm
  entered-IsValid h valid = record {
    schedules = valid.schedules;
    slots = valid.slots;
    scheduled = valid.scheduled;
    whole = valid.whole;
  }

  -- Whatever the guest does, and however many rounds it has, the loop that runs a valid VM never
  -- unwraps a slot without a vCPU, and the VM that it leaves is valid.
  pub run_smp-NoEmptySlot : (n : ℕ) (h : Host) → IsValid h.vm → NoEmptySlot (run_smp guest n h)
  unfolding run_smp
  run_smp-NoEmptySlot n h valid = elim (Bool-cases (is_ready h.vm.state)) [
    | inl goes ↦ rw goes (elim (Bool-cases (h.vm.vcpu_count == 0)) [
      | inl empty ↦ rw empty tt
      | inr some_vcpu ↦
          rw some_vcpu (left-NoEmptySlot _ (run_loop-Keeps n (entered h) (entered-IsValid h valid)))
    ])
    | inr stays ↦ rw stays tt
  ]
