-- ===== src/Vm/Valid.antt =====
-- src/vm.rs: the invariant of a VM and its scheduler.
use hypervisor.Prelude.{
  ℕ, ◌<◌, ◌≡◌, ◌≢◌, ◌∙◌, arith, true, none, some, set, length, length-set, get_or-set, get_or_out,
}
use hypervisor.Scheduler.{
  Scheduler, RunState, absent, ready, running, max_vcpus, state_at, add_vcpu, remove_vcpu, unblock,
  leave_current,
}
use hypervisor.Scheduler.Invariant
use hypervisor.Scheduler.Invariant.{unblock-IsValid, remove_vcpu-IsValid, add_vcpu-IsValid}
use hypervisor.Vm.Vcpu.{Vcpu}
use hypervisor.Vm.Vcpu
use hypervisor.Vm.Lifecycle.{Vm, VmState, vcpu_at, exists}

-- Every vCPU that the scheduler knows exists, stands in its own slot, and is ready.
pub record IsValid (vm : Vm) : Type 0 where
  pub schedules : Invariant.IsValid vm.scheduler
  pub slots : length vm.vcpus ≡ max_vcpus
  pub scheduled : (i : ℕ) → state_at vm.scheduler i ≢ absent → exists (vcpu_at vm i) ≡ true
  pub whole : (i : ℕ) (v : Vcpu) → vcpu_at vm i ≡ some v → (v.id ≡ i) × (v.state ≡ Vcpu.ready)

-- The second scheduler knows no vCPU that the first does not.
abbrev pub KnowsLess : Scheduler → Scheduler → Type 0
KnowsLess s s' = (i : ℕ) → state_at s' i ≢ absent → state_at s i ≢ absent

pub unblock-KnowsLess : (s : Scheduler) (v : ℕ) → KnowsLess s (unblock s v)
unfolding unblock
unblock-KnowsLess s v i n e = n (ground (arith, get_or-set s.states v i ready absent))

pub remove_vcpu-KnowsLess : (s : Scheduler) (v : ℕ) → KnowsLess s (remove_vcpu s v)
unfolding remove_vcpu
remove_vcpu-KnowsLess s v i n e = n (ground (arith, get_or-set s.states v i absent absent))

pub leave_current-KnowsLess :
    (r : RunState) (s : Scheduler) (c : ℕ)
    → state_at s c ≡ running
    → KnowsLess s (leave_current r (some c) s)
unfolding leave_current
leave_current-KnowsLess r s c runs i n e =
    n (ground (arith, get_or-set s.states c i r absent, runs, e))

pub with_scheduler-IsValid :
    (vm : Vm) (s : Scheduler)
    → IsValid vm
    → Invariant.IsValid s
    → KnowsLess vm.scheduler s
    → IsValid (record vm { scheduler = s })
with_scheduler-IsValid vm s h valid less = record {
  schedules = valid;
  slots = h.slots;
  scheduled = λ i n. h.scheduled i (less i n);
  whole = h.whole;
}

-- A vCPU goes into its own slot.
pub put-IsValid :
    (vm : Vm) (id : ℕ) (v : Vcpu)
    → IsValid vm
    → v.id ≡ id
    → v.state ≡ Vcpu.ready
    → IsValid (record vm { vcpus = set vm.vcpus id (some v) })
put-IsValid vm id v h own is_ready = record {
  schedules = h.schedules;
  slots = length-set vm.vcpus id (some v) ∙ h.slots;
  scheduled = λ i n.
      ground (
        arith,
        h.scheduled i n,
        get_or-set vm.vcpus id i (some v) none,
        get_or_out vm.vcpus i none,
      );
  whole =
      λ i u e. ground (arith, h.whole i u, get_or-set vm.vcpus id i (some v) none, own, is_ready);
}

-- A new vCPU goes into its slot and is given to the scheduler.
pub add-IsValid :
    (vm : Vm) (id : ℕ) (v : Vcpu) (count : ℕ) (state : VmState)
    → id < max_vcpus
    → IsValid vm
    → v.id ≡ id
    → v.state ≡ Vcpu.ready
    → IsValid (record vm {
      vcpus = set vm.vcpus id (some v);
      vcpu_count = count;
      scheduler = add_vcpu vm.scheduler id;
      state = state;
    })
unfolding add_vcpu
add-IsValid vm id v count state below valid own is_ready =
    let kept = put-IsValid vm id v valid own is_ready in
    record {
      schedules = add_vcpu-IsValid vm.scheduler id valid.schedules;
      slots = kept.slots;
      scheduled = λ i n. ground (
        arith,
        kept.scheduled i,
        get_or-set vm.vcpus id i (some v) none,
        get_or-set vm.scheduler.states id i ready absent,
        valid.slots,
      );
      whole = kept.whole;
    }
