-- ===== src/Scheduler/Invariant.antt =====
-- src/scheduler.rs: the well-formedness invariant.
use hypervisor.Prelude.{
  ℕ, ◌<◌, ◌≡◌, ◌≢◌, refl, arith, Option, none, some, length, length-set, get_or-set,
  get_or-replicate,
}
use hypervisor.Scheduler.{
  Scheduler, RunState, absent, ready, running, blocked, max_vcpus, state_at, new, add_vcpu,
  remove_vcpu, leave_current, yield_current, block_current, unblock,
}

pub record IsValid (s : Scheduler) : Type 0 where
  pub slots : length s.states ≡ max_vcpus
  pub next_in : s.next_idx < max_vcpus
  pub current_in : (c : ℕ) → s.current ≡ some c → c < max_vcpus
  pub one_runs : (i : ℕ) → state_at s i ≡ running → s.current ≡ some i

pub new-IsValid : IsValid new
unfolding new
new-IsValid = record {
  slots = refl;
  next_in = omega arith;
  current_in = λ c e. cc;
  one_runs = λ i e. absurd (ground (arith, get_or-replicate 8 i absent));
}

pub add_vcpu-IsValid : (s : Scheduler) (v : ℕ) → IsValid s → IsValid (add_vcpu s v)
unfolding add_vcpu
add_vcpu-IsValid s v h = record {
  slots = ground (arith, length-set s.states v ready, h.slots);
  next_in = ground (arith, h.next_in);
  current_in = λ c e. h.current_in c (ground arith);
  one_runs = λ i e. ground (arith, get_or-set s.states v i ready absent, h.one_runs i, h.slots);
}

pub remove_vcpu-IsValid : (s : Scheduler) (v : ℕ) → IsValid s → IsValid (remove_vcpu s v)
unfolding remove_vcpu
remove_vcpu-IsValid s v h = record {
  slots = ground (arith, length-set s.states v absent, h.slots);
  next_in = ground (arith, h.next_in);
  current_in = λ c e. h.current_in c (ground arith);
  one_runs = λ i e. ground (arith, get_or-set s.states v i absent absent, h.one_runs i, h.slots);
}

pub unblock-IsValid : (s : Scheduler) (v : ℕ) → IsValid s → IsValid (unblock s v)
unfolding unblock
unblock-IsValid s v h = record {
  slots = ground (arith, length-set s.states v ready, h.slots);
  next_in = ground (arith, h.next_in);
  current_in = λ c e. h.current_in c (ground arith);
  one_runs = λ i e. ground (arith, get_or-set s.states v i ready absent, h.one_runs i, h.slots);
}

pub leave_current-IsValid :
    (r : RunState) (o : Option ℕ) (s : Scheduler)
    → r ≢ running
    → s.current ≡ o
    → IsValid s
    → IsValid (leave_current r o s)
unfolding leave_current
leave_current-IsValid r none s n e h = h
leave_current-IsValid r (some c) s n e h = record {
  slots = ground (arith, length-set s.states c r, h.slots);
  next_in = omega arith;
  current_in = λ d p. cc;
  one_runs = λ i p.
      absurd
        (ground (arith, get_or-set s.states c i r absent, h.one_runs i, h.slots, h.current_in c e));
}

pub yield_current-IsValid : (s : Scheduler) → IsValid s → IsValid (yield_current s)
unfolding yield_current
yield_current-IsValid s h = leave_current-IsValid ready s.current s (λ e. cc) refl h

pub block_current-IsValid : (s : Scheduler) → IsValid s → IsValid (block_current s)
unfolding block_current
block_current-IsValid s h = leave_current-IsValid blocked s.current s (λ e. cc) refl h
