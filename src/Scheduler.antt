-- ===== src/Scheduler.antt =====
-- src/scheduler.rs: the round-robin scheduler of the vCPUs of one VM.
pub mod Invariant
pub mod Pick
pub mod Fairness
mod Tests
use hypervisor.Prelude.{
  ℕ, zero, suc, ◌+◌, ◌%◌, Bool, true, false, Option, none, some, List, replicate, get_or, set, ltb,
  ◌==◌, if◌then◌else◌, ◌&&◌,
}

-- `RunState`; `absent` is `RunState::None`.
pub data RunState : Type 0 where
  absent ready running blocked : RunState

-- The slots of a VM, `MAX_VCPUS`.
abbrev pub max_vcpus : ℕ
max_vcpus = 8

pub record Scheduler : Type 0 where
  pub states : List RunState
  pub current : Option ℕ
  pub next_idx : ℕ

abbrev pub state_at : Scheduler → ℕ → RunState
state_at s i = get_or s.states i absent

abbrev pub is_ready : RunState → Bool
is_ready ready = true
is_ready _ = false

abbrev pub is_running : RunState → Bool
is_running running = true
is_running _ = false

abbrev pub is_blocked : RunState → Bool
is_blocked blocked = true
is_blocked _ = false

abbrev pub is_current : Option ℕ → ℕ → Bool
is_current none i = false
is_current (some c) i = c == i

unfoldable pub new : Scheduler
new = record { states = replicate max_vcpus absent; current = none; next_idx = 0 }

unfoldable pub add_vcpu : Scheduler → ℕ → Scheduler
add_vcpu s i = if ltb i max_vcpus then record s { states = set s.states i ready } else s

unfoldable pub remove_vcpu : Scheduler → ℕ → Scheduler
remove_vcpu s i =
    if ltb i max_vcpus
    then record s {
      states = set s.states i absent;
      current = if is_current s.current i then none else s.current;
    }
    else s

-- The `for` loop of `pick_next`, with `n` rounds left, at its round `i`.
unfoldable pub pick_from : Scheduler → ℕ → ℕ → Scheduler × Option ℕ
pick_from s zero i = (s, none)
pick_from s (suc n) i =
    let idx : ℕ = (s.next_idx + i) % max_vcpus in
    let rest = pick_from s n (i + 1) in
    if is_ready (state_at s idx)
    then (record s { current = some idx; states = set s.states idx running }, some idx)
    else rest

-- Whether `current` is still running.
abbrev pub current_runs : Scheduler → Option ℕ → Bool
current_runs s none = false
current_runs s (some c) = is_running (state_at s c)

unfoldable pub pick_next : Scheduler → Scheduler × Option ℕ
pick_next s =
    let searched = pick_from s max_vcpus 0 in
    if current_runs s s.current then (s, s.current) else searched

-- What `yield_current` and `block_current` share: put `current` into a state and move on.
unfoldable pub leave_current : RunState → Option ℕ → Scheduler → Scheduler
leave_current r none s = s
leave_current r (some c) s = record {
  states = set s.states c r;
  current = none;
  next_idx = (c + 1) % max_vcpus;
}

unfoldable pub yield_current : Scheduler → Scheduler
unfolding leave_current
yield_current s = leave_current ready s.current s

unfoldable pub block_current : Scheduler → Scheduler
unfolding leave_current
block_current s = leave_current blocked s.current s

unfoldable pub unblock : Scheduler → ℕ → Scheduler
unblock s i =
    if ltb i max_vcpus && is_blocked (state_at s i)
    then record s { states = set s.states i ready }
    else s

unfoldable pub state : Scheduler → ℕ → RunState
state s i = if ltb i max_vcpus then state_at s i else absent
