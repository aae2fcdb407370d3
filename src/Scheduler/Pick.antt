-- ===== src/Scheduler/Pick.antt =====
-- src/scheduler.rs: lemmas on `pick_next`, and histories of calls.
use hypervisor.Prelude.{
  ℕ, zero, suc, ◌+◌, ◌-◌, ◌%◌, ◌<◌, ◌≤◌, ◌≡◌, ◌≢◌, ◌⊎◌, inl, inr, refl, ap, arith, true, false,
  Bool-cases, Option, none, some, List, [], ◌∷◌, set, get_or-set, get_or-set_self, get_or-set_ne,
  get_or_out, sym, length-set, dec_lt, ◌∙◌,
}
use hypervisor.Scheduler.{
  Scheduler, RunState, absent, ready, running, max_vcpus, state_at, is_ready, current_runs, new,
  add_vcpu, remove_vcpu, pick_from, pick_next, yield_current, block_current, unblock, is_running,
}
use hypervisor.Scheduler.Invariant.{
  IsValid, new-IsValid, add_vcpu-IsValid, remove_vcpu-IsValid, unblock-IsValid,
  yield_current-IsValid, block_current-IsValid,
}

-- The slot that the search looks at in its round `k`.
abbrev pub slot : Scheduler → ℕ → ℕ
slot s k = (s.next_idx + k) % max_vcpus

-- The scheduler after `idx` has been picked.
abbrev pub dispatched : Scheduler → ℕ → Scheduler
dispatched s idx = record s { current = some idx; states = set s.states idx running }

-- Rounds `i` to `j` found nothing ready.
abbrev pub NoneReady : Scheduler → ℕ → ℕ → Type 0
NoneReady s i j = (k : ℕ) → i ≤ k → k < j → state_at s (slot s k) ≢ ready

abbrev pub Found : Scheduler → ℕ → ℕ → Scheduler × Option ℕ → Type 0
Found s i j out =
    (k : ℕ) × (i ≤ k)
    × (k < j)
    × (state_at s (slot s k) ≡ ready)
    × NoneReady s i k
    × (out ≡ (dispatched s (slot s k), some (slot s k)))

not_ready : (r : RunState) → is_ready r ≡ false → r ≢ ready
not_ready r h = ground arith

is_ready-eq : (r : RunState) → is_ready r ≡ true → r ≡ ready
is_ready-eq r h = ground arith

NoneReady-cons :
    (s : Scheduler) (i j : ℕ)
    → state_at s (slot s i) ≢ ready
    → NoneReady s (i + 1) j
    → NoneReady s i j
NoneReady-cons s i j h t k p q = elim (dec_lt i k) [
  | yes l ↦ t k (omega arith) q
  | no l ↦ λ e. h (ap (λ (m : ℕ). state_at s (slot s m)) (same k p l) ∙ e)
]
  where
    same : (k : ℕ) → i ≤ k → ¬ (i < k) → i ≡ k
    same k p l = omega arith

-- The search takes the first ready slot, or changes nothing.
pub pick_from-Found :
    (s : Scheduler) (n i : ℕ)
    → ((pick_from s n i ≡ (s, none)) × NoneReady s i (i + n)) ⊎ Found s i (i + n) (pick_from s n i)
unfolding pick_from
pick_from-Found s zero i = inl (refl, λ k p q. absurd (omega arith))
pick_from-Found s (suc n) i = elim (Bool-cases (is_ready (state_at s (slot s i)))) [
  | inl e ↦
      inr (i, omega arith, omega arith, is_ready-eq _ e, (λ k p q. absurd (omega arith)), rw e)
  | inr e ↦ later e (pick_from-Found s n (i + 1))
]
  where
    later :
        is_ready (state_at s (slot s i)) ≡ false
        → ((pick_from s n (i + 1) ≡ (s, none)) × NoneReady s (i + 1) (i + 1 + n))
          ⊎ Found s (i + 1) (i + 1 + n) (pick_from s n (i + 1))
        → ((pick_from s (suc n) i ≡ (s, none)) × NoneReady s i (i + suc n))
          ⊎ Found s i (i + suc n) (pick_from s (suc n) i)
    later e (inl (p, q)) =
        inl (rw e p, NoneReady-cons s i (i + suc n) (not_ready _ e) (λ k a b. q k a (omega arith)))
    later e (inr (k, a, b, c, d, o)) =
        inr (k, omega arith, omega arith, c, NoneReady-cons s i k (not_ready _ e) d, rw e o)

pick_next_current : (s : Scheduler) → current_runs s s.current ≡ true → pick_next s ≡ (s, s.current)
unfolding pick_next
pick_next_current s e = rw e

pub pick_next_search :
    (s : Scheduler) → current_runs s s.current ≡ false → pick_next s ≡ pick_from s max_vcpus 0
unfolding pick_next
pick_next_search s e = rw e

-- In a valid state nothing runs unless `current` does.
pub none_runs :
    (s : Scheduler)
    → IsValid s
    → current_runs s s.current ≡ false
    → (i : ℕ) → state_at s i ≢ running
none_runs s h e i r = absurd (ground (arith, ap (current_runs s) (h.one_runs i r), ap is_running r))

pub dispatched-IsValid :
    (s : Scheduler) (c : ℕ)
    → c < max_vcpus
    → ((i : ℕ) → state_at s i ≢ running)
    → IsValid s
    → IsValid (dispatched s c)
dispatched-IsValid s c l n h = record {
  slots = length-set s.states c running ∙ h.slots;
  next_in = h.next_in;
  current_in = λ d p. ground arith;
  one_runs = λ i p. ground (arith, get_or-set s.states c i running absent, n i, h.slots);
}

slot_in : (s : Scheduler) (k : ℕ) → slot s k < max_vcpus
slot_in s k = omega arith

pub pick_next-IsValid : (s : Scheduler) → IsValid s → IsValid (pick_next s).0
pick_next-IsValid s h = elim (Bool-cases (current_runs s s.current)) [
  | inl e ↦ rw (pick_next_current s e) h
  | inr e ↦ rw (pick_next_search s e) (searched e (pick_from-Found s max_vcpus 0))
]
  where
    searched :
        current_runs s s.current ≡ false
        → ((pick_from s max_vcpus 0 ≡ (s, none)) × NoneReady s 0 max_vcpus)
          ⊎ Found s 0 max_vcpus (pick_from s max_vcpus 0)
        → IsValid (pick_from s max_vcpus 0).0
    searched e (inl (p, q)) = rw p h
    searched e (inr (k, a, b, c, d, o)) =
        rw o (dispatched-IsValid s (slot s k) (slot_in s k) (none_runs s h e) h)

-- The calls on a scheduler.
pub data Call : Type 0 where
  adds removes unblocks : ℕ → Call
  picks yields blocks : Call

unfoldable pub step : Scheduler → Call → Scheduler
step s (adds v) = add_vcpu s v
step s (removes v) = remove_vcpu s v
step s (unblocks v) = unblock s v
step s picks = (pick_next s).0
step s yields = yield_current s
step s blocks = block_current s

unfoldable pub run : Scheduler → List Call → Scheduler
run s [] = s
run s (c ∷ cs) = run (step s c) cs

step-IsValid : (s : Scheduler) (c : Call) → IsValid s → IsValid (step s c)
unfolding step
step-IsValid s (adds v) h = add_vcpu-IsValid s v h
step-IsValid s (removes v) h = remove_vcpu-IsValid s v h
step-IsValid s (unblocks v) h = unblock-IsValid s v h
step-IsValid s picks h = pick_next-IsValid s h
step-IsValid s yields h = yield_current-IsValid s h
step-IsValid s blocks h = block_current-IsValid s h

run-IsValid : (s : Scheduler) (cs : List Call) → IsValid s → IsValid (run s cs)
unfolding run
run-IsValid s [] h = h
run-IsValid s (c ∷ cs) h = run-IsValid (step s c) cs (step-IsValid s c h)

-- After any sequence of calls on a new scheduler there are eight slots, `next_idx` and `current`
-- are in range, and a vCPU whose state is running is the current one, so at most one runs.
pub run-new-IsValid : (cs : List Call) → IsValid (run new cs)
run-new-IsValid cs = run-IsValid new cs new-IsValid

-- What a caller learns from a result of `pick_next`.
abbrev pub Picked : Scheduler → Scheduler × Option ℕ → Type 0
Picked s (s', none) = (s' ≡ s) × ((i : ℕ) → (state_at s i ≢ ready) × (state_at s i ≢ running))
Picked s (s', some c) =
    (c < max_vcpus)
    × (s'.current ≡ some c)
    × (state_at s' c ≡ running)
    × ((state_at s c ≡ running) ⊎ (state_at s c ≡ ready))
    × ((i : ℕ) → i ≢ c → state_at s' i ≡ state_at s i)

current-Picked :
    (s : Scheduler) (o : Option ℕ)
    → IsValid s
    → s.current ≡ o
    → current_runs s o ≡ true
    → Picked s (s, o)
current-Picked s none h e r = absurd (ground arith)
current-Picked s (some c) h e r = (
  h.current_in c e,
  e,
  is_running-eq (state_at s c) r,
  inl (is_running-eq (state_at s c) r),
  λ i n. refl,
)
  where
    is_running-eq : (x : RunState) → is_running x ≡ true → x ≡ running
    is_running-eq x p = ground arith

-- Every slot is looked at in one of the eight rounds.
pub all_slots :
    (s : Scheduler)
    → NoneReady s 0 max_vcpus
    → (i : ℕ) → i < max_vcpus
    → s.next_idx < max_vcpus
    → state_at s i ≢ ready
all_slots s q i l n e =
    q ((i + 8 - s.next_idx) % 8) (omega arith) (omega arith) (ap (λ (m : ℕ). state_at s m) back ∙ e)
  where
    back : slot s ((i + 8 - s.next_idx) % 8) ≡ i
    back = omega arith

nothing_ready :
    (s : Scheduler) → IsValid s → NoneReady s 0 max_vcpus → (i : ℕ) → state_at s i ≢ ready
nothing_ready s h q i = elim (dec_lt i max_vcpus) [
  | yes l ↦ all_slots s q i l h.next_in
  | no l ↦ λ e. absurd (ground (arith, get_or_out s.states i absent, h.slots))
]

searched-Picked :
    (s : Scheduler)
    → IsValid s
    → current_runs s s.current ≡ false
    → ((pick_from s max_vcpus 0 ≡ (s, none)) × NoneReady s 0 max_vcpus)
      ⊎ Found s 0 max_vcpus (pick_from s max_vcpus 0)
    → Picked s (pick_from s max_vcpus 0)
searched-Picked s h e (inl (p, q)) = rw p (refl, λ i. (nothing_ready s h q i, none_runs s h e i))
searched-Picked s h e (inr (k, a, b, c, d, o)) = rw o (
  slot_in s k,
  refl,
  get_or-set_self s.states (slot s k) running absent (omega (arith, h.slots, slot_in s k)),
  inr c,
  λ i n. get_or-set_ne s.states (slot s k) i running absent (λ p. n (sym p)),
)

-- In a valid state `pick_next` answers none only when no vCPU is ready or running, and then it
-- changes nothing; otherwise the vCPU that it answers was running or ready, is now running and
-- current, and every other vCPU keeps its state.
pub pick_next-Picked : (s : Scheduler) → IsValid s → Picked s (pick_next s)
pick_next-Picked s h = elim (Bool-cases (current_runs s s.current)) [
  | inl e ↦ rw (pick_next_current s e) (current-Picked s s.current h refl e)
  | inr e ↦ rw (pick_next_search s e) (searched-Picked s h e (pick_from-Found s max_vcpus 0))
]
