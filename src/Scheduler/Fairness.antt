-- ===== src/Scheduler/Fairness.antt =====
-- src/scheduler.rs: turns of the run loop.
use hypervisor.Prelude.{
  ℕ, zero, suc, ◌+◌, ◌-◌, ◌%◌, ◌<◌, ◌≤◌, ◌≡◌, ◌⊎◌, inl, inr, refl, ap, arith, none, some, set,
  get_or-set, ◌∙◌, sym, dec_lt, false, ◌≢◌, ℕ_discrete, subst,
}
use hypervisor.Scheduler.{
  Scheduler, ready, running, absent, max_vcpus, state_at, pick_from, pick_next, leave_current,
  yield_current, current_runs,
}
use hypervisor.Scheduler.Invariant.{IsValid, yield_current-IsValid}
use hypervisor.Scheduler.Pick.{
  slot, Found, NoneReady, dispatched, pick_from-Found, pick_next_search, all_slots,
  pick_next-IsValid,
}

-- One turn of the run loop for a vCPU that uses up its time slice.
unfoldable pub turn : Scheduler → Scheduler
turn s = yield_current (pick_next s).0

unfoldable pub turns : ℕ → Scheduler → Scheduler
turns zero s = s
turns (suc n) s = turns n (turn s)

-- How many slots the search looks at before `j`.
abbrev pub distance : Scheduler → ℕ → ℕ
distance s j = (j + 8 - s.next_idx) % 8

idle_current : (s : Scheduler) → s.current ≡ none → current_runs s s.current ≡ false
idle_current s e = rw e

-- A vCPU waits its turn: nothing is current, and it is ready.
pub record Waits (s : Scheduler) (j : ℕ) : Type 0 where
  pub valid : IsValid s
  pub idle : s.current ≡ none
  pub in_range : j < max_vcpus
  pub is_waiting : state_at s j ≡ ready

slot-distance : (s : Scheduler) (j : ℕ) → s.next_idx < 8 → j < 8 → slot s (distance s j) ≡ j
slot-distance s j h l = omega arith

yield-dispatched :
    (s : Scheduler) (c : ℕ)
    → yield_current (dispatched s c) ≡ record {
      states = set (set s.states c running) c ready;
      current = none;
      next_idx = (c + 1) % 8;
    }
unfolding yield_current leave_current
yield-dispatched s c = refl

-- Either `j` is picked now, or after the turn it waits nearer to the front.
Progress : Scheduler → ℕ → Type 0
Progress s j =
    ((pick_next s).1 ≡ some j) ⊎ (Waits (turn s) j × (distance (turn s) j < distance s j))

Found-Progress :
    (s : Scheduler) (j : ℕ) → Waits s j → Found s 0 max_vcpus (pick_next s) → Progress s j
unfolding Progress turn
Found-Progress s j w (k, a, b, c, n, o) = elim (ℕ_discrete (slot s k) j) [
  | yes e ↦ inl (rw o (ap (λ (m : ℕ). some m) e))
  | no ne ↦ inr (
    record {
      valid = yield_current-IsValid _ (pick_next-IsValid s w.valid);
      idle = rw (o, yield-dispatched s (slot s k)) refl;
      in_range = w.in_range;
      is_waiting = rw (o, yield-dispatched s (slot s k)) (kept ne);
    },
    rw (o, yield-dispatched s (slot s k)) (nearer ne),
  )
]
  where
    before : slot s k ≢ j → k < distance s j
    before ne = elim (dec_lt (distance s j) k) [
      | yes l ↦ absurd (
          n (distance s j) (omega arith) l (
            ap (λ (m : ℕ). state_at s m) (slot-distance s j w.valid.next_in w.in_range)
            ∙ w.is_waiting))
      | no l ↦ omega (arith, ne, w.in_range, w.valid.next_in)
    ]

    kept :
        slot s k ≢ j
        → state_at
            (record {
              states = set (set s.states (slot s k) running) (slot s k) ready;
              current = none;
              next_idx = (slot s k + 1) % 8;
            })
            j
          ≡ ready
    kept ne = ground (
      arith,
      get_or-set (set s.states (slot s k) running) (slot s k) j ready absent,
      get_or-set s.states (slot s k) j running absent,
      w.is_waiting,
    )

    nearer : slot s k ≢ j → (j + 8 - (slot s k + 1) % 8) % 8 < distance s j
    nearer ne = omega (arith, before ne, w.in_range, w.valid.next_in)

progress : (s : Scheduler) (j : ℕ) → Waits s j → Progress s j
progress s j w = searched (pick_from-Found s max_vcpus 0)
  where
    same : pick_next s ≡ pick_from s max_vcpus 0
    same = pick_next_search s (idle_current s w.idle)

    searched :
        ((pick_from s max_vcpus 0 ≡ (s, none)) × NoneReady s 0 max_vcpus)
          ⊎ Found s 0 max_vcpus (pick_from s max_vcpus 0)
        → Progress s j
    searched (inl (p, q)) = absurd (all_slots s q j w.in_range w.valid.next_in w.is_waiting)
    searched (inr f) = Found-Progress s j w (subst (Found s 0 max_vcpus) (sym same) f)

abbrev PickedWithin : ℕ → Scheduler → ℕ → Type 0
PickedWithin d s j = (k : ℕ) × (k ≤ d) × ((pick_next (turns k s)).1 ≡ some j)

picked_within : (d : ℕ) (s : Scheduler) (j : ℕ) → Waits s j → distance s j ≤ d → PickedWithin d s j
unfolding turns Progress
picked_within zero s j w h = go (progress s j w)
  where
    go : Progress s j → PickedWithin zero s j
    go (inl p) = (0, omega arith, p)
    go (inr (w', l)) = absurd (omega arith)
picked_within (suc d) s j w h = elim (progress s j w) [
  | inl p ↦ (0, omega arith, p)
  | inr (w', l) ↦ later (picked_within d (turn s) j w' (omega arith))
]
  where
    later : PickedWithin d (turn s) j → PickedWithin (suc d) s j
    later (k, a, p) = (suc k, omega arith, p)

-- In a valid state where nothing is current, a ready vCPU is picked after at most seven turns in
-- which others are picked and yield.
pub turns-pick_next :
    (s : Scheduler) (j : ℕ)
    → IsValid s
    → s.current ≡ none
    → j < max_vcpus
    → state_at s j ≡ ready
    → (k : ℕ) × (k ≤ 7) × ((pick_next (turns k s)).1 ≡ some j)
turns-pick_next s j v e l r =
    picked_within 7 s j (record { valid = v; idle = e; in_range = l; is_waiting = r }) (omega arith)
