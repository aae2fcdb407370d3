-- ===== src/Spmc/Preemption.antt =====
-- src/spmc_handler.rs: what the entry into a partition does, and how an interrupted one goes on.
use hypervisor.Prelude.{
  ℕ, ◌≡◌, refl, ◌∙◌, Bool, true, false, ◌||◌, Option, some, if◌then◌else◌, inl, inr, Bool-cases,
}
use hypervisor.Ffa.Ids.{busy, denied}
use hypervisor.Spmc.Replies.{SmcResult8, make_error, interrupted}
use hypervisor.Spmc.Context.{
  SpContext, SpState, reset, idle, running, blocked, preempted, is_state, is_transition,
  discriminant, transition_to, set_args, get_args, get_sp, put_sp,
}
use hypervisor.Spmc.World.{World, Reply}
use hypervisor.Spmc.Dispatch.{
  Exit, Guest, run_sp, leave, dispatch_to_sp, dispatch_found, resume_preempted_sp, resume_found,
}
use hypervisor.Spmc.Store.{get_sp-put_sp, get_sp-id}

-- The states in which a partition waits for the manager.
abbrev pub is_waiting : SpState → Bool
unfolding is_state
is_waiting t = is_state t idle || is_state t preempted

idle-waits : (t : SpState) → is_state t idle ≡ true → is_waiting t ≡ true
unfolding is_state discriminant
idle-waits reset h = absurd (cc)
idle-waits idle h = refl
idle-waits running h = absurd (cc)
idle-waits blocked h = absurd (cc)
idle-waits preempted h = refl

preempted-waits : (t : SpState) → is_state t preempted ≡ true → is_waiting t ≡ true
unfolding is_state discriminant
preempted-waits reset h = absurd (cc)
preempted-waits idle h = refl
preempted-waits running h = absurd (cc)
preempted-waits blocked h = absurd (cc)
preempted-waits preempted h = refl

-- The partition after a run, and what the manager answers.
abbrev pub after : SpContext → Exit → SpContext
after sp e = record sp { ctx = e.ctx; state = if e.irq then preempted else idle }

abbrev pub outcome : World → ℕ → SpContext → Exit → Reply
outcome w id sp e = (
  if e.irq then interrupted else get_args (after sp e),
  record w { sps = put_sp w.sps id (after sp e); ram = e.ram },
)

waits-runs : (t : SpState) → is_waiting t ≡ true → is_transition t running ≡ true
unfolding is_state is_transition discriminant
waits-runs reset h = absurd (cc)
waits-runs idle h = refl
waits-runs running h = absurd (cc)
waits-runs blocked h = absurd (cc)
waits-runs preempted h = refl

-- What the rest of `run_sp` makes of an exit.
abbrev leaves : World → ℕ → SpContext → Exit → Option Reply
leaves w id sp e =
    let back = record sp { state = running; ctx = e.ctx } in
    if e.irq
    then leave w id back e.ram preempted interrupted
    else leave w id back e.ram idle (get_args back)

leaves_lem :
    (w : World) (id : ℕ) (sp : SpContext) (e : Exit) → leaves w id sp e ≡ some (outcome w id sp e)
unfolding transition_to is_transition get_args
leaves_lem w id sp e = elim (Bool-cases e.irq) [ inl c ↦ simp c refl | inr c ↦ simp c refl ]

pub run_sp_lem :
    (guest : Guest) (w : World) (id : ℕ) (sp : SpContext)
    → is_waiting sp.state ≡ true
    → run_sp guest w id sp ≡ some (outcome w id sp (guest sp.vsttbr sp.ctx w.ram))
unfolding run_sp transition_to
run_sp_lem guest w id sp h =
    rw (waits-runs sp.state h) (leaves_lem w id sp (guest sp.vsttbr sp.ctx w.ram))

abbrev pub enter : Guest → World → SpContext → Exit
enter guest w sp = guest sp.vsttbr sp.ctx w.ram

pub dispatch_idle :
    (guest : Guest) (w : World) (r : SmcResult8) (id : ℕ) (sp : SpContext)
    → get_sp w.sps id ≡ some sp
    → is_state sp.state idle ≡ true
    → dispatch_to_sp guest w r id
      ≡ some (outcome w id (set_args sp r) (enter guest w (set_args sp r)))
unfolding dispatch_to_sp dispatch_found set_args
dispatch_idle guest w r id sp h i =
    rw (h, i) (run_sp_lem guest w id (set_args sp r) (idle-waits sp.state i))

pub dispatch_busy :
    (guest : Guest) (w : World) (r : SmcResult8) (id : ℕ) (sp : SpContext)
    → get_sp w.sps id ≡ some sp
    → is_state sp.state idle ≡ false
    → dispatch_to_sp guest w r id ≡ some (make_error busy, w)
unfolding dispatch_to_sp dispatch_found
dispatch_busy guest w r id sp h i = rw (h, i) refl

pub resume_preempted :
    (guest : Guest) (w : World) (id : ℕ) (sp : SpContext)
    → get_sp w.sps id ≡ some sp
    → is_state sp.state preempted ≡ true
    → resume_preempted_sp guest w id ≡ some (outcome w id sp (enter guest w sp))
unfolding resume_preempted_sp resume_found
resume_preempted guest w id sp h i =
    rw (h, i) (run_sp_lem guest w id sp (preempted-waits sp.state i))

pub resume_denied :
    (guest : Guest) (w : World) (id : ℕ) (sp : SpContext)
    → get_sp w.sps id ≡ some sp
    → is_state sp.state preempted ≡ false
    → resume_preempted_sp guest w id ≡ some (make_error denied, w)
unfolding resume_preempted_sp resume_found
resume_denied guest w id sp h i = rw (h, i) refl

-- An interrupted partition in the state that it leaves behind.
abbrev pub halted : World → ℕ → SpContext → Exit → World
halted w id sp e = record w {
  sps = put_sp w.sps id (record sp { ctx = e.ctx; state = preempted });
  ram = e.ram;
}

-- A request that an interrupt cuts short in an idle partition is answered by FFA_INTERRUPT; from
-- then on a request to the partition is refused as busy, and FFA_RUN enters it once more with its
-- own Stage-2, exactly the registers and the memory that it left.
pub dispatch_to_sp-resume :
    (first second : Guest) (w : World) (r r' : SmcResult8) (id : ℕ) (sp : SpContext)
    → get_sp w.sps id ≡ some sp
    → is_state sp.state idle ≡ true
    → (enter first w (set_args sp r)).irq ≡ true
    → (dispatch_to_sp first w r id
        ≡ some (interrupted, halted w id sp (enter first w (set_args sp r))))
      × (dispatch_to_sp second (halted w id sp (enter first w (set_args sp r))) r' id
          ≡ some (make_error busy, halted w id sp (enter first w (set_args sp r))))
      × (resume_preempted_sp second (halted w id sp (enter first w (set_args sp r))) id
          ≡ some (
              outcome (halted w id sp (enter first w (set_args sp r))) id sp (
                second sp.vsttbr
                  (enter first w (set_args sp r)).ctx
                  (enter first w (set_args sp r)).ram)))
unfolding set_args is_state discriminant
dispatch_to_sp-resume first second w r r' id sp h i q =
    let e = enter first w (set_args sp r) in
    let back = record sp { ctx = e.ctx; state = preempted } in
    let found : get_sp (put_sp w.sps id back) id ≡ some back =
      get_sp-put_sp w.sps id sp back h (get_sp-id w.sps id sp h) in
    (
      dispatch_idle first w r id sp h i ∙ simp q refl,
      dispatch_busy second (halted w id sp e) r' id back found refl,
      resume_preempted second (halted w id sp e) id back found refl,
    )
