-- ===== src/Spmc/Rest.antt =====
-- src/spmc_handler.rs: the partitions between the turns of the event loop.
use hypervisor.Prelude.{
  ℕ, ◌≡◌, refl, sym, ◌∙◌, ap, arith, Bool, true, false, Option, none, some, ◌==◌, if◌then◌else◌,
  inl, inr, Bool-cases, Option-cases, All, map, List, [], ◌∷◌, length, subst, suc,
}
use hypervisor.Spmc.Replies.{SmcResult8}
use hypervisor.Spmc.Context.{SpContext, idle, preempted, is_state, discriminant, set_args, get_sp}
use hypervisor.Spmc.World.{
  World, Reply, handle_rxtx_map, handle_rxtx_unmap, handle_rx_release, handle_partition_info_get,
}
use hypervisor.Spmc.Dispatch.{
  Exit, Guest, dispatch_to_sp, dispatch_found, resume_preempted_sp, resume_found, dispatch_ffa,
  answer, Function, function_of, dispatch_request, is_for_sp, run_target, Turn, run_event_loop,
  version, id_get, spm_id_get, features, run, rxtx_map, rxtx_unmap, rx_release, partition_info_get,
  direct_req_32, direct_req_64, unknown,
}
use hypervisor.Spmc.Replies.{destination}
use hypervisor.Spmc.Store.{All-put_sp, identity, identity-put_sp}
use hypervisor.Spmc.Preemption.{
  is_waiting, after, outcome, enter, dispatch_idle, dispatch_busy, resume_preempted, resume_denied,
}

-- A registered partition waits for the manager: it is idle or preempted.
abbrev pub AtRest : Option SpContext → Type 0
AtRest none = Unit
AtRest (some sp) = is_waiting sp.state ≡ true

-- A request that comes back with all partitions at rest, each the one it was.
pub record Handled (w : World) (out : Option Reply) : Type 0 where
  pub reply : Reply
  pub returns : out ≡ some reply
  pub rest : All AtRest reply.1.sps
  pub kept : map identity reply.1.sps ≡ map identity w.sps

same_sps : (w : World) (out : Reply) → All AtRest w.sps → out.1.sps ≡ w.sps → Handled w (some out)
same_sps w out a e = record {
  reply = out;
  returns = refl;
  rest = subst (All AtRest) (sym e) a;
  kept = ap (map identity) e;
}

after-AtRest : (sp : SpContext) (e : Exit) → AtRest (some (after sp e))
unfolding is_state discriminant
after-AtRest sp e = elim (Bool-cases e.irq) [ inl c ↦ simp c refl | inr c ↦ simp c refl ]

outcome-Handled :
    (w : World) (id : ℕ) (sp0 sp : SpContext) (e : Exit)
    → All AtRest w.sps
    → get_sp w.sps id ≡ some sp0
    → identity (some sp) ≡ identity (some sp0)
    → Handled w (some (outcome w id sp e))
unfolding identity
outcome-Handled w id sp0 sp e a h k = record {
  reply = outcome w id sp e;
  returns = refl;
  rest = All-put_sp AtRest w.sps id (after sp e) (after-AtRest sp e) a;
  kept = identity-put_sp w.sps id sp0 (after sp e) h k;
}

dispatch_to_sp-Handled :
    (guest : Guest) (w : World) (r : SmcResult8) (id : ℕ)
    → All AtRest w.sps
    → Handled w (dispatch_to_sp guest w r id)
unfolding dispatch_to_sp dispatch_found set_args identity
dispatch_to_sp-Handled guest w r id a = elim (Option-cases (get_sp w.sps id)) [
  | inl h ↦ rw h (same_sps w _ a refl)
  | inr (sp, h) ↦ elim (Bool-cases (is_state sp.state idle)) [
    | inl i ↦
        rw (dispatch_idle guest w r id sp h i)
          (outcome-Handled w id sp (set_args sp r) (enter guest w (set_args sp r)) a h refl)
    | inr i ↦ rw (dispatch_busy guest w r id sp h i) (same_sps w _ a refl)
  ]
]

resume-Handled :
    (guest : Guest) (w : World) (id : ℕ)
    → All AtRest w.sps
    → Handled w (resume_preempted_sp guest w id)
unfolding resume_preempted_sp resume_found
resume-Handled guest w id a = elim (Option-cases (get_sp w.sps id)) [
  | inl h ↦ rw h (same_sps w _ a refl)
  | inr (sp, h) ↦ elim (Bool-cases (is_state sp.state preempted)) [
    | inl i ↦
        rw (resume_preempted guest w id sp h i)
          (outcome-Handled w id sp sp (enter guest w sp) a h refl)
    | inr i ↦ rw (resume_denied guest w id sp h i) (same_sps w _ a refl)
  ]
]

-- No function that the manager answers itself changes the store.
answer-sps : (f : Function) (w : World) (r : SmcResult8) → (answer f w r).1.sps ≡ w.sps
unfolding answer handle_rxtx_map handle_rxtx_unmap handle_rx_release handle_partition_info_get
answer-sps version w r = refl
answer-sps id_get w r = refl
answer-sps spm_id_get w r = refl
answer-sps features w r = refl
answer-sps run w r = refl
answer-sps rxtx_map w r = ground arith
answer-sps rxtx_unmap w r = ground arith
answer-sps rx_release w r = ground arith
answer-sps partition_info_get w r = refl
answer-sps direct_req_32 w r = refl
answer-sps direct_req_64 w r = refl
answer-sps unknown w r = refl

if-Handled :
    (w : World) (c : Bool) (a b : Option Reply)
    → Handled w a
    → Handled w b
    → Handled w (if c then a else b)
if-Handled w true a b f g = f
if-Handled w false a b f g = g

pub dispatch_request-Handled :
    (guest : Guest) (w : World) (r : SmcResult8)
    → All AtRest w.sps
    → Handled w (dispatch_request guest w r)
unfolding dispatch_request dispatch_ffa
dispatch_request-Handled guest w r a =
    if-Handled w (is_for_sp w r) _ _ (dispatch_to_sp-Handled guest w r (destination r) a) (
      if-Handled w (r.x0 == 0x8400006D) _ _ (resume-Handled guest w (run_target r) a)
        (same_sps w (answer (function_of r.x0) w r) a (answer-sps (function_of r.x0) w r)))

-- The result of the event loop over `n` requests.
pub record Served (w : World) (n : ℕ) (out : Option (List SmcResult8 × World)) : Type 0 where
  pub replies : List SmcResult8
  pub world : World
  pub returns : out ≡ some (replies, world)
  pub count : length replies ≡ n
  pub rest : All AtRest world.sps
  pub kept : map identity world.sps ≡ map identity w.sps

-- From a store whose partitions are idle or preempted, the event loop answers every request of any
-- sequence, whatever they are and however the partitions behave when they are entered: no state
-- transition that it expects fails. After the last one every partition is again idle or preempted,
-- and has the identifier, entry point, Stage-2 base and UUID it had.
pub run_event_loop-Served :
    (w : World) (ts : List Turn) → All AtRest w.sps → Served w (length ts) (run_event_loop w ts)
unfolding run_event_loop
run_event_loop-Served w [] a = record {
  replies = [];
  world = w;
  returns = refl;
  count = refl;
  rest = a;
  kept = refl;
}
run_event_loop-Served w (t ∷ ts) a =
    let now = record w { ram = t.memory } in
    let h = dispatch_request-Handled t.guest now t.request a in
    let s = run_event_loop-Served h.reply.1 ts h.rest in
    record {
      replies = h.reply.0 ∷ s.replies;
      world = s.world;
      returns = rw (h.returns, s.returns) refl;
      count = ap suc s.count;
      rest = s.rest;
      kept = s.kept ∙ h.kept;
    }
