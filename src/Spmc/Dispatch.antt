-- ===== src/Spmc/Dispatch.antt =====
-- src/spmc_handler.rs: the dispatch of a request, the entry into a partition, the event loop.
use hypervisor.Prelude.{
  ℕ, Bool, ◌&&◌, ◌||◌, not, Option, none, some, ◌>>=◌, List, [], ◌∷◌, ◌==◌, if◌then◌else◌,
}
use hypervisor.Arch.Regs.{VcpuContext}
use hypervisor.Ffa.Ids.{not_supported, invalid_parameters, busy, denied, ffa_spmc_id}
use hypervisor.Ffa.Descriptors.{Bytes}
use hypervisor.Spmc.Replies.{
  SmcResult8, zeros, make_error, success, interrupted, version_1_1, source, destination,
  handle_features, handle_direct_req_32, echo,
}
use hypervisor.Spmc.Context.{
  SpState, idle, running, preempted, SpContext, is_state, transition_to, set_args, get_args, get_sp,
  put_sp, is_registered_sp,
}
use hypervisor.Spmc.World.{
  World, Reply, handle_rxtx_map, handle_rxtx_unmap, handle_rx_release, handle_partition_info_get,
}

-- What a partition leaves when it comes back: its registers, the memory, and whether the IRQ handler
-- set `SP_IRQ_PREEMPTED`, which is clear when the partition is entered.
pub record Exit : Type 0 where
  pub ctx : VcpuContext
  pub irq : Bool
  pub ram : Bytes

-- `enter_guest` with the Secure Stage-2 base installed: a parameter of the model.
abbrev pub Guest : Type 0
Guest = ℕ → VcpuContext → Bytes → Exit

abbrev pub leave : World → ℕ → SpContext → Bytes → SpState → SmcResult8 → Option Reply
leave w id sp ram t reply =
    transition_to sp t >>= λ sp'. some (reply, record w { sps = put_sp w.sps id sp'; ram = ram })

-- The common part of the two ways into a partition, once it may run.
unfoldable pub run_sp : Guest → World → ℕ → SpContext → Option Reply
run_sp guest w id sp = transition_to sp running >>= λ sp'.
    let e = guest sp'.vsttbr sp'.ctx w.ram in
    let back = record sp' { ctx = e.ctx } in
    if e.irq
    then leave w id back e.ram preempted interrupted
    else leave w id back e.ram idle (get_args back)

abbrev pub refuse : World → SmcResult8 → Option Reply
refuse w r = some (r, w)

unfoldable pub dispatch_found : Guest → World → SmcResult8 → ℕ → Option SpContext → Option Reply
unfolding run_sp
dispatch_found guest w r id none = refuse w (make_error invalid_parameters)
dispatch_found guest w r id (some sp) =
    if not (is_state sp.state idle)
    then refuse w (make_error busy)
    else run_sp guest w id (set_args sp r)

unfoldable pub dispatch_to_sp : Guest → World → SmcResult8 → ℕ → Option Reply
unfolding dispatch_found
dispatch_to_sp guest w r id = dispatch_found guest w r id (get_sp w.sps id)

unfoldable pub resume_found : Guest → World → ℕ → Option SpContext → Option Reply
unfolding run_sp
resume_found guest w id none = refuse w (make_error invalid_parameters)
resume_found guest w id (some sp) =
    if not (is_state sp.state preempted) then refuse w (make_error denied) else run_sp guest w id sp

unfoldable pub resume_preempted_sp : Guest → World → ℕ → Option Reply
unfolding resume_found
resume_preempted_sp guest w id = resume_found guest w id (get_sp w.sps id)

-- The functions that have an arm in `dispatch_ffa`.
pub data Function : Type 0 where
  version id_get spm_id_get features run rxtx_map rxtx_unmap rx_release : Function
  partition_info_get direct_req_32 direct_req_64 unknown : Function

unfoldable pub function_of : ℕ → Function
function_of x =
    if x == 0x84000063
    then version
    else (if x == 0x84000069
        then id_get
        else (if x == 0x84000085
            then spm_id_get
            else (if x == 0x84000064
                then features
                else (if x == 0x8400006D
                    then run
                    else (if x == 0xC4000066
                        then rxtx_map
                        else (if x == 0x84000067
                            then rxtx_unmap
                            else (if x == 0x84000065
                                then rx_release
                                else (if x == 0x84000068
                                    then partition_info_get
                                    else (if x == 0x8400006F
                                        then direct_req_32
                                        else (if x == 0xC400006F
                                            then direct_req_64
                                            else unknown))))))))))

-- The partition that FFA_RUN names.
abbrev pub run_target : SmcResult8 → ℕ
run_target r = source r

-- The arm of `dispatch_ffa` for FFA_RUN, which only checks.
unfoldable pub check_run : World → ℕ → SmcResult8
check_run w id = elim (get_sp w.sps id) [
  | none ↦ make_error invalid_parameters
  | some sp ↦
      if not (is_state sp.state preempted) then make_error denied else make_error not_supported
]

unfoldable pub answer : Function → World → SmcResult8 → Reply
unfolding check_run
answer version w r = (record zeros { x0 = version_1_1 }, w)
answer id_get w r = (record success { x2 = ffa_spmc_id }, w)
answer spm_id_get w r = (record success { x2 = ffa_spmc_id }, w)
answer features w r = (handle_features r, w)
answer run w r = (check_run w (run_target r), w)
answer rxtx_map w r = handle_rxtx_map w r
answer rxtx_unmap w r = handle_rxtx_unmap w
answer rx_release w r = handle_rx_release w
answer partition_info_get w r = handle_partition_info_get w
answer direct_req_32 w r = (handle_direct_req_32 r, w)
answer direct_req_64 w r = (echo 0xC4000070 r, w)
answer unknown w r = (make_error not_supported, w)

unfoldable pub dispatch_ffa : World → SmcResult8 → Reply
unfolding answer function_of
dispatch_ffa w r = answer (function_of r.x0) w r

-- A direct request to a registered partition.
abbrev pub is_for_sp : World → SmcResult8 → Bool
is_for_sp w r = (r.x0 == 0x8400006F || r.x0 == 0xC400006F) && is_registered_sp w.sps (destination r)

unfoldable pub dispatch_request : Guest → World → SmcResult8 → Option Reply
unfolding dispatch_to_sp resume_preempted_sp dispatch_ffa
dispatch_request guest w r =
    if is_for_sp w r
    then dispatch_to_sp guest w r (destination r)
    else (if r.x0 == 0x8400006D
        then resume_preempted_sp guest w (run_target r)
        else some (dispatch_ffa w r))

-- One turn of the event loop: the request that comes in, the memory it finds, and how a partition
-- behaves if it is entered.
pub record Turn : Type 0 where
  pub request : SmcResult8
  pub memory : Bytes
  pub guest : Guest

-- The event loop over a sequence of turns; it gives the replies and the state after them.
unfoldable pub run_event_loop : World → List Turn → Option (List SmcResult8 × World)
unfolding dispatch_request
run_event_loop w [] = some ([], w)
run_event_loop w (t ∷ ts) =
    dispatch_request t.guest (record w { ram = t.memory }) t.request >>= λ out.
    run_event_loop out.1 ts >>= λ rest. some (out.0 ∷ rest.0, rest.1)
