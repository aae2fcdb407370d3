-- ===== src/Spmc/Tests.antt =====
-- The theorems on the partition manager at a store of one partition.
use hypervisor.Prelude.{◌≡◌, refl, true, false, none, some, [], ◌∷◌}
use hypervisor.Ffa.Ids.{busy}
use hypervisor.Spmc.Replies.{SmcResult8, zeros, make_error, interrupted}
use hypervisor.Spmc.Context.{SpContext, new, idle, set_args, get_sp, is_state}
use hypervisor.Spmc.World.{World, handle_partition_info_get}
use hypervisor.Spmc.Dispatch.{Guest, Turn, dispatch_to_sp, resume_preempted_sp, run_event_loop}
use hypervisor.Spmc.Rest.{Served, run_event_loop-Served}
use hypervisor.Spmc.Preemption.{outcome, enter, halted, dispatch_to_sp-resume}
use hypervisor.Spmc.Directory.{IsDirectory, handle_partition_info_get-IsDirectory}

abbrev sp1 : SpContext
unfolding new
sp1 = record (new 0x8001 0x0E300000 0x0E400000 (1 ∷ 2 ∷ 3 ∷ 4 ∷ [])) { state = idle }

abbrev world : World
world = record {
  sps = none ∷ some sp1 ∷ none ∷ none ∷ [];
  nwd = record { tx_pa = 0x40000000; rx_pa = 0x40001000; page_count = 1; mapped = true };
  ram = λ a. 0;
}

-- A partition that is interrupted at once, and one that answers with its arguments.
abbrev interrupting : Guest
interrupting vsttbr ctx ram = record { ctx = ctx; irq = true; ram = ram }

abbrev answering : Guest
answering vsttbr ctx ram = record { ctx = ctx; irq = false; ram = ram }

abbrev request : SmcResult8
request = record zeros { x0 = 0x8400006F; x1 = 0x8001; x3 = 42 }

dispatch_to_sp-resume_example :
    (dispatch_to_sp interrupting world request 0x8001
      ≡ some
          (interrupted, halted world 0x8001 sp1 (enter interrupting world (set_args sp1 request))))
    × (dispatch_to_sp answering
          (halted world 0x8001 sp1 (enter interrupting world (set_args sp1 request)))
          request
          0x8001
        ≡ some (
          make_error busy,
          halted world 0x8001 sp1 (enter interrupting world (set_args sp1 request)),
        ))
    × (resume_preempted_sp answering
          (halted world 0x8001 sp1 (enter interrupting world (set_args sp1 request)))
          0x8001
        ≡ some (
            outcome
              (halted world 0x8001 sp1 (enter interrupting world (set_args sp1 request)))
              0x8001
              sp1
              (answering sp1.vsttbr
                (enter interrupting world (set_args sp1 request)).ctx
                (enter interrupting world (set_args sp1 request)).ram)))
unfolding get_sp is_state sp1
dispatch_to_sp-resume_example =
    dispatch_to_sp-resume interrupting answering world request request 0x8001 sp1 refl refl refl

abbrev turn : Guest → SmcResult8 → Turn
turn guest r = record { request = r; memory = λ a. 0; guest = guest }

run_event_loop-Served_example : Served world 2 (
    run_event_loop world (
      turn interrupting request
      ∷ turn answering (record zeros { x0 = 0x8400006D; x1 = 0x80010000 })
      ∷ []))
unfolding is_state sp1
run_event_loop-Served_example =
    run_event_loop-Served world
      (turn interrupting request
        ∷ turn answering (record zeros { x0 = 0x8400006D; x1 = 0x80010000 })
        ∷ [])
      (tt, (refl, (tt, (tt, tt))))

handle_partition_info_get-IsDirectory_example : IsDirectory world (handle_partition_info_get world)
handle_partition_info_get-IsDirectory_example = handle_partition_info_get-IsDirectory world
