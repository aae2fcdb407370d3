-- ===== src/Vm/Loops.antt =====
-- src/vm.rs: the loops that run one VM, and several VMs in turn, on one processor.
use hypervisor.Prelude.{
  ℕ, zero, suc, Bool, true, false, List, [], ◌∷◌, get_or, set, Result, ok, err, bit_or, ◌==◌, ◌&&◌,
  if◌then◌else◌, replicate,
}
use hypervisor.Devices.Virtio.Queue.{out_of_fuel}
use hypervisor.Vm.Vcpu.{Processor, Guest}
use hypervisor.Vm.Global.{VmGlobalState}
use hypervisor.Vm.Machine.{World, vm_state, with_state}
use hypervisor.Vm.Lifecycle.{Vm, VmState, VmError, ready, running, not_ready, no_vcpus}
use hypervisor.Vm.Run.{Host, Panic, device, run_one_iteration, run_loop}

abbrev pub is_ready : VmState → Bool
is_ready ready = true
is_ready _ = false

abbrev first_online : VmGlobalState → VmGlobalState
first_online g = record g { vcpu_online_mask = bit_or g.vcpu_online_mask 1 }

-- What is written before the loop starts.
abbrev pub entered : Host → Host
entered h =
    let w = record h.world { current_vm_id = h.vm.id } in
    record h {
      vm = record h.vm { state = running };
      world = with_state w h.vm.id (first_online (vm_state w h.vm.id));
    }

abbrev pub left : Result Panic Host → Result Panic (Result VmError Host)
left (err e) = err e
left (ok h) = ok (ok (record h { vm = record h.vm { state = ready } }))

-- `run_smp`, with at most `n` rounds of its loop.
unfoldable pub run_smp : Guest World → (n : ℕ) → Host → Result Panic (Result VmError Host)
unfolding run_loop
run_smp guest n h =
    if is_ready h.vm.state
    then (if h.vm.vcpu_count == 0 then ok (err no_vcpus) else left (run_loop guest n (entered h)))
    else ok (err not_ready)

-- The VMs of one processor, and which of them are done.
pub record Hosts : Type 0 where
  pub vms : List Vm
  pub done : List Bool
  pub processor : Processor
  pub world : World

abbrev marked : Vm → World → World
marked vm w = if is_ready vm.state then with_state w vm.id (first_online (vm_state w vm.id)) else w

-- A VM that is not ready is skipped, with a message, and yet is run by the loop.
unfoldable pub mark_running : List Vm → World → List Vm × World
mark_running [] w = ([], w)
mark_running (vm ∷ vms) w =
    let rest = mark_running vms (marked vm w) in
    ((if is_ready vm.state then record vm { state = running } else vm) ∷ rest.0, rest.1)

abbrev switched : Vm → Processor → World → Host
switched vm p w = record {
  vm = vm;
  processor = record p { vttbr_el2 = vm.vttbr };
  world = record w { current_vm_id = vm.id };
}

abbrev behind_vm : Vm → Result Panic Hosts → Result Panic Hosts
behind_vm vm (err e) = err e
behind_vm vm (ok s) = ok (record s { vms = vm ∷ s.vms })

abbrev pass_on :
    (List Bool → Processor → World → Result Panic Hosts)
    → List Bool
    → Result Panic (Bool × Host)
    → Result Panic Hosts
pass_on k done (err e) = err e
pass_on k done (ok (false, h)) = behind_vm h.vm (k done h.processor h.world)
pass_on k done (ok (true, h)) =
    behind_vm (record h.vm { state = ready }) (k (set done h.vm.id true) h.processor h.world)

module _ (guest : Guest World) where
  -- One iteration for each VM that is not done.
  unfoldable pub run_pass : List Vm → List Bool → Processor → World → Result Panic Hosts
  unfolding run_one_iteration
  run_pass [] done p w = ok (record { vms = []; done = done; processor = p; world = w })
  run_pass (vm ∷ vms) done p w =
      let next = pass_on (run_pass vms) done (run_one_iteration guest (switched vm p w)) in
      let skipped = behind_vm vm (run_pass vms done p w) in
      if get_or done vm.id false then skipped else next

  unfoldable pub all_done : List Vm → List Bool → Bool
  all_done [] done = true
  all_done (vm ∷ vms) done = get_or done vm.id false && all_done vms done

  abbrev again : (Hosts → Result Panic Hosts) → Result Panic Hosts → Result Panic Hosts
  again k (err e) = err e
  again k (ok s) = k s

  -- The loop over the passes, with `n` passes left.
  unfoldable pub run_passes : (n : ℕ) → Hosts → Result Panic Hosts
  unfolding run_pass all_done
  run_passes zero s = err (device out_of_fuel)
  run_passes (suc n) s =
      let next = again (run_passes n) (run_pass s.vms s.done s.processor s.world) in
      if all_done s.vms s.done then ok s else next

  unfoldable pub run_multi_vm : (n : ℕ) → List Vm → Processor → World → Result Panic Hosts
  unfolding run_passes mark_running
  run_multi_vm n vms p w =
      let start = mark_running vms w in
      run_passes n
        (record { vms = start.0; done = replicate 2 false; processor = p; world = start.1 })
