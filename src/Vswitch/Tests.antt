-- ===== src/Vswitch/Tests.antt =====
-- The theorems on the switch at new rings and a new table.
use hypervisor.Prelude.{ℕ, ◌≡◌, refl, arith, [], ◌∷◌, All-replicate, length-replicate}
use hypervisor.Vswitch.RxRing.{Frame, new, store_frame, take_frame, empty_slot}
use hypervisor.Vswitch.Fifo.{
  IsSlot, IsValid, contents, Stored, store_frame-Stored, Taken, take_frame-Taken,
}
use hypervisor.Vswitch.MacTable
use hypervisor.Vswitch.MacTable.{VSwitch, learn}
use hypervisor.Vswitch.Forward.{arrive, forward, forward-arrive}

-- From 02:00:00:00:00:01 to the broadcast address.
abbrev frame : Frame
frame = 255 ∷ 255 ∷ 255 ∷ 255 ∷ 255 ∷ 255 ∷ 2 ∷ 0 ∷ 0 ∷ 0 ∷ 0 ∷ 1 ∷ 8 ∷ 6 ∷ 42 ∷ []

empty_slot-IsSlot_new : IsSlot empty_slot
unfolding empty_slot
empty_slot-IsSlot_new = (length-replicate {A = ℕ} 1514 0, omega arith)

new-IsValid : IsValid new
unfolding new
new-IsValid = record {
  slots = refl;
  buffers = All-replicate IsSlot 9 empty_slot empty_slot-IsSlot_new;
  head_lt = omega arith;
  tail_lt = omega arith;
}

store_frame-Stored_example : Stored new frame (store_frame new frame)
store_frame-Stored_example = store_frame-Stored new frame new-IsValid

take_frame-Taken_example : Taken new (0 ∷ 0 ∷ []) (contents new) (take_frame new (0 ∷ 0 ∷ []))
take_frame-Taken_example = take_frame-Taken new (0 ∷ 0 ∷ []) new-IsValid

forward-arrive_example :
    (forward MacTable.new (new ∷ new ∷ []) 0 frame).1
    ≡ arrive MacTable.new 0 frame 0 new ∷ arrive MacTable.new 0 frame 1 new ∷ []
forward-arrive_example = forward-arrive MacTable.new new new 0 frame
