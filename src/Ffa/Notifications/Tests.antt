-- ===== src/Ffa/Notifications/Tests.antt =====
-- The theorems on notifications at small histories.
use hypervisor.Prelude.{
  All-replicate, ◌<◌, ◌^◌, ◌≡◌, refl, arith, true, [], ◌∷◌, All, bit_or, ok, replicate,
}
use hypervisor.Ffa.Notifications.{Endpoint, init, new_bind, set_pending, get_pending, allowed_from}
use hypervisor.Ffa.Notifications.Binds.{IsValid, Call, run, run-init-IsValid}
use hypervisor.Ffa.Notifications.Binds
use hypervisor.Ffa.Notifications.Delivery.{Narrow, get-set_pending}

-- Partition 1 may raise the notifications 0 and 2.
abbrev bound : Endpoint
bound = record {
  enabled = true;
  pending = 2;
  binds = record { sender_id = 1; bitmap = 5; active = true } ∷ replicate 7 new_bind;
}

run-init-IsValid_example : All IsValid (run init (Binds.creates 1 ∷ []))
run-init-IsValid_example = run-init-IsValid (Binds.creates 1 ∷ [])

bound-Narrow : Narrow bound.binds
bound-Narrow = (omega arith, All-replicate (λ b. b.bitmap < 2 ^ 64) 7 new_bind (omega arith))

raised_four : (set_pending 1 4 bound).1 ≡ ok 0
unfolding set_pending allowed_from
raised_four = refl

get-set_pending_example :
    let raised = (set_pending 1 4 bound).0 in
    let read = get_pending raised in
    (read.1 ≡ ok (bit_or bound.pending 4)) × ((get_pending read.0).1 ≡ ok 0)
get-set_pending_example = get-set_pending 1 4 bound raised_four
