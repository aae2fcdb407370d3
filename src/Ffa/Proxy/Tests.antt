-- ===== src/Ffa/Proxy/Tests.antt =====
-- The theorems on the calls of the proxy at two VMs, of which the first has shared a page.
use hypervisor.Prelude.{ℕ, ◌+◌, ◌≡◌, refl, arith, true, false, List, [], ◌∷◌, ◌==◌, if◌then◌else◌}
use hypervisor.Ffa.StubSpmc.{init, record_share, Spmc}
use hypervisor.Ffa.StubSpmc.Spec
use hypervisor.Ffa.Notifications
use hypervisor.Ffa.Mailbox.{FfaMailbox, new}
use hypervisor.Ffa.Descriptors.{Bytes}
use hypervisor.Ffa.Proxy.State.{Regs, Proxy, is_guest_ram}
use hypervisor.Ffa.Proxy.Sharing.{handle_mem_share_or_lend, handle_mem_reclaim}
use hypervisor.Ffa.Proxy.Borrowing.{handle_mem_retrieve_req, handle_mem_relinquish}
use hypervisor.Ffa.Proxy.Messages.{handle_msg_send2}
use hypervisor.Ffa.Proxy.Containment.{IsSafe, SameOutside}
use hypervisor.Ffa.Proxy.Ownership
use hypervisor.Ffa.Proxy.Ownership.{handle_mem_share_or_lend-Outcome}
use hypervisor.Ffa.Proxy.Lifecycle.{
  IsRetrieve, IsRelinquish, IsReclaim, handle_mem_retrieve_req-IsRetrieve,
  handle_mem_relinquish-IsRelinquish, handle_mem_reclaim-IsReclaim,
}
use hypervisor.Ffa.Proxy.Calls.{IsDelivery, handle_msg_send2-IsDelivery}
use hypervisor.Ffa.Proxy.History.{Event, call_from, guest_store, history, history-IsSafe}

abbrev mapped_at : ℕ → FfaMailbox
mapped_at tx = record new { tx_ipa = tx; rx_ipa = tx + 4096; page_count = 1; mapped = true }

-- VM 0 has shared one page with VM 1, under the handle 1.
abbrev one_share : Spmc
one_share = (record_share init 1 2 ((0x48000000, 1) ∷ []) 1 false).0

one_share-IsValid : Spec.IsValid one_share
unfolding init
one_share-IsValid =
    Spec.record_share-IsValid init 1 2 ((0x48000000, 1) ∷ []) 1 false (omega arith)
      Spec.init-IsValid

-- A message of four bytes from partition 1 to partition 2, at 0x48001000.
abbrev ram : Bytes
ram a =
    if a == 0x48001000
    then 1
    else (if a == 0x48001002 then 2 else (if a == 0x48001004 then 4 else 0))

abbrev proxy : ℕ → Proxy
proxy vm = record {
  vm = vm;
  spmc_present = false;
  boxes = mapped_at 0x48001000 ∷ mapped_at 0x68001000 ∷ new ∷ new ∷ [];
  spmc = one_share;
  notifications = Notifications.init;
  tables = record {
    bump = record { next = 0x10000; end = 0x20000; allocated = 0; free_head = 0 };
    mem = λ a. 0;
  };
  vttbr = 0;
  vm_tables = 0 ∷ 0 ∷ [];
  ram = ram;
}

-- A call on the handle 1.
abbrev regs : ℕ → Regs
regs id = record { x0 = id; x1 = 1; x2 = 0; x3 = 0; x4 = 0; x5 = 0; x6 = 0; x7 = 0 }

proxy-IsSafe : (vm : ℕ) → IsSafe (proxy vm)
unfolding is_guest_ram
proxy-IsSafe vm =
    (λ h. (refl, refl), (λ h. (refl, refl), (λ h. absurd (cc), (λ h. absurd (cc), tt))))

handle_mem_share_or_lend-Outcome_example :
    Ownership.Outcome
      (regs 0x84000073)
      (proxy 0)
      false
      (handle_mem_share_or_lend (regs 0x84000073) (proxy 0) false)
handle_mem_share_or_lend-Outcome_example =
    handle_mem_share_or_lend-Outcome (regs 0x84000073) (proxy 0) false one_share-IsValid

handle_mem_retrieve_req-IsRetrieve_example :
    IsRetrieve (regs 0x84000074) (proxy 1) (handle_mem_retrieve_req (regs 0x84000074) (proxy 1))
handle_mem_retrieve_req-IsRetrieve_example =
    handle_mem_retrieve_req-IsRetrieve (regs 0x84000074) (proxy 1) one_share-IsValid

handle_mem_relinquish-IsRelinquish_example :
    IsRelinquish (regs 0x84000076) (proxy 1) (handle_mem_relinquish (regs 0x84000076) (proxy 1))
handle_mem_relinquish-IsRelinquish_example =
    handle_mem_relinquish-IsRelinquish (regs 0x84000076) (proxy 1) one_share-IsValid

handle_mem_reclaim-IsReclaim_example :
    IsReclaim (regs 0x84000077) (proxy 0) (handle_mem_reclaim (regs 0x84000077) (proxy 0))
handle_mem_reclaim-IsReclaim_example =
    handle_mem_reclaim-IsReclaim (regs 0x84000077) (proxy 0) one_share-IsValid

handle_msg_send2-IsDelivery_example :
    IsDelivery (regs 0x84000086) (proxy 0) (handle_msg_send2 (regs 0x84000086) (proxy 0))
handle_msg_send2-IsDelivery_example = handle_msg_send2-IsDelivery (regs 0x84000086) (proxy 0) refl

stored_in_ram : is_guest_ram 0x48001004 1 ≡ true
unfolding is_guest_ram
stored_in_ram = refl

-- VM 1 asks for the partitions, VM 0 rewrites its message and sends it.
abbrev events : List Event
events =
    call_from 1 0 (regs 0x84000068)
    ∷ guest_store 0x48001004 9 stored_in_ram
    ∷ call_from 0 0 (regs 0x84000086)
    ∷ []

abbrev no_smc : Regs → Regs
no_smc r = r

history-IsSafe_example :
    IsSafe (history no_smc (proxy 0) events)
    × SameOutside (proxy 0).ram (history no_smc (proxy 0) events).ram
history-IsSafe_example = history-IsSafe no_smc (proxy 0) events (proxy-IsSafe 0)
