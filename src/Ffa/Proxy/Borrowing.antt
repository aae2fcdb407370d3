-- ===== src/Ffa/Proxy/Borrowing.antt =====
-- src/ffa/proxy.rs: FFA_MEM_RETRIEVE_REQ and FFA_MEM_RELINQUISH, the calls of a receiver.
use hypervisor.Prelude.{
  ℕ, Bool, true, false, not, ◌||◌, Option, none, some, List, [], ◌∷◌, ◌++◌, get_or, take, ◌==◌,
  if◌then◌else◌, ok, err,
}
use hypervisor.Mm.Allocator.{Heap}
use hypervisor.Ffa.Ids.{invalid_parameters, denied, is_vm_partition, partition_id_to_vm_id}
use hypervisor.Ffa.Memory.{shared_borrowed, to_bits}
use hypervisor.Ffa.Stage2Walker.{Outcome}
use hypervisor.Ffa.Stage2Walker.MapPage.{map_page, unmap_page}
use hypervisor.Ffa.StubSpmc.{ShareInfo, lookup_share_full, mark_retrieved, mark_relinquished}
use hypervisor.Ffa.Proxy.State.{
  Regs, Proxy, Reply, fail, succeed, caller, request_handle, reply_handle, pages,
}
use hypervisor.Ffa.Proxy.Sharing.{s2ap_rw}

-- The level 0 table of the VM with a partition ID, 0 if there is none.
unfoldable pub receiver_table : Proxy → ℕ → ℕ
receiver_table s part = elim (partition_id_to_vm_id part) [
  | none ↦ 0
  | some vm ↦ get_or s.vm_tables vm 0
]

-- Unmap each page, errors ignored.
unfoldable pub unmap_pages : Heap → ℕ → List ℕ → Heap
unmap_pages h l0 [] = h
unmap_pages h l0 (p ∷ ps) = unmap_pages (unmap_page h l0 p).0 l0 ps

abbrev pub or_roll_back : Outcome → ℕ → List ℕ → Heap × Bool → Heap × Bool
or_roll_back (h, err e) l0 done rest = (unmap_pages h l0 done, false)
or_roll_back (h, ok u) l0 done rest = rest

-- Map each page; at the first error, unmap those already mapped.
unfoldable pub map_pages : Heap → ℕ → List ℕ → List ℕ → Heap × Bool
unfolding unmap_pages
map_pages h l0 done [] = (h, true)
map_pages h l0 done (p ∷ ps) =
    let mapped = map_page h l0 p s2ap_rw (to_bits shared_borrowed) in
    or_roll_back mapped l0 done (map_pages mapped.0 l0 (done ++ p ∷ []) ps)

abbrev pub info_pages : ShareInfo → List ℕ
info_pages i = pages (take i.range_count i.ranges)

unfoldable pub map_for_receiver : Proxy → ShareInfo → Heap × Bool
unfolding map_pages
map_for_receiver s i =
    let l0 = receiver_table s i.receiver_id in
    if not (is_vm_partition i.receiver_id) || l0 == 0
    then (s.tables, true)
    else map_pages s.tables l0 [] (info_pages i)

unfoldable pub unmap_for_receiver : Proxy → ShareInfo → Heap
unmap_for_receiver s i =
    let l0 = receiver_table s i.receiver_id in
    if not (is_vm_partition i.receiver_id) || l0 == 0
    then s.tables
    else unmap_pages s.tables l0 (info_pages i)

abbrev pub retrieve_mapped : Regs → Proxy → Heap × Bool → Reply
retrieve_mapped r s (h, b) = if not b then fail r (record s { tables = h }) denied else (
  reply_handle (record r { x0 = 0x84000075; x1 = 0 }) (request_handle r),
  record s { tables = h; spmc = (mark_retrieved s.spmc (request_handle r)).0 },
)

abbrev pub retrieve_found : Regs → Proxy → Option ShareInfo → Reply
retrieve_found r s none = fail r s invalid_parameters
retrieve_found r s (some i) =
    if not (caller s == i.receiver_id)
    then fail r s denied
    else (if i.retrieved then fail r s denied else retrieve_mapped r s (map_for_receiver s i))

unfoldable pub handle_mem_retrieve_req : Regs → Proxy → Reply
unfolding map_for_receiver
handle_mem_retrieve_req r s = retrieve_found r s (lookup_share_full s.spmc (request_handle r))

abbrev pub relinquish_found : Regs → Proxy → Option ShareInfo → Reply
relinquish_found r s none = fail r s invalid_parameters
relinquish_found r s (some i) =
    if not (caller s == i.receiver_id)
    then fail r s denied
    else (if not i.retrieved then fail r s denied else (
      succeed r,
      record s {
        tables = unmap_for_receiver s i;
        spmc = (mark_relinquished s.spmc (request_handle r)).0;
      },
    ))

unfoldable pub handle_mem_relinquish : Regs → Proxy → Reply
unfolding unmap_for_receiver
handle_mem_relinquish r s = relinquish_found r s (lookup_share_full s.spmc (request_handle r))
