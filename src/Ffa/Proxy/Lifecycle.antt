-- ===== src/Ffa/Proxy/Lifecycle.antt =====
-- src/ffa/proxy.rs: the life of a share, from retrieve over relinquish to reclaim.
use hypervisor.Prelude.{
  ℕ, ◌≡◌, refl, arith, Bool, true, false, Option, none, some, Bool-cases, ◌==◌, ◌⊎◌, inl, inr,
  if◌then◌else◌, List, take,
}
use hypervisor.Mm.Allocator.{Heap}
use hypervisor.Ffa.Ids.{FfaError, denied, invalid_parameters}
use hypervisor.Ffa.Memory.{owned, to_bits}
use hypervisor.Ffa.StubSpmc.{ShareInfo, reclaim_share}
use hypervisor.Ffa.StubSpmc.Spec
use hypervisor.Ffa.StubSpmc.Spec.{shares, retrieve_info, updates-shares}
use hypervisor.Ffa.Proxy.State.{
  Regs, Proxy, Reply, ffa_error, ffa_success, caller, request_handle, reply_handle, pages,
}
use hypervisor.Ffa.Proxy.Sharing.{set_ownership, s2ap_rw, reclaim_found, handle_mem_reclaim}
use hypervisor.Ffa.Proxy.Borrowing.{
  map_for_receiver, retrieve_mapped, retrieve_found, handle_mem_retrieve_req, relinquish_found,
  handle_mem_relinquish,
}
use hypervisor.Ffa.Proxy.Ownership.{Refused, set_ownership-spmc}

-- An error that leaves everything but the page tables as it was.
abbrev pub RolledBack : Regs → Proxy → Reply → Type 0
RolledBack r s out =
    (e : FfaError) × ((out.0 ≡ ffa_error r e) × (out.1 ≡ record s { tables = out.1.tables }))

-- The request names a share with this `retrieved` flag; the reply has this x0; the share table has
-- changed at the handle of the request only, by this function.
pub record Moved (was : Bool) (x0 : ℕ) (f : Option ShareInfo → Option ShareInfo) (r : Regs)
    (s : Proxy) (out : Reply) (i : ShareInfo) : Type 0 where
  pub found : shares s.spmc (request_handle r) ≡ some i
  pub flag : i.retrieved ≡ was
  pub replied : out.0.x0 ≡ x0
  pub table :
      (j : ℕ)
      → shares out.1.spmc j
        ≡ (if request_handle r == j then f (shares s.spmc j) else shares s.spmc j)

abbrev pub IsRetrieve : Regs → Proxy → Reply → Type 0
IsRetrieve r s out =
    RolledBack r s out
    ⊎ ((i : ShareInfo) × ((caller s ≡ i.receiver_id)
          × Moved false 0x84000075 (retrieve_info true) r s out i))

abbrev pub IsRelinquish : Regs → Proxy → Reply → Type 0
IsRelinquish r s out =
    Refused r s out
    ⊎ ((i : ShareInfo) × ((caller s ≡ i.receiver_id)
          × Moved true ffa_success (retrieve_info false) r s out i))

abbrev pub IsReclaim : Regs → Proxy → Reply → Type 0
IsReclaim r s out =
    Refused r s out ⊎ ((i : ShareInfo) × Moved false ffa_success (λ o. none) r s out i)

retrieve_mapped-IsRetrieve :
    (r : Regs) (s : Proxy) (i : ShareInfo) (o : Heap × Bool)
    → Spec.IsValid s.spmc
    → shares s.spmc (request_handle r) ≡ some i
    → caller s ≡ i.receiver_id
    → i.retrieved ≡ false
    → IsRetrieve r s (retrieve_mapped r s o)
unfolding reply_handle
retrieve_mapped-IsRetrieve r s i (h, false) v f c n = inl (denied, (refl, refl))
retrieve_mapped-IsRetrieve r s i (h, true) v f c n = inr (
  i,
  (
    c,
    record {
      found = f;
      flag = n;
      replied = refl;
      table = λ j. (updates-shares s.spmc (request_handle r) j v).0;
    },
  ),
)

retrieve_found-IsRetrieve :
    (r : Regs) (s : Proxy) (o : Option ShareInfo)
    → Spec.IsValid s.spmc
    → shares s.spmc (request_handle r) ≡ o
    → IsRetrieve r s (retrieve_found r s o)
retrieve_found-IsRetrieve r s none v f = inl (invalid_parameters, (refl, refl))
retrieve_found-IsRetrieve r s (some i) v f = elim (Bool-cases (caller s == i.receiver_id)) [
  | inr c ↦ rw c (inl (denied, (refl, refl)))
  | inl c ↦ elim (Bool-cases i.retrieved) [
    | inl n ↦ simp (c, n) (inl (denied, (refl, refl)))
    | inr n ↦
        simp (c, n)
          (retrieve_mapped-IsRetrieve r s i (map_for_receiver s i) v f (ground (arith, c)) n)
  ]
]

-- FFA_MEM_RETRIEVE_REQ either fails with nothing but page tables changed, or the handle names a
-- share that was made for the calling VM and not retrieved yet, and the one change of the share
-- table is that it now counts as retrieved. The share table is assumed valid.
pub handle_mem_retrieve_req-IsRetrieve :
    (r : Regs) (s : Proxy) → Spec.IsValid s.spmc → IsRetrieve r s (handle_mem_retrieve_req r s)
unfolding handle_mem_retrieve_req
handle_mem_retrieve_req-IsRetrieve r s v =
    retrieve_found-IsRetrieve r s (shares s.spmc (request_handle r)) v refl

relinquish_found-IsRelinquish :
    (r : Regs) (s : Proxy) (o : Option ShareInfo)
    → Spec.IsValid s.spmc
    → shares s.spmc (request_handle r) ≡ o
    → IsRelinquish r s (relinquish_found r s o)
relinquish_found-IsRelinquish r s none v f = inl (invalid_parameters, refl)
relinquish_found-IsRelinquish r s (some i) v f = elim (Bool-cases (caller s == i.receiver_id)) [
  | inr c ↦ rw c (inl (denied, refl))
  | inl c ↦ elim (Bool-cases i.retrieved) [
    | inr n ↦ simp (c, n) (inl (denied, refl))
    | inl n ↦
        simp (c, n)
          (inr (
            i,
            (
              ground (arith, c),
              record {
                found = f;
                flag = n;
                replied = refl;
                table = λ j. (updates-shares s.spmc (request_handle r) j v).1;
              },
            ),
          ))
  ]
]

-- FFA_MEM_RELINQUISH either fails with nothing changed, or the handle names a share that was made
-- for the calling VM and is retrieved, and the one change of the share table is that it no longer
-- counts as retrieved. The share table is assumed valid.
pub handle_mem_relinquish-IsRelinquish :
    (r : Regs) (s : Proxy) → Spec.IsValid s.spmc → IsRelinquish r s (handle_mem_relinquish r s)
unfolding handle_mem_relinquish
handle_mem_relinquish-IsRelinquish r s v =
    relinquish_found-IsRelinquish r s (shares s.spmc (request_handle r)) v refl

reclaim_table :
    (s : Proxy) (h sw s2ap : ℕ) (ps : List ℕ) (j : ℕ)
    → Spec.IsValid s.spmc
    → shares (reclaim_share (set_ownership s sw s2ap ps).spmc h).0 j
      ≡ (if h == j then none else shares s.spmc j)
reclaim_table s h sw s2ap ps j v =
    rw (set_ownership-spmc s sw s2ap ps) ((updates-shares s.spmc h j v).2)

reclaim_found-IsReclaim :
    (r : Regs) (s : Proxy) (o : Option ShareInfo)
    → Spec.IsValid s.spmc
    → shares s.spmc (request_handle r) ≡ o
    → IsReclaim r s (reclaim_found r s o)
reclaim_found-IsReclaim r s none v f = inl (invalid_parameters, refl)
reclaim_found-IsReclaim r s (some i) v f = elim (Bool-cases i.retrieved) [
  | inl n ↦ simp n (inl (denied, refl))
  | inr n ↦ simp n (
      inr (
        i,
        record {
          found = f;
          flag = n;
          replied = refl;
          table = λ j.
              reclaim_table s (request_handle r) (to_bits owned) s2ap_rw
                (pages (take i.range_count i.ranges)) j v;
        },
      ))
]

-- FFA_MEM_RECLAIM either fails with nothing changed, or the handle names a share that nobody has
-- retrieved, and the one change of the share table is that this share is gone. The share table is
-- assumed valid.
pub handle_mem_reclaim-IsReclaim :
    (r : Regs) (s : Proxy) → Spec.IsValid s.spmc → IsReclaim r s (handle_mem_reclaim r s)
unfolding handle_mem_reclaim
handle_mem_reclaim-IsReclaim r s v =
    reclaim_found-IsReclaim r s (shares s.spmc (request_handle r)) v refl
