-- ===== src/Ffa/Proxy/Sharing.antt =====
-- src/ffa/proxy.rs: FFA_MEM_SHARE, FFA_MEM_LEND and FFA_MEM_RECLAIM.
use hypervisor.Prelude.{
  ℕ, ◌%◌, ◌^◌, Bool, ◌&&◌, ◌||◌, not, Option, none, some, List, [], ◌∷◌, take, ◌==◌, if◌then◌else◌,
  Result, ok, err,
}
use hypervisor.Mm.Words.{Memory}
use hypervisor.Mm.Allocator.{Heap}
use hypervisor.Ffa.Ids.{FfaError, invalid_parameters, denied, no_memory, is_vm_partition}
use hypervisor.Ffa.Memory.{owned, shared_owned, to_bits, validate_page_for_share}
use hypervisor.Ffa.Stage2Walker.{read_sw_bits, write_sw_bits, set_s2ap}
use hypervisor.Ffa.StubSpmc.{
  Range, Spmc, ShareInfo, is_valid_sp, record_share, lookup_share_full, reclaim_share,
}
use hypervisor.Ffa.Mailbox.{FfaMailbox}
use hypervisor.Ffa.Descriptors.{ParsedMemRegion, parse_mem_region}
use hypervisor.Ffa.Proxy.State.{
  Regs, Proxy, Reply, fail, succeed, get_mailbox, caller, request_handle, reply_handle, pages,
}

-- What both interfaces of a request give: sender 0 is none given.
pub record Request : Type 0 where
  pub sender : ℕ
  pub receiver : ℕ
  pub ranges : List Range
  pub page_count : ℕ

abbrev pub of_region : Result FfaError ParsedMemRegion → Result FfaError Request
of_region (err e) = err e
of_region (ok p) = ok (record {
  sender = p.sender_id;
  receiver = p.receiver_id;
  ranges = p.ranges;
  page_count = p.total_page_count;
})

unfoldable pub parse_share_descriptor : Regs → FfaMailbox → Proxy → Result FfaError Request
parse_share_descriptor r b s =
    let total = r.x1 % 2 ^ 32 in
    if not (total == r.x2 % 2 ^ 32) || total == 0
    then err invalid_parameters
    else of_region (parse_mem_region s.ram b.tx_ipa total)

unfoldable pub register_request : Regs → Result FfaError Request
register_request r =
    let n = r.x4 % 2 ^ 32 in
    if n == 0
    then err invalid_parameters
    else ok
        (record { sender = 0; receiver = r.x5 % 2 ^ 16; ranges = (r.x3, n) ∷ []; page_count = n })

unfoldable pub share_request : Regs → Proxy → Result FfaError Request
unfolding parse_share_descriptor register_request
share_request r s =
    let b = get_mailbox s s.vm in
    if b.mapped then parse_share_descriptor r b s else register_request r

unfoldable pub is_valid_receiver : ℕ → Bool
is_valid_receiver part = is_vm_partition part || is_valid_sp part

abbrev pub validate_bits : Option ℕ → Result FfaError (Unit {0})
validate_bits none = err denied
validate_bits (some sw) = validate_page_for_share sw

abbrev pub and_then :
    Result FfaError (Unit {0}) → Result FfaError (Unit {0}) → Result FfaError (Unit {0})
and_then (err e) rest = err e
and_then (ok u) rest = rest

-- The loop that validates each page; it stops at the first error.
unfoldable pub validate_pages : Memory → ℕ → List ℕ → Result FfaError (Unit {0})
validate_pages m l0 [] = ok tt
validate_pages m l0 (p ∷ ps) =
    and_then (validate_bits (read_sw_bits m l0 p)) (validate_pages m l0 ps)

-- The loop that writes ownership and access of each page; the results of the writes are ignored.
unfoldable pub transition_pages : Heap → ℕ → ℕ → ℕ → List ℕ → Heap
transition_pages h l0 sw s2ap [] = h
transition_pages h l0 sw s2ap (p ∷ ps) =
    let h1 = (write_sw_bits h l0 p sw).0 in
    let h2 = (set_s2ap h1 l0 p s2ap).0 in transition_pages h2 l0 sw s2ap ps

abbrev pub check_ownership : Proxy → List ℕ → Result FfaError (Unit {0})
check_ownership s ps = if s.vttbr == 0 then ok tt else validate_pages s.tables.mem s.vttbr ps

unfoldable pub set_ownership : Proxy → ℕ → ℕ → List ℕ → Proxy
unfolding transition_pages
set_ownership s sw s2ap ps =
    if s.vttbr == 0 then s else record s { tables = transition_pages s.tables s.vttbr sw s2ap ps }

abbrev pub s2ap_none : ℕ
s2ap_none = 0

abbrev pub s2ap_ro : ℕ
s2ap_ro = 1

abbrev pub s2ap_rw : ℕ
s2ap_rw = 3

abbrev pub reply_share : Regs → Proxy → Spmc × Option ℕ → Reply
reply_share r s (spmc, none) = fail r (record s { spmc = spmc }) no_memory
reply_share r s (spmc, some h) = (reply_handle (succeed r) h, record s { spmc = spmc })

-- The part of the call behind all checks.
unfoldable pub share_pages : Regs → Proxy → Request → Bool → Reply
unfolding set_ownership
share_pages r s q lend =
    let s1 =
      set_ownership s (to_bits shared_owned) (if lend then s2ap_none else s2ap_ro)
        (pages q.ranges) in
    reply_share r s1 (record_share s1.spmc (caller s) q.receiver q.ranges q.page_count lend)

abbrev pub share_owned : Regs → Proxy → Request → Bool → Result FfaError (Unit {0}) → Reply
share_owned r s q lend (err e) = fail r s e
share_owned r s q lend (ok u) = share_pages r s q lend

unfoldable pub share_checked : Regs → Proxy → Request → Bool → Reply
unfolding share_pages
share_checked r s q lend =
    if not (is_valid_receiver q.receiver)
    then fail r s invalid_parameters
    else (if not (q.sender == 0) && not (q.sender == caller s)
        then fail r s invalid_parameters
        else share_owned r s q lend (check_ownership s (pages q.ranges)))

abbrev pub share_parsed : Regs → Proxy → Bool → Result FfaError Request → Reply
share_parsed r s lend (err e) = fail r s e
share_parsed r s lend (ok q) = share_checked r s q lend

-- FFA_MEM_SHARE with `false`, FFA_MEM_LEND with `true`.
unfoldable pub handle_mem_share_or_lend : Regs → Proxy → Bool → Reply
unfolding share_checked
handle_mem_share_or_lend r s lend = share_parsed r s lend (share_request r s)

abbrev pub reclaim_found : Regs → Proxy → Option ShareInfo → Reply
reclaim_found r s none = fail r s invalid_parameters
reclaim_found r s (some i) =
    if i.retrieved
    then fail r s denied
    else (let s1 = set_ownership s (to_bits owned) s2ap_rw (pages (take i.range_count i.ranges)) in
        (succeed r, record s1 { spmc = (reclaim_share s1.spmc (request_handle r)).0 }))

unfoldable pub handle_mem_reclaim : Regs → Proxy → Reply
handle_mem_reclaim r s = reclaim_found r s (lookup_share_full s.spmc (request_handle r))
