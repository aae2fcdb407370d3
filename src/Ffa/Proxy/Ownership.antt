-- ===== src/Ffa/Proxy/Ownership.antt =====
-- src/ffa/proxy.rs: the outcomes of FFA_MEM_SHARE and FFA_MEM_LEND.
use hypervisor.Prelude.{
  ℕ, ◌%◌, ◌≡◌, ◌≢◌, ◌⊎◌, inl, inr, refl, ◌∙◌, sym, ap, subst, arith, Bool, true, false, not, ◌&&◌,
  Option, none, some, List, [], ◌∷◌, All, Bool-cases, ◌==◌, if◌then◌else◌, Result, ok, err,
}
use hypervisor.Mm.Words.{Memory}
use hypervisor.Ffa.Ids.{FfaError, no_memory, invalid_parameters}
use hypervisor.Ffa.Memory.{shared_owned, to_bits, validate_page_for_share_lem}
use hypervisor.Ffa.Stage2Walker.{read_sw_bits}
use hypervisor.Ffa.StubSpmc.{Share, Spmc, record_share}
use hypervisor.Ffa.StubSpmc.Spec
use hypervisor.Ffa.StubSpmc.Spec.{shares, new_info, record_share-shares}
use hypervisor.Ffa.Proxy.State.{Regs, Proxy, Reply, ffa_error, succeed, caller, reply_handle, pages}
use hypervisor.Ffa.Proxy.Sharing.{
  Request, share_request, is_valid_receiver, validate_bits, and_then, validate_pages,
  check_ownership, set_ownership, s2ap_none, s2ap_ro, reply_share, share_pages, share_owned,
  share_checked, share_parsed, handle_mem_share_or_lend,
}

-- The page is mapped, and its ownership bits say owned.
abbrev pub IsOwned : Memory → ℕ → ℕ → Type 0
IsOwned m l0 p = (sw : ℕ) × ((read_sw_bits m l0 p ≡ some sw) × (sw % 4 ≡ 0))

validate_bits-owned :
    (o : Option ℕ) → validate_bits o ≡ ok tt → (sw : ℕ) × ((o ≡ some sw) × (sw % 4 ≡ 0))
validate_bits-owned none h = absurd (cc)
validate_bits-owned (some sw) h = (sw, (refl, (validate_page_for_share_lem sw).0 h))

and_then-ok : (a b : Result FfaError (Unit {0})) → and_then a b ≡ ok tt → (a ≡ ok tt) × (b ≡ ok tt)
and_then-ok (err e) b h = absurd (cc)
and_then-ok (ok u) b h = (refl, h)

validate_pages-IsOwned :
    (m : Memory) (l0 : ℕ) (ps : List ℕ) → validate_pages m l0 ps ≡ ok tt → All (IsOwned m l0) ps
unfolding validate_pages
validate_pages-IsOwned m l0 [] h = tt
validate_pages-IsOwned m l0 (p ∷ ps) h =
    let both = and_then-ok (validate_bits (read_sw_bits m l0 p)) (validate_pages m l0 ps) h in
    (validate_bits-owned (read_sw_bits m l0 p) both.0, validate_pages-IsOwned m l0 ps both.1)

check_ownership-IsOwned :
    (s : Proxy) (ps : List ℕ)
    → check_ownership s ps ≡ ok tt
    → s.vttbr ≢ 0
    → All (IsOwned s.tables.mem s.vttbr) ps
check_ownership-IsOwned s ps h n =
    validate_pages-IsOwned s.tables.mem s.vttbr ps (ground (arith, h, n))

pub set_ownership-spmc :
    (s : Proxy) (sw s2ap : ℕ) (ps : List ℕ) → (set_ownership s sw s2ap ps).spmc ≡ s.spmc
unfolding set_ownership
set_ownership-spmc s sw s2ap ps = elim (Bool-cases (s.vttbr == 0)) [
  | inl e ↦ rw e refl
  | inr e ↦ rw e refl
]

-- The call hands out the next handle, under which the table now has the request with the first four
-- of its ranges, sent by the caller; or every record is in use, the reply is NO_MEMORY, and the table is as before.
abbrev pub Recorded : Regs → Proxy → Request → Bool → Reply → Type 0
Recorded r s q lend out =
    ((out.0 ≡ reply_handle (succeed r) s.spmc.next_handle)
      × ((j : ℕ)
          → shares out.1.spmc j ≡ (
              if s.spmc.next_handle == j
              then some (new_info (caller s) q.receiver q.ranges q.page_count lend)
              else shares s.spmc j)))
    ⊎ ((out.0 ≡ ffa_error r no_memory)
        × All (λ (c : Share). c.active ≡ true) s.spmc.records
        × ((j : ℕ) → shares out.1.spmc j ≡ shares s.spmc j))

pub record Granted (r : Regs) (s : Proxy) (lend : Bool) (out : Reply) (q : Request) : Type 0 where
  pub requested : share_request r s ≡ ok q
  pub receiver_valid : is_valid_receiver q.receiver ≡ true
  pub sender_valid : (q.sender ≡ 0) ⊎ (q.sender ≡ caller s)
  pub owned_pages : s.vttbr ≢ 0 → All (IsOwned s.tables.mem s.vttbr) (pages q.ranges)
  pub recorded : Recorded r s q lend out

-- An error that leaves the proxy, its tables and the guests' memory as they were.
abbrev pub Refused : Regs → Proxy → Reply → Type 0
Refused r s out = (e : FfaError) × (out ≡ (ffa_error r e, s))

abbrev pub Outcome : Regs → Proxy → Bool → Reply → Type 0
Outcome r s lend out = Refused r s out ⊎ ((q : Request) × Granted r s lend out q)

reply_share-some :
    (r : Regs) (s : Proxy) (o : Spmc × Option ℕ) (h : ℕ)
    → o.1 ≡ some h
    → reply_share r s o ≡ (reply_handle (succeed r) h, record s { spmc = o.0 })
reply_share-some r s (spmc, none) h e = absurd (cc)
reply_share-some r s (spmc, some v) h e = cc

reply_share-none :
    (r : Regs) (s : Proxy) (o : Spmc × Option ℕ)
    → o.1 ≡ none
    → reply_share r s o ≡ (ffa_error r no_memory, record s { spmc = o.0 })
reply_share-none r s (spmc, none) e = refl
reply_share-none r s (spmc, some v) e = absurd (cc)

reply_share-Recorded :
    (r : Regs) (s s1 : Proxy) (q : Request) (lend : Bool)
    → Spec.IsValid s.spmc
    → Recorded r s q lend
        (reply_share r s1 (record_share s.spmc (caller s) q.receiver q.ranges q.page_count lend))
reply_share-Recorded r s s1 q lend v =
    let o = record_share s.spmc (caller s) q.receiver q.ranges q.page_count lend in
    elim (record_share-shares s.spmc (caller s) q.receiver q.ranges q.page_count lend v) [
      | inl (e, table) ↦ inl (
        ap (λ out. out.0) (reply_share-some r s1 o s.spmc.next_handle e),
        λ j.
            ap (λ (out : Reply). shares out.1.spmc j) (reply_share-some r s1 o s.spmc.next_handle e)
            ∙ table j,
      )
      | inr (e, full, table) ↦ inr (
        ap (λ out. out.0) (reply_share-none r s1 o e),
        full,
        λ j. ap (λ (out : Reply). shares out.1.spmc j) (reply_share-none r s1 o e) ∙ table j,
      )
    ]

share_pages-Recorded :
    (r : Regs) (s : Proxy) (q : Request) (lend : Bool)
    → Spec.IsValid s.spmc
    → Recorded r s q lend (share_pages r s q lend)
unfolding share_pages
share_pages-Recorded r s q lend v =
    let s1 =
      set_ownership s (to_bits shared_owned) (if lend then s2ap_none else s2ap_ro)
        (pages q.ranges) in
    subst
      (λ spmc.
        Recorded r s q lend
          (reply_share r s1 (record_share spmc (caller s) q.receiver q.ranges q.page_count lend)))
      (sym (
        set_ownership-spmc s (to_bits shared_owned) (if lend then s2ap_none else s2ap_ro)
          (pages q.ranges)))
      (reply_share-Recorded r s s1 q lend v)

share_owned-Outcome :
    (r : Regs) (s : Proxy) (q : Request) (lend : Bool) (o : Result FfaError (Unit {0}))
    → Spec.IsValid s.spmc
    → share_request r s ≡ ok q
    → is_valid_receiver q.receiver ≡ true
    → (q.sender ≡ 0) ⊎ (q.sender ≡ caller s)
    → (o ≡ ok tt → s.vttbr ≢ 0 → All (IsOwned s.tables.mem s.vttbr) (pages q.ranges))
    → Outcome r s lend (share_owned r s q lend o)
share_owned-Outcome r s q lend (err e) v a b c d = inl (e, refl)
share_owned-Outcome r s q lend (ok u) v a b c d = inr (
  q,
  record {
    requested = a;
    receiver_valid = b;
    sender_valid = c;
    owned_pages = d refl;
    recorded = share_pages-Recorded r s q lend v;
  },
)

-- A test with an error on one side.
if-Outcome :
    (r : Regs) (s : Proxy) (lend c : Bool) (e : FfaError) (out : Reply)
    → (c ≡ false → Outcome r s lend out)
    → Outcome r s lend (if c then (ffa_error r e, s) else out)
if-Outcome r s lend true e out f = inl (e, refl)
if-Outcome r s lend false e out f = f refl

share_parsed-Outcome :
    (r : Regs) (s : Proxy) (lend : Bool) (o : Result FfaError Request)
    → Spec.IsValid s.spmc
    → share_request r s ≡ o
    → Outcome r s lend (share_parsed r s lend o)
unfolding share_checked
share_parsed-Outcome r s lend (err e) v h = inl (e, refl)
share_parsed-Outcome r s lend (ok q) v h =
    if-Outcome r s lend (not (is_valid_receiver q.receiver)) invalid_parameters _ λ a.
      if-Outcome r s lend (not (q.sender == 0) && not (q.sender == caller s)) invalid_parameters _
        λ b.
          share_owned-Outcome r s q lend (check_ownership s (pages q.ranges)) v h
            (ground (arith, a)) (sender_cases b) (check_ownership-IsOwned s (pages q.ranges))
  where
    sender_cases :
        (not (q.sender == 0) && not (q.sender == caller s)) ≡ false
        → (q.sender ≡ 0) ⊎ (q.sender ≡ caller s)
    sender_cases b = ground (arith, b)

-- FFA_MEM_SHARE and FFA_MEM_LEND either refuse, and then nothing has changed, or every check has
-- passed: the receiver is known, the sender is the caller, and where there is Stage-2 the caller
-- owned every page. Then the share table has, under the handle of the reply, the request of the caller
-- to the receiver with the first four of its ranges, and is otherwise as before; or it was full, and
-- the reply is NO_MEMORY. The share table is assumed valid.
pub handle_mem_share_or_lend-Outcome :
    (r : Regs) (s : Proxy) (lend : Bool)
    → Spec.IsValid s.spmc
    → Outcome r s lend (handle_mem_share_or_lend r s lend)
unfolding handle_mem_share_or_lend
handle_mem_share_or_lend-Outcome r s lend v =
    share_parsed-Outcome r s lend (share_request r s) v refl
