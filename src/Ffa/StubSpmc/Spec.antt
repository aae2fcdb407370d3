-- ===== src/Ffa/StubSpmc/Spec.antt =====
-- src/ffa/stub_spmc.rs: the view of the share records as a map from handles to shares.
use hypervisor.Prelude.{
  update_first, length-update_first, ℕ, zero, suc, ◌+◌, ◌<◌, ◌≤◌, ◌≡◌, ◌≢◌, refl, ap, arith, ◌^◌,
  Bool, true, false, ◌&&◌, not, Option, none, some, List, [], ◌∷◌, All, length, ◌==◌, if◌then◌else◌,
  inl, inr, ◌⊎◌, Bool-cases, ◌∙◌, subst, replicate, get_or, ltb, min,
}
use hypervisor.Ffa.StubSpmc.{
  Share, Spmc, ShareInfo, Range, info, empty_share, max_shares, holds, init, new_share,
  stored_ranges, record_share, find_share, lookup_share_full, mark_retrieved, mark_relinquished,
  reclaim_share,
}

-- No active record of the list has the handle.
abbrev pub Unused : ℕ → List Share → Type 0
Unused h = All (λ r. holds h r ≡ false)

-- The active records have distinct handles, all below `n`.
abbrev pub Distinct : ℕ → List Share → Type 0
Distinct n [] = Unit {0}
Distinct n (r ∷ rs) = (r.active ≡ true → (r.handle < n) × Unused r.handle rs) × Distinct n rs

pub record IsValid (s : Spmc) : Type 0 where
  pub slots : length s.records ≡ max_shares
  pub distinct : Distinct s.next_handle s.records

find_share-Unused : (h : ℕ) (rs : List Share) → Unused h rs → find_share h rs ≡ none
unfolding find_share
find_share-Unused h [] u = refl
find_share-Unused h (r ∷ rs) u = ground (arith, find_share-Unused h rs u.1)

Unused-Distinct : (n h : ℕ) (rs : List Share) → Distinct n rs → n ≤ h → Unused h rs
Unused-Distinct n h [] d l = tt
Unused-Distinct n h (r ∷ rs) d l = (ground (arith, d.0), Unused-Distinct n h rs d.1 l)

Distinct-suc : (n : ℕ) (rs : List Share) → Distinct n rs → Distinct (n + 1) rs
Distinct-suc n [] d = tt
Distinct-suc n (r ∷ rs) d = (λ e. (omega (arith, (d.0 e).0), (d.0 e).1), Distinct-suc n rs d.1)

abbrev pub retrieve_info : Bool → Option ShareInfo → Option ShareInfo
retrieve_info b none = none
retrieve_info b (some i) = some (record i { retrieved = b })

-- `mark_retrieved` sets the flag of the share that the handle names, and of no other.
find-retrieved :
    (h j : ℕ) (rs : List Share)
    → find_share j
        (update_first (λ r. holds h r && not r.retrieved) (λ r. record r { retrieved = true }) rs).0
      ≡ (if h == j then retrieve_info true (find_share j rs) else find_share j rs)
unfolding find_share update_first
find-retrieved h j [] = ground arith
find-retrieved h j (r ∷ rs) = ground (arith, find-retrieved h j rs)

find-relinquished :
    (h j : ℕ) (rs : List Share)
    → find_share j
        (update_first (λ r. holds h r && r.retrieved) (λ r. record r { retrieved = false }) rs).0
      ≡ (if h == j then retrieve_info false (find_share j rs) else find_share j rs)
unfolding find_share update_first
find-relinquished h j [] = ground arith
find-relinquished h j (r ∷ rs) = ground (arith, find-relinquished h j rs)

find-reclaimed :
    (n h j : ℕ) (rs : List Share)
    → Distinct n rs
    → find_share j (update_first (holds h) (λ r. record r { active = false }) rs).0
      ≡ (if h == j then none else find_share j rs)
unfolding find_share update_first
find-reclaimed n h j [] d = ground arith
find-reclaimed n h j (r ∷ rs) d =
    ground (arith, find-reclaimed n h j rs d.1, d.0, find_share-Unused r.handle rs)

module _ (p : Share → Bool) (f : Share → Share) where
  -- A change that keeps a record's handle and makes none active keeps handles unused.
  Unused-update_first :
      (h : ℕ) (rs : List Share)
      → ((r : Share) → holds h r ≡ false → holds h (f r) ≡ false)
      → Unused h rs
      → Unused h (update_first p f rs).0
  unfolding update_first
  Unused-update_first h [] k u = tt
  Unused-update_first h (r ∷ rs) k u = ground (arith, Unused-update_first h rs k u.1, k r u.0, u)

  Distinct-update_first :
      (n : ℕ) (rs : List Share)
      → ((h : ℕ) (r : Share) → holds h r ≡ false → holds h (f r) ≡ false)
      → ((r : Share) → (f r).active ≡ true → (r.active ≡ true) × ((f r).handle ≡ r.handle))
      → Distinct n rs
      → Distinct n (update_first p f rs).0
  unfolding update_first
  Distinct-update_first n [] k l d = tt
  Distinct-update_first n (r ∷ rs) k l d = ground (
    arith,
    Distinct-update_first n rs k l d.1,
    l r,
    d,
    ap (λ h. Unused h rs) {x = (f r).handle} {y = r.handle},
    Unused-update_first r.handle rs (k r.handle),
  )

  update_first-found :
      (rs : List Share) → (update_first p f rs).1 ≡ true ⊎ All (λ r. p r ≡ false) rs
  unfolding update_first
  update_first-found [] = inr tt
  update_first-found (r ∷ rs) = ground (arith, update_first-found rs)

module _ (n a b : ℕ) (ranges : List Range) (t : ℕ) (l : Bool) where
  abbrev new : Share
  new = new_share n a b ranges t l

  abbrev fill : List Share → List Share × Bool
  fill = update_first (λ r. not r.active) (λ _. new)

  find-fill :
      (j : ℕ) (rs : List Share)
      → Unused n rs
      → find_share j (fill rs).0 ≡ (
          if (fill rs).1
          then (if n == j then some (info new) else find_share j rs)
          else find_share j rs)
  unfolding find_share update_first
  find-fill j [] u = refl
  find-fill j (r ∷ rs) u = ground (arith, find-fill j rs u.1, u.0)

  Unused-fill : (h : ℕ) (rs : List Share) → n ≢ h → Unused h rs → Unused h (fill rs).0
  unfolding update_first
  Unused-fill h [] k u = tt
  Unused-fill h (r ∷ rs) k u = ground (arith, Unused-fill h rs k u.1, u)

  Distinct-fill : (rs : List Share) → Unused n rs → Distinct n rs → Distinct (n + 1) (fill rs).0
  unfolding update_first
  Distinct-fill [] u d = tt
  Distinct-fill (r ∷ rs) u d =
      ground (arith, Distinct-fill rs u.1 d.1, Distinct-suc n rs d.1, Unused-fill r.handle rs, u, d)

init-Distinct : (n k : ℕ) → Distinct n (replicate k empty_share)
init-Distinct n zero = tt
init-Distinct n (suc k) = (λ e. cc, init-Distinct n k)

pub init-IsValid : IsValid init
unfolding init
init-IsValid = record { slots = refl; distinct = init-Distinct 1 16 }

pub mark_retrieved-IsValid : (s : Spmc) (h : ℕ) → IsValid s → IsValid (mark_retrieved s h).0
unfolding mark_retrieved
mark_retrieved-IsValid s h v = record {
  slots = length-update_first _ _ s.records ∙ v.slots;
  distinct =
      Distinct-update_first _ _ s.next_handle s.records (λ j r e. e) (λ r e. (e, refl)) v.distinct;
}

pub mark_relinquished-IsValid : (s : Spmc) (h : ℕ) → IsValid s → IsValid (mark_relinquished s h).0
unfolding mark_relinquished
mark_relinquished-IsValid s h v = record {
  slots = length-update_first _ _ s.records ∙ v.slots;
  distinct =
      Distinct-update_first _ _ s.next_handle s.records (λ j r e. e) (λ r e. (e, refl)) v.distinct;
}

pub reclaim_share-IsValid : (s : Spmc) (h : ℕ) → IsValid s → IsValid (reclaim_share s h).0
unfolding reclaim_share
reclaim_share-IsValid s h v = record {
  slots = length-update_first _ _ s.records ∙ v.slots;
  distinct =
      Distinct-update_first _ _ s.next_handle s.records (λ j r e. refl) (λ r e. absurd (cc))
        v.distinct;
}

-- While handles of 64 bits last, `record_share` keeps a valid table valid: 16 slots, and distinct
-- handles below the next one in the active ones.
pub record_share-IsValid :
    (s : Spmc) (a b : ℕ) (ranges : List Range) (t : ℕ) (l : Bool)
    → s.next_handle + 1 < 2 ^ 64
    → IsValid s
    → IsValid (record_share s a b ranges t l).0
unfolding record_share
record_share-IsValid s a b ranges t l w v = record {
  slots = length-update_first _ _ s.records ∙ v.slots;
  distinct =
      subst (λ k. Distinct k (fill s.next_handle a b ranges t l s.records).0) (omega arith)
        (Distinct-fill s.next_handle a b ranges t l s.records
          (Unused-Distinct s.next_handle s.next_handle s.records v.distinct (omega arith))
          v.distinct);
}

-- The map from handles to shares that the records stand for.
abbrev pub shares : Spmc → ℕ → Option ShareInfo
shares s h = lookup_share_full s h

-- Entry `i` of an array of ranges: range `i` of the list, or no range.
abbrev pub range_at : List Range → ℕ → Range
range_at ranges i = get_or ranges i (0, 0)

-- The share of a request of `a` to `b` that nobody has retrieved yet: the first four of its ranges,
-- and how many these are.
abbrev pub new_info : ℕ → ℕ → List Range → ℕ → Bool → ShareInfo
new_info a b ranges t l = record {
  sender_id = a;
  receiver_id = b;
  ranges = range_at ranges 0 ∷ range_at ranges 1 ∷ range_at ranges 2 ∷ range_at ranges 3 ∷ [];
  range_count = if ltb 4 (length ranges) then 4 else length ranges;
  total_page_count = t;
  is_lend = l;
  retrieved = false;
}

stored : (ranges : List Range) → stored_ranges ranges ≡ (new_info 0 0 ranges 0 false).ranges
unfolding stored_ranges
stored [] = refl
stored (a ∷ []) = refl
stored (a ∷ b ∷ []) = refl
stored (a ∷ b ∷ c ∷ []) = refl
stored (a ∷ b ∷ c ∷ d ∷ ranges) = refl

info-new_share :
    (h a b : ℕ) (ranges : List Range) (t : ℕ) (l : Bool)
    → info (new_share h a b ranges t l) ≡ new_info a b ranges t l
info-new_share h a b ranges t l =
    let count : min (length ranges) 4 ≡ (if ltb 4 (length ranges) then 4 else length ranges) =
      ground arith in
    λ i. record {
      sender_id = a;
      receiver_id = b;
      ranges = stored ranges i;
      range_count = count i;
      total_page_count = t;
      is_lend = l;
      retrieved = false;
    }

all_active :
    (f : Share → Share) (rs : List Share)
    → ((update_first (λ r. not r.active) f rs).1 ≡ true) ⊎ All (λ r. not r.active ≡ false) rs
    → (update_first (λ r. not r.active) f rs).1 ≡ false
    → All (λ r. r.active ≡ true) rs
all_active f rs (inl a) e = absurd (cc)
all_active f rs (inr u) e = go rs u
  where
    go : (rs : List Share) → All (λ r. not r.active ≡ false) rs → All (λ r. r.active ≡ true) rs
    go [] u = tt
    go (r ∷ rs) u = (ground (arith, u.0), go rs u.1)

-- On a valid state `record_share` either enters under the next handle a share with the sender, the
-- receiver, the number of pages and the kind that it was given, not retrieved, and with the first four
-- of its ranges, answers that handle and leaves all other handles as they were; or answers none, and
-- then all records are active and no handle changes.
pub record_share-shares :
    (s : Spmc) (a b : ℕ) (ranges : List Range) (t : ℕ) (l : Bool)
    → IsValid s
    → (((record_share s a b ranges t l).1 ≡ some s.next_handle)
        × ((j : ℕ)
            → shares (record_share s a b ranges t l).0 j
              ≡ (if s.next_handle == j then some (new_info a b ranges t l) else shares s j)))
      ⊎ (((record_share s a b ranges t l).1 ≡ none)
          × All (λ r. r.active ≡ true) s.records
          × ((j : ℕ) → shares (record_share s a b ranges t l).0 j ≡ shares s j))
unfolding record_share lookup_share_full
record_share-shares s a b ranges t l v =
    answer (Bool-cases (fill s.next_handle a b ranges t l s.records).1)
  where
    unused : Unused s.next_handle s.records
    unused = Unused-Distinct s.next_handle s.next_handle s.records v.distinct (omega arith)

    answer :
        ((fill s.next_handle a b ranges t l s.records).1 ≡ true)
          ⊎ ((fill s.next_handle a b ranges t l s.records).1 ≡ false)
        → (((record_share s a b ranges t l).1 ≡ some s.next_handle)
            × ((j : ℕ)
                → shares (record_share s a b ranges t l).0 j
                  ≡ (if s.next_handle == j then some (new_info a b ranges t l) else shares s j)))
          ⊎ (((record_share s a b ranges t l).1 ≡ none)
              × All (λ r. r.active ≡ true) s.records
              × ((j : ℕ) → shares (record_share s a b ranges t l).0 j ≡ shares s j))
    answer (inl e) = inl (
      rw e refl,
      λ j.
          find-fill s.next_handle a b ranges t l j s.records unused
          ∙ rw (e, info-new_share s.next_handle a b ranges t l) refl,
    )
    answer (inr e) = inr (
      rw e refl,
      all_active _ s.records (update_first-found _ _ s.records) e,
      λ j. find-fill s.next_handle a b ranges t l j s.records unused ∙ rw e refl,
    )

-- `mark_retrieved`, `mark_relinquished` and `reclaim_share` set the flag of the share that the
-- handle names, clear it, and drop the share; no other handle changes. The last needs a valid state.
pub updates-shares :
    (s : Spmc) (h j : ℕ)
    → IsValid s
    → (shares (mark_retrieved s h).0 j
        ≡ (if h == j then retrieve_info true (shares s j) else shares s j))
      × (shares (mark_relinquished s h).0 j
          ≡ (if h == j then retrieve_info false (shares s j) else shares s j))
      × (shares (reclaim_share s h).0 j ≡ (if h == j then none else shares s j))
unfolding lookup_share_full mark_retrieved mark_relinquished reclaim_share
updates-shares s h j v = (
  find-retrieved h j s.records,
  find-relinquished h j s.records,
  find-reclaimed s.next_handle h j s.records v.distinct,
)
