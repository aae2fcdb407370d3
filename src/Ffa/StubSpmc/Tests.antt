-- ===== src/Ffa/StubSpmc/Tests.antt =====
-- The theorems on the share table at a table with one share.
use hypervisor.Prelude.{
  ℕ, ◌≡◌, arith, true, false, none, some, List, [], ◌∷◌, All, ◌==◌, ◌⊎◌, if◌then◌else◌,
}
use hypervisor.Ffa.StubSpmc.{
  Range, Share, Spmc, init, record_share, mark_retrieved, mark_relinquished, reclaim_share,
}
use hypervisor.Ffa.StubSpmc.Spec.{
  IsValid, init-IsValid, record_share-IsValid, shares, new_info, record_share-shares,
  updates-shares, retrieve_info,
}

abbrev two_pages : List Range
two_pages = (0x48000000, 2) ∷ []

-- VM 0 shares two pages with VM 1.
abbrev one_share : Spmc
one_share = (record_share init 1 2 two_pages 2 false).0

one_share-IsValid : IsValid one_share
unfolding init
one_share-IsValid = record_share-IsValid init 1 2 two_pages 2 false (omega arith) init-IsValid

record_share-shares_example :
    let o = record_share one_share 2 1 two_pages 2 true in
    ((o.1 ≡ some one_share.next_handle)
      × ((j : ℕ)
          → shares o.0 j ≡ (
              if one_share.next_handle == j
              then some (new_info 2 1 two_pages 2 true)
              else shares one_share j)))
    ⊎ ((o.1 ≡ none)
        × All (λ (r : Share). r.active ≡ true) one_share.records
        × ((j : ℕ) → shares o.0 j ≡ shares one_share j))
record_share-shares_example = record_share-shares one_share 2 1 two_pages 2 true one_share-IsValid

updates-shares_example :
    (shares (mark_retrieved one_share 1).0 1
      ≡ (if 1 == 1 then retrieve_info true (shares one_share 1) else shares one_share 1))
    × (shares (mark_relinquished one_share 1).0 1
        ≡ (if 1 == 1 then retrieve_info false (shares one_share 1) else shares one_share 1))
    × (shares (reclaim_share one_share 1).0 1 ≡ (if 1 == 1 then none else shares one_share 1))
updates-shares_example = updates-shares one_share 1 1 one_share-IsValid
