-- ===== src/Ffa/Stage2Walker/MapPage.antt =====
-- src/ffa/stage2_walker.rs: mapping and unmapping one page of another VM.
use hypervisor.Prelude.{
  ℕ, ◌*◌, ◌^◌, not, Option, none, some, bit_and, bit_or, if◌then◌else◌, Result, ok, err,
}
use hypervisor.Bits.Test.{complement}
use hypervisor.Mm.Words.{Memory, store, zero_page}
use hypervisor.Mm.Allocator.{Heap, alloc_page}
use hypervisor.Ffa.Stage2Walker.{
  Outcome, WalkError, l0_not_table, no_l2_table, l1_is_block, no_l3_table, l2_is_block,
  already_mapped, not_a_page, is_valid, is_table, is_descriptor, next_table, slot, descriptor,
  pte_table, pte_valid,
}

-- MemAttrIndx 0b1111, inner shareable, access flag.
abbrev pub normal_attrs : ℕ
normal_attrs = 0x73C

unfoldable pub page_entry : ℕ → ℕ → ℕ → ℕ
page_entry ipa s2ap sw =
    let pa = bit_and ipa (complement 64 4095) in
    let s2ap_bits = bit_and s2ap 3 * 2 ^ 6 in
    let sw_bits = bit_and sw 3 * 2 ^ 55 in
    bit_or (bit_or (bit_or (bit_or (bit_or pa normal_attrs) s2ap_bits) sw_bits) pte_table) pte_valid

abbrev pub TableResult : Type 0
TableResult = Heap × Result WalkError ℕ

-- A new table, zeroed, behind the entry at `p`.
abbrev link_table : WalkError → ℕ → Heap × Option ℕ → TableResult
link_table none_left p (h, none) = (h, err none_left)
link_table none_left p (h, some t) =
    (record h { mem = store (zero_page h.mem t) p (descriptor t) }, ok t)

-- The table that the entry at `p` leads to, made if the entry is invalid.
unfoldable pub get_or_create : WalkError → WalkError → Heap → ℕ → TableResult
get_or_create none_left block h p =
    if not (is_valid (h.mem p))
    then link_table none_left p (alloc_page h)
    else (if is_table (h.mem p) then (h, ok (next_table (h.mem p))) else (h, err block))

abbrev write_page : ℕ → ℕ → ℕ → TableResult → Outcome
write_page ipa s2ap sw (h, err e) = (h, err e)
write_page ipa s2ap sw (h, ok l3) =
    let p = slot 12 l3 ipa in
    if is_valid (h.mem p)
    then (h, err already_mapped)
    else (record h { mem = store h.mem p (page_entry ipa s2ap sw) }, ok tt)

abbrev map_in_l2 : ℕ → ℕ → ℕ → TableResult → Outcome
map_in_l2 ipa s2ap sw (h, err e) = (h, err e)
map_in_l2 ipa s2ap sw (h, ok l2) =
    write_page ipa s2ap sw (get_or_create no_l3_table l2_is_block h (slot 21 l2 ipa))

unfoldable pub map_page : Heap → ℕ → ℕ → ℕ → ℕ → Outcome
unfolding get_or_create page_entry
map_page h l0 ipa s2ap sw =
    let e = h.mem (slot 39 l0 ipa) in
    if not (is_descriptor e)
    then (h, err l0_not_table)
    else map_in_l2 ipa s2ap sw
        (get_or_create no_l2_table l1_is_block h (slot 30 (next_table e) ipa))

unfoldable pub walk_to_l3_ptr : Memory → ℕ → ℕ → Option ℕ
walk_to_l3_ptr m l0 ipa =
    let e0 = m (slot 39 l0 ipa) in
    let e1 = m (slot 30 (next_table e0) ipa) in
    let e2 = m (slot 21 (next_table e1) ipa) in
    let p = slot 12 (next_table e2) ipa in
    if not (is_descriptor e0)
    then none
    else (if not (is_descriptor e1)
        then none
        else (if not (is_descriptor e2)
            then none
            else (if not (is_valid (m p)) then none else some p)))

abbrev clear_page : Heap → Option ℕ → Outcome
clear_page h none = (h, err not_a_page)
clear_page h (some p) = (record h { mem = store h.mem p 0 }, ok tt)

unfoldable pub unmap_page : Heap → ℕ → ℕ → Outcome
unfolding walk_to_l3_ptr
unmap_page h l0 ipa = clear_page h (walk_to_l3_ptr h.mem l0 ipa)
