-- ===== src/Ffa/Stage2Walker.antt =====
-- src/ffa/stage2_walker.rs: the walk over Stage-2 page tables, the two fields of a leaf entry that
-- the proxy reads and writes, and the mapping of single pages. The tables are in the memory of the
-- heap that new tables come from. The TLB holds no state here: each change ends in the
-- invalidation that the source issues, and a translation is read from the tables.
pub mod Pte
pub mod Walk
pub mod Tree
pub mod Split
pub mod Write
pub mod Access
pub mod MapPage
mod Tests
use hypervisor.Prelude.{
  ℕ, zero, suc, ◌+◌, ◌-◌, ◌*◌, ◌/◌, ◌%◌, ◌^◌, ◌≡◌, Bool, true, false, not, Option, none, some,
  bit_and, bit_or, ◌==◌, if◌then◌else◌, ◌>>=◌, Result, ok, err, ◌||◌,
}
use hypervisor.Bits.Test.{complement}
use hypervisor.Mm.Words.{Memory, store, zero_page}
use hypervisor.Mm.Allocator.{Heap, alloc_page}

-- arch/aarch64/defs.rs
abbrev pub pte_valid : ℕ
pte_valid = 1

abbrev pub pte_table : ℕ
pte_table = 2

abbrev pub pte_addr_mask : ℕ
pte_addr_mask = 0x0000FFFFFFFFF000

abbrev pub pt_index_mask : ℕ
pt_index_mask = 0x1FF

abbrev pub pte_sw_mask : ℕ
pte_sw_mask = 3 * 2 ^ 55

abbrev pub s2ap_mask : ℕ
s2ap_mask = 3 * 2 ^ 6

abbrev pub block_mask_2mb : ℕ
block_mask_2mb = 2 ^ 21 - 1

-- The messages of the `Err`s.
pub data WalkError : Type 0 where
  not_mapped no_split_table l0_not_table no_l2_table l1_is_block no_l3_table l2_is_block
        already_mapped not_a_page :
      WalkError

abbrev pub Outcome : Type 0
Outcome = Heap × Result WalkError (Unit {0})

abbrev pub is_valid : ℕ → Bool
is_valid e = not (bit_and e pte_valid == 0)

abbrev pub is_table : ℕ → Bool
is_table e = not (bit_and e pte_table == 0)

-- `e & (PTE_VALID | PTE_TABLE) == (PTE_VALID | PTE_TABLE)`
abbrev pub is_descriptor : ℕ → Bool
is_descriptor e = bit_and e 3 == 3

abbrev pub next_table : ℕ → ℕ
next_table e = bit_and e pte_addr_mask

-- The address of the entry of a table that translates `ipa` at the level with this shift.
abbrev pub slot : ℕ → ℕ → ℕ → ℕ
slot shift table ipa = table + 8 * bit_and (ipa / 2 ^ shift) pt_index_mask

-- `walk_to_leaf_ptr`, from its last level up.
unfoldable pub leaf_l3 : Memory → ℕ → ℕ → Option ℕ
leaf_l3 m table ipa = let p = slot 12 table ipa in if is_valid (m p) then some p else none

unfoldable pub leaf_l2 : Memory → ℕ → ℕ → Option ℕ
unfolding leaf_l3
leaf_l2 m table ipa =
    let p = slot 21 table ipa in
    if not (is_valid (m p))
    then none
    else (if not (is_table (m p)) then some p else leaf_l3 m (next_table (m p)) ipa)

unfoldable pub leaf_l1 : Memory → ℕ → ℕ → Option ℕ
unfolding leaf_l2
leaf_l1 m table ipa =
    let p = slot 30 table ipa in
    if not (is_valid (m p))
    then none
    else (if not (is_table (m p)) then some p else leaf_l2 m (next_table (m p)) ipa)

unfoldable pub walk_to_leaf_ptr : Memory → ℕ → ℕ → Option ℕ
unfolding leaf_l1
walk_to_leaf_ptr m l0 ipa =
    let e = m (slot 39 l0 ipa) in
    if not (is_descriptor e) then none else leaf_l1 m (next_table e) ipa

-- The two bits from bit `shift` on of the leaf entry.
abbrev pub read_field : ℕ → Memory → ℕ → ℕ → Option ℕ
read_field shift m l0 ipa = walk_to_leaf_ptr m l0 ipa >>= λ p. some (bit_and (m p / 2 ^ shift) 3)

unfoldable pub read_sw_bits : Memory → ℕ → ℕ → Option ℕ
read_sw_bits = read_field 55

unfoldable pub read_s2ap : Memory → ℕ → ℕ → Option ℕ
read_s2ap = read_field 6

-- The page entry `i` that replaces a block entry.
unfoldable pub split_entry : ℕ → ℕ → ℕ
split_entry block i =
    let block_pa = bit_and block (complement 64 block_mask_2mb) in
    let attrs = bit_and (bit_and block block_mask_2mb) (complement 64 3) in
    let sw = bit_and block pte_sw_mask in
    bit_or (bit_or (bit_or (bit_or ((block_pa + i * 4096) % 2 ^ 64) sw) attrs) pte_table) pte_valid

-- The `for` loop over the 512 entries, with `n` rounds left, at its round `i`.
unfoldable pub fill_l3 : ℕ → ℕ → ℕ → ℕ → Memory → Memory
unfolding split_entry
fill_l3 l3 block zero i m = m
fill_l3 l3 block (suc n) i m =
    fill_l3 l3 block n (i + 1) (store m (l3 + 8 * i) (split_entry block i))

abbrev pub descriptor : ℕ → ℕ
descriptor table = bit_or (bit_or table pte_valid) pte_table

abbrev split_into : ℕ → ℕ → Heap × Option ℕ → Outcome
split_into l2_ptr block (h, none) = (h, err no_split_table)
split_into l2_ptr block (h, some l3) =
    let filled = fill_l3 l3 block 512 0 (zero_page h.mem l3) in
    (record h { mem = store (store filled l2_ptr 0) l2_ptr (descriptor l3) }, ok tt)

unfoldable pub split_2mb_block_at_l2 : Heap → ℕ → ℕ → Outcome
unfolding fill_l3
split_2mb_block_at_l2 h l2_ptr block = split_into l2_ptr block (alloc_page h)

-- `split_block_if_needed`, from its last level up.
unfoldable pub split_l2 : Heap → ℕ → ℕ → Outcome
unfolding split_2mb_block_at_l2
split_l2 h table ipa =
    let p = slot 21 table ipa in
    if is_valid (h.mem p)
    then (if is_table (h.mem p) then (h, ok tt) else split_2mb_block_at_l2 h p (h.mem p))
    else (h, ok tt)

unfoldable pub split_l1 : Heap → ℕ → ℕ → Outcome
unfolding split_l2
split_l1 h table ipa =
    let e = h.mem (slot 30 table ipa) in
    if not (is_valid e) || not (is_table e) then (h, ok tt) else split_l2 h (next_table e) ipa

unfoldable pub split_block_if_needed : Heap → ℕ → ℕ → Outcome
unfolding split_l1
split_block_if_needed h l0 ipa =
    let e = h.mem (slot 39 l0 ipa) in
    if not (is_descriptor e) then (h, ok tt) else split_l1 h (next_table e) ipa

-- `(pte & !mask) | ((bits & 3) << shift)`, for the mask of two bits from `shift` on.
unfoldable pub with_field : ℕ → ℕ → ℕ → ℕ
with_field shift pte bits =
    bit_or (bit_and pte (complement 64 (3 * 2 ^ shift))) (bit_and bits 3 * 2 ^ shift)

abbrev pub store_field : ℕ → Heap → ℕ → Option ℕ → Outcome
store_field shift h bits none = (h, err not_mapped)
store_field shift h bits (some p) =
    (record h { mem = store h.mem p (with_field shift (h.mem p) bits) }, ok tt)

abbrev pub write_split : ℕ → ℕ → ℕ → ℕ → Outcome → Outcome
write_split shift l0 ipa bits (h, err e) = (h, err e)
write_split shift l0 ipa bits (h, ok _) = store_field shift h bits (walk_to_leaf_ptr h.mem l0 ipa)

-- What `write_sw_bits` and `set_s2ap` share: split, walk, and write the field.
unfoldable pub write_field : ℕ → Heap → ℕ → ℕ → ℕ → Outcome
write_field shift h l0 ipa bits = write_split shift l0 ipa bits (split_block_if_needed h l0 ipa)

unfoldable pub write_sw_bits : Heap → ℕ → ℕ → ℕ → Outcome
unfolding write_field
write_sw_bits = write_field 55

unfoldable pub set_s2ap : Heap → ℕ → ℕ → ℕ → Outcome
unfolding write_field
set_s2ap = write_field 6
