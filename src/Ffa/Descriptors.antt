-- ===== src/Ffa/Descriptors.antt =====
-- src/ffa/descriptors.rs: the memory region descriptor that a guest puts into its TX buffer.
-- The address ranges of the result are a list, `ranges[..range_count]` of the source.
pub mod Bounds
mod Tests
use hypervisor.Prelude.{
  ℕ, zero, suc, ◌+◌, ◌*◌, ◌^◌, ◌<◌, ◌≡◌, Bool, List, [], ◌∷◌, min, bit_and, ltb, ◌==◌, ◌||◌, not,
  if◌then◌else◌, Result, ok, err,
}
use hypervisor.Ffa.Ids.{FfaError, invalid_parameters}
use hypervisor.Ffa.StubSpmc.{Range}

-- Memory that is read byte by byte.
abbrev pub Bytes : Type 0
Bytes = ℕ → ℕ

-- `read_unaligned`, little endian.
abbrev pub read_u16 : Bytes → ℕ → ℕ
read_u16 m p = m p + 2 ^ 8 * m (p + 1)

abbrev pub read_u32 : Bytes → ℕ → ℕ
read_u32 m p = read_u16 m p + 2 ^ 16 * read_u16 m (p + 2)

abbrev pub read_u64 : Bytes → ℕ → ℕ
read_u64 m p = read_u32 m p + 2 ^ 32 * read_u32 m (p + 4)

abbrev pub max_addr_ranges : ℕ
max_addr_ranges = 16

-- The sizes of the packed structs: the fields of `FfaMemRegion` add up to 44 bytes.
abbrev pub region_size : ℕ
region_size = 44

abbrev pub access_size : ℕ
access_size = 16

abbrev pub composite_size : ℕ
composite_size = 16

abbrev pub range_size : ℕ
range_size = 16

pub record ParsedMemRegion : Type 0 where
  pub sender_id : ℕ
  pub receiver_id : ℕ
  pub flags : ℕ
  pub ranges : List Range
  pub total_page_count : ℕ

abbrev pub cons_range : Range → Result FfaError (List Range) → Result FfaError (List Range)
cons_range r (err e) = err e
cons_range r (ok rs) = ok (r ∷ rs)

-- The loop over the address ranges, with `n` left, at the offset of the next one.
unfoldable pub parse_ranges : Bytes → ℕ → ℕ → ℕ → ℕ → Result FfaError (List Range)
parse_ranges m tx total zero off = ok []
parse_ranges m tx total (suc n) off =
    let address = read_u64 m (tx + off) in
    let page_count = read_u32 m (tx + off + 8) in
    let rest = parse_ranges m tx total n (off + range_size) in
    if ltb total (off + range_size)
    then err invalid_parameters
    else (if not (bit_and address 0xFFF == 0)
        then err invalid_parameters
        else cons_range (address, page_count) rest)

abbrev pub parsed : ℕ → ℕ → ℕ → ℕ → Result FfaError (List Range) → Result FfaError ParsedMemRegion
parsed sender receiver flags pages (err e) = err e
parsed sender receiver flags pages (ok rs) = ok (record {
  sender_id = sender;
  receiver_id = receiver;
  flags = flags;
  ranges = rs;
  total_page_count = pages;
})

-- The part of `parse_mem_region` from the composite descriptor on.
unfoldable pub parse_composite : Bytes → ℕ → ℕ → ℕ → ℕ → ℕ → Result FfaError ParsedMemRegion
unfolding parse_ranges
parse_composite m tx total sender flags access =
    let receiver = read_u16 m (tx + access) in
    let comp = read_u32 m (tx + access + 4) in
    let pages = read_u32 m (tx + comp) in
    let range_count = read_u32 m (tx + comp + 4) in
    if ltb total (comp + composite_size)
    then err invalid_parameters
    else (if range_count == 0
        then err invalid_parameters
        else parsed sender receiver flags pages
            (parse_ranges m tx total (min range_count max_addr_ranges) (comp + composite_size)))

unfoldable pub parse_mem_region : Bytes → ℕ → ℕ → Result FfaError ParsedMemRegion
unfolding parse_composite
parse_mem_region m tx total =
    let sender = read_u16 m tx in
    let flags = read_u32 m (tx + 8) in
    let receiver_count = read_u32 m (tx + 32) in
    let access = read_u32 m (tx + 36) in
    if ltb total region_size
    then err invalid_parameters
    else (if receiver_count == 0 || ltb 1 receiver_count
        then err invalid_parameters
        else (if ltb total (access + access_size)
            then err invalid_parameters
            else parse_composite m tx total sender flags access))
