-- ===== src/Devices/Gic/Routing.antt =====
-- src/devices/gic/distributor.rs: the routing of shared interrupts, and the enable bits.
use hypervisor.Prelude.{
  ℕ, ◌+◌, ◌-◌, ◌*◌, ◌/◌, ◌%◌, ◌^◌, ◌<◌, ◌≤◌, ◌≡◌, arith, true, false, length, get_or, get_or-set,
  bit_and, bit_or, min, max, ◌==◌, if◌then◌else◌,
}
use hypervisor.Bits.Fields.{bit_and-ones}
use hypervisor.Bits.Test.{bit, bit-bit_or, bit-bit_and, bit-complement, complement}
use hypervisor.Devices.Gic.Distributor.{
  VirtualGicd, route_spi, write, write_irouter, irouter_base, is_router, register_of, set_enable,
  clear_enable, write_register, clear_bits,
}

-- The offset of the routing register of an SPI.
abbrev pub router : ℕ → ℕ
router intid = irouter_base + 8 * (intid - 32)

-- A 64-bit write to the routing register of an SPI routes it to the vCPU in the low byte of the value,
-- and no other interrupt anywhere else.
pub route_spi-write :
    (g : VirtualGicd) (intid other v : ℕ)
    → 32 ≤ intid
    → intid < 1020
    → length g.irouter ≡ 988
    → route_spi (write g (router intid) v 8) other
      ≡ (if intid == other then v % 2 ^ 8 else route_spi g other)
unfolding route_spi write write_irouter
route_spi-write g intid other v lo hi size =
    let here : is_router (router intid) ≡ true = ground (arith, lo, hi) in
    let place : bit_and (router intid - irouter_base) 0x7 ≡ 0 =
      omega (arith, bit_and-ones 3 (router intid - irouter_base)) in
    let index : (router intid - irouter_base) / 8 ≡ intid - 32 = omega arith in
    rw (here, place, index)
      (ground
        (arith, lo, hi, size, get_or-set g.irouter (intid - 32) (other - 32) v 0, bit_and-ones 8 v))

-- The enable bit of an interrupt.
abbrev pub is_enabled : VirtualGicd → ℕ → ℕ
is_enabled g n = bit (n % 32) (get_or g.enabled (n / 32) 0)

set_enable_at : (k : ℕ) → k < 32 → register_of (0x100 + 4 * k) ≡ set_enable k
unfolding register_of
set_enable_at k h =
    let index : (0x100 + 4 * k - 0x100) / 4 ≡ k = omega arith in ground (arith, h, index)

clear_enable_at : (k : ℕ) → k < 32 → register_of (0x180 + 4 * k) ≡ clear_enable k
unfolding register_of
clear_enable_at k h =
    let index : (0x180 + 4 * k - 0x180) / 4 ≡ k = omega arith in ground (arith, h, index)

-- What one register write makes of the enable bits: those of the 32 interrupts of bank `k`, and no
-- others.
abbrev pub Changes : VirtualGicd → VirtualGicd → ℕ → (ℕ → ℕ → ℕ) → Type 0
Changes g g' k f =
    (n : ℕ)
    → is_enabled g' n ≡ (if n / 32 == k then f (n % 32) (is_enabled g n) else is_enabled g n)

-- A write to a set-enable register enables exactly the interrupts whose bits are set in the value.
pub write-set_enable :
    (g : VirtualGicd) (k v : ℕ)
    → k < 32
    → v < 2 ^ 32
    → length g.enabled ≡ 32
    → Changes g (write g (0x100 + 4 * k) v 4) k (λ i old. max old (bit i v))
unfolding write write_register
write-set_enable g k v h l size n =
    let elsewhere : is_router (0x100 + 4 * k) ≡ false = ground (arith, h) in
    let word : bit_and v 0xFFFFFFFF ≡ v = omega (arith, bit_and-ones 32 v) in
    rw (elsewhere, set_enable_at k h, word)
      (ground (
        arith,
        size,
        h,
        get_or-set g.enabled k (n / 32) (bit_or (get_or g.enabled k 0) v) 0,
        bit-bit_or (n % 32) (get_or g.enabled k 0) v,
      ))

-- A write to a clear-enable register disables exactly these.
pub write-clear_enable :
    (g : VirtualGicd) (k v : ℕ)
    → k < 32
    → v < 2 ^ 32
    → length g.enabled ≡ 32
    → Changes g (write g (0x180 + 4 * k) v 4) k (λ i old. min old (1 - bit i v))
unfolding write write_register
write-clear_enable g k v h l size n =
    let elsewhere : is_router (0x180 + 4 * k) ≡ false = ground (arith, h) in
    let word : bit_and v 0xFFFFFFFF ≡ v = omega (arith, bit_and-ones 32 v) in
    rw (elsewhere, clear_enable_at k h, word)
      (ground (
        arith,
        size,
        h,
        get_or-set g.enabled k (n / 32) (clear_bits (get_or g.enabled k 0) v) 0,
        bit-bit_and (n % 32) (get_or g.enabled k 0) (complement 32 v),
        bit-complement 32 (n % 32) v (omega arith) l,
      ))
