-- ===== src/Devices/Pl031.antt =====
-- src/devices/pl031.rs: the clock.
use hypervisor.Prelude.{
  ℕ, ◌+◌, ◌-◌, ◌/◌, ◌%◌, ◌^◌, ◌<◌, ◌≤◌, ◌≡◌, arith, Bool, true, false, not, bit_and, ◌==◌,
  if◌then◌else◌,
}
use hypervisor.Bits.Fields.{bit_and-ones}
use native.Mathlib.Nat.{mod-eq_of_lt}

abbrev pub pl031_base : ℕ
pl031_base = 0x09010000

abbrev pub pl031_size : ℕ
pl031_size = 0x1000

pub record VirtualPl031 : Type 0 where
  pub load_value : ℕ
  pub load_counter : ℕ
  pub match_value : ℕ
  pub control : ℕ
  pub imsc : ℕ
  pub ris : ℕ

-- CNTVCT_EL0 and CNTFRQ_EL0, the two registers that the device reads.
pub record Counter : Type 0 where
  pub ticks : ℕ
  pub freq : ℕ

unfoldable pub new : Counter → VirtualPl031
new c = record {
  load_value = 0;
  load_counter = c.ticks;
  match_value = 0;
  control = 1;
  imsc = 0;
  ris = 0;
}

-- Ticks since the load, modulo 2^64.
abbrev pub elapsed_ticks : Counter → VirtualPl031 → ℕ
elapsed_ticks c d = (c.ticks + 2 ^ 64 - d.load_counter) % 2 ^ 64

-- The sum is one of `u64`, in a release build.
unfoldable pub current_time : Counter → VirtualPl031 → ℕ
current_time c d =
    if bit_and d.control 1 == 0
    then d.load_value
    else (if c.freq == 0
        then d.load_value
        else (d.load_value + elapsed_ticks c d / c.freq) % 2 ^ 64)

unfoldable pub read : Counter → VirtualPl031 → (offset size : ℕ) → ℕ
unfolding current_time
read c d offset size =
    if not (size == 4)
    then 0
    else (if offset == 0x000
        then current_time c d
        else (if offset == 0x004
            then d.match_value
            else (if offset == 0x00C
                then d.control
                else (if offset == 0x010
                    then d.imsc
                    else (if offset == 0x014
                        then d.ris
                        else (if offset == 0x018
                            then bit_and d.ris d.imsc
                            else identification offset))))))
  where
    identification : ℕ → ℕ
    identification off =
        if off == 0xFE0
        then 0x31
        else (if off == 0xFE4
            then 0x10
            else (if off == 0xFE8
                then 0x04
                else (if off == 0xFF0
                    then 0x0D
                    else (if off == 0xFF4
                        then 0xF0
                        else (if off == 0xFF8 then 0x05 else (if off == 0xFFC then 0xB1 else 0))))))

-- A write, and whether it was accepted.
unfoldable pub write : Counter → VirtualPl031 → (offset value size : ℕ) → VirtualPl031 × Bool
write c d offset value size =
    if not (size == 4)
    then (d, false)
    else (if offset == 0x004
        then (record d { match_value = value % 2 ^ 32 }, true)
        else (if offset == 0x008
            then (record d { load_value = bit_and value 0xFFFFFFFF; load_counter = c.ticks }, true)
            else (if offset == 0x00C
                then (record d { control = bit_and value 1 }, true)
                else (if offset == 0x010
                    then (record d { imsc = bit_and value 1 }, true)
                    else (if offset == 0x01C
                        then (record d { ris = bit_and d.ris (2 ^ 32 - 1 - value % 2 ^ 32) }, true)
                        else (d, true))))))

-- The clock that runs since it was set: with the counter of the write and a later one, of the same
-- frequency, not a full round of the counter apart, and no overflow of the sum, the data register
-- reads as the value that was loaded plus the whole seconds between the two.
pub read-write :
    (c later : Counter) (d : VirtualPl031) (v : ℕ)
    → bit_and d.control 1 ≡ 1
    → 0 < later.freq
    → c.ticks ≤ later.ticks
    → later.ticks < 2 ^ 64
    → v < 2 ^ 32
    → v + (later.ticks - c.ticks) / later.freq < 2 ^ 64
    → read later (write c d 0x008 v 4).0 0x000 4 ≡ v + (later.ticks - c.ticks) / later.freq
unfolding read write current_time
read-write c later d v on f le lt small sum =
    let loaded : bit_and v 0xFFFFFFFF ≡ v = omega (arith, bit_and-ones 32 v) in
    let passed : (later.ticks + 2 ^ 64 - c.ticks) % 2 ^ 64 ≡ later.ticks - c.ticks = omega arith in
    let running : (later.freq == 0) ≡ false = ground (arith, f) in
    rw (on, running, loaded, passed) (mod-eq_of_lt sum)
