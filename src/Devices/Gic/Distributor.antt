-- ===== src/Devices/Gic/Distributor.antt =====
-- src/devices/gic/distributor.rs: the distributor. The base address is a parameter of the platform.
use hypervisor.Prelude.{
  ℕ, ◌+◌, ◌-◌, ◌*◌, ◌/◌, ◌%◌, ◌^◌, Bool, ◌&&◌, ◌||◌, not, Option, none, some, List, replicate,
  get_or, set, bit_and, bit_or, leb, ltb, ◌==◌, if◌then◌else◌,
}

abbrev pub gicd_size : ℕ
gicd_size = 0x10000

abbrev pub ctlr_are_ns : ℕ
ctlr_are_ns = 2 ^ 4

pub record VirtualGicd : Type 0 where
  pub ctlr : ℕ
  pub enabled : List ℕ
  pub igroupr : List ℕ
  pub ipriorityr : List ℕ
  pub icfgr : List ℕ
  pub ispendr : List ℕ
  pub isactiver : List ℕ
  pub irouter : List ℕ
  pub num_cpus : ℕ

unfoldable pub new : ℕ → VirtualGicd
new cpus = record {
  ctlr = 0;
  enabled = replicate 32 0;
  igroupr = replicate 32 0;
  ipriorityr = replicate 256 0;
  icfgr = replicate 64 0;
  ispendr = replicate 32 0;
  isactiver = replicate 32 0;
  irouter = replicate 988 0;
  num_cpus = cpus;
}

unfoldable pub set_num_cpus : VirtualGicd → ℕ → VirtualGicd
set_num_cpus g n = record g { num_cpus = n }

-- The vCPU of an SPI, and 0 for any other interrupt.
unfoldable pub route_spi : VirtualGicd → ℕ → ℕ
route_spi g intid =
    if ltb intid 32 || leb 1020 intid then 0 else bit_and (get_or g.irouter (intid - 32) 0) 0xFF

abbrev pub irouter_base : ℕ
irouter_base = 0x6100

abbrev pub irouter_end : ℕ
irouter_end = 0x7FD8

-- An access out of the array reads 0 and writes nothing.
unfoldable pub read_irouter : VirtualGicd → ℕ → ℕ
read_irouter g offset =
    let byte_off = offset - irouter_base in
    if not (bit_and byte_off 0x7 == 0) then 0 else get_or g.irouter (byte_off / 8) 0

unfoldable pub write_irouter : VirtualGicd → ℕ → ℕ → VirtualGicd
write_irouter g offset value =
    let byte_off = offset - irouter_base in
    if not (bit_and byte_off 0x7 == 0)
    then g
    else record g { irouter = set g.irouter (byte_off / 8) value }

abbrev pub is_router : ℕ → Bool
is_router offset = leb irouter_base offset && leb offset irouter_end

abbrev pub aligned : ℕ → ℕ
aligned offset = bit_and offset (2 ^ 64 - 1 - 0x7)

abbrev pub is_low : ℕ → Bool
is_low offset = bit_and offset 0x4 == 0

-- The registers that are one word or a bank of words; the number is the word within the bank.
pub data Register : Type 0 where
  ctlr typer iidr pidr2 other : Register
  group set_enable clear_enable set_pending clear_pending : ℕ → Register
  set_active clear_active priority config : ℕ → Register

-- A bank and the first offset behind its last word.
abbrev pub bank : ℕ → (first last : ℕ) → (ℕ → Register) → Register → Register
bank off first last f rest = if leb first off && leb off last then f ((off - first) / 4) else rest

unfoldable pub register_of : ℕ → Register
register_of off =
    if off == 0x000
    then ctlr
    else (if off == 0x004
        then typer
        else (if off == 0x008
            then iidr
            else bank off 0x080 0x0FC group (
                bank off 0x100 0x17C set_enable (
                  bank off 0x180 0x1FC clear_enable (
                    bank off 0x200 0x27C set_pending (
                      bank off 0x280 0x2FC clear_pending (
                        bank off 0x300 0x37C set_active (
                          bank off 0x380 0x3FC clear_active (
                            bank off 0x400 0x7FC priority (
                              bank off 0xC00 0xCFC config
                                (if off == 0xFFE8 then pidr2 else other)))))))))))

-- The bits of a 32-bit word that another does not have.
abbrev pub clear_bits : ℕ → ℕ → ℕ
clear_bits a b = bit_and a (2 ^ 32 - 1 - b)

abbrev pub typer_value : VirtualGicd → ℕ
typer_value g =
    bit_or (bit_or 31 (bit_and (g.num_cpus - 1) 0x7 * 2 ^ 5)) (2 ^ 24 + 2 ^ 25 + 9 * 2 ^ 19)

unfoldable pub read_register : Register → VirtualGicd → ℕ
read_register ctlr g = bit_or g.ctlr ctlr_are_ns
read_register typer g = typer_value g
read_register iidr g = 0x43B
read_register pidr2 g = 0x30
read_register (group i) g = get_or g.igroupr i 0
read_register (set_enable i) g = get_or g.enabled i 0
read_register (clear_enable i) g = get_or g.enabled i 0
read_register (set_pending i) g = get_or g.ispendr i 0
read_register (clear_pending i) g = get_or g.ispendr i 0
read_register (set_active i) g = get_or g.isactiver i 0
read_register (clear_active i) g = get_or g.isactiver i 0
read_register (priority i) g = get_or g.ipriorityr i 0
read_register (config i) g = get_or g.icfgr i 0
read_register other g = 0

unfoldable pub read : VirtualGicd → (offset size : ℕ) → ℕ
unfolding read_irouter read_register register_of
read g offset size =
    let full = read_irouter g (aligned offset) in
    if is_router offset && size == 8
    then read_irouter g offset
    else (if is_router offset && size == 4
        then (if is_low offset then bit_and full 0xFFFFFFFF else full / 2 ^ 32)
        else (if not (size == 4) then 0 else read_register (register_of offset) g))

abbrev pub update : List ℕ → ℕ → (ℕ → ℕ) → List ℕ
update xs i f = set xs i (f (get_or xs i 0))

unfoldable pub write_register : Register → VirtualGicd → ℕ → VirtualGicd
write_register ctlr g v = record g { ctlr = bit_or v ctlr_are_ns }
write_register (group i) g v = record g { igroupr = set g.igroupr i v }
write_register (set_enable i) g v = record g { enabled = update g.enabled i (λ x. bit_or x v) }
write_register (clear_enable i) g v = record g {
  enabled = update g.enabled i (λ x. clear_bits x v);
}
write_register (set_pending i) g v = record g { ispendr = update g.ispendr i (λ x. bit_or x v) }
write_register (clear_pending i) g v = record g {
  ispendr = update g.ispendr i (λ x. clear_bits x v);
}
write_register (set_active i) g v = record g { isactiver = update g.isactiver i (λ x. bit_or x v) }
write_register (clear_active i) g v = record g {
  isactiver = update g.isactiver i (λ x. clear_bits x v);
}
write_register (priority i) g v = record g { ipriorityr = set g.ipriorityr i v }
write_register (config i) g v = record g { icfgr = set g.icfgr i v }
write_register _ g v = g

-- A write to the hardware: offset, value, size.
abbrev pub Forwarded : Type 0
Forwarded = Option (ℕ × ℕ × ℕ)

abbrev pub is_access : ℕ → Bool
is_access size = size == 1 || size == 2 || size == 4 || size == 8

-- What is written through to the hardware; the value is cut to the size of the access.
unfoldable pub forwarded : (offset value size : ℕ) → Forwarded
forwarded offset value size =
    let v = if offset == 0x000 then bit_or value ctlr_are_ns else value in
    if offset == 0x004 || offset == 0x008 || offset == 0xFFE8 || not (is_access size)
    then none
    else some (offset, v % 2 ^ (8 * size), size)

unfoldable pub write : VirtualGicd → (offset value size : ℕ) → VirtualGicd
unfolding read_irouter write_irouter write_register register_of
write g offset value size =
    let old = read_irouter g (aligned offset) in
    let low = bit_or (bit_and old 0xFFFFFFFF00000000) (bit_and value 0xFFFFFFFF) in
    let high = bit_or (bit_and old 0xFFFFFFFF) (bit_and value 0xFFFFFFFF * 2 ^ 32) in
    if is_router offset && size == 8
    then write_irouter g offset value
    else (if is_router offset && size == 4
        then write_irouter g (aligned offset) (if is_low offset then low else high)
        else (if not (size == 4)
            then g
            else write_register (register_of offset) g (bit_and value 0xFFFFFFFF)))
