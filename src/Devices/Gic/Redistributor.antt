-- ===== src/Devices/Gic/Redistributor.antt =====
-- src/devices/gic/redistributor.rs: the redistributors of the vCPUs.
use hypervisor.Prelude.{
  ℕ, ◌-◌, ◌*◌, ◌/◌, ◌%◌, ◌^◌, Bool, true, false, ◌&&◌, Option, none, some, List, [], ◌∷◌, replicate,
  get_or, set, bit_and, bit_or, leb, ltb, ◌==◌, if◌then◌else◌,
}
use hypervisor.Devices.Gic.Distributor.{clear_bits}

abbrev pub per_cpu : ℕ
per_cpu = 0x20000

pub record GicrState : Type 0 where
  pub ctlr : ℕ
  pub waker : ℕ
  pub igroupr0 : ℕ
  pub isenabler0 : ℕ
  pub ispendr0 : ℕ
  pub isactiver0 : ℕ
  pub ipriorityr : List ℕ
  pub icfgr : List ℕ

abbrev pub new_state : GicrState
new_state = record {
  ctlr = 0;
  waker = 0x06;
  igroupr0 = 0;
  isenabler0 = 0;
  ispendr0 = 0;
  isactiver0 = 0;
  ipriorityr = replicate 8 0;
  icfgr = 0xAAAAAAAA ∷ 0 ∷ [];
}

pub record VirtualGicr : Type 0 where
  pub state : List GicrState
  pub num_vcpus : ℕ

-- `none` is the panic of the assertion; `max_vcpus` is the constant of the platform.
unfoldable pub new : (max_vcpus num_vcpus : ℕ) → Option VirtualGicr
new max_vcpus n =
    if leb n max_vcpus
    then some (record { state = replicate max_vcpus new_state; num_vcpus = n })
    else none

unfoldable pub typer_value : VirtualGicr → ℕ → ℕ
typer_value g vcpu =
    bit_or (bit_or (vcpu * 2 ^ 32) (vcpu * 2 ^ 8)) (if vcpu == g.num_vcpus - 1 then 2 ^ 4 else 0)

-- The vCPU, whether the offset lies in its SGI frame, and the offset within the frame.
unfoldable pub decode_offset : VirtualGicr → ℕ → Option (ℕ × Bool × ℕ)
decode_offset g offset =
    let within = offset % per_cpu in
    if leb g.num_vcpus (offset / per_cpu)
    then none
    else (if ltb within 0x10000
        then some (offset / per_cpu, false, within)
        else some (offset / per_cpu, true, within - 0x10000))

abbrev pub state_of : VirtualGicr → ℕ → GicrState
state_of g vcpu = get_or g.state vcpu new_state

unfoldable pub read_rd : VirtualGicr → ℕ → (offset size : ℕ) → ℕ
unfolding typer_value
read_rd g vcpu off size =
    if off == 0x0000
    then (state_of g vcpu).ctlr
    else (if off == 0x0004
        then 0x43B
        else (if off == 0x0008 && size == 8
            then typer_value g vcpu
            else (if off == 0x0008 && size == 4
                then bit_and (typer_value g vcpu) 0xFFFFFFFF
                else (if off == 0x000C && size == 4
                    then typer_value g vcpu / 2 ^ 32
                    else (if off == 0x0014
                        then (state_of g vcpu).waker
                        else (if off == 0xFFE8 then 0x30 else 0))))))

abbrev pub on_state : VirtualGicr → ℕ → (GicrState → GicrState) → VirtualGicr
on_state g vcpu f = record g { state = set g.state vcpu (f (state_of g vcpu)) }

unfoldable pub write_rd : VirtualGicr → ℕ → (offset value : ℕ) → VirtualGicr
write_rd g vcpu off value =
    let asleep = if bit_and (value % 2 ^ 32) 2 == 0 then 0 else 6 in
    if off == 0x0000
    then on_state g vcpu (λ s. record s { ctlr = value % 2 ^ 32 })
    else (if off == 0x0014 then on_state g vcpu (λ s. record s { waker = asleep }) else g)

-- The registers of the SGI frame; the number is the word within the bank of priorities.
pub data Register : Type 0 where
  group set_enable clear_enable set_pending clear_pending set_active clear_active : Register
  priority : ℕ → Register
  config0 config1 other : Register

unfoldable pub register_of : ℕ → Register
register_of off =
    if off == 0x0080
    then group
    else (if off == 0x0100
        then set_enable
        else (if off == 0x0180
            then clear_enable
            else (if off == 0x0200
                then set_pending
                else (if off == 0x0280
                    then clear_pending
                    else (if off == 0x0300
                        then set_active
                        else (if off == 0x0380
                            then clear_active
                            else (if leb 0x0400 off && leb off 0x041C
                                then priority ((off - 0x0400) / 4)
                                else (if off == 0x0C00
                                    then config0
                                    else (if off == 0x0C04 then config1 else other)))))))))

unfoldable pub read_sgi : Register → GicrState → ℕ
read_sgi group s = s.igroupr0
read_sgi set_enable s = s.isenabler0
read_sgi clear_enable s = s.isenabler0
read_sgi set_pending s = s.ispendr0
read_sgi clear_pending s = s.ispendr0
read_sgi set_active s = s.isactiver0
read_sgi clear_active s = s.isactiver0
read_sgi (priority i) s = get_or s.ipriorityr i 0
read_sgi config0 s = get_or s.icfgr 0 0
read_sgi config1 s = get_or s.icfgr 1 0
read_sgi other s = 0

unfoldable pub write_sgi : Register → ℕ → GicrState → GicrState
write_sgi group v s = record s { igroupr0 = v }
write_sgi set_enable v s = record s { isenabler0 = bit_or s.isenabler0 v }
write_sgi clear_enable v s = record s { isenabler0 = clear_bits s.isenabler0 v }
write_sgi set_pending v s = record s { ispendr0 = bit_or s.ispendr0 v }
write_sgi clear_pending v s = record s { ispendr0 = clear_bits s.ispendr0 v }
write_sgi set_active v s = record s { isactiver0 = bit_or s.isactiver0 v }
write_sgi clear_active v s = record s { isactiver0 = clear_bits s.isactiver0 v }
write_sgi (priority i) v s = record s { ipriorityr = set s.ipriorityr i v }
write_sgi config0 v s = s
write_sgi config1 v s = record s { icfgr = set s.icfgr 1 v }
write_sgi other v s = s

abbrev pub read_frame : VirtualGicr → ℕ → Option (ℕ × Bool × ℕ) → Option ℕ
unfolding read_rd read_sgi register_of
read_frame g size none = none
read_frame g size (some (vcpu, sgi, off)) =
    some (if sgi then read_sgi (register_of off) (state_of g vcpu) else read_rd g vcpu off size)

unfoldable pub read : VirtualGicr → (offset size : ℕ) → Option ℕ
unfolding read_frame decode_offset
read g offset size = read_frame g size (decode_offset g offset)

abbrev pub write_frame : VirtualGicr → ℕ → Option (ℕ × Bool × ℕ) → VirtualGicr
unfolding write_rd write_sgi register_of
write_frame g value none = g
write_frame g value (some (vcpu, sgi, off)) =
    if sgi
    then on_state g vcpu (write_sgi (register_of off) (value % 2 ^ 32))
    else write_rd g vcpu off value

unfoldable pub write : VirtualGicr → (offset value size : ℕ) → VirtualGicr
unfolding write_frame decode_offset
write g offset value size = write_frame g value (decode_offset g offset)

unfoldable pub size : VirtualGicr → ℕ
size g = per_cpu * g.num_vcpus
