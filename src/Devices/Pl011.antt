-- ===== src/Devices/Pl011.antt =====
-- src/devices/pl011/emulator.rs: the serial port.
pub mod Receive
use hypervisor.Prelude.{
  ℕ, ◌+◌, ◌-◌, ◌*◌, ◌/◌, ◌%◌, ◌^◌, Bool, true, false, ◌&&◌, not, Option, none, some, List, [], ◌∷◌,
  replicate, get_or, set, bit_and, bit_or, leb, ◌==◌, if◌then◌else◌,
}

abbrev pub uart_size : ℕ
uart_size = 0x1000

abbrev pub int_rx : ℕ
int_rx = 2 ^ 4

abbrev pub int_tx : ℕ
int_tx = 2 ^ 5

abbrev pub uart_spi_intid : ℕ
uart_spi_intid = 33

abbrev pub rx_buf_size : ℕ
rx_buf_size = 64

pub record VirtualUart : Type 0 where
  pub cr : ℕ
  pub lcr_h : ℕ
  pub ibrd : ℕ
  pub fbrd : ℕ
  pub ifls : ℕ
  pub imsc : ℕ
  pub ris : ℕ
  pub dmacr : ℕ
  pub rx_buf : List ℕ
  pub rx_head : ℕ
  pub rx_tail : ℕ

unfoldable pub new : VirtualUart
new = record {
  cr = 0x0301;
  lcr_h = 0x60;
  ibrd = 1;
  fbrd = 0;
  ifls = 0x12;
  imsc = 0;
  ris = 0;
  dmacr = 0;
  rx_buf = replicate rx_buf_size 0;
  rx_head = 0;
  rx_tail = 0;
}

-- The bits of a 32-bit word that another does not have.
abbrev pub clear_bits : ℕ → ℕ → ℕ
clear_bits a b = bit_and a (2 ^ 32 - 1 - b)

unfoldable pub push_rx : VirtualUart → ℕ → VirtualUart
push_rx u ch =
    let next_tail = (u.rx_tail + 1) % rx_buf_size in
    if next_tail == u.rx_head then u else record u {
      rx_buf = set u.rx_buf u.rx_tail ch;
      rx_tail = next_tail;
      ris = bit_or u.ris int_rx;
    }

unfoldable pub pop_rx : VirtualUart → Option ℕ × VirtualUart
pop_rx u =
    let next_head = (u.rx_head + 1) % rx_buf_size in
    if u.rx_head == u.rx_tail then (none, u) else (
      some (get_or u.rx_buf u.rx_head 0),
      record u {
        rx_head = next_head;
        ris = if next_head == u.rx_tail then clear_bits u.ris int_rx else u.ris;
      },
    )

unfoldable pub rx_has_data : VirtualUart → Bool
rx_has_data u = not (u.rx_head == u.rx_tail)

unfoldable pub get_flags : VirtualUart → ℕ
unfolding rx_has_data
get_flags u =
    let empty = if rx_has_data u then 2 ^ 7 else bit_or (2 ^ 7) (2 ^ 4) in
    let count = (u.rx_tail + rx_buf_size - u.rx_head) % rx_buf_size in
    if leb (rx_buf_size - 1) count then bit_or empty (2 ^ 6) else empty

abbrev pub byte_or : ℕ → Option ℕ → ℕ
byte_or d none = d
byte_or d (some ch) = ch

abbrev pub good_size : ℕ → Bool
good_size size = if size == 1 then true else (if size == 2 then true else size == 4)

-- The registers, by their offsets.
pub data Register : Type 0 where
  dr rsr fr ilpr ibrd fbrd lcr_h cr ifls imsc ris mis icr dmacr : Register
  identification : ℕ → Register
  other : Register

abbrev pub register_list : List (ℕ × Register)
register_list =
    (0x000, dr)
    ∷ (0x004, rsr)
    ∷ (0x018, fr)
    ∷ (0x020, ilpr)
    ∷ (0x024, ibrd)
    ∷ (0x028, fbrd)
    ∷ (0x02C, lcr_h)
    ∷ (0x030, cr)
    ∷ (0x034, ifls)
    ∷ (0x038, imsc)
    ∷ (0x03C, ris)
    ∷ (0x040, mis)
    ∷ (0x044, icr)
    ∷ (0x048, dmacr)
    ∷ (0xFE0, identification 0x11)
    ∷ (0xFE4, identification 0x10)
    ∷ (0xFE8, identification 0x14)
    ∷ (0xFEC, identification 0x00)
    ∷ (0xFF0, identification 0x0D)
    ∷ (0xFF4, identification 0xF0)
    ∷ (0xFF8, identification 0x05)
    ∷ (0xFFC, identification 0xB1)
    ∷ []

abbrev pub look_up : List (ℕ × Register) → ℕ → Register
look_up [] off = other
look_up ((o, r) ∷ rs) off = let rest = look_up rs off in if o == off then r else rest

unfoldable pub register_of : ℕ → Register
register_of off = look_up register_list off

-- The value of a register, and the port after the read.
unfoldable pub read_register : Register → VirtualUart → ℕ × VirtualUart
unfolding pop_rx get_flags
read_register dr u = (byte_or 0 (pop_rx u).0, (pop_rx u).1)
read_register fr u = (get_flags u, u)
read_register ibrd u = (u.ibrd, u)
read_register fbrd u = (u.fbrd, u)
read_register lcr_h u = (u.lcr_h, u)
read_register cr u = (u.cr, u)
read_register ifls u = (u.ifls, u)
read_register imsc u = (u.imsc, u)
read_register ris u = (u.ris, u)
read_register mis u = (bit_and u.ris u.imsc, u)
read_register dmacr u = (u.dmacr, u)
read_register (identification v) u = (v, u)
read_register _ u = (0, u)

unfoldable pub read : VirtualUart → (offset size : ℕ) → ℕ × VirtualUart
unfolding read_register register_of
read u offset size = if not (good_size size) then (0, u) else read_register (register_of offset) u

-- The port after a write, and the character that goes to the physical port, if there is one.
unfoldable pub write_register : Register → VirtualUart → ℕ → VirtualUart × Option ℕ
write_register dr u v = (record u { ris = bit_or u.ris int_tx }, some (bit_and v 0xFF))
write_register ibrd u v = (record u { ibrd = bit_and v 0xFFFF }, none)
write_register fbrd u v = (record u { fbrd = bit_and v 0x3F }, none)
write_register lcr_h u v = (record u { lcr_h = bit_and v 0xFF }, none)
write_register cr u v = (record u { cr = bit_and v 0xFFFF }, none)
write_register ifls u v = (record u { ifls = bit_and v 0x3F }, none)
write_register imsc u v = (record u { imsc = bit_and v 0x7FF }, none)
write_register icr u v = (record u { ris = clear_bits u.ris (v % 2 ^ 32) }, none)
write_register dmacr u v = (record u { dmacr = bit_and v 0x07 }, none)
write_register _ u v = (u, none)

-- A write, the character that it sends, and whether it was accepted.
unfoldable pub write : VirtualUart → (offset value size : ℕ) → (VirtualUart × Option ℕ) × Bool
unfolding write_register register_of
write u offset value size =
    if not (good_size size)
    then ((u, none), false)
    else (write_register (register_of offset) u value, true)

unfoldable pub pending_irq : VirtualUart → Option ℕ
pending_irq u = if not (bit_and u.ris u.imsc == 0) then some uart_spi_intid else none
