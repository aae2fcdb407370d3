-- ===== src/Devices/Tests.antt =====
-- The theorems on the devices at concrete states.
use hypervisor.Prelude.{
  ℕ, ◌+◌, ◌*◌, ◌^◌, ◌%◌, ◌≡◌, refl, arith, true, some, [], ◌∷◌, length, length-replicate, ok, ◌==◌,
  if◌then◌else◌,
}
use hypervisor.Vswitch.RxRing
use hypervisor.Vswitch.MacTable
use hypervisor.Arch.Regs.{VcpuContext, default_context, default_sys, set_reg}
use hypervisor.Arch.Abort.{handle_mmio_abort, handle_mmio_abort-load}
use hypervisor.Devices.Pl031.{VirtualPl031}
use hypervisor.Devices.Pl011.{VirtualUart, push_rx, pop_rx}
use hypervisor.Devices.Pl011
use hypervisor.Devices.Pl011.Receive.{
  IsValid, contents, Received, push_rx-Received, Delivered, pop_rx-Delivered,
}
use hypervisor.Devices.Gic.Distributor.{VirtualGicd, route_spi, write}
use hypervisor.Devices.Gic.Distributor
use hypervisor.Devices.Gic.Routing.{router, route_spi-write}
use hypervisor.Devices.Manager.{contains}
use hypervisor.Devices.Board.{uart, pl031, Board, Platform, devices, read, base_address, size}

abbrev clock : VirtualPl031
clock = record { load_value = 0; load_counter = 0; match_value = 0; control = 1; imsc = 0; ris = 0 }

new-IsValid : IsValid Pl011.new
unfolding Pl011.new
new-IsValid = record {
  size = length-replicate {A = ℕ} 64 0;
  head_lt = omega arith;
  tail_lt = omega arith;
}

quiet : Pl011.new.ris ≡ 0
unfolding Pl011.new
quiet = refl

push_rx-Received_example : Received Pl011.new 65 (push_rx Pl011.new 65)
push_rx-Received_example = push_rx-Received Pl011.new 65 new-IsValid

pop_rx-Delivered_example : Delivered Pl011.new (contents Pl011.new) (pop_rx Pl011.new)
pop_rx-Delivered_example = pop_rx-Delivered Pl011.new new-IsValid (omega (arith, quiet))

new-routers : length (Distributor.new 4).irouter ≡ 988
unfolding Distributor.new
new-routers = length-replicate {A = ℕ} 988 0

new-enabled : length (Distributor.new 4).enabled ≡ 32
unfolding Distributor.new
new-enabled = length-replicate {A = ℕ} 32 0

route_spi-write_example :
    route_spi (write (Distributor.new 4) (router 48) 3 8) 48
    ≡ (if 48 == 48 then 3 % 2 ^ 8 else route_spi (Distributor.new 4) 48)
route_spi-write_example =
    route_spi-write (Distributor.new 4) 48 48 3 (omega arith) (omega arith) new-routers

abbrev board : Board
board = record {
  machine = record {
    ram = λ a. 0;
    switch = MacTable.new;
    ports = RxRing.new ∷ RxRing.new ∷ [];
    spis = [];
  };
  counter = record { ticks = 0; freq = 1 };
  sent = [];
  passed = [];
}

abbrev platform : Platform
platform = record { uart_base = 0x09000000; gicd_base = 0x08000000; gicr_base = 0x080A0000 }

-- A trap of a 4-byte access with register 7, a load or a store: a translation fault at level 3, with a
-- valid syndrome and a 32-bit instruction.
abbrev trapped : ℕ → VcpuContext
trapped wnr = record default_context {
  sys_regs = record default_sys { esr_el2 = 0x93870007 + wnr * 2 ^ 6 };
}

-- The control register of the serial port, whose value at reset is 0x301.
run-read : read (uart Pl011.new) board 0x030 4 ≡ (some 0x301, uart Pl011.new)
unfolding read Pl011.read Pl011.read_register Pl011.register_of Pl011.new
run-read = refl

handle_mmio_abort-load_example :
    handle_mmio_abort
      (devices platform)
      (some (pl031 clock) ∷ some (uart Pl011.new) ∷ [])
      board
      (λ a. 0)
      (trapped 0)
      0x09000030
    ≡ ok (
      true,
      record (trapped 0) { gp_regs = set_reg (trapped 0).gp_regs 7 0x301 },
      some (pl031 clock) ∷ some (uart Pl011.new) ∷ [],
      board,
    )
unfolding devices contains base_address size read Pl011.read Pl011.read_register Pl011.register_of
    Pl011.new
handle_mmio_abort-load_example =
    handle_mmio_abort-load (devices platform) (trapped 0) (some (pl031 clock) ∷ []) []
      (uart Pl011.new) (uart Pl011.new) board (λ a. 0) 0x09000030 0x301 refl refl (refl, tt) refl
      refl
