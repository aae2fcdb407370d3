-- ===== src/Arch/Abort.antt =====
-- src/arch/aarch64/hypervisor/exception.rs: an access of a guest to a device.
use hypervisor.Prelude.{
  ℕ, ◌-◌, ◌^◌, ◌≡◌, refl, ◌∙◌, ap, Bool, true, false, Option, none, some, List, ◌∷◌, ◌++◌, Result,
  ok, err, All, bit_and, leb, ltb, ◌==◌, if◌then◌else◌,
}
use hypervisor.Ffa.Descriptors.{Bytes, read_u32}
use hypervisor.Arch.Regs.{VcpuContext, get_reg, set_reg}
use hypervisor.Arch.Decode.{MmioAccess, load, store, field, decode}
use hypervisor.Arch.Decoding.{decode-syndrome}
use hypervisor.Devices.Virtio.Queue.{Stop}
use hypervisor.Devices.Manager.{
  MmioDevice, contains, handle_mmio, Passes, Outcome, handle_mmio-read, handle_mmio-write,
}

-- The low 25 bits of the syndrome.
abbrev pub iss_of : VcpuContext → ℕ
iss_of c = bit_and c.sys_regs.esr_el2 0x01FFFFFF

-- The instruction to decode: none is needed with a valid syndrome, and none can be read behind an
-- address that is virtual.
unfoldable pub instruction : Bytes → VcpuContext → Option ℕ
instruction m c =
    if field (iss_of c) 24 1 == 1
    then some 0
    else (if ltb c.pc 0x800000000000 then some (read_u32 m c.pc) else none)

module _ {V W : Type 0} (M : MmioDevice V W) where
  -- Whether the access was handled, the registers, the devices and the machine after it.
  abbrev pub Handled : Type 0
  Handled = Result Stop (Bool × VcpuContext × List (Option V) × W)

  abbrev pub stored : VcpuContext → Outcome M → Handled
  stored c (err e) = err e
  stored c (ok (v, slots, w)) = ok (true, c, slots, w)

  abbrev pub loaded : VcpuContext → ℕ → Outcome M → Handled
  loaded c reg (err e) = err e
  loaded c reg (ok (none, slots, w)) = ok (false, c, slots, w)
  loaded c reg (ok (some v, slots, w)) =
      ok (true, record c { gp_regs = set_reg c.gp_regs reg v }, slots, w)

  unfoldable pub access : List (Option V) → W → VcpuContext → ℕ → Option MmioAccess → Handled
  access slots w c addr none = ok (false, c, slots, w)
  access slots w c addr (some (store reg size)) =
      stored c (handle_mmio M slots w addr (get_reg c.gp_regs reg) size true)
  access slots w c addr (some (load reg size x)) =
      loaded c reg (handle_mmio M slots w addr 0 size false)

  abbrev pub decoded : List (Option V) → W → VcpuContext → ℕ → Option ℕ → Handled
  unfolding access
  decoded slots w c addr none = ok (false, c, slots, w)
  decoded slots w c addr (some insn) = access slots w c addr (decode insn (iss_of c))

  unfoldable pub handle_mmio_abort : List (Option V) → W → Bytes → VcpuContext → ℕ → Handled
  unfolding decoded instruction
  handle_mmio_abort slots w m c addr = decoded slots w c addr (instruction m c)

  module _ (c : VcpuContext) (valid : field (iss_of c) 24 1 ≡ 1) where
    no_instruction : (m : Bytes) → instruction m c ≡ some 0
    unfolding instruction
    no_instruction m = rw valid refl

    abort-access :
        (slots : List (Option V)) (w : W) (m : Bytes) (addr : ℕ)
        → handle_mmio_abort slots w m c addr
          ≡ access slots w c addr (
              some (
                if field (iss_of c) 6 1 == 1
                then store (field (iss_of c) 16 0x1F) (2 ^ field (iss_of c) 22 0x3)
                else load
                    (field (iss_of c) 16 0x1F)
                    (2 ^ field (iss_of c) 22 0x3)
                    (leb 2 (field (iss_of c) 22 0x3))))
    unfolding handle_mmio_abort decoded
    abort-access slots w m addr =
        ap (decoded slots w c addr) (no_instruction m)
        ∙ ap (access slots w c addr) (decode-syndrome 0 (iss_of c) valid)

  -- A load that traps with a valid syndrome, whatever its other fields say of the fault, reads from the
  -- first device that contains the address, at the offset within it and with the size of the access; its
  -- value goes to the register of the load, and the other registers, the other devices and the machine
  -- stay as they were.
  pub handle_mmio_abort-load :
      (c : VcpuContext) (front back : List (Option V)) (d d' : V) (w : W) (m : Bytes) (addr v : ℕ)
      → field (iss_of c) 24 1 ≡ 1
      → field (iss_of c) 6 1 ≡ 0
      → All (Passes M addr) front
      → contains M d addr ≡ true
      → M.read d w (addr - M.base_address d) (2 ^ field (iss_of c) 22 0x3) ≡ (some v, d')
      → handle_mmio_abort (front ++ some d ∷ back) w m c addr
        ≡ ok (
          true,
          record c { gp_regs = set_reg c.gp_regs (field (iss_of c) 16 0x1F) v },
          front ++ some d' ∷ back,
          w,
        )
  unfolding access
  handle_mmio_abort-load c front back d d' w m addr v valid loads p h e =
      let bytes = 2 ^ field (iss_of c) 22 0x3 in
      abort-access c valid (front ++ some d ∷ back) w m addr
      ∙ rw loads refl
      ∙ ap (loaded c (field (iss_of c) 16 0x1F))
          (handle_mmio-read M front back d w addr 0 bytes p h)
      ∙ ap (λ o. loaded c (field (iss_of c) 16 0x1F) (ok (o.0, front ++ some o.1 ∷ back, w))) e

  -- A store that traps with a valid syndrome writes the value of its register to that device, and
  -- changes no register.
  pub handle_mmio_abort-store :
      (c : VcpuContext) (front back : List (Option V)) (d d' : V) (w w' : W) (m : Bytes) (addr : ℕ)
      → field (iss_of c) 24 1 ≡ 1
      → field (iss_of c) 6 1 ≡ 1
      → All (Passes M addr) front
      → contains M d addr ≡ true
      → M.write d w
          (addr - M.base_address d)
          (get_reg c.gp_regs (field (iss_of c) 16 0x1F))
          (2 ^ field (iss_of c) 22 0x3)
        ≡ ok (d', w')
      → handle_mmio_abort (front ++ some d ∷ back) w m c addr
        ≡ ok (true, c, front ++ some d' ∷ back, w')
  unfolding access
  handle_mmio_abort-store c front back d d' w w' m addr valid stores p h e =
      let bytes = 2 ^ field (iss_of c) 22 0x3 in
      abort-access c valid (front ++ some d ∷ back) w m addr
      ∙ rw stores refl
      ∙ ap (stored c) (
          handle_mmio-write M front back d w addr (get_reg c.gp_regs (field (iss_of c) 16 0x1F))
            bytes d' w' p h e)
