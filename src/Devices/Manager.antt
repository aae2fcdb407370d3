-- ===== src/Devices/Manager.antt =====
-- src/devices/mod.rs: the trait of a device, and the routing of an access to a device.
use hypervisor.Prelude.{
  ℕ, ◌+◌, ◌-◌, ◌%◌, ◌^◌, ◌≡◌, refl, ◌∙◌, ap, Bool, true, false, ◌&&◌, Option, none, some, List, [],
  ◌∷◌, ◌++◌, replicate, set, map, Result, ok, err, leb, ltb, if◌then◌else◌, All,
}
use hypervisor.Devices.Virtio.Queue.{Stop}

-- `MmioDevice`: `V` is the state of a device, `W` what the devices share with the machine.
pub record MmioDevice (V W : Type 0) : Type 0 where
  pub read : V → W → (offset size : ℕ) → Option ℕ × V
  pub write : V → W → (offset value size : ℕ) → Result Stop (V × W)
  pub base_address : V → ℕ
  pub size : V → ℕ

abbrev pub max_devices : ℕ
max_devices = 8

pub record DeviceManager (V : Type 0) : Type 0 where
  pub devices : List (Option V)
  pub count : ℕ

module _ {V : Type 0} where
  abbrev pub new : DeviceManager V
  new = record { devices = replicate max_devices none; count = 0 }

  unfoldable pub reset : DeviceManager V → DeviceManager V
  reset m = record m { devices = map (λ _. none) m.devices; count = 0 }

  -- The slot of the device, if there was one left.
  unfoldable pub register_device : DeviceManager V → V → DeviceManager V × Option ℕ
  register_device m dev = if leb max_devices m.count then (m, none) else (
    record m { devices = set m.devices m.count (some dev); count = m.count + 1 },
    some m.count,
  )

module _ {V W : Type 0} (M : MmioDevice V W) where
  unfoldable pub contains : V → ℕ → Bool
  contains d addr = leb (M.base_address d) addr && ltb addr ((M.base_address d + M.size d) % 2 ^ 64)

  -- The value of a read, the slots and the machine after the access.
  abbrev pub Outcome : Type 0
  Outcome = Result Stop (Option ℕ × List (Option V) × W)

  abbrev pub written : List (Option V) → Result Stop (V × W) → Outcome
  written rest (err e) = err e
  written rest (ok (d, w)) = ok (none, some d ∷ rest, w)

  abbrev pub behind : Option V → Outcome → Outcome
  behind slot (err e) = err e
  behind slot (ok (v, slots, w)) = ok (v, slot ∷ slots, w)

  -- The loop over the slots; a write to an address without a device is ignored, a read of it gives 0.
  unfoldable pub handle_mmio :
      List (Option V) → W → (addr value size : ℕ) → (is_write : Bool) → Outcome
  unfolding contains
  handle_mmio [] w addr value size is_write = ok (if is_write then none else some 0, [], w)
  handle_mmio (none ∷ slots) w addr value size is_write =
      behind none (handle_mmio slots w addr value size is_write)
  handle_mmio (some d ∷ slots) w addr value size is_write =
      let offset = addr - M.base_address d in
      let out = M.read d w offset size in
      let rest = behind (some d) (handle_mmio slots w addr value size is_write) in
      if contains d addr
      then (if is_write
          then written slots (M.write d w offset value size)
          else ok (out.0, some out.1 ∷ slots, w))
      else rest

  -- The slot does not take the address.
  abbrev pub Passes : ℕ → Option V → Type 0
  Passes addr none = Unit
  Passes addr (some d) = contains d addr ≡ false

  -- What follows the slots that pass an address.
  abbrev pub after : List (Option V) → Outcome → Outcome
  after [] o = o
  after (s ∷ ss) o = behind s (after ss o)

  handle_mmio-after :
      (front : List (Option V)) (slots : List (Option V)) (w : W) (addr value size : ℕ) (b : Bool)
      → All (Passes addr) front
      → handle_mmio (front ++ slots) w addr value size b
        ≡ after front (handle_mmio slots w addr value size b)
  unfolding handle_mmio
  handle_mmio-after [] slots w addr value size b p = refl
  handle_mmio-after (none ∷ front) slots w addr value size b p =
      ap (behind none) (handle_mmio-after front slots w addr value size b p.1)
  handle_mmio-after (some d ∷ front) slots w addr value size b p =
      rw p.0 (ap (behind (some d)) (handle_mmio-after front slots w addr value size b p.1))

  after-ok :
      (front : List (Option V)) (v : Option ℕ) (slots : List (Option V)) (w : W)
      → after front (ok (v, slots, w)) ≡ ok (v, front ++ slots, w)
  after-ok [] v slots w = refl
  after-ok (s ∷ front) v slots w = ap (behind s) (after-ok front v slots w)

  -- A read goes to the first device that contains the address, at its offset within the device; it
  -- gives that device's value and changes no other device and nothing of the machine.
  pub handle_mmio-read :
      (front back : List (Option V)) (d : V) (w : W) (addr value size : ℕ)
      → All (Passes addr) front
      → contains d addr ≡ true
      → handle_mmio (front ++ some d ∷ back) w addr value size false
        ≡ ok (
          (M.read d w (addr - M.base_address d) size).0,
          front ++ some (M.read d w (addr - M.base_address d) size).1 ∷ back,
          w,
        )
  unfolding handle_mmio
  handle_mmio-read front back d w addr value size p c =
      handle_mmio-after front (some d ∷ back) w addr value size false p
      ∙ rw c (
          after-ok front (M.read d w (addr - M.base_address d) size).0
            (some (M.read d w (addr - M.base_address d) size).1 ∷ back) w)

  -- A write goes there too, and changes that device and the machine as the device says.
  pub handle_mmio-write :
      (front back : List (Option V)) (d : V) (w : W) (addr value size : ℕ) (d' : V) (w' : W)
      → All (Passes addr) front
      → contains d addr ≡ true
      → M.write d w (addr - M.base_address d) value size ≡ ok (d', w')
      → handle_mmio (front ++ some d ∷ back) w addr value size true
        ≡ ok (none, front ++ some d' ∷ back, w')
  unfolding handle_mmio
  handle_mmio-write front back d w addr value size d' w' p c e =
      handle_mmio-after front (some d ∷ back) w addr value size true p
      ∙ rw (c, e) (after-ok front none (some d' ∷ back) w')
