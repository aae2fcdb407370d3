-- ===== src/Vm/ListRegisters.antt =====
-- src/arch/aarch64/peripherals/gicv3.rs: the list registers through which virtual interrupts reach a
-- guest. The four registers are a list of four words.
use hypervisor.Prelude.{
  ℕ, zero, suc, ◌+◌, ◌*◌, ◌/◌, ◌^◌, Bool, Option, none, some, List, get_or, set, bit_and, bit_or,
  ◌==◌, ◌&&◌, ◌||◌, if◌then◌else◌,
}

-- `IRQ_DEFAULT_PRIORITY`.
abbrev pub irq_default_priority : ℕ
irq_default_priority = 0xA0

-- `VTIMER_IRQ`.
abbrev pub vtimer_irq : ℕ
vtimer_irq = 27

unfoldable pub num_list_registers : ℕ → ℕ
num_list_registers vtr = bit_and vtr 0x1F + 1

-- A register that the code does not know reads as 0, and a write to it is ignored.
abbrev pub read_lr : List ℕ → ℕ → ℕ
read_lr lrs n = get_or lrs n 0

abbrev pub write_lr : List ℕ → ℕ → ℕ → List ℕ
write_lr lrs n value = set lrs n value

unfoldable pub get_lr_state : ℕ → ℕ
get_lr_state lr = bit_and (lr / 2 ^ 62) 0x3

unfoldable pub get_lr_intid : ℕ → ℕ
get_lr_intid lr = bit_and lr 0xFFFFFFFF

unfoldable pub get_lr_priority : ℕ → ℕ
get_lr_priority lr = bit_and (lr / 2 ^ 48) 0xFF

-- Pending, and in group 1.
unfoldable pub build_lr : (intid priority : ℕ) → ℕ
build_lr intid priority = bit_or (bit_or (bit_or (2 ^ 62) (2 ^ 60)) (priority * 2 ^ 48)) intid

abbrev hw_lr : (intid pintid priority : ℕ) → ℕ
hw_lr intid pintid priority =
    bit_or
      (bit_or (bit_or (bit_or (bit_or (2 ^ 62) (2 ^ 61)) (2 ^ 60)) (priority * 2 ^ 48))
        (bit_and pintid 0x3FF * 2 ^ 32))
      intid

-- The search for a free register and the write to it, with `n` registers left, from register `i` on;
-- `none` is the error that there is none.
unfoldable pub inject_from : (n i : ℕ) → ℕ → List ℕ → Option (List ℕ)
inject_from zero i value lrs = none
inject_from (suc n) i value lrs =
    let rest = inject_from n (i + 1) value lrs in
    if get_lr_state (read_lr lrs i) == 0 then some (write_lr lrs i value) else rest

unfoldable pub inject_interrupt : (vtr : ℕ) → List ℕ → (intid priority : ℕ) → Option (List ℕ)
unfolding inject_from
inject_interrupt vtr lrs intid priority =
    inject_from (num_list_registers vtr) 0 (build_lr intid priority) lrs

-- The loop that frees the registers in which the interrupt is still active.
unfoldable pub clean_from : (n i : ℕ) → (intid : ℕ) → List ℕ → List ℕ
clean_from zero i intid lrs = lrs
clean_from (suc n) i intid lrs =
    let lr = read_lr lrs i in
    clean_from n (i + 1) intid
      (if get_lr_intid lr == intid && get_lr_state lr == 2 then write_lr lrs i 0 else lrs)

unfoldable pub inject_hw_interrupt :
    (vtr : ℕ) → List ℕ → (intid pintid priority : ℕ) → List ℕ × Option (List ℕ)
unfolding inject_from clean_from
inject_hw_interrupt vtr lrs intid pintid priority =
    let cleaned = clean_from (num_list_registers vtr) 0 intid lrs in
    (cleaned, inject_from (num_list_registers vtr) 0 (hw_lr intid pintid priority) cleaned)

unfoldable pub clear_from : (n i : ℕ) → (intid : ℕ) → List ℕ → List ℕ
clear_from zero i intid lrs = lrs
clear_from (suc n) i intid lrs =
    let rest = clear_from n (i + 1) intid lrs in
    if get_lr_intid (read_lr lrs i) == intid then write_lr lrs i 0 else rest

unfoldable pub clear_interrupt : (vtr : ℕ) → List ℕ → (intid : ℕ) → List ℕ
unfolding clear_from
clear_interrupt vtr lrs intid = clear_from (num_list_registers vtr) 0 intid lrs

unfoldable pub find_from : (n i : ℕ) → List ℕ → Option ℕ
find_from zero i lrs = none
find_from (suc n) i lrs =
    let rest = find_from n (i + 1) lrs in if get_lr_state (read_lr lrs i) == 0 then some i else rest

unfoldable pub find_free_lr : (vtr : ℕ) → List ℕ → Option ℕ
unfolding find_from
find_free_lr vtr lrs = find_from (num_list_registers vtr) 0 lrs

abbrev is_pending : ℕ → Bool
is_pending state = state == 1 || state == 3

unfoldable pub count_from : (n i : ℕ) → List ℕ → ℕ
count_from zero i lrs = 0
count_from (suc n) i lrs =
    (if is_pending (get_lr_state (read_lr lrs i)) then 1 else 0) + count_from n (i + 1) lrs

unfoldable pub pending_count : (vtr : ℕ) → List ℕ → ℕ
unfolding count_from
pending_count vtr lrs = count_from (num_list_registers vtr) 0 lrs
