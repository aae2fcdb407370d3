-- ===== src/Vm/Psci.antt =====
-- src/arch/aarch64/hypervisor/exception.rs: the calls by which a guest starts and stops vCPUs, the
-- other hypercalls, and the routing of an SMC. Messages to the console are left out.
use hypervisor.Prelude.{
  ℕ, ◌-◌, ◌%◌, ◌^◌, Bool, true, false, Option, none, some, List, [], ◌∷◌, set, bit_and, leb, ◌==◌,
  ◌&&◌, ◌||◌, if◌then◌else◌, not,
}
use hypervisor.Arch.Regs.{VcpuContext, GeneralPurposeRegs, get_reg, set_reg}
use hypervisor.Ffa.Proxy.State.{Regs, Proxy, Reply}
use hypervisor.Ffa.Proxy.Dispatch.{handle_ffa_call}
use hypervisor.Vm.Global.{VmGlobalState, request}

pub data PsciFunction : Type 0 where
  version features cpu_off cpu_on affinity_info migrate_info_type system_off : PsciFunction
  system_reset cpu_suspend unknown : PsciFunction

abbrev psci_functions : List (ℕ × PsciFunction)
psci_functions =
    (0x84000000, version)
    ∷ (0x84000001, cpu_suspend)
    ∷ (0x84000002, cpu_off)
    ∷ (0x84000003, cpu_on)
    ∷ (0xC4000003, cpu_on)
    ∷ (0x84000004, affinity_info)
    ∷ (0xC4000004, affinity_info)
    ∷ (0x84000006, migrate_info_type)
    ∷ (0x84000008, system_off)
    ∷ (0x84000009, system_reset)
    ∷ (0x8400000A, features)
    ∷ []

abbrev look_up : List (ℕ × PsciFunction) → ℕ → PsciFunction
look_up [] fid = unknown
look_up ((id, f) ∷ rest) fid = if id == fid then f else look_up rest fid

unfoldable pub function_of : ℕ → PsciFunction
function_of fid = look_up psci_functions fid

abbrev is_known : PsciFunction → Bool
is_known unknown = false
is_known _ = true

unfoldable pub is_psci_function : ℕ → Bool
unfolding function_of
is_psci_function fid = is_known (function_of fid)

abbrev pub psci_not_supported : ℕ
psci_not_supported = 0xFFFFFFFF

-- The answer of PSCI_FEATURES.
unfoldable pub feature : PsciFunction → ℕ
feature version = 0
feature cpu_off = 0
feature system_off = 0
feature system_reset = 0
feature features = 0
feature cpu_on = 0
feature affinity_info = 0
feature _ = psci_not_supported

-- Whether the guest goes on, its registers, and the state of the VM.
abbrev pub Handled : Type 0
Handled = Bool × VcpuContext × VmGlobalState

abbrev pub x : VcpuContext → ℕ → ℕ
x c n = get_reg c.gp_regs n

abbrev pub with_x0 : VcpuContext → ℕ → VcpuContext
with_x0 c v = record c { gp_regs = set_reg c.gp_regs 0 v }

abbrev end_turn : VmGlobalState → VmGlobalState
end_turn g = record g { terminal_exit = set g.terminal_exit g.current_vcpu_id true }

-- The amount of a shift by more than 63 counts modulo 64, as in a release build.
abbrev pub affinity : VmGlobalState → ℕ → ℕ
affinity g target =
    if bit_and g.vcpu_online_mask (2 ^ (bit_and target 0xFF % 64)) == 0 then 1 else 0

unfoldable pub call : PsciFunction → VcpuContext → VmGlobalState → Handled
unfolding feature function_of
call version c g = (true, with_x0 c 2, g)
call features c g = (true, with_x0 c (feature (function_of (x c 1))), g)
call cpu_off c g = (false, with_x0 c 0, end_turn g)
call cpu_on c g =
    let asked = request g.pending_cpu_on (x c 1) (x c 2) (x c 3) in
    (false, with_x0 c 0, record g { pending_cpu_on = asked })
call affinity_info c g = (true, with_x0 c (affinity g (x c 1)), g)
call migrate_info_type c g = (true, with_x0 c 2, g)
call system_off c g = (false, c, end_turn g)
call system_reset c g = (false, c, end_turn g)
call cpu_suspend c g = (true, with_x0 c 0, g)
call unknown c g = (true, with_x0 c psci_not_supported, g)

unfoldable pub handle_psci : VcpuContext → VmGlobalState → (function_id : ℕ) → Handled
unfolding call function_of
handle_psci c g fid = call (function_of fid) c g

-- Whether the guest goes on, its registers, the state of the VM, and a character to print.
abbrev pub Hypercall : Type 0
Hypercall = Bool × VcpuContext × VmGlobalState × Option ℕ

abbrev silent : Handled → Hypercall
silent (goes_on, c, g) = (goes_on, c, g, none)

abbrev char_or : ℕ → Option ℕ → ℕ
char_or e none = e
char_or e (some ch) = bit_and ch 0xFF

-- `input` is the character that waits in the physical serial port.
unfoldable pub handle_jailhouse_debug_console :
    (input : Option ℕ) → VcpuContext → VmGlobalState → Hypercall
handle_jailhouse_debug_console input c g =
    if x c 0 == 8
    then (true, with_x0 c 0, g, some (x c 1 % 2 ^ 8))
    else (if x c 0 == 9
        then (true, with_x0 c (char_or (2 ^ 64 - 1) input), g, none)
        else (true, with_x0 c 0, g, none))

unfoldable pub handle_hypercall_with_imm :
    (input : Option ℕ) → VcpuContext → VmGlobalState → (hvc_imm : ℕ) → Hypercall
unfolding handle_jailhouse_debug_console handle_psci
handle_hypercall_with_imm input c g hvc_imm =
    if hvc_imm == 0x4A48
    then handle_jailhouse_debug_console input c g
    else (if not (bit_and (x c 0) 0x80000000 == 0)
        then silent (handle_psci c g (x c 0))
        else (if x c 0 == 0
            then (true, with_x0 c 0, g, some (x c 1 % 2 ^ 8))
            else (if x c 0 == 1
                then (false, with_x0 c 0, g, none)
                else (false, with_x0 c (2 ^ 64 - 1), g, none))))

unfoldable pub handle_hypercall : (input : Option ℕ) → VcpuContext → VmGlobalState → Hypercall
unfolding handle_hypercall_with_imm
handle_hypercall input c g = handle_hypercall_with_imm input c g (bit_and c.sys_regs.esr_el2 0xFFFF)

unfoldable pub is_ffa_function : ℕ → Bool
is_ffa_function fid =
    let base = bit_and fid 0xFFFFFF00 in
    (base == 0x84000000 || base == 0xC4000000) && leb 0x60 (bit_and fid 0xFF)

-- x0 to x7, out of the registers and back.
abbrev pub regs_of : VcpuContext → Regs
regs_of c = record {
  x0 = x c 0;
  x1 = x c 1;
  x2 = x c 2;
  x3 = x c 3;
  x4 = x c 4;
  x5 = x c 5;
  x6 = x c 6;
  x7 = x c 7;
}

abbrev with_low : GeneralPurposeRegs → Regs → GeneralPurposeRegs
with_low gp r = set_reg (set_reg (set_reg (set_reg gp 0 r.x0) 1 r.x1) 2 r.x2) 3 r.x3

abbrev with_high : GeneralPurposeRegs → Regs → GeneralPurposeRegs
with_high gp r = set_reg (set_reg (set_reg (set_reg gp 4 r.x4) 5 r.x5) 6 r.x6) 7 r.x7

-- Whether the guest goes on, its registers, the state of the VM and that of the proxy.
abbrev pub Smc : Type 0
Smc = Bool × VcpuContext × VmGlobalState × Proxy

abbrev by_psci : Handled → Proxy → Smc
by_psci (goes_on, c, g) s = (goes_on, c, g, s)

abbrev by_ffa : VcpuContext → VmGlobalState → Reply → Smc
by_ffa c g (r, s) = (true, record c { gp_regs = with_high (with_low c.gp_regs r) r }, g, s)

-- `smc` is the call to EL3; of its answer x0 to x3 are taken.
unfoldable pub handle_smc : (smc : Regs → Regs) → VcpuContext → VmGlobalState → Proxy → Smc
unfolding is_psci_function handle_psci is_ffa_function handle_ffa_call
handle_smc smc c g s =
    if is_psci_function (x c 0)
    then by_psci (handle_psci c g (x c 0)) s
    else (if is_ffa_function (x c 0)
        then by_ffa c g (handle_ffa_call smc (regs_of c) s)
        else (true, record c { gp_regs = with_low c.gp_regs (smc (regs_of c)) }, g, s))
