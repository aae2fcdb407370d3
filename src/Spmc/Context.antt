-- ===== src/Spmc/Context.antt =====
-- src/sp_context.rs: the context of a secure partition, and the store of the registered ones.
use hypervisor.Prelude.{
  ℕ, Bool, true, false, Option, none, some, List, [], ◌∷◌, replicate, ◌==◌, if◌then◌else◌,
  update_first,
}
use hypervisor.Arch.Regs.{
  VcpuContext, GeneralPurposeRegs, default_context, default_sys, get_reg, set_reg,
  spsr_el1h_daif_masked,
}
use hypervisor.Spmc.Replies.{SmcResult8}

pub data SpState : Type 0 where
  reset idle running blocked preempted : SpState

-- The derived equality, by discriminants.
unfoldable pub discriminant : SpState → ℕ
discriminant reset = 0
discriminant idle = 1
discriminant running = 2
discriminant blocked = 3
discriminant preempted = 4

unfoldable pub is_state : SpState → SpState → Bool
unfolding discriminant
is_state s t = discriminant s == discriminant t

pub record SpContext : Type 0 where
  pub ctx : VcpuContext
  pub id : ℕ
  pub state : SpState
  pub entry : ℕ
  pub vsttbr : ℕ
  pub uuid : List ℕ

unfoldable pub new : (sp_id entry_point stack_top : ℕ) → List ℕ → SpContext
new sp_id entry_point stack_top uuid = record {
  ctx = record default_context {
    pc = entry_point;
    sp = stack_top;
    sys_regs = record default_sys { sp_el1 = stack_top };
    spsr_el2 = spsr_el1h_daif_masked;
  };
  id = sp_id;
  state = reset;
  entry = entry_point;
  vsttbr = 0;
  uuid = uuid;
}

unfoldable pub set_vsttbr : SpContext → ℕ → SpContext
set_vsttbr sp vsttbr = record sp { vsttbr = vsttbr }

unfoldable pub is_transition : SpState → SpState → Bool
is_transition reset idle = true
is_transition idle running = true
is_transition running idle = true
is_transition running blocked = true
is_transition blocked running = true
is_transition running preempted = true
is_transition preempted running = true
is_transition _ _ = false

-- `none` is the error, which every caller turns into a panic.
unfoldable pub transition_to : SpContext → SpState → Option SpContext
unfolding is_transition
transition_to sp t = if is_transition sp.state t then some (record sp { state = t }) else none

abbrev pub arg_regs : GeneralPurposeRegs → SmcResult8 → GeneralPurposeRegs
unfolding set_reg
arg_regs g r =
    let low = set_reg (set_reg (set_reg (set_reg g 0 r.x0) 1 r.x1) 2 r.x2) 3 r.x3 in
    set_reg (set_reg (set_reg (set_reg low 4 r.x4) 5 r.x5) 6 r.x6) 7 r.x7

unfoldable pub set_args : SpContext → SmcResult8 → SpContext
unfolding set_reg
set_args sp r = record sp { ctx = record sp.ctx { gp_regs = arg_regs sp.ctx.gp_regs r } }

unfoldable pub get_args : SpContext → SmcResult8
unfolding get_reg
get_args sp =
    let g = sp.ctx.gp_regs in
    record {
      x0 = get_reg g 0;
      x1 = get_reg g 1;
      x2 = get_reg g 2;
      x3 = get_reg g 3;
      x4 = get_reg g 4;
      x5 = get_reg g 5;
      x6 = get_reg g 6;
      x7 = get_reg g 7;
    }

abbrev pub max_sps : ℕ
max_sps = 4

abbrev pub Slots : Type 0
Slots = List (Option SpContext)

abbrev pub empty_store : Slots
empty_store = replicate max_sps none

abbrev pub is_free : Option SpContext → Bool
is_free none = true
is_free (some sp) = false

abbrev pub holds : ℕ → Option SpContext → Bool
holds id none = false
holds id (some sp) = sp.id == id

-- `none` is the panic without a free slot.
unfoldable pub register_sp : Slots → SpContext → Option Slots
unfolding update_first
register_sp slots sp =
    let (slots', placed) = update_first is_free (λ _. some sp) slots in
    if placed then some slots' else none

-- The partition that `get_sp_mut` points to.
unfoldable pub get_sp : Slots → ℕ → Option SpContext
get_sp [] id = none
get_sp (none ∷ slots) id = get_sp slots id
get_sp (some sp ∷ slots) id = let rest = get_sp slots id in if sp.id == id then some sp else rest

-- A write through that pointer.
unfoldable pub put_sp : Slots → ℕ → SpContext → Slots
unfolding update_first
put_sp slots id sp = (update_first (holds id) (λ _. some sp) slots).0

unfoldable pub is_registered_sp : Slots → ℕ → Bool
is_registered_sp [] id = false
is_registered_sp (none ∷ slots) id = is_registered_sp slots id
is_registered_sp (some sp ∷ slots) id =
    let rest = is_registered_sp slots id in if sp.id == id then true else rest

-- The partitions that `for_each_sp` visits, in order.
unfoldable pub registered : Slots → List SpContext
registered [] = []
registered (none ∷ slots) = registered slots
registered (some sp ∷ slots) = sp ∷ registered slots
