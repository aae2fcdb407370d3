-- ===== src/Ffa/Proxy/State.antt =====
-- src/ffa/proxy.rs: the state that a call works on, and its registers. A handler always returns
-- true, so a model of one returns the registers and the state.
use hypervisor.Prelude.{
  ℕ, zero, suc, ◌+◌, ◌-◌, ◌*◌, ◌/◌, ◌%◌, ◌^◌, Bool, ◌&&◌, List, [], ◌∷◌, ◌++◌, get_or, set, bit_and,
  bit_or, leb,
}
use hypervisor.Mm.Allocator.{Heap}
use hypervisor.Ffa.Ids.{FfaError, code, vm_id_to_partition_id}
use hypervisor.Ffa.StubSpmc.{Range, Spmc}
use hypervisor.Ffa.Notifications.{Endpoints}
use hypervisor.Ffa.Mailbox.{FfaMailbox, new}
use hypervisor.Ffa.Descriptors.{Bytes}

-- x0 to x7 of the calling vCPU.
pub record Regs : Type 0 where
  pub x0 : ℕ
  pub x1 : ℕ
  pub x2 : ℕ
  pub x3 : ℕ
  pub x4 : ℕ
  pub x5 : ℕ
  pub x6 : ℕ
  pub x7 : ℕ

-- The statics that the proxy reads and writes, and the memory behind them: `vm` is the calling VM,
-- `vttbr` the level 0 table of the running VM (0 without Stage-2), `vm_tables` is `PER_VM_VTTBR`,
-- `tables` the heap with the page tables, `ram` the memory of the guests, byte by byte.
pub record Proxy : Type 0 where
  pub vm : ℕ
  pub spmc_present : Bool
  pub boxes : List FfaMailbox
  pub spmc : Spmc
  pub notifications : Endpoints
  pub tables : Heap
  pub vttbr : ℕ
  pub vm_tables : List ℕ
  pub ram : Bytes

abbrev pub Reply : Type 0
Reply = Regs × Proxy

abbrev pub ffa_error_id : ℕ
ffa_error_id = 0x84000060

abbrev pub ffa_success : ℕ
ffa_success = 0x84000061

unfoldable pub ffa_error : Regs → FfaError → Regs
ffa_error r e = record r { x0 = ffa_error_id; x2 = code e }

abbrev pub fail : Regs → Proxy → FfaError → Reply
fail r s e = (ffa_error r e, s)

abbrev pub succeed : Regs → Regs
succeed r = record r { x0 = ffa_success }

-- `get_mailbox`, read and written back.
abbrev pub get_mailbox : Proxy → ℕ → FfaMailbox
get_mailbox s vm = get_or s.boxes vm new

abbrev pub put_mailbox : Proxy → ℕ → FfaMailbox → Proxy
put_mailbox s vm b = record s { boxes = set s.boxes vm b }

-- The partition ID of the calling VM.
abbrev pub caller : Proxy → ℕ
caller s = vm_id_to_partition_id s.vm

-- A handle in the two registers of a request.
unfoldable pub request_handle : Regs → ℕ
request_handle r = bit_or (bit_and r.x1 0xFFFFFFFF) (bit_and r.x2 0xFFFFFFFF * 2 ^ 32)

-- A handle in the two registers of a reply.
unfoldable pub reply_handle : Regs → ℕ → Regs
reply_handle r h = record r { x2 = bit_and h 0xFFFFFFFF; x3 = h / 2 ^ 32 }

abbrev pub guest_load_addr : ℕ
guest_load_addr = 0x48000000

abbrev pub linux_mem_size : ℕ
linux_mem_size = 0x40000000

unfoldable pub is_guest_ram : ℕ → ℕ → Bool
is_guest_ram ipa len =
    leb guest_load_addr ipa
    && leb len linux_mem_size
    && leb ipa (guest_load_addr + linux_mem_size - len)

-- The pages of a range, from its page `p` on.
unfoldable pub range_pages : ℕ → ℕ → ℕ → List ℕ
range_pages base p zero = []
range_pages base p (suc n) = (base + p * 4096) % 2 ^ 64 ∷ range_pages base (p + 1) n

-- The pages that the two nested loops over ranges visit, in order.
unfoldable pub pages : List Range → List ℕ
unfolding range_pages
pages [] = []
pages ((base, n) ∷ rs) = range_pages base 0 n ++ pages rs
