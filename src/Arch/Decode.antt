-- ===== src/Arch/Decode.antt =====
-- src/arch/aarch64/hypervisor/decode.rs: the load or store behind a data abort.
use hypervisor.Prelude.{
  ℕ, ◌/◌, ◌^◌, Bool, true, false, not, Option, none, some, bit_and, ◌==◌, if◌then◌else◌,
}

pub data MmioAccess : Type 0 where
  load : (reg size : ℕ) → Bool → MmioAccess
  store : (reg size : ℕ) → MmioAccess

-- The value of `n` bits of a word, from bit `k` on.
abbrev pub field : ℕ → ℕ → ℕ → ℕ
field w k mask = bit_and (w / 2 ^ k) mask

-- The bytes of an access, from the two bits that encode them.
unfoldable pub size_of : ℕ → Option ℕ
size_of sas =
    if sas == 0
    then some 1
    else (if sas == 1
        then some 2
        else (if sas == 2 then some 4 else (if sas == 3 then some 8 else none)))

-- A load or store with an unsigned immediate.
unfoldable pub decode_instruction : ℕ → Option MmioAccess
decode_instruction insn =
    let size = 2 ^ field insn 30 0x3 in
    let rt = bit_and insn 0x1F in
    if bit_and insn 0x3B000000 == 0x39000000
    then (if field insn 22 1 == 1 then some (load rt size false) else some (store rt size))
    else none

-- The rest of a syndrome, once the size is known.
unfoldable pub access_of : (iss : ℕ) → Option ℕ → Option MmioAccess
access_of iss none = none
access_of iss (some size) =
    if field iss 6 1 == 1
    then some (store (field iss 16 0x1F) size)
    else some (load (field iss 16 0x1F) size (not (field iss 23 1 == 0)))

unfoldable pub decode_syndrome : ℕ → Option MmioAccess
unfolding access_of size_of
decode_syndrome iss = access_of iss (size_of (field iss 22 0x3))

-- The syndrome tells the access if its bit 24 is set, else the instruction does.
unfoldable pub decode : (insn iss : ℕ) → Option MmioAccess
unfolding decode_instruction decode_syndrome
decode insn iss = if field iss 24 1 == 0 then decode_instruction insn else decode_syndrome iss

unfoldable pub reg : MmioAccess → ℕ
reg (load r s e) = r
reg (store r s) = r

unfoldable pub size : MmioAccess → ℕ
size (load r s e) = s
size (store r s) = s

unfoldable pub is_load : MmioAccess → Bool
is_load (load r s e) = true
is_load (store r s) = false

unfoldable pub is_store : MmioAccess → Bool
is_store (load r s e) = false
is_store (store r s) = true
