-- ===== src/Arch/Decoding.antt =====
-- src/arch/aarch64/hypervisor/decode.rs: the accesses that decoding gives.
use hypervisor.Prelude.{
  ℕ, zero, suc, ◌/◌, ◌%◌, ◌^◌, ◌<◌, ◌≡◌, refl, arith, ◌⊎◌, Bool, true, false, not, Option, some,
  leb, ◌==◌, if◌then◌else◌,
}
use hypervisor.Bits.Fields.{bit_and-ones}
use hypervisor.Arch.Decode.{
  MmioAccess, load, store, field, size_of, decode_syndrome, access_of, decode, reg, size, is_load,
  is_store,
}

-- The fields that tell an access: the register, the two bits of the size, and whether it stores.
pub record Fields : Type 0 where
  pub srt : ℕ
  pub sas : ℕ
  pub stores : Bool

-- A syndrome has the register in its bits 16 to 20, the size in 22 and 23 and the direction in 6; an
-- instruction has them in 0 to 4, in 30 and 31 and in 22, which is clear for a store. The syndrome
-- counts if its bit 24 is set.
abbrev pub of_syndrome : ℕ → Fields
of_syndrome iss = record {
  srt = iss / 2 ^ 16 % 32;
  sas = iss / 2 ^ 22 % 4;
  stores = iss / 2 ^ 6 % 2 == 1;
}

abbrev pub of_instruction : ℕ → Fields
of_instruction insn = record {
  srt = insn % 32;
  sas = insn / 2 ^ 30 % 4;
  stores = insn / 2 ^ 22 % 2 == 0;
}

abbrev pub fields_of : (insn iss : ℕ) → Fields
fields_of insn iss = if iss / 2 ^ 24 % 2 == 1 then of_syndrome iss else of_instruction insn

-- The access of these fields: of a register below 32, and of 1, 2, 4 or 8 bytes.
pub record IsAccess (f : Fields) (a : MmioAccess) : Type 0 where
  pub register : reg a ≡ f.srt
  pub in_range : reg a < 32
  pub bytes : size a ≡ 2 ^ f.sas
  pub at_most : (size a ≡ 1) ⊎ (size a ≡ 2) ⊎ (size a ≡ 4) ⊎ (size a ≡ 8)
  pub storing : is_store a ≡ f.stores
  pub loading : is_load a ≡ not f.stores

-- What decoding may give.
record Decodes (f : Fields) (o : Option MmioAccess) : Type 0 where
  sound : (a : MmioAccess) → o ≡ some a → IsAccess f a

size_of-power : (s : ℕ) → s < 4 → size_of s ≡ some (2 ^ s)
unfolding size_of
size_of-power zero h = refl
size_of-power (suc zero) h = refl
size_of-power (suc (suc zero)) h = refl
size_of-power (suc (suc (suc zero))) h = refl
size_of-power (suc (suc (suc (suc s)))) h = absurd (omega arith)

upper_bit : (s : ℕ) → s < 4 → not (s / 2 == 0) ≡ leb 2 s
upper_bit s h = ground (arith, h)

if-some : (c : Bool) (a b : MmioAccess) → (if c then some a else some b) ≡ some (if c then a else b)
if-some true a b = refl
if-some false a b = refl

-- With its valid bit set, a syndrome decodes to the access of its fields, whatever its other bits and
-- the instruction are; a load counts as sign-extending exactly if it has 4 or 8 bytes, since the flag
-- is read from the upper bit of the size.
pub decode-syndrome :
    (insn iss : ℕ)
    → field iss 24 1 ≡ 1
    → decode insn iss
      ≡ some (
          if field iss 6 1 == 1
          then store (field iss 16 0x1F) (2 ^ field iss 22 0x3)
          else load (field iss 16 0x1F) (2 ^ field iss 22 0x3) (leb 2 (field iss 22 0x3)))
unfolding decode decode_syndrome access_of
decode-syndrome insn iss valid =
    let small : field iss 22 0x3 < 4 = omega (arith, bit_and-ones 2 (iss / 2 ^ 22)) in
    let upper : field iss 23 1 ≡ field iss 22 0x3 / 2 =
      omega (arith, bit_and-ones 1 (iss / 2 ^ 23), bit_and-ones 2 (iss / 2 ^ 22)) in
    rw (valid, size_of-power (field iss 22 0x3) small, upper, upper_bit (field iss 22 0x3) small)
      (if-some (field iss 6 1 == 1) (store (field iss 16 0x1F) (2 ^ field iss 22 0x3))
        (load (field iss 16 0x1F) (2 ^ field iss 22 0x3) (leb 2 (field iss 22 0x3))))
