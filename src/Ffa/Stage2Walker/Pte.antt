-- ===== src/Ffa/Stage2Walker/Pte.antt =====
-- The bits of a page table entry, as arithmetic.
use hypervisor.Prelude.{
  ℕ, zero, suc, ◌+◌, ◌-◌, ◌*◌, ◌/◌, ◌%◌, ◌^◌, ◌<◌, ◌≤◌, ◌≡◌, refl, ap, ◌∙◌, arith, Bool, true,
  false, not, bit_and, bit_or, ◌==◌,
}
use hypervisor.Bits.{bit_and_step, bit_or_step}
use hypervisor.Bits.Test.{complement}
use hypervisor.Bits.Fields.{
  bit_and-ones, bit_and-field, bit_or_fields, bit_or-zero, zero-bit_or, bit_or_low, zero-bit_and,
  set_field,
}
use hypervisor.Ffa.Stage2Walker.{
  pt_index_mask, is_valid, is_table, is_descriptor, next_table, with_field, split_entry, descriptor,
  block_mask_2mb, pte_sw_mask,
}

pub valid_bit : (e : ℕ) → bit_and e 1 ≡ e % 2
valid_bit e = bit_and-ones 1 e

pub table_bit : (e : ℕ) → bit_and e 2 ≡ e / 2 % 2 * 2
table_bit e = bit_and-field 1 1 e

pub low_two_bits : (e : ℕ) → bit_and e 3 ≡ e % 4
low_two_bits e = bit_and-ones 2 e

pub address_bits : (e : ℕ) → next_table e ≡ e / 2 ^ 12 % 2 ^ 36 * 2 ^ 12
address_bits e = bit_and-field 36 12 e

pub index_bits : (x : ℕ) → bit_and x pt_index_mask ≡ x % 512
index_bits x = bit_and-ones 9 x

pub ruleset pte_bits = (arith, valid_bit, table_bit, low_two_bits, address_bits, index_bits)

pub is_descriptor-eq : (e : ℕ) → is_valid e ≡ true → is_table e ≡ true → is_descriptor e ≡ true
is_descriptor-eq e v t = ground (arith, valid_bit e, table_bit e, low_two_bits e)

pub with_sw-eq :
    (e b : ℕ) → e < 2 ^ 64 → with_field 55 e b ≡ (e / 2 ^ 57 * 4 + b % 4) * 2 ^ 55 + e % 2 ^ 55
unfolding with_field
with_sw-eq e b h = rw low_two_bits (set_field 7 55 e (b % 4) (omega arith) ∙ omega arith)

pub with_s2ap-eq :
    (e b : ℕ) → e < 2 ^ 64 → with_field 6 e b ≡ (e / 2 ^ 8 * 4 + b % 4) * 2 ^ 6 + e % 2 ^ 6
unfolding with_field
with_s2ap-eq e b h = rw low_two_bits (set_field 56 6 e (b % 4) (omega arith) ∙ omega arith)

-- `x | (x & m)` is `x`.
absorb_below : (n a m : ℕ) → a ≤ n → bit_or a (bit_and a m) ≡ a
absorb_below n zero m h =
    omega
      (arith, bit_or-zero 0, bit_or_step 0 (bit_and 0 m), zero-bit_or (bit_and 0 m), zero-bit_and m)
absorb_below zero (suc a) m h = absurd (omega arith)
absorb_below (suc n) (suc a) m h = omega (
  arith,
  bit_or_step (suc a) (bit_and (suc a) m),
  bit_and_step (suc a) m,
  ap (λ (t : ℕ). bit_or (suc a / 2) t) halved,
  absorb_below n (suc a / 2) (m / 2) (omega arith),
)
  where
    halved : bit_and (suc a) m / 2 ≡ bit_and (suc a / 2) (m / 2)
    halved = omega (arith, bit_and_step (suc a) m)

pub bit_or-bit_and : (a m : ℕ) → bit_or a (bit_and a m) ≡ a
bit_or-bit_and a m = absorb_below a a m (omega arith)

-- A new table is page-aligned, so its descriptor is a sum.
pub descriptor-eq : (t : ℕ) → t % 4096 ≡ 0 → descriptor t ≡ t + 3
descriptor-eq t h =
    ap (λ (x : ℕ). bit_or x 2) (bit_or_low 12 t 1 h (omega arith) ∙ low_bits)
    ∙ bit_or_fields 2 (t / 4) 1 0 2 (omega arith) (omega arith)
    ∙ rw bit_or-zero (omega (arith, h))
  where
    low_bits : t + 1 ≡ t / 4 * 2 ^ 2 + 1
    low_bits = omega (arith, h)

-- Entry `i` of the table that replaces a block without bits between its address and attributes.
pub split_entry-eq :
    (e i : ℕ)
    → e < 2 ^ 64
    → e % 4 ≡ 1
    → e / 4096 % 512 ≡ 0
    → i < 512
    → split_entry e i ≡ e + i * 4096 + 2
unfolding split_entry
split_entry-eq e i w b z l =
    rw (base, attrs, low_bits, bit_or-bit_and)
      (rw (bit_or_low 12 page (e % 4096 - 1) (omega arith) (omega arith)) (
        rw (bit_or_low 2 (page + (e % 4096 - 1)) 2 (omega (arith, b)) (omega arith)) (
          bit_or_low 1 (page + (e % 4096 - 1) + 2) 1 (omega (arith, b)) (omega arith)
          ∙ omega (arith, b, z))))
  where
    page : ℕ
    page = e / 2 ^ 21 * 2 ^ 21 + i * 4096

    base : (bit_and e (complement 64 block_mask_2mb) + i * 4096) % 2 ^ 64 ≡ page
    base = omega (arith, bit_and-field 43 21 e, w, l)

    low_bits : bit_and e pte_sw_mask ≡ bit_and page pte_sw_mask
    low_bits = omega (arith, bit_and-field 2 55 e, bit_and-field 2 55 page, w, l)

    attrs : bit_and (bit_and e block_mask_2mb) (complement 64 3) ≡ e % 4096 - 1
    attrs = omega (arith, bit_and-ones 21 e, bit_and-field 62 2 (bit_and e block_mask_2mb), b, z)
