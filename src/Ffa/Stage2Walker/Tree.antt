-- ===== src/Ffa/Stage2Walker/Tree.antt =====
-- Page tables in which every table has one level, and the translation that they define.
use hypervisor.Prelude.{
  ℕ, suc, ◌+◌, ◌-◌, ◌*◌, ◌/◌, ◌%◌, ◌^◌, ◌<◌, ◌≡◌, arith, true, false, not, Option, none, some,
  if◌then◌else◌,
}
use hypervisor.Mm.Words.{Memory}
use hypervisor.Ffa.Stage2Walker.{is_valid, is_table, is_descriptor, next_table, slot}
use hypervisor.Ffa.Stage2Walker.Pte.{address_bits, index_bits}

-- `level` gives the level of the table in a page of memory, and more than 3 for any other page.
pub record IsTree (m : Memory) (l0 : ℕ) (level : ℕ → ℕ) : Type 0 where
  pub root : level (l0 / 4096) ≡ 0
  pub aligned : l0 % 4096 ≡ 0
  pub child :
      (a : ℕ)
      → level (a / 4096) < 3
      → is_descriptor (m a) ≡ true
      → level (next_table (m a) / 4096) ≡ suc (level (a / 4096))
  pub words : (a : ℕ) → m a < 2 ^ 64
  pub blocks :
      (a : ℕ)
      → level (a / 4096) ≡ 2
      → is_valid (m a) ≡ true
      → is_table (m a) ≡ false
      → m a / 4096 % 512 ≡ 0

pub slot-page : (shift t ipa : ℕ) → t % 4096 ≡ 0 → slot shift t ipa / 4096 ≡ t / 4096
slot-page shift t ipa h = omega (arith, index_bits (ipa / 2 ^ shift), h)

pub next_table_aligned : (e : ℕ) → next_table e % 4096 ≡ 0
next_table_aligned e = omega (arith, address_bits e)

-- What an entry that ends a walk means for an address: the output address, the upper attributes
-- with the software bits, and the lower attributes with the access permissions.
abbrev pub Target : Type 0
Target = ℕ × ℕ × ℕ

abbrev pub target : ℕ → ℕ → ℕ → Target
target shift e ipa =
    (e / 2 ^ shift % 2 ^ (48 - shift) * 2 ^ shift + ipa % 2 ^ shift, e / 2 ^ 48, e / 4 % 2 ^ 10)

unfoldable pub translate_l3 : Memory → ℕ → ℕ → Option Target
translate_l3 m t ipa =
    let e = m (slot 12 t ipa) in if is_valid e then some (target 12 e ipa) else none

unfoldable pub translate_l2 : Memory → ℕ → ℕ → Option Target
unfolding translate_l3
translate_l2 m t ipa =
    let e = m (slot 21 t ipa) in
    if not (is_valid e)
    then none
    else (if not (is_table e) then some (target 21 e ipa) else translate_l3 m (next_table e) ipa)

unfoldable pub translate_l1 : Memory → ℕ → ℕ → Option Target
unfolding translate_l2
translate_l1 m t ipa =
    let e = m (slot 30 t ipa) in
    if not (is_valid e)
    then none
    else (if not (is_table e) then some (target 30 e ipa) else translate_l2 m (next_table e) ipa)

-- The translation of the architecture, as a specification.
unfoldable pub translate : Memory → ℕ → ℕ → Option Target
unfolding translate_l1
translate m l0 ipa =
    let e = m (slot 39 l0 ipa) in
    if not (is_descriptor e) then none else translate_l1 m (next_table e) ipa
