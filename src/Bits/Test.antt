-- ===== src/Bits/Test.antt =====
-- One bit of a word, and the sets of bits that words stand for.
use hypervisor.Prelude.{
  ℕ, zero, suc, ◌*◌, ◌==◌, if◌then◌else◌, ◌-◌, ◌/◌, ◌%◌, ◌^◌, ◌≤◌, ◌<◌, min, max, bit_and, bit_or,
  ◌≡◌, refl, ap, ◌∙◌, arith,
}
use hypervisor.Bits.Digits.{bit_and_step, bit_or_step}
use hypervisor.Bits.Fields.{bit_and-zero}
use native.Mathlib.Nat.{pow-suc}

-- Bit `k`, 0 or 1.
unfoldable pub bit : ℕ → ℕ → ℕ
bit zero a = a % 2
bit (suc k) a = bit k (a / 2)

-- `!a` on `w` bits.
abbrev pub complement : ℕ → ℕ → ℕ
complement w a = 2 ^ w - 1 - a

pub bit-le_one : (k a : ℕ) → bit k a ≤ 1
unfolding bit
bit-le_one zero a = omega arith
bit-le_one (suc k) a = bit-le_one k (a / 2)

pub bit-bit_and : (k a b : ℕ) → bit k (bit_and a b) ≡ min (bit k a) (bit k b)
unfolding bit
bit-bit_and zero a b = omega (arith, bit_and_step a b)
bit-bit_and (suc k) a b = rw halved (bit-bit_and k (a / 2) (b / 2))
  where
    halved : bit_and a b / 2 ≡ bit_and (a / 2) (b / 2)
    halved = omega (arith, bit_and_step a b)

pub bit-bit_or : (k a b : ℕ) → bit k (bit_or a b) ≡ max (bit k a) (bit k b)
unfolding bit
bit-bit_or zero a b = omega (arith, bit_or_step a b)
bit-bit_or (suc k) a b = rw halved (bit-bit_or k (a / 2) (b / 2))
  where
    halved : bit_or a b / 2 ≡ bit_or (a / 2) (b / 2)
    halved = omega (arith, bit_or_step a b)

pub bit-complement : (w k a : ℕ) → k < w → a < 2 ^ w → bit k (complement w a) ≡ 1 - bit k a
unfolding bit
bit-complement zero k a h p = absurd (omega arith)
bit-complement (suc w) zero a h p = omega (arith, pow-suc 2 w)
bit-complement (suc w) (suc k) a h p =
    rw halved (bit-complement w k (a / 2) (omega arith) (omega (arith, pow-suc 2 w)))
  where
    halved : complement (suc w) a / 2 ≡ complement w (a / 2)
    halved = omega (arith, pow-suc 2 w)

pub bit-zero : (k : ℕ) → bit k 0 ≡ 0
unfolding bit
bit-zero zero = refl
bit-zero (suc k) = bit-zero k

bits_zero_below : (n a : ℕ) → a ≤ n → ((k : ℕ) → bit k a ≡ 0) → a ≡ 0
unfolding bit
bits_zero_below n zero p h = refl
bits_zero_below zero (suc a) p h = absurd (omega arith)
bits_zero_below (suc n) (suc a) p h =
    omega (arith, h 0, bits_zero_below n (suc a / 2) (omega arith) (λ k. h (suc k)))

-- A word with no bit set is 0.
pub bits_zero : (a : ℕ) → ((k : ℕ) → bit k a ≡ 0) → a ≡ 0
bits_zero a = bits_zero_below a a (omega arith)

pub bit_above : (w k a : ℕ) → a < 2 ^ w → w ≤ k → bit k a ≡ 0
unfolding bit
bit_above zero k a h p = rw (zero_word a h) (bit-zero k)
  where
    zero_word : (x : ℕ) → x < 2 ^ 0 → x ≡ 0
    zero_word x q = omega arith
bit_above (suc w) zero a h p = absurd (omega arith)
bit_above (suc w) (suc k) a h p = bit_above w k (a / 2) (omega (arith, pow-suc 2 w)) (omega arith)

-- A word with a bit set is not 0.
pub bit_set-ne_zero : (k a : ℕ) → bit k a ≡ 1 → 0 < a
bit_set-ne_zero k zero h = absurd (omega (arith, bit-zero k))
bit_set-ne_zero k (suc a) h = omega arith

-- The bits of a power of two.
pub bit-pow : (j k : ℕ) → bit j (2 ^ k) ≡ (if j == k then 1 else 0)
unfolding bit
bit-pow zero zero = refl
bit-pow zero (suc k) = ground (arith, pow-suc 2 k)
bit-pow (suc j) zero = ground (arith, bit-zero j)
bit-pow (suc j) (suc k) = rw halved (rw (bit-pow j k) (ground arith))
  where
    halved : 2 ^ suc k / 2 ≡ 2 ^ k
    halved = omega (arith, pow-suc 2 k)

pub bit-pow_self : (k : ℕ) → bit k (2 ^ k) ≡ 1
bit-pow_self k = bit-pow k k ∙ ground arith

-- `a & (1 << k)`.
pub bit_and-pow : (k a : ℕ) → bit_and a (2 ^ k) ≡ bit k a * 2 ^ k
unfolding bit
bit_and-pow zero a = omega (arith, bit_and_step a 1, bit_and-zero (a / 2))
bit_and-pow (suc k) a =
    let halved : 2 ^ suc k / 2 ≡ 2 ^ k = omega (arith, pow-suc 2 k) in
    ground (
      arith,
      pow-suc 2 k,
      bit_and_step a (2 ^ suc k),
      ap (λ (t : ℕ). bit_and (a / 2) t) halved,
      ap (λ (t : ℕ). bit k (a / 2) * t) (pow-suc 2 k),
      bit_and-pow k (a / 2),
    )
