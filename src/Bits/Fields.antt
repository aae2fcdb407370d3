-- ===== src/Bits/Fields.antt =====
-- Masks and fields of words.
use hypervisor.Prelude.{
  ℕ, zero, suc, ◌+◌, ◌-◌, ◌*◌, ◌/◌, ◌%◌, ◌^◌, ◌≤◌, ◌<◌, bit_and, bit_or, ◌≡◌, refl, arith, ap, ◌∙◌,
}
use hypervisor.Bits.Digits.{bit_and_step, bit_or_step}
use native.Mathlib.Nat.{pow-suc, one-le-pow, mod-lt, div-add-mod, mod-eq_of_lt}

bit_and-zero_below : (n a : ℕ) → a ≤ n → bit_and a 0 ≡ 0
bit_and-zero_below n zero h = bit_and_zero_zero
  where
    bit_and_zero_zero : bit_and 0 0 ≡ 0
    bit_and_zero_zero = refl
bit_and-zero_below zero (suc a) h = absurd (omega arith)
bit_and-zero_below (suc n) (suc a) h =
    omega (arith, bit_and_step (suc a) 0, bit_and-zero_below n (suc a / 2) (omega arith))

pub bit_and-zero : (a : ℕ) → bit_and a 0 ≡ 0
bit_and-zero a = bit_and-zero_below a a (omega arith)

zero-bit_and_below : (n a : ℕ) → a ≤ n → bit_and 0 a ≡ 0
zero-bit_and_below n zero h = refl
zero-bit_and_below zero (suc a) h = absurd (omega arith)
zero-bit_and_below (suc n) (suc a) h =
    omega (arith, bit_and_step 0 (suc a), zero-bit_and_below n (suc a / 2) (omega arith))

pub zero-bit_and : (a : ℕ) → bit_and 0 a ≡ 0
zero-bit_and a = zero-bit_and_below a a (omega arith)

bit_or-zero_below : (n a : ℕ) → a ≤ n → bit_or a 0 ≡ a
bit_or-zero_below n zero h = refl
bit_or-zero_below zero (suc a) h = absurd (omega arith)
bit_or-zero_below (suc n) (suc a) h =
    omega (arith, bit_or_step (suc a) 0, bit_or-zero_below n (suc a / 2) (omega arith))

pub bit_or-zero : (a : ℕ) → bit_or a 0 ≡ a
bit_or-zero a = bit_or-zero_below a a (omega arith)

zero-bit_or_below : (n a : ℕ) → a ≤ n → bit_or 0 a ≡ a
zero-bit_or_below n zero h = refl
zero-bit_or_below zero (suc a) h = absurd (omega arith)
zero-bit_or_below (suc n) (suc a) h =
    omega (arith, bit_or_step 0 (suc a), zero-bit_or_below n (suc a / 2) (omega arith))

pub zero-bit_or : (a : ℕ) → bit_or 0 a ≡ a
zero-bit_or a = zero-bit_or_below a a (omega arith)

double : (h k : ℕ) → h * 2 ^ suc k ≡ 2 * (h * 2 ^ k)
double h k = omega (arith, ap (λ (t : ℕ). h * t) (pow-suc 2 k))

-- A word of two fields meets another field by field.
pub bit_and_fields :
    (k h l i m : ℕ)
    → l < 2 ^ k
    → m < 2 ^ k
    → bit_and (h * 2 ^ k + l) (i * 2 ^ k + m) ≡ bit_and h i * 2 ^ k + bit_and l m
bit_and_fields zero h l i m p q = ground (arith, bit_and-zero 0)
bit_and_fields (suc k) h l i m p q = ground (
  arith,
  pow-suc 2 k,
  bit_and_step (h * 2 ^ suc k + l) (i * 2 ^ suc k + m),
  bit_and_step l m,
  double h k,
  double i k,
  double (bit_and h i) k,
  bit_and_fields k h (l / 2) i (m / 2) (omega (arith, pow-suc 2 k)) (omega (arith, pow-suc 2 k)),
)

pub bit_or_fields :
    (k h l i m : ℕ)
    → l < 2 ^ k
    → m < 2 ^ k
    → bit_or (h * 2 ^ k + l) (i * 2 ^ k + m) ≡ bit_or h i * 2 ^ k + bit_or l m
bit_or_fields zero h l i m p q = ground (arith, bit_or-zero 0)
bit_or_fields (suc k) h l i m p q = ground (
  arith,
  pow-suc 2 k,
  bit_or_step (h * 2 ^ suc k + l) (i * 2 ^ suc k + m),
  bit_or_step l m,
  double h k,
  double i k,
  double (bit_or h i) k,
  bit_or_fields k h (l / 2) i (m / 2) (omega (arith, pow-suc 2 k)) (omega (arith, pow-suc 2 k)),
)

-- `w` ones, from bit 0 on.
abbrev pub ones : ℕ → ℕ
ones w = 2 ^ w - 1

bit_and-ones_below : (w a : ℕ) → a < 2 ^ w → bit_and a (ones w) ≡ a
bit_and-ones_below zero a h = omega (arith, bit_and-zero a)
bit_and-ones_below (suc w) a h = ground (
  arith,
  pow-suc 2 w,
  one-le-pow w 2,
  bit_and_step a (ones (suc w)),
  ap (λ (t : ℕ). bit_and (a / 2) t) half_ones,
  bit_and-ones_below w (a / 2) (omega (arith, pow-suc 2 w)),
)
  where
    half_ones : ones (suc w) / 2 ≡ ones w
    half_ones = omega (arith, pow-suc 2 w, one-le-pow w 2)

-- A word is its two fields at any bit.
pub split_at : (k a : ℕ) → a ≡ a / 2 ^ k * 2 ^ k + a % 2 ^ k
split_at k a = omega (arith, div-add-mod a (2 ^ k))

pub mod-lt_pow : (k a : ℕ) → a % 2 ^ k < 2 ^ k
mod-lt_pow k a = mod-lt a (one-le-pow k 2 (omega arith))

-- A mask of low ones takes the remainder.
pub bit_and-ones : (w a : ℕ) → bit_and a (ones w) ≡ a % 2 ^ w
bit_and-ones w a =
    ap (λ (t : ℕ). bit_and t (ones w)) (split_at w a)
    ∙ ap (λ (t : ℕ). bit_and (a / 2 ^ w * 2 ^ w + a % 2 ^ w) t) zero_high
    ∙ bit_and_fields w (a / 2 ^ w) (a % 2 ^ w) 0 (ones w) (mod-lt_pow w a)
        (omega (arith, one-le-pow w 2))
    ∙ rw (bit_and-zero, bit_and-ones_below w (a % 2 ^ w) (mod-lt_pow w a)) (omega arith)
  where
    zero_high : ones w ≡ 0 * 2 ^ w + ones w
    zero_high = omega arith

-- `x & mask` at any bit `k`.
pub bit_and_split :
    (k a b : ℕ)
    → bit_and a b ≡ bit_and (a / 2 ^ k) (b / 2 ^ k) * 2 ^ k + bit_and (a % 2 ^ k) (b % 2 ^ k)
bit_and_split k a b =
    ap (λ (t : ℕ). bit_and t b) (split_at k a)
    ∙ ap (λ (t : ℕ). bit_and (a / 2 ^ k * 2 ^ k + a % 2 ^ k) t) (split_at k b)
    ∙ bit_and_fields k (a / 2 ^ k) (a % 2 ^ k) (b / 2 ^ k) (b % 2 ^ k) (mod-lt_pow k a)
        (mod-lt_pow k b)

pub bit_or_split :
    (k a b : ℕ)
    → bit_or a b ≡ bit_or (a / 2 ^ k) (b / 2 ^ k) * 2 ^ k + bit_or (a % 2 ^ k) (b % 2 ^ k)
bit_or_split k a b =
    ap (λ (t : ℕ). bit_or t b) (split_at k a)
    ∙ ap (λ (t : ℕ). bit_or (a / 2 ^ k * 2 ^ k + a % 2 ^ k) t) (split_at k b)
    ∙ bit_or_fields k (a / 2 ^ k) (a % 2 ^ k) (b / 2 ^ k) (b % 2 ^ k) (mod-lt_pow k a)
        (mod-lt_pow k b)

-- `x & mask` for a mask of `w` ones from bit `s` on.
pub bit_and-field : (w s a : ℕ) → bit_and a (ones w * 2 ^ s) ≡ a / 2 ^ s % 2 ^ w * 2 ^ s
bit_and-field w s a =
    ap (λ (t : ℕ). bit_and t (ones w * 2 ^ s)) (split_at s a)
    ∙ ap (λ (t : ℕ). bit_and (a / 2 ^ s * 2 ^ s + a % 2 ^ s) t) zero_low
    ∙ bit_and_fields s (a / 2 ^ s) (a % 2 ^ s) (ones w) 0 (mod-lt_pow s a)
        (one-le-pow s 2 (omega arith))
    ∙ rw (bit_and-zero, bit_and-ones) (omega arith)
  where
    zero_low : ones w * 2 ^ s ≡ ones w * 2 ^ s + 0
    zero_low = omega arith

-- `(x & !(3 << s)) | (f << s)`, with `w` bits above the field.
pub set_field :
    (w s a f : ℕ)
    → f < 4
    → bit_or (bit_and a (ones w * 4 * 2 ^ s + ones s)) (f * 2 ^ s)
      ≡ (a / 2 ^ s / 4 % 2 ^ w * 4 + f) * 2 ^ s + a % 2 ^ s
set_field w s a f h =
    ap (λ (t : ℕ). bit_or t (f * 2 ^ s)) masked
    ∙ ap (λ (t : ℕ). bit_or (a / 2 ^ s / 4 % 2 ^ w * 4 * 2 ^ s + a % 2 ^ s) t) zero_low
    ∙ bit_or_fields s (a / 2 ^ s / 4 % 2 ^ w * 4) (a % 2 ^ s) f 0 (mod-lt_pow s a)
        (one-le-pow s 2 (omega arith))
    ∙ rw (bit_or-zero, joined) refl
  where
    zero_low : f * 2 ^ s ≡ f * 2 ^ s + 0
    zero_low = omega arith

    low_two : (x : ℕ) → bit_and x (ones w * 4) ≡ x / 4 % 2 ^ w * 4
    low_two x = bit_and-field w 2 x

    again :
        a % 2 ^ s < 2 ^ s
        → a / 2 ^ s / 4 % 2 ^ w * 4 * 2 ^ s + a % 2 ^ s % 2 ^ s
          ≡ a / 2 ^ s / 4 % 2 ^ w * 4 * 2 ^ s + a % 2 ^ s
    again l = rw (mod-eq_of_lt l) refl

    masked : bit_and a (ones w * 4 * 2 ^ s + ones s) ≡ a / 2 ^ s / 4 % 2 ^ w * 4 * 2 ^ s + a % 2 ^ s
    masked =
        ap (λ (t : ℕ). bit_and t (ones w * 4 * 2 ^ s + ones s)) (split_at s a)
        ∙ bit_and_fields s (a / 2 ^ s) (a % 2 ^ s) (ones w * 4) (ones s) (mod-lt_pow s a)
            (omega (arith, one-le-pow s 2))
        ∙ rw (low_two, bit_and-ones) (again (mod-lt_pow s a))

    high : a / 2 ^ s / 4 % 2 ^ w * 4 ≡ a / 2 ^ s / 4 % 2 ^ w * 2 ^ 2 + 0
    high = omega arith

    low : f ≡ 0 * 2 ^ 2 + f
    low = omega arith

    joined : bit_or (a / 2 ^ s / 4 % 2 ^ w * 4) f ≡ a / 2 ^ s / 4 % 2 ^ w * 4 + f
    joined =
        ap (λ (t : ℕ). bit_or t f) high
        ∙ ap (λ (t : ℕ). bit_or (a / 2 ^ s / 4 % 2 ^ w * 2 ^ 2 + 0) t) low
        ∙ bit_or_fields 2 (a / 2 ^ s / 4 % 2 ^ w) 0 0 f (omega arith) h
        ∙ rw (bit_or-zero, zero-bit_or) refl

-- `x | f` adds a field into low bits that are clear.
pub bit_or_low : (k x f : ℕ) → x % 2 ^ k ≡ 0 → f < 2 ^ k → bit_or x f ≡ x + f
bit_or_low k x f z l =
    ap (λ (t : ℕ). bit_or t f) whole
    ∙ ap (λ (t : ℕ). bit_or (x / 2 ^ k * 2 ^ k + 0) t) small
    ∙ bit_or_fields k (x / 2 ^ k) 0 0 f (one-le-pow k 2 (omega arith)) l
    ∙ rw (bit_or-zero, zero-bit_or) (omega (arith, whole))
  where
    whole : x ≡ x / 2 ^ k * 2 ^ k + 0
    whole = omega (arith, split_at k x)

    small : f ≡ 0 * 2 ^ k + f
    small = omega arith

-- `|` stays within a width.
pub bit_or-lt_pow : (w a b : ℕ) → a < 2 ^ w → b < 2 ^ w → bit_or a b < 2 ^ w
bit_or-lt_pow zero a b h l = both_zero a b h l
  where
    both_zero : (a b : ℕ) → a < 2 ^ 0 → b < 2 ^ 0 → bit_or a b < 2 ^ 0
    both_zero zero zero h l = omega (arith, bit_or-zero 0)
    both_zero (suc a) b h l = absurd (omega arith)
    both_zero zero (suc b) h l = absurd (omega arith)
bit_or-lt_pow (suc w) a b h l = omega (
  arith,
  pow-suc 2 w,
  bit_or_step a b,
  bit_or-lt_pow w (a / 2) (b / 2) (omega (arith, pow-suc 2 w)) (omega (arith, pow-suc 2 w)),
)
