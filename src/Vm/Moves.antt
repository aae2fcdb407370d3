-- ===== src/Vm/Moves.antt =====
-- src/vm.rs: the loop that moves interrupts into list registers, for any way to put one there.
use hypervisor.Prelude.{
  ℕ, zero, suc, ◌+◌, ◌*◌, ◌^◌, ◌≤◌, ◌<◌, ◌≡◌, ◌≢◌, refl, ◌∙◌, ap, sym, arith, ◌⊎◌, inl, inr, true,
  false, Option, none, some, List, get_or, set, length, length-set, bit_and, bit_or, ◌==◌,
  Bool-cases, ==_iff, subst, get_or-set_self, get_or-set_ne,
}
use native.Mathlib.Nat.{one-le-pow}
use native.Mathlib.Decide.{dec_lt, ℕ_discrete}
use hypervisor.Bits.Test.{bit, bit-bit_or, bit-le_one, bit-pow, bit-pow_self, bit_and-pow, bit-zero}
use hypervisor.Vm.ListRegisters.{get_lr_state}
use hypervisor.Vm.Pending.{placed, move_from}

other_bit : (i k : ℕ) → i ≢ k → bit i (2 ^ k) ≡ 0
other_bit i k n = bit-pow i k ∙ ground arith

pub clear_bit : (k a : ℕ) → (bit_and a (2 ^ k) == 0) ≡ true → bit k a ≡ 0
clear_bit k a h = elim (dec_lt (bit k a) 1) [
  | yes l ↦ omega arith
  | no n ↦
      let one : bit k a ≡ 1 = omega (arith, bit-le_one k a) in
      absurd (
        omega (
          arith,
          (==_iff _ _).0 h,
          bit_and-pow k a ∙ ap (λ (t : ℕ). t * 2 ^ k) one,
          one-le-pow k 2,
        ))
]

pub set_bit : (k a : ℕ) → (bit_and a (2 ^ k) == 0) ≡ false → bit k a ≡ 1
set_bit k a h = elim (dec_lt (bit k a) 1) [
  | yes l ↦
      let none_set : bit k a ≡ 0 = omega arith in
      absurd (
        true-ne-false (
          sym ((==_iff _ _).1 (bit_and-pow k a ∙ ap (λ (t : ℕ). t * 2 ^ k) none_set ∙ omega arith))
          ∙ h))
  | no n ↦ omega (arith, bit-le_one k a)
]
  where
    true-ne-false : true ≢ false
    true-ne-false e = cc

-- Whether a register is in use.
abbrev pub Used : List ℕ → ℕ → Type 0
Used lrs j = get_lr_state (get_or lrs j 0) ≢ 0

-- What a way to put a value into the first `m` registers has to do.
abbrev pub Puts : (m value : ℕ) → List ℕ → Option (List ℕ) → Type 0
Puts m value lrs none = (j : ℕ) → j < m → Used lrs j
Puts m value lrs (some lrs') =
    (j : ℕ) × (j < length lrs) × (get_lr_state (get_or lrs j 0) ≡ 0) × (lrs' ≡ set lrs j value)

-- The interrupts of the word `all` were moved to the registers `lrs'` or wait in `left`: a register in
-- use is kept, each interrupt has a register that was free or waits, it waits only if the first `m`
-- registers are in use, and a register holds something new only for an interrupt that was asked for.
pub record IsMoved (m : ℕ) (value : ℕ → ℕ) (all : ℕ) (lrs lrs' : List ℕ) (left : ℕ) : Type 0 where
  pub keeps_used : (j : ℕ) → Used lrs j → get_or lrs' j 0 ≡ get_or lrs j 0
  pub none_lost :
      (k : ℕ)
      → bit k all ≡ 1
      → (bit k left ≡ 1)
        ⊎ ((j : ℕ) × (get_lr_state (get_or lrs j 0) ≡ 0) × (get_or lrs' j 0 ≡ value k))
  pub waits_if_full : (k : ℕ) → bit k left ≡ 1 → (bit k all ≡ 1) × ((j : ℕ) → j < m → Used lrs' j)
  pub none_made_up :
      (j : ℕ)
      → (get_or lrs' j 0 ≡ get_or lrs j 0)
        ⊎ ((k : ℕ) × (bit k all ≡ 1) × (get_or lrs' j 0 ≡ value k))

module _ (m : ℕ) (value : ℕ → ℕ) (put : ℕ → List ℕ → Option (List ℕ)) (top : ℕ)
    (puts : (k : ℕ) (lrs : List ℕ) → length lrs ≡ m → Puts m (value k) lrs (put k lrs))
    (asks : (k : ℕ) → k < top → get_lr_state (value k) ≡ 1) (all : ℕ) where
  -- The loop, for the bits from `k` on below `top`, with `left` at its start.
  record Loop (k : ℕ) (lrs : List ℕ) (left : ℕ) (out : List ℕ × ℕ) : Type 0 where
    size : length out.0 ≡ m
    keeps : (j : ℕ) → Used lrs j → get_or out.0 j 0 ≡ get_or lrs j 0
    waits : (i : ℕ) → bit i left ≡ 1 → bit i out.1 ≡ 1
    goes :
        (i : ℕ)
        → k ≤ i
        → i < top
        → bit i all ≡ 1
        → (bit i out.1 ≡ 1)
          ⊎ ((j : ℕ) × (get_lr_state (get_or lrs j 0) ≡ 0) × (get_or out.0 j 0 ≡ value i))
    full :
        (i : ℕ)
        → bit i out.1 ≡ 1
        → (bit i left ≡ 1) ⊎ ((bit i all ≡ 1) × ((j : ℕ) → j < m → Used out.0 j))
    fresh :
        (j : ℕ)
        → (get_or out.0 j 0 ≡ get_or lrs j 0)
          ⊎ ((i : ℕ) × (bit i all ≡ 1) × (get_or out.0 j 0 ≡ value i))

  -- A bit that is clear.
  skip :
      (k : ℕ) (lrs : List ℕ) (left : ℕ) (out : List ℕ × ℕ)
      → bit k all ≡ 0
      → Loop (k + 1) lrs left out
      → Loop k lrs left out
  skip k lrs left out c l = record {
    size = l.size;
    keeps = l.keeps;
    waits = l.waits;
    goes = λ i from below on. elim (ℕ_discrete k i) [
      | yes e ↦ absurd (omega (arith, c, on, ap (λ (t : ℕ). bit t all) e))
      | no n ↦ l.goes i (omega arith) below on
    ];
    full = l.full;
    fresh = l.fresh;
  }

  -- A bit that waits, since no register is free.
  wait :
      (k : ℕ) (lrs : List ℕ) (left : ℕ) (out : List ℕ × ℕ)
      → bit k all ≡ 1
      → ((j : ℕ) → j < m → Used lrs j)
      → Loop (k + 1) lrs (bit_or left (2 ^ k)) out
      → Loop k lrs left out
  wait k lrs left out s f l = record {
    size = l.size;
    keeps = l.keeps;
    waits = λ i on.
        l.waits i
          (omega (arith, bit-bit_or i left (2 ^ k), bit-le_one i (2 ^ k), bit-le_one i left));
    goes = λ i from below on. elim (ℕ_discrete k i) [
      | yes e ↦ inl (subst (λ t. bit t out.1 ≡ 1) e (l.waits k requeued))
      | no n ↦ l.goes i (omega arith) below on
    ];
    full = λ i on. full_of i (l.full i on);
    fresh = l.fresh;
  }
    where
      requeued : bit k (bit_or left (2 ^ k)) ≡ 1
      requeued = omega (arith, bit-bit_or k left (2 ^ k), bit-pow_self k, bit-le_one k left)

      full_of :
          (i : ℕ)
          → (bit i (bit_or left (2 ^ k)) ≡ 1) ⊎ ((bit i all ≡ 1) × ((j : ℕ) → j < m → Used out.0 j))
          → (bit i left ≡ 1) ⊎ ((bit i all ≡ 1) × ((j : ℕ) → j < m → Used out.0 j))
      full_of i (inr h) = inr h
      full_of i (inl h) = elim (ℕ_discrete i k) [
        | yes e ↦ inr (
          subst (λ t. bit t all ≡ 1) (sym e) s,
          λ j below. subst (λ t. get_lr_state t ≢ 0) (sym (l.keeps j (f j below))) (f j below),
        )
        | no n ↦ inl (omega (arith, h, bit-bit_or i left (2 ^ k), other_bit i k n))
      ]

  -- A bit that goes to a register.
  go :
      (k : ℕ) (lrs lrs' : List ℕ) (left : ℕ) (out : List ℕ × ℕ)
      → bit k all ≡ 1
      → k < top
      → length lrs ≡ m
      → Puts m (value k) lrs (some lrs')
      → Loop (k + 1) lrs' left out
      → Loop k lrs left out
  go k lrs lrs' left out s b size (j, j_in, free, e) l = record {
    size = l.size;
    keeps = λ i used.
        l.keeps i (subst (λ t. get_lr_state t ≢ 0) (sym (same i used)) used) ∙ same i used;
    waits = l.waits;
    goes = λ i from below on. elim (ℕ_discrete k i) [
      | yes q ↦ inr (j, free, (l.keeps j now_used ∙ here) ∙ ap value q)
      | no n ↦ goes_on i (l.goes i (omega arith) below on)
    ];
    full = l.full;
    fresh = λ i. fresh_of i (l.fresh i);
  }
    where
      here : get_or lrs' j 0 ≡ value k
      here = ap (λ xs. get_or xs j 0) e ∙ get_or-set_self lrs j (value k) 0 j_in

      away : (i : ℕ) → j ≢ i → get_or lrs' i 0 ≡ get_or lrs i 0
      away i n = ap (λ xs. get_or xs i 0) e ∙ get_or-set_ne lrs j i (value k) 0 n

      now_used : Used lrs' j
      now_used = λ z. absurd (omega (arith, asks k b, sym (ap get_lr_state here) ∙ z))

      same : (i : ℕ) → Used lrs i → get_or lrs' i 0 ≡ get_or lrs i 0
      same i used = away i (λ q. used (subst (λ t. get_lr_state (get_or lrs t 0) ≡ 0) q free))

      goes_on :
          (i : ℕ)
          → (bit i out.1 ≡ 1)
            ⊎ ((x : ℕ) × (get_lr_state (get_or lrs' x 0) ≡ 0) × (get_or out.0 x 0 ≡ value i))
          → (bit i out.1 ≡ 1)
            ⊎ ((x : ℕ) × (get_lr_state (get_or lrs x 0) ≡ 0) × (get_or out.0 x 0 ≡ value i))
      goes_on i (inl h) = inl h
      goes_on i (inr (x, z, v)) = inr (
        x,
        sym (
              ap get_lr_state (
                away x (λ q. now_used (subst (λ t. get_lr_state (get_or lrs' t 0) ≡ 0) (sym q) z))))
            ∙ z,
        v,
      )

      fresh_of :
          (i : ℕ)
          → (get_or out.0 i 0 ≡ get_or lrs' i 0)
            ⊎ ((x : ℕ) × (bit x all ≡ 1) × (get_or out.0 i 0 ≡ value x))
          → (get_or out.0 i 0 ≡ get_or lrs i 0)
            ⊎ ((x : ℕ) × (bit x all ≡ 1) × (get_or out.0 i 0 ≡ value x))
      fresh_of i (inr h) = inr h
      fresh_of i (inl h) = elim (ℕ_discrete j i) [
        | yes q ↦ inr (k, s, h ∙ subst (λ t. get_or lrs' t 0 ≡ value k) q here)
        | no n ↦ inl (h ∙ away i n)
      ]

  -- A bit that is set, whatever `put` did with it.
  step :
      (k n : ℕ) (lrs : List ℕ) (left : ℕ)
      → bit k all ≡ 1
      → k < top
      → length lrs ≡ m
      → (o : Option (List ℕ)) → Puts m (value k) lrs o
      → ((lrs' : List ℕ) (left' : ℕ)
          → length lrs' ≡ m
          → Loop (k + 1) lrs' left' (move_from put n (k + 1) all lrs' left'))
      → Loop k lrs left
          (move_from put n (k + 1) all (placed lrs left k o).0 (placed lrs left k o).1)
  step k n lrs left s b size none p rest = wait k lrs left _ s p (rest lrs _ size)
  step k n lrs left s b size (some lrs') p rest =
      go k lrs lrs' left _ s b size p
        (rest lrs' left (ap length p.3 ∙ length-set lrs p.0 (value k) ∙ size))

  loop :
      (n k : ℕ) (lrs : List ℕ) (left : ℕ)
      → n + k ≡ top
      → length lrs ≡ m
      → Loop k lrs left (move_from put n k all lrs left)
  unfolding move_from
  loop zero k lrs left e size = record {
    size = size;
    keeps = λ j used. refl;
    waits = λ i on. on;
    goes = λ i from below on. absurd (omega arith);
    full = λ i on. inl on;
    fresh = λ j. inl refl;
  }
  loop (suc n) k lrs left e size = elim (Bool-cases (bit_and all (2 ^ k) == 0)) [
    | inl clear ↦
        rw clear
          (skip k lrs left _ (clear_bit k all clear) (loop n (k + 1) lrs left (omega arith) size))
    | inr on ↦ rw on (
        step k n lrs left (set_bit k all on) (omega arith) size (put k lrs) (puts k lrs size)
          (λ lrs' left'. loop n (k + 1) lrs' left' (omega arith)))
  ]

  pub moved :
      (lrs : List ℕ)
      → length lrs ≡ m
      → ((k : ℕ) → bit k all ≡ 1 → k < top)
      → IsMoved m value all lrs (move_from put top 0 all lrs 0).0 (move_from put top 0 all lrs 0).1
  moved lrs size small =
      let l = loop top 0 lrs 0 (omega arith) size in
      record {
        keeps_used = l.keeps;
        none_lost = λ k on. l.goes k (omega arith) (small k on) on;
        waits_if_full = λ k on. from_none k (l.full k on);
        none_made_up = l.fresh;
      }
    where
      from_none : {P : Type 0} (k : ℕ) → (bit k 0 ≡ 1) ⊎ P → P
      from_none k (inl h) = absurd (omega (arith, h, bit-zero k))
      from_none k (inr h) = h
