-- ===== src/Ffa/Notifications/Delivery.antt =====
-- src/ffa/notifications.rs: lemmas on raising and reading notifications.
use hypervisor.Prelude.{
  All, dec_lt, ℕ, ◌^◌, ◌<◌, ◌≡◌, ap, arith, true, List, [], ◌∷◌, ◌⊎◌, inl, inr, bit_and, bit_or,
  ◌==◌, ok, err, Bool-cases,
}
use hypervisor.Bits.Test.{
  complement, bit, bit-bit_and, bit-bit_or, bit-complement, bits_zero, bit-le_one, bit-zero,
  bit_above,
}
use hypervisor.Bits.Fields.{bit_or-lt_pow}
use hypervisor.Ffa.Ids.{denied}
use hypervisor.Ffa.Notifications.{NotifBind, Endpoint, allowed_from, set_pending, get_pending}

-- Some active bind of the sender has bit `k`.
abbrev pub MayRaise : ℕ → ℕ → List NotifBind → Type 0
MayRaise sender k [] = ⊥
MayRaise sender k (b ∷ bs) =
    ((b.active ≡ true) × (b.sender_id ≡ sender) × (bit k b.bitmap ≡ 1)) ⊎ MayRaise sender k bs

allowed_raises :
    (sender acc k : ℕ) (bs : List NotifBind)
    → bit k (allowed_from sender acc bs) ≡ 1
    → (bit k acc ≡ 1) ⊎ MayRaise sender k bs
unfolding allowed_from
allowed_raises sender acc k [] h = inl h
allowed_raises sender acc k (b ∷ bs) h = ground (
  arith,
  allowed_raises sender acc k bs,
  allowed_raises sender (bit_or acc b.bitmap) k bs,
  bit-bit_or k acc b.bitmap,
  bit-le_one k acc,
  bit-le_one k b.bitmap,
)

allowed_keeps :
    (sender acc k : ℕ) (bs : List NotifBind)
    → bit k acc ≡ 1
    → bit k (allowed_from sender acc bs) ≡ 1
unfolding allowed_from
allowed_keeps sender acc k [] h = h
allowed_keeps sender acc k (b ∷ bs) h = ground (
  arith,
  allowed_keeps sender acc k bs h,
  allowed_keeps sender (bit_or acc b.bitmap) k bs,
  bit-bit_or k acc b.bitmap,
  bit-le_one k b.bitmap,
)

raises_allowed :
    (sender acc k : ℕ) (bs : List NotifBind)
    → MayRaise sender k bs
    → bit k (allowed_from sender acc bs) ≡ 1
unfolding allowed_from
raises_allowed sender acc k [] h = absurd h
raises_allowed sender acc k (b ∷ bs) (inr h) =
    ground
      (arith, raises_allowed sender acc k bs h, raises_allowed sender (bit_or acc b.bitmap) k bs h)
raises_allowed sender acc k (b ∷ bs) (inl h) = ground (
  arith,
  h,
  allowed_keeps sender (bit_or acc b.bitmap) k bs,
  bit-bit_or k acc b.bitmap,
  bit-le_one k acc,
)

abbrev pub Narrow : List NotifBind → Type 0
Narrow = All (λ b. b.bitmap < 2 ^ 64)

allowed-lt :
    (sender acc : ℕ) (bs : List NotifBind)
    → acc < 2 ^ 64
    → Narrow bs
    → allowed_from sender acc bs < 2 ^ 64
unfolding allowed_from
allowed-lt sender acc [] h n = h
allowed-lt sender acc (b ∷ bs) h n = ground (
  arith,
  allowed-lt sender acc bs h n.1,
  allowed-lt sender (bit_or acc b.bitmap) bs (bit_or-lt_pow 64 acc b.bitmap h n.0) n.1,
)

-- `x & !y` is 0 exactly if each bit of `x` is one of `y`.
subset_test :
    (x y : ℕ)
    → y < 2 ^ 64
    → (bit_and x (complement 64 y) ≡ 0 → (k : ℕ) → k < 64 → bit k x ≡ 1 → bit k y ≡ 1)
subset_test x y w h k l b = omega (
  arith,
  bit-bit_and k x (complement 64 y),
  bit-complement 64 k y l w,
  ap (bit k) h,
  bit-zero k,
  bit-le_one k y,
)

subset_intro :
    (x y : ℕ)
    → x < 2 ^ 64
    → y < 2 ^ 64
    → ((k : ℕ) → bit k x ≡ 1 → bit k y ≡ 1)
    → bit_and x (complement 64 y) ≡ 0
subset_intro x y wx w h = bits_zero _ λ k. elim (dec_lt k 64) [
  | yes l ↦ ground (
    arith,
    bit-bit_and k x (complement 64 y),
    bit-complement 64 k y l w,
    h k,
    bit-le_one k x,
    bit-le_one k y,
  )
  | no l ↦ omega (arith, bit-bit_and k x (complement 64 y), bit_above 64 k x wx (omega arith))
]

-- The bits that a sender asks for are bound to it.
abbrev pub AllRaised : ℕ → ℕ → List NotifBind → Type 0
AllRaised sender bitmap bs = (k : ℕ) → bit k bitmap ≡ 1 → MayRaise sender k bs

refused_or_raised :
    (sender k : ℕ) (bs : List NotifBind)
    → (bit k 0 ≡ 1) ⊎ MayRaise sender k bs
    → MayRaise sender k bs
refused_or_raised sender k bs (inl z) = absurd (omega (arith, bit-zero k))
refused_or_raised sender k bs (inr r) = r

bound_or_above :
    (sender bitmap : ℕ) (e : Endpoint)
    → bitmap < 2 ^ 64
    → Narrow e.binds
    → bit_and bitmap (complement 64 (allowed_from sender 0 e.binds)) ≡ 0
    → AllRaised sender bitmap e.binds
bound_or_above sender bitmap e w n h k b = elim (dec_lt k 64) [
  | yes l ↦ refused_or_raised sender k e.binds (
      allowed_raises sender 0 k e.binds (
        subset_test bitmap (allowed_from sender 0 e.binds)
          (allowed-lt sender 0 e.binds (omega arith) n) h k l b))
  | no l ↦ absurd (omega (arith, bit_above 64 k bitmap w (omega arith)))
]

-- For bitmaps of 64 bits, `set` succeeds exactly if notifications are enabled and each bit that is
-- asked for is in an active bind of the sender; then it adds those bits to the pending ones, and
-- otherwise it is denied and changes nothing.
pub set_pending_lem :
    (sender bitmap : ℕ) (e : Endpoint)
    → bitmap < 2 ^ 64
    → Narrow e.binds
    → ((e.enabled ≡ true)
        × AllRaised sender bitmap e.binds
        × (set_pending sender bitmap e ≡ (record e { pending = bit_or e.pending bitmap }, ok 0)))
      ⊎ (¬ ((e.enabled ≡ true) × AllRaised sender bitmap e.binds)
          × (set_pending sender bitmap e ≡ (e, err denied)))
unfolding set_pending
set_pending_lem sender bitmap e w n = elim (Bool-cases e.enabled) [
  | inr o ↦ inr ((λ h. absurd (cc (o, h.0))), ground (arith, o))
  | inl o ↦
      elim (Bool-cases (bit_and bitmap (complement 64 (allowed_from sender 0 e.binds)) == 0)) [
        | inl z ↦
            inl (o, bound_or_above sender bitmap e w n (ground (arith, z)), ground (arith, o, z))
        | inr z ↦ inr ((λ h. absurd (ground (arith, z, zero h.1))), ground (arith, o, z))
      ]
]
  where
    zero :
        AllRaised sender bitmap e.binds
        → bit_and bitmap (complement 64 (allowed_from sender 0 e.binds)) ≡ 0
    zero h =
        subset_intro bitmap (allowed_from sender 0 e.binds) w
          (allowed-lt sender 0 e.binds (omega arith) n)
          (λ k b. raises_allowed sender 0 k e.binds (h k b))

-- What a successful `set` raised is read by the next `get` together with what was pending, and the
-- `get` after that reads nothing.
pub get-set_pending :
    (sender bitmap : ℕ) (e : Endpoint)
    → (set_pending sender bitmap e).1 ≡ ok 0
    → let raised = (set_pending sender bitmap e).0 in
      let read = get_pending raised in
      (read.1 ≡ ok (bit_or e.pending bitmap)) × ((get_pending read.0).1 ≡ ok 0)
unfolding set_pending get_pending
get-set_pending sender bitmap e h = ground (arith, h)
