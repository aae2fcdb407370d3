-- ===== src/Ffa/Notifications/Binds.antt =====
-- src/ffa/notifications.rs: the binds of an endpoint, over histories of calls.
use hypervisor.Prelude.{
  All-set, All-get_or, All-replicate, get_or, length-replicate, Bool-cases, inl, inr, ℕ, zero, suc,
  ◌≡◌, refl, ap, ◌∙◌, arith, Bool, true, false, not, Option, none, some, List, [], ◌∷◌, All,
  update_first, any, bit_and, ◌==◌, if◌then◌else◌, Result, length, replicate, length-update_first,
}
use hypervisor.Bits.Test.{complement, bit, bit-bit_and, bits_zero, bit-zero}
use hypervisor.Ffa.Ids.{FfaError}
use hypervisor.Ffa.Notifications.{
  NotifBind, Endpoint, Endpoints, Reply, init, on_index, endpoint_index, bitmap_create,
  bitmap_destroy, bind, unbind, set_bits, get_bits, new_bind, new_endpoint, max_binds, overlaps,
  binds_some, unbound, create_bitmap, destroy_bitmap, bind_sender, unbind_sender, set_pending,
  get_pending,
}

-- An active bind has none of these bits.
abbrev pub Without : ℕ → NotifBind → Type 0
Without bitmap b = b.active ≡ true → bit_and b.bitmap bitmap ≡ 0

abbrev pub Disjoint : List NotifBind → Type 0
Disjoint [] = Unit {0}
Disjoint (b ∷ bs) = (b.active ≡ true → All (Without b.bitmap) bs) × Disjoint bs

pub record IsValid (e : Endpoint) : Type 0 where
  pub slots : length e.binds ≡ max_binds
  pub disjoint : Disjoint e.binds

-- Taking bits away keeps two words disjoint, on either side.
bit_and-less_left : (a b c : ℕ) → bit_and a b ≡ 0 → bit_and (bit_and a c) b ≡ 0
bit_and-less_left a b c h = bits_zero _ λ k. omega (
  arith,
  bit-bit_and k (bit_and a c) b,
  bit-bit_and k a c,
  bit-bit_and k a b,
  ap (bit k) h,
  bit-zero k,
)

bit_and-less_right : (a b c : ℕ) → bit_and a b ≡ 0 → bit_and a (bit_and b c) ≡ 0
bit_and-less_right a b c h = bits_zero _ λ k. omega (
  arith,
  bit-bit_and k a (bit_and b c),
  bit-bit_and k b c,
  bit-bit_and k a b,
  ap (bit k) h,
  bit-zero k,
)

bit_and-swap : (a b : ℕ) → bit_and a b ≡ 0 → bit_and b a ≡ 0
bit_and-swap a b h =
    bits_zero _ λ k. omega (arith, bit-bit_and k a b, bit-bit_and k b a, ap (bit k) h, bit-zero k)

no_overlap :
    (bitmap : ℕ) (bs : List NotifBind) → any (overlaps bitmap) bs ≡ false → All (Without bitmap) bs
no_overlap bitmap [] h = tt
no_overlap bitmap (b ∷ bs) h = (λ a. ground (arith, h, a), no_overlap bitmap bs (ground (arith, h)))

module _ (p : NotifBind → Bool) (f : NotifBind → NotifBind) where
  Without-update :
      (bitmap : ℕ) (bs : List NotifBind)
      → ((b : NotifBind) → Without bitmap b → Without bitmap (f b))
      → All (Without bitmap) bs
      → All (Without bitmap) (update_first p f bs).0
  unfolding update_first
  Without-update bitmap [] k w = tt
  Without-update bitmap (b ∷ bs) k w = ground (arith, k b w.0, w, Without-update bitmap bs k w.1)

  Disjoint-update :
      (bs : List NotifBind)
      → ((bitmap : ℕ) (b : NotifBind) → Without bitmap b → Without bitmap (f b))
      → ((b : NotifBind) (bs : List NotifBind)
          → (f b).active ≡ true
          → (b.active ≡ true → All (Without b.bitmap) bs)
          → All (Without (f b).bitmap) bs)
      → Disjoint bs
      → Disjoint (update_first p f bs).0
  unfolding update_first
  Disjoint-update [] k l d = tt
  Disjoint-update (b ∷ bs) k l d =
      ground (arith, Disjoint-update bs k l d.1, l b bs, d, Without-update b.bitmap bs (k b.bitmap))

Without-unbound :
    (taken bitmap : ℕ) (b : NotifBind) → Without bitmap b → Without bitmap (unbound taken b)
Without-unbound taken bitmap b w =
    ground (arith, w, bit_and-less_left b.bitmap bitmap (complement 64 taken))

All-Without-less :
    (m c : ℕ) (bs : List NotifBind) → All (Without m) bs → All (Without (bit_and m c)) bs
All-Without-less m c [] w = tt
All-Without-less m c (b ∷ bs) w =
    (λ a. bit_and-less_right b.bitmap m c (w.0 a), All-Without-less m c bs w.1)

unbind-Disjoint :
    (sender bitmap : ℕ) (bs : List NotifBind)
    → Disjoint bs
    → Disjoint (update_first (binds_some sender bitmap) (unbound bitmap) bs).0
unbind-Disjoint sender bitmap bs =
    Disjoint-update (binds_some sender bitmap) (unbound bitmap) bs (Without-unbound bitmap)
      (λ b rest a w. All-Without-less b.bitmap (complement 64 bitmap) rest (w (ground (arith, a))))

-- A new bind that overlaps none goes into a free slot.
fill-Disjoint :
    (new : NotifBind) (bs : List NotifBind)
    → All (Without new.bitmap) bs
    → Disjoint bs
    → Disjoint (update_first (λ b. not b.active) (λ _. new) bs).0
unfolding update_first
fill-Disjoint new [] w d = tt
fill-Disjoint new (b ∷ bs) w d = ground (
  arith,
  w,
  d,
  fill-Disjoint new bs w.1 d.1,
  fill-Without new b.bitmap bs,
  bit_and-swap b.bitmap new.bitmap,
)
  where
    fill-Without :
        (new : NotifBind) (m : ℕ) (bs : List NotifBind)
        → bit_and new.bitmap m ≡ 0
        → All (Without m) bs
        → All (Without m) (update_first (λ b. not b.active) (λ _. new) bs).0
    fill-Without new m [] e w = tt
    fill-Without new m (b ∷ bs) e w = ground (arith, w, e, fill-Without new m bs e w.1)

new_binds-Disjoint : (n : ℕ) → Disjoint (replicate n new_bind)
new_binds-Disjoint zero = tt
new_binds-Disjoint (suc n) = (λ e. cc, new_binds-Disjoint n)

pub new_endpoint-IsValid : IsValid new_endpoint
new_endpoint-IsValid = record { slots = refl; disjoint = new_binds-Disjoint 8 }

create_bitmap-IsValid : (e : Endpoint) → IsValid e → IsValid (create_bitmap e).0
unfolding create_bitmap
create_bitmap-IsValid e v = ground (arith, v)

destroy_bitmap-IsValid : (e : Endpoint) → IsValid e → IsValid (destroy_bitmap e).0
unfolding destroy_bitmap
destroy_bitmap-IsValid e v = elim (Bool-cases e.enabled) [
  | inr o ↦ simp o v
  | inl o ↦ rw o (record {
    slots = length-replicate (length e.binds) new_bind ∙ v.slots;
    disjoint = new_binds-Disjoint (length e.binds);
  })
]

bind_sender-IsValid :
    (sender bitmap : ℕ) (e : Endpoint) → IsValid e → IsValid (bind_sender sender bitmap e).0
unfolding bind_sender
bind_sender-IsValid sender bitmap e v = elim (Bool-cases e.enabled) [
  | inr o ↦ simp o v
  | inl o ↦ elim (Bool-cases (any (overlaps bitmap) e.binds)) [
    | inl p ↦ simp (o, p) v
    | inr p ↦
        rw (o, p)
          (record {
            slots = length-update_first _ _ e.binds ∙ v.slots;
            disjoint = fill-Disjoint _ e.binds (no_overlap bitmap e.binds p) v.disjoint;
          })
  ]
]

unbind_sender-IsValid :
    (sender bitmap : ℕ) (e : Endpoint) → IsValid e → IsValid (unbind_sender sender bitmap e).0
unfolding unbind_sender
unbind_sender-IsValid sender bitmap e v = record {
  slots = length-update_first _ _ e.binds ∙ v.slots;
  disjoint = unbind-Disjoint sender bitmap e.binds v.disjoint;
}

set_pending-IsValid :
    (sender bitmap : ℕ) (e : Endpoint) → IsValid e → IsValid (set_pending sender bitmap e).0
unfolding set_pending
set_pending-IsValid sender bitmap e v = record {
  slots = ground (arith, v.slots);
  disjoint = ground (arith, v.disjoint);
}

get_pending-IsValid : (e : Endpoint) → IsValid e → IsValid (get_pending e).0
unfolding get_pending
get_pending-IsValid e v = record {
  slots = ground (arith, v.slots);
  disjoint = ground (arith, v.disjoint);
}

-- The calls of the component.
pub data Call : Type 0 where
  creates destroys gets : ℕ → Call
  binds unbinds sets : ℕ → ℕ → ℕ → Call

unfoldable pub step : Endpoints → Call → Endpoints
unfolding bind
step es (creates part) = (bitmap_create es part).0
step es (destroys part) = (bitmap_destroy es part).0
step es (gets part) = (get_bits es part).0
step es (binds sender receiver bitmap) = (bind es sender receiver bitmap).0
step es (unbinds sender receiver bitmap) = (unbind es sender receiver bitmap).0
step es (sets sender receiver bitmap) = (set_bits es sender receiver bitmap).0

unfoldable pub run : Endpoints → List Call → Endpoints
unfolding step
run es [] = es
run es (c ∷ cs) = run (step es c) cs

on_index-IsValid :
    (es : Endpoints) (o : Option ℕ) (f : Endpoint → Reply)
    → ((e : Endpoint) → IsValid e → IsValid (f e).0)
    → All IsValid es
    → All IsValid (on_index es o f).0
on_index-IsValid es none f k v = v
on_index-IsValid es (some i) f k v =
    All-set IsValid es i (f (get_or es i new_endpoint)).0
      (k _ (All-get_or IsValid es i new_endpoint new_endpoint-IsValid v)) v

if-IsValid :
    (b : Bool) (x y : Endpoints × Result FfaError ℕ)
    → All IsValid x.0
    → All IsValid y.0
    → All IsValid (if b then x else y).0
if-IsValid true x y v w = v
if-IsValid false x y v w = w

step-IsValid : (es : Endpoints) (c : Call) → All IsValid es → All IsValid (step es c)
unfolding step
step-IsValid es (creates part) v =
    on_index-IsValid es (endpoint_index part) create_bitmap create_bitmap-IsValid v
step-IsValid es (destroys part) v =
    on_index-IsValid es (endpoint_index part) destroy_bitmap destroy_bitmap-IsValid v
step-IsValid es (gets part) v =
    on_index-IsValid es (endpoint_index part) get_pending get_pending-IsValid v
step-IsValid es (binds sender receiver bitmap) v = if-IsValid (bitmap == 0) _ _ v (
    on_index-IsValid es (endpoint_index receiver) (bind_sender sender bitmap)
      (bind_sender-IsValid sender bitmap) v)
step-IsValid es (unbinds sender receiver bitmap) v =
    on_index-IsValid es (endpoint_index receiver) (unbind_sender sender bitmap)
      (unbind_sender-IsValid sender bitmap) v
step-IsValid es (sets sender receiver bitmap) v =
    on_index-IsValid es (endpoint_index receiver) (set_pending sender bitmap)
      (set_pending-IsValid sender bitmap) v

run-IsValid : (es : Endpoints) (cs : List Call) → All IsValid es → All IsValid (run es cs)
unfolding run
run-IsValid es [] v = v
run-IsValid es (c ∷ cs) v = run-IsValid (step es c) cs (step-IsValid es c v)

-- After any sequence of notification calls every endpoint has eight binds, and the bitmaps of two
-- active binds of one endpoint share no bit.
pub run-init-IsValid : (cs : List Call) → All IsValid (run init cs)
run-init-IsValid cs =
    run-IsValid init cs (All-replicate IsValid 8 new_endpoint new_endpoint-IsValid)
