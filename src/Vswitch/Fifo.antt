-- ===== src/Vswitch/Fifo.antt =====
-- src/vswitch.rs: the ring as a bounded queue of frames.
use hypervisor.Prelude.{
  ℕ, zero, suc, ◌+◌, ◌-◌, ◌%◌, ◌<◌, ◌≤◌, ◌≡◌, refl, ap, ◌∙◌, arith, Bool, true, false, ◌||◌, Option,
  none, some, List, [], ◌∷◌, ◌++◌, length, get_or, set, take, min, ltb, ◌==◌, All, All-set,
  All-get_or, get_or-set_ne, get_or-set_self, length-set, length-replicate, length-take, Bool-cases,
  inl, inr, ◌⊎◌,
}
use hypervisor.Vswitch.RxRing.{
  Frame, FrameSlot, NetRxRing, max_frame_size, ring_size, empty_slot, copy_prefix, filled,
  store_frame, take_frame,
}

-- The frame that a slot holds.
abbrev pub payload : FrameSlot → Frame
payload s = take s.len s.buf

-- The frames of `n` slots, from index `h` on, around the end of the array.
unfoldable pub frames_from : List FrameSlot → ℕ → ℕ → List Frame
frames_from fs h zero = []
frames_from fs h (suc n) = payload (get_or fs (h % ring_size) empty_slot) ∷ frames_from fs (h + 1) n

-- The frames in the ring, the oldest first.
unfoldable pub contents : NetRxRing → List Frame
unfolding frames_from
contents r = frames_from r.frames r.head ((r.tail + 9 - r.head) % 9)

abbrev pub IsSlot : FrameSlot → Type 0
IsSlot s = (length s.buf ≡ max_frame_size) × (s.len ≤ max_frame_size)

pub record IsValid (r : NetRxRing) : Type 0 where
  pub slots : length r.frames ≡ ring_size
  pub buffers : All IsSlot r.frames
  pub head_lt : r.head < ring_size
  pub tail_lt : r.tail < ring_size

empty_slot-IsSlot : IsSlot empty_slot
unfolding empty_slot
empty_slot-IsSlot = (length-replicate {A = ℕ} 1514 0, omega arith)

length-copy_prefix : (xs bs : List ℕ) → length (copy_prefix xs bs) ≡ length bs
unfolding copy_prefix
length-copy_prefix [] bs = refl
length-copy_prefix (x ∷ xs) [] = refl
length-copy_prefix (x ∷ xs) (b ∷ bs) = ap suc (length-copy_prefix xs bs)

take-copy_prefix :
    (xs bs : List ℕ) → length xs ≤ length bs → take (length xs) (copy_prefix xs bs) ≡ xs
unfolding copy_prefix
take-copy_prefix [] bs l = refl
take-copy_prefix (x ∷ xs) [] l = absurd (omega arith)
take-copy_prefix (x ∷ xs) (b ∷ bs) l = ap (λ ys. x ∷ ys) (take-copy_prefix xs bs (omega arith))

length-frames_from : (fs : List FrameSlot) (h n : ℕ) → length (frames_from fs h n) ≡ n
unfolding frames_from
length-frames_from fs h zero = refl
length-frames_from fs h (suc n) = ap suc (length-frames_from fs (h + 1) n)

-- A slot outside the range is not read.
frames_from-set :
    (fs : List FrameSlot) (h t n : ℕ) (s : FrameSlot)
    → t < 9
    → n ≤ (t + 9 - h % 9) % 9
    → frames_from (set fs t s) h n ≡ frames_from fs h n
unfolding frames_from
frames_from-set fs h t zero s l d = refl
frames_from-set fs h t (suc n) s l d = λ i.
    payload (get_or-set_ne fs t (h % 9) s empty_slot (omega arith) i)
    ∷ frames_from-set fs (h + 1) t n s l (omega arith) i

-- The last slot of a range goes to the end.
frames_from-last :
    (fs : List FrameSlot) (h n k : ℕ)
    → k ≡ (h + n) % 9
    → frames_from fs h (suc n) ≡ frames_from fs h n ++ payload (get_or fs k empty_slot) ∷ []
unfolding frames_from
frames_from-last fs h zero k e =
    ap (λ (j : ℕ). payload (get_or fs j empty_slot) ∷ []) (omega (arith, e))
frames_from-last fs h (suc n) k e =
    ap (λ ys. payload (get_or fs (h % 9) empty_slot) ∷ ys)
      (frames_from-last fs (h + 1) n k (omega (arith, e)))

pub length-contents : (r : NetRxRing) → length (contents r) ≡ (r.tail + 9 - r.head) % 9
unfolding contents
length-contents r = length-frames_from r.frames r.head ((r.tail + 9 - r.head) % 9)

-- A store appends the frame, or it changes nothing because the frame has no length that fits a slot
-- or the queue holds eight frames.
abbrev pub Stored : NetRxRing → Frame → NetRxRing × Bool → Type 0
Stored r f (r', b) =
    ((b ≡ true) × IsValid r' × (contents r' ≡ contents r ++ f ∷ []))
    ⊎ ((b ≡ false)
        × (r' ≡ r)
        × ((length f ≡ 0) ⊎ (max_frame_size < length f) ⊎ (length (contents r) ≡ 8)))

module _ (r : NetRxRing) (v : IsValid r) (f : Frame) (l : length f ≤ max_frame_size)
    (free : ((r.tail + 1) % 9 == r.head) ≡ false) where
  slot_after : FrameSlot
  slot_after = filled f (get_or r.frames r.tail empty_slot)

  ring_after : NetRxRing
  ring_after = record r { frames = set r.frames r.tail slot_after; tail = (r.tail + 1) % 9 }

  old-IsSlot : IsSlot (get_or r.frames r.tail empty_slot)
  old-IsSlot = All-get_or IsSlot r.frames r.tail empty_slot empty_slot-IsSlot v.buffers

  slot_after-payload : payload slot_after ≡ f
  unfolding slot_after
  slot_after-payload =
      take-copy_prefix f (get_or r.frames r.tail empty_slot).buf (omega (arith, l, old-IsSlot.0))

  slot_after-IsSlot : IsSlot slot_after
  unfolding slot_after
  slot_after-IsSlot =
      (length-copy_prefix f (get_or r.frames r.tail empty_slot).buf ∙ old-IsSlot.0, l)

  ring_after-IsValid : IsValid ring_after
  unfolding ring_after
  ring_after-IsValid = record {
    slots = length-set r.frames r.tail slot_after ∙ v.slots;
    buffers = All-set IsSlot r.frames r.tail slot_after slot_after-IsSlot v.buffers;
    head_lt = v.head_lt;
    tail_lt = omega arith;
  }

  ring_after-contents : contents ring_after ≡ contents r ++ f ∷ []
  unfolding ring_after contents
  ring_after-contents =
      let n = (r.tail + 9 - r.head) % 9 in
      let fs = set r.frames r.tail slot_after in
      ap (frames_from fs r.head) count
      ∙ frames_from-last fs r.head n r.tail (omega (arith, v.head_lt, v.tail_lt))
      ∙ (λ i.
          frames_from-set r.frames r.head r.tail n slot_after v.tail_lt (omega (arith, v.head_lt)) i
          ++ (ap payload (get_or-set_self r.frames r.tail slot_after empty_slot in_range)
                ∙ slot_after-payload)
              i
            ∷ [])
    where
      in_range : r.tail < length r.frames
      in_range = omega (arith, v.slots, v.tail_lt)

      count : ((r.tail + 1) % 9 + 9 - r.head) % 9 ≡ suc ((r.tail + 9 - r.head) % 9)
      count = ground (arith, v.head_lt, v.tail_lt, free)

-- On a valid ring `store` appends the frame to the queue and keeps the ring valid, or it changes
-- nothing, because the frame is empty or longer than a slot or the queue holds eight frames.
pub store_frame-Stored : (r : NetRxRing) (f : Frame) → IsValid r → Stored r f (store_frame r f)
unfolding store_frame ring_after slot_after
store_frame-Stored r f v = elim (Bool-cases (length f == 0 || ltb max_frame_size (length f))) [
  | inl e ↦ rw e (inr (refl, refl, wrong_length e))
  | inr e ↦ elim (Bool-cases ((r.tail + 1) % 9 == r.head)) [
    | inl g ↦ rw (e, g) (inr (refl, refl, inr (inr (full g))))
    | inr g ↦
        rw (e, g)
          (inl (refl, ring_after-IsValid r v f (fits e) g, ring_after-contents r v f (fits e) g))
  ]
]
  where
    wrong_length :
        (length f == 0 || ltb max_frame_size (length f)) ≡ true
        → (length f ≡ 0) ⊎ (max_frame_size < length f) ⊎ (length (contents r) ≡ 8)
    wrong_length e = ground (arith, e)

    fits : (length f == 0 || ltb max_frame_size (length f)) ≡ false → length f ≤ max_frame_size
    fits e = ground (arith, e)

    full : ((r.tail + 1) % 9 == r.head) ≡ true → length (contents r) ≡ 8
    full g = ground (arith, g, length-contents r, v.head_lt, v.tail_lt)

-- What `take` does to a queue with these frames.
abbrev pub Taken : NetRxRing → List ℕ → List Frame → NetRxRing × Option ℕ × List ℕ → Type 0
Taken r out [] o = o ≡ (r, none, out)
Taken r out (f ∷ fs) (r', n, out') =
    IsValid r'
    × (contents r' ≡ fs)
    × (n ≡ some (length f))
    × (out' ≡ copy_prefix (take (length out) f) out)

min-suc : (n k : ℕ) → min (suc n) (suc k) ≡ suc (min n k)
min-suc n k = omega arith

none_left : (n k : ℕ) → (n ≡ 0) ⊎ (k ≡ 0) → min n k ≡ 0
none_left n k h = ground (arith, h)

take-take : (n k : ℕ) (xs : List ℕ) → take (min n k) xs ≡ take k (take n xs)
take-take zero zero xs = refl
take-take zero (suc k) xs = ap (λ (j : ℕ). take j xs) (none_left 0 (suc k) (inl refl))
take-take (suc n) zero xs = ap (λ (j : ℕ). take j xs) (none_left (suc n) 0 (inr refl))
take-take (suc n) (suc k) [] = ap (λ (j : ℕ). take {A = ℕ} j []) (min-suc n k)
take-take (suc n) (suc k) (x ∷ xs) =
    ap (λ (j : ℕ). take j (x ∷ xs)) (min-suc n k) ∙ ap (λ ys. x ∷ ys) (take-take n k xs)

frames_from-wrap :
    (fs : List FrameSlot) (h k n : ℕ) → h % 9 ≡ k % 9 → frames_from fs h n ≡ frames_from fs k n
unfolding frames_from
frames_from-wrap fs h k zero e = refl
frames_from-wrap fs h k (suc n) e = λ i.
    payload (get_or fs (e i) empty_slot)
    ∷ frames_from-wrap fs (h + 1) (k + 1) n (omega (arith, e)) i

-- The slot at the head, when the ring is not empty.
module _ (r : NetRxRing) (v : IsValid r) where
  head-IsSlot : IsSlot (get_or r.frames r.head empty_slot)
  head-IsSlot = All-get_or IsSlot r.frames r.head empty_slot empty_slot-IsSlot v.buffers

  length-head :
      (get_or r.frames r.head empty_slot).len ≡ length (payload (get_or r.frames r.head empty_slot))
  length-head = omega (
    arith,
    head-IsSlot.0,
    head-IsSlot.1,
    length-take (get_or r.frames r.head empty_slot).len (get_or r.frames r.head empty_slot).buf,
  )

  index_wrap : r.head % 9 ≡ r.head
  index_wrap = omega (arith, v.head_lt)

  Taken-at :
      (out : List ℕ) (n : ℕ)
      → (r.tail + 9 - r.head) % 9 ≡ n
      → Taken r out (frames_from r.frames r.head n) (take_frame r out)
  unfolding take_frame contents frames_from
  Taken-at out zero e = rw same refl
    where
      same : (r.head == r.tail) ≡ true
      same = ground (arith, e, v.head_lt, v.tail_lt)
  Taken-at out (suc n) e =
      rw (other, index_wrap)
        (
          record {
            slots = v.slots;
            buffers = v.buffers;
            head_lt = omega arith;
            tail_lt = v.tail_lt;
          },
          ap (frames_from r.frames ((r.head + 1) % 9)) count
              ∙ frames_from-wrap r.frames ((r.head + 1) % 9) (r.head + 1) n (omega arith),
          ap some length-head,
          ap (λ ys. copy_prefix ys out)
              (take-take (get_or r.frames r.head empty_slot).len (length out)
                (get_or r.frames r.head empty_slot).buf),
        )
    where
      other : (r.head == r.tail) ≡ false
      other = ground (arith, e, v.head_lt, v.tail_lt)

      count : (r.tail + 9 - (r.head + 1) % 9) % 9 ≡ n
      count = omega (arith, e, v.head_lt, v.tail_lt)

-- On a valid ring `take` hands out the oldest frame of the queue, with its length, as far as it fits
-- the buffer, and leaves the others in order; on an empty queue it changes nothing.
pub take_frame-Taken :
    (r : NetRxRing) (out : List ℕ) → IsValid r → Taken r out (contents r) (take_frame r out)
unfolding contents
take_frame-Taken r out v = Taken-at r v out ((r.tail + 9 - r.head) % 9) refl
