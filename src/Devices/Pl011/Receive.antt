-- ===== src/Devices/Pl011/Receive.antt =====
-- src/devices/pl011/emulator.rs: the receive ring as a bounded queue of bytes, and its interrupt.
use hypervisor.Prelude.{
  ℕ, zero, suc, ◌+◌, ◌-◌, ◌%◌, ◌^◌, ◌<◌, ◌≤◌, ◌≡◌, refl, ap, ◌∙◌, arith, true, false, Option, none,
  some, List, [], ◌∷◌, ◌++◌, length, get_or, set, ◌==◌, if◌then◌else◌, get_or-set_ne,
  get_or-set_self, length-set, Bool-cases, inl, inr, ◌⊎◌,
}
use hypervisor.Bits.Test.{bit, bit-le_one, bit-bit_or, bit-bit_and, bit-complement, complement}
use hypervisor.Devices.Pl011.{VirtualUart, rx_buf_size, int_rx, clear_bits, push_rx, pop_rx}

-- The bytes of `n` places, from index `h` on, around the end of the array.
unfoldable pub bytes_from : List ℕ → ℕ → ℕ → List ℕ
bytes_from bs h zero = []
bytes_from bs h (suc n) = get_or bs (h % 64) 0 ∷ bytes_from bs (h + 1) n

-- The bytes that wait to be read, the oldest first.
unfoldable pub contents : VirtualUart → List ℕ
unfolding bytes_from
contents u = bytes_from u.rx_buf u.rx_head ((u.rx_tail + 64 - u.rx_head) % 64)

-- Bit 4 of the raw status.
abbrev pub rx_status : VirtualUart → ℕ
rx_status u = bit 4 u.ris

pub record IsValid (u : VirtualUart) : Type 0 where
  pub size : length u.rx_buf ≡ rx_buf_size
  pub head_lt : u.rx_head < rx_buf_size
  pub tail_lt : u.rx_tail < rx_buf_size

length-bytes_from : (bs : List ℕ) (h n : ℕ) → length (bytes_from bs h n) ≡ n
unfolding bytes_from
length-bytes_from bs h zero = refl
length-bytes_from bs h (suc n) = ap suc (length-bytes_from bs (h + 1) n)

bytes_from-set :
    (bs : List ℕ) (h t n b : ℕ)
    → t < 64
    → n ≤ (t + 64 - h % 64) % 64
    → bytes_from (set bs t b) h n ≡ bytes_from bs h n
unfolding bytes_from
bytes_from-set bs h t zero b l d = refl
bytes_from-set bs h t (suc n) b l d = λ i.
    get_or-set_ne bs t (h % 64) b 0 (omega arith) i
    ∷ bytes_from-set bs (h + 1) t n b l (omega arith) i

bytes_from-last :
    (bs : List ℕ) (h n k : ℕ)
    → k ≡ (h + n) % 64
    → bytes_from bs h (suc n) ≡ bytes_from bs h n ++ get_or bs k 0 ∷ []
unfolding bytes_from
bytes_from-last bs h zero k e = ap (λ (j : ℕ). get_or bs j 0 ∷ []) (omega (arith, e))
bytes_from-last bs h (suc n) k e =
    ap (λ l. get_or bs (h % 64) 0 ∷ l) (bytes_from-last bs (h + 1) n k (omega (arith, e)))

bytes_from-wrap :
    (bs : List ℕ) (h k n : ℕ) → h % 64 ≡ k % 64 → bytes_from bs h n ≡ bytes_from bs k n
unfolding bytes_from
bytes_from-wrap bs h k zero e = refl
bytes_from-wrap bs h k (suc n) e =
    λ i. get_or bs (e i) 0 ∷ bytes_from-wrap bs (h + 1) (k + 1) n (omega (arith, e)) i

length-contents : (u : VirtualUart) → length (contents u) ≡ (u.rx_tail + 64 - u.rx_head) % 64
unfolding contents
length-contents u = length-bytes_from u.rx_buf u.rx_head ((u.rx_tail + 64 - u.rx_head) % 64)

raised : bit 4 int_rx ≡ 1
unfolding bit
raised = refl

-- A byte is appended and the receive interrupt raised, or it is dropped because 63 bytes wait.
abbrev pub Received : VirtualUart → ℕ → VirtualUart → Type 0
Received u ch u' =
    (IsValid u' × (contents u' ≡ contents u ++ ch ∷ []) × (rx_status u' ≡ 1))
    ⊎ ((u' ≡ u) × (length (contents u) ≡ 63))

-- On a valid port a received byte goes to the end of the queue, which raises the receive interrupt,
-- or it is dropped and nothing changes, because 63 bytes wait already.
pub push_rx-Received : (u : VirtualUart) (ch : ℕ) → IsValid u → Received u ch (push_rx u ch)
unfolding push_rx contents
push_rx-Received u ch v =
    let n = (u.rx_tail + 64 - u.rx_head) % 64 in
    elim (Bool-cases ((u.rx_tail + 1) % 64 == u.rx_head)) [
      | inl g ↦ rw g (inr (refl, ground (arith, g, length-contents u, v.head_lt, v.tail_lt)))
      | inr g ↦
          let count : ((u.rx_tail + 1) % 64 + 64 - u.rx_head) % 64 ≡ suc n =
            ground (arith, v.head_lt, v.tail_lt, g) in
          rw g (
            inl (
              record {
                size = length-set u.rx_buf u.rx_tail ch ∙ v.size;
                head_lt = v.head_lt;
                tail_lt = omega arith;
              },
              ap (bytes_from (set u.rx_buf u.rx_tail ch) u.rx_head) count
                  ∙ bytes_from-last (set u.rx_buf u.rx_tail ch) u.rx_head n u.rx_tail
                      (omega (arith, v.head_lt, v.tail_lt))
                  ∙ (λ i.
                      bytes_from-set u.rx_buf u.rx_head u.rx_tail n ch v.tail_lt
                        (omega (arith, v.head_lt)) i
                      ++ get_or-set_self u.rx_buf u.rx_tail ch 0 (omega (arith, v.size, v.tail_lt))
                          i
                        ∷ []),
              bit-bit_or 4 u.ris int_rx ∙ omega (arith, bit-le_one 4 u.ris, raised),
            ))
    ]

-- What a read of the data register finds in these contents, and what it leaves: the oldest byte goes,
-- and with the last one the receive interrupt is cleared.
abbrev pub Delivered : VirtualUart → List ℕ → Option ℕ × VirtualUart → Type 0
Delivered u [] out = out ≡ (none, u)
Delivered u (c ∷ cs) (o, u') =
    IsValid u'
    × (o ≡ some c)
    × (contents u' ≡ cs)
    × (rx_status u' ≡ (if length cs == 0 then 0 else rx_status u))

cleared : (ris : ℕ) → ris < 2 ^ 32 → bit 4 (clear_bits ris int_rx) ≡ 0
cleared ris h =
    bit-bit_and 4 ris (complement 32 int_rx)
    ∙ omega (arith, bit-complement 32 4 int_rx (omega arith) (omega arith), raised)

module _ (u : VirtualUart) (v : IsValid u) (small : u.ris < 2 ^ 32) where
  Delivered-at :
      (n : ℕ)
      → (u.rx_tail + 64 - u.rx_head) % 64 ≡ n
      → Delivered u (bytes_from u.rx_buf u.rx_head n) (pop_rx u)
  unfolding pop_rx contents bytes_from
  Delivered-at zero e = rw same refl
    where
      same : (u.rx_head == u.rx_tail) ≡ true
      same = ground (arith, e, v.head_lt, v.tail_lt)
  Delivered-at (suc n) e =
      rw (other, index)
        (
          record { size = v.size; head_lt = omega arith; tail_lt = v.tail_lt },
          refl,
          ap (bytes_from u.rx_buf ((u.rx_head + 1) % 64)) count
              ∙ bytes_from-wrap u.rx_buf ((u.rx_head + 1) % 64) (u.rx_head + 1) n (omega arith),
          ground (
            arith,
            cleared u.ris small,
            length-bytes_from u.rx_buf (u.rx_head + 1) n,
            e,
            v.head_lt,
            v.tail_lt,
          ),
        )
    where
      other : (u.rx_head == u.rx_tail) ≡ false
      other = ground (arith, e, v.head_lt, v.tail_lt)

      index : u.rx_head % 64 ≡ u.rx_head
      index = omega (arith, v.head_lt)

      count : (u.rx_tail + 64 - (u.rx_head + 1) % 64) % 64 ≡ n
      count = omega (arith, e, v.head_lt, v.tail_lt)

-- On a valid port the data register gives the oldest byte that waits, and leaves the others in order;
-- the receive interrupt is cleared with the last of them and else kept. An empty queue changes nothing.
pub pop_rx-Delivered :
    (u : VirtualUart) → IsValid u → u.ris < 2 ^ 32 → Delivered u (contents u) (pop_rx u)
unfolding contents
pop_rx-Delivered u v s = Delivered-at u v s ((u.rx_tail + 64 - u.rx_head) % 64) refl
