-- ===== src/Devices/Virtio/Scattered.antt =====
-- src/devices/virtio/mmio.rs: what the buffers hold after a received frame was put into them.
use hypervisor.Prelude.{
  ℕ, ◌+◌, ◌-◌, ◌<◌, ◌≤◌, ◌≡◌, refl, ◌∙◌, ap, sym, arith, ◌⊎◌, inl, inr, true, false, List, [], ◌∷◌,
  ◌++◌, length, length-take, take, ltb, leb, ◌&&◌, min, Bool-cases,
}
use hypervisor.Ffa.Descriptors.{Bytes}
use hypervisor.Vswitch.Forward.{drop}
use hypervisor.Devices.Virtio.Queue.{VirtqDesc, is_writable}
use hypervisor.Devices.Virtio.Net.{bytes_at}
use hypervisor.Devices.Virtio.Blk.{write_bytes}
use hypervisor.Devices.Virtio.Inject.{header, capacity, piece, scatter}
use hypervisor.Devices.Virtio.Frames.{
  bytes_of, drop-append, drop_ap, append_ap, length-bytes_at, length-drop,
}
use hypervisor.Devices.Virtio.Bytes.{
  take_ap, take-append, take-append-drop, drop-drop, drop_all, take_all, take-min, take-bytes_at,
  bytes_at-write_bytes, bytes_at-same,
}

-- The header and the frame as one sequence of bytes.
abbrev pub packet : List ℕ → List ℕ
packet frame = header ++ frame

piece-packet :
    (frame : List ℕ) (written n : ℕ) → piece frame written n ≡ take n (drop written (packet frame))
unfolding piece
piece-packet frame written n =
    let rest = drop (written - 12) frame in
    let head = drop written header in
    let len_head = length-drop written header in
    let split = ap (take n) (drop-append written header frame) in
    elim (Bool-cases (ltb written 12)) [
      | inl c ↦
          let early : written < 12 = ground (arith, c) in
          rw c (
            append_ap (take (min (12 - written) n) head) (take n head)
              (take (n - min (12 - written) n) frame) (take (n - length head) rest)
              (take_ap (min (12 - written) n) (min (length head) n) head (omega (arith, len_head))
                ∙ take-min n head)
              (take_ap (n - min (12 - written) n) (n - length head) frame (omega (arith, len_head))
                ∙ ap (take (n - length head)) (drop_ap 0 (written - 12) frame (omega arith)))
            ∙ sym (take-append n head rest)
            ∙ sym split)
      | inr c ↦
          let late : 12 ≤ written = ground (arith, c) in
          rw c (sym (split ∙ ap (λ l. take n (l ++ rest)) (drop_all written header (omega arith))))
    ]

-- The buffers do not overlap and are writable.
abbrev pub IsApartFrom : VirtqDesc → List VirtqDesc → Type 0
IsApartFrom d [] = Unit {0}
IsApartFrom d (e ∷ es) = ((d.addr + d.len ≤ e.addr) ⊎ (e.addr + e.len ≤ d.addr)) × IsApartFrom d es

abbrev pub AreBuffers : List VirtqDesc → Type 0
AreBuffers [] = Unit {0}
AreBuffers (d ∷ ds) = (is_writable d ≡ true) × IsApartFrom d ds × AreBuffers ds

abbrev left : List ℕ → ℕ → ℕ
left frame written = 12 + length frame - written

scatter-outside :
    (frame : List ℕ) (d : VirtqDesc) (ds : List VirtqDesc) (written : ℕ) (m : Bytes) (a : ℕ)
    → IsApartFrom d ds
    → d.addr ≤ a
    → a < d.addr + d.len
    → (scatter frame ds written m).0 a ≡ m a
unfolding scatter
scatter-outside frame d [] written m a k l u = refl
scatter-outside frame d (e ∷ es) written m a k l u =
    let n = min (left frame written) e.len in
    let m1 = write_bytes m e.addr n (piece frame written n) in
    let skipped = scatter-outside frame d es written m a k.1 l u in
    let stored = scatter-outside frame d es (written + n) m1 a k.1 l u in
    let apart : leb e.addr a && ltb a (e.addr + n) ≡ false = ground (arith, k.0, l, u) in
    elim (Bool-cases (is_writable e)) [
      | inl w ↦ rw w (stored ∙ rw apart refl)
      | inr w ↦ rw w skipped
    ]

scatter-writable :
    (frame : List ℕ) (d : VirtqDesc) (ds : List VirtqDesc) (written : ℕ) (m : Bytes)
    → is_writable d ≡ true
    → scatter frame (d ∷ ds) written m
      ≡ scatter frame ds (written + min (left frame written) d.len) (
          write_bytes m d.addr
            (min (left frame written) d.len)
            (piece frame written (min (left frame written) d.len)))
unfolding scatter
scatter-writable frame d ds written m w = rw w refl

-- With writable buffers that do not overlap and together have room for what is left of header and
-- frame, the buffers hold exactly that, in order, however it is spread over them.
pub scatter-packet :
    (frame : List ℕ) (ds : List VirtqDesc) (written : ℕ) (m : Bytes)
    → AreBuffers ds
    → 12 + length frame - written ≤ capacity ds
    → take (12 + length frame - written) (bytes_of (scatter frame ds written m).0 ds)
      ≡ drop written (packet frame)
unfolding scatter bytes_of capacity
scatter-packet frame [] written m k h =
    take_all (left frame written) [] (omega arith)
    ∙ sym (drop_all written (packet frame) (omega (arith, h)))
scatter-packet frame (d ∷ ds) written m k h =
    let rem = left frame written in
    let n = min rem d.len in
    let p = piece frame written n in
    let rest = drop written (packet frame) in
    let m1 = write_bytes m d.addr n p in
    let m2 = (scatter frame ds (written + n) m1).0 in
    let len_rest = length-drop written (packet frame) in
    let is_piece = piece-packet frame written n in
    let len_piece : length p ≡ n =
      ap length is_piece ∙ length-take n rest ∙ omega (arith, len_rest) in
    let room : rem ≤ d.len + capacity ds = ground (arith, h, k.0) in
    let here : bytes_at m2 d.addr n ≡ take n rest =
      bytes_at-same m1 m2 d.addr n
        (λ b l u. scatter-outside frame d ds (written + n) m1 b (k.1) l (omega (arith, u)))
      ∙ bytes_at-write_bytes m d.addr n p (omega (arith, len_piece))
      ∙ take_all n p (omega (arith, len_piece))
      ∙ is_piece in
    let there = scatter-packet frame ds (written + n) m1 (k.2) (omega (arith, room)) in
    let all = bytes_at m2 d.addr d.len in
    ap (λ o. take rem (bytes_of o.0 (d ∷ ds))) (scatter-writable frame d ds written m (k.0))
    ∙ (take-append rem all (bytes_of m2 ds)
        ∙ append_ap (take rem all) (take n rest) (take (rem - length all) (bytes_of m2 ds))
            (drop n rest) (take-bytes_at m2 rem d.addr d.len ∙ here)
            (take_ap (rem - length all) (left frame (written + n)) (bytes_of m2 ds)
                (omega (arith, length-bytes_at m2 d.addr d.len))
              ∙ there
              ∙ sym (drop-drop written n (packet frame)))
        ∙ take-append-drop n rest)
