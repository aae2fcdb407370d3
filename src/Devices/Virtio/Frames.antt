-- ===== src/Devices/Virtio/Frames.antt =====
-- src/devices/virtio/net.rs: the frame that a chain holds.
use hypervisor.Prelude.{
  ℕ, zero, suc, ◌+◌, ◌-◌, ◌≤◌, ◌≡◌, refl, ◌∙◌, ap, sym, arith, true, List, [], ◌∷◌, ◌++◌, length,
  length-append, leb, ltb, min, if◌then◌else◌, Bool-cases, inl, inr,
}
use hypervisor.Ffa.Descriptors.{Bytes}
use hypervisor.Vswitch.RxRing.{max_frame_size}
use hypervisor.Vswitch.Forward.{drop}
use hypervisor.Devices.Virtio.Queue.{VirtqDesc}
use hypervisor.Devices.Virtio.Net.{header_size, bytes_at, append_fitting, gather}

-- All bytes of the buffers, in order.
unfoldable pub bytes_of : Bytes → List VirtqDesc → List ℕ
bytes_of m [] = []
bytes_of m (d ∷ ds) = bytes_at m d.addr d.len ++ bytes_of m ds

pub length-bytes_at : (m : Bytes) (a n : ℕ) → length (bytes_at m a n) ≡ n
length-bytes_at m a zero = refl
length-bytes_at m a (suc n) = ap suc (length-bytes_at m (a + 1) n)

pub append-[] : (xs : List ℕ) → xs ++ [] ≡ xs
append-[] [] = refl
append-[] (x ∷ xs) = ap (λ l. x ∷ l) (append-[] xs)

pub append_assoc : (xs ys zs : List ℕ) → (xs ++ ys) ++ zs ≡ xs ++ (ys ++ zs)
append_assoc [] ys zs = refl
append_assoc (x ∷ xs) ys zs = ap (λ l. x ∷ l) (append_assoc xs ys zs)

pub drop_ap : (k j : ℕ) (xs : List ℕ) → k ≡ j → drop k xs ≡ drop j xs
drop_ap k j xs e = ap (λ (n : ℕ). drop n xs) e

bytes_at_ap : (m : Bytes) (a b n k : ℕ) → a ≡ b → n ≡ k → bytes_at m a n ≡ bytes_at m b k
bytes_at_ap m a b n k p q = λ i. bytes_at m (p i) (q i)

pub append_ap : (xs xs' ys ys' : List ℕ) → xs ≡ xs' → ys ≡ ys' → xs ++ ys ≡ xs' ++ ys'
append_ap xs xs' ys ys' p q = λ i. p i ++ q i

pub drop-append :
    (k : ℕ) (xs ys : List ℕ) → drop k (xs ++ ys) ≡ drop k xs ++ drop (k - length xs) ys
drop-append zero xs ys = ap (λ l. xs ++ l) (drop_ap 0 (0 - length xs) ys (omega arith))
drop-append (suc k) [] ys = drop_ap (suc k) (suc k - 0) ys (omega arith)
drop-append (suc k) (x ∷ xs) ys =
    drop-append k xs ys
    ∙ ap (λ l. drop k xs ++ l) (drop_ap (k - length xs) (suc k - suc (length xs)) ys (omega arith))

drop-bytes_at :
    (m : Bytes) (k a n : ℕ) → drop k (bytes_at m a n) ≡ bytes_at m (a + min k n) (n - min k n)
drop-bytes_at m zero a n = bytes_at_ap m a (a + min 0 n) n (n - min 0 n) (omega arith) (omega arith)
drop-bytes_at m (suc k) a zero =
    bytes_at_ap m a (a + min (suc k) 0) 0 (0 - min (suc k) 0) (omega arith) (omega arith)
drop-bytes_at m (suc k) a (suc n) =
    drop-bytes_at m k (a + 1) n
    ∙ bytes_at_ap m (a + 1 + min k n) (a + min (suc k) (suc n)) (n - min k n)
        (suc n - min (suc k) (suc n)) (omega arith) (omega arith)

pub length-drop : (k : ℕ) (xs : List ℕ) → length (drop k xs) ≡ length xs - k
length-drop zero xs = omega arith
length-drop (suc k) [] = omega arith
length-drop (suc k) (x ∷ xs) = omega (arith, length-drop k xs)

-- The frame after one descriptor.
abbrev grown : Bytes → VirtqDesc → ℕ → List ℕ → List ℕ
grown m d total frame =
    let skip = min (header_size - total) d.len in
    if ltb total header_size
    then (if ltb 0 (d.len - skip)
        then append_fitting m (d.addr + skip) (d.len - skip) frame
        else frame)
    else append_fitting m d.addr d.len frame

append_fitting_lem :
    (m : Bytes) (a n : ℕ) (frame : List ℕ)
    → length frame + n ≤ max_frame_size
    → append_fitting m a n frame ≡ frame ++ bytes_at m a n
append_fitting_lem m a n frame h =
    let fits : leb (length frame + n) max_frame_size ≡ true = ground (arith, h) in rw fits refl

-- What a descriptor adds is what it has behind the header.
grown_lem :
    (m : Bytes) (d : VirtqDesc) (total : ℕ) (frame : List ℕ)
    → length frame + (d.len - (header_size - total)) ≤ max_frame_size
    → grown m d total frame ≡ frame ++ drop (header_size - total) (bytes_at m d.addr d.len)
grown_lem m d total frame h =
    let k = header_size - total in
    let skip = min k d.len in
    let rest = bytes_at m (d.addr + skip) (d.len - skip) in
    let cut = ap (λ l. frame ++ l) (sym (drop-bytes_at m k d.addr d.len)) in
    elim (Bool-cases (ltb total header_size)) [
      | inl c ↦ elim (Bool-cases (ltb 0 (d.len - skip))) [
        | inl e ↦
            rw (c, e)
              (append_fitting_lem m (d.addr + skip) (d.len - skip) frame (omega arith) ∙ cut)
        | inr e ↦
            let none_left : d.len - skip ≡ 0 = ground (arith, e) in
            rw (c, e)
              (sym (append-[] frame)
                ∙ ap (λ n. frame ++ bytes_at m (d.addr + skip) n) (sym none_left)
                ∙ cut)
      ]
      | inr c ↦
          let past : header_size ≤ total = ground (arith, c) in
          rw c (
            append_fitting_lem m d.addr d.len frame (omega arith)
            ∙ ap (λ l. frame ++ l)
                (bytes_at_ap m d.addr (d.addr + skip) d.len (d.len - skip) (omega arith)
                  (omega arith))
            ∙ cut)
    ]

drop-[] : (k : ℕ) → drop k [] ≡ []
drop-[] zero = refl
drop-[] (suc k) = refl

-- A chain whose buffers hold, behind the 12 bytes of the header, at most as much as the largest frame
-- gives exactly these bytes, however the header and the frame are spread over the buffers.
pub gather-bytes_of :
    (m : Bytes) (ds : List VirtqDesc) (total : ℕ) (frame : List ℕ)
    → length frame + (length (bytes_of m ds) - (header_size - total)) ≤ max_frame_size
    → gather m ds total frame ≡ frame ++ drop (header_size - total) (bytes_of m ds)
unfolding gather bytes_of
gather-bytes_of m [] total frame h =
    sym (ap (λ l. frame ++ l) (drop-[] (header_size - total)) ∙ append-[] frame)
gather-bytes_of m (d ∷ ds) total frame h =
    let k = header_size - total in
    let b = bytes_at m d.addr d.len in
    let r = bytes_of m ds in
    let len_b = length-bytes_at m d.addr d.len in
    let len_all = length-append b r in
    let here = grown_lem m d total frame (omega (arith, h, len_b, len_all)) in
    let len_here = length-append frame (drop k b) in
    let rest =
      gather-bytes_of m ds (total + d.len) (frame ++ drop k b)
        (omega (arith, h, len_b, len_all, len_here, length-drop k b)) in
    ap (λ f. gather m ds (total + d.len) f) here
    ∙ rest
    ∙ append_assoc frame (drop k b) (drop (header_size - (total + d.len)) r)
    ∙ ap (λ l. frame ++ l)
        (ap (λ l. drop k b ++ l)
            (drop_ap (header_size - (total + d.len)) (k - length b) r (omega (arith, len_b)))
          ∙ sym (drop-append k b r))
