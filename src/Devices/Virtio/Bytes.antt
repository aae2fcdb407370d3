-- ===== src/Devices/Virtio/Bytes.antt =====
-- src/devices/virtio: lists of bytes cut and put together, and memory that holds them.
use hypervisor.Prelude.{
  ℕ, zero, suc, ◌+◌, ◌-◌, ◌<◌, ◌≤◌, ◌≡◌, refl, ◌∙◌, ap, sym, arith, true, List, [], ◌∷◌, ◌++◌,
  length, take, get_or, ltb, leb, ◌&&◌, min,
}
use hypervisor.Ffa.Descriptors.{Bytes}
use hypervisor.Vswitch.Forward.{drop}
use hypervisor.Devices.Virtio.Net.{bytes_at}
use hypervisor.Devices.Virtio.Blk.{write_bytes}
use hypervisor.Devices.Virtio.Frames.{drop_ap}

pub take_ap : (n k : ℕ) (xs : List ℕ) → n ≡ k → take n xs ≡ take k xs
take_ap n k xs e = ap (λ (j : ℕ). take j xs) e

pub take-append :
    (n : ℕ) (xs ys : List ℕ) → take n (xs ++ ys) ≡ take n xs ++ take (n - length xs) ys
take-append zero xs ys = take_ap 0 (0 - length xs) ys (omega arith)
take-append (suc n) [] ys = take_ap (suc n) (suc n - 0) ys (omega arith)
take-append (suc n) (x ∷ xs) ys =
    ap (λ l. x ∷ l)
      (take-append n xs ys
        ∙ ap (λ l. take n xs ++ l)
            (take_ap (n - length xs) (suc n - suc (length xs)) ys (omega arith)))

pub take-append-drop : (n : ℕ) (xs : List ℕ) → take n xs ++ drop n xs ≡ xs
take-append-drop zero xs = refl
take-append-drop (suc n) [] = refl
take-append-drop (suc n) (x ∷ xs) = ap (λ l. x ∷ l) (take-append-drop n xs)

drop-[] : (k : ℕ) → drop k [] ≡ []
drop-[] zero = refl
drop-[] (suc k) = refl

pub drop-drop : (k n : ℕ) (xs : List ℕ) → drop n (drop k xs) ≡ drop (k + n) xs
drop-drop zero n xs = drop_ap n (0 + n) xs (omega arith)
drop-drop (suc k) n [] = drop-[] n ∙ sym (drop-[] (suc k + n))
drop-drop (suc k) n (x ∷ xs) =
    drop-drop k n xs ∙ drop_ap (suc (k + n)) (suc k + n) (x ∷ xs) (omega arith)

pub drop_all : (k : ℕ) (xs : List ℕ) → length xs ≤ k → drop k xs ≡ []
drop_all k [] h = drop-[] k
drop_all zero (x ∷ xs) h = absurd (omega arith)
drop_all (suc k) (x ∷ xs) h = drop_all k xs (omega arith)

pub take_all : (k : ℕ) (xs : List ℕ) → length xs ≤ k → take k xs ≡ xs
take_all zero [] h = refl
take_all (suc k) [] h = refl
take_all zero (x ∷ xs) h = absurd (omega arith)
take_all (suc k) (x ∷ xs) h = ap (λ l. x ∷ l) (take_all k xs (omega arith))

take-[] : (k : ℕ) → take {A = ℕ} k [] ≡ []
take-[] zero = refl
take-[] (suc k) = refl

pub take-min : (n : ℕ) (xs : List ℕ) → take (min (length xs) n) xs ≡ take n xs
take-min n [] = take-[] (min 0 n) ∙ sym (take-[] n)
take-min zero (x ∷ xs) = take_ap (min (suc (length xs)) 0) 0 (x ∷ xs) (omega arith)
take-min (suc n) (x ∷ xs) =
    take_ap (min (suc (length xs)) (suc n)) (suc (min (length xs) n)) (x ∷ xs) (omega arith)
    ∙ ap (λ l. x ∷ l) (take-min n xs)

pub take-bytes_at : (m : Bytes) (k a n : ℕ) → take k (bytes_at m a n) ≡ bytes_at m a (min k n)
take-bytes_at m zero a n = ap (bytes_at m a) {x = 0} {y = min 0 n} (omega arith)
take-bytes_at m (suc k) a zero = ap (bytes_at m a) {x = 0} {y = min (suc k) 0} (omega arith)
take-bytes_at m (suc k) a (suc n) =
    ap (λ l. m a ∷ l) (take-bytes_at m k (a + 1) n)
    ∙ ap (bytes_at m a) {x = suc (min k n)} {y = min (suc k) (suc n)} (omega arith)

-- One byte of a list, and what is behind it.
take-drop :
    (j k : ℕ) (xs : List ℕ)
    → j < length xs
    → take (suc k) (drop j xs) ≡ get_or xs j 0 ∷ take k (drop (j + 1) xs)
take-drop j k [] h = absurd (omega arith)
take-drop zero k (x ∷ xs) h = refl
take-drop (suc j) k (x ∷ xs) h =
    take-drop j k xs (omega arith)
    ∙ ap (λ l. get_or xs j 0 ∷ take k l) (drop_ap (suc (j + 1)) (suc j + 1) (x ∷ xs) (omega arith))

-- A list that was written to memory is read back from there.
bytes_at-write_bytes_from :
    (m : Bytes) (p n : ℕ) (bs : List ℕ) (j k : ℕ)
    → j + k ≤ n
    → n ≤ length bs
    → bytes_at (write_bytes m p n bs) (p + j) k ≡ take k (drop j bs)
bytes_at-write_bytes_from m p n bs j zero h l = refl
bytes_at-write_bytes_from m p n bs j (suc k) h l =
    let inside : leb p (p + j) && ltb (p + j) (p + n) ≡ true = ground (arith, h) in
    let at : p + j - p ≡ j = omega arith in
    let head : write_bytes m p n bs (p + j) ≡ get_or bs j 0 = rw (inside, at) refl in
    let tail =
      ap (λ (a : ℕ). bytes_at (write_bytes m p n bs) a k) {x = p + j + 1} {y = p + (j + 1)}
        (omega arith)
      ∙ bytes_at-write_bytes_from m p n bs (j + 1) k (omega arith) l in
    (λ i. head i ∷ tail i) ∙ sym (take-drop j k bs (omega arith))

pub bytes_at-write_bytes :
    (m : Bytes) (p n : ℕ) (bs : List ℕ)
    → n ≤ length bs
    → bytes_at (write_bytes m p n bs) p n ≡ take n bs
bytes_at-write_bytes m p n bs h =
    ap (λ (a : ℕ). bytes_at (write_bytes m p n bs) a n) {x = p} {y = p + 0} (omega arith)
    ∙ bytes_at-write_bytes_from m p n bs 0 n (omega arith) h

pub bytes_at-same :
    (m m' : Bytes) (a n : ℕ)
    → ((b : ℕ) → a ≤ b → b < a + n → m' b ≡ m b)
    → bytes_at m' a n ≡ bytes_at m a n
bytes_at-same m m' a zero h = refl
bytes_at-same m m' a (suc n) h = λ i.
    h a (omega arith) (omega arith) i
    ∷ bytes_at-same m m' (a + 1) n (λ b l u. h b (omega (arith, l)) (omega (arith, u))) i
