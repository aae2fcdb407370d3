-- ===== src/Vswitch/Forward.antt =====
-- src/vswitch.rs: `VSwitch::forward` over the rings of the two ports, `PORT_RX`.
use hypervisor.Prelude.{
  ℕ, zero, suc, ◌+◌, ◌≡◌, refl, ◌∙◌, arith, Bool, true, not, Option, none, some, ◌&&◌, ◌||◌, List,
  [], ◌∷◌, length, get_or, set, take, bit_and, ltb, ◌==◌, if◌then◌else◌, Bool-cases, inl, inr,
}
use hypervisor.Vswitch.RxRing.{Frame, NetRxRing, new, store_frame}
use hypervisor.Vswitch.MacTable.{Mac, VSwitch, learn, lookup}

abbrev pub max_ports : ℕ
max_ports = 2

abbrev pub Ports : Type 0
Ports = List NetRxRing

-- `PORT_RX[port].store(frame)`, the result ignored.
unfoldable pub store_at : Ports → ℕ → Frame → Ports
store_at ps port f = set ps port (store_frame (get_or ps port new) f).0

-- The loop over the ports, with `n` rounds left, at its round `i`.
unfoldable pub flood_from : ℕ → ℕ → ℕ → Frame → Ports → Ports
unfolding store_at
flood_from zero i src f ps = ps
flood_from (suc n) i src f ps =
    let ps' = if i == src then ps else store_at ps i f in flood_from n (i + 1) src f ps'

abbrev pub flood : ℕ → Frame → Ports → Ports
flood src f ps = flood_from max_ports 0 src f ps

abbrev pub dst_mac : Frame → Mac
dst_mac f = take 6 f

abbrev pub drop : ℕ → List ℕ → List ℕ
drop zero xs = xs
drop (suc n) [] = []
drop (suc n) (x ∷ xs) = drop n xs

abbrev pub src_mac : Frame → Mac
src_mac f = take 6 (drop 6 f)

abbrev pub deliver_to : ℕ → Frame → Ports → Option ℕ → Ports
deliver_to src f ps none = flood src f ps
deliver_to src f ps (some dst) = if dst == src then ps else store_at ps dst f

unfoldable pub forward : VSwitch → Ports → ℕ → Frame → VSwitch × Ports
unfolding flood_from
forward v ps src f =
    let learned = learn v (src_mac f) src in
    if ltb (length f) 14
    then (v, ps)
    else (if not (bit_and (get_or f 0 0) 1 == 0)
        then (learned, flood src f ps)
        else (learned, deliver_to src f ps (lookup learned (dst_mac f))))

-- A group address, or an address that the table does not know, goes to every port; a known one goes
-- to its port.
abbrev pub goes_to : ℕ → Option ℕ → Bool
goes_to p none = true
goes_to p (some dst) = dst == p

abbrev pub is_group : Frame → Bool
is_group f = not (bit_and (get_or f 0 0) 1 == 0)

abbrev pub receives : VSwitch → ℕ → Frame → ℕ → Bool
receives v src f p =
    not (ltb (length f) 14)
    && not (p == src)
    && (is_group f || goes_to p (lookup (learn v (src_mac f) src) (dst_mac f)))

abbrev pub arrive : VSwitch → ℕ → Frame → ℕ → NetRxRing → NetRxRing
arrive v src f p r = if receives v src f p then (store_frame r f).0 else r

flood-two :
    (a b : NetRxRing) (src : ℕ) (f : Frame)
    → flood src f (a ∷ b ∷ [])
      ≡ (if 0 == src then a else (store_frame a f).0)
        ∷ (if 1 == src then b else (store_frame b f).0)
        ∷ []
unfolding flood_from store_at
flood-two a b zero f = refl
flood-two a b (suc zero) f = refl
flood-two a b (suc (suc src)) f = ground arith

deliver_to-two :
    (a b : NetRxRing) (src : ℕ) (f : Frame) (o : Option ℕ)
    → deliver_to src f (a ∷ b ∷ []) o
      ≡ (if not (0 == src) && goes_to 0 o then (store_frame a f).0 else a)
        ∷ (if not (1 == src) && goes_to 1 o then (store_frame b f).0 else b)
        ∷ []
unfolding flood_from store_at
deliver_to-two a b src f none = flood-two a b src f ∙ ground arith
deliver_to-two a b src f (some zero) = ground arith
deliver_to-two a b src f (some (suc zero)) = ground arith
deliver_to-two a b src f (some (suc (suc dst))) = ground arith

-- Of a frame, exactly the ports that are to receive it get one copy: never the port that it came
-- from, every other port for a group address or an unknown one, else the port that the table has
-- for the address; a frame shorter than an Ethernet header goes nowhere.
pub forward-arrive :
    (v : VSwitch) (a b : NetRxRing) (src : ℕ) (f : Frame)
    → (forward v (a ∷ b ∷ []) src f).1 ≡ arrive v src f 0 a ∷ arrive v src f 1 b ∷ []
unfolding forward
forward-arrive v a b src f = elim (Bool-cases (ltb (length f) 14)) [
  | inl s ↦ rw s refl
  | inr s ↦ elim (Bool-cases (bit_and (get_or f 0 0) 1 == 0)) [
    | inr g ↦ rw (s, g) (flood-two a b src f ∙ ground arith)
    | inl g ↦ rw (s, g) (deliver_to-two a b src f (lookup (learn v (src_mac f) src) (dst_mac f)))
  ]
]
