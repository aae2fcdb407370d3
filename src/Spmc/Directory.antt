-- ===== src/Spmc/Directory.antt =====
-- src/spmc_handler.rs: the list of partitions in the buffer of the Normal World.
use hypervisor.Prelude.{
  ℕ, zero, suc, ◌+◌, ◌*◌, ◌≤◌, ◌<◌, ◌≡◌, refl, subst, ◌∙◌, ap, arith, true, ◌⊎◌, inl, some, List,
  [], ◌∷◌, length, get_elem?, leb, if◌then◌else◌,
}
use hypervisor.Ffa.Descriptors.{Bytes}
use hypervisor.Spmc.Replies.{SmcResult8}
use hypervisor.Spmc.Context.{SpContext, registered}
use hypervisor.Spmc.Descriptor.{
  Describes, write_descriptor-Describes, write_descriptor-outside, Describes-Same,
}
use hypervisor.Spmc.World.{
  World, write_descriptor, write_descriptors, count, buffer_size, handle_partition_info_get,
}

-- The memory after one step of the loop.
abbrev step : (rx size : ℕ) → Bytes → ℕ → SpContext → Bytes
step rx size m n sp = if leb (n * 24 + 24) size then write_descriptor m (rx + n * 24) sp else m

step-outside :
    (rx size : ℕ) (m : Bytes) (n : ℕ) (sp : SpContext) (a : ℕ)
    → (a < rx + n * 24) ⊎ (rx + size ≤ a) ⊎ (rx + n * 24 + 24 ≤ a)
    → step rx size m n sp a ≡ m a
step-outside rx size m n sp a o = ground (arith, o, write_descriptor-outside m (rx + n * 24) a sp)

step-Describes :
    (rx size : ℕ) (m : Bytes) (n : ℕ) (sp : SpContext)
    → n * 24 + 24 ≤ size
    → Describes (step rx size m n sp) (rx + n * 24) sp
step-Describes rx size m n sp h =
    let fits : leb (n * 24 + 24) size ≡ true = ground (arith, h) in
    rw fits (write_descriptor-Describes m (rx + n * 24) sp)

write_descriptors-outside :
    (rx size : ℕ) (m : Bytes) (n : ℕ) (sps : List SpContext) (a : ℕ)
    → (a < rx + n * 24) ⊎ (rx + size ≤ a)
    → write_descriptors rx size m n sps a ≡ m a
unfolding write_descriptors
write_descriptors-outside rx size m n [] a o = refl
write_descriptors-outside rx size m n (sp ∷ sps) a o =
    write_descriptors-outside rx size (step rx size m n sp) (n + 1) sps a (ground (arith, o))
    ∙ step-outside rx size m n sp a (ground (arith, o))

-- Each partition that fits is described in its place.
write_descriptors-Describes :
    (rx size : ℕ) (m : Bytes) (n : ℕ) (sps : List SpContext) (i : ℕ) (sp : SpContext)
    → get_elem? sps i ≡ some sp
    → (n + i) * 24 + 24 ≤ size
    → Describes (write_descriptors rx size m n sps) (rx + (n + i) * 24) sp
unfolding write_descriptors
write_descriptors-Describes rx size m n [] i sp e h = absurd (cc)
write_descriptors-Describes rx size m n (t ∷ sps) zero sp e h =
    let m1 = step rx size m n t in
    let same : t ≡ sp = cc in
    let at : rx + n * 24 ≡ rx + (n + 0) * 24 = omega arith in
    subst (λ p. Describes (write_descriptors rx size m1 (n + 1) sps) p sp) at
      (Describes-Same m1 (write_descriptors rx size m1 (n + 1) sps) (rx + n * 24)
        (λ k l.
          write_descriptors-outside rx size m1 (n + 1) sps (rx + n * 24 + k)
            (inl (omega (arith, l))))
        sp
        (subst (Describes m1 (rx + n * 24)) same (step-Describes rx size m n t (omega (arith, h)))))
write_descriptors-Describes rx size m n (t ∷ sps) (suc i) sp e h =
    subst (λ k. Describes (write_descriptors rx size m n (t ∷ sps)) (rx + k * 24) sp) (omega arith)
      (write_descriptors-Describes rx size (step rx size m n t) (n + 1) sps i sp e
        (omega (arith, h)))

-- What the reply to FFA_PARTITION_INFO_GET is in state `w`.
pub record IsDirectory (w : World) (out : SmcResult8 × World) : Type 0 where
  pub counted : out.0.x2 ≡ length (registered w.sps)
  pub described :
      (i : ℕ) (sp : SpContext)
      → get_elem? (registered w.sps) i ≡ some sp
      → i * 24 + 24 ≤ buffer_size w.nwd
      → Describes out.1.ram (w.nwd.rx_pa + i * 24) sp
  pub outside :
      (a : ℕ) → (a < w.nwd.rx_pa) ⊎ (w.nwd.rx_pa + buffer_size w.nwd ≤ a) → out.1.ram a ≡ w.ram a
  pub sps : out.1.sps ≡ w.sps
  pub nwd : out.1.nwd ≡ w.nwd

count_lem : (sps : List SpContext) → count sps ≡ length sps
unfolding count
count_lem [] = refl
count_lem (sp ∷ sps) = ap suc (count_lem sps)

-- FFA_PARTITION_INFO_GET replies with the number of registered partitions. In the order of the
-- store, each one that fits into the registered RX buffer is described in its 24 bytes: identifier,
-- one execution context, the property of direct requests, UUID. No byte outside the buffer changes,
-- and none at all without a registered buffer.
pub handle_partition_info_get-IsDirectory :
    (w : World) → IsDirectory w (handle_partition_info_get w)
unfolding handle_partition_info_get
handle_partition_info_get-IsDirectory w =
    let size = buffer_size w.nwd in
    let sps = registered w.sps in
    record {
      counted = count_lem sps;
      described = λ i sp e h.
          subst
            (λ k.
              Describes (write_descriptors w.nwd.rx_pa size w.ram 0 sps) (w.nwd.rx_pa + k * 24) sp)
            (omega arith)
            (write_descriptors-Describes w.nwd.rx_pa size w.ram 0 sps i sp e (omega (arith, h)));
      outside = λ a o. write_descriptors-outside w.nwd.rx_pa size w.ram 0 sps a (ground (arith, o));
      sps = refl;
      nwd = refl;
    }
