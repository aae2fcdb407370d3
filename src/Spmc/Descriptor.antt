-- ===== src/Spmc/Descriptor.antt =====
-- src/spmc_handler.rs: the 24 bytes that describe a partition, written and read back.
use hypervisor.Prelude.{ℕ, ◌+◌, ◌%◌, ◌^◌, ◌≤◌, ◌<◌, ◌≡◌, ◌∙◌, arith, ◌⊎◌, List, get_or}
use hypervisor.Ffa.Descriptors.{Bytes, read_u16, read_u32}
use hypervisor.Ffa.Proxy.Discovery.{write_u16, write_u32}
use hypervisor.Spmc.Context.{SpContext}
use hypervisor.Spmc.World.{write_uuid, write_descriptor}

read_u16-write_u16 : (m : Bytes) (p v : ℕ) → read_u16 (write_u16 m p v) p ≡ v % 2 ^ 16
read_u16-write_u16 m p v = ground arith

read_u32-write_u32 : (m : Bytes) (p v : ℕ) → read_u32 (write_u32 m p v) p ≡ v % 2 ^ 32
read_u32-write_u32 m p v = ground arith

-- A read in front of a write.
read_u16_before : (m : Bytes) (p q v : ℕ) → p + 2 ≤ q → read_u16 (write_u16 m q v) p ≡ read_u16 m p
read_u16_before m p q v h = ground arith

read_u16-write_u32 :
    (m : Bytes) (p q v : ℕ) → p + 2 ≤ q → read_u16 (write_u32 m q v) p ≡ read_u16 m p
read_u16-write_u32 m p q v h = ground arith

read_u32_before : (m : Bytes) (p q v : ℕ) → p + 4 ≤ q → read_u32 (write_u32 m q v) p ≡ read_u32 m p
read_u32_before m p q v h = ground arith

read_u16-write_uuid :
    (m : Bytes) (p q : ℕ) (u : List ℕ) → p + 2 ≤ q → read_u16 (write_uuid m q u) p ≡ read_u16 m p
read_u16-write_uuid m p q u h =
    let a = write_u32 m q (get_or u 0 0) in
    let b = write_u32 a (q + 4) (get_or u 1 0) in
    let c = write_u32 b (q + 8) (get_or u 2 0) in
    read_u16-write_u32 c p (q + 12) (get_or u 3 0) (omega arith)
    ∙ read_u16-write_u32 b p (q + 8) (get_or u 2 0) (omega arith)
    ∙ read_u16-write_u32 a p (q + 4) (get_or u 1 0) (omega arith)
    ∙ read_u16-write_u32 m p q (get_or u 0 0) h

read_u32-write_uuid :
    (m : Bytes) (p q : ℕ) (u : List ℕ) → p + 4 ≤ q → read_u32 (write_uuid m q u) p ≡ read_u32 m p
read_u32-write_uuid m p q u h =
    let a = write_u32 m q (get_or u 0 0) in
    let b = write_u32 a (q + 4) (get_or u 1 0) in
    let c = write_u32 b (q + 8) (get_or u 2 0) in
    read_u32_before c p (q + 12) (get_or u 3 0) (omega arith)
    ∙ read_u32_before b p (q + 8) (get_or u 2 0) (omega arith)
    ∙ read_u32_before a p (q + 4) (get_or u 1 0) (omega arith)
    ∙ read_u32_before m p q (get_or u 0 0) h

-- The 24 bytes from `p` on describe a partition: its identifier, one execution context, the
-- property of direct requests, and its UUID.
pub record Describes (m : Bytes) (p : ℕ) (sp : SpContext) : Type 0 where
  pub id : read_u16 m p ≡ sp.id % 2 ^ 16
  pub contexts : read_u16 m (p + 2) ≡ 1
  pub properties : read_u32 m (p + 4) ≡ 1
  pub uuid0 : read_u32 m (p + 8) ≡ get_or sp.uuid 0 0 % 2 ^ 32
  pub uuid1 : read_u32 m (p + 8 + 4) ≡ get_or sp.uuid 1 0 % 2 ^ 32
  pub uuid2 : read_u32 m (p + 8 + 8) ≡ get_or sp.uuid 2 0 % 2 ^ 32
  pub uuid3 : read_u32 m (p + 8 + 12) ≡ get_or sp.uuid 3 0 % 2 ^ 32

pub write_descriptor-Describes :
    (m : Bytes) (p : ℕ) (sp : SpContext) → Describes (write_descriptor m p sp) p sp
unfolding write_descriptor
write_descriptor-Describes m p sp =
    let u = sp.uuid in
    let a = write_u16 m p sp.id in
    let b = write_u16 a (p + 2) 1 in
    let c = write_u32 b (p + 4) 1 in
    let d = write_u32 c (p + 8) (get_or u 0 0) in
    let e = write_u32 d (p + 8 + 4) (get_or u 1 0) in
    let f = write_u32 e (p + 8 + 8) (get_or u 2 0) in
    record {
      id =
          read_u16-write_uuid c p (p + 8) u (omega arith)
          ∙ read_u16-write_u32 b p (p + 4) 1 (omega arith)
          ∙ read_u16_before a p (p + 2) 1 (omega arith)
          ∙ read_u16-write_u16 m p sp.id;
      contexts =
          read_u16-write_uuid c (p + 2) (p + 8) u (omega arith)
          ∙ read_u16-write_u32 b (p + 2) (p + 4) 1 (omega arith)
          ∙ read_u16-write_u16 a (p + 2) 1;
      properties =
          read_u32-write_uuid c (p + 4) (p + 8) u (omega arith) ∙ read_u32-write_u32 b (p + 4) 1;
      uuid0 =
          read_u32_before f (p + 8) (p + 8 + 12) (get_or u 3 0) (omega arith)
          ∙ read_u32_before e (p + 8) (p + 8 + 8) (get_or u 2 0) (omega arith)
          ∙ read_u32_before d (p + 8) (p + 8 + 4) (get_or u 1 0) (omega arith)
          ∙ read_u32-write_u32 c (p + 8) (get_or u 0 0);
      uuid1 =
          read_u32_before f (p + 8 + 4) (p + 8 + 12) (get_or u 3 0) (omega arith)
          ∙ read_u32_before e (p + 8 + 4) (p + 8 + 8) (get_or u 2 0) (omega arith)
          ∙ read_u32-write_u32 d (p + 8 + 4) (get_or u 1 0);
      uuid2 =
          read_u32_before f (p + 8 + 8) (p + 8 + 12) (get_or u 3 0) (omega arith)
          ∙ read_u32-write_u32 e (p + 8 + 8) (get_or u 2 0);
      uuid3 = read_u32-write_u32 f (p + 8 + 12) (get_or u 3 0);
    }

write_uuid-outside :
    (m : Bytes) (q a : ℕ) (u : List ℕ) → (a < q) ⊎ (q + 16 ≤ a) → write_uuid m q u a ≡ m a
write_uuid-outside m q a u o = ground (arith, o)

pub write_descriptor-outside :
    (m : Bytes) (p a : ℕ) (sp : SpContext)
    → (a < p) ⊎ (p + 24 ≤ a)
    → write_descriptor m p sp a ≡ m a
unfolding write_descriptor
write_descriptor-outside m p a sp o = ground (arith, o)

abbrev pub Same : (p : ℕ) → (m m' : Bytes) → Type 0
Same p m m' = (k : ℕ) → k < 24 → m' (p + k) ≡ m (p + k)

module _ (m m' : Bytes) (p : ℕ) (s : Same p m m') where
  read_u16-Same : (k : ℕ) → k + 2 ≤ 24 → read_u16 m' (p + k) ≡ read_u16 m (p + k)
  read_u16-Same k h = ground (arith, s k (omega arith), s (k + 1) (omega arith))

  read_u32-Same : (k : ℕ) → k + 4 ≤ 24 → read_u32 m' (p + k) ≡ read_u32 m (p + k)
  read_u32-Same k h = ground (
    arith,
    s k (omega arith),
    s (k + 1) (omega arith),
    s (k + 2) (omega arith),
    s (k + 3) (omega arith),
  )

  -- A description stays one while its 24 bytes do.
  pub Describes-Same : (sp : SpContext) → Describes m p sp → Describes m' p sp
  Describes-Same sp d = record {
    id = ground (arith, read_u16-Same 0 (omega arith), d.id);
    contexts = read_u16-Same 2 (omega arith) ∙ d.contexts;
    properties = read_u32-Same 4 (omega arith) ∙ d.properties;
    uuid0 = read_u32-Same 8 (omega arith) ∙ d.uuid0;
    uuid1 = ground (arith, read_u32-Same 12 (omega arith), d.uuid1);
    uuid2 = ground (arith, read_u32-Same 16 (omega arith), d.uuid2);
    uuid3 = ground (arith, read_u32-Same 20 (omega arith), d.uuid3);
  }
