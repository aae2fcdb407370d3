-- ===== src/Ffa/Stage2Walker/Walk.antt =====
-- src/ffa/stage2_walker.rs: walks and field reads after a store to a leaf entry.
use hypervisor.Prelude.{
  ℕ, ◌/◌, ◌%◌, ◌^◌, ◌<◌, ◌≡◌, ◌≢◌, refl, ap, ◌∙◌, arith, Option, none, some, bit_and, ◌>>=◌,
}
use hypervisor.Mm.Words.{Memory, store}
use hypervisor.Ffa.Stage2Walker.{
  is_valid, is_table, is_descriptor, next_table, slot, leaf_l3, leaf_l2, leaf_l1, walk_to_leaf_ptr,
  read_sw_bits, read_s2ap, with_field,
}
use hypervisor.Ffa.Stage2Walker.Pte.{
  valid_bit, table_bit, low_two_bits, address_bits, with_sw-eq, with_s2ap-eq,
}

-- All that a walk reads of an entry.
pub record SameShape (v e : ℕ) : Type 0 where
  pub valid : is_valid v ≡ is_valid e
  pub table : is_table v ≡ is_table e
  pub both : is_descriptor v ≡ is_descriptor e
  pub next : next_table v ≡ next_table e

pub SameShapes : Memory → Memory → Type 0
SameShapes m m' = (a : ℕ) → SameShape (m' a) (m a)

module _ (m m' : Memory) (h : (a : ℕ) → SameShape (m' a) (m a)) where
  leaf_l3-same : (t ipa : ℕ) → leaf_l3 m' t ipa ≡ leaf_l3 m t ipa
  unfolding leaf_l3
  leaf_l3-same t ipa = ground (arith, h (slot 12 t ipa))

  leaf_l2-same : (t ipa : ℕ) → leaf_l2 m' t ipa ≡ leaf_l2 m t ipa
  unfolding leaf_l2
  leaf_l2-same t ipa =
      let s = h (slot 21 t ipa) in
      rw (s.valid, s.table, s.next, leaf_l3-same (next_table (m (slot 21 t ipa))) ipa) refl

  leaf_l1-same : (t ipa : ℕ) → leaf_l1 m' t ipa ≡ leaf_l1 m t ipa
  unfolding leaf_l1
  leaf_l1-same t ipa =
      let s = h (slot 30 t ipa) in
      rw (s.valid, s.table, s.next, leaf_l2-same (next_table (m (slot 30 t ipa))) ipa) refl

  pub walk-same : (l0 ipa : ℕ) → walk_to_leaf_ptr m' l0 ipa ≡ walk_to_leaf_ptr m l0 ipa
  unfolding walk_to_leaf_ptr
  walk-same l0 ipa =
      let s = h (slot 39 l0 ipa) in
      rw (s.both, s.next, leaf_l1-same (next_table (m (slot 39 l0 ipa))) ipa) refl

SameShape-sw : (e b : ℕ) → e < 2 ^ 64 → SameShape (with_field 55 e b) e
SameShape-sw e b h = record {
  valid = ground (arith, valid_bit e, valid_bit (with_field 55 e b), with_sw-eq e b h);
  table = ground (arith, table_bit e, table_bit (with_field 55 e b), with_sw-eq e b h);
  both = ground (arith, low_two_bits e, low_two_bits (with_field 55 e b), with_sw-eq e b h);
  next = omega (arith, address_bits e, address_bits (with_field 55 e b), with_sw-eq e b h);
}

SameShape-s2ap : (e b : ℕ) → e < 2 ^ 64 → SameShape (with_field 6 e b) e
SameShape-s2ap e b h = record {
  valid = ground (arith, valid_bit e, valid_bit (with_field 6 e b), with_s2ap-eq e b h);
  table = ground (arith, table_bit e, table_bit (with_field 6 e b), with_s2ap-eq e b h);
  both = ground (arith, low_two_bits e, low_two_bits (with_field 6 e b), with_s2ap-eq e b h);
  next = omega (arith, address_bits e, address_bits (with_field 6 e b), with_s2ap-eq e b h);
}

SameShape-store :
    (m : Memory) (p v : ℕ) → SameShape v (m p) → (a : ℕ) → SameShape (store m p v a) (m a)
SameShape-store m p v s a = ground (arith, s)

-- Storing a field at the leaf of `ipa`: what the fields read afterwards.
module _ (m : Memory) (l0 p : ℕ) (b : ℕ) (w : m p < 2 ^ 64) where
  abbrev sw_stored : Memory
  sw_stored = store m p (with_field 55 (m p) b)

  abbrev s2ap_stored : Memory
  s2ap_stored = store m p (with_field 6 (m p) b)

  pub walk-sw_stored : (ipa : ℕ) → walk_to_leaf_ptr sw_stored l0 ipa ≡ walk_to_leaf_ptr m l0 ipa
  walk-sw_stored = walk-same m sw_stored (SameShape-store m p _ (SameShape-sw (m p) b w)) l0

  pub walk-s2ap_stored : (ipa : ℕ) → walk_to_leaf_ptr s2ap_stored l0 ipa ≡ walk_to_leaf_ptr m l0 ipa
  walk-s2ap_stored = walk-same m s2ap_stored (SameShape-store m p _ (SameShape-s2ap (m p) b w)) l0

  at_leaf :
      (ipa : ℕ) (shift : ℕ) (o : Option ℕ) (m' : Memory)
      → o ≢ some p
      → ((a : ℕ) → a ≢ p → m' a ≡ m a)
      → (o >>= λ q. some (bit_and (m' q / 2 ^ shift) 3))
        ≡ (o >>= λ q. some (bit_and (m q / 2 ^ shift) 3))
  at_leaf ipa shift none m' n k = refl
  at_leaf ipa shift (some q) m' n k = rw (k q (λ e. n (ap some e))) refl

  -- Elsewhere: a walk that ends at another entry reads what it read before.
  pub read_sw-elsewhere :
      (ipa : ℕ)
      → walk_to_leaf_ptr m l0 ipa ≢ some p
      → read_sw_bits sw_stored l0 ipa ≡ read_sw_bits m l0 ipa
  unfolding read_sw_bits
  read_sw-elsewhere ipa n =
      rw (walk-sw_stored ipa)
        (at_leaf ipa 55 (walk_to_leaf_ptr m l0 ipa) sw_stored n (λ a k. ground (arith, k)))

  -- At the entry: the new bits.
  pub read_sw-stored :
      (ipa : ℕ) → walk_to_leaf_ptr m l0 ipa ≡ some p → read_sw_bits sw_stored l0 ipa ≡ some (b % 4)
  unfolding read_sw_bits
  read_sw-stored ipa e =
      rw (walk-sw_stored ipa, e)
        (ap some (
          here
          ∙ omega (arith, low_two_bits (with_field 55 (m p) b / 2 ^ 55), with_sw-eq (m p) b w)))
    where
      here : bit_and (sw_stored p / 2 ^ 55) 3 ≡ bit_and (with_field 55 (m p) b / 2 ^ 55) 3
      here = ground arith

  pub read_s2ap-elsewhere :
      (ipa : ℕ)
      → walk_to_leaf_ptr m l0 ipa ≢ some p
      → read_s2ap s2ap_stored l0 ipa ≡ read_s2ap m l0 ipa
  unfolding read_s2ap
  read_s2ap-elsewhere ipa n =
      rw (walk-s2ap_stored ipa)
        (at_leaf ipa 6 (walk_to_leaf_ptr m l0 ipa) s2ap_stored n (λ a k. ground (arith, k)))

  pub read_s2ap-stored :
      (ipa : ℕ) → walk_to_leaf_ptr m l0 ipa ≡ some p → read_s2ap s2ap_stored l0 ipa ≡ some (b % 4)
  unfolding read_s2ap
  read_s2ap-stored ipa e =
      rw (walk-s2ap_stored ipa, e)
        (ap some (
          here
          ∙ omega (arith, low_two_bits (with_field 6 (m p) b / 2 ^ 6), with_s2ap-eq (m p) b w)))
    where
      here : bit_and (s2ap_stored p / 2 ^ 6) 3 ≡ bit_and (with_field 6 (m p) b / 2 ^ 6) 3
      here = ground arith

  -- A field that the write is not about is the same at every address.
  other_field :
      (shift : ℕ) (o : Option ℕ) (m' : Memory)
      → ((a : ℕ) → bit_and (m' a / 2 ^ shift) 3 ≡ bit_and (m a / 2 ^ shift) 3)
      → (o >>= λ q. some (bit_and (m' q / 2 ^ shift) 3))
        ≡ (o >>= λ q. some (bit_and (m q / 2 ^ shift) 3))
  other_field shift none m' k = refl
  other_field shift (some q) m' k = rw (k q) refl

  pub read_s2ap-sw_stored : (ipa : ℕ) → read_s2ap sw_stored l0 ipa ≡ read_s2ap m l0 ipa
  unfolding read_s2ap
  read_s2ap-sw_stored ipa =
      rw (walk-sw_stored ipa) (other_field 6 (walk_to_leaf_ptr m l0 ipa) sw_stored kept)
    where
      same : bit_and (with_field 55 (m p) b / 2 ^ 6) 3 ≡ bit_and (m p / 2 ^ 6) 3
      same = omega (
        arith,
        low_two_bits (with_field 55 (m p) b / 2 ^ 6),
        low_two_bits (m p / 2 ^ 6),
        with_sw-eq (m p) b w,
      )

      kept : (a : ℕ) → bit_and (sw_stored a / 2 ^ 6) 3 ≡ bit_and (m a / 2 ^ 6) 3
      kept a = ground (arith, same)

  pub read_sw-s2ap_stored : (ipa : ℕ) → read_sw_bits s2ap_stored l0 ipa ≡ read_sw_bits m l0 ipa
  unfolding read_sw_bits
  read_sw-s2ap_stored ipa =
      rw (walk-s2ap_stored ipa) (other_field 55 (walk_to_leaf_ptr m l0 ipa) s2ap_stored kept)
    where
      same : bit_and (with_field 6 (m p) b / 2 ^ 55) 3 ≡ bit_and (m p / 2 ^ 55) 3
      same = omega (
        arith,
        low_two_bits (with_field 6 (m p) b / 2 ^ 55),
        low_two_bits (m p / 2 ^ 55),
        with_s2ap-eq (m p) b w,
      )

      kept : (a : ℕ) → bit_and (s2ap_stored a / 2 ^ 55) 3 ≡ bit_and (m a / 2 ^ 55) 3
      kept a = ground (arith, same)
