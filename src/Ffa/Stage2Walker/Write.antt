-- ===== src/Ffa/Stage2Walker/Write.antt =====
-- `write_sw_bits` and `set_s2ap` as a whole: split, walk, write.
use hypervisor.Prelude.{
  ℕ, suc, ◌/◌, ◌%◌, ◌^◌, ◌<◌, ◌≡◌, refl, ap, ◌∙◌, arith, true, false, Option, none, some, bit_and,
  ◌>>=◌, ok, err, ◌⊎◌, inl, inr, Bool-cases, Option-cases,
}
use hypervisor.Mm.Words.{Memory, in_page}
use hypervisor.Mm.Allocator.{Heap, alloc_page}
use hypervisor.Ffa.Stage2Walker.{
  Outcome, no_split_table, is_valid, is_table, is_descriptor, next_table, slot, leaf_l3, leaf_l2,
  leaf_l1, walk_to_leaf_ptr, read_sw_bits, read_s2ap, split_l2, split_l1, split_block_if_needed,
  split_2mb_block_at_l2,
}
use hypervisor.Ffa.Stage2Walker.Pte.{low_two_bits, is_descriptor-eq, valid_bit, table_bit}
use hypervisor.Ffa.Stage2Walker.Tree.{
  IsTree, slot-page, next_table_aligned, Target, translate_l3, translate_l2, translate_l1,
  translate,
}
use hypervisor.Ffa.Stage2Walker.Split.{
  IsSplit, IsNewPage, split_memory, split_memory-IsSplit, split_2mb_block_at_l2-ok,
  translate-IsSplit,
}

abbrev pub of_target : (Target → ℕ) → Option Target → Option ℕ
of_target f none = none
of_target f (some t) = some (f t)

abbrev pub sw_of : Target → ℕ
sw_of (a, u, l) = u / 2 ^ 7 % 4

abbrev pub s2ap_of : Target → ℕ
s2ap_of (a, u, l) = l / 2 ^ 4 % 4

-- The two fields are part of what an address means.
module _ (m : Memory) where
  sw_entry : (q : ℕ) → bit_and (m q / 2 ^ 55) 3 ≡ m q / 2 ^ 48 / 2 ^ 7 % 4
  sw_entry q = omega (arith, low_two_bits (m q / 2 ^ 55))

  s2ap_entry : (q : ℕ) → bit_and (m q / 2 ^ 6) 3 ≡ m q / 4 % 2 ^ 10 / 2 ^ 4 % 4
  s2ap_entry q = omega (arith, low_two_bits (m q / 2 ^ 6))

  sw_l3 :
      (t ipa : ℕ)
      → (leaf_l3 m t ipa >>= λ p. some (bit_and (m p / 2 ^ 55) 3))
        ≡ of_target sw_of (translate_l3 m t ipa)
  unfolding leaf_l3 translate_l3
  sw_l3 t ipa = ground (arith, sw_entry (slot 12 t ipa))

  sw_l2 :
      (t ipa : ℕ)
      → (leaf_l2 m t ipa >>= λ p. some (bit_and (m p / 2 ^ 55) 3))
        ≡ of_target sw_of (translate_l2 m t ipa)
  unfolding leaf_l2 translate_l2
  sw_l2 t ipa = ground (arith, sw_entry (slot 21 t ipa), sw_l3 (next_table (m (slot 21 t ipa))) ipa)

  sw_l1 :
      (t ipa : ℕ)
      → (leaf_l1 m t ipa >>= λ p. some (bit_and (m p / 2 ^ 55) 3))
        ≡ of_target sw_of (translate_l1 m t ipa)
  unfolding leaf_l1 translate_l1
  sw_l1 t ipa = ground (arith, sw_entry (slot 30 t ipa), sw_l2 (next_table (m (slot 30 t ipa))) ipa)

  pub read_sw-translate :
      (l0 ipa : ℕ) → read_sw_bits m l0 ipa ≡ of_target sw_of (translate m l0 ipa)
  unfolding read_sw_bits walk_to_leaf_ptr translate
  read_sw-translate l0 ipa = ground (arith, sw_l1 (next_table (m (slot 39 l0 ipa))) ipa)

  s2ap_l3 :
      (t ipa : ℕ)
      → (leaf_l3 m t ipa >>= λ p. some (bit_and (m p / 2 ^ 6) 3))
        ≡ of_target s2ap_of (translate_l3 m t ipa)
  unfolding leaf_l3 translate_l3
  s2ap_l3 t ipa = ground (arith, s2ap_entry (slot 12 t ipa))

  s2ap_l2 :
      (t ipa : ℕ)
      → (leaf_l2 m t ipa >>= λ p. some (bit_and (m p / 2 ^ 6) 3))
        ≡ of_target s2ap_of (translate_l2 m t ipa)
  unfolding leaf_l2 translate_l2
  s2ap_l2 t ipa =
      ground (arith, s2ap_entry (slot 21 t ipa), s2ap_l3 (next_table (m (slot 21 t ipa))) ipa)

  s2ap_l1 :
      (t ipa : ℕ)
      → (leaf_l1 m t ipa >>= λ p. some (bit_and (m p / 2 ^ 6) 3))
        ≡ of_target s2ap_of (translate_l1 m t ipa)
  unfolding leaf_l1 translate_l1
  s2ap_l1 t ipa =
      ground (arith, s2ap_entry (slot 30 t ipa), s2ap_l2 (next_table (m (slot 30 t ipa))) ipa)

  pub read_s2ap-translate :
      (l0 ipa : ℕ) → read_s2ap m l0 ipa ≡ of_target s2ap_of (translate m l0 ipa)
  unfolding read_s2ap walk_to_leaf_ptr translate
  read_s2ap-translate l0 ipa = ground (arith, s2ap_l1 (next_table (m (slot 39 l0 ipa))) ipa)

-- The heap hands out only pages that no table uses.
abbrev pub FreshPages : Heap → (ℕ → ℕ) → Type 0
FreshPages h level = (l3 : ℕ) → (alloc_page h).1 ≡ some l3 → IsNewPage l3 × (3 < level (l3 / 4096))

-- What `split_block_if_needed` may do to the tables of `l0`.
abbrev pub Splits : Heap → ℕ → Outcome → Type 0
Splits h l0 (h', err e) = (e ≡ no_split_table) × ((alloc_page h).1 ≡ none)
Splits h l0 (h', ok u) =
    ((a : ℕ) → h'.mem a < 2 ^ 64) × ((ipa : ℕ) → translate h'.mem l0 ipa ≡ translate h.mem l0 ipa)

module _ (h : Heap) (l0 : ℕ) (level : ℕ → ℕ) (tree : IsTree h.mem l0 level)
    (fresh : FreshPages h level) where
  unsplit : Splits h l0 (h, ok tt)
  unsplit = (tree.words, λ ipa. refl)

  split_block_refused :
      (p : ℕ) → (alloc_page h).1 ≡ none → Splits h l0 (split_2mb_block_at_l2 h p (h.mem p))
  unfolding split_2mb_block_at_l2
  split_block_refused p e = rw e (refl, e)

  split_block_done :
      (p l3 : ℕ)
      → level (p / 4096) ≡ 2
      → is_valid (h.mem p) ≡ true
      → is_table (h.mem p) ≡ false
      → (alloc_page h).1 ≡ some l3
      → Splits h l0 (split_2mb_block_at_l2 h p (h.mem p))
  split_block_done p l3 e v b a = rw (split_2mb_block_at_l2-ok h p (h.mem p) l3 a) (
    done.words,
    translate-IsSplit h.mem (split_memory h p (h.mem p) l3) l0 p l3 level tree done new free e v b,
  )
    where
      new : IsNewPage l3
      new = (fresh l3 a).0

      free : 3 < level (l3 / 4096)
      free = (fresh l3 a).1

      same_page : in_page l3 p ≡ true → p / 4096 ≡ l3 / 4096
      same_page q = ground (arith, q, new.aligned)

      outside : (in_page l3 p ≡ true) ⊎ (in_page l3 p ≡ false) → in_page l3 p ≡ false
      outside (inr q) = q
      outside (inl q) = absurd (omega (arith, e, free, ap level (same_page q)))

      done : IsSplit h.mem (split_memory h p (h.mem p) l3) p l3
      done =
          split_memory-IsSplit h p l3 a new (outside (Bool-cases (in_page l3 p))) tree.words
            (ground (arith, v, b, valid_bit (h.mem p), table_bit (h.mem p))) (tree.blocks p e v b)

  split_block-Splits :
      (p : ℕ)
      → level (p / 4096) ≡ 2
      → is_valid (h.mem p) ≡ true
      → is_table (h.mem p) ≡ false
      → Splits h l0 (split_2mb_block_at_l2 h p (h.mem p))
  split_block-Splits p e v b = elim (Option-cases (alloc_page h).1) [
    | inl a ↦ split_block_refused p a
    | inr (l3, a) ↦ split_block_done p l3 e v b a
  ]

  split_l2-Splits :
      (t ipa : ℕ) → t % 4096 ≡ 0 → level (t / 4096) ≡ 2 → Splits h l0 (split_l2 h t ipa)
  unfolding split_l2
  split_l2-Splits t ipa z e = elim (Bool-cases (is_valid (h.mem (slot 21 t ipa)))) [
    | inr v ↦ rw v unsplit
    | inl v ↦ elim (Bool-cases (is_table (h.mem (slot 21 t ipa)))) [
      | inl b ↦ rw (v, b) unsplit
      | inr b ↦
          rw (v, b) (split_block-Splits (slot 21 t ipa) (ap level (slot-page 21 t ipa z) ∙ e) v b)
    ]
  ]

  split_l1-Splits :
      (t ipa : ℕ) → t % 4096 ≡ 0 → level (t / 4096) ≡ 1 → Splits h l0 (split_l1 h t ipa)
  unfolding split_l1
  split_l1-Splits t ipa z e = elim (Bool-cases (is_valid (h.mem (slot 30 t ipa)))) [
    | inr v ↦ rw v unsplit
    | inl v ↦ elim (Bool-cases (is_table (h.mem (slot 30 t ipa)))) [
      | inr b ↦ rw (v, b) unsplit
      | inl b ↦
          rw (v, b)
            (split_l2-Splits (next_table (h.mem (slot 30 t ipa))) ipa (next_table_aligned _) (
              tree.child (slot 30 t ipa) (omega (arith, at_l1)) (is_descriptor-eq _ v b)
              ∙ ap suc at_l1))
    ]
  ]
    where
      at_l1 : level (slot 30 t ipa / 4096) ≡ 1
      at_l1 = ap level (slot-page 30 t ipa z) ∙ e

  -- On tables in which every table has one level, with a heap that hands out only pages that no
  -- table uses, `split_block_if_needed` keeps the translation of every address, or fails because
  -- there is no page left.
  pub split_block_if_needed-Splits : (ipa : ℕ) → Splits h l0 (split_block_if_needed h l0 ipa)
  unfolding split_block_if_needed
  split_block_if_needed-Splits ipa = elim (Bool-cases (is_descriptor (h.mem (slot 39 l0 ipa)))) [
    | inr v ↦ rw v unsplit
    | inl v ↦ rw v (
        split_l1-Splits (next_table (h.mem (slot 39 l0 ipa))) ipa (next_table_aligned _)
          (tree.child (slot 39 l0 ipa) (omega (arith, at_l0)) v ∙ ap suc at_l0))
  ]
    where
      at_l0 : level (slot 39 l0 ipa / 4096) ≡ 0
      at_l0 = ap level (slot-page 39 l0 ipa tree.aligned) ∙ tree.root
