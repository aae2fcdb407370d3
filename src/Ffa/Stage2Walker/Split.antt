-- ===== src/Ffa/Stage2Walker/Split.antt =====
-- src/ffa/stage2_walker.rs: the translation before and after a 2MB block is split.
use hypervisor.Prelude.{
  ℕ, zero, suc, ◌+◌, ◌*◌, ◌/◌, ◌%◌, ◌^◌, ◌<◌, ◌≤◌, ◌≡◌, ◌≢◌, refl, ap, ◌∙◌, arith, true, false,
  some, ℕ_discrete, ◌⊎◌, Bool-cases, inl, inr, ok,
}
use hypervisor.Mm.Words.{Memory, store, zero_page, in_page}
use hypervisor.Mm.Allocator.{Heap, alloc_page}
use hypervisor.Ffa.Stage2Walker.{
  is_valid, is_table, is_descriptor, next_table, slot, split_entry, fill_l3, descriptor,
  split_2mb_block_at_l2,
}
use hypervisor.Ffa.Stage2Walker.Pte.{
  valid_bit, table_bit, address_bits, index_bits, split_entry-eq, descriptor-eq, is_descriptor-eq,
}
use hypervisor.Ffa.Stage2Walker.Tree.{
  IsTree, slot-page, next_table_aligned, target, translate_l3, translate_l2, translate_l1,
  translate,
}

-- The loop writes the entries from `i` on, and nothing else.
module _ (l3 block : ℕ) where
  fill_before :
      (n i j : ℕ) (m : Memory) → j < i → fill_l3 l3 block n i m (l3 + 8 * j) ≡ m (l3 + 8 * j)
  unfolding fill_l3
  fill_before zero i j m h = refl
  fill_before (suc n) i j m h =
      fill_before n (i + 1) j (store m (l3 + 8 * i) (split_entry block i)) (omega arith)
      ∙ ground arith

  fill_at :
      (n i j : ℕ) (m : Memory)
      → i ≤ j
      → j < i + n
      → fill_l3 l3 block n i m (l3 + 8 * j) ≡ split_entry block j
  unfolding fill_l3
  fill_at zero i j m h l = absurd (omega arith)
  fill_at (suc n) i j m h l = elim (ℕ_discrete i j) [
    | yes e ↦
        fill_before n (i + 1) j (store m (l3 + 8 * i) (split_entry block i)) (omega arith)
        ∙ ground (arith, e)
    | no ne ↦
        fill_at n (i + 1) j (store m (l3 + 8 * i) (split_entry block i)) (omega arith) (omega arith)
  ]

  fill_outside :
      (n i a : ℕ) (m : Memory) → i + n ≤ 512 → in_page l3 a ≡ false → fill_l3 l3 block n i m a ≡ m a
  unfolding fill_l3
  fill_outside zero i a m h o = refl
  fill_outside (suc n) i a m h o =
      fill_outside n (i + 1) a (store m (l3 + 8 * i) (split_entry block i)) (omega arith) o
      ∙ ground (arith, o)

  fill_words :
      (n i : ℕ) (m : Memory)
      → i + n ≤ 512
      → ((j : ℕ) → j < 512 → split_entry block j < 2 ^ 64)
      → ((a : ℕ) → m a < 2 ^ 64)
      → (a : ℕ) → fill_l3 l3 block n i m a < 2 ^ 64
  unfolding fill_l3
  fill_words zero i m h e w a = w a
  fill_words (suc n) i m h e w a =
      fill_words n (i + 1) (store m (l3 + 8 * i) (split_entry block i)) (omega arith) e
        (λ b. ground (arith, w b, e i)) a

-- What the split leaves in memory: a table in place of the block, and its entries.
pub record IsSplit (m m' : Memory) (p l3 : ℕ) : Type 0 where
  pub at_block : m' p ≡ l3 + 3
  pub entries : (j : ℕ) → j < 512 → m' (l3 + 8 * j) ≡ m p + j * 4096 + 2
  pub frame : (a : ℕ) → a ≢ p → in_page l3 a ≡ false → m' a ≡ m a
  pub words : (a : ℕ) → m' a < 2 ^ 64

-- A page that the allocator may hand out for a table.
pub record IsNewPage (l3 : ℕ) : Type 0 where
  pub aligned : l3 % 4096 ≡ 0
  pub small : l3 < 2 ^ 48

pub alloc_page-frame :
    (h : Heap) (l3 a : ℕ)
    → (alloc_page h).1 ≡ some l3
    → in_page l3 a ≡ false
    → (alloc_page h).0.mem a ≡ h.mem a
unfolding alloc_page hypervisor.Mm.Allocator.alloc_aligned
alloc_page-frame h l3 a e o = ground (arith, e, o)

alloc_page-words :
    (h : Heap) (a : ℕ) → ((a : ℕ) → h.mem a < 2 ^ 64) → (alloc_page h).0.mem a < 2 ^ 64
unfolding alloc_page hypervisor.Mm.Allocator.alloc_aligned
alloc_page-words h a w = ground (arith, w a)

-- The memory after `split_2mb_block_at_l2`.
pub split_memory : Heap → ℕ → ℕ → ℕ → Memory
split_memory h p block l3 =
    store (store (fill_l3 l3 block 512 0 (zero_page (alloc_page h).0.mem l3)) p 0) p (descriptor l3)

pub split_memory-IsSplit :
    (h : Heap) (p l3 : ℕ)
    → (alloc_page h).1 ≡ some l3
    → IsNewPage l3
    → in_page l3 p ≡ false
    → ((a : ℕ) → h.mem a < 2 ^ 64)
    → h.mem p % 4 ≡ 1
    → h.mem p / 4096 % 512 ≡ 0
    → IsSplit h.mem (split_memory h p (h.mem p) l3) p l3
unfolding split_memory
split_memory-IsSplit h p l3 e n o w b z = record {
  at_block = ground (arith, descriptor-eq l3 n.aligned);
  entries = λ j l. ground (
    arith,
    o,
    fill_at l3 (h.mem p) 512 0 j (zero_page (alloc_page h).0.mem l3) (omega arith) l,
    split_entry-eq (h.mem p) j (w p) b z l,
  );
  frame = λ a k f. ground (
    arith,
    k,
    f,
    fill_outside l3 (h.mem p) 512 0 a (zero_page (alloc_page h).0.mem l3) (omega arith) f,
    alloc_page-frame h l3 a e f,
  );
  words = λ a. ground (
    arith,
    descriptor-eq l3 n.aligned,
    n.small,
    fill_words l3 (h.mem p) 512 0 (zero_page (alloc_page h).0.mem l3) (omega arith) entry_words
        zeroed a,
  );
}
  where
    entry_words : (j : ℕ) → j < 512 → split_entry (h.mem p) j < 2 ^ 64
    entry_words j l = omega (arith, split_entry-eq (h.mem p) j (w p) b z l, w p, z)

    allocated : (a : ℕ) → (alloc_page h).0.mem a < 2 ^ 64
    allocated a = alloc_page-words h a w

    zeroed : (a : ℕ) → zero_page (alloc_page h).0.mem l3 a < 2 ^ 64
    zeroed a = ground (arith, allocated a)

-- The call answers `Ok` with that memory, if a page can be allocated.
pub split_2mb_block_at_l2-ok :
    (h : Heap) (p block l3 : ℕ)
    → (alloc_page h).1 ≡ some l3
    → split_2mb_block_at_l2 h p block
      ≡ (record (alloc_page h).0 { mem = split_memory h p block l3 }, ok tt)
unfolding split_2mb_block_at_l2 split_memory
split_2mb_block_at_l2-ok h p block l3 e = ground (arith, e)

module _ (m m' : Memory) (l0 p l3 : ℕ) (level : ℕ → ℕ) (tree : IsTree m l0 level)
    (split : IsSplit m m' p l3) (new : IsNewPage l3) (free : 3 < level (l3 / 4096))
    (at_l2 : level (p / 4096) ≡ 2) (valid : is_valid (m p) ≡ true)
    (block : is_table (m p) ≡ false) where
  -- An entry of a table is kept, unless it is the block.
  kept : (a : ℕ) → level (a / 4096) < 4 → a ≢ p → m' a ≡ m a
  kept a l n = split.frame a n (outside (Bool-cases (in_page l3 a)))
    where
      same_page : in_page l3 a ≡ true → a / 4096 ≡ l3 / 4096
      same_page e = ground (arith, e, new.aligned)

      outside : (in_page l3 a ≡ true) ⊎ (in_page l3 a ≡ false) → in_page l3 a ≡ false
      outside (inr e) = e
      outside (inl e) = absurd (omega (arith, l, free, ap level (same_page e)))

  kept_at : (k a : ℕ) → level (a / 4096) ≡ k → k < 4 → k ≢ 2 → m' a ≡ m a
  kept_at k a e l n =
      kept a (omega arith) (λ q. n (omega (arith, e, at_l2, ap (λ (x : ℕ). level (x / 4096)) q)))

  translate_l3-kept :
      (t ipa : ℕ)
      → t % 4096 ≡ 0
      → level (t / 4096) ≡ 3
      → translate_l3 m' t ipa ≡ translate_l3 m t ipa
  unfolding translate_l3
  translate_l3-kept t ipa h e =
      rw
        (kept_at 3 (slot 12 t ipa) (ap level (slot-page 12 t ipa h) ∙ e) (omega arith)
          (omega arith))
        refl

  word : m p < 2 ^ 64
  word = tree.words p

  low : m p % 4 ≡ 1
  low = ground (arith, valid, block, valid_bit (m p), table_bit (m p))

  gap : m p / 4096 % 512 ≡ 0
  gap = tree.blocks p at_l2 valid block

  new_valid : is_valid (m' p) ≡ true
  new_valid = ground (arith, valid_bit (m' p), split.at_block, new.aligned)

  new_table : is_table (m' p) ≡ true
  new_table = ground (arith, table_bit (m' p), split.at_block, new.aligned)

  new_next : next_table (m' p) ≡ l3
  new_next = omega (arith, address_bits (m' p), split.at_block, new.aligned, new.small)

  entry : (ipa : ℕ) → m' (slot 12 l3 ipa) ≡ m p + ipa / 4096 % 512 * 4096 + 2
  entry ipa =
      ap (λ (x : ℕ). m' (l3 + 8 * x)) (index_bits (ipa / 4096))
      ∙ split.entries (ipa / 4096 % 512) (omega arith)

  entry_valid : (ipa : ℕ) → is_valid (m' (slot 12 l3 ipa)) ≡ true
  entry_valid ipa = ground (arith, valid_bit (m' (slot 12 l3 ipa)), entry ipa, low)

  -- A page of the block means what the block meant.
  page_target : (ipa : ℕ) → target 12 (m' (slot 12 l3 ipa)) ipa ≡ target 21 (m p) ipa
  page_target ipa = λ i. (address i, upper i, lower i)
    where
      address :
          m' (slot 12 l3 ipa) / 2 ^ 12 % 2 ^ 36 * 2 ^ 12 + ipa % 2 ^ 12
          ≡ m p / 2 ^ 21 % 2 ^ 27 * 2 ^ 21 + ipa % 2 ^ 21
      address = omega (arith, entry ipa, low, gap, word)

      upper : m' (slot 12 l3 ipa) / 2 ^ 48 ≡ m p / 2 ^ 48
      upper = omega (arith, entry ipa, low, gap, word)

      lower : m' (slot 12 l3 ipa) / 4 % 2 ^ 10 ≡ m p / 4 % 2 ^ 10
      lower = omega (arith, entry ipa, low, gap, word)

  page_translated : (ipa : ℕ) → translate_l3 m' l3 ipa ≡ some (target 21 (m p) ipa)
  unfolding translate_l3
  page_translated ipa = rw (entry_valid ipa) (ap some (page_target ipa))

  -- Where the block was, the walk goes through the new table to a page of the block.
  translate_l2-split :
      (t ipa : ℕ) → slot 21 t ipa ≡ p → translate_l2 m' t ipa ≡ translate_l2 m t ipa
  unfolding translate_l2
  translate_l2-split t ipa e =
      rw (e, new_valid, new_table, new_next, valid, block) (page_translated ipa)

  translate_l2-kept :
      (t ipa : ℕ)
      → t % 4096 ≡ 0
      → level (t / 4096) ≡ 2
      → translate_l2 m' t ipa ≡ translate_l2 m t ipa
  unfolding translate_l2
  translate_l2-kept t ipa h e = elim (ℕ_discrete (slot 21 t ipa) p) [
    | yes q ↦ translate_l2-split t ipa q
    | no n ↦ other n
  ]
    where
      lev : level (slot 21 t ipa / 4096) ≡ 2
      lev = ap level (slot-page 21 t ipa h) ∙ e

      down :
          is_valid (m (slot 21 t ipa)) ≡ true
          → is_table (m (slot 21 t ipa)) ≡ true
          → translate_l3 m' (next_table (m (slot 21 t ipa))) ipa
            ≡ translate_l3 m (next_table (m (slot 21 t ipa))) ipa
      down v d =
          translate_l3-kept (next_table (m (slot 21 t ipa))) ipa (next_table_aligned _)
            (tree.child (slot 21 t ipa) (omega (arith, lev)) (is_descriptor-eq _ v d) ∙ ap suc lev)

      other : slot 21 t ipa ≢ p → translate_l2 m' t ipa ≡ translate_l2 m t ipa
      other n = rw (kept (slot 21 t ipa) (omega (arith, lev)) n) (ground (arith, down))

  translate_l1-kept :
      (t ipa : ℕ)
      → t % 4096 ≡ 0
      → level (t / 4096) ≡ 1
      → translate_l1 m' t ipa ≡ translate_l1 m t ipa
  unfolding translate_l1
  translate_l1-kept t ipa h e =
      rw (kept_at 1 (slot 30 t ipa) lev (omega arith) (omega arith)) (ground (arith, down))
    where
      lev : level (slot 30 t ipa / 4096) ≡ 1
      lev = ap level (slot-page 30 t ipa h) ∙ e

      down :
          is_valid (m (slot 30 t ipa)) ≡ true
          → is_table (m (slot 30 t ipa)) ≡ true
          → translate_l2 m' (next_table (m (slot 30 t ipa))) ipa
            ≡ translate_l2 m (next_table (m (slot 30 t ipa))) ipa
      down v d =
          translate_l2-kept (next_table (m (slot 30 t ipa))) ipa (next_table_aligned _)
            (tree.child (slot 30 t ipa) (omega (arith, lev)) (is_descriptor-eq _ v d) ∙ ap suc lev)

  pub translate-IsSplit : (ipa : ℕ) → translate m' l0 ipa ≡ translate m l0 ipa
  unfolding translate
  translate-IsSplit ipa =
      rw (kept_at 0 (slot 39 l0 ipa) lev (omega arith) (omega arith)) (ground (arith, down))
    where
      lev : level (slot 39 l0 ipa / 4096) ≡ 0
      lev = ap level (slot-page 39 l0 ipa tree.aligned) ∙ tree.root

      down :
          is_descriptor (m (slot 39 l0 ipa)) ≡ true
          → translate_l1 m' (next_table (m (slot 39 l0 ipa))) ipa
            ≡ translate_l1 m (next_table (m (slot 39 l0 ipa))) ipa
      down d =
          translate_l1-kept (next_table (m (slot 39 l0 ipa))) ipa (next_table_aligned _)
            (tree.child (slot 39 l0 ipa) (omega (arith, lev)) d ∙ ap suc lev)
