-- ===== src/Ffa/Stage2Walker/Access.antt =====
-- src/ffa/stage2_walker.rs: reads of the two fields after writes.
use hypervisor.Prelude.{
  ℕ, ◌%◌, ◌≡◌, ◌≢◌, refl, sym, ap, ◌∙◌, Option, none, some, ok, err, ◌⊎◌, inl, inr, Option-cases,
}
use hypervisor.Mm.Words.{Memory, store}
use hypervisor.Mm.Allocator.{Heap, alloc_page}
use hypervisor.Ffa.Stage2Walker.{
  Outcome, not_mapped, no_split_table, walk_to_leaf_ptr, read_sw_bits, read_s2ap, with_field,
  split_block_if_needed, write_split, write_sw_bits, set_s2ap,
}
use hypervisor.Ffa.Stage2Walker.Walk.{
  walk-sw_stored, walk-s2ap_stored, read_sw-stored, read_sw-elsewhere, read_s2ap-sw_stored,
  read_s2ap-stored, read_s2ap-elsewhere, read_sw-s2ap_stored,
}
use hypervisor.Ffa.Stage2Walker.Tree.{IsTree, translate}
use hypervisor.Ffa.Stage2Walker.Write.{
  FreshPages, Splits, split_block_if_needed-Splits, of_target, sw_of, s2ap_of, read_sw-translate,
  read_s2ap-translate,
}

abbrev pub Reader : Type 0
Reader = Memory → ℕ → ℕ → Option ℕ

-- A write of `bits` at `ipa` through the reader `mine`, next to the other field's reader.
abbrev pub Wrote : Reader → Reader → Heap → ℕ → ℕ → ℕ → Outcome → Type 0
Wrote mine other h l0 ipa bits (h', ok u) =
    (mine h'.mem l0 ipa ≡ some (bits % 4))
    × ((at : ℕ)
        → walk_to_leaf_ptr h'.mem l0 at ≢ walk_to_leaf_ptr h'.mem l0 ipa
        → mine h'.mem l0 at ≡ mine h.mem l0 at)
    × ((at : ℕ) → other h'.mem l0 at ≡ other h.mem l0 at)
Wrote mine other h l0 ipa bits (h', err e) =
    ((e ≡ not_mapped) × (mine h.mem l0 ipa ≡ none))
    ⊎ ((e ≡ no_split_table) × ((alloc_page h).1 ≡ none))

module _ (m m' : Memory) (l0 : ℕ)
    (same : (ipa : ℕ) → translate m' l0 ipa ≡ translate m l0 ipa) where
  sw_kept : (ipa : ℕ) → read_sw_bits m' l0 ipa ≡ read_sw_bits m l0 ipa
  sw_kept ipa =
      read_sw-translate m' l0 ipa
      ∙ ap (of_target sw_of) (same ipa)
      ∙ sym (read_sw-translate m l0 ipa)

  s2ap_kept : (ipa : ℕ) → read_s2ap m' l0 ipa ≡ read_s2ap m l0 ipa
  s2ap_kept ipa =
      read_s2ap-translate m' l0 ipa
      ∙ ap (of_target s2ap_of) (same ipa)
      ∙ sym (read_s2ap-translate m l0 ipa)

module _ (h : Heap) (l0 ipa b : ℕ) where
  sw_after_split :
      (o : Outcome)
      → Splits h l0 o
      → Wrote read_sw_bits read_s2ap h l0 ipa b (write_split 55 l0 ipa b o)
  unfolding read_sw_bits read_s2ap
  sw_after_split (h', err e) s = inr s
  sw_after_split (h', ok u) (words, same) = elim (Option-cases (walk_to_leaf_ptr h'.mem l0 ipa)) [
    | inl n ↦ rw n (inl (refl, sym (sw_kept h.mem h'.mem l0 same ipa) ∙ unmapped n))
    | inr (p, e) ↦ rw e (
      read_sw-stored h'.mem l0 p b (words p) ipa e,
      (λ at n.
          read_sw-elsewhere h'.mem l0 p b (words p) at (moved p e at n)
          ∙ sw_kept h.mem h'.mem l0 same at),
      (λ at. read_s2ap-sw_stored h'.mem l0 p b (words p) at ∙ s2ap_kept h.mem h'.mem l0 same at),
    )
  ]
    where
      unmapped : walk_to_leaf_ptr h'.mem l0 ipa ≡ none → read_sw_bits h'.mem l0 ipa ≡ none
      unmapped n = rw n refl

      moved :
          (p : ℕ)
          → walk_to_leaf_ptr h'.mem l0 ipa ≡ some p
          → (at : ℕ)
          → walk_to_leaf_ptr (store h'.mem p (with_field 55 (h'.mem p) b)) l0 at
            ≢ walk_to_leaf_ptr (store h'.mem p (with_field 55 (h'.mem p) b)) l0 ipa
          → walk_to_leaf_ptr h'.mem l0 at ≢ some p
      moved p e at n q = n (
          walk-sw_stored h'.mem l0 p b (words p) at
          ∙ q
          ∙ sym e
          ∙ sym (walk-sw_stored h'.mem l0 p b (words p) ipa))

  s2ap_after_split :
      (o : Outcome)
      → Splits h l0 o
      → Wrote read_s2ap read_sw_bits h l0 ipa b (write_split 6 l0 ipa b o)
  unfolding read_sw_bits read_s2ap
  s2ap_after_split (h', err e) s = inr s
  s2ap_after_split (h', ok u) (words, same) = elim (Option-cases (walk_to_leaf_ptr h'.mem l0 ipa)) [
    | inl n ↦ rw n (inl (refl, sym (s2ap_kept h.mem h'.mem l0 same ipa) ∙ unmapped n))
    | inr (p, e) ↦ rw e (
      read_s2ap-stored h'.mem l0 p b (words p) ipa e,
      (λ at n.
          read_s2ap-elsewhere h'.mem l0 p b (words p) at (moved p e at n)
          ∙ s2ap_kept h.mem h'.mem l0 same at),
      (λ at. read_sw-s2ap_stored h'.mem l0 p b (words p) at ∙ sw_kept h.mem h'.mem l0 same at),
    )
  ]
    where
      unmapped : walk_to_leaf_ptr h'.mem l0 ipa ≡ none → read_s2ap h'.mem l0 ipa ≡ none
      unmapped n = rw n refl

      moved :
          (p : ℕ)
          → walk_to_leaf_ptr h'.mem l0 ipa ≡ some p
          → (at : ℕ)
          → walk_to_leaf_ptr (store h'.mem p (with_field 6 (h'.mem p) b)) l0 at
            ≢ walk_to_leaf_ptr (store h'.mem p (with_field 6 (h'.mem p) b)) l0 ipa
          → walk_to_leaf_ptr h'.mem l0 at ≢ some p
      moved p e at n q = n (
          walk-s2ap_stored h'.mem l0 p b (words p) at
          ∙ q
          ∙ sym e
          ∙ sym (walk-s2ap_stored h'.mem l0 p b (words p) ipa))

-- With a proper table tree and a heap that hands out fresh pages, `write_sw_bits` that succeeds
-- leaves the new ownership bits at the address, leaves them as they were at every address whose walk
-- ends elsewhere, and changes no access permission anywhere; it fails only for an address that is
-- not mapped, or when a block has to be split and the heap is empty.
pub write_sw_bits-Wrote :
    (h : Heap) (l0 ipa b : ℕ) (level : ℕ → ℕ)
    → IsTree h.mem l0 level
    → FreshPages h level
    → Wrote read_sw_bits read_s2ap h l0 ipa b (write_sw_bits h l0 ipa b)
unfolding write_sw_bits
write_sw_bits-Wrote h l0 ipa b level tree fresh =
    sw_after_split h l0 ipa b (split_block_if_needed h l0 ipa)
      (split_block_if_needed-Splits h l0 level tree fresh ipa)

-- The same of `set_s2ap`, with the permissions and the ownership bits exchanged.
pub set_s2ap-Wrote :
    (h : Heap) (l0 ipa b : ℕ) (level : ℕ → ℕ)
    → IsTree h.mem l0 level
    → FreshPages h level
    → Wrote read_s2ap read_sw_bits h l0 ipa b (set_s2ap h l0 ipa b)
unfolding set_s2ap
set_s2ap-Wrote h l0 ipa b level tree fresh =
    s2ap_after_split h l0 ipa b (split_block_if_needed h l0 ipa)
      (split_block_if_needed-Splits h l0 level tree fresh ipa)
