-- ===== src/Ffa/Stage2Walker/Tests.antt =====
-- The theorems on the walker at a tree with one 2MB block.
use hypervisor.Prelude.{
  ℕ, suc, ◌/◌, ◌<◌, ◌≡◌, refl, sym, subst, ℕ_discrete, ◌∙◌, arith, true, false, some, ◌==◌,
  if◌then◌else◌,
}
use hypervisor.Mm.Words.{Memory}
use hypervisor.Mm.Allocator
use hypervisor.Mm.Allocator.{Heap, alloc_page}
use hypervisor.Ffa.Stage2Walker.{
  is_descriptor, next_table, read_sw_bits, read_s2ap, write_sw_bits, split_block_if_needed,
}
use hypervisor.Ffa.Stage2Walker.Tree.{IsTree}
use hypervisor.Ffa.Stage2Walker.Write.{FreshPages, Splits, split_block_if_needed-Splits}
use hypervisor.Ffa.Stage2Walker.Access.{Wrote, write_sw_bits-Wrote}

-- A level 0 table at 0x1000 leads to 0x2000 and that to 0x3000, whose first entry is a block with
-- output address 0x200000 and the attributes 0x7FC.
abbrev one_block : Memory
one_block a =
    if a == 0x1000
    then 0x2003
    else (if a == 0x2000 then 0x3003 else (if a == 0x3000 then 0x2007FD else 0))

abbrev levels : ℕ → ℕ
levels q = if q == 1 then 0 else (if q == 2 then 1 else (if q == 3 then 2 else 9))

-- Pages from 0x10000 on are not handed out yet.
abbrev heap : Heap
heap = record {
  bump = record { next = 0x10000; end = 0x20000; allocated = 0; free_head = 0 };
  mem = one_block;
}

next_page : (alloc_page heap).1 ≡ some 0x10000
unfolding alloc_page Allocator.alloc_aligned
next_page = refl

some_is : (a b : ℕ) → some a ≡ some b → b ≡ a
some_is a b e = cc

heap-FreshPages : FreshPages heap levels
heap-FreshPages l3 e =
    rw (some_is 0x10000 l3 (sym next_page ∙ e))
      (record { aligned = refl; small = omega arith }, omega arith)

not_true : false ≡ true → ⊥
not_true e = absurd (cc)

child_level :
    (a : ℕ)
    → levels (a / 4096) < 3
    → is_descriptor (one_block a) ≡ true
    → levels (next_table (one_block a) / 4096) ≡ suc (levels (a / 4096))
child_level a l d = elim (ℕ_discrete a 0x1000) [
  | yes e ↦ rw e refl
  | no n ↦ elim (ℕ_discrete a 0x2000) [
    | yes e ↦ rw e refl
    | no n' ↦ elim (ℕ_discrete a 0x3000) [
      | yes e ↦ absurd (not_true (subst (λ b. is_descriptor (one_block b) ≡ true) e d))
      | no n'' ↦ absurd (not_true (ground (arith, d, n, n', n'')))
    ]
  ]
]

one_block-IsTree : IsTree one_block 0x1000 levels
one_block-IsTree = record {
  root = refl;
  aligned = refl;
  child = child_level;
  words = λ a. ground arith;
  blocks = λ a l v t. ground arith;
}

split_block_if_needed-Splits_example : Splits heap 0x1000 (split_block_if_needed heap 0x1000 0x5000)
split_block_if_needed-Splits_example =
    split_block_if_needed-Splits heap 0x1000 levels one_block-IsTree heap-FreshPages 0x5000

write_sw_bits-Wrote_example :
    Wrote read_sw_bits read_s2ap heap 0x1000 0x5000 1 (write_sw_bits heap 0x1000 0x5000 1)
write_sw_bits-Wrote_example =
    write_sw_bits-Wrote heap 0x1000 0x5000 1 levels one_block-IsTree heap-FreshPages
