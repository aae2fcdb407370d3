-- ===== src/Mm/Allocator/Bump.antt =====
-- src/mm/allocator.rs: lemmas on `alloc_aligned`.
use hypervisor.Prelude.{
  true, ℕ, ◌+◌, ◌-◌, ◌*◌, ◌/◌, ◌%◌, ◌^◌, ◌<◌, ◌≤◌, ◌≡◌, arith, Option, none, some, ◌==◌,
}
use hypervisor.Bits.Fields.{bit_and-field}
use hypervisor.Mm.Allocator.{BumpAllocator, Heap, align_up, alloc_aligned, alloc, alloc_page}

-- Rounding up to a page is the next multiple of 4096.
pub align_up_page : (a : ℕ) → a + 4096 < 2 ^ 64 → align_up a 4096 ≡ (a + 4095) / 4096 * 4096
align_up_page a h = omega (arith, bit_and-field 52 12 (((a + 4096) % 2 ^ 64 + 2 ^ 64 - 1) % 2 ^ 64))

pub align_up_word : (a : ℕ) → a + 8 < 2 ^ 64 → align_up a 8 ≡ (a + 7) / 8 * 8
align_up_word a h = omega (arith, bit_and-field 61 3 (((a + 8) % 2 ^ 64 + 2 ^ 64 - 1) % 2 ^ 64))

-- A block handed out lies between the old and the new `next`, is aligned, and ends in the arena;
-- a refusal changes nothing and means that the block would not have fitted.
abbrev pub Bumped : ℕ → ℕ → BumpAllocator → BumpAllocator × Option ℕ → Type 0
Bumped align size b (b', none) = (b' ≡ b) × (b.end < b.next + align + size)
Bumped align size b (b', some p) =
    (p % align ≡ 0)
    × (b.next ≤ p)
    × (b'.next ≡ p + size)
    × (b'.next ≤ b'.end)
    × (b'.end ≡ b.end)
    × (b'.free_head ≡ b.free_head)

page-Bumped :
    (b : BumpAllocator) → b.next + 8192 < 2 ^ 64 → Bumped 4096 4096 b (alloc_aligned b 4096 4096)
unfolding alloc_aligned
page-Bumped b h = ground (arith, align_up_page b.next (omega arith))

-- From an allocator whose `next` is far enough from the top of the address space, and whose free
-- list is empty, `alloc_page` hands out a page above every page that it has bumped before.
pub alloc_page-Bumped :
    (h : Heap)
    → h.bump.next + 8192 < 2 ^ 64
    → h.bump.free_head ≡ 0
    → let (h', o) = alloc_page h in Bumped 4096 4096 h.bump (h'.bump, o)
unfolding alloc_page
alloc_page-Bumped h l e = rw empty (page-Bumped h.bump l)
  where
    empty : (h.bump.free_head == 0) ≡ true
    empty = ground (arith, e)

-- The same of `alloc`, with eight bytes for the alignment.
pub alloc-Bumped :
    (b : BumpAllocator) (size : ℕ) → b.next + 8 + size < 2 ^ 64 → Bumped 8 size b (alloc b size)
unfolding alloc alloc_aligned
alloc-Bumped b size h = ground (arith, align_up_word b.next (omega arith))
