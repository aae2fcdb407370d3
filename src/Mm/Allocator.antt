-- ===== src/Mm/Allocator.antt =====
-- src/mm/allocator.rs: the bump allocator with a free list that runs through the free pages
-- themselves. Sums wrap at 64 bits, as they do in a release build.
pub mod Bump
pub mod FreeList
mod Tests
use hypervisor.Prelude.{
  ℕ, ◌+◌, ◌-◌, ◌%◌, ◌^◌, ◌<◌, ◌≡◌, Option, none, some, bit_and, ltb, ◌==◌, if◌then◌else◌,
}
use hypervisor.Bits.Test.{complement}
use hypervisor.Mm.Words.{Memory, page_size, store, zero_page}

-- A `free_head` of 0 is the empty list.
pub record BumpAllocator : Type 0 where
  pub next : ℕ
  pub end : ℕ
  pub allocated : ℕ
  pub free_head : ℕ

-- The allocator and the memory that it hands out.
pub record Heap : Type 0 where
  pub bump : BumpAllocator
  pub mem : Memory

abbrev pub add64 : ℕ → ℕ → ℕ
add64 a b = (a + b) % 2 ^ 64

abbrev pub sub64 : ℕ → ℕ → ℕ
sub64 a b = (a + 2 ^ 64 - b) % 2 ^ 64

unfoldable pub new : ℕ → ℕ → BumpAllocator
new start size = record { next = start; end = add64 start size; allocated = 0; free_head = 0 }

abbrev pub align_up : ℕ → ℕ → ℕ
align_up a align = bit_and (sub64 (add64 a align) 1) (complement 64 (align - 1))

unfoldable pub alloc_aligned : BumpAllocator → ℕ → ℕ → BumpAllocator × Option ℕ
alloc_aligned b size align =
    let aligned = align_up b.next align in
    let new_next = add64 aligned size in
    if ltb b.end new_next
    then (b, none)
    else (record b { next = new_next; allocated = add64 b.allocated size }, some aligned)

unfoldable pub alloc : BumpAllocator → ℕ → BumpAllocator × Option ℕ
unfolding alloc_aligned
alloc b size = alloc_aligned b size 8

abbrev with_bump : Heap → BumpAllocator × Option ℕ → Heap × Option ℕ
with_bump h (b, o) = (record h { bump = b }, o)

unfoldable pub alloc_page : Heap → Heap × Option ℕ
unfolding alloc_aligned
alloc_page h =
    let page = h.bump.free_head in
    if page == 0 then with_bump h (alloc_aligned h.bump page_size page_size) else (
      record {
        bump = record h.bump {
          free_head = h.mem page;
          allocated = add64 h.bump.allocated page_size;
        };
        mem = zero_page h.mem page;
      },
      some page,
    )

unfoldable pub free_page : Heap → ℕ → Heap
free_page h addr = record {
  bump = record h.bump { free_head = addr; allocated = sub64 h.bump.allocated page_size };
  mem = store h.mem addr h.bump.free_head;
}

unfoldable pub remaining : BumpAllocator → ℕ
remaining b = sub64 b.end b.next

unfoldable pub reset : BumpAllocator → ℕ → BumpAllocator
reset b start = record b { next = start; allocated = 0; free_head = 0 }
