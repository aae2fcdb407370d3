-- ===== src/Mm/Allocator/Tests.antt =====
-- The theorems on the allocator at a small heap.
use hypervisor.Prelude.{ℕ, ◌%◌, ◌<◌, ◌≡◌, refl, arith, [], ◌∷◌, some, ◌==◌, if◌then◌else◌}
use hypervisor.Mm.Words.{in_page}
use hypervisor.Mm.Allocator.{Heap, alloc_page}
use hypervisor.Mm.Allocator.Bump.{Bumped, alloc_page-Bumped}
use hypervisor.Mm.Allocator.FreeList.{IsPage, Frees, alloc_page-Frees}

-- 0x5000 is free, and behind it 0x3000.
abbrev heap : Heap
heap = record {
  bump = record { next = 0x7008; end = 0x9000; allocated = 0x4000; free_head = 0x5000 };
  mem = λ a. if a == 0x5000 then 0x3000 else 0;
}

abbrev unused : Heap
unused = record {
  bump = record { next = 0x7008; end = 0x9000; allocated = 0; free_head = 0 };
  mem = λ a. 0;
}

is_page : (p : ℕ) → 0 < p → p % 4096 ≡ 0 → IsPage p
is_page p l z = (ground (arith, l), z)

heap-Frees : Frees heap (0x5000 ∷ 0x3000 ∷ [])
heap-Frees = record {
  chain = (refl, (refl, refl));
  pages = (is_page 0x5000 (omega arith) refl, (is_page 0x3000 (omega arith) refl, tt));
  apart = ((omega arith, tt), (tt, tt));
}

alloc_page-Bumped_example :
    let (h', o) = alloc_page unused in Bumped 4096 4096 unused.bump (h'.bump, o)
alloc_page-Bumped_example = alloc_page-Bumped unused (omega arith) refl

alloc_page-Frees_example :
    let (h', o) = alloc_page heap in
    (o ≡ some 0x5000)
    × Frees h' (0x3000 ∷ [])
    × ((a : ℕ) → h'.mem a ≡ (if in_page 0x5000 a then 0 else heap.mem a))
alloc_page-Frees_example = alloc_page-Frees heap 0x5000 (0x3000 ∷ []) heap-Frees
