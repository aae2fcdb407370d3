-- ===== src/Mm/Allocator/FreeList.antt =====
-- src/mm/allocator.rs: the list of free pages, threaded through their first words.
use hypervisor.Prelude.{
  ℕ, ◌+◌, ◌%◌, ◌^◌, ◌<◌, ◌≡◌, ◌≢◌, refl, sym, subst, arith, some, List, [], ◌∷◌, All, ◌==◌,
  if◌then◌else◌, false,
}
use hypervisor.Mm.Words.{Memory, store, zero_page, in_page}
use hypervisor.Mm.Allocator.{Heap, alloc_page, free_page}

-- The list that starts at `head` goes through the pages, in order.
abbrev pub Chain : Memory → ℕ → List ℕ → Type 0
Chain m head [] = head ≡ 0
Chain m head (p ∷ ps) = (head ≡ p) × Chain m (m p) ps

abbrev pub IsPage : ℕ → Type 0
IsPage p = (p ≢ 0) × (p % 4096 ≡ 0)

abbrev pub Apart : List ℕ → Type 0
Apart [] = Unit {0}
Apart (p ∷ ps) = All (λ q. q ≢ p) ps × Apart ps

-- The free pages of a heap, the next one to go out first.
pub record Frees (h : Heap) (ps : List ℕ) : Type 0 where
  pub chain : Chain h.mem h.bump.free_head ps
  pub pages : All IsPage ps
  pub apart : Apart ps

Chain-store :
    (m : Memory) (a v head : ℕ) (ps : List ℕ)
    → All (λ q. q ≢ a) ps
    → Chain m head ps
    → Chain (store m a v) head ps
Chain-store m a v head [] n c = c
Chain-store m a v head (p ∷ ps) n c =
    (c.0, subst (λ x. Chain (store m a v) x ps) (sym other) (Chain-store m a v (m p) ps n.1 c.1))
  where
    other : store m a v p ≡ m p
    other = ground (arith, n.0)

Chain-zero_page :
    (m : Memory) (a head : ℕ) (ps : List ℕ)
    → IsPage a
    → All IsPage ps
    → All (λ q. q ≢ a) ps
    → Chain m head ps
    → Chain (zero_page m a) head ps
Chain-zero_page m a head [] k l n c = c
Chain-zero_page m a head (p ∷ ps) k l n c = (
  c.0,
  subst (λ x. Chain (zero_page m a) x ps) (sym outside)
      (Chain-zero_page m a (m p) ps k l.1 n.1 c.1),
)
  where
    outside : zero_page m a p ≡ m p
    outside = ground (arith, k, l.0, n.0)

-- Freeing a page that is not free puts it on top of the free pages.
pub free_page-Frees :
    (h : Heap) (a : ℕ) (ps : List ℕ)
    → Frees h ps
    → IsPage a
    → All (λ q. q ≢ a) ps
    → Frees (free_page h a) (a ∷ ps)
unfolding free_page
free_page-Frees h a ps f k n = record {
  chain = (
    refl,
    subst (λ x. Chain (store h.mem a h.bump.free_head) x ps) (ground arith)
        (Chain-store h.mem a h.bump.free_head h.bump.free_head ps n f.chain),
  );
  pages = (k, f.pages);
  apart = (n, f.apart);
}

-- While there are free pages, `alloc_page` hands out the top one, zeroed, keeps the rest free, and
-- writes to no other page.
pub alloc_page-Frees :
    (h : Heap) (p : ℕ) (ps : List ℕ)
    → Frees h (p ∷ ps)
    → let (h', o) = alloc_page h in
      (o ≡ some p) × Frees h' ps × ((a : ℕ) → h'.mem a ≡ (if in_page p a then 0 else h.mem a))
unfolding alloc_page
alloc_page-Frees h p ps f = rw (top, taken) (refl, rest, λ a. refl)
  where
    top : h.bump.free_head ≡ p
    top = f.chain.0

    taken : (p == 0) ≡ false
    taken = ground (arith, f.pages.0)

    rest :
        Frees
          (record {
            bump = record h.bump {
              free_head = h.mem p;
              allocated = (h.bump.allocated + 4096) % 2 ^ 64;
            };
            mem = zero_page h.mem p;
          })
          ps
    rest = record {
      chain = Chain-zero_page h.mem p (h.mem p) ps f.pages.0 f.pages.1 f.apart.0 f.chain.1;
      pages = f.pages.1;
      apart = f.apart.1;
    }

-- Allocating after freeing hands the same page out, and the allocator's fields are as before.
pub alloc_page-free_page :
    (h : Heap) (a : ℕ)
    → IsPage a
    → h.bump.allocated < 2 ^ 64
    → let (h', o) = alloc_page (free_page h a) in (o ≡ some a) × (h'.bump ≡ h.bump)
unfolding alloc_page free_page
alloc_page-free_page h a k l = ground (arith, k.0)
