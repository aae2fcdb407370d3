-- ===== src/Mm/Words.antt =====
-- Physical memory as 64-bit words, each under the address of its first byte. Page tables and the
-- free list of the allocator are read and written in whole aligned words only.
use hypervisor.Prelude.{ℕ, ◌+◌, Bool, ◌&&◌, ltb, leb, ◌==◌, if◌then◌else◌}

abbrev pub Memory : Type 0
Memory = ℕ → ℕ

abbrev pub page_size : ℕ
page_size = 4096

-- `write_volatile`.
abbrev pub store : Memory → ℕ → ℕ → Memory
store m a v b = if a == b then v else m b

abbrev pub in_page : ℕ → ℕ → Bool
in_page p a = leb p a && ltb a (p + page_size)

-- `write_bytes(page, 0, 4096)`.
abbrev pub zero_page : Memory → ℕ → Memory
zero_page m p a = if in_page p a then 0 else m a
