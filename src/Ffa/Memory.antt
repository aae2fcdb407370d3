-- ===== src/Ffa/Memory.antt =====
-- src/ffa/memory.rs: page ownership in the two software bits of a page table entry.
use hypervisor.Prelude.{ℕ, ◌%◌, ◌≡◌, refl, arith, ◌==◌, if◌then◌else◌, bit_and, Result, ok, err}
use hypervisor.Bits.Fields.{bit_and-ones}
use hypervisor.Ffa.Ids.{FfaError, denied}

pub data PageOwnership : Type 0 where
  owned shared_owned shared_borrowed donated : PageOwnership

-- `PageOwnership as u8`.
unfoldable pub to_bits : PageOwnership → ℕ
to_bits owned = 0
to_bits shared_owned = 1
to_bits shared_borrowed = 2
to_bits donated = 3

unfoldable pub from_bits : ℕ → PageOwnership
from_bits bits =
    let low = bit_and bits 3 in
    if low == 0
    then owned
    else (if low == 1 then shared_owned else (if low == 2 then shared_borrowed else donated))

abbrev pub only_owned : PageOwnership → Result FfaError (Unit {0})
only_owned owned = ok tt
only_owned _ = err denied

unfoldable pub validate_page_for_share : ℕ → Result FfaError (Unit {0})
unfolding from_bits
validate_page_for_share bits = only_owned (from_bits bits)

-- Reading back what was written gives the same state.
pub from_bits-to_bits : (o : PageOwnership) → from_bits (to_bits o) ≡ o
unfolding from_bits to_bits
from_bits-to_bits owned = refl
from_bits-to_bits shared_owned = refl
from_bits-to_bits shared_borrowed = refl
from_bits-to_bits donated = refl

-- A page may be shared exactly if its bits say owned.
pub validate_page_for_share_lem :
    (bits : ℕ)
    → (validate_page_for_share bits ≡ ok tt → bits % 4 ≡ 0)
      × (bits % 4 ≡ 0 → validate_page_for_share bits ≡ ok tt)
unfolding validate_page_for_share
validate_page_for_share_lem bits =
    (λ h. ground (arith, bit_and-ones 2 bits), λ h. ground (arith, bit_and-ones 2 bits))
