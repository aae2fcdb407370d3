-- ===== src/Spmc/Replies.antt =====
-- src/ffa/smc_forward.rs and src/spmc_handler.rs: the registers of a request and of a reply, and
-- the replies that need no state.
use hypervisor.Prelude.{
  ℕ, ◌-◌, ◌*◌, ◌/◌, ◌^◌, not, List, [], ◌∷◌, any, bit_and, bit_or, ◌==◌, if◌then◌else◌,
}
use hypervisor.Ffa.Ids.{
  FfaError, not_supported, invalid_parameters, no_memory, busy, denied, no_data,
}

pub record SmcResult8 : Type 0 where
  pub x0 : ℕ
  pub x1 : ℕ
  pub x2 : ℕ
  pub x3 : ℕ
  pub x4 : ℕ
  pub x5 : ℕ
  pub x6 : ℕ
  pub x7 : ℕ

abbrev pub zeros : SmcResult8
zeros = record { x0 = 0; x1 = 0; x2 = 0; x3 = 0; x4 = 0; x5 = 0; x6 = 0; x7 = 0 }

-- An `i32` error code as `u64`, its sign extended.
unfoldable pub error_code : FfaError → ℕ
error_code not_supported = 2 ^ 64 - 1
error_code invalid_parameters = 2 ^ 64 - 2
error_code no_memory = 2 ^ 64 - 3
error_code busy = 2 ^ 64 - 4
error_code denied = 2 ^ 64 - 6
error_code no_data = 2 ^ 64 - 8

unfoldable pub make_error : FfaError → SmcResult8
make_error e = record zeros { x0 = 0x84000060; x2 = error_code e }

abbrev pub success : SmcResult8
success = record zeros { x0 = 0x84000061 }

abbrev pub interrupted : SmcResult8
interrupted = record zeros { x0 = 0x84000062 }

abbrev pub version_1_1 : ℕ
version_1_1 = 0x00010001

abbrev pub source : SmcResult8 → ℕ
source r = bit_and (r.x1 / 2 ^ 16) 0xFFFF

abbrev pub destination : SmcResult8 → ℕ
destination r = bit_and r.x1 0xFFFF

-- The sender and the receiver of a request, exchanged for its response.
unfoldable pub swapped : SmcResult8 → ℕ
swapped r = bit_or (destination r * 2 ^ 16) (source r)

-- The function IDs that FFA_FEATURES reports.
abbrev pub supported_ids : List ℕ
supported_ids =
    0x84000063 ∷ 0x84000069 ∷ 0x84000064 ∷ 0x84000085 ∷ 0x84000068 ∷ 0x8400006F ∷ 0xC400006F
    ∷ 0xC4000066 ∷ 0x84000065 ∷ 0x8400006D ∷ []

unfoldable pub handle_features : SmcResult8 → SmcResult8
handle_features r =
    if any (λ id. r.x1 == id) supported_ids then success else make_error not_supported

-- The direct request with its payload, answered by function ID `resp`.
unfoldable pub echo : ℕ → SmcResult8 → SmcResult8
unfolding swapped
echo resp r = record r { x0 = resp; x1 = swapped r; x2 = 0 }

-- The bit that marks a message of the dispatcher at EL3.
abbrev pub fwk_msg_bit : ℕ
fwk_msg_bit = 2 ^ 31

-- A framework message without its mark; the mask is the complement of the bit among 64.
abbrev pub fwk_function : SmcResult8 → ℕ
fwk_function r = bit_and r.x2 (2 ^ 64 - 1 - 2 ^ 31)

unfoldable pub handle_direct_req_32 : SmcResult8 → SmcResult8
unfolding echo swapped
handle_direct_req_32 r =
    if not (bit_and r.x2 fwk_msg_bit == 0)
    then (if fwk_function r == 0x8
        then record zeros {
          x0 = 0x84000070;
          x1 = swapped r;
          x2 = bit_or fwk_msg_bit 0x9;
          x3 = version_1_1;
        }
        else make_error not_supported)
    else echo 0x84000070 r
