-- ===== src/Ffa/StubSpmc.antt =====
-- src/ffa/stub_spmc.rs: the records of memory shares. A handle is 64 bits wide.
pub mod Spec
mod Tests
use hypervisor.Prelude.{
  update_first, ℕ, zero, suc, ◌+◌, ◌%◌, ◌^◌, ◌<◌, ◌≡◌, Bool, true, false, ◌&&◌, ◌||◌, not, Option,
  none, some, List, [], ◌∷◌, map, take, length, replicate, min, ◌==◌, if◌then◌else◌, ◌-◌, ◌++◌,
}

-- An address range: the base IPA and the number of pages.
abbrev pub Range : Type 0
Range = ℕ × ℕ

abbrev pub max_share_ranges : ℕ
max_share_ranges = 4

abbrev pub max_shares : ℕ
max_shares = 16

-- `MemShareRecord`.
pub record Share : Type 0 where
  pub handle : ℕ
  pub sender_id : ℕ
  pub receiver_id : ℕ
  pub ranges : List Range
  pub range_count : ℕ
  pub total_page_count : ℕ
  pub active : Bool
  pub is_lend : Bool
  pub retrieved : Bool

-- The two statics, `NEXT_HANDLE` and `SHARE_RECORDS`.
pub record Spmc : Type 0 where
  pub next_handle : ℕ
  pub records : List Share

abbrev pub no_ranges : List Range
no_ranges = replicate max_share_ranges (0, 0)

-- `EMPTY`.
abbrev pub empty_share : Share
empty_share = record {
  handle = 0;
  sender_id = 0;
  receiver_id = 0;
  ranges = no_ranges;
  range_count = 0;
  total_page_count = 0;
  active = false;
  is_lend = false;
  retrieved = false;
}

unfoldable pub init : Spmc
init = record { next_handle = 1; records = replicate max_shares empty_share }

-- `ShareInfoFull`, what a lookup returns.
pub record ShareInfo : Type 0 where
  pub sender_id : ℕ
  pub receiver_id : ℕ
  pub ranges : List Range
  pub range_count : ℕ
  pub total_page_count : ℕ
  pub is_lend : Bool
  pub retrieved : Bool

abbrev pub info : Share → ShareInfo
info r = record {
  sender_id = r.sender_id;
  receiver_id = r.receiver_id;
  ranges = r.ranges;
  range_count = r.range_count;
  total_page_count = r.total_page_count;
  is_lend = r.is_lend;
  retrieved = r.retrieved;
}

abbrev pub alloc_handle : Spmc → ℕ × Spmc
alloc_handle s = (s.next_handle, record s { next_handle = (s.next_handle + 1) % 2 ^ 64 })

-- The array of four ranges that a record stores: the first of `rs`, and `(0, 0)` behind them.
unfoldable pub stored_ranges : List Range → List Range
stored_ranges rs = take max_share_ranges (rs ++ no_ranges)

abbrev pub new_share : ℕ → ℕ → ℕ → List Range → ℕ → Bool → Share
new_share handle sender receiver ranges total lend = record {
  handle = handle;
  sender_id = sender;
  receiver_id = receiver;
  ranges = stored_ranges ranges;
  range_count = min (length ranges) max_share_ranges;
  total_page_count = total;
  active = true;
  is_lend = lend;
  retrieved = false;
}

abbrev pub put_records : Spmc → ℕ → List Share × Bool → Spmc × Option ℕ
put_records s handle (rs, b) = (record s { records = rs }, if b then some handle else none)

-- The first slot that is not active takes the record. The handle is used up also when there is
-- none.
unfoldable pub record_share : Spmc → ℕ → ℕ → List Range → ℕ → Bool → Spmc × Option ℕ
unfolding update_first
record_share s sender receiver ranges total lend =
    let (handle, s') = alloc_handle s in
    put_records s' handle (
      update_first (λ r. not r.active) (λ _. new_share handle sender receiver ranges total lend)
        s'.records)

abbrev pub holds : ℕ → Share → Bool
holds h r = r.active && r.handle == h

unfoldable pub find_share : ℕ → List Share → Option ShareInfo
find_share h [] = none
find_share h (r ∷ rs) = if holds h r then some (info r) else find_share h rs

-- `lookup_share_full`; `lookup_share` returns four of the fields.
unfoldable pub lookup_share_full : Spmc → ℕ → Option ShareInfo
unfolding find_share
lookup_share_full s h = find_share h s.records

abbrev pub with_records : Spmc → List Share × Bool → Spmc × Bool
with_records s (rs, b) = (record s { records = rs }, b)

unfoldable pub mark_retrieved : Spmc → ℕ → Spmc × Bool
unfolding update_first
mark_retrieved s h = with_records s (
    update_first (λ r. holds h r && not r.retrieved) (λ r. record r { retrieved = true }) s.records)

unfoldable pub mark_relinquished : Spmc → ℕ → Spmc × Bool
unfolding update_first
mark_relinquished s h =
    with_records s
      (update_first (λ r. holds h r && r.retrieved) (λ r. record r { retrieved = false }) s.records)

unfoldable pub reclaim_share : Spmc → ℕ → Spmc × Bool
unfolding update_first
reclaim_share s h =
    with_records s (update_first (holds h) (λ r. record r { active = false }) s.records)

-- The IDs of `STUB_PARTITIONS`.
abbrev pub sp_ids : List ℕ
sp_ids = 0x8001 ∷ 0x8002 ∷ []

unfoldable pub is_valid_sp : ℕ → Bool
is_valid_sp part = part == 0x8001 || part == 0x8002
