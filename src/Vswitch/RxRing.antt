-- ===== src/Vswitch/RxRing.antt =====
-- src/vswitch.rs: `NetRxRing`. Producer and consumer run one after the other here.
use hypervisor.Prelude.{
  ℕ, ◌+◌, ◌%◌, Bool, true, false, ◌||◌, Option, none, some, List, [], ◌∷◌, length, get_or, set,
  take, replicate, min, ltb, ◌==◌, if◌then◌else◌,
}

abbrev pub max_frame_size : ℕ
max_frame_size = 1514

-- `NET_RX_RING_SIZE`.
abbrev pub ring_size : ℕ
ring_size = 9

-- A frame, as its bytes.
abbrev pub Frame : Type 0
Frame = List ℕ

pub record FrameSlot : Type 0 where
  pub buf : List ℕ
  pub len : ℕ

unfoldable pub empty_slot : FrameSlot
empty_slot = record { buf = replicate max_frame_size 0; len = 0 }

pub record NetRxRing : Type 0 where
  pub frames : List FrameSlot
  pub head : ℕ
  pub tail : ℕ

unfoldable pub new : NetRxRing
new = record { frames = replicate ring_size empty_slot; head = 0; tail = 0 }

-- `buf[..len].copy_from_slice(bytes)`: the bytes behind stay.
unfoldable pub copy_prefix : List ℕ → List ℕ → List ℕ
copy_prefix [] bs = bs
copy_prefix (x ∷ xs) [] = []
copy_prefix (x ∷ xs) (b ∷ bs) = x ∷ copy_prefix xs bs

abbrev pub filled : Frame → FrameSlot → FrameSlot
filled f s = record { buf = copy_prefix f s.buf; len = length f }

-- `store`.
unfoldable pub store_frame : NetRxRing → Frame → NetRxRing × Bool
unfolding copy_prefix
store_frame r f =
    let next = (r.tail + 1) % ring_size in
    if length f == 0 || ltb max_frame_size (length f)
    then (r, false)
    else (if next == r.head then (r, false) else (
      record r {
        frames = set r.frames r.tail (filled f (get_or r.frames r.tail empty_slot));
        tail = next;
      },
      true,
    ))

-- `take` into a buffer `out`; the result has the buffer too.
unfoldable pub take_frame : NetRxRing → List ℕ → NetRxRing × Option ℕ × List ℕ
unfolding copy_prefix
take_frame r out =
    let s = get_or r.frames r.head empty_slot in
    if r.head == r.tail then (r, none, out) else (
      record r { head = (r.head + 1) % ring_size },
      some s.len,
      copy_prefix (take (min s.len (length out)) s.buf) out,
    )

unfoldable pub is_empty : NetRxRing → Bool
is_empty r = r.head == r.tail
