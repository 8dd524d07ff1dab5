-- ===== src/Fdmap.antt =====
-- internal/fdmap/fdmap_unix.go: the descriptor table that the event loops share. A descriptor is the
-- 64-bit pattern that `uint(k)` reads, and a pointer is `none` or an address. Each atomic operation is
-- one step, so a compare-and-swap of a segment finds what was loaded before it.
pub mod Lookup
use uio.Prelude.{
  ℕ, ◌-◌, ◌/◌, ◌^◌, Bool, true, false, ◌&&◌, Option, none, some, ltb, leb, ◌==◌, min, if◌then◌else◌,
  bit_and,
}

abbrev pub max_open_files_ceiling : ℕ
max_open_files_ceiling = 2 ^ 20

abbrev pub segment_slots : ℕ
segment_slots = 2 ^ 15

abbrev pub max_segments : ℕ
max_segments = 32

-- `limit` is `RLIMIT_NOFILE` as a uint64.
unfoldable pub open_file_capacity : ℕ → ℕ
open_file_capacity limit =
    if ltb 0 limit && ltb limit max_open_files_ceiling then limit else max_open_files_ceiling

abbrev pub Pointer : Type 0
Pointer = Option ℕ

abbrev pub Segment : Type 0
Segment = ℕ → Pointer

pub record Table : Type 0 where
  pub segments : ℕ → Option Segment
  pub limit : ℕ

pub data TableError : Type 0 where
  out_of_range : TableError

abbrev pub empty_segment : Segment
empty_segment i = none

unfoldable pub new_map : ℕ → Table
new_map max_open_files = record {
  segments = λ s. none;
  limit = min max_open_files max_open_files_ceiling;
}

-- `k >> segmentShift` and `k & (segmentSlots - 1)`.
abbrev pub segment_of : ℕ → ℕ
segment_of k = k / segment_slots

abbrev pub slot_of : ℕ → ℕ
slot_of k = bit_and k (segment_slots - 1)

abbrev pub store : {A : Type 0} → (ℕ → A) → ℕ → A → ℕ → A
store f i x j = if i == j then x else f j

-- The segment that holds `k`, if `k` is in bounds and its segment is there.
unfoldable pub slot : Table → ℕ → Option Segment
slot m k = if leb m.limit k then none else m.segments (segment_of k)

-- The segment that `Put` stores into.
abbrev pub segment_or_new : Option Segment → Segment
segment_or_new none = empty_segment
segment_or_new (some seg) = seg

abbrev pub with_slot : Table → ℕ → Segment → Pointer → Table
with_slot m k seg v = record m {
  segments = store m.segments (segment_of k) (some (store seg (slot_of k) v));
}

unfoldable pub put : Table → ℕ → Pointer → Table × Option TableError
put m k v =
    if leb m.limit k
    then (m, some out_of_range)
    else (with_slot m k (segment_or_new (m.segments (segment_of k))) v, none)

abbrev pub load : Option Segment → ℕ → Pointer
load none k = none
load (some seg) k = seg (slot_of k)

unfoldable pub get : Table → ℕ → Pointer
unfolding slot
get m k = load (slot m k) k

abbrev pub delete_in : Table → ℕ → Option Segment → Table
delete_in m k none = m
delete_in m k (some seg) = with_slot m k seg none

unfoldable pub delete : Table → ℕ → Table
unfolding slot
delete m k = delete_in m k (slot m k)

abbrev pub same : Pointer → Pointer → Bool
same none none = true
same none (some b) = false
same (some a) none = false
same (some a) (some b) = a == b

abbrev pub delete_value_in : Table → ℕ → Pointer → Option Segment → Table
delete_value_in m k v none = m
delete_value_in m k v (some seg) = if same (seg (slot_of k)) v then with_slot m k seg none else m

unfoldable pub delete_value : Table → ℕ → Pointer → Table
unfolding slot
delete_value m k v = delete_value_in m k v (slot m k)

unfoldable pub clear : Table → Table
clear m = record m { segments = λ s. if ltb s max_segments then none else m.segments s }
