-- ===== src/Disk.antt =====
-- fta_agent/fta_agent/core/disk_buffer.py, class DiskBuffer.
-- The two directories are lists of files: the segments in the order of their numbers, which is that
-- of their names (eight digits), and the latest states, each under its pipeline. The lock makes
-- `append_event`, `put_latest_state` and `close` one step each. `drain` is run with no other method
-- between its steps.
use scv_agent.Queue.{Priority}
use scv_agent.Disk.Frame.{pack, Cbor}
use scv_agent.Base.Dict.{string_keys, insert}
use scv_agent.Message.{MsgClass}
pub mod Frame
pub mod Capacity
pub mod Drain
pub mod Log
pub mod Examples
use scv_agent.Base.{
  leb, ltb, if◌then◌else◌, ◌==◌, ℕ, zero, suc, ◌+◌, ◌≡◌, Bool, true, false, Option, none, some,
  List, [], ◌∷◌, ◌++◌, length, String,
}

-- What a record of the buffer holds.
pub record Stored : Type 0 where
  pub pipeline : String
  pub msg_class : MsgClass
  pub priority : Priority
  pub time : ℕ
  pub payload : List ℕ

pub record Segment : Type 0 where
  pub number : ℕ
  pub bytes : List ℕ

pub record Stats : Type 0 where
  pub events_buffered : ℕ
  pub states_buffered : ℕ
  pub segments_dropped : ℕ
  pub drained : ℕ

pub record Disk : Type 0 where
  pub segments : List Segment
  pub latest : List (String × List ℕ)
  pub max_bytes : ℕ
  pub segment_max : ℕ
  -- `_current_path`: the number of the open segment
  pub current : Option ℕ
  -- `_seq`
  pub next : ℕ
  pub stats : Stats

-- The last number of a directory, plus one: `_seq` at the start.
abbrev pub next_number : List Segment → ℕ
next_number [] = 0
next_number (g ∷ []) = suc g.number
next_number (g ∷ h ∷ gs) = next_number (h ∷ gs)

-- `__init__` over directories that may hold files of an earlier run.
unfoldable pub open_dir : List Segment → List (String × List ℕ) → ℕ → ℕ → Disk
open_dir segments latest max_bytes segment_max = record {
  segments = segments;
  latest = latest;
  max_bytes = max_bytes;
  segment_max = segment_max;
  current = none;
  next = next_number segments;
  stats = record { events_buffered = 0; states_buffered = 0; segments_dropped = 0; drained = 0 };
}

abbrev pub bytes_of : List Segment → ℕ
bytes_of [] = 0
bytes_of (g ∷ gs) = length g.bytes + bytes_of gs

abbrev pub latest_bytes : List (String × List ℕ) → ℕ
latest_bytes [] = 0
latest_bytes ((n, b) ∷ m) = length b + latest_bytes m

-- `_total_bytes`
abbrev pub total_bytes : Disk → ℕ
total_bytes d = bytes_of d.segments + latest_bytes d.latest

abbrev pub is_current : Option ℕ → ℕ → Bool
is_current none n = false
is_current (some c) n = c == n

-- The `for` loop of `_ensure_capacity`, and `victim.unlink()`: the segments without the oldest that
-- is not open, or `none` if there is no such one.
unfoldable pub unlink_oldest : Option ℕ → List Segment → Option (List Segment)
unlink_oldest current [] = none
unlink_oldest current (g ∷ gs) =
    if is_current current g.number
    then elim (unlink_oldest current gs) [ none ↦ none | some rest ↦ some (g ∷ rest) ]
    else some gs

-- The `while` loop of `_ensure_capacity`; each round takes a segment away.
unfoldable pub shrink : ℕ → ℕ → Disk → Disk
shrink zero incoming d = d
shrink (suc fuel) incoming d =
    if ltb d.max_bytes (total_bytes d + incoming)
    then elim (unlink_oldest d.current d.segments) [
      | none ↦ d
      | some rest ↦ shrink fuel incoming (record d {
        segments = rest;
        stats = record (d.stats) { segments_dropped = suc d.stats.segments_dropped };
      })
    ]
    else d

unfoldable pub ensure_capacity : ℕ → Disk → Disk
ensure_capacity incoming d = shrink (suc (length d.segments)) incoming d

-- The bytes of a segment; `tell()` is their number.
abbrev pub size_of : ℕ → List Segment → ℕ
size_of n [] = 0
size_of n (g ∷ gs) = if g.number == n then length g.bytes else size_of n gs

-- `open(path, "ab")` of a new segment.
unfoldable pub new_segment : Disk → Disk
new_segment d = record d {
  segments = d.segments ++ record { number = d.next; bytes = [] } ∷ [];
  current = some d.next;
  next = suc d.next;
}

-- `_open_segment`; the segment that is written to is the current one of the result.
unfoldable pub open_segment : ℕ → Disk → Disk
open_segment incoming d = elim d.current [
  | none ↦ new_segment d
  | some n ↦ if leb (size_of n d.segments + incoming) d.segment_max then d else new_segment d
]

-- f.write(record) to the file of a number.
unfoldable pub write : ℕ → List ℕ → List Segment → List Segment
write n bytes [] = []
write n bytes (g ∷ gs) =
    if g.number == n then record g { bytes = g.bytes ++ bytes } ∷ gs else g ∷ write n bytes gs

abbrev pub write_current : List ℕ → Disk → Disk
write_current bytes d = elim d.current [
  | none ↦ d
  | some n ↦ record d { segments = write n bytes d.segments }
]

unfoldable pub append_bytes : List ℕ → Disk → Disk
append_bytes bytes d =
    let d' = write_current bytes (open_segment (length bytes) (ensure_capacity (length bytes) d)) in
    record d' { stats = record (d'.stats) { events_buffered = suc d'.stats.events_buffered } }

-- `write_bytes` to `<pipeline>.rec`: the file is replaced, or a new one is made.
unfoldable pub put_file : String → List ℕ → List (String × List ℕ) → List (String × List ℕ)
put_file name bytes m = insert name bytes m

unfoldable pub put_bytes : String → List ℕ → Disk → Disk
put_bytes pipeline bytes d = record d {
  latest = put_file pipeline bytes d.latest;
  stats = record (d.stats) { states_buffered = suc d.stats.states_buffered };
}

module _ (cbor : Cbor Stored) where
  -- `append_event`; `none` is the exception of `_pack`.
  unfoldable pub append_event : Stored → Disk → Option Disk
  append_event r d = elim (pack cbor r) [ none ↦ none | some bytes ↦ some (append_bytes bytes d) ]

  unfoldable pub put_latest_state : Stored → Disk → Option Disk
  put_latest_state r d = elim (pack cbor r) [
    | none ↦ none
    | some bytes ↦ some (put_bytes r.pipeline bytes d)
  ]

-- `pending`
unfoldable pub pending : Disk → ℕ × ℕ × ℕ
pending d = (length d.segments, length d.latest, total_bytes d)

-- `close`, and the first step of `drain`.
unfoldable pub close : Disk → Disk
close d = record d { current = none }
