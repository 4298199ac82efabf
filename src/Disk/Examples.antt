-- ===== src/Disk/Examples.antt =====
-- Concrete runs of the disk buffer.
use scv_agent.Disk.Log.Refines.{
  append_event-Appends, store_and_forward, EndsIn, Forwards, Appends, append_events,
}
use scv_agent.Disk.Log.{IsLog}
use scv_agent.Disk.Capacity.{ensure_capacity_fits, NoVictim}
use Prim.Native.Nat.{zero}
use scv_agent.Queue.{critical}
use scv_agent.Message.{event}
use scv_agent.Disk.Drain.Backlog.{drain_segments-Progress, Progress}
use scv_agent.Disk.Drain.{send_all, drain_segments, Publisher}
use scv_agent.Disk.{append_event, total_bytes, open_dir, Segment, Stored, ensure_capacity, Disk}
use scv_agent.Disk.Frame.{
  IsTorn, read_records_crash, unpack_len, read_loop, frames, pack_len, read_records, frame, Cbor,
}
use scv_agent.Base.{
  append-nil, sym, refl, ◌⊎◌, suc, arith, ◌≤◌, take, length, true, false, ◌+◌, ◌++◌, ◌<◌, none, [],
  ◌≡◌, Bool, some, ◌∷◌, Option, List, ℕ,
}

-- An encoding of numbers in one byte each.
abbrev read_number : List ℕ → Option ℕ
read_number (n ∷ []) = some n
read_number _ = none

abbrev numbers : Cbor ℕ
numbers = record { dumps = λ n. n ∷ []; loads = read_number }

five_bytes : 4 < length (frame numbers 9)
unfolding frame pack_len
five_bytes = omega arith

read_records_crash_example :
    read_records numbers (frames numbers (7 ∷ 8 ∷ []) ++ take 4 (frame numbers 9))
    ≡ some (7 ∷ 8 ∷ [])
read_records_crash_example =
    read_records_crash numbers (7 ∷ 8 ∷ []) 9 4 ((omega arith, refl), ((omega arith, refl), tt))
      (omega arith) five_bytes

-- Events of one pipeline, of which the payload alone is written.
abbrev pub fault : List ℕ → Stored
fault payload = record {
  pipeline = "fault";
  msg_class = event;
  priority = critical;
  time = 0;
  payload = payload;
}

abbrev pub payloads : Cbor Stored
payloads = record { dumps = λ r. r.payload; loads = λ bytes. some (fault bytes) }

abbrev pub two_segments : List Segment
two_segments =
    record { number = 0; bytes = frames payloads (fault (1 ∷ []) ∷ fault (2 ∷ []) ∷ []) }
    ∷ record { number = 1; bytes = frames payloads (fault (3 ∷ []) ∷ []) }
    ∷ []

abbrev pub two_files : Disk
two_files = open_dir two_segments [] 20 10

ensure_capacity_fits_example :
    let d' = ensure_capacity 6 two_files in (total_bytes d' + 6 ≤ d'.max_bytes) ⊎ NoVictim d'
ensure_capacity_fits_example = ensure_capacity_fits 6 two_files

-- A transport that takes over a number of records and then fails.
abbrev take_over : Stored → List Stored × ℕ → Bool × (List Stored × ℕ)
take_over r (taken, zero) = (false, (taken, zero))
take_over r (taken, suc n) = (true, (taken ++ r ∷ [], n))

taken_true :
    (r : Stored) (s : List Stored × ℕ)
    → (take_over r s).0 ≡ true
    → (take_over r s).1.0 ≡ s.0 ++ r ∷ []
taken_true r (taken, zero) h = absurd (ground arith)
taken_true r (taken, suc n) h = refl

taken_false :
    (r : Stored) (s : List Stored × ℕ) → (take_over r s).0 ≡ false → (take_over r s).1.0 ≡ s.0
taken_false r (taken, zero) h = refl
taken_false r (taken, suc n) h = absurd (ground arith)

abbrev failing : Publisher (List Stored × ℕ)
failing = record {
  publish = take_over;
  taken = λ s. s.0;
  publish_true = taken_true;
  publish_false = taken_false;
}

drain_segments-Progress_example :
    Progress payloads failing two_segments 0
      ([], 2)
      (drain_segments payloads take_over 0 two_segments ([], 2))
drain_segments-Progress_example = drain_segments-Progress payloads failing two_segments 0 ([], 2)

-- Two records go out, the third stops the drain, and its file is left.
drain_stops : (drain_segments payloads take_over 0 two_segments ([], 2)).complete ≡ false
unfolding drain_segments read_records read_loop unpack_len send_all frames frame pack_len
drain_stops = refl

nothing-IsTorn : IsTorn payloads []
unfolding unpack_len
nothing-IsTorn = tt

-- The two files hold whole records, and none is open.
two_files-IsLog : IsLog payloads two_files
unfolding open_dir
two_files-IsLog = record {
  chain = (omega arith, (omega arith, omega arith));
  readable = (
    record {
      records = fault (1 ∷ []) ∷ fault (2 ∷ []) ∷ [];
      torn = [];
      whole = ((omega arith, refl), ((omega arith, refl), tt));
      is_torn = nothing-IsTorn;
      holds = sym (append-nil _);
    },
    (
      record {
        records = fault (3 ∷ []) ∷ [];
        torn = [];
        whole = ((omega arith, refl), tt);
        is_torn = nothing-IsTorn;
        holds = sym (append-nil _);
      },
      tt,
    ),
  );
  opened = λ c e. absurd (ground (arith, e));
}

append_event-Appends_example :
    (d' : Disk) × (append_event payloads (fault (4 ∷ [])) two_files ≡ some d')
    × Appends payloads (fault (4 ∷ []) ∷ []) two_files d'
    × EndsIn payloads (fault (4 ∷ [])) d'
append_event-Appends_example =
    append_event-Appends payloads (fault (4 ∷ [])) two_files (omega arith, refl) two_files-IsLog

store_and_forward_example :
    (d' : Disk) × (append_events payloads (fault (4 ∷ []) ∷ fault (5 ∷ []) ∷ []) two_files
      ≡ some d')
    × Forwards payloads failing
        (fault (4 ∷ []) ∷ fault (5 ∷ []) ∷ [])
        two_files
        d'
        ([], 2)
        (drain_segments payloads take_over 0 d'.segments ([], 2))
store_and_forward_example =
    store_and_forward payloads failing (fault (4 ∷ []) ∷ fault (5 ∷ []) ∷ []) two_files ([], 2)
      ((omega arith, refl), ((omega arith, refl), tt)) two_files-IsLog
