-- ===== src/Uplink.antt =====
-- fta_agent/fta_agent/core/uplink_manager.py, class UplinkManager.
-- The transport is a parameter with a state of its own. The clock readings of one round of `_run`
-- are arguments of it. An exception ends the uplink thread, since `_run` catches none: `none`.
use scv_agent.Bucket.{Bucket, Round, consume}
use scv_agent.Disk.{Disk, Stored, append_event, put_latest_state}
use scv_agent.Disk.Frame.{Cbor}
use scv_agent.Message.{state, event, MsgClass}
use scv_agent.Queue.{low, normal, high, critical, Priority, Queue, Handler}
use scv_agent.Base.{
  ◌&&◌, length, none, some, ◌==◌, if◌then◌else◌, suc, true, false, ℕ, String, Option, Bool, List,
}
pub mod Rounds
pub mod Delivery
pub mod Overflow
mod Examples

-- transports/base.py
pub data Reliability : Type 0 where
  at_most_once at_least_once : Reliability

-- _RELIABILITY_BY_PRIORITY
abbrev pub reliability_of : Priority → Reliability
reliability_of critical = at_least_once
reliability_of high = at_most_once
reliability_of normal = at_most_once
reliability_of low = at_most_once

-- What the uplink reads of a pipeline, and the bytes of one message of it.
pub record Item : Type 0 where
  pub pipeline : String
  pub msg_class : MsgClass
  pub payload : List ℕ

pub record Stats : Type 0 where
  pub published : ℕ
  pub publish_failed : ℕ
  pub buffered_event : ℕ
  pub buffered_state : ℕ
  pub dropped_bulk : ℕ
  pub drained : ℕ
  pub overflow_buffered : ℕ

pub record Uplink : Type 0 where
  pub buffer : Option Disk
  pub bucket : Option Bucket
  pub drain_retry : ℕ
  pub stats : Stats
  pub was_connected : Bool
  pub last_drain : ℕ

-- ITransport, as far as the uplink calls it.
pub record Transport {ℓ} (T : Type ℓ) : Type ℓ where
  pub connected : T → Bool
  pub publish : MsgClass → String → List ℕ → Reliability → T → Bool × T

abbrev no_stats : Stats
no_stats = record {
  published = 0;
  publish_failed = 0;
  buffered_event = 0;
  buffered_state = 0;
  dropped_bulk = 0;
  drained = 0;
  overflow_buffered = 0;
}

-- `__init__`; a limit of 0 makes no bucket.
unfoldable pub init : Option Disk → Option Bucket → ℕ → Uplink
init buffer bucket drain_retry = record {
  buffer = buffer;
  bucket = bucket;
  drain_retry = drain_retry;
  stats = no_stats;
  was_connected = false;
  last_drain = 0;
}

-- The record of an item, at a time of the wall clock.
abbrev pub stored : Priority → Item → ℕ → Stored
stored p i time = record {
  pipeline = i.pipeline;
  msg_class = i.msg_class;
  priority = p;
  time = time;
  payload = i.payload;
}

-- priority == "critical" or pipeline.msg_class == "event"
abbrev pub is_kept : Priority → MsgClass → Bool
is_kept critical c = true
is_kept p event = true
is_kept p c = false

abbrev pub is_state : MsgClass → Bool
is_state state = true
is_state c = false

abbrev pub count_published : Stats → Stats
count_published s = record s { published = suc s.published }

abbrev pub count_event : Stats → Stats
count_event s = record s { buffered_event = suc s.buffered_event }

abbrev pub count_state : Stats → Stats
count_state s = record s { buffered_state = suc s.buffered_state }

abbrev pub count_dropped : Stats → Stats
count_dropped s = record s { dropped_bulk = suc s.dropped_bulk }

abbrev pub count_overflow : Stats → Stats
count_overflow s = record s { overflow_buffered = suc s.overflow_buffered }

module _ (cbor : Cbor Stored) where
  abbrev pub append : Priority → Item → ℕ → Disk → Uplink → Option Uplink
  append p i time d u = elim (append_event cbor (stored p i time) d) [
    | none ↦ none
    | some d' ↦ some (record u { buffer = some d'; stats = count_event u.stats })
  ]

  abbrev pub put_state : Priority → Item → ℕ → Disk → Uplink → Option Uplink
  put_state p i time d u = elim (put_latest_state cbor (stored p i time) d) [
    | none ↦ none
    | some d' ↦ some (record u { buffer = some d'; stats = count_state u.stats })
  ]

  -- `_on_overflow`, the handler that the constructor gives to the queue.
  unfoldable pub on_overflow : ℕ → Handler Item Uplink
  on_overflow time p i u = elim u.buffer [
    | none ↦ (some false, u)
    | some d ↦
        if is_kept p i.msg_class
        then (elim (append p i time d u) [
          | none ↦ (none, u)
          | some u' ↦ (some true, record u' { stats = count_overflow u'.stats })
        ])
        else (some false, u)
  ]

  -- `_route_offline`
  unfoldable pub route_offline : Priority → Item → ℕ → Uplink → Option Uplink
  route_offline p i time u = elim u.buffer [
    | none ↦ some (record u { stats = count_dropped u.stats })
    | some d ↦
        if is_kept p i.msg_class
        then append p i time d u
        else if is_state i.msg_class
        then put_state p i time d u
        else some (record u { stats = count_dropped u.stats })
  ]

-- Where a transport is asked to publish a record of the buffer: `_publish_record`.
unfoldable pub publish_record {ℓ} : {T : Type ℓ} → Transport T → Stored → T → Bool × T
publish_record transport r t =
    if transport.connected t
    then transport.publish r.msg_class r.pipeline r.payload (reliability_of r.priority) t
    else (false, t)

abbrev pub none_pending : ℕ × ℕ × ℕ → Bool
none_pending (segments, states, bytes) = segments == 0 && states == 0

abbrev pub is_critical : Priority → Bool
is_critical critical = true
is_critical p = false

-- Whether the bandwidth limit lets an item pass, and the uplink with the bucket after it.
unfoldable pub admit_item : Priority → Item → ℕ → List Round → Uplink → Bool × Uplink
admit_item p i deadline rounds u = elim u.bucket [
  | none ↦ (true, u)
  | some b ↦
      let (ok, b') = consume (length i.payload) deadline rounds b in
      if is_critical p then (true, u) else (ok, record u { bucket = some b' })
]
