-- ===== src/Telemetry.antt =====
-- fta_agent/fta_agent/observability/self_telemetry.py, class SelfTelemetry.
-- The process' own load, the names of the pipelines and the clock of the report are left out of it;
-- `json.loads` of the logger's messages has happened before (`none` is its exception).
use scv_agent.Pipeline.{Stats as PipelineStats}
use scv_agent.Uplink.{Stats as UplinkStats}
use scv_agent.Downlink.Registry.{Report, snapshot, Sync}
use scv_agent.Disk.{pending}
use scv_agent.Queue.{Priority, qsize, Queue}
use scv_agent.Uplink.{Item, Uplink}
use scv_agent.HostStatus.{logging_status, no_cache, Cache, Recorded}
use scv_agent.Json.{Json}
use scv_agent.Pipeline.{Pipeline}
use scv_agent.Base.{
  true, ◌-◌, [], false, ◌∷◌, if◌then◌else◌, some, none, List, ℕ, Option, Bool, String,
}
use scv_agent.Mqtt.{ConnState}
pub mod Heartbeat
mod Examples

-- What the report is made of.
pub record Parts {ℓ} (B : Type ℓ) : Type ℓ where
  pub conn_state : ConnState
  pub pipelines : List (Pipeline B)
  pub uplink : Uplink
  pub queue : Queue Item
  pub registry : Option Sync

-- One pipeline of the report.
pub record PipelineHealth : Type 0 where
  pub name : String
  pub stats : PipelineStats
  pub paused : Bool

pub record Health {ℓ} (A : Type ℓ) : Type ℓ where
  pub conn_state : ConnState
  pub pipelines : List PipelineHealth
  pub uplink : UplinkStats
  pub queue_size : Priority → ℕ
  pub queue_dropped : Priority → ℕ
  pub queue_preserved : Priority → ℕ
  pub queue_conflated : Priority → ℕ
  pub buffer : Option (ℕ × ℕ × ℕ)
  pub downlink : Option Report
  pub host : Cache A
  pub logging : Option Recorded

pub record SelfTelemetry {ℓ} (A : Type ℓ) : Type ℓ where
  -- Whether `logging_topic` is set.
  pub logs : Bool
  -- The last message of the logger, and when it came.
  pub logging_msg : Option (Option Json × ℕ)
  pub cache : Cache A
  -- What was handed to the transport, and to the publisher of `/fta/health`, the newest first.
  pub sent : List (Health A)
  pub shown : List (Health A)

abbrev pub pipeline_health {κ} : {B : Type κ} → List (Pipeline B) → List PipelineHealth
pipeline_health [] = []
pipeline_health (p ∷ ps) =
    record { name = p.name; stats = p.stats; paused = p.paused } ∷ pipeline_health ps

module _ {ℓ} {A : Type ℓ} where
  unfoldable pub init : Bool → SelfTelemetry A
  init logs = record { logs = logs; logging_msg = none; cache = no_cache; sent = []; shown = [] }

  -- `_on_logging`
  unfoldable pub on_logging : Option Json → ℕ → SelfTelemetry A → SelfTelemetry A
  on_logging doc now t = record t { logging_msg = some (doc, now) }

  -- `_logging_block`; `none` is an exception.
  unfoldable pub logging_block : ℕ → SelfTelemetry A → Option Recorded
  logging_block now t = elim t.logging_msg [
    | none ↦ logging_status none 0
    | some (doc, at) ↦ logging_status (some doc) (now - at)
  ]

  -- The entry `logging`, if a topic is set.
  unfoldable pub logging_entry : ℕ → SelfTelemetry A → Option (Option Recorded)
  logging_entry now t =
      if t.logs
      then (elim (logging_block now t) [ none ↦ none | some r ↦ some (some r) ])
      else some none

  -- The dict of `build_health`, with its entry `logging`.
  abbrev pub report {κ} : {B : Type κ} → Parts B → Option Recorded → SelfTelemetry A → Health A
  report a entry t = record {
    conn_state = a.conn_state;
    pipelines = pipeline_health a.pipelines;
    uplink = a.uplink.stats;
    queue_size = qsize a.queue;
    queue_dropped = a.queue.dropped;
    queue_preserved = a.queue.preserved;
    queue_conflated = a.queue.conflated;
    buffer = elim a.uplink.buffer [ none ↦ none | some d ↦ some (pending d) ];
    downlink = elim a.registry [ none ↦ none | some r ↦ some (snapshot r) ];
    host = t.cache;
    logging = entry;
  }

  -- `build_health`; `none` is an exception.
  unfoldable pub build_health {κ} : {B : Type κ} → Parts B → ℕ → SelfTelemetry A → Option (Health A)
  build_health a now t = elim (logging_entry now t) [
    | none ↦ none
    | some entry ↦ some (report a entry t)
  ]

  -- `publish`, a call of the timer: whether it returned, and the state after it.
  unfoldable pub publish {κ} : {B : Type κ} → Parts B → ℕ → SelfTelemetry A → Bool × SelfTelemetry A
  publish a now t = elim (build_health a now t) [
    | none ↦ (false, t)
    | some health ↦ (true, record t { sent = health ∷ t.sent; shown = health ∷ t.shown })
  ]
