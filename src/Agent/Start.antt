-- ===== src/Agent/Start.antt =====
-- fta_agent/fta_agent/agent_node.py: FtaAgent.__init__ as a whole, and main.
use scv_agent.Config.Schema.{whole}
use scv_agent.Agent.{
  create_services, snapshots, add_pipelines, listed, no_options, some, ensure, keywords, get_or,
  index, ◌>>=◌, ◌>>◌, fails, gives,
}
use scv_agent.Config.{Loaded, ConfigError, crash, config}
use scv_agent.Json.{truthy, key_of, text_key}
use scv_agent.Config.{load_config, Source, Known}
use scv_agent.Agent.{
  other_error, os_error, attribute_error, key_error, type_error, value_error, config_error, Qos,
  Part, Attempt, Failure, Platform,
}
use scv_agent.Base.{◌||◌, none, if◌then◌else◌, false, true, List, Bool, Option, String}
use scv_agent.Json.{has, Json}

-- `x if d else None`, for the parts that a document may leave out.
pub record Downlink : Type 0 where
  pub audit_log : Json
  pub command_timeout : Json

pub record Telemetry : Type 0 where
  pub interval : Json
  pub logging_topic : Json
  pub workspace_dir : Json

pub record Limits : Type 0 where
  pub cpu_limit : Json
  pub mem_limit : Json

pub record FtaAgent : Type 0 where
  pub robot_id : Json
  pub transport : Json
  pub queue_maxlen : Json
  -- The directory and the limit of the disk buffer.
  pub buffer : Option (Json × Json)
  pub bandwidth_limit : Json
  pub pipelines : List (Part × Qos)
  pub snapshot_services : List Json
  pub downlink : Option Downlink
  pub telemetry : Telemetry
  pub governor : Option Limits

-- k in d; a text is searched for `k`, and a list is, but `res_cfg` has answered `get` before.
abbrev pub has_key : String → Json → Bool
has_key k (Json.obj fs) = has k fs
has_key k _ = false

-- transport_cfg.get(ttype, {}): the keys of the document are texts.
unfoldable pub own_options : Json → Json → Attempt Json
own_options ttype transport_cfg = elim (key_of ttype) [
  | none ↦ fails type_error
  | some (text_key t) ↦ get_or t no_options transport_cfg
  | some k ↦ get_or "type" no_options transport_cfg >> gives no_options
]

unfoldable pub make_telemetry : Platform → Json → Attempt Telemetry
make_telemetry p agent_cfg = do
  tel_cfg ← get_or "telemetry" no_options agent_cfg
  interval ← get_or "interval_sec" (whole 10) tel_cfg
  logging_topic ← get_or "logging_topic" Json.null tel_cfg
  workspace_dir ← get_or "workspace_dir" Json.null tel_cfg
  ensure (p.start_telemetry interval logging_topic)
  gives
      (record { interval = interval; logging_topic = logging_topic; workspace_dir = workspace_dir })

unfoldable pub make_governor : Platform → Json → Attempt (Option Limits)
make_governor p agent_cfg = do
  res_cfg ← get_or "resource" no_options agent_cfg
  if has_key "cpu_limit_pct" res_cfg || has_key "mem_limit_mb" res_cfg
      then (get_or "cpu_limit_pct" (whole 20) res_cfg >>= λ cpu.
          get_or "mem_limit_mb" (whole 512) res_cfg >>= λ mem.
          (ensure (p.start_governor cpu mem)
            >> gives (some (record { cpu_limit = cpu; mem_limit = mem }))))
      else gives none

module _ (p : Platform) where
  unfoldable pub build_transport : Json → Json → Attempt Json
  build_transport robot_id transport_cfg = do
    ttype ← index "type" transport_cfg
    own ← own_options ttype transport_cfg
    options ← keywords own
    ensure (p.make_transport ttype robot_id options)
    gives ttype

  -- DiskBuffer(buffer_cfg["dir"], buffer_cfg.get("max_disk_mb", 2048))
  unfoldable pub open_disk : Json → Attempt (Json × Json)
  open_disk buffer_cfg = do
    dir ← index "dir" buffer_cfg
    max_disk ← get_or "max_disk_mb" (whole 2048) buffer_cfg
    ensure (p.open_buffer dir max_disk)
    gives (dir, max_disk)

  unfoldable pub make_buffer : Json → Attempt (Option (Json × Json))
  make_buffer agent_cfg = do
    buffer_cfg ← get_or "buffer" Json.null agent_cfg
    if truthy buffer_cfg then (open_disk buffer_cfg >>= λ b. gives (some b)) else gives none

  -- The audit log, and the time limit of the executor.
  unfoldable pub open_downlink : Json → Attempt Downlink
  open_downlink dl_cfg = do
    audit_log ← get_or "audit_log" (Json.text "fta_audit.jsonl") dl_cfg
    ensure (p.open_audit audit_log)
    timeout ← get_or "command_timeout_sec" (whole 10) dl_cfg
    gives (record { audit_log = audit_log; command_timeout = timeout })

  unfoldable pub make_downlink : Json → Attempt (Option Downlink)
  make_downlink cfg = do
    dl_cfg ← get_or "downlink" no_options cfg
    enabled ← get_or "enabled" (Json.boolean false) dl_cfg
    if truthy enabled then (open_downlink dl_cfg >>= λ d. gives (some d)) else gives none

  -- FtaAgent.__init__
  unfoldable pub assemble : Json → Attempt FtaAgent
  assemble cfg = do
    agent_cfg ← index "agent" cfg
    robot_id ← index "robot_id" agent_cfg
    transport_cfg ← index "transport" cfg
    transport ← build_transport robot_id transport_cfg
    queue_maxlen ← get_or "queue_maxlen_per_priority" (whole 256) agent_cfg
    buffer ← make_buffer agent_cfg
    resource ← get_or "resource" no_options agent_cfg
    bandwidth_limit ← get_or "bandwidth_limit_kbps" (whole 0) resource
    specs ← index "pipelines" cfg
    items ← listed specs
    pipelines ← add_pipelines p items
    create_services p (snapshots p pipelines)
    downlink ← make_downlink cfg
    telemetry ← make_telemetry p agent_cfg
    governor ← make_governor p agent_cfg
    gives (record {
      robot_id = robot_id;
      transport = transport;
      queue_maxlen = queue_maxlen;
      buffer = buffer;
      bandwidth_limit = bandwidth_limit;
      pipelines = pipelines;
      snapshot_services = snapshots p pipelines;
      downlink = downlink;
      telemetry = telemetry;
      governor = governor;
    })

-- The exceptions that `main` turns into an error message.
abbrev pub is_caught : Failure → Bool
is_caught config_error = true
is_caught value_error = true
is_caught type_error = true
is_caught key_error = false
is_caught attribute_error = false
is_caught os_error = false
is_caught other_error = false

-- How `main` goes on: the agent runs, it returns 1, or an exception leaves it.
pub data Main : Type 0 where
  runs : FtaAgent → Main
  returns_1 : Main
  crashes : Failure → Main

-- The first `except` of `main`; `crash` is no ConfigError.
abbrev pub load_failed : ConfigError → Main
load_failed crash = crashes other_error
load_failed e = returns_1

-- The second one.
abbrev pub started : Attempt FtaAgent → Main
started (gives agent) = runs agent
started (fails e) = if is_caught e then returns_1 else crashes e

unfoldable pub main : Platform → Known → Source → Main
main p known src = elim (load_config known src) [
  | config cfg ↦ started (assemble p cfg)
  | Loaded.fails e ↦ load_failed e
]
