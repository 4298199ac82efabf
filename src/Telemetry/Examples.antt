-- ===== src/Telemetry/Examples.antt =====
-- A run of the health report.
use scv_agent.HostStatus.{logging_status}
use scv_agent.Uplink.{init as start_uplink}
use scv_agent.Queue.{init as empty_queue}
use scv_agent.Mqtt.{disconnected}
use scv_agent.Base.{refl, false, ◌≡◌, true, none, [], ℕ}
use scv_agent.Telemetry.{
  logging_block, logging_entry, build_health, on_logging, publish, init, Parts,
}

abbrev idle : Parts ℕ
idle = record {
  conn_state = disconnected;
  pipelines = [];
  uplink = start_uplink none none 5;
  queue = empty_queue 10;
  registry = none;
}

-- A message that is no JSON: the call of the timer raises.
timer_raises : (publish idle 3000000 (on_logging none 1000000 (init {A = ℕ} true))).0 ≡ false
unfolding publish build_health logging_entry logging_block on_logging logging_status init
timer_raises = refl
