-- ===== src/Lib.antt =====
-- The agent on a vehicle that sends ROS data to a fleet server and executes the server's commands.
--
-- Uplink: the pipelines push encoded messages into a queue of four priorities; one thread takes
-- them out, within a bandwidth limit, and publishes them. What cannot be published, and what a full
-- queue pushes out, goes to a buffer on disk, which is sent again when the link is back.
--   Sampler: fta_agent/fta_agent/samplers, the decisions which messages are sent. Sampler/FieldPath
--     is core/field_path.py.
--   Pipeline: fta_agent/fta_agent/core/pipeline.py, between a subscription and the queue.
--   Queue: fta_agent/fta_agent/core/priority_queue.py. `enqueue` and `settle` are the two locked
--     blocks of `push`, `push_to` is both with the overflow handler between them.
--   Bucket: fta_agent/fta_agent/core/token_bucket.py.
--   Disk: fta_agent/fta_agent/core/disk_buffer.py. Disk/Frame is the record format, Disk/Drain the
--     resending.
--   Uplink: fta_agent/fta_agent/core/uplink_manager.py. `run_once` of Uplink/Rounds is one
--     round of `_run`.
--   Mqtt: fta_agent/fta_agent/transports/mqtt_transport.py. Mqtt/Setup is its constructor,
--     Mqtt/Acknowledged puts it under the uplink.
--   Governor: fta_agent/fta_agent/observability/resource_governor.py, which pauses bulk pipelines.
--   Disk/Log: the buffer as a list of records, which the files stand for.
--   Envelope: fta_agent/fta_agent/core/envelope.py and core/message_view.py.
--   Codecs: fta_agent/fta_agent/codecs.
-- Start: Agent is `main` and the constructor of fta_agent/fta_agent/agent_node.py, and the QoS of
--   core/subscription_manager.py; Agent/Start puts the parts together.
--   Config: fta_agent/fta_agent/config/loader.py. Config/Schema is CONFIG_SCHEMA of
--     config/schema.py, Config/Validator the meaning of its keywords.
--   Plugins: fta_agent/fta_agent/core/registry.py.
-- Downlink: the server sends a registry of interfaces, and commands for them.
--   Downlink/Registry: fta_agent/fta_agent/downlink/registry_sync.py. `on_registry` is
--     `_on_registry`.
--   Downlink/Command: fta_agent/fta_agent/downlink/command_executor.py. `serve` is one round of
--     `_run`; Checks has the methods that check a command and answer it, Methods the others, one
--     function for each.
--   RegistryTool: `validate` of fta_tools/fta_tools/registry_tool.py, the check before a registry is
--     published.
-- Observation: Telemetry is fta_agent/fta_agent/observability/self_telemetry.py, the report of the
--   parts' statistics; HostStatus is observability/host_status.py, what the report says of the host.
-- Around the agent: Receiver is fta_tools/fta_tools/test_receiver.py, GpsShim
--   fta_tools/fta_tools/gps_shim.py, Launch deploy/docker/launch/virtual_vehicle.launch.py.
-- Json has the values of `json.loads` with Python's comparisons, Message the classes of messages.
--
-- ROS, jsonschema, cbor2, zstandard, OpenCV, the JSON and YAML parsers and the MQTT client are
-- parameters. What the start relies on in jsonschema, that a document it accepts satisfies the
-- keywords of CONFIG_SCHEMA, is a hypothesis, and Agent/Examples has a check that meets it. Clock
-- readings are arguments. Numbers of JSON are counted in millionths, with the infinities and NaN of
-- Python's parser; times of the bucket are in microseconds and its tokens in millionths of a byte,
-- so that nothing is rounded. Two loops have fuel: `read_loop` has more than the bytes of the file,
-- of which each round takes four, and `shrink` more than the segments, of which each round deletes
-- one. The loop of `consume` runs over the clock readings of its rounds.
--
-- Not modelled: exceptions of the transport's `publish` in the uplink (paho raises
-- ValueError for a topic with a wildcard), errors of files, the log, the statistics' read-out, the threads' start and stop, a
-- drain during which another thread writes to the buffer, the pixels of pictures, the conversion of
-- messages to and from JSON (rosidl_runtime_py), and the command-line tools and test scripts.
pub mod Base
pub mod Queue
pub mod Json
pub mod Downlink
pub mod Message
pub mod Disk
pub mod Bucket
pub mod Uplink
pub mod Sampler
pub mod Governor
pub mod Pipeline
pub mod Mqtt
pub mod RegistryTool
pub mod Plugins
pub mod Config
pub mod Agent
pub mod Envelope
pub mod Telemetry
pub mod GpsShim
pub mod Codecs
pub mod Launch
pub mod HostStatus
pub mod Receiver
