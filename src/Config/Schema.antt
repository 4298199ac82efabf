-- ===== src/Config/Schema.antt =====
-- fta_agent/fta_agent/config/schema.py, CONFIG_SCHEMA, as the JSON document that it is.
use scv_agent.Base.{some, [], false, ◌*◌, ◌∷◌, String, ℕ, List}
use scv_agent.Base.Int.{pos}
use scv_agent.Json.{get, Json, Items, Fields, fin}

abbrev pub fields_of : List (String × Json) → Fields
fields_of [] = Fields.end
fields_of ((k, v) ∷ kvs) = Fields.field k v (fields_of kvs)

abbrev pub object : List (String × Json) → Json
object kvs = Json.obj (fields_of kvs)

abbrev pub texts : List String → Items
texts [] = Items.nil
texts (s ∷ ss) = Items.cons (Json.text s) (texts ss)

-- A whole number.
abbrev pub whole : ℕ → Json
whole n = Json.num (fin (pos (n * 1000000)))

abbrev typed : String → List (String × Json) → Json
typed t kvs = object (("type", Json.text t) ∷ kvs)

abbrev closed : String × Json
closed = ("additionalProperties", Json.boolean false)

abbrev required : List String → String × Json
required names = ("required", Json.arr (texts names))

abbrev properties : List (String × Json) → String × Json
properties kvs = ("properties", object kvs)

abbrev positive : Json
positive = typed "number" (("exclusiveMinimum", whole 0) ∷ [])

abbrev filled : Json
filled = typed "string" (("minLength", whole 1) ∷ [])

abbrev counting : Json
counting = typed "integer" (("minimum", whole 1) ∷ [])

abbrev matching : String → Json
matching pattern = typed "string" (("pattern", Json.text pattern) ∷ [])

abbrev pub one_of : List String → Json
one_of names = typed "string" (("enum", Json.arr (texts names)) ∷ [])

abbrev pub downlink_schema : Json
downlink_schema = typed "object" (
    closed
    ∷ properties (
        ("enabled", typed "boolean" [])
        ∷ ("command_timeout_sec", positive)
        ∷ ("audit_log", filled)
        ∷ [])
    ∷ [])

abbrev pub buffer_schema : Json
buffer_schema = typed "object" (
    required ("dir" ∷ [])
    ∷ closed
    ∷ properties (("dir", filled) ∷ ("max_disk_mb", counting) ∷ [])
    ∷ [])

abbrev pub resource_schema : Json
resource_schema = typed "object" (
    closed
    ∷ properties (
        ("bandwidth_limit_kbps", positive)
        ∷ ("cpu_limit_pct", positive)
        ∷ ("mem_limit_mb", positive)
        ∷ [])
    ∷ [])

abbrev pub telemetry_schema : Json
telemetry_schema = typed "object" (
    closed
    ∷ properties (
        ("interval_sec", positive)
        ∷ ("logging_topic", matching "^/")
        ∷ ("workspace_dir", filled)
        ∷ [])
    ∷ [])

abbrev pub agent_schema : Json
agent_schema = typed "object" (
    required ("robot_id" ∷ [])
    ∷ closed
    ∷ properties (
        ("robot_id", filled)
        ∷ ("queue_maxlen_per_priority", counting)
        ∷ ("buffer", buffer_schema)
        ∷ ("resource", resource_schema)
        ∷ ("telemetry", telemetry_schema)
        ∷ [])
    ∷ [])

-- The schema of `transport`, and those of a sampler and of a codec.
abbrev pub choice_schema : Json
choice_schema =
    typed "object" (required ("type" ∷ []) ∷ properties (("type", typed "string" []) ∷ []) ∷ [])

abbrev pub qos_schema : Json
qos_schema = typed "object" (
    closed
    ∷ properties (
        ("reliability", one_of ("best_effort" ∷ "reliable" ∷ []))
        ∷ ("durability", one_of ("volatile" ∷ "transient_local" ∷ []))
        ∷ ("depth", counting)
        ∷ [])
    ∷ [])

abbrev pub pipeline_schema : Json
pipeline_schema = typed "object" (
    required ("name" ∷ "topic" ∷ "msg_type" ∷ "sampler" ∷ "codec" ∷ "priority" ∷ [])
    ∷ closed
    ∷ properties (
        ("name", matching "^[a-zA-Z0-9_]+$")
        ∷ ("topic", matching "^/")
        ∷ ("msg_type", matching "^[a-zA-Z0-9_]+/msg/[a-zA-Z0-9_]+$")
        ∷ ("sampler", choice_schema)
        ∷ ("codec", choice_schema)
        ∷ ("priority", one_of ("critical" ∷ "high" ∷ "normal" ∷ "low" ∷ []))
        ∷ ("msg_class", one_of ("state" ∷ "event" ∷ "bulk" ∷ []))
        ∷ ("enabled", typed "boolean" [])
        ∷ ("qos", qos_schema)
        ∷ [])
    ∷ [])

abbrev pub pipelines_schema : Json
pipelines_schema = typed "array" (("minItems", whole 1) ∷ ("items", pipeline_schema) ∷ [])

-- CONFIG_SCHEMA
abbrev pub config_schema : Json
config_schema = typed "object" (
    required ("agent" ∷ "transport" ∷ "pipelines" ∷ [])
    ∷ closed
    ∷ properties (
        ("downlink", downlink_schema)
        ∷ ("agent", agent_schema)
        ∷ ("transport", choice_schema)
        ∷ ("pipelines", pipelines_schema)
        ∷ [])
    ∷ [])

-- The schemas of the properties of an object schema.
abbrev pub properties_of : Json → Fields
properties_of (Json.obj ks) = elim (get "properties" ks) [
  | some (Json.obj ps) ↦ ps
  | _ ↦ Fields.end
]
properties_of _ = Fields.end
