-- ===== src/Agent.antt =====
-- fta_agent/fta_agent/agent_node.py: FtaAgent.__init__ and main, with Pipeline.__init__ of
-- fta_agent/fta_agent/core/pipeline.py and make_qos of
-- fta_agent/fta_agent/core/subscription_manager.py.
-- A part is what its constructor is given. Whether the constructors raise, and what ROS knows of a
-- message type, is the parameter `Platform`. Logging and the threads are left out.
use scv_agent.Config.Schema.{whole}
pub mod Start
pub mod Sound
mod Examples
use mathlib.Core.Option.{none}
use scv_agent.Base.Int.{pos}
use scv_agent.Downlink.Registry.{not_found, loaded, Load}
use scv_agent.Json.{is_text, truthy, key_of, fin, get, Items, Fields, Json}
use scv_agent.Base.{
  false, ◌∷◌, ◌*◌, true, str_eq, some, [], if◌then◌else◌, List, Bool, Option, ℕ, String,
}

-- What an exception that leaves the constructor is.
pub data Failure : Type 0 where
  config_error value_error type_error key_error attribute_error os_error other_error : Failure

pub data Attempt {ℓ} (A : Type ℓ) : Type ℓ where
  gives : A → Attempt A
  fails : Failure → Attempt A

infixl 5 ◌>>=◌ ◌>>◌
abbrev pub ◌>>=◌ {ℓ κ} : {A : Type ℓ} {B : Type κ} → Attempt A → (A → Attempt B) → Attempt B
gives a >>= f = f a
fails e >>= f = fails e

abbrev pub ◌>>◌ {ℓ κ} : {A : Type ℓ} {B : Type κ} → Attempt A → Attempt B → Attempt B
m >> k = m >>= λ _. k

-- d[k], for a text k
unfoldable pub index : String → Json → Attempt Json
index k (Json.obj fs) = elim (get k fs) [ none ↦ fails key_error | some v ↦ gives v ]
index k _ = fails type_error

-- d.get(k, default)
unfoldable pub get_or : String → Json → Json → Attempt Json
get_or k default (Json.obj fs) = elim (get k fs) [ none ↦ gives default | some v ↦ gives v ]
get_or k default _ = fails attribute_error

abbrev pub no_options : Json
no_options = Json.obj Fields.end

-- {k: v for k, v in d.items() if k != "type"}
abbrev pub without_type : Fields → Fields
without_type Fields.end = Fields.end
without_type (Fields.field k v fs) =
    if str_eq k "type" then without_type fs else Fields.field k v (without_type fs)

unfoldable pub options_of : Json → Attempt Fields
options_of (Json.obj fs) = gives (without_type fs)
options_of _ = fails attribute_error

-- `**d` in a call
unfoldable pub keywords : Json → Attempt Fields
keywords (Json.obj fs) = gives fs
keywords _ = fails type_error

pub record Platform : Type 0 where
  -- The constructors: `none` if they return.
  pub make_transport : Json → Json → Fields → Option Failure
  pub open_buffer : Json → Json → Option Failure
  pub get_message : Json → Load
  pub make_sampler : Json → Fields → Option Failure
  pub make_codec : Json → Fields → Option Failure
  pub create_subscription : Json → Option Failure
  -- QoSProfile, of a depth.
  pub make_profile : Json → Option Failure
  -- create_service of a snapshot, by the name of the pipeline.
  pub create_snapshot : Json → Option Failure
  -- SelfTelemetry, of its interval and its topic: the publisher, the subscription and the timer.
  pub start_telemetry : Json → Json → Option Failure
  -- ResourceGovernor: its timer.
  pub start_governor : Json → Json → Option Failure
  -- hasattr(sampler, "request")
  pub has_request : Json → Bool
  pub open_audit : Json → Option Failure

abbrev pub ensure : Option Failure → Attempt (Unit {0})
ensure none = gives tt
ensure (some e) = fails e

pub record Qos : Type 0 where
  pub reliable : Bool
  pub transient_local : Bool
  pub depth : Json

-- _RELIABILITY[v] and _DURABILITY[v]; a value without a hash raises TypeError.
unfoldable pub policy : String → String → Json → Attempt Bool
policy off on v = elim (key_of v) [
  | none ↦ fails type_error
  | some k ↦
      if is_text off v then gives false else if is_text on v then gives true else fails key_error
]

-- `make_qos`; `qos_spec or {}` comes first.
unfoldable pub make_qos : Platform → Json → Attempt Qos
make_qos p qos_spec =
    let spec = if truthy qos_spec then qos_spec else no_options in
    do
      r ← get_or "reliability" (Json.text "best_effort") spec
      reliable ← policy "best_effort" "reliable" r
      d ← get_or "durability" (Json.text "volatile") spec
      transient_local ← policy "volatile" "transient_local" d
      depth ← get_or "depth" (whole 5) spec
      ensure (p.make_profile depth)
      gives (record { reliable = reliable; transient_local = transient_local; depth = depth })

-- What a pipeline is made of.
pub record Part : Type 0 where
  pub name : Json
  pub topic : Json
  pub msg_type : Json
  pub priority : Json
  pub msg_class : Json
  pub sampler : Json
  pub codec : Json

module _ (p : Platform) where
  -- Pipeline.__init__
  unfoldable pub make_pipeline : Json → Attempt Part
  make_pipeline spec = do
    name ← index "name" spec
    topic ← index "topic" spec
    msg_type ← index "msg_type" spec
    priority ← index "priority" spec
    msg_class ← get_or "msg_class" (Json.text "state") spec
    s ← index "sampler" spec
    sampler ← index "type" s
    sampler_options ← options_of s
    ensure (p.make_sampler sampler sampler_options)
    c ← index "codec" spec
    codec ← index "type" c
    codec_options ← options_of c
    ensure (p.make_codec codec codec_options)
    gives (record {
      name = name;
      topic = topic;
      msg_type = msg_type;
      priority = priority;
      msg_class = msg_class;
      sampler = sampler;
      codec = codec;
    })

  -- `get_message` with its `try`.
  abbrev pub load_message : Json → Attempt (Unit {0})
  load_message msg_type = elim (p.get_message msg_type) [
    | loaded ↦ gives tt
    | not_found ↦ fails config_error
    | Load.fails ↦ fails other_error
  ]

  -- The body of the loop, for a pipeline that is enabled, with the subscription.
  unfoldable pub add_pipeline : Json → Attempt (Part × Qos)
  add_pipeline spec = do
    msg_type ← index "msg_type" spec
    load_message msg_type
    part ← make_pipeline spec
    qos_spec ← get_or "qos" Json.null spec
    qos ← make_qos p qos_spec
    ensure (p.create_subscription part.topic)
    gives (part, qos)

  -- The loop over cfg["pipelines"].
  unfoldable pub add_pipelines : Items → Attempt (List (Part × Qos))
  add_pipelines Items.nil = gives []
  add_pipelines (Items.cons spec specs) =
      let rest = add_pipelines specs in
      get_or "enabled" (Json.boolean true) spec >>= λ enabled.
      if truthy enabled
      then (add_pipeline spec >>= λ part. rest >>= λ parts. gives (part ∷ parts))
      else rest

  -- The names of the snapshot services.
  abbrev pub snapshots : List (Part × Qos) → List Json
  snapshots [] = []
  snapshots ((part, qos) ∷ parts) =
      if p.has_request part.sampler then part.name ∷ snapshots parts else snapshots parts

module _ (p : Platform) where
  unfoldable pub create_services : List Json → Attempt (Unit {0})
  create_services [] = gives tt
  create_services (n ∷ ns) = ensure (p.create_snapshot n) >> create_services ns

-- Iteration over a value: a dict or a text gives texts, which have no `get`.
abbrev pub listed : Json → Attempt Items
listed (Json.arr xs) = gives xs
listed (Json.obj Fields.end) = gives Items.nil
listed (Json.obj (Fields.field k v fs)) = fails attribute_error
listed (Json.text s) = if str_eq s "" then gives Items.nil else fails attribute_error
listed Json.null = fails type_error
listed (Json.boolean b) = fails type_error
listed (Json.num n) = fails type_error
