-- ===== src/Downlink/Command.antt =====
-- fta_agent/fta_agent/downlink/command_executor.py, class CommandExecutor, with the records that
-- fta_agent/fta_agent/downlink/audit.py writes.
-- A method is a state action that returns or raises. The detail texts are data. ROS (message
-- conversion, publishers, service clients), `jsonschema.validate` and `json.loads` are parameters.
use scv_agent.Downlink.Registry.{Error, Sync}
pub mod Checks
pub mod Methods
pub mod Keeps
pub mod Chain
pub mod Passing
pub mod Execution
pub mod Handles
pub mod Effects
pub mod Window
pub mod Touches
pub mod Idempotence
pub mod Safety
pub mod Faults
pub mod Replies
pub mod Answered
pub mod Liveness
use scv_agent.Base.{String, ℕ, suc, Bool, true, false, Option, none, some, List, [], ◌∷◌, ◌++◌}
use scv_agent.Json.{Json, Fields, Key, Num}

-- The `status` of a reply.
pub data Status : Type 0 where
  rejected expired accepted done failed : Status

-- The `stage` of an audit record.
pub data Stage : Type 0 where
  received : Stage
  duplicate : Stage
  finished : Status → Stage

pub data Detail : Type 0 where
  nothing : Detail
  not_parsed : Detail
  missing_envelope : List String → Detail
  unregistered : Detail
  schema_violated : Detail
  invalid_ttl : Detail
  invalid_issued_at : Detail
  ttl_too_long : Detail
  ttl_over : Detail
  publish_failed : Detail
  published_once : Detail
  no_service : Detail
  service_timeout : Detail
  call_failed : Detail
  response : Json → Detail
  -- cached["detail"] + " (duplicate)"
  again : Detail → Detail
  -- f"기존 결과 재응답: {cached['status']}"
  answered_before : Status → Detail

pub record Result : Type 0 where
  pub status : Status
  pub detail : Detail

-- One call of `AuditLog.record`; the time stamp is left out.
pub record Audit : Type 0 where
  pub cmd_id : Option Json
  pub interface_id : Option Json
  pub issuer : Option Json
  pub stage : Stage
  pub detail : Detail

-- One message on `cmd_result`, and the name that it is published under.
pub record Reply : Type 0 where
  pub name : Json
  pub cmd_id : Option Json
  pub result : Result

-- What reaches ROS: a message published, or a service called, by the entry for which the publisher
-- or the client was made.
pub data Effect : Type 0 where
  publishes : Fields → Json → Effect
  calls : Fields → Json → Effect

-- A publisher or a client, and the entry whose type and target it was made with.
pub record Handle : Type 0 where
  pub number : ℕ
  pub made_for : Fields

pub record Executor : Type 0 where
  pub registry : Sync
  -- `_seen`, the oldest entry first, and `_seen_max`
  pub seen : List (Key × Result)
  pub seen_max : ℕ
  -- `_publishers` and `_clients`: (version, handle) by interface id
  pub publishers : List (Key × (Json × Handle))
  pub clients : List (Key × (Json × Handle))
  -- Whether `transport.publish` takes a reply; if not, it raises (a wildcard in the topic, a text
  -- that UTF-8 does not encode).
  pub takes : Reply → Bool
  -- What was written and sent so far, the newest first.
  pub audit : List Audit
  pub replies : List Reply
  pub effects : List Effect

pub data SchemaCheck : Type 0 where
  -- no exception; ValidationError; any other exception, such as SchemaError
  valid violated check_fails : SchemaCheck

pub data Call : Type 0 where
  replies_with : Json → Call
  times_out : Call
  call_raises : Call

-- The libraries and the robot, as one command meets them; `none` and `false` of the first five are
-- exceptions.
pub record World : Type 0 where
  -- Whether `issued_at + ttl`, or the elapsed time in the answer to an expired command, raises
  -- OverflowError: a whole number too large for a float. Of recv_time, issued_at and ttl.
  pub overflows : Num → Num → Num → Bool
  pub validate_schema : Json → Json → SchemaCheck
  pub make_message : Json → Json → Bool
  pub create_publisher : Fields → Option ℕ
  pub publish : ℕ → Json → Bool
  pub make_request : Json → Json → Bool
  pub create_client : Fields → Option ℕ
  pub wait_for_service : ℕ → Bool
  pub call : ℕ → Json → Call
  -- json.dumps(message_to_json(response)); `none` is an exception
  pub dump_response : Json → Option Json

-- How a method ends.
pub data Returns (A : Type 0) : Type 0 where
  returns : A → Returns A
  raises : Error → Returns A

abbrev pub M : Type 0 → Type 0
M A = Executor → Returns A × Executor

abbrev pub after : {A B : Type 0} → Returns A → (A → M B) → M B
after (returns a) f s = f a s
after (raises e) f s = (raises e, s)

infixl 5 ◌>>=◌ ◌>>◌
abbrev pub ◌>>=◌ : {A B : Type 0} → M A → (A → M B) → M B
◌>>=◌ m f s = let (r, s') = m s in after r f s'

abbrev pub ◌>>◌ : {B : Type 0} → M Unit → M B → M B
m >> k = m >>= λ _. k

abbrev pub pure : {A : Type 0} → A → M A
pure a s = (returns a, s)

abbrev pub throw : {A : Type 0} → Error → M A
throw e s = (raises e, s)
