-- ===== src/Downlink/Command/Methods.antt =====
-- The execution of a command by CommandExecutor, and its loop.
use scv_agent.Downlink.Registry.{missing_fields, other_error, start, conversion_error}
use scv_agent.Base.Dict.{insert, lookup}
use scv_agent.Base.{Bool, length, ltb, if◌then◌else◌, ℕ, Option, none, some, List, [], ◌∷◌, ◌++◌}
use scv_agent.Json.{is_text, json_eq, json_keys, Json, Fields, Num}
use scv_agent.Downlink.Command.{
  Reply, Handle, call_raises, times_out, no_service, missing_envelope, call_failed, response,
  service_timeout, publish_failed, replies_with, nothing, failed, done, published_once, not_parsed,
  received, calls, accepted, publishes, raises, rejected, throw, pure, finished, returns, M,
  Executor, World, ◌>>=◌, ◌>>◌,
}
use scv_agent.Downlink.Command.Checks.{
  envelope_required, field_of, finish, hash, record_audit, validate,
}

module _ (w : World) where
  -- `_get_publisher` and `_get_client`: the cached handle while the version is the same.
  unfoldable pub cached_handle : Json → Option (Json × Handle) → Option Handle
  cached_handle version none = none
  cached_handle version (some (v, handle)) = if json_eq v version then some handle else none

  unfoldable pub get_publisher : Fields → M Handle
  get_publisher entry = do
    id ← field_of "interface_id" entry
    k ← hash id
    version ← field_of "version" entry
    λ s. elim (cached_handle version (lookup k s.publishers)) [
      | some handle ↦ (returns handle, s)
      | none ↦ elim (w.create_publisher entry) [
        | none ↦ (raises other_error, s)
        | some n ↦
            let handle : Handle = record { number = n; made_for = entry } in
            (returns handle, record s { publishers = insert k (version, handle) s.publishers })
      ]
    ]

  unfoldable pub get_client : Fields → M Handle
  get_client entry = do
    id ← field_of "interface_id" entry
    k ← hash id
    version ← field_of "version" entry
    λ s. elim (cached_handle version (lookup k s.clients)) [
      | some handle ↦ (returns handle, s)
      | none ↦ elim (w.create_client entry) [
        | none ↦ (raises other_error, s)
        | some n ↦
            let handle : Handle = record { number = n; made_for = entry } in
            (returns handle, record s { clients = insert k (version, handle) s.clients })
      ]
    ]

  -- `pub.publish(msg)`; an attempt counts as an effect.
  unfoldable pub send : Json → Handle → M (Unit {0})
  send payload handle s =
      let s' = record s { effects = publishes handle.made_for payload ∷ s.effects } in
      if w.publish handle.number payload then (returns tt, s') else (raises other_error, s')

  -- The `try` block of `_execute_topic`.
  unfoldable pub topic_attempt : Fields → Fields → M (Unit {0})
  topic_attempt env entry = do
    ros_type ← field_of "ros_type" entry
    payload ← field_of "payload" env
    if w.make_message ros_type payload
        then (get_publisher entry >>= λ handle. send payload handle)
        else throw conversion_error

  unfoldable pub execute_topic : Fields → Fields → M (Unit {0})
  execute_topic env entry s =
      let (r, s') = topic_attempt env entry s in
      elim r [
        | returns u ↦ finish env accepted published_once s'
        | raises e ↦ finish env failed publish_failed s'
      ]

  -- What `future.result()` gives; `none` after a time limit, answered already.
  unfoldable pub call_service : Fields → Json → Handle → M (Option Json)
  call_service env payload handle s =
      let s' = record s { effects = calls handle.made_for payload ∷ s.effects } in
      elim (w.call handle.number payload) [
        | replies_with r ↦ (returns (some r), s')
        | times_out ↦ (do finish env failed service_timeout; pure none) s'
        | call_raises ↦ (raises other_error, s')
      ]

  -- The `try` block of `_execute_service`; `none` if the command was answered inside it.
  unfoldable pub service_attempt : Fields → Fields → M (Option Json)
  service_attempt env entry = do
    ros_type ← field_of "ros_type" entry
    payload ← field_of "payload" env
    if w.make_request ros_type payload
        then (get_client entry >>= λ handle.
            if w.wait_for_service handle.number
            then call_service env payload handle
            else (do finish env failed no_service; pure none))
        else throw conversion_error

  -- The last line of `_execute_service`, outside the `try`.
  unfoldable pub answer_response : Fields → Option Json → M (Unit {0})
  answer_response env none = pure tt
  answer_response env (some r) = elim (w.dump_response r) [
    | none ↦ throw conversion_error
    | some j ↦ finish env done (response j)
  ]

  unfoldable pub execute_service : Fields → Fields → M (Unit {0})
  execute_service env entry s =
      let (r, s') = service_attempt env entry s in
      elim r [ returns r ↦ answer_response env r s' | raises e ↦ finish env failed call_failed s' ]

  unfoldable pub execute : Fields → Fields → M (Unit {0})
  execute env entry = do
    kind ← field_of "kind" entry
    if is_text "topic" kind then execute_topic env entry else execute_service env entry

  unfoldable pub execute_if : Fields → Option Fields → M (Unit {0})
  execute_if env none = pure tt
  execute_if env (some entry) = execute env entry

  -- `_handle` of an envelope that is a dict.
  unfoldable pub handle_envelope : Fields → Num → M (Unit {0})
  handle_envelope env now = do
    record_audit env received nothing
    elim (missing_fields envelope_required env) [
      | [] ↦ validate w env now >>= λ entry. execute_if env entry
      | f ∷ fs ↦ finish env rejected (missing_envelope (f ∷ fs))
    ]

  -- `_handle`, given what `json.loads` returned; `none` is an exception.
  unfoldable pub handle : Option Json → Num → M (Unit {0})
  handle (some (Json.obj env)) now = handle_envelope env now
  handle _ now = λ s. (
    returns tt,
    record s {
      audit =
          record {
            cmd_id = none;
            interface_id = none;
            issuer = none;
            stage = finished rejected;
            detail = not_parsed;
          }
          ∷ s.audit;
    },
  )

-- What `_run` handles: what the parser returned, when the command came, and how the robot acts.
pub record Command : Type 0 where
  pub doc : Option Json
  pub recv_time : Num
  pub world : World

-- The body of the loop of `_run`: an exception is logged and forgotten.
unfoldable pub serve : Command → Executor → Executor
serve c s = (handle c.world c.doc c.recv_time s).1

unfoldable pub serve_all : List Command → Executor → Executor
serve_all [] s = s
serve_all (c ∷ cs) s = serve_all cs (serve c s)

-- `_queue` holds 64 commands; `_on_command` drops a command that finds it full.
unfoldable pub on_command : Command → List Command → List Command
on_command c waiting = if ltb (length waiting) 64 then waiting ++ c ∷ [] else waiting

unfoldable pub init : ℕ → (Reply → Bool) → Executor
init seen_max takes = record {
  takes = takes;
  registry = start;
  seen = [];
  seen_max = seen_max;
  publishers = [];
  clients = [];
  audit = [];
  replies = [];
  effects = [];
}
