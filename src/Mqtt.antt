-- ===== src/Mqtt.antt =====
-- fta_agent/fta_agent/transports/mqtt_transport.py, class MqttTransport.
-- The paho client is a parameter of `publish`; its calls of the callbacks are steps. Mqtt/Setup
-- is the set-up of TLS and of the credentials.
use scv_agent.Message.{MsgClass}
pub mod Session
pub mod Setup
pub mod Acknowledged
mod Examples
use scv_agent.Uplink.{Reliability, at_least_once, at_most_once}
use scv_agent.Base.{
  none, some, Option, ◌∷◌, false, if◌then◌else◌, ◌++◌, true, String, Bool, [], List, ℕ,
}

-- transports/base.py
pub data ConnState : Type 0 where
  disconnected connecting connected : ConnState

pub record Mqtt : Type 0 where
  pub state : ConnState
  -- `_subscriptions`, in order
  pub subscriptions : List String
  -- The topics that the client was told to subscribe since the connection came up.
  pub requested : List String

unfoldable pub init : Mqtt
init = record { state = disconnected; subscriptions = []; requested = [] }

abbrev pub is_connected : ConnState → Bool
is_connected connected = true
is_connected connecting = false
is_connected disconnected = false

unfoldable pub connect : Mqtt → Mqtt
connect s = record s { state = connecting }

unfoldable pub subscribe : String → Mqtt → Mqtt
subscribe topic s =
    let s' = record s { subscriptions = s.subscriptions ++ topic ∷ [] } in
    if is_connected s.state then record s' { requested = s.requested ++ topic ∷ [] } else s'

-- `_on_connect`; the loop subscribes each topic.
unfoldable pub on_connect : Bool → Mqtt → Mqtt
on_connect is_failure s =
    if is_failure
    then record s { state = connecting }
    else record s { state = connected; requested = s.subscriptions }

unfoldable pub on_disconnect : Mqtt → Mqtt
on_disconnect s = record s { state = connecting }

unfoldable pub close : Mqtt → Mqtt
close s = record s { state = disconnected }

-- What `client.publish` does: `rc` is success, or not, or an exception: ValueError for a topic with
-- a wildcard or a payload that is too long.
pub data Taken : Type 0 where
  taken refused publish_raises : Taken

-- The client: what it answers to a publish, whether the wait for its acknowledgement ended without
-- an exception, and whether it was acknowledged.
pub record Client {ℓ} (C : Type ℓ) : Type ℓ where
  pub publish : MsgClass → String → List ℕ → ℕ → C → Taken × C
  pub wait : C → Bool × C
  pub is_published : C → Bool

abbrev pub qos : Reliability → ℕ
qos at_most_once = 0
qos at_least_once = 1

module _ {ℓ} {C : Type ℓ} (client : Client C) where
  -- After a publish that the client took: at least once waits for the acknowledgement.
  unfoldable pub await_ack : Reliability → C → Bool × C
  await_ack at_most_once c = (true, c)
  await_ack at_least_once c =
      let (waited, c') = client.wait c in
      if waited then (client.is_published c', c') else (false, c')

  -- `publish`; `none` is an exception.
  unfoldable pub publish : MsgClass → String → List ℕ → Reliability → Mqtt → C → Option Bool × C
  publish msg_class pipeline payload r s c =
      if is_connected s.state
      then (let (answer, c1) = client.publish msg_class pipeline payload (qos r) c in
          elim answer [
            | taken ↦ let (ok, c2) = await_ack r c1 in (some ok, c2)
            | refused ↦ (some false, c1)
            | publish_raises ↦ (none, c1)
          ])
      else (some false, c)
