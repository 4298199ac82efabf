-- ===== src/Mqtt/Examples.antt =====
-- A concrete run of the transport.
use scv_agent.Uplink.Delivery.{IsLogged}
use scv_agent.Queue.{critical}
use scv_agent.Mqtt.Acknowledged.{IsAcknowledged, critical_item_kept, mqtt_transport}
use scv_agent.Uplink.Rounds.{deliver}
use scv_agent.Disk.Examples.{payloads, two_files}
use scv_agent.Message.{event}
use scv_agent.Uplink.{Uplink, Item, init as start_uplink}
use scv_agent.Mqtt.Setup.{
  reconnect_delay_set, will_set, tls_set, username_pw_set, credentials, new_client,
  set_up-EncryptsAs, secure, Call, EncryptsAs, set_up, Options,
}
use scv_agent.Mqtt.Session.{
  answers, subscribes, connects, here, Reach-IsSubscribed, next, IsSubscribed, Reach,
}
use scv_agent.Mqtt.{is_connected, taken, Client, Mqtt, init, connect, subscribe, on_connect}
use scv_agent.Base.{
  arith, ◌⊎◌, ◌==◌, suc, ℕ, [], refl, none, ◌≡◌, ◌∷◌, some, str_eq, if◌then◌else◌, true, Option,
  List, String, false,
}

abbrev session : Mqtt
session = subscribe "fleet/r1/cmd/+" (on_connect false (subscribe "fleet/registry" (connect init)))

session-Reach : Reach ("fleet/registry" ∷ "fleet/r1/cmd/+" ∷ []) session
session-Reach =
    subscribes "fleet/r1/cmd/+"
      (next (subscribes "fleet/registry" (next here connects)) (answers false))

Reach-IsSubscribed_example : IsSubscribed ("fleet/registry" ∷ "fleet/r1/cmd/+" ∷ []) session
Reach-IsSubscribed_example = Reach-IsSubscribed session-Reach

abbrev own_ca : Options
own_ca = record {
  robot_id = "r01";
  client_id = "";
  tls = true;
  ca_certs = "/etc/ca.pem";
  certfile = "/etc/r01.pem";
  keyfile = "/etc/r01.key";
  tls_insecure = false;
}

abbrev with_user : String → Option String
with_user name = if str_eq name "FTA_MQTT_USERNAME" then some "r01" else none

abbrev own_ca_calls : List Call
own_ca_calls =
    new_client "fta-r01"
    ∷ username_pw_set "r01" none
    ∷ tls_set (some "/etc/ca.pem") (some "/etc/r01.pem") (some "/etc/r01.key")
    ∷ will_set "fleet/r01/sys/lwt" "r01"
    ∷ reconnect_delay_set 1 30
    ∷ []

paho_calls : set_up with_user own_ca ≡ some own_ca_calls
unfolding set_up secure credentials
paho_calls = refl

set_up-EncryptsAs_example : EncryptsAs own_ca own_ca_calls
set_up-EncryptsAs_example = set_up-EncryptsAs with_user own_ca {calls = own_ca_calls} paho_calls

-- A client that takes every publish and counts it, and of which the broker acknowledges the first.
abbrev one_ack : Client ℕ
one_ack = record {
  publish = λ m pipeline payload q n. (taken, suc n);
  wait = λ n. (true, n);
  is_published = λ n. n == 1;
}

abbrev alarm : Item
alarm = record { pipeline = "alarm"; msg_class = event; payload = 9 ∷ [] }

abbrev with_files : Uplink
with_files = start_uplink (some two_files) none 5000000

critical_item_kept_example :
    (u' : Uplink) × (s' : Mqtt) × (c' : ℕ) × (deliver payloads
        (mqtt_transport one_ack)
        true
        critical
        alarm
        0
        0
        []
        (with_files, (session, 1))
      ≡ some (u', (s', c')))
    × (((is_connected session.state ≡ true) × IsAcknowledged one_ack alarm 1 c')
        ⊎ IsLogged payloads critical alarm 0 with_files u')
unfolding start_uplink
critical_item_kept_example =
    critical_item_kept one_ack payloads true alarm 0 0 [] with_files session 1 refl
      (λ e. absurd (ground (arith, e))) (omega arith)
