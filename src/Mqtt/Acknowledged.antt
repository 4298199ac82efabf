-- ===== src/Mqtt/Acknowledged.antt =====
-- The uplink over MQTT: what `publish` of the transport means for the items of a round.
use scv_agent.Uplink.Delivery.{deliver-Fate, IsLogged}
use scv_agent.Uplink.Rounds.{deliver}
use scv_agent.Queue.{critical}
use scv_agent.Bucket.{Round}
use scv_agent.Base.{
  refl, Bool-cases, ◌≢◌, false, none, Option, arith, inr, inl, ◌⊎◌, some, true, ◌≡◌, ℕ, List, Bool,
}
use scv_agent.Disk.{Disk, Stored}
use scv_agent.Disk.Frame.{Fits, Cbor}
use scv_agent.Uplink.{Uplink, at_least_once, Item, stored, Transport}
use scv_agent.Mqtt.{
  refused, publish_raises, Taken, await_ack, taken, is_connected, Mqtt, publish, Client,
}

-- The transport that agent_node.py gives to UplinkManager. Its answers are those of `publish` where
-- the client raises nothing; the uplink's model has no exception of a publish.
unfoldable pub mqtt_transport {ℓ} : {C : Type ℓ} → Client C → Transport (Mqtt × C)
mqtt_transport client = record {
  connected = λ t. is_connected t.0.state;
  publish = λ msg_class pipeline payload r t.
      let (answer, c) = publish client msg_class pipeline payload r t.0 t.1 in
      (elim answer [ none ↦ false | some ok ↦ ok ], (t.0, c));
}

module _ {ℓ} {C : Type ℓ} (client : Client C) where
  -- The client took the item, with its class, pipeline and bytes, at least once, and the broker
  -- acknowledged this publish.
  pub record IsAcknowledged (i : Item) (c c' : C) : Type ℓ where
    pub between : C
    pub published : client.publish i.msg_class i.pipeline i.payload 1 c ≡ (taken, between)
    pub waited : client.wait between ≡ (true, c')
    pub acknowledged : client.is_published c' ≡ true

  publish-true :
      (i : Item) (s s' : Mqtt) (c c' : C)
      → (mqtt_transport client).publish i.msg_class i.pipeline i.payload at_least_once (s, c)
        ≡ (true, (s', c'))
      → (is_connected s.state ≡ true) × IsAcknowledged i c c'
  unfolding mqtt_transport publish await_ack
  publish-true i s s' c c' h = elim (Bool-cases (is_connected s.state)) [
    | inr off ↦ absurd (ground (arith, h, off))
    | inl on ↦ (on, go on (client.publish i.msg_class i.pipeline i.payload 1 c) refl)
  ]
    where
      go :
          is_connected s.state ≡ true
          → (x : Taken × C) → client.publish i.msg_class i.pipeline i.payload 1 c ≡ x
          → IsAcknowledged i c c'
      go on (refused, c1) e = absurd (ground (arith, h, on, e))
      go on (publish_raises, c1) e = absurd (ground (arith, h, on, e))
      go on (taken, c1) e = record {
        between = c1;
        published = e;
        waited = ground (arith, h, on, e);
        acknowledged = ground (arith, h, on, e);
      }

  never_dropped :
      {b : Option Disk} {d : Disk} {x : Bool}
      → b ≡ some d
      → (b ≡ none) ⊎ ((true ≡ false) × (x ≡ false))
      → ⊥
  never_dropped h (inl e) = ground (arith, h, e)
  never_dropped h (inr (e, f)) = ground (arith, e)

  module _ (cbor : Cbor Stored) where
    -- With a disk buffer, a critical item of a round over MQTT whose record can be packed does not
    -- get lost, if the client's publish of it raises nothing: the client took it and the broker
    -- acknowledged this publish, over a connection that was up, or it stands at the end of the event
    -- log.
    pub critical_item_kept :
        (connected : Bool) (i : Item) (time deadline : ℕ) (rounds : List Round) (u : Uplink)
        {d : Disk} (s : Mqtt) (c : C)
        → u.buffer ≡ some d
        → (client.publish i.msg_class i.pipeline i.payload 1 c).0 ≢ publish_raises
        → Fits cbor (stored critical i time)
        → (u' : Uplink) × (s' : Mqtt) × (c' : C) × (deliver cbor
              (mqtt_transport client)
              connected
              critical
              i
              time
              deadline
              rounds
              (u, (s, c))
            ≡ some (u', (s', c')))
          × (((is_connected s.state ≡ true) × IsAcknowledged i c c')
              ⊎ IsLogged cbor critical i time u u')
    critical_item_kept connected i time deadline rounds u {d} s c h quiet f =
        let (u', (s', c'), e, fate) =
          deliver-Fate cbor (mqtt_transport client) connected critical i time deadline rounds u
            (s, c) f in
        (
          u',
          s',
          c',
          e,
          elim fate [
            | inl p ↦ inl (publish-true i s s' c c' p.0)
            | inr (inl logged) ↦ inr logged
            | inr (inr (inl saved)) ↦ absurd (ground (arith, saved.not_kept))
            | inr (inr (inr dropped)) ↦ absurd (never_dropped h dropped.allowed)
          ],
        )
