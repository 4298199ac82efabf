-- ===== src/Uplink/Rounds.antt =====
-- UplinkManager: the methods that use the transport, and one round of `_run`.
use scv_agent.Uplink.{
  route_offline, count_published, admit_item, reliability_of, Item, none_pending, publish_record,
  Transport, Uplink,
}
use scv_agent.Bucket.{Round}
use scv_agent.Disk.{Disk, Stored, pending}
use scv_agent.Disk.Drain.{drain}
use scv_agent.Disk.Frame.{Cbor}
use scv_agent.Queue.{Priority, Queue, pop}
use scv_agent.Base.{
  ◌&&◌, ◌-◌, leb, not, ◌+◌, none, some, if◌then◌else◌, suc, true, false, ℕ, Option, Bool, List,
}

-- The clocks of one round: at the drain, at the packing of a record, and in `consume`.
pub record Clocks : Type 0 where
  pub now : ℕ
  pub time : ℕ
  pub deadline : ℕ
  pub rounds : List Round

abbrev pub with_transport {ℓ} : {T : Type ℓ} → T → Option Uplink → Option (Uplink × T)
with_transport t none = none
with_transport t (some u) = some (u, t)

module _ {ℓ} {T : Type ℓ} (cbor : Cbor Stored) (transport : Transport T) where
  -- The call of `drain`; `none` is an exception of it.
  unfoldable pub drain_now : Disk → Uplink × T → Option (Uplink × T)
  drain_now d (u, t) =
      let (d', sent, complete, t', raised) = drain cbor (publish_record transport) d t in
      if raised
      then none
      else some (
        record u {
          buffer = some d';
          stats = record (u.stats) { drained = u.stats.drained + sent };
        },
        t',
      )

  -- `_maybe_drain`
  unfoldable pub maybe_drain : ℕ → Bool → Disk → Uplink × T → Option (Uplink × T)
  maybe_drain now force d (u, t) =
      if not force && none_pending (pending d)
      then some (record u { last_drain = now }, t)
      else drain_now d (record u { last_drain = now }, t)

  -- The part of a round of `_run` above `self._was_connected = connected`.
  unfoldable pub retry_backlog : Bool → ℕ → Uplink × T → Option (Uplink × T)
  retry_backlog connected now (u, t) = elim u.buffer [
    | none ↦ some (u, t)
    | some d ↦
        if connected
        then if not u.was_connected
          then maybe_drain now true d (u, t)
          else if leb u.drain_retry (now - u.last_drain)
          then maybe_drain now false d (u, t)
          else some (u, t)
        else some (u, t)
  ]

  -- The call of `publish`, and what follows it.
  unfoldable pub publish_item : Priority → Item → ℕ → Uplink × T → Option (Uplink × T)
  publish_item p i time (u, t) =
      let (ok, t') = transport.publish i.msg_class i.pipeline i.payload (reliability_of p) t in
      if ok
      then some (record u { stats = count_published u.stats }, t')
      else with_transport t' (
          route_offline cbor p i time
            (record u { stats = record (u.stats) { publish_failed = suc u.stats.publish_failed } }))

  -- What a round does with the item that it popped.
  unfoldable pub deliver :
      Bool → Priority → Item → ℕ → ℕ → List Round → Uplink × T → Option (Uplink × T)
  deliver connected p i time deadline rounds (u, t) =
      let (pass, u') = admit_item p i deadline rounds u in
      if connected
      then (if pass
          then publish_item p i time (u', t)
          else with_transport t (route_offline cbor p i time u'))
      else with_transport t (route_offline cbor p i time u)

  -- One round of the loop of `_run`; the queue is read once, after the drain.
  unfoldable pub run_once : Clocks → Queue Item × Uplink × T → Option (Queue Item × Uplink × T)
  run_once c (q, u, t) =
      let connected = transport.connected t in
      elim (retry_backlog connected c.now (u, t)) [
        | none ↦ none
        | some (u1, t1) ↦
            let u2 = record u1 { was_connected = connected } in
            elim (pop q) [
              | none ↦ some (q, u2, t1)
              | some (p, i, q') ↦ elim (deliver connected p i c.time c.deadline c.rounds (u2, t1)) [
                | none ↦ none
                | some (u3, t3) ↦ some (q', u3, t3)
              ]
            ]
      ]
