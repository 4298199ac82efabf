-- ===== src/Uplink/Overflow.antt =====
-- What a full queue gives to the uplink: `_on_overflow` as the handler of `push`.
use scv_agent.Queue.Bounds.{enqueue-store}
use scv_agent.Queue.Cases.{conflation-Split, store_cases}
use scv_agent.Uplink.Delivery.{append-eq}
use scv_agent.Queue.{evicted, bump, update, settle, ok, critical, Queue, Waiting, push_to}
use scv_agent.Base.{
  arith, inr, inl, refl, ◌⊎◌, true, All, [], ◌<◌, ◌++◌, ◌∷◌, String, some, List, Option, ◌≡◌, ℕ,
}
use scv_agent.Disk.{append_bytes, Disk, Stored}
use scv_agent.Disk.Frame.{frame, Fits, Cbor}
use scv_agent.Uplink.{count_event, count_overflow, stored, on_overflow, Uplink, Item}

-- The push of a critical item that found the queue full put its oldest critical entry at the end of
-- the event log.
pub record MovesOldest (cbor : Cbor Stored) (time : ℕ) (disk : Disk) (new : Waiting Item)
    (ws ws' : List (Waiting Item)) (u' : Uplink) : Type 0 where
  pub oldest : Waiting Item
  pub others : List (Waiting Item)
  pub was : ws ≡ oldest ∷ others
  pub now : ws' ≡ others ++ new ∷ []
  pub logged : u'.buffer ≡ some (append_bytes (frame cbor (stored critical oldest.item time)) disk)

module _ (cbor : Cbor Stored) (time : ℕ) where
  -- A displaced critical item goes to the log, and the handler says so.
  on_overflow_critical :
      (i : Item) (u : Uplink) (d : Disk)
      → u.buffer ≡ some d
      → Fits cbor (stored critical i time)
      → (u' : Uplink) × (on_overflow cbor time critical i u ≡ (some true, u'))
        × (u'.buffer ≡ some (append_bytes (frame cbor (stored critical i time)) d))
  unfolding on_overflow
  on_overflow_critical i u d e h =
      let v = record u {
        buffer = some (append_bytes (frame cbor (stored critical i time)) d);
        stats = count_overflow (count_event u.stats);
      } in
      (v, rw (e, append-eq cbor critical i time d u h, on_overflow) refl, refl)

  -- With a disk buffer, a push of a critical item into a queue of positive limit whose critical
  -- records can be packed drops no critical item: the item was added behind the others, or the
  -- oldest entry went to the event log first, and the count of dropped critical items is what it
  -- was.
  pub push_critical-IsKept :
      (i : Item) (key : Option String) (s : Queue Item) (u : Uplink) (d : Disk)
      → 0 < s.maxlen
      → u.buffer ≡ some d
      → All (λ w. Fits cbor (stored critical w.item time)) (s.queues critical)
      → (s' : Queue Item) × (u' : Uplink) × (push_to
            (some (on_overflow cbor time))
            i
            critical
            key
            (s, u)
          ≡ ok (true, s', u'))
        × (s'.dropped critical ≡ s.dropped critical)
        × (((s'.queues critical ≡ s.queues critical ++ record { key = key; item = i } ∷ [])
              × (u' ≡ u))
            ⊎ MovesOldest cbor time d
                (record { key = key; item = i })
                (s.queues critical)
                (s'.queues critical)
                u')
  unfolding push_to settle
  push_critical-IsKept i key s u d pos e fit =
      let new : Waiting Item = record { key = key; item = i } in
      let after : List (Waiting Item) → Queue Item =
        λ ws. record s { queues = update s.queues critical ws; pushed = bump s.pushed critical } in
      elim (store_cases s.maxlen critical key i (s.queues critical)) [
        | inl (room, f) ↦ (
          after (s.queues critical ++ new ∷ []),
          u,
          rw (enqueue-store i critical key s f, push_to) refl,
          refl,
          inl (refl, refl),
        )
        | inr (inl (old, rest, full, c, f)) ↦
            absurd (ground (arith, conflation-Split i critical key (s.queues critical) c))
        | inr (inr (inl (w, tl, full, c, was, f))) ↦
            let (u', g, logged) = on_overflow_critical w.item u d e (ground (arith, was, fit)) in
            (
              settle critical (evicted w.item) true (after (tl ++ new ∷ [])),
              u',
              rw (enqueue-store i critical key s f, g, push_to) refl,
              refl,
              inr (record { oldest = w; others = tl; was = was; now = refl; logged = logged }),
            )
        | inr (inr (inr (z, was, f))) ↦ absurd (omega arith)
      ]
