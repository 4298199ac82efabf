-- ===== src/Uplink/Delivery.antt =====
-- What becomes of each item that the uplink takes from the queue.
use scv_agent.Bucket.{Round}
use scv_agent.Queue.{Priority}
use scv_agent.Disk.{put_bytes, append_bytes, put_latest_state, append_event, Disk, Stored}
use scv_agent.Disk.Frame.{pack-eq-frame, frame, Fits, Cbor}
use scv_agent.Uplink.Rounds.{deliver, publish_item}
use scv_agent.Uplink.{
  is_critical, count_published, admit_item, reliability_of, Transport, count_dropped, count_state,
  count_event, is_state, put_state, append, stored, is_kept, route_offline, Uplink, Item,
}
use scv_agent.Base.{
  ap, Bool, List, ◌∙◌, sym, arith, refl, Bool-cases, inr, suc, inl, Option-cases, false, true, none,
  some, ◌⊎◌, ◌≡◌, ℕ,
}

-- The ends of an item that is not published, between an uplink and the one after it.
module _ (cbor : Cbor Stored) (p : Priority) (i : Item) (time : ℕ) (u u' : Uplink) where
  -- At the end of the event log.
  pub record IsLogged : Type 0 where
    pub disk : Disk
    pub had : u.buffer ≡ some disk
    pub kept : is_kept p i.msg_class ≡ true
    pub logged : u'.buffer ≡ some (append_bytes (frame cbor (stored p i time)) disk)
    pub counted : u'.stats.buffered_event ≡ suc u.stats.buffered_event

  -- As the latest state of its pipeline.
  pub record IsSaved : Type 0 where
    pub disk : Disk
    pub had : u.buffer ≡ some disk
    pub not_kept : is_kept p i.msg_class ≡ false
    pub a_state : is_state i.msg_class ≡ true
    pub saved : u'.buffer ≡ some (put_bytes i.pipeline (frame cbor (stored p i time)) disk)
    pub counted : u'.stats.buffered_state ≡ suc u.stats.buffered_state

  -- Dropped and counted: there is no buffer, or the item is bulk and not critical.
  pub record IsDropped : Type 0 where
    pub allowed :
        (u.buffer ≡ none) ⊎ ((is_kept p i.msg_class ≡ false) × (is_state i.msg_class ≡ false))
    pub same : u'.buffer ≡ u.buffer
    pub counted : u'.stats.dropped_bulk ≡ suc u.stats.dropped_bulk

  abbrev pub IsRouted : Type 0
  IsRouted = IsLogged ⊎ (IsSaved ⊎ IsDropped)

module _ (cbor : Cbor Stored) (p : Priority) (i : Item) (time : ℕ) where
  abbrev with_event : Disk → Uplink → Uplink
  with_event d u = record u {
    buffer = some (append_bytes (frame cbor (stored p i time)) d);
    stats = count_event u.stats;
  }

  abbrev with_state : Disk → Uplink → Uplink
  with_state d u = record u {
    buffer = some (put_bytes i.pipeline (frame cbor (stored p i time)) d);
    stats = count_state u.stats;
  }

  abbrev without_item : Uplink → Uplink
  without_item u = record u { stats = count_dropped u.stats }

  pub append-eq :
      (d : Disk) (u : Uplink)
      → Fits cbor (stored p i time)
      → append cbor p i time d u ≡ some (with_event d u)
  unfolding append_event
  append-eq d u h = rw (pack-eq-frame cbor (stored p i time) h, append) refl

  put_state-eq :
      (d : Disk) (u : Uplink)
      → Fits cbor (stored p i time)
      → put_state cbor p i time d u ≡ some (with_state d u)
  unfolding put_latest_state
  put_state-eq d u h = rw (pack-eq-frame cbor (stored p i time) h, put_state) refl

  pub route_offline-IsRouted :
      (u : Uplink)
      → Fits cbor (stored p i time)
      → (u' : Uplink) × (route_offline cbor p i time u ≡ some u') × IsRouted cbor p i time u u'
  unfolding route_offline
  route_offline-IsRouted u h = elim (Option-cases u.buffer) [
    | inl e ↦ (
      without_item u,
      rw e refl,
      inr (inr (record { allowed = inl e; same = refl; counted = refl })),
    )
    | inr (d, e) ↦ elim (Bool-cases (is_kept p i.msg_class)) [
      | inl kept ↦ (
        with_event d u,
        rw (e, kept) (append-eq d u h),
        inl (record { disk = d; had = e; kept = kept; logged = refl; counted = refl }),
      )
      | inr other ↦ elim (Bool-cases (is_state i.msg_class)) [
        | inl st ↦ (
          with_state d u,
          rw (e, other, st) (put_state-eq d u h),
          inr (
              inl (record {
                disk = d;
                had = e;
                not_kept = other;
                a_state = st;
                saved = refl;
                counted = refl;
              })),
        )
        | inr bulk ↦ (
          without_item u,
          rw (e, other, bulk) refl,
          inr (inr (record { allowed = inr (other, bulk); same = refl; counted = refl })),
        )
      ]
    ]
  ]

-- Only the buffer and the three counters of an uplink matter for where an item went.
abbrev Matches : Uplink → Uplink → Type 0
Matches v u =
    (v.buffer ≡ u.buffer)
    × (v.stats.buffered_event ≡ u.stats.buffered_event)
    × (v.stats.buffered_state ≡ u.stats.buffered_state)
    × (v.stats.dropped_bulk ≡ u.stats.dropped_bulk)

IsRouted-Matches :
    (cbor : Cbor Stored) (p : Priority) (i : Item) (time : ℕ) (v u u' : Uplink)
    → Matches v u
    → IsRouted cbor p i time v u'
    → IsRouted cbor p i time u u'
IsRouted-Matches cbor p i time v u u' (buffer, events, states, dropped) way = elim way [
  | inl w ↦ inl (record {
    disk = w.disk;
    had = sym buffer ∙ w.had;
    kept = w.kept;
    logged = w.logged;
    counted = w.counted ∙ ap suc events;
  })
  | inr (inl w) ↦ inr (
      inl (record {
        disk = w.disk;
        had = sym buffer ∙ w.had;
        not_kept = w.not_kept;
        a_state = w.a_state;
        saved = w.saved;
        counted = w.counted ∙ ap suc states;
      }))
  | inr (inr w) ↦ inr (
      inr (record {
        allowed = elim w.allowed [ inl e ↦ inl (sym buffer ∙ e) | inr e ↦ inr e ];
        same = w.same ∙ buffer;
        counted = w.counted ∙ ap suc dropped;
      }))
]

-- A round of the loop hands an item to the transport, which says that it took it over, and counts
-- it; or the item is not published, and goes the way of the offline items.
module _ {ℓ} {T : Type ℓ} (cbor : Cbor Stored) (transport : Transport T) where
  abbrev pub IsPublished : Priority → Item → Uplink × T → Uplink × T → Type ℓ
  IsPublished p i (u, t) (u', t') =
      (transport.publish i.msg_class i.pipeline i.payload (reliability_of p) t ≡ (true, t'))
      × (u'.buffer ≡ u.buffer)
      × (u'.stats ≡ count_published u.stats)

  publish_item-Fate :
      (p : Priority) (i : Item) (time : ℕ) (u : Uplink) (t : T)
      → Fits cbor (stored p i time)
      → (u' : Uplink) × (t' : T) × (publish_item cbor transport p i time (u, t) ≡ some (u', t'))
        × (IsPublished p i (u, t) (u', t') ⊎ IsRouted cbor p i time u u')
  unfolding publish_item
  publish_item-Fate p i time u t h =
      let r = transport.publish i.msg_class i.pipeline i.payload (reliability_of p) t in
      let failed = record u {
        stats = record (u.stats) { publish_failed = suc u.stats.publish_failed };
      } in
      elim (Bool-cases r.0) [
        | inl e ↦ (
          record u { stats = count_published u.stats },
          r.1,
          ground (arith, e),
          inl (ground (arith, e), refl, refl),
        )
        | inr e ↦
            let (u', f, way) = route_offline-IsRouted cbor p i time failed h in
            (
              u',
              r.1,
              ground (arith, e, f),
              inr (IsRouted-Matches cbor p i time failed u u' (refl, refl, refl, refl) way),
            )
      ]

  admit_item-same :
      (p : Priority) (i : Item) (deadline : ℕ) (rounds : List Round) (u : Uplink)
      → ((admit_item p i deadline rounds u).1.buffer ≡ u.buffer)
        × ((admit_item p i deadline rounds u).1.stats ≡ u.stats)
  unfolding admit_item
  admit_item-same p i deadline rounds u = elim (Option-cases u.bucket) [
    | inl e ↦ rw (e, admit_item) (refl, refl)
    | inr (b, e) ↦ elim (Bool-cases (is_critical p)) [
      | inl c ↦ rw (e, c, admit_item) (refl, refl)
      | inr c ↦ rw (e, c, admit_item) (refl, refl)
    ]
  ]

  -- Whatever the connection, the bandwidth and the answer of the transport, the round ends for
  -- each item whose record can be packed, and the item was published, or put at the end of the
  -- event log, or written as the latest state of its pipeline, or dropped and counted; with a
  -- buffer only a bulk item that is not critical is dropped.
  pub deliver-Fate :
      (connected : Bool) (p : Priority) (i : Item) (time deadline : ℕ) (rounds : List Round)
      (u : Uplink) (t : T)
      → Fits cbor (stored p i time)
      → (u' : Uplink) × (t' : T) × (deliver cbor transport connected p i time deadline rounds (u, t)
          ≡ some (u', t'))
        × (IsPublished p i (u, t) (u', t') ⊎ IsRouted cbor p i time u u')
  unfolding deliver
  deliver-Fate connected p i time deadline rounds u t h =
      let (pass, v) = admit_item p i deadline rounds u in
      let (buffer, stats) = admit_item-same p i deadline rounds u in
      let same : Matches v u = (
        buffer,
        ap (λ z. z.buffered_event) stats,
        ap (λ z. z.buffered_state) stats,
        ap (λ z. z.dropped_bulk) stats,
      ) in
      elim (Bool-cases connected) [
        | inr off ↦
            let (u', e, way) = route_offline-IsRouted cbor p i time u h in
            (u', t, ground (arith, off, e), inr way)
        | inl on ↦ elim (Bool-cases pass) [
          | inr held ↦
              let (u', e, way) = route_offline-IsRouted cbor p i time v h in
              (
                u',
                t,
                ground (arith, on, held, e),
                inr (IsRouted-Matches cbor p i time v u u' same way),
              )
          | inl go ↦
              let (u', t', e, fate) = publish_item-Fate p i time v t h in
              (
                u',
                t',
                ground (arith, on, go, e),
                elim fate [
                  | inl (took, b, c) ↦ inl (took, b ∙ buffer, c ∙ ap count_published stats)
                  | inr way ↦ inr (IsRouted-Matches cbor p i time v u u' same way)
                ],
              )
        ]
      ]
