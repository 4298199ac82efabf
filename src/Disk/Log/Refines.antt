-- ===== src/Disk/Log/Refines.antt =====
-- `append_event` of disk_buffer.py implements an append to a list of records that may forget its
-- oldest ones; with `drain` it is store and forward.
use scv_agent.Disk.Drain.{send_all, Drained, drain_segments, Publisher}
use scv_agent.Disk.Log.Write.{write_current-Grown}
use scv_agent.Disk.Log.Append.{open_segment-Ready, shrink-Drops}
use scv_agent.Disk.Log.{IsReadable, IsLog}
use scv_agent.Disk.Drain.Backlog.{IsFirstPart, drain_segments-Progress, backlog}
use scv_agent.Base.{
  inr, ◌+◌, inl, Bool-cases, false, true, ℕ, none, append-nil, refl, some, All, Option,
  append_assoc, sym, arith, ap, ◌∙◌, suc, length, [], ◌≤◌, ◌∷◌, ◌++◌, ◌≡◌, List,
}
use scv_agent.Disk.{Segment, append_event, ensure_capacity, Disk, append_bytes, Stored}
use scv_agent.Disk.Frame.{pack-eq-frame, read_records-frames, read_records, frame, IsWhole, Cbor}

module _ (cbor : Cbor Stored) where
  -- The records go behind the log, which may then lose its oldest ones, but not silently.
  pub record Appends (rs : List Stored) (d d' : Disk) : Type 0 where
    pub lost : List Stored
    pub split : backlog cbor d.segments ++ rs ≡ lost ++ backlog cbor d'.segments
    pub is_log : IsLog cbor d'
    pub grows : d.stats.segments_dropped ≤ d'.stats.segments_dropped
    pub quiet : d'.stats.segments_dropped ≡ d.stats.segments_dropped → lost ≡ []

  -- The record is the last one of the log.
  abbrev pub EndsIn : Stored → Disk → Type 0
  EndsIn r d = (kept : List Stored) × (backlog cbor d.segments ≡ kept ++ r ∷ [])

  append_bytes-Appends :
      (r : Stored) (d : Disk)
      → IsWhole cbor r
      → IsLog cbor d
      → Appends (r ∷ []) d (append_bytes (frame cbor r) d)
        × EndsIn r (append_bytes (frame cbor r) d)
  unfolding append_bytes ensure_capacity
  append_bytes-Appends r d w l =
      let n = length (frame cbor r) in
      let t = shrink-Drops cbor (suc (length d.segments)) n d l in
      let o = open_segment-Ready cbor n _ t.is_log in
      let g = write_current-Grown cbor r _ o.at w o.is_log o.current in
      let same_count = g.dropped ∙ ap (λ x. x.segments_dropped) o.stats in
      let after = g.one_more ∙ ap (λ x. x ++ r ∷ []) o.same in
      (
        record {
          lost = t.lost;
          split =
              ap (λ x. x ++ r ∷ []) t.split
              ∙ (append_assoc t.lost _ (r ∷ []) ∙ ap (◌++◌ t.lost) (sym after));
          is_log = record {
            chain = g.is_log.chain;
            readable = g.is_log.readable;
            opened = g.is_log.opened;
          };
          grows = omega (arith, t.grows, same_count);
          quiet = λ q. t.quiet (sym same_count ∙ q);
        },
        (_, after),
      )

  -- On a log, append_event of a record that the decoder reads back raises no exception; the record
  -- goes to the end of the log, which stays a log; the oldest records may be lost, but none is
  -- unless segments_dropped counts it.
  pub append_event-Appends :
      (r : Stored) (d : Disk)
      → IsWhole cbor r
      → IsLog cbor d
      → (d' : Disk) × (append_event cbor r d ≡ some d') × Appends (r ∷ []) d d' × EndsIn r d'
  unfolding append_event
  append_event-Appends r d w l =
      let (a, e) = append_bytes-Appends r d w l in
      (append_bytes (frame cbor r) d, rw (pack-eq-frame cbor r w.0, append_event) refl, a, e)

  Appends-trans :
      (rs qs : List Stored) (d e f : Disk)
      → Appends rs d e
      → Appends qs e f
      → Appends (rs ++ qs) d f
  Appends-trans rs qs d e f a b = record {
    lost = a.lost ++ b.lost;
    split =
        sym (append_assoc _ rs qs)
        ∙ (ap (λ x. x ++ qs) a.split
            ∙ (append_assoc a.lost _ qs
                ∙ (ap (◌++◌ a.lost) b.split ∙ sym (append_assoc a.lost b.lost _))));
    is_log = b.is_log;
    grows = omega (arith, a.grows, b.grows);
    quiet = λ q.
        rw
          (
            a.quiet (omega (arith, q, a.grows, b.grows)),
            b.quiet (omega (arith, q, a.grows, b.grows)),
          )
          refl;
  }

  -- Any number of events, one call of `append_event` after the other.
  unfoldable pub append_events : List Stored → Disk → Option Disk
  append_events [] d = some d
  append_events (r ∷ rs) d = elim (append_event cbor r d) [
    | none ↦ none
    | some d' ↦ append_events rs d'
  ]

  append_events-Appends :
      (rs : List Stored) (d : Disk)
      → All (IsWhole cbor) rs
      → IsLog cbor d
      → (d' : Disk) × (append_events rs d ≡ some d') × Appends rs d d'
  unfolding append_events
  append_events-Appends [] d ws l = (
    d,
    refl,
    record { lost = []; split = append-nil _; is_log = l; grows = omega arith; quiet = λ q. refl },
  )
  append_events-Appends (r ∷ rs) d ws l =
      let (e, eq, a, last) = append_event-Appends r d ws.0 l in
      let (f, eq', b) = append_events-Appends rs e ws.1 a.is_log in
      (f, rw (eq, append_events) eq', Appends-trans (r ∷ []) rs d e f a b)

module _ {ℓ} {S : Type ℓ} (cbor : Cbor Stored) (p : Publisher S) where
  drain_segments-reads :
      (gs : List Segment) (sent : ℕ) (s : S)
      → All (IsReadable cbor) gs
      → (drain_segments cbor p.publish sent gs s).raised ≡ false
  unfolding drain_segments
  drain_segments-reads [] sent s h = refl
  drain_segments-reads (g ∷ gs) sent s h =
      let r = h.0 in
      let reads : read_records cbor g.bytes ≡ some r.records =
        rw r.holds (read_records-frames cbor r.records r.torn r.whole r.is_torn) in
      let (n, all, s') = send_all p.publish r.records s in
      elim (Bool-cases all) [
        | inl yes' ↦ rw (reads, yes', drain_segments) (drain_segments-reads gs (sent + n) s' h.1)
        | inr no' ↦ rw (reads, no', drain_segments) refl
      ]

  -- What a drain of the log does after a number of events were appended to it.
  pub record Forwards (rs : List Stored) (d d' : Disk) (s : S) (a : Drained Segment S)
      : Type ℓ where
    pub lost : List Stored
    pub done : List Stored
    pub again : List Stored
    pub split : backlog cbor d.segments ++ rs ≡ lost ++ (done ++ backlog cbor a.left)
    pub took : p.taken a.state ≡ p.taken s ++ (done ++ again)
    pub quiet : d'.stats.segments_dropped ≡ d.stats.segments_dropped → lost ≡ []
    pub first_part : IsFirstPart cbor p again a.left
    pub finished : a.complete ≡ true → (a.left ≡ []) × (again ≡ [])
    pub no_error : a.raised ≡ false

  -- Events that the decoder reads back, appended to a log, are appended without an exception, and
  -- a drain after them raises none: what the transport takes over is, in order, the log and then
  -- the events, less the oldest ones that segments_dropped counts and those that are still on disk;
  -- of these it has a first part of the first file that is left, and nothing else.
  pub store_and_forward :
      (rs : List Stored) (d : Disk) (s : S)
      → All (IsWhole cbor) rs
      → IsLog cbor d
      → (d' : Disk) × (append_events cbor rs d ≡ some d')
        × Forwards rs d d' s (drain_segments cbor p.publish 0 d'.segments s)
  store_and_forward rs d s ws l =
      let (d', e, a) = append_events-Appends cbor rs d ws l in
      let t = drain_segments-Progress cbor p d'.segments 0 s in
      (
        d',
        e,
        record {
          lost = a.lost;
          done = t.done;
          again = t.again;
          split = a.split ∙ ap (◌++◌ a.lost) t.split;
          took = t.took;
          quiet = a.quiet;
          first_part = t.first_part;
          finished = t.finished;
          no_error = drain_segments-reads d'.segments 0 s a.is_log.readable;
        },
      )
