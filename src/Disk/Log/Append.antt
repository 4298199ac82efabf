-- ===== src/Disk/Log/Append.antt =====
-- `_ensure_capacity` and `_open_segment` of disk_buffer.py, as steps on the event log: the first
-- deletes whole segments from the front, the second readies a segment at the end.
use Prim.Native.Nat.{zero}
use scv_agent.Disk.Drain.Backlog.{records_in, backlog}
use mathlib.Core.Option.{none, some-injective}
use scv_agent.Disk.Log.{
  records_in-frames, backlog-append, Chain-new, Chain-weaken, IsReadable, IsLog, Chain-last, IsOpen,
  Chain,
}
use scv_agent.Base.{
  append-nil, All-append, leb, append_assoc, Option-cases, ◌+◌, ltb, Bool-cases, All, refl, ◌∙◌,
  sym, false, ◌==◌, subst, ◌≤◌, suc, arith, ap, inr, inl, some, ◌⊎◌, [], Option, ◌++◌, ℕ, ◌≡◌, ◌∷◌,
  List,
}
use scv_agent.Disk.Frame.{unpack_len, frames, Cbor}
use scv_agent.Disk.{
  size_of, open_segment, new_segment, total_bytes, shrink, Disk, unlink_oldest, Stored, Segment,
}

-- The first segment is the open one, or the open one is behind it.
front :
    (g : Segment) (gs before : List Segment) (last : Segment)
    → g ∷ gs ≡ before ++ last ∷ []
    → ((g ≡ last) × (gs ≡ [])) ⊎ ((bs : List Segment) × (gs ≡ bs ++ last ∷ []))
front g gs [] last e = inl (grind (arith, e), grind (arith, e))
front g gs (b ∷ bs) last e = inr (bs, grind (arith, e))

module _ (cbor : Cbor Stored) where
  -- The segment that _ensure_capacity deletes is the first, and the open one stays.
  unlink_oldest-front :
      (lo next : ℕ) (c : Option ℕ) (gs rest : List Segment)
      → Chain lo gs next
      → ((k : ℕ) → c ≡ some k → IsOpen cbor gs k)
      → unlink_oldest c gs ≡ some rest
      → ((g : Segment) × (gs ≡ g ∷ rest)) × ((k : ℕ) → c ≡ some k → IsOpen cbor rest k)
  unfolding unlink_oldest
  unlink_oldest-front lo next none [] rest ch o h = absurd (grind (arith, h))
  unlink_oldest-front lo next none (g ∷ gs) rest ch o h =
      ((g, ap (◌∷◌ g) (some-injective _ _ h)), λ k e. absurd (grind (arith, e)))
  unlink_oldest-front lo next (some c) [] rest ch o h = absurd (grind (arith, h))
  unlink_oldest-front lo next (some c) (g ∷ gs) rest ch o h =
      let k = o c refl in
      elim (front g gs k.before k.last k.split) [
        | inl (e, e') ↦ absurd (ground (arith, e, e', h, k.number))
        | inr (bs, e) ↦
            let above : suc g.number ≤ k.last.number =
              Chain-last (suc g.number) bs k.last next
                (subst (λ x. Chain (suc g.number) x next) e ch.1) in
            let other : (c == g.number) ≡ false = ground (arith, above, k.number) in
            let e' : gs ≡ rest = some-injective _ _ (rw (other, unlink_oldest) at h) in
            (
              (g, ap (◌∷◌ g) e'),
              λ j ej. record {
                before = bs;
                last = k.last;
                records = k.records;
                split = sym e' ∙ e;
                number = k.number ∙ some-injective _ _ ej;
                whole = k.whole;
                holds = k.holds;
              },
            )
      ]

  -- A step that deletes a first part of the log, and counts each segment that it deletes.
  pub record Drops (d d' : Disk) : Type 0 where
    pub lost : List Stored
    pub split : backlog cbor d.segments ≡ lost ++ backlog cbor d'.segments
    pub is_log : IsLog cbor d'
    pub grows : d.stats.segments_dropped ≤ d'.stats.segments_dropped
    pub quiet : d'.stats.segments_dropped ≡ d.stats.segments_dropped → lost ≡ []

  -- The disk without its first segment.
  abbrev without_first : Disk → List Segment → Disk
  without_first d rest = record d {
    segments = rest;
    stats = record (d.stats) { segments_dropped = suc d.stats.segments_dropped };
  }

  without_first-IsLog :
      (d : Disk) (rest : List Segment)
      → IsLog cbor d
      → unlink_oldest d.current d.segments ≡ some rest
      → ((g : Segment) × (d.segments ≡ g ∷ rest)) × IsLog cbor (without_first d rest)
  without_first-IsLog d rest l h =
      let ((g, e), o) = unlink_oldest-front 0 d.next d.current d.segments rest l.chain l.opened h in
      let ch : Chain 0 (g ∷ rest) d.next = subst (λ x. Chain 0 x d.next) e l.chain in
      let re : All (IsReadable cbor) (g ∷ rest) = subst (All (IsReadable cbor)) e l.readable in
      (
        (g, e),
        record {
          chain = Chain-weaken 0 (suc g.number) rest d.next (omega arith) ch.1;
          readable = re.1;
          opened = o;
        },
      )

  pub shrink-Drops :
      (fuel incoming : ℕ) (d : Disk) → IsLog cbor d → Drops d (shrink fuel incoming d)
  unfolding shrink
  shrink-Drops zero incoming d l = record {
    lost = [];
    split = refl;
    is_log = l;
    grows = omega arith;
    quiet = λ _. refl;
  }
  shrink-Drops (suc fuel) incoming d l =
      elim (Bool-cases (ltb d.max_bytes (total_bytes d + incoming))) [
        | inr room ↦
            rw (room, shrink)
              (record {
                lost = [];
                split = refl;
                is_log = l;
                grows = omega arith;
                quiet = λ _. refl;
              })
        | inl full ↦ elim (Option-cases (unlink_oldest d.current d.segments)) [
          | inl e ↦
              rw (full, e, shrink)
                (record {
                  lost = [];
                  split = refl;
                  is_log = l;
                  grows = omega arith;
                  quiet = λ _. refl;
                })
          | inr (rest, e) ↦
              let ((g, eg), l') = without_first-IsLog d rest l e in
              let t = shrink-Drops fuel incoming (without_first d rest) l' in
              rw (full, e, shrink)
                (record {
                  lost = records_in cbor g.bytes ++ t.lost;
                  split =
                      ap (backlog cbor) eg
                      ∙ (ap (◌++◌ (records_in cbor g.bytes)) t.split
                          ∙ sym (append_assoc (records_in cbor g.bytes) t.lost _));
                  is_log = t.is_log;
                  grows = omega (arith, t.grows);
                  quiet = λ q. absurd (omega (arith, t.grows, q));
                })
        ]
      ]

  empty-IsReadable : (n : ℕ) → IsReadable cbor (record { number = n; bytes = [] })
  unfolding frames unpack_len
  empty-IsReadable n = record { records = []; torn = []; whole = tt; is_torn = tt; holds = refl }

  -- The open segment is ready for a record, and nothing of the log has changed.
  pub record Ready (d d' : Disk) : Type 0 where
    pub at : ℕ
    pub current : d'.current ≡ some at
    pub is_log : IsLog cbor d'
    pub same : backlog cbor d'.segments ≡ backlog cbor d.segments
    pub stats : d'.stats ≡ d.stats

  new_segment-Ready : (d : Disk) → IsLog cbor d → Ready d (new_segment d)
  unfolding new_segment frames unpack_len
  new_segment-Ready d l = record {
    at = d.next;
    current = refl;
    is_log = record {
      chain = Chain-new 0 d.segments d.next [] l.chain;
      readable = All-append (IsReadable cbor) d.segments _ l.readable (empty-IsReadable d.next, tt);
      opened = λ c e. record {
        before = d.segments;
        last = record { number = d.next; bytes = [] };
        records = [];
        split = refl;
        number = some-injective _ _ e;
        whole = tt;
        holds = refl;
      };
    };
    same =
        backlog-append cbor d.segments (record { number = d.next; bytes = [] } ∷ [])
        ∙ (ap (λ x. backlog cbor d.segments ++ (x ++ [])) (records_in-frames cbor [] [] tt tt refl)
            ∙ append-nil _);
    stats = refl;
  }

  open_segment_cases :
      (incoming : ℕ) (d : Disk)
      → (open_segment incoming d ≡ new_segment d)
        ⊎ ((n : ℕ) × (d.current ≡ some n) × (open_segment incoming d ≡ d))
  unfolding open_segment
  open_segment_cases incoming d = elim (Option-cases d.current) [
    | inl e ↦ inl (simp (e, open_segment))
    | inr (n, e) ↦ elim (Bool-cases (leb (size_of n d.segments + incoming) d.segment_max)) [
      | inl room ↦ inr (n, e, simp (e, room, open_segment))
      | inr full ↦ inl (simp (e, full, open_segment))
    ]
  ]

  pub open_segment-Ready :
      (incoming : ℕ) (d : Disk) → IsLog cbor d → Ready d (open_segment incoming d)
  open_segment-Ready incoming d l = elim (open_segment_cases incoming d) [
    | inl e ↦ subst (Ready d) (sym e) (new_segment-Ready d l)
    | inr (n, c, e) ↦
        subst (Ready d) (sym e)
          (record { at = n; current = c; is_log = l; same = refl; stats = refl })
  ]
