-- ===== src/Disk/Log/Write.antt =====
-- The write of `append_event` of disk_buffer.py: the record is the last one of the log after it.
use mathlib.Core.Option.{some-injective}
use scv_agent.Disk.Drain.Backlog.{records_in, backlog}
use scv_agent.Base.{
  none, refl, append_assoc, All-front, append-nil, ap, sym, subst, ◌∙◌, All-append, [], ◌∷◌, some,
  ◌++◌, All, ◌≡◌, ℕ, List,
}
use scv_agent.Disk.Log.{
  Chain-bytes, IsReadable, write-last, backlog-append, Chain, records_in-frames, IsLog,
}
use scv_agent.Disk.{write, write_current, Segment, Disk, Stored}
use scv_agent.Disk.Frame.{frames-append, frame, frames, IsWhole, unpack_len, Cbor}

module _ (cbor : Cbor Stored) where
  -- The log with a record behind all others.
  pub record Grown (r : Stored) (d d' : Disk) : Type 0 where
    pub is_log : IsLog cbor d'
    pub one_more : backlog cbor d'.segments ≡ backlog cbor d.segments ++ r ∷ []
    pub dropped : d'.stats.segments_dropped ≡ d.stats.segments_dropped

  backlog_last :
      (before : List Segment) (g : Segment) (rs : List Stored)
      → All (IsWhole cbor) rs
      → g.bytes ≡ frames cbor rs
      → backlog cbor (before ++ g ∷ []) ≡ backlog cbor before ++ rs
  unfolding unpack_len
  backlog_last before g rs ws e =
      let read : records_in cbor g.bytes ≡ rs =
        records_in-frames cbor rs [] ws tt (e ∙ sym (append-nil _)) in
      backlog-append cbor before (g ∷ [])
      ∙ ap (◌++◌ (backlog cbor before)) (ap (λ x. x ++ []) read ∙ append-nil rs)

  write_current_open :
      (bytes : List ℕ) (d : Disk) (c : ℕ)
      → d.current ≡ some c
      → write_current bytes d ≡ record d { segments = write c bytes d.segments }
  write_current_open bytes d c e =
      ap
        (λ x. elim x as (λ o. Disk) [
          | none ↦ d
          | some n ↦ record d { segments = write n bytes d.segments }
        ])
        e

  pub write_current-Grown :
      (r : Stored) (d : Disk) (c : ℕ)
      → IsWhole cbor r
      → IsLog cbor d
      → d.current ≡ some c
      → Grown r d (write_current (frame cbor r) d)
  unfolding unpack_len
  write_current-Grown r d c w l e =
      let o = l.opened c e in
      let rs = o.records ++ r ∷ [] in
      let whole : All (IsWhole cbor) rs = All-append (IsWhole cbor) o.records _ o.whole (w, tt) in
      let old : Chain 0 (o.before ++ o.last ∷ []) d.next =
        subst (λ x. Chain 0 x d.next) o.split l.chain in
      let bytes : o.last.bytes ++ frame cbor r ≡ frames cbor rs =
        ap (λ x. x ++ frame cbor r) o.holds ∙ sym (frames-append cbor o.records r) in
      let written = record (o.last) { bytes = frames cbor rs } in
      let segs : write c (frame cbor r) d.segments ≡ o.before ++ written ∷ [] =
        ap (write c (frame cbor r)) o.split
        ∙ (ap (λ x. write x (frame cbor r) (o.before ++ o.last ∷ [])) (sym o.number)
            ∙ (write-last 0 o.before o.last (frame cbor r) d.next old
                ∙ ap (λ x. o.before ++ record (o.last) { bytes = x } ∷ []) bytes)) in
      let d1 = record d { segments = o.before ++ written ∷ [] } in
      let step : write_current (frame cbor r) d ≡ d1 =
        write_current_open (frame cbor r) d c e ∙ ap (λ x. record d { segments = x }) segs in
      let readable : All (IsReadable cbor) (o.before ++ o.last ∷ []) =
        subst (All (IsReadable cbor)) o.split l.readable in
      subst (Grown r d) (sym step) (record {
        is_log = record {
          chain = Chain-bytes 0 o.before o.last (frames cbor rs) d.next old;
          readable =
              All-append (IsReadable cbor) o.before _
                (All-front (IsReadable cbor) o.before _ readable)
                (
                  record {
                    records = rs;
                    torn = [];
                    whole = whole;
                    is_torn = tt;
                    holds = sym (append-nil _);
                  },
                  tt,
                );
          opened = λ k ek. record {
            before = o.before;
            last = written;
            records = rs;
            split = refl;
            number = o.number ∙ some-injective _ _ (sym e ∙ ek);
            whole = whole;
            holds = refl;
          };
        };
        one_more =
            backlog_last o.before written rs whole refl
            ∙ (sym (append_assoc (backlog cbor o.before) o.records (r ∷ []))
                ∙ ap (λ x. x ++ r ∷ [])
                    (sym (
                      ap (backlog cbor) o.split
                      ∙ backlog_last o.before o.last o.records o.whole o.holds)));
        dropped = refl;
      })
