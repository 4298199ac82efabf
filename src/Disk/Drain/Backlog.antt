-- ===== src/Disk/Drain/Backlog.antt =====
-- A drain loses no event: what it deletes was taken over by the transport.
use scv_agent.Disk.{Segment, Stored}
use scv_agent.Disk.Drain.{Drained, drain_segments, send_all, Publisher}
use scv_agent.Disk.Frame.{read_records, Cbor}
use scv_agent.Base.{
  length-append, append_assoc, refl, ◌∙◌, inr, ap, inl, Option-cases, some, arith, Bool-cases, true,
  none, append-nil, length, sym, Bool, ℕ, suc, ◌+◌, ◌≡◌, List, [], ◌∷◌, ◌++◌,
}

-- The records of a file; none, if the file cannot be read.
abbrev pub records_in : Cbor Stored → List ℕ → List Stored
records_in cbor raw = elim (read_records cbor raw) [ none ↦ [] | some rs ↦ rs ]

abbrev pub backlog : Cbor Stored → List Segment → List Stored
backlog cbor [] = []
backlog cbor (g ∷ gs) = records_in cbor g.bytes ++ backlog cbor gs

module _ {ℓ} {S : Type ℓ} (p : Publisher S) where
  -- `send_all` sends a first part of the records, in order, each once.
  pub record Sends (rs : List Stored) (s : S) (r : ℕ × Bool × S) : Type ℓ where
    pub done : List Stored
    pub rest : List Stored
    pub split : rs ≡ done ++ rest
    pub took : p.taken r.2 ≡ p.taken s ++ done
    pub counted : r.0 ≡ length done
    pub all : r.1 ≡ true → rest ≡ []

  pub send_all-Sends : (rs : List Stored) (s : S) → Sends rs s (send_all p.publish rs s)
  unfolding send_all
  send_all-Sends [] s = record {
    done = [];
    rest = [];
    split = refl;
    took = sym (append-nil (p.taken s));
    counted = refl;
    all = λ _. refl;
  }
  send_all-Sends (r ∷ rs) s =
      let (ok, s') = p.publish r s in
      let t = send_all-Sends rs s' in
      elim (Bool-cases ok) [
        | inl yes' ↦
            rw (yes', send_all)
              (record {
                done = r ∷ t.done;
                rest = t.rest;
                split = ap (◌∷◌ r) t.split;
                took =
                    t.took
                    ∙ (ap (λ x. x ++ t.done) (p.publish_true r s yes')
                        ∙ append_assoc (p.taken s) (r ∷ []) t.done);
                counted = ap suc t.counted;
                all = t.all;
              })
        | inr no' ↦
            rw (no', send_all)
              (record {
                done = [];
                rest = r ∷ rs;
                split = refl;
                took = p.publish_false r s no' ∙ sym (append-nil (p.taken s));
                counted = refl;
                all = λ h. absurd (ground arith);
              })
      ]

regroup {ℓ} : {A : Type ℓ} (a b c d : List A) → (a ++ b) ++ (c ++ d) ≡ a ++ ((b ++ c) ++ d)
regroup a b c d = simp append_assoc

module _ {ℓ} {S : Type ℓ} (cbor : Cbor Stored) (p : Publisher S) where
  -- What was sent of the first file that is left is a first part of its records.
  abbrev pub IsFirstPart : List Stored → List Segment → Type 0
  IsFirstPart again [] = again ≡ []
  IsFirstPart again (g ∷ gs) = (rest : List Stored) × (records_in cbor g.bytes ≡ again ++ rest)

  pub record Progress (gs : List Segment) (sent : ℕ) (s : S) (a : Drained Segment S) : Type ℓ where
    -- The records whose files are gone, and those sent from a file that is left.
    pub done : List Stored
    pub again : List Stored
    pub split : backlog cbor gs ≡ done ++ backlog cbor a.left
    pub took : p.taken a.state ≡ p.taken s ++ (done ++ again)
    pub counted : a.sent ≡ sent + length (done ++ again)
    pub first_part : IsFirstPart again a.left
    pub finished : a.complete ≡ true → (a.left ≡ []) × (again ≡ [])

  -- For a publisher that keeps its answers, a drain hands to the transport, in order and each
  -- record once, the records of the files that it deletes and then a first part of those of the
  -- first file that is left, counts them, and leaves no file when it says that it is done.
  pub drain_segments-Progress :
      (gs : List Segment) (sent : ℕ) (s : S)
      → Progress gs sent s (drain_segments cbor p.publish sent gs s)
  unfolding drain_segments
  drain_segments-Progress [] sent s = record {
    done = [];
    again = [];
    split = refl;
    took = sym (append-nil (p.taken s));
    counted = omega arith;
    first_part = refl;
    finished = λ _. (refl, refl);
  }
  drain_segments-Progress (g ∷ gs) sent s = elim (Option-cases (read_records cbor g.bytes)) [
    | inl e ↦
        rw (e, drain_segments)
          (record {
            done = [];
            again = [];
            split = refl;
            took = sym (append-nil (p.taken s));
            counted = omega arith;
            first_part = (_, refl);
            finished = λ h. absurd (ground arith);
          })
    | inr (rs, e) ↦
        let (n, all, s') = send_all p.publish rs s in
        let t = send_all-Sends p rs s in
        let rest = drain_segments-Progress gs (sent + n) s' in
        elim (Bool-cases all) [
          | inl all_sent ↦
              let reads : records_in cbor g.bytes ≡ rs = ground (arith, e) in
              let whole = t.split ∙ (ap (◌++◌ t.done) (t.all all_sent) ∙ append-nil t.done) in
              rw (e, all_sent, drain_segments)
                (record {
                  done = t.done ++ rest.done;
                  again = rest.again;
                  split =
                      ap (λ x. x ++ backlog cbor gs) (reads ∙ whole)
                      ∙ (ap (◌++◌ t.done) rest.split ∙ sym (append_assoc t.done rest.done _));
                  took =
                      rest.took
                      ∙ (ap (λ x. x ++ (rest.done ++ rest.again)) t.took
                          ∙ regroup _ t.done rest.done rest.again);
                  counted = omega (
                    arith,
                    rest.counted,
                    t.counted,
                    length-append t.done (rest.done ++ rest.again),
                    ap length (append_assoc t.done rest.done rest.again),
                  );
                  first_part = rest.first_part;
                  finished = rest.finished;
                })
          | inr stopped ↦
              rw (e, stopped, drain_segments)
                (record {
                  done = [];
                  again = t.done;
                  split = refl;
                  took = t.took;
                  counted = omega (arith, t.counted);
                  first_part = (t.rest, (rw (e, records_in) refl) ∙ t.split);
                  finished = λ h. absurd (ground arith);
                })
        ]
  ]
