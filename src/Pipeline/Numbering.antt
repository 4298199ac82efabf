-- ===== src/Pipeline/Numbering.antt =====
-- The receiver finds losses by the envelopes' numbers: they are made without a gap.
use Prim.Native.Nat.{zero}
use mathlib.Core.List.{map-append}
use scv_agent.Pipeline.{
  works, pauses, submits, set_paused, accept, Envelope, run, submit, work, process, emit, Pipeline,
  Stages, Event,
}
use scv_agent.Base.{
  sym, Bool-cases, ◌∙◌, inr, ap, inl, ◌∷◌, arith, suc, ◌++◌, map, List-cases, Option-cases, String,
  [], ◌≡◌, List, ℕ,
}

-- 0, 1, …, n - 1
abbrev pub upto : ℕ → List ℕ
upto zero = []
upto (suc n) = upto n ++ n ∷ []

abbrev pub numbers_of : List Envelope → List ℕ
numbers_of = map (λ e. e.seq)

-- What the push is known to do: whatever it answers, the output queue took the envelope over as the
-- last one.
pub record Sink {ℓ} {B S Q : Type ℓ} (stages : Stages B S Q) : Type ℓ where
  pub taken : Q → List Envelope
  pub takes : (e : Envelope) (q : Q) → taken (stages.push e q).1 ≡ taken q ++ e ∷ []

module _ {ℓ} {B S Q : Type ℓ} (stages : Stages B S Q) (sink : Sink stages) where
  abbrev pub IsNumbered : Pipeline B × S × Q → Type 0
  IsNumbered (s, x, q) = numbers_of (sink.taken q) ≡ upto s.seq

  emit-IsNumbered :
      (e : String × List ℕ) (s : Pipeline B) (x : S) (q : Q)
      → IsNumbered (s, x, q)
      → IsNumbered (emit stages e (s, x, q))
  unfolding emit
  emit-IsNumbered (enc, payload) s x q h =
      let env : Envelope = record {
        pipeline = s.name;
        seq = s.seq;
        encoding = enc;
        payload = payload;
      } in
      let (ok, q') = stages.push env q in
      let more : numbers_of (sink.taken q') ≡ upto (suc s.seq) =
        ap numbers_of (sink.takes env q)
        ∙ (map-append (λ e. e.seq) (sink.taken q) (env ∷ []) ∙ ap (λ l. l ++ s.seq ∷ []) h) in
      elim (Bool-cases ok) [ inl yes' ↦ rw (yes', emit) more | inr no' ↦ rw (no', emit) more ]

  process-IsNumbered :
      (raw : B) (s : Pipeline B) (x : S) (q : Q)
      → IsNumbered (s, x, q)
      → IsNumbered (process stages raw (s, x, q))
  unfolding process
  process-IsNumbered raw s x q h =
      let (answer, x') = stages.decide raw x in
      elim (Option-cases answer) [
        | inl e ↦ rw (e, process) h
        | inr (passes, e) ↦ elim (Bool-cases passes) [
          | inr no' ↦ rw (e, no', process) h
          | inl yes' ↦ elim (Option-cases (stages.encode raw)) [
            | inl f ↦ rw (e, yes', f, process) h
            | inr (m, f) ↦ rw (e, yes', f, process) (emit-IsNumbered m s x' q h)
          ]
        ]
      ]

  work-IsNumbered : (w : Pipeline B × S × Q) → IsNumbered w → IsNumbered (work stages w)
  unfolding work
  work-IsNumbered (s, x, q) h = elim (List-cases s.waiting) [
    | inl e ↦ rw (e, work) h
    | inr (raw, rest, e) ↦ rw (e, work) (process-IsNumbered raw (record s { waiting = rest }) x q h)
  ]

  submit-seq : (raw : B) (s : Pipeline B) → (submit raw s).seq ≡ s.seq
  unfolding submit accept
  submit-seq raw s = ground arith

  -- For an output queue that takes each envelope over as its last one, however submissions, rounds
  -- of the worker and pauses interleave, the envelopes are numbered 0, 1, 2 and so on, in order
  -- and without a gap, up to the number that comes next.
  pub run-IsNumbered :
      (es : List (Event B)) (w : Pipeline B × S × Q) → IsNumbered w → IsNumbered (run stages es w)
  unfolding run set_paused
  run-IsNumbered [] w h = h
  run-IsNumbered (submits raw ∷ es) (s, x, q) h =
      run-IsNumbered es (submit raw s, x, q) (h ∙ ap upto (sym (submit-seq raw s)))
  run-IsNumbered (works ∷ es) w h = run-IsNumbered es (work stages w) (work-IsNumbered w h)
  run-IsNumbered (pauses b ∷ es) w h = run-IsNumbered es _ h
