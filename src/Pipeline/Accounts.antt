-- ===== src/Pipeline/Accounts.antt =====
-- Every message is counted once, and the envelopes are numbered without a gap.
use scv_agent.Pipeline.{
  works, pauses, submits, emit, set_paused, process, accept, run, work, submit, Envelope, Pipeline,
  Stages, Event,
}
use scv_agent.Base.{
  subst, ap, Bool-cases, inr, inl, Option-cases, List-cases, suc, String, [], ◌∷◌, length-append,
  List, arith, length, true, ◌+◌, ◌≡◌, ℕ,
}

-- A message that came in was dropped, waits, was sampled out, was encoded, or failed.
abbrev pub counted {ℓ} : {B : Type ℓ} → Pipeline B → ℕ
counted s =
    s.stats.drop_paused
    + s.stats.drop_in_full
    + length s.waiting
    + s.stats.sampled_out
    + s.stats.encoded
    + s.stats.error

-- The statistics account for a number of messages.
abbrev pub IsCounted {ℓ} : {B : Type ℓ} → ℕ → Pipeline B → Type 0
IsCounted n s = (s.stats.received ≡ n) × (counted s ≡ n)

-- The messages that came in.
abbrev pub submissions {ℓ} : {B : Type ℓ} → List (Event B) → ℕ
submissions [] = 0
submissions (submits raw ∷ es) = suc (submissions es)
submissions (works ∷ es) = submissions es
submissions (pauses b ∷ es) = submissions es

module _ {ℓ} {B S Q : Type ℓ} where
  -- The push into the output queue raises no exception.
  abbrev pub NeverRaises : Stages B S Q → Type ℓ
  NeverRaises stages = (e : Envelope) (q : Q) → (stages.push e q).0 ≡ true

module _ {ℓ} {B : Type ℓ} where
  submit-IsCounted :
      (n : ℕ) (raw : B) (s : Pipeline B) → IsCounted n s → IsCounted (suc n) (submit raw s)
  unfolding submit accept
  submit-IsCounted n raw s (h, f) =
      (ground (arith, h), ground (arith, f, length-append s.waiting (raw ∷ [])))

module _ {ℓ} {B S Q : Type ℓ} (stages : Stages B S Q) (quiet : NeverRaises stages) where
  emit-IsCounted :
      (n : ℕ) (e : String × List ℕ) (s : Pipeline B) (x : S) (q : Q)
      → s.stats.received ≡ n
      → suc (counted s) ≡ n
      → IsCounted n (emit stages e (s, x, q)).0
  unfolding emit
  emit-IsCounted n (enc, payload) s x q h f =
      let sent =
        quiet (record { pipeline = s.name; seq = s.seq; encoding = enc; payload = payload }) q in
      rw (sent, emit) (h, omega (arith, f))

  process-IsCounted :
      (n : ℕ) (raw : B) (s : Pipeline B) (x : S) (q : Q)
      → s.stats.received ≡ n
      → suc (counted s) ≡ n
      → IsCounted n (process stages raw (s, x, q)).0
  unfolding process
  process-IsCounted n raw s x q h k =
      let (answer, x') = stages.decide raw x in
      elim (Option-cases answer) [
        | inl e ↦ rw (e, process) (h, omega (arith, k))
        | inr (passes, e) ↦ elim (Bool-cases passes) [
          | inr no' ↦ rw (e, no', process) (h, omega (arith, k))
          | inl yes' ↦ elim (Option-cases (stages.encode raw)) [
            | inl f ↦ rw (e, yes', f, process) (h, omega (arith, k))
            | inr (m, f) ↦ rw (e, yes', f, process) (emit-IsCounted n m s x' q h k)
          ]
        ]
      ]

  work-IsCounted :
      (n : ℕ) (w : Pipeline B × S × Q) → IsCounted n w.0 → IsCounted n (work stages w).0
  unfolding work
  work-IsCounted n (s, x, q) h = elim (List-cases s.waiting) [
    | inl e ↦ rw (e, work) h
    | inr (raw, rest, e) ↦
        rw (e, work)
          (process-IsCounted n raw (record s { waiting = rest }) x q h.0
            (omega (arith, h.1, ap length e)))
  ]

  -- If the push into the output queue raises no exception, then however submissions, rounds of the
  -- worker and pauses interleave, the messages that came in are counted as received, and as many
  -- were dropped, sampled out, encoded or failed, or wait.
  pub run-IsCounted :
      (es : List (Event B)) (n : ℕ) (w : Pipeline B × S × Q)
      → IsCounted n w.0
      → IsCounted (n + submissions es) (run stages es w).0
  unfolding run set_paused
  run-IsCounted [] n w h = subst (λ m. IsCounted m w.0) (omega arith) h
  run-IsCounted (submits raw ∷ es) n w h =
      let w' : Pipeline B × S × Q = (submit raw w.0, w.1, w.2) in
      subst (λ m. IsCounted m (run stages es w').0) (omega arith)
        (run-IsCounted es (suc n) w' (submit-IsCounted n raw w.0 h))
  run-IsCounted (works ∷ es) n w h = run-IsCounted es n (work stages w) (work-IsCounted n w h)
  run-IsCounted (pauses b ∷ es) n w h = run-IsCounted es n _ h
