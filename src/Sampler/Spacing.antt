-- ===== src/Sampler/Spacing.antt =====
-- How many messages the samplers that thin out let through.
use Prim.Native.Nat.{zero}
use mathlib.Core.List.{[]}
use scv_agent.Sampler.{drop, Decision, Rate, decide_rate, decide_on_demand, request}
use scv_agent.Base.{
  refl, inr, inl, leb, Bool-cases, ◌-◌, ◌*◌, true, some, arith, suc, false, if◌then◌else◌, ◌+◌, ◌≡◌,
  ◌≤◌, ◌∷◌, Bool, List, ℕ,
}

abbrev pub is_pass : Decision → Bool
is_pass drop = false
is_pass _ = true

-- How many of the messages that come at these times pass, and the sampler after them.
unfoldable pub run_rate : List ℕ → Rate → ℕ × Rate
run_rate [] s = (0, s)
run_rate (t ∷ ts) s =
    let (d, s') = decide_rate t s in
    let (n, s'') = run_rate ts s' in (if is_pass d then suc n else n, s'')

-- Times that do not run backwards, up to an end.
abbrev pub Upto : ℕ → List ℕ → ℕ → Type 0
Upto start [] end = start ≤ end
Upto start (t ∷ ts) end = (start ≤ t) × Upto t ts end

Upto-le : (start : ℕ) (ts : List ℕ) (end : ℕ) → Upto start ts end → start ≤ end
Upto-le start [] end h = h
Upto-le start (t ∷ ts) end h = omega (arith, h.0, Upto-le t ts end h.1)

-- After a pass, the messages that the rate sampler lets through until an end, times its interval,
-- are no more than the time that passed, if the clock does not run backwards.
pub run_rate-le :
    (ts : List ℕ) (s : Rate) (at start end : ℕ)
    → s.last_pass ≡ some at
    → at ≤ start
    → Upto start ts end
    → (run_rate ts s).0 * s.interval ≤ end - at
unfolding run_rate decide_rate
run_rate-le [] s at start end e h f = omega arith
run_rate-le (t ∷ ts) s at start end e h f = elim (Bool-cases (leb s.interval (t - at))) [
  | inl far ↦
      let rest = run_rate-le ts (record s { last_pass = some t }) t t end refl (omega arith) f.1 in
      let later = Upto-le t ts end f.1 in rw (e, far, decide_rate) (grind arith)
  | inr near ↦ rw (e, near, decide_rate) (run_rate-le ts s at t end e (omega (arith, f.0)) f.1)
]

-- A call of `request` or of `decide`.
pub data Call : Type 0 where
  asks : ℕ → Call
  decides : Call

unfoldable pub run_calls : List Call → ℕ → ℕ × ℕ
run_calls [] p = (0, p)
run_calls (asks n ∷ cs) p = run_calls cs (request n p)
run_calls (decides ∷ cs) p =
    let (d, p') = decide_on_demand p in
    let (n, p'') = run_calls cs p' in (if is_pass d then suc n else n, p'')

abbrev pub asked : List Call → ℕ
asked [] = 0
asked (asks n ∷ cs) = n + asked cs
asked (decides ∷ cs) = asked cs

-- However requests and messages interleave, the messages that the on-demand sampler lets through
-- and the requests that still wait are the requests that were made.
pub run_calls-balance :
    (cs : List Call) (p : ℕ) → (run_calls cs p).0 + (run_calls cs p).1 ≡ p + asked cs
unfolding run_calls request decide_on_demand
run_calls-balance [] p = omega arith
run_calls-balance (asks n ∷ cs) p = omega (arith, run_calls-balance cs (p + n))
run_calls-balance (decides ∷ cs) zero = run_calls-balance cs 0
run_calls-balance (decides ∷ cs) (suc p) = omega (arith, run_calls-balance cs p)
