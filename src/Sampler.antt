-- ===== src/Sampler.antt =====
-- fta_agent/fta_agent/samplers: which messages of a pipeline are sent.
-- Time is in microseconds. The value of a message's field is an argument.
use scv_agent.Json.{Num, fin, infinity, minus_infinity, nan, exceeds}
use scv_agent.Base.Int.{pos, dist_ℤ, leb_ℤ}
use scv_agent.Base.Int.{dist_ℤ, leb_ℤ, pos}
use Prim.Native.Nat.{zero}
use scv_agent.Json.{fin, exceeds, Num}
pub mod Spacing
pub mod Nearness
pub mod Edges
pub mod FieldPath
pub mod Conditions
mod Examples
use scv_agent.Base.{
  ◌-◌, ◌&&◌, not, leb, ◌||◌, false, if◌then◌else◌, some, none, suc, true, Bool, ◌+◌, Option, ℕ,
}

-- samplers/base.py
pub data Decision : Type 0 where
  pass drop pass_and_flush : Decision

-- samplers/rate.py; `_last_pass` is minus infinity before the first pass.
pub record Rate : Type 0 where
  pub interval : ℕ
  pub last_pass : Option ℕ

unfoldable pub decide_rate : ℕ → Rate → Decision × Rate
decide_rate now s = elim s.last_pass [
  | none ↦ (pass, record s { last_pass = some now })
  | some t ↦
      if leb s.interval (now - t) then (pass, record s { last_pass = some now }) else (drop, s)
]

-- samplers/deadband.py, on floats: a field may be NaN or infinite.
pub record Deadband : Type 0 where
  pub threshold : Num
  pub last_sent : Option Num

-- abs(a - b), in millionths
abbrev pub distance : Num → Num → Num
distance (fin a) (fin b) = fin (pos (dist_ℤ a b))
distance nan b = nan
distance a nan = nan
distance infinity infinity = nan
distance minus_infinity minus_infinity = nan
distance a b = infinity

-- a >= b
abbrev pub at_least : Num → Num → Bool
at_least (fin a) (fin b) = leb_ℤ b a
at_least nan b = false
at_least a nan = false
at_least infinity b = true
at_least minus_infinity minus_infinity = true
at_least minus_infinity b = false
at_least (fin a) minus_infinity = true
at_least (fin a) infinity = false

-- `__init__`, of a threshold that is a number; `none` is ValueError. `threshold < 0` is false for
-- NaN.
unfoldable pub init_deadband : Num → Option Deadband
init_deadband threshold =
    if exceeds (fin (pos 0)) threshold
    then none
    else some (record { threshold = threshold; last_sent = none })

unfoldable pub decide_deadband : Num → Deadband → Decision × Deadband
decide_deadband value s = elim s.last_sent [
  | none ↦ (pass, record s { last_sent = some value })
  | some v ↦
      if at_least (distance value v) s.threshold
      then (pass, record s { last_sent = some value })
      else (drop, s)
]

-- samplers/on_demand.py; the lock makes each method a step.
unfoldable pub request : ℕ → ℕ → ℕ
request count pending = pending + count

unfoldable pub decide_on_demand : ℕ → Decision × ℕ
decide_on_demand zero = (drop, 0)
decide_on_demand (suc pending) = (pass, pending)

-- samplers/passthrough.py
unfoldable pub decide_passthrough : Decision
decide_passthrough = pass

-- samplers/event.py: the condition `changed`, or a comparison with the value of the configuration,
-- whose outcome is an argument.
pub record Event {ℓ} (V : Type ℓ) : Type ℓ where
  pub first : Bool
  pub last : Option V
  pub was_true : Bool

abbrev pub init_event {ℓ} : {V : Type ℓ} → Event V
init_event = record { first = true; last = none; was_true = false }

abbrev pub fire_if : Bool → Decision
fire_if fire = if fire then pass_and_flush else drop

module _ {ℓ} {V : Type ℓ} (same : V → V → Bool) (test : V → Bool) where
  abbrev pub differs : V → Option V → Bool
  differs v none = true
  differs v (some w) = not (same v w)

  -- `decide` for `changed`
  unfoldable pub decide_changed : V → Event V → Decision × Event V
  decide_changed v s =
      (fire_if (s.first || differs v s.last), record s { last = some v; first = false })

  -- `decide` for a comparison
  unfoldable pub decide_compared : V → Event V → Decision × Event V
  decide_compared v s = (
    fire_if (s.first || (test v && not s.was_true)),
    record s { was_true = test v; first = false },
  )
