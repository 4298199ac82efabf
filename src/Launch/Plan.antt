-- ===== src/Launch/Plan.antt =====
-- Which processes are started.
use mathlib.Core.List.{[]}
use scv_agent.Base.{
  inr, arith, inl, Option-cases, str_eq, some, ◌≡◌, suc, if◌then◌else◌, ◌∷◌, false, ℕ, true, List,
  Option, Bool, String,
}
use scv_agent.Launch.{
  shim_numbers, numbers, env_or, nodes, gps_shim, launch, Environment, bag_play, agent, Action,
}

abbrev pub is_agent {ℓ} : {R : Type ℓ} → Action R → Bool
is_agent (agent arguments) = true
is_agent (gps_shim topic xs) = false
is_agent (bag_play delay command) = false

abbrev pub is_bag {ℓ} : {R : Type ℓ} → Action R → Bool
is_bag (bag_play delay command) = true
is_bag (agent arguments) = false
is_bag (gps_shim topic xs) = false

abbrev pub count {ℓ} : {R : Type ℓ} → (Action R → Bool) → List (Action R) → ℕ
count f [] = 0
count f (a ∷ as') = if f a then suc (count f as') else count f as'

module _ {ℓ} {R : Type ℓ} (to_float : String → Option R) (split : String → List String)
    (env : Environment) where
  -- A launch that raises nothing starts one agent, and plays one bag if BAG_PATH is set and not
  -- empty, else none.
  pub launch-counts :
      {actions : List (Action R)}
      → launch to_float split env ≡ some actions
      → (count is_agent actions ≡ 1)
        × (count is_bag actions ≡ (if str_eq (env_or env "BAG_PATH" "") "" then 0 else 1))
  unfolding launch nodes
  launch-counts {actions} h = elim (Option-cases (to_float (env_or env "BAG_START_DELAY" "5.0"))) [
    | inl e ↦ absurd (ground (arith, h, e))
    | inr (delay, e) ↦ elim (Option-cases (numbers to_float split env shim_numbers)) [
      | inl n ↦ absurd (ground (arith, h, e, n))
      | inr (xs, n) ↦ (ground (arith, h, e, n), ground (arith, h, e, n))
    ]
  ]
