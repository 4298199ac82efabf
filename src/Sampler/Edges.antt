-- ===== src/Sampler/Edges.antt =====
-- The event sampler fires at the edges.
use mathlib.Core.List.{[]}
use scv_agent.Sampler.{pass_and_flush, Decision, Event, decide_compared, init_event, fire_if}
use scv_agent.Base.{none, ap, refl, map, not, false, ◌&&◌, ◌≡◌, ◌∷◌, List, Bool}

-- True where the condition holds and did not hold for the message before.
abbrev pub edges : Bool → List Bool → List Bool
edges before [] = []
edges before (b ∷ bs) = (b && not before) ∷ edges b bs

module _ {ℓ} {V : Type ℓ} (same : V → V → Bool) (test : V → Bool) where
  unfoldable pub run_compared : List V → Event V → List Decision
  run_compared [] s = []
  run_compared (v ∷ vs) s = let (d, s') = decide_compared same test v s in d ∷ run_compared vs s'

  run_compared-later :
      (vs : List V) (s : Event V)
      → s.first ≡ false
      → run_compared vs s ≡ map fire_if (edges s.was_true (map test vs))
  unfolding run_compared decide_compared
  run_compared-later [] s h = refl
  run_compared-later (v ∷ vs) s h =
      let s' : Event V = record s { was_true = test v; first = false } in
      rw h (ap (◌∷◌ (fire_if (test v && not s.was_true))) (run_compared-later vs s' refl))

  -- The event sampler with a comparison fires at the first message, and after it exactly at the
  -- messages where the condition became true.
  pub run_compared-edges :
      (v : V) (vs : List V)
      → run_compared (v ∷ vs) init_event
        ≡ pass_and_flush ∷ map fire_if (edges (test v) (map test vs))
  unfolding run_compared decide_compared
  run_compared-edges v vs =
      let s' : Event V = record { first = false; last = none; was_true = test v } in
      ap (◌∷◌ pass_and_flush) (run_compared-later vs s' refl)
