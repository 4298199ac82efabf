-- ===== src/Sampler/Nearness.antt =====
-- What the receiver of a dead-band pipeline knows.
use mathlib.Core.List.{[]}
use scv_agent.Json.{nan, fin, Num}
use scv_agent.Json.{fin, nan}
use scv_agent.Base.Int.{pos}
use scv_agent.Base.Int.{leb_ℤ, dist_ℤ, pos, ltb_ℤ, ℤ}
use scv_agent.Sampler.{Deadband, decide_deadband, drop}
use scv_agent.Base.{refl, Bool-cases, inr, arith, inl, true, ◌⊎◌, none, some, ◌∷◌, ◌≡◌, List}

-- After a finite value, with a finite threshold and a finite last sent value or none, the last
-- value that was sent is finite and equal to it or nearer than the threshold.
pub decide_deadband-IsNear :
    (v threshold : ℤ) (s : Deadband) {w : ℤ}
    → s.threshold ≡ fin threshold
    → (s.last_sent ≡ none) ⊎ (s.last_sent ≡ some (fin w))
    → let s' = (decide_deadband (fin v) s).1 in
      (u : ℤ) × (s'.last_sent ≡ some (fin u))
      × ((u ≡ v) ⊎ (ltb_ℤ (pos (dist_ℤ v u)) threshold ≡ true))
unfolding decide_deadband
decide_deadband-IsNear v threshold s {w} h (inl e) = (v, ground (arith, e), inl refl)
decide_deadband-IsNear v threshold s {w} h (inr e) =
    elim (Bool-cases (leb_ℤ threshold (pos (dist_ℤ v w)))) [
      | inl far ↦ (v, rw (e, h, far, decide_deadband) refl, inl refl)
      | inr near ↦ (w, rw (e, h, near, decide_deadband) e, inr (ground (arith, near)))
    ]

unfoldable pub run_deadband : List Num → Deadband → Deadband
run_deadband [] s = s
run_deadband (v ∷ vs) s = run_deadband vs (decide_deadband v s).1

decide_nan : (v : Num) (s : Deadband) → s.last_sent ≡ some nan → (decide_deadband v s).0 ≡ drop
unfolding decide_deadband
decide_nan v s e = rw (e, decide_deadband) (ground arith)

decide_deadband_same :
    (v : Num) (s : Deadband) → s.last_sent ≡ some nan → (decide_deadband v s).1 ≡ s
unfolding decide_deadband
decide_deadband_same v s e = rw (e, decide_deadband) (ground arith)

-- Once the dead-band sampler has sent NaN, it drops every later message.
pub decide_deadband_nan :
    (vs : List Num) (v : Num) (s : Deadband)
    → s.last_sent ≡ some nan
    → ((decide_deadband v (run_deadband vs s)).0 ≡ drop) × (run_deadband vs s ≡ s)
unfolding decide_deadband run_deadband
decide_deadband_nan [] v s e = (decide_nan v s e, refl)
decide_deadband_nan (w ∷ vs) v s e =
    let same : (decide_deadband w s).1 ≡ s = decide_deadband_same w s e in
    rw same (decide_deadband_nan vs v s e)
