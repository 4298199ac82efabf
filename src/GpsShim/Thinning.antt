-- ===== src/GpsShim/Thinning.antt =====
-- How many positions the shim publishes.
use mathlib.Core.List.{[], ◌∷◌}
use scv_agent.GpsShim.{Shim, too_soon, on_odom, Odometry, run, Projection}
use scv_agent.Base.{
  sym, subst, false, true, suc, inr, inl, Bool-cases, ◌+◌, ◌≡◌, arith, ◌*◌, ◌-◌, ◌≤◌, List, ℕ,
}

-- The times do not run backwards, up to an end.
abbrev pub Upto {ℓ} : {R : Type ℓ} → ℕ → List (ℕ × Odometry R) → ℕ → Type 0
Upto start [] end = start ≤ end
Upto start ((now, o) ∷ os) end = (start ≤ now) × Upto now os end

Upto-le {ℓ} :
    {R : Type ℓ} (start : ℕ) (os : List (ℕ × Odometry R)) (end : ℕ)
    → Upto start os end
    → start ≤ end
Upto-le start [] end h = h
Upto-le start ((now, o) ∷ os) end h = omega (arith, h.0, Upto-le now os end h.1)

module _ {ℓ} {R : Type ℓ} (m : Projection R) where
  abbrev Counts : ℕ → ℕ → Shim R → Shim R → Type 0
  Counts end last s s' = (n : ℕ) × (s'.count ≡ s.count + n) × (n * s.min_interval ≤ end - last)

  soon-eq :
      (now : ℕ) (o : Odometry R) (s : Shim R) → too_soon now s ≡ true → (on_odom m now o s).1 ≡ s
  unfolding on_odom
  soon-eq now o s h = simp h

  late-eq :
      (now : ℕ) (o : Odometry R) (s : Shim R)
      → too_soon now s ≡ false
      → (on_odom m now o s).1 ≡ record s { last = now; count = suc s.count }
  unfolding on_odom
  late-eq now o s h = simp h

  -- The positions that the shim publishes until an end, times its interval, are no more than the
  -- time from the last one before them, if the clock does not run backwards.
  pub run-count :
      (os : List (ℕ × Odometry R)) (s : Shim R) (start end : ℕ)
      → s.last ≤ start
      → Upto start os end
      → (n : ℕ) × ((run m os s).count ≡ s.count + n) × (n * s.min_interval ≤ end - s.last)
  unfolding run too_soon
  run-count [] s start end h f = (0, omega arith, omega arith)
  run-count ((now, o) ∷ os) s start end h f = elim (Bool-cases (too_soon now s)) [
    | inl soon ↦
        subst (λ x. Counts end s.last s (run m os x)) (sym (soon-eq now o s soon))
          (run-count os s now end (omega (arith, h, f.0)) f.1)
    | inr late ↦
        let s' : Shim R = record s { last = now; count = suc s.count } in
        let (n, e, b) = run-count os s' now end (omega arith) f.1 in
        let far : s.min_interval ≤ now - s.last = ground (arith, late) in
        let later = Upto-le now os end f.1 in
        subst (λ x. Counts end s.last s (run m os x)) (sym (late-eq now o s late))
          (suc n, omega (arith, e), grind (arith, b, far, later))
  ]
