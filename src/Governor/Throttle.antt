-- ===== src/Governor/Throttle.antt =====
-- The pauses of the pipelines follow the throttle, and the throttle has a hysteresis.
use mathlib.Core.List.{[]}
use scv_agent.Governor.{under, is_bulk, over, set_paused, check, check_all, Governor, Target}
use scv_agent.Base.{
  false, inr, true, inl, not, arith, ◌⊎◌, ◌∷◌, ◌&&◌, ◌*◌, ◌≡◌, ◌≤◌, List, Bool-cases, All, Bool, ℕ,
}

-- A pipeline is paused exactly when the governor throttles and the pipeline is bulk.
abbrev pub Agrees : Bool → Target → Type 0
Agrees b t = t.paused ≡ (b && is_bulk t.msg_class)

abbrev pub IsConsistent : Governor → Type 0
IsConsistent g = All (Agrees g.throttled) g.pipelines

set_paused-Agrees :
    (a b : Bool) (ts : List Target) → All (Agrees a) ts → All (Agrees b) (set_paused b ts)
set_paused-Agrees a b [] h = tt
set_paused-Agrees a b (t ∷ ts) h = (ground (arith, h.0), set_paused-Agrees a b ts h.1)

check-IsConsistent : (cpu rss : ℕ) (g : Governor) → IsConsistent g → IsConsistent (check cpu rss g)
unfolding check
check-IsConsistent cpu rss g h = elim (Bool-cases (over cpu rss g && not g.throttled)) [
  | inl on ↦ rw (on, check) (set_paused-Agrees g.throttled true g.pipelines h)
  | inr same ↦ elim (Bool-cases (g.throttled && under cpu rss g)) [
    | inl off ↦ rw (same, off, check) (set_paused-Agrees g.throttled false g.pipelines h)
    | inr stay ↦ rw (same, stay, check) h
  ]
]

-- After any loads, the paused pipelines are the bulk ones if the governor throttles, and none if
-- it does not, if this held before.
pub check_all-IsConsistent :
    (loads : List (ℕ × ℕ)) (g : Governor) → IsConsistent g → IsConsistent (check_all loads g)
unfolding check_all
check_all-IsConsistent [] g h = h
check_all-IsConsistent ((cpu, rss) ∷ loads) g h =
    check_all-IsConsistent loads (check cpu rss g) (check-IsConsistent cpu rss g h)

-- A load within the limits that is not below 80 % of both changes nothing in the governor.
pub check_between :
    (cpu rss : ℕ) (g : Governor)
    → cpu ≤ g.cpu_limit
    → rss ≤ g.mem_limit
    → (g.cpu_limit * 8 ≤ cpu * 10) ⊎ (g.mem_limit * 8 ≤ rss * 10)
    → check cpu rss g ≡ g
unfolding check
check_between cpu rss g c r near = ground (arith, near)
