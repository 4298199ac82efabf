-- ===== src/HostStatus/Recording.antt =====
-- When the health report says that the vehicle records.
use mathlib.Core.Option.{none}
use scv_agent.HostStatus.{
  is_alive, sub_dict, stale_after, session_status, logging_status, recording, is_session,
}
use scv_agent.Json.{Json, Fields, Num}
use scv_agent.Base.{
  refl, Option-cases, inl, inr, ltb, Bool-cases, arith, true, ◌≤◌, some, ◌≡◌, ℕ, Option,
}

pub record IsLive (raw : Option (Option Json)) (age : ℕ) : Type 0 where
  pub health : Fields
  pub message : raw ≡ some (some (Json.obj health))
  pub fresh : age ≤ stale_after
  pub in_session : is_session health ≡ true
  pub recorder : Fields
  pub has_recorder : sub_dict "recorder" health ≡ some recorder
  pub alive : is_alive recorder ≡ true

session_status-recording :
    (h : Fields) {s b : Option Json} {t e : Num}
    → session_status h ≡ some (recording s b t e)
    → (is_session h ≡ true)
      × ((r : Fields) × (sub_dict "recorder" h ≡ some r) × (is_alive r ≡ true))
unfolding session_status
session_status-recording h g = elim (Bool-cases (is_session h)) [
  | inr no' ↦ absurd (ground (arith, no'))
  | inl yes' ↦ elim (Option-cases (sub_dict "recorder" h)) [
    | inl n ↦ absurd (ground (arith, yes', n))
    | inr (r, n) ↦ elim (Bool-cases (is_alive r)) [
      | inr dead ↦ absurd (ground (arith, yes', n, dead))
      | inl alive ↦ (yes', (r, n, alive))
    ]
  ]
]

-- The health report says that the vehicle records only if the last message of the logger is an
-- object, is no older than the limit, and tells of a session whose recorder is alive.
pub logging_status-IsLive :
    (raw : Option (Option Json)) (age : ℕ) {s b : Option Json} {t e : Num}
    → logging_status raw age ≡ some (recording s b t e)
    → IsLive raw age
unfolding logging_status
logging_status-IsLive none age g = absurd (ground arith)
logging_status-IsLive (some none) age g = absurd (ground arith)
logging_status-IsLive (some (some (Json.obj h))) age {s} {b} {t} {e} g =
    elim (Bool-cases (ltb stale_after age)) [
      | inl old ↦ absurd (ground (arith, old))
      | inr new ↦
          let (session, (r, has, alive)) =
            session_status-recording h {s = s} {b = b} {t = t} {e = e} (ground (arith, new)) in
          record {
            health = h;
            message = refl;
            fresh = ground (arith, new);
            in_session = session;
            recorder = r;
            has_recorder = has;
            alive = alive;
          }
    ]
logging_status-IsLive (some (some v)) age g = absurd (ground arith)
