-- ===== src/Telemetry/Heartbeat.antt =====
-- When the heartbeat goes out.
use scv_agent.HostStatus.{stale_after, logging_status}
use scv_agent.Base.{refl, some, arith, none, ◌≤◌, ◌∷◌, ◌-◌, true, false, ◌≡◌, ℕ}
use scv_agent.Telemetry.{
  report, Health, SelfTelemetry, on_logging, logging_block, Parts, logging_entry, build_health,
  publish,
}

module _ {ℓ κ} {A : Type ℓ} {B : Type κ} where
  -- Without a logging topic, every call of the timer sends one report.
  pub publish_unlogged :
      (a : Parts B) (now : ℕ) (t : SelfTelemetry A)
      → t.logs ≡ false
      → (h : Health A) × (publish a now t
          ≡ (true, record t { sent = h ∷ t.sent; shown = h ∷ t.shown }))
  unfolding publish build_health logging_entry
  publish_unlogged a now t h =
      let entry : logging_entry now t ≡ some none = ground (arith, h) in
      (report a none t, rw (entry, publish, build_health) refl)

  -- With a logging topic, a message of the logger that json.loads cannot read makes every call of
  -- the timer raise, and send nothing, until it is 5 seconds old.
  pub publish_unread :
      (a : Parts B) (now at : ℕ) (t : SelfTelemetry A)
      → t.logs ≡ true
      → now - at ≤ stale_after
      → publish a now (on_logging none at t) ≡ (false, on_logging none at t)
  unfolding publish build_health logging_entry logging_block on_logging logging_status
  publish_unread a now at t h f = ground (arith, h, f)
