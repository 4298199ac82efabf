-- ===== src/Mqtt/Session.antt =====
-- A connection that is up has all subscriptions.
use mathlib.Core.Bool.{false}
use scv_agent.Mqtt.{close, on_disconnect, on_connect, subscribe, is_connected, connect, Mqtt, init}
use scv_agent.Base.{
  List, inr, [], ◌∷◌, ◌++◌, ap, inl, Bool-cases, refl, arith, true, Bool, ◌≡◌, String,
}

pub data Step (s : Mqtt) : Mqtt → Type 0 where
  connects : Step s (connect s)
  answers : (is_failure : Bool) → Step s (on_connect is_failure s)
  loses : Step s (on_disconnect s)
  closes : Step s (close s)

-- The states after any steps and calls of `subscribe`, with the topics of these calls, in order.
pub data Reach : List String → Mqtt → Type 0 where
  here : Reach [] init
  next : {topics : List String} {s t : Mqtt} → Reach topics s → Step s t → Reach topics t
  subscribes :
      {topics : List String} {s : Mqtt} (topic : String)
      → Reach topics s
      → Reach (topics ++ topic ∷ []) (subscribe topic s)

abbrev pub IsSubscribed : List String → Mqtt → Type 0
IsSubscribed topics s =
    (s.subscriptions ≡ topics) × (is_connected s.state ≡ true → s.requested ≡ topics)

Step-IsSubscribed :
    {topics : List String} {s t : Mqtt} → Step s t → IsSubscribed topics s → IsSubscribed topics t
unfolding connect on_connect on_disconnect close
Step-IsSubscribed {s = s} connects h = (h.0, λ c. absurd (ground (arith, c)))
Step-IsSubscribed {s = s} (answers true) h = (h.0, λ c. absurd (ground (arith, c)))
Step-IsSubscribed {s = s} (answers false) h = (h.0, λ c. h.0)
Step-IsSubscribed {s = s} loses h = (h.0, λ c. absurd (ground (arith, c)))
Step-IsSubscribed {s = s} closes h = (h.0, λ c. absurd (ground (arith, c)))

subscribe-IsSubscribed :
    (topic : String) {topics : List String} (s : Mqtt)
    → IsSubscribed topics s
    → IsSubscribed (topics ++ topic ∷ []) (subscribe topic s)
unfolding subscribe
subscribe-IsSubscribed topic s (had, asked) = elim (Bool-cases (is_connected s.state)) [
  | inl on ↦
      rw (on, subscribe) (ap (λ x. x ++ topic ∷ []) had, λ c. ap (λ x. x ++ topic ∷ []) (asked on))
  | inr off ↦
      rw (off, subscribe) (ap (λ x. x ++ topic ∷ []) had, λ c. absurd (ground (arith, off, c)))
]

-- After any calls and callbacks, the topics of all calls of subscribe are kept, in order, and while
-- the connection is up each of them has been subscribed on this connection, in the same order.
pub Reach-IsSubscribed : {topics : List String} {s : Mqtt} → Reach topics s → IsSubscribed topics s
unfolding init
Reach-IsSubscribed here = (refl, λ c. refl)
Reach-IsSubscribed (next r st) = Step-IsSubscribed st (Reach-IsSubscribed r)
Reach-IsSubscribed (subscribes {s = s} topic r) =
    subscribe-IsSubscribed topic s (Reach-IsSubscribed r)
