-- ===== src/Downlink/Command/Effects.antt =====
-- What a command does to the robot: at most one message or call, and only after the whole chain.
use scv_agent.Downlink.Command.Handles.{
  IsFor, get_client-Gets, get_publisher-Gets, side-Answerless, IsFiled, Gets, side_of, Side,
}
use scv_agent.Downlink.Registry.{conversion_error, item}
use scv_agent.Downlink.Command.Keeps.{
  Keeps-throw, Keeps-Option, Keeps-pure, Keeps-bind, Keeps-finish, Keeps,
}
use scv_agent.Downlink.Command.Checks.{finish, field_of}
use scv_agent.Downlink.Command.Methods.{
  execute, execute_service, answer_response, service_attempt, call_service, execute_topic, send,
  topic_attempt, get_client, get_publisher,
}
use scv_agent.Json.{json_keys, is_text, get, Json, Fields}
use scv_agent.Base.{
  ap, false, true, none, Option, if◌then◌else◌, refl, sym, subst, ◌∷◌, Bool-cases, inr, inl,
  Option-cases, arith, ◌⊎◌, some, ◌≡◌,
}
use scv_agent.Downlink.Command.{
  Handle, response, done, pure, ◌>>◌, call_failed, no_service, service_timeout, M, call_raises,
  times_out, publish_failed, replies_with, failed, Call, published_once, calls, accepted, raises,
  returns, after, Returns, publishes, Detail, Status, World, Effect, Executor,
}

-- Nothing was sent, or the envelope's payload was sent once, in the way of the entry's kind, by a
-- handle of the entry.
abbrev Sends : (Fields → Json → Effect) → Fields → Fields → Executor → Side → Type 0
Sends make env entry s x =
    (IsFiled (side_of s) → IsFiled x)
    × ((x.0 ≡ s.effects)
        ⊎ ((p : Json) × (made : Fields) × (get "payload" env ≡ some p)
            × (IsFiled (side_of s) → IsFor entry made)
            × (x.0 ≡ make made p ∷ s.effects)))

-- The effect that the entry's kind stands for.
abbrev pub effect_of : Fields → Fields → Json → Effect
effect_of entry made p =
    if is_text "topic" (item "kind" entry) then publishes made p else calls made p

module _ (w : World) (env entry : Fields) where
  quiet_after :
      (make : Fields → Json → Effect) {A : Type 0} (m : M A) (s s' : Executor)
      → Keeps side_of m
      → Sends make env entry s (side_of s')
      → Sends make env entry s (side_of (m s').1)
  quiet_after make m s s' k h = subst (Sends make env entry s) (sym (k.at s')) h

  Keeps-answer : (t : Status) (d : Detail) → Keeps side_of (finish env t d)
  Keeps-answer t d = Keeps-finish side-Answerless env t d

  -- Answered inside the `try` of `_execute_service`.
  abbrev answered_here : Detail → M (Option Json)
  answered_here d = do finish env failed d; pure none

  Keeps-answered_here : (d : Detail) → Keeps side_of (answered_here d)
  Keeps-answered_here d = Keeps-bind _ _ (Keeps-answer failed d) (λ _. Keeps-pure none)

  send-Sends :
      (p : Json) (s : Executor) (r : Returns Handle) (s' : Executor)
      → get "payload" env ≡ some p
      → Gets w entry s r s'
      → Sends publishes env entry s (side_of (after r (λ handle. send w p handle) s').1)
  unfolding send
  send-Sends p s (returns h) s' g (e, f, own) = elim (Bool-cases (w.publish h.number p)) [
    | inl ok ↦
        rw (ok, send)
          (f, inr (p, h.made_for, g, λ x. own x h refl, ap (◌∷◌ (publishes h.made_for p)) e))
    | inr bad ↦
        rw (bad, send)
          (f, inr (p, h.made_for, g, λ x. own x h refl, ap (◌∷◌ (publishes h.made_for p)) e))
  ]
  send-Sends p s (raises x) s' g (e, f, own) = (f, inl e)

  topic_attempt-Sends :
      (s : Executor) → Sends publishes env entry s (side_of (topic_attempt w env entry s).1)
  unfolding topic_attempt field_of
  topic_attempt-Sends s = elim (Option-cases (get "ros_type" entry)) [
    | inl g ↦ rw (g, topic_attempt, field_of) (λ f. f, inl refl)
    | inr (r, g) ↦ elim (Option-cases (get "payload" env)) [
      | inl n ↦ rw (g, n, topic_attempt, field_of) (λ f. f, inl refl)
      | inr (p, n) ↦ elim (Bool-cases (w.make_message r p)) [
        | inl m ↦
            let (x, s') = get_publisher w entry s in
            let e : topic_attempt w env entry s ≡ after x (λ handle. send w p handle) s' =
              ground (arith, g, n, m) in
            subst (λ q. Sends publishes env entry s (side_of q.1)) (sym e)
              (send-Sends p s x s' n (get_publisher-Gets w entry s))
        | inr m ↦ rw (g, n, m, topic_attempt, field_of) (λ f. f, inl refl)
      ]
    ]
  ]

  execute_topic-Sends :
      (s : Executor) → Sends publishes env entry s (side_of (execute_topic w env entry s).1)
  unfolding execute_topic
  execute_topic-Sends s =
      let (r, s') = topic_attempt w env entry s in go r s' (topic_attempt-Sends s)
    where
      go :
          (r : Returns (Unit {0})) (s' : Executor)
          → Sends publishes env entry s (side_of s')
          → let q : Returns (Unit {0}) × Executor = elim r [
            | returns u ↦ finish env accepted published_once s'
            | raises e ↦ finish env failed publish_failed s'
          ] in
            Sends publishes env entry s (side_of q.1)
      go (returns u) s' h = quiet_after publishes _ s s' (Keeps-answer accepted published_once) h
      go (raises e) s' h = quiet_after publishes _ s s' (Keeps-answer failed publish_failed) h

  call_service-Sends :
      (p : Json) (h : Handle) (s s' : Executor)
      → get "payload" env ≡ some p
      → Gets w entry s (returns h) s'
      → Sends calls env entry s (side_of (call_service w env p h s').1)
  unfolding call_service
  call_service-Sends p h s s' g (e, f, own) = go (w.call h.number p) refl
    where
      called : Executor
      called = record s' { effects = calls h.made_for p ∷ s'.effects }

      sent : Sends calls env entry s (side_of called)
      sent = (f, inr (p, h.made_for, g, λ x. own x h refl, ap (◌∷◌ (calls h.made_for p)) e))

      go :
          (c : Call)
          → w.call h.number p ≡ c
          → Sends calls env entry s (side_of (call_service w env p h s').1)
      go (replies_with r) e = rw (e, call_service) sent
      go times_out e =
          rw (e, call_service)
            (quiet_after calls (answered_here service_timeout) s called
              (Keeps-answered_here service_timeout) sent)
      go call_raises e = rw (e, call_service) sent

  -- `wait_for_service`, and the call.
  abbrev waits : Json → Handle → M (Option Json)
  waits p h =
      if w.wait_for_service h.number then call_service w env p h else answered_here no_service

  waits-Sends :
      (p : Json) (s : Executor) (r : Returns Handle) (s' : Executor)
      → get "payload" env ≡ some p
      → Gets w entry s r s'
      → Sends calls env entry s (side_of (after r (waits p) s').1)
  waits-Sends p s (returns h) s' g got = elim (Bool-cases (w.wait_for_service h.number)) [
    | inl there ↦ rw there (call_service-Sends p h s s' g got)
    | inr absent ↦ rw absent (
        quiet_after calls (answered_here no_service) s s' (Keeps-answered_here no_service)
          (got.1, inl got.0))
  ]
  waits-Sends p s (raises x) s' g got = (got.1, inl got.0)

  service_attempt-Sends :
      (s : Executor) → Sends calls env entry s (side_of (service_attempt w env entry s).1)
  unfolding service_attempt field_of
  service_attempt-Sends s = elim (Option-cases (get "ros_type" entry)) [
    | inl g ↦ rw (g, service_attempt, field_of) (λ f. f, inl refl)
    | inr (r, g) ↦ elim (Option-cases (get "payload" env)) [
      | inl n ↦ rw (g, n, service_attempt, field_of) (λ f. f, inl refl)
      | inr (p, n) ↦ elim (Bool-cases (w.make_request r p)) [
        | inl m ↦
            let (x, s') = get_client w entry s in
            let e : service_attempt w env entry s ≡ after x (waits p) s' =
              ground (arith, g, n, m) in
            subst (λ q. Sends calls env entry s (side_of q.1)) (sym e)
              (waits-Sends p s x s' n (get_client-Gets w entry s))
        | inr m ↦ rw (g, n, m, service_attempt, field_of) (λ f. f, inl refl)
      ]
    ]
  ]

  Keeps-answer_response : (r : Option Json) → Keeps side_of (answer_response w env r)
  unfolding answer_response
  Keeps-answer_response none = Keeps-pure tt
  Keeps-answer_response (some r) =
      Keeps-Option (w.dump_response r) _ _ (Keeps-throw conversion_error)
        (λ j. Keeps-answer done (response j))

  execute_service-Sends :
      (s : Executor) → Sends calls env entry s (side_of (execute_service w env entry s).1)
  unfolding execute_service
  execute_service-Sends s =
      let (r, s') = service_attempt w env entry s in go r s' (service_attempt-Sends s)
    where
      go :
          (r : Returns (Option Json)) (s' : Executor)
          → Sends calls env entry s (side_of s')
          → let q : Returns (Unit {0}) × Executor = elim r [
            | returns r ↦ answer_response w env r s'
            | raises e ↦ finish env failed call_failed s'
          ] in
            Sends calls env entry s (side_of q.1)
      go (returns r) s' h = quiet_after calls _ s s' (Keeps-answer_response r) h
      go (raises e) s' h = quiet_after calls _ s s' (Keeps-answer failed call_failed) h

  pub execute-Sends :
      (s : Executor) → Sends (effect_of entry) env entry s (side_of (execute w env entry s).1)
  unfolding execute field_of
  execute-Sends s = elim (Option-cases (get "kind" entry)) [
    | inl n ↦ rw (n, execute, field_of) (λ f. f, inl refl)
    | inr (k, g) ↦ elim (Bool-cases (is_text "topic" k)) [
      | inl t ↦
          let kind : is_text "topic" (item "kind" entry) ≡ true = ground (arith, g, t) in
          let e : execute w env entry s ≡ execute_topic w env entry s = ground (arith, g, t) in
          rw (kind, e) (execute_topic-Sends s)
      | inr t ↦
          let kind : is_text "topic" (item "kind" entry) ≡ false = ground (arith, g, t) in
          let e : execute w env entry s ≡ execute_service w env entry s = ground (arith, g, t) in
          rw (kind, e) (execute_service-Sends s)
    ]
  ]
