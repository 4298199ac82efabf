-- ===== src/Downlink/Command/Execution.antt =====
-- The execution of a command, seen through a part of the state: it ends as
-- `_finish` ends, or with an exception before any answer.
use scv_agent.Base.Dict.{lookup}
use mathlib.Core.Option.{none}
use scv_agent.Downlink.Command.Keeps.{
  Keeps-hash, Keeps-throw, Keeps-if, Keeps-field_of, Keeps-bind, Keeps,
}
use scv_agent.Downlink.Command.Checks.{field_of, finish}
use scv_agent.Downlink.Command.Methods.{
  cached_handle, answer_response, execute, execute_service, service_attempt, call_service,
  execute_topic, topic_attempt, send, get_client, get_publisher,
}
use scv_agent.Downlink.Registry.{key_error, conversion_error, Error}
use scv_agent.Json.{json_keys, is_text, get, Json, Fields, Key}
use scv_agent.Base.{
  arith, refl, sym, ◌∷◌, subst, Option-cases, Bool-cases, some, if◌then◌else◌, Option, ◌∙◌, inr,
  ◌⊎◌, inl, ◌≡◌, List,
}
use scv_agent.Downlink.Command.{
  Handle, Effect, call_raises, ◌>>◌, pure, times_out, response, done, calls, service_timeout,
  publish_failed, replies_with, call_failed, no_service, published_once, after, Call, accepted,
  failed, M, raises, Detail, Status, returns, World, Returns, Executor,
}

-- A part of the state that sending does not write to.
pub record Unsent {X : Type 0} (view : Executor → X) : Type 0 where
  pub publishers :
      (s : Executor) (x : List (Key × (Json × Handle)))
      → view (record s { publishers = x }) ≡ view s
  pub clients :
      (s : Executor) (x : List (Key × (Json × Handle))) → view (record s { clients = x }) ≡ view s
  pub effects : (s : Executor) (x : List Effect) → view (record s { effects = x }) ≡ view s

module _ {X : Type 0} (view : Executor → X) where
  abbrev pub Same : Executor → Executor → Type 0
  Same s s' = view s' ≡ view s

  -- `R` holds of how the action ended, or it raised with the part as it was, for a reason.
  abbrev pub Ends :
      (Executor → Returns (Unit {0}) × Executor → Type 0)
      → Type 0
      → Executor
      → Returns (Unit {0}) × Executor
      → Type 0
  Ends R Reason s r = R s r ⊎ (Reason × (e : Error) × (r.0 ≡ raises e) × Same s r.1)

  -- What `finish` does after the state `s`, also when it follows a `finish` that raised, and which
  -- reasons for an exception there are.
  pub record Finishing (w : World) (env entry : Fields)
      (R : Executor → Returns (Unit {0}) × Executor → Type 0) (Reason : Type 0) (s : Executor)
      : Type 0 where
    pub finish_ends :
        (t : Status) (d : Detail) (s' : Executor) → Same s s' → Ends R Reason s (finish env t d s')
    pub once_more :
        (e : Error) (t : Status) (d : Detail) (s' : Executor)
        → R s (raises e, s')
        → R s (finish env t d s')
    pub no_kind : get "kind" entry ≡ none → Reason
    pub no_dump : (r : Json) → w.dump_response r ≡ none → Reason

module _ {X : Type 0} {view : Executor → X} (free : Unsent view) (w : World) (entry : Fields) where
  Keeps-get_publisher : Keeps view (get_publisher w entry)
  unfolding get_publisher
  Keeps-get_publisher = Keeps-bind _ _ (Keeps-field_of "interface_id" entry) (λ id.
      Keeps-bind _ _ (Keeps-hash id) (λ k. Keeps-bind _ _ (Keeps-field_of "version" entry) (λ v.
        record {
          at = λ s. elim (Option-cases (cached_handle w v (lookup k s.publishers))) [
            | inr (h, e) ↦ rw e refl
            | inl e ↦ elim (Option-cases (w.create_publisher entry)) [
              | inl n ↦ rw (e, n) refl
              | inr (h, n) ↦ rw (e, n) (free.publishers s _)
            ]
          ];
        })))

  Keeps-get_client : Keeps view (get_client w entry)
  unfolding get_client
  Keeps-get_client = Keeps-bind _ _ (Keeps-field_of "interface_id" entry) (λ id.
      Keeps-bind _ _ (Keeps-hash id) (λ k. Keeps-bind _ _ (Keeps-field_of "version" entry) (λ v.
        record {
          at = λ s. elim (Option-cases (cached_handle w v (lookup k s.clients))) [
            | inr (h, e) ↦ rw e refl
            | inl e ↦ elim (Option-cases (w.create_client entry)) [
              | inl n ↦ rw (e, n) refl
              | inr (h, n) ↦ rw (e, n) (free.clients s _)
            ]
          ];
        })))

  Keeps-send : (p : Json) (handle : Handle) → Keeps view (send w p handle)
  unfolding send
  Keeps-send p handle = record {
    at = λ s. elim (Bool-cases (w.publish handle.number p)) [
      | inl e ↦ rw e (free.effects s _)
      | inr e ↦ rw e (free.effects s _)
    ];
  }

module _ {X : Type 0} {view : Executor → X} (free : Unsent view) (w : World) (env entry : Fields)
    (R : Executor → Returns (Unit {0}) × Executor → Type 0) (Reason : Type 0) (s : Executor)
    (f : Finishing view w env entry R Reason s) where
  Keeps-topic_attempt : Keeps view (topic_attempt w env entry)
  unfolding topic_attempt
  Keeps-topic_attempt = Keeps-bind _ _ (Keeps-field_of "ros_type" entry) (λ t.
      Keeps-bind _ _ (Keeps-field_of "payload" env) (λ p.
        Keeps-if (w.make_message t p) _ _
          (Keeps-bind _ _ (Keeps-get_publisher free w entry) (λ h. Keeps-send free w entry p h))
          (Keeps-throw conversion_error)))

  execute_topic-Ends : Ends view R Reason s (execute_topic w env entry s)
  unfolding execute_topic
  execute_topic-Ends =
      let (r, s') = topic_attempt w env entry s in go r s' (Keeps-topic_attempt.at s)
    where
      go :
          (r : Returns (Unit {0})) (s' : Executor)
          → Same view s s'
          → Ends view R Reason s (elim r [
            | returns u ↦ finish env accepted published_once s'
            | raises e ↦ finish env failed publish_failed s'
          ])
      go (returns u) s' q = f.finish_ends accepted published_once s' q
      go (raises x) s' q = f.finish_ends failed publish_failed s' q

  abbrev Tried : Returns (Option Json) → Executor → Type 0
  Tried (returns none) s' = R s (returns tt, s')
  Tried (returns (some j)) s' = Same view s s'
  Tried (raises e) s' = Same view s s' ⊎ R s (raises e, s')

  abbrev answered_here : Detail → M (Option Json)
  answered_here d = do finish env failed d; pure none

  answered_here-Tried :
      (d : Detail) (s' : Executor)
      → Same view s s'
      → let (r, s'') = answered_here d s' in Tried r s''
  answered_here-Tried d s' q =
      let (r, s'') = finish env failed d s' in go r s'' (f.finish_ends failed d s' q)
    where
      go :
          (r : Returns (Unit {0})) (s'' : Executor)
          → Ends view R Reason s (r, s'')
          → let (o, s3) = after r (λ _. pure none) s'' in Tried o s3
      go (returns tt) s'' (inl t) = t
      go (returns tt) s'' (inr (y, x, e, q)) = absurd (ground (arith, e))
      go (raises x) s'' (inl t) = inr t
      go (raises x) s'' (inr (y, _, e, q)) = inl q

  call_service-Tried :
      (p : Json) (handle : Handle) (s' : Executor)
      → Same view s s'
      → let (r, s'') = call_service w env p handle s' in Tried r s''
  unfolding call_service
  call_service-Tried p handle s' q = go (w.call handle.number p) refl
    where
      sent : Same view s (record s' { effects = calls handle.made_for p ∷ s'.effects })
      sent = free.effects s' _ ∙ q

      go :
          (c : Call)
          → w.call handle.number p ≡ c
          → let (r, s'') = call_service w env p handle s' in Tried r s''
      go (replies_with r) e = rw (e, call_service) sent
      go times_out e =
          rw (e, call_service)
            (answered_here-Tried service_timeout
              (record s' { effects = calls handle.made_for p ∷ s'.effects }) sent)
      go call_raises e = rw (e, call_service) (inl sent)

  abbrev waits : Json → Handle → M (Option Json)
  waits p handle =
      if w.wait_for_service handle.number
      then call_service w env p handle
      else answered_here no_service

  waits-Tried :
      (p : Json) (r : Returns Handle) (s' : Executor)
      → Same view s s'
      → let (r', s'') = after r (waits p) s' in Tried r' s''
  waits-Tried p (returns handle) s' q = elim (Bool-cases (w.wait_for_service handle.number)) [
    | inl there ↦ rw there (call_service-Tried p handle s' q)
    | inr absent ↦ rw absent (answered_here-Tried no_service s' q)
  ]
  waits-Tried p (raises x) s' q = inl q

  service_attempt-Tried : let (r, s') = service_attempt w env entry s in Tried r s'
  unfolding service_attempt field_of
  service_attempt-Tried = elim (Option-cases (get "ros_type" entry)) [
    | inl g ↦ rw (g, service_attempt, field_of) (inl refl)
    | inr (r, g) ↦ elim (Option-cases (get "payload" env)) [
      | inl n ↦ rw (g, n, service_attempt, field_of) (inl refl)
      | inr (p, n) ↦ elim (Bool-cases (w.make_request r p)) [
        | inl m ↦
            let (x, s') = get_client w entry s in
            let e : service_attempt w env entry s ≡ after x (waits p) s' =
              rw (g, n, m, service_attempt, field_of) refl in
            subst (λ q. Tried q.0 q.1) (sym e)
              (waits-Tried p x s' ((Keeps-get_client free w entry).at s))
        | inr m ↦ rw (g, n, m, service_attempt, field_of) (inl refl)
      ]
    ]
  ]

  execute_service-Ends : Ends view R Reason s (execute_service w env entry s)
  unfolding execute_service answer_response
  execute_service-Ends =
      let (r, s') = service_attempt w env entry s in go r s' service_attempt-Tried
    where
      go :
          (r : Returns (Option Json)) (s' : Executor)
          → Tried r s'
          → Ends view R Reason s (elim r [
            | returns r ↦ answer_response w env r s'
            | raises e ↦ finish env failed call_failed s'
          ])
      go (returns none) s' t = inl t
      go (returns (some j)) s' q = elim (Option-cases (w.dump_response j)) [
        | inl n ↦ rw (n, answer_response) (inr (f.no_dump j n, conversion_error, refl, q))
        | inr (d, e) ↦ rw (e, answer_response) (f.finish_ends done (response d) s' q)
      ]
      go (raises x) s' (inl q) = f.finish_ends failed call_failed s' q
      go (raises x) s' (inr t) = inl (f.once_more x failed call_failed s' t)

  pub execute-Ends : Ends view R Reason s (execute w env entry s)
  unfolding execute field_of
  execute-Ends = elim (Option-cases (get "kind" entry)) [
    | inl n ↦ rw (n, execute, field_of) (inr (f.no_kind n, key_error, refl, refl))
    | inr (k, g) ↦ elim (Bool-cases (is_text "topic" k)) [
      | inl t ↦ rw (g, t, execute, field_of) execute_topic-Ends
      | inr t ↦ rw (g, t, execute, field_of) execute_service-Ends
    ]
  ]
