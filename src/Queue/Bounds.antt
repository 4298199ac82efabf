-- ===== src/Queue/Bounds.antt =====
-- The length limit of each priority, and when a push succeeds.
use scv_agent.Base.{
  refl, true, false, Option-cases, ℕ, ◌≤◌, ◌<◌, String, ◌≡◌, Bool, Option, some, List, [], ◌∷◌,
  length, length-append, arith, ap, inl, inr,
}
use scv_agent.Queue.{
  Result-cases, Priority, Queue, ok, Waiting, Displaced, Handler, conflation, store, enqueue,
  settle, push_to, pop, run_handler, displaced_item, update, bump, nothing, evicted, replaced,
}
use scv_agent.Queue.Order.{pop-Takes}
use scv_agent.Queue.Cases.{conflation-Split, added, store_cases}

-- No priority holds more than `maxlen` entries.
abbrev pub IsBounded {ℓ} : {A : Type ℓ} → Queue A → Type 0
IsBounded s = (p : Priority) → length (s.queues p) ≤ s.maxlen

module _ {ℓ} {A : Type ℓ} where
  pub conflation-length :
      (p : Priority) (key : Option String) (a : A) (ws : List (Waiting A)) {old : A}
      {rest : List (Waiting A)}
      → conflation p key a ws ≡ some (old, rest)
      → length rest ≡ length ws
  conflation-length p key a ws h =
      let (k, e, c, t) = conflation-Split a p key ws h in
      omega (
        arith,
        ap length t.was,
        ap length t.now,
        length-append t.before (t.at ∷ t.behind),
        length-append t.before (record { key = some k; item = a } ∷ t.behind),
      )

module _ {ℓ} {A : Type ℓ} (m : ℕ) (p : Priority) (key : Option String) (a : A) where
  store-length-le :
      (ws : List (Waiting A)) {d : Displaced A} {ws' : List (Waiting A)}
      → store m p key a ws ≡ ok (d, ws')
      → length ws ≤ m
      → length ws' ≤ m
  store-length-le ws h b = elim (store_cases m p key a ws) [
    | inl (room, e) ↦ ground (arith, e, length-append ws (added m p key a ∷ []))
    | inr (inl (old, rest, full, c, e)) ↦ ground (arith, e, conflation-length p key a ws c)
    | inr (inr (inl (w, tl, full, c, s, e))) ↦
        ground (arith, e, ap length s, length-append tl (added m p key a ∷ []))
    | inr (inr (inr (z, s, e))) ↦ ground (arith, e)
  ]

  store-total :
      (ws : List (Waiting A))
      → 0 < m
      → (d : Displaced A) × (ws' : List (Waiting A)) × (store m p key a ws ≡ ok (d, ws'))
  store-total ws h = elim (store_cases m p key a ws) [
    | inl (room, e) ↦ (nothing, _, e)
    | inr (inl (old, rest, full, c, e)) ↦ (replaced old, rest, e)
    | inr (inr (inl (w, tl, full, c, s, e))) ↦ (evicted w.item, _, e)
    | inr (inr (inr (z, s, e))) ↦ absurd (omega arith)
  ]

module _ {ℓ} {A : Type ℓ} where
  -- A successful first block wrote one deque and one counter.
  pub enqueue_cases :
      (a : A) (p : Priority) (key : Option String) (s : Queue A) {d : Displaced A} {s' : Queue A}
      → enqueue a p key s ≡ ok (d, s')
      → (ws : List (Waiting A)) × (store s.maxlen p key a (s.queues p) ≡ ok (d, ws))
        × (s' ≡ record s { queues = update s.queues p ws; pushed = bump s.pushed p })
  unfolding enqueue
  enqueue_cases a p key s h = elim (Result-cases (store s.maxlen p key a (s.queues p))) [
    | inl ((d', ws), e) ↦ (ws, ground (arith, e), ground (arith, e))
    | inr (x, e) ↦ absurd (ground (arith, e))
  ]

  pub enqueue-store :
      (a : A) (p : Priority) (key : Option String) (s : Queue A) {d : Displaced A}
      {ws : List (Waiting A)}
      → store s.maxlen p key a (s.queues p) ≡ ok (d, ws)
      → enqueue a p key s
        ≡ ok (d, record s { queues = update s.queues p ws; pushed = bump s.pushed p })
  unfolding enqueue
  enqueue-store a p key s e = rw (e, enqueue) refl

  -- A queue of positive limit takes every item.
  pub enqueue-total :
      (a : A) (p : Priority) (key : Option String) (s : Queue A)
      → 0 < s.maxlen
      → (d : Displaced A) × (s' : Queue A) × (enqueue a p key s ≡ ok (d, s'))
  unfolding enqueue
  enqueue-total a p key s h =
      let (d, ws, e) = store-total s.maxlen p key a (s.queues p) h in
      (d, record s { queues = update s.queues p ws; pushed = bump s.pushed p }, rw (e, enqueue))

  pub enqueue-IsBounded :
      (a : A) (p : Priority) (key : Option String) (s : Queue A) {d : Displaced A} {s' : Queue A}
      → enqueue a p key s ≡ ok (d, s')
      → IsBounded s
      → IsBounded s'
  enqueue-IsBounded a p key s h b q =
      let (ws, e, left) = enqueue_cases a p key s h in
      rw left (ground (arith, store-length-le s.maxlen p key a (s.queues p) e (b p), b q))

  pub settle-IsBounded :
      (p : Priority) (d : Displaced A) (handled : Bool) (s : Queue A)
      → IsBounded s
      → IsBounded (settle p d handled s)
  unfolding settle
  settle-IsBounded p d handled s b q = ground (arith, b q)

  pub pop-IsBounded :
      (s : Queue A) {p : Priority} {a : A} {s' : Queue A}
      → pop s ≡ some (p, a, s')
      → IsBounded s
      → IsBounded s'
  pop-IsBounded s {p} h b q =
      let k = pop-Takes s h in rw k.left (ground (arith, b q, b p, ap length k.waits))

module _ {ℓ} {A S : Type ℓ} (handler : Option (Handler A S)) where
  -- Into a queue of positive limit that is within it, a push of any item succeeds but for an
  -- exception of the handler, and leaves every priority within the limit, whatever the handler
  -- does.
  pub push_to-IsBounded :
      (a : A) (p : Priority) (key : Option String) (s : Queue A) (x : S)
      → 0 < s.maxlen
      → IsBounded s
      → (quiet : Bool) × (s' : Queue A) × (x' : S) × (push_to handler a p key (s, x)
          ≡ ok (quiet, s', x'))
        × IsBounded s'
  unfolding push_to
  push_to-IsBounded a p key s x h b =
      let (d, s', e) = enqueue-total a p key s h in
      let (answer, x') = run_handler handler p (displaced_item d) x in
      let stored = enqueue-IsBounded a p key s e b in
      elim (Option-cases answer) [
        | inl f ↦ (false, s', x', rw (e, f, push_to), stored)
        | inr (handled, f) ↦ (
          true,
          settle p d handled s',
          x',
          rw (e, f, push_to),
          settle-IsBounded p d handled s' stored,
        )
      ]
