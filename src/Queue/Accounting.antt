-- ===== src/Queue/Accounting.antt =====
-- No item is lost from the books: the two locked blocks of `push`, the handler between them, and
-- `pop`, interleaved by any number of threads.
use mathlib.Core.List.{map-append, Perm, perm_middle}
use mathlib.Core.List.Perm
use scv_agent.Base.{
  ◌∙◌, if◌then◌else◌, subst, append-nil, ℕ, ◌+◌, String, ◌≡◌, refl, Bool, true, Option, some, List,
  [], ◌∷◌, ◌++◌, length, length-append, arith, ap, inl, inr, map,
}
use scv_agent.Queue.{
  init, Priority, same, Queue, Result, ok, Waiting, Displaced, nothing, evicted, replaced, store,
  enqueue, settle, pop, bump,
}
use scv_agent.Queue.Cases.{conflation-Split, Split, added, store_cases}
use scv_agent.Queue.Order.{pop-Takes}
use scv_agent.Queue.Bounds.{
  conflation-length, enqueue_cases, IsBounded, enqueue-IsBounded, settle-IsBounded, pop-IsBounded,
}

abbrev pub items {ℓ} : {A : Type ℓ} → List (Waiting A) → List A
items = map (λ w. w.item)

abbrev pub displaced_items {ℓ} : {A : Type ℓ} → Displaced A → List A
displaced_items nothing = []
displaced_items (evicted a) = a ∷ []
displaced_items (replaced a) = a ∷ []

module _ {ℓ} {A : Type ℓ} where
  exchange-perm : (x y : A) (xs ys : List A) → Perm (x ∷ (xs ++ y ∷ ys)) (y ∷ (xs ++ x ∷ ys))
  exchange-perm x y xs ys =
      Perm.trans (Perm.cons x (perm_middle xs ys))
        (Perm.trans (Perm.swap y x (xs ++ ys)) (Perm.cons y (Perm.symm (perm_middle xs ys))))

  last-perm : (x : A) (xs : List A) → Perm (x ∷ xs) (xs ++ x ∷ [])
  last-perm x xs =
      subst (λ r. Perm (x ∷ r) (xs ++ x ∷ [])) (append-nil xs) (Perm.symm (perm_middle xs []))

  split-perm :
      {k : String} {a : A} {ws : List (Waiting A)} {old : A} {rest : List (Waiting A)}
      → Split k a ws old rest
      → Perm (a ∷ items ws) (old ∷ items rest)
  split-perm {a = a} t =
      rw (t.was, t.now, t.old_item)
        (simp map-append (exchange-perm a t.at.item (items t.before) (items t.behind)))

module _ {ℓ} {A : Type ℓ} (m : ℕ) (p : Priority) (key : Option String) (a : A) where
  abbrev pub Conserves : List (Waiting A) → Result (Displaced A × List (Waiting A)) → Type ℓ
  Conserves ws (ok (d, ws')) = Perm (a ∷ items ws) (displaced_items d ++ items ws')
  Conserves ws (Result.raise e) = Unit

  -- What a successful first block of push stores and displaces is, up to order, the old entries
  -- and the new item: none is lost and none is there twice.
  pub store-Conserves : (ws : List (Waiting A)) → Conserves ws (store m p key a ws)
  store-Conserves ws = elim (store_cases m p key a ws) [
    | inl (room, e) ↦ rw e (simp map-append (last-perm a (items ws)))
    | inr (inl (old, rest, full, c, e)) ↦ rw e (split-perm (conflation-Split a p key ws c).3)
    | inr (inr (inl (w, tl, full, c, s, e))) ↦
        rw (e, s)
          (simp map-append (
            Perm.trans (Perm.swap w.item a (items tl)) (Perm.cons w.item (last-perm a (items tl)))))
    | inr (inr (inr (z, s, e))) ↦ rw e tt
  ]

-- The pushes whose item is stored and whose displaced item is not yet counted, how many pushes
-- there were that raised nothing, and how many items `pop` has handed out.
pub record World {ℓ} (A : Type ℓ) : Type ℓ where
  pub queue : Queue A
  pub pending : List (Priority × Displaced A)
  pub pushes : Priority → ℕ
  pub popped : Priority → ℕ

-- One atomic section of some thread.
pub data Step {ℓ} {A : Type ℓ} (w : World A) : World A → Type ℓ where
  stores :
      (a : A) (p : Priority) (key : Option String) (d : Displaced A) (s' : Queue A)
      → enqueue a p key w.queue ≡ ok (d, s')
      → Step w (record w { queue = s'; pending = (p, d) ∷ w.pending; pushes = bump w.pushes p })
  settles :
      (p : Priority) (d : Displaced A) (handled : Bool) (xs ys : List (Priority × Displaced A))
      → w.pending ≡ xs ++ (p, d) ∷ ys
      → Step w (record w { queue = settle p d handled w.queue; pending = xs ++ ys })
  pops :
      (p : Priority) (a : A) (s' : Queue A)
      → pop w.queue ≡ some (p, a, s')
      → Step w (record w { queue = s'; popped = bump w.popped p })

pub data Reach {ℓ} {A : Type ℓ} (w : World A) : World A → Type ℓ where
  here : Reach w w
  next : {u v : World A} → Reach w u → Step u v → Reach w v

abbrev pub start {ℓ} : {A : Type ℓ} → ℕ → World A
start maxlen = record { queue = init maxlen; pending = []; pushes = λ p. 0; popped = λ p. 0 }

abbrev pub weight_of {ℓ} : {A : Type ℓ} → Displaced A → ℕ
weight_of nothing = 0
weight_of _ = 1

abbrev pub weight {ℓ} : {A : Type ℓ} → Priority → Priority × Displaced A → ℕ
weight q (p, d) = if same p q then weight_of d else 0

abbrev pub in_flight {ℓ} : {A : Type ℓ} → Priority → List (Priority × Displaced A) → ℕ
in_flight q [] = 0
in_flight q (x ∷ xs) = weight q x + in_flight q xs

-- The queue counts every push, and its item waits, was popped, was counted as dropped, preserved or conflated, or
-- is between the two blocks of a push.
abbrev pub IsBalanced {ℓ} : {A : Type ℓ} → World A → Type 0
IsBalanced w =
    (q : Priority)
    → (w.queue.pushed q ≡ w.pushes q)
      × (w.pushes q
          ≡ length (w.queue.queues q)
            + w.popped q
            + w.queue.dropped q
            + w.queue.preserved q
            + w.queue.conflated q
            + in_flight q w.pending)

same→eq : (p q : Priority) → same p q ≡ true → p ≡ q
same→eq p q h = ground arith

module _ {ℓ} {A : Type ℓ} where
  in_flight-append :
      (q : Priority) (xs ys : List (Priority × Displaced A))
      → in_flight q (xs ++ ys) ≡ in_flight q xs + in_flight q ys
  in_flight-append q [] ys = omega arith
  in_flight-append q (x ∷ xs) ys = omega (arith, in_flight-append q xs ys)

  store-length :
      (m : ℕ) (p : Priority) (key : Option String) (a : A) (ws : List (Waiting A)) {d : Displaced A}
      {ws' : List (Waiting A)}
      → store m p key a ws ≡ ok (d, ws')
      → length ws' + weight_of d ≡ length ws + 1
  store-length m p key a ws h = elim (store_cases m p key a ws) [
    | inl (room, e) ↦ ground (arith, e, length-append ws (added m p key a ∷ []))
    | inr (inl (old, rest, full, c, e)) ↦ ground (arith, e, conflation-length p key a ws c)
    | inr (inr (inl (w, tl, full, c, s, e))) ↦
        ground (arith, e, ap length s, length-append tl (added m p key a ∷ []))
    | inr (inr (inr (z, s, e))) ↦ ground (arith, e)
  ]

  settle-balance :
      (p q : Priority) (d : Displaced A) (handled : Bool) (s : Queue A)
      → (settle p d handled s).dropped q
          + (settle p d handled s).preserved q
          + (settle p d handled s).conflated q
        ≡ s.dropped q + s.preserved q + s.conflated q + weight q (p, d)
  unfolding settle
  settle-balance p q nothing handled s = ground (arith, same→eq p q)
  settle-balance p q (evicted a) handled s = ground (arith, same→eq p q)
  settle-balance p q (replaced a) handled s = ground (arith, same→eq p q)

  settle-queues :
      (p q : Priority) (d : Displaced A) (handled : Bool) (s : Queue A)
      → ((settle p d handled s).queues q ≡ s.queues q)
        × ((settle p d handled s).pushed q ≡ s.pushed q)
  unfolding settle
  settle-queues p q nothing handled s = (refl, refl)
  settle-queues p q (evicted a) handled s = ground arith
  settle-queues p q (replaced a) handled s = ground arith

  Step-IsBalanced : {w v : World A} → Step w v → IsBalanced w → IsBalanced v
  Step-IsBalanced {w} (stores a p key d s' e) b q =
      let (ws, st, left) = enqueue_cases a p key w.queue e in
      rw left (
        ground (arith, same→eq p q, (b q).0),
        ground (
          arith,
          same→eq p q,
          (b q).1,
          store-length w.queue.maxlen p key a (w.queue.queues p) st,
        ),
      )
  Step-IsBalanced {w} (settles p d handled xs ys e) b q = (
    (settle-queues p q d handled w.queue).1 ∙ (b q).0,
    omega (
      arith,
      (b q).1,
      settle-balance p q d handled w.queue,
      ap length (settle-queues p q d handled w.queue).0,
      (settle-queues p q d handled w.queue).1,
      ap (in_flight q) e,
      in_flight-append q xs ((p, d) ∷ ys),
      in_flight-append q xs ys,
    ),
  )
  Step-IsBalanced {w} (pops p a s' e) b q =
      let k = pop-Takes w.queue e in
      rw k.left ((b q).0, ground (arith, same→eq p q, (b q).1, ap length k.waits))

  -- However the locked blocks of push and pop of any number of threads interleave from an empty
  -- queue on, `pushed` is the number of the pushes at a priority that raised nothing, and as many
  -- items wait, were popped, were counted as dropped, preserved or conflated, or stand between the
  -- two blocks of a push.
  pub Reach-IsBalanced : (maxlen : ℕ) {w : World A} → Reach (start maxlen) w → IsBalanced w
  unfolding init
  Reach-IsBalanced maxlen here = λ q. (refl, omega arith)
  Reach-IsBalanced maxlen (next r st) = Step-IsBalanced st (Reach-IsBalanced maxlen r)

  Step-IsBounded : {w v : World A} → Step w v → IsBounded w.queue → IsBounded v.queue
  Step-IsBounded {w} (stores a p key d s' e) = enqueue-IsBounded a p key w.queue e
  Step-IsBounded {w} (settles p d handled xs ys e) = settle-IsBounded p d handled w.queue
  Step-IsBounded {w} (pops p a s' e) = pop-IsBounded w.queue e

  -- However the locked blocks of push and pop of any number of threads interleave from an empty
  -- queue on, no priority holds more than the limit.
  pub Reach-IsBounded : (maxlen : ℕ) {w : World A} → Reach (start maxlen) w → IsBounded w.queue
  unfolding init
  Reach-IsBounded maxlen here = λ q. omega arith
  Reach-IsBounded maxlen (next r st) = Step-IsBounded st (Reach-IsBounded maxlen r)
