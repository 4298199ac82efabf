-- ===== src/Queue/Order.antt =====
-- Which item `pop` takes.
use scv_agent.Base.{
  ℕ, ◌<◌, ◌≡◌, refl, none, some, List, [], ◌∷◌, arith, List-cases, inl, inr, ◌⊎◌, subst, sym, ◌∙◌,
}
use mathlib.Core.Option.{some-injective}
use scv_agent.Queue.{Priority, critical, high, normal, low, update, Queue, Waiting, pop}

-- The place in PRIORITIES.
abbrev pub rank : Priority → ℕ
rank critical = 0
rank high = 1
rank normal = 2
rank low = 3

-- `(p, a, s')` is the oldest item of the highest priority that waits, and the queue without it.
pub record Takes {ℓ} {A : Type ℓ} (s : Queue A) (p : Priority) (a : A) (s' : Queue A) : Type ℓ where
  pub head : Waiting A
  pub rest : List (Waiting A)
  pub waits : s.queues p ≡ head ∷ rest
  pub oldest : a ≡ head.item
  pub left : s' ≡ record s { queues = update s.queues p rest }
  pub highest : (q : Priority) → rank q < rank p → s.queues q ≡ []

abbrev pub AllEmpty {ℓ} : {A : Type ℓ} → Queue A → Type ℓ
AllEmpty s = (q : Priority) → s.queues q ≡ []

module _ {ℓ} {A : Type ℓ} (s : Queue A) where
  abbrev taken : (p : Priority) → List (Waiting A) → Queue A
  taken p rest = record s { queues = update s.queues p rest }

  takes :
      (p : Priority) {w : Waiting A} {rest : List (Waiting A)}
      → s.queues p ≡ w ∷ rest
      → ((q : Priority) → rank q < rank p → s.queues q ≡ [])
      → Takes s p w.item (taken p rest)
  takes p e h = record { head = _; rest = _; waits = e; oldest = refl; left = refl; highest = h }

  abbrev pub Pops : Type ℓ
  Pops = (p : Priority) × (a : A) × (s' : Queue A) × (pop s ≡ some (p, a, s')) × Takes s p a s'

  empty_all :
      s.queues critical ≡ []
      → s.queues high ≡ []
      → s.queues normal ≡ []
      → s.queues low ≡ []
      → AllEmpty s
  empty_all c h n l critical = c
  empty_all c h n l high = h
  empty_all c h n l normal = n
  empty_all c h n l low = l

  -- pop finds nothing exactly when every priority is empty, and otherwise takes the oldest item of
  -- the highest priority that waits and leaves the others.
  pub pop_cases : (AllEmpty s × (pop s ≡ none)) ⊎ Pops
  unfolding pop
  pop_cases = elim (List-cases (s.queues critical)) [
    | inr (w, r, e) ↦ inr (
      critical,
      w.item,
      taken critical r,
      ground (arith, e),
      takes critical e (λ q h. ground arith),
    )
    | inl c ↦ elim (List-cases (s.queues high)) [
      | inr (w, r, e) ↦ inr (
        high,
        w.item,
        taken high r,
        ground (arith, c, e),
        takes high e (λ q h. ground (arith, c)),
      )
      | inl h ↦ elim (List-cases (s.queues normal)) [
        | inr (w, r, e) ↦ inr (
          normal,
          w.item,
          taken normal r,
          ground (arith, c, h, e),
          takes normal e (λ q l. ground (arith, c, h)),
        )
        | inl n ↦ elim (List-cases (s.queues low)) [
          | inr (w, r, e) ↦ inr (
            low,
            w.item,
            taken low r,
            ground (arith, c, h, n, e),
            takes low e (λ q l. ground (arith, c, h, n)),
          )
          | inl l ↦ inl (empty_all c h n l, ground (arith, c, h, n, l))
        ]
      ]
    ]
  ]

  pub pop-Takes : {p : Priority} {a : A} {s' : Queue A} → pop s ≡ some (p, a, s') → Takes s p a s'
  pop-Takes {p} {a} {s'} h = elim pop_cases [
    | inl (_, e) ↦ absurd (ground (arith, e))
    | inr (q, b, t, e, k) ↦ subst (λ r. Takes s r.0 r.1 r.2) (some-injective _ _ (sym e ∙ h)) k
  ]
