-- ===== src/Queue/Cases.antt =====
-- What the first locked block of `push` does to one deque, case by case.
use mathlib.Core.Option.{some-injective}
use scv_agent.Base.{
  subst, ap, false, All, ℕ, ◌≤◌, ◌<◌, String, ◌≡◌, refl, ◌⊎◌, inl, inr, true, Option, none, some,
  List, [], ◌∷◌, ◌++◌, leb, length, arith, Option-cases, Bool-cases,
}
use scv_agent.Queue.{
  conflates, replace_first, key_matches, Priority, ok, raise, index_error, Waiting, nothing,
  evicted, replaced, conflation, store,
}

module _ {ℓ} {A : Type ℓ} (m : ℕ) (p : Priority) (key : Option String) (a : A) where
  abbrev pub added : Waiting A
  added = record { key = key; item = a }

  abbrev pub Appends : List (Waiting A) → Type ℓ
  Appends ws = (length ws < m) × (store m p key a ws ≡ ok (nothing, ws ++ added ∷ []))

  abbrev pub Conflates : List (Waiting A) → Type ℓ
  Conflates ws =
      (old : A) × (rest : List (Waiting A)) × (m ≤ length ws)
      × (conflation p key a ws ≡ some (old, rest))
      × (store m p key a ws ≡ ok (replaced old, rest))

  abbrev pub Evicts : List (Waiting A) → Type ℓ
  Evicts ws =
      (w : Waiting A) × (tl : List (Waiting A)) × (m ≤ length ws)
      × (conflation p key a ws ≡ none)
      × (ws ≡ w ∷ tl)
      × (store m p key a ws ≡ ok (evicted w.item, tl ++ added ∷ []))

  abbrev pub Raises : List (Waiting A) → Type ℓ
  Raises ws = (m ≡ 0) × (ws ≡ []) × (store m p key a ws ≡ raise index_error)

  full_cases :
      (ws : List (Waiting A))
      → leb m (length ws) ≡ true
      → conflation p key a ws ≡ none
      → Evicts ws ⊎ Raises ws
  unfolding store
  full_cases [] full e = inr (ground arith, refl, ground (arith, e))
  full_cases (w ∷ tl) full e = inl (w, tl, ground arith, e, refl, ground (arith, e))

  pub store_cases : (ws : List (Waiting A)) → Appends ws ⊎ (Conflates ws ⊎ (Evicts ws ⊎ Raises ws))
  unfolding store
  store_cases ws = elim (Bool-cases (leb m (length ws))) [
    | inl full ↦ elim (Option-cases (conflation p key a ws)) [
      | inl e ↦ inr (inr (full_cases ws full e))
      | inr ((old, rest), e) ↦ inr (inl (old, rest, ground arith, e, ground (arith, e)))
    ]
    | inr room ↦ inl (ground arith, ground arith)
  ]

-- The first waiting entry with the key, and what stands before and behind it.
pub record Split {ℓ} {A : Type ℓ} (k : String) (a : A) (ws : List (Waiting A)) (old : A)
    (rest : List (Waiting A)) : Type ℓ where
  pub before : List (Waiting A)
  pub at : Waiting A
  pub behind : List (Waiting A)
  pub was : ws ≡ before ++ at ∷ behind
  pub same_key : key_matches at.key k ≡ true
  pub first : All (λ v. key_matches v.key k ≡ false) before
  pub old_item : old ≡ at.item
  pub now : rest ≡ before ++ record { key = some k; item = a } ∷ behind

module _ {ℓ} {A : Type ℓ} (k : String) (a : A) where
  Split-cons :
      (w : Waiting A) {ws : List (Waiting A)} {old : A} {rest : List (Waiting A)}
      → key_matches w.key k ≡ false
      → Split k a ws old rest
      → Split k a (w ∷ ws) old (w ∷ rest)
  Split-cons w miss t = record {
    before = w ∷ t.before;
    at = t.at;
    behind = t.behind;
    was = ap (◌∷◌ w) t.was;
    same_key = t.same_key;
    first = (miss, t.first);
    old_item = t.old_item;
    now = ap (◌∷◌ w) t.now;
  }

  pub replace_first-Split :
      (ws : List (Waiting A))
      → (replace_first k a ws ≡ none)
        ⊎ ((old : A) × (rest : List (Waiting A)) × (replace_first k a ws ≡ some (old, rest))
            × Split k a ws old rest)
  unfolding replace_first
  replace_first-Split [] = inl refl
  replace_first-Split (w ∷ ws) = elim (Bool-cases (key_matches w.key k)) [
    | inl hit ↦ inr (
      w.item,
      record { key = some k; item = a } ∷ ws,
      ground (arith, hit),
      record {
        before = [];
        at = w;
        behind = ws;
        was = refl;
        same_key = hit;
        first = tt;
        old_item = refl;
        now = refl;
      },
    )
    | inr miss ↦ elim (replace_first-Split ws) [
      | inl e ↦ inl (ground (arith, miss, e))
      | inr (old, rest, e, t) ↦ inr (old, w ∷ rest, ground (arith, miss, e), Split-cons w miss t)
    ]
  ]

module _ {ℓ} {A : Type ℓ} (a : A) where
  -- A conflation is a split, and only `high` conflates.
  pub conflation-Split :
      (p : Priority) (key : Option String) (ws : List (Waiting A)) {old : A}
      {rest : List (Waiting A)}
      → conflation p key a ws ≡ some (old, rest)
      → (k : String) × (key ≡ some k) × (conflates p ≡ true) × Split k a ws old rest
  unfolding conflation
  conflation-Split p none ws h = absurd (ground arith)
  conflation-Split p (some k) ws {old} {rest} h = elim (replace_first-Split k a ws) [
    | inl e ↦ absurd (ground (arith, e))
    | inr (old', rest', e, t) ↦
        (k, refl, ground arith, subst (λ r. Split k a ws r.0 r.1) (found e) t)
  ]
    where
      found :
          {old' : A} {rest' : List (Waiting A)}
          → replace_first k a ws ≡ some (old', rest')
          → ◌≡◌ {A = A × List (Waiting A)} (old', rest') (old, rest)
      found e = some-injective _ _ (ground (arith, e))
