-- ===== src/Sampler/FieldPath.antt =====
-- fta_agent/fta_agent/core/field_path.py: the way from a message to a field, `pose.ranges[0]`.
-- A text is the list of its code points. `getattr`, indexing and the decimal digits of Unicode are
-- parameters.
use mathlib.Core.List.{[]}
use scv_agent.Base.{
  inr, inl, ◌∙◌, ap, Bool-cases, ◌+◌, refl, ◌*◌, false, some, ◌≡◌, ◌&&◌, ◌==◌, ◌++◌, true, none,
  ◌||◌, leb, if◌then◌else◌, Option, Bool, ◌∷◌, ℕ, List,
}

-- What an access gives.
pub data Found {ℓ} (O : Type ℓ) : Type ℓ where
  found : O → Found O
  -- AttributeError, IndexError or TypeError; FieldPathError for a path.
  missing : Found O
  -- Any other exception.
  fails : Found O

unfoldable pub chain {ℓ} : {O : Type ℓ} → Found O → (O → Found O) → Found O
chain (found x) f = f x
chain missing f = missing
chain fails f = fails

chain-chain {ℓ} :
    {O : Type ℓ} (m : Found O) {f : O → Found O} (g h : O → Found O)
    → ((x : O) → f x ≡ chain (g x) h)
    → chain m f ≡ chain (chain m g) h
unfolding chain
chain-chain (found x) g h e = e x
chain-chain missing g h e = refl
chain-chain fails g h e = refl

-- path.split("."): the first part and the others.
unfoldable pub split : List ℕ → List ℕ × List (List ℕ)
split [] = ([], [])
split (c ∷ cs) = let (p, ps) = split cs in if c == 46 then ([], p ∷ ps) else (c ∷ p, ps)

split-dot :
    (p q : List ℕ) → split (p ++ 46 ∷ q) ≡ ((split p).0, (split p).1 ++ ((split q).0 ∷ (split q).1))
unfolding split
split-dot [] q = refl
split-dot (c ∷ p) q =
    let e = split-dot p q in
    elim (Bool-cases (c == 46)) [ inl h ↦ simp (h, e) | inr h ↦ simp (h, e) ]

-- [A-Za-z_] and [A-Za-z0-9_]
abbrev pub is_letter : ℕ → Bool
is_letter c = (leb 65 c && leb c 90) || ((leb 97 c && leb c 122) || c == 95)

abbrev pub is_word : ℕ → Bool
is_word c = is_letter c || (leb 48 c && leb c 57)

-- The name before `[`, and what follows it.
unfoldable pub read_name : List ℕ → Option (List ℕ × List ℕ)
read_name [] = none
read_name (c ∷ cs) =
    let rest = read_name cs in
    if is_word c
    then (elim rest [ none ↦ none | some (n, r) ↦ some (c ∷ n, r) ])
    else if c == 91
    then some ([], cs)
    else none

-- `$`: the end, or a line feed before it.
abbrev pub at_end : List ℕ → Bool
at_end [] = true
at_end (c ∷ []) = c == 10
at_end (c ∷ d ∷ cs) = false

module _ (digit : ℕ → Option ℕ) where
  -- The digits after the first one, and `]` at the end.
  unfoldable pub read_digits : ℕ → List ℕ → Option ℕ
  read_digits n [] = none
  read_digits n (c ∷ cs) = elim (digit c) [
    | some d ↦ read_digits (n * 10 + d) cs
    | none ↦ if c == 93 && at_end cs then some n else none
  ]

  unfoldable pub read_index : List ℕ → Option ℕ
  read_index [] = none
  read_index (c ∷ cs) = elim (digit c) [ none ↦ none | some d ↦ read_digits d cs ]

  -- `_INDEX_PATTERN.match(part)`: the name and the index.
  unfoldable pub match_index : List ℕ → Option (List ℕ × ℕ)
  match_index [] = none
  match_index (c ∷ cs) =
      if is_letter c
      then (elim (read_name (c ∷ cs)) [
        | none ↦ none
        | some (name, rest) ↦ elim (read_index rest) [ none ↦ none | some n ↦ some (name, n) ]
      ])
      else none

  module _ {ℓ} {O : Type ℓ} (attribute : O → List ℕ → Found O) (item : O → ℕ → Found O) where
    -- One round of the loop of `get_field`.
    unfoldable pub step : O → List ℕ → Found O
    step o part = elim (match_index part) [
      | none ↦ attribute o part
      | some (name, n) ↦ chain (attribute o name) (λ x. item x n)
    ]

    unfoldable pub walk : O → List (List ℕ) → Found O
    walk o [] = found o
    walk o (p ∷ ps) = chain (step o p) (λ x. walk x ps)

    unfoldable pub get_field : O → List ℕ → Found O
    get_field o path = let (p, ps) = split path in walk o (p ∷ ps)

    walk-append :
        (o : O) (ps qs : List (List ℕ)) → walk o (ps ++ qs) ≡ chain (walk o ps) (λ x. walk x qs)
    unfolding walk chain
    walk-append o [] qs = refl
    walk-append o (p ∷ ps) qs =
        chain-chain (step o p) (λ x. walk x ps) (λ x. walk x qs) (λ x. walk-append x ps qs)

    -- A path with a dot in it is followed up to the dot, and from there on; a failure before the dot
    -- is the failure of the whole.
    pub get_field-dot :
        (o : O) (p q : List ℕ)
        → get_field o (p ++ 46 ∷ q) ≡ chain (get_field o p) (λ x. get_field x q)
    unfolding get_field
    get_field-dot o p q =
        ap (λ s. walk o (s.0 ∷ s.1)) (split-dot p q)
        ∙ walk-append o ((split p).0 ∷ (split p).1) ((split q).0 ∷ (split q).1)
