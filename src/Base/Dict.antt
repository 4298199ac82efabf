-- ===== src/Base/Dict.antt =====
-- Python's `dict`, as an association list in insertion order, over keys with a Boolean equality.
-- The equality need not be reflexive: a float NaN is not equal to itself.
use scv_agent.Base.{inr, subst, inl, Bool-cases, All}
use Prim.Native.Nat.{◌≤◌}
use Prim.Native.String.{String}
use mathlib.Core.Path.{◌≡◌, refl, sym, ◌∙◌}
use mathlib.Core.Bool.{Bool, true, false}
use mathlib.Core.List.{List, [], ◌∷◌}
use mathlib.Core.Option.{some-injective, Option, none, some}
use native.Mathlib.Omega.{arith}
use text.Mathlib.Text.{◌==◌ as str_eq}
use text.Mathlib.TextEquality.{eq_iff}
use scv_agent.Base.Tests.{if◌then◌else◌}
use scv_agent.Base.Lists.{length}

pub record KeyEq {ℓ} (K : Type ℓ) : Type ℓ where
  pub beq : K → K → Bool
  pub beq_symm : (a b : K) → beq a b ≡ true → beq b a ≡ true
  pub beq_trans : (a b c : K) → beq a b ≡ true → beq b c ≡ true → beq a c ≡ true

pub str_eq_symm : (a b : String) → str_eq a b ≡ true → str_eq b a ≡ true
str_eq_symm a b h = (eq_iff b a).1 (sym ((eq_iff a b).0 h))

pub str_eq_trans : (a b c : String) → str_eq a b ≡ true → str_eq b c ≡ true → str_eq a c ≡ true
str_eq_trans a b c h k = (eq_iff a c).1 ((eq_iff a b).0 h ∙ (eq_iff b c).0 k)

instance abbrev pub string_keys : KeyEq String
string_keys = record { beq = str_eq; beq_symm = str_eq_symm; beq_trans = str_eq_trans }

module _ {ℓ κ} {K : Type ℓ} {V : Type κ} ⦃e : KeyEq K⦄ where
  -- d.get(k)
  abbrev pub lookup : K → List (K × V) → Option V
  lookup k [] = none
  lookup k ((j, v) ∷ m) = if e.beq j k then some v else lookup k m

  -- d[k] = v: a key that is there keeps its place.
  abbrev pub insert : K → V → List (K × V) → List (K × V)
  insert k v [] = (k, v) ∷ []
  insert k v ((j, w) ∷ m) = if e.beq j k then (j, v) ∷ m else (j, w) ∷ insert k v m

  -- del d[k]
  abbrev pub without : K → List (K × V) → List (K × V)
  without k [] = []
  without k ((j, w) ∷ m) = if e.beq j k then without k m else (j, w) ∷ without k m

module _ {ℓ κ} {K : Type ℓ} {V : Type κ} ⦃e : KeyEq K⦄ where
  pub lookup-insert :
      (k j : K) (v : V) (m : List (K × V))
      → lookup j (insert k v m) ≡ (if e.beq k j then some v else lookup j m)
  lookup-insert k j v [] = refl
  lookup-insert k j v ((i, w) ∷ m) = ground (
    arith,
    lookup-insert k j v m,
    e.beq_trans i k j,
    e.beq_symm i k,
    e.beq_trans k i j,
    e.beq_trans i j k,
    e.beq_symm k j,
  )

  pub lookup-without :
      (k j : K) (m : List (K × V)) → e.beq j k ≡ false → lookup j (without k m) ≡ lookup j m
  lookup-without k j [] h = refl
  lookup-without k j ((i, w) ∷ m) h =
      ground (arith, lookup-without k j m h, e.beq_trans j i k, e.beq_symm i j)

  pub lookup-without_self : (k : K) (m : List (K × V)) → lookup k (without k m) ≡ none
  lookup-without_self k [] = refl
  lookup-without_self k ((i, w) ∷ m) = ground (arith, lookup-without_self k m)

  pub length-without-le : (k : K) (m : List (K × V)) → length (without k m) ≤ length m
  length-without-le k [] = omega arith
  length-without-le k ((i, w) ∷ m) = ground (arith, length-without-le k m)

module _ {ℓ κ μ} {K : Type ℓ} {V : Type κ} ⦃e : KeyEq K⦄ (P : K × V → Type μ) where
  pub All-insert :
      (k : K) (v : V) (m : List (K × V))
      → P (k, v)
      → ((j : K) → e.beq j k ≡ true → P (j, v))
      → All P m
      → All P (insert k v m)
  All-insert k v [] new same h = (new, tt)
  All-insert k v ((j, w) ∷ m) new same h = elim (Bool-cases (e.beq j k)) [
    | inl hit ↦ rw hit (same j hit, h.1)
    | inr miss ↦ rw miss (h.0, All-insert k v m new same h.1)
  ]

  pub All-lookup :
      (q : K) (m : List (K × V)) {v : V}
      → lookup q m ≡ some v
      → All P m
      → (j : K) × (e.beq j q ≡ true) × P (j, v)
  All-lookup q [] f h = absurd (ground arith)
  All-lookup q ((j, w) ∷ m) {v} f h = elim (Bool-cases (e.beq j q)) [
    | inl hit ↦ (j, hit, subst (λ x. P (j, x)) (some-injective w v (rw hit at f)) h.0)
    | inr miss ↦ All-lookup q m (rw miss at f) h.1
  ]
