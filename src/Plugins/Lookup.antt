-- ===== src/Plugins/Lookup.antt =====
-- What a registry makes after a registration.
use scv_agent.Base.Dict.{lookup-insert, string_keys, insert, lookup}
use scv_agent.Plugins.{unknown_type, Registry, create, register, contains, make}
use scv_agent.Base.{
  refl, Bool-cases, ◌∙◌, sym, ap, inl, arith, inr, Option-cases, str_eq, if◌then◌else◌, some, ◌≡◌,
  Option, String,
}

module _ {ℓ ℓ'} {P : Type ℓ} {A : Type ℓ'} where
  -- A registration that succeeds had a new name; the name then makes what its class makes, and
  -- every other name makes what it made before.
  pub create-register :
      (key j : String) (c : P → Option A) (params : P) (r : Registry P A) {r' : Registry P A}
      → register key c r ≡ some r'
      → (create key params r ≡ unknown_type)
        × (create j params r' ≡ (if str_eq key j then make c params else create j params r))
  unfolding register create contains
  create-register key j c params r {r'} h = elim (Option-cases (lookup key r)) [
    | inr (d, e) ↦ absurd (ground (arith, e))
    | inl e ↦
        let added : insert key c r ≡ r' = ground (arith, e, h) in
        let found : lookup j r' ≡ (if str_eq key j then some c else lookup j r) =
          ap (lookup j) (sym added) ∙ lookup-insert key j c r in
        (
          ground (arith, e),
          elim (Bool-cases (str_eq key j)) [
            | inl hit ↦ rw (found, hit, create) refl
            | inr miss ↦ rw (found, miss, create) refl
          ],
        )
  ]
