-- ===== src/Plugins.antt =====
-- fta_agent/fta_agent/core/registry.py, class Registry: the classes of samplers, codecs and
-- transports by their names.
pub mod Lookup
mod Examples
use scv_agent.Base.Dict.{lookup, insert, string_keys}
use scv_agent.Base.{true, some, if◌then◌else◌, false, none, Option, Bool, List, String}

pub data Made {ℓ} (A : Type ℓ) : Type ℓ where
  made : A → Made A
  unknown_type : Made A
  constructor_raises : Made A

-- `_entries`: a class is what it makes of its parameters, or an exception.
abbrev pub Registry {ℓ ℓ'} : Type ℓ → Type ℓ' → Type (ℓ ⊔ ℓ')
Registry P A = List (String × (P → Option A))

module _ {ℓ ℓ'} {P : Type ℓ} {A : Type ℓ'} where
  -- key in self._entries
  unfoldable pub contains : String → Registry P A → Bool
  contains key r = elim (lookup key r) [ none ↦ false | some c ↦ true ]

  -- `register`; `none` is RegistryError.
  unfoldable pub register : String → (P → Option A) → Registry P A → Option (Registry P A)
  register key c r = if contains key r then none else some (insert key c r)

  abbrev pub make : (P → Option A) → P → Made A
  make c params = elim (c params) [ none ↦ constructor_raises | some a ↦ made a ]

  unfoldable pub create : String → P → Registry P A → Made A
  create key params r = elim (lookup key r) [ none ↦ unknown_type | some c ↦ make c params ]
