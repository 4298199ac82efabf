-- ===== src/Plugins/Examples.antt =====
-- A concrete registry.
use Prim.Native.Nat.{zero}
use scv_agent.Plugins.{contains, register, Registry}
use scv_agent.Base.{refl, suc, some, [], ◌≡◌, ◌∷◌, none, Option, ℕ}

-- A class that is made of a positive number.
abbrev positive : ℕ → Option ℕ
positive zero = none
positive (suc n) = some n

abbrev one_class : Registry ℕ ℕ
one_class = ("rate", positive) ∷ []

added : register "event" positive one_class ≡ some (("rate", positive) ∷ ("event", positive) ∷ [])
unfolding register contains
added = refl
