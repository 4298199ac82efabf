-- ===== src/RegistryTool.antt =====
-- fta_tools/fta_tools/registry_tool.py, `validate`: the check of a registry file before it is
-- published. Texts of errors are data; the warning for L2 is printed only and left out.
use scv_agent.Base.Texts.{contains_text}
use scv_agent.Json.{is_text}
use scv_agent.Downlink.Registry.{
  is_object, is_positive, required_fields, item, missing_fields, is_one_of,
}
use scv_agent.Json.{key_of, key_eq, get, Items, Json, Key, Fields}
pub mod Agreement
mod Examples
use scv_agent.Base.{
  not, suc, ◌||◌, ◌++◌, some, none, ◌∷◌, [], Option, false, if◌then◌else◌, String, Bool, List, ℕ,
}

pub data Problem : Type 0 where
  no_interfaces : Problem
  lacks_fields : ℕ → List String → Problem
  repeats_id : ℕ → Problem
  wrong_kind : ℕ → Problem
  wrong_level : ℕ → Problem
  wrong_ttl : ℕ → Problem
  wrong_schema : ℕ → Problem

abbrev pub problem_unless : Bool → Problem → List Problem
problem_unless ok p = if ok then [] else p ∷ []

-- The four checks of the values, which go on after a failure.
unfoldable pub value_problems : ℕ → Fields → List Problem
value_problems i entry =
    problem_unless (is_one_of ("topic" ∷ "service" ∷ []) (item "kind" entry)) (wrong_kind i)
    ++ problem_unless (is_one_of ("L0" ∷ "L1" ∷ "L2" ∷ []) (item "permission_level" entry))
        (wrong_level i)
    ++ problem_unless (is_positive (item "default_ttl_sec" entry)) (wrong_ttl i)
    ++ problem_unless (is_object (item "schema" entry)) (wrong_schema i)

-- iid in seen
abbrev pub is_in : Key → List Key → Bool
is_in k [] = false
is_in k (j ∷ js) = key_eq j k || is_in k js

-- The body of the loop for a dict: its errors and `seen` after it; `none` is TypeError, for an id
-- without a hash.
unfoldable pub entry_problems : ℕ → Fields → List Key → Option (List Problem × List Key)
entry_problems i entry seen = elim (missing_fields required_fields entry) [
  | f ∷ fs ↦ some (lacks_fields i (f ∷ fs) ∷ [], seen)
  | [] ↦ elim (key_of (item "interface_id" entry)) [
    | none ↦ none
    | some k ↦
        some
          (problem_unless (not (is_in k seen)) (repeats_id i) ++ value_problems i entry, k ∷ seen)
  ]
]

-- [f for f in fields if f not in xs] of a list.
abbrev pub is_item : String → Items → Bool
is_item f Items.nil = false
is_item f (Items.cons v vs) = is_text f v || is_item f vs

abbrev pub lacking : (String → Bool) → List String → List String
lacking has_it [] = []
lacking has_it (f ∷ fs) = if has_it f then lacking has_it fs else f ∷ lacking has_it fs

-- `missing` of an entry that is no dict: `in` looks for parts of a text and for items of a list,
-- and raises TypeError for the others.
unfoldable pub other_missing : Json → Option (List String)
other_missing (Json.text s) = some (lacking (contains_text s) required_fields)
other_missing (Json.arr xs) = some (lacking (λ f. is_item f xs) required_fields)
other_missing v = none

-- The body of the loop for such an entry. With no field missing, `entry["interface_id"]` raises
-- TypeError.
unfoldable pub other_problems : ℕ → Json → List Key → Option (List Problem × List Key)
other_problems i v seen = elim (other_missing v) [
  | none ↦ none
  | some m ↦ elim m [ [] ↦ none | f ∷ fs ↦ some (lacks_fields i (f ∷ fs) ∷ [], seen) ]
]

unfoldable pub item_problems : ℕ → Json → List Key → Option (List Problem × List Key)
item_problems i (Json.obj entry) seen = entry_problems i entry seen
item_problems i v seen = other_problems i v seen

-- The loop, from an index on.
unfoldable pub validate_from : ℕ → Items → List Key → Option (List Problem)
validate_from i Items.nil seen = some []
validate_from i (Items.cons v vs) seen = elim (item_problems i v seen) [
  | none ↦ none
  | some (ps, seen') ↦ elim (validate_from (suc i) vs seen') [
    | none ↦ none
    | some qs ↦ some (ps ++ qs)
  ]
]

unfoldable pub validate : Fields → Option (List Problem)
validate doc = elim (get "interfaces" doc) [
  | some (Json.arr xs) ↦ validate_from 0 xs []
  | _ ↦ some (no_interfaces ∷ [])
]
