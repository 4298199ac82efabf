-- ===== src/Sampler/Examples.antt =====
-- Concrete runs of the samplers.
use Prim.Native.Nat.{zero}
use scv_agent.Sampler.Nearness.{decide_deadband_nan, run_deadband}
use scv_agent.Sampler.Edges.{run_compared-edges, edges, run_compared}
use scv_agent.Base.Int.{pos}
use scv_agent.Sampler.{fire_if, pass_and_flush, init_event, drop, decide_deadband, Deadband}
use scv_agent.Json.{fin, nan}
use scv_agent.Sampler.FieldPath.{
  found, missing, Found, get_field, get_field-dot, chain, split, step, walk, match_index, read_name,
  read_index, read_digits,
}
use scv_agent.Base.{
  suc, none, ◌-◌, ◌&&◌, if◌then◌else◌, ◌++◌, Option, List, false, true, refl, map, ◌≡◌, [], ◌==◌,
  leb, ◌∷◌, some, Bool, ℕ,
}

abbrev half_metre : Deadband
half_metre = record { threshold = fin (pos 500000); last_sent = some (fin (pos 1000000)) }

abbrev stuck : Deadband
stuck = record half_metre { last_sent = some nan }

decide_deadband_nan_example :
    ((decide_deadband (fin (pos 9000000)) (run_deadband (fin (pos 7000000) ∷ []) stuck)).0 ≡ drop)
    × (run_deadband (fin (pos 7000000) ∷ []) stuck ≡ stuck)
decide_deadband_nan_example =
    decide_deadband_nan (fin (pos 7000000) ∷ []) (fin (pos 9000000)) stuck refl

abbrev is_error : ℕ → Bool
is_error n = leb 2 n

abbrev same_level : ℕ → ℕ → Bool
same_level a b = a == b

run_compared-edges_example :
    run_compared same_level is_error (0 ∷ 2 ∷ 3 ∷ 1 ∷ 2 ∷ []) init_event
    ≡ pass_and_flush ∷ map fire_if (edges false (true ∷ true ∷ false ∷ true ∷ []))
run_compared-edges_example = run_compared-edges same_level is_error 0 (2 ∷ 3 ∷ 1 ∷ 2 ∷ [])

-- A message with a pose, which has a list of ranges; the fields are told by their first letters.
data Node : Type 0 where
  message pose : Node
  ranges : List ℕ → Node
  reading : ℕ → Node

abbrev node_attribute : Node → List ℕ → Found Node
node_attribute message (c ∷ cs) = if c == 112 then found pose else missing
node_attribute pose (c ∷ cs) = if c == 114 then found (ranges (4 ∷ 5 ∷ [])) else missing
node_attribute n name = missing

abbrev node_item : Node → ℕ → Found Node
node_item (ranges (x ∷ xs)) zero = found (reading x)
node_item (ranges (x ∷ y ∷ xs)) (suc zero) = found (reading y)
node_item n i = missing

abbrev ascii_digit : ℕ → Option ℕ
ascii_digit c = if leb 48 c && leb c 57 then some (c - 48) else none

-- `pose` and `ranges[1]`
abbrev pose_path : List ℕ
pose_path = 112 ∷ 111 ∷ 115 ∷ 101 ∷ []

abbrev second_range : List ℕ
second_range = 114 ∷ 97 ∷ 110 ∷ 103 ∷ 101 ∷ 115 ∷ 91 ∷ 49 ∷ 93 ∷ []

follows_index :
    get_field ascii_digit node_attribute node_item message (pose_path ++ 46 ∷ second_range)
    ≡ found (reading 5)
unfolding get_field split walk step match_index read_name read_index read_digits chain
follows_index = refl

get_field-dot_example :
    get_field ascii_digit node_attribute node_item message (pose_path ++ 46 ∷ second_range)
    ≡ chain
        (get_field ascii_digit node_attribute node_item message pose_path)
        (λ x. get_field ascii_digit node_attribute node_item x second_range)
get_field-dot_example =
    get_field-dot ascii_digit node_attribute node_item message pose_path second_range
