-- ===== src/Pipeline/Examples.antt =====
-- Concrete runs of a pipeline.
use Prim.Native.Nat.{zero}
use scv_agent.Pipeline.Accounts.{run-IsCounted, IsCounted}
use scv_agent.Pipeline.Numbering.{run-IsNumbered, IsNumbered, Sink}
use scv_agent.Pipeline.{pauses, works, submits, run, Event, Envelope, init, Pipeline, Stages}
use scv_agent.Base.{suc, ◌∷◌, [], ◌++◌, none, not, refl, true, String, some, List, Option, Bool, ℕ}

-- Every second message passes; the codec refuses 0.
abbrev toggle : ℕ → Bool → Option Bool × Bool
toggle raw b = (some b, not b)

abbrev one_byte : ℕ → Option (String × List ℕ)
one_byte zero = none
one_byte (suc n) = some ("cbor", n ∷ [])

abbrev stages : Stages ℕ Bool (List Envelope)
stages = record { decide = toggle; encode = one_byte; push = λ e q. (true, q ++ e ∷ []) }

abbrev collects : Sink stages
collects = record { taken = λ q. q; takes = λ e q. refl }

abbrev events : List (Event ℕ)
events = submits 3 ∷ submits 4 ∷ works ∷ pauses true ∷ submits 5 ∷ works ∷ works ∷ []

abbrev fresh : Pipeline ℕ
fresh = init "pose" 2

fresh-IsCounted : IsCounted 0 fresh
unfolding init
fresh-IsCounted = (refl, refl)

fresh-IsNumbered : IsNumbered stages collects (fresh, true, [])
unfolding init
fresh-IsNumbered = refl

run-IsCounted_example : IsCounted 3 (run stages events (fresh, true, [])).0
run-IsCounted_example =
    run-IsCounted stages (λ e q. refl) events 0 (fresh, true, []) fresh-IsCounted

run-IsNumbered_example : IsNumbered stages collects (run stages events (fresh, true, []))
run-IsNumbered_example = run-IsNumbered stages collects events (fresh, true, []) fresh-IsNumbered
