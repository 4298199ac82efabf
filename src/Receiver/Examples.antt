-- ===== src/Receiver/Examples.antt =====
-- A concrete run of the receiver.
use scv_agent.Receiver.Totals.{receive-AddsUp, AddsUp, receive-AddsUp, handled}
use scv_agent.Base.Int.{pos}
use scv_agent.Receiver.{Receiver, Message, receive}
use scv_agent.Base.{true, none, ◌∷◌, some, List, []}

abbrev fresh : Receiver
fresh = record { received = 0; decode_error = 0; per_robot = [] }

abbrev three : List Message
three =
    record {
      topic = "fleet/r1/state/pose";
      size = 90;
      decoded = some (record { robot = some "r1"; latency = pos 20; dumps = true });
    }
    ∷ record { topic = "fleet/r1/agent/health"; size = 700; decoded = none }
    ∷ record { topic = "fleet/r2/event/fault"; size = 60; decoded = none }
    ∷ []

receive-AddsUp_example : AddsUp fresh (receive three fresh) (handled three fresh)
receive-AddsUp_example = receive-AddsUp three fresh
