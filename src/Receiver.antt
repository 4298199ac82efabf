-- ===== src/Receiver.antt =====
-- fta_tools/fta_tools/test_receiver.py: the receiver that writes down what a vehicle sends.
-- Decoding an envelope is a parameter; a line of the output file is left out.
use scv_agent.Base.Texts.{contains_text, ends_with}
use scv_agent.Base.Int.{◌+ℤ◌, ℤ}
pub mod Totals
mod Examples
use scv_agent.Base.{
  true, some, ◌+◌, suc, str_eq, false, none, ◌∷◌, Option, ◌||◌, ◌-◌, List, if◌then◌else◌, [], Bool,
  ℕ, String,
}

-- Stats.per_robot: messages, bytes and the sum of the latencies of one robot.
pub record Robot : Type 0 where
  pub msgs : ℕ
  pub bytes : ℕ
  pub latency_sum : ℤ

pub record Receiver : Type 0 where
  pub received : ℕ
  pub decode_error : ℕ
  pub per_robot : List (String × Robot)

-- The topics whose messages are no envelopes.
unfoldable pub is_channel : String → Bool
is_channel topic =
    contains_text topic "/sys/"
    || contains_text topic "/agent/"
    || contains_text topic "/cmd"
    || str_eq topic "fleet/registry"
    || ends_with topic "/registry"

-- `Stats.record`
unfoldable pub record_message : String → ℕ → ℤ → List (String × Robot) → List (String × Robot)
record_message robot nbytes latency [] =
    (robot, record { msgs = 1; bytes = nbytes; latency_sum = latency }) ∷ []
record_message robot nbytes latency ((r, s) ∷ rest) =
    if str_eq r robot
    then (
      r,
      record {
        msgs = suc s.msgs;
        bytes = s.bytes + nbytes;
        latency_sum = s.latency_sum +ℤ latency;
      },
    )
      ∷ rest
    else (r, s) ∷ record_message robot nbytes latency rest

-- `Stats.flush`, which empties the table.
unfoldable pub flush : Receiver → Receiver
flush s = record s { per_robot = [] }

-- What decoding an envelope gives: the id of the robot, `none` for one without a hash, the latency,
-- and whether `json.dumps` writes the record.
pub record Decoded : Type 0 where
  pub robot : Option String
  pub latency : ℤ
  pub dumps : Bool

-- A message: its topic, its size, and what decoding its envelope gives, or an exception.
pub record Message : Type 0 where
  pub topic : String
  pub size : ℕ
  pub decoded : Option Decoded

-- The end of `on_message`, after the message was counted: `false` is an exception, of `json.dumps`
-- or of an id that is no key.
unfoldable pub write_down : Decoded → ℕ → Receiver → Bool × Receiver
write_down d size s =
    if d.dumps
    then (elim d.robot [
      | none ↦ (false, s)
      | some robot ↦
          (true, record s { per_robot = record_message robot size d.latency s.per_robot })
    ])
    else (false, s)

-- `on_message`: whether it returned.
unfoldable pub on_message : Message → Receiver → Bool × Receiver
on_message m s = if is_channel m.topic then (true, s) else elim m.decoded [
  | none ↦ (true, record s { decode_error = suc s.decode_error })
  | some d ↦ write_down d m.size (record s { received = suc s.received })
]

-- The messages that come in; an exception ends the loop of the client.
unfoldable pub receive : List Message → Receiver → Bool × Receiver
receive [] s = (true, s)
receive (m ∷ ms) s =
    let (ok, s') = on_message m s in let rest = receive ms s' in if ok then rest else (false, s')
