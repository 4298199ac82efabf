-- ===== src/Receiver/Totals.antt =====
-- The statistics of the receiver add up.
use mathlib.Core.List.{[]}
use scv_agent.Base.Int.{ℤ}
use scv_agent.Receiver.{
  write_down, is_channel, Message, Receiver, Robot, receive, on_message, record_message,
}
use scv_agent.Base.{
  Bool, Option-cases, inr, inl, refl, Bool-cases, if◌then◌else◌, arith, suc, ◌+◌, ◌≡◌, ◌∷◌, String,
  List, ℕ,
}

abbrev pub total_msgs : List (String × Robot) → ℕ
total_msgs [] = 0
total_msgs ((r, s) ∷ rest) = s.msgs + total_msgs rest

total-record_message :
    (robot : String) (n : ℕ) (l : ℤ) (t : List (String × Robot))
    → total_msgs (record_message robot n l t) ≡ suc (total_msgs t)
unfolding record_message
total-record_message robot n l [] = refl
total-record_message robot n l ((r, s) ∷ rest) = ground (arith, total-record_message robot n l rest)

-- After messages of which the last may have raised: each of the envelopes was counted once, and the
-- messages of the robots grew by those received, less one if an exception came out.
abbrev pub AddsUp : Receiver → Bool × Receiver → ℕ → Type 0
AddsUp s (ok, s') n =
    (s'.received + s'.decode_error ≡ s.received + s.decode_error + n)
    × (total_msgs s'.per_robot + s.received + (if ok then 0 else 1)
        ≡ total_msgs s.per_robot + s'.received)

on_message-AddsUp :
    (m : Message) (s : Receiver) → AddsUp s (on_message m s) (if is_channel m.topic then 0 else 1)
unfolding on_message write_down
on_message-AddsUp m s = elim (Bool-cases (is_channel m.topic)) [
  | inl other ↦ rw (other, on_message) (omega arith, omega arith)
  | inr env ↦ elim (Option-cases m.decoded) [
    | inl e ↦ rw (env, e, on_message) (omega arith, omega arith)
    | inr (d, e) ↦ elim (Bool-cases d.dumps) [
      | inr f ↦ rw (env, e, f, on_message, write_down) (omega arith, omega arith)
      | inl f ↦ elim (Option-cases d.robot) [
        | inl g ↦ rw (env, e, f, g, on_message, write_down) (omega arith, omega arith)
        | inr (robot, g) ↦
            let one = total-record_message robot m.size d.latency s.per_robot in
            rw (env, e, f, g, on_message, write_down) (omega arith, omega (arith, one))
      ]
    ]
  ]
]

-- The envelopes among the messages up to the first whose handling raises, that one included.
abbrev pub handled : List Message → Receiver → ℕ
handled [] s = 0
handled (m ∷ ms) s =
    let (ok, s') = on_message m s in
    let rest = handled ms s' in (if is_channel m.topic then 0 else 1) + (if ok then rest else 0)

-- Each envelope that comes in, up to the first whose handling raises, is counted once, as received
-- or as an error, and the messages of the robots grow by those that were received, but for that one.
pub receive-AddsUp : (ms : List Message) (s : Receiver) → AddsUp s (receive ms s) (handled ms s)
unfolding receive
receive-AddsUp [] s = (omega arith, omega arith)
receive-AddsUp (m ∷ ms) s =
    let (ok, s') = on_message m s in
    let one = on_message-AddsUp m s in
    let rest = receive-AddsUp ms s' in
    elim (Bool-cases ok) [
      | inl went ↦
          let (a, b) = rw went at one in
          rw (went, receive) (omega (arith, a, rest.0), omega (arith, b, rest.1))
      | inr broke ↦
          let (a, b) = rw broke at one in rw (broke, receive) (omega (arith, a), omega (arith, b))
    ]
