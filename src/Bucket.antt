-- ===== src/Bucket.antt =====
-- fta_agent/fta_agent/core/token_bucket.py, class TokenBucket.
-- Time is in microseconds and tokens are in millionths of a byte, so that a rate in bytes a second
-- times a time is a number of tokens, and nothing is rounded. A clock reading is an argument.
pub mod Limit
mod Examples
use scv_agent.Base.{
  leb, ◌==◌, ltb, if◌then◌else◌, ℕ, ◌+◌, ◌*◌, ◌-◌, Bool, true, false, Option, none, some, List, [],
  ◌∷◌, min,
}

pub record Bucket : Type 0 where
  pub rate : ℕ
  pub capacity : ℕ
  pub tokens : ℕ
  pub last : ℕ

-- The tokens of one byte, and half a second.
abbrev pub per_byte : ℕ
per_byte = 1000000

abbrev pub half_second : ℕ
half_second = 500000

-- `__init__`; `none` is the ValueError. 1 kbps is 125 bytes a second.
unfoldable pub init : ℕ → ℕ → ℕ → Option Bucket
init kbps burst now =
    if kbps == 0
    then none
    else some (record {
      rate = kbps * 125;
      capacity = kbps * 125 * burst;
      tokens = kbps * 125 * burst;
      last = now;
    })

-- The tokens at a clock reading.
unfoldable pub refill : ℕ → Bucket → Bucket
refill now b = record b { tokens = min b.capacity (b.tokens + (now - b.last) * b.rate); last = now }

-- What one round of the loop meets: the clock under the lock, and the clock behind it.
pub record Round : Type 0 where
  pub now : ℕ
  pub later : ℕ

-- `time.monotonic() + wait > deadline`, times the rate, for wait = min(deficit / rate, 0.5 s).
abbrev pub too_late : Bucket → ℕ → ℕ → ℕ → Bool
too_late b deficit later deadline =
    ltb (deadline * b.rate) (later * b.rate + min deficit (half_second * b.rate))

-- The loop of `consume`, over the rounds that begin before `stop_event` is set.
unfoldable pub consume : ℕ → ℕ → List Round → Bucket → Bool × Bucket
consume nbytes deadline [] b = (false, b)
consume nbytes deadline (r ∷ rs) b =
    let b' = refill r.now b in
    let again = consume nbytes deadline rs b' in
    if leb (nbytes * per_byte) b'.tokens
    then (true, record b' { tokens = b'.tokens - nbytes * per_byte })
    else if too_late b' (nbytes * per_byte - b'.tokens) r.later deadline
    then (false, b')
    else again
