-- ===== src/Bucket/Limit.antt =====
-- The bandwidth limit.
use scv_agent.Bucket.{refill, consume, per_byte, Round, Bucket}
use scv_agent.Base.{refl, ◌≡◌, ◌<◌, arith, ℕ, ◌+◌, ◌*◌, ◌-◌, ◌≤◌, Bool, true, false, List, [], ◌∷◌}

abbrev pub IsWithin : Bucket → Type 0
IsWithin b = b.tokens ≤ b.capacity

-- The clock does not run backwards.
abbrev pub Follows : ℕ → List Round → Type 0
Follows last [] = Unit
Follows last (r ∷ rs) = (last ≤ r.now) × Follows r.now rs

-- The bytes that an answer lets through, in tokens.
abbrev pub spent : ℕ → Bool → ℕ
spent nbytes true = nbytes * per_byte
spent nbytes false = 0

module _ (nbytes deadline : ℕ) where
  -- A bucket that holds no more than its capacity holds no more after consume.
  pub consume-IsWithin :
      (rs : List Round) (b : Bucket) → IsWithin b → IsWithin (consume nbytes deadline rs b).1
  unfolding consume refill
  consume-IsWithin [] b h = h
  consume-IsWithin (r ∷ rs) b h = ground (arith, consume-IsWithin rs (refill r.now b))

  -- A message larger than the capacity of the bucket is never let through, whatever the clock
  -- reads.
  pub consume_oversized :
      (rs : List Round) (b : Bucket)
      → b.capacity < nbytes * per_byte
      → (consume nbytes deadline rs b).0 ≡ false
  unfolding consume refill
  consume_oversized [] b h = refl
  consume_oversized (r ∷ rs) b h = ground (arith, consume_oversized rs (refill r.now b))

  pub consume_rate : (rs : List Round) (b : Bucket) → (consume nbytes deadline rs b).1.rate ≡ b.rate
  unfolding consume refill
  consume_rate [] b = refl
  consume_rate (r ∷ rs) b = ground (arith, consume_rate rs (refill r.now b))

elapsed_total : (rate last now : ℕ) → last ≤ now → (now - last) * rate + last * rate ≡ now * rate
elapsed_total rate last now h = grind arith

-- A refill adds no more than the rate times the time that passed.
refill_budget :
    (now : ℕ) (b : Bucket)
    → b.last ≤ now
    → (refill now b).tokens + b.last * b.rate ≤ b.tokens + now * b.rate
unfolding refill
refill_budget now b h = ground (arith, elapsed_total b.rate b.last now h)

module _ (nbytes deadline : ℕ) where
  -- While the clock does not run backwards, the bytes that consume lets through and the tokens
  -- that are left are no more than the tokens that were there and the rate times the time that
  -- passed.
  pub consume_budget :
      (rs : List Round) (b : Bucket)
      → Follows b.last rs
      → let r = consume nbytes deadline rs b in
        spent nbytes r.0 + r.1.tokens + b.last * b.rate ≤ b.tokens + r.1.last * b.rate
  unfolding consume refill
  consume_budget [] b f = omega arith
  consume_budget (r ∷ rs) b f =
      let step = refill_budget r.now b f.0 in
      let rest = consume_budget rs (refill r.now b) f.1 in ground (arith, step, rest)
