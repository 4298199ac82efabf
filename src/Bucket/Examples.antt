-- ===== src/Bucket/Examples.antt =====
-- Concrete runs of the token bucket.
use scv_agent.Bucket.Limit.{consume_budget, consume_oversized, spent}
use scv_agent.Bucket.{Round, consume, Bucket}
use scv_agent.Base.{◌≤◌, ◌*◌, [], false, arith, ◌+◌, ◌∷◌, ◌≡◌, List}

-- 1 kbps: 125 bytes, of which 25 are there at the time 0.
abbrev low_bucket : Bucket
low_bucket = record { rate = 125; capacity = 125000000; tokens = 25000000; last = 0 }

-- The clock of two rounds, half a second apart.
abbrev two_rounds : List Round
two_rounds = record { now = 0; later = 0 } ∷ record { now = 500000; later = 500000 } ∷ []

consume_budget_example :
    let r = consume 50 30000000 two_rounds low_bucket in
    spent 50 r.0 + r.1.tokens + 0 * 125 ≤ 25000000 + r.1.last * 125
consume_budget_example =
    consume_budget 50 30000000 two_rounds low_bucket (omega arith, (omega arith, tt))

consume_oversized_example : (consume 126 30000000 two_rounds low_bucket).0 ≡ false
consume_oversized_example = consume_oversized 126 30000000 two_rounds low_bucket (omega arith)
