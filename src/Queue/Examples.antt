-- ===== src/Queue/Examples.antt =====
-- Concrete runs of the queue.
use scv_agent.Queue.Order.{pop_cases, Pops, AllEmpty}
use scv_agent.Queue.Accounting.{
  stores, here, next, Reach, store-Conserves, Reach-IsBalanced, start, Conserves, IsBalanced, World,
}
use scv_agent.Queue.Bounds.{push_to-IsBounded, IsBounded}
use scv_agent.Queue.{
  nothing, conflation, bump, normal, ok, evict, low, critical, store, high, push_to, pop, enqueue,
  update, init, Handler, Queue,
}
use scv_agent.Base.{refl, ◌⊎◌, none, suc, ◌∷◌, ◌≡◌, true, [], arith, some, Bool, ℕ}

abbrev two_waiting : Queue ℕ
two_waiting = record {
  queues =
      update (λ p. []) high
        (record { key = some "pose"; item = 1 } ∷ record { key = some "odom"; item = 2 } ∷ []);
  maxlen = 2;
  dropped = λ p. 0;
  preserved = λ p. 0;
  conflated = λ p. 0;
  pushed = bump (bump (λ p. 0) high) high;
}

-- A handler that takes everything over.
abbrev keep_all : Handler ℕ ℕ
keep_all p a n = (some true, suc n)

two_waiting-IsBounded : IsBounded two_waiting
two_waiting-IsBounded critical = omega arith
two_waiting-IsBounded high = omega arith
two_waiting-IsBounded normal = omega arith
two_waiting-IsBounded low = omega arith

abbrev one_stored : World ℕ
one_stored = record (start 1) {
  queue = record (init 1) {
    queues = update (λ p. []) low (record { key = none; item = 5 } ∷ []);
    pushed = bump (λ p. 0) low;
  };
  pending = (low, nothing) ∷ [];
  pushes = bump (λ p. 0) low;
}

start-Reach : Reach (start 1) one_stored
unfolding init enqueue store evict conflation
start-Reach = next here (stores 5 low none nothing one_stored.queue refl)

Reach-IsBalanced_example : IsBalanced one_stored
Reach-IsBalanced_example = Reach-IsBalanced 1 start-Reach

pop_cases_example : (AllEmpty two_waiting × (pop two_waiting ≡ none)) ⊎ Pops two_waiting
pop_cases_example = pop_cases two_waiting

push_to-IsBounded_example :
    (quiet : Bool) × (s' : Queue ℕ) × (x' : ℕ) × (push_to
        (some keep_all)
        3
        high
        (some "pose")
        (two_waiting, 0)
      ≡ ok (quiet, s', x'))
    × IsBounded s'
push_to-IsBounded_example =
    push_to-IsBounded (some keep_all) 3 high (some "pose") two_waiting 0 (omega arith)
      two_waiting-IsBounded

store-Conserves_example :
    Conserves 2 high
      (some "odom")
      3
      (two_waiting.queues high)
      (store 2 high (some "odom") 3 (two_waiting.queues high))
store-Conserves_example = store-Conserves 2 high (some "odom") 3 (two_waiting.queues high)
