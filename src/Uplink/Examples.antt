-- ===== src/Uplink/Examples.antt =====
-- Concrete runs of the uplink.
use scv_agent.Uplink.Overflow.{push_critical-IsKept, MovesOldest}
use scv_agent.Uplink.Delivery.{deliver-Fate, IsRouted, IsPublished}
use scv_agent.Message.{event}
use scv_agent.Queue.{ok, critical, push_to, update, high, Queue}
use scv_agent.Uplink.Rounds.{deliver}
use scv_agent.Uplink.{on_overflow, init, Uplink, Item, Transport}
use scv_agent.Disk.Examples.{payloads, two_files}
use scv_agent.Base.{refl, ◌++◌, arith, ◌⊎◌, ◌≡◌, [], false, none, ◌∷◌, suc, some, true, ℕ}

-- A transport that takes everything over and counts it.
abbrev counting : Transport ℕ
counting = record { connected = λ n. true; publish = λ c p d r n. (true, suc n) }

abbrev fault_item : Item
fault_item = record { pipeline = "fault"; msg_class = event; payload = 9 ∷ [] }

abbrev buffered : Uplink
buffered = init (some two_files) none 5000000

deliver-Fate_example :
    (u' : Uplink) × (t' : ℕ) × (deliver payloads counting false high fault_item 0 0 [] (buffered, 0)
      ≡ some (u', t'))
    × (IsPublished payloads counting high fault_item (buffered, 0) (u', t')
        ⊎ IsRouted payloads high fault_item 0 buffered u')
deliver-Fate_example =
    deliver-Fate payloads counting false high fault_item 0 0 [] buffered 0 (omega arith)

abbrev full_queue : Queue Item
full_queue = record {
  queues = update (λ p. []) critical (record { key = none; item = fault_item } ∷ []);
  maxlen = 1;
  dropped = λ p. 0;
  preserved = λ p. 0;
  conflated = λ p. 0;
  pushed = λ p. 1;
}

push_critical-IsKept_example :
    (s' : Queue Item) × (u' : Uplink) × (push_to
        (some (on_overflow payloads 0))
        fault_item
        critical
        none
        (full_queue, buffered)
      ≡ ok (true, s', u'))
    × (s'.dropped critical ≡ 0)
    × (((s'.queues critical
            ≡ full_queue.queues critical ++ record { key = none; item = fault_item } ∷ [])
          × (u' ≡ buffered))
        ⊎ MovesOldest payloads 0 two_files
            (record { key = none; item = fault_item })
            (full_queue.queues critical)
            (s'.queues critical)
            u')
unfolding init
push_critical-IsKept_example =
    push_critical-IsKept payloads 0 fault_item none full_queue buffered two_files (omega arith) refl
      (omega arith, tt)
