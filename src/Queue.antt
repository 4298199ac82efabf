-- ===== src/Queue.antt =====
-- fta_agent/fta_agent/core/priority_queue.py, class PriorityOutQueue.
-- The five dicts keyed by priority are functions of the priority. A `with self._cond` block is one
-- step: `push` is the block that stores the item (`enqueue`), the call of the overflow handler
-- outside the lock, and the block that counts the outcome (`settle`).
pub mod Cases
pub mod Bounds
pub mod Order
pub mod Accounting
mod Examples
use scv_agent.Base.{
  ℕ, suc, ◌+◌, String, ◌≡◌, Bool, true, false, Option, none, some, List, [], ◌∷◌, ◌++◌, leb, length,
  if◌then◌else◌, str_eq, ◌⊎◌, inl, inr, refl,
}

pub data Priority : Type 0 where
  critical high normal low : Priority

-- PRIORITIES, in the order of the tuple.
abbrev pub priorities : List Priority
priorities = critical ∷ high ∷ normal ∷ low ∷ []

-- CONFLATE_PRIORITIES
abbrev pub conflates : Priority → Bool
conflates high = true
conflates _ = false

abbrev pub same : Priority → Priority → Bool
same critical critical = true
same high high = true
same normal normal = true
same low low = true
same _ _ = false

abbrev pub priority_of : String → Option Priority
priority_of s =
    if str_eq s "critical"
    then some critical
    else if str_eq s "high"
    then some high
    else if str_eq s "normal"
    then some normal
    else if str_eq s "low"
    then some low
    else none

pub data Error : Type 0 where
  value_error index_error : Error

pub data Result {ℓ} (A : Type ℓ) : Type ℓ where
  ok : A → Result A
  raise : Error → Result A

pub Result-cases {ℓ} :
    {A : Type ℓ} (r : Result A) → ((a : A) × (r ≡ ok a)) ⊎ ((e : Error) × (r ≡ raise e))
Result-cases (ok a) = inl (a, refl)
Result-cases (raise e) = inr (e, refl)

abbrev pub is_some {ℓ} : {A : Type ℓ} → Option A → Bool
is_some none = false
is_some (some a) = true

-- One tuple `(conflate_key, item)` of a deque.
pub record Waiting {ℓ} (A : Type ℓ) : Type ℓ where
  pub key : Option String
  pub item : A

pub record Queue {ℓ} (A : Type ℓ) : Type ℓ where
  pub queues : Priority → List (Waiting A)
  pub maxlen : ℕ
  pub dropped : Priority → ℕ
  pub preserved : Priority → ℕ
  pub conflated : Priority → ℕ
  pub pushed : Priority → ℕ

-- d[p] = v
abbrev pub update {ℓ} : {B : Type ℓ} → (Priority → B) → Priority → B → Priority → B
update d p v q = if same p q then v else d q

abbrev pub bump : (Priority → ℕ) → Priority → Priority → ℕ
bump d p = update d p (suc (d p))

unfoldable pub init {ℓ} : {A : Type ℓ} → ℕ → Queue A
init maxlen = record {
  queues = λ p. [];
  maxlen = maxlen;
  dropped = λ p. 0;
  preserved = λ p. 0;
  conflated = λ p. 0;
  pushed = λ p. 0;
}

-- What a push put out of the queue: nothing, the oldest entry, or the one that it conflated with.
pub data Displaced {ℓ} (A : Type ℓ) : Type ℓ where
  nothing : Displaced A
  evicted : A → Displaced A
  replaced : A → Displaced A

abbrev pub key_matches : Option String → String → Bool
key_matches none k = false
key_matches (some j) k = str_eq j k

module _ {ℓ} {A : Type ℓ} where
  -- The `for … break` loop, and the write at the index that it found: the first entry with the key
  -- takes the new item where it stands, and its old item comes out.
  pub replace_first : String → A → List (Waiting A) → Option (A × List (Waiting A))
  replace_first k a [] = none
  replace_first k a (w ∷ ws) =
      if key_matches w.key k
      then some (w.item, record { key = some k; item = a } ∷ ws)
      else elim (replace_first k a ws) [ none ↦ none | some (old, rest) ↦ some (old, w ∷ rest) ]

  -- `idx`, searched for only where the priority conflates and a key is given.
  pub conflation : Priority → Option String → A → List (Waiting A) → Option (A × List (Waiting A))
  conflation p none a ws = none
  conflation p (some k) a ws = if conflates p then replace_first k a ws else none

  -- `q.popleft()` and `q.append(…)`
  pub evict : Option String → A → List (Waiting A) → Result (Displaced A × List (Waiting A))
  evict key a [] = raise index_error
  evict key a (w ∷ ws) = ok (evicted w.item, ws ++ record { key = key; item = a } ∷ [])

  -- What the first locked block does to the deque of one priority.
  pub store :
      ℕ → Priority → Option String → A → List (Waiting A) → Result (Displaced A × List (Waiting A))
  unfolding evict conflation
  store maxlen p key a ws =
      if leb maxlen (length ws)
      then (elim (conflation p key a ws) [
        | some (old, rest) ↦ ok (replaced old, rest)
        | none ↦ evict key a ws
      ])
      else ok (nothing, ws ++ record { key = key; item = a } ∷ [])

  -- The first locked block of `push`.
  pub enqueue : A → Priority → Option String → Queue A → Result (Displaced A × Queue A)
  enqueue a p key s = elim (store s.maxlen p key a (s.queues p)) [
    | raise e ↦ raise e
    | ok (d, ws) ↦ ok (d, record s { queues = update s.queues p ws; pushed = bump s.pushed p })
  ]

  -- The second locked block: `handled` is the handler's answer.
  unfoldable pub settle : Priority → Displaced A → Bool → Queue A → Queue A
  settle p nothing handled s = s
  settle p (evicted a) handled s =
      if handled
      then record s { preserved = bump s.preserved p }
      else record s { dropped = bump s.dropped p }
  settle p (replaced a) handled s =
      if handled
      then record s { preserved = bump s.preserved p }
      else record s { conflated = bump s.conflated p }

  -- An exception of the handler leaves `push` before the second block.
  abbrev pub settle_answer : Priority → Displaced A → Option Bool → Queue A → Queue A
  settle_answer p d none s = s
  settle_answer p d (some handled) s = settle p d handled s

  abbrev pub displaced_item : Displaced A → Option A
  displaced_item nothing = none
  displaced_item (evicted a) = some a
  displaced_item (replaced a) = some a

-- The overflow handler works on a state of its own: in the agent, the disk buffer and statistics.
-- Its answer is `none` where it raises an exception.
abbrev pub Handler {ℓ} : Type ℓ → Type ℓ → Type ℓ
Handler A S = Priority → A → S → Option Bool × S

module _ {ℓ} {A S : Type ℓ} where
  -- No handler, or nothing displaced: nothing is called.
  abbrev pub run_handler : Option (Handler A S) → Priority → Option A → S → Option Bool × S
  run_handler none p a x = (some false, x)
  run_handler (some h) p none x = (some false, x)
  run_handler (some h) p (some a) x = h p a x

  -- An exception of the queue changes nothing. One of the handler comes out with the item stored:
  -- the Boolean says whether there was none.
  unfoldable pub push_to :
      Option (Handler A S)
      → A
      → Priority
      → Option String
      → Queue A × S
      → Result (Bool × Queue A × S)
  push_to handler a p key (s, x) = elim (enqueue a p key s) [
    | raise e ↦ raise e
    | ok (d, s') ↦
        let (answer, x') = run_handler handler p (displaced_item d) x in
        ok (is_some answer, settle_answer p d answer s', x')
  ]

  unfoldable pub push :
      Option (Handler A S) → A → String → Option String → Queue A × S → Result (Bool × Queue A × S)
  push handler a priority key st = elim (priority_of priority) [
    | none ↦ raise value_error
    | some p ↦ push_to handler a p key st
  ]

module _ {ℓ} {A : Type ℓ} where
  -- The `for p in PRIORITIES` loop of `pop`.
  pub pop_from : List Priority → Queue A → Option (Priority × A × Queue A)
  pop_from [] s = none
  pop_from (p ∷ ps) s = elim (s.queues p) [
    | [] ↦ pop_from ps s
    | w ∷ ws ↦ some (p, w.item, record s { queues = update s.queues p ws })
  ]

  abbrev is_empty : List (Waiting A) → Bool
  is_empty [] = true
  is_empty (w ∷ ws) = false

  abbrev pub any_waiting : List Priority → Queue A → Bool
  any_waiting [] s = false
  any_waiting (p ∷ ps) s = if is_empty (s.queues p) then any_waiting ps s else true

  -- `_nonempty`
  pub nonempty : Queue A → Bool
  nonempty s = any_waiting priorities s

  -- What `pop` does when its wait ends, by an item or by the time limit: `none` if nothing waits.
  unfoldable pub pop : Queue A → Option (Priority × A × Queue A)
  unfolding nonempty pop_from
  pop s = if nonempty s then pop_from priorities s else none

  pub qsize : Queue A → Priority → ℕ
  qsize s p = length (s.queues p)
