-- ===== src/Sampler/Conditions.antt =====
-- fta_agent/fta_agent/samplers/event.py, class EventSampler, from its configuration to its decisions.
-- Python's comparisons of values are parameters.
use mathlib.Core.List.{[]}
use scv_agent.Sampler.FieldPath.{fails, missing, found, Found}
use scv_agent.Sampler.{pass_and_flush, init_event, Event, decide_compared, Decision, decide_changed}
use scv_agent.Base.{
  inr, inl, Option-cases, arith, ◌≡◌, true, ◌∷◌, str_eq, none, if◌then◌else◌, some, ℕ, Option, List,
  Bool, String,
}

-- `_OPS`
pub data Op : Type 0 where
  eq_op ne_op gt_op gte_op lt_op lte_op : Op

pub data Condition : Type 0 where
  changed : Condition
  compares : Op → Condition

unfoldable pub read_condition : String → Option Condition
read_condition s =
    if str_eq s "changed"
    then some changed
    else if str_eq s "eq"
    then some (compares eq_op)
    else if str_eq s "ne"
    then some (compares ne_op)
    else if str_eq s "gt"
    then some (compares gt_op)
    else if str_eq s "gte"
    then some (compares gte_op)
    else if str_eq s "lt"
    then some (compares lt_op)
    else if str_eq s "lte"
    then some (compares lte_op)
    else none

-- The values of fields and of the configuration.
pub record Values {ℓ} (V : Type ℓ) : Type ℓ where
  -- `==`, of which `!=` is the negation.
  pub same : V → V → Bool
  -- The truth of a comparison; `none` is an exception.
  pub compare : Op → V → V → Option Bool
  -- The bytes of a `bytes` or `bytearray`, and a whole number.
  pub octets : V → Option (List ℕ)
  pub whole : ℕ → V

pub record EventSampler {ℓ} (V : Type ℓ) : Type ℓ where
  pub field : List ℕ
  pub condition : Condition
  -- `_value`; `none` is None.
  pub value : Option V
  pub state : Event V

-- `__init__`; `none` is ValueError.
unfoldable pub init_sampler {ℓ} :
    {V : Type ℓ} → List ℕ → String → Option V → Option (EventSampler V)
init_sampler [] condition value = none
init_sampler (c ∷ field) condition value = elim (read_condition condition) [
  | none ↦ none
  | some changed ↦
      some (record { field = c ∷ field; condition = changed; value = value; state = init_event })
  | some (compares op) ↦ elim value [
    | none ↦ none
    | some v ↦
        some (record {
          field = c ∷ field;
          condition = compares op;
          value = some v;
          state = init_event;
        })
  ]
]

module _ {ℓ} {V : Type ℓ} (values : Values V) where
  -- field_path.py, `as_number`; `none` is TypeError.
  unfoldable pub as_number : V → Option V
  as_number v = elim (values.octets v) [
    | none ↦ some v
    | some (b ∷ []) ↦ some (values.whole b)
    | some bs ↦ none
  ]

  -- The comparison with `_value`, which `__init__` wants for every comparison; `none` is an exception.
  unfoldable pub holds : Op → V → Option V → Option Bool
  holds op v none = none
  holds op v (some w) = elim (as_number v) [ none ↦ none | some n ↦ values.compare op n w ]

  -- `decide`, of the field's value; `none` is an exception, which changes nothing.
  unfoldable pub decide_value : V → EventSampler V → Option (Decision × EventSampler V)
  decide_value v s = elim s.condition [
    | changed ↦
        let (d, e) = decide_changed values.same (λ x. true) v s.state in
        some (d, record s { state = e })
    | compares op ↦ elim (holds op v s.value) [
      | none ↦ none
      | some b ↦
          let (d, e) = decide_compared values.same (λ x. b) v s.state in
          some (d, record s { state = e })
    ]
  ]

  -- `decide`, of a message.
  unfoldable pub decide_message :
      (List ℕ → Found V) → EventSampler V → Option (Decision × EventSampler V)
  decide_message get s = elim (get s.field) [
    | found v ↦ decide_value v s
    | missing ↦ none
    | fails ↦ none
  ]

  init_sampler-first :
      (field : List ℕ) (condition : String) (value : Option V) {s : EventSampler V}
      → init_sampler field condition value ≡ some s
      → s.state.first ≡ true
  unfolding init_sampler
  init_sampler-first [] condition value h = absurd (ground (arith, h))
  init_sampler-first (c ∷ field) condition value h =
      elim (Option-cases (read_condition condition)) [
        | inl e ↦ absurd (ground (arith, h, e))
        | inr (changed, e) ↦ ground (arith, h, e)
        | inr (compares op, e) ↦ elim (Option-cases value) [
          | inl n ↦ absurd (ground (arith, h, e, n))
          | inr (w, n) ↦ ground (arith, h, e, n)
        ]
      ]

  decide_value-first :
      (v : V) (s : EventSampler V) {d : Decision} {s' : EventSampler V}
      → s.state.first ≡ true
      → decide_value v s ≡ some (d, s')
      → d ≡ pass_and_flush
  unfolding decide_value decide_changed decide_compared
  decide_value-first v s {d} {s'} h f = ground (arith, h, f)

  -- A sampler that the constructor accepts decides to send the first message whose field has a value
  -- that can be compared.
  pub fires_at_first :
      (field : List ℕ) (condition : String) (value : Option V) {s : EventSampler V} (v : V)
      {d : Decision} {s' : EventSampler V}
      → init_sampler field condition value ≡ some s
      → decide_value v s ≡ some (d, s')
      → d ≡ pass_and_flush
  fires_at_first field condition value {s} v {d} {s'} h f =
      decide_value-first v s {s' = s'} (init_sampler-first field condition value h) f
