-- ===== src/Pipeline.antt =====
-- fta_agent/fta_agent/core/pipeline.py, class Pipeline, with the envelope of
-- fta_agent/fta_agent/core/envelope.py.
-- The sampler, the codec and the push into the output queue are parameters; the subscription's
-- thread makes the `submit` steps, the worker the `work` steps.
pub mod Accounts
pub mod Numbering
mod Examples
use scv_agent.Base.{
  ◌++◌, length, leb, ◌∷◌, ◌&&◌, false, some, ltb, [], none, List, Option, if◌then◌else◌, Bool, suc,
  String, ℕ,
}

pub record Stats : Type 0 where
  pub received : ℕ
  pub sampled_out : ℕ
  pub encoded : ℕ
  pub drop_in_full : ℕ
  pub drop_paused : ℕ
  pub error : ℕ

-- The parts of the envelope that the pipeline makes: its number and the encoded message.
pub record Envelope : Type 0 where
  pub pipeline : String
  pub seq : ℕ
  pub encoding : String
  pub payload : List ℕ

pub record Pipeline {ℓ} (B : Type ℓ) : Type ℓ where
  pub name : String
  pub waiting : List B
  pub input_max : ℕ
  pub seq : ℕ
  pub stats : Stats
  pub paused : Bool

abbrev no_stats : Stats
no_stats = record {
  received = 0;
  sampled_out = 0;
  encoded = 0;
  drop_in_full = 0;
  drop_paused = 0;
  error = 0;
}

unfoldable pub init {ℓ} : {B : Type ℓ} → String → ℕ → Pipeline B
init name input_max = record {
  name = name;
  waiting = [];
  input_max = input_max;
  seq = 0;
  stats = no_stats;
  paused = false;
}

abbrev count_received : Stats → Stats
count_received s = record s { received = suc s.received }

abbrev count_error : Stats → Stats
count_error s = record s { error = suc s.error }

module _ {ℓ} {B : Type ℓ} where
  -- `pause` and `resume`
  unfoldable pub set_paused : Bool → Pipeline B → Pipeline B
  set_paused b s = record s { paused = b }

  -- The part of `submit` below the count of messages; a `maxsize` of 0 is no limit.
  unfoldable pub accept : B → Pipeline B → Pipeline B
  accept raw s =
      if s.paused
      then record s { stats = record (s.stats) { drop_paused = suc s.stats.drop_paused } }
      else if ltb 0 s.input_max && leb s.input_max (length s.waiting)
      then record s { stats = record (s.stats) { drop_in_full = suc s.stats.drop_in_full } }
      else record s { waiting = s.waiting ++ raw ∷ [] }

  unfoldable pub submit : B → Pipeline B → Pipeline B
  submit raw s = accept raw (record s { stats = count_received s.stats })

-- One call of a thread.
pub data Event {ℓ} (B : Type ℓ) : Type ℓ where
  submits : B → Event B
  works : Event B
  pauses : Bool → Event B

-- The sampler's answer and the codec's, `none` for an exception; and the push, `false` for one.
pub record Stages {ℓ} (B S Q : Type ℓ) : Type ℓ where
  pub decide : B → S → Option Bool × S
  pub encode : B → Option (String × List ℕ)
  pub push : Envelope → Q → Bool × Q

module _ {ℓ} {B S Q : Type ℓ} (stages : Stages B S Q) where
  -- The end of `_process`, of an encoded message.
  unfoldable pub emit : String × List ℕ → Pipeline B × S × Q → Pipeline B × S × Q
  emit (encoding, payload) (s, x, q) =
      let env : Envelope = record {
        pipeline = s.name;
        seq = s.seq;
        encoding = encoding;
        payload = payload;
      } in
      let (ok, q') = stages.push env q in
      let s' : Pipeline B = record s {
        seq = suc s.seq;
        stats = record (s.stats) { encoded = suc s.stats.encoded };
      } in
      if ok then (s', x, q') else (record s' { stats = count_error s'.stats }, x, q')

  -- `_process`, with the `except` of `_run` that counts an exception.
  unfoldable pub process : B → Pipeline B × S × Q → Pipeline B × S × Q
  process raw (s, x, q) =
      let (answer, x') = stages.decide raw x in
      elim answer [
        | none ↦ (record s { stats = count_error s.stats }, x', q)
        | some passes ↦
            if passes
            then (elim (stages.encode raw) [
              | none ↦ (record s { stats = count_error s.stats }, x', q)
              | some e ↦ emit e (s, x', q)
            ])
            else (
              record s { stats = record (s.stats) { sampled_out = suc s.stats.sampled_out } },
              x',
              q,
            )
      ]

  -- One round of `_run`.
  unfoldable pub work : Pipeline B × S × Q → Pipeline B × S × Q
  work (s, x, q) = elim s.waiting [
    | [] ↦ (s, x, q)
    | raw ∷ rest ↦ process raw (record s { waiting = rest }, x, q)
  ]

  unfoldable pub run : List (Event B) → Pipeline B × S × Q → Pipeline B × S × Q
  run [] w = w
  run (submits raw ∷ es) (s, x, q) = run es (submit raw s, x, q)
  run (works ∷ es) w = run es (work w)
  run (pauses b ∷ es) (s, x, q) = run es (set_paused b s, x, q)
