-- ===== src/Envelope.antt =====
-- fta_agent/fta_agent/core/envelope.py, class Envelope, and
-- fta_agent/fta_agent/core/message_view.py, class MessageView.
-- `cbor2` and `deserialize_message` are parameters. The fields of an envelope hold values of any
-- type, since `from_cbor` checks none.
use scv_agent.Base.Dict.{string_keys, lookup}
use scv_agent.Base.{
  refl, if◌then◌else◌, Bool, arith, none, some, [], String, ℕ, ◌≡◌, ◌∷◌, Option, List,
}
use scv_agent.Base.Int.{pos, ℤ}
mod Examples

-- The values that `cbor2` writes and reads: None, lists of whole numbers, and any other, by a number.
pub data Value : Type 0 where
  none_value : Value
  whole : ℤ → Value
  list : List ℤ → Value
  other : ℕ → Value

-- A dict with text keys.
abbrev pub Map : Type 0
Map = List (String × Value)

pub record CborMap : Type 0 where
  pub dumps : Map → List ℕ
  -- `none` is an exception, or a value that is no dict.
  pub loads : List ℕ → Option Map
  -- tuple(v) if v else None, of a value that is no list of whole numbers.
  pub tuple_of : Value → Option (Option (List ℤ))

pub record Envelope : Type 0 where
  pub robot_id : Value
  pub seq : Value
  pub pipeline : Value
  pub src_topic : Value
  pub msg_type : Value
  pub stamp_agent : Value
  pub encoding : Value
  pub payload : Value
  -- The tuple of seconds and nanoseconds.
  pub stamp_ros : Option (List ℤ)
  pub version : Value

-- ENVELOPE_VERSION
abbrev pub envelope_version : Value
envelope_version = whole (pos 1)

-- list(self.stamp_ros) if self.stamp_ros else None
unfoldable pub stamp_value : Option (List ℤ) → Value
stamp_value none = none_value
stamp_value (some []) = none_value
stamp_value (some (x ∷ xs)) = list (x ∷ xs)

unfoldable pub to_map : Envelope → Map
to_map e =
    ("v", e.version)
    ∷ ("robot_id", e.robot_id)
    ∷ ("seq", e.seq)
    ∷ ("pipeline", e.pipeline)
    ∷ ("src_topic", e.src_topic)
    ∷ ("msg_type", e.msg_type)
    ∷ ("stamp_ros", stamp_value e.stamp_ros)
    ∷ ("stamp_agent", e.stamp_agent)
    ∷ ("encoding", e.encoding)
    ∷ ("payload", e.payload)
    ∷ []

-- tuple(v) if v else None
unfoldable pub stamp_tuple : CborMap → Option Value → Option (Option (List ℤ))
stamp_tuple cbor none = some none
stamp_tuple cbor (some none_value) = some none
stamp_tuple cbor (some (list [])) = some none
stamp_tuple cbor (some (list (x ∷ xs))) = some (some (x ∷ xs))
stamp_tuple cbor (some (whole n)) = cbor.tuple_of (whole n)
stamp_tuple cbor (some (other n)) = cbor.tuple_of (other n)

infixl 5 ◌>>=◌
abbrev ◌>>=◌ : {A B : Type 0} → Option A → (A → Option B) → Option B
m >>= f = elim m [ none ↦ none | some a ↦ f a ]

-- The arguments of the constructor call in `from_cbor`, in their order; a missing key is KeyError.
unfoldable pub from_map : CborMap → Map → Option Envelope
from_map cbor d = do
  version ← lookup "v" d
  robot_id ← lookup "robot_id" d
  seq ← lookup "seq" d
  pipeline ← lookup "pipeline" d
  src_topic ← lookup "src_topic" d
  msg_type ← lookup "msg_type" d
  stamp_ros ← stamp_tuple cbor (lookup "stamp_ros" d)
  stamp_agent ← lookup "stamp_agent" d
  encoding ← lookup "encoding" d
  payload ← lookup "payload" d
  some (record {
    robot_id = robot_id;
    seq = seq;
    pipeline = pipeline;
    src_topic = src_topic;
    msg_type = msg_type;
    stamp_agent = stamp_agent;
    encoding = encoding;
    payload = payload;
    stamp_ros = stamp_ros;
    version = version;
  })

module _ (cbor : CborMap) where
  unfoldable pub to_cbor : Envelope → List ℕ
  to_cbor e = cbor.dumps (to_map e)

  unfoldable pub from_cbor : List ℕ → Option Envelope
  from_cbor raw = elim (cbor.loads raw) [ none ↦ none | some d ↦ from_map cbor d ]

-- The times of an envelope: none, or a tuple that is not empty.
abbrev pub IsStamp : Option (List ℤ) → Type 0
IsStamp none = Unit
IsStamp (some []) = ⊥
IsStamp (some (x ∷ xs)) = Unit

stamp_tuple-stamp_value :
    (cbor : CborMap) (s : Option (List ℤ))
    → IsStamp s
    → stamp_tuple cbor (some (stamp_value s)) ≡ some s
unfolding stamp_tuple stamp_value
stamp_tuple-stamp_value cbor none h = refl
stamp_tuple-stamp_value cbor (some []) h = absurd h
stamp_tuple-stamp_value cbor (some (x ∷ xs)) h = refl

-- An envelope without a ROS time or with one that is not empty is read back as it was, if the
-- library reads back the dict of this envelope.
pub from_cbor-to_cbor :
    (cbor : CborMap) (e : Envelope)
    → cbor.loads (cbor.dumps (to_map e)) ≡ some (to_map e)
    → IsStamp e.stamp_ros
    → from_cbor cbor (to_cbor cbor e) ≡ some e
unfolding from_cbor to_cbor from_map to_map
from_cbor-to_cbor cbor e h s = ground (arith, h, stamp_tuple-stamp_value cbor e.stamp_ros s)

-- MessageView: the raw bytes, and the message once it was deserialized.
pub record MessageView {ℓ} (M : Type ℓ) : Type ℓ where
  pub raw : List ℕ
  pub has_class : Bool
  pub msg : Option M

-- An exception: RuntimeError and AttributeError are caught by `ros_stamp`, the rest is not.
pub data ViewError : Type 0 where
  runtime_error : ViewError
  attribute_error : ViewError
  unknown_error : ViewError

pub data Got {ℓ} (A : Type ℓ) : Type ℓ where
  got : A → Got A
  fails : ViewError → Got A

module _ {ℓ} {M : Type ℓ} (deserialize : List ℕ → Got M) where
  unfoldable pub ros_msg : MessageView M → Got M × MessageView M
  ros_msg v = elim v.msg [
    | some m ↦ (got m, v)
    | none ↦
        if v.has_class
        then (elim (deserialize v.raw) [
          | fails e ↦ (fails e, v)
          | got m ↦ (got m, record v { msg = some m })
        ])
        else (fails runtime_error, v)
  ]

  -- `ros_stamp`; `none` of the header is AttributeError.
  unfoldable pub ros_stamp {κ} :
      {T : Type κ} → (M → Option T) → MessageView M → Got (Option T) × MessageView M
  ros_stamp header v =
      let (r, v') = ros_msg v in
      elim r [
        | got m ↦ (got (header m), v')
        | fails runtime_error ↦ (got none, v')
        | fails attribute_error ↦ (got none, v')
        | fails unknown_error ↦ (fails unknown_error, v')
      ]
