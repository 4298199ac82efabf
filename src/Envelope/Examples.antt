-- ===== src/Envelope/Examples.antt =====
-- A run of the envelope's encoding.
use scv_agent.Base.Int.{pos}
use scv_agent.Base.{refl, none, ◌∷◌, ◌≡◌, some, []}
use scv_agent.Envelope.{
  envelope_version, from_cbor-to_cbor, to_map, whole, to_cbor, other, from_cbor, CborMap, Envelope,
}

abbrev odometry : Envelope
odometry = record {
  robot_id = other 1;
  seq = whole (pos 7);
  pipeline = other 2;
  src_topic = other 3;
  msg_type = other 4;
  stamp_agent = other 5;
  encoding = other 6;
  payload = other 7;
  stamp_ros = some (pos 12 ∷ pos 500 ∷ []);
  version = envelope_version;
}

-- A library that knows one dict.
abbrev one_map : CborMap
one_map = record { dumps = λ m. []; loads = λ raw. some (to_map odometry); tuple_of = λ v. none }

from_cbor-to_cbor_example : from_cbor one_map (to_cbor one_map odometry) ≡ some odometry
from_cbor-to_cbor_example = from_cbor-to_cbor one_map odometry refl tt
