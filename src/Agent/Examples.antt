-- ===== src/Agent/Examples.antt =====
-- Concrete runs of the agent's start, with a small validator of the keywords.
use scv_agent.Downlink.Registry.{loaded}
use scv_agent.Config.{Source, Known}
use scv_agent.Config.Schema.{config_schema, object}
use scv_agent.Agent.{Platform}
use scv_agent.Config.Validator.{Validator, has_all, is_member, has_type, all_items}
use scv_agent.Base.{
  inr, eq_iff, subst, refl, inl, [], ◌∷◌, Bool-cases, false, arith, none, some, ◌&&◌, str_eq, true,
  if◌then◌else◌, not, ◌≡◌, Bool, String,
}
use scv_agent.Json.{json_eq, Items, exceeds, get, Fields, Json, Num}

abbrev bounded : Num → Json → Bool
bounded m (Json.num n) = not (exceeds m n)
bounded m v = true

-- The keywords that look at the value itself.
abbrev plain : String → Json → Json → Bool
plain k (Json.text t) v = if str_eq k "type" then has_type t v else true
plain k (Json.num m) v = if str_eq k "minimum" then bounded m v else true
plain k (Json.arr ns) v =
    if str_eq k "enum"
    then is_member v ns
    else if str_eq k "required"
    then elim v [ Json.obj fs ↦ has_all ns fs | _ ↦ true ]
    else true
plain k s v = true

abbrev items_ok : (Json → Bool) → Json → Bool
items_ok f (Json.arr vs) = all_items f vs
items_ok f v = true

-- The value of a key, if it is there.
abbrev value_ok : (Json → Bool) → String → Json → Bool
value_ok f k (Json.obj fs) = elim (get k fs) [ none ↦ true | some w ↦ f w ]
value_ok f k v = true

unfoldable mutual
  accepts : Json → Json → Bool
  accepts (Json.obj ks) v = keywords_ok ks v
  accepts (Json.boolean b) v = b
  accepts s v = true

  keywords_ok : Fields → Json → Bool
  keywords_ok Fields.end v = true
  keywords_ok (Fields.field k s ks) v =
      (plain k s v && (if str_eq k "items" then items_ok (accepts s) v else true))
      && ((if str_eq k "properties" then properties_ok s v else true) && keywords_ok ks v)

  properties_ok : Json → Json → Bool
  properties_ok (Json.obj ps) v = values_ok ps v
  properties_ok s v = true

  values_ok : Fields → Json → Bool
  values_ok Fields.end v = true
  values_ok (Fields.field k s ps) v = value_ok (accepts s) k v && values_ok ps v

both : (a b : Bool) → (a && b) ≡ true → (a ≡ true) × (b ≡ true)
both a b h = (ground (arith, h), ground (arith, h))

-- What a keyword asks for.
abbrev Fulfils : String → Json → Json → Type 0
Fulfils k s v =
    (plain k s v ≡ true)
    × ((if str_eq k "items" then items_ok (accepts s) v else true) ≡ true)
    × ((if str_eq k "properties" then properties_ok s v else true) ≡ true)

-- Every keyword of a schema that accepts a value is fulfilled.
keyword :
    (ks : Fields) (v : Json) (k : String) {s : Json}
    → keywords_ok ks v ≡ true
    → get k ks ≡ some s
    → Fulfils k s v
unfolding keywords_ok
keyword Fields.end v k h g = absurd (ground (arith, g))
keyword (Fields.field j w ks) v k {s} h g = elim (Bool-cases (str_eq j k)) [
  | inl same ↦
      let (front, back) = both _ _ h in
      let (a, b) = both _ _ front in
      let first : Fulfils j w v = (a, b, (both _ _ back).0) in
      let found : w ≡ s = ground (arith, g, same) in
      subst (λ x. Fulfils k x v) found (subst (λ x. Fulfils x w v) ((eq_iff j k).0 same) first)
  | inr other ↦ keyword ks v k (both _ _ (both _ _ h).1).1 (ground (arith, g, other))
]

value :
    (ps : Fields) (v : Json) (k : String) {s : Json}
    → values_ok ps v ≡ true
    → get k ps ≡ some s
    → value_ok (accepts s) k v ≡ true
unfolding values_ok
value Fields.end v k h g = absurd (ground (arith, g))
value (Fields.field j w ps) v k {s} h g = elim (Bool-cases (str_eq j k)) [
  | inl same ↦
      let found : w ≡ s = ground (arith, g, same) in
      subst (λ x. value_ok (accepts x) k v ≡ true) found
        (subst (λ x. value_ok (accepts w) x v ≡ true) ((eq_iff j k).0 same)
          (both (value_ok (accepts w) j v) (values_ok ps v) h).0)
  | inr other ↦
      value ps v k {s = s} (both (value_ok (accepts w) j v) (values_ok ps v) h).1
        (ground (arith, g, other))
]

small_types :
    (ks : Fields) (v : Json) {t : String}
    → accepts (Json.obj ks) v ≡ true
    → get "type" ks ≡ some (Json.text t)
    → has_type t v ≡ true
unfolding accepts
small_types ks v h g = (keyword ks v "type" h g).0

small_requires :
    (ks fs : Fields) {ns : Items}
    → accepts (Json.obj ks) (Json.obj fs) ≡ true
    → get "required" ks ≡ some (Json.arr ns)
    → has_all ns fs ≡ true
unfolding accepts
small_requires ks fs h g = (keyword ks (Json.obj fs) "required" h g).0

small_property :
    (ks fs : Fields) (k : String) {ps : Fields} {s v : Json}
    → accepts (Json.obj ks) (Json.obj fs) ≡ true
    → get "properties" ks ≡ some (Json.obj ps)
    → get k ps ≡ some s
    → get k fs ≡ some v
    → accepts s v ≡ true
unfolding accepts properties_ok
small_property ks fs k {ps} {s} {v} h g e f =
    let all = (keyword ks (Json.obj fs) "properties" h g).2 in
    ground (arith, f, value ps (Json.obj fs) k all e)

small_elements :
    (ks : Fields) (vs : Items) {s : Json}
    → accepts (Json.obj ks) (Json.arr vs) ≡ true
    → get "items" ks ≡ some s
    → all_items (accepts s) vs ≡ true
unfolding accepts
small_elements ks vs h g = (keyword ks (Json.arr vs) "items" h g).1

small_choices :
    (ks : Fields) (v : Json) {vs : Items}
    → accepts (Json.obj ks) v ≡ true
    → get "enum" ks ≡ some (Json.arr vs)
    → is_member v vs ≡ true
unfolding accepts
small_choices ks v h g = (keyword ks v "enum" h g).0

small_minimum :
    (ks : Fields) (n : Num) {m : Num}
    → accepts (Json.obj ks) (Json.num n) ≡ true
    → get "minimum" ks ≡ some (Json.num m)
    → exceeds m n ≡ false
unfolding accepts
small_minimum ks n {m} h g = ground (arith, (keyword ks (Json.num n) "minimum" h g).0)

abbrev small : Validator
small = record {
  valid = accepts;
  types = small_types;
  requires = small_requires;
  property = small_property;
  elements = small_elements;
  choices = small_choices;
  minimum = small_minimum;
}

-- Constructors that return, on a robot with all types.
abbrev robot : Platform
robot = record {
  make_transport = λ t r o. none;
  open_buffer = λ d m. none;
  get_message = λ t. loaded;
  make_sampler = λ t o. none;
  make_codec = λ t o. none;
  create_subscription = λ t. none;
  has_request = λ t. false;
  make_profile = λ d. none;
  create_snapshot = λ n. none;
  start_telemetry = λ i t. none;
  start_governor = λ c m. none;
  open_audit = λ a. none;
}

abbrev choice : String → Json
choice t = object (("type", Json.text t) ∷ [])

abbrev odom_pipeline : Json
odom_pipeline = object (
    ("name", Json.text "odom")
    ∷ ("topic", Json.text "/odom")
    ∷ ("msg_type", Json.text "nav_msgs/msg/Odometry")
    ∷ ("sampler", choice "rate")
    ∷ ("codec", choice "cbor")
    ∷ ("priority", Json.text "normal")
    ∷ [])

abbrev one_pipeline : Json
one_pipeline = object (
    ("agent", object (("robot_id", Json.text "r1") ∷ []))
    ∷ ("transport", choice "mqtt")
    ∷ ("pipelines", Json.arr (Items.cons odom_pipeline Items.nil))
    ∷ [])

abbrev known : Known
known = record { transports = "mqtt" ∷ []; samplers = "rate" ∷ []; codecs = "cbor" ∷ [] }

abbrev file : Source
file = record {
  is_file = true;
  is_utf8 = true;
  parsed = some one_pipeline;
  sub = λ s. (s, []);
  fits = accepts config_schema;
}

-- The file is accepted, and an agent with its pipeline runs.
one_pipeline_fits : accepts config_schema one_pipeline ≡ true
unfolding accepts json_eq
one_pipeline_fits = refl
