-- ===== src/Config/Examples.antt =====
-- A concrete configuration.
use scv_agent.Config.Accepted.{load_config-IsAccepted, IsAccepted}
use scv_agent.Config.{
  config, check_types, check_pipelines, cross_check, check_config, substitute, load_config, Source,
  Known,
}
use scv_agent.Json.{Items, Json, field, end}
use scv_agent.Base.{refl, some, [], ◌≡◌, true, ◌∷◌, String}

abbrev typed : String → Json
typed t = Json.obj (field "type" (Json.text t) end)

abbrev pose : Json
pose = Json.obj (
    field "name" (Json.text "pose")
      (field "sampler" (typed "rate") (field "codec" (typed "cbor") end)))

abbrev vehicle : Json
vehicle = Json.obj (
    field "transport" (typed "mqtt") (field "pipelines" (Json.arr (Items.cons pose Items.nil)) end))

abbrev known : Known
known = record { transports = "mqtt" ∷ []; samplers = "rate" ∷ []; codecs = "cbor" ∷ [] }

-- A file without variables.
abbrev file : Source
file = record {
  is_file = true;
  is_utf8 = true;
  parsed = some vehicle;
  sub = λ s. (s, []);
  fits = λ c. true;
}

loads : load_config known file ≡ config vehicle
unfolding load_config substitute check_config cross_check check_pipelines check_types
loads = refl

load_config-IsAccepted_example :
    IsAccepted known file vehicle
    × ((raw : Json) × (file.parsed ≡ some raw) × (substitute file.sub raw ≡ (vehicle, [])))
load_config-IsAccepted_example = load_config-IsAccepted known file loads
