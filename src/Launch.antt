-- ===== src/Launch.antt =====
-- deploy/docker/launch/virtual_vehicle.launch.py: the processes of one virtual vehicle.
-- The environment and `float` of a text are parameters; `none` of `float` is ValueError.
use scv_agent.Base.{
  ◌++◌, ◌||◌, if◌then◌else◌, some, [], str_eq, none, ◌∷◌, Bool, Option, List, String,
}
pub mod Plan
mod Examples

-- `_env`: an empty variable counts as missing.
abbrev pub Environment : Type 0
Environment = String → Option String

unfoldable pub env_or : Environment → String → String → String
env_or env name default = elim (env name) [
  | none ↦ default
  | some v ↦ if str_eq v "" then default else v
]

-- v in ("0", "false", "False")
abbrev pub is_off : String → Bool
is_off v = str_eq v "0" || (str_eq v "false" || str_eq v "False")

pub data Action {ℓ} (R : Type ℓ) : Type ℓ where
  -- The shim, with its parameters by name, of the numbers.
  gps_shim : String → List (String × R) → Action R
  -- The agent, with its arguments.
  agent : List String → Action R
  -- The command, and after which time it starts.
  bag_play : R → List String → Action R

-- The numbers of the shim, by name, variable and default.
abbrev pub shim_numbers : List (String × (String × String))
shim_numbers =
    ("origin_lat", ("GPS_ORIGIN_LAT", "35.9000"))
    ∷ ("origin_lon", ("GPS_ORIGIN_LON", "128.8000"))
    ∷ ("offset_east_m", ("GPS_OFFSET_EAST", "0.0"))
    ∷ ("offset_north_m", ("GPS_OFFSET_NORTH", "0.0"))
    ∷ ("heading_offset_deg", ("GPS_HEADING", "0.0"))
    ∷ ("publish_hz", ("GPS_HZ", "5.0"))
    ∷ []

module _ {ℓ} {R : Type ℓ} (to_float : String → Option R) (split : String → List String)
    (env : Environment) where
  -- Every number, or ValueError.
  unfoldable pub numbers : List (String × (String × String)) → Option (List (String × R))
  numbers [] = some []
  numbers ((name, (variable, default)) ∷ rest) = elim (to_float (env_or env variable default)) [
    | none ↦ none
    | some x ↦ elim (numbers rest) [ none ↦ none | some xs ↦ some ((name, x) ∷ xs) ]
  ]

  abbrev pub agent_arguments : List String
  agent_arguments =
      "--config"
      ∷ env_or env "FTA_CONFIG" "/opt/fta/config/r01.yaml"
      ∷ "--log-level"
      ∷ env_or env "FTA_LOG_LEVEL" "INFO"
      ∷ "--log-format"
      ∷ env_or env "FTA_LOG_FORMAT" "text"
      ∷ []

  -- The shim and the agent; without the shim where the bag has positions of its own.
  unfoldable pub nodes : List (String × R) → List (Action R)
  nodes xs =
      if is_off (env_or env "GPS_SHIM" "1")
      then agent agent_arguments ∷ []
      else gps_shim (env_or env "ODOM_TOPIC" "/odom_bae") xs ∷ agent agent_arguments ∷ []

  -- The command that plays the bag.
  unfoldable pub bag_command : String → List String
  bag_command path =
      let topics : List String = split (env_or env "BAG_TOPICS" "") in
      let looped : List String = if is_off (env_or env "BAG_LOOP" "1") then [] else "--loop" ∷ [] in
      let filter : List String = elim topics [ [] ↦ [] | t ∷ ts ↦ "--topics" ∷ t ∷ ts ] in
      (("ros2"
          ∷ "bag"
          ∷ "play"
          ∷ path
          ∷ "--rate"
          ∷ env_or env "BAG_RATE" "1.0"
          ∷ "--start-offset"
          ∷ env_or env "BAG_START_OFFSET" "0.0"
          ∷ [])
        ++ looped)
      ++ filter

  -- generate_launch_description; `none` is ValueError.
  unfoldable pub launch : Option (List (Action R))
  launch = elim (to_float (env_or env "BAG_START_DELAY" "5.0")) [
    | none ↦ none
    | some delay ↦ elim (numbers shim_numbers) [
      | none ↦ none
      | some xs ↦
          let path = env_or env "BAG_PATH" "" in
          some (nodes xs ++ (if str_eq path "" then [] else bag_play delay (bag_command path) ∷ []))
    ]
  ]
