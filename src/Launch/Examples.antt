-- ===== src/Launch/Examples.antt =====
-- The launch of a vehicle with a bag.
use scv_agent.Base.{refl, none, ◌≡◌, ◌∷◌, some, str_eq, if◌then◌else◌, ℕ, [], Option, List, String}
use scv_agent.Launch.{
  bag_command, bag_play, nodes, agent, env_or, gps_shim, numbers, Action, launch, Environment,
}

abbrev bag_environment : Environment
bag_environment name = if str_eq name "BAG_PATH" then some "/data/drive.mcap" else none

abbrev zero_number : String → Option ℕ
zero_number s = some 0

abbrev no_words : String → List String
no_words s = []

abbrev zeros : List (String × ℕ)
zeros =
    ("origin_lat", 0)
    ∷ ("origin_lon", 0)
    ∷ ("offset_east_m", 0)
    ∷ ("offset_north_m", 0)
    ∷ ("heading_offset_deg", 0)
    ∷ ("publish_hz", 0)
    ∷ []

abbrev bag_actions : List (Action ℕ)
bag_actions =
    gps_shim "/odom_bae" zeros
    ∷ agent (
        "--config" ∷ "/opt/fta/config/r01.yaml" ∷ "--log-level" ∷ "INFO" ∷ "--log-format" ∷ "text"
        ∷ [])
    ∷ bag_play 0 (
        "ros2" ∷ "bag" ∷ "play" ∷ "/data/drive.mcap" ∷ "--rate" ∷ "1.0" ∷ "--start-offset" ∷ "0.0"
        ∷ "--loop" ∷ [])
    ∷ []

bag_launch : launch zero_number no_words bag_environment ≡ some bag_actions
unfolding launch numbers env_or nodes bag_command
bag_launch = refl
