-- ===== src/HostStatus/Examples.antt =====
-- A concrete report.
use scv_agent.Base.Int.{pos}
use scv_agent.HostStatus.Recording.{logging_status-IsLive, IsLive}
use scv_agent.HostStatus.{recorded, session_status, logging_status, recording}
use scv_agent.Json.{Json, field, end, fin}
use scv_agent.Base.{refl, none, ◌≡◌, some, true}

abbrev running : Json
running = Json.obj (
    field "mode" (Json.text "session") (
      field "recorder" (Json.obj (field "alive" (Json.boolean true) end)) (
        field "session" (Json.text "s1") (
          field "ts" (Json.num (fin (pos 100)))
            (field "elapsed_sec" (Json.num (fin (pos 40))) end)))))

reports :
    logging_status (some (some running)) 1000000
    ≡ some (recording (some (Json.text "s1")) none (fin (pos 100)) (fin (pos 40)))
unfolding logging_status session_status recorded
reports = refl

logging_status-IsLive_example : IsLive (some (some running)) 1000000
logging_status-IsLive_example = logging_status-IsLive (some (some running)) 1000000 reports
