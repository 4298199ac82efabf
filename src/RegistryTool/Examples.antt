-- ===== src/RegistryTool/Examples.antt =====
-- A concrete registry file.
use scv_agent.RegistryTool.Agreement.{validate_from-FilesAll, FilesAll}
use scv_agent.RegistryTool.{entry_problems, item_problems, value_problems, validate_from}
use scv_agent.Downlink.Registry.{no_entries, missing_fields, loaded, load_type, TypeSupport}
use scv_agent.Base.Int.{pos}
use scv_agent.Json.{Items, Json, Fields, field, end, fin}
use scv_agent.Base.{refl, [], arith, some, ◌≡◌}

abbrev entry : Fields
entry = field "interface_id" (Json.text "stop") (
    field "name" (Json.text "stop") (
      field "kind" (Json.text "topic") (
        field "ros_type" (Json.text "std_msgs/msg/Bool") (
          field "target" (Json.text "/stop") (
            field "schema" (Json.obj end) (
              field "permission_level" (Json.text "L1") (
                field "default_ttl_sec" (Json.num (fin (pos 5000000)))
                  (field "version" (Json.num (fin (pos 1000000))) end))))))))

abbrev one_entry : Items
one_entry = Items.cons (Json.obj entry) Items.nil

abbrev all_types : TypeSupport
all_types = record { get_message = λ t. loaded; get_service = λ t. loaded }

all_loaded : (e : Fields) → load_type all_types e ≡ loaded
all_loaded e = ground arith

no_problem : validate_from 0 one_entry [] ≡ some []
unfolding validate_from item_problems entry_problems value_problems missing_fields
no_problem = refl

validate_from-FilesAll_example : FilesAll all_types one_entry no_entries
validate_from-FilesAll_example =
    validate_from-FilesAll all_types one_entry 0 [] no_entries all_loaded no_problem
