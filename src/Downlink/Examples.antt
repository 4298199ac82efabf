-- ===== src/Downlink/Examples.antt =====
-- Concrete runs of the downlink modules.
use scv_agent.Downlink.Command.Passing.{validate-iff-Passes}
use scv_agent.Downlink.Command.Idempotence.{acts_once}
use scv_agent.Downlink.Command.Faults.{check_ttl_nan}
use scv_agent.Downlink.Registry.Faults.{on_registry_non_object}
use scv_agent.Downlink.Command.Safety.{IsWired, serve_safe, Executes}
use scv_agent.Base.Int.{◌+ℤ◌, pos}
use scv_agent.Downlink.Command.Chain.{Passes}
use scv_agent.Downlink.Command.Checks.{
  respond, store_seen, remember, record_audit, check_times, check_duplicate, check_schema, hash,
  field_of, finish, check_ttl, validate,
}
use scv_agent.Downlink.Command.Methods.{
  send, cached_handle, get_publisher, topic_attempt, execute_topic, execute, execute_if,
  handle_envelope, serve_all, handle, Command, serve,
}
use scv_agent.Downlink.Command.{
  returns, replies_with, published_once, accepted, valid, Result, Executor, World,
}
use scv_agent.Downlink.Registry.Active.{get_interface-IsUsable, on_registry_replaces, IsUsable}
use scv_agent.Downlink.Registry.{
  snapshot, admit, check_fields, missing_fields, validate_entry, sort_fields, sort_entry, item,
  sort_entries, Outcome, install, conclude, receive_all, start, loaded, Error, on_registry,
  get_interface, Sync, TypeSupport,
}
use scv_agent.Json.{
  key_eq, infinity, key_of, end, nan, text_key, Key, field, fin, Items, Fields, Json,
}
use scv_agent.Base.{
  false, arith, ◌↔◌, ◌≢◌, refl, ◌*◌, ◌⊎◌, true, ◌∷◌, ◌≡◌, [], none, some, Option, ℕ,
}

abbrev seconds : ℕ → Json
seconds n = Json.num (fin (pos (n * 1000000)))

-- A topic to stop the robot by.
abbrev stop_entry : Fields
stop_entry = field "interface_id" (Json.text "stop") (
    field "name" (Json.text "stop") (
      field "kind" (Json.text "topic") (
        field "ros_type" (Json.text "std_msgs/msg/Bool") (
          field "target" (Json.text "/stop") (
            field "schema" (Json.obj end) (
              field "permission_level" (Json.text "L1") (
                field "default_ttl_sec" (seconds 5)
                  (field "version" (Json.num (fin (pos 1000000))) end))))))))

abbrev registry_doc : Items → Option Json
registry_doc xs =
    some (Json.obj (field "version" (Json.text "1") (field "interfaces" (Json.arr xs) end)))

abbrev stop_doc : Option Json
stop_doc = registry_doc (Items.cons (Json.obj stop_entry) Items.nil)

abbrev all_types : TypeSupport
all_types = record { get_message = λ t. loaded; get_service = λ t. loaded }

abbrev stop_registry : Sync
stop_registry = record start { active = (text_key "stop", stop_entry) ∷ [] }

stop_installed :
    get_interface (text_key "stop") (receive_all all_types (stop_doc ∷ []) start) ≡ some stop_entry
unfolding get_interface receive_all on_registry conclude install sort_entries sort_entry sort_fields
    validate_entry missing_fields check_fields admit snapshot
stop_installed = refl

get_interface-IsUsable_example :
    IsUsable all_types stop_entry
    × (id : Key) × (key_of (item "interface_id" stop_entry) ≡ some id)
    × (key_eq id (text_key "stop") ≡ true)
get_interface-IsUsable_example =
    get_interface-IsUsable all_types (stop_doc ∷ []) (text_key "stop") stop_installed

stop_done : (on_registry all_types stop_doc start).1 ≡ Outcome.done
unfolding on_registry conclude install sort_entries sort_entry sort_fields validate_entry
    missing_fields check_fields admit snapshot
stop_done = refl

on_registry_replaces_example :
    get_interface (text_key "go") (on_registry all_types stop_doc start).0
    ≡ get_interface (text_key "go") (on_registry all_types stop_doc stop_registry).0
on_registry_replaces_example =
    on_registry_replaces all_types stop_doc start stop_registry (text_key "go") refl stop_done

-- One entry is a text: the valid one beside it is not installed.
on_registry_non_object_example :
    (e : Error) × (on_registry all_types
        (registry_doc (Items.cons (Json.obj stop_entry) (Items.cons (Json.text "x") Items.nil)))
        start
      ≡ (start, Outcome.raised e))
on_registry_non_object_example =
    on_registry_non_object all_types
      (registry_doc (Items.cons (Json.obj stop_entry) (Items.cons (Json.text "x") Items.nil))) start
      (Items.cons (Json.obj stop_entry) (Items.cons (Json.text "x") Items.nil))
      (some (Json.text "1")) refl refl

-- A robot on which everything works.
abbrev robot : World
robot = record {
  overflows = λ now i t. false;
  validate_schema = λ p c. valid;
  make_message = λ t p. true;
  create_publisher = λ e. some 0;
  publish = λ h p. true;
  make_request = λ t p. true;
  create_client = λ e. some 0;
  wait_for_service = λ h. true;
  call = λ h p. replies_with p;
  dump_response = λ r. some r;
}

abbrev envelope : Json → Json → Fields
envelope cmd_id ttl = field "cmd_id" cmd_id (
    field "interface_id" (Json.text "stop") (
      field "issued_at" (seconds 100) (
        field "ttl" ttl
          (field "issuer" (Json.text "operator") (field "payload" (Json.boolean true) end)))))

abbrev command : Json → Json → Command
command cmd_id ttl = record {
  doc = some (Json.obj (envelope cmd_id ttl));
  recv_time = fin (pos 101000000);
  world = robot;
}

abbrev executor : Executor
executor = record {
  registry = stop_registry;
  seen = [];
  seen_max = 1000;
  takes = λ r. true;
  publishers = [];
  clients = [];
  audit = [];
  replies = [];
  effects = [];
}

abbrev stop_result : Result
stop_result = record { status = accepted; detail = published_once }

abbrev answered : Executor
answered = record executor { seen = (text_key "c1", stop_result) ∷ [] }

serve_safe_example :
    IsWired (serve (command (Json.text "c1") (seconds 3)) executor)
    × (((serve (command (Json.text "c1") (seconds 3)) executor).effects ≡ [])
        ⊎ Executes
            (command (Json.text "c1") (seconds 3))
            executor
            (serve (command (Json.text "c1") (seconds 3)) executor))
serve_safe_example = serve_safe (command (Json.text "c1") (seconds 3)) executor (tt, tt)

passes_all :
    validate robot (envelope (Json.text "c1") (seconds 3)) (fin (pos 101000000)) executor
    ≡ (returns (some stop_entry), executor)
unfolding validate field_of hash get_interface check_schema check_ttl check_times check_duplicate
    ◌+ℤ◌
passes_all = refl

check_ttl_nan_example :
    check_ttl robot (envelope (Json.text "c1") (Json.num nan)) stop_entry infinity executor
    ≡ check_duplicate (envelope (Json.text "c1") (Json.num nan)) stop_entry executor
check_ttl_nan_example =
    check_ttl_nan robot (envelope (Json.text "c1") (Json.num nan)) stop_entry infinity executor refl
      refl refl refl refl refl

all_dumped : (r : Json) → robot.dump_response r ≢ none
all_dumped r e = absurd (ground (arith, e))

-- An executor whose registry came from the document above.
abbrev ready : Executor
ready = record executor { registry = receive_all all_types (stop_doc ∷ []) start }

abbrev stop_envelope : Fields
stop_envelope = envelope (Json.text "c1") (seconds 3)

abbrev stop_command : Command
stop_command = command (Json.text "c1") (seconds 3)

stop_acts : (serve stop_command executor).effects ≢ []
unfolding serve handle handle_envelope record_audit missing_fields validate field_of hash
    get_interface check_schema check_ttl check_times check_duplicate ◌+ℤ◌ execute_if execute
    execute_topic topic_attempt get_publisher cached_handle send finish remember store_seen respond
stop_acts e = absurd (ground (arith, e))

acts_once_example :
    let s' = serve_all (command (Json.text "c2") (seconds 3) ∷ []) (serve stop_command executor) in
    (serve stop_command s').effects ≡ s'.effects
acts_once_example =
    acts_once stop_command stop_command (command (Json.text "c2") (seconds 3) ∷ []) executor
      stop_envelope stop_envelope {k = text_key "c1"} all_dumped refl refl
      (λ e. absurd (ground (arith, e))) stop_acts (omega arith) refl refl

validate-iff-Passes_example :
    (validate robot stop_envelope (fin (pos 101000000)) executor
      ≡ (returns (some stop_entry), executor))
    ↔ Passes robot stop_envelope (fin (pos 101000000)) executor stop_entry
validate-iff-Passes_example =
    validate-iff-Passes robot stop_envelope (fin (pos 101000000)) executor stop_entry
