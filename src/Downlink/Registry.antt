-- ===== src/Downlink/Registry.antt =====
-- fta_agent/fta_agent/downlink/registry_sync.py, class RegistrySyncManager.
-- `json.loads` of a payload and the lookup of a ROS type (`get_message`, `get_service`) are
-- parameters. Reasons are data in place of texts. The lock makes each call one step.
pub mod Active
pub mod Faults
use scv_agent.Base.Dict.{insert, lookup}
use scv_agent.Base.{
  not, ◌||◌, if◌then◌else◌, String, Bool, true, false, Option, none, some, List, [], ◌∷◌, map,
}
use scv_agent.Json.{
  none_key, json_keys, at_most_zero, is_text, num_key, text_key, key_of, as_number, Json, Items,
  Fields, Key, get, has,
}

-- What an exception that leaves a method is.
pub data Error : Type 0 where
  attribute_error type_error key_error schema_error conversion_error other_error : Error

pub data Outcome : Type 0 where
  done : Outcome
  raised : Error → Outcome

-- REQUIRED_FIELDS
abbrev pub required_fields : List String
required_fields =
    "interface_id" ∷ "name" ∷ "kind" ∷ "ros_type" ∷ "target" ∷ "schema" ∷ "permission_level"
    ∷ "default_ttl_sec" ∷ "version" ∷ []

pub data Reason : Type 0 where
  not_an_object : Reason
  missing : List String → Reason
  unknown_kind : Reason
  unknown_level : Reason
  bad_ttl : Reason
  bad_schema : Reason
  no_typesupport : Reason

-- [f for f in required if f not in entry]
unfoldable pub missing_fields : List String → Fields → List String
missing_fields [] entry = []
missing_fields (f ∷ fs) entry =
    if has f entry then missing_fields fs entry else f ∷ missing_fields fs entry

-- entry[f]: the method has checked that the field is there.
abbrev pub item : String → Fields → Json
item f entry = elim (get f entry) [ none ↦ Json.null | some v ↦ v ]

-- v in ("…", …)
abbrev pub is_one_of : List String → Json → Bool
is_one_of [] v = false
is_one_of (s ∷ ss) v = is_text s v || is_one_of ss v

abbrev pub is_object : Json → Bool
is_object (Json.obj fs) = true
is_object Json.null = false
is_object (Json.boolean b) = false
is_object (Json.num n) = false
is_object (Json.text s) = false
is_object (Json.arr xs) = false

-- isinstance(v, (int, float)) and not v <= 0
abbrev pub is_positive : Json → Bool
is_positive v = elim (as_number v) [ none ↦ false | some n ↦ not (at_most_zero n) ]

-- The checks of `_validate_entry` on a dict, in its order, after the missing fields.
unfoldable pub check_fields : Fields → Option Reason
check_fields entry =
    if is_one_of ("topic" ∷ "service" ∷ []) (item "kind" entry)
    then if is_one_of ("L0" ∷ "L1" ∷ "L2" ∷ []) (item "permission_level" entry)
      then if is_positive (item "default_ttl_sec" entry)
        then if is_object (item "schema" entry) then none else some bad_schema
        else some bad_ttl
      else some unknown_level
    else some unknown_kind

-- `_validate_entry`: the reason why an entry cannot be used.
unfoldable pub validate_entry : Json → Option Reason
validate_entry (Json.obj entry) = elim (missing_fields required_fields entry) [
  | [] ↦ check_fields entry
  | f ∷ fs ↦ some (missing (f ∷ fs))
]
validate_entry _ = some not_an_object

-- What `get_message` or `get_service` does with a type name: AttributeError, ModuleNotFoundError
-- and ValueError are the errors that `_check_typesupport` catches.
pub data Load : Type 0 where
  loaded : Load
  not_found : Load
  fails : Load

pub record TypeSupport : Type 0 where
  pub get_message : Json → Load
  pub get_service : Json → Load

-- The function that `_check_typesupport` calls for the entry's kind.
abbrev pub load_type : TypeSupport → Fields → Load
load_type ts entry =
    if is_text "topic" (item "kind" entry)
    then ts.get_message (item "ros_type" entry)
    else ts.get_service (item "ros_type" entry)

-- `_active` and `_unsupported` while the loop over the entries runs.
pub record Sorted : Type 0 where
  pub active : List (Key × Fields)
  pub unsupported : List (Key × Reason)

abbrev pub no_entries : Sorted
no_entries = record { active = []; unsupported = [] }

pub data Sorting : Type 0 where
  sorted : Sorted → Sorting
  breaks : Error → Sorting

-- unsupported[iid] = reason
unfoldable pub refuse : Json → Reason → Sorted → Sorting
refuse iid reason t = elim (key_of iid) [
  | none ↦ breaks type_error
  | some k ↦ sorted (record t { unsupported = insert k reason t.unsupported })
]

-- active[entry["interface_id"]] = entry
unfoldable pub admit : Fields → Sorted → Sorting
admit entry t = elim (key_of (item "interface_id" entry)) [
  | none ↦ breaks type_error
  | some k ↦ sorted (record t { active = insert k entry t.active })
]

module _ (ts : TypeSupport) where
  -- The body of the loop, for an entry that is a dict.
  unfoldable pub sort_fields : Fields → Sorted → Sorting
  sort_fields entry t =
      let iid : Json = elim (get "interface_id" entry) [ none ↦ Json.text "?" | some v ↦ v ] in
      elim (validate_entry (Json.obj entry)) [
        | some reason ↦ refuse iid reason t
        | none ↦ elim (load_type ts entry) [
          | loaded ↦ admit entry t
          | not_found ↦ refuse iid no_typesupport t
          | fails ↦ breaks other_error
        ]
      ]

  -- `entry.get` is called before the entry is checked to be a dict.
  unfoldable pub sort_entry : Json → Sorted → Sorting
  sort_entry (Json.obj entry) t = sort_fields entry t
  sort_entry _ t = breaks attribute_error

  unfoldable pub sort_entries : Items → Sorted → Sorting
  sort_entries Items.nil t = sorted t
  sort_entries (Items.cons v vs) t = elim (sort_entry v t) [
    | sorted t' ↦ sort_entries vs t'
    | breaks e ↦ breaks e
  ]

-- `sorted(self._active)` compares ids: texts with texts or numbers with numbers.
abbrev pub all_text : List (Key × Fields) → Bool
all_text [] = true
all_text ((text_key s, e) ∷ m) = all_text m
all_text ((num_key n, e) ∷ m) = false
all_text ((none_key, e) ∷ m) = false

abbrev pub all_num : List (Key × Fields) → Bool
all_num [] = true
all_num ((num_key n, e) ∷ m) = all_num m
all_num ((text_key s, e) ∷ m) = false
all_num ((none_key, e) ∷ m) = false

abbrev pub sortable : List (Key × Fields) → Bool
sortable [] = true
sortable (e ∷ []) = true
sortable m = all_text m || all_num m

-- The parts of `report_status` that are no clock: version, supported ids, refused ids.
pub record Report : Type 0 where
  pub version : Option Json
  pub supported : List Key
  pub refused : List (Key × Reason)

pub record Sync : Type 0 where
  pub active : List (Key × Fields)
  pub unsupported : List (Key × Reason)
  pub version : Option Json
  -- What was published on `agent/registry_status`, newest first.
  pub reports : List Report

abbrev pub start : Sync
start = record { active = []; unsupported = []; version = none; reports = [] }

-- `get_interface`, the only way to a definition.
unfoldable pub get_interface : Key → Sync → Option Fields
get_interface k s = lookup k s.active

unfoldable pub snapshot : Sync → Report
snapshot s = record {
  version = s.version;
  supported = map (λ e. e.0) s.active;
  refused = s.unsupported;
}

-- doc["interfaces"] with its `assert`; `none` is the error branch.
abbrev pub interfaces_of : Option Json → Option (Items × Option Json)
interfaces_of (some (Json.obj doc)) = elim (get "interfaces" doc) [
  | some (Json.arr xs) ↦ some (xs, get "version" doc)
  | _ ↦ none
]
interfaces_of _ = none

-- The end of `_on_registry`: the three fields are written under the lock, then the log line sorts
-- the ids, and the status is published.
unfoldable pub install : Sorted → Option Json → Sync → Sync × Outcome
install t version s =
    let s' = record s { active = t.active; unsupported = t.unsupported; version = version } in
    if sortable t.active
    then (record s' { reports = snapshot s' ∷ s.reports }, done)
    else (s', raised type_error)

-- An exception in the loop leaves the fields as they were.
unfoldable pub conclude : Sorting → Option Json → Sync → Sync × Outcome
conclude (sorted t) version s = install t version s
conclude (breaks e) version s = (s, raised e)

-- `_on_registry`, given what `json.loads(payload.decode("utf-8"))` returned; `none` is an exception.
unfoldable pub on_registry : TypeSupport → Option Json → Sync → Sync × Outcome
on_registry ts doc s = elim (interfaces_of doc) [
  | none ↦ (s, done)
  | some (interfaces, version) ↦ conclude (sort_entries ts interfaces no_entries) version s
]

-- The payloads that arrive, oldest first.
unfoldable pub receive_all : TypeSupport → List (Option Json) → Sync → Sync
receive_all ts [] s = s
receive_all ts (doc ∷ docs) s = receive_all ts docs (on_registry ts doc s).0
