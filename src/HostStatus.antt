-- ===== src/HostStatus.antt =====
-- fta_agent/fta_agent/observability/host_status.py: what the health report says of the modem and of
-- the recording, from documents that other programs wrote.
-- An answer `none` of a reader is an exception, which the caller turns into a null value.
pub mod Recording
pub mod Collectors
mod Examples
use scv_agent.Json.{Json, Fields, Num, get, is_text, truthy, as_number}
use scv_agent.Base.{[], ltb, ◌∷◌, if◌then◌else◌, false, List, some, none, Bool, ℕ, Option, String}

-- d.get(k, {}), used as a dict.
abbrev pub sub_dict : String → Fields → Option Fields
sub_dict k d = elim (get k d) [
  | none ↦ some Fields.end
  | some v ↦ elim v [ Json.obj fs ↦ some fs | _ ↦ none ]
]

module _ (to_float : Json → Option Num) where
  -- `_num`; float(None) raises, and gives no number.
  abbrev pub to_number : Option Json → Option Num
  to_number none = none
  to_number (some v) = to_float v

  -- The loop of `parse_mmcli_rssi` over the technologies.
  unfoldable pub first_rssi : List String → Fields → Option (Option Num)
  first_rssi [] sig = some none
  first_rssi (tech ∷ techs) sig = elim (sub_dict tech sig) [
    | none ↦ none
    | some t ↦ elim (to_number (get "rssi" t)) [
      | none ↦ first_rssi techs sig
      | some n ↦ some (some n)
    ]
  ]

  unfoldable pub parse_mmcli_rssi : Fields → Option (Option Num)
  parse_mmcli_rssi doc = elim (sub_dict "modem" doc) [
    | none ↦ none
    | some modem ↦ elim (sub_dict "signal" modem) [
      | none ↦ none
      | some sig ↦ first_rssi ("lte" ∷ "umts" ∷ "gsm" ∷ []) sig
    ]
  ]

-- LOGGING_STALE_SEC, in microseconds
abbrev pub stale_after : ℕ
stale_after = 5000000

-- `started_at` is `ts - elapsed_sec`, rounded.
pub data Recorded : Type 0 where
  not_recording : Recorded
  recording : Option Json → Option Json → Num → Num → Recorded

-- h[k], as a number; `none` is KeyError or TypeError.
abbrev number_of : String → Fields → Option Num
number_of k h = elim (get k h) [ none ↦ none | some v ↦ as_number v ]

-- The dict of a running recording.
unfoldable pub recorded : Fields → Option Recorded
recorded h = elim (sub_dict "bag" h) [
  | none ↦ none
  | some bag ↦ elim (number_of "ts" h) [
    | none ↦ none
    | some ts ↦ elim (number_of "elapsed_sec" h) [
      | none ↦ none
      | some elapsed ↦ some (recording (get "session" h) (get "bytes" bag) ts elapsed)
    ]
  ]
]

abbrev pub is_session : Fields → Bool
is_session h = elim (get "mode" h) [ none ↦ false | some v ↦ is_text "session" v ]

abbrev pub is_alive : Fields → Bool
is_alive recorder = elim (get "alive" recorder) [ none ↦ false | some v ↦ truthy v ]

-- The part of `logging_status` below `json.loads`; the recorder is looked at in a session only.
unfoldable pub session_status : Fields → Option Recorded
session_status h =
    if is_session h
    then elim (sub_dict "recorder" h) [
      | none ↦ none
      | some r ↦ if is_alive r then recorded h else some not_recording
    ]
    else some not_recording

-- `logging_status`: the last message, read by `json.loads` (`some none` is its exception), and its
-- age in microseconds.
unfoldable pub logging_status : Option (Option Json) → ℕ → Option Recorded
logging_status none age = some not_recording
logging_status (some doc) age =
    if ltb stale_after age
    then some not_recording
    else elim doc [ none ↦ none | some v ↦ elim v [ Json.obj h ↦ session_status h | _ ↦ none ] ]

-- HostStatusCollector: the cached reports of the four collectors.
pub record Cache {ℓ} (A : Type ℓ) : Type ℓ where
  pub host : Option A
  pub net : Option A
  pub time : Option A
  pub version : Option A

-- What the collectors give in one round; `none` is None or an exception, which `_safe` stores as
-- None.
abbrev pub no_cache {ℓ} : {A : Type ℓ} → Cache A
no_cache = record { host = none; net = none; time = none; version = none }

-- One round of `_loop`; the version is collected once, before the rounds.
unfoldable pub collect {ℓ} : {A : Type ℓ} → Cache A → Cache A → Cache A
collect now cache = record cache { host = now.host; net = now.net; time = now.time }

unfoldable pub collect_version {ℓ} : {A : Type ℓ} → Option A → Cache A → Cache A
collect_version v cache = record cache { version = v }
