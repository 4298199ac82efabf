-- ===== src/HostStatus/Collectors.antt =====
-- fta_agent/fta_agent/observability/host_status.py: the four collectors.
-- What a command printed is an argument (`none` is a failure of it), already cut into words, fields
-- or lines, or parsed. The readings of psutil are left out.
use scv_agent.Base.Int.{ltb_ℤ, ℤ}
use scv_agent.HostStatus.{parse_mmcli_rssi}
use scv_agent.Base.Dict.{string_keys, lookup}
use scv_agent.Json.{truthy, get, Fields, Num, Json}
use scv_agent.Base.{
  false, true, not, get_elem?, str_eq, [], some, if◌then◌else◌, none, ◌∷◌, String, Bool, Option,
  List,
}

-- What an external program says, or an exception.
pub data Reading {ℓ} (A : Type ℓ) : Type ℓ where
  reads : A → Reading A
  breaks : Reading A

-- cpu_temp: the current temperatures of each sensor, by its name.
abbrev pub sensors : List String
sensors = "coretemp" ∷ "k10temp" ∷ "cpu-thermal" ∷ "CPU-therm" ∷ []

-- max(…) of a list that is not empty
abbrev pub largest : ℤ → List ℤ → ℤ
largest n [] = n
largest n (m ∷ ms) = largest (if ltb_ℤ n m then m else n) ms

unfoldable pub first_sensor : List String → List (String × List ℤ) → Option ℤ
first_sensor [] temps = none
first_sensor (name ∷ names) temps = elim (lookup name temps) [
  | some (t ∷ ts) ↦ some (largest t ts)
  | _ ↦ first_sensor names temps
]

unfoldable pub cpu_temp : List (String × List ℤ) → Option ℤ
cpu_temp temps = first_sensor sensors temps

-- gpu_pct: the words of nvidia-smi, as numbers; or whether tegrastats is there, and its number.
unfoldable pub gpu_pct : Option (List ℤ) → Bool → Option ℤ → Reading (Option ℤ)
gpu_pct (some []) there line = breaks
gpu_pct (some (n ∷ ns)) there line = reads (some (largest n ns))
gpu_pct none there line = if there then reads line else reads none

-- The loop of default_iface over the lines behind the first, each cut into its fields.
unfoldable pub default_line : List (List String) → Reading (Option String)
default_line [] = reads none
default_line ((name ∷ destination ∷ rest) ∷ lines) =
    if str_eq destination "00000000" then reads (some name) else default_line lines
default_line (line ∷ lines) = breaks

unfoldable pub default_iface : List (List String) → Reading (Option String)
default_iface [] = reads none
default_iface (heading ∷ lines) = default_line lines

-- modem_rssi: the list of modems, then the signal of the first; `none` of a command is no output.
abbrev pub signal_rssi : (Json → Option Num) → Option Fields → Reading (Option Num)
signal_rssi to_float none = reads none
signal_rssi to_float (some d) = elim (parse_mmcli_rssi to_float d) [
  | none ↦ breaks
  | some r ↦ reads r
]

-- Whether modems[0] is there, of a value that is no empty one.
abbrev pub has_first : Json → Bool
has_first (Json.arr xs) = true
has_first (Json.text s) = true
has_first v = false

unfoldable pub modem_rssi :
    (Json → Option Num) → Option Fields → Option Fields → Reading (Option Num)
modem_rssi to_float none signal = reads none
modem_rssi to_float (some doc) signal = elim (get "modem-list" doc) [
  | none ↦ reads none
  | some modems ↦
      if truthy modems
      then if has_first modems then signal_rssi to_float signal else breaks
      else reads none
]

-- collect_net: without a signal there is no entry `rssi_dbm`.
pub record Net : Type 0 where
  pub iface : Option String
  pub rssi : Option Num

unfoldable pub collect_net : Reading (Option String) → Reading (Option Num) → Reading Net
collect_net (reads iface) (reads rssi) = reads (record { iface = iface; rssi = rssi })
collect_net breaks r = breaks
collect_net (reads iface) breaks = breaks

pub record Sync : Type 0 where
  pub synced : Bool
  -- A time difference, as a number; `none` is unknown.
  pub offset : Option Num
  pub source : String

-- parse_chronyc, on the fields of the line; `float` is a parameter. A missing field is IndexError.
unfoldable pub parse_chronyc : (String → Option Num) → List String → Reading Sync
parse_chronyc to_float f = elim (get_elem? f 13) [
  | none ↦ breaks
  | some leap ↦ elim (get_elem? f 4) [
    | none ↦ breaks
    | some offset ↦ elim (to_float offset) [
      | none ↦ breaks
      | some seconds ↦ elim (get_elem? f 1) [
        | none ↦ breaks
        | some source ↦ reads (record {
          synced = not (str_eq leap "Not synchronised");
          offset = some seconds;
          source = source;
        })
      ]
    ]
  ]
]

-- collect_time: the fields of chronyc, if it printed any; else what timedatectl printed.
unfoldable pub collect_time :
    (String → Option Num) → Option (List String) → Option String → Reading (Option Sync)
collect_time to_float (some f) timesync = elim (parse_chronyc to_float f) [
  | breaks ↦ breaks
  | reads s ↦ reads (some s)
]
collect_time to_float none none = reads none
collect_time to_float none (some word) =
    reads (some (record { synced = str_eq word "yes"; offset = none; source = "timesyncd" }))

-- collect_version: what git prints of the workspace, if there is one.
pub record Version : Type 0 where
  pub agent : String
  pub vehicle_sw : Option String
  pub git : Option String

unfoldable pub version_of : String → Bool → Option String → Option String → Version
version_of agent has_workspace desc head = record {
  agent = agent;
  vehicle_sw = if has_workspace then desc else none;
  git = if has_workspace then head else none;
}

-- `_safe`: a value, or None after an exception.
unfoldable pub safe {ℓ} : {A : Type ℓ} → Reading (Option A) → Option A
safe (reads v) = v
safe breaks = none
