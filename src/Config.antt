-- ===== src/Config.antt =====
-- fta_agent/fta_agent/config/loader.py.
-- The YAML parser, the replacement of `${…}` in a text and the schema check are parameters. The
-- names that the registries know are arguments.
use scv_agent.RegistryTool.{is_in}
use scv_agent.Json.{key_of, Fields, get, Key, Items, Json}
pub mod Accepted
pub mod Schema
pub mod Validator
mod Examples
use scv_agent.Downlink.Registry.{item, is_one_of}
use scv_agent.Base.{◌∷◌, some, ◌++◌, none, Option, [], if◌then◌else◌, Bool, List, String}

pub data ConfigError : Type 0 where
  no_file : ConfigError
  not_yaml : ConfigError
  undefined_variables : List String → ConfigError
  schema_violated : ConfigError
  unknown_transport : ConfigError
  repeated_name : ConfigError
  unknown_sampler : ConfigError
  unknown_codec : ConfigError
  -- KeyError or TypeError, which a document that fits the schema does not raise
  crash : ConfigError

-- `_substitute_env`: the node after it, and the names that are added to `missing`.
unfoldable mutual
  pub substitute : (String → String × List String) → Json → Json × List String
  substitute sub (Json.text s) = let (t, m) = sub s in (Json.text t, m)
  substitute sub (Json.arr xs) = let (ys, m) = substitute_items sub xs in (Json.arr ys, m)
  substitute sub (Json.obj fs) = let (gs, m) = substitute_fields sub fs in (Json.obj gs, m)
  substitute sub v = (v, [])

  substitute_items : (String → String × List String) → Items → Items × List String
  substitute_items sub Items.nil = (Items.nil, [])
  substitute_items sub (Items.cons v vs) =
      let (w, m) = substitute sub v in
      let (ws, n) = substitute_items sub vs in (Items.cons w ws, m ++ n)

  substitute_fields : (String → String × List String) → Fields → Fields × List String
  substitute_fields sub Fields.end = (Fields.end, [])
  substitute_fields sub (Fields.field k v fs) =
      let (w, m) = substitute sub v in
      let (gs, n) = substitute_fields sub fs in (Fields.field k w gs, m ++ n)

-- v[k]; `none` is KeyError or TypeError.
abbrev pub at : String → Json → Option Json
at k (Json.obj fs) = get k fs
at k v = none

-- v[k]["type"]
abbrev pub type_at : String → Json → Option Json
type_at k v = elim (at k v) [ none ↦ none | some w ↦ at "type" w ]

-- The names that the three registries know.
pub record Known : Type 0 where
  pub transports : List String
  pub samplers : List String
  pub codecs : List String

-- The body of the loop over the pipelines, under the name's own test: the error, if there is one.
unfoldable pub check_types : Known → Json → Option ConfigError
check_types known p = elim (type_at "sampler" p) [
  | none ↦ some crash
  | some s ↦
      if is_one_of known.samplers s
      then (elim (type_at "codec" p) [
        | none ↦ some crash
        | some c ↦ if is_one_of known.codecs c then none else some unknown_codec
      ])
      else some unknown_sampler
]

-- The loop; `names` is the set of names so far.
unfoldable pub check_pipelines : Known → Items → List Key → Option ConfigError
check_pipelines known Items.nil names = none
check_pipelines known (Items.cons p ps) names = elim (at "name" p) [
  | none ↦ some crash
  | some name ↦ elim (key_of name) [
    | none ↦ some crash
    | some k ↦
        let rest = check_pipelines known ps (k ∷ names) in
        if is_in k names
        then some repeated_name
        else elim (check_types known p) [ some e ↦ some e | none ↦ rest ]
  ]
]

-- The cross checks behind the schema.
unfoldable pub cross_check : Known → Json → Option ConfigError
cross_check known cfg = elim (type_at "transport" cfg) [
  | none ↦ some crash
  | some t ↦
      if is_one_of known.transports t
      then (elim (at "pipelines" cfg) [
        | some (Json.arr ps) ↦ check_pipelines known ps []
        | _ ↦ some crash
      ])
      else some unknown_transport
]

pub data Loaded : Type 0 where
  config : Json → Loaded
  fails : ConfigError → Loaded

-- The file, if it is there, and what the YAML parser returned; what the schema check says.
pub record Source : Type 0 where
  pub is_file : Bool
  -- Whether its bytes are UTF-8.
  pub is_utf8 : Bool
  pub parsed : Option Json
  pub sub : String → String × List String
  pub fits : Json → Bool

unfoldable pub check_config : Known → Source → Json → Loaded
check_config known src cfg =
    if src.fits cfg
    then elim (cross_check known cfg) [ none ↦ config cfg | some e ↦ fails e ]
    else fails schema_violated

-- `load_config`
unfoldable pub load_config : Known → Source → Loaded
load_config known src =
    if src.is_file
    then (if src.is_utf8
        then (elim src.parsed [
          | none ↦ fails not_yaml
          | some raw ↦
              let (cfg, missing) = substitute src.sub raw in
              elim missing [
                | [] ↦ check_config known src cfg
                | m ∷ ms ↦ fails (undefined_variables (m ∷ ms))
              ]
        ])
        else fails crash)
    else fails no_file
