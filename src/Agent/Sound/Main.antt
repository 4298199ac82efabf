-- ===== src/Agent/Sound/Main.antt =====
-- `main` with the schema check of `jsonschema`: no configuration makes it crash.
use scv_agent.Agent.Sound.Whole.{IsSound}
use scv_agent.Config.{
  Source, Loaded, config, crash, no_file, not_yaml, undefined_variables, schema_violated,
  unknown_transport, repeated_name, unknown_sampler, unknown_codec,
}
use scv_agent.Agent.Start.{Main, runs, returns_1, crashes}
use scv_agent.Agent.{fails}
use mathlib.Core.Option.{none}
use scv_agent.Config.Schema.{config_schema}
use scv_agent.Config.{crash, ConfigError}
use scv_agent.Base.{false, Bool, true, ◌≡◌, some, Option}
use scv_agent.Json.{Json}
use scv_agent.Config.Validator.{Validator}

module _ (V : Validator) where
  abbrev is_crash : ConfigError → Bool
  is_crash crash = true
  is_crash no_file = false
  is_crash not_yaml = false
  is_crash (undefined_variables names) = false
  is_crash schema_violated = false
  is_crash unknown_transport = false
  is_crash repeated_name = false
  is_crash unknown_sampler = false
  is_crash unknown_codec = false

  abbrev crashed : Option ConfigError → Bool
  crashed none = false
  crashed (some e) = is_crash e

  -- The schema check of the source is that of CONFIG_SCHEMA.
  abbrev pub ChecksSchema : Source → Type 0
  ChecksSchema src = (cfg : Json) → src.fits cfg ≡ V.valid config_schema cfg

  abbrev load_crashed : Loaded → Bool
  load_crashed (config cfg) = false
  load_crashed (Loaded.fails e) = is_crash e

  -- How `main` ends: a sound agent runs, or an error was reported.
  abbrev pub EndsWell : Main → Type 0
  EndsWell (runs agent) = IsSound agent
  EndsWell returns_1 = Unit
  EndsWell (crashes e) = ⊥
