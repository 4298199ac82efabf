-- ===== src/Config/Accepted.antt =====
-- What a configuration that is loaded fulfils.
use scv_agent.RegistryTool.{is_in}
use scv_agent.Downlink.Registry.{is_one_of}
use scv_agent.Json.{key_of, Key, Json, Items}
use scv_agent.Config.{
  substitute, type_at, at, config, check_config, cross_check, check_pipelines, check_types, Known,
  Source, load_config,
}
use scv_agent.Base.{
  subst, List-cases, refl, Bool-cases, ◌∷◌, inr, false, Option, [], arith, inl, some, Option-cases,
  true, none, ◌≡◌, List,
}

-- Every pipeline has a name that no other has and none of `names` is, and known types.
abbrev pub ArePipelines : Known → Items → List Key → Type 0
ArePipelines known Items.nil names = Unit
ArePipelines known (Items.cons p ps) names =
    ((k : Key) × (name : Json) × (at "name" p ≡ some name)
      × (key_of name ≡ some k)
      × (is_in k names ≡ false)
      × ArePipelines known ps (k ∷ names))
    × ((s : Json) × (type_at "sampler" p ≡ some s) × (is_one_of known.samplers s ≡ true))
    × ((c : Json) × (type_at "codec" p ≡ some c) × (is_one_of known.codecs c ≡ true))

check_types-known :
    (known : Known) (p : Json)
    → check_types known p ≡ none
    → ((s : Json) × (type_at "sampler" p ≡ some s) × (is_one_of known.samplers s ≡ true))
      × ((c : Json) × (type_at "codec" p ≡ some c) × (is_one_of known.codecs c ≡ true))
unfolding check_types
check_types-known known p h = elim (Option-cases (type_at "sampler" p)) [
  | inl e ↦ absurd (ground (arith, e))
  | inr (s, e) ↦ elim (Option-cases (type_at "codec" p)) [
    | inl f ↦ absurd (ground (arith, e, f))
    | inr (c, f) ↦ ((s, e, ground (arith, e, f)), (c, f, ground (arith, e, f)))
  ]
]

check_pipelines-ArePipelines :
    (known : Known) (ps : Items) (names : List Key)
    → check_pipelines known ps names ≡ none
    → ArePipelines known ps names
unfolding check_pipelines
check_pipelines-ArePipelines known Items.nil names h = tt
check_pipelines-ArePipelines known (Items.cons p ps) names h = elim (Option-cases (at "name" p)) [
  | inl e ↦ absurd (ground (arith, e))
  | inr (name, e) ↦ elim (Option-cases (key_of name)) [
    | inl f ↦ absurd (ground (arith, e, f))
    | inr (k, f) ↦ elim (Option-cases (check_types known p)) [
      | inr (x, g) ↦ absurd (ground (arith, e, f, g))
      | inl g ↦
          let (s, c) = check_types-known known p g in
          let rest : check_pipelines known ps (k ∷ names) ≡ none = ground (arith, e, f, g) in
          (
            (
              k,
              name,
              e,
              f,
              ground (arith, e, f, g),
              check_pipelines-ArePipelines known ps (k ∷ names) rest,
            ),
            s,
            c,
          )
    ]
  ]
]

-- A configuration that is loaded fits the schema, names a known transport, and has a list of
-- pipelines with different names, known samplers and known codecs.
pub record IsAccepted (known : Known) (src : Source) (cfg : Json) : Type 0 where
  pub fits : src.fits cfg ≡ true
  pub transport : Json
  pub has_transport : type_at "transport" cfg ≡ some transport
  pub known_transport : is_one_of known.transports transport ≡ true
  pub pipelines : Items
  pub has_pipelines : at "pipelines" cfg ≡ some (Json.arr pipelines)
  pub good : ArePipelines known pipelines []

cross_check-IsAccepted :
    (known : Known) (src : Source) (cfg : Json)
    → src.fits cfg ≡ true
    → cross_check known cfg ≡ none
    → IsAccepted known src cfg
unfolding cross_check
cross_check-IsAccepted known src cfg fits h = elim (Option-cases (type_at "transport" cfg)) [
  | inl e ↦ absurd (ground (arith, e))
  | inr (t, e) ↦ elim (Bool-cases (is_one_of known.transports t)) [
    | inr no' ↦ absurd (ground (arith, e, no'))
    | inl yes' ↦ go t e yes' (at "pipelines" cfg) refl
  ]
]
  where
    go :
        (t : Json)
        → type_at "transport" cfg ≡ some t
        → is_one_of known.transports t ≡ true
        → (x : Option Json) → at "pipelines" cfg ≡ x
        → IsAccepted known src cfg
    go t e known_t (some (Json.arr ps)) f = record {
      fits = fits;
      transport = t;
      has_transport = e;
      known_transport = known_t;
      pipelines = ps;
      has_pipelines = f;
      good = check_pipelines-ArePipelines known ps [] (ground (arith, e, known_t, f));
    }
    go t e known_t none f = absurd (ground (arith, e, known_t, f))
    go t e known_t (some v) f = absurd (ground (arith, e, known_t, f))

check_config-config :
    (known : Known) (src : Source) (c : Json) {cfg : Json}
    → check_config known src c ≡ config cfg
    → (c ≡ cfg) × (src.fits c ≡ true) × (cross_check known c ≡ none)
unfolding check_config
check_config-config known src c h = elim (Bool-cases (src.fits c)) [
  | inr no' ↦ absurd (ground (arith, no'))
  | inl yes' ↦ elim (Option-cases (cross_check known c)) [
    | inr (x, e) ↦ absurd (ground (arith, yes', e))
    | inl e ↦ (ground (arith, yes', e), yes', e)
  ]
]

-- A configuration that load_config returns comes from a file in which every variable is defined,
-- fits the schema, names a known transport, and has pipelines of different names with known
-- samplers and codecs.
pub load_config-IsAccepted :
    (known : Known) (src : Source) {cfg : Json}
    → load_config known src ≡ config cfg
    → IsAccepted known src cfg
      × ((raw : Json) × (src.parsed ≡ some raw) × (substitute src.sub raw ≡ (cfg, [])))
unfolding load_config
load_config-IsAccepted known src {cfg} h = elim (Bool-cases src.is_file) [
  | inr no' ↦ absurd (ground (arith, no'))
  | inl file ↦ elim (Bool-cases src.is_utf8) [
    | inr bad ↦ absurd (ground (arith, file, bad, h))
    | inl utf8 ↦ elim (Option-cases src.parsed) [
      | inl e ↦ absurd (ground (arith, file, utf8, e))
      | inr (raw, e) ↦
          let (c, missing) = substitute src.sub raw in
          elim (List-cases missing) [
            | inr (m, ms, f) ↦ absurd (ground (arith, file, utf8, e, f))
            | inl f ↦
                let checked : check_config known src c ≡ config cfg =
                  ground (arith, file, utf8, e, f) in
                let (same, fits, crossed) = check_config-config known src c checked in
                (
                  subst (IsAccepted known src) same
                      (cross_check-IsAccepted known src c fits crossed),
                  (raw, e, ground (arith, same, f)),
                )
          ]
    ]
  ]
]
