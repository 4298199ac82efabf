-- ===== src/Agent/Sound/Parts.antt =====
-- What an accepted configuration gives to the constructors: the parts of the agent.
use scv_agent.Config.Schema.{choice_schema, pipeline_schema, properties_of, qos_schema, one_of}
use scv_agent.Agent.Sound.{
  Gets-index, Accepts-has_all, Gets-get_or, Accepts-Obeys, Gets-bind, Obeys-nothing, Obeys,
  member-is_one_of, inr, inl, Accepts, Anything, Gets,
}
use scv_agent.Downlink.Registry.{is_one_of}
use scv_agent.Json.{truthy, Fields, Json}
use scv_agent.Config.Validator.{Validator}
use scv_agent.Base.{
  Option, arith, str_eq, if◌then◌else◌, Bool-cases, refl, ◌⊎◌, true, [], ◌≡◌, ◌∷◌, String, List,
}
use scv_agent.Agent.{
  ◌>>◌, ◌>>=◌, index, Attempt, Failure, make_pipeline, options_of, no_options, load_message, ensure,
  make_qos, policy, Part, Platform,
}

-- The constructors raise nothing that `main` lets through.
pub record IsPolite (p : Platform) : Type 0 where
  pub transport : (t r : Json) (o : Fields) → Gets Anything (ensure (p.make_transport t r o))
  pub buffer : (d m : Json) → Gets Anything (ensure (p.open_buffer d m))
  pub message : (t : Json) → Gets Anything (load_message p t)
  pub sampler : (t : Json) (o : Fields) → Gets Anything (ensure (p.make_sampler t o))
  pub codec : (t : Json) (o : Fields) → Gets Anything (ensure (p.make_codec t o))
  pub profile : (d : Json) → Gets Anything (ensure (p.make_profile d))
  pub services : (n : Json) → Gets Anything (ensure (p.create_snapshot n))
  pub telemetry : (i t : Json) → Gets Anything (ensure (p.start_telemetry i t))
  pub governor : (c m : Json) → Gets Anything (ensure (p.start_governor c m))
  pub subscription : (t : Json) → Gets Anything (ensure (p.create_subscription t))
  pub audit : (a : Json) → Gets Anything (ensure (p.open_audit a))

abbrev pub priority_names : List String
priority_names = "critical" ∷ "high" ∷ "normal" ∷ "low" ∷ []

abbrev pub msg_classes : List String
msg_classes = "state" ∷ "event" ∷ "bulk" ∷ []

-- The priority is one of the queue's, and the class one of the uplink's.
abbrev pub IsKnownPart : Part → Type 0
IsKnownPart e =
    (is_one_of priority_names e.priority ≡ true) × (is_one_of msg_classes e.msg_class ≡ true)

module _ (V : Validator) where
  default_or :
      (ss : List String) (d v : Json)
      → is_one_of ss d ≡ true
      → (v ≡ d) ⊎ Accepts V (one_of ss) v
      → is_one_of ss v ≡ true
  default_or ss d v h (inl e) = rw e h
  default_or ss d v h (inr a) = member-is_one_of ss v (V.choices _ v a refl)

  policy-Gets :
      (off on : String) (v : Json)
      → is_one_of (off ∷ on ∷ []) v ≡ true
      → Gets Anything (policy off on v)
  unfolding policy
  policy-Gets off on (Json.text t) h = elim (Bool-cases (str_eq t off)) [
    | inl e ↦ rw (e, policy) (record { holds = tt })
    | inr e ↦ elim (Bool-cases (str_eq t on)) [
      | inl f ↦ rw (e, f, policy) (record { holds = tt })
      | inr f ↦ absurd (ground (arith, e, f, h))
    ]
  ]
  policy-Gets off on Json.null h = absurd (ground arith)
  policy-Gets off on (Json.boolean b) h = absurd (ground arith)
  policy-Gets off on (Json.num n) h = absurd (ground arith)
  policy-Gets off on (Json.arr xs) h = absurd (ground arith)
  policy-Gets off on (Json.obj fs) h = absurd (ground arith)

  abbrev qos_properties : Fields
  qos_properties = properties_of qos_schema

  spec-Obeys :
      (v : Json)
      → (v ≡ Json.null) ⊎ Accepts V qos_schema v
      → Obeys V qos_properties (if truthy v then v else no_options)
  spec-Obeys v h = elim (Bool-cases (truthy v)) [
    | inr e ↦ rw e (Obeys-nothing V qos_properties)
    | inl e ↦ elim h [
      | inl n ↦ absurd (ground (arith, e, n))
      | inr a ↦ rw e (Accepts-Obeys V _ v a refl refl)
    ]
  ]

  pub make_qos-Gets :
      (p : Platform) (polite : IsPolite p) (v : Json)
      → (v ≡ Json.null) ⊎ Accepts V qos_schema v
      → Gets Anything (make_qos p v)
  unfolding make_qos
  make_qos-Gets p polite v h =
      let spec = if truthy v then v else no_options in
      let o = spec-Obeys v h in
      Gets-bind _ Anything _ _ (Gets-get_or V qos_properties spec o "reliability" _ refl) (λ r hr.
        Gets-bind Anything Anything _ _
          (policy-Gets "best_effort" "reliable" r
            (default_or ("best_effort" ∷ "reliable" ∷ []) _ r refl hr))
          (λ b _.
            Gets-bind _ Anything _ _ (Gets-get_or V qos_properties spec o "durability" _ refl)
              (λ d hd.
                Gets-bind Anything Anything _ _
                  (policy-Gets "volatile" "transient_local" d
                    (default_or ("volatile" ∷ "transient_local" ∷ []) _ d refl hd))
                  (λ c _.
                    Gets-bind _ Anything _ _ (Gets-get_or V qos_properties spec o "depth" _ refl)
                      (λ n _.
                        Gets-bind Anything _ _ _ (polite.profile n)
                          (λ _ _. record { holds = tt }))))))

  -- A sampler or a codec: its type, its options, and its constructor.
  choice-Gets :
      {B : Type 0} (v : Json) (make : Json → Fields → Option Failure) (Q : B → Type 0)
      (rest : Json → Attempt B)
      → Accepts V choice_schema v
      → ((t : Json) (o : Fields) → Gets Anything (ensure (make t o)))
      → ((t : Json) → Gets Q (rest t))
      → Gets Q (index "type" v >>= λ t. options_of v >>= λ o. ensure (make t o) >> rest t)
  unfolding options_of
  choice-Gets v make Q rest a polite h =
      let o = Accepts-Obeys V _ v a refl refl in
      let r = Accepts-has_all V _ _ v a refl o in
      Gets-bind _ Q _ _ (Gets-index V _ v o "type" refl (ground (arith, r))) (λ t _.
        Gets-bind Anything Q _ _ (rw (o.is_fields, options_of) (record { holds = tt }))
          (λ opts _. Gets-bind Anything Q _ _ (polite t opts) (λ _ _. h t)))

  module _ (p : Platform) (polite : IsPolite p) where
    pub make_pipeline-Gets :
        (spec : Json) → Accepts V pipeline_schema spec → Gets IsKnownPart (make_pipeline p spec)
    unfolding make_pipeline
    make_pipeline-Gets spec a =
        let o = Accepts-Obeys V _ spec a refl refl in
        let r = Accepts-has_all V _ _ spec a refl o in
        Gets-bind _ _ _ _ (Gets-index V _ spec o "name" refl (ground (arith, r))) (λ name _.
          Gets-bind _ _ _ _ (Gets-index V _ spec o "topic" refl (ground (arith, r))) (λ topic _.
            Gets-bind _ _ _ _ (Gets-index V _ spec o "msg_type" refl (ground (arith, r)))
              (λ msg_type _.
                Gets-bind _ _ _ _ (Gets-index V _ spec o "priority" refl (ground (arith, r)))
                  (λ priority hp.
                    Gets-bind _ _ _ _ (Gets-get_or V _ spec o "msg_class" _ refl) (λ msg_class hc.
                      Gets-bind _ _ _ _ (Gets-index V _ spec o "sampler" refl (ground (arith, r)))
                        (λ s hs. choice-Gets s p.make_sampler _ _ hs polite.sampler (λ sampler.
                          Gets-bind _ _ _ _ (Gets-index V _ spec o "codec" refl (ground (arith, r)))
                            (λ c hcodec.
                              choice-Gets c p.make_codec _ _ hcodec polite.codec (λ codec. record {
                                holds = (
                                  member-is_one_of priority_names priority
                                      (V.choices _ priority hp refl),
                                  default_or msg_classes _ msg_class refl hc,
                                );
                              })))))))))
