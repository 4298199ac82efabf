-- ===== src/Agent/Sound/Whole.antt =====
-- What an accepted configuration gives to the constructors: FtaAgent.__init__ as a whole.
use mathlib.Core.Option.{none}
use scv_agent.Base.Int.{pos}
use scv_agent.Agent.Sound.{
  get_or-Anything, Obeys-nothing, keywords-Anything, Anything, Obeys, Gets-if, Gets-index, inr,
  Gets-get_or, Accepts-has_all, Gets-bind, Accepts-Obeys, Gets, inl, Accepts,
}
use scv_agent.Config.Schema.{
  pipelines_schema, config_schema, buffer_schema, agent_schema, properties_of, choice_schema,
  pipeline_schema, whole, object,
}
use scv_agent.Agent.Sound.Parts.{make_qos-Gets, make_pipeline-Gets, IsKnownPart, IsPolite}
use scv_agent.Agent.{
  snapshots, create_services, listed, no_options, add_pipelines, add_pipeline, Qos, Part, Platform,
}
use scv_agent.Base.{
  List, sym, ◌||◌, some, Option, subst, refl, [], false, ◌⊎◌, ◌∷◌, arith, true, ◌≡◌, All,
}
use scv_agent.Config.Validator.{all_items, has_type, Validator}
use scv_agent.Agent.Start.{
  assemble, open_downlink, make_downlink, open_disk, has_key, make_governor, make_telemetry,
  make_buffer, build_transport, own_options, FtaAgent,
}
use scv_agent.Json.{
  none_key, num_key, text_key, key_of, Key, get, Fields, truthy, fin, Items, one, exceeds, Num,
  Json,
}

-- A number that is not below 1.
pub record IsPositive (v : Json) : Type 0 where
  pub number : Num
  pub is_number : v ≡ Json.num number
  pub bound : exceeds one number ≡ false

-- The limit of the queue leaves room for an item, and the priority and the class of every pipeline
-- are known.
pub record IsSound (a : FtaAgent) : Type 0 where
  pub limit : IsPositive a.queue_maxlen
  pub known : All (λ (e : Part × Qos). IsKnownPart e.0) a.pipelines

as_num : (v : Json) → has_type "integer" v ≡ true → (n : Num) × (v ≡ Json.num n)
as_num (Json.num n) h = (n, refl)
as_num Json.null h = absurd (ground arith)
as_num (Json.boolean b) h = absurd (ground arith)
as_num (Json.text s) h = absurd (ground arith)
as_num (Json.arr xs) h = absurd (ground arith)
as_num (Json.obj fs) h = absurd (ground arith)

module _ (V : Validator) (p : Platform) (polite : IsPolite p) where
  abbrev counting_schema : Json
  counting_schema = object (("type", Json.text "integer") ∷ ("minimum", whole 1) ∷ [])

  limit-IsPositive : (v : Json) → (v ≡ whole 256) ⊎ Accepts V counting_schema v → IsPositive v
  limit-IsPositive v (inl e) = record { number = fin (pos 256000000); is_number = e; bound = refl }
  limit-IsPositive v (inr a) =
      let (n, e) = as_num v (V.types _ v a refl) in
      record {
        number = n;
        is_number = e;
        bound = V.minimum _ n (subst (Accepts V counting_schema) e a) refl;
      }

  add_pipeline-Gets :
      (spec : Json)
      → Accepts V pipeline_schema spec
      → Gets (λ (e : Part × Qos). IsKnownPart e.0) (add_pipeline p spec)
  unfolding add_pipeline
  add_pipeline-Gets spec a =
      let o = Accepts-Obeys V _ spec a refl refl in
      let r = Accepts-has_all V _ _ spec a refl o in
      Gets-bind _ _ _ _ (Gets-index V _ spec o "msg_type" refl (ground (arith, r))) (λ msg_type _.
        Gets-bind _ _ _ _ (polite.message msg_type) (λ _ _.
          Gets-bind _ _ _ _ (make_pipeline-Gets V p polite spec a) (λ part known.
            Gets-bind _ _ _ _ (Gets-get_or V _ spec o "qos" _ refl) (λ qos_spec hq.
              Gets-bind _ _ _ _ (make_qos-Gets V p polite qos_spec hq) (λ qos _.
                Gets-bind _ _ _ _ (polite.subscription part.topic)
                  (λ _ _. record { holds = known }))))))

  add_pipelines-Gets :
      (specs : Items)
      → all_items (V.valid pipeline_schema) specs ≡ true
      → Gets (All (λ (e : Part × Qos). IsKnownPart e.0)) (add_pipelines p specs)
  unfolding add_pipelines
  add_pipelines-Gets Items.nil h = record { holds = tt }
  add_pipelines-Gets (Items.cons spec specs) h =
      let a : Accepts V pipeline_schema spec = ground (arith, h) in
      let rest = add_pipelines-Gets specs (ground (arith, h)) in
      Gets-bind _ _ _ _ (Gets-get_or V _ spec (Accepts-Obeys V _ spec a refl refl) "enabled" _ refl)
        (λ enabled _.
          Gets-if _ (truthy enabled) _ _
            (λ _.
              Gets-bind _ _ _ _ (add_pipeline-Gets spec a) (λ part known.
                Gets-bind _ _ _ _ rest (λ parts all. record { holds = (known, all) })))
            (λ _. rest))

  create_services-Gets : (ns : List Json) → Gets Anything (create_services p ns)
  unfolding create_services
  create_services-Gets [] = record { holds = tt }
  create_services-Gets (n ∷ ns) =
      Gets-bind Anything _ _ _ (polite.services n) (λ _ _. create_services-Gets ns)

  own_options-Gets :
      (ttype v : Json) {fs : Fields} → v ≡ Json.obj fs → Gets Anything (own_options ttype v)
  unfolding own_options
  own_options-Gets ttype v e = go (key_of ttype) refl
    where
      go : (k : Option Key) → key_of ttype ≡ k → Gets Anything (own_options ttype v)
      go none n = rw (n, own_options) (record { holds = refl })
      go (some (text_key t)) n = rw (n, own_options) (get_or-Anything t no_options v e)
      go (some none_key) n =
          rw (n, own_options)
            (Gets-bind Anything _ _ _ (get_or-Anything "type" no_options v e)
              (λ _ _. record { holds = tt }))
      go (some (num_key m)) n =
          rw (n, own_options)
            (Gets-bind Anything _ _ _ (get_or-Anything "type" no_options v e)
              (λ _ _. record { holds = tt }))

  make_transport-Gets :
      (robot_id v : Json) → Accepts V choice_schema v → Gets Anything (build_transport p robot_id v)
  unfolding build_transport
  make_transport-Gets robot_id v a =
      let o = Accepts-Obeys V _ v a refl refl in
      let r = Accepts-has_all V _ _ v a refl o in
      Gets-bind _ _ _ _ (Gets-index V _ v o "type" refl (ground (arith, r))) (λ ttype _.
        Gets-bind _ _ _ _ (own_options-Gets ttype v o.is_fields) (λ own _.
          Gets-bind _ _ _ _ (keywords-Anything own) (λ options _.
            Gets-bind _ _ _ _ (polite.transport ttype robot_id options)
              (λ _ _. record { holds = tt }))))

  abbrev agent_properties : Fields
  agent_properties = properties_of agent_schema

  -- A section: what the schema accepts, or no options.
  section-Obeys :
      (ks : Fields) (w : Json) {ps : Fields}
      → get "type" ks ≡ some (Json.text "object")
      → get "properties" ks ≡ some (Json.obj ps)
      → (w ≡ no_options) ⊎ Accepts V (Json.obj ks) w
      → Obeys V ps w
  section-Obeys ks w {ps} t e (inl n) = subst (Obeys V ps) (sym n) (Obeys-nothing V ps)
  section-Obeys ks w t e (inr a) = Accepts-Obeys V ks w a t e

  module _ (v : Json) (o : Obeys V agent_properties v) where
    open_buffer-Gets : (b : Json) → Accepts V buffer_schema b → Gets Anything (open_disk p b)
    unfolding open_disk
    open_buffer-Gets b a =
        let ob = Accepts-Obeys V _ b a refl refl in
        let r = Accepts-has_all V _ _ b a refl ob in
        Gets-bind _ _ _ _ (Gets-index V _ b ob "dir" refl (ground (arith, r))) (λ dir _.
          Gets-bind _ _ _ _ (Gets-get_or V _ b ob "max_disk_mb" _ refl) (λ max_disk _.
            Gets-bind _ _ _ _ (polite.buffer dir max_disk) (λ _ _. record { holds = tt })))

    make_buffer-Gets : Gets Anything (make_buffer p v)
    unfolding make_buffer
    make_buffer-Gets = Gets-bind _ _ _ _ (Gets-get_or V _ v o "buffer" _ refl) (λ b hb.
        Gets-if _ (truthy b) _ _
          (λ e.
            Gets-bind Anything _ _ _ (open_buffer-Gets b (given b e hb))
              (λ _ _. record { holds = tt }))
          (λ _. record { holds = tt }))
      where
        given :
            (b : Json)
            → truthy b ≡ true
            → (b ≡ Json.null) ⊎ Accepts V buffer_schema b
            → Accepts V buffer_schema b
        given b e (inl n) = absurd (ground (arith, e, n))
        given b e (inr a) = a

    make_telemetry-Gets : Gets Anything (make_telemetry p v)
    unfolding make_telemetry
    make_telemetry-Gets = Gets-bind _ _ _ _ (Gets-get_or V _ v o "telemetry" _ refl) (λ t ht.
        let ot = section-Obeys _ t refl refl ht in
        Gets-bind _ _ _ _ (Gets-get_or V _ t ot "interval_sec" _ refl) (λ i _.
          Gets-bind _ _ _ _ (Gets-get_or V _ t ot "logging_topic" _ refl) (λ l _.
            Gets-bind _ _ _ _ (Gets-get_or V _ t ot "workspace_dir" _ refl) (λ d _.
              Gets-bind Anything _ _ _ (polite.telemetry i l) (λ _ _. record { holds = tt })))))

    make_governor-Gets : Gets Anything (make_governor p v)
    unfolding make_governor
    make_governor-Gets = Gets-bind _ _ _ _ (Gets-get_or V _ v o "resource" _ refl) (λ t ht.
        let ot = section-Obeys _ t refl refl ht in
        Gets-if _ (has_key "cpu_limit_pct" t || has_key "mem_limit_mb" t) _ _
          (λ _. Gets-bind _ _ _ _ (Gets-get_or V _ t ot "cpu_limit_pct" _ refl) (λ c _.
            Gets-bind _ _ _ _ (Gets-get_or V _ t ot "mem_limit_mb" _ refl) (λ m _.
              Gets-bind Anything _ _ _ (polite.governor c m) (λ _ _. record { holds = tt }))))
          (λ _. record { holds = tt }))

  make_downlink-Gets :
      (cfg : Json) (o : Obeys V (properties_of config_schema) cfg)
      → Gets Anything (make_downlink p cfg)
  unfolding make_downlink open_downlink
  make_downlink-Gets cfg o = Gets-bind _ _ _ _ (Gets-get_or V _ cfg o "downlink" _ refl) (λ d hd.
      let od = section-Obeys _ d refl refl hd in
      Gets-bind _ _ _ _ (Gets-get_or V _ d od "enabled" _ refl) (λ enabled _.
        Gets-if _ (truthy enabled) _ _
          (λ _.
            Gets-bind Anything _ _ _
              (Gets-bind _ _ _ _ (Gets-get_or V _ d od "audit_log" _ refl) (λ log _.
                Gets-bind _ _ _ _ (polite.audit log) (λ _ _.
                  Gets-bind _ _ _ _ (Gets-get_or V _ d od "command_timeout_sec" _ refl)
                    (λ t _. record { holds = tt }))))
              (λ _ _. record { holds = tt }))
          (λ _. record { holds = tt })))

  listed-Gets :
      (v : Json)
      → Accepts V pipelines_schema v
      → Gets (λ xs. all_items (V.valid pipeline_schema) xs ≡ true) (listed v)
  listed-Gets (Json.arr xs) a = record { holds = V.elements _ xs a refl }
  listed-Gets Json.null a = record { holds = refl }
  listed-Gets (Json.boolean b) a = record { holds = refl }
  listed-Gets (Json.num n) a = record { holds = refl }
  listed-Gets (Json.text s) a = absurd (ground (arith, V.types _ (Json.text s) a refl))
  listed-Gets (Json.obj fs) a = absurd (ground (arith, V.types _ (Json.obj fs) a refl))

  -- The constructor of the agent: a sound agent, or an exception that `main` catches.
  pub assemble-Gets : (cfg : Json) → Accepts V config_schema cfg → Gets IsSound (assemble p cfg)
  unfolding assemble
  assemble-Gets cfg a =
      let o = Accepts-Obeys V _ cfg a refl refl in
      let r = Accepts-has_all V _ _ cfg a refl o in
      Gets-bind _ _ _ _ (Gets-index V _ cfg o "agent" refl (ground (arith, r))) (λ agent ha.
        let oa = Accepts-Obeys V _ agent ha refl refl in
        let ra = Accepts-has_all V _ _ agent ha refl oa in
        Gets-bind _ _ _ _ (Gets-index V _ agent oa "robot_id" refl (ground (arith, ra)))
          (λ robot_id _.
            Gets-bind _ _ _ _ (Gets-index V _ cfg o "transport" refl (ground (arith, r)))
              (λ transport_cfg ht.
                Gets-bind _ _ _ _ (make_transport-Gets robot_id transport_cfg ht) (λ transport _.
                  Gets-bind _ _ _ _ (Gets-get_or V _ agent oa "queue_maxlen_per_priority" _ refl)
                    (λ limit hl. Gets-bind _ _ _ _ (make_buffer-Gets agent oa) (λ buffer _.
                      Gets-bind _ _ _ _ (Gets-get_or V _ agent oa "resource" _ refl) (λ resource hr.
                        Gets-bind _ _ _ _
                          (Gets-get_or V _ resource (section-Obeys _ resource refl refl hr)
                            "bandwidth_limit_kbps" _ refl)
                          (λ bandwidth _.
                            Gets-bind _ _ _ _
                              (Gets-index V _ cfg o "pipelines" refl (ground (arith, r)))
                              (λ specs hs. Gets-bind _ _ _ _ (listed-Gets specs hs) (λ items hi.
                                Gets-bind _ _ _ _ (add_pipelines-Gets items hi) (λ pipelines known.
                                  Gets-bind Anything _ _ _
                                    (create_services-Gets (snapshots p pipelines))
                                    (λ _ _.
                                      Gets-bind _ _ _ _ (make_downlink-Gets cfg o) (λ downlink _.
                                        Gets-bind _ _ _ _ (make_telemetry-Gets agent oa)
                                          (λ telemetry _.
                                            Gets-bind _ _ _ _ (make_governor-Gets agent oa)
                                              (λ governor _. record {
                                                holds = record {
                                                  limit = limit-IsPositive limit hl;
                                                  known = known;
                                                };
                                              })))))))))))))))
