-- ===== src/Downlink/Command/Safety.antt =====
-- No path to the robot goes round the validation chain, and no command acts twice.
use mathlib.Core.Option.{some-injective}
use scv_agent.Base.Dict.{lookup}
use scv_agent.Downlink.Command.Keeps.{Keeps-validate, Keeps-finish}
use scv_agent.Downlink.Command.Handles.{side-Answerless, side_of, IsFor, IsFiled}
use scv_agent.Downlink.Command.Effects.{execute-Sends, effect_of}
use scv_agent.Downlink.Command.Chain.{key_at, validate-Passes, Passes}
use scv_agent.Downlink.Registry.{missing_fields}
use scv_agent.Json.{json_keys, Key, get, Json, Num, Fields}
use scv_agent.Downlink.Command.Checks.{validate, envelope_required, record_audit}
use scv_agent.Downlink.Command.Methods.{execute_if, handle_envelope, handle, serve, Command}
use scv_agent.Base.{
  subst, arith, inr, ◌∙◌, sym, ap, refl, inl, ◌∷◌, [], String, ◌⊎◌, Option, none, some, List, ◌≡◌,
}
use scv_agent.Downlink.Command.{
  Result, missing_envelope, rejected, returns, after, Returns, raises, nothing, received, Audit,
  World, Executor,
}

-- The command was a complete envelope that passed the chain, and its payload was sent once.
pub record Acts (c : Command) (s s' : Executor) : Type 0 where
  pub env : Fields
  pub is_envelope : c.doc ≡ some (Json.obj env)
  pub complete : missing_fields envelope_required env ≡ []
  pub entry : Fields
  pub passes : Passes c.world env c.recv_time s entry
  pub payload : Json
  pub has_payload : get "payload" env ≡ some payload
  pub made : Fields
  pub own : IsFiled (side_of s) → IsFor entry made
  pub sent : s'.effects ≡ effect_of entry made payload ∷ s.effects

-- The handles of the executor are filed under the entries that they were made for.
abbrev pub IsWired : Executor → Type 0
IsWired s = IsFiled (side_of s)

-- The command was a complete envelope that passed the chain, and its payload was sent once, in the
-- way of the entry that it names, by a publisher or client that was made for this entry, or for one
-- with the same id and an equal version.
pub record Executes (c : Command) (s s' : Executor) : Type 0 where
  pub acts : Acts c s s'
  pub own : IsFor acts.entry acts.made

-- The chain reads the registry and the cache only.
Passes-audit :
    {w : World} {env : Fields} {now : Num} {s : Executor} {a : List Audit} {entry : Fields}
    → Passes w env now (record s { audit = a }) entry
    → Passes w env now s entry
Passes-audit p = record {
  registered = record {
    interface = p.registered.interface;
    has_interface = p.registered.has_interface;
    registered = p.registered.registered;
  };
  conforms = p.conforms;
  timely = p.timely;
  new = record { cmd_key = p.new.cmd_key; has_cmd_key = p.new.has_cmd_key; unseen = p.new.unseen };
}

module _ (c : Command) (env : Fields) (s : Executor) where
  abbrev received_state : Executor
  received_state = (record_audit env received nothing s).1

  abbrev Outcomes : Executor → Type 0
  Outcomes s' = (IsWired s → IsWired s') × ((s'.effects ≡ s.effects) ⊎ Acts c s s')

  -- The robot's side is as it was.
  unsent : (s' : Executor) → side_of s' ≡ side_of s → Outcomes s'
  unsent s' e = (subst IsFiled (sym e), inl (ap (λ x. x.0) e))

  -- What follows the chain.
  after_chain :
      c.doc ≡ some (Json.obj env)
      → missing_fields envelope_required env ≡ []
      → (r : Returns (Option Fields)) (s' : Executor)
      → validate c.world env c.recv_time received_state ≡ (r, s')
      → Outcomes (after r (execute_if c.world env) s').1
  unfolding record_audit execute_if
  after_chain is full (returns none) s' e = unsent s' (
      ap (λ x. side_of x.1) (sym e)
      ∙ (Keeps-validate side-Answerless c.world env c.recv_time).at received_state)
  after_chain is full (raises x) s' e = unsent s' (
      ap (λ x. side_of x.1) (sym e)
      ∙ (Keeps-validate side-Answerless c.world env c.recv_time).at received_state)
  after_chain is full (returns (some entry)) s' e =
      let (passes, same) = validate-Passes env received_state c.world c.recv_time e in
      let kept : side_of s' ≡ side_of s = ap side_of (sym same) in
      let (files, fate) = execute-Sends c.world env entry s' in
      (
        λ f. files (subst IsFiled (sym kept) f),
        elim fate [
          | inl quiet ↦ inl (quiet ∙ ap (λ x. x.0) kept)
          | inr (p, m, g, own, sent) ↦ inr (record {
            env = env;
            is_envelope = is;
            complete = full;
            entry = entry;
            passes = Passes-audit passes;
            payload = p;
            has_payload = g;
            made = m;
            own = λ f. own (subst IsFiled (sym kept) f);
            sent = sent ∙ ap (λ x. effect_of entry m p ∷ x.0) kept;
          })
        ],
      )

  envelope-Outcomes :
      c.doc ≡ some (Json.obj env) → Outcomes (handle_envelope c.world env c.recv_time s).1
  unfolding handle_envelope record_audit
  envelope-Outcomes is = go (missing_fields envelope_required env) refl
    where
      go :
          (m : List String)
          → missing_fields envelope_required env ≡ m
          → Outcomes (handle_envelope c.world env c.recv_time s).1
      go [] full =
          let (r, s') = validate c.world env c.recv_time received_state in
          rw (full, handle_envelope) (after_chain is full r s' refl)
      go (f ∷ fs) lacks =
          rw (lacks, handle_envelope)
            (unsent _ (
              (Keeps-finish side-Answerless env rejected (missing_envelope (f ∷ fs))).at
                received_state))

serve-Outcomes :
    (c : Command) (s : Executor)
    → (IsWired s → IsWired (serve c s)) × (((serve c s).effects ≡ s.effects) ⊎ Acts c s (serve c s))
unfolding serve handle
serve-Outcomes c s = go c.doc refl
  where
    go :
        (d : Option Json)
        → c.doc ≡ d
        → (IsWired s → IsWired (serve c s))
          × (((serve c s).effects ≡ s.effects) ⊎ Acts c s (serve c s))
    go (some (Json.obj env)) is =
        let e : serve c s ≡ (handle_envelope c.world env c.recv_time s).1 = ground (arith, is) in
        subst (Outcomes c env s) (sym e) (envelope-Outcomes c env s is)
    go (some x) is = rw (is, serve, handle) (λ f. f, inl refl)
    go none is = rw (is, serve, handle) (λ f. f, inl refl)

-- If the cached publishers and clients are filed under the id and version of the entries they were
-- made for, as they are at the start, then they still are after any command, and handling it either
-- sends nothing to the robot, or the command is a complete envelope that passed the registry,
-- schema, TTL and idempotence checks and its payload is sent once, by a publisher or client made for
-- an entry with the id that it names and an equal version.
pub serve_safe :
    (c : Command) (s : Executor)
    → IsWired s
    → IsWired (serve c s) × (((serve c s).effects ≡ s.effects) ⊎ Executes c s (serve c s))
serve_safe c s wired =
    let (keeps, fate) = serve-Outcomes c s in
    (
      keeps wired,
      elim fate [ inl quiet ↦ inl quiet | inr a ↦ inr (record { acts = a; own = a.own wired }) ],
    )

-- A command whose id is in the cache of answered commands sends nothing to the robot.
pub serve_seen :
    (c : Command) (s : Executor) {env : Fields} {k : Key} {r : Result}
    → c.doc ≡ some (Json.obj env)
    → key_at "cmd_id" env ≡ some k
    → lookup k s.seen ≡ some r
    → (serve c s).effects ≡ s.effects
serve_seen c s {env} {k} {r} is id hit = elim (serve-Outcomes c s).1 [
  | inl quiet ↦ quiet
  | inr x ↦
      let same_env : env ≡ x.env = ground (arith, is, x.is_envelope) in
      let n = x.passes.new in
      let same_key : k ≡ n.cmd_key =
        some-injective _ _ (sym id ∙ (ap (key_at "cmd_id") same_env ∙ n.has_cmd_key)) in
      let clash : none ≡ some r = sym n.unseen ∙ (ap (λ j. lookup j s.seen) (sym same_key) ∙ hit) in
      cc
]
