-- ===== src/Downlink/Command/Idempotence.antt =====
-- No command acts twice while its answer stands in the cache, and it stands there while fewer than
-- `seen_max` other commands follow.
use scv_agent.Downlink.Command.Execution.{execute-Ends}
use scv_agent.Downlink.Command.Safety.{serve_seen}
use scv_agent.Downlink.Command.Keeps.{Keeps-finish, effects-Answerless, Keeps-validate}
use scv_agent.Downlink.Command.Passing.{key_at-get}
use scv_agent.Downlink.Registry.{missing_fields}
use scv_agent.Downlink.Command.Chain.{validate-Passes, key_at}
use mathlib.Core.List.{[]}
use scv_agent.Downlink.Command.Window.{lookup-Recent, touched-Recent, touch-Recent, Recent}
use scv_agent.Downlink.Command.Touches.{Stores-Finishing, cache-Unsent, Stores, serve-Touch, Touch}
use scv_agent.Downlink.Command.{
  raises, missing_envelope, rejected, returns, after, Returns, nothing, received, Result, Executor,
}
use scv_agent.Downlink.Command.Checks.{
  trim, finish, envelope_required, validate, record_audit, field_of, touch,
}
use scv_agent.Downlink.Command.Methods.{
  handle_envelope, execute_if, handle, serve, execute, Command, serve_all,
}
use scv_agent.Base.{
  ◌∙◌, List-cases, Option, refl, Option-cases, ◌⊎◌, inr, false, ap, sym, inl, some, ◌∷◌, subst, ◌≡◌,
  arith, none, ◌≤◌, suc, ◌≢◌, length, ◌<◌, ◌+◌, List, ℕ,
}
use scv_agent.Json.{
  text_key, num_key, key_eq_refl, none_key, is_null, key_of, get, Json, Fields, Key,
}

later_n : (k : Key) (n : ℕ) (seen : List (Key × Result)) → Recent k n seen → Recent k (suc n) seen
later_n k n seen h = record {
  before = h.before;
  found = h.found;
  result = h.result;
  later = h.later;
  split = h.split;
  same = h.same;
  close = omega (arith, h.close);
}

module _ (k : Key) where
  Touch-Recent :
      (n : ℕ) (s s' : Executor)
      → Touch s s'
      → n < s.seen_max
      → Recent k n s.seen
      → Recent k (suc n) s'.seen × (s'.seen_max ≡ s.seen_max)
  Touch-Recent n s s' (inl q) f h =
      (subst (Recent k (suc n)) (sym (ap (λ x. x.0) q)) (later_n k n s.seen h), ap (λ x. x.1) q)
  Touch-Recent n s s' (inr (j, (r, e, m))) f h =
      (subst (Recent k (suc n)) (sym e) (touch-Recent s.seen_max n k j r s.seen h f), m)

  -- The answer moves back by one place for each command at most.
  serve_all-Recent :
      (cs : List Command) (n : ℕ) (s : Executor)
      → n + length cs ≤ s.seen_max
      → Recent k n s.seen
      → Recent k (n + length cs) (serve_all cs s).seen
  unfolding serve_all
  serve_all-Recent [] n s f h = subst (λ x. Recent k x s.seen) (omega arith) h
  serve_all-Recent (c ∷ cs) n s f h =
      let (h', m) = Touch-Recent n s (serve c s) (serve-Touch c s) (omega (arith, f)) h in
      subst (λ x. Recent k x (serve_all cs (serve c s)).seen) (omega arith)
        (serve_all-Recent cs (suc n) (serve c s) (omega (arith, f, m)) h')

  module _ (c : Command) (env : Fields) {v : Json}
      (dumps : (r : Json) → c.world.dump_response r ≢ none) (g : get "cmd_id" env ≡ some v)
      (h : key_of v ≡ some k) (n : is_null v ≡ false) where
    -- An execution that reached the robot has stored its answer.
    executed :
        (entry : Fields) (s : Executor)
        → ((execute c.world env entry s).1.effects ≡ s.effects)
          ⊎ Stores k s (execute c.world env entry s).1
    unfolding execute field_of
    executed entry s = elim (Option-cases (get "kind" entry)) [
      | inl none_there ↦ inl (rw (none_there, execute, field_of) refl)
      | inr (t, there) ↦
          elim (execute-Ends cache-Unsent c.world env entry (λ s r. Stores k s r.1) ⊥ s
            (Stores-Finishing env c.world entry s g h n dumps (λ e. ground (arith, e, there)))) [
              | inl stored ↦ inr stored
              | inr (no_reason, x, e, q) ↦ absurd no_reason
            ]
    ]

    received_state : Executor → Executor
    received_state s = (record_audit env received nothing s).1

    -- What follows the chain.
    after_chain :
        (s : Executor) (r : Returns (Option Fields)) (s' : Executor)
        → validate c.world env c.recv_time (received_state s) ≡ (r, s')
        → let q = after r (execute_if c.world env) s' in (q.1.effects ≡ s.effects) ⊎ Stores k s q.1
    unfolding received_state record_audit execute_if
    after_chain s (returns none) s' e = inl (
        ap (λ x. x.1.effects) (sym e)
        ∙ (Keeps-validate effects-Answerless c.world env c.recv_time).at (received_state s))
    after_chain s (raises x) s' e = inl (
        ap (λ x. x.1.effects) (sym e)
        ∙ (Keeps-validate effects-Answerless c.world env c.recv_time).at (received_state s))
    after_chain s (returns (some entry)) s' e =
        let kept = (validate-Passes env (received_state s) c.world c.recv_time e).1 in
        elim (executed entry s') [
          | inl quiet ↦ inl (quiet ∙ ap (λ x. x.effects) (sym kept))
          | inr (r, seen, m) ↦ inr (
            r,
            seen ∙ ap (λ x. trim x.seen_max (touch k r x.seen)) (sym kept),
            m ∙ ap (λ x. x.seen_max) (sym kept),
          )
        ]

    acted :
        c.doc ≡ some (Json.obj env)
        → (s : Executor) → ((serve c s).effects ≡ s.effects) ⊎ Stores k s (serve c s)
    unfolding serve handle handle_envelope received_state validate record_audit
    acted is s = elim (List-cases (missing_fields envelope_required env)) [
      | inl full ↦
          let (r, s') = validate c.world env c.recv_time (received_state s) in
          let e : serve c s ≡ (after r (execute_if c.world env) s').1 =
            rw (is, full, serve, handle, handle_envelope) refl in
          subst (λ x. (x.effects ≡ s.effects) ⊎ Stores k s x) (sym e) (after_chain s r s' refl)
      | inr (f, fs, lacks) ↦
          let e : serve c s
              ≡ (finish env rejected (missing_envelope (f ∷ fs)) (received_state s)).1 =
            rw (is, lacks, serve, handle, handle_envelope) refl in
          inl (
            ap (λ x. x.effects) e
            ∙ (Keeps-finish effects-Answerless env rejected (missing_envelope (f ∷ fs))).at
                (received_state s))
    ]

null_free : (v : Json) (k : Key) → key_of v ≡ some k → k ≢ none_key → is_null v ≡ false
null_free v none_key h real = absurd (real refl)
null_free v (num_key n) h real = rw (h, is_null) refl
null_free v (text_key t) h real = rw (h, is_null) refl

-- A command whose id is no null, and that reached the robot, does not reach it again, also if the
-- transport raised on a reply: a command with the same id sends nothing while fewer than seen_max
-- commands, of any kind, stand between the two, if the response of a service can be dumped.
pub acts_once :
    (c c' : Command) (between : List Command) (s : Executor) (env env' : Fields) {k : Key}
    → ((r : Json) → c.world.dump_response r ≢ none)
    → c.doc ≡ some (Json.obj env)
    → key_at "cmd_id" env ≡ some k
    → k ≢ none_key
    → (serve c s).effects ≢ s.effects
    → length between < s.seen_max
    → c'.doc ≡ some (Json.obj env')
    → key_at "cmd_id" env' ≡ some k
    → let s' = serve_all between (serve c s) in (serve c' s').effects ≡ s'.effects
acts_once c c' between s env env' {k} dumps is id real sent few is' id' =
    let (v, g, h) = key_at-get "cmd_id" env id in
    let no_null : is_null v ≡ false = null_free v k h real in
    elim (acted k c env dumps g h no_null is s) [
      | inl quiet ↦ absurd (sent quiet)
      | inr (r, seen, m) ↦
          let start : Recent k 1 (serve c s).seen =
            subst (Recent k 1) (sym seen)
              (touched-Recent s.seen_max k r s.seen (key_eq_refl k) (omega (arith, few))) in
          let recent = serve_all-Recent k between 1 (serve c s) (omega (arith, few, m)) start in
          let (r', hit) = lookup-Recent k (1 + length between) _ recent in
          serve_seen c' (serve_all between (serve c s)) is' id' hit
    ]
