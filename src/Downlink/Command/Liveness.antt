-- ===== src/Downlink/Command/Liveness.antt =====
-- Every command with hashable ids is answered: the execution, and `serve` as a whole.
use scv_agent.Downlink.Command.Execution.{execute-Ends, Finishing, Unsent}
use scv_agent.Downlink.Command.Answered.{IsAddressed}
use scv_agent.Downlink.Command.{check_fails, nothing, received}
use scv_agent.Downlink.Registry.{start, receive_all, TypeSupport}
use scv_agent.Downlink.Command.Checks.{finish, record_audit}
use scv_agent.Downlink.Command.Methods.{Command, execute}
use scv_agent.Downlink.Command.Replies.{
  Willing, wire_of, Has, finish-Answers, Answers, Replied, Hashable,
}
use scv_agent.Base.{refl, inr, inl, none, ◌∷◌, some, ◌≢◌, arith, ap, ◌∙◌, Option, ◌≡◌, List}
use scv_agent.Json.{Num, Json, Fields}
use scv_agent.Base.{false}
use scv_agent.Downlink.Command.{returns, Returns, World, Executor}

module _ (env : Fields) where
  -- The reply also counts from an earlier state with the same replies.
  from_earlier :
      (s s' s'' : Executor) → s'.replies ≡ s.replies → Replied env s' s'' → Replied env s s''
  from_earlier s s' s'' q r = record {
    reply = r.reply;
    one_more = r.one_more ∙ ap (◌∷◌ r.reply) q;
    same_id = r.same_id;
  }

wire-Unsent : Unsent wire_of
wire-Unsent = record { publishers = λ s x. refl; clients = λ s x. refl; effects = λ s x. refl }

module _ (w : World) (env entry : Fields) (cmd : Hashable "cmd_id" env) where
  abbrev Answered : Executor → Returns (Unit {0}) × Executor → Type 0
  Answered s r = (r.0 ≡ returns tt) × Replied env s r.1

  -- No reason is left for an exception.
  Replied-Finishing :
      (s : Executor)
      → Willing env s
      → ((r : Json) → w.dump_response r ≢ none)
      → Has entry "kind"
      → Finishing wire_of w env entry Answered ⊥ s
  Replied-Finishing s willing dumps (k, g) = record {
    finish_ends = λ t d s' q. inl (
        let (x, r) =
          (finish-Answers env cmd t d).at s' (λ r n c. ap (λ x. x.1 r) q ∙ willing r n c) in
        (x, from_earlier env s s' (finish env t d s').1 (ap (λ x. x.0) q) r));
    once_more = λ e t d s' a. absurd (ground (arith, a.0));
    no_kind = λ e. ground (arith, e, g);
    no_dump = dumps;
  }

  pub execute-Answers :
      ((r : Json) → w.dump_response r ≢ none)
      → Has entry "kind"
      → Answers env tt (execute w env entry)
  execute-Answers dumps kind = record {
    at = λ s willing.
        elim (execute-Ends wire-Unsent w env entry Answered ⊥ s
          (Replied-Finishing s willing dumps kind)) [
            | inl a ↦ a
            | inr (no_reason, x, e, q) ↦ absurd no_reason
          ];
  }

-- What a command needs so that no exception is left to end its handling early.
pub record IsServable (ts : TypeSupport) (docs : List (Option Json)) (c : Command) (s : Executor)
    (env : Fields) : Type 0 where
  pub is_envelope : c.doc ≡ some (Json.obj env)
  pub addressed : IsAddressed env
  -- The registry holds what the payloads so far have left.
  pub registry : s.registry ≡ receive_all ts docs start
  -- `transport.publish` raises for no reply to this command.
  pub takes : Willing env s
  -- No number is too large for a float.
  pub small : (i t : Num) → c.world.overflows c.recv_time i t ≡ false
  pub schemas : (x y : Json) → c.world.validate_schema x y ≢ check_fails
  pub dumps : (r : Json) → c.world.dump_response r ≢ none

module _ (ts : TypeSupport) (docs : List (Option Json)) (c : Command) (s : Executor) (env : Fields)
    (h : IsServable ts docs c s env) where
  received_state : Executor
  received_state = (record_audit env received nothing s).1
