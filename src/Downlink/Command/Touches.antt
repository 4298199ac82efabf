-- ===== src/Downlink/Command/Touches.antt =====
-- Handling a command stores one answer in the cache at most.
use mathlib.Core.Option.{some-injective}
use scv_agent.Downlink.Command.Window.{touch_twice}
use scv_agent.Downlink.Command.Execution.{execute-Ends, Finishing, Same, Unsent}
use mathlib.Core.List.{[]}
use scv_agent.Downlink.Command.Chain.{key_at, validate-Passes}
use scv_agent.Base.Dict.{lookup}
use mathlib.Core.Bool.{true}
use scv_agent.Downlink.Command.Keeps.{Keeps-hash, Keeps-field_of, Keeps}
use scv_agent.Downlink.Registry.{missing_fields, schema_error, get_interface}
use scv_agent.Base.{
  ◌≢◌, ℕ, ◌∷◌, String, List, sym, arith, none, if◌then◌else◌, Option, Bool, refl, false, Bool-cases,
  Option-cases, some, ap, inr, ◌∙◌, inl, subst, ◌⊎◌, ◌≡◌,
}
use scv_agent.Downlink.Command.Checks.{
  reply_of, envelope_required, validate, check_schema, check_times, answer_again, check_ttl,
  check_duplicate, refuse, respond, record_audit, store_seen, touch, hash, trim, remember, finish,
}
use scv_agent.Downlink.Command.Methods.{
  execute, Command, handle, handle_envelope, execute_if, serve,
}
use scv_agent.Downlink.Command.{
  again, ◌>>◌, pure, finished, ttl_over, expired, missing_envelope, check_fails, ttl_too_long,
  violated, invalid_issued_at, throw, schema_violated, invalid_ttl, valid, raises, nothing,
  unregistered, received, after, rejected, SchemaCheck, ◌>>=◌, returns, World, M, Detail, Status,
  Returns, Result, Executor,
}
use scv_agent.Json.{
  plus, exceeds, json_keys, at_most_zero, as_number, Num, is_null, key_of, get, Json, Fields, Key,
}

-- The cache and its limit.
abbrev pub cache_of : Executor → List (Key × Result) × ℕ
cache_of s = (s.seen, s.seen_max)

pub cache-Unsent : Unsent cache_of
cache-Unsent = record { publishers = λ s x. refl; clients = λ s x. refl; effects = λ s x. refl }

-- An answer was stored under the key.
abbrev pub Stores : Key → Executor → Executor → Type 0
Stores k s s' =
    (r : Result) × (s'.seen ≡ trim s.seen_max (touch k r s.seen)) × (s'.seen_max ≡ s.seen_max)

-- At most one answer was stored.
abbrev pub Touch : Executor → Executor → Type 0
Touch s s' = Same cache_of s s' ⊎ ((k : Key) × Stores k s s')

pub Stores-from :
    (k : Key) (s s' s'' : Executor) → Same cache_of s s' → Stores k s' s'' → Stores k s s''
Stores-from k s s' s'' q (r, e, m) =
    (r, subst (λ x. s''.seen ≡ trim x.1 (touch k r x.0)) q e, m ∙ ap (λ x. x.1) q)

Touch-from : (s s' s'' : Executor) → Same cache_of s s' → Touch s' s'' → Touch s s''
Touch-from s s' s'' q (inl e) = inl (e ∙ q)
Touch-from s s' s'' q (inr (k, t)) = inr (k, Stores-from k s s' s'' q t)

Stores-again : (k : Key) (s s' s'' : Executor) → Stores k s s' → Stores k s' s'' → Stores k s s''
Stores-again k s s' s'' (r, e, m) (r', e', m') = (
  r',
  e'
      ∙ (ap (λ x. trim x (touch k r' s'.seen)) m
          ∙ (ap (λ x. trim s.seen_max (touch k r' x)) e ∙ touch_twice s.seen_max k r r' s.seen)),
  m' ∙ m,
)

module _ (env : Fields) where
  -- At most one answer was stored, under the id of the command.
  abbrev pub Wrote : Executor → Executor → Type 0
  Wrote s s' = Same cache_of s s' ⊎ ((k : Key) × (key_at "cmd_id" env ≡ some k) × Stores k s s')

  Wrote-Touch : (s s' : Executor) → Wrote s s' → Touch s s'
  Wrote-Touch s s' (inl q) = inl q
  Wrote-Touch s s' (inr (k, g, t)) = inr (k, t)

  Wrote-again : (s s' s'' : Executor) → Wrote s s' → Wrote s' s'' → Wrote s s''
  Wrote-again s s' s'' (inl q) (inl p) = inl (p ∙ q)
  Wrote-again s s' s'' (inl q) (inr (k, g, t)) = inr (k, g, Stores-from k s s' s'' q t)
  Wrote-again s s' s'' (inr (k, g, (r, e, m))) (inl p) =
      inr (k, g, (r, ap (λ x. x.0) p ∙ e, ap (λ x. x.1) p ∙ m))
  Wrote-again s s' s'' (inr (k, g, t)) (inr (j, g', t')) =
      let same : j ≡ k = some-injective _ _ (sym g' ∙ g) in
      inr (k, g, Stores-again k s s' s'' t (subst (λ i. Stores i s' s'') same t'))

  -- The reply, sent or not, leaves the cache as it is.
  quiet :
      (t : Status) (d : Detail) (s : Executor)
      → Same cache_of s ((record_audit env (finished t) d >> respond env t d) s).1
  unfolding record_audit respond
  quiet t d s = elim (Bool-cases (s.takes (reply_of env t d))) [
    | inl e ↦ rw e refl
    | inr e ↦ rw e refl
  ]

  -- A command with an id that is no null: its answer is stored, also if the reply is not sent.
  pub finish-Stores :
      {v : Json} {k : Key}
      → get "cmd_id" env ≡ some v
      → key_of v ≡ some k
      → is_null v ≡ false
      → (t : Status) (d : Detail) (s : Executor) → Stores k s (finish env t d s).1
  unfolding finish remember hash store_seen
  finish-Stores {v} {k} g h n t d s =
      let r : Result = record { status = t; detail = d } in
      let q = quiet t d (record s { seen = trim s.seen_max (touch k r s.seen) }) in
      rw (g, n, h, finish, remember, hash, store_seen) (r, ap (λ x. x.0) q, ap (λ x. x.1) q)

  pub Stores-Finishing :
      (w : World) (entry : Fields) {v : Json} {k : Key} (s : Executor)
      → get "cmd_id" env ≡ some v
      → key_of v ≡ some k
      → is_null v ≡ false
      → ((r : Json) → w.dump_response r ≢ none)
      → get "kind" entry ≢ none
      → Finishing cache_of w env entry (λ s r. Stores k s r.1) ⊥ s
  Stores-Finishing w entry {k = k} s g h n dumps kind = record {
    finish_ends =
        λ t d s' q. inl (Stores-from k s s' (finish env t d s').1 q (finish-Stores g h n t d s'));
    once_more =
        λ e t d s' x. Stores-again k s s' (finish env t d s').1 x (finish-Stores g h n t d s');
    no_kind = kind;
    no_dump = dumps;
  }

  finish-Wrote : (t : Status) (d : Detail) (s : Executor) → Wrote s (finish env t d s).1
  unfolding finish remember hash
  finish-Wrote t d s = elim (Option-cases (get "cmd_id" env)) [
    | inl g ↦ rw (g, finish, remember) (inl (quiet t d s))
    | inr (v, g) ↦ elim (Bool-cases (is_null v)) [
      | inl n ↦ rw (g, n, finish, remember) (inl (quiet t d s))
      | inr n ↦ elim (Option-cases (key_of v)) [
        | inl h ↦ rw (g, n, h, finish, remember, hash) (inl refl)
        | inr (k, h) ↦ inr (k, ground (arith, g, h), finish-Stores g h n t d s)
      ]
    ]
  ]

  record Touches (m : M (Option Fields)) : Type 0 where
    at : (s : Executor) → Touch s (m s).1

  Touches-if :
      (b : Bool) (m n : M (Option Fields)) → Touches m → Touches n → Touches (if b then m else n)
  Touches-if true m n km kn = km
  Touches-if false m n km kn = kn

  Touches-Option :
      {C : Type 0} (o : Option C) (m : M (Option Fields)) (n : C → M (Option Fields))
      → Touches m
      → ((c : C) → Touches (n c))
      → Touches (elim o [ none ↦ m | some c ↦ n c ])
  Touches-Option none m n km kn = km
  Touches-Option (some c) m n km kn = kn c

  Touches-bind :
      {A : Type 0} (m : M A) (g : A → M (Option Fields))
      → Keeps cache_of m
      → ((a : A) → Touches (g a))
      → Touches (m >>= g)
  Touches-bind {A = A} m g km kg = record { at = λ s. go s (m s).0 (m s).1 (km.at s) }
    where
      go :
          (s : Executor) (r : Returns A) (s' : Executor)
          → Same cache_of s s'
          → Touch s (after r g s').1
      go s (returns a) s' q = Touch-from s s' (g a s').1 q ((kg a).at s')
      go s (raises x) s' q = inl q

  dropped :
      (r : Returns (Unit {0})) (s : Executor)
      → (after r (λ _. pure {A = Option Fields} none) s).1 ≡ s
  dropped (returns u) s = refl
  dropped (raises e) s = refl

  refuse-Touches : (t : Status) (d : Detail) → Touches (refuse env t d)
  unfolding refuse
  refuse-Touches t d = record {
    at = λ s.
        let (r, s') = finish env t d s in
        subst (Touch s) (sym (dropped r s')) (Wrote-Touch s s' (finish-Wrote t d s));
  }

  check_duplicate-Touches : (entry : Fields) → Touches (check_duplicate env entry)
  unfolding check_duplicate answer_again record_audit respond
  check_duplicate-Touches entry =
      Touches-bind _ _ (Keeps-field_of "cmd_id" env)
        (λ v. Touches-bind _ _ (Keeps-hash v) (λ k. record { at = λ s. go s (lookup k s.seen) }))
    where
      go :
          (s : Executor) (o : Option Result)
          → let r : Returns (Option Fields) × Executor = elim o [
            | none ↦ (returns (some entry), s)
            | some c ↦ answer_again env c s
          ] in
            Touch s r.1
      go s none = inl refl
      go s (some c) = elim (Bool-cases (s.takes (reply_of env c.status (again c.detail)))) [
        | inl e ↦ rw (e, answer_again) (inl refl)
        | inr e ↦ rw (e, answer_again) (inl refl)
      ]

  check_ttl-Touches : (w : World) (entry : Fields) (now : Num) → Touches (check_ttl w env entry now)
  unfolding check_ttl check_times
  check_ttl-Touches w entry now = Touches-bind _ _ (Keeps-field_of "ttl" env) (λ ttl.
      Touches-bind _ _ (Keeps-field_of "issued_at" env) (λ issued_at.
        Touches-Option (as_number ttl) _ _ (refuse-Touches rejected invalid_ttl) (λ t.
          Touches-if (at_most_zero t) _ _ (refuse-Touches rejected invalid_ttl) (
            Touches-Option (as_number issued_at) _ _ (refuse-Touches rejected invalid_issued_at)
              (λ i. Touches-bind _ _ (Keeps-field_of "default_ttl_sec" entry) (λ default.
                Touches-Option (as_number default) _ _ (record { at = λ s. inl refl })
                  (λ d. Touches-if (exceeds t d) _ _ (refuse-Touches rejected ttl_too_long) (
                    Touches-if (w.overflows now i t) _ _ (record { at = λ s. inl refl })
                      (Touches-if (exceeds now (plus i t)) _ _ (refuse-Touches expired ttl_over)
                        (check_duplicate-Touches entry))))))))))

  module _ (w : World) where
    check_schema-Touches : (entry : Fields) (now : Num) → Touches (check_schema w env entry now)
    unfolding check_schema
    check_schema-Touches entry now = Touches-bind _ _ (Keeps-field_of "payload" env) (λ payload.
        Touches-bind _ _ (Keeps-field_of "schema" entry)
          (λ schema. go (w.validate_schema payload schema)))
      where
        go :
            (c : SchemaCheck)
            → Touches (elim c [
              | valid ↦ check_ttl w env entry now
              | violated ↦ refuse env rejected schema_violated
              | check_fails ↦ throw schema_error
            ])
        go valid = check_ttl-Touches w entry now
        go violated = refuse-Touches rejected schema_violated
        go check_fails = record { at = λ s. inl refl }

    Wrote-Finishing :
        (entry : Fields) (s : Executor)
        → Finishing cache_of w env entry (λ s r. Wrote s r.1) (Unit {0}) s
    Wrote-Finishing entry s = record {
      finish_ends =
          λ t d s' q. inl (Wrote-again s s' (finish env t d s').1 (inl q) (finish-Wrote t d s'));
      once_more = λ e t d s' x. Wrote-again s s' (finish env t d s').1 x (finish-Wrote t d s');
      no_kind = λ e. tt;
      no_dump = λ r e. tt;
    }

    validate-Touches : (now : Num) → Touches (validate w env now)
    unfolding validate
    validate-Touches now = Touches-bind _ _ (Keeps-field_of "interface_id" env) (λ id.
        Touches-bind _ _ (Keeps-hash id)
          (λ k. record { at = λ s. go s (get_interface k s.registry) }))
      where
        go :
            (s : Executor) (o : Option Fields)
            → let r : Returns (Option Fields) × Executor = elim o [
              | none ↦ refuse env rejected unregistered s
              | some entry ↦ check_schema w env entry now s
            ] in
              Touch s r.1
        go s none = (refuse-Touches rejected unregistered).at s
        go s (some entry) = (check_schema-Touches entry now).at s

    after_chain-Touch :
        (now : Num) (s : Executor) (r : Returns (Option Fields)) (s' : Executor)
        → validate w env now s ≡ (r, s')
        → Touch s s'
        → Touch s (after r (execute_if w env) s').1
    unfolding execute_if
    after_chain-Touch now s (returns none) s' e t = t
    after_chain-Touch now s (raises x) s' e t = t
    after_chain-Touch now s (returns (some entry)) s' e t =
        let same : cache_of s' ≡ cache_of s = ap cache_of (sym (validate-Passes env s w now e).1) in
        Touch-from s s' (execute w env entry s').1 same
          (elim (execute-Ends cache-Unsent w env entry (λ s r. Wrote s r.1) (Unit {0}) s'
            (Wrote-Finishing entry s')) [
              | inl t ↦ Wrote-Touch s' (execute w env entry s').1 t
              | inr (y, x, e, q) ↦ inl q
            ])

    handle_envelope-Touch : (now : Num) (s : Executor) → Touch s (handle_envelope w env now s).1
    unfolding handle_envelope record_audit
    handle_envelope-Touch now s = go (missing_fields envelope_required env) refl
      where
        s1 : Executor
        s1 = (record_audit env received nothing s).1

        go :
            (m : List String)
            → missing_fields envelope_required env ≡ m
            → Touch s (handle_envelope w env now s).1
        go [] full =
            let (r, s') = validate w env now s1 in
            rw (full, handle_envelope)
              (Touch-from s s1 (after r (execute_if w env) s').1 refl
                (after_chain-Touch now s1 r s' refl ((validate-Touches now).at s1)))
        go (f ∷ fs) lacks =
            rw (lacks, handle_envelope)
              (let a = finish env rejected (missing_envelope (f ∷ fs)) s1 in
                Touch-from s s1 a.1 refl
                  (Wrote-Touch s1 a.1 (finish-Wrote rejected (missing_envelope (f ∷ fs)) s1)))

-- Any command at all stores one answer at most.
pub serve-Touch : (c : Command) (s : Executor) → Touch s (serve c s)
unfolding serve handle
serve-Touch c s = go c.doc refl
  where
    go : (d : Option Json) → c.doc ≡ d → Touch s (serve c s)
    go (some (Json.obj env)) is =
        rw (is, serve, handle) (handle_envelope-Touch env c.world c.recv_time s)
    go (some x) is = inl (ground (arith, is))
    go none is = inl (ground (arith, is))
