-- ===== src/Downlink/Command/Keeps.antt =====
-- Rules for the state actions of CommandExecutor: inversion of a bind, and the parts of the state
-- that an action leaves alone.
use scv_agent.Base.Dict.{lookup}
use scv_agent.Json.{
  at_most_zero, plus, as_number, exceeds, Num, json_keys, is_null, get, Fields, Json, Key,
}
use scv_agent.Downlink.Command.Checks.{
  reply_of, validate, check_schema, check_ttl, check_times, record_audit, check_duplicate,
  answer_again, refuse, finish, remember, store_seen, respond, hash, field_of,
}
use scv_agent.Downlink.Registry.{other_error, type_error, schema_error, get_interface, Error}
use scv_agent.Base.{
  inr, inl, Bool-cases, refl, sym, ap, arith, ◌∙◌, String, if◌then◌else◌, Bool, true, false, Option,
  none, some, List, ◌≡◌,
}
use scv_agent.Downlink.Command.{
  check_fails, ttl_over, violated, invalid_issued_at, expired, unregistered, schema_violated,
  invalid_ttl, ttl_too_long, valid, rejected, SchemaCheck, World, Stage, Detail, Reply, raises,
  duplicate, Status, Audit, Result, throw, after, Returns, pure, returns, M, Executor, ◌>>=◌,
}

module _ {A B : Type 0} where
  -- The two halves of a bind that returned.
  pub record BindReturns (m : M A) (f : A → M B) (s : Executor) (b : B) (s'' : Executor)
      : Type 0 where
    pub value : A
    pub between : Executor
    pub first : m s ≡ (returns value, between)
    pub second : f value between ≡ (returns b, s'')

  pub bind-BindReturns :
      (m : M A) (f : A → M B) (s : Executor) {b : B} {s'' : Executor}
      → (m >>= f) s ≡ (returns b, s'')
      → BindReturns m f s b s''
  bind-BindReturns m f s {b} {s''} h = go (m s) refl h
    where
      go :
          (r : Returns A × Executor)
          → m s ≡ r
          → after r.0 f r.1 ≡ (returns b, s'')
          → BindReturns m f s b s''
      go (returns a, s') e h = record { value = a; between = s'; first = e; second = h }
      go (raises x, s') e h = absurd (ground arith)

module _ {B : Type 0} (f : Executor → B) where
  -- The action leaves `f` of the state as it was, however it ends.
  pub record Keeps {A : Type 0} (m : M A) : Type 0 where
    pub at : (s : Executor) → f (m s).1 ≡ f s

module _ {B : Type 0} {f : Executor → B} {A : Type 0} where
  pub Keeps-pure : (a : A) → Keeps f (pure a)
  Keeps-pure a = record { at = λ s. refl }

  pub Keeps-throw : (e : Error) → Keeps f (throw {A = A} e)
  Keeps-throw e = record { at = λ s. refl }

  pub Keeps-if : (b : Bool) (m n : M A) → Keeps f m → Keeps f n → Keeps f (if b then m else n)
  Keeps-if true m n km kn = km
  Keeps-if false m n km kn = kn

  pub Keeps-Option :
      {C : Type 0} (o : Option C) (m : M A) (n : C → M A)
      → Keeps f m
      → ((c : C) → Keeps f (n c))
      → Keeps f (elim o [ none ↦ m | some c ↦ n c ])
  Keeps-Option none m n km kn = km
  Keeps-Option (some c) m n km kn = kn c

module _ {B : Type 0} {f : Executor → B} {A C : Type 0} where
  pub Keeps-bind :
      (m : M A) (g : A → M C) → Keeps f m → ((a : A) → Keeps f (g a)) → Keeps f (m >>= g)
  Keeps-bind m g km kg = record { at = λ s. go s (m s) refl }
    where
      go : (s : Executor) (r : Returns A × Executor) → m s ≡ r → f (after r.0 g r.1).1 ≡ f s
      go s (returns a, s') e = (kg a).at s' ∙ (ap (λ x. f x.1) (sym e) ∙ km.at s)
      go s (raises x, s') e = ap (λ x. f x.1) (sym e) ∙ km.at s

module _ {B : Type 0} {f : Executor → B} where
  pub Keeps-field_of : (k : String) (d : Fields) → Keeps f (field_of k d)
  unfolding field_of
  Keeps-field_of k d = record { at = λ s. ground arith }

  pub Keeps-hash : (v : Json) → Keeps f (hash v)
  unfolding hash
  Keeps-hash v = record { at = λ s. ground arith }

-- A part of the state that no answer writes to: anything but the cache, the audit log and the
-- replies.
pub record Answerless {B : Type 0} (f : Executor → B) : Type 0 where
  pub seen : (s : Executor) (x : List (Key × Result)) → f (record s { seen = x }) ≡ f s
  pub audit : (s : Executor) (x : List Audit) → f (record s { audit = x }) ≡ f s
  pub replies : (s : Executor) (x : List Reply) → f (record s { replies = x }) ≡ f s

pub effects-Answerless : Answerless (λ s. s.effects)
effects-Answerless = record { seen = λ s x. refl; audit = λ s x. refl; replies = λ s x. refl }

pub registry-Answerless : Answerless (λ s. s.registry)
registry-Answerless = record { seen = λ s x. refl; audit = λ s x. refl; replies = λ s x. refl }

pub seen_max-Answerless : Answerless (λ s. s.seen_max)
seen_max-Answerless = record { seen = λ s x. refl; audit = λ s x. refl; replies = λ s x. refl }

module _ {B : Type 0} {f : Executor → B} (free : Answerless f) where
  pub Keeps-record_audit : (env : Fields) (g : Stage) (d : Detail) → Keeps f (record_audit env g d)
  unfolding record_audit
  Keeps-record_audit env g d = record { at = λ s. free.audit s _ }

  pub Keeps-respond : (env : Fields) (t : Status) (d : Detail) → Keeps f (respond env t d)
  unfolding respond
  Keeps-respond env t d = record {
    at = λ s. elim (Bool-cases (s.takes (reply_of env t d))) [
      | inl e ↦ rw e (free.replies s _)
      | inr e ↦ rw e refl
    ];
  }

  Keeps-store_seen : (k : Key) (r : Result) → Keeps f (store_seen k r)
  unfolding store_seen
  Keeps-store_seen k r = record { at = λ s. free.seen s _ }

  Keeps-remember : (env : Fields) (r : Result) → Keeps f (remember env r)
  unfolding remember
  Keeps-remember env r = Keeps-Option (get "cmd_id" env) _ _ (Keeps-pure tt) (λ v.
      Keeps-if (is_null v) _ _ (Keeps-pure tt)
        (Keeps-bind _ _ (Keeps-hash v) (λ k. Keeps-store_seen k r)))

  pub Keeps-finish : (env : Fields) (t : Status) (d : Detail) → Keeps f (finish env t d)
  unfolding finish
  Keeps-finish env t d =
      Keeps-bind _ _ (Keeps-remember env _)
        (λ _. Keeps-bind _ _ (Keeps-record_audit env _ d) (λ _. Keeps-respond env t d))

  pub Keeps-refuse : (env : Fields) (t : Status) (d : Detail) → Keeps f (refuse env t d)
  unfolding refuse
  Keeps-refuse env t d = Keeps-bind _ _ (Keeps-finish env t d) (λ _. Keeps-pure none)

  Keeps-answer_again : (env : Fields) (r : Result) → Keeps f (answer_again env r)
  unfolding answer_again
  Keeps-answer_again env r =
      Keeps-bind _ _ (Keeps-record_audit env duplicate _)
        (λ _. Keeps-bind _ _ (Keeps-respond env r.status _) (λ _. Keeps-pure none))

  -- A case that depends on the state.
  Keeps-state :
      {A C : Type 0} (o : Executor → Option C) (m : M A) (n : C → M A)
      → Keeps f m
      → ((c : C) → Keeps f (n c))
      → Keeps f {A = A} (λ s. elim (o s) [ none ↦ m s | some c ↦ n c s ])
  Keeps-state {A} {C} o m n km kn = record { at = λ s. go s (o s) }
    where
      go :
          (s : Executor) (x : Option C)
          → let r : Returns A × Executor = elim x [ none ↦ m s | some c ↦ n c s ] in f r.1 ≡ f s
      go s none = km.at s
      go s (some c) = (kn c).at s

  Keeps-check_duplicate : (env entry : Fields) → Keeps f (check_duplicate env entry)
  unfolding check_duplicate
  Keeps-check_duplicate env entry = Keeps-bind _ _ (Keeps-field_of "cmd_id" env) (λ v.
      Keeps-bind _ _ (Keeps-hash v) (λ k.
        Keeps-state (λ s. lookup k s.seen) (pure (some entry)) (answer_again env)
          (Keeps-pure (some entry)) (Keeps-answer_again env)))

  Keeps-check_times :
      (w : World) (env entry : Fields) (now ttl issued_at default : Num)
      → Keeps f (check_times w env entry now ttl issued_at default)
  unfolding check_times
  Keeps-check_times w env entry now ttl issued_at default =
      Keeps-if (exceeds ttl default) _ _ (Keeps-refuse env rejected ttl_too_long) (
        Keeps-if (w.overflows now issued_at ttl) _ _ (Keeps-throw other_error) (
          Keeps-if (exceeds now (plus issued_at ttl)) _ _ (Keeps-refuse env expired ttl_over)
            (Keeps-check_duplicate env entry)))

  Keeps-check_ttl :
      (w : World) (env entry : Fields) (now : Num) → Keeps f (check_ttl w env entry now)
  unfolding check_ttl
  Keeps-check_ttl w env entry now = Keeps-bind _ _ (Keeps-field_of "ttl" env) (λ ttl.
      Keeps-bind _ _ (Keeps-field_of "issued_at" env) (λ issued_at.
        Keeps-Option (as_number ttl) _ _ (Keeps-refuse env rejected invalid_ttl) (λ t.
          Keeps-if (at_most_zero t) _ _ (Keeps-refuse env rejected invalid_ttl) (
            Keeps-Option (as_number issued_at) _ _ (Keeps-refuse env rejected invalid_issued_at)
              (λ i. Keeps-bind _ _ (Keeps-field_of "default_ttl_sec" entry) (λ default.
                Keeps-Option (as_number default) _ _ (Keeps-throw type_error)
                  (λ d. Keeps-check_times w env entry now t i d)))))))

  Keeps-check_schema :
      (w : World) (env entry : Fields) (now : Num) → Keeps f (check_schema w env entry now)
  unfolding check_schema
  Keeps-check_schema w env entry now = Keeps-bind _ _ (Keeps-field_of "payload" env) (λ payload.
      Keeps-bind _ _ (Keeps-field_of "schema" entry)
        (λ schema. go (w.validate_schema payload schema)))
    where
      go :
          (c : SchemaCheck)
          → Keeps f {A = Option Fields} (elim c [
            | valid ↦ check_ttl w env entry now
            | violated ↦ refuse env rejected schema_violated
            | check_fails ↦ throw schema_error
          ])
      go valid = Keeps-check_ttl w env entry now
      go violated = Keeps-refuse env rejected schema_violated
      go check_fails = Keeps-throw schema_error

  -- The whole chain sends nothing to the robot and leaves the registry alone.
  pub Keeps-validate : (w : World) (env : Fields) (now : Num) → Keeps f (validate w env now)
  unfolding validate
  Keeps-validate w env now = Keeps-bind _ _ (Keeps-field_of "interface_id" env) (λ id.
      Keeps-bind _ _ (Keeps-hash id) (λ k.
        Keeps-state (λ s. get_interface k s.registry) (refuse env rejected unregistered)
          (λ entry. check_schema w env entry now) (Keeps-refuse env rejected unregistered)
          (λ entry. Keeps-check_schema w env entry now)))
