-- ===== src/Downlink/Command/Replies.antt =====
-- Every way out of the validation chain answers the command, or lets it pass without an answer.
use mathlib.Core.Option.{some-injective}
use mathlib.Core.Bool.{false}
use scv_agent.Downlink.Command.Checks.{
  reply_of, field_of, answer_again, refuse, touch, trim, reply_name, respond, record_audit,
  store_seen, hash, remember, finish,
}
use scv_agent.Downlink.Command.{
  again, ◌>>=◌, Result, Detail, Status, returns, Returns, Reply, M, Executor,
}
use scv_agent.Downlink.Registry.{missing_fields}
use scv_agent.Json.{has-get, is_null, has, key_of, Key, get, Json, Fields}
use scv_agent.Base.{
  ◌∙◌, sym, if◌then◌else◌, Bool, ap, refl, inr, inl, Option-cases, Bool-cases, arith, true, ◌⊎◌,
  none, All, ◌∷◌, [], some, Option, ◌≡◌, List, String,
}

-- The value under the key, if there is one, has a hash.
abbrev pub Hashable : String → Fields → Type 0
Hashable k d = (v : Json) → get k d ≡ some v → (h : Key) × (key_of v ≡ some h)

pub Hashable-get :
    (k : String) (d : Fields) {v : Json} {h : Key}
    → get k d ≡ some v
    → key_of v ≡ some h
    → Hashable k d
Hashable-get k d {v} {h} g e w f = (h, ap key_of (some-injective _ _ (sym f ∙ g)) ∙ e)

abbrev pub Has : Fields → String → Type 0
Has d k = (v : Json) × (get k d ≡ some v)

pub missing_fields-All : (fs : List String) (d : Fields) → missing_fields fs d ≡ [] → All (Has d) fs
unfolding missing_fields
missing_fields-All [] d h = tt
missing_fields-All (f ∷ fs) d h = elim (Bool-cases (has f d)) [
  | inl e ↦ (has-get f d e, missing_fields-All fs d (ground (arith, e)))
  | inr e ↦ absurd (ground (arith, e))
]

-- One more reply went out, with the id of the command.
pub record Replied (env : Fields) (s s' : Executor) : Type 0 where
  pub reply : Reply
  pub one_more : s'.replies ≡ reply ∷ s.replies
  pub same_id : reply.cmd_id ≡ get "cmd_id" env

-- What a reply depends on: the replies so far, and which ones the transport takes.
abbrev pub wire_of : Executor → List Reply × (Reply → Bool)
wire_of s = (s.replies, s.takes)

-- The transport takes any reply to the command.
abbrev pub Willing : Fields → Executor → Type 0
Willing env s =
    (r : Reply) → r.name ≡ reply_name env → r.cmd_id ≡ get "cmd_id" env → s.takes r ≡ true

-- The action returns, with one reply.
pub record Answers (env : Fields) {A : Type 0} (a : A) (m : M A) : Type 0 where
  pub at : (s : Executor) → Willing env s → ((m s).0 ≡ returns a) × Replied env s (m s).1

-- A check answers and returns no entry, or it returns an entry and leaves the answer to others.
abbrev pub Verdict :
    Fields → (Fields → Type 0) → Executor → Returns (Option Fields) × Executor → Type 0
Verdict env P s r =
    ((r.0 ≡ returns none) × Replied env s r.1)
    ⊎ ((entry : Fields) × (r.0 ≡ returns (some entry)) × P entry × (wire_of r.1 ≡ wire_of s))

pub record Decides (env : Fields) (P : Fields → Type 0) (m : M (Option Fields)) : Type 0 where
  pub at : (s : Executor) → Willing env s → Verdict env P s (m s)

module _ (env : Fields) (cmd : Hashable "cmd_id" env) where
  remember_quiet :
      (r : Result) (s : Executor)
      → (s' : Executor) × (remember env r s ≡ (returns tt, s')) × (wire_of s' ≡ wire_of s)
  unfolding remember hash store_seen
  remember_quiet r s = elim (Option-cases (get "cmd_id" env)) [
    | inl g ↦ (s, ground (arith, g), refl)
    | inr (v, g) ↦ elim (Bool-cases (is_null v)) [
      | inl n ↦ (s, ground (arith, g, n), refl)
      | inr n ↦
          let (k, h) = cmd v g in
          (
            record s { seen = trim s.seen_max (touch k r s.seen) },
            rw (g, n, h, remember, hash, store_seen) refl,
            refl,
          )
    ]
  ]

  pub finish-Answers : (t : Status) (d : Detail) → Answers env tt (finish env t d)
  unfolding finish record_audit respond
  finish-Answers t d = record {
    at = λ s willing.
        let (s', e, q) = remember_quiet (record { status = t; detail = d }) s in
        let reply : Reply = reply_of env t d in
        let taken : s'.takes reply ≡ true = ap (λ x. x.1 reply) q ∙ willing reply refl refl in
        rw (e, finish, taken)
          (refl, record { reply = reply; one_more = ap (λ x. reply ∷ x.0) q; same_id = refl });
  }

  module _ (P : Fields → Type 0) where
    pub refuse-Decides : (t : Status) (d : Detail) → Decides env P (refuse env t d)
    unfolding refuse
    refuse-Decides t d = record {
      at = λ s willing.
          let (e, r) = (finish-Answers t d).at s willing in
          rw (e, refuse)
            (inl (refl, record { reply = r.reply; one_more = r.one_more; same_id = r.same_id }));
    }

    pub answer_again-Decides : (r : Result) → Decides env P (answer_again env r)
    unfolding answer_again record_audit respond
    answer_again-Decides r = record {
      at = λ s willing.
          rw (willing (reply_of env r.status (again r.detail)) refl refl)
            (inl (refl, record { reply = _; one_more = refl; same_id = refl }));
    }

    pub Decides-if :
        (b : Bool) (m n : M (Option Fields))
        → Decides env P m
        → Decides env P n
        → Decides env P (if b then m else n)
    Decides-if true m n km kn = km
    Decides-if false m n km kn = kn

    pub Decides-Option :
        {C : Type 0} (o : Option C) (m : M (Option Fields)) (n : C → M (Option Fields))
        → Decides env P m
        → ((c : C) → Decides env P (n c))
        → Decides env P (elim o [ none ↦ m | some c ↦ n c ])
    Decides-Option none m n km kn = km
    Decides-Option (some c) m n km kn = kn c

    pub Decides-field_of :
        (k : String) (d : Fields) (f : Json → M (Option Fields)) {v : Json}
        → get k d ≡ some v
        → Decides env P (f v)
        → Decides env P (field_of k d >>= f)
    unfolding field_of
    Decides-field_of k d f {v} g h = rw (g, field_of) h

    pub Decides-hash :
        (v : Json) (f : Key → M (Option Fields)) {k : Key}
        → key_of v ≡ some k
        → Decides env P (f k)
        → Decides env P (hash v >>= f)
    unfolding hash
    Decides-hash v f g h = rw (g, hash) h
