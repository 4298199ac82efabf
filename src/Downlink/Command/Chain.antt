-- ===== src/Downlink/Command/Chain.antt =====
-- The validation chain: exactly what has been checked when a command is executed.
use scv_agent.Base.Dict.{lookup}
use scv_agent.Downlink.Registry.{get_interface}
use scv_agent.Json.{
  json_keys, plus, exceeds, at_most_zero, as_number, key_of, get, Key, Num, Json, Fields,
}
use scv_agent.Downlink.Command.Checks.{
  validate, check_schema, check_ttl, check_times, check_duplicate, answer_again, refuse, hash,
  field_of,
}
use scv_agent.Base.{
  refl, subst, ap, ◌∙◌, Bool-cases, inr, inl, Option-cases, arith, ◌≢◌, String, false, Option, none,
  some, ◌≡◌,
}
use scv_agent.Downlink.Command.{
  check_fails, violated, schema_violated, unregistered, SchemaCheck, invalid_ttl, invalid_issued_at,
  ttl_over, expired, ttl_too_long, rejected, valid, Detail, Result, Status, returns, World,
  Executor,
}

abbrev pub number_at : String → Fields → Option Num
number_at k d = elim (get k d) [ none ↦ none | some v ↦ as_number v ]

abbrev pub key_at : String → Fields → Option Key
key_at k d = elim (get k d) [ none ↦ none | some v ↦ key_of v ]

-- ① The interface that the command names is registered.
pub record IsRegistered (env : Fields) (s : Executor) (entry : Fields) : Type 0 where
  pub interface : Key
  pub has_interface : key_at "interface_id" env ≡ some interface
  pub registered : get_interface interface s.registry ≡ some entry

-- ② Its payload fits the interface's schema.
pub record Conforms (w : World) (env entry : Fields) : Type 0 where
  pub payload : Json
  pub has_payload : get "payload" env ≡ some payload
  pub schema : Json
  pub has_schema : get "schema" entry ≡ some schema
  pub fits : w.validate_schema payload schema ≡ valid

-- ③ Its TTL is a positive number, within the interface's default, and not over, in numbers that fit
-- into floats.
pub record IsTimely (w : World) (env entry : Fields) (now : Num) : Type 0 where
  pub ttl : Num
  pub has_ttl : number_at "ttl" env ≡ some ttl
  pub positive : at_most_zero ttl ≡ false
  pub issued_at : Num
  pub has_issued_at : number_at "issued_at" env ≡ some issued_at
  pub default_ttl : Num
  pub has_default : number_at "default_ttl_sec" entry ≡ some default_ttl
  pub within : exceeds ttl default_ttl ≡ false
  pub representable : w.overflows now issued_at ttl ≡ false
  pub in_time : exceeds now (plus issued_at ttl) ≡ false

-- ④ Its id is not in the cache.
pub record IsNew (env : Fields) (s : Executor) : Type 0 where
  pub cmd_key : Key
  pub has_cmd_key : key_at "cmd_id" env ≡ some cmd_key
  pub unseen : lookup cmd_key s.seen ≡ none

pub record Passes (w : World) (env : Fields) (now : Num) (s : Executor) (entry : Fields)
    : Type 0 where
  pub registered : IsRegistered env s entry
  pub conforms : Conforms w env entry
  pub timely : IsTimely w env entry now
  pub new : IsNew env s

refuse_none :
    (env : Fields) (t : Status) (d : Detail) (s : Executor) {e : Fields} {s' : Executor}
    → refuse env t d s ≢ (returns (some e), s')
unfolding refuse
refuse_none env t d s h = ground arith

answer_again_none :
    (env : Fields) (r : Result) (s : Executor) {e : Fields} {s' : Executor}
    → answer_again env r s ≢ (returns (some e), s')
unfolding answer_again
answer_again_none env r s h = ground arith

module _ (env : Fields) (s : Executor) where
  -- The last check returns its entry and nothing else changes, or no entry is returned.
  check_duplicate-returns :
      (entry : Fields) {e : Fields} {s' : Executor}
      → check_duplicate env entry s ≡ (returns (some e), s')
      → IsNew env s × (entry ≡ e) × (s ≡ s')
  unfolding check_duplicate field_of hash
  check_duplicate-returns entry {e} {s'} h = elim (Option-cases (get "cmd_id" env)) [
    | inl g ↦ absurd (ground (arith, g))
    | inr (v, g) ↦ elim (Option-cases (key_of v)) [
      | inl n ↦ absurd (ground (arith, g, n))
      | inr (k, n) ↦ elim (Option-cases (lookup k s.seen)) [
        | inl l ↦ (
          record { cmd_key = k; has_cmd_key = ground (arith, g, n); unseen = l },
          ground (arith, g, n, l),
          ground (arith, g, n, l),
        )
        | inr (r, l) ↦
            absurd (answer_again_none env r s {e = e} {s' = s'} (ground (arith, g, n, l)))
      ]
    ]
  ]

  check_times-returns :
      (w : World) (entry : Fields) (now ttl issued_at default : Num) {e : Fields} {s' : Executor}
      → check_times w env entry now ttl issued_at default s ≡ (returns (some e), s')
      → (exceeds ttl default ≡ false)
        × (w.overflows now issued_at ttl ≡ false)
        × (exceeds now (plus issued_at ttl) ≡ false)
        × (check_duplicate env entry s ≡ (returns (some e), s'))
  unfolding check_times
  check_times-returns w entry now ttl issued_at default {e} {s'} h =
      elim (Bool-cases (exceeds ttl default)) [
        | inl long ↦ absurd (
            refuse_none env rejected ttl_too_long s {e = e} {s' = s'} (rw (long, check_times) at h))
        | inr short ↦ elim (Bool-cases (w.overflows now issued_at ttl)) [
          | inl huge ↦ absurd (ground (arith, h, short, huge))
          | inr fits ↦ elim (Bool-cases (exceeds now (plus issued_at ttl))) [
            | inl late ↦ absurd (
                refuse_none env expired ttl_over s {e = e} {s' = s'}
                  (rw (short, fits, late, check_times) at h))
            | inr early ↦ (short, fits, early, rw (short, fits, early, check_times) at h)
          ]
        ]
      ]

  -- `issued_at` and `default_ttl_sec`, once the TTL is known to be a positive number.
  timed :
      (w : World) (entry : Fields) (now ttl : Num) {e : Fields} {s' : Executor}
      → number_at "ttl" env ≡ some ttl
      → at_most_zero ttl ≡ false
      → check_ttl w env entry now s ≡ (returns (some e), s')
      → IsTimely w env entry now × (check_duplicate env entry s ≡ (returns (some e), s'))
  unfolding check_ttl field_of
  timed w entry now ttl {e} {s'} has pos h = elim (Option-cases (get "ttl" env)) [
    | inl g ↦ absurd (ground (arith, g))
    | inr (v, g) ↦ elim (Option-cases (get "issued_at" env)) [
      | inl n ↦ absurd (ground (arith, g, n))
      | inr (iv, gi) ↦ elim (Option-cases (as_number iv)) [
        | inl n ↦ absurd (
            refuse_none env rejected invalid_issued_at s {e = e} {s' = s'}
              (ground (arith, g, gi, n)))
        | inr (i, ni) ↦ elim (Option-cases (get "default_ttl_sec" entry)) [
          | inl n ↦ absurd (ground (arith, g, gi, ni, n))
          | inr (dv, gd) ↦ elim (Option-cases (as_number dv)) [
            | inl n ↦ absurd (ground (arith, g, gi, ni, gd, n))
            | inr (d, nd) ↦
                let t =
                  check_times-returns w entry now ttl i d {e = e} {s' = s'}
                    (ground (arith, g, gi, ni, gd, nd)) in
                (
                  record {
                    ttl = ttl;
                    has_ttl = has;
                    positive = pos;
                    issued_at = i;
                    has_issued_at = ground (arith, gi, ni);
                    default_ttl = d;
                    has_default = ground (arith, gd, nd);
                    within = t.0;
                    representable = t.1;
                    in_time = t.2;
                  },
                  t.3,
                )
          ]
        ]
      ]
    ]
  ]

  check_ttl-returns :
      (w : World) (entry : Fields) (now : Num) {e : Fields} {s' : Executor}
      → check_ttl w env entry now s ≡ (returns (some e), s')
      → IsTimely w env entry now × (check_duplicate env entry s ≡ (returns (some e), s'))
  unfolding check_ttl field_of
  check_ttl-returns w entry now {e} {s'} h = elim (Option-cases (get "ttl" env)) [
    | inl g ↦ absurd (ground (arith, g))
    | inr (v, g) ↦ elim (Option-cases (get "issued_at" env)) [
      | inl n ↦ absurd (ground (arith, g, n))
      | inr (iv, gi) ↦ elim (Option-cases (as_number v)) [
        | inl n ↦
            absurd
              (refuse_none env rejected invalid_ttl s {e = e} {s' = s'} (ground (arith, g, gi, n)))
        | inr (t, n) ↦ elim (Bool-cases (at_most_zero t)) [
          | inl z ↦ absurd (
              refuse_none env rejected invalid_ttl s {e = e} {s' = s'}
                (ground (arith, g, gi, n, z)))
          | inr z ↦ timed w entry now t (ground (arith, g, n)) z h
        ]
      ]
    ]
  ]

  module _ (w : World) where
    check_schema-returns :
        (entry : Fields) (now : Num) {e : Fields} {s' : Executor}
        → check_schema w env entry now s ≡ (returns (some e), s')
        → Conforms w env entry × (check_ttl w env entry now s ≡ (returns (some e), s'))
    unfolding check_schema field_of
    check_schema-returns entry now {e} {s'} h = elim (Option-cases (get "payload" env)) [
      | inl g ↦ absurd (ground (arith, g))
      | inr (p, g) ↦ elim (Option-cases (get "schema" entry)) [
        | inl n ↦ absurd (ground (arith, g, n))
        | inr (c, n) ↦ go p c g n (w.validate_schema p c) refl
      ]
    ]
      where
        go :
            (p c : Json)
            → get "payload" env ≡ some p
            → get "schema" entry ≡ some c
            → (x : SchemaCheck) → w.validate_schema p c ≡ x
            → Conforms w env entry × (check_ttl w env entry now s ≡ (returns (some e), s'))
        go p c g n valid v = (
          record { payload = p; has_payload = g; schema = c; has_schema = n; fits = v },
          ground (arith, g, n, v),
        )
        go p c g n violated v =
            absurd (
              refuse_none env rejected schema_violated s {e = e} {s' = s'}
                (ground (arith, g, n, v)))
        go p c g n check_fails v = absurd (ground (arith, g, n, v))

    -- A command for which the validation chain returns an entry has passed all four checks for
    -- that entry, and the chain changed nothing.
    pub validate-Passes :
        (now : Num) {entry : Fields} {s' : Executor}
        → validate w env now s ≡ (returns (some entry), s')
        → Passes w env now s entry × (s ≡ s')
    unfolding validate field_of hash
    validate-Passes now {entry} {s'} h = elim (Option-cases (get "interface_id" env)) [
      | inl g ↦ absurd (ground (arith, g))
      | inr (v, g) ↦ elim (Option-cases (key_of v)) [
        | inl n ↦ absurd (ground (arith, g, n))
        | inr (k, n) ↦ elim (Option-cases (get_interface k s.registry)) [
          | inl l ↦ absurd (
              refuse_none env rejected unregistered s {e = entry} {s' = s'}
                (ground (arith, g, n, l)))
          | inr (found, l) ↦
              let (c, h2) =
                check_schema-returns found now {e = entry} {s' = s'} (ground (arith, g, n, l)) in
              let (t, h3) = check_ttl-returns w found now {e = entry} {s' = s'} h2 in
              let (new, same, kept) = check_duplicate-returns found {e = entry} {s' = s'} h3 in
              (
                record {
                  registered = record {
                    interface = k;
                    has_interface = ground (arith, g, n);
                    registered = l ∙ ap some same;
                  };
                  conforms = subst (Conforms w env) same c;
                  timely = subst (λ x. IsTimely w env x now) same t;
                  new = new;
                },
                kept,
              )
        ]
      ]
    ]
