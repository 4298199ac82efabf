-- ===== src/Downlink/Command/Answered.antt =====
-- Every command with hashable ids is answered: the validation chain on a registry of usable entries.
use scv_agent.Base.Dict.{lookup}
use scv_agent.Downlink.Command.Checks.{
  answer_again, hash, refuse, field_of, validate, check_schema, check_ttl, check_times,
  check_duplicate, envelope_required,
}
use scv_agent.Base.{
  false, refl, none, ◌≢◌, Option, [], arith, inr, Option-cases, inl, some, List-cases, ◌≡◌, All,
}
use scv_agent.Downlink.Registry.Active.{IsUsable}
use scv_agent.Downlink.Command.{
  violated, throw, ttl_over, unregistered, schema_violated, invalid_issued_at, expired, returns,
  valid, SchemaCheck, invalid_ttl, ttl_too_long, check_fails, rejected, Result, Detail, Status,
  Executor, World,
}
use scv_agent.Downlink.Command.Replies.{
  Willing, answer_again-Decides, refuse-Decides, Verdict, Decides-Option, Decides-if, Decides-hash,
  missing_fields-All, Decides-field_of, Decides, Hashable, Has,
}
use scv_agent.Downlink.Registry.{
  schema_error, get_interface, required_fields, missing_fields, TypeSupport, check_fields,
  validate_entry,
}
use scv_agent.Json.{json_keys, at_most_zero, plus, Key, exceeds, as_number, Num, get, Json, Fields}

-- What the chain needs of an entry: its schema, and a number as its default TTL.
pub record IsComplete (entry : Fields) : Type 0 where
  pub schema : Has entry "schema"
  pub kind : Has entry "kind"
  pub default : Json
  pub has_default : get "default_ttl_sec" entry ≡ some default
  pub limit : Num
  pub is_number : as_number default ≡ some limit

-- Every entry that a vehicle admits has them.
pub IsUsable-IsComplete : {ts : TypeSupport} {entry : Fields} → IsUsable ts entry → IsComplete entry
unfolding validate_entry check_fields
IsUsable-IsComplete {ts} {entry} u = elim (List-cases (missing_fields required_fields entry)) [
  | inl e ↦
      let (_, (_, (kind, (_, (_, (schema, (_, (default, _)))))))) =
        missing_fields-All required_fields entry e in
      elim (Option-cases (as_number default.0)) [
        | inl n ↦ absurd (ground (arith, e, u.valid, default.1, n))
        | inr (limit, n) ↦ record {
          schema = schema;
          kind = kind;
          default = default.0;
          has_default = default.1;
          limit = limit;
          is_number = n;
        }
      ]
  | inr (f, fs, e) ↦ absurd (ground (arith, e, u.valid))
]

-- A complete envelope with ids that have hashes.
pub record IsAddressed (env : Fields) : Type 0 where
  pub complete : missing_fields envelope_required env ≡ []
  pub cmd_id : Hashable "cmd_id" env
  pub interface_id : Hashable "interface_id" env

module _ (env : Fields) (a : IsAddressed env) where
  all : All (Has env) envelope_required
  all = missing_fields-All envelope_required env a.complete

  module _ (entry : Fields) (c : IsComplete entry) where
    check_duplicate-Decides : Decides env IsComplete (check_duplicate env entry)
    unfolding check_duplicate
    check_duplicate-Decides =
        let (v, g) = all.0 in
        let (k, h) = a.cmd_id v g in
        Decides-field_of env a.cmd_id IsComplete "cmd_id" env _ g (
          Decides-hash env a.cmd_id IsComplete v _ h
            (record { at = λ s willing. go s willing (lookup k s.seen) }))
      where
        go :
            (s : Executor)
            → Willing env s
            → (o : Option Result)
            → Verdict env IsComplete s
                (elim o [ none ↦ (returns (some entry), s) | some r ↦ answer_again env r s ])
        go s willing none = inr (entry, refl, c, refl)
        go s willing (some r) = (answer_again-Decides env a.cmd_id IsComplete r).at s willing

    refuses : (t : Status) (d : Detail) → Decides env IsComplete (refuse env t d)
    refuses = refuse-Decides env a.cmd_id IsComplete

    check_times-Decides :
        (w : World) (now ttl issued_at default : Num)
        → w.overflows now issued_at ttl ≡ false
        → Decides env IsComplete (check_times w env entry now ttl issued_at default)
    unfolding check_times
    check_times-Decides w now ttl issued_at default small =
        Decides-if env a.cmd_id IsComplete (exceeds ttl default) _ _ (refuses rejected ttl_too_long)
          (rw small (
            Decides-if env a.cmd_id IsComplete (exceeds now (plus issued_at ttl)) _ _
              (refuses expired ttl_over) check_duplicate-Decides))

    check_ttl-Decides :
        (w : World) (now : Num)
        → ((i t : Num) → w.overflows now i t ≡ false)
        → Decides env IsComplete (check_ttl w env entry now)
    unfolding check_ttl
    check_ttl-Decides w now small =
        let (_, (_, ((i, gi), ((t, gt), _)))) = all in
        Decides-field_of env a.cmd_id IsComplete "ttl" env _ gt (
          Decides-field_of env a.cmd_id IsComplete "issued_at" env _ gi (
            Decides-Option env a.cmd_id IsComplete (as_number t) _ _ (refuses rejected invalid_ttl)
              (λ ttl.
                Decides-if env a.cmd_id IsComplete (at_most_zero ttl) _ _
                  (refuses rejected invalid_ttl)
                  (Decides-Option env a.cmd_id IsComplete (as_number i) _ _
                    (refuses rejected invalid_issued_at)
                    (λ issued_at.
                      Decides-field_of env a.cmd_id IsComplete "default_ttl_sec" entry _
                        c.has_default
                        (rw c.is_number (
                          check_times-Decides w now ttl issued_at c.limit
                            (small issued_at ttl))))))))

    check_schema-Decides :
        (w : World) (now : Num)
        → ((x y : Json) → w.validate_schema x y ≢ check_fails)
        → ((i t : Num) → w.overflows now i t ≡ false)
        → Decides env IsComplete (check_schema w env entry now)
    unfolding check_schema
    check_schema-Decides w now sound small =
        let (_, (_, (_, (_, (_, ((x, gx), _)))))) = all in
        let (y, gy) = c.schema in
        Decides-field_of env a.cmd_id IsComplete "payload" env _ gx (
          Decides-field_of env a.cmd_id IsComplete "schema" entry _ gy
            (go (w.validate_schema x y) (sound x y)))
      where
        go :
            (r : SchemaCheck)
            → r ≢ check_fails
            → Decides env IsComplete (elim r [
              | valid ↦ check_ttl w env entry now
              | violated ↦ refuse env rejected schema_violated
              | check_fails ↦ throw schema_error
            ])
        go valid h = check_ttl-Decides w now small
        go violated h = refuses rejected schema_violated
        go check_fails h = absurd (h refl)

  -- The chain answers the command, or returns a complete entry.
  pub validate-Decides :
      (w : World) (now : Num) (s : Executor)
      → Willing env s
      → ((x y : Json) → w.validate_schema x y ≢ check_fails)
      → ((i t : Num) → w.overflows now i t ≡ false)
      → ((k : Key) (entry : Fields) → get_interface k s.registry ≡ some entry → IsComplete entry)
      → Verdict env IsComplete s (validate w env now s)
  unfolding validate field_of hash get_interface
  validate-Decides w now s willing sound small complete =
      let (_, ((v, g), _)) = all in
      let (k, h) = a.interface_id v g in
      elim (Option-cases (get_interface k s.registry)) [
        | inl e ↦
            rw (g, h, e, validate, field_of, hash)
              ((refuse-Decides env a.cmd_id IsComplete rejected unregistered).at s willing)
        | inr (entry, e) ↦
            rw (g, h, e, validate, field_of, hash)
              ((check_schema-Decides entry (complete k entry e) w now sound small).at s willing)
      ]
