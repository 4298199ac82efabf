-- ===== src/Downlink/Command/Passing.antt =====
-- The validation chain lets exactly the commands through that pass its four checks.
use scv_agent.Downlink.Command.Chain.{validate-Passes, Passes, key_at, number_at}
use scv_agent.Json.{key_of, as_number, get, Json, Key, Num, Fields}
use scv_agent.Downlink.Command.{returns, Executor, World}
use scv_agent.Downlink.Command.Checks.{
  check_duplicate, check_times, check_ttl, check_schema, hash, field_of, validate,
}
use scv_agent.Base.{inr, inl, Option-cases, arith, ◌↔◌, some, ◌≡◌, String}

number_at-get :
    (k : String) (d : Fields) {n : Num}
    → number_at k d ≡ some n
    → (v : Json) × (get k d ≡ some v) × (as_number v ≡ some n)
number_at-get k d {n} h = elim (Option-cases (get k d)) [
  | inl e ↦ absurd (ground (arith, h, e))
  | inr (v, e) ↦ (v, e, ground (arith, h, e))
]

pub key_at-get :
    (k : String) (d : Fields) {n : Key}
    → key_at k d ≡ some n
    → (v : Json) × (get k d ≡ some v) × (key_of v ≡ some n)
key_at-get k d {n} h = elim (Option-cases (get k d)) [
  | inl e ↦ absurd (ground (arith, h, e))
  | inr (v, e) ↦ (v, e, ground (arith, h, e))
]

-- A command that passes all four checks for an entry goes through the chain.
Passes-validate :
    (w : World) (env : Fields) (now : Num) (s : Executor) (entry : Fields)
    → Passes w env now s entry
    → validate w env now s ≡ (returns (some entry), s)
unfolding validate field_of hash check_schema check_ttl check_times check_duplicate
Passes-validate w env now s entry p =
    let (i, gi, ki) = key_at-get "interface_id" env p.registered.has_interface in
    let (t, gt, nt) = number_at-get "ttl" env p.timely.has_ttl in
    let (u, gu, nu) = number_at-get "issued_at" env p.timely.has_issued_at in
    let (d, gd, nd) = number_at-get "default_ttl_sec" entry p.timely.has_default in
    let (c, gc, kc) = key_at-get "cmd_id" env p.new.has_cmd_key in
    ground (arith, gi, ki, gt, nt, gu, nu, gd, nd, gc, kc, p)

-- The validation chain returns an entry, without changing anything, exactly for the commands that
-- pass all four checks for that entry: registered, of the schema, in time, and new.
pub validate-iff-Passes :
    (w : World) (env : Fields) (now : Num) (s : Executor) (entry : Fields)
    → (validate w env now s ≡ (returns (some entry), s)) ↔ Passes w env now s entry
validate-iff-Passes w env now s entry =
    (λ h. (validate-Passes env s w now h).0, Passes-validate w env now s entry)
