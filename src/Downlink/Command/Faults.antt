-- ===== src/Downlink/Command/Faults.antt =====
-- Envelopes that the chain handles in a way that its header comment rules out.
use scv_agent.Downlink.Registry.{type_error}
use scv_agent.Json.{as_number, key_of, nan, get, Json, Num, Fields}
use scv_agent.Downlink.Command.Checks.{
  check_duplicate, respond, hash, record_audit, check_times, remember, field_of, finish, check_ttl,
}
use scv_agent.Base.{false, arith, none, some, ◌≡◌}
use scv_agent.Downlink.Command.{World, raises, Detail, Status, Executor}

-- A TTL of NaN passes the TTL check at any time and for any default, if issued_at and the default
-- are numbers and issued_at is not too large for a float.
pub check_ttl_nan :
    (w : World) (env entry : Fields) (now : Num) (s : Executor) {iv dv : Json} {i d : Num}
    → get "ttl" env ≡ some (Json.num nan)
    → get "issued_at" env ≡ some iv
    → as_number iv ≡ some i
    → get "default_ttl_sec" entry ≡ some dv
    → as_number dv ≡ some d
    → w.overflows now i nan ≡ false
    → check_ttl w env entry now s ≡ check_duplicate env entry s
unfolding check_ttl field_of check_times
check_ttl_nan w env entry now s t iv i dv d small = ground (arith, t, iv, i, dv, d, small)

-- An answer to a command whose id is null leaves the cache of answered commands as it was.
pub seen-finish_null :
    (env : Fields) (t : Status) (d : Detail) (s : Executor)
    → get "cmd_id" env ≡ some Json.null
    → (finish env t d s).1.seen ≡ s.seen
unfolding finish remember record_audit respond
seen-finish_null env t d s h = ground (arith, h)

-- An answer to a command whose id has no hash raises TypeError and changes nothing: no cache
-- entry, no audit record, no reply.
pub finish_unhashable :
    (env : Fields) (t : Status) (d : Detail) (s : Executor) {v : Json}
    → get "cmd_id" env ≡ some v
    → key_of v ≡ none
    → finish env t d s ≡ (raises type_error, s)
unfolding finish remember hash
finish_unhashable env t d s h n = ground (arith, h, n)
