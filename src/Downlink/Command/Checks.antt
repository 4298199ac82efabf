-- ===== src/Downlink/Command/Checks.antt =====
-- The answers of CommandExecutor, and the checks of a command (`_validate`).
use scv_agent.Downlink.Registry.{other_error, schema_error, type_error, key_error, get_interface}
use scv_agent.Base.Dict.{lookup, without}
use scv_agent.Base.{length, ltb, if◌then◌else◌, ℕ, Option, none, some, List, [], ◌∷◌, ◌++◌, String}
use scv_agent.Json.{
  at_most_zero, plus, json_keys, exceeds, truthy, is_null, as_number, key_of, get, Json, Fields,
  Key, Num,
}
use scv_agent.Downlink.Command.{
  raises, Reply, check_fails, violated, schema_violated, valid, ttl_over, invalid_issued_at,
  expired, unregistered, invalid_ttl, ttl_too_long, again, rejected, answered_before, throw,
  duplicate, pure, finished, returns, M, World, Result, Status, Stage, Detail, ◌>>=◌, ◌>>◌,
}

-- ENVELOPE_REQUIRED
abbrev pub envelope_required : List String
envelope_required = "cmd_id" ∷ "interface_id" ∷ "issued_at" ∷ "ttl" ∷ "issuer" ∷ "payload" ∷ []

-- d[k]
unfoldable pub field_of : String → Fields → M Json
field_of k d = elim (get k d) [ none ↦ throw key_error | some v ↦ pure v ]

-- The hash of a value that is used as a key, or TypeError.
unfoldable pub hash : Json → M Key
hash v = elim (key_of v) [ none ↦ throw type_error | some k ↦ pure k ]

-- `_audit.record(…)` with the ids of the envelope.
unfoldable pub record_audit : Fields → Stage → Detail → M (Unit {0})
record_audit env stage detail s = (
  returns tt,
  record s {
    audit =
        record {
          cmd_id = get "cmd_id" env;
          interface_id = get "interface_id" env;
          issuer = get "issuer" env;
          stage = stage;
          detail = detail;
        }
        ∷ s.audit;
  },
)

-- `_seen[k] = r` and `move_to_end(k)`
abbrev pub touch : Key → Result → List (Key × Result) → List (Key × Result)
touch k r seen = without k seen ++ (k, r) ∷ []

-- `while len(self._seen) > self._seen_max: self._seen.popitem(last=False)`
unfoldable pub trim : ℕ → List (Key × Result) → List (Key × Result)
trim m [] = []
trim m (e ∷ es) = let rest = trim m es in if ltb m (length (e ∷ es)) then rest else e ∷ es

unfoldable pub store_seen : Key → Result → M (Unit {0})
store_seen k r s = (returns tt, record s { seen = trim s.seen_max (touch k r s.seen) })

-- The part of `_finish` under `if cmd_id is not None`.
unfoldable pub remember : Fields → Result → M (Unit {0})
remember env r = elim (get "cmd_id" env) [
  | none ↦ pure tt
  | some v ↦ if is_null v then pure tt else hash v >>= λ k. store_seen k r
]

-- env.get("interface_id") or "unknown"
abbrev pub reply_name : Fields → Json
reply_name env = elim (get "interface_id" env) [
  | none ↦ Json.text "unknown"
  | some v ↦ if truthy v then v else Json.text "unknown"
]

abbrev pub reply_of : Fields → Status → Detail → Reply
reply_of env status detail = record {
  name = reply_name env;
  cmd_id = get "cmd_id" env;
  result = record { status = status; detail = detail };
}

unfoldable pub respond : Fields → Status → Detail → M (Unit {0})
respond env status detail s =
    let reply = reply_of env status detail in
    if s.takes reply
    then (returns tt, record s { replies = reply ∷ s.replies })
    else (raises other_error, s)

unfoldable pub finish : Fields → Status → Detail → M (Unit {0})
finish env status detail = do
  remember env (record { status = status; detail = detail })
  record_audit env (finished status) detail
  respond env status detail

-- `self._finish(…)` and `return None`
unfoldable pub refuse : Fields → Status → Detail → M (Option Fields)
refuse env status detail = do finish env status detail; pure none

-- ④ idempotence
unfoldable pub answer_again : Fields → Result → M (Option Fields)
answer_again env cached = do
  record_audit env duplicate (answered_before cached.status)
  respond env cached.status (again cached.detail)
  pure none

unfoldable pub check_duplicate : Fields → Fields → M (Option Fields)
check_duplicate env entry = do
  cmd_id ← field_of "cmd_id" env
  k ← hash cmd_id
  λ s. elim (lookup k s.seen) [
    | none ↦ (returns (some entry), s)
    | some cached ↦ answer_again env cached s
  ]

-- The last two checks of ③, on numbers: `ttl > default` and `recv_time > issued_at + ttl`.
unfoldable pub check_times : World → Fields → Fields → Num → Num → Num → Num → M (Option Fields)
check_times w env entry now ttl issued_at default =
    if exceeds ttl default
    then refuse env rejected ttl_too_long
    else if w.overflows now issued_at ttl
    then throw other_error
    else if exceeds now (plus issued_at ttl)
    then refuse env expired ttl_over
    else check_duplicate env entry

-- ③ TTL
unfoldable pub check_ttl : World → Fields → Fields → Num → M (Option Fields)
check_ttl w env entry now = do
  ttl ← field_of "ttl" env
  issued_at ← field_of "issued_at" env
  elim (as_number ttl) [
    | none ↦ refuse env rejected invalid_ttl
    | some t ↦
        if at_most_zero t then refuse env rejected invalid_ttl else elim (as_number issued_at) [
          | none ↦ refuse env rejected invalid_issued_at
          | some i ↦ do
            default ← field_of "default_ttl_sec" entry
            elim (as_number default) [
              | none ↦ throw type_error
              | some d ↦ check_times w env entry now t i d
            ]
        ]
  ]

module _ (w : World) where
  -- ② payload schema
  unfoldable pub check_schema : Fields → Fields → Num → M (Option Fields)
  check_schema env entry now = do
    payload ← field_of "payload" env
    schema ← field_of "schema" entry
    elim (w.validate_schema payload schema) [
      | valid ↦ check_ttl w env entry now
      | violated ↦ refuse env rejected schema_violated
      | check_fails ↦ throw schema_error
    ]

  -- `_validate`, from ① the registry on.
  unfoldable pub validate : Fields → Num → M (Option Fields)
  validate env now = do
    interface_id ← field_of "interface_id" env
    k ← hash interface_id
    λ s. elim (get_interface k s.registry) [
      | none ↦ refuse env rejected unregistered s
      | some entry ↦ check_schema env entry now s
    ]
