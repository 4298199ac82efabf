-- ===== src/Mqtt/Setup.antt =====
-- The constructor of MqttTransport: the calls of the paho client, in order.
-- The environment is a parameter; the assignment of the callbacks is left out, see `on_connect` and
-- `on_disconnect`.
use scv_agent.Base.{
  All-append, All, ◌⊎◌, ◌∙◌, subst, Bool-cases, inr, refl, inl, Option-cases, arith, true, false,
  ◌&&◌, ◌∷◌, ◌+◌, suc, not, [], some, str_eq, none, ◌≡◌, ◌++◌, if◌then◌else◌, ℕ, Bool, List, Option,
  String,
}
use Prim.Native.String.{◌++◌ as append_text}

pub record Options : Type 0 where
  pub robot_id : String
  pub client_id : String
  pub tls : Bool
  pub ca_certs : String
  pub certfile : String
  pub keyfile : String
  pub tls_insecure : Bool

pub data Call : Type 0 where
  -- mqtt.Client, of this id
  new_client : String → Call
  username_pw_set : String → Option String → Call
  -- ca_certs, certfile and keyfile
  tls_set : Option String → Option String → Option String → Call
  tls_insecure_set : Call
  -- The topic and the payload; the level of service is 1, and nothing is retained.
  will_set : String → String → Call
  -- The shortest and the longest delay, in seconds.
  reconnect_delay_set : ℕ → ℕ → Call

abbrev pub is_empty : String → Bool
is_empty s = str_eq s ""

-- s or None
abbrev pub or_none : String → Option String
or_none s = if is_empty s then none else some s

-- `if username:`
unfoldable pub credentials : (String → Option String) → List Call
credentials env = elim (env "FTA_MQTT_USERNAME") [
  | none ↦ []
  | some u ↦ if is_empty u then [] else username_pw_set u (env "FTA_MQTT_PASSWORD") ∷ []
]

-- `if tls_insecure:`
abbrev pub name_calls : Bool → List Call
name_calls b = if b then tls_insecure_set ∷ [] else []

-- `if tls:`; `none` is ValueError.
unfoldable pub secure : Options → Option (List Call)
secure o =
    if not o.tls
    then some []
    else if not (is_empty o.certfile) && is_empty o.keyfile
    then none
    else some (
        tls_set (or_none o.ca_certs) (or_none o.certfile) (or_none o.keyfile)
        ∷ name_calls o.tls_insecure)

-- The calls of the constructor around those for TLS.
abbrev pub around : (String → Option String) → Options → List Call → List Call
around env o calls =
    let id = if is_empty o.client_id then append_text "fta-" o.robot_id else o.client_id in
    new_client id ∷ credentials env
    ++ (calls
        ++ will_set (append_text "fleet/" (append_text o.robot_id "/sys/lwt")) o.robot_id
          ∷ reconnect_delay_set 1 30
          ∷ [])

unfoldable pub set_up : (String → Option String) → Options → Option (List Call)
set_up env o = elim (secure o) [ none ↦ none | some calls ↦ some (around env o calls) ]

abbrev pub is_tls : Call → Bool
is_tls (tls_set a b c) = true
is_tls (new_client s) = false
is_tls (username_pw_set s t) = false
is_tls tls_insecure_set = false
is_tls (will_set s t) = false
is_tls (reconnect_delay_set a b) = false

abbrev pub is_insecure : Call → Bool
is_insecure tls_insecure_set = true
is_insecure (tls_set a b c) = false
is_insecure (new_client s) = false
is_insecure (username_pw_set s t) = false
is_insecure (will_set s t) = false
is_insecure (reconnect_delay_set a b) = false

-- What paho is given for a file name: the name, or None where there is none.
abbrev pub Given : String → Option String → Type 0
Given name none = is_empty name ≡ true
Given name (some s) = (s ≡ name) × (is_empty name ≡ false)

-- A call of `tls_set` has the files of the options, and a key if it has a certificate.
abbrev pub HasFiles : Options → Call → Type 0
HasFiles o (tls_set ca cert key) =
    Given o.ca_certs ca
    × Given o.certfile cert
    × Given o.keyfile key
    × ((cert ≡ none) ⊎ ((k : String) × (key ≡ some k)))
HasFiles o (new_client s) = Unit
HasFiles o (username_pw_set s t) = Unit
HasFiles o tls_insecure_set = Unit
HasFiles o (will_set s t) = Unit
HasFiles o (reconnect_delay_set a b) = Unit

abbrev pub tally : (Call → Bool) → List Call → ℕ
tally f [] = 0
tally f (c ∷ cs) = if f c then suc (tally f cs) else tally f cs

-- What the calls do for the encryption: `tls` as in the options, the check of the name given up
-- only by both options, with the files of the options, and no certificate without a key.
abbrev pub EncryptsAs : Options → List Call → Type 0
EncryptsAs o calls =
    (tally is_tls calls ≡ (if o.tls then 1 else 0))
    × (tally is_insecure calls ≡ (if o.tls && o.tls_insecure then 1 else 0))
    × All (HasFiles o) calls

tally-append : (f : Call → Bool) (xs ys : List Call) → tally f (xs ++ ys) ≡ tally f xs + tally f ys
tally-append f [] ys = omega arith
tally-append f (c ∷ xs) ys = let e = tally-append f xs ys in ground (arith, e)

-- None of the calls around those for TLS is counted.
abbrev IsQuiet : (Call → Bool) → Type 0
IsQuiet f =
    ((u : String) (p : Option String) → f (username_pw_set u p) ≡ false)
    × ((s : String) → f (new_client s) ≡ false)
    × ((s t : String) → f (will_set s t) ≡ false)
    × ((a b : ℕ) → f (reconnect_delay_set a b) ≡ false)

credentials-tally :
    (f : Call → Bool) (env : String → Option String) → IsQuiet f → tally f (credentials env) ≡ 0
unfolding credentials
credentials-tally f env h = elim (Option-cases (env "FTA_MQTT_USERNAME")) [
  | inl e ↦ ground (arith, e)
  | inr (u, e) ↦
      let no = h.0 u (env "FTA_MQTT_PASSWORD") in
      elim (Bool-cases (is_empty u)) [
        | inl b ↦ ground (arith, e, b)
        | inr b ↦ ground (arith, e, b, no)
      ]
]

around-tally :
    (f : Call → Bool) (env : String → Option String) (o : Options) (calls : List Call)
    → IsQuiet f
    → tally f (around env o calls) ≡ tally f calls
around-tally f env o calls (u, n, w, r) =
    let id = if is_empty o.client_id then append_text "fta-" o.robot_id else o.client_id in
    let last : List Call =
      will_set (append_text "fleet/" (append_text o.robot_id "/sys/lwt")) o.robot_id
      ∷ reconnect_delay_set 1 30
      ∷ [] in
    let first = n id in
    let will = w (append_text "fleet/" (append_text o.robot_id "/sys/lwt")) o.robot_id in
    let delay = r 1 30 in
    let none_last : tally f last ≡ 0 = simp (will, delay) in
    let all = tally-append f (credentials env) (calls ++ last) in
    let part = tally-append f calls last in
    let no_credentials = credentials-tally f env (u, n, w, r) in
    ground (arith, first, all, part, no_credentials, none_last)

or_none-Given : (s : String) → Given s (or_none s)
or_none-Given s = elim (Bool-cases (is_empty s)) [ inl e ↦ rw e e | inr e ↦ rw e (refl, e) ]

-- A certificate comes with a key.
comes_with :
    (cert key : String)
    → (not (is_empty cert) && is_empty key) ≡ false
    → (or_none cert ≡ none) ⊎ ((k : String) × (or_none key ≡ some k))
comes_with cert key h = elim (Bool-cases (is_empty cert)) [
  | inl e ↦ inl (rw e refl)
  | inr e ↦ elim (Bool-cases (is_empty key)) [
    | inl f ↦ absurd (ground (arith, h, e, f))
    | inr f ↦ inr (key, rw f refl)
  ]
]

name_calls-HasFiles : (o : Options) (b : Bool) → All (HasFiles o) (name_calls b)
name_calls-HasFiles o true = (tt, tt)
name_calls-HasFiles o false = tt

secure-HasFiles : (o : Options) {calls : List Call} → secure o ≡ some calls → All (HasFiles o) calls
unfolding secure
secure-HasFiles o {calls} h = elim (Bool-cases o.tls) [
  | inr off ↦
      let none_made : [] ≡ calls = ground (arith, h, off) in subst (All (HasFiles o)) none_made tt
  | inl on ↦ elim (Bool-cases (not (is_empty o.certfile) && is_empty o.keyfile)) [
    | inl bad ↦ absurd (ground (arith, h, on, bad))
    | inr good ↦
        let made : tls_set (or_none o.ca_certs) (or_none o.certfile) (or_none o.keyfile)
              ∷ name_calls o.tls_insecure
            ≡ calls =
          ground (arith, h, on, good) in
        subst (All (HasFiles o)) made (
          (
            or_none-Given o.ca_certs,
            or_none-Given o.certfile,
            or_none-Given o.keyfile,
            comes_with o.certfile o.keyfile good,
          ),
          name_calls-HasFiles o o.tls_insecure,
        )
  ]
]

secure-EncryptsAs : (o : Options) {calls : List Call} → secure o ≡ some calls → EncryptsAs o calls
unfolding secure
secure-EncryptsAs o {calls} h = (ground (arith, h), ground (arith, h), secure-HasFiles o h)

credentials-HasFiles :
    (env : String → Option String) (o : Options) → All (HasFiles o) (credentials env)
unfolding credentials
credentials-HasFiles env o = elim (Option-cases (env "FTA_MQTT_USERNAME")) [
  | inl e ↦ rw (e, credentials) tt
  | inr (u, e) ↦ elim (Bool-cases (is_empty u)) [
    | inl b ↦ rw (e, b, credentials) tt
    | inr b ↦ rw (e, b, credentials) (tt, tt)
  ]
]

around-HasFiles :
    (env : String → Option String) (o : Options) (calls : List Call)
    → All (HasFiles o) calls
    → All (HasFiles o) (around env o calls)
around-HasFiles env o calls h = (
  tt,
  All-append (HasFiles o) (credentials env) _ (credentials-HasFiles env o)
      (All-append (HasFiles o) calls _ h (tt, (tt, tt))),
)

-- A transport that is set up without an exception encrypts exactly if `tls` is set, and gives up the
-- check of the server's name exactly if `tls_insecure` is set as well; paho is given the files of
-- the options, and no certificate of the client without a key.
pub set_up-EncryptsAs :
    (env : String → Option String) (o : Options) {calls : List Call}
    → set_up env o ≡ some calls
    → EncryptsAs o calls
unfolding set_up
set_up-EncryptsAs env o {calls} h = elim (Option-cases (secure o)) [
  | inl e ↦ absurd (ground (arith, h, e))
  | inr (cs, e) ↦
      let same : around env o cs ≡ calls = ground (arith, h, e) in
      let (t, i, k) = secure-EncryptsAs o e in
      let quiet_tls : IsQuiet is_tls = (λ u p. refl, λ s. refl, λ s t. refl, λ a b. refl) in
      let quiet_name : IsQuiet is_insecure = (λ u p. refl, λ s. refl, λ s t. refl, λ a b. refl) in
      subst (EncryptsAs o) same (
        around-tally is_tls env o cs quiet_tls ∙ t,
        around-tally is_insecure env o cs quiet_name ∙ i,
        around-HasFiles env o cs k,
      )
]
