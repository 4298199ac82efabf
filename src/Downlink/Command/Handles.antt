-- ===== src/Downlink/Command/Handles.antt =====
-- The cached publishers and clients: each is filed under the entry that it was made for.
use scv_agent.Base.Dict.{All-lookup, All-insert, insert, lookup}
use scv_agent.Downlink.Command.Chain.{key_at}
use scv_agent.Downlink.Command.Keeps.{Answerless}
use scv_agent.Downlink.Command.Checks.{hash, field_of}
use scv_agent.Downlink.Command.Methods.{cached_handle, get_client, get_publisher}
use scv_agent.Json.{
  key_of, json_keys, key_eq_trans, key_eq_symm, json_eq, key_eq_refl, key_eq, Key, get, Json,
  Fields,
}
use scv_agent.Base.{
  ap, All, true, none, Option, refl, subst, Bool-cases, inr, inl, Option-cases, arith, ◌⊎◌, ℕ, some,
  List, ◌≡◌,
}
use scv_agent.Downlink.Command.{Handle, returns, Returns, World, Effect, Executor}

-- The part of the state that the robot's side has: what was sent, and the handles.
abbrev pub Handles : Type 0
Handles = List (Key × (Json × Handle))

abbrev pub Side : Type 0
Side = List Effect × Handles × Handles

abbrev pub side_of : Executor → Side
side_of s = (s.effects, s.publishers, s.clients)

pub side-Answerless : Answerless side_of
side-Answerless = record { seen = λ s x. refl; audit = λ s x. refl; replies = λ s x. refl }

-- The handle under a key was made for an entry with this id, of the version that stands with it.
abbrev pub IsOwn : Key × (Json × Handle) → Type 0
IsOwn (k, (version, h)) =
    (j : Key) × (key_at "interface_id" h.made_for ≡ some j)
    × (key_eq j k ≡ true)
    × (get "version" h.made_for ≡ some version)

-- The handles of both kinds are filed under the entries they were made for.
abbrev pub IsFiled : Side → Type 0
IsFiled x = All IsOwn x.1 × All IsOwn x.2

-- The handle was made for the entry, or for an entry with the same id and an equal version.
pub record IsFor (entry made : Fields) : Type 0 where
  pub id : Key
  pub made_id : Key
  pub has_id : key_at "interface_id" entry ≡ some id
  pub has_made_id : key_at "interface_id" made ≡ some made_id
  pub same_id : key_eq made_id id ≡ true
  pub version : Json
  pub made_version : Json
  pub has_version : get "version" entry ≡ some version
  pub has_made_version : get "version" made ≡ some made_version
  pub same_version : (made ≡ entry) ⊎ (json_eq made_version version ≡ true)

IsOwn-new :
    (entry : Fields) (k : Key) (version : Json) (n : ℕ)
    → key_at "interface_id" entry ≡ some k
    → get "version" entry ≡ some version
    → IsOwn (k, (version, record { number = n; made_for = entry }))
IsOwn-new entry k version n e v = (k, e, key_eq_refl k, v)

IsFor-own :
    (entry : Fields) {k : Key} {version : Json}
    → key_at "interface_id" entry ≡ some k
    → get "version" entry ≡ some version
    → IsFor entry entry
IsFor-own entry {k} {version} e v = record {
  id = k;
  made_id = k;
  has_id = e;
  has_made_id = e;
  same_id = key_eq_refl k;
  version = version;
  made_version = version;
  has_version = v;
  has_made_version = v;
  same_version = inl refl;
}

-- A handle that is filed is for an entry with the id and the version.
IsFor-filed :
    (entry : Fields) (xs : Handles) {k : Key} {version v : Json} {h : Handle}
    → key_at "interface_id" entry ≡ some k
    → get "version" entry ≡ some version
    → lookup k xs ≡ some (v, h)
    → json_eq v version ≡ true
    → All IsOwn xs
    → IsFor entry h.made_for
IsFor-filed entry xs {k} {version} {v} {h} e f hit eq own =
    let (j, near, (i, made, same, w)) = All-lookup IsOwn k xs hit own in
    record {
      id = k;
      made_id = i;
      has_id = e;
      has_made_id = made;
      same_id = key_eq_trans i j k same near;
      version = version;
      made_version = v;
      has_version = f;
      has_made_version = w;
      same_version = inr eq;
    }

IsOwn-insert :
    (entry : Fields) (k : Key) (version : Json) (n : ℕ) (xs : Handles)
    → key_at "interface_id" entry ≡ some k
    → get "version" entry ≡ some version
    → All IsOwn xs
    → All IsOwn (insert k (version, record { number = n; made_for = entry }) xs)
IsOwn-insert entry k version n xs e v own =
    All-insert IsOwn k _ xs (IsOwn-new entry k version n e v)
      (λ j same. (k, e, key_eq_symm j k same, v)) own

module _ (w : World) (entry : Fields) where
  -- What getting a handle does: nothing is sent, and the handle is one of the entry.
  abbrev pub Gets : Executor → Returns Handle → Executor → Type 0
  Gets s r s' =
      (s'.effects ≡ s.effects)
      × (IsFiled (side_of s) → IsFiled (side_of s'))
      × (IsFiled (side_of s) → (h : Handle) → r ≡ returns h → IsFor entry h.made_for)

  cached_handle-some :
      (version : Json) (o : Option (Json × Handle)) {h : Handle}
      → cached_handle w version o ≡ some h
      → (old : Json) × (o ≡ some (old, h)) × (json_eq old version ≡ true)
  unfolding cached_handle
  cached_handle-some version none e = absurd (ground (arith, e))
  cached_handle-some version (some (old, c)) {h} e = elim (Bool-cases (json_eq old version)) [
    | inl same ↦
        let one : c ≡ h = ground (arith, e, same) in (old, ap (λ z. some (old, z)) one, same)
    | inr differ ↦ absurd (ground (arith, e, differ))
  ]

  returned : {c h : Handle} → Path (Returns Handle) (returns c) (returns h) → c ≡ h
  returned {c} {h} e = ground (arith, e)

  pub get_publisher-Gets : (s : Executor) → let (r, s') = get_publisher w entry s in Gets s r s'
  unfolding get_publisher field_of hash cached_handle
  get_publisher-Gets s = elim (Option-cases (get "interface_id" entry)) [
    | inl g ↦ rw (g, get_publisher, field_of) (refl, λ f. f, λ f h e. absurd (ground (arith, e)))
    | inr (v, g) ↦ elim (Option-cases (key_of v)) [
      | inl n ↦
          rw (g, n, get_publisher, field_of, hash)
            (refl, λ f. f, λ f h e. absurd (ground (arith, e)))
      | inr (k, n) ↦
          let id : key_at "interface_id" entry ≡ some k = ground (arith, g, n) in
          elim (Option-cases (get "version" entry)) [
            | inl m ↦
                rw (g, n, m, get_publisher, field_of, hash)
                  (refl, λ f. f, λ f h e. absurd (ground (arith, e)))
            | inr (version, m) ↦
                elim (Option-cases (cached_handle w version (lookup k s.publishers))) [
                  | inr (c, hit) ↦
                      let (old, found, same) =
                        cached_handle-some version (lookup k s.publishers) hit in
                      rw (g, n, m, hit, get_publisher, field_of, hash)
                        (
                          refl,
                          λ f. f,
                          λ f h e.
                              subst (λ z. IsFor entry z.made_for) (returned e)
                                (IsFor-filed entry s.publishers id m found same f.0),
                        )
                  | inl miss ↦ elim (Option-cases (w.create_publisher entry)) [
                    | inl no' ↦
                        rw (g, n, m, miss, no', get_publisher, field_of, hash)
                          (refl, λ f. f, λ f h e. absurd (ground (arith, e)))
                    | inr (x, made) ↦
                        rw (g, n, m, miss, made, get_publisher, field_of, hash)
                          (
                            refl,
                            λ f. (IsOwn-insert entry k version x s.publishers id m f.0, f.1),
                            λ f h e.
                                subst (λ z. IsFor entry z.made_for) (returned e)
                                  (IsFor-own entry id m),
                          )
                  ]
                ]
          ]
    ]
  ]

  pub get_client-Gets : (s : Executor) → let (r, s') = get_client w entry s in Gets s r s'
  unfolding get_client field_of hash cached_handle
  get_client-Gets s = elim (Option-cases (get "interface_id" entry)) [
    | inl g ↦ rw (g, get_client, field_of) (refl, λ f. f, λ f h e. absurd (ground (arith, e)))
    | inr (v, g) ↦ elim (Option-cases (key_of v)) [
      | inl n ↦
          rw (g, n, get_client, field_of, hash) (refl, λ f. f, λ f h e. absurd (ground (arith, e)))
      | inr (k, n) ↦
          let id : key_at "interface_id" entry ≡ some k = ground (arith, g, n) in
          elim (Option-cases (get "version" entry)) [
            | inl m ↦
                rw (g, n, m, get_client, field_of, hash)
                  (refl, λ f. f, λ f h e. absurd (ground (arith, e)))
            | inr (version, m) ↦
                elim (Option-cases (cached_handle w version (lookup k s.clients))) [
                  | inr (c, hit) ↦
                      let (old, found, same) =
                        cached_handle-some version (lookup k s.clients) hit in
                      rw (g, n, m, hit, get_client, field_of, hash)
                        (
                          refl,
                          λ f. f,
                          λ f h e.
                              subst (λ z. IsFor entry z.made_for) (returned e)
                                (IsFor-filed entry s.clients id m found same f.1),
                        )
                  | inl miss ↦ elim (Option-cases (w.create_client entry)) [
                    | inl no' ↦
                        rw (g, n, m, miss, no', get_client, field_of, hash)
                          (refl, λ f. f, λ f h e. absurd (ground (arith, e)))
                    | inr (x, made) ↦
                        rw (g, n, m, miss, made, get_client, field_of, hash)
                          (
                            refl,
                            λ f. (f.0, IsOwn-insert entry k version x s.clients id m f.1),
                            λ f h e.
                                subst (λ z. IsFor entry z.made_for) (returned e)
                                  (IsFor-own entry id m),
                          )
                  ]
                ]
          ]
    ]
  ]
