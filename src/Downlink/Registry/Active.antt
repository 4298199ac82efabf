-- ===== src/Downlink/Registry/Active.antt =====
-- Which definitions `get_interface` can give: only entries of the last registry that was read, that
-- passed every check and whose type is installed.
use scv_agent.Base.Dict.{lookup, All-lookup, All-insert, insert}
use scv_agent.Downlink.Registry.{
  sortable, done, start, get_interface, receive_all, no_entries, conclude, interfaces_of, Sync,
  install, on_registry, Sorting, sort_entry, no_typesupport, Reason, sort_entries, Load, refuse,
  sort_fields, item, sorted, loaded, Sorted, load_type, admit, validate_entry, TypeSupport,
}
use scv_agent.Base.{
  ap, ◌∷◌, Bool-cases, [], refl, subst, inr, arith, inl, Option-cases, All, List, Option, none,
  some, ◌≡◌, true, ◌⊎◌,
}
use scv_agent.Json.{key_eq_trans, json_keys, key_eq_symm, key_eq, key_of, Json, Items, Fields, Key}

-- A definition that commands may be run by.
pub record IsUsable (ts : TypeSupport) (entry : Fields) : Type 0 where
  pub valid : validate_entry (Json.obj entry) ≡ none
  pub installed : load_type ts entry ≡ loaded

-- The definition stands under its own id.
pub record IsFiled (ts : TypeSupport) (e : Key × Fields) : Type 0 where
  pub usable : IsUsable ts e.1
  pub id : Key
  pub has_id : key_of (item "interface_id" e.1) ≡ some id
  pub under : (key_eq id e.0 ≡ true) ⊎ (id ≡ e.0)

abbrev pub AllFiled : TypeSupport → List (Key × Fields) → Type 0
AllFiled ts = All (IsFiled ts)

module _ (ts : TypeSupport) where
  admit-AllFiled :
      (entry : Fields) (t : Sorted) {t' : Sorted}
      → IsUsable ts entry
      → admit entry t ≡ sorted t'
      → AllFiled ts t.active
      → AllFiled ts t'.active
  unfolding admit
  admit-AllFiled entry t {t'} u h f = elim (Option-cases (key_of (item "interface_id" entry))) [
    | inl e ↦ absurd (ground (arith, e))
    | inr (k, e) ↦
        let filed = λ (j : Key) (w : (key_eq k j ≡ true) ⊎ (k ≡ j)).
          let r : IsFiled ts (j, entry) = record { usable = u; id = k; has_id = e; under = w } in
          r in
        subst (AllFiled ts) (active_of e) (
          All-insert (IsFiled ts) k entry t.active (filed k (inr refl))
            (λ j same. filed j (inl (key_eq_symm j k same))) f)
  ]
    where
      active_of :
          {k : Key}
          → key_of (item "interface_id" entry) ≡ some k
          → insert k entry t.active ≡ t'.active
      active_of e = ground (arith, e)

  refuse_keeps :
      (iid : Json) (reason : Reason) (t : Sorted) {t' : Sorted}
      → refuse iid reason t ≡ sorted t'
      → t.active ≡ t'.active
  unfolding refuse
  refuse_keeps iid reason t h = ground arith

  -- An entry is refused, and the table stays, or it is usable and is entered.
  sort_fields_cases :
      (entry : Fields) (t : Sorted) {t' : Sorted}
      → sort_fields ts entry t ≡ sorted t'
      → (t.active ≡ t'.active) ⊎ (IsUsable ts entry × (admit entry t ≡ sorted t'))
  unfolding sort_fields
  sort_fields_cases entry t {t'} h = elim (Option-cases (validate_entry (Json.obj entry))) [
    | inr (r, e) ↦ inl (refuse_keeps _ r t (rw (e, sort_fields) at h))
    | inl e ↦ go (load_type ts entry) refl e h
  ]
    where
      go :
          (l : Load)
          → load_type ts entry ≡ l
          → validate_entry (Json.obj entry) ≡ none
          → sort_fields ts entry t ≡ sorted t'
          → (t.active ≡ t'.active) ⊎ (IsUsable ts entry × (admit entry t ≡ sorted t'))
      go Load.loaded el e h = inr (record { valid = e; installed = el }, ground (arith, e, el))
      go Load.not_found el e h =
          inl (refuse_keeps _ no_typesupport t (rw (e, el, sort_fields) at h))
      go Load.fails el e h = absurd (ground (arith, e, el))

  abbrev Files : Sorting → Type 0
  Files (Sorting.sorted t) = AllFiled ts t.active
  Files (Sorting.breaks x) = Unit

  sort_fields-Files :
      (entry : Fields) (t : Sorted) → AllFiled ts t.active → Files (sort_fields ts entry t)
  sort_fields-Files entry t f = go (sort_fields ts entry t) refl
    where
      go : (r : Sorting) → sort_fields ts entry t ≡ r → Files r
      go (Sorting.sorted t') e = elim (sort_fields_cases entry t e) [
        | inl kept ↦ subst (AllFiled ts) kept f
        | inr (u, a) ↦ admit-AllFiled entry t u a f
      ]
      go (Sorting.breaks x) e = tt

  sort_entry-Files : (v : Json) (t : Sorted) → AllFiled ts t.active → Files (sort_entry ts v t)
  unfolding sort_entry
  sort_entry-Files (Json.obj entry) t f = sort_fields-Files entry t f
  sort_entry-Files _ t f = tt

  pub sort_entries-Files :
      (vs : Items) (t : Sorted) → AllFiled ts t.active → Files (sort_entries ts vs t)
  unfolding sort_entries
  sort_entries-Files Items.nil t f = f
  sort_entries-Files (Items.cons v vs) t f =
      go (sort_entries-Files vs) (sort_entry ts v t) refl (sort_entry-Files v t f)
    where
      go :
          ((t' : Sorted) → AllFiled ts t'.active → Files (sort_entries ts vs t'))
          → (r : Sorting) → sort_entry ts v t ≡ r
          → Files r
          → Files (sort_entries ts (Items.cons v vs) t)
      go rest (Sorting.sorted t') e g = rw (e, sort_entries) (rest t' g)
      go rest (Sorting.breaks x) e g = rw (e, sort_entries) tt

  conclude-AllFiled :
      (r : Sorting) (version : Option Json) (s : Sync)
      → Files r
      → AllFiled ts s.active
      → AllFiled ts (conclude r version s).0.active
  unfolding conclude install
  conclude-AllFiled (Sorting.sorted t) version s g f = elim (Bool-cases (sortable t.active)) [
    | inl e ↦ rw (e, install) g
    | inr e ↦ rw (e, install) g
  ]
  conclude-AllFiled (Sorting.breaks x) version s g f = f

  on_registry-AllFiled :
      (doc : Option Json) (s : Sync)
      → AllFiled ts s.active
      → AllFiled ts (on_registry ts doc s).0.active
  unfolding on_registry
  on_registry-AllFiled doc s f = elim (Option-cases (interfaces_of doc)) [
    | inl e ↦ rw (e, on_registry) f
    | inr ((vs, version), e) ↦
        rw (e, on_registry)
          (conclude-AllFiled (sort_entries ts vs no_entries) version s
            (sort_entries-Files vs no_entries tt) f)
  ]

  pub receive_all-AllFiled :
      (docs : List (Option Json)) (s : Sync)
      → AllFiled ts s.active
      → AllFiled ts (receive_all ts docs s).active
  unfolding receive_all
  receive_all-AllFiled [] s f = f
  receive_all-AllFiled (doc ∷ docs) s f =
      receive_all-AllFiled docs (on_registry ts doc s).0 (on_registry-AllFiled doc s f)

  -- After any payloads from an empty start, whatever get_interface gives passed every check of
  -- _validate_entry, has its type installed, and carries the id that was asked for.
  pub get_interface-IsUsable :
      (docs : List (Option Json)) (k : Key) {entry : Fields}
      → get_interface k (receive_all ts docs start) ≡ some entry
      → (usable : IsUsable ts entry) × (id : Key) × (key_of (item "interface_id" entry) ≡ some id)
        × (key_eq id k ≡ true)
  unfolding get_interface
  get_interface-IsUsable docs k h =
      let s = receive_all ts docs start in
      let (j, hit, f) = All-lookup (IsFiled ts) k s.active h (receive_all-AllFiled docs start tt) in
      (
        f.usable,
        f.id,
        f.has_id,
        elim f.under [ inl same ↦ key_eq_trans f.id j k same hit | inr same ↦ rw same hit ],
      )

  conclude_replaces :
      (r : Sorting) (version : Option Json) (s s' : Sync)
      → (conclude r version s).1 ≡ done
      → (conclude r version s).0.active ≡ (conclude r version s').0.active
  unfolding conclude install
  conclude_replaces (Sorting.sorted t) version s s' h = elim (Bool-cases (sortable t.active)) [
    | inl e ↦ rw (e, install)
    | inr e ↦ rw (e, install)
  ]
  conclude_replaces (Sorting.breaks x) version s s' h = absurd (ground arith)

  -- A registry payload that is installed without an exception replaces the old definitions: what
  -- get_interface gives after it does not depend on the state before it.
  pub on_registry_replaces :
      (doc : Option Json) (s s' : Sync) (k : Key) {interfaces : Items × Option Json}
      → interfaces_of doc ≡ some interfaces
      → (on_registry ts doc s).1 ≡ done
      → get_interface k (on_registry ts doc s).0 ≡ get_interface k (on_registry ts doc s').0
  unfolding on_registry get_interface
  on_registry_replaces doc s s' k {interfaces} e h =
      let (vs, version) = interfaces in
      let r = sort_entries ts vs no_entries in
      rw (e, on_registry)
        (ap (lookup k) (conclude_replaces r version s s' (rw (e, on_registry) at h)))
