-- ===== src/RegistryTool/Agreement.antt =====
-- The tool's check is as strict as the vehicle's.
use scv_agent.Base.Dict.{insert}
use scv_agent.Json.{json_keys, key_of, Key, Fields}
use scv_agent.Downlink.Registry.{
  loaded, admit, load_type, sort_fields, sorted, sort_entries, sort_entry, required_fields, Sorted,
  item, validate_entry, check_fields, missing_fields, TypeSupport,
}
use scv_agent.RegistryTool.{
  other_missing, repeats_id, is_in, problem_unless, validate_from, item_problems, other_problems,
  entry_problems, value_problems, Problem,
}
use scv_agent.Json.{Json, Items}
use scv_agent.Base.{
  not, ◌∙◌, suc, inl, inr, Option-cases, ◌≢◌, List-cases, refl, none, arith, ◌↔◌, ◌∷◌, some, [],
  ◌≡◌, ◌++◌, List, ℕ,
}

append-nil_left : (ps qs : List Problem) → ps ++ qs ≡ [] → ps ≡ []
append-nil_left [] qs h = refl
append-nil_left (p ∷ ps) qs h = absurd (ground arith)

append-nil_right : (ps qs : List Problem) → ps ++ qs ≡ [] → qs ≡ []
append-nil_right [] qs h = h
append-nil_right (p ∷ ps) qs h = absurd (ground arith)

-- The tool's tests of the values find no error exactly where the vehicle's find none.
pub value_problems-check_fields :
    (i : ℕ) (entry : Fields) → (value_problems i entry ≡ []) ↔ (check_fields entry ≡ none)
unfolding value_problems check_fields
value_problems-check_fields i entry = (λ h. ground arith, λ h. ground arith)

-- The body of the loop finds no error only where the vehicle accepts the entry.
entry_problems-accepts :
    (i : ℕ) (entry : Fields) (seen : List Key) {seen' : List Key}
    → entry_problems i entry seen ≡ some ([], seen')
    → (validate_entry (Json.obj entry) ≡ none)
      × ((k : Key) × (key_of (item "interface_id" entry) ≡ some k))
unfolding entry_problems validate_entry
entry_problems-accepts i entry seen h = elim (List-cases (missing_fields required_fields entry)) [
  | inr (f, fs, e) ↦ absurd (ground (arith, e))
  | inl e ↦ elim (Option-cases (key_of (item "interface_id" entry))) [
    | inl n ↦ absurd (ground (arith, e, n))
    | inr (k, n) ↦
        let fine : value_problems i entry ≡ [] =
          append-nil_right (problem_unless (not (is_in k seen)) (repeats_id i))
            (value_problems i entry) (ground (arith, e, n)) in
        let checked = (value_problems-check_fields i entry).0 fine in
        (ground (arith, e, checked), (k, n))
  ]
]

-- What the loop finds in an entry that is no dict is never nothing.
other_problems-some :
    (i : ℕ) (v : Json) (seen seen' : List Key) → other_problems i v seen ≢ some ([], seen')
unfolding other_problems
other_problems-some i v seen seen' h = elim (Option-cases (other_missing v)) [
  | inl e ↦ ground (arith, e)
  | inr (m, e) ↦ elim (List-cases m) [
    | inl z ↦ ground (arith, e, z)
    | inr (f, fs, z) ↦ ground (arith, e, z)
  ]
]

module _ (ts : TypeSupport) where
  -- The vehicle sorts an entry in which the tool finds no error among the active ones.
  abbrev FilesOne : Json → Sorted → Type 0
  FilesOne v t = (t' : Sorted) × (sort_entry ts v t ≡ sorted t') × (t'.unsupported ≡ t.unsupported)

  sort_entry-Files :
      (v : Json) (i : ℕ) (seen : List Key) (t : Sorted) {seen' : List Key}
      → ((entry : Fields) → load_type ts entry ≡ loaded)
      → item_problems i v seen ≡ some ([], seen')
      → FilesOne v t
  unfolding item_problems sort_entry sort_fields admit
  sort_entry-Files (Json.obj entry) i seen t {seen'} all h =
      let (ok, (k, n)) = entry_problems-accepts i entry seen {seen' = seen'} h in
      (record t { active = insert k entry t.active }, ground (arith, ok, all entry, n), refl)
  sort_entry-Files v i seen t {seen'} all h =
      absurd (other_problems-some i v seen seen' (ground (arith, h)))

  abbrev pub FilesAll : Items → Sorted → Type 0
  FilesAll vs t =
      (t' : Sorted) × (sort_entries ts vs t ≡ sorted t') × (t'.unsupported ≡ t.unsupported)

  -- A list of entries in which the registry tool finds no error is one that a vehicle with all
  -- types installed sorts without refusing an entry and without an exception.
  pub validate_from-FilesAll :
      (vs : Items) (i : ℕ) (seen : List Key) (t : Sorted)
      → ((entry : Fields) → load_type ts entry ≡ loaded)
      → validate_from i vs seen ≡ some []
      → FilesAll vs t
  unfolding validate_from sort_entries
  validate_from-FilesAll Items.nil i seen t all h = (t, refl, refl)
  validate_from-FilesAll (Items.cons v vs) i seen t all h =
      elim (Option-cases (item_problems i v seen)) [
        | inl e ↦ absurd (ground (arith, e))
        | inr ((ps, seen'), e) ↦ elim (Option-cases (validate_from (suc i) vs seen')) [
          | inl f ↦ absurd (ground (arith, e, f))
          | inr (qs, f) ↦
              let joined : ps ++ qs ≡ [] = ground (arith, e, f, h) in
              let (t1, g, same1) =
                sort_entry-Files v i seen t {seen' = seen'} all
                  (ground (arith, e, append-nil_left ps qs joined)) in
              let (t2, k, same2) =
                validate_from-FilesAll vs (suc i) seen' t1 all
                  (ground (arith, f, append-nil_right ps qs joined)) in
              (t2, ground (arith, g, k), same2 ∙ same1)
        ]
      ]
