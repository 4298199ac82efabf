-- ===== src/Downlink/Registry/Faults.antt =====
-- What a registry document that is not as expected does to the registry.
use scv_agent.Base.{
  refl, inl, inr, ◌⊎◌, if◌then◌else◌, arith, false, Bool, Option, none, some, ◌≡◌, true,
}
use scv_agent.Json.{Json, Items}
use scv_agent.Downlink.Registry.{
  attribute_error, sort_entry, no_entries, raised, done, is_object, breaks, interfaces_of, conclude,
  Sorted, Error, Sync, sort_entries, Sorting, on_registry, TypeSupport,
}

-- Some entry of the list is no dict.
abbrev pub has_non_object : Items → Bool
has_non_object Items.nil = false
has_non_object (Items.cons v vs) = if is_object v then has_non_object vs else true

module _ (ts : TypeSupport) where
  -- A document that cannot be parsed, or that has no list of interfaces, leaves the registry as it
  -- was, without an exception.
  pub on_registry_unparsed :
      (doc : Option Json) (s : Sync) → interfaces_of doc ≡ none → on_registry ts doc s ≡ (s, done)
  unfolding on_registry
  on_registry_unparsed doc s e = rw (e, on_registry)

  abbrev pub Breaks : Sorting → Type 0
  Breaks r = (e : Error) × (r ≡ breaks e)

  sort_entries-Breaks :
      (vs : Items) (t : Sorted) → has_non_object vs ≡ true → Breaks (sort_entries ts vs t)
  unfolding sort_entries
  sort_entries-Breaks Items.nil t h = absurd (ground arith)
  sort_entries-Breaks (Items.cons v vs) t h =
      after (sort_entry ts v t) refl (sort_entries-Breaks vs) (head_or_rest v h)
    where
      head_or_rest :
          (v : Json)
          → has_non_object (Items.cons v vs) ≡ true
          → ((e : Error) × (sort_entry ts v t ≡ breaks e)) ⊎ (has_non_object vs ≡ true)
      head_or_rest (Json.obj entry) h = inr h
      head_or_rest _ h = inl (attribute_error, unfold sort_entry in refl)

      after :
          (r : Sorting)
          → sort_entry ts v t ≡ r
          → ((t' : Sorted) → has_non_object vs ≡ true → Breaks (sort_entries ts vs t'))
          → (Breaks (sort_entry ts v t)) ⊎ (has_non_object vs ≡ true)
          → Breaks (sort_entries ts (Items.cons v vs) t)
      after (Sorting.breaks x) e rest h = (x, rw (e, sort_entries))
      after (Sorting.sorted t') e rest (inl (x, b)) = absurd (ground (arith, e, b))
      after (Sorting.sorted t') e rest (inr h) =
          let (x, b) = rest t' h in (x, rw (e, sort_entries) b)

  -- A registry payload of which one entry is no object raises an exception and leaves the registry
  -- as it was.
  pub on_registry_non_object :
      (doc : Option Json) (s : Sync) (vs : Items) (version : Option Json)
      → interfaces_of doc ≡ some (vs, version)
      → has_non_object vs ≡ true
      → (e : Error) × (on_registry ts doc s ≡ (s, raised e))
  unfolding on_registry conclude
  on_registry_non_object doc s vs version h bad =
      let (x, e) = sort_entries-Breaks vs no_entries bad in
      (x, rw (h, on_registry) (rw (e, conclude)))
