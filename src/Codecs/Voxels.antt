-- ===== src/Codecs/Voxels.antt =====
-- The points that the voxel codec keeps.
use scv_agent.Base.{
  refl, sym, subst, ◌||◌, inr, inl, arith, true, Bool-cases, All, false, ◌≡◌, [], ◌∷◌, List,
}
use scv_agent.Codecs.{downsample, seen, same_index, first_points, Index}

module _ {ℓ} {P : Type ℓ} (index_of : P → Index) where
  -- No two points of the list have the same index, and none has one of `before`.
  abbrev AreFresh : List Index → List P → Type 0
  AreFresh before [] = Unit
  AreFresh before (p ∷ ps) = (seen (index_of p) before ≡ false) × AreFresh (index_of p ∷ before) ps

  abbrev indices : List P → List Index
  indices [] = []
  indices (p ∷ ps) = index_of p ∷ indices ps

  -- The first list is the second without some of its elements.
  pub data IsPart : List P → List P → Type ℓ where
    none_left : IsPart [] []
    skips : {p : P} {ps qs : List P} → IsPart ps qs → IsPart ps (p ∷ qs)
    takes : {p : P} {ps qs : List P} → IsPart ps qs → IsPart (p ∷ ps) (p ∷ qs)

  -- Points of the cloud, in its order, one for each voxel that has any.
  pub record IsSample (kept ps : List P) : Type ℓ where
    pub part : IsPart kept ps
    pub fresh : AreFresh [] kept
    pub covers : All (λ p. seen (index_of p) (indices kept) ≡ true) ps

  first_points-IsPart :
      (before : List Index) (ps : List P) → IsPart (first_points index_of before ps) ps
  unfolding first_points
  first_points-IsPart before [] = none_left
  first_points-IsPart before (p ∷ ps) = elim (Bool-cases (seen (index_of p) before)) [
    | inl there ↦ rw (there, first_points) (skips (first_points-IsPart (index_of p ∷ before) ps))
    | inr new ↦ rw (new, first_points) (takes (first_points-IsPart (index_of p ∷ before) ps))
  ]

  -- More indices before forbid more.
  less_fresh :
      (before more : List Index) (ps : List P)
      → ((i : Index) → seen i before ≡ true → seen i more ≡ true)
      → AreFresh more ps
      → AreFresh before ps
  less_fresh before more [] h f = tt
  less_fresh before more (p ∷ ps) h f = (
    ground (arith, h (index_of p), f.0),
    less_fresh (index_of p ∷ before) (index_of p ∷ more) ps (λ i e. ground (arith, e, h i)) f.1,
  )

  first_points-AreFresh :
      (before : List Index) (ps : List P) → AreFresh before (first_points index_of before ps)
  unfolding first_points
  first_points-AreFresh before [] = tt
  first_points-AreFresh before (p ∷ ps) = elim (Bool-cases (seen (index_of p) before)) [
    | inl there ↦
        rw (there, first_points)
          (less_fresh before (index_of p ∷ before) _ (λ i e. ground (arith, e))
            (first_points-AreFresh (index_of p ∷ before) ps))
    | inr new ↦ rw (new, first_points) (new, first_points-AreFresh (index_of p ∷ before) ps)
  ]

same_index_trans :
    (i j k : Index) → same_index i j ≡ true → same_index j k ≡ true → same_index i k ≡ true
same_index_trans i j k h f = ground (arith, h, f)

seen_same :
    (i j : Index) (js : List Index) → same_index i j ≡ true → seen i js ≡ true → seen j js ≡ true
seen_same i j [] h f = absurd (ground arith)
seen_same i j (k ∷ js) h f = ground (arith, h, f, seen_same i j js h, same_index_trans k i j)

same_index_refl : (i : Index) → same_index i i ≡ true
same_index_refl i = ground arith

All-map {ℓ} :
    {A : Type ℓ} (P Q : A → Type 0) (xs : List A) → ((x : A) → P x → Q x) → All P xs → All Q xs
All-map P Q [] f h = tt
All-map P Q (x ∷ xs) f h = (f x h.0, All-map P Q xs f h.1)

module _ {ℓ} {P : Type ℓ} (index_of : P → Index) where
  abbrev Covered : List Index → List P → P → Type 0
  Covered before kept q =
      (seen (index_of q) before || seen (index_of q) (indices index_of kept)) ≡ true

  first_points-Covered :
      (before : List Index) (ps : List P)
      → All (Covered before (first_points index_of before ps)) ps
  unfolding first_points
  first_points-Covered before [] = tt
  first_points-Covered before (p ∷ ps) =
      let i = index_of p in
      let kept = first_points index_of (i ∷ before) ps in
      let rest = first_points-Covered (i ∷ before) ps in
      elim (Bool-cases (seen i before)) [
        | inl there ↦
            let e : first_points index_of before (p ∷ ps) ≡ kept = rw (there, first_points) refl in
            subst (λ k. All (Covered before k) (p ∷ ps)) (sym e)
              (
                ground (arith, there),
                All-map (Covered (i ∷ before) kept) (Covered before kept) ps
                    (λ q c. ground (arith, c, seen_same i (index_of q) before, there)) rest,
              )
        | inr new ↦
            let e : first_points index_of before (p ∷ ps) ≡ p ∷ kept =
              rw (new, first_points) refl in
            subst (λ k. All (Covered before k) (p ∷ ps)) (sym e)
              (
                ground (arith, same_index_refl i),
                All-map (Covered (i ∷ before) kept) (Covered before (p ∷ kept)) ps
                    (λ q c. ground (arith, c)) rest,
              )
      ]

  -- What the voxel codec keeps of a cloud is a part of it, in its order, with a point in every
  -- voxel that has one, and no two points in the same voxel.
  pub downsample-IsSample : (ps : List P) → IsSample index_of (downsample index_of ps) ps
  unfolding downsample
  downsample-IsSample ps = record {
    part = first_points-IsPart index_of [] ps;
    fresh = first_points-AreFresh index_of [] ps;
    covers = first_points-Covered [] ps;
  }
