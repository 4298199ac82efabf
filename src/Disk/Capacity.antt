-- ===== src/Disk/Capacity.antt =====
-- The disk limit, and where a record goes.
use Prim.Native.Nat.{zero}
use scv_agent.Disk.{is_current, Segment, total_bytes, ensure_capacity, shrink, unlink_oldest, Disk}
use scv_agent.Base.{
  ap, true, All, inr, inl, ltb, Bool-cases, Option-cases, arith, some, ◌⊎◌, ◌<◌, length, Option,
  none, ℕ, suc, ◌+◌, ◌≡◌, ◌≤◌, List, [], ◌∷◌,
}

is_current-some : (c : Option ℕ) (n : ℕ) → is_current c n ≡ true → c ≡ some n
is_current-some none n h = absurd (ground (arith, h))
is_current-some (some m) n h = ap some (ground (arith, h))

-- Nothing is left that may be deleted: every segment is the open one.
abbrev pub NoVictim : Disk → Type 0
NoVictim d = All (λ g. d.current ≡ some g.number) d.segments

unlink_oldest-none :
    (c : Option ℕ) (gs : List Segment) → unlink_oldest c gs ≡ none → All (λ g. c ≡ some g.number) gs
unfolding unlink_oldest
unlink_oldest-none c [] h = tt
unlink_oldest-none c (g ∷ gs) h = elim (Bool-cases (is_current c g.number)) [
  | inl open' ↦
      (is_current-some c g.number open', unlink_oldest-none c gs (ground (arith, h, open')))
  | inr other ↦ absurd (ground (arith, h, other))
]

length-unlink_oldest :
    (c : Option ℕ) (gs : List Segment) {rest : List Segment}
    → unlink_oldest c gs ≡ some rest
    → length gs ≡ suc (length rest)
unfolding unlink_oldest
length-unlink_oldest c [] h = ground arith
length-unlink_oldest c (g ∷ gs) h = elim (Option-cases (unlink_oldest c gs)) [
  | inl e ↦ ground (arith, e)
  | inr (r, e) ↦ ground (arith, e, length-unlink_oldest c gs e)
]

shrink_fits :
    (fuel incoming : ℕ) (d : Disk)
    → length d.segments < fuel
    → let d' = shrink fuel incoming d in (total_bytes d' + incoming ≤ d'.max_bytes) ⊎ NoVictim d'
unfolding shrink
shrink_fits zero incoming d h = absurd (omega arith)
shrink_fits (suc fuel) incoming d h =
    elim (Bool-cases (ltb d.max_bytes (total_bytes d + incoming))) [
      | inr room ↦ rw (room, shrink) (inl (ground (arith, room)))
      | inl full ↦ elim (Option-cases (unlink_oldest d.current d.segments)) [
        | inl e ↦ rw (full, e, shrink) (inr (unlink_oldest-none d.current d.segments e))
        | inr (rest, e) ↦
            rw (full, e, shrink)
              (shrink_fits fuel incoming _
                (omega (arith, length-unlink_oldest d.current d.segments e)))
      ]
    ]

-- After _ensure_capacity the coming record fits under the disk limit, or no segment but the open
-- one is left: the fuel of the loop is enough.
pub ensure_capacity_fits :
    (incoming : ℕ) (d : Disk)
    → let d' = ensure_capacity incoming d in
      (total_bytes d' + incoming ≤ d'.max_bytes) ⊎ NoVictim d'
unfolding ensure_capacity
ensure_capacity_fits incoming d = shrink_fits (suc (length d.segments)) incoming d (omega arith)
